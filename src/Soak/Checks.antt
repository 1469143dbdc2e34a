-- ===== src/Soak/Checks.antt =====
-- What each check of a soak run means when it passes.
use Prim.Native.String.{String}
use mathlib.Core.Bool.{false≢true}
use telegram_olymptrade_sign.Prelude.{
  ◌+◌, ◌≤◌, ◌≡◌, ◌≢◌, ◌↔◌, ◌⊎◌, refl, sym, ap, ◌∙◌, Bool, true, false, ◌&&◌, ◌||◌, not, Option,
  none, some, List, [], ◌∷◌, All, str_eq, eq_iff, arith, Bool-cases, inl, inr,
}
use telegram_olymptrade_sign.Config.{Time}
use telegram_olymptrade_sign.Telegram.Channel.{contains}
use telegram_olymptrade_sign.Telegram.Substring.{IsSubstring, contains_iff}
use telegram_olymptrade_sign.Soak.{
  StageEntry, FixtureEntry, SignalEntry, Key, key_eq, is_none, seen_before, duplicates,
  missed_triggers, mismatches, is_mismatch, assert_uptime, log_shows, not_completed,
  RestartDrillResult, assert_restart_drill,
}

abbrev pub key_of : StageEntry → Key
key_of s = (s.signal_id, s.stage)

-- No signal has two entries of one stage.
abbrev pub IsOncePerStage : List StageEntry → Type 0
IsOncePerStage [] = Unit
IsOncePerStage (s ∷ ss) = All (λ t. key_of s ≢ key_of t) ss × IsOncePerStage ss

abbrev pub IsNew : List Key → Key → Type 0
IsNew seen key = All (λ k. k ≢ key) seen

pub and_true : (a b : Bool) → ((a && b) ≡ true) ↔ ((a ≡ true) × (b ≡ true))
and_true a b = ground arith

key_eq_iff : (a b : Key) → (key_eq a b ≡ true) ↔ (a ≡ b)
key_eq_iff (a, b) (c, d) = (
  λ h.
      let both = (and_true (str_eq a c) (str_eq b d)).0 h in
      ap (λ x. (x, b)) ((eq_iff a c).0 both.0) ∙ ap (λ x. (c, x)) ((eq_iff b d).0 both.1),
  λ e.
      (and_true (str_eq a c) (str_eq b d)).1
        ((eq_iff a c).1 (ap (λ k. k.0) e), (eq_iff b d).1 (ap (λ k. k.1) e)),
)

seen_before_iff : (key : Key) (seen : List Key) → (seen_before key seen ≡ false) ↔ IsNew seen key
unfolding seen_before
seen_before_iff key [] = ground arith
seen_before_iff key (k ∷ ks) = elim (Bool-cases (key_eq k key)) [
  | inl same ↦ rw same ((λ h. absurd (cc)), (λ h. absurd (h.0 ((key_eq_iff k key).0 same))))
  | inr other ↦ rw other (
    (λ h. ((λ e. false≢true (sym other ∙ (key_eq_iff k key).1 e)), (seen_before_iff key ks).0 h)),
    (λ h. (seen_before_iff key ks).1 h.1),
  )
]

All-both :
    {A : Type 0} (P Q : A → Type 0) (xs : List A) → All (λ x. P x × Q x) xs ↔ (All P xs × All Q xs)
All-both P Q [] = ((λ h. (tt, tt)), (λ h. tt))
All-both P Q (x ∷ xs) = (
  (λ h. let rest = (All-both P Q xs).0 h.1 in ((h.0.0, rest.0), (h.0.1, rest.1))),
  (λ h. ((h.0.0, h.1.0), (All-both P Q xs).1 (h.0.1, h.1.1))),
)

pub All-trivial : {A : Type 0} (P : A → Type 0) (xs : List A) → ((x : A) → P x) → All P xs
All-trivial P [] f = tt
All-trivial P (x ∷ xs) f = (f x, All-trivial P xs f)

-- The loop of `assert_no_duplicate_trades` after the keys `seen`.
pub duplicates_iff :
    (seen : List Key) (ss : List StageEntry)
    → (is_none (duplicates seen ss) ≡ true)
      ↔ (All (λ s. IsNew seen (key_of s)) ss × IsOncePerStage ss)
unfolding duplicates
duplicates_iff seen [] = ((λ h. (tt, tt)), (λ h. refl))
duplicates_iff seen (s ∷ ss) =
    let split = All-both (λ t. key_of s ≢ key_of t) (λ t. IsNew seen (key_of t)) ss in
    let rest = duplicates_iff (key_of s ∷ seen) ss in
    let here = seen_before_iff (key_of s) seen in
    elim (Bool-cases (seen_before (key_of s) seen)) [
      | inl again ↦
          rw again ((λ h. absurd (cc)), (λ h. absurd (false≢true (sym (here.1 h.0.0) ∙ again))))
      | inr new ↦ rw new (
        (λ h.
            let (fresh, once) = rest.0 h in
            let (others, old) = split.0 fresh in ((here.0 new, old), (others, once))),
        (λ h. rest.1 (split.1 (h.1.0, h.0.1), h.1.1)),
      )
    ]

pub missed_triggers_iff :
    (tolerance : Time) (ss : List StageEntry)
    → (is_none (missed_triggers tolerance ss) ≡ true)
      ↔ All (λ s. s.placed_at_unix ≤ s.trigger_ts_unix + tolerance) ss
unfolding missed_triggers
missed_triggers_iff tolerance [] = ((λ h. tt), (λ h. refl))
missed_triggers_iff tolerance (s ∷ ss) = ground (arith, missed_triggers_iff tolerance ss)

pub mismatches_iff :
    (signals : List SignalEntry) (fs : List FixtureEntry)
    → (is_none (mismatches signals fs) ≡ true) ↔ All (λ f. is_mismatch signals f ≡ false) fs
unfolding mismatches
mismatches_iff signals [] = ((λ h. tt), (λ h. refl))
mismatches_iff signals (f ∷ fs) = ground (arith, mismatches_iff signals fs)

-- A log that is there and has the text, or has not.
abbrev pub Shows : String → Option String → Type 0
Shows t none = ⊥
Shows t (some text) = IsSubstring t text

abbrev pub Lacks : String → Option String → Type 0
Lacks t none = ⊥
Lacks t (some text) = ¬ IsSubstring t text

or_true : (a b : Bool) → ((a || b) ≡ true) ↔ ((a ≡ true) ⊎ (b ≡ true))
or_true a b = ground arith

pub uptime_iff :
    (log : Option String)
    → ((assert_uptime log).passed ≡ true) ↔ (Shows "bot_started" log ⊎ Shows "Bot started" log)
unfolding assert_uptime
uptime_iff none = ((λ h. absurd (cc)), (λ h. elim h [ inl x ↦ absurd x | inr x ↦ absurd x ]))
uptime_iff (some text) = (
  (λ h. elim ((or_true (contains "bot_started" text) (contains "Bot started" text)).0 h) [
    | inl x ↦ inl ((contains_iff "bot_started" text).0 x)
    | inr x ↦ inr ((contains_iff "Bot started" text).0 x)
  ]),
  (λ h. (or_true (contains "bot_started" text) (contains "Bot started" text)).1 (elim h [
    | inl x ↦ inl ((contains_iff "bot_started" text).1 x)
    | inr x ↦ inr ((contains_iff "Bot started" text).1 x)
  ])),
)

pub quiet_iff :
    (t : String) (log : Option String)
    → (log_shows (λ text. not (contains t text)) log ≡ true) ↔ Lacks t log
unfolding log_shows
quiet_iff t none = ((λ h. absurd (cc)), (λ h. absurd h))
quiet_iff t (some text) = (
  (λ h x. false≢true (sym (ap not ((contains_iff t text).1 x)) ∙ h)),
  (λ h. elim (Bool-cases (contains t text)) [
    | inl e ↦ absurd (h ((contains_iff t text).0 e))
    | inr e ↦ ap not e
  ]),
)

not_completed_iff :
    (ids : List (String × Bool))
    → (is_none (not_completed ids) ≡ true) ↔ All (λ (id, done). done ≡ true) ids
unfolding not_completed
not_completed_iff [] = ((λ h. tt), (λ h. refl))
not_completed_iff ((id, true) ∷ ids) =
    ((λ h. (refl, (not_completed_iff ids).0 h)), (λ h. (not_completed_iff ids).1 h.1))
not_completed_iff ((id, false) ∷ ids) = ((λ h. absurd (cc)), (λ h. absurd (false≢true h.0)))

-- The in-flight signals have all completed, where there were any.
abbrev pub IsCompleted : RestartDrillResult → Type 0
IsCompleted drill =
    (drill.in_flight_signal_ids ≢ []) → All (λ (id, done). done ≡ true) drill.completed_within_60s

pub drill_iff :
    (ids : List String) (done : List (String × Bool))
    → let drill : RestartDrillResult = record {
      in_flight_signal_ids = ids;
      completed_within_60s = done;
    } in
      ((assert_restart_drill drill).passed ≡ true) ↔ IsCompleted drill
unfolding assert_restart_drill
drill_iff [] done = ((λ h some_ids. absurd (some_ids refl)), (λ h. refl))
drill_iff (id ∷ ids) done =
    ((λ h some_ids. (not_completed_iff done).0 h), (λ h. (not_completed_iff done).1 (h (λ e. cc))))
