-- ===== src/Soak/Outcomes.antt =====
-- What assert_per_signal_outcomes of tools/soak_assertions.py asks of the rows of the signals.
use telegram_olymptrade_sign.Prelude.{
  ◌≡◌, ◌⊎◌, ◌↔◌, refl, inl, inr, Bool, true, false, not, ◌||◌, Option, none, some, String, List, [],
  ◌∷◌, All, str_eq, eq_iff, ap, sym, ◌∙◌, Bool-cases, Option-cases,
}
use mathlib.Core.Bool.{false≢true}
use mathlib.Core.Option.{some-injective, none-ne-some}
use telegram_olymptrade_sign.Soak.{
  SignalEntry, FixtureEntry, outcome_of, outcome_to_status, status_by_id, has_status, is_mismatch,
}

not_there : {st : String} → ¬ (none ≡ some st)
not_there {st} h = none-ne-some st h

same_status : {a b : String} → some a ≡ some b → a ≡ b
same_status {a} {b} h = some-injective a b h

-- The status that an outcome of the fixture asks for; the outcomes parse_failure and unsupported_pair ask for none.
abbrev pub Wants : String → String → Type 0
Wants o e =
    ((o ≡ "win_at_initial") × (e ≡ "done_win"))
    ⊎ ((o ≡ "loss_initial_win_gale1") × (e ≡ "done_win"))
    ⊎ ((o ≡ "loss_initial_loss_gale1_win_gale2") × (e ≡ "done_win"))
    ⊎ ((o ≡ "full_loss") × (e ≡ "done_loss"))
    ⊎ ((o ≡ "signal_expired") × (e ≡ "error"))

-- The last row of an id has a status.
abbrev pub IsLast : List SignalEntry → String → String → Type 0
IsLast [] id st = ⊥
IsLast (s ∷ ss) id st =
    IsLast ss id st ⊎ (All (λ x. ¬ (x.signal_id ≡ id)) ss × (s.signal_id ≡ id) × (s.status ≡ st))

-- An entry of the fixture with a signal id whose outcome asks for a status finds it in the last row of its signal.
abbrev pub IsMet : List SignalEntry → FixtureEntry → Type 0
IsMet signals f =
    (id expected : String)
    → f.signal_id ≡ some id
    → Wants (outcome_of f) expected
    → IsLast signals id expected

abbrev skipped : String → Bool
skipped o = str_eq o "parse_failure" || str_eq o "unsupported_pair"

lit_status :
    (o lit e : String)
    → (outcome_to_status lit ≡ some e) × (skipped lit ≡ false)
    → o ≡ lit
    → {x : String} → x ≡ e
    → (outcome_to_status o ≡ some x) × (skipped o ≡ false)
lit_status o lit e h p q = rw (p, q) h

Wants-status : (o e : String) → Wants o e → (outcome_to_status o ≡ some e) × (skipped o ≡ false)
unfolding outcome_to_status
Wants-status o e (inl (p, q)) = lit_status o "win_at_initial" "done_win" (refl, refl) p q
Wants-status o e (inr (inl (p, q))) =
    lit_status o "loss_initial_win_gale1" "done_win" (refl, refl) p q
Wants-status o e (inr (inr (inl (p, q)))) =
    lit_status o "loss_initial_loss_gale1_win_gale2" "done_win" (refl, refl) p q
Wants-status o e (inr (inr (inr (inl (p, q))))) =
    lit_status o "full_loss" "done_loss" (refl, refl) p q
Wants-status o e (inr (inr (inr (inr (p, q))))) =
    lit_status o "signal_expired" "error" (refl, refl) p q

-- An outcome that is not skipped has no status or wants the one it has.
status-Wants :
    (o : String)
    → skipped o ≡ false
    → (outcome_to_status o ≡ none) ⊎ ((e : String) × (outcome_to_status o ≡ some e) × Wants o e)
unfolding outcome_to_status
status-Wants o skip = elim (Bool-cases (str_eq o "win_at_initial")) [
  | inl y ↦ let p = (eq_iff o "win_at_initial").0 y in inr ("done_win", rw p refl, inl (p, refl))
  | inr n1 ↦ elim (Bool-cases (str_eq o "loss_initial_win_gale1")) [
    | inl y ↦
        let p = (eq_iff o "loss_initial_win_gale1").0 y in
        inr ("done_win", rw p refl, inr (inl (p, refl)))
    | inr n2 ↦ elim (Bool-cases (str_eq o "loss_initial_loss_gale1_win_gale2")) [
      | inl y ↦
          let p = (eq_iff o "loss_initial_loss_gale1_win_gale2").0 y in
          inr ("done_win", rw p refl, inr (inr (inl (p, refl))))
      | inr n3 ↦ elim (Bool-cases (str_eq o "full_loss")) [
        | inl y ↦
            let p = (eq_iff o "full_loss").0 y in
            inr ("done_loss", rw p refl, inr (inr (inr (inl (p, refl)))))
        | inr n4 ↦ elim (Bool-cases (str_eq o "signal_expired")) [
          | inl y ↦
              let p = (eq_iff o "signal_expired").0 y in
              inr ("error", rw p refl, inr (inr (inr (inr (p, refl)))))
          | inr n5 ↦ elim (Bool-cases (str_eq o "unsupported_pair")) [
            | inl y ↦
                let p = (eq_iff o "unsupported_pair").0 y in
                absurd (false≢true (sym skip ∙ rw p refl))
            | inr n6 ↦ inl (rw (outcome_to_status, n1, n2, n3, n4, n5, n6) refl)
          ]
        ]
      ]
    ]
  ]
]

-- What the row of a signal adds to the rows after it.
later_row :
    (s : SignalEntry) (ss : List SignalEntry) (id st : String)
    → status_by_id ss id ≡ some st
    → status_by_id (s ∷ ss) id ≡ some st
unfolding status_by_id
later_row s ss id st e = rw e refl

this_row :
    (s : SignalEntry) (ss : List SignalEntry) (id : String)
    → status_by_id ss id ≡ none
    → s.signal_id ≡ id
    → status_by_id (s ∷ ss) id ≡ some s.status
unfolding status_by_id
this_row s ss id e p = rw (e, (eq_iff s.signal_id id).1 p) refl

other_row :
    (s : SignalEntry) (ss : List SignalEntry) (id : String)
    → status_by_id ss id ≡ none
    → str_eq s.signal_id id ≡ false
    → status_by_id (s ∷ ss) id ≡ none
unfolding status_by_id
other_row s ss id e p = rw (e, p) refl

status_none :
    (ss : List SignalEntry) (id : String)
    → (status_by_id ss id ≡ none) ↔ All (λ x. ¬ (x.signal_id ≡ id)) ss
unfolding status_by_id
status_none [] id = ((λ h. tt), (λ h. refl))
status_none (s ∷ ss) id = (
  (λ h. elim (Option-cases (status_by_id ss id)) [
    | inr (st, e) ↦ absurd (not_there (sym h ∙ later_row s ss id st e))
    | inl e ↦ ((λ p. not_there (sym h ∙ this_row s ss id e p)), (status_none ss id).0 e)
  ]),
  (λ (new, others).
      other_row s ss id ((status_none ss id).1 others) (elim (Bool-cases (str_eq s.signal_id id)) [
        | inl y ↦ absurd (new ((eq_iff s.signal_id id).0 y))
        | inr n ↦ n
      ])),
)

status-IsLast :
    (ss : List SignalEntry) (id st : String) → (status_by_id ss id ≡ some st) ↔ IsLast ss id st
unfolding status_by_id
status-IsLast [] id st = ((λ h. absurd (not_there h)), (λ h. absurd h))
status-IsLast (s ∷ ss) id st = (
  (λ h. elim (Option-cases (status_by_id ss id)) [
    | inr (later, e) ↦ inl ((status-IsLast ss id st).0 (e ∙ sym (later_row s ss id later e) ∙ h))
    | inl e ↦ elim (Bool-cases (str_eq s.signal_id id)) [
      | inl y ↦
          let p = (eq_iff s.signal_id id).0 y in
          inr ((status_none ss id).0 e, p, same_status (sym (this_row s ss id e p) ∙ h))
      | inr n ↦ absurd (not_there (sym (other_row s ss id e n) ∙ h))
    ]
  ]),
  (λ h. elim h [
    | inl later ↦ later_row s ss id st ((status-IsLast ss id st).1 later)
    | inr (new, p, q) ↦ this_row s ss id ((status_none ss id).1 new) p ∙ ap some q
  ]),
)

mismatch_eq :
    (signals : List SignalEntry) (f : FixtureEntry) (id e : String)
    → skipped (outcome_of f) ≡ false
    → f.signal_id ≡ some id
    → outcome_to_status (outcome_of f) ≡ some e
    → is_mismatch signals f ≡ not (has_status (status_by_id signals id) e)
unfolding is_mismatch
mismatch_eq signals f id e p q r = rw (p, q, r) refl

matched : (o : Option String) (e : String) → (not (has_status o e) ≡ false) ↔ (o ≡ some e)
matched none e = ((λ h. absurd (false≢true (sym h))), (λ h. absurd (not_there h)))
matched (some st) e = (
  (λ h. elim (Bool-cases (str_eq st e)) [
    | inl y ↦ ap some ((eq_iff st e).0 y)
    | inr n ↦ absurd (false≢true (sym h ∙ ap not n))
  ]),
  (λ h. ap not ((eq_iff st e).1 (same_status h))),
)

skipped_entry :
    (signals : List SignalEntry) (f : FixtureEntry)
    → skipped (outcome_of f) ≡ true
    → is_mismatch signals f ≡ false
unfolding is_mismatch
skipped_entry signals f p = rw p refl

unnamed_entry :
    (signals : List SignalEntry) (f : FixtureEntry)
    → skipped (outcome_of f) ≡ false
    → f.signal_id ≡ none
    → is_mismatch signals f ≡ false
unfolding is_mismatch
unnamed_entry signals f p q = rw (p, q) refl

unasked_entry :
    (signals : List SignalEntry) (f : FixtureEntry) (id : String)
    → skipped (outcome_of f) ≡ false
    → f.signal_id ≡ some id
    → outcome_to_status (outcome_of f) ≡ none
    → is_mismatch signals f ≡ false
unfolding is_mismatch
unasked_entry signals f id p q r = rw (p, q, r) refl

IsMet-is_mismatch :
    (signals : List SignalEntry) (f : FixtureEntry)
    → IsMet signals f
    → is_mismatch signals f ≡ false
IsMet-is_mismatch signals f met = elim (Bool-cases (skipped (outcome_of f))) [
  | inl y ↦ skipped_entry signals f y
  | inr n ↦ elim (Option-cases f.signal_id) [
    | inl none_named ↦ unnamed_entry signals f n none_named
    | inr (id, named) ↦ elim (status-Wants (outcome_of f) n) [
      | inl unasked ↦ unasked_entry signals f id n named unasked
      | inr (e, asked, wants) ↦
          mismatch_eq signals f id e n named asked
          ∙ (matched (status_by_id signals id) e).1
              ((status-IsLast signals id e).1 (met id e named wants))
    ]
  ]
]

pub is_mismatch_lem :
    (signals : List SignalEntry) (f : FixtureEntry)
    → (is_mismatch signals f ≡ false) ↔ IsMet signals f
is_mismatch_lem signals f = (
  (λ h id e named wants.
      let (asked, n) = Wants-status (outcome_of f) e wants in
      (status-IsLast signals id e).0 (
        (matched (status_by_id signals id) e).0
          (sym (mismatch_eq signals f id e n named asked) ∙ h))),
  IsMet-is_mismatch signals f,
)

pub All-is_mismatch :
    (signals : List SignalEntry) (fs : List FixtureEntry)
    → All (λ f. is_mismatch signals f ≡ false) fs ↔ All (IsMet signals) fs
All-is_mismatch signals [] = ((λ h. h), (λ h. h))
All-is_mismatch signals (f ∷ fs) =
    let here = is_mismatch_lem signals f in
    let rest = All-is_mismatch signals fs in
    ((λ h. (here.0 h.0, rest.0 h.1)), (λ h. (here.1 h.0, rest.1 h.1)))
