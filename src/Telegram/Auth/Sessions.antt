-- ===== src/Telegram/Auth/Sessions.antt =====
-- When the login prints a session, and what it does with its client.
use mathlib.Core.Path.{subst}
use telegram_olymptrade_sign.Prelude.{
  sym, ap, ◌∙◌, inl, inr, Bool-cases, ◌≡◌, ◌≢◌, ◌↔◌, ◌⊎◌, refl, Bool, true, false, ◌||◌, Option,
  none, some, String, List, [], ◌∷◌, ◌++◌, arith, str_eq, eq_iff,
}
use telegram_olymptrade_sign.Prelude.Int.{ℤ}
use telegram_olymptrade_sign.Telegram.Auth.{
  telegram_config_error, timeout_error, exception, cancelled_error, interrupt, Call, returns,
  raises, disconnected, Act, Seen, Creds, creds, invalid, invalid_telegram, read_raised,
  is_running_on_railway, Login, after_disconnect, start_and_verify, do_auth_and_verify, wait_for,
  exits, exit_of, is_zero, main,
}

-- No call of `disconnect`.
abbrev pub Lacks : List Act → Type 0
Lacks [] = Unit
Lacks (disconnected ∷ acts) = ⊥
Lacks (_ ∷ acts) = Lacks acts

-- The credentials are read and complete.
abbrev pub IsComplete : Creds → Type 0
IsComplete (creds api_id api_hash phone) = (is_zero api_id ≡ false) × (api_hash ≢ "") × (phone ≢ "")
IsComplete _ = ⊥

-- Each call of the client returns, and the session is as given.
pub record LogsIn (l : Login) (session_str : String) : Type 0 where
  pub start : l.start ≡ returns tt
  pub save : l.save ≡ returns session_str
  pub get_me : l.get_me ≡ returns tt
  pub disconnect : l.disconnect ≡ returns tt

exit_of_iff :
    (end : Call String) (s : String)
    → (exit_of (wait_for end) ≡ exits 0 (some s)) ↔ (end ≡ returns s)
unfolding wait_for exit_of
exit_of_iff (returns a) s = ((λ e. cc), (λ e. cc))
exit_of_iff (raises telegram_config_error) s = ((λ e. cc), (λ e. cc))
exit_of_iff (raises timeout_error) s = ((λ e. cc), (λ e. cc))
exit_of_iff (raises exception) s = ((λ e. cc), (λ e. cc))
exit_of_iff (raises cancelled_error) s = ((λ e. cc), (λ e. cc))
exit_of_iff (raises interrupt) s = ((λ e. cc), (λ e. cc))

do_auth-LogsIn :
    (a c d : Call Unit) (b : Call String) (s : String)
    → let l : Login = record { start = a; save = b; get_me = c; disconnect = d } in
      (do_auth_and_verify l).0 ≡ returns s → LogsIn l s
unfolding do_auth_and_verify start_and_verify
do_auth-LogsIn (returns _) (returns _) (returns _) (returns t) s e = record {
  start = refl;
  save = cc;
  get_me = refl;
  disconnect = refl;
}
do_auth-LogsIn a c (raises e) b s h = cc
do_auth-LogsIn (raises e) c (returns _) b s h = cc
do_auth-LogsIn (returns _) c (returns _) (raises e) s h = cc
do_auth-LogsIn (returns _) (raises e) (returns _) (returns t) s h = cc

LogsIn-do_auth : (l : Login) (s : String) → LogsIn l s → (do_auth_and_verify l).0 ≡ returns s
unfolding do_auth_and_verify start_and_verify
LogsIn-do_auth l s h = rw (h.start, h.save, h.get_me, h.disconnect) refl

abbrev pub IsClosed : List Act → Type 0
IsClosed acts = (before : List Act) × (acts ≡ before ++ (disconnected ∷ [])) × Lacks before

after_disconnect-IsClosed :
    (d : Call Unit) (seen : Seen String) → Lacks seen.1 → IsClosed (after_disconnect d seen).1
after_disconnect-IsClosed (returns _) (end, acts) h = (acts, refl, h)
after_disconnect-IsClosed (raises e) (end, acts) h = (acts, refl, h)

start_and_verify-Lacks :
    (a c : Call Unit) (b : Call String) (d : Call Unit)
    → Lacks (start_and_verify (record { start = a; save = b; get_me = c; disconnect = d })).1
unfolding start_and_verify
start_and_verify-Lacks (raises e) c b d = tt
start_and_verify-Lacks (returns _) c (raises e) d = tt
start_and_verify-Lacks (returns _) (raises e) (returns s) d = tt
start_and_verify-Lacks (returns _) (returns _) (returns s) d = tt

do_auth-IsClosed : (l : Login) → IsClosed (do_auth_and_verify l).1
unfolding do_auth_and_verify
do_auth-IsClosed l =
    after_disconnect-IsClosed l.disconnect (start_and_verify l)
      (start_and_verify-Lacks l.start l.get_me l.save l.disconnect)

true≢false : true ≢ false
true≢false e = cc

two≢zero : (s : String) → exits 2 none ≢ exits 0 (some s)
two≢zero s e = cc

module _ (api_id : ℤ) (api_hash phone : String) (environment project_id : Option String)
    (l : Login) where
  abbrev given : Creds
  given = creds api_id api_hash phone

  abbrev lacking : Bool
  lacking = is_zero api_id || str_eq api_hash "" || str_eq phone ""

  lacking_iff : (lacking ≡ false) ↔ IsComplete given
  lacking_iff = ground (arith, eq_iff api_hash "", eq_iff phone "")

  main-lacking : lacking ≡ true → main given environment project_id l ≡ (exits 2 none, [])
  unfolding main
  main-lacking h = rw (main, h) refl

  main_on_railway :
      lacking ≡ false
      → is_running_on_railway environment project_id ≡ true
      → main given environment project_id l ≡ (exits 2 none, [])
  unfolding main
  main_on_railway h r = rw (main, h, r) refl

  main_goes :
      lacking ≡ false
      → is_running_on_railway environment project_id ≡ false
      → main given environment project_id l
        ≡ (exit_of (wait_for (do_auth_and_verify l).0), (do_auth_and_verify l).1)
  unfolding main
  main_goes h r = rw (main, h, r) refl

  -- Off Railway, with complete credentials.
  abbrev IsFree : Type 0
  IsFree = IsComplete given × (is_running_on_railway environment project_id ≡ false)

  main-IsFree :
      IsFree
      → main given environment project_id l
        ≡ (exit_of (wait_for (do_auth_and_verify l).0), (do_auth_and_verify l).1)
  main-IsFree (complete, r) = main_goes (lacking_iff.1 complete) r

  main_cases : (main given environment project_id l ≡ (exits 2 none, []) × ¬ IsFree) ⊎ IsFree
  main_cases = elim (Bool-cases lacking) [
    | inl h ↦ inl (main-lacking h, λ f. absurd (true≢false (sym h ∙ lacking_iff.1 f.0)))
    | inr h ↦ elim (Bool-cases (is_running_on_railway environment project_id)) [
      | inl r ↦ inl (main_on_railway h r, λ f. absurd (true≢false (sym r ∙ f.1)))
      | inr r ↦ inr (lacking_iff.0 h, r)
    ]
  ]

  prints :
      (s : String)
      → ((main given environment project_id l).0 ≡ exits 0 (some s))
        ↔ (IsComplete given × (is_running_on_railway environment project_id ≡ false) × LogsIn l s)
  prints s = elim main_cases [
    | inl (e, held) ↦ (
      (λ h. absurd (two≢zero s (sym (ap (λ r. r.0) e) ∙ h))),
      λ (complete, r, logs). absurd (held (complete, r)),
    )
    | inr (complete, r) ↦ (
      (λ h. (
        complete,
        r,
        do_auth-LogsIn l.start l.get_me l.disconnect l.save s (
            (exit_of_iff (do_auth_and_verify l).0 s).0
              (sym (ap (λ r. r.0) (main-IsFree (complete, r))) ∙ h)),
      )),
      λ (complete, r, logs).
          ap (λ r. r.0) (main-IsFree (complete, r))
          ∙ (exit_of_iff (do_auth_and_verify l).0 s).1 (LogsIn-do_auth l s logs),
    )
  ]

  closes :
      ((main given environment project_id l).1 ≡ [])
      ⊎ (IsComplete given
          × (is_running_on_railway environment project_id ≡ false)
          × IsClosed (main given environment project_id l).1)
  closes = elim main_cases [
    | inl (e, held) ↦ inl (ap (λ r. r.1) e)
    | inr (complete, r) ↦ inr (
      complete,
      r,
      subst IsClosed (sym (ap (λ r. r.1) (main-IsFree (complete, r)))) (do_auth-IsClosed l),
    )
  ]

-- The login prints a session exactly if the credentials are complete, it does not run on Railway, and each
-- call of the client returns, with that session. It makes a client only with complete credentials and off
-- Railway; and a client that it makes is disconnected once, at the end, whatever raises.
session_printed :
    (c : Creds) (environment project_id : Option String) (l : Login)
    → let (exit, acts) = main c environment project_id l in
      ((s : String)
        → (exit ≡ exits 0 (some s))
          ↔ (IsComplete c × (is_running_on_railway environment project_id ≡ false) × LogsIn l s))
      × ((acts ≡ [])
          ⊎ (IsComplete c × (is_running_on_railway environment project_id ≡ false) × IsClosed acts))
unfolding main
session_printed (creds api_id api_hash phone) environment project_id l = (
  prints api_id api_hash phone environment project_id l,
  closes api_id api_hash phone environment project_id l,
)
session_printed invalid environment project_id l = ((λ s. ((λ e. cc), λ h. absurd h.0)), inl refl)
session_printed invalid_telegram environment project_id l =
    ((λ s. ((λ e. cc), λ h. absurd h.0)), inl refl)
session_printed (read_raised e) environment project_id l =
    ((λ s. ((λ e. cc), λ h. absurd h.0)), inl refl)
