-- ===== src/Preflight/Passing.antt =====
-- When the preflight passes, and when it shuts its terminal down.
use telegram_olymptrade_sign.Prelude.{
  ℕ, ◌≡◌, ◌≢◌, ◌↔◌, refl, Bool, true, false, Option, none, some, String, arith, eq_iff, ap, ◌∙◌,
  Bool-cases, inl, inr, sym,
}
use telegram_olymptrade_sign.Prelude.Int.{ℤ}
use telegram_olymptrade_sign.Preflight.{
  ◌>>=◌, Got, got, raised, interrupted, Variables, Terminal, Verdict, int_or_raise, after_account,
  after_initialize, checks, code_of, shut, after_create, is_missing, run_preflight,
}

-- Each call that the terminal is asked answers as a terminal that is logged in.
pub record Answers (login : Option ℤ) (t : Terminal) : Type 0 where
  pub number : ℤ
  pub reads : login ≡ some number
  pub initialized : t.initialize number ≡ got true
  pub login_info : t.login_info ≡ got tt
  pub account_info : t.account_info ≡ got true
  pub account_line : t.account_line ≡ got tt
  pub symbols_get : t.symbols_get ≡ got tt

unbind :
    {A B : Type 0} (o : Got A) (f : A → Got B) (b : B)
    → o >>= f ≡ got b
    → (a : A) × (o ≡ got a) × (f a ≡ got b)
unbind (got a) f b h = (a, refl, h)
unbind raised f b h = cc
unbind interrupted f b h = cc

read_number : (login : Option ℤ) (n : ℤ) → int_or_raise login ≡ got n → login ≡ some n
read_number none n h = cc
read_number (some m) n h = cc

true≢false : true ≢ false
true≢false e = cc

one≢zero : ◌≢◌ {A = Got ℕ} (got 1) (got 0)
one≢zero e = cc

after_account-zero :
    (t : Terminal) (there : Bool)
    → after_account t there ≡ got 0
    → (there ≡ true) × (t.account_line ≡ got tt) × (t.symbols_get ≡ got tt)
unfolding after_account
after_account-zero t false h = absurd (one≢zero h)
after_account-zero t true h =
    let (_, e1, h1) = unbind t.account_line _ 0 h in
    let (_, e2, h2) = unbind t.symbols_get _ 0 h1 in (refl, e1, e2)

after_initialize-zero :
    (t : Terminal) (ok : Bool)
    → after_initialize t ok ≡ got 0
    → (ok ≡ true)
      × (t.login_info ≡ got tt)
      × (t.account_info ≡ got true)
      × (t.account_line ≡ got tt)
      × (t.symbols_get ≡ got tt)
unfolding after_initialize
after_initialize-zero t false h =
    let (_, e1, h1) = unbind t.last_error _ 0 h in absurd (one≢zero h1)
after_initialize-zero t true h =
    let (_, e1, h1) = unbind t.login_info _ 0 h in
    let (there, e2, h2) = unbind t.account_info _ 0 h1 in
    let (same, e3, e4) = after_account-zero t there h2 in (refl, e1, e2 ∙ ap got same, e3, e4)

checks-Answers : (login : Option ℤ) (t : Terminal) → checks login t ≡ got 0 → Answers login t
unfolding checks
checks-Answers login t h =
    let (n, e1, h1) = unbind (int_or_raise login) _ 0 h in
    let (ok, e2, h2) = unbind (t.initialize n) _ 0 h1 in
    let (same, e3, e4, e5, e6) = after_initialize-zero t ok h2 in
    record {
      number = n;
      reads = read_number login n e1;
      initialized = e2 ∙ ap got same;
      login_info = e3;
      account_info = e4;
      account_line = e5;
      symbols_get = e6;
    }

Answers-checks : (login : Option ℤ) (t : Terminal) → Answers login t → checks login t ≡ got 0
unfolding checks after_initialize after_account
Answers-checks login t a =
    rw (a.reads, checks, a.initialized, a.login_info, a.account_info, a.account_line, a.symbols_get)
      refl

some_one≢zero : ◌≢◌ {A = Option ℕ} (some 1) (some 0)
some_one≢zero e = cc

code_of_iff : (g : Got ℕ) → (code_of g ≡ some 0) ↔ (g ≡ got 0)
code_of_iff (got n) = ((λ h. cc), (λ h. cc))
code_of_iff raised = ((λ h. absurd (some_one≢zero h)), (λ h. cc))
code_of_iff interrupted = ((λ h. cc), (λ h. cc))

after_create_iff :
    (c s : Got Unit) (code : Option ℕ)
    → ((after_create c (shut s code)).code ≡ some 0)
      ↔ ((c ≡ got tt) × (code ≡ some 0) × (s ≢ interrupted))
after_create_iff (got _) (got _) code = ((λ h. (refl, h, λ e. cc)), (λ h. h.1))
after_create_iff (got _) raised code = ((λ h. (refl, h, λ e. cc)), (λ h. h.1))
after_create_iff (got _) interrupted code = ((λ h. cc), (λ h. absurd (h.2 refl)))
after_create_iff raised s code = ((λ h. cc), (λ h. cc))
after_create_iff interrupted s code = ((λ h. cc), (λ h. cc))

after_create-shut :
    (c s : Got Unit) (code : Option ℕ)
    → ((after_create c (shut s code)).shut_down ≡ true) ↔ (c ≡ got tt)
after_create-shut (got _) (got _) code = ((λ h. refl), (λ h. refl))
after_create-shut (got _) raised code = ((λ h. refl), (λ h. refl))
after_create-shut (got _) interrupted code = ((λ h. refl), (λ h. refl))
after_create-shut raised s code = ((λ h. cc), (λ h. cc))
after_create-shut interrupted s code = ((λ h. cc), (λ h. cc))

-- The variables are all there.
abbrev pub IsGiven : Variables → Type 0
IsGiven v = (v.login ≢ "") × (v.password ≢ "") × (v.server ≢ "")

is_missing_iff : (v : Variables) → (is_missing v ≡ false) ↔ IsGiven v
is_missing_iff v = ground (arith, eq_iff v.login "", eq_iff v.password "", eq_iff v.server "")

module _ (int_of : String → Option ℤ) (v : Variables) (t : Terminal) where
  abbrev outcome : Verdict
  outcome = shut t.shutdown (code_of (checks (int_of v.login) t))

  run-missing :
      is_missing v ≡ true → run_preflight int_of v t ≡ record { code = some 1; shut_down = false }
  unfolding run_preflight
  run-missing h = rw (run_preflight, h) refl

  run-given : is_missing v ≡ false → run_preflight int_of v t ≡ after_create t.create outcome
  unfolding run_preflight
  run-given h = rw (run_preflight, h) refl

  not-IsGiven : is_missing v ≡ true → ¬ IsGiven v
  not-IsGiven h g = true≢false (sym h ∙ (is_missing_iff v).1 g)

-- The preflight passes exactly if the variables are there, the login is a number, each call of the terminal is answered as
-- by one that is logged in to an account, and nothing but an Exception can come out of `shutdown`; and it
-- calls `shutdown` exactly if it has made its instance, whatever raises in between.
preflight_passes :
    (int_of : String → Option ℤ) (v : Variables) (t : Terminal)
    → let verdict = run_preflight int_of v t in
      ((verdict.code ≡ some 0) ↔ (
        IsGiven v × (t.create ≡ got tt) × Answers (int_of v.login) t × (t.shutdown ≢ interrupted)))
      × ((verdict.shut_down ≡ true) ↔ (IsGiven v × (t.create ≡ got tt)))
preflight_passes int_of v t = elim (Bool-cases (is_missing v)) [
  | inl missing ↦
      let e = run-missing int_of v t missing in
      (
        (
          (λ h. absurd (some_one≢zero (sym (ap (λ r. r.code) e) ∙ h))),
          λ h. absurd (not-IsGiven int_of v t missing h.0),
        ),
        (
          (λ h. absurd (true≢false (sym h ∙ ap (λ r. r.shut_down) e))),
          λ h. absurd (not-IsGiven int_of v t missing h.0),
        ),
      )
  | inr given ↦
      let e = run-given int_of v t given in
      let g = (is_missing_iff v).0 given in
      let login = int_of v.login in
      let code = after_create_iff t.create t.shutdown (code_of (checks login t)) in
      let shown = after_create-shut t.create t.shutdown (code_of (checks login t)) in
      (
        (
          (λ h.
              let (made, zero_code, quiet) = code.0 (sym (ap (λ r. r.code) e) ∙ h) in
              (
                g,
                made,
                checks-Answers login t ((code_of_iff (checks login t)).0 zero_code),
                quiet,
              )),
          λ (_, made, answers, quiet).
              ap (λ r. r.code) e
              ∙ code.1
                  (made, (code_of_iff (checks login t)).1 (Answers-checks login t answers), quiet),
        ),
        (
          (λ h. (g, shown.0 (sym (ap (λ r. r.shut_down) e) ∙ h))),
          λ h. ap (λ r. r.shut_down) e ∙ shown.1 h.1,
        ),
      )
]
