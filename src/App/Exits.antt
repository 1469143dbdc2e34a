-- ===== src/App/Exits.antt =====
-- The exit code of the program, and what it leaves open.
use telegram_olymptrade_sign.Prelude.{
  ℕ, ◌≡◌, ◌⊎◌, ◌↔◌, arith, refl, ap, Bool, true, false, Option, none, some, List, [], ◌∷◌,
  if◌then◌else◌,
}
use telegram_olymptrade_sign.App.{
  AppError, database_connection, telegram_config, broker_auth, keyboard_interrupt, other,
  Credentials, Calls, Opened, Ended, exited, raised, Act, told_stopping, closed_broker,
  closed_telegram, closed_database, call, resolve_error, lacks_credentials, opened, body, clean,
  cleanup, after_cleanup, run, code_of, exit_code, main,
}

-- The calls of the start in their order.
abbrev pub start_calls : Calls → List (Option AppError)
start_calls k =
    k.database_connect
    ∷ k.telegram_client
    ∷ k.telegram_connect
    ∷ resolve_error k.resolve
    ∷ k.broker_connect
    ∷ k.prepare_listener
    ∷ k.recover
    ∷ k.on_bot_started
    ∷ k.finished
    ∷ []

abbrev pub first_error : List (Option AppError) → Option AppError
first_error [] = none
first_error (none ∷ calls) = first_error calls
first_error (some e ∷ calls) = some e

abbrev code_of_first : Option AppError → ℕ
code_of_first none = 0
code_of_first (some e) = code_of e

-- Nothing that the `finally` calls raises.
pub record IsTidy (k : Calls) : Type 0 where
  pub told : k.on_bot_stopping ≡ none
  pub broker : k.broker_close ≡ none
  pub telegram : k.telegram_close ≡ none
  pub database : k.database_close ≡ none

abbrev ending : Option AppError → Ended
ending none = exited 0
ending (some e) = raised e

call-first_error :
    (o : Option AppError) (now : Opened) (rest : Ended × Opened) (calls : List (Option AppError))
    → rest.0 ≡ ending (first_error calls)
    → (call o now rest).0 ≡ ending (first_error (o ∷ calls))
unfolding call
call-first_error none now rest calls h = h
call-first_error (some e) now rest calls h = refl

body-first_error :
    (c : Credentials) (k : Calls)
    → lacks_credentials c ≡ false
    → (body c k).0 ≡ ending (first_error (start_calls k))
unfolding body
body-first_error c k fine =
    rw (body, fine)
      (call-first_error k.database_connect _ _ _ (
        call-first_error k.telegram_client _ _ _ (
          call-first_error k.telegram_connect _ _ _ (
            call-first_error (resolve_error k.resolve) _ _ _ (
              call-first_error k.broker_connect _ _ _ (
                call-first_error k.prepare_listener _ _ _ (
                  call-first_error k.recover _ _ _ (
                    call-first_error k.on_bot_started _ _ _ (
                      call-first_error k.finished _ (exited 0, opened true true true true) []
                        refl)))))))))

-- What closes the things that are open, in the reverse order of their opening.
abbrev pub listed : Bool → Act → List Act → List Act
listed b act acts = if b then act ∷ acts else acts

abbrev pub closing : Opened → List Act
closing o = listed o.scheduler told_stopping (
    listed o.broker closed_broker
      (listed o.telegram closed_telegram (listed o.database closed_database [])))

clean-tidy :
    (b : Bool) (ends : Option AppError) (act : Act) (acts : List Act)
    → ends ≡ none
    → clean b ends act (none, acts) ≡ (none, listed b act acts)
unfolding clean
clean-tidy false ends act acts h = refl
clean-tidy true ends act acts h = rw h refl

cleanup-tidy : (k : Calls) (o : Opened) → IsTidy k → cleanup k o ≡ (none, closing o)
unfolding cleanup
cleanup-tidy k o tidy = rw (
  cleanup,
  clean-tidy o.database k.database_close closed_database [] tidy.database,
  clean-tidy o.telegram k.telegram_close closed_telegram _ tidy.telegram,
  clean-tidy o.broker k.broker_close closed_broker _ tidy.broker,
  clean-tidy o.scheduler k.on_bot_stopping told_stopping _ tidy.told,
)

by_first :
    (o : Option AppError)
    → ((code_of_first o ≡ 0) ↔ ((o ≡ none) ⊎ (o ≡ some keyboard_interrupt)))
      × ((code_of_first o ≡ 2) ↔ ((o ≡ some telegram_config) ⊎ (o ≡ some broker_auth)))
      × ((code_of_first o ≡ 1) ↔ ((o ≡ some database_connection) ⊎ (o ≡ some other)))
unfolding code_of
by_first o = (ground arith, ground arith, ground arith)

code-ending : (o : Option AppError) → exit_code (ending o) ≡ code_of_first o
unfolding exit_code
code-ending none = refl
code-ending (some e) = refl

-- With complete credentials and a cleanup in which nothing raises, the first call of the start that
-- raises decides the exit code: 0 exactly if none raises or it is an interrupt, 2 exactly if it is an
-- error of the Telegram settings, which every failed scan of the dialogs but an interrupted one is,
-- or of the broker's login, and 1 exactly if it is an error of the database or any other. Everything that was
-- opened is closed, the broker before the client before the
-- database, with the message that the bot stops first if there was a scheduler.
pub main_exit :
    (c : Credentials) (k : Calls)
    → lacks_credentials c ≡ false
    → IsTidy k
    → let code = main (some c) k in
      let first = first_error (start_calls k) in
      ((code ≡ 0) ↔ ((first ≡ none) ⊎ (first ≡ some keyboard_interrupt)))
      × ((code ≡ 2) ↔ ((first ≡ some telegram_config) ⊎ (first ≡ some broker_auth)))
      × ((code ≡ 1) ↔ ((first ≡ some database_connection) ⊎ (first ≡ some other)))
      × ((run c k).1 ≡ closing (body c k).1)
unfolding main run after_cleanup
main_exit c k fine tidy =
    let (ended, o) = body c k in
    let first = first_error (start_calls k) in
    let code : main (some c) k ≡ code_of_first first =
      rw (main, run, cleanup-tidy k o tidy, after_cleanup, body-first_error c k fine)
        (code-ending first) in
    let (zero_if, two_if, one_if) = by_first first in
    (rw code zero_if, rw code two_if, rw code one_if, ap (λ r. r.1) (cleanup-tidy k o tidy))
