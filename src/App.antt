-- ===== src/App.antt =====
-- __main__.py: the start of the program, its end, and its exit code. How each call ends is a parameter; the
-- tasks that run in between are those of the other files, and the injector of SOAK_REPLAY is left out.
pub mod Exits
use telegram_olymptrade_sign.Prelude.{
  ℕ, Bool, true, false, ◌&&◌, ◌||◌, not, Option, none, some, List, [], ◌∷◌, String, str_eq, ◌==◌,
  if◌then◌else◌,
}

-- The exceptions that `main` tells apart. `keyboard_interrupt` is SIGINT: the CancelledError that it is in
-- `_run`, which no `except Exception` catches and which `asyncio.run` raises as KeyboardInterrupt.
pub data AppError : Type 0 where
  database_connection telegram_config broker_auth keyboard_interrupt other : AppError

-- The settings that `_run` looks at before any input and output.
pub record Credentials : Type 0 where
  pub dry_run : Bool
  pub mt5_login : ℕ
  pub mt5_password : String
  pub mt5_server : String

-- How the calls of `_run` end: none where they return. `finished` is the first exception of the tasks that are done when one of the two is.
pub record Calls : Type 0 where
  pub database_connect : Option AppError
  pub telegram_client : Option AppError
  pub telegram_connect : Option AppError
  pub resolve : Option AppError
  pub broker_connect : Option AppError
  pub prepare_listener : Option AppError
  pub recover : Option AppError
  pub on_bot_started : Option AppError
  pub finished : Option AppError
  pub on_bot_stopping : Option AppError
  pub broker_close : Option AppError
  pub telegram_close : Option AppError
  pub database_close : Option AppError

-- Which of the variables of `_run` are not None at its end.
pub record Opened : Type 0 where
  pub database : Bool
  pub telegram : Bool
  pub broker : Bool
  pub scheduler : Bool

pub data Ended : Type 0 where
  exited : ℕ → Ended
  raised : AppError → Ended

pub data Act : Type 0 where
  told_stopping closed_broker closed_telegram closed_database : Act

abbrev pub opened : Bool → Bool → Bool → Bool → Opened
opened db tg br sch = record { database = db; telegram = tg; broker = br; scheduler = sch }

unfoldable pub lacks_credentials : Credentials → Bool
lacks_credentials c =
    not c.dry_run && (c.mt5_login == 0 || (str_eq c.mt5_password "" || str_eq c.mt5_server ""))

-- A call, what is open if it raises, and what follows if it returns.
unfoldable pub call : Option AppError → Opened → Ended × Opened → Ended × Opened
call none now rest = rest
call (some e) now rest = (raised e, now)

-- The `except` clauses around `resolve`: whatever is an `Exception` becomes a TelegramConfigError.
abbrev pub resolve_error : Option AppError → Option AppError
resolve_error none = none
resolve_error (some keyboard_interrupt) = some keyboard_interrupt
resolve_error (some _) = some telegram_config

-- The body of the `try`.
unfoldable pub body : Credentials → Calls → Ended × Opened
unfolding call lacks_credentials
body c k =
    let nothing = opened false false false false in
    let with_db = opened true false false false in
    let with_telegram = opened true true false false in
    let with_broker = opened true true true false in
    let with_scheduler = opened true true true true in
    if lacks_credentials c
    then (exited 2, nothing)
    else (call k.database_connect nothing (
        call k.telegram_client with_db (
          call k.telegram_connect with_telegram (
            call (resolve_error k.resolve) with_telegram (
              call k.broker_connect with_broker (
                call k.prepare_listener with_broker (
                  call k.recover with_scheduler (
                    call k.on_bot_started with_scheduler
                      (call k.finished with_scheduler (exited 0, with_scheduler))))))))))

-- One part of the `finally`: an exception leaves the rest out.
unfoldable pub clean :
    Bool → Option AppError → Act → Option AppError × List Act → Option AppError × List Act
clean false ends act rest = rest
clean true (some e) act rest = (some e, act ∷ [])
clean true none act (failed, acts) = (failed, act ∷ acts)

unfoldable pub cleanup : Calls → Opened → Option AppError × List Act
unfolding clean
cleanup k o = clean o.scheduler k.on_bot_stopping told_stopping (
    clean o.broker k.broker_close closed_broker (
      clean o.telegram k.telegram_close closed_telegram
        (clean o.database k.database_close closed_database (none, []))))

-- An exception of the `finally` takes the place of what the body came to.
unfoldable pub after_cleanup : Ended → Option AppError → Ended
after_cleanup ended none = ended
after_cleanup ended (some e) = raised e

unfoldable pub run : Credentials → Calls → Ended × List Act
unfolding body cleanup after_cleanup
run c k =
    let (ended, o) = body c k in
    let (failed, acts) = cleanup k o in (after_cleanup ended failed, acts)

unfoldable pub code_of : AppError → ℕ
code_of database_connection = 1
code_of telegram_config = 2
code_of broker_auth = 2
code_of keyboard_interrupt = 0
code_of other = 1

unfoldable pub exit_code : Ended → ℕ
unfolding code_of
exit_code (exited n) = n
exit_code (raised e) = code_of e

-- `main`; the settings are none where their validation fails.
unfoldable pub main : Option Credentials → Calls → ℕ
unfolding run exit_code
main none k = 2
main (some c) k = exit_code (run c k).0
