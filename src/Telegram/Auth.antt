-- ===== src/Telegram/Auth.antt =====
-- telegram/auth.py: the interactive login, over how its calls end. The lines that name the user are left
-- out.
pub mod Sessions
use telegram_olymptrade_sign.Prelude.{
  ℕ, Bool, true, false, ◌||◌, not, Option, none, some, String, List, [], ◌∷◌, ◌++◌, str_eq,
  if◌then◌else◌,
}
use telegram_olymptrade_sign.Prelude.Int.{ℤ, pos}

-- An exception, by the clause that takes it: TelegramConfigError, TimeoutError, another Exception, the CancelledError of
-- `wait_for`, and what is no Exception.
pub data Raised : Type 0 where
  telegram_config_error timeout_error exception cancelled_error interrupt : Raised

pub data Call (A : Type 0) : Type 0 where
  returns : A → Call A
  raises : Raised → Call A

-- The client is made, and its methods are called.
pub data Act : Type 0 where
  created started saved asked disconnected : Act

-- A call, with what is done with the client.
abbrev pub Seen : Type 0 → Type 0
Seen A = Call A × List Act

infixl 10 ◌>>=◌
abbrev pub ◌>>=◌ : {A B : Type 0} → Seen A → (A → Seen B) → Seen B
(returns a, acts) >>= f = let (end, more) = f a in (end, acts ++ more)
(raises e, acts) >>= f = (raises e, acts)

-- How `_read_creds` ends: the validation of the settings refuses them with a ValidationError or ValueError, or with a
-- TelegramConfigError, or something else is raised.
pub data Creds : Type 0 where
  creds : ℤ → String → String → Creds
  invalid : Creds
  invalid_telegram : Creds
  read_raised : Raised → Creds

abbrev pub is_set : Option String → Bool
is_set none = false
is_set (some v) = not (str_eq v "")

-- `_is_running_on_railway`, by the two variables.
unfoldable pub is_running_on_railway : Option String → Option String → Bool
is_running_on_railway environment project_id = is_set environment || is_set project_id

-- The calls of the Telethon client.
pub record Login : Type 0 where
  pub start : Call Unit
  pub save : Call String
  pub get_me : Call Unit
  pub disconnect : Call Unit

-- `finally`: an exception of `disconnect` takes the place of what was there.
abbrev pub after_disconnect : Call Unit → Seen String → Seen String
after_disconnect (returns _) (end, acts) = (end, acts ++ (disconnected ∷ []))
after_disconnect (raises e) (end, acts) = (raises e, acts ++ (disconnected ∷ []))

-- The body of the `try`.
unfoldable pub start_and_verify : Login → Seen String
start_and_verify l = do
  _ ← (l.start, created ∷ started ∷ [])
  session_str ← (l.save, saved ∷ [])
  _ ← (l.get_me, asked ∷ [])
  (returns session_str, [])

unfoldable pub do_auth_and_verify : Login → Seen String
unfolding start_and_verify
do_auth_and_verify l = after_disconnect l.disconnect (start_and_verify l)

-- `wait_for`: the cancellation at the timeout comes out as a TimeoutError.
unfoldable pub wait_for : {A : Type 0} → Call A → Call A
wait_for (raises cancelled_error) = raises timeout_error
wait_for (raises e) = raises e
wait_for (returns a) = returns a

-- An exit code with the session that is printed, or an exception that nothing takes.
pub data Exit : Type 0 where
  exits : ℕ → Option String → Exit
  escapes : Raised → Exit

unfoldable pub exit_of : Call String → Exit
exit_of (returns session_str) = exits 0 (some session_str)
exit_of (raises telegram_config_error) = exits 2 none
exit_of (raises timeout_error) = exits 1 none
exit_of (raises exception) = exits 1 none
exit_of (raises cancelled_error) = escapes cancelled_error
exit_of (raises interrupt) = escapes interrupt

abbrev pub is_zero : ℤ → Bool
is_zero (pos ℕ.zero) = true
is_zero _ = false

-- `main`
unfoldable pub main : Creds → Option String → Option String → Login → Exit × List Act
unfolding is_running_on_railway do_auth_and_verify wait_for exit_of
main invalid environment project_id l = (exits 2 none, [])
main invalid_telegram environment project_id l = (exits 2 none, [])
main (read_raised e) environment project_id l = (escapes e, [])
main (creds api_id api_hash phone) environment project_id l =
    let (end, acts) = do_auth_and_verify l in
    if is_zero api_id || str_eq api_hash "" || str_eq phone ""
    then (exits 2 none, [])
    else if is_running_on_railway environment project_id
    then (exits 2 none, [])
    else (exit_of (wait_for end), acts)
