-- ===== src/Tests/Logins.antt =====
-- The interactive login with a client whose `get_me` raises.
use telegram_olymptrade_sign.Prelude.{◌≡◌, refl, none, some, [], ◌∷◌}
use telegram_olymptrade_sign.Prelude.Int.{pos}
use telegram_olymptrade_sign.Telegram.Auth.{
  returns, raises, exception, Creds, creds, Login, is_running_on_railway, started, created, saved,
  asked, disconnected, exits, start_and_verify, do_auth_and_verify, wait_for, exit_of, main,
}

abbrev sample_login : Login
sample_login = record {
  start = returns tt;
  save = returns "session";
  get_me = raises exception;
  disconnect = returns tt;
}

abbrev sample_creds : Creds
sample_creds = creds (pos 1) "hash" "+100"

failed_run :
    main sample_creds none none sample_login
    ≡ (exits 1 none, created ∷ started ∷ saved ∷ asked ∷ disconnected ∷ [])
unfolding main is_running_on_railway do_auth_and_verify start_and_verify wait_for exit_of
failed_run = refl

railway_run : main sample_creds (some "production") none sample_login ≡ (exits 2 none, [])
unfolding main is_running_on_railway do_auth_and_verify start_and_verify wait_for exit_of
railway_run = refl
