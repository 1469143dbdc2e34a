-- ===== src/Tests/Apps.antt =====
-- The theorem on __main__.py at a start whose channel is not found.
use telegram_olymptrade_sign.Prelude.{◌↔◌, ◌⊎◌, ◌≡◌, ◌≢◌, refl, true, false, none, some, String}
use telegram_olymptrade_sign.Prelude.Int.{pos}
use telegram_olymptrade_sign.Config.{Config}
use telegram_olymptrade_sign.Telegram.Channel.{starts_with, contains}
use telegram_olymptrade_sign.Settings.{
  not_found, Settings, loaded, validation_error, gt_zero, ge_zero, percentage, checked_fields,
  validate_demo_server, validate_timezone, credentials, load,
}
use telegram_olymptrade_sign.Settings.Demo.{IsBounded, live_broker_is_demo}
use telegram_olymptrade_sign.App.{
  Credentials, Calls, call, database_connection, telegram_config, broker_auth, keyboard_interrupt,
  other, lacks_credentials, body, run, main,
}
use telegram_olymptrade_sign.App.Exits.{start_calls, first_error, closing, main_exit}

abbrev dry : Credentials
dry = record { dry_run = true; mt5_login = 0; mt5_password = ""; mt5_server = "" }

abbrev no_channel : Calls
no_channel = record {
  database_connect = none;
  telegram_client = none;
  telegram_connect = none;
  resolve = some other;
  broker_connect = none;
  prepare_listener = none;
  recover = none;
  on_bot_started = none;
  finished = some other;
  on_bot_stopping = none;
  broker_close = none;
  telegram_close = none;
  database_close = none;
}

main_exit_example :
    let code = main (some dry) no_channel in
    let first = first_error (start_calls no_channel) in
    ((code ≡ 0) ↔ ((first ≡ none) ⊎ (first ≡ some keyboard_interrupt)))
    × ((code ≡ 2) ↔ ((first ≡ some telegram_config) ⊎ (first ≡ some broker_auth)))
    × ((code ≡ 1) ↔ ((first ≡ some database_connection) ⊎ (first ≡ some other)))
    × ((run dry no_channel).1 ≡ closing (body dry no_channel).1)
unfolding lacks_credentials
main_exit_example =
    main_exit dry no_channel refl
      (record { told = refl; broker = refl; telegram = refl; database = refl })

abbrev live_settings : Settings
live_settings = record {
  dry_run = false;
  mt5_login = 42;
  mt5_password = "secret";
  mt5_server = "broker-demo";
  amount_initial = pos 200;
  amount_gale1 = pos 400;
  amount_gale2 = pos 800;
  expiration_seconds = pos 300;
  trigger_skew_tolerance_seconds = pos 2_000_000;
  daily_loss_limit = pos 0;
  daily_trade_limit = pos 0;
  daily_drawdown_pct = pos 0;
  timezone = none;
}

abbrev live_config : Config
live_config = record {
  amount_initial = 200;
  amount_gale1 = 400;
  amount_gale2 = 800;
  expiration_seconds = 300;
  trigger_skew_tolerance_seconds = 2_000_000;
  daily_loss_limit = 0;
  daily_trade_limit = 0;
  daily_drawdown_pct = 0;
}

abbrev same_text : String → String
same_text s = s

live_loaded :
    load (λ z. not_found) same_text live_settings ≡ loaded (credentials live_settings) live_config
unfolding load checked_fields gt_zero ge_zero percentage validate_demo_server validate_timezone
    contains starts_with
live_loaded = refl

abbrev all_well : Calls
all_well = record no_channel { resolve = none; finished = none }

live_opened : (body (credentials live_settings) all_well).1.broker ≡ true
unfolding body call lacks_credentials
live_opened = refl

live_broker_is_demo_example :
    (contains "demo" "broker-demo" ≡ true)
    × (live_settings.mt5_login ≢ 0)
    × (live_settings.mt5_password ≢ "")
    × IsBounded live_config
live_broker_is_demo_example =
    live_broker_is_demo (λ z. not_found) same_text live_settings (credentials live_settings)
      live_config all_well live_loaded refl live_opened

real_server_run :
    load (λ z. not_found) same_text (record live_settings { mt5_server = "broker-real" })
    ≡ validation_error
unfolding load checked_fields gt_zero ge_zero percentage validate_demo_server validate_timezone
    contains starts_with
real_server_run = refl
