-- ===== src/Tests/Preflights.antt =====
-- The preflight on a server that the settings refuse.
use telegram_olymptrade_sign.Prelude.{◌≡◌, refl, true, some}
use telegram_olymptrade_sign.Prelude.Int.{pos}
use telegram_olymptrade_sign.Preflight.{
  got, Variables, Terminal, checks, after_initialize, after_account, run_preflight,
}

abbrev real_variables : Variables
real_variables = record { login = "42"; password = "secret"; server = "broker-real" }

abbrev sample_terminal : Terminal
sample_terminal = record {
  create = got tt;
  initialize = λ n. got true;
  last_error = got tt;
  login_info = got tt;
  account_info = got true;
  account_line = got tt;
  symbols_get = got tt;
  shutdown = got tt;
}

passing_run :
    run_preflight (λ s. some (pos 42)) real_variables sample_terminal
    ≡ record { code = some 0; shut_down = true }
unfolding run_preflight checks after_initialize after_account
passing_run = refl
