-- ===== src/Config.antt =====
-- config.py: the settings that the trading code reads.
--
-- A time is a number of microseconds since the epoch and `second` is one second of it. A stake is
-- a number of cents; profits and losses are integers, in hundredths of a cent, in which 92 % of a
-- stake is exact.
use telegram_olymptrade_sign.Prelude.{ℕ, ◌*◌}

abbrev pub Time : Type 0
Time = ℕ

abbrev pub second : Time
second = 1_000_000

-- An `int` number of seconds as a time.
abbrev pub seconds : ℕ → Time
seconds n = n * second

pub record Config : Type 0 where
  pub amount_initial : ℕ
  pub amount_gale1 : ℕ
  pub amount_gale2 : ℕ
  pub expiration_seconds : ℕ
  pub trigger_skew_tolerance_seconds : Time
  pub daily_loss_limit : ℕ
  pub daily_trade_limit : ℕ
  pub daily_drawdown_pct : ℕ
