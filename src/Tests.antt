-- ===== src/Tests.antt =====
-- Sample signals, settings, tables and brokers; the files under Tests/ apply the theorems to them.
mod Domain
mod Store
mod Scheduler
mod Brokers
mod Telegram
mod Clock
mod Parser
mod Apps
mod Mt5
mod Soaks
mod Listener
mod Notices
mod Pipelines
mod Databases
mod Logins
mod Lines
mod Logs
mod Preflights
mod Replays
use telegram_olymptrade_sign.Prelude.{
  ℕ, suc, ◌+◌, ◌*◌, ◌≤◌, ◌<◌, ◌≡◌, ◌≢◌, ◌↔◌, refl, ◌⊎◌, inl, inr, Bool, true, false, Option, none,
  some, String, List, [], ◌∷◌, arith, eq_refl, str_eq, ltb,
}
use mathlib.Core.List.{Perm, filter}
use telegram_olymptrade_sign.Prelude.Int.{ℤ, pos, neg_ℕ, ◌≤ℤ◌}
use telegram_olymptrade_sign.Config.{Config, Time, seconds}
use telegram_olymptrade_sign.Domain.Gale.{Stage, initial, gale1, gale2, compute_gale_triggers}
use telegram_olymptrade_sign.Domain.Signal.{Signal, Direction, up}
use telegram_olymptrade_sign.Domain.State.{
  Status, pending, placed_initial, placed_gale1, placed_gale2, done_win, done_loss, SignalState,
  StageResult, win, timeout, Event, fire_event, result_event, transition, from_signal, is_terminal,
  is_placed, signal_expired, daily_limit_hit,
}
use telegram_olymptrade_sign.Domain.State.Invariant.{IsCascade, from_signal-IsCascade, lost3}
use telegram_olymptrade_sign.Domain.State.Steps.{transition_follows_diagram, run-IsCascade}
use telegram_olymptrade_sign.Domain.State.Windows.{late_loss_expires, after_loss}
use telegram_olymptrade_sign.Store.Rows.{SignalRow, Db, loss}
use telegram_olymptrade_sign.Broker.{
  Broker, Placed, accepted, rejected, Waited, reported, unsupported_pair, broker_auth,
}
use telegram_olymptrade_sign.Scheduler.World.{Env, World, armed, ordered}
use telegram_olymptrade_sign.Prelude.{zero, leb, if◌then◌else◌}

abbrev pub sample_config : Config
sample_config = record {
  amount_initial = 200;
  amount_gale1 = 400;
  amount_gale2 = 800;
  expiration_seconds = 300;
  trigger_skew_tolerance_seconds = seconds 10;
  daily_loss_limit = 5_000;
  daily_trade_limit = 20;
  daily_drawdown_pct = 20;
}

abbrev pub sample_signal : Signal
sample_signal = record {
  signal_id = "a1";
  pair = "EURJPY";
  direction = up;
  trigger_hhmm = "12:00";
  expiration_seconds = 300;
  received_at_unix = seconds 900;
  source_message_id = 7;
  source_chat_id = pos 3;
  raw_text = "EUR/JPY";
  trigger_unix_initial = seconds 1_000;
  trigger_unix_gale1 = seconds 1_300;
  trigger_unix_gale2 = seconds 1_600;
}

abbrev pub sample_state : SignalState
sample_state = from_signal sample_signal sample_config

-- A fire, a loss in time and a timeout that comes late.
abbrev pub sample_events : List Event
sample_events =
    fire_event (seconds 1_000)
    ∷ result_event StageResult.loss (seconds 1_300)
    ∷ result_event timeout (seconds 1_640)
    ∷ []

-- A row for the sample signal.
abbrev pub row_with : Status → SignalRow
row_with st = record {
  signal_id = "a1";
  pair = "EURJPY";
  broker_pair = none;
  broker_category = none;
  direction = up;
  trigger_hhmm = "12:00";
  trigger_ts_unix = seconds 1_000;
  expiration_seconds = 300;
  received_at_unix = seconds 900;
  source_message_id = 7;
  source_chat_id = pos 3;
  raw_text = "EUR/JPY";
  status = st;
  error_reason = none;
  created_at_unix = seconds 900;
  updated_at_unix = seconds 900;
}

abbrev pub db_with : Status → Db
db_with st = record { signals = row_with st ∷ []; stages = []; daily_summary = [] }

-- A broker that accepts every order; its first trade is lost and the others are won.
abbrev pub answer_of : ℕ → Waited
answer_of zero = reported StageResult.loss
answer_of (suc n) = reported win

abbrev pub sample_broker : Broker
sample_broker = record {
  St = ℕ;
  place = λ signal stage amount n. (accepted "t", n);
  wait_result = λ id until n. (answer_of n, suc n);
  start_of_day_balance = λ n. some (pos 1_000_000);
}

-- The clock stands at the first trigger for five readings, for four at that of the first gale, and
-- then later than any stage may begin.
abbrev pub sample_clock : ℕ → Time
sample_clock k = if leb k 4 then seconds 1_000 else if leb k 8 then seconds 1_300 else seconds 1_700

abbrev pub sample_env : Env
sample_env = record {
  config = sample_config;
  broker = sample_broker;
  clock = sample_clock;
  monotonic = sample_clock;
  raises = λ n. false;
  sha1_hex = λ s. s;
  date_of = λ t. 1;
  others = λ k db. db;
}

abbrev pub sample_world : Status → World ℕ
sample_world st = record { db = db_with st; broker = 0; ticks = 0; trace = [] }
