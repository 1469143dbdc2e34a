-- ===== src/Notify/Logged.antt =====
-- notify/protocol.py: NoOpNotifier, which logs every call.
use Prim.Native.String.{String}
use telegram_olymptrade_sign.Prelude.{ℕ, Option, none, some, List, [], ◌∷◌}
use telegram_olymptrade_sign.Prelude.Int.{ℤ}
use telegram_olymptrade_sign.Config.{Time}
use telegram_olymptrade_sign.Domain.Gale.{Stage}
use telegram_olymptrade_sign.Domain.Signal.Parser.{direction_name}
use telegram_olymptrade_sign.Logging.{info, warning}
use telegram_olymptrade_sign.Store.Statements.{stage_name}
use telegram_olymptrade_sign.Store.Rows.{LimitType, loss, count, drawdown}
use telegram_olymptrade_sign.Notify.{
  Note, on_signal_received, on_trade_placed, on_win, on_loss, on_signal_expired,
  on_cascade_complete, on_signal_rejected_by_limit, on_pair_unavailable, Notice, note,
  on_bot_started, on_bot_stopping, on_parse_failure, on_telegram_disconnect, on_broker_disconnect,
  on_broker_reconnecting, on_broker_reconnected, on_broker_reconnect_failed,
}
use telegram_olymptrade_sign.Notify.Text.{joined, number_text}
use telegram_olymptrade_sign.Notify.Sending.{status_text, reason_text, prefix}

-- The methods of the protocol.
pub data Method : Type 0 where
  signal_received trade_placed win lost signal_expired : Method
  cascade_complete signal_rejected_by_limit pair_unavailable : Method
  bot_started bot_stopping parse_failure telegram_disconnect broker_disconnect : Method
  broker_reconnecting broker_reconnected broker_reconnect_failed : Method

unfoldable pub method : Notice → Method
method (note (on_signal_received signal)) = signal_received
method (note (on_trade_placed signal stage amount trade_id)) = trade_placed
method (note (on_win signal stage pnl cumulative_pnl)) = win
method (note (on_loss signal stage pnl cumulative_pnl next_stage)) = lost
method (note (on_signal_expired signal stage trigger_hhmm)) = signal_expired
method (note (on_cascade_complete signal final_state cumulative_pnl)) = cascade_complete
method (note (on_signal_rejected_by_limit signal limit_type summary)) = signal_rejected_by_limit
method (note (on_pair_unavailable pair message)) = pair_unavailable
method (on_bot_started mode watching timezone) = bot_started
method (on_bot_stopping open_cascades) = bot_stopping
method (on_parse_failure raw_text reason) = parse_failure
method on_telegram_disconnect = telegram_disconnect
method on_broker_disconnect = broker_disconnect
method (on_broker_reconnecting attempt max_attempts downtime next_delay) = broker_reconnecting
method (on_broker_reconnected attempts_used total_downtime) = broker_reconnected
method (on_broker_reconnect_failed attempts total_downtime) = broker_reconnect_failed

-- The `event` key.
unfoldable pub event_name : Method → String
event_name signal_received = "signal_received"
event_name trade_placed = "trade_placed"
event_name win = "win"
event_name lost = "loss"
event_name signal_expired = "signal_expired"
event_name cascade_complete = "cascade_complete"
event_name signal_rejected_by_limit = "signal_rejected_by_limit"
event_name pair_unavailable = "pair_unavailable"
event_name bot_started = "bot_started"
event_name bot_stopping = "bot_stopping"
event_name parse_failure = "parse_failure"
event_name telegram_disconnect = "telegram_disconnect"
event_name broker_disconnect = "broker_disconnect"
event_name broker_reconnecting = "broker_reconnecting"
event_name broker_reconnected = "broker_reconnected"
event_name broker_reconnect_failed = "broker_reconnect_failed"

-- ERROR is level 40.
unfoldable pub level : Method → ℕ
level signal_rejected_by_limit = warning
level telegram_disconnect = warning
level broker_disconnect = warning
level broker_reconnecting = warning
level broker_reconnected = warning
level broker_reconnect_failed = 40
level _ = info

-- `%s` of what may be None.
unfoldable pub next_stage_name : Option Stage → String
unfolding stage_name
next_stage_name none = "None"
next_stage_name (some stage) = stage_name stage

unfoldable pub limit_name : LimitType → String
limit_name loss = "loss"
limit_name count = "count"
limit_name drawdown = "drawdown"

-- `%r` of a text, `%s` of a Decimal, which is taken to depend on its value alone, and `%.1f` of a number of seconds.
pub record Formats : Type 0 where
  pub repr : String → String
  pub str_decimal : ℤ → String
  pub str_amount : ℕ → String
  pub fixed_one : Time → String

module _ (f : Formats) where
  -- What follows the event of a call of the scheduler.
  unfoldable pub note_arguments : Note → List String
  unfolding direction_name stage_name next_stage_name limit_name status_text
  note_arguments (on_signal_received signal) =
      " signal_id="
      ∷ signal.signal_id
      ∷ " pair="
      ∷ signal.pair
      ∷ " direction="
      ∷ direction_name signal.direction
      ∷ " trigger="
      ∷ signal.trigger_hhmm
      ∷ " expiration="
      ∷ number_text signal.expiration_seconds
      ∷ "s"
      ∷ []
  note_arguments (on_trade_placed signal stage amount trade_id) =
      " signal_id="
      ∷ signal.signal_id
      ∷ " stage="
      ∷ stage_name stage
      ∷ " amount="
      ∷ f.str_amount amount
      ∷ " trade_id="
      ∷ trade_id
      ∷ []
  note_arguments (on_win signal stage pnl cumulative_pnl) =
      " signal_id="
      ∷ signal.signal_id
      ∷ " stage="
      ∷ stage_name stage
      ∷ " pnl="
      ∷ f.str_decimal pnl
      ∷ " cumulative_pnl="
      ∷ f.str_decimal cumulative_pnl
      ∷ []
  note_arguments (on_loss signal stage pnl cumulative_pnl next_stage) =
      " signal_id="
      ∷ signal.signal_id
      ∷ " stage="
      ∷ stage_name stage
      ∷ " pnl="
      ∷ f.str_decimal pnl
      ∷ " cumulative_pnl="
      ∷ f.str_decimal cumulative_pnl
      ∷ " next_stage="
      ∷ next_stage_name next_stage
      ∷ []
  note_arguments (on_signal_expired signal stage trigger_hhmm) =
      " signal_id="
      ∷ signal.signal_id
      ∷ " stage="
      ∷ stage_name stage
      ∷ " trigger_hhmm="
      ∷ trigger_hhmm
      ∷ []
  note_arguments (on_cascade_complete signal final_state cumulative_pnl) =
      " signal_id="
      ∷ signal.signal_id
      ∷ " final_state="
      ∷ status_text final_state
      ∷ " cumulative_pnl="
      ∷ f.str_decimal cumulative_pnl
      ∷ []
  note_arguments (on_signal_rejected_by_limit signal limit_type summary) =
      " signal_id="
      ∷ signal.signal_id
      ∷ " limit_type="
      ∷ limit_name limit_type
      ∷ " losses="
      ∷ number_text summary.losses
      ∷ " trades="
      ∷ number_text summary.trades_count
      ∷ " pnl="
      ∷ f.str_decimal summary.realized_pnl
      ∷ []
  note_arguments (on_pair_unavailable pair message) = " pair=" ∷ pair ∷ " message=" ∷ message ∷ []

  unfoldable pub arguments : Notice → List String
  unfolding note_arguments reason_text prefix
  arguments (note n) = note_arguments n
  arguments (on_bot_started mode watching timezone) =
      " mode=" ∷ mode ∷ " watching=" ∷ watching ∷ " timezone=" ∷ timezone ∷ []
  arguments (on_bot_stopping open_cascades) = " open_cascades=" ∷ number_text open_cascades ∷ []
  arguments (on_parse_failure raw_text reason) =
      " reason=" ∷ reason_text reason ∷ " preview=" ∷ f.repr (prefix 80 raw_text) ∷ []
  arguments on_telegram_disconnect = []
  arguments on_broker_disconnect = []
  arguments (on_broker_reconnecting attempt max_attempts downtime next_delay) =
      " attempt="
      ∷ number_text attempt
      ∷ "/"
      ∷ number_text max_attempts
      ∷ " downtime="
      ∷ f.fixed_one downtime
      ∷ "s next_delay="
      ∷ f.fixed_one next_delay
      ∷ "s"
      ∷ []
  arguments (on_broker_reconnected attempts_used total_downtime) =
      " attempts_used="
      ∷ number_text attempts_used
      ∷ " total_downtime="
      ∷ f.fixed_one total_downtime
      ∷ "s"
      ∷ []
  arguments (on_broker_reconnect_failed attempts total_downtime) =
      " attempts="
      ∷ number_text attempts
      ∷ " total_downtime="
      ∷ f.fixed_one total_downtime
      ∷ "s"
      ∷ []

  -- What NoOpNotifier logs for a call.
  unfoldable pub line : Notice → String
  unfolding method event_name arguments
  line n = joined ("notify: event=" ∷ event_name (method n) ∷ arguments n)
