-- ===== src/Notify.antt =====
-- notify/protocol.py: one constructor for each notification of the `Notifier` protocol, with its
-- arguments; the signal that most of them carry is the one of the supervisor.
pub mod Money
pub mod Printed
pub mod Text
pub mod Sending
pub mod Announced
pub mod Reconnects
pub mod Logged
pub mod Told
use telegram_olymptrade_sign.Prelude.{ℕ, Option, String}
use telegram_olymptrade_sign.Config.{Time}
use telegram_olymptrade_sign.Domain.Signal.Parser.{FailureReason}
use telegram_olymptrade_sign.Prelude.Int.{ℤ}
use telegram_olymptrade_sign.Domain.Gale.{Stage}
use telegram_olymptrade_sign.Domain.Signal.{Signal}
use telegram_olymptrade_sign.Domain.State.{Status}
use telegram_olymptrade_sign.Store.Rows.{DailySummaryRow, LimitType}

pub data Note : Type 0 where
  on_signal_received : Signal → Note
  on_trade_placed : Signal → Stage → ℕ → String → Note
  on_win : Signal → Stage → ℤ → ℤ → Note
  on_loss : Signal → Stage → ℤ → ℤ → Option Stage → Note
  on_signal_expired : Signal → Stage → String → Note
  on_cascade_complete : Signal → Status → ℤ → Note
  on_signal_rejected_by_limit : Signal → LimitType → DailySummaryRow → Note
  on_pair_unavailable : String → String → Note

-- Every call of a notifier: those of the scheduler, and those of the other parts.
pub data Notice : Type 0 where
  note : Note → Notice
  on_bot_started : String → String → String → Notice
  on_bot_stopping : ℕ → Notice
  on_parse_failure : String → FailureReason → Notice
  on_telegram_disconnect : Notice
  on_broker_disconnect : Notice
  on_broker_reconnecting : ℕ → ℕ → Time → Time → Notice
  on_broker_reconnected : ℕ → Time → Notice
  on_broker_reconnect_failed : ℕ → Time → Notice
