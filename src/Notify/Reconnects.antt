-- ===== src/Notify/Reconnects.antt =====
-- notify/telegram_dm.py: the messages on lost and regained connections, and the message of every call. `fixed_one` is
-- the `:.1f` of a number of seconds.
use Prim.Native.String.{String}
use telegram_olymptrade_sign.Prelude.{ℕ, Option, some, [], ◌∷◌}
use telegram_olymptrade_sign.Config.{Config, Time}
use telegram_olymptrade_sign.Clock.{LocalTime}
use telegram_olymptrade_sign.Notify.{
  Notice, note, on_bot_started, on_bot_stopping, on_parse_failure, on_telegram_disconnect,
  on_broker_disconnect, on_broker_reconnecting, on_broker_reconnected, on_broker_reconnect_failed,
}
use telegram_olymptrade_sign.Notify.Text.{joined, number_text}
use telegram_olymptrade_sign.Notify.Sending.{
  text_of, started_text, stopping_text, parse_failure_text,
}

module _ (fixed_one : Time → String) where
  unfoldable pub reconnecting_text : ℕ → ℕ → Time → Time → String
  reconnecting_text attempt max_attempts downtime next_delay = joined (
      "🔁 Broker reconnecting (attempt "
      ∷ number_text attempt
      ∷ "/"
      ∷ number_text max_attempts
      ∷ ")\nDowntime: "
      ∷ fixed_one downtime
      ∷ "s\nNext retry in "
      ∷ fixed_one next_delay
      ∷ "s"
      ∷ [])

  unfoldable pub reconnected_text : ℕ → Time → String
  reconnected_text attempts_used total_downtime = joined (
      "✅ Broker reconnected\nAttempts: "
      ∷ number_text attempts_used
      ∷ "\nTotal downtime: "
      ∷ fixed_one total_downtime
      ∷ "s\nAction: resumed normal operation. In-flight cascades (if any) were ended with broker_unavailable."
      ∷ [])

  unfoldable pub reconnect_failed_text : ℕ → Time → String
  reconnect_failed_text attempts total_downtime = joined (
      "❌ Broker reconnect failed after "
      ∷ number_text attempts
      ∷ " attempts\nTotal downtime: "
      ∷ fixed_one total_downtime
      ∷ "s\nAction: process will exit; Railway supervisor will restart."
      ∷ [])

  -- The message of each call; `none` is the KeyError.
  unfoldable pub notice_text : LocalTime → Config → Time → Notice → Option String
  unfolding reconnecting_text reconnected_text reconnect_failed_text text_of started_text
      stopping_text parse_failure_text
  notice_text tz config now_unix (note n) = text_of tz config now_unix n
  notice_text tz config now_unix (on_bot_started mode watching timezone) =
      some (started_text mode watching timezone)
  notice_text tz config now_unix (on_bot_stopping open_cascades) =
      some (stopping_text open_cascades)
  notice_text tz config now_unix (on_parse_failure raw_text reason) =
      some (parse_failure_text raw_text reason)
  notice_text tz config now_unix on_telegram_disconnect =
      some "🔌 Telegram disconnected. Reconnecting…"
  notice_text tz config now_unix on_broker_disconnect = some "🔌 Broker disconnected. Reconnecting…"
  notice_text tz config now_unix (on_broker_reconnecting attempt max_attempts downtime next_delay) =
      some (reconnecting_text attempt max_attempts downtime next_delay)
  notice_text tz config now_unix (on_broker_reconnected attempts_used total_downtime) =
      some (reconnected_text attempts_used total_downtime)
  notice_text tz config now_unix (on_broker_reconnect_failed attempts total_downtime) =
      some (reconnect_failed_text attempts total_downtime)
