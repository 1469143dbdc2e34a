-- ===== src/Tests/Lines.antt =====
-- Lines of the log of a notifier.
use Prim.Native.String.{String}
use telegram_olymptrade_sign.Prelude.{◌≡◌, refl, true, false, some}
use telegram_olymptrade_sign.Notify.{on_bot_started, on_broker_reconnecting}
use telegram_olymptrade_sign.Notify.Logged.{Formats, method, event_name, line, arguments}
use telegram_olymptrade_sign.Notify.Money.{digits_before}
use telegram_olymptrade_sign.Domain.Signal.Parser.{digit_char}
use telegram_olymptrade_sign.Notify.Sending.{send, sent_line, started_text}
use telegram_olymptrade_sign.Notify.Told.{event_key, method_named, log_with, line_tells, start_seen}
use telegram_olymptrade_sign.Soak.{assert_uptime, assert_no_dm_failures}

abbrev sample_formats : Formats
sample_formats = record {
  repr = λ s. s;
  str_decimal = λ z. "0.00";
  str_amount = λ n. "2.00";
  fixed_one = λ t. "1.5";
}

line_tells_example :
    (key : String) × (event_key
        (line sample_formats (on_broker_reconnecting 1 5 1_500_000 1_500_000))
      ≡ some key)
    × (method_named key ≡ some (method (on_broker_reconnecting 1 5 1_500_000 1_500_000)))
line_tells_example = line_tells sample_formats (on_broker_reconnecting 1 5 1_500_000 1_500_000)

line_run :
    line sample_formats (on_broker_reconnecting 1 5 1_500_000 1_500_000)
    ≡ "notify: event=broker_reconnecting attempt=1/5 downtime=1.5s next_delay=1.5s"
unfolding line arguments event_name method digits_before digit_char
line_run = refl

start_seen_example :
    ((assert_uptime
        (log_with "a" (line sample_formats (on_bot_started "dry_run" "Signals" "UTC")) "b")).passed
      ≡ true)
    × ((assert_uptime (
          log_with "a"
            (sent_line sample_formats.repr "lost"
              (send (λ t. false) (started_text "dry_run" "Signals" "UTC")))
            "b")).passed
        ≡ true)
    × ((assert_no_dm_failures (
          log_with "a" (sent_line sample_formats.repr "lost" (send (λ t. true) "text")) "b")).passed
        ≡ false)
start_seen_example = start_seen sample_formats "dry_run" "Signals" "UTC" "lost" "a" "b" "text"
