-- ===== src/Tests/Listener.antt =====
-- The theorems on telegram/channel_resolver.py and telegram/listener.py at a sample channel.
use Prim.Native.String.{String}
use telegram_olymptrade_sign.Prelude.{◌*◌, ◌+◌, ◌≡◌, refl, false, none, some, List, [], ◌∷◌}
use telegram_olymptrade_sign.Prelude.Int.{pos}
use telegram_olymptrade_sign.Config.{Time, seconds}
use telegram_olymptrade_sign.Domain.Signal.{Signal, down}
use telegram_olymptrade_sign.Store.Statements.{get_signal}
use telegram_olymptrade_sign.Domain.Signal.Chars.{is_space, is_zero_width, digit_value, is_upper}
use telegram_olymptrade_sign.Domain.Signal.Parser.{
  parse_signal, find_header, cleaned, digits_value, find_lines, add_minutes, derive_signal_id,
}
use telegram_olymptrade_sign.Clock.{Zone, is_within_window}
use telegram_olymptrade_sign.Telegram.Channel.{
  Resolver, Dialog, titled, new_resolver, resolve, Filters, resolve-Filters,
}
use telegram_olymptrade_sign.Telegram.Listener.{
  Message, Env, Intake, signal, read_event, process_message,
}
use telegram_olymptrade_sign.Telegram.Readings.{Guarantee, read_event-Guarantee}
use telegram_olymptrade_sign.Telegram.Intakes.{Step, arrives, listen}
use telegram_olymptrade_sign.Telegram.Known.{same_signal_ignored}
use telegram_olymptrade_sign.Tests.{sample_config}

abbrev pub same : String → String
same s = s

abbrev sample_dialogs : List Dialog
sample_dialogs =
    record { id = pos 1; title = none }
    ∷ record { id = pos 2; title = some "VIP  signals room" }
    ∷ []

resolve-Filters_example :
    Filters same
      (new_resolver same "signals")
      (resolve same (new_resolver same "signals") sample_dialogs)
resolve-Filters_example = resolve-Filters same (new_resolver same "signals") sample_dialogs

-- A zone in which each day begins at 0.
abbrev pub sample_zone : Zone
sample_zone = record {
  date_of = λ t. 1;
  timestamp = λ day hour minute. seconds (hour * 3_600 + minute * 60);
  isoformat = λ day. "2026-01-01";
}

abbrev pub sample_resolver : Resolver
sample_resolver = record {
  normalized_pattern = "signals";
  resolved_chat_id = some (pos 2);
  captured_title = some "signals";
}

abbrev pub listening : Env
listening = record {
  config = sample_config;
  tz = sample_zone;
  resolver = sample_resolver;
  lower = same;
  sha1_hex = same;
}

abbrev pub sample_message : Message
sample_message = record {
  out = false;
  id = 7;
  chat_id = pos 2;
  chat = titled (some "signals");
  text = some "💰5-minute expiration\nEUR/JPY;10:58;PUT🟥";
}

abbrev pub sample_time : Time
sample_time = seconds 39_000

abbrev pub empty_intake : Intake
empty_intake = record {
  db = record { signals = []; stages = []; daily_summary = [] };
  queue = [];
  log = [];
  parse_failures = [];
}

read_event-Guarantee_example :
    Guarantee listening sample_message sample_time (read_event listening sample_message sample_time)
read_event-Guarantee_example = read_event-Guarantee listening sample_message sample_time

-- A message and its edit.
abbrev sample_steps : List Step
sample_steps = arrives sample_message sample_time ∷ arrives sample_message (seconds 39_010) ∷ []

-- What the message says when it is received at a time.
abbrev pub read_at : Time → Signal
read_at received = record {
  signal_id = "EUR/JPY|10:5";
  pair = "EUR/JPY";
  direction = down;
  trigger_hhmm = "10:58";
  expiration_seconds = 300;
  received_at_unix = received;
  source_message_id = 7;
  source_chat_id = pos 2;
  raw_text = "💰5-minute expiration\nEUR/JPY;10:58;PUT🟥";
  trigger_unix_initial = seconds 39_480;
  trigger_unix_gale1 = seconds 39_780;
  trigger_unix_gale2 = seconds 40_080;
}

pub sample_read : read_event listening sample_message sample_time ≡ signal (read_at sample_time)
unfolding read_event is_space parse_signal find_header cleaned is_zero_width digit_value
    digits_value find_lines is_upper add_minutes is_within_window derive_signal_id
sample_read = refl

pub sample_reread :
    read_event listening sample_message (seconds 39_010) ≡ signal (read_at (seconds 39_010))
unfolding read_event is_space parse_signal find_header cleaned is_zero_width digit_value
    digits_value find_lines is_upper add_minutes is_within_window derive_signal_id
sample_reread = refl

sample_no_row : get_signal "EUR/JPY|10:5" empty_intake.db ≡ none
unfolding get_signal
sample_no_row = refl

same_signal_ignored_example :
    let j =
      listen listening sample_steps
        (process_message listening sample_message sample_time empty_intake) in
    process_message listening sample_message (seconds 39_010) j ≡ j
same_signal_ignored_example =
    same_signal_ignored listening sample_message sample_message sample_time (seconds 39_010)
      (read_at sample_time) (read_at (seconds 39_010)) sample_steps empty_intake sample_read
      sample_reread refl
