-- ===== src/Telegram/Listener.antt =====
-- telegram/listener.py: what the listener does with each event. Steps 1 to 4 of `_process_message`, which
-- only read, are `read_event`; the handler applies what they give to the tables, the queue, the log of
-- parse failures and the notifier. An exception of the database or of the notifier leaves the handler
-- after the effects that are listed here, since nothing follows their calls but the queue.
use Prim.Native.String.{String}
use telegram_olymptrade_sign.Prelude.{
  ℕ, ◌+◌, ◌*◌, Bool, true, false, ◌&&◌, Option, none, some, List, [], ◌∷◌, ◌++◌, ◌==◌,
  if◌then◌else◌,
}
use telegram_olymptrade_sign.Prelude.Int.{ℤ}
use telegram_olymptrade_sign.Config.{Config, Time, seconds}
use telegram_olymptrade_sign.Domain.Signal.{Signal}
use telegram_olymptrade_sign.Domain.Signal.Chars.{is_space}
use telegram_olymptrade_sign.Domain.Signal.Parser.{
  FailureReason, ParsedSignal, ParseResult, parsed, parse_failure, value_error, parse_signal,
  derive_signal_id,
}
use telegram_olymptrade_sign.Store.Rows.{Db}
use telegram_olymptrade_sign.Store.Statements.{upsert_signal}
use telegram_olymptrade_sign.Clock.{Zone, hhmm_to_unix, signal_date_in_tz, is_accepted}
use telegram_olymptrade_sign.Telegram.Channel.{
  Resolver, Chat, Match, not_resolved, matched, event_matches,
}

-- What a Telethon event carries.
pub record Message : Type 0 where
  pub out : Bool
  pub id : ℕ
  pub chat_id : ℤ
  pub chat : Chat
  pub text : Option String

-- The settings and the library functions that the listener uses.
pub record Env : Type 0 where
  pub config : Config
  pub tz : Zone
  pub resolver : Resolver
  pub lower : String → String
  pub sha1_hex : String → String

-- A line of the log of parse failures.
pub data LogLine : Type 0 where
  parse_failure_line : FailureReason → ℕ → LogLine
  out_of_window_line : String → Time → Time → ℕ → LogLine

-- The state that the handler changes: the tables, the signals put on the queue so far, the log, and the
-- calls of `on_parse_failure`.
pub record Intake : Type 0 where
  pub db : Db
  pub queue : List Signal
  pub log : List LogLine
  pub parse_failures : List (String × FailureReason)

-- What an event says; the last two are the RuntimeError of the resolver and a ValueError.
pub data Reading : Type 0 where
  skipped : Reading
  failed : FailureReason → String → Reading
  out_of_window : String → Time → Reading
  signal : Signal → Reading
  resolver_error : Reading
  value_error_raised : Reading

unfoldable pub is_blank : String → Bool
is_blank String.[] = true
is_blank (String.◌∷◌ c s) = is_space c && is_blank s

-- `event.text or ""`
abbrev pub text_of : Option String → String
text_of none = ""
text_of (some text) = text

abbrev pub allowed_expirations : Config → ℕ → Bool
allowed_expirations config n = n == config.expiration_seconds

-- Step 4.
unfoldable pub build_signal : Env → Message → Time → ParsedSignal → Time → Signal
build_signal env event received_at_unix p trigger_unix_initial = record {
  signal_id =
      derive_signal_id env.sha1_hex p
        (env.tz.isoformat (signal_date_in_tz env.tz received_at_unix));
  pair = p.pair;
  direction = p.direction;
  trigger_hhmm = p.trigger_hhmm;
  expiration_seconds = p.expiration_seconds;
  received_at_unix = received_at_unix;
  source_message_id = event.id;
  source_chat_id = event.chat_id;
  raw_text = text_of event.text;
  trigger_unix_initial = trigger_unix_initial;
  trigger_unix_gale1 = trigger_unix_initial + seconds p.expiration_seconds;
  trigger_unix_gale2 = trigger_unix_initial + 2 * seconds p.expiration_seconds;
}

-- Steps 2 to 4.
unfoldable pub read_parsed : Env → Message → Time → ParseResult → Reading
unfolding hhmm_to_unix signal_date_in_tz build_signal
read_parsed env event received_at_unix (parse_failure reason text) = failed reason text
read_parsed env event received_at_unix value_error = value_error_raised
read_parsed env event received_at_unix (parsed p) =
    elim (hhmm_to_unix env.tz p.trigger_hhmm (signal_date_in_tz env.tz received_at_unix)) [
      | none ↦ value_error_raised
      | some trigger_unix ↦
          if is_accepted trigger_unix received_at_unix
          then signal (build_signal env event received_at_unix p trigger_unix)
          else out_of_window p.trigger_hhmm trigger_unix
    ]

unfoldable pub read_text : Env → Message → Time → Reading
unfolding is_blank read_parsed
read_text env event received_at_unix =
    let text = text_of event.text in
    if is_blank text
    then skipped
    else read_parsed env event received_at_unix (parse_signal text (allowed_expirations env.config))

unfoldable pub read_match : Env → Message → Time → Match → Reading
unfolding read_text
read_match env event received_at_unix not_resolved = resolver_error
read_match env event received_at_unix (matched false) = skipped
read_match env event received_at_unix (matched true) = read_text env event received_at_unix

unfoldable pub read_event : Env → Message → Time → Reading
unfolding read_match event_matches
read_event env event received_at_unix =
    if event.out
    then skipped
    else read_match env event received_at_unix
        (event_matches env.lower env.resolver event.chat_id event.chat)

-- Steps 5 and 6.
unfoldable pub persist : Signal → Intake → Intake
unfolding upsert_signal
persist s i =
    let (inserted, db) = upsert_signal s i.db in
    if inserted then record i { db = db; queue = i.queue ++ (s ∷ []) } else record i { db = db }

unfoldable pub apply_reading : Message → Time → Reading → Intake → Intake
unfolding persist
apply_reading event received_at_unix (failed reason text) i = record i {
  log = i.log ++ (parse_failure_line reason event.id ∷ []);
  parse_failures = i.parse_failures ++ ((text, reason) ∷ []);
}
apply_reading event received_at_unix (out_of_window hhmm trigger_unix) i = record i {
  log = i.log ++ (out_of_window_line hhmm trigger_unix received_at_unix event.id ∷ []);
}
apply_reading event received_at_unix (signal s) i = persist s i
apply_reading event received_at_unix skipped i = i
apply_reading event received_at_unix resolver_error i = i
apply_reading event received_at_unix value_error_raised i = i

-- `_process_message`, which handles new and edited messages alike; the time is that of `now_unix`.
unfoldable pub process_message : Env → Message → Time → Intake → Intake
unfolding read_event apply_reading
process_message env event received_at_unix i =
    apply_reading event received_at_unix (read_event env event received_at_unix) i
