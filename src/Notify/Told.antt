-- ===== src/Notify/Told.antt =====
-- What the log of NoOpNotifier tells, and what the checks of a soak run find in the log of either notifier.
use Prim.Native.String.{String}
use mathlib.Core.Option
use telegram_olymptrade_sign.Prelude.{
  ◌≡◌, refl, Bool, true, false, ◌&&◌, Option, none, some, arith, str_eq, if◌then◌else◌,
}
use telegram_olymptrade_sign.Database.{span, is_not}
use telegram_olymptrade_sign.Domain.Signal.Message.{followed_by}
use telegram_olymptrade_sign.Domain.Signal.Parser.{literal}
use telegram_olymptrade_sign.Notify.{
  on_signal_received, on_trade_placed, on_win, on_loss, on_signal_expired, on_cascade_complete,
  on_signal_rejected_by_limit, on_pair_unavailable, Notice, note, on_bot_started, on_bot_stopping,
  on_parse_failure, on_telegram_disconnect, on_broker_disconnect, on_broker_reconnecting,
  on_broker_reconnected, on_broker_reconnect_failed,
}
use telegram_olymptrade_sign.Notify.Logged.{
  Method, signal_received, trade_placed, win, lost, signal_expired, cascade_complete,
  signal_rejected_by_limit, pair_unavailable, bot_started, bot_stopping, parse_failure,
  telegram_disconnect, broker_disconnect, broker_reconnecting, broker_reconnected,
  broker_reconnect_failed, method, event_name, Formats, line, arguments,
}
use telegram_olymptrade_sign.Notify.Sending.{send, sent_line, started_text}
use telegram_olymptrade_sign.Soak.{assert_uptime, assert_no_dm_failures}
use telegram_olymptrade_sign.Telegram.Channel.{contains, starts_with}

-- The value of the `event` key of a line of the log.
unfoldable pub event_key : String → Option String
unfolding literal span
event_key s = Option.map (λ (r : String). (span (is_not b' ') r).0) (literal "notify: event=" s)

abbrev named : Method → String → Option Method → Option Method
named m s otherwise = if str_eq s (event_name m) then some m else otherwise

-- The method of an event.
unfoldable pub method_named : String → Option Method
unfolding event_name
method_named s = named signal_received s (
    named trade_placed s (
      named win s (
        named lost s (
          named signal_expired s (
            named cascade_complete s (
              named signal_rejected_by_limit s (
                named pair_unavailable s (
                  named bot_started s (
                    named bot_stopping s (
                      named parse_failure s (
                        named telegram_disconnect s (
                          named broker_disconnect s (
                            named broker_reconnecting s (
                              named broker_reconnected s
                                (named broker_reconnect_failed s none)))))))))))))))

line-event_key : (f : Formats) (n : Notice) → event_key (line f n) ≡ some (event_name (method n))
unfolding event_key line arguments
line-event_key f (note (on_signal_received signal)) = refl
line-event_key f (note (on_trade_placed signal stage amount trade_id)) = refl
line-event_key f (note (on_win signal stage pnl cumulative_pnl)) = refl
line-event_key f (note (on_loss signal stage pnl cumulative_pnl next_stage)) = refl
line-event_key f (note (on_signal_expired signal stage trigger_hhmm)) = refl
line-event_key f (note (on_cascade_complete signal final_state cumulative_pnl)) = refl
line-event_key f (note (on_signal_rejected_by_limit signal limit_type summary)) = refl
line-event_key f (note (on_pair_unavailable pair message)) = refl
line-event_key f (on_bot_started mode watching timezone) = refl
line-event_key f (on_bot_stopping open_cascades) = refl
line-event_key f (on_parse_failure raw_text reason) = refl
line-event_key f on_telegram_disconnect = refl
line-event_key f on_broker_disconnect = refl
line-event_key f (on_broker_reconnecting attempt max_attempts downtime next_delay) = refl
line-event_key f (on_broker_reconnected attempts_used total_downtime) = refl
line-event_key f (on_broker_reconnect_failed attempts total_downtime) = refl

event_name-method_named : (m : Method) → method_named (event_name m) ≡ some m
unfolding method_named
event_name-method_named signal_received = refl
event_name-method_named trade_placed = refl
event_name-method_named win = refl
event_name-method_named lost = refl
event_name-method_named signal_expired = refl
event_name-method_named cascade_complete = refl
event_name-method_named signal_rejected_by_limit = refl
event_name-method_named pair_unavailable = refl
event_name-method_named bot_started = refl
event_name-method_named bot_stopping = refl
event_name-method_named parse_failure = refl
event_name-method_named telegram_disconnect = refl
event_name-method_named broker_disconnect = refl
event_name-method_named broker_reconnecting = refl
event_name-method_named broker_reconnected = refl
event_name-method_named broker_reconnect_failed = refl

-- Whatever the arguments of a call are, the `event` key can be read back from its line of the log, and names the
-- method that was called.
pub line_tells :
    (f : Formats) (n : Notice)
    → (key : String) × (event_key (line f n) ≡ some key) × (method_named key ≡ some (method n))
line_tells f n = (event_name (method n), line-event_key f n, event_name-method_named (method n))

and_both : (a b : Bool) → (a && b) ≡ true → (a ≡ true) × (b ≡ true)
and_both a b h = ground arith

starts_with-before :
    (p s after : String) → starts_with p s ≡ true → starts_with p (followed_by s after) ≡ true
unfolding starts_with
starts_with-before String.[] s after h = refl
starts_with-before (String.◌∷◌ c p) String.[] after h = cc
starts_with-before (String.◌∷◌ c p) (String.◌∷◌ d s) after h =
    ground (arith, h, starts_with-before p s after)

contains-nothing : (s : String) → contains "" s ≡ true
unfolding contains
contains-nothing String.[] = refl
contains-nothing (String.◌∷◌ c s) = refl

contains-before :
    (p s after : String) → contains p s ≡ true → contains p (followed_by s after) ≡ true
unfolding contains
contains-before String.[] String.[] after h = contains-nothing after
contains-before (String.◌∷◌ c p) String.[] after h = cc
contains-before p (String.◌∷◌ c s) after h =
    ground (arith, h, starts_with-before p (String.◌∷◌ c s) after, contains-before p s after)

contains-after :
    (p s before : String) → contains p s ≡ true → contains p (followed_by before s) ≡ true
unfolding contains
contains-after p s String.[] h = h
contains-after p s (String.◌∷◌ c before) h = ground (arith, contains-after p s before h)

-- A text somewhere in a log.
abbrev pub log_with : String → String → String → Option String
log_with before shown after = some (followed_by before (followed_by shown after))

contains-log_with :
    (p before shown after : String)
    → contains p shown ≡ true
    → contains p (followed_by before (followed_by shown after)) ≡ true
contains-log_with p before shown after h =
    contains-after p (followed_by shown after) before (contains-before p shown after h)

module _ (before shown after : String) where
  uptime-bot_started :
      contains "bot_started" shown ≡ true
      → (assert_uptime (log_with before shown after)).passed ≡ true
  unfolding assert_uptime
  uptime-bot_started h = ground (arith, contains-log_with "bot_started" before shown after h)

  uptime-text :
      contains "Bot started" shown ≡ true
      → (assert_uptime (log_with before shown after)).passed ≡ true
  unfolding assert_uptime
  uptime-text h = ground (arith, contains-log_with "Bot started" before shown after h)

  dm_failures-shown :
      contains "DM send failed" shown ≡ true
      → (assert_no_dm_failures (log_with before shown after)).passed ≡ false
  unfolding assert_no_dm_failures
  dm_failures-shown h = ground (arith, contains-log_with "DM send failed" before shown after h)

-- Wherever it stands in the log of the application, the start of the bot is seen by the uptime check, as the line of
-- NoOpNotifier and as the direct message that was sent; and a direct message that could not be sent is seen by
-- the check of the direct messages.
pub start_seen :
    (f : Formats) (mode watching timezone exc before after text : String)
    → ((assert_uptime
          (log_with before (line f (on_bot_started mode watching timezone)) after)).passed
        ≡ true)
      × ((assert_uptime (
            log_with before
              (sent_line f.repr exc (send (λ t. false) (started_text mode watching timezone)))
              after)).passed
          ≡ true)
      × ((assert_no_dm_failures
            (log_with before (sent_line f.repr exc (send (λ t. true) text)) after)).passed
          ≡ false)
unfolding line arguments send sent_line started_text contains
start_seen f mode watching timezone exc before after text = (
  uptime-bot_started before (line f (on_bot_started mode watching timezone)) after refl,
  uptime-text before
      (sent_line f.repr exc (send (λ t. false) (started_text mode watching timezone))) after refl,
  dm_failures-shown before (sent_line f.repr exc (send (λ t. true) text)) after refl,
)
