-- ===== src/Clock.antt =====
-- infra/clock.py: the time zone, and the window in which the listener accepts a signal.
use telegram_olymptrade_sign.Prelude.{
  ◌+◌, ◌≤◌, ◌<◌, ◌≡◌, ℕ, Bool, true, Option, none, some, String, arith, leb, ◌&&◌, if◌then◌else◌,
}
use telegram_olymptrade_sign.Config.{Config, Time, seconds}
use telegram_olymptrade_sign.Domain.Signal.{Signal}
use telegram_olymptrade_sign.Domain.State.{
  Status, SignalState, signal_expired, fire_event, from_signal, transition,
}
use telegram_olymptrade_sign.Domain.Signal.Parser.{hhmm_numbers, format_hhmm}
use telegram_olymptrade_sign.Store.Rows.{Date}
use telegram_olymptrade_sign.Scheduler.World.{target_monotonic}

-- The configured time zone, which `zoneinfo` and `datetime` know: the day of a time, the time of an hour
-- and minute of a day, and the text of a day.
pub record Zone : Type 0 where
  pub date_of : Time → Date
  pub timestamp : Date → ℕ → ℕ → Time
  pub isoformat : Date → String

-- `none` is the ValueError.
unfoldable pub hhmm_to_unix : Zone → String → Date → Option Time
hhmm_to_unix tz hhmm on_date = elim (hhmm_numbers hhmm) [
  | none ↦ none
  | some (hour, minute) ↦
      if leb hour 23 && leb minute 59 then some (tz.timestamp on_date hour minute) else none
]

unfoldable pub signal_date_in_tz : Zone → Time → Date
signal_date_in_tz tz unix_ts = tz.date_of unix_ts

-- The hour and the minute of a time in a time zone, which `datetime` knows.
pub record LocalTime : Type 0 where
  pub hour : Time → ℕ
  pub minute : Time → ℕ

unfoldable pub format_local_hhmm : LocalTime → Time → String
format_local_hhmm tz unix_ts = format_hhmm (tz.hour unix_ts) (tz.minute unix_ts)

-- `is_within_window` with its two tolerances; `now - past <= trigger` is written without a difference.
unfoldable pub is_within_window : Time → Time → Time → Time → Bool
is_within_window trigger_unix now_unix past_tolerance future_tolerance =
    leb now_unix (trigger_unix + past_tolerance) && leb trigger_unix (now_unix + future_tolerance)

-- As the listener calls it, with the tolerances of one minute and of thirty minutes.
abbrev pub is_accepted : Time → Time → Bool
is_accepted trigger_unix now_unix =
    is_within_window trigger_unix now_unix (seconds 60) (seconds 1_800)

-- A signal that is accepted is waited for at most thirty minutes, and one that is accepted later than
-- its trigger and the tolerance, which may be by a minute, ends in error with signal_expired whenever
-- it is fired.
pub accepted_window :
    (signal : Signal) (c : Config) (received now mono : Time)
    → is_accepted signal.trigger_unix_initial received ≡ true
    → received ≤ now
    → (target_monotonic signal.trigger_unix_initial now mono ≤ mono + seconds 1_800)
      × (signal.trigger_unix_initial + c.trigger_skew_tolerance_seconds < received
          → (received ≤ signal.trigger_unix_initial + seconds 60)
            × ((transition (from_signal signal c) (fire_event now) c).success ≡ true)
            × ((s : SignalState)
                → (transition (from_signal signal c) (fire_event now) c).new_state ≡ some s
                → (s.state ≡ Status.error) × (s.error_reason ≡ some signal_expired)))
unfolding is_within_window target_monotonic transition from_signal
accepted_window signal c received now mono h le =
    (ground arith, λ late. (ground arith, ground arith, λ s e. ground arith))
