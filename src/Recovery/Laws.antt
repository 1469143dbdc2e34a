-- ===== src/Recovery/Laws.antt =====
-- What recovery.py does to the cascades of the last process: it resumes none of them.
use telegram_olymptrade_sign.Prelude.{
  suc, ◌≤◌, ◌<◌, ◌≡◌, ◌≢◌, refl, true, false, Option, none, some, String, arith,
}
use telegram_olymptrade_sign.Config.{Time, seconds}
use telegram_olymptrade_sign.Domain.Gale.{Stage, gale2}
use telegram_olymptrade_sign.Domain.State.{
  Status, pending, done_loss, SignalState, ErrorReason, signal_expired, timeout, result_event,
  is_terminal, is_placed, transition,
}
use telegram_olymptrade_sign.Store.Rows.{SignalRow}
use telegram_olymptrade_sign.Store.Statements.{get_signal, update_signal_state}
use telegram_olymptrade_sign.Scheduler.World.{Env, World, returned}
use telegram_olymptrade_sign.Scheduler.Limits.{successful}
use telegram_olymptrade_sign.Scheduler.Adopt.{
  adopt, record_timeout, timeout_of_row, timeout_applied, state_of_row, signal_of_row,
}
use telegram_olymptrade_sign.Scheduler.Runs.{limit_at, duplicate_ignored}
use telegram_olymptrade_sign.Recovery.{stage_name_for_status, window_end}

placed_not_pending : (st : Status) → is_placed st ≡ true → st ≢ pending
placed_not_pending st h e = ground arith

placed_not_terminal : (st : Status) → is_placed st ≡ true → is_terminal st ≡ false
placed_not_terminal st h = ground arith

-- Adopting a signal whose row is in a placed status does nothing at all, unless a daily limit is hit:
-- the supervisor that is started takes the signal for a duplicate, waits for no result and places no
-- further stage.
pub adopt_does_nothing :
    (env : Env) (w : World env.broker.St) (row : SignalRow)
    → get_signal row.signal_id w.db ≡ some row
    → is_placed row.status ≡ true
    → limit_at env (signal_of_row row) w ≡ none
    → adopt env row w ≡ (returned tt, w)
unfolding adopt
adopt_does_nothing env w row found placed clear =
    rw (placed_not_terminal row.status placed, adopt)
      (duplicate_ignored env (signal_of_row row) w row 4 clear found
        (placed_not_pending row.status placed))

-- The status and the reason that a stage which has timed out comes to.
abbrev pub status_after_timeout : Stage → Status
status_after_timeout gale2 = done_loss
status_after_timeout _ = Status.error

abbrev pub reason_after_timeout : Stage → Option ErrorReason
reason_after_timeout gale2 = none
reason_after_timeout _ = some signal_expired

-- What a timed-out stage comes to, as a proposition on the transition's result.
abbrev EndsAs : Stage → Option SignalState → Type 0
EndsAs stage none = ⊥
EndsAs stage (some s) =
    (s.state ≡ status_after_timeout stage) × (s.error_reason ≡ reason_after_timeout stage)

timeout_transition :
    (env : Env) (row : SignalRow) (stage : Stage) (now : Time)
    → stage_name_for_status row.status ≡ some stage
    → env.config.trigger_skew_tolerance_seconds ≤ seconds 30
    → window_end row stage < now
    → EndsAs stage
        (successful (transition (state_of_row env row stage) (result_event timeout now) env.config))
unfolding transition
timeout_transition env row stage now e tol late = ground arith

after_timeout_not_placed : (stage : Stage) → is_placed (status_after_timeout stage) ≡ false
after_timeout_not_placed stage = ground arith

timeout_applied-ended :
    (env : Env) (w : World env.broker.St) (id : String) (stage : Stage) (now : Time)
    (o : Option SignalState)
    → EndsAs stage o
    → timeout_applied env id now o w ≡ (
      returned tt,
      record w {
        db =
            update_signal_state id
              (status_after_timeout stage)
              (reason_after_timeout stage)
              now
              w.db;
      },
    )
unfolding timeout_applied
timeout_applied-ended env w id stage now none h = elim h [ ]
timeout_applied-ended env w id stage now (some s) (state, reason) =
    rw (state, reason, after_timeout_not_placed stage) refl

-- A timeout that recovery records for the stage of a row in a placed status, whose fire lies more than
-- 330 seconds back, never leads to the next stage while the tolerance is at most 30 seconds: it
-- writes one status into the row of the signal, error with the reason signal_expired for the initial
-- trade and the first gale and done_loss for the second, and starts no supervisor.
pub record_timeout_ends :
    (env : Env) (w : World env.broker.St) (row : SignalRow) (stage : Stage)
    → get_signal row.signal_id w.db ≡ some row
    → stage_name_for_status row.status ≡ some stage
    → env.config.trigger_skew_tolerance_seconds ≤ seconds 30
    → window_end row stage < env.clock w.ticks
    → record_timeout env row.signal_id stage w ≡ (
      returned tt,
      record w {
        ticks = suc w.ticks;
        db =
            update_signal_state row.signal_id
              (status_after_timeout stage)
              (reason_after_timeout stage)
              (env.clock w.ticks)
              w.db;
      },
    )
unfolding record_timeout timeout_of_row
record_timeout_ends env w row stage found e tol late = rw (found) (
    timeout_applied-ended env (record w { ticks = suc w.ticks }) row.signal_id stage
      (env.clock w.ticks)
      (successful (
        transition (state_of_row env row stage) (result_event timeout (env.clock w.ticks))
          env.config))
      (timeout_transition env row stage (env.clock w.ticks) e tol late))
