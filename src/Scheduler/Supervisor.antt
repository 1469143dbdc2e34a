-- ===== src/Scheduler/Supervisor.antt =====
-- `SignalSupervisor` of scheduler/trigger.py, method by method.
use telegram_olymptrade_sign.Prelude.{
  ℕ, zero, suc, Bool, true, false, Option, none, some, String, ◌∷◌, if◌then◌else◌,
}
use telegram_olymptrade_sign.Config.{Time}
use telegram_olymptrade_sign.Domain.Gale.{Stage}
use telegram_olymptrade_sign.Domain.Signal.{Signal}
use telegram_olymptrade_sign.Domain.State.{SignalState, StageResult, from_signal}
use telegram_olymptrade_sign.Notify.{on_signal_received, on_trade_placed, on_pair_unavailable}
use telegram_olymptrade_sign.Broker.{unsupported_pair, Placed, accepted, rejected}
use telegram_olymptrade_sign.Store.Rows.{SignalRow, LimitType, Db}
use telegram_olymptrade_sign.Store.Statements.{
  get_signal, record_stage_placed, Placing, inserted, already_exists, no_such_signal,
}
use telegram_olymptrade_sign.Scheduler.World.{
  Env, World, Exec, Outcome, returned, raised, unfinished, from_broker, stage_already_exists,
  foreign_key_violation, ordered, pure, raise, gets, ◌>>=◌, ◌>>◌, now_unix, safe_notify, notify,
}
use telegram_olymptrade_sign.Scheduler.Limits.{
  status_is_pending, check_daily_limit, handle_limit_rejection,
}
use telegram_olymptrade_sign.Scheduler.Stages.{
  Round, stop, go, arm, fired, fire, apply_error_transition, wait_for_stage_result,
  apply_result_and_finalize,
}

module _ (env : Env) (signal : Signal) where
  -- `record_stage_placed` as the supervisor calls it.
  abbrev pub stage_recorded :
      Placing × Db → World env.broker.St → Outcome String × World env.broker.St
  stage_recorded (inserted id, db) w = (returned id, record w { db = db })
  stage_recorded (already_exists id, db) w = (raised (stage_already_exists id), w)
  stage_recorded (no_such_signal id, db) w = (raised (foreign_key_violation id), w)

  unfoldable pub record_placed : SignalState → Stage → ℕ → Time → String → Exec env.broker.St String
  record_placed state stage amount placed_at broker_trade_id w =
      stage_recorded
        (record_stage_placed env.sha1_hex signal.signal_id stage signal.pair signal.direction amount
          placed_at state.expires_at_unix (some broker_trade_id) w.db)
        w

  -- Steps d to f after the broker has answered.
  unfoldable pub after_place : SignalState → Stage → ℕ → Time → Placed → Exec env.broker.St Round
  unfolding record_placed
  after_place state stage placed_amount placed_at (rejected (unsupported_pair message)) = do
    notify env (on_pair_unavailable signal.pair message)
    state' ← apply_error_transition env signal state StageResult.error
    pure (stop state')
  after_place state stage placed_amount placed_at (rejected e) = raise (from_broker e)
  after_place state stage placed_amount placed_at (accepted broker_trade_id) = do
    db_trade_id ← record_placed state stage placed_amount placed_at broker_trade_id
    safe_notify env (on_trade_placed signal stage placed_amount db_trade_id)
    stage_result ← wait_for_stage_result env signal broker_trade_id state
    state' ← apply_result_and_finalize env signal state stage stage_result placed_amount db_trade_id
    pure (go state')

  unfoldable pub broker_place : Stage → ℕ → Exec env.broker.St Placed
  broker_place stage amount w =
      let (p, b) = env.broker.place signal stage amount w.broker in
      (returned p, record w { broker = b; trace = ordered stage amount ∷ w.trace })

  -- Step d: place the trade.
  unfoldable pub place : Stage → SignalState → Exec env.broker.St Round
  unfolding after_place broker_place
  place stage state = do
    placed_at ← now_unix env
    answer ← broker_place stage state.amount
    after_place state stage state.amount placed_at answer

  unfoldable pub place_if : Stage → Round → Exec env.broker.St Round
  place_if stage (stop state) = pure (stop state)
  place_if stage (go state) = place stage state

  -- The body of the `while` loop.
  unfoldable pub round : Stage → SignalState → Exec env.broker.St Round
  unfolding place_if
  round stage state = do
    arm env signal stage
    fired ← fire env signal stage state
    place_if stage fired

  -- The loop goes on with the state that the round left, or returns.
  unfoldable pub after_round :
      (SignalState → Exec env.broker.St SignalState) → Round → Exec env.broker.St SignalState
  after_round rest (stop state) = pure state
  after_round rest (go state) = rest state

  -- `_drive_cascade`, on fuel for the rounds of its loop; it returns the last state.
  unfoldable pub drive_cascade : ℕ → SignalState → Exec env.broker.St SignalState
  unfolding after_round
  drive_cascade zero state = λ w. (unfinished, w)
  drive_cascade (suc fuel) state =
      let rest = drive_cascade fuel in
      elim state.stage [
        | none ↦ pure state
        | some stage ↦ do r ← round stage state; after_round rest r
      ]

  abbrev pub is_in_progress : Option SignalRow → Bool
  is_in_progress none = false
  is_in_progress (some row) = if status_is_pending row.status then false else true

  -- Steps 3 and 4 of `_run_inner`.
  unfoldable pub start_cascade : ℕ → Exec env.broker.St Unit
  start_cascade fuel = do
    safe_notify env (on_signal_received signal)
    drive_cascade fuel (from_signal signal env.config)
    pure tt

  -- Step 2 of `_run_inner`: a signal that is in progress is left alone.
  unfoldable pub proceed : ℕ → Option SignalRow → Exec env.broker.St Unit
  proceed fuel existing = if is_in_progress existing then pure tt else start_cascade fuel

  -- Step 1 of `_run_inner`.
  unfoldable pub intake : ℕ → Option LimitType → Exec env.broker.St Unit
  intake fuel (some limit) = handle_limit_rejection env signal limit
  intake fuel none = do
    existing ← gets (λ w. get_signal signal.signal_id w.db)
    proceed fuel existing

  -- `_run_inner`
  unfoldable pub run_inner : ℕ → Exec env.broker.St Unit
  run_inner fuel = do limit_type ← check_daily_limit env signal; intake fuel limit_type

  -- `run`: every exception is logged and dropped.
  abbrev pub caught : Outcome Unit → Outcome Unit
  caught (raised _) = returned tt
  caught o = o

  unfoldable pub run : ℕ → Exec env.broker.St Unit
  run fuel w = let (r, w') = run_inner fuel w in (caught r, w')
