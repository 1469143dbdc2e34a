-- ===== src/Scheduler/Stages.antt =====
-- The parts of one round of `_drive_cascade`: the timer, the fire, the wait and the result.
use telegram_olymptrade_sign.Prelude.{
  ℕ, ◌+◌, ◌-◌, ◌*◌, Option, none, some, String, max, if◌then◌else◌,
}
use telegram_olymptrade_sign.Prelude.Int.{neg_ℕ}
use telegram_olymptrade_sign.Config.{Time, seconds}
use telegram_olymptrade_sign.Domain.Gale.{Stage}
use telegram_olymptrade_sign.Domain.Signal.{Signal}
use telegram_olymptrade_sign.Domain.State.{
  Status, SignalState, StageResult, win, timeout, fire_event, result_event, transition, is_loss,
  is_terminal,
}
use telegram_olymptrade_sign.Notify.{on_win, on_loss, on_signal_expired, on_cascade_complete}
use telegram_olymptrade_sign.Broker.{Waited, reported, timed_out, failed}
use telegram_olymptrade_sign.Store.Statements.{
  update_signal_state, record_stage_result, Deltas, update_daily_summary,
}
use telegram_olymptrade_sign.Scheduler.World.{
  Env, Exec, returned, armed, waited, pure, gets, ◌>>=◌, ◌>>◌, write, act, target_monotonic,
  now_unix, safe_notify, yield_to_others,
}
use telegram_olymptrade_sign.Scheduler.Limits.{
  status_is_pending, status_is_error, successful, stage_trigger, compute_stage_pnl_for_result,
  signal_date,
}

-- What the loop does after a round: leave it, or go on.
pub data Round : Type 0 where
  stop : SignalState → Round
  go : SignalState → Round

module _ (env : Env) (signal : Signal) where
  -- Steps a and b of a round: arm the timer at the trigger of the stage and wait for it.
  unfoldable pub arm : Stage → Exec env.broker.St Unit
  arm stage = do
    now_wall ← now_unix env
    mono ← gets (λ w. env.monotonic w.ticks)
    act (armed stage (target_monotonic (stage_trigger signal stage) now_wall mono))
    yield_to_others env

  -- The cascade of a signal whose fire came too late ends here.
  unfoldable pub after_fire : Stage → SignalState → Exec env.broker.St Round
  after_fire stage state =
      if status_is_error state.state
      then (do
        safe_notify env (on_signal_expired signal stage signal.trigger_hhmm)
        safe_notify env (on_cascade_complete signal Status.error state.cumulative_pnl)
        pure (stop state))
      else pure (go state)

  -- The new state of a fire is written before it is looked at; a refused fire leaves the loop.
  unfoldable pub fired : Stage → SignalState → Option SignalState → Exec env.broker.St Round
  unfolding after_fire
  fired stage state none = pure (stop state)
  fired stage state (some state') = do
    now ← now_unix env
    write (update_signal_state signal.signal_id state'.state state'.error_reason now)
    after_fire stage state'

  -- Step c: the fire of a pending state.
  unfoldable pub fire : Stage → SignalState → Exec env.broker.St Round
  fire stage state =
      if status_is_pending state.state
      then (do
        now_wall ← now_unix env
        fired stage state (successful (transition state (fire_event now_wall) env.config)))
      else pure (go state)

  unfoldable pub error_applied :
      SignalState → Time → Option SignalState → Exec env.broker.St SignalState
  error_applied state now_wall none = pure state
  error_applied state now_wall (some new_state) = do
    write (update_signal_state signal.signal_id new_state.state new_state.error_reason now_wall)
    safe_notify env (on_cascade_complete signal new_state.state new_state.cumulative_pnl)
    pure new_state

  -- `_apply_error_transition`
  unfoldable pub apply_error_transition : SignalState → StageResult → Exec env.broker.St SignalState
  apply_error_transition state stage_result = do
    now_wall ← now_unix env
    error_applied state now_wall
        (successful (transition state (result_event stage_result now_wall) env.config))

  -- `_wait_for_stage_result`
  abbrev pub stage_result_of : Waited → StageResult
  stage_result_of (reported r) = r
  stage_result_of timed_out = timeout
  stage_result_of (failed _) = StageResult.error

  -- `max(0.1, expires_at - now + 30)`
  abbrev pub wait_timeout : Time → Time → Time
  wait_timeout expires_at now = max 100_000 (expires_at + seconds 30 - now)

  unfoldable pub wait_for_stage_result : String → SignalState → Exec env.broker.St StageResult
  wait_for_stage_result broker_trade_id state = do
    now ← now_unix env
    let limit = wait_timeout state.expires_at_unix now
    act (waited broker_trade_id limit)
    yield_to_others env
    λ w.
        let (r, b) = env.broker.wait_result broker_trade_id limit w.broker in
        (returned (stage_result_of r), record w { broker = b })

  abbrev pub deltas_of : StageResult → ℕ → Deltas
  deltas_of r placed_amount = record {
    signals_count = 0;
    trades_count = 1;
    wins = elim r [ win ↦ 1 | _ ↦ 0 ];
    losses = if is_loss r then 1 else 0;
    realized_pnl = compute_stage_pnl_for_result r placed_amount;
    limit_hit = none;
  }

  -- The notification of a stage result; an error has none.
  unfoldable pub notify_result : Stage → StageResult → ℕ → SignalState → Exec env.broker.St Unit
  notify_result stage win placed_amount new_state = safe_notify env (
      on_win signal stage (compute_stage_pnl_for_result win placed_amount) new_state.cumulative_pnl)
  notify_result stage StageResult.error placed_amount new_state = pure tt
  notify_result stage _ placed_amount new_state =
      safe_notify env (
        on_loss signal stage (neg_ℕ (placed_amount * 100)) new_state.cumulative_pnl new_state.stage)

  unfoldable pub notify_end : SignalState → Exec env.broker.St Unit
  notify_end new_state =
      if is_terminal new_state.state
      then safe_notify env (on_cascade_complete signal new_state.state new_state.cumulative_pnl)
      else pure tt

  unfoldable pub result_applied :
      SignalState
      → Stage
      → StageResult
      → ℕ
      → String
      → Time
      → Option SignalState
      → Exec env.broker.St SignalState
  unfolding notify_result notify_end
  result_applied state stage stage_result placed_amount trade_id now_wall none = pure state
  result_applied state stage stage_result placed_amount trade_id now_wall (some new_state) = do
    write (
        record_stage_result trade_id stage_result
          (compute_stage_pnl_for_result stage_result placed_amount) now_wall)
    write (update_signal_state signal.signal_id new_state.state new_state.error_reason now_wall)
    write (update_daily_summary (signal_date env signal) (deltas_of stage_result placed_amount))
    notify_result stage stage_result placed_amount new_state
    notify_end new_state
    pure new_state

  -- `_apply_result_and_finalize`
  unfoldable pub apply_result_and_finalize :
      SignalState → Stage → StageResult → ℕ → String → Exec env.broker.St SignalState
  apply_result_and_finalize state stage stage_result placed_amount trade_id = do
    now_wall ← now_unix env
    result_applied state stage stage_result placed_amount trade_id now_wall
        (successful (transition state (result_event stage_result now_wall) env.config))
