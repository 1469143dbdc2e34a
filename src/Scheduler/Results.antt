-- ===== src/Scheduler/Results.antt =====
-- The second half of a round: the record of a placed stage, its result, and the errors of the broker.
use telegram_olymptrade_sign.Prelude.{
  ℕ, suc, ◌≡◌, refl, inl, inr, true, Option, none, some, String, arith, Bool-cases,
}
use telegram_olymptrade_sign.Config.{Time}
use telegram_olymptrade_sign.Domain.Gale.{Stage}
use telegram_olymptrade_sign.Domain.Signal.{Signal}
use telegram_olymptrade_sign.Domain.State.{
  Status, SignalState, StageResult, result_event, transition, is_terminal, is_placed,
}
use telegram_olymptrade_sign.Domain.State.Invariant.{IsCascade}
use telegram_olymptrade_sign.Notify.{Note}
use telegram_olymptrade_sign.Store.Rows.{Db}
use telegram_olymptrade_sign.Store.Statements.{
  update_signal_state, record_stage_placed, record_stage_result, Placing, inserted, already_exists,
  no_such_signal, update_daily_summary,
}
use telegram_olymptrade_sign.Scheduler.World.{
  Env, Exception, from_notifier, notify, stage_already_exists, foreign_key_violation, pure, ◌>>◌,
}
use telegram_olymptrade_sign.Scheduler.Triple.{Post, Post-bind}
use telegram_olymptrade_sign.Scheduler.Limits.{
  compute_stage_pnl_for_result, signal_date, successful,
}
use telegram_olymptrade_sign.Scheduler.Stages.{
  error_applied, result_applied, apply_error_transition, apply_result_and_finalize, notify_result,
  notify_end, wait_for_stage_result, deltas_of,
}
use telegram_olymptrade_sign.Scheduler.Supervisor.{record_placed, stage_recorded}
use telegram_olymptrade_sign.Scheduler.Shows.{
  orders, Shows, update_signal_state-Shows, record_stage_result-Shows, update_daily_summary-Shows,
  record_stage_placed-Shows,
}
use telegram_olymptrade_sign.Scheduler.Ladder.{
  IsNext, transition-IsNext, placed-takes, OrdersAfter-next, OrdersAfter-IsLadder,
  error_result_state,
}
use telegram_olymptrade_sign.Scheduler.Landing.{IsPrivate, W, Stranded, Mid, IsApplied, IsFailed}

module _ (env : Env) (signal : Signal) (private : IsPrivate env signal) where
  pub Mid-Stranded :
      (st : Status) (e : Exception) (w : W env signal)
      → is_placed st ≡ true
      → Mid env signal st w
      → Stranded env signal e w
  Mid-Stranded st e w p h = ((st, p, h.0), OrdersAfter-IsLadder env.config st (orders w.trace) h.1)

  pub error_applied-IsFailed :
      (s : SignalState) (now : Time) (o : Option SignalState) (w : W env signal)
      → IsNext signal env.config s o
      → ((s' : SignalState) → o ≡ some s' → s'.state ≡ Status.error)
      → Mid env signal s.state w
      → Post (IsFailed env signal s) (Stranded env signal) (error_applied env signal s now o w)
  unfolding error_applied
  error_applied-IsFailed s now none w h failed mid = elim h [ ]
  error_applied-IsFailed s now (some s') w h failed mid = (
    h.1,
    (
      update_signal_state-Shows signal.signal_id s.state s'.state s'.error_reason now w.db mid.0,
      OrdersAfter-next env.config s.state s'.state (orders w.trace) mid.1 h.0,
    ),
    failed s' refl,
  )

  pub notify_result-IsApplied :
      (s s' : SignalState) (stage : Stage) (r : StageResult) (amount : ℕ) (w : W env signal)
      → IsApplied env signal s s' w
      → Post
          (λ _ w'. (IsApplied env signal) s s' w')
          (Stranded env signal)
          (notify_result env signal stage r amount s' w)
  unfolding notify_result
  notify_result-IsApplied s s' stage StageResult.win amount w h = h
  notify_result-IsApplied s s' stage _ amount w h = h

  pub notify_end-IsApplied :
      (s s' : SignalState) (w : W env signal)
      → IsApplied env signal s s' w
      → Post
          (λ _ w'. (IsApplied env signal) s s' w')
          (Stranded env signal)
          (notify_end env signal s' w)
  unfolding notify_end
  notify_end-IsApplied s s' w h = elim (Bool-cases (is_terminal s'.state)) [
    | inl e ↦ rw (e, notify_end) h
    | inr e ↦ rw (e, notify_end) h
  ]

  pub result_applied-IsApplied :
      (s : SignalState) (stage : Stage) (r : StageResult) (amount : ℕ) (id : String) (now : Time)
      (o : Option SignalState) (w : W env signal)
      → IsNext signal env.config s o
      → Mid env signal s.state w
      → Post
          (IsApplied env signal s)
          (Stranded env signal)
          (result_applied env signal s stage r amount id now o w)
  unfolding result_applied
  result_applied-IsApplied s stage r amount id now none w h mid = elim h [ ]
  result_applied-IsApplied s stage r amount id now (some s') w h mid =
      let db1 = record_stage_result id r (compute_stage_pnl_for_result r amount) now w.db in
      let db2 = update_signal_state signal.signal_id s'.state s'.error_reason now db1 in
      let db3 = update_daily_summary (signal_date env signal) (deltas_of env signal r amount) db2 in
      let done : IsApplied env signal s s' (record w { db = db3 }) = (
        h.1,
        (
          update_daily_summary-Shows signal.signal_id s'.state (signal_date env signal)
              (deltas_of env signal r amount) db2
              (update_signal_state-Shows signal.signal_id s.state s'.state s'.error_reason now db1 (
                record_stage_result-Shows signal.signal_id s.state id r
                  (compute_stage_pnl_for_result r amount) now w.db mid.0)),
          OrdersAfter-next env.config s.state s'.state (orders w.trace) mid.1 h.0,
        ),
        h.0,
      ) in
      let w1 : W env signal = record w { db = db3 } in
      Post-bind (Stranded env signal) (λ _ w'. (IsApplied env signal) s s' w')
        (IsApplied env signal s) (notify_result env signal stage r amount s')
        (λ _. notify_end env signal s' >> pure s') w1
        (notify_result-IsApplied s s' stage r amount w1 done)
        (λ _ w2 done2.
          Post-bind (Stranded env signal) (λ _ w'. (IsApplied env signal) s s' w')
            (IsApplied env signal s) (notify_end env signal s') (λ _. pure s') w2
            (notify_end-IsApplied s s' w2 done2) (λ _ w3 done3. done3))

  pub wait_for_stage_result-Mid :
      (id : String) (s : SignalState) (w : W env signal)
      → Mid env signal s.state w
      → Post
          (λ _ w'. (Mid env signal) s.state w')
          (Stranded env signal)
          (wait_for_stage_result env signal id s w)
  unfolding wait_for_stage_result
  wait_for_stage_result-Mid id s w mid = ground (arith, private (suc w.ticks) w.db)

  pub stage_recorded-Mid :
      (st : Status) (p : Placing) (db : Db) (w : W env signal)
      → is_placed st ≡ true
      → Mid env signal st w
      → Shows signal.signal_id st db
      → Post
          (λ _ w'. (Mid env signal) st w')
          (Stranded env signal)
          (stage_recorded env signal (p, db) w)
  stage_recorded-Mid st (inserted id) db w p mid shows = (shows, mid.1)
  stage_recorded-Mid st (already_exists id) db w p mid shows =
      Mid-Stranded st (stage_already_exists id) w p mid
  stage_recorded-Mid st (no_such_signal id) db w p mid shows =
      Mid-Stranded st (foreign_key_violation id) w p mid

  pub record_placed-Mid :
      (s : SignalState) (stage : Stage) (amount : ℕ) (at : Time) (id : String) (w : W env signal)
      → is_placed s.state ≡ true
      → Mid env signal s.state w
      → Post
          (λ _ w'. (Mid env signal) s.state w')
          (Stranded env signal)
          (record_placed env signal s stage amount at id w)
  unfolding record_placed
  record_placed-Mid s stage amount at id w p mid =
      let (outcome, db') =
        record_stage_placed env.sha1_hex signal.signal_id stage signal.pair signal.direction amount
          at s.expires_at_unix (some id) w.db in
      stage_recorded-Mid s.state outcome db' w p mid (
        record_stage_placed-Shows env.sha1_hex signal stage amount at s.expires_at_unix (some id)
          s.state w.db mid.0)

  pub apply_result_and_finalize-IsApplied :
      (s : SignalState) (stage : Stage) (r : StageResult) (amount : ℕ) (id : String)
      (w : W env signal)
      → IsCascade signal env.config s
      → is_placed s.state ≡ true
      → Mid env signal s.state w
      → Post
          (IsApplied env signal s)
          (Stranded env signal)
          (apply_result_and_finalize env signal s stage r amount id w)
  unfolding apply_result_and_finalize
  apply_result_and_finalize-IsApplied s stage r amount id w h p mid =
      let now = env.clock w.ticks in
      result_applied-IsApplied s stage r amount id now
        (successful (transition s (result_event r now) env.config))
        (record w { ticks = suc w.ticks })
        (transition-IsNext signal env.config s (result_event r now) h
          (placed-takes s.state r now p))
        mid

  pub apply_error_transition-IsFailed :
      (s : SignalState) (w : W env signal)
      → IsCascade signal env.config s
      → is_placed s.state ≡ true
      → Mid env signal s.state w
      → Post
          (IsFailed env signal s)
          (Stranded env signal)
          (apply_error_transition env signal s StageResult.error w)
  unfolding apply_error_transition
  apply_error_transition-IsFailed s w h p mid =
      let now = env.clock w.ticks in
      let e = result_event StageResult.error now in
      error_applied-IsFailed s now (successful (transition s e env.config))
        (record w { ticks = suc w.ticks })
        (transition-IsNext signal env.config s e h (placed-takes s.state StageResult.error now p))
        (error_result_state s env.config now p) mid

  pub notify-Mid :
      (st : Status) (n : Note) (w : W env signal)
      → is_placed st ≡ true
      → Mid env signal st w
      → Post (λ _ w'. (Mid env signal) st w') (Stranded env signal) (notify env n w)
  notify-Mid st n w p mid = elim (Bool-cases (env.raises n)) [
    | inl e ↦ rw (e, notify) (Mid-Stranded st (from_notifier n) w p mid)
    | inr e ↦ rw (e, notify) mid
  ]
