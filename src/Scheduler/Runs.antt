-- ===== src/Scheduler/Runs.antt =====
-- Whole runs of a supervisor, from any tables and with any broker, clock and notifier.
use telegram_olymptrade_sign.Prelude.{
  ℕ, ◌*◌, ◌≤◌, ◌<◌, ◌⊎◌, ◌≡◌, ◌≢◌, refl, inl, inr, true, false, Option, none, some, List, [], arith,
  Bool-cases, ap, ◌∙◌,
}
use telegram_olymptrade_sign.Prelude.Int.{ℤ, neg_ℕ, ◌≤ℤ◌}
use telegram_olymptrade_sign.Config.{Config}
use telegram_olymptrade_sign.Domain.Signal.{Signal}
use telegram_olymptrade_sign.Domain.State.{Status, pending, SignalState, from_signal, is_terminal}
use telegram_olymptrade_sign.Domain.State.Invariant.{from_signal-IsCascade}
use telegram_olymptrade_sign.Store.Rows.{SignalRow, DailySummaryRow, LimitType}
use telegram_olymptrade_sign.Store.Statements.{get_signal, get_daily_summary}
use telegram_olymptrade_sign.Scheduler.World.{
  Env, World, Outcome, returned, raised, unfinished, pure,
}
use telegram_olymptrade_sign.Scheduler.Triple.{Post, Post-bind}
use telegram_olymptrade_sign.Scheduler.Limits.{
  times_ℤ, neg_ℤ, check_daily_limit, limit_of, handle_limit_rejection, signal_date,
  status_is_pending,
}
use telegram_olymptrade_sign.Scheduler.Supervisor.{
  drive_cascade, start_cascade, proceed, intake, caught, run_inner, run,
}
use telegram_olymptrade_sign.Scheduler.Shows.{orders, status_of_row, Shows}
use telegram_olymptrade_sign.Scheduler.Ladder.{pending-eq, IsLadder, OrdersAt}
use telegram_olymptrade_sign.Scheduler.Landing.{IsPrivate, IsLanded, Stranded}
use telegram_olymptrade_sign.Scheduler.Cascade.{drive_from}
use telegram_olymptrade_sign.Domain.Gale.{Stage}

-- The cascade of a signal whose row is pending, or that has no row, and whose status other tasks leave
-- alone, ends within four rounds of the loop's fuel when no order has been given before. If no exception leaves it, it ends in a terminal state of the cascade, the row shows
-- that state, and the orders given to the broker are those that the state stands for: each stage at
-- most once, in order, with its stake. If an exception leaves it, the row is left in a placed status.
pub drive_cascade_lands :
    (env : Env) (signal : Signal) (w : World env.broker.St) (private : IsPrivate env signal)
    → Shows signal.signal_id pending w.db
    → orders w.trace ≡ []
    → Post
        (IsLanded env signal)
        (Stranded env signal)
        (drive_cascade env signal 4 (from_signal signal env.config) w)
unfolding from_signal
drive_cascade_lands env signal w private shows none_yet =
    drive_from env signal private 4 (from_signal signal env.config) w (omega arith)
      (from_signal-IsCascade signal env.config) (shows, none_yet)

-- The limit of the day that a run begins in.
abbrev pub limit_at : (env : Env) → Signal → World env.broker.St → Option LimitType
limit_at env signal w =
    limit_of env.config (env.broker.start_of_day_balance w.broker)
      (get_daily_summary (signal_date env signal) w.db)

run_inner-intake :
    (env : Env) (signal : Signal) (w : World env.broker.St) (fuel : ℕ)
    → run_inner env signal fuel w ≡ intake env signal fuel (limit_at env signal w) w
unfolding run_inner check_daily_limit
run_inner-intake env signal w fuel = refl

in_progress : (st : Status) → st ≢ pending → status_is_pending st ≡ false
in_progress st h = ground arith

-- A run, once the limit of the day is known.
pub run-intake :
    (env : Env) (signal : Signal) (w : World env.broker.St) (fuel : ℕ) (l : Option LimitType)
    → limit_at env signal w ≡ l
    → run env signal fuel w
      ≡ (let (r, w') = intake env signal fuel l w in (caught env signal r, w'))
unfolding run
run-intake env signal w fuel l e =
    ap (λ (o : Outcome Unit × World env.broker.St). (caught env signal o.0, o.1))
      (run_inner-intake env signal w fuel ∙ ap (λ x. intake env signal fuel x w) e)

-- The drawdown: dollars where there is no balance of the day, or else a percentage of it.
abbrev pub IsDrawnDown : Config → Option ℤ → ℤ → Type 0
IsDrawnDown c none pnl = pnl ≤ℤ neg_ℕ (c.daily_drawdown_pct * 10000)
IsDrawnDown c (some starting) pnl = times_ℤ pnl 100 ≤ℤ neg_ℤ (times_ℤ starting c.daily_drawdown_pct)

-- A limit of the settings that is not 0 has been reached on a day.
abbrev pub IsOver : Config → Option ℤ → DailySummaryRow → Type 0
IsOver c balance day =
    ((0 < c.daily_loss_limit) × (day.realized_pnl ≤ℤ neg_ℕ (c.daily_loss_limit * 100)))
    ⊎ ((0 < c.daily_trade_limit) × (c.daily_trade_limit ≤ day.trades_count))
    ⊎ ((0 < c.daily_drawdown_pct) × IsDrawnDown c balance day.realized_pnl)

-- A run for a signal whose row is no longer pending, with no daily limit hit, does nothing at all.
pub duplicate_ignored :
    (env : Env) (signal : Signal) (w : World env.broker.St) (row : SignalRow) (fuel : ℕ)
    → limit_at env signal w ≡ none
    → get_signal signal.signal_id w.db ≡ some row
    → row.status ≢ pending
    → run env signal fuel w ≡ (returned tt, w)
unfolding intake proceed
duplicate_ignored env signal w row fuel clear found other =
    rw (run-intake env signal w fuel none clear)
      (rw (found, intake) (rw (in_progress row.status other, proceed) refl))

OrdersAt-IsLadder :
    (c : Config) (st : Status) (os : List (Stage × ℕ))
    → OrdersAt c st os
    → is_terminal st ≡ true
    → IsLadder c os
OrdersAt-IsLadder c st os h t = ground arith

-- The orders so far are a part of the ladder.
abbrev LadderIn : (env : Env) → World env.broker.St → Type 0
LadderIn env w = IsLadder env.config (orders w.trace)

caught-Post :
    (env : Env) (signal : Signal) (o : Outcome Unit × World env.broker.St)
    → Post (λ _ w'. LadderIn env w') (λ _ w'. LadderIn env w') o
    → (caught env signal o.0 ≡ returned tt) × LadderIn env o.1
caught-Post env signal (returned tt, w) h = (refl, h)
caught-Post env signal (raised e, w) h = (refl, h)
caught-Post env signal (unfinished, w) h = absurd h

ladder_of_landing :
    (env : Env) (signal : Signal) (private : IsPrivate env signal)
    (o : Outcome SignalState × World env.broker.St)
    → Post (IsLanded env signal) (Stranded env signal) o
    → Post (λ _ w'. LadderIn env w') (λ _ w'. LadderIn env w') o
ladder_of_landing env signal private (returned s, w) h =
    OrdersAt-IsLadder env.config s.state (orders w.trace) h.1.1 h.2
ladder_of_landing env signal private (raised e, w) h = h.1
ladder_of_landing env signal private (unfinished, w) h = absurd h

start_cascade_ladder :
    (env : Env) (signal : Signal) (w : World env.broker.St) (private : IsPrivate env signal)
    → Shows signal.signal_id pending w.db
    → orders w.trace ≡ []
    → Post (λ _ w'. LadderIn env w') (λ _ w'. LadderIn env w') (start_cascade env signal 4 w)
unfolding start_cascade
start_cascade_ladder env signal w private shows none_yet =
    Post-bind (λ _ w'. LadderIn env w') (λ _ w'. LadderIn env w') (λ _ w'. LadderIn env w')
      (drive_cascade env signal 4 (from_signal signal env.config)) (λ _. pure tt) _
      (ladder_of_landing env signal private _
        (drive_cascade_lands env signal _ private shows none_yet))
      (λ s w' h. h)

module _ (env : Env) (signal : Signal) (private : IsPrivate env signal) where
  proceed_ladder :
      (existing : Option SignalRow) (w : World env.broker.St)
      → get_signal signal.signal_id w.db ≡ existing
      → orders w.trace ≡ []
      → Post (λ _ w'. LadderIn env w') (λ _ w'. LadderIn env w') (proceed env signal 4 existing w)
  unfolding proceed
  proceed_ladder none w found none_yet =
      start_cascade_ladder env signal w private (inl (ap status_of_row found)) none_yet
  proceed_ladder (some row) w found none_yet = elim (Bool-cases (status_is_pending row.status)) [
    | inl p ↦
        rw (p, proceed)
          (start_cascade_ladder env signal w private
            (inr (ap status_of_row found ∙ ap some (pending-eq row.status p))) none_yet)
    | inr p ↦ rw (p, proceed) (inl none_yet)
  ]

  intake_ladder :
      (l : Option LimitType) (w : World env.broker.St)
      → orders w.trace ≡ []
      → Post (λ _ w'. LadderIn env w') (λ _ w'. LadderIn env w') (intake env signal 4 l w)
  unfolding intake handle_limit_rejection
  intake_ladder (some l) w none_yet = inl none_yet
  intake_ladder none w none_yet = proceed_ladder (get_signal signal.signal_id w.db) w refl none_yet

-- A run of a supervisor always ends, within the fuel of four rounds, and lets no exception out, if other
-- tasks leave the status of its signal alone and no order has been given before. Whatever
-- the tables, the broker, the clock and the notifier do, it orders each stage at most once, the first
-- gale only after the initial trade and the second only after the first, and each with its own stake.
pub run-IsLadder :
    (env : Env) (signal : Signal) (w : World env.broker.St)
    → IsPrivate env signal
    → orders w.trace ≡ []
    → let (r, w') = run env signal 4 w in (r ≡ returned tt) × IsLadder env.config (orders w'.trace)
run-IsLadder env signal w private none_yet =
    let l = limit_at env signal w in
    rw (run-intake env signal w 4 l refl) (
      caught-Post env signal (intake env signal 4 l w)
        (intake_ladder env signal private l w none_yet))
