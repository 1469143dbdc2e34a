-- ===== src/Scheduler/Limits.antt =====
-- The daily limits of scheduler/trigger.py, and the rejection of a signal under one.
use telegram_olymptrade_sign.Prelude.{
  ℕ, ◌*◌, Bool, true, false, ◌&&◌, Option, none, some, ltb, leb, if◌then◌else◌,
}
use telegram_olymptrade_sign.Prelude.Int.{ℤ, pos, neg_ℕ, sub_ℕ, pos_part, neg_part, leb_ℤ}
use telegram_olymptrade_sign.Config.{Config, Time}
use telegram_olymptrade_sign.Domain.Gale.{Stage, initial, gale1, gale2}
use telegram_olymptrade_sign.Domain.Signal.{Signal}
use telegram_olymptrade_sign.Domain.State.{
  Status, pending, SignalState, StageResult, win, daily_limit_hit, TransitionResult,
}
use telegram_olymptrade_sign.Notify.{on_signal_rejected_by_limit}
use telegram_olymptrade_sign.Store.Rows.{DailySummaryRow, LimitType, loss, count, drawdown, Date}
use telegram_olymptrade_sign.Store.Statements.{update_signal_state, get_daily_summary}
use telegram_olymptrade_sign.Scheduler.World.{
  Env, Exec, returned, gets, ◌>>=◌, ◌>>◌, write, now_unix, safe_notify,
}

abbrev pub status_is_pending : Status → Bool
status_is_pending pending = true
status_is_pending _ = false

abbrev pub status_is_error : Status → Bool
status_is_error Status.error = true
status_is_error _ = false

-- `result.new_state`, where the result is a success.
abbrev pub successful : TransitionResult → Option SignalState
successful r = if r.success then r.new_state else none

-- `_STAGE_TO_TRIGGER_ATTR`
abbrev pub stage_trigger : Signal → Stage → Time
stage_trigger signal initial = signal.trigger_unix_initial
stage_trigger signal gale1 = signal.trigger_unix_gale1
stage_trigger signal gale2 = signal.trigger_unix_gale2

abbrev pub neg_ℤ : ℤ → ℤ
neg_ℤ a = sub_ℕ (neg_part a) (pos_part a)

abbrev pub times_ℤ : ℤ → ℕ → ℤ
times_ℤ a n = sub_ℕ (pos_part a * n) (neg_part a * n)

-- `_compute_stage_pnl_for_result`
unfoldable pub compute_stage_pnl_for_result : StageResult → ℕ → ℤ
compute_stage_pnl_for_result win amount = pos (amount * 92)
compute_stage_pnl_for_result StageResult.error amount = pos 0
compute_stage_pnl_for_result _ amount = neg_ℕ (amount * 100)

-- The drawdown test: a percentage of the balance, or dollars where there is no balance. Both sides of
-- the percentage test are multiplied by 100.
unfoldable pub drawdown_hit : Config → Option ℤ → ℤ → Bool
drawdown_hit cfg none realized_pnl = leb_ℤ realized_pnl (neg_ℕ (cfg.daily_drawdown_pct * 10000))
drawdown_hit cfg (some starting) realized_pnl =
    leb_ℤ (times_ℤ realized_pnl 100) (neg_ℤ (times_ℤ starting cfg.daily_drawdown_pct))

-- The tests of `_check_daily_limit` on the summary of the day.
unfoldable pub limit_of : Config → Option ℤ → Option DailySummaryRow → Option LimitType
unfolding drawdown_hit
limit_of cfg balance none = none
limit_of cfg balance (some summary) =
    if ltb 0 cfg.daily_loss_limit && leb_ℤ summary.realized_pnl (neg_ℕ (cfg.daily_loss_limit * 100))
    then some loss
    else if ltb 0 cfg.daily_trade_limit && leb cfg.daily_trade_limit summary.trades_count
    then some count
    else if ltb 0 cfg.daily_drawdown_pct && drawdown_hit cfg balance summary.realized_pnl
    then some drawdown
    else none

abbrev pub empty_summary : Date → LimitType → DailySummaryRow
empty_summary day limit_type = record {
  date = day;
  signals_count = 0;
  trades_count = 0;
  wins = 0;
  losses = 0;
  realized_pnl = pos 0;
  limit_hit = some limit_type;
}

module _ (env : Env) (signal : Signal) where
  abbrev pub signal_date : Date
  signal_date = env.date_of signal.trigger_unix_initial

  unfoldable pub check_daily_limit : Exec env.broker.St (Option LimitType)
  unfolding limit_of get_daily_summary
  check_daily_limit w = (
    returned (
        limit_of env.config (env.broker.start_of_day_balance w.broker)
          (get_daily_summary signal_date w.db)),
    w,
  )

  unfoldable pub summary_or : LimitType → Option DailySummaryRow → DailySummaryRow
  summary_or limit_type none = empty_summary signal_date limit_type
  summary_or limit_type (some summary) = summary

  unfoldable pub handle_limit_rejection : LimitType → Exec env.broker.St Unit
  unfolding summary_or
  handle_limit_rejection limit_type = do
    now ← now_unix env
    write (update_signal_state signal.signal_id Status.error (some daily_limit_hit) now)
    summary ← gets (λ w. get_daily_summary signal_date w.db)
    safe_notify env (on_signal_rejected_by_limit signal limit_type (summary_or limit_type summary))
