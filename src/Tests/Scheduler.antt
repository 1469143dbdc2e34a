-- ===== src/Tests/Scheduler.antt =====
-- The theorems on scheduler/trigger.py and recovery.py at a sample broker and sample tables.
use telegram_olymptrade_sign.Prelude.{
  ℕ, length, ◌≡◌, refl, inl, inr, Option, none, some, [], ◌∷◌, arith,
}
use telegram_olymptrade_sign.Prelude.Table.{select}
use telegram_olymptrade_sign.Domain.Gale.{Stage, initial}
use telegram_olymptrade_sign.Domain.State.{
  Status, pending, placed_initial, transition, SignalState, StageResult, win, done_win, from_signal,
  signal_expired,
}
use telegram_olymptrade_sign.Store.Rows.{DailySummaryRow}
use telegram_olymptrade_sign.Prelude.Int.{pos}
use telegram_olymptrade_sign.Store.Statements.{
  get_active_signals, get_daily_summary, get_signal, record_stage_placed, update_daily_summary,
  record_stage_result, derive_trade_id, update_signal_state,
}
use telegram_olymptrade_sign.Scheduler.World.{Env, World, Outcome, returned}
use telegram_olymptrade_sign.Scheduler.Triple.{Post}
use telegram_olymptrade_sign.Scheduler.Shows.{orders}
use telegram_olymptrade_sign.Scheduler.Ladder.{IsLadder}
use telegram_olymptrade_sign.Scheduler.Landing.{IsLanded, Stranded}
use telegram_olymptrade_sign.Scheduler.Limits.{limit_of}
use telegram_olymptrade_sign.Scheduler.Supervisor.{
  run, drive_cascade, round, place, broker_place, after_place, place_if, after_round, record_placed,
}
use telegram_olymptrade_sign.Scheduler.Stages.{
  arm, fire, fired, after_fire, wait_for_stage_result, apply_result_and_finalize, result_applied,
}
use telegram_olymptrade_sign.Scheduler.Adopt.{adopt, record_timeout}
use telegram_olymptrade_sign.Scheduler.Runs.{drive_cascade_lands, IsOver, run-IsLadder}
use telegram_olymptrade_sign.Recovery.{recover_active_signals}
use telegram_olymptrade_sign.Recovery.Counts.{Counts, recover_active_signals-Counts}
use telegram_olymptrade_sign.Broker.{rejected, broker_auth, timed_out, reported}
use telegram_olymptrade_sign.Broker.DryRun.{dry_run_broker, trade_id_for}
use telegram_olymptrade_sign.Scheduler.Verdict.{verdict, staked, IsInsertRefusal}
use telegram_olymptrade_sign.Scheduler.Ends.{EndsIn, dry_run-Answers, results_decide}
use telegram_olymptrade_sign.Scheduler.AuthError.{auth_error-Stranded, IsLate}
use telegram_olymptrade_sign.Recovery.Laws.{adopt_does_nothing, record_timeout_ends}
use telegram_olymptrade_sign.Tests.{
  sample_config, sample_signal, sample_env, sample_world, sample_clock, row_with, db_with,
}

drive_cascade_lands_example :
    Post (IsLanded sample_env sample_signal) (Stranded sample_env sample_signal) (
      drive_cascade sample_env sample_signal 4
        (from_signal sample_signal sample_config)
        (sample_world pending))
unfolding get_signal
drive_cascade_lands_example =
    drive_cascade_lands sample_env sample_signal (sample_world pending) (λ k db. refl) (inr refl)
      refl

run-IsLadder_example :
    ((run sample_env sample_signal 4 (sample_world pending)).0 ≡ returned tt)
    × IsLadder sample_config
        (orders (run sample_env sample_signal 4 (sample_world pending)).1.trace)
run-IsLadder_example =
    run-IsLadder sample_env sample_signal (sample_world pending) (λ k db. refl) refl

-- A day on which the limit of twenty trades is reached.
abbrev full_day : DailySummaryRow
full_day = record {
  date = 1;
  signals_count = 20;
  trades_count = 20;
  wins = 20;
  losses = 0;
  realized_pnl = pos 0;
  limit_hit = none;
}

abbrev full_world : World ℕ
full_world = record (sample_world pending) {
  db = record (db_with pending) { daily_summary = full_day ∷ [] };
}

-- The twenty trades of this day are as many as the settings allow.
full_day-IsOver : IsOver sample_config (some (pos 1_000_000)) full_day
full_day-IsOver = inr (inl (omega arith, omega arith))

adopt_does_nothing_example :
    adopt sample_env (row_with placed_initial) (sample_world placed_initial)
    ≡ (returned tt, sample_world placed_initial)
unfolding get_signal get_daily_summary limit_of
adopt_does_nothing_example =
    adopt_does_nothing sample_env (sample_world placed_initial) (row_with placed_initial) refl refl
      refl

-- The clock stands at 700 seconds after the trigger of the row.
abbrev late_world : World ℕ
late_world = record (sample_world placed_initial) { ticks = 9 }

record_timeout_ends_example : record_timeout sample_env "a1" initial late_world ≡ (
  returned tt,
  record late_world {
    ticks = 10;
    db = update_signal_state "a1" Status.error (some signal_expired) (sample_clock 9) late_world.db;
  },
)
unfolding get_signal
record_timeout_ends_example =
    record_timeout_ends sample_env late_world (row_with placed_initial) initial refl refl
      (omega arith) (omega arith)

recover_active_signals-Counts_example :
    Counts sample_env
      (length (get_active_signals (db_with placed_initial)))
      (sample_world placed_initial)
      (recover_active_signals sample_env none (sample_world placed_initial))
unfolding telegram_olymptrade_sign.Prelude.Table.select
recover_active_signals-Counts_example =
    recover_active_signals-Counts sample_env none (sample_world placed_initial) (refl, tt)

-- A broker whose session has been refused.
abbrev refusing_env : Env
refusing_env = record sample_env {
  broker = record {
    St = ℕ;
    place = λ signal stage amount n. (rejected broker_auth, n);
    wait_result = λ id until n. (timed_out, n);
    start_of_day_balance = λ n. none;
  };
}

auth_error-Stranded_example :
    Post
      (λ s _. (s.state ≡ Status.error) × IsLate refusing_env sample_signal 1)
      (Stranded refusing_env sample_signal)
      (drive_cascade refusing_env sample_signal 4
        (from_signal sample_signal sample_config)
        (sample_world pending))
unfolding get_signal
auth_error-Stranded_example =
    auth_error-Stranded refusing_env sample_signal (sample_world pending) (λ k db. refl)
      (λ signal stage amount n. refl) (inr refl) refl

-- A dry run in which the first stage is lost and the others are won.
abbrev dry_results : Stage → StageResult
dry_results initial = StageResult.loss
dry_results _ = win

abbrev dry_env : Env
dry_env = record sample_env {
  broker = dry_run_broker (λ n. "0") (λ signal stage. reported (dry_results stage));
}

unfoldable dry_world : World dry_env.broker.St
unfolding dry_run_broker
dry_world = record {
  db = db_with pending;
  broker = record { placed = []; uuids = 0 };
  ticks = 0;
  trace = [];
}

results_decide_example :
    Post
      (EndsIn dry_env sample_signal dry_results
        (verdict dry_results)
        (staked dry_results sample_config))
      (IsInsertRefusal sample_signal)
      (drive_cascade dry_env sample_signal 4 (from_signal sample_signal sample_config) dry_world)
unfolding dry_world
results_decide_example =
    results_decide dry_env sample_signal dry_results dry_world
      (dry_run-Answers sample_env sample_signal (λ n. "0") dry_results) refl (omega arith)
      (λ lost. omega arith) (λ lost lost2. absurd (ground (arith, lost2)))

abbrev end_of : Outcome SignalState → Option Status
end_of (returned s) = some s.state
end_of _ = none

-- This run returns, and its second stage wins it.
dry_run_returns :
    end_of
      (drive_cascade dry_env sample_signal 4 (from_signal sample_signal sample_config) dry_world).0
    ≡ some done_win
unfolding dry_world dry_run_broker drive_cascade from_signal round arm fire fired after_fire place
    broker_place after_place place_if after_round record_placed wait_for_stage_result
    apply_result_and_finalize result_applied transition record_stage_placed get_signal select
    update_signal_state trade_id_for update_daily_summary record_stage_result derive_trade_id
dry_run_returns = refl
