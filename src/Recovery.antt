-- ===== src/Recovery.antt =====
-- recovery.py: what happens at boot to the cascades that the last process left in a placed status.
pub mod Laws
pub mod Calm
pub mod Counts
use telegram_olymptrade_sign.Prelude.{
  ℕ, ◌+◌, ◌*◌, Bool, Option, none, some, List, [], ◌∷◌, ltb, if◌then◌else◌,
}
use telegram_olymptrade_sign.Config.{Time, seconds}
use telegram_olymptrade_sign.Domain.Gale.{Stage, initial, gale1, gale2}
use telegram_olymptrade_sign.Domain.State.{
  Status, placed_initial, placed_gale1, placed_gale2, is_terminal,
}
use telegram_olymptrade_sign.Store.Rows.{SignalRow}
use telegram_olymptrade_sign.Store.Statements.{get_active_signals}
use telegram_olymptrade_sign.Scheduler.World.{
  Env, Exec, value_error, pure, raise, gets, ◌>>=◌, ◌>>◌, now_unix,
}
use telegram_olymptrade_sign.Scheduler.Adopt.{adopt, record_timeout, stage_offset}

pub record RecoveryReport : Type 0 where
  pub rehydrated : ℕ
  pub timed_out : ℕ
  pub abandoned : ℕ

abbrev pub no_rows : RecoveryReport
no_rows = record { rehydrated = 0; timed_out = 0; abandoned = 0 }

-- `_stage_name_for_status`; `none` is its ValueError, for a status that is not placed.
abbrev pub stage_name_for_status : Status → Option Stage
stage_name_for_status placed_initial = some initial
stage_name_for_status placed_gale1 = some gale1
stage_name_for_status placed_gale2 = some gale2
stage_name_for_status _ = none

-- The end of the window of a stage: its fire and 330 seconds.
abbrev pub window_end : SignalRow → Stage → Time
window_end row stage =
    row.trigger_ts_unix + stage_offset stage * seconds row.expiration_seconds + seconds 330

module _ (env : Env) where
  abbrev S : Type 0
  S = env.broker.St

  -- One row in a status that is not terminal.
  unfoldable pub recover_stage :
      Time → SignalRow → Option Stage → RecoveryReport → Exec S RecoveryReport
  recover_stage now row none report = raise (value_error row.status)
  recover_stage now row (some stage) report =
      if ltb (window_end row stage) now
      then (do
        record_timeout env row.signal_id stage
        pure (record report { timed_out = report.timed_out + 1 }))
      else (do adopt env row; pure (record report { rehydrated = report.rehydrated + 1 }))

  -- The body of the loop.
  unfoldable pub recover_row : Time → SignalRow → RecoveryReport → Exec S RecoveryReport
  unfolding recover_stage
  recover_row now row report =
      if is_terminal row.status
      then pure (record report { abandoned = report.abandoned + 1 })
      else recover_stage now row (stage_name_for_status row.status) report

  unfoldable pub recover_rows : Time → List SignalRow → RecoveryReport → Exec S RecoveryReport
  unfolding recover_row
  recover_rows now [] report = pure report
  recover_rows now (row ∷ rows) report = do
    report' ← recover_row now row report
    recover_rows now rows report'

  abbrev pub now_or_clock : Option Time → Exec S Time
  now_or_clock none = now_unix env
  now_or_clock (some t) = pure t

  -- The rows are read once, before the first is recovered.
  abbrev pub recover_list : Option Time → List SignalRow → Exec S RecoveryReport
  recover_list now [] = pure no_rows
  recover_list now (row ∷ rows) = do t ← now_or_clock now; recover_rows t (row ∷ rows) no_rows

  unfoldable pub recover_active_signals : Option Time → Exec S RecoveryReport
  unfolding recover_rows
  recover_active_signals now = do
    active ← gets (λ w. get_active_signals w.db)
    recover_list now active
