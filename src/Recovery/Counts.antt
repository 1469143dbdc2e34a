-- ===== src/Recovery/Counts.antt =====
-- A whole recovery at boot: it always returns, and its report adds up.
use mathlib.Core.Path.{subst}
use telegram_olymptrade_sign.Prelude.Eq.{string_eq}
use telegram_olymptrade_sign.Prelude.{
  ltb, ℕ, suc, ◌+◌, ◌≡◌, refl, true, false, Option, none, some, String, List, [], ◌∷◌, arith,
  Bool-cases, ap, ◌∙◌, All, length, inl, inr,
}
use telegram_olymptrade_sign.Config.{Time}
use telegram_olymptrade_sign.Domain.Gale.{Stage, initial, gale1, gale2}
use telegram_olymptrade_sign.Domain.State.{
  Status, placed_initial, placed_gale1, placed_gale2, is_terminal, is_placed,
}
use telegram_olymptrade_sign.Store.Rows.{SignalRow, Db}
use telegram_olymptrade_sign.Store.Statements.{
  signal_key, get_signal, placed_rows, order_by_trigger, get_active_signals,
}
use telegram_olymptrade_sign.Store.Signals.{All-insert_by_trigger}
use telegram_olymptrade_sign.Prelude.Table.{select, IsKeyed, found_in_keyed}
use telegram_olymptrade_sign.Scheduler.World.{Env, World, Outcome, Exec, pure, ◌>>◌}
use telegram_olymptrade_sign.Scheduler.Shows.{status_of_row}
use telegram_olymptrade_sign.Scheduler.Triple.{Post, Post-bind, Post-weaken}
use telegram_olymptrade_sign.Scheduler.Adopt.{adopt, record_timeout}
use telegram_olymptrade_sign.Recovery.{
  stage_name_for_status, window_end, RecoveryReport, no_rows, recover_stage, recover_row,
  recover_rows, recover_list, recover_active_signals,
}
use telegram_olymptrade_sign.Recovery.Calm.{
  busy, IsBusy, IsCalm, calm_refl, calm_trans, Calmly, adopt-Calmly, record_timeout-Calmly,
}

stage_of_placed :
    (st : Status) → is_placed st ≡ true → (stage : Stage) × (stage_name_for_status st ≡ some stage)
stage_of_placed placed_initial h = (initial, refl)
stage_of_placed placed_gale1 h = (gale1, refl)
stage_of_placed placed_gale2 h = (gale2, refl)
stage_of_placed _ h = absurd (ground arith)

placed_busy : (st : Status) → is_placed st ≡ true → busy (some st) ≡ true
placed_busy st h = ground arith

placed_runs : (st : Status) → is_placed st ≡ true → is_terminal st ≡ false
placed_runs st h = ground arith

module _ (env : Env) where
  abbrev pub total : RecoveryReport → ℕ
  total r = r.rehydrated + r.timed_out + r.abandoned

  -- A step of recovery is calm and counts its row once.
  abbrev pub Counts :
      ℕ → World env.broker.St → Outcome RecoveryReport × World env.broker.St → Type 0
  Counts n w o = Post (λ report w'. (total report ≡ n) × IsCalm w w') (λ _ _. ⊥) o

  then-Counts :
      (n : ℕ) (m : Exec env.broker.St Unit) (report : RecoveryReport) (w : World env.broker.St)
      → total report ≡ n
      → Calmly w (m w)
      → Counts n w ((m >> pure report) w)
  then-Counts n m report w e h =
      Post-bind (λ _ _. ⊥) (λ _ w'. IsCalm w w') (λ r w'. (total r ≡ n) × IsCalm w w') m
        (λ _. pure report) w h (λ _ w' calm. (e, calm))

  recover_stage-Counts :
      (now : Time) (row : SignalRow) (stage : Stage) (report : RecoveryReport)
      (w : World env.broker.St)
      → IsBusy row.signal_id w.db
      → Counts (total report + 1) w (recover_stage env now row (some stage) report w)
  unfolding recover_stage
  recover_stage-Counts now row stage report w h =
      elim (Bool-cases (ltb (window_end row stage) now)) [
        | inl late ↦
            rw (late, recover_stage)
              (then-Counts (total report + 1) (record_timeout env row.signal_id stage)
                (record report { timed_out = report.timed_out + 1 }) w (omega arith)
                (record_timeout-Calmly env row.signal_id stage w h))
        | inr early ↦
            rw (early, recover_stage)
              (then-Counts (total report + 1) (adopt env row)
                (record report { rehydrated = report.rehydrated + 1 }) w (omega arith)
                (adopt-Calmly env row w h))
      ]

  recover_row-Counts :
      (now : Time) (row : SignalRow) (report : RecoveryReport) (w : World env.broker.St)
      → is_placed row.status ≡ true
      → IsBusy row.signal_id w.db
      → Counts (total report + 1) w (recover_row env now row report w)
  unfolding recover_row
  recover_row-Counts now row report w placed h =
      let (stage, e) = stage_of_placed row.status placed in
      rw (placed_runs row.status placed, recover_row)
        (rw (e, recover_row) (recover_stage-Counts now row stage report w h))

  -- The rows are placed and the supervisors of their signals would take them for duplicates.
  abbrev AllBusy : Db → List SignalRow → Type 0
  AllBusy db rows =
      All (λ (r : SignalRow). (is_placed r.status ≡ true) × IsBusy r.signal_id db) rows

  AllBusy-later :
      (db db' : Db) (rows : List SignalRow)
      → ((j : String) → IsBusy j db → IsBusy j db')
      → AllBusy db rows
      → AllBusy db' rows
  AllBusy-later db db' [] stays h = tt
  AllBusy-later db db' (r ∷ rows) stays h =
      ((h.0.0, stays r.signal_id h.0.1), AllBusy-later db db' rows stays h.1)

  recover_rows-Counts :
      (now : Time) (rows : List SignalRow) (report : RecoveryReport) (w : World env.broker.St)
      → AllBusy w.db rows
      → Counts (total report + length rows) w (recover_rows env now rows report w)
  unfolding recover_rows
  recover_rows-Counts now [] report w h = (omega arith, calm_refl w)
  recover_rows-Counts now (row ∷ rows) report w h =
      let n = total report + length (row ∷ rows) in
      Post-bind (λ _ _. ⊥) (λ r w'. (total r ≡ total report + 1) × IsCalm w w')
        (λ r w'. (total r ≡ n) × IsCalm w w') (recover_row env now row report)
        (λ r. recover_rows env now rows r) w (recover_row-Counts now row report w h.0.0 h.0.1)
        (λ r w1 done.
          Post-weaken (λ _ _. ⊥) (λ r' w'. (total r' ≡ total r + length rows) × IsCalm w1 w')
            (λ r' w'. (total r' ≡ n) × IsCalm w w') (recover_rows env now rows r w1)
            (recover_rows-Counts now rows r w1 (AllBusy-later w.db w1.db rows done.1.2 h.1))
            (λ r' w' later. (omega (arith, later.0, done.0), calm_trans w w1 w' done.1 later.1)))

  AllBusy-placed_rows :
      (db : Db) (rows : List SignalRow)
      → All (λ r. select signal_key r.signal_id db.signals ≡ some r) rows
      → AllBusy db (placed_rows rows)
  unfolding placed_rows get_signal
  AllBusy-placed_rows db [] h = tt
  AllBusy-placed_rows db (r ∷ rows) h = elim (Bool-cases (is_placed r.status)) [
    | inl placed ↦ rw placed (
      (placed, ap (λ o. busy (status_of_row o)) h.0 ∙ placed_busy r.status placed),
      AllBusy-placed_rows db rows h.1,
    )
    | inr other ↦ rw other (AllBusy-placed_rows db rows h.1)
  ]

  AllBusy-order_by_trigger :
      (db : Db) (rows : List SignalRow) → AllBusy db rows → AllBusy db (order_by_trigger rows)
  unfolding order_by_trigger
  AllBusy-order_by_trigger db [] h = tt
  AllBusy-order_by_trigger db (r ∷ rows) h =
      All-insert_by_trigger (λ x. (is_placed x.status ≡ true) × IsBusy x.signal_id db) r
        (order_by_trigger rows) h.0 (AllBusy-order_by_trigger db rows h.1)

  from_no_rows :
      (now : Time) (rows : List SignalRow) (w : World env.broker.St)
      → AllBusy w.db rows
      → Counts (length rows) w (recover_rows env now rows no_rows w)
  from_no_rows now rows w h =
      let none_yet : total no_rows + length rows ≡ length rows = omega arith in
      subst (λ n. Counts n w (recover_rows env now rows no_rows w)) none_yet
        (recover_rows-Counts now rows no_rows w h)

  recover_list-Counts :
      (now : Option Time) (rows : List SignalRow) (w : World env.broker.St)
      → AllBusy w.db rows
      → Counts (length rows) w (recover_list env now rows w)
  recover_list-Counts now [] w h = (refl, calm_refl w)
  recover_list-Counts none (row ∷ rows) w h =
      from_no_rows (env.clock w.ticks) (row ∷ rows) (record w { ticks = suc w.ticks }) h
  recover_list-Counts (some t) (row ∷ rows) w h = from_no_rows t (row ∷ rows) w h

-- A recovery at boot, on tables with unique signal ids, always returns. It gives no order, asks the
-- broker nothing and frees no signal for another cascade, and its report counts each active signal
-- once.
pub recover_active_signals-Counts :
    (env : Env) (now : Option Time) (w : World env.broker.St)
    → IsKeyed signal_key w.db.signals
    → Counts env (length (get_active_signals w.db)) w (recover_active_signals env now w)
unfolding recover_active_signals get_active_signals
recover_active_signals-Counts env now w keyed =
    recover_list-Counts env now (order_by_trigger (placed_rows w.db.signals)) w (
      AllBusy-order_by_trigger env w.db (placed_rows w.db.signals)
        (AllBusy-placed_rows env w.db w.db.signals (found_in_keyed signal_key w.db.signals keyed)))
