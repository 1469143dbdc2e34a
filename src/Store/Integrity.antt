-- ===== src/Store/Integrity.antt =====
-- The constraints of migrations/001_initial.sql, kept by every write of infra/state_store.py.
use mathlib.Core.Path.{subst}
use telegram_olymptrade_sign.Prelude.{
  sym, ℕ, ◌≡◌, ◌≢◌, refl, Option, none, String, List, [], ◌∷◌, arith, All, Option-cases, inl, inr,
}
use telegram_olymptrade_sign.Prelude.Int.{ℤ}
use telegram_olymptrade_sign.Prelude.Eq.{nat_eq, string_eq}
use telegram_olymptrade_sign.Prelude.Table.{
  select, update_where, IsKeyed, update_where-IsKeyed, select-update_where, select-cons,
}
use telegram_olymptrade_sign.Config.{Time}
use telegram_olymptrade_sign.Domain.Gale.{Stage}
use telegram_olymptrade_sign.Domain.Signal.{Signal, Direction}
use telegram_olymptrade_sign.Domain.State.{Status, StageResult, ErrorReason}
use telegram_olymptrade_sign.Store.Rows.{StageRow, Date, Db}
use telegram_olymptrade_sign.Store.Summaries.{keeps_date}
use telegram_olymptrade_sign.Store.Statements.{
  signal_key, stage_key, date_key, set_result, set_status, pending_row, get_signal, upsert_signal,
  update_signal_state, record_stage_placed, record_stage_result, Deltas, add_deltas,
  update_daily_summary, derive_trade_id,
}

-- A call of a method that writes.
pub data Write : Type 0 where
  upsert : Signal → Write
  set_state : String → Status → Option ErrorReason → Time → Write
  place : String → Stage → String → Direction → ℕ → Time → Time → Option String → Write
  close_stage : String → StageResult → ℤ → Time → Write
  summarise : Date → Deltas → Write

abbrev pub HasSignal : Db → String → Type 0
HasSignal db id = get_signal id db ≢ none

-- The primary keys are unique and each trade belongs to a signal.
pub record IsValid (db : Db) : Type 0 where
  pub signals_keyed : IsKeyed signal_key db.signals
  pub stages_keyed : IsKeyed stage_key db.stages
  pub days_keyed : IsKeyed date_key db.daily_summary
  pub owned : All (λ (s : StageRow). HasSignal db s.signal_id) db.stages

module _ (sha1_hex : String → String) where
  unfoldable pub apply : Write → Db → Db
  apply (upsert signal) db = (upsert_signal signal db).1
  apply (set_state id s reason now) db = update_signal_state id s reason now db
  apply (place id stage pair dir amount at until broker_id) db =
      (record_stage_placed sha1_hex id stage pair dir amount at until broker_id db).1
  apply (close_stage id r pnl now) db = record_stage_result id r pnl now db
  apply (summarise day d) db = update_daily_summary day d db

  -- No write removes a signal.
  pub apply-HasSignal :
      (w : Write) (db : Db) (j : String) → HasSignal db j → HasSignal (apply w db) j
  unfolding apply upsert_signal update_signal_state record_stage_placed record_stage_result
      update_daily_summary
  apply-HasSignal (upsert signal) db j h =
      ground (arith, select-cons signal_key j (pending_row signal) db.signals)
  apply-HasSignal (set_state id s reason now) db j h =
      ground (
        arith,
        select-update_where signal_key id j (set_status s reason now) db.signals (λ r. refl),
      )
  apply-HasSignal _ db j h = ground arith

  All-HasSignal :
      (w : Write) (db : Db) (rows : List StageRow)
      → All (λ (s : StageRow). HasSignal db s.signal_id) rows
      → All (λ (s : StageRow). HasSignal (apply w db) s.signal_id) rows
  All-HasSignal w db [] h = tt
  All-HasSignal w db (s ∷ rows) h =
      (apply-HasSignal w db s.signal_id h.0, All-HasSignal w db rows h.1)

All-owned_update :
    (db : Db) (id : String) (f : StageRow → StageRow) (rows : List StageRow)
    → ((s : StageRow) → (f s).signal_id ≡ s.signal_id)
    → All (λ (s : StageRow). HasSignal db s.signal_id) rows
    → All (λ (s : StageRow). HasSignal db s.signal_id) (update_where stage_key id f rows)
unfolding update_where
All-owned_update db id f [] same h = tt
All-owned_update db id f (s ∷ rows) same h =
    ground (arith, same s, All-owned_update db id f rows same h.1)

stages-upsert_signal : (signal : Signal) (db : Db) → (upsert_signal signal db).1.stages ≡ db.stages
unfolding upsert_signal
stages-upsert_signal signal db = ground arith

record_stage_placed-IsValid :
    (sha1_hex : String → String) (id : String) (stage : Stage) (pair : String) (dir : Direction)
    (amount : ℕ) (at until : Time) (broker_id : Option String) (db : Db)
    → IsValid db
    → IsValid (record_stage_placed sha1_hex id stage pair dir amount at until broker_id db).1
unfolding record_stage_placed
record_stage_placed-IsValid sha1_hex id stage pair dir amount at until broker_id db h =
    elim (Option-cases (select stage_key (derive_trade_id sha1_hex id stage at) db.stages)) [
      | inr (_, taken) ↦ rw (taken, record_stage_placed) h
      | inl new ↦ elim (Option-cases (get_signal id db)) [
        | inl missing ↦ rw (new, record_stage_placed) (rw (missing, record_stage_placed) h)
        | inr (_, found) ↦
            rw (new, record_stage_placed)
              (rw (found, record_stage_placed)
                (record {
                  signals_keyed = h.signals_keyed;
                  stages_keyed = (new, h.stages_keyed);
                  days_keyed = h.days_keyed;
                  owned = (λ none_found. ground arith, h.owned);
                }))
      ]
    ]

update_daily_summary-IsValid :
    (day : Date) (d : Deltas) (db : Db) → IsValid db → IsValid (update_daily_summary day d db)
unfolding update_daily_summary get_signal
update_daily_summary-IsValid day d db h =
    elim (Option-cases (select date_key day db.daily_summary)) [
      | inl new ↦
          rw (new, update_daily_summary)
            (record {
              signals_keyed = h.signals_keyed;
              stages_keyed = h.stages_keyed;
              days_keyed = (new, h.days_keyed);
              owned = h.owned;
            })
      | inr (_, old) ↦
          rw (old, update_daily_summary)
            (record {
              signals_keyed = h.signals_keyed;
              stages_keyed = h.stages_keyed;
              days_keyed =
                  update_where-IsKeyed date_key day (add_deltas d) db.daily_summary (keeps_date d)
                    h.days_keyed;
              owned = h.owned;
            })
    ]

module _ (sha1_hex : String → String) where
  write-IsValid : (w : Write) (db : Db) → IsValid db → IsValid (apply sha1_hex w db)
  unfolding apply upsert_signal update_signal_state record_stage_placed record_stage_result
      update_daily_summary
  write-IsValid (upsert signal) db h = record {
    signals_keyed = ground arith;
    stages_keyed = ground arith;
    days_keyed = ground arith;
    owned =
        subst (All (λ (s : StageRow). HasSignal (upsert_signal signal db).1 s.signal_id))
          (sym (stages-upsert_signal signal db))
          (All-HasSignal sha1_hex (upsert signal) db db.stages h.owned);
  }
  write-IsValid (set_state id s reason now) db h = record {
    signals_keyed =
        update_where-IsKeyed signal_key id (set_status s reason now) db.signals (λ r. refl)
          h.signals_keyed;
    stages_keyed = h.stages_keyed;
    days_keyed = h.days_keyed;
    owned = All-HasSignal sha1_hex (set_state id s reason now) db db.stages h.owned;
  }
  write-IsValid (place id stage pair dir amount at until broker_id) db h =
      record_stage_placed-IsValid sha1_hex id stage pair dir amount at until broker_id db h
  write-IsValid (close_stage id r pnl now) db h = record {
    signals_keyed = h.signals_keyed;
    stages_keyed =
        update_where-IsKeyed stage_key id (set_result r pnl now) db.stages (λ s. refl)
          h.stages_keyed;
    days_keyed = h.days_keyed;
    owned = All-owned_update db id (set_result r pnl now) db.stages (λ s. refl) h.owned;
  }
  write-IsValid (summarise day d) db h = update_daily_summary-IsValid day d db h

  -- Every write keeps the primary keys unique and each trade with its signal, and no write removes a
  -- signal.
  pub apply-IsValid :
      (w : Write) (db : Db)
      → IsValid db
      → IsValid (apply sha1_hex w db)
        × ((j : String) → HasSignal db j → HasSignal (apply sha1_hex w db) j)
  apply-IsValid w db h = (write-IsValid w db h, apply-HasSignal sha1_hex w db)
