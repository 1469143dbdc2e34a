-- ===== src/Scheduler/Shows.antt =====
-- The orders that a supervisor has given, and the status that the database shows for its signal.
use telegram_olymptrade_sign.Prelude.{
  ℕ, ◌≡◌, ◌⊎◌, Option, none, some, String, List, [], ◌∷◌, arith, eq_refl,
}
use telegram_olymptrade_sign.Prelude.Int.{ℤ}
use telegram_olymptrade_sign.Config.{Time}
use telegram_olymptrade_sign.Domain.Gale.{Stage}
use telegram_olymptrade_sign.Domain.Signal.{Signal}
use telegram_olymptrade_sign.Domain.State.{Status, StageResult, ErrorReason}
use telegram_olymptrade_sign.Store.Rows.{SignalRow, Db, Date}
use telegram_olymptrade_sign.Store.Statements.{
  get_signal, update_signal_state, record_stage_placed, record_stage_result, Deltas,
  update_daily_summary,
}
use telegram_olymptrade_sign.Store.Signals.{get_signal-update_signal_state}
use telegram_olymptrade_sign.Scheduler.World.{Act, armed, ordered, waited, notified}

-- The calls of `broker.place`, the last one first.
abbrev pub orders : List Act → List (Stage × ℕ)
orders [] = []
orders (ordered stage amount ∷ t) = (stage, amount) ∷ orders t
orders (armed _ _ ∷ t) = orders t
orders (waited _ _ ∷ t) = orders t
orders (notified _ ∷ t) = orders t

-- The status that the table shows for a signal.
abbrev pub status_of_row : Option SignalRow → Option Status
status_of_row none = none
status_of_row (some row) = some row.status

abbrev pub status_in : String → Db → Option Status
status_in id db = status_of_row (get_signal id db)

-- The row of the signal, if there is one, has the status.
abbrev pub Shows : String → Status → Db → Type 0
Shows id st db = (status_in id db ≡ none) ⊎ (status_in id db ≡ some st)

pub update_signal_state-Shows :
    (id : String) (old st : Status) (reason : Option ErrorReason) (now : Time) (db : Db)
    → Shows id old db
    → Shows id st (update_signal_state id st reason now db)
update_signal_state-Shows id old st reason now db h =
    ground (arith, eq_refl id, get_signal-update_signal_state id id st reason now db)

pub record_stage_result-Shows :
    (id : String) (st : Status) (trade_id : String) (r : StageResult) (pnl : ℤ) (now : Time)
    (db : Db)
    → Shows id st db
    → Shows id st (record_stage_result trade_id r pnl now db)
unfolding record_stage_result get_signal
record_stage_result-Shows id st trade_id r pnl now db h = h

pub signals-update_daily_summary :
    (day : Date) (d : Deltas) (db : Db) → (update_daily_summary day d db).signals ≡ db.signals
unfolding update_daily_summary
signals-update_daily_summary day d db = ground arith

pub update_daily_summary-Shows :
    (id : String) (st : Status) (day : Date) (d : Deltas) (db : Db)
    → Shows id st db
    → Shows id st (update_daily_summary day d db)
unfolding get_signal
update_daily_summary-Shows id st day d db h = rw (signals-update_daily_summary day d db) h

pub signals-record_stage_placed :
    (sha1_hex : String → String) (signal : Signal) (stage : Stage) (amount : ℕ) (at until : Time)
    (broker_id : Option String) (db : Db)
    → (record_stage_placed sha1_hex signal.signal_id stage signal.pair signal.direction amount at
        until broker_id db).1.signals
      ≡ db.signals
unfolding record_stage_placed
signals-record_stage_placed sha1_hex signal stage amount at until broker_id db = ground arith

pub record_stage_placed-Shows :
    (sha1_hex : String → String) (signal : Signal) (stage : Stage) (amount : ℕ) (at until : Time)
    (broker_id : Option String) (st : Status) (db : Db)
    → Shows signal.signal_id st db
    → Shows signal.signal_id st
        (record_stage_placed sha1_hex signal.signal_id stage signal.pair signal.direction amount at
          until broker_id db).1
unfolding get_signal
record_stage_placed-Shows sha1_hex signal stage amount at until broker_id st db h =
    rw (signals-record_stage_placed sha1_hex signal stage amount at until broker_id db) h
