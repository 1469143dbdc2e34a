-- ===== src/Store/Stages.antt =====
-- The `stages` table of infra/state_store.py: a trade is recorded once, open, and closed by its id.
use telegram_olymptrade_sign.Prelude.{
  ℕ, ◌≡◌, ◌≢◌, refl, Option, none, some, String, ◌∷◌, arith, eq_iff, eq_refl, str_eq,
}
use telegram_olymptrade_sign.Prelude.Int.{ℤ}
use telegram_olymptrade_sign.Prelude.Eq.{string_eq}
use telegram_olymptrade_sign.Prelude.Table.{select, select-update_where, map_if, select-cons}
use telegram_olymptrade_sign.Config.{Time}
use telegram_olymptrade_sign.Domain.Gale.{Stage}
use telegram_olymptrade_sign.Domain.Signal.{Direction}
use telegram_olymptrade_sign.Domain.State.{StageResult}
use telegram_olymptrade_sign.Store.Rows.{StageRow, Db}
use telegram_olymptrade_sign.Store.Statements.{
  stage_key, set_result, open_row, get_signal, derive_trade_id, record_stage_placed,
  record_stage_result, inserted, already_exists, no_such_signal,
}

abbrev pub find_stage : String → Db → Option StageRow
find_stage trade_id db = select stage_key trade_id db.stages

pub find_stage-record_stage_result :
    (id j : String) (r : StageResult) (pnl : ℤ) (now : Time) (db : Db)
    → find_stage j (record_stage_result id r pnl now db)
      ≡ map_if stage_key (str_eq id j) (set_result r pnl now) (find_stage j db)
unfolding record_stage_result
find_stage-record_stage_result id j r pnl now db =
    select-update_where stage_key id j (set_result r pnl now) db.stages (λ row. refl)

-- A trade is recorded exactly if its id is new and its signal is known. It is then found under its id
-- as an open trade, and once its result has come in as that trade closed with the result and the
-- profit, while every other trade is found as before. If the id is taken or the signal is unknown,
-- the table stays as it was, and the taken id is reported first.
pub record_stage_placed_lem :
    (sha1_hex : String → String) (signal_id : String) (stage : Stage) (pair : String)
    (direction : Direction) (amount : ℕ) (placed_at expires_at : Time) (broker_id : Option String)
    (r : StageResult) (pnl : ℤ) (now : Time) (j : String) (db : Db)
    → let id = derive_trade_id sha1_hex signal_id stage placed_at in
      let row = open_row id signal_id stage pair direction amount placed_at expires_at broker_id in
      let (outcome, db') =
        record_stage_placed sha1_hex signal_id stage pair direction amount placed_at expires_at
          broker_id db in
      (find_stage id db ≢ none → (outcome ≡ already_exists id) × (db' ≡ db))
      × (find_stage id db ≡ none
          → get_signal signal_id db ≡ none
          → (outcome ≡ no_such_signal signal_id) × (db' ≡ db))
      × (find_stage id db ≡ none
          → get_signal signal_id db ≢ none
          → (outcome ≡ inserted id)
            × (find_stage id db' ≡ some row)
            × (find_stage id (record_stage_result id r pnl now db')
                ≡ some (set_result r pnl now row))
            × (id ≢ j → find_stage j (record_stage_result id r pnl now db') ≡ find_stage j db))
unfolding record_stage_placed
record_stage_placed_lem sha1_hex signal_id stage pair direction amount placed_at expires_at
      broker_id r pnl now j db =
    let id = derive_trade_id sha1_hex signal_id stage placed_at in
    let row = open_row id signal_id stage pair direction amount placed_at expires_at broker_id in
    let db' : Db = record db { stages = row ∷ db.stages } in
    ground (
      arith,
      eq_refl id,
      eq_iff id j,
      select-cons stage_key id row db.stages,
      select-cons stage_key j row db.stages,
      find_stage-record_stage_result id id r pnl now db',
      find_stage-record_stage_result id j r pnl now db',
    )
