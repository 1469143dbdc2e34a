-- ===== src/Tests/Store.antt =====
-- The theorems on infra/state_store.py at sample tables.
use telegram_olymptrade_sign.Prelude.{
  ◌≡◌, ◌≢◌, refl, true, false, none, some, String, [], ◌∷◌, str_eq,
}
use telegram_olymptrade_sign.Prelude.Int.{pos}
use telegram_olymptrade_sign.Config.{seconds}
use telegram_olymptrade_sign.Domain.Gale.{initial}
use telegram_olymptrade_sign.Domain.Signal.{up}
use telegram_olymptrade_sign.Domain.State.{win, placed_initial}
use telegram_olymptrade_sign.Store.Rows.{Db}
use telegram_olymptrade_sign.Store.Statements.{
  get_signal, derive_trade_id, open_row, record_stage_placed, record_stage_result, set_result,
  already_exists, no_such_signal, inserted,
}
use telegram_olymptrade_sign.Store.Stages.{find_stage, record_stage_placed_lem}
use telegram_olymptrade_sign.Store.Integrity.{
  Write, place, IsValid, HasSignal, apply, apply-IsValid,
}
use telegram_olymptrade_sign.Tests.{db_with}

abbrev empty_db : Db
empty_db = record { signals = []; stages = []; daily_summary = [] }

abbrev sample_id : String
sample_id = derive_trade_id (λ s. s) "a1" initial (seconds 1_000)

record_stage_placed_lem_example :
    let id = sample_id in
    let db : Db = db_with placed_initial in
    let row = open_row id "a1" initial "EURJPY" up 200 (seconds 1_000) (seconds 1_300) none in
    let (outcome, db') =
      record_stage_placed
        (λ s. s)
        "a1"
        initial
        "EURJPY"
        up
        200
        (seconds 1_000)
        (seconds 1_300)
        none
        db in
    (find_stage id db ≢ none → (outcome ≡ already_exists id) × (db' ≡ db))
    × (find_stage id db ≡ none
        → get_signal "a1" db ≡ none
        → (outcome ≡ no_such_signal "a1") × (db' ≡ db))
    × (find_stage id db ≡ none
        → get_signal "a1" db ≢ none
        → (outcome ≡ inserted id)
          × (find_stage id db' ≡ some row)
          × (find_stage id (record_stage_result id win (pos 18_400) (seconds 1_300) db')
              ≡ some (set_result win (pos 18_400) (seconds 1_300) row))
          × (id ≢ "b2"
              → find_stage "b2" (record_stage_result id win (pos 18_400) (seconds 1_300) db')
                ≡ find_stage "b2" db))
record_stage_placed_lem_example =
    record_stage_placed_lem (λ s. s) "a1" initial "EURJPY" up 200 (seconds 1_000) (seconds 1_300)
      none win (pos 18_400) (seconds 1_300) "b2" (db_with placed_initial)

db_with-IsValid : IsValid (db_with placed_initial)
unfolding telegram_olymptrade_sign.Prelude.Table.select
db_with-IsValid = record {
  signals_keyed = (refl, tt);
  stages_keyed = tt;
  days_keyed = tt;
  owned = tt;
}

abbrev sample_write : Write
sample_write = place "a1" initial "EURJPY" up 200 (seconds 1_000) (seconds 1_300) none

apply-IsValid_example :
    IsValid (apply (λ s. s) sample_write (db_with placed_initial))
    × ((j : String)
        → HasSignal (db_with placed_initial) j
        → HasSignal (apply (λ s. s) sample_write (db_with placed_initial)) j)
apply-IsValid_example = apply-IsValid (λ s. s) sample_write (db_with placed_initial) db_with-IsValid
