-- ===== src/Store/Statements.antt =====
-- infra/state_store.py: each method as a function of the tables.
use Prim.Native.String.{◌++◌ as str_append, slice}
use telegram_olymptrade_sign.Prelude.{
  ℕ, zero, suc, ◌+◌, ◌/◌, ◌%◌, Bool, true, false, Option, none, some, String, List, [], ◌∷◌, leb,
  ◌==◌, if◌then◌else◌,
}
use telegram_olymptrade_sign.Prelude.Int.{ℤ, ◌+ℤ◌}
use telegram_olymptrade_sign.Prelude.Eq.{nat_eq, string_eq}
use telegram_olymptrade_sign.Prelude.Table.{select, update_where}
use telegram_olymptrade_sign.Config.{Time, second}
use telegram_olymptrade_sign.Domain.Gale.{Stage, initial, gale1, gale2}
use telegram_olymptrade_sign.Domain.Signal.{Signal, Direction}
use telegram_olymptrade_sign.Domain.State.{Status, pending, ErrorReason, StageResult, is_placed}
use telegram_olymptrade_sign.Store.Rows.{
  SignalRow, StageRow, DailySummaryRow, LimitType, open_trade, closed, Date, Db,
}

abbrev pub signal_key : SignalRow → String
signal_key r = r.signal_id

abbrev pub stage_key : StageRow → String
stage_key r = r.trade_id

abbrev pub date_key : DailySummaryRow → Date
date_key r = r.date

unfoldable pub get_signal : String → Db → Option SignalRow
unfolding select
get_signal signal_id db = select signal_key signal_id db.signals

abbrev pub pending_row : Signal → SignalRow
pending_row signal = record {
  signal_id = signal.signal_id;
  pair = signal.pair;
  broker_pair = none;
  broker_category = none;
  direction = signal.direction;
  trigger_hhmm = signal.trigger_hhmm;
  trigger_ts_unix = signal.trigger_unix_initial;
  expiration_seconds = signal.expiration_seconds;
  received_at_unix = signal.received_at_unix;
  source_message_id = signal.source_message_id;
  source_chat_id = signal.source_chat_id;
  raw_text = signal.raw_text;
  status = pending;
  error_reason = none;
  created_at_unix = signal.received_at_unix;
  updated_at_unix = signal.received_at_unix;
}

-- INSERT … ON CONFLICT (signal_id) DO NOTHING: whether the row is new, and the tables after.
unfoldable pub upsert_signal : Signal → Db → Bool × Db
unfolding get_signal
upsert_signal signal db = elim (get_signal signal.signal_id db) [
  | none ↦ (true, record db { signals = pending_row signal ∷ db.signals })
  | some _ ↦ (false, db)
]

abbrev pub set_status : Status → Option ErrorReason → Time → SignalRow → SignalRow
set_status new_state error_reason updated_at_unix r = record r {
  status = new_state;
  error_reason = error_reason;
  updated_at_unix = updated_at_unix;
}

unfoldable pub update_signal_state : String → Status → Option ErrorReason → Time → Db → Db
unfolding update_where
update_signal_state signal_id new_state error_reason updated_at_unix db = record db {
  signals =
      update_where signal_key signal_id (set_status new_state error_reason updated_at_unix)
        db.signals;
}

-- A number in decimal digits: `fuel` more digits at most, which `suc n` always gives.
digit_text : ℕ → String
digit_text d =
    if d == 0
    then "0"
    else if d == 1
    then "1"
    else if d == 2
    then "2"
    else if d == 3
    then "3"
    else if d == 4
    then "4"
    else if d == 5
    then "5"
    else if d == 6
    then "6"
    else if d == 7
    then "7"
    else if d == 8
    then "8"
    else "9"

digits : ℕ → ℕ → String → String
unfolding digit_text
digits zero n acc = acc
digits (suc fuel) n acc =
    let acc' = str_append (digit_text (n % 10)) acc in
    let rest = digits fuel (n / 10) acc' in if n / 10 == 0 then acc' else rest

-- `width` digits, with leading zeros.
padded : ℕ → ℕ → String → String
unfolding digit_text
padded zero n acc = acc
padded (suc width) n acc = padded width (n / 10) (str_append (digit_text (n % 10)) acc)

-- f"{t:.6f}"
fixed_six : Time → String
unfolding digits padded
fixed_six t =
    str_append (digits (suc (t / second)) (t / second) "")
      (str_append "." (padded 6 (t % second) ""))

unfoldable pub stage_name : Stage → String
stage_name initial = "initial"
stage_name gale1 = "gale1"
stage_name gale2 = "gale2"

-- What `sha1` hashes for a trade.
trade_payload : String → Stage → Time → String
unfolding fixed_six stage_name
trade_payload signal_id stage placed_at_unix =
    str_append signal_id
      (str_append "|" (str_append (stage_name stage) (str_append "|" (fixed_six placed_at_unix))))

-- What an INSERT into `stages` comes to: the new key, `StageAlreadyExistsError`, or the violation of
-- the foreign key `signal_id`.
pub data Placing : Type 0 where
  inserted : String → Placing
  already_exists : String → Placing
  no_such_signal : String → Placing

abbrev pub open_row :
    String → String → Stage → String → Direction → ℕ → Time → Time → Option String → StageRow
open_row trade_id signal_id stage pair direction amount placed_at expires_at broker_trade_id =
    record {
      trade_id = trade_id;
      signal_id = signal_id;
      stage = stage;
      pair = pair;
      direction = direction;
      amount = amount;
      placed_at_unix = placed_at;
      expires_at_unix = expires_at;
      closed_at_unix = none;
      pnl = none;
      result = open_trade;
      broker_trade_id = broker_trade_id;
    }

-- `hashlib.sha1(…).hexdigest()` is a parameter.
module _ (sha1_hex : String → String) where
  unfoldable pub derive_trade_id : String → Stage → Time → String
  unfolding trade_payload
  derive_trade_id signal_id stage placed_at_unix =
      slice (sha1_hex (trade_payload signal_id stage placed_at_unix)) 0 16

  unfoldable pub record_stage_placed :
      String → Stage → String → Direction → ℕ → Time → Time → Option String → Db → Placing × Db
  unfolding select get_signal
  record_stage_placed signal_id stage pair direction amount placed_at expires_at broker_trade_id
        db =
      let trade_id = derive_trade_id signal_id stage placed_at in
      let row =
        open_row trade_id signal_id stage pair direction amount placed_at expires_at
          broker_trade_id in
      elim (select stage_key trade_id db.stages) [
        | some _ ↦ (already_exists trade_id, db)
        | none ↦ elim (get_signal signal_id db) [
          | none ↦ (no_such_signal signal_id, db)
          | some _ ↦ (inserted trade_id, record db { stages = row ∷ db.stages })
        ]
      ]

abbrev pub set_result : StageResult → ℤ → Time → StageRow → StageRow
set_result result pnl closed_at_unix r = record r {
  result = closed result;
  pnl = some pnl;
  closed_at_unix = some closed_at_unix;
}

unfoldable pub record_stage_result : String → StageResult → ℤ → Time → Db → Db
unfolding update_where
record_stage_result trade_id result pnl closed_at_unix db = record db {
  stages = update_where stage_key trade_id (set_result result pnl closed_at_unix) db.stages;
}

-- WHERE status IN (placed_…)
unfoldable pub placed_rows : List SignalRow → List SignalRow
placed_rows [] = []
placed_rows (r ∷ rs) = let rest = placed_rows rs in if is_placed r.status then r ∷ rest else rest

unfoldable pub insert_by_trigger : SignalRow → List SignalRow → List SignalRow
insert_by_trigger r [] = r ∷ []
insert_by_trigger r (x ∷ xs) =
    let later = insert_by_trigger r xs in
    if leb r.trigger_ts_unix x.trigger_ts_unix then r ∷ x ∷ xs else x ∷ later

-- ORDER BY trigger_ts_unix
unfoldable pub order_by_trigger : List SignalRow → List SignalRow
unfolding insert_by_trigger
order_by_trigger [] = []
order_by_trigger (r ∷ rs) = insert_by_trigger r (order_by_trigger rs)

unfoldable pub get_active_signals : Db → List SignalRow
unfolding placed_rows order_by_trigger
get_active_signals db = order_by_trigger (placed_rows db.signals)

-- The deltas of one call of `update_daily_summary`.
pub record Deltas : Type 0 where
  pub signals_count : ℕ
  pub trades_count : ℕ
  pub wins : ℕ
  pub losses : ℕ
  pub realized_pnl : ℤ
  pub limit_hit : Option LimitType

abbrev pub coalesce : Option LimitType → Option LimitType → Option LimitType
coalesce none old = old
coalesce (some new) old = some new

unfoldable pub add_deltas : Deltas → DailySummaryRow → DailySummaryRow
unfolding ◌+ℤ◌
add_deltas d r = record r {
  signals_count = r.signals_count + d.signals_count;
  trades_count = r.trades_count + d.trades_count;
  wins = r.wins + d.wins;
  losses = r.losses + d.losses;
  realized_pnl = r.realized_pnl +ℤ d.realized_pnl;
  limit_hit = coalesce d.limit_hit r.limit_hit;
}

abbrev pub first_row : Date → Deltas → DailySummaryRow
first_row on_date d = record {
  date = on_date;
  signals_count = d.signals_count;
  trades_count = d.trades_count;
  wins = d.wins;
  losses = d.losses;
  realized_pnl = d.realized_pnl;
  limit_hit = d.limit_hit;
}

unfoldable pub get_daily_summary : Date → Db → Option DailySummaryRow
unfolding select
get_daily_summary on_date db = select date_key on_date db.daily_summary

-- INSERT … ON CONFLICT (date) DO UPDATE.
unfoldable pub update_daily_summary : Date → Deltas → Db → Db
unfolding get_daily_summary update_where add_deltas
update_daily_summary on_date d db = elim (get_daily_summary on_date db) [
  | none ↦ record db { daily_summary = first_row on_date d ∷ db.daily_summary }
  | some _ ↦ record db {
    daily_summary = update_where date_key on_date (add_deltas d) db.daily_summary;
  }
]
