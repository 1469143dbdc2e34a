-- ===== src/Store/Signals.antt =====
-- The `signals` table of infra/state_store.py as its readers see it.
use mathlib.Core.Bool.{false≢true}
use mathlib.Core.List.{Perm, filter}
use mathlib.Core.List.Perm
use telegram_olymptrade_sign.Prelude.{
  ◌≤◌, ◌≡◌, refl, Bool, true, false, Option, none, some, String, List, [], ◌∷◌, arith, All,
  if◌then◌else◌, eq_refl, str_eq, leb, leb→le, ap, Bool-cases, inl, inr,
}
use telegram_olymptrade_sign.Prelude.Eq.{string_eq}
use telegram_olymptrade_sign.Prelude.Table.{select-update_where, select-cons}
use telegram_olymptrade_sign.Config.{Time}
use telegram_olymptrade_sign.Domain.Signal.{Signal}
use telegram_olymptrade_sign.Domain.State.{Status, ErrorReason, is_placed}
use telegram_olymptrade_sign.Store.Rows.{SignalRow, Db}
use telegram_olymptrade_sign.Store.Statements.{
  signal_key, pending_row, set_status, get_signal, upsert_signal, update_signal_state,
  insert_by_trigger, order_by_trigger, placed_rows, get_active_signals,
}

abbrev or_row : Option SignalRow → SignalRow → Option SignalRow
or_row none r = some r
or_row (some old) r = some old

-- An upsert reports a new row exactly if there was none under its id, and then every reader of that id
-- sees the pending row of the signal; a row that was there stays as it was, and so does every other.
upsert_signal_lem :
    (signal : Signal) (db : Db) (j : String)
    → ((upsert_signal signal db).0 ≡ true → get_signal signal.signal_id db ≡ none)
      × ((upsert_signal signal db).0 ≡ false → (upsert_signal signal db).1 ≡ db)
      × (get_signal signal.signal_id (upsert_signal signal db).1
          ≡ or_row (get_signal signal.signal_id db) (pending_row signal))
      × (str_eq signal.signal_id j ≡ false
          → get_signal j (upsert_signal signal db).1 ≡ get_signal j db)
unfolding upsert_signal
upsert_signal_lem signal db j = ground (
  arith,
  eq_refl signal.signal_id,
  select-cons signal_key j (pending_row signal) db.signals,
  select-cons signal_key signal.signal_id (pending_row signal) db.signals,
)

abbrev pub map_status : Bool → (SignalRow → SignalRow) → Option SignalRow → Option SignalRow
map_status b f none = none
map_status b f (some r) = if b then some (f r) else some r

-- An update of one id is seen under that id alone; where the id has no row, nothing changes.
pub get_signal-update_signal_state :
    (k j : String) (new_state : Status) (reason : Option ErrorReason) (now : Time) (db : Db)
    → get_signal j (update_signal_state k new_state reason now db)
      ≡ map_status (str_eq k j) (set_status new_state reason now) (get_signal j db)
unfolding get_signal update_signal_state
get_signal-update_signal_state k j new_state reason now db = ground (
  arith,
  select-update_where signal_key k j (set_status new_state reason now) db.signals (λ r. refl),
)

-- The rows from the earliest trigger on.
abbrev IsSorted : List SignalRow → Type 0
IsSorted [] = Unit
IsSorted (r ∷ rs) = All (λ x. r.trigger_ts_unix ≤ x.trigger_ts_unix) rs × IsSorted rs

pub All-insert_by_trigger :
    (P : SignalRow → Type 0) (r : SignalRow) (rs : List SignalRow)
    → P r
    → All P rs
    → All P (insert_by_trigger r rs)
unfolding insert_by_trigger
All-insert_by_trigger P r [] p h = (p, tt)
All-insert_by_trigger P r (x ∷ xs) p h = ground (arith, All-insert_by_trigger P r xs p h.1)

All-le :
    (a b : Time) (rs : List SignalRow)
    → a ≤ b
    → All (λ x. b ≤ x.trigger_ts_unix) rs
    → All (λ x. a ≤ x.trigger_ts_unix) rs
All-le a b [] le h = tt
All-le a b (x ∷ xs) le h = (omega arith, All-le a b xs le h.1)

insert_by_trigger-IsSorted :
    (r : SignalRow) (rs : List SignalRow) → IsSorted rs → IsSorted (insert_by_trigger r rs)
unfolding insert_by_trigger
insert_by_trigger-IsSorted r [] h = (tt, tt)
insert_by_trigger-IsSorted r (x ∷ xs) h =
    elim (Bool-cases (leb r.trigger_ts_unix x.trigger_ts_unix)) [
      | inl first ↦ rw first (
        (leb→le _ _ first, All-le r.trigger_ts_unix x.trigger_ts_unix xs (leb→le _ _ first) h.0),
        h,
      )
      | inr later ↦ rw later (
        All-insert_by_trigger (λ y. x.trigger_ts_unix ≤ y.trigger_ts_unix) r xs (ground arith) h.0,
        insert_by_trigger-IsSorted r xs h.1,
      )
    ]

order_by_trigger-IsSorted : (rs : List SignalRow) → IsSorted (order_by_trigger rs)
unfolding order_by_trigger
order_by_trigger-IsSorted [] = tt
order_by_trigger-IsSorted (r ∷ rs) =
    insert_by_trigger-IsSorted r (order_by_trigger rs) (order_by_trigger-IsSorted rs)

insert_by_trigger-perm :
    (r : SignalRow) (rs : List SignalRow) → Perm (insert_by_trigger r rs) (r ∷ rs)
unfolding insert_by_trigger
insert_by_trigger-perm r [] = Perm.refl _
insert_by_trigger-perm r (x ∷ xs) = elim (Bool-cases (leb r.trigger_ts_unix x.trigger_ts_unix)) [
  | inl first ↦ rw first (Perm.refl _)
  | inr later ↦ rw later (Perm.trans (Perm.cons x (insert_by_trigger-perm r xs)) (Perm.swap r x xs))
]

order_by_trigger-perm : (rs : List SignalRow) → Perm (order_by_trigger rs) rs
unfolding order_by_trigger
order_by_trigger-perm [] = Perm.refl _
order_by_trigger-perm (r ∷ rs) =
    Perm.trans (insert_by_trigger-perm r (order_by_trigger rs))
      (Perm.cons r (order_by_trigger-perm rs))

abbrev dec_true : (b : Bool) → Dec (b ≡ true)
dec_true true = yes refl
dec_true false = no (λ e. false≢true e)

placed_rows-eq-filter :
    (rs : List SignalRow) → placed_rows rs ≡ filter (λ r. dec_true (is_placed r.status)) rs
unfolding placed_rows
placed_rows-eq-filter [] = refl
placed_rows-eq-filter (r ∷ rs) = elim (Bool-cases (is_placed r.status)) [
  | inl placed ↦ rw placed (ap (λ l. r ∷ l) (placed_rows-eq-filter rs))
  | inr other ↦ rw other (placed_rows-eq-filter rs)
]

-- The active signals are the rows in a placed status, all of them and as often as the table has them,
-- from the earliest trigger on.
get_active_signals_lem :
    (db : Db)
    → Perm (get_active_signals db) (filter (λ r. dec_true (is_placed r.status)) db.signals)
      × IsSorted (get_active_signals db)
unfolding get_active_signals
get_active_signals_lem db = (
  rw (← placed_rows-eq-filter db.signals) (order_by_trigger-perm (placed_rows db.signals)),
  order_by_trigger-IsSorted (placed_rows db.signals),
)
