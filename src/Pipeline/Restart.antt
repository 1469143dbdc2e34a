-- ===== src/Pipeline/Restart.antt =====
-- What a restart does to a signal that had no order yet.
use mathlib.Core.Path.{subst}
use telegram_olymptrade_sign.Prelude.{
  ◌≡◌, ◌≢◌, none, some, String, List, [], ◌∷◌, All, arith, Bool-cases, inl, inr, str_eq, eq_iff,
}
use telegram_olymptrade_sign.Prelude.Eq.{string_eq}
use telegram_olymptrade_sign.Prelude.Table.{select, IsKeyed}
use telegram_olymptrade_sign.Config.{Time}
use telegram_olymptrade_sign.Domain.Signal.{Signal}
use telegram_olymptrade_sign.Domain.State.{pending}
use telegram_olymptrade_sign.Store.Rows.{SignalRow}
use telegram_olymptrade_sign.Store.Statements.{
  signal_key, get_signal, get_active_signals, placed_rows, order_by_trigger,
}
use telegram_olymptrade_sign.Store.Signals.{All-insert_by_trigger}
use telegram_olymptrade_sign.Store.Integrity.{IsValid}
use telegram_olymptrade_sign.Telegram.Listener.{
  Message, Env, Intake, signal, read_event, process_message, apply_reading,
}
use telegram_olymptrade_sign.Telegram.Intakes.{persist-known, found-HasSignal}

abbrev pub Others : String → List SignalRow → Type 0
Others id = All (λ r. r.signal_id ≢ id)

order_by_trigger-Others :
    (id : String) (rs : List SignalRow) → Others id rs → Others id (order_by_trigger rs)
unfolding order_by_trigger
order_by_trigger-Others id [] h = tt
order_by_trigger-Others id (r ∷ rs) h =
    All-insert_by_trigger (λ x. x.signal_id ≢ id) r (order_by_trigger rs) h.0
      (order_by_trigger-Others id rs h.1)

placed_rows-absent :
    (id : String) (rs : List SignalRow)
    → select signal_key id rs ≡ none
    → Others id (placed_rows rs)
unfolding placed_rows select
placed_rows-absent id [] h = tt
placed_rows-absent id (r ∷ rs) h = ground (arith, eq_iff r.signal_id id, placed_rows-absent id rs)

placed_rows-pending :
    (id : String) (rs : List SignalRow) (row : SignalRow)
    → IsKeyed signal_key rs
    → select signal_key id rs ≡ some row
    → row.status ≡ pending
    → Others id (placed_rows rs)
unfolding placed_rows select
placed_rows-pending id [] row k h p = tt
placed_rows-pending id (r ∷ rs) row k h p = elim (Bool-cases (str_eq r.signal_id id)) [
  | inl same ↦ ground (
    arith,
    placed_rows-absent id rs
        (subst (λ j. select signal_key j rs ≡ none) ((eq_iff r.signal_id id).0 same) k.0),
  )
  | inr other ↦ ground (arith, eq_iff r.signal_id id, placed_rows-pending id rs row k.1)
]

-- Where the row of a signal is pending, the recovery of a process that starts on these tables does not
-- take it up, as it is not among the active signals; and an event that is read as that signal changes
-- nothing, so that it does not come to the queue again either.
pub pending_lost :
    (env : Env) (event : Message) (received : Time) (s : Signal) (i : Intake) (row : SignalRow)
    → IsValid i.db
    → get_signal s.signal_id i.db ≡ some row
    → row.status ≡ pending
    → read_event env event received ≡ signal s
    → Others s.signal_id (get_active_signals i.db) × (process_message env event received i ≡ i)
unfolding get_active_signals get_signal process_message apply_reading
pending_lost env event received s i row v found p r = (
  order_by_trigger-Others s.signal_id (placed_rows i.db.signals)
      (placed_rows-pending s.signal_id i.db.signals row v.signals_keyed found p),
  rw (process_message, r) (persist-known s i (found-HasSignal s.signal_id i.db row found)),
)
