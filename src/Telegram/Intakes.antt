-- ===== src/Telegram/Intakes.antt =====
-- The listener over any sequence of events, between which the scheduler writes to the same tables.
use mathlib.Core.Path.{subst}
use Prim.Native.String.{String}
use telegram_olymptrade_sign.Prelude.{
  ◌≡◌, ◌≢◌, sym, ap, none, some, List, [], ◌∷◌, ◌++◌, arith, All, Option-cases, inl, inr, eq_refl,
}
use telegram_olymptrade_sign.Prelude.Eq.{string_eq}
use telegram_olymptrade_sign.Prelude.Table.{select-cons}
use telegram_olymptrade_sign.Config.{Time}
use telegram_olymptrade_sign.Domain.Signal.{Signal}
use telegram_olymptrade_sign.Store.Rows.{SignalRow, Db}
use telegram_olymptrade_sign.Store.Statements.{signal_key, pending_row, get_signal, upsert_signal}
use telegram_olymptrade_sign.Store.Integrity.{Write, apply, HasSignal, apply-HasSignal}
use telegram_olymptrade_sign.Telegram.Listener.{
  Message, Env, Intake, Reading, skipped, failed, out_of_window, signal, resolver_error,
  value_error_raised, persist, read_event, apply_reading, process_message,
}

-- An event that arrives at a time, or a write of another task.
pub data Step : Type 0 where
  arrives : Message → Time → Step
  writes : Write → Step

unfoldable pub step : Env → Step → Intake → Intake
unfolding process_message
step env (arrives event received) i = process_message env event received i
step env (writes w) i = record i { db = apply env.sha1_hex w i.db }

unfoldable pub listen : Env → List Step → Intake → Intake
unfolding step
listen env [] i = i
listen env (s ∷ ss) i = listen env ss (step env s i)

-- No signal stands on the queue twice.
abbrev pub IsDistinct : List Signal → Type 0
IsDistinct [] = Unit
IsDistinct (s ∷ ss) = All (λ t. s.signal_id ≢ t.signal_id) ss × IsDistinct ss

-- The queue has each signal once and only signals that have a row.
pub record IsIntake (i : Intake) : Type 0 where
  pub distinct : IsDistinct i.queue
  pub recorded : All (λ s. HasSignal i.db s.signal_id) i.queue

All-snoc :
    {A : Type 0} (P : A → Type 0) (xs : List A) (x : A) → All P xs → P x → All P (xs ++ (x ∷ []))
All-snoc P [] x h p = (p, tt)
All-snoc P (y ∷ xs) x (q, h) p = (q, All-snoc P xs x h p)

All-weaken :
    {A : Type 0} (P Q : A → Type 0) (xs : List A) → ((x : A) → P x → Q x) → All P xs → All Q xs
All-weaken P Q [] f h = tt
All-weaken P Q (x ∷ xs) f (p, h) = (f x p, All-weaken P Q xs f h)

IsDistinct-snoc :
    (ss : List Signal) (s : Signal)
    → IsDistinct ss
    → All (λ t. t.signal_id ≢ s.signal_id) ss
    → IsDistinct (ss ++ (s ∷ []))
IsDistinct-snoc [] s d h = (tt, tt)
IsDistinct-snoc (t ∷ ss) s (u, d) (n, h) =
    (All-snoc (λ x. t.signal_id ≢ x.signal_id) ss s u n, IsDistinct-snoc ss s d h)

-- Steps 5 and 6 on a signal that has no row, and on one that has.
pub persist-new :
    (s : Signal) (i : Intake)
    → get_signal s.signal_id i.db ≡ none
    → persist s i ≡ record i {
      db = record i.db { signals = pending_row s ∷ i.db.signals };
      queue = i.queue ++ (s ∷ []);
    }
unfolding persist upsert_signal
persist-new s i h = rw (persist, upsert_signal, h)

pub persist-known : (s : Signal) (i : Intake) → HasSignal i.db s.signal_id → persist s i ≡ i
unfolding persist upsert_signal
persist-known s i h = elim (Option-cases (get_signal s.signal_id i.db)) [
  | inl e ↦ absurd (h e)
  | inr (row, e) ↦ rw (persist, upsert_signal, e)
]

pub found-HasSignal :
    (id : String) (db : Db) (row : SignalRow) → get_signal id db ≡ some row → HasSignal db id
found-HasSignal id db row e n = cc

-- The row of a signal stays through whatever the listener does.
pub persist-HasSignal :
    (s : Signal) (i : Intake) (id : String) → HasSignal i.db id → HasSignal (persist s i).db id
unfolding get_signal
persist-HasSignal s i id h = elim (Option-cases (get_signal s.signal_id i.db)) [
  | inl new ↦
      subst (λ j. HasSignal j.db id) (sym (persist-new s i new))
        (ground (arith, select-cons signal_key id (pending_row s) i.db.signals))
  | inr (row, e) ↦
      subst (λ j. HasSignal j.db id)
        (sym (persist-known s i (found-HasSignal s.signal_id i.db row e))) h
]

pub new_row-HasSignal :
    (s : Signal) (i : Intake)
    → get_signal s.signal_id i.db ≡ none
    → HasSignal (persist s i).db s.signal_id
unfolding get_signal
new_row-HasSignal s i new =
    subst (λ j. HasSignal j.db s.signal_id) (sym (persist-new s i new))
      (ground (
        arith,
        eq_refl s.signal_id,
        select-cons signal_key s.signal_id (pending_row s) i.db.signals,
      ))

other_id : (db : Db) (a b : String) → HasSignal db a → get_signal b db ≡ none → a ≢ b
other_id db a b h n e = h (subst (λ id. get_signal id db ≡ none) (sym e) n)

persist-IsIntake : (s : Signal) (i : Intake) → IsIntake i → IsIntake (persist s i)
persist-IsIntake s i h = elim (Option-cases (get_signal s.signal_id i.db)) [
  | inl new ↦
      let old =
        All-weaken (λ t. HasSignal i.db t.signal_id) (λ t. HasSignal (persist s i).db t.signal_id)
          i.queue (λ t. persist-HasSignal s i t.signal_id) h.recorded in
      record {
        distinct =
            subst (λ j. IsDistinct j.queue) (sym (persist-new s i new))
              (IsDistinct-snoc i.queue s h.distinct (
                All-weaken (λ t. HasSignal i.db t.signal_id) (λ t. t.signal_id ≢ s.signal_id)
                  i.queue (λ t k. other_id i.db t.signal_id s.signal_id k new) h.recorded));
        recorded =
            subst (λ q. All (λ t. HasSignal (persist s i).db t.signal_id) q)
              (sym (ap (λ j. j.queue) (persist-new s i new)))
              (All-snoc (λ t. HasSignal (persist s i).db t.signal_id) i.queue s old
                (new_row-HasSignal s i new));
      }
  | inr (row, e) ↦
      subst IsIntake (sym (persist-known s i (found-HasSignal s.signal_id i.db row e))) h
]

apply_reading-IsIntake :
    (event : Message) (received : Time) (r : Reading) (i : Intake)
    → IsIntake i
    → IsIntake (apply_reading event received r i)
unfolding apply_reading
apply_reading-IsIntake event received skipped i h = h
apply_reading-IsIntake event received (failed reason text) i h = record {
  distinct = h.distinct;
  recorded = h.recorded;
}
apply_reading-IsIntake event received (out_of_window hhmm t) i h = record {
  distinct = h.distinct;
  recorded = h.recorded;
}
apply_reading-IsIntake event received (signal s) i h = persist-IsIntake s i h
apply_reading-IsIntake event received resolver_error i h = h
apply_reading-IsIntake event received value_error_raised i h = h

step-IsIntake : (env : Env) (s : Step) (i : Intake) → IsIntake i → IsIntake (step env s i)
unfolding step process_message
step-IsIntake env (arrives event received) i h =
    apply_reading-IsIntake event received (read_event env event received) i h
step-IsIntake env (writes w) i h = record {
  distinct = h.distinct;
  recorded =
      All-weaken (λ t. HasSignal i.db t.signal_id)
        (λ t. HasSignal (apply env.sha1_hex w i.db) t.signal_id) i.queue
        (λ t. apply-HasSignal env.sha1_hex w i.db t.signal_id) h.recorded;
}

-- Whatever messages arrive, new, edited or repeated, and whatever the other tasks write in between, a
-- queue that had each signal once, and only signals with a row, stays so.
listen-IsIntake :
    (env : Env) (steps : List Step) (i : Intake) → IsIntake i → IsIntake (listen env steps i)
unfolding listen
listen-IsIntake env [] i h = h
listen-IsIntake env (s ∷ ss) i h = listen-IsIntake env ss (step env s i) (step-IsIntake env s i h)
