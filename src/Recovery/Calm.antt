-- ===== src/Recovery/Calm.antt =====
-- A boot-time recovery trades nothing: whatever it reads, it leaves the broker alone.
use mathlib.Core.Path.{subst}
use telegram_olymptrade_sign.Prelude.Eq.{string_eq}
use telegram_olymptrade_sign.Prelude.{
  suc, ◌≡◌, ◌≢◌, refl, Bool, true, false, Option, none, some, String, arith, Bool-cases,
  Option-cases, sym, ◌∙◌, inl, inr,
}
use telegram_olymptrade_sign.Config.{Time}
use telegram_olymptrade_sign.Domain.Gale.{Stage}
use telegram_olymptrade_sign.Domain.Signal.{Signal}
use telegram_olymptrade_sign.Domain.State.{
  Status, pending, SignalState, ErrorReason, timeout, result_event, is_terminal, is_placed,
  transition,
}
use telegram_olymptrade_sign.Store.Rows.{SignalRow, Db}
use telegram_olymptrade_sign.Store.Statements.{signal_key, get_signal, update_signal_state}
use telegram_olymptrade_sign.Store.Signals.{get_signal-update_signal_state}
use telegram_olymptrade_sign.Prelude.Table.{key-select}
use telegram_olymptrade_sign.Scheduler.World.{Env, World, Outcome}
use telegram_olymptrade_sign.Scheduler.Shows.{orders, status_in}
use telegram_olymptrade_sign.Scheduler.Triple.{Post, Post-weaken}
use telegram_olymptrade_sign.Scheduler.Limits.{successful, handle_limit_rejection}
use telegram_olymptrade_sign.Scheduler.Supervisor.{run, intake}
use telegram_olymptrade_sign.Scheduler.Adopt.{
  adopt, adopt_if_found, record_timeout, timeout_of_row, timeout_applied, state_of_row,
  signal_of_row,
}
use telegram_olymptrade_sign.Scheduler.Runs.{limit_at, duplicate_ignored, run-intake}

-- A status under which a supervisor takes its signal for a duplicate.
abbrev pub busy : Option Status → Bool
busy none = false
busy (some pending) = false
busy (some _) = true

abbrev pub IsBusy : String → Db → Type 0
IsBusy id db = busy (status_in id db) ≡ true

update_signal_state-IsBusy :
    (id j : String) (st : Status) (reason : Option ErrorReason) (now : Time) (db : Db)
    → st ≢ pending
    → IsBusy j db
    → IsBusy j (update_signal_state id st reason now db)
update_signal_state-IsBusy id j st reason now db other h =
    ground (arith, get_signal-update_signal_state id j st reason now db)

-- The broker is as it was, no order has been given, and no signal has become free.
abbrev pub IsCalm : {B : Type 0} → World B → World B → Type 0
IsCalm w w' =
    (w'.broker ≡ w.broker)
    × (orders w'.trace ≡ orders w.trace)
    × ((j : String) → IsBusy j w.db → IsBusy j w'.db)

abbrev pub calm_refl : {B : Type 0} (w : World B) → IsCalm w w
calm_refl w = (refl, refl, λ j h. h)

abbrev pub calm_trans : {B : Type 0} (w w1 w2 : World B) → IsCalm w w1 → IsCalm w1 w2 → IsCalm w w2
calm_trans w w1 w2 p q = (q.0 ∙ p.0, q.1 ∙ p.1, λ j h. q.2 j (p.2 j h))

-- What a step of recovery comes to.
abbrev pub Calmly : {A B : Type 0} → World B → Outcome A × World B → Type 0
Calmly w o = Post (λ _ w'. IsCalm w w') (λ _ _. ⊥) o

busy-row :
    (id : String) (db : Db)
    → IsBusy id db
    → (row : SignalRow) × (get_signal id db ≡ some row) × (row.status ≢ pending)
busy-row id db h = elim (Option-cases (get_signal id db)) [
  | inl missing ↦ absurd (ground arith)
  | inr (row, found) ↦ (row, found, λ e. ground arith)
]

module _ (env : Env) where
  limit_case :
      (signal : Signal) (w : World env.broker.St) (l : _)
      → limit_at env signal w ≡ some l
      → Calmly w (run env signal 4 w)
  unfolding intake handle_limit_rejection
  limit_case signal w l hit = rw (run-intake env signal w 4 (some l) hit) (
    refl,
    refl,
    λ j h.
        update_signal_state-IsBusy signal.signal_id j Status.error _ (env.clock w.ticks) w.db
          (λ e. ground arith) h,
  )

  run-Calmly :
      (signal : Signal) (w : World env.broker.St)
      → IsBusy signal.signal_id w.db
      → Calmly w (run env signal 4 w)
  run-Calmly signal w h = elim (Option-cases (limit_at env signal w)) [
    | inr (l, hit) ↦ limit_case signal w l hit
    | inl clear ↦
        let (row, found, other) = busy-row signal.signal_id w.db h in
        rw (duplicate_ignored env signal w row 4 clear found other) (calm_refl w)
  ]

  pub adopt-Calmly :
      (row : SignalRow) (w : World env.broker.St)
      → IsBusy row.signal_id w.db
      → Calmly w (adopt env row w)
  unfolding adopt
  adopt-Calmly row w h = elim (Bool-cases (is_terminal row.status)) [
    | inl done ↦ rw (done, adopt) (calm_refl w)
    | inr on ↦ rw (on, adopt) (run-Calmly (signal_of_row row) w h)
  ]

  adopt_if_found-Calmly :
      (id : String) (o : Option SignalRow) (w : World env.broker.St)
      → get_signal id w.db ≡ o
      → IsBusy id w.db
      → Calmly w (adopt_if_found env o w)
  unfolding adopt_if_found get_signal
  adopt_if_found-Calmly id none w found h = calm_refl w
  adopt_if_found-Calmly id (some row) w found h =
      adopt-Calmly row w
        (subst (λ k. IsBusy k w.db) (sym (key-select signal_key id w.db.signals row found)) h)

  -- What a timeout leads to is not pending.
  abbrev IsOut : Option SignalState → Type 0
  IsOut none = Unit
  IsOut (some s) = s.state ≢ pending

  timeout-IsOut :
      (row : SignalRow) (stage : Stage) (now : Time)
      → IsOut (
          successful
            (transition (state_of_row env row stage) (result_event timeout now) env.config))
  unfolding transition
  timeout-IsOut row stage now = ground arith

  timeout_applied-Calmly :
      (id : String) (now : Time) (o : Option SignalState) (w : World env.broker.St)
      → IsOut o
      → IsBusy id w.db
      → Calmly w (timeout_applied env id now o w)
  unfolding timeout_applied
  timeout_applied-Calmly id now none w out h = calm_refl w
  timeout_applied-Calmly id now (some s) w out h =
      let w1 : World env.broker.St = record w {
        db = update_signal_state id s.state s.error_reason now w.db;
      } in
      let calm : IsCalm w w1 = (
        refl,
        refl,
        λ j b. update_signal_state-IsBusy id j s.state s.error_reason now w.db out b,
      ) in
      elim (Bool-cases (is_placed s.state)) [
        | inl placed ↦
            rw (placed, timeout_applied)
              (Post-weaken (λ _ _. ⊥) (λ _ w'. IsCalm w1 w') (λ _ w'. IsCalm w w') _
                (adopt_if_found-Calmly id (get_signal id w1.db) w1 refl (calm.2 id h))
                (λ _ w' later. calm_trans w w1 w' calm later))
        | inr ended ↦ rw (ended, timeout_applied) calm
      ]

  timeout_of_row-Calmly :
      (id : String) (stage : Stage) (o : Option SignalRow) (w : World env.broker.St)
      → IsBusy id w.db
      → Calmly w (timeout_of_row env id stage o w)
  unfolding timeout_of_row
  timeout_of_row-Calmly id stage none w h = calm_refl w
  timeout_of_row-Calmly id stage (some row) w h =
      timeout_applied-Calmly id (env.clock w.ticks) _ (record w { ticks = suc w.ticks })
        (timeout-IsOut row stage (env.clock w.ticks)) h

  pub record_timeout-Calmly :
      (id : String) (stage : Stage) (w : World env.broker.St)
      → IsBusy id w.db
      → Calmly w (record_timeout env id stage w)
  unfolding record_timeout
  record_timeout-Calmly id stage w h = timeout_of_row-Calmly id stage (get_signal id w.db) w h
