-- ===== src/Scheduler/NoWins.antt =====
-- A cascade whose broker never reports a win.
use telegram_olymptrade_sign.Prelude.{
  ℕ, ◌≡◌, ◌≢◌, refl, Option, none, some, String, inl, inr, arith, ap, Bool-cases,
}
use telegram_olymptrade_sign.Config.{Config, Time}
use telegram_olymptrade_sign.Domain.Gale.{Stage}
use telegram_olymptrade_sign.Domain.Signal.{Signal}
use telegram_olymptrade_sign.Domain.State.{
  done_win, SignalState, StageResult, win, Event, fire_event, result_event, transition, is_terminal,
}
use telegram_olymptrade_sign.Notify.{Note}
use telegram_olymptrade_sign.Store.Rows.{Db}
use telegram_olymptrade_sign.Store.Statements.{
  Placing, inserted, already_exists, no_such_signal, record_stage_placed,
}
use telegram_olymptrade_sign.Broker.{Waited, reported, timed_out, failed}
use telegram_olymptrade_sign.Scheduler.World.{Env, World, Exception, ◌>>◌, pure, notify}
use telegram_olymptrade_sign.Scheduler.Triple.{Post, Post-bind}
use telegram_olymptrade_sign.Scheduler.Limits.{successful, status_is_pending, status_is_error}
use telegram_olymptrade_sign.Scheduler.Stages.{
  Round, stop, go, fire, fired, after_fire, error_applied, wait_timeout, stage_result_of,
  wait_for_stage_result, notify_result, notify_end, result_applied,
}
use telegram_olymptrade_sign.Scheduler.Supervisor.{stage_recorded, record_placed}

-- An event that is no win.
abbrev pub IsNoWin : Event → Type 0
IsNoWin (fire_event now) = Unit
IsNoWin (result_event r now) = r ≢ win

abbrev pub StaysUnwon : Option SignalState → Type 0
StaysUnwon o = (s : SignalState) → o ≡ some s → s.state ≢ done_win

pub transition-StaysUnwon :
    (s : SignalState) (e : Event) (c : Config)
    → IsNoWin e
    → StaysUnwon (successful (transition s e c))
unfolding transition
transition-StaysUnwon s (fire_event now) c n s' e = ground arith
transition-StaysUnwon s (result_event r now) c n s' e = ground arith

-- A broker that keeps an invariant and whose waits then never come to a win.
abbrev pub NeverWins : (env : Env) → (env.broker.St → Type 0) → Type 0
NeverWins env Inv =
    ((signal : Signal) (stage : Stage) (amount : ℕ) (b : env.broker.St)
      → Inv b
      → Inv (env.broker.place signal stage amount b).1)
    × ((id : String) (limit : Time) (b : env.broker.St)
        → Inv b
        → ((env.broker.wait_result id limit b).0 ≢ reported win)
          × Inv (env.broker.wait_result id limit b).1)

module _ (env : Env) (signal : Signal) (Inv : env.broker.St → Type 0)
    (never : NeverWins env Inv) where
  -- An exception, too, leaves the invariant.
  abbrev pub Raised : Exception → World env.broker.St → Type 0
  Raised e w = Inv w.broker

  abbrev pub Keeps : {A : Type 0} → A → World env.broker.St → Type 0
  Keeps a w = Inv w.broker

  abbrev pub Unwon : SignalState → World env.broker.St → Type 0
  Unwon s w = (s.state ≢ done_win) × Inv w.broker

  abbrev pub UnwonRound : Round → World env.broker.St → Type 0
  UnwonRound (stop s) w = Unwon s w
  UnwonRound (go s) w = Unwon s w

  after_fire-UnwonRound :
      (stage : Stage) (s : SignalState) (w : World env.broker.St)
      → Unwon s w
      → Post UnwonRound Raised (after_fire env signal stage s w)
  unfolding after_fire
  after_fire-UnwonRound stage s w h = elim (Bool-cases (status_is_error s.state)) [
    | inl e ↦ rw (e, after_fire) h
    | inr e ↦ rw (e, after_fire) h
  ]

  fired-UnwonRound :
      (stage : Stage) (s : SignalState) (o : Option SignalState) (w : World env.broker.St)
      → Unwon s w
      → StaysUnwon o
      → Post UnwonRound Raised (fired env signal stage s o w)
  unfolding fired
  fired-UnwonRound stage s none w h o = h
  fired-UnwonRound stage s (some s') w h o = after_fire-UnwonRound stage s' _ (o s' refl, h.1)

  pub fire-UnwonRound :
      (stage : Stage) (s : SignalState) (w : World env.broker.St)
      → Unwon s w
      → Post UnwonRound Raised (fire env signal stage s w)
  unfolding fire
  fire-UnwonRound stage s w h = elim (Bool-cases (status_is_pending s.state)) [
    | inl e ↦
        rw (e, fire)
          (fired-UnwonRound stage s _ _ h
            (transition-StaysUnwon s (fire_event (env.clock w.ticks)) env.config tt))
    | inr e ↦ rw (e, fire) h
  ]

  pub error_applied-Unwon :
      (s : SignalState) (now : Time) (o : Option SignalState) (w : World env.broker.St)
      → Unwon s w
      → StaysUnwon o
      → Post Unwon Raised (error_applied env signal s now o w)
  unfolding error_applied
  error_applied-Unwon s now none w h o = h
  error_applied-Unwon s now (some s') w h o = (o s' refl, h.1)

  notify_result-Keeps :
      (stage : Stage) (r : StageResult) (amount : ℕ) (s : SignalState) (w : World env.broker.St)
      → Inv w.broker
      → Post Keeps Raised (notify_result env signal stage r amount s w)
  unfolding notify_result
  notify_result-Keeps stage StageResult.win amount s w h = h
  notify_result-Keeps stage _ amount s w h = h

  notify_end-Keeps :
      (s : SignalState) (w : World env.broker.St)
      → Inv w.broker
      → Post Keeps Raised (notify_end env signal s w)
  unfolding notify_end
  notify_end-Keeps s w h = elim (Bool-cases (is_terminal s.state)) [
    | inl e ↦ rw (e, notify_end) h
    | inr e ↦ rw (e, notify_end) h
  ]

  pub result_applied-Unwon :
      (s : SignalState) (stage : Stage) (r : StageResult) (amount : ℕ) (id : String) (now : Time)
      (o : Option SignalState) (w : World env.broker.St)
      → Unwon s w
      → StaysUnwon o
      → Post Unwon Raised (result_applied env signal s stage r amount id now o w)
  unfolding result_applied
  result_applied-Unwon s stage r amount id now none w h o = h
  result_applied-Unwon s stage r amount id now (some s') w h o =
      Post-bind Raised Keeps Unwon (notify_result env signal stage r amount s')
        (λ _. notify_end env signal s' >> pure s') _ (notify_result-Keeps stage r amount s' _ h.1)
        (λ _ w2 k2.
          Post-bind Raised Keeps Unwon (notify_end env signal s') (λ _. pure s') w2
            (notify_end-Keeps s' w2 k2) (λ _ w3 k3. (o s' refl, k3)))

  stage_recorded-Keeps :
      (p : Placing) (db : Db) (w : World env.broker.St)
      → Inv w.broker
      → Post Keeps Raised (stage_recorded env signal (p, db) w)
  stage_recorded-Keeps (inserted id) db w h = h
  stage_recorded-Keeps (already_exists id) db w h = h
  stage_recorded-Keeps (no_such_signal id) db w h = h

  pub record_placed-Keeps :
      (s : SignalState) (stage : Stage) (amount : ℕ) (at : Time) (id : String)
      (w : World env.broker.St)
      → Inv w.broker
      → Post Keeps Raised (record_placed env signal s stage amount at id w)
  unfolding record_placed
  record_placed-Keeps s stage amount at id w h =
      let (outcome, db') =
        record_stage_placed env.sha1_hex signal.signal_id stage signal.pair signal.direction amount
          at s.expires_at_unix (some id) w.db in
      stage_recorded-Keeps outcome db' w h

  stage_result_of-no_win :
      (answer : Waited) → answer ≢ reported win → stage_result_of env signal answer ≢ win
  stage_result_of-no_win (reported r) h e = h (ap reported e)
  stage_result_of-no_win timed_out h e = cc
  stage_result_of-no_win (failed _) h e = cc

  pub wait_for_stage_result-no_win :
      (id : String) (s : SignalState) (w : World env.broker.St)
      → Inv w.broker
      → Post (λ r w'. (r ≢ win) × Inv w'.broker) Raised (wait_for_stage_result env signal id s w)
  unfolding wait_for_stage_result
  wait_for_stage_result-no_win id s w h =
      let limit = wait_timeout env signal s.expires_at_unix (env.clock w.ticks) in
      let (no_win, kept) = never.1 id limit w.broker h in
      (stage_result_of-no_win (env.broker.wait_result id limit w.broker).0 no_win, kept)

  pub notify-Keeps :
      (n : Note) (w : World env.broker.St) → Inv w.broker → Post Keeps Raised (notify env n w)
  notify-Keeps n w h = elim (Bool-cases (env.raises n)) [
    | inl e ↦ rw (e, notify) h
    | inr e ↦ rw (e, notify) h
  ]
