-- ===== src/Scheduler/Firing.antt =====
-- The first half of a round: `_arm` and `_fire`.
use telegram_olymptrade_sign.Prelude.{
  suc, ◌≡◌, refl, inl, inr, true, Option, none, some, [], arith, Bool-cases, sym, ap, ◌∙◌,
}
use telegram_olymptrade_sign.Domain.Gale.{Stage, initial}
use telegram_olymptrade_sign.Domain.Signal.{Signal}
use telegram_olymptrade_sign.Domain.State.{Status, pending, SignalState, fire_event}
use telegram_olymptrade_sign.Domain.State.Invariant.{IsCascade, stage_of}
use telegram_olymptrade_sign.Domain.State.Steps.{may_follow}
use telegram_olymptrade_sign.Scheduler.World.{Env}
use telegram_olymptrade_sign.Scheduler.Triple.{Post}
use telegram_olymptrade_sign.Scheduler.Limits.{status_is_error, status_is_pending}
use telegram_olymptrade_sign.Scheduler.Stages.{arm, fire, fired, after_fire}
use telegram_olymptrade_sign.Scheduler.Shows.{orders, update_signal_state-Shows}
use telegram_olymptrade_sign.Scheduler.Ladder.{
  follows-rounds_left, status_is_error_lem, IsNext, transition-IsNext, pending-next, pending-eq,
  pending-takes, placed_of_stage,
}
use telegram_olymptrade_sign.Scheduler.Landing.{IsPrivate, W, At, Stranded, IsFired}

module _ (env : Env) (signal : Signal) (private : IsPrivate env signal) where
  pub arm-At :
      (stage : Stage) (st : Status) (w : W env signal)
      → At env signal st w
      → Post (λ _ w'. At env signal st w') (Stranded env signal) (arm env signal stage w)
  unfolding arm
  arm-At stage st w h = ground (arith, private (suc w.ticks) w.db)

  pub after_fire-IsFired :
      (stage : Stage) (s s' : SignalState) (w : W env signal)
      → IsCascade signal env.config s'
      → At env signal s'.state w
      → may_follow pending s'.state ≡ true
      → s.state ≡ pending
      → s.stage ≡ some initial
      → Post (IsFired env signal s) (Stranded env signal) (after_fire env signal stage s' w)
  unfolding after_fire
  after_fire-IsFired stage s s' w h at follows p e = elim (Bool-cases (status_is_error s'.state)) [
    | inl failed ↦ rw (failed, after_fire) (h, at, status_is_error_lem s'.state failed)
    | inr placed ↦
        rw (placed, after_fire)
          (
            h,
            at,
            ((pending-next env.config s'.state [] follows refl).1 placed).0,
            h.stage_fits ∙ ((pending-next env.config s'.state [] follows refl).1 placed).1 ∙ sym e,
            rw p ((follows-rounds_left pending s'.state follows).1),
          )
  ]

  pub fired-IsFired :
      (stage : Stage) (s : SignalState) (o : Option SignalState) (w : W env signal)
      → IsNext signal env.config s o
      → s.state ≡ pending
      → s.stage ≡ some initial
      → At env signal pending w
      → Post (IsFired env signal s) (Stranded env signal) (fired env signal stage s o w)
  unfolding fired
  fired-IsFired stage s none w h p e at = elim h [ ]
  fired-IsFired stage s (some s') w h p e at =
      after_fire-IsFired stage s s' _ h.1
        (
          update_signal_state-Shows signal.signal_id pending s'.state s'.error_reason
              (env.clock w.ticks) w.db at.0,
          (pending-next env.config s'.state (orders w.trace) (rw p at h.0) at.1).0,
        )
        (rw p at h.0) p e

  pub fire-IsFired :
      (stage : Stage) (s : SignalState) (w : W env signal)
      → IsCascade signal env.config s
      → At env signal s.state w
      → s.stage ≡ some stage
      → Post (IsFired env signal s) (Stranded env signal) (fire env signal stage s w)
  unfolding fire
  fire-IsFired stage s w h at e = elim (Bool-cases (status_is_pending s.state)) [
    | inr placed_before ↦
        rw (placed_before, fire)
          (
            h,
            at,
            placed_of_stage s.state stage (sym h.stage_fits ∙ e) placed_before,
            refl,
            omega arith,
          )
    | inl is_pending ↦
        rw (is_pending, fire)
          (fired-IsFired stage s _ _
            (transition-IsNext signal env.config s (fire_event (env.clock w.ticks)) h
              (pending-takes s.state (env.clock w.ticks) is_pending))
            (pending-eq s.state is_pending)
            (h.stage_fits ∙ ap stage_of (pending-eq s.state is_pending))
            (rw (pending-eq s.state is_pending) at at))
  ]
