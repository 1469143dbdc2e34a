-- ===== src/Scheduler/Cascade.antt =====
-- The whole loop of `_drive_cascade`: every round leads nearer to its end.
use telegram_olymptrade_sign.Prelude.{
  ℕ, zero, suc, ◌≤◌, ◌<◌, ◌≡◌, inl, inr, true, some, ◌∷◌, arith, Option-cases, sym, ap, ◌∙◌,
}
use telegram_olymptrade_sign.Config.{Time}
use telegram_olymptrade_sign.Domain.Gale.{Stage}
use telegram_olymptrade_sign.Domain.Signal.{Signal}
use telegram_olymptrade_sign.Domain.State.{SignalState, StageResult, is_terminal, is_placed}
use telegram_olymptrade_sign.Domain.State.Invariant.{IsCascade}
use telegram_olymptrade_sign.Notify.{on_pair_unavailable}
use telegram_olymptrade_sign.Broker.{
  Placed, accepted, rejected, unsupported_pair, broker_auth, other_error,
}
use telegram_olymptrade_sign.Scheduler.World.{Env, Exec, ordered, from_broker, notify, pure, ◌>>=◌}
use telegram_olymptrade_sign.Scheduler.Triple.{Post, Post-bind, Post-weaken}
use telegram_olymptrade_sign.Scheduler.Stages.{
  Round, stop, go, arm, fire, fired, apply_error_transition, apply_result_and_finalize,
  wait_for_stage_result,
}
use telegram_olymptrade_sign.Scheduler.Supervisor.{
  after_place, broker_place, record_placed, place_if, after_round, place, round, drive_cascade,
}
use telegram_olymptrade_sign.Scheduler.Shows.{orders}
use telegram_olymptrade_sign.Scheduler.Ladder.{
  rounds_left, follows-rounds_left, OrdersAfter-order, no_stage_terminal,
}
use telegram_olymptrade_sign.Scheduler.Landing.{
  IsPrivate, W, At, Stranded, IsFired, Mid, IsApplied, IsFailed, IsRound, IsLanded,
}
use telegram_olymptrade_sign.Scheduler.Firing.{arm-At, fire-IsFired}
use telegram_olymptrade_sign.Scheduler.Results.{
  Mid-Stranded, wait_for_stage_result-Mid, record_placed-Mid, apply_result_and_finalize-IsApplied,
  apply_error_transition-IsFailed, notify-Mid,
}

module _ (env : Env) (signal : Signal) (private : IsPrivate env signal) where
  pub after_place-IsRound :
      (s : SignalState) (stage : Stage) (amount : ℕ) (at : Time) (answer : Placed)
      (w : W env signal)
      → IsCascade signal env.config s
      → is_placed s.state ≡ true
      → Mid env signal s.state w
      → Post
          (IsRound env signal s)
          (Stranded env signal)
          (after_place env signal s stage amount at answer w)
  unfolding after_place
  after_place-IsRound s stage amount at (rejected broker_auth) w h p mid =
      Mid-Stranded env signal private s.state (from_broker broker_auth) w p mid
  after_place-IsRound s stage amount at (rejected other_error) w h p mid =
      Mid-Stranded env signal private s.state (from_broker other_error) w p mid
  after_place-IsRound s stage amount at (rejected (unsupported_pair m)) w h p mid =
      let note = on_pair_unavailable signal.pair m in
      Post-bind (Stranded env signal) (λ _ w'. (Mid env signal) s.state w') (IsRound env signal s)
        (notify env note) _ w (notify-Mid env signal private s.state note w p mid)
        (λ _ w1 mid1.
          Post-bind (Stranded env signal) (IsFailed env signal s) (IsRound env signal s)
            (apply_error_transition env signal s StageResult.error) (λ s'. pure (stop s')) w1
            (apply_error_transition-IsFailed env signal private s w1 h p mid1)
            (λ s' w2 failed. (failed.0, failed.1, ap is_terminal failed.2)))
  after_place-IsRound s stage amount at (accepted id) w h p mid =
      Post-bind (Stranded env signal) (λ _ w'. (Mid env signal) s.state w') (IsRound env signal s)
        (record_placed env signal s stage amount at id) _ w
        (record_placed-Mid env signal private s stage amount at id w p mid)
        (λ db_id w1 mid1.
          Post-bind (Stranded env signal) (λ _ w'. (Mid env signal) s.state w')
            (IsRound env signal s) (wait_for_stage_result env signal id s) _ _
            (wait_for_stage_result-Mid env signal private id s _ mid1)
            (λ r w2 mid2.
              Post-bind (Stranded env signal) (IsApplied env signal s) (IsRound env signal s)
                (apply_result_and_finalize env signal s stage r amount db_id) (λ s'. pure (go s'))
                w2
                (apply_result_and_finalize-IsApplied env signal private s stage r amount db_id w2 h
                  p mid2)
                (λ s' w3 applied.
                  (applied.0, applied.1, (follows-rounds_left s.state s'.state applied.2).0 p))))

  pub place-IsRound :
      (stage : Stage) (s : SignalState) (w : W env signal)
      → IsCascade signal env.config s
      → At env signal s.state w
      → is_placed s.state ≡ true
      → s.stage ≡ some stage
      → Post (IsRound env signal s) (Stranded env signal) (place env signal stage s w)
  unfolding place broker_place
  place-IsRound stage s w h at p e =
      let (answer, b) = env.broker.place signal stage s.amount w.broker in
      after_place-IsRound s stage s.amount (env.clock w.ticks) answer
        (record w { ticks = suc w.ticks; broker = b; trace = ordered stage s.amount ∷ w.trace }) h p
        (
          at.0,
          OrdersAfter-order env.config s.state stage s.amount (orders w.trace) p
              (sym h.stage_fits ∙ e) h.stake_fits at.1,
        )

  pub IsRound-weaken :
      (s s' : SignalState) (r : Round) (w : W env signal)
      → rounds_left s'.state ≤ rounds_left s.state
      → IsRound env signal s' r w
      → IsRound env signal s r w
  IsRound-weaken s s' (stop x) w le h = h
  IsRound-weaken s s' (go x) w le h = (h.0, h.1, omega (arith, h.2))

  pub place_if-IsRound :
      (stage : Stage) (s : SignalState) (r : Round) (w : W env signal)
      → s.stage ≡ some stage
      → IsFired env signal s r w
      → Post (IsRound env signal s) (Stranded env signal) (place_if env signal stage r w)
  unfolding place_if
  place_if-IsRound stage s (stop s') w e fired = (fired.0, fired.1, ap is_terminal fired.2)
  place_if-IsRound stage s (go s') w e fired =
      Post-weaken (Stranded env signal) (IsRound env signal s') (IsRound env signal s)
        (place env signal stage s' w)
        (place-IsRound stage s' w fired.0 fired.1 fired.2 (fired.3 ∙ e))
        (λ r' w'. IsRound-weaken s s' r' w' fired.4)

  pub round-IsRound :
      (stage : Stage) (s : SignalState) (w : W env signal)
      → IsCascade signal env.config s
      → At env signal s.state w
      → s.stage ≡ some stage
      → Post (IsRound env signal s) (Stranded env signal) (round env signal stage s w)
  unfolding round
  round-IsRound stage s w h at e =
      Post-bind (Stranded env signal) (λ _ w'. At env signal s.state w') (IsRound env signal s)
        (arm env signal stage) (λ _. fire env signal stage s >>= place_if env signal stage) w
        (arm-At env signal private stage s.state w at)
        (λ _ w1 at1.
          Post-bind (Stranded env signal) (IsFired env signal s) (IsRound env signal s)
            (fire env signal stage s) (place_if env signal stage) w1
            (fire-IsFired env signal private stage s w1 h at1 e)
            (λ r w2 fired. place_if-IsRound stage s r w2 e fired))

  pub after_round_lands :
      (s : SignalState) (r : Round) (rest : SignalState → Exec env.broker.St SignalState)
      (w : W env signal)
      → IsRound env signal s r w
      → ((s' : SignalState) (w' : W env signal)
          → rounds_left s'.state < rounds_left s.state
          → IsCascade signal env.config s'
          → At env signal s'.state w'
          → Post (IsLanded env signal) (Stranded env signal) (rest s' w'))
      → Post (IsLanded env signal) (Stranded env signal) (after_round env signal rest r w)
  unfolding after_round
  after_round_lands s (stop s') rest w done k = done
  after_round_lands s (go s') rest w done k = k s' w done.2 done.0 done.1

  -- The loop from one of its states lands in a terminal state, given one more round of fuel than the
  -- state has left.
  pub drive_from :
      (fuel : ℕ) (s : SignalState) (w : W env signal)
      → rounds_left s.state < fuel
      → IsCascade signal env.config s
      → At env signal s.state w
      → Post (IsLanded env signal) (Stranded env signal) (drive_cascade env signal fuel s w)
  unfolding drive_cascade
  drive_from zero s w lt h at = absurd (omega arith)
  drive_from (suc fuel) s w lt h at = elim (Option-cases s.stage) [
    | inl none_left ↦
        rw (none_left, drive_cascade)
          (h, at, no_stage_terminal s.state (sym h.stage_fits ∙ none_left))
    | inr (stage, e) ↦
        rw (e, drive_cascade)
          (Post-bind (Stranded env signal) (IsRound env signal s) (IsLanded env signal)
            (round env signal stage s) (after_round env signal (drive_cascade env signal fuel)) w
            (round-IsRound stage s w h at e)
            (λ r w' done.
              after_round_lands s r (drive_cascade env signal fuel) w' done
                (λ s' w2 fewer h' at'. drive_from fuel s' w2 (omega arith) h' at')))
  ]
