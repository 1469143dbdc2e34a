-- ===== src/Scheduler/AuthError.antt =====
-- A cascade whose broker refuses every order with `BrokerAuthError`.
use mathlib.Core.Path.{subst}
use telegram_olymptrade_sign.Prelude.{
  ℕ, suc, leb, inl, inr, arith, ap, Bool-cases, ◌+◌, ◌<◌, ◌≡◌, refl, true, some, [], ◌∷◌, sym, ◌∙◌,
}
use telegram_olymptrade_sign.Domain.Gale.{Stage, initial}
use telegram_olymptrade_sign.Domain.Signal.{Signal}
use telegram_olymptrade_sign.Domain.State.{Status, pending, SignalState, from_signal, is_placed}
use telegram_olymptrade_sign.Domain.State.Invariant.{IsCascade, from_signal-IsCascade}
use telegram_olymptrade_sign.Broker.{rejected, broker_auth}
use telegram_olymptrade_sign.Scheduler.World.{Env, World, from_broker, ordered, Exec}
use telegram_olymptrade_sign.Scheduler.Triple.{Post, Post-bind, Post-and, Post-weaken}
use telegram_olymptrade_sign.Scheduler.Stages.{Round, stop, go, arm, fire}
use telegram_olymptrade_sign.Scheduler.Supervisor.{
  after_place, broker_place, place, place_if, round, after_round, drive_cascade,
}
use telegram_olymptrade_sign.Scheduler.Shows.{orders, Shows}
use telegram_olymptrade_sign.Scheduler.Ladder.{OrdersAfter-order}
use telegram_olymptrade_sign.Scheduler.Landing.{IsPrivate, At, Stranded, IsFired}
use telegram_olymptrade_sign.Scheduler.Firing.{arm-At, fire-IsFired}
use telegram_olymptrade_sign.Scheduler.Verdict.{IsInsertRefusal}
use telegram_olymptrade_sign.Scheduler.Played.{Goes, fire-Goes}
use telegram_olymptrade_sign.Scheduler.Ends.{fire_places}
use telegram_olymptrade_sign.Scheduler.Results.{Mid-Stranded}

-- Every order is refused with `BrokerAuthError`.
abbrev pub RefusesAll : Env → Type 0
RefusesAll env =
    (signal : Signal) (stage : Stage) (amount : ℕ) (b : env.broker.St)
    → (env.broker.place signal stage amount b).0 ≡ rejected broker_auth

-- The loop is left in the state error, and `late` holds.
abbrev StopsInError : {B : Type 0} → Type 0 → Round → World B → Type 0
StopsInError late (stop s) w = (s.state ≡ Status.error) × late
StopsInError late (go s) w = ⊥

-- A fire that stops the loop came late.
abbrev StopsLate : Type 0 → Round → Type 0
StopsLate late (stop s) = late
StopsLate late (go s) = Unit

module _ (env : Env) (signal : Signal) (private : IsPrivate env signal) (refuses : RefusesAll env)
    (late : Type 0) where
  place-Stranded :
      (stage : Stage) (s : SignalState) (w : World env.broker.St)
      → IsCascade signal env.config s
      → At env signal s.state w
      → is_placed s.state ≡ true
      → s.stage ≡ some stage
      → Post (StopsInError late) (Stranded env signal) (place env signal stage s w)
  unfolding place broker_place after_place
  place-Stranded stage s w h at p e =
      rw (refuses signal stage s.amount w.broker, place)
        (Mid-Stranded env signal private s.state (from_broker broker_auth)
          (record w {
            ticks = suc w.ticks;
            broker = (env.broker.place signal stage s.amount w.broker).1;
            trace = ordered stage s.amount ∷ w.trace;
          })
          p
          (
            at.0,
            OrdersAfter-order env.config s.state stage s.amount (orders w.trace) p
                (sym h.stage_fits ∙ e) h.stake_fits at.1,
          ))

  place_if-Stranded :
      (stage : Stage) (s : SignalState) (r : Round) (w : World env.broker.St)
      → s.stage ≡ some stage
      → IsFired env signal s r w × StopsLate late r
      → Post (StopsInError late) (Stranded env signal) (place_if env signal stage r w)
  unfolding place_if
  place_if-Stranded stage s (stop s') w e (fired, l) = (fired.2, l)
  place_if-Stranded stage s (go s') w e (fired, l) =
      place-Stranded stage s' w fired.0 fired.1 fired.2 (fired.3 ∙ e)

  round-Stranded :
      (stage : Stage) (s : SignalState) (w : World env.broker.St)
      → IsCascade signal env.config s
      → At env signal s.state w
      → s.stage ≡ some stage
      → ((w1 : World env.broker.St)
          → w1.ticks ≡ suc w.ticks
          → orders w1.trace ≡ orders w.trace
          → At env signal s.state w1
          → Post
              (λ r w'. IsFired env signal s r w' × StopsLate late r)
              (Stranded env signal)
              (fire env signal stage s w1))
      → Post (StopsInError late) (Stranded env signal) (round env signal stage s w)
  unfolding round arm
  round-Stranded stage s w h at e stops =
      let w1 : World env.broker.St = (arm env signal stage w).1 in
      let at1 = arm-At env signal private stage s.state w at in
      Post-bind (Stranded env signal) (λ r w'. IsFired env signal s r w' × StopsLate late r)
        (StopsInError late) (fire env signal stage s) (place_if env signal stage) w1
        (stops w1 refl refl at1) (λ r w2 fired. place_if-Stranded stage s r w2 e fired)

  after_round-StopsInError :
      (r : Round) (rest : SignalState → Exec env.broker.St SignalState) (w : World env.broker.St)
      → StopsInError late r w
      → Post
          (λ s _. (s.state ≡ Status.error) × late)
          (Stranded env signal)
          (after_round env signal rest r w)
  unfolding after_round
  after_round-StopsInError (stop s) rest w h = h
  after_round-StopsInError (go s) rest w h = absurd h

  first_round :
      (fuel : ℕ) (s : SignalState) (w : World env.broker.St)
      → IsCascade signal env.config s
      → At env signal s.state w
      → s.stage ≡ some initial
      → ((w1 : World env.broker.St)
          → w1.ticks ≡ suc w.ticks
          → orders w1.trace ≡ orders w.trace
          → At env signal s.state w1
          → Post
              (λ r w'. IsFired env signal s r w' × StopsLate late r)
              (Stranded env signal)
              (fire env signal initial s w1))
      → Post
          (λ s' _. (s'.state ≡ Status.error) × late)
          (Stranded env signal)
          (drive_cascade env signal (suc fuel) s w)
  unfolding drive_cascade
  first_round fuel s w h at e stops =
      rw (e, drive_cascade)
        (Post-bind (Stranded env signal) (StopsInError late)
          (λ s' _. (s'.state ≡ Status.error) × late) (round env signal initial s)
          (after_round env signal (drive_cascade env signal fuel)) w
          (round-Stranded initial s w h at e stops)
          (λ r w' done. after_round-StopsInError r (drive_cascade env signal fuel) w' done))

-- The fire was later than the tolerance allows.
abbrev pub IsLate : Env → Signal → ℕ → Type 0
IsLate env signal reading =
    signal.trigger_unix_initial + env.config.trigger_skew_tolerance_seconds < env.clock reading

late-StopsLate :
    (env : Env) (signal : Signal) (s : SignalState) (n : ℕ) (r : Round) (late : Type 0)
    (w : World env.broker.St)
    → late
    → IsFired env signal s r w
    → IsFired env signal s r w × StopsLate late r
late-StopsLate env signal s n (stop x) late w l fired = (fired, l)
late-StopsLate env signal s n (go x) late w l fired = (fired, tt)

Goes-StopsLate :
    (env : Env) (signal : Signal) (s p : SignalState) (n : ℕ) (r : Round) (late : Type 0)
    (w : World env.broker.St)
    → IsFired env signal s r w × Goes env signal p n [] r w
    → IsFired env signal s r w × StopsLate late r
Goes-StopsLate env signal s p n (stop x) late w (fired, goes) = absurd goes
Goes-StopsLate env signal s p n (go x) late w (fired, goes) = (fired, tt)

-- A fire in time does not stop the loop.
fire-StopsLate :
    (env : Env) (signal : Signal) (w1 : World env.broker.St)
    → IsPrivate env signal
    → orders w1.trace ≡ []
    → At env signal pending w1
    → let s = from_signal signal env.config in
      Post
        (λ r w'. IsFired env signal s r w' × StopsLate (IsLate env signal w1.ticks) r)
        (Stranded env signal)
        (fire env signal initial s w1)
unfolding from_signal
fire-StopsLate env signal w1 private none_yet at =
    let s = from_signal signal env.config in
    let late = IsLate env signal w1.ticks in
    let limit = signal.trigger_unix_initial + env.config.trigger_skew_tolerance_seconds in
    let lands =
      fire-IsFired env signal private initial s w1 (from_signal-IsCascade signal env.config) at
        refl in
    elim (Bool-cases (leb (env.clock w1.ticks) limit)) [
      | inl in_time ↦
          let (p, taken, h, is_st, _, _) =
            fire_places signal env.config (env.clock w1.ticks) (ground (arith, in_time)) in
          Post-weaken (Stranded env signal)
            (λ r w'. IsFired env signal s r w' × Goes env signal p (suc (suc w1.ticks)) [] r w')
            (λ r w'. IsFired env signal s r w' × StopsLate late r) (fire env signal initial s w1)
            (Post-and (Stranded env signal) (IsFired env signal s)
              (Goes env signal p (suc (suc w1.ticks)) []) (IsInsertRefusal signal)
              (fire env signal initial s w1) lands
              (fire-Goes env signal s p initial [] w1 refl taken (ap is_placed is_st) none_yet))
            (λ r w' both. Goes-StopsLate env signal s p (suc (suc w1.ticks)) r late w' both)
      | inr after ↦
          Post-weaken (Stranded env signal) (IsFired env signal s)
            (λ r w'. IsFired env signal s r w' × StopsLate late r) (fire env signal initial s w1)
            lands
            (λ r w' fired.
              late-StopsLate env signal s w1.ticks r late w' (ground (arith, after)) fired)
    ]

-- Where the broker refuses every order with BrokerAuthError, the cascade of a signal whose row is
-- pending or missing, and whose status other tasks leave alone, returns only where its fire reads the
-- clock later than the tolerance allows, and then in the state error. In every other case an exception
-- leaves it with the row in a placed status, not in error.
pub auth_error-Stranded :
    (env : Env) (signal : Signal) (w : World env.broker.St)
    → IsPrivate env signal
    → RefusesAll env
    → Shows signal.signal_id pending w.db
    → orders w.trace ≡ []
    → Post
        (λ s _. (s.state ≡ Status.error) × IsLate env signal (suc w.ticks))
        (Stranded env signal)
        (drive_cascade env signal 4 (from_signal signal env.config) w)
unfolding from_signal
auth_error-Stranded env signal w private refuses shows none_yet =
    first_round env signal private refuses (IsLate env signal (suc w.ticks)) 3
      (from_signal signal env.config) w (from_signal-IsCascade signal env.config) (shows, none_yet)
      refl
      (λ w1 e same at.
        subst
          (λ n.
            Post
              (λ r w'.
                IsFired env signal (from_signal signal env.config) r w'
                × StopsLate (IsLate env signal n) r)
              (Stranded env signal) (fire env signal initial (from_signal signal env.config) w1))
          e (fire-StopsLate env signal w1 private (same ∙ none_yet) at))
