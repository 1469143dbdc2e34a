-- ===== src/Scheduler/Unwon.antt =====
-- A cascade whose broker never reports a win never ends in done_win, and that of the MetaTrader 5
-- broker is one.
use telegram_olymptrade_sign.Prelude.{[], ℕ, zero, suc, ◌≡◌, ◌≢◌, inl, inr, Option-cases}
use telegram_olymptrade_sign.Config.{Time}
use telegram_olymptrade_sign.Domain.Gale.{Stage}
use telegram_olymptrade_sign.Domain.Signal.{Signal}
use telegram_olymptrade_sign.Domain.State.{
  pending, done_win, SignalState, StageResult, win, result_event, from_signal,
}
use telegram_olymptrade_sign.Notify.{on_pair_unavailable}
use telegram_olymptrade_sign.Broker.{
  Placed, Waited, reported, timed_out, failed, accepted, rejected, unsupported_pair, broker_auth,
  other_error,
}
use telegram_olymptrade_sign.Scheduler.World.{
  Env, World, Exec, Exception, Outcome, returned, raised, unfinished, ◌>>=◌, pure, notify, continue,
}
use telegram_olymptrade_sign.Scheduler.Triple.{Post, Post-bind}
use telegram_olymptrade_sign.Scheduler.Landing.{IsPrivate, Stranded, IsLanded}
use telegram_olymptrade_sign.Scheduler.Stages.{
  Round, stop, go, arm, fire, apply_error_transition, wait_for_stage_result,
  apply_result_and_finalize,
}
use telegram_olymptrade_sign.Scheduler.Supervisor.{
  record_placed, after_place, broker_place, place, place_if, round, after_round, drive_cascade,
}
use telegram_olymptrade_sign.Scheduler.NoWins.{
  NeverWins, transition-StaysUnwon, Raised, Keeps, Unwon, UnwonRound, fire-UnwonRound,
  error_applied-Unwon, result_applied-Unwon, record_placed-Keeps, wait_for_stage_result-no_win,
  notify-Keeps,
}
use telegram_olymptrade_sign.Scheduler.Shows.{orders, Shows}
use telegram_olymptrade_sign.Scheduler.Runs.{drive_cascade_lands}
use telegram_olymptrade_sign.Broker.Mt5.{Terminal, Mt5}
use telegram_olymptrade_sign.Broker.Mt5.Trading.{mt5_broker, wait_result}
use telegram_olymptrade_sign.Broker.Mt5.Flat.{
  IsFlat, IsMute, tied, late, refused, place-IsFlat, wait_result-IsMute,
}

module _ (env : Env) (signal : Signal) (Inv : env.broker.St → Type 0)
    (never : NeverWins env Inv) where
  abbrev Raised' : Exception → World env.broker.St → Type 0
  Raised' = Raised env signal Inv never

  abbrev Keeps' : {A : Type 0} → A → World env.broker.St → Type 0
  Keeps' = Keeps env signal Inv never

  abbrev Unwon' : SignalState → World env.broker.St → Type 0
  Unwon' = Unwon env signal Inv never

  abbrev UnwonRound' : Round → World env.broker.St → Type 0
  UnwonRound' = UnwonRound env signal Inv never

  after_place-UnwonRound :
      (s : SignalState) (stage : Stage) (amount : ℕ) (at : Time) (answer : Placed)
      (w : World env.broker.St)
      → Unwon' s w
      → Post UnwonRound' Raised' (after_place env signal s stage amount at answer w)
  unfolding after_place apply_error_transition apply_result_and_finalize
  after_place-UnwonRound s stage amount at (rejected broker_auth) w h = h.1
  after_place-UnwonRound s stage amount at (rejected other_error) w h = h.1
  after_place-UnwonRound s stage amount at (rejected (unsupported_pair m)) w h =
      Post-bind Raised' Keeps' UnwonRound' (notify env (on_pair_unavailable signal.pair m)) _ w
        (notify-Keeps env signal Inv never (on_pair_unavailable signal.pair m) w h.1)
        (λ _ w1 k1.
          Post-bind Raised' Unwon' UnwonRound'
            (apply_error_transition env signal s StageResult.error) (λ s'. pure (stop s')) w1
            (error_applied-Unwon env signal Inv never s _ _ _ (h.0, k1)
              (transition-StaysUnwon s (result_event StageResult.error (env.clock w1.ticks))
                env.config (λ e. cc)))
            (λ s' w2 u. u))
  after_place-UnwonRound s stage amount at (accepted id) w h =
      Post-bind Raised' Keeps' UnwonRound' (record_placed env signal s stage amount at id) _ w
        (record_placed-Keeps env signal Inv never s stage amount at id w h.1)
        (λ db_id w1 k1.
          Post-bind Raised' (λ r w'. (r ≢ win) × Inv w'.broker) UnwonRound'
            (wait_for_stage_result env signal id s) _ _
            (wait_for_stage_result-no_win env signal Inv never id s _ k1)
            (λ r w2 n.
              Post-bind Raised' Unwon' UnwonRound'
                (apply_result_and_finalize env signal s stage r amount db_id) (λ s'. pure (go s'))
                w2
                (result_applied-Unwon env signal Inv never s stage r amount db_id _ _ _ (h.0, n.1)
                  (transition-StaysUnwon s (result_event r (env.clock w2.ticks)) env.config n.0))
                (λ s' w3 u. u)))

  place-UnwonRound :
      (stage : Stage) (s : SignalState) (w : World env.broker.St)
      → Unwon' s w
      → Post UnwonRound' Raised' (place env signal stage s w)
  unfolding place broker_place
  place-UnwonRound stage s w h =
      after_place-UnwonRound s stage s.amount (env.clock w.ticks)
        (env.broker.place signal stage s.amount w.broker).0 _
        (h.0, never.0 signal stage s.amount w.broker h.1)

  place_if-UnwonRound :
      (stage : Stage) (r : Round) (w : World env.broker.St)
      → UnwonRound' r w
      → Post UnwonRound' Raised' (place_if env signal stage r w)
  unfolding place_if
  place_if-UnwonRound stage (stop s) w h = h
  place_if-UnwonRound stage (go s) w h = place-UnwonRound stage s w h

  round-UnwonRound :
      (stage : Stage) (s : SignalState) (w : World env.broker.St)
      → Unwon' s w
      → Post UnwonRound' Raised' (round env signal stage s w)
  unfolding round arm
  round-UnwonRound stage s w h =
      Post-bind Raised' Keeps' UnwonRound' (arm env signal stage)
        (λ _. fire env signal stage s >>= place_if env signal stage) w h.1
        (λ _ w1 k1.
          Post-bind Raised' UnwonRound' UnwonRound' (fire env signal stage s)
            (place_if env signal stage) w1
            (fire-UnwonRound env signal Inv never stage s w1 (h.0, k1))
            (λ r w2 u. place_if-UnwonRound stage r w2 u))

  -- The loop, whether or not its fuel is enough.
  abbrev Ends : Outcome SignalState × World env.broker.St → Type 0
  Ends (returned s, w) = s.state ≢ done_win
  Ends (raised e, w) = Unit
  Ends (unfinished, w) = Unit

  after_round-Ends :
      (rest : SignalState → Exec env.broker.St SignalState) (r : Outcome Round)
      (w : World env.broker.St)
      → Post UnwonRound' Raised' (r, w)
      → ((s : SignalState) (w' : World env.broker.St) → Unwon' s w' → Ends (rest s w'))
      → Ends (continue r (after_round env signal rest) w)
  unfolding after_round
  after_round-Ends rest (returned (stop s)) w h k = h.0
  after_round-Ends rest (returned (go s)) w h k = k s w h
  after_round-Ends rest (raised e) w h k = tt
  after_round-Ends rest unfinished w h k = absurd h

  drive_cascade-Ends :
      (fuel : ℕ) (s : SignalState) (w : World env.broker.St)
      → Unwon' s w
      → Ends (drive_cascade env signal fuel s w)
  unfolding drive_cascade
  drive_cascade-Ends zero s w h = tt
  drive_cascade-Ends (suc fuel) s w h = elim (Option-cases s.stage) [
    | inl e ↦ rw (drive_cascade, e) h.0
    | inr (stage, e) ↦
        rw (drive_cascade, e)
          (let (r, w') = round env signal stage s w in
            after_round-Ends (drive_cascade env signal fuel) r w' (round-UnwonRound stage s w h)
              (λ s' w2 u. drive_cascade-Ends fuel s' w2 u))
  ]

  and_Ends :
      (r : Outcome SignalState × World env.broker.St)
      → Post (IsLanded env signal) (Stranded env signal) r
      → Ends r
      → Post (λ s w. IsLanded env signal s w × (s.state ≢ done_win)) (Stranded env signal) r
  and_Ends (returned s, w) p e = (p, e)
  and_Ends (raised x, w) p e = p
  and_Ends (unfinished, w) p e = p

-- The cascade of a signal whose broker never reports a win, under the conditions under which every
-- cascade lands, does land or leave an exception, and it does not land in done_win.
no_wins_lands :
    (env : Env) (signal : Signal) (Inv : env.broker.St → Type 0) (w : World env.broker.St)
    → NeverWins env Inv
    → Inv w.broker
    → IsPrivate env signal
    → Shows signal.signal_id pending w.db
    → orders w.trace ≡ []
    → Post
        (λ s w'. IsLanded env signal s w' × (s.state ≢ done_win))
        (Stranded env signal)
        (drive_cascade env signal 4 (from_signal signal env.config) w)
unfolding from_signal
no_wins_lands env signal Inv w never inv private shows none_yet =
    and_Ends env signal Inv never (drive_cascade env signal 4 (from_signal signal env.config) w)
      (drive_cascade_lands env signal w private shows none_yet)
      (drive_cascade-Ends env signal Inv never 4 (from_signal signal env.config) w ((λ e. cc), inv))

-- The process with the MetaTrader 5 broker.
abbrev pub with_mt5 : Env → Terminal → Env
with_mt5 env T = record env { broker = mt5_broker T }

mute_no_win : (T : Terminal) (answer : Waited) → IsMute T answer → answer ≢ reported win
mute_no_win T (reported _) tied e = cc
mute_no_win T (reported _) late e = cc
mute_no_win T timed_out mute e = elim mute [ ]
mute_no_win T (failed _) refused e = cc

mt5-NeverWins : (env : Env) (T : Terminal) → NeverWins (with_mt5 env T) (IsFlat T)
mt5-NeverWins env T = (
  place-IsFlat T,
  λ id limit b h.
      let (mute, flat) = wait_result-IsMute T id limit b h in
      (mute_no_win T (wait_result T id limit b).0 mute, flat),
)

-- Whatever the terminal does, a cascade on the MetaTrader 5 broker whose remembered profits are all zero,
-- as they are on a new broker, of a signal whose row is pending or missing and whose status other tasks
-- leave alone, and that has given no order before, never lands in done_win: it lands in another
-- terminal state, or an exception leaves its row in a placed status.
pub mt5_cascade_never_wins :
    (env : Env) (T : Terminal) (signal : Signal) (w : World (Mt5 T.St))
    → IsFlat T w.broker
    → IsPrivate (with_mt5 env T) signal
    → Shows signal.signal_id pending w.db
    → orders w.trace ≡ []
    → Post
        (λ s w'. IsLanded (with_mt5 env T) signal s w' × (s.state ≢ done_win))
        (Stranded (with_mt5 env T) signal)
        (drive_cascade (with_mt5 env T) signal 4 (from_signal signal env.config) w)
mt5_cascade_never_wins env T signal w flat private shows none_yet =
    no_wins_lands (with_mt5 env T) signal (IsFlat T) w (mt5-NeverWins env T) flat private shows
      none_yet
