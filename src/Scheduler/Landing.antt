-- ===== src/Scheduler/Landing.antt =====
-- What a world shows before, between and after the parts of one round of `_drive_cascade`.
use telegram_olymptrade_sign.Prelude.{ℕ, ◌≤◌, ◌<◌, ◌≡◌, true}
use telegram_olymptrade_sign.Domain.Signal.{Signal}
use telegram_olymptrade_sign.Domain.State.{Status, SignalState, is_terminal, is_placed}
use telegram_olymptrade_sign.Domain.State.Invariant.{IsCascade}
use telegram_olymptrade_sign.Domain.State.Steps.{may_follow}
use telegram_olymptrade_sign.Store.Rows.{Db}
use telegram_olymptrade_sign.Scheduler.World.{Env, World, Exception}
use telegram_olymptrade_sign.Scheduler.Stages.{Round, stop, go}
use telegram_olymptrade_sign.Scheduler.Shows.{orders, status_in, Shows}
use telegram_olymptrade_sign.Scheduler.Ladder.{rounds_left, IsLadder, Stands, OrdersAfter}

-- Other tasks leave the status of the signal alone.
abbrev pub IsPrivate : Env → Signal → Type 0
IsPrivate env signal =
    (k : ℕ) (db : Db) → status_in signal.signal_id (env.others k db) ≡ status_in signal.signal_id db

module _ (env : Env) (signal : Signal) where
  abbrev pub W : Type 0
  W = World env.broker.St

  abbrev pub At : Status → W → Type 0
  At st w = Stands env.config signal.signal_id st w

  -- An exception leaves the signal in a placed status, after a part of the ladder.
  abbrev pub Stranded : Exception → W → Type 0
  Stranded e w =
      ((st : Status) × (is_placed st ≡ true) × Shows signal.signal_id st w.db)
      × IsLadder env.config (orders w.trace)

  abbrev pub IsFired : SignalState → Round → W → Type 0
  IsFired s (stop s') w = IsCascade signal env.config s' × At s'.state w × (s'.state ≡ Status.error)
  IsFired s (go s') w =
      IsCascade signal env.config s'
      × At s'.state w
      × (is_placed s'.state ≡ true)
      × (s'.stage ≡ s.stage)
      × (rounds_left s'.state ≤ rounds_left s.state)

  -- After the order of a placed status.
  abbrev pub Mid : Status → W → Type 0
  Mid st w = Shows signal.signal_id st w.db × OrdersAfter env.config st (orders w.trace)

  -- What a result leads to.
  abbrev pub IsApplied : SignalState → SignalState → W → Type 0
  IsApplied s s' w =
      IsCascade signal env.config s' × At s'.state w × (may_follow s.state s'.state ≡ true)

  -- What an error leads to.
  abbrev pub IsFailed : SignalState → SignalState → W → Type 0
  IsFailed s s' w = IsCascade signal env.config s' × At s'.state w × (s'.state ≡ Status.error)

  -- A round leads to the next status of the loop, or out of it.
  abbrev pub IsRound : SignalState → Round → W → Type 0
  IsRound s (stop s') w =
      IsCascade signal env.config s' × At s'.state w × (is_terminal s'.state ≡ true)
  IsRound s (go s') w =
      IsCascade signal env.config s' × At s'.state w × (rounds_left s'.state < rounds_left s.state)

  -- The end of the loop.
  abbrev pub IsLanded : SignalState → W → Type 0
  IsLanded s w = IsCascade signal env.config s × At s.state w × (is_terminal s.state ≡ true)
