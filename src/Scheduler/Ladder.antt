-- ===== src/Scheduler/Ladder.antt =====
-- How the orders of a cascade grow with its status.
use telegram_olymptrade_sign.Prelude.{
  ℕ, ◌≤◌, ◌<◌, ◌≡◌, ◌⊎◌, true, false, Option, none, some, String, List, [], ◌∷◌, arith,
}
use telegram_olymptrade_sign.Config.{Config, Time}
use telegram_olymptrade_sign.Domain.Gale.{Stage, initial, gale1, gale2}
use telegram_olymptrade_sign.Domain.Signal.{Signal}
use telegram_olymptrade_sign.Domain.State.{
  Status, pending, placed_initial, placed_gale1, placed_gale2, done_win, done_loss, done_tie,
  SignalState, StageResult, Event, fire_event, result_event, transition, is_terminal, is_placed,
}
use telegram_olymptrade_sign.Domain.State.Invariant.{IsCascade, stage_of, stake}
use telegram_olymptrade_sign.Domain.State.Steps.{transition_accepts, may_follow, takes}
use telegram_olymptrade_sign.Scheduler.World.{World}
use telegram_olymptrade_sign.Scheduler.Limits.{status_is_error, successful, status_is_pending}
use telegram_olymptrade_sign.Scheduler.Shows.{orders, Shows}

-- How many rounds of the loop a status still has before it.
abbrev pub rounds_left : Status → ℕ
rounds_left pending = 3
rounds_left placed_initial = 3
rounds_left placed_gale1 = 2
rounds_left placed_gale2 = 1
rounds_left _ = 0

pub follows-rounds_left :
    (p q : Status)
    → may_follow p q ≡ true
    → (is_placed p ≡ true → rounds_left q < rounds_left p) × (rounds_left q ≤ rounds_left p)
follows-rounds_left p q h = (ground arith, ground arith)

-- The stakes of the stages before and up to each one, the last one first.
abbrev pub ladder1 : Config → List (Stage × ℕ)
ladder1 c = (initial, c.amount_initial) ∷ []

abbrev pub ladder2 : Config → List (Stage × ℕ)
ladder2 c = (gale1, c.amount_gale1) ∷ ladder1 c

abbrev pub ladder3 : Config → List (Stage × ℕ)
ladder3 c = (gale2, c.amount_gale2) ∷ ladder2 c

abbrev pub IsLadder : Config → List (Stage × ℕ) → Type 0
IsLadder c os = (os ≡ []) ⊎ (os ≡ ladder1 c) ⊎ (os ≡ ladder2 c) ⊎ (os ≡ ladder3 c)

-- The orders given when a round begins in a status, and those at its end.
abbrev pub OrdersAt : Config → Status → List (Stage × ℕ) → Type 0
OrdersAt c pending os = os ≡ []
OrdersAt c placed_initial os = os ≡ []
OrdersAt c placed_gale1 os = os ≡ ladder1 c
OrdersAt c placed_gale2 os = os ≡ ladder2 c
OrdersAt c done_loss os = os ≡ ladder3 c
OrdersAt c done_win os = (os ≡ ladder1 c) ⊎ (os ≡ ladder2 c) ⊎ (os ≡ ladder3 c)
OrdersAt c done_tie os = ⊥
OrdersAt c Status.error os = IsLadder c os

-- The status and the orders that a world shows.
abbrev pub Stands : {B : Type 0} → Config → String → Status → World B → Type 0
Stands c id st w = Shows id st w.db × OrdersAt c st (orders w.trace)

pub status_is_error_lem : (st : Status) → status_is_error st ≡ true → st ≡ Status.error
status_is_error_lem st h = ground arith

-- What a taken event leads to.
abbrev pub IsNext : Signal → Config → SignalState → Option SignalState → Type 0
IsNext signal c s none = ⊥
IsNext signal c s (some s') = (may_follow s.state s'.state ≡ true) × IsCascade signal c s'

pub transition-IsNext :
    (signal : Signal) (c : Config) (s : SignalState) (e : Event)
    → IsCascade signal c s
    → takes s.state e ≡ true
    → IsNext signal c s (successful (transition s e c))
transition-IsNext signal c s e h t =
    let (s', succeeds, new, follows, h') = transition_accepts signal c s e h t in
    rw (succeeds, successful) (rw (new, IsNext) (follows, h'))

pub pending-next :
    (c : Config) (st : Status) (os : List (Stage × ℕ))
    → may_follow pending st ≡ true
    → os ≡ []
    → OrdersAt c st os
      × (status_is_error st ≡ false → (is_placed st ≡ true) × (stage_of st ≡ some initial))
pending-next c st os f e = ground arith

pub pending-eq : (st : Status) → status_is_pending st ≡ true → st ≡ pending
pending-eq st h = ground arith

pub pending-takes :
    (st : Status) (now : Time) → status_is_pending st ≡ true → takes st (fire_event now) ≡ true
pending-takes st now h = ground arith

pub placed-takes :
    (st : Status) (r : StageResult) (now : Time)
    → is_placed st ≡ true
    → takes st (result_event r now) ≡ true
placed-takes st r now h = ground arith

pub placed_of_stage :
    (st : Status) (stage : Stage)
    → stage_of st ≡ some stage
    → status_is_pending st ≡ false
    → is_placed st ≡ true
placed_of_stage st stage e h = ground arith

-- The orders once the order of a placed status is given.
abbrev pub OrdersAfter : Config → Status → List (Stage × ℕ) → Type 0
OrdersAfter c placed_initial os = os ≡ ladder1 c
OrdersAfter c placed_gale1 os = os ≡ ladder2 c
OrdersAfter c placed_gale2 os = os ≡ ladder3 c
OrdersAfter c _ os = ⊥

pub OrdersAfter-order :
    (c : Config) (st : Status) (stage : Stage) (amount : ℕ) (os : List (Stage × ℕ))
    → is_placed st ≡ true
    → stage_of st ≡ some stage
    → amount ≡ stake c st
    → OrdersAt c st os
    → OrdersAfter c st ((stage, amount) ∷ os)
OrdersAfter-order c st stage amount os p e a h = ground arith

pub OrdersAfter-next :
    (c : Config) (st st' : Status) (os : List (Stage × ℕ))
    → OrdersAfter c st os
    → may_follow st st' ≡ true
    → OrdersAt c st' os
OrdersAfter-next c st st' os h f = ground arith

pub OrdersAfter-IsLadder :
    (c : Config) (st : Status) (os : List (Stage × ℕ)) → OrdersAfter c st os → IsLadder c os
OrdersAfter-IsLadder c st os h = ground arith

pub error_result_state :
    (s : SignalState) (c : Config) (now : Time)
    → is_placed s.state ≡ true
    → (s' : SignalState)
    → successful (transition s (result_event StageResult.error now) c) ≡ some s'
    → s'.state ≡ Status.error
unfolding transition
error_result_state s c now p s' e = ground arith

pub no_stage_terminal : (st : Status) → stage_of st ≡ none → is_terminal st ≡ true
no_stage_terminal st h = ground arith
