-- ===== src/Domain/State/Invariant.antt =====
-- What holds of every state that a cascade of domain/state.py can be in: the agreement of status,
-- stage, stake, profit and error reason.
use telegram_olymptrade_sign.Prelude.{
  ℕ, ◌+◌, ◌*◌, ◌≡◌, ◌⊎◌, Bool, true, false, Option, none, some, arith,
}
use telegram_olymptrade_sign.Prelude.Int.{ℤ, pos, neg_ℕ, sub_ℕ}
use telegram_olymptrade_sign.Config.{Config}
use telegram_olymptrade_sign.Domain.Gale.{Stage, initial, gale1, gale2}
use telegram_olymptrade_sign.Domain.Signal.{Signal}
use telegram_olymptrade_sign.Domain.State.{
  Status, pending, placed_initial, placed_gale1, placed_gale2, done_win, done_loss, done_tie,
  SignalState, ErrorReason, Event, from_signal, transition,
}

-- The stage that a status stands for.
abbrev pub stage_of : Status → Option Stage
stage_of pending = some initial
stage_of placed_initial = some initial
stage_of placed_gale1 = some gale1
stage_of placed_gale2 = some gale2
stage_of _ = none

-- The stake at a status.
abbrev pub stake : Config → Status → ℕ
stake c pending = c.amount_initial
stake c placed_initial = c.amount_initial
stake c placed_gale1 = c.amount_gale1
stake c placed_gale2 = c.amount_gale2
stake c _ = 0

-- The stakes lost before each stage, and in a full loss, in cents.
abbrev pub lost1 : Config → ℕ
lost1 c = c.amount_initial

abbrev pub lost2 : Config → ℕ
lost2 c = c.amount_initial + c.amount_gale1

abbrev pub lost3 : Config → ℕ
lost3 c = c.amount_initial + c.amount_gale1 + c.amount_gale2

-- The profit at a status, in hundredths of a cent: nothing before the first result, then the
-- stakes lost so far, and 92 % of the last stake less the stakes before it after a win.
abbrev pub IsPnl : Config → Status → ℤ → Type 0
IsPnl c pending p = p ≡ pos 0
IsPnl c placed_initial p = p ≡ pos 0
IsPnl c placed_gale1 p = p ≡ neg_ℕ (lost1 c * 100)
IsPnl c placed_gale2 p = p ≡ neg_ℕ (lost2 c * 100)
IsPnl c done_win p =
    (p ≡ pos (c.amount_initial * 92))
    ⊎ (p ≡ sub_ℕ (c.amount_gale1 * 92) (lost1 c * 100))
    ⊎ (p ≡ sub_ℕ (c.amount_gale2 * 92) (lost2 c * 100))
IsPnl c done_loss p = p ≡ neg_ℕ (lost3 c * 100)
IsPnl c done_tie p = ⊥
IsPnl c Status.error p = (p ≡ pos 0) ⊎ (p ≡ neg_ℕ (lost1 c * 100)) ⊎ (p ≡ neg_ℕ (lost2 c * 100))

abbrev pub is_error : Status → Bool
is_error Status.error = true
is_error _ = false

abbrev pub has_reason : Option ErrorReason → Bool
has_reason none = false
has_reason (some _) = true

-- The states of the cascade of `signal` under `c`.
pub record IsCascade (signal : Signal) (c : Config) (s : SignalState) : Type 0 where
  pub same_id : s.signal_id ≡ signal.signal_id
  pub same_pair : s.pair ≡ signal.pair
  pub same_direction : s.direction ≡ signal.direction
  pub stage_fits : s.stage ≡ stage_of s.state
  pub stake_fits : s.amount ≡ stake c s.state
  pub pnl_fits : IsPnl c s.state s.cumulative_pnl
  pub reason_fits : has_reason s.error_reason ≡ is_error s.state

pub from_signal-IsCascade :
    (signal : Signal) (c : Config) → IsCascade signal c (from_signal signal c)
unfolding from_signal
from_signal-IsCascade signal c = ground arith

pub transition-IsCascade :
    (signal : Signal) (c : Config) (s s' : SignalState) (e : Event)
    → IsCascade signal c s
    → (transition s e c).new_state ≡ some s'
    → IsCascade signal c s'
unfolding transition
transition-IsCascade signal c s s' e h t = ground arith
