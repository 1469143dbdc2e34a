-- ===== src/Domain/State.antt =====
-- domain/state.py: the state machine of one cascade, a pure function of state, event and config.
pub mod Invariant
pub mod Steps
pub mod Windows
use telegram_olymptrade_sign.Prelude.{
  ℕ, ◌+◌, ◌*◌, Bool, true, false, Option, none, some, String, ltb, if◌then◌else◌,
}
use telegram_olymptrade_sign.Prelude.Int.{ℤ, pos, neg_ℕ, ◌+ℤ◌}
use telegram_olymptrade_sign.Config.{Config, Time, seconds}
use telegram_olymptrade_sign.Domain.Gale.{Stage, initial, gale1, gale2, amount_for_stage}
use telegram_olymptrade_sign.Domain.Signal.{Signal, Direction}

-- `AllStates`: the first four are in flight, the others terminal.
pub data Status : Type 0 where
  pending placed_initial placed_gale1 placed_gale2 : Status
  done_win done_loss done_tie error : Status

pub data StageResult : Type 0 where
  win loss tie timeout error : StageResult

pub data ErrorReason : Type 0 where
  signal_expired broker_unavailable daily_limit_hit unknown : ErrorReason

pub data Event : Type 0 where
  fire_event : Time → Event
  result_event : StageResult → Time → Event

pub record SignalState : Type 0 where
  pub signal_id : String
  pub pair : String
  pub direction : Direction
  pub state : Status
  pub stage : Option Stage
  pub amount : ℕ
  pub trigger_unix : Time
  pub expires_at_unix : Time
  pub result : Option StageResult
  pub cumulative_pnl : ℤ
  pub error_reason : Option ErrorReason

unfoldable pub from_signal : Signal → Config → SignalState
unfolding amount_for_stage
from_signal signal config = record {
  signal_id = signal.signal_id;
  pair = signal.pair;
  direction = signal.direction;
  state = pending;
  stage = some initial;
  amount = amount_for_stage initial config;
  trigger_unix = signal.trigger_unix_initial;
  expires_at_unix = signal.trigger_unix_initial + seconds signal.expiration_seconds;
  result = none;
  cumulative_pnl = pos 0;
  error_reason = none;
}

-- The messages of a refused transition, by kind and with the values that they quote.
pub data Reason : Type 0 where
  state_is_terminal : Status → Event → Reason
  fire_on_placed : Status → Reason
  fire_on_pending_stage : Option Stage → Reason
  result_on_non_placed : Status → Reason

pub record TransitionResult : Type 0 where
  pub success : Bool
  pub new_state : Option SignalState
  pub reason : Option Reason

abbrev succeed : SignalState → TransitionResult
succeed s = record { success = true; new_state = some s; reason = none }

abbrev refuse : Reason → TransitionResult
refuse r = record { success = false; new_state = none; reason = some r }

abbrev pub is_terminal : Status → Bool
is_terminal done_win = true
is_terminal done_loss = true
is_terminal done_tie = true
is_terminal Status.error = true
is_terminal _ = false

abbrev pub is_placed : Status → Bool
is_placed placed_initial = true
is_placed placed_gale1 = true
is_placed placed_gale2 = true
is_placed _ = false

-- `result in {"loss", "tie", "timeout"}`
abbrev pub is_loss : StageResult → Bool
is_loss loss = true
is_loss tie = true
is_loss timeout = true
is_loss _ = false

-- The time window of the current stage has passed.
check_time_window : SignalState → Time → Time → Bool
check_time_window state now_unix tolerance = ltb (state.trigger_unix + tolerance) now_unix

-- The profit or loss of one stage: 92 % of the stake, or the stake.
unfoldable pub stage_pnl : ℕ → StageResult → ℤ
stage_pnl amount win = pos (amount * 92)
stage_pnl amount loss = neg_ℕ (amount * 100)
stage_pnl amount tie = neg_ℕ (amount * 100)
stage_pnl amount timeout = neg_ℕ (amount * 100)
stage_pnl amount StageResult.error = pos 0

-- The literal `f"placed_{next_stage}"`.
abbrev pub placed_of : Stage → Status
placed_of initial = placed_initial
placed_of gale1 = placed_gale1
placed_of gale2 = placed_gale2

to_placed : SignalState → Stage → StageResult → ℤ → Config → SignalState
unfolding amount_for_stage
to_placed state next_stage result cumulative config =
    let trigger_unix = state.trigger_unix + seconds (5 * 60) in
    record {
      signal_id = state.signal_id;
      pair = state.pair;
      direction = state.direction;
      state = placed_of next_stage;
      stage = some next_stage;
      amount = amount_for_stage next_stage config;
      trigger_unix = trigger_unix;
      expires_at_unix = trigger_unix + seconds (5 * 60);
      result = some result;
      cumulative_pnl = cumulative;
      error_reason = none;
    }

next_stage_trigger_unix : SignalState → Time
next_stage_trigger_unix state = elim state.stage [
  | none ↦ state.trigger_unix
  | some initial ↦ state.trigger_unix + seconds (5 * 60)
  | some gale1 ↦ state.trigger_unix + seconds (5 * 60)
  | some gale2 ↦ state.trigger_unix
]

to_terminal : SignalState → Status → StageResult → ℤ → SignalState
to_terminal state terminal result cumulative = record state {
  state = terminal;
  stage = none;
  amount = 0;
  result = some result;
  cumulative_pnl = cumulative;
  error_reason = none;
}

to_error : SignalState → ErrorReason → Option StageResult → ℤ → SignalState
to_error state reason result cumulative = record state {
  state = Status.error;
  stage = none;
  amount = 0;
  result = result;
  cumulative_pnl = cumulative;
  error_reason = some reason;
}

-- The branch of a lost, tied or timed-out stage.
advance_after_loss : SignalState → StageResult → Time → Config → ℤ → SignalState
unfolding to_placed to_terminal to_error next_stage_trigger_unix
advance_after_loss state result now_unix config cumulative =
    let expired =
      ltb (next_stage_trigger_unix state + config.trigger_skew_tolerance_seconds) now_unix in
    elim state.stage [
      | some gale2 ↦ to_terminal state done_loss result cumulative
      | some initial ↦
          if expired
          then to_error state signal_expired (some result) cumulative
          else to_placed state gale1 result cumulative config
      | some gale1 ↦
          if expired
          then to_error state signal_expired (some result) cumulative
          else to_placed state gale2 result cumulative config
      | none ↦
          if expired
          then to_error state signal_expired (some result) cumulative
          else to_error state unknown (some result) cumulative
    ]

finish_stage : StageResult → SignalState → Time → Config → ℤ → SignalState
unfolding advance_after_loss to_terminal to_error
finish_stage win state now_unix config cumulative = to_terminal state done_win win cumulative
finish_stage StageResult.error state now_unix config cumulative =
    to_error state broker_unavailable (some StageResult.error) cumulative
finish_stage lost state now_unix config cumulative =
    advance_after_loss state lost now_unix config cumulative

advance_after_result : SignalState → StageResult → Time → Config → SignalState
unfolding finish_stage stage_pnl ◌+ℤ◌
advance_after_result state result now_unix config =
    let cumulative = state.cumulative_pnl +ℤ stage_pnl state.amount result in
    finish_stage result state now_unix config cumulative

-- The fire of a pending state.
fire_pending : SignalState → Time → Config → TransitionResult
unfolding check_time_window to_error
fire_pending state now_unix config =
    if check_time_window state now_unix config.trigger_skew_tolerance_seconds
    then succeed (to_error state signal_expired none state.cumulative_pnl)
    else elim state.stage [
      | some initial ↦ succeed (record state {
        state = placed_initial;
        stage = some initial;
        result = none;
        error_reason = none;
      })
      | other ↦ refuse (fire_on_pending_stage other)
    ]

dispatch : Status → SignalState → Event → Config → TransitionResult
unfolding fire_pending advance_after_result
dispatch done_win state event config = refuse (state_is_terminal done_win event)
dispatch done_loss state event config = refuse (state_is_terminal done_loss event)
dispatch done_tie state event config = refuse (state_is_terminal done_tie event)
dispatch Status.error state event config = refuse (state_is_terminal Status.error event)
dispatch pending state (fire_event now) config = fire_pending state now config
dispatch placed state (fire_event now) config = refuse (fire_on_placed placed)
dispatch pending state (result_event r now) config = refuse (result_on_non_placed pending)
dispatch placed state (result_event r now) config =
    succeed (advance_after_result state r now config)

unfoldable pub transition : SignalState → Event → Config → TransitionResult
unfolding dispatch
transition state event config = dispatch state.state state event config
