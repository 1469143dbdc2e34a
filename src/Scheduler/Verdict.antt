-- ===== src/Scheduler/Verdict.antt =====
-- What the results of the stages make of a cascade that keeps to its times: the reference that
-- `_drive_cascade` is compared with.
use telegram_olymptrade_sign.Prelude.{
  ℕ, ◌+◌, ◌≡◌, ◌≢◌, refl, true, Option, none, some, ◌≤◌, false, arith, String, List, [], ◌∷◌,
  if◌then◌else◌,
}
use telegram_olymptrade_sign.Prelude.Int.{ℤ, pos, ◌+ℤ◌}
use telegram_olymptrade_sign.Config.{Config, Time, seconds}
use telegram_olymptrade_sign.Domain.Gale.{Stage, initial, gale1, gale2}
use telegram_olymptrade_sign.Domain.Signal.{Signal}
use telegram_olymptrade_sign.Domain.State.{
  Status, placed_gale2, done_win, done_loss, StageResult, win, is_loss, stage_pnl, SignalState,
  result_event, transition, is_placed,
}
use telegram_olymptrade_sign.Domain.State.Invariant.{IsCascade}
use telegram_olymptrade_sign.Domain.State.Steps.{transition_accepts}
use telegram_olymptrade_sign.Domain.State.Windows.{after_loss}
use telegram_olymptrade_sign.Scheduler.Limits.{successful}
use telegram_olymptrade_sign.Broker.{accepted}
use telegram_olymptrade_sign.Store.Rows.{Db}
use telegram_olymptrade_sign.Store.Statements.{
  get_signal, record_stage_placed, Placing, inserted, already_exists, no_such_signal,
}
use telegram_olymptrade_sign.Store.Stages.{find_stage}
use telegram_olymptrade_sign.Scheduler.World.{
  Env, World, Exception, stage_already_exists, foreign_key_violation,
}
use telegram_olymptrade_sign.Scheduler.Stages.{stage_result_of}
use telegram_olymptrade_sign.Scheduler.Ladder.{placed-takes, ladder1, ladder2, ladder3}

-- A won stage wins the cascade, a failed one ends it in error, any other leaves it to what follows.
abbrev pub ended : StageResult → Status → Status
ended win next = done_win
ended StageResult.error next = Status.error
ended _ next = next

-- The end of a cascade by the results of its stages.
abbrev pub verdict : (Stage → StageResult) → Status
verdict results = ended (results initial) (ended (results gale1) (ended (results gale2) done_loss))

-- The orders of a cascade by the results of its stages: the next one is given after a loss.
abbrev pub staked : (Stage → StageResult) → Config → List (Stage × ℕ)
staked results c =
    if is_loss (results initial)
    then (if is_loss (results gale1) then ladder3 c else ladder2 c)
    else ladder1 c

-- What the orders have brought, the last one first.
unfoldable pub total : (Stage → StageResult) → List (Stage × ℕ) → ℤ
unfolding stage_pnl ◌+ℤ◌
total results [] = pos 0
total results ((stage, amount) ∷ os) = total results os +ℤ stage_pnl amount (results stage)

-- The broker accepts the orders of the signal, and its wait for an accepted one comes to the result
-- of the stage.
abbrev pub Answers : Env → Signal → (Stage → StageResult) → Type 0
Answers env signal results =
    (stage : Stage) (amount : ℕ) (b : env.broker.St)
    → let (answer, b') = env.broker.place signal stage amount b in
      (id : String) × (answer ≡ accepted id)
      × ((limit : Time)
          → stage_result_of env signal (env.broker.wait_result id limit b').0 ≡ results stage)

-- An INSERT into `stages` was refused, for the key is in the table or the row of the signal is not.
abbrev pub IsInsertRefusal : {B : Type 0} → Signal → Exception → World B → Type 0
IsInsertRefusal signal (stage_already_exists id) w = find_stage id w.db ≢ none
IsInsertRefusal signal (foreign_key_violation id) w =
    (id ≡ signal.signal_id) × (get_signal id w.db ≡ none)
IsInsertRefusal signal _ w = ⊥

abbrev pub IsRefusal : Signal → Db → Placing → Type 0
IsRefusal signal db (inserted id) = Unit
IsRefusal signal db (already_exists id) = find_stage id db ≢ none
IsRefusal signal db (no_such_signal id) = (id ≡ signal.signal_id) × (get_signal id db ≡ none)

pub record_stage_placed-IsRefusal :
    (sha1_hex : String → String) (signal : Signal) (stage : Stage) (amount : ℕ) (at until : Time)
    (broker_id : Option String) (db : Db)
    → IsRefusal signal db
        (record_stage_placed sha1_hex signal.signal_id stage signal.pair signal.direction amount at
          until broker_id db).0
unfolding record_stage_placed
record_stage_placed-IsRefusal sha1_hex signal stage amount at until broker_id db = ground arith

module _ (signal : Signal) (c : Config) where
  result_pnl :
      (s t : SignalState) (r : StageResult) (now : Time)
      → is_placed s.state ≡ true
      → (transition s (result_event r now) c).new_state ≡ some t
      → t.cumulative_pnl ≡ s.cumulative_pnl +ℤ stage_pnl s.amount r
  unfolding transition stage_pnl ◌+ℤ◌
  result_pnl s t r now p new = ground arith

  result_state :
      (s t : SignalState) (r : StageResult) (now : Time)
      → IsCascade signal c s
      → is_placed s.state ≡ true
      → (is_loss r ≡ true
          → s.state ≢ placed_gale2
          → now ≤ s.trigger_unix + seconds 300 + c.trigger_skew_tolerance_seconds)
      → (transition s (result_event r now) c).new_state ≡ some t
      → (t.state ≡ ended r (after_loss false s.state))
        × (t.stage ≢ none → t.trigger_unix ≡ s.trigger_unix + seconds 300)
  unfolding transition
  result_state s t r now h p le new = ground arith

  -- What a result makes of a placed stage, where a loss with a stage after it is known in time.
  pub result_taken :
      (s : SignalState) (r : StageResult) (now : Time)
      → IsCascade signal c s
      → is_placed s.state ≡ true
      → (is_loss r ≡ true
          → s.state ≢ placed_gale2
          → now ≤ s.trigger_unix + seconds 300 + c.trigger_skew_tolerance_seconds)
      → (t : SignalState) × (successful (transition s (result_event r now) c) ≡ some t)
        × IsCascade signal c t
        × (t.cumulative_pnl ≡ s.cumulative_pnl +ℤ stage_pnl s.amount r)
        × (t.state ≡ ended r (after_loss false s.state))
        × (t.stage ≢ none → t.trigger_unix ≡ s.trigger_unix + seconds 300)
  result_taken s r now h p le =
      let (t, succeeds, new, follows, h') =
        transition_accepts signal c s (result_event r now) h (placed-takes s.state r now p) in
      let (st, trig) = result_state s t r now h p le new in
      (t, rw (succeeds, new, successful) refl, h', result_pnl s t r now p new, st, trig)
