-- ===== src/Domain/State/Windows.antt =====
-- The times of domain/state.py: when a stage may still be placed, and where the fixed five minutes
-- of `_to_placed` meet the trigger times that domain/gale.py computes.
use telegram_olymptrade_sign.Prelude.{
  ◌+◌, ◌≤◌, ◌<◌, ◌≡◌, ◌≢◌, ◌↔◌, Bool, true, none, some, List, [], ◌∷◌, arith, ltb, if◌then◌else◌,
}
use telegram_olymptrade_sign.Config.{Config, Time, seconds}
use telegram_olymptrade_sign.Domain.Gale.{compute_gale_triggers}
use telegram_olymptrade_sign.Domain.Signal.{Signal}
use telegram_olymptrade_sign.Domain.State.{
  Status, pending, placed_initial, placed_gale1, placed_gale2, done_loss, StageResult,
  signal_expired, SignalState, Event, result_event, is_loss, from_signal, transition,
}
use telegram_olymptrade_sign.Domain.State.Invariant.{IsCascade, stage_of}
use telegram_olymptrade_sign.Domain.State.Steps.{next, run}

-- The trigger of each stage as the state machine keeps it: five minutes apart.
abbrev pub FiveMinutesApart : Signal → Status → Time → Type 0
FiveMinutesApart signal placed_gale1 t = t ≡ signal.trigger_unix_initial + seconds 300
FiveMinutesApart signal placed_gale2 t = t ≡ signal.trigger_unix_initial + seconds 600
FiveMinutesApart signal pending t = t ≡ signal.trigger_unix_initial
FiveMinutesApart signal placed_initial t = t ≡ signal.trigger_unix_initial
FiveMinutesApart signal _ t = Unit

abbrev pub IsTimed : Signal → SignalState → Type 0
IsTimed signal s = (s.stage ≡ stage_of s.state) × FiveMinutesApart signal s.state s.trigger_unix

next-IsTimed :
    (signal : Signal) (c : Config) (s : SignalState) (e : Event)
    → IsTimed signal s
    → IsTimed signal (next c s e)
unfolding transition
next-IsTimed signal c s e h = ground arith

run_from-IsTimed :
    (signal : Signal) (c : Config) (s : SignalState) (es : List Event)
    → IsTimed signal s
    → IsTimed signal (run c s es)
unfolding run
run_from-IsTimed signal c s [] h = h
run_from-IsTimed signal c s (e ∷ es) h =
    run_from-IsTimed signal c (next c s e) es (next-IsTimed signal c s e h)

pub run-IsTimed :
    (signal : Signal) (c : Config) (es : List Event)
    → IsTimed signal (run c (from_signal signal c) es)
unfolding from_signal
run-IsTimed signal c es = run_from-IsTimed signal c (from_signal signal c) es (ground arith)

-- In every reachable first gale, the trigger time of the state is the one that
-- `compute_gale_triggers` gives for the signal exactly if the signal expires after 300 seconds; and
-- in every reachable second gale likewise.
gale_triggers_agree :
    (signal : Signal) (c : Config) (es : List Event)
    → let s = run c (from_signal signal c) es in
      let (g1, g2) = compute_gale_triggers signal.trigger_unix_initial signal.expiration_seconds in
      (s.state ≡ placed_gale1 → (s.trigger_unix ≡ g1) ↔ (signal.expiration_seconds ≡ 300))
      × (s.state ≡ placed_gale2 → (s.trigger_unix ≡ g2) ↔ (signal.expiration_seconds ≡ 300))
unfolding compute_gale_triggers
gale_triggers_agree signal c es = ground (arith, run-IsTimed signal c es)

-- The state that a lost stage leads to, by the moment at which the loss is known.
abbrev pub after_loss : Bool → Status → Status
after_loss late placed_initial = if late then Status.error else placed_gale1
after_loss late placed_gale1 = if late then Status.error else placed_gale2
after_loss late _ = done_loss

-- A loss, tie or timeout of a placed stage leads to the next stage, five minutes after the trigger of
-- this one, unless it is known later than that and the tolerance: then the cascade ends in error
-- with the reason signal_expired. After the second gale the cascade is lost at any time.
pub late_loss_expires :
    (signal : Signal) (c : Config) (s s' : SignalState) (r : StageResult) (now : Time)
    → IsCascade signal c s
    → is_loss r ≡ true
    → (transition s (result_event r now) c).new_state ≡ some s'
    → let late = ltb (s.trigger_unix + seconds 300 + c.trigger_skew_tolerance_seconds) now in
      (s'.state ≡ after_loss late s.state)
      × (s'.state ≡ Status.error → s'.error_reason ≡ some signal_expired)
      × (s'.stage ≢ none
          → (s'.trigger_unix ≡ s.trigger_unix + seconds 300)
            × (s'.expires_at_unix ≡ s'.trigger_unix + seconds 300))
unfolding transition
late_loss_expires signal c s s' r now h l t = ground arith

-- While the tolerance is at most 30 seconds, a stage result that arrives more than 330 seconds after
-- the trigger of its stage never leads to another stage.
timeout_never_advances :
    (signal : Signal) (c : Config) (s s' : SignalState) (r : StageResult) (now : Time)
    → IsCascade signal c s
    → c.trigger_skew_tolerance_seconds ≤ seconds 30
    → s.trigger_unix + seconds 330 < now
    → (transition s (result_event r now) c).new_state ≡ some s'
    → s'.stage ≡ none
unfolding transition
timeout_never_advances signal c s s' r now h tol late t = ground arith
