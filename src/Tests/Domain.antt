-- ===== src/Tests/Domain.antt =====
-- The theorems on domain/state.py at sample cascades.
use telegram_olymptrade_sign.Prelude.{
  ◌+◌, ◌<◌, ◌≡◌, ◌≢◌, refl, true, false, none, some, [], ◌∷◌, arith, ltb,
}
use telegram_olymptrade_sign.Config.{seconds}
use telegram_olymptrade_sign.Domain.State.{
  Status, SignalState, StageResult, timeout, fire_event, result_event, transition, from_signal,
  signal_expired,
}
use telegram_olymptrade_sign.Domain.State.Invariant.{IsCascade, from_signal-IsCascade}
use telegram_olymptrade_sign.Domain.State.Steps.{
  may_follow, takes, run, transition_follows_diagram, run-IsCascade,
}
use telegram_olymptrade_sign.Domain.State.Windows.{late_loss_expires, after_loss}
use telegram_olymptrade_sign.Tests.{sample_config, sample_signal, sample_state, sample_events}

-- The cascade after its fire, and after its first loss.
abbrev placed_state : SignalState
placed_state = run sample_config sample_state (fire_event (seconds 1_000) ∷ [])

placed_state-IsCascade : IsCascade sample_signal sample_config placed_state
placed_state-IsCascade = run-IsCascade sample_signal sample_config (fire_event (seconds 1_000) ∷ [])

transition_follows_diagram_example :
    let e = fire_event (seconds 1_000) in
    ((transition sample_state e sample_config).success ≡ takes sample_state.state e)
    × ((s' : SignalState)
        → (transition sample_state e sample_config).new_state ≡ some s'
        → (takes sample_state.state e ≡ true) × (may_follow sample_state.state s'.state ≡ true))
    × (takes sample_state.state e ≡ false
        → ((transition sample_state e sample_config).new_state ≡ none)
          × ((transition sample_state e sample_config).reason ≢ none))
transition_follows_diagram_example =
    transition_follows_diagram sample_signal sample_config sample_state (fire_event (seconds 1_000))
      (from_signal-IsCascade sample_signal sample_config)

run-IsCascade_example :
    IsCascade sample_signal sample_config (run sample_config sample_state sample_events)
run-IsCascade_example = run-IsCascade sample_signal sample_config sample_events

-- The loss is known 320 seconds after the trigger: later than the tolerance allows.
abbrev expired_state : SignalState
expired_state = run sample_config placed_state (result_event StageResult.loss (seconds 1_320) ∷ [])

expired_new :
    (transition placed_state
      (result_event StageResult.loss (seconds 1_320))
      sample_config).new_state
    ≡ some expired_state
unfolding run transition from_signal
expired_new = refl

late_loss_expires_example :
    let late = ltb (placed_state.trigger_unix + seconds 300 + seconds 10) (seconds 1_320) in
    (expired_state.state ≡ after_loss late placed_state.state)
    × (expired_state.state ≡ Status.error → expired_state.error_reason ≡ some signal_expired)
    × (expired_state.stage ≢ none
        → (expired_state.trigger_unix ≡ placed_state.trigger_unix + seconds 300)
          × (expired_state.expires_at_unix ≡ expired_state.trigger_unix + seconds 300))
unfolding run transition from_signal
late_loss_expires_example =
    late_loss_expires sample_signal sample_config placed_state expired_state StageResult.loss
      (seconds 1_320) placed_state-IsCascade refl expired_new

abbrev timed_out_state : SignalState
timed_out_state = run sample_config placed_state (result_event timeout (seconds 1_331) ∷ [])

timed_out_new :
    (transition placed_state (result_event timeout (seconds 1_331)) sample_config).new_state
    ≡ some timed_out_state
unfolding run transition from_signal
timed_out_new = refl

placed_trigger : placed_state.trigger_unix + seconds 330 < seconds 1_331
unfolding run transition from_signal
placed_trigger = omega arith
