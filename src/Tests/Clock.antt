-- ===== src/Tests/Clock.antt =====
-- The theorem on the window of infra/clock.py at a signal that is received half a minute late.
use telegram_olymptrade_sign.Prelude.{◌+◌, ◌≤◌, ◌<◌, ◌≡◌, refl, true, some, arith}
use telegram_olymptrade_sign.Config.{seconds}
use telegram_olymptrade_sign.Domain.State.{
  Status, SignalState, signal_expired, fire_event, transition,
}
use telegram_olymptrade_sign.Scheduler.World.{target_monotonic}
use telegram_olymptrade_sign.Clock.{is_within_window, accepted_window}
use telegram_olymptrade_sign.Tests.{sample_signal, sample_config, sample_state}

accepted_window_example :
    (target_monotonic (seconds 1_000) (seconds 1_030) (seconds 7) ≤ seconds 7 + seconds 1_800)
    × (seconds 1_000 + seconds 10 < seconds 1_030
        → (seconds 1_030 ≤ seconds 1_000 + seconds 60)
          × ((transition sample_state (fire_event (seconds 1_030)) sample_config).success ≡ true)
          × ((s : SignalState)
              → (transition sample_state (fire_event (seconds 1_030)) sample_config).new_state
                ≡ some s
              → (s.state ≡ Status.error) × (s.error_reason ≡ some signal_expired)))
unfolding is_within_window
accepted_window_example =
    accepted_window sample_signal sample_config (seconds 1_030) (seconds 1_030) (seconds 7) refl
      (omega arith)
