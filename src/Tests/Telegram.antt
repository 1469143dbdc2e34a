-- ===== src/Tests/Telegram.antt =====
-- The theorems on telegram/client.py at a sample sequence of failures.
use telegram_olymptrade_sign.Prelude.{◌≤◌, ◌<◌, ◌≡◌, refl, false, some, List, [], ◌∷◌, arith}
use telegram_olymptrade_sign.Telegram.Client.{
  Ended, flood_wait, connection_error, raised, still_running, count_lost, schedule, start,
  start-count_lost,
}

abbrev sample_failures : List Ended
sample_failures = connection_error ∷ flood_wait 5 ∷ connection_error ∷ []

start-count_lost_example :
    let log = start (some (λ n. false)) sample_failures 0 [] in
    (count_lost sample_failures ≤ 10
      → (log.outcome ≡ still_running) × (log.delays ≡ schedule (count_lost sample_failures)))
    × (10 < count_lost sample_failures
        → (log.outcome ≡ raised connection_error) × (log.delays ≡ schedule 10))
start-count_lost_example =
    start-count_lost (some (λ n. false)) sample_failures (tt, (omega arith, (tt, tt))) (λ n. refl)
