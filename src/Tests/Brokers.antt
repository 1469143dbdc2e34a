-- ===== src/Tests/Brokers.antt =====
-- The theorems on broker/reconnect.py and broker/dry_run.py at a sample operation and sample trades.
use telegram_olymptrade_sign.Prelude.{ℕ, suc, true, none, some}
use telegram_olymptrade_sign.Config.{seconds}
use telegram_olymptrade_sign.Broker.Retry.{
  Attempt, succeeded, broker_auth_error, Retrying, with_retry,
}
use telegram_olymptrade_sign.Broker.Retry.Laws.{IsLog, with_retry-IsLog}

-- An operation that fails twice and then succeeds, on the number of calls so far.
abbrev third_time : ℕ → Attempt
third_time (suc (suc n)) = succeeded
third_time n = broker_auth_error

abbrev sample_retrying : Retrying ℕ
sample_retrying = record {
  op = λ n. (third_time n, suc n);
  on_retry = some (λ attempt attempts downtime delay n. (true, n));
  on_exhausted = none;
  monotonic = λ n. seconds n;
  one = 4;
  random = λ n. (3, n);
  sleep = λ delay n. n;
}

with_retry-IsLog_example : IsLog 5 (with_retry sample_retrying 5 0)
with_retry-IsLog_example = with_retry-IsLog sample_retrying 5 0
