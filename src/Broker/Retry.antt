-- ===== src/Broker/Retry.antt =====
-- broker/reconnect.py: the backoff between attempts and the loop that retries an operation.
pub mod Laws
use telegram_olymptrade_sign.Prelude.{
  ℕ, zero, suc, ◌+◌, ◌*◌, ◌-◌, ◌≤◌, ◌≡◌, refl, Bool, true, false, Option, none, some, List, [], ◌∷◌,
  arith, leb, ◌==◌, if◌then◌else◌, length, All,
}
use telegram_olymptrade_sign.Config.{Time, seconds}

abbrev pub pow2 : ℕ → ℕ
pow2 zero = 1
pow2 (suc n) = 2 * pow2 n

abbrev pub min_time : Time → Time → Time
min_time a b = if leb a b then a else b

-- `min(base * 2 ** attempt, cap)`
unfoldable pub capped_backoff : ℕ → Time → Time → Time
capped_backoff attempt base cap = min_time (base * pow2 attempt) cap

-- The delay after an attempt, with a jitter in per cent and a random number that is `rng` parts out of
-- `one`. Its unit is the part of a microsecond in which it is exact, one of `100 * one`; the
-- difference of natural numbers is the `max(0.0, …)` of the code.
unfoldable pub compute_backoff_seconds : ℕ → Time → Time → ℕ → ℕ → ℕ → ℕ
unfolding capped_backoff
compute_backoff_seconds attempt base cap jitter one rng =
    let capped = capped_backoff attempt base cap in
    if jitter == 0
    then capped * (100 * one)
    else capped * (100 * one) + capped * jitter * (2 * rng) - capped * jitter * one

-- What one call of the operation comes to: it returns, raises `BrokerAuthError` or `OSError`, or
-- raises another exception.
pub data Attempt : Type 0 where
  succeeded broker_auth_error os_error other_exception : Attempt

abbrev pub is_retried : Attempt → Bool
is_retried broker_auth_error = true
is_retried os_error = true
is_retried _ = false

-- How `with_retry` ends: it returns, re-raises the operation's exception, raises `BrokerAuthError`
-- with the number of attempts, or lets an exception of a callback out.
pub data RetryOutcome : Type 0 where
  completed : RetryOutcome
  reraised : RetryOutcome
  gave_up : ℕ → RetryOutcome
  callback_raised : RetryOutcome

-- What `with_retry` is given: the operation, the callbacks (each tells whether it returned), the clock,
-- the random numbers and the sleep, on a state of the process.
pub record Retrying (S : Type 0) : Type 0 where
  pub op : S → Attempt × S
  pub on_retry : Option (ℕ → ℕ → Time → ℕ → S → Bool × S)
  pub on_exhausted : Option (ℕ → Time → S → Bool × S)
  pub monotonic : S → Time
  pub one : ℕ
  pub random : S → ℕ × S
  pub sleep : ℕ → S → S

-- The answers of the operation and the delays slept, the last ones first.
pub record RetryLog (S : Type 0) : Type 0 where
  pub outcome : RetryOutcome
  pub answers : List Attempt
  pub delays : List ℕ
  pub state : S

module _ {S : Type 0} (r : Retrying S) (max_attempts : ℕ) where
  unfoldable pub call_on_retry :
      Option (ℕ → ℕ → Time → ℕ → S → Bool × S) → ℕ → Time → ℕ → S → Bool × S
  call_on_retry none attempt downtime delay s = (true, s)
  call_on_retry (some hook) attempt downtime delay s = hook attempt max_attempts downtime delay s

  unfoldable pub call_on_exhausted : Option (ℕ → Time → S → Bool × S) → Time → S → Bool × S
  call_on_exhausted none downtime s = (true, s)
  call_on_exhausted (some hook) downtime s = hook max_attempts downtime s

  -- After the loop.
  unfoldable pub exhausted : Time → List Attempt → List ℕ → S → RetryLog S
  unfolding call_on_exhausted
  exhausted downtime_start answers delays s =
      let (fine, s1) = call_on_exhausted r.on_exhausted (r.monotonic s - downtime_start) s in
      record {
        outcome = if fine then gave_up max_attempts else callback_raised;
        answers = answers;
        delays = delays;
        state = s1;
      }

  -- Before the next attempt: the callback and the sleep.
  unfoldable pub back_off :
      ℕ → Time → List Attempt → List ℕ → S → (List ℕ → S → RetryLog S) → RetryLog S
  unfolding call_on_retry compute_backoff_seconds
  back_off attempt downtime_start answers delays s rest =
      let (rng, s1) = r.random s in
      let delay = compute_backoff_seconds attempt (seconds 1) (seconds 30) 10 r.one rng in
      let (fine, s2) =
        call_on_retry r.on_retry (attempt + 1) (r.monotonic s1 - downtime_start) delay s1 in
      let later = rest (delay ∷ delays) (r.sleep delay s2) in
      if fine
      then later
      else record { outcome = callback_raised; answers = answers; delays = delays; state = s2 }

  -- What follows an answer of the operation.
  unfoldable pub after_answer :
      Attempt → ℕ → Time → List Attempt → List ℕ → S → (List ℕ → S → RetryLog S) → RetryLog S
  unfolding back_off exhausted
  after_answer succeeded attempt downtime_start answers delays s rest = record {
    outcome = completed;
    answers = answers;
    delays = delays;
    state = s;
  }
  after_answer other_exception attempt downtime_start answers delays s rest = record {
    outcome = reraised;
    answers = answers;
    delays = delays;
    state = s;
  }
  after_answer retried attempt downtime_start answers delays s rest =
      let later = back_off attempt downtime_start answers delays s rest in
      if leb max_attempts (attempt + 1) then exhausted downtime_start answers delays s else later

  -- The loop over `range(max_attempts)`, with the attempts that are left.
  unfoldable pub attempts : ℕ → ℕ → Time → List Attempt → List ℕ → S → RetryLog S
  unfolding after_answer
  attempts zero attempt downtime_start answers delays s = exhausted downtime_start answers delays s
  attempts (suc left) attempt downtime_start answers delays s =
      let (answer, s1) = r.op s in
      after_answer answer attempt downtime_start (answer ∷ answers) delays s1
        (attempts left (attempt + 1) downtime_start (answer ∷ answers))

  unfoldable pub with_retry : S → RetryLog S
  unfolding attempts
  with_retry s = attempts max_attempts 0 (r.monotonic s) [] [] s
