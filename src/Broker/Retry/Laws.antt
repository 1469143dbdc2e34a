-- ===== src/Broker/Retry/Laws.antt =====
-- How often the retry loop of broker/reconnect.py calls its operation, how it ends, and how long it
-- waits in between.
use telegram_olymptrade_sign.Prelude.{
  ℕ, zero, suc, ◌+◌, ◌*◌, ◌-◌, ◌≤◌, ◌≡◌, refl, true, List, [], ◌∷◌, arith, leb, if◌then◌else◌,
  length, All, Bool-cases, inl, inr,
}
use native.Mathlib.Nat.{mul-le-mul_left, mul-le-mul_right}
use telegram_olymptrade_sign.Config.{Time, seconds}
use telegram_olymptrade_sign.Broker.Retry.{
  capped_backoff, compute_backoff_seconds, Attempt, succeeded, broker_auth_error, os_error,
  other_exception, is_retried, RetryOutcome, completed, reraised, gave_up, callback_raised,
  Retrying, RetryLog, exhausted, back_off, after_answer, attempts, with_retry, call_on_retry,
}

abbrev pub AllRetried : List Attempt → Type 0
AllRetried l = All (λ a. is_retried a ≡ true) l

-- The last answer, and the answers before it.
abbrev pub EndsWith : Attempt → List Attempt → Type 0
EndsWith a [] = ⊥
EndsWith a (x ∷ xs) = (x ≡ a) × AllRetried xs

-- The answers that an outcome stands for.
abbrev pub Explains : ℕ → RetryOutcome → List Attempt → Type 0
Explains m completed l = EndsWith succeeded l
Explains m reraised l = EndsWith other_exception l
Explains m (gave_up n) l = (n ≡ m) × AllRetried l × (length l ≡ m)
Explains m callback_raised l = AllRetried l

-- A log that the loop may leave.
abbrev pub IsLog : {S : Type 0} → ℕ → RetryLog S → Type 0
IsLog m log =
    Explains m log.outcome log.answers
    × (length log.answers ≤ m)
    × (length log.delays ≡ length log.answers - 1)

module _ {S : Type 0} (r : Retrying S) (m : ℕ) where
  exhausted-IsLog :
      (start : Time) (answers : List Attempt) (delays : List ℕ) (s : S)
      → AllRetried answers
      → length answers ≡ m
      → length delays ≡ length answers - 1
      → IsLog m (exhausted r m start answers delays s)
  unfolding exhausted
  exhausted-IsLog start answers delays s h e waits = ground arith

  back_off-IsLog :
      (attempt : ℕ) (start : Time) (answers : List Attempt) (delays : List ℕ) (s : S)
      (rest : List ℕ → S → RetryLog S)
      → AllRetried answers
      → length answers ≤ m
      → length delays ≡ length answers - 1
      → ((d : ℕ) (s' : S) → IsLog m (rest (d ∷ delays) s'))
      → IsLog m (back_off r m attempt start answers delays s rest)
  unfolding back_off
  back_off-IsLog attempt start answers delays s rest h e waits k =
      let (rng, s1) = r.random s in
      let delay = compute_backoff_seconds attempt (seconds 1) (seconds 30) 10 r.one rng in
      let (fine, s2) =
        call_on_retry r m r.on_retry (attempt + 1) (r.monotonic s1 - start) delay s1 in
      elim (Bool-cases fine) [
        | inl t ↦ rw (t, back_off) (k delay (r.sleep delay s2))
        | inr f ↦ rw (f, back_off) (h, e, waits)
      ]

  -- What follows a retried answer.
  retried-IsLog :
      (answer : Attempt) (left attempt : ℕ) (start : Time) (answers : List Attempt)
      (delays : List ℕ) (s : S) (rest : List ℕ → S → RetryLog S)
      → is_retried answer ≡ true
      → AllRetried answers
      → length answers ≡ attempt
      → length delays ≡ attempt
      → attempt + suc left ≡ m
      → (attempt + 1 ≤ m - 1 → (d : ℕ) (s' : S) → IsLog m (rest (d ∷ delays) s'))
      → IsLog m (
          if leb m (attempt + 1)
          then exhausted r m start (answer ∷ answers) delays s
          else back_off r m attempt start (answer ∷ answers) delays s rest)
  retried-IsLog answer left attempt start answers delays s rest a h e e' sum k =
      elim (Bool-cases (leb m (attempt + 1))) [
        | inl last ↦
            rw last (
              exhausted-IsLog start (answer ∷ answers) delays s (a, h) (ground arith) (omega arith))
        | inr more ↦ rw more (
            back_off-IsLog attempt start (answer ∷ answers) delays s rest (a, h) (omega arith)
              (omega arith) (k (ground (arith, more))))
      ]

  -- What follows an answer, if the rest of the loop leaves such a log after a retried one.
  after_answer-IsLog :
      (answer : Attempt) (left attempt : ℕ) (start : Time) (answers : List Attempt)
      (delays : List ℕ) (s : S) (rest : List ℕ → S → RetryLog S)
      → AllRetried answers
      → length answers ≡ attempt
      → length delays ≡ attempt
      → attempt + suc left ≡ m
      → (is_retried answer ≡ true
          → attempt + 1 ≤ m - 1
          → (d : ℕ) (s' : S) → IsLog m (rest (d ∷ delays) s'))
      → IsLog m (after_answer r m answer attempt start (answer ∷ answers) delays s rest)
  unfolding after_answer
  after_answer-IsLog succeeded left attempt start answers delays s rest h e e' sum k =
      ((refl, h), omega arith, omega arith)
  after_answer-IsLog other_exception left attempt start answers delays s rest h e e' sum k =
      ((refl, h), omega arith, omega arith)
  after_answer-IsLog broker_auth_error left attempt start answers delays s rest h e e' sum k =
      retried-IsLog broker_auth_error left attempt start answers delays s rest refl h e e' sum
        (k refl)
  after_answer-IsLog os_error left attempt start answers delays s rest h e e' sum k =
      retried-IsLog os_error left attempt start answers delays s rest refl h e e' sum (k refl)

  attempts-IsLog :
      (left attempt : ℕ) (start : Time) (answers : List Attempt) (delays : List ℕ) (s : S)
      → AllRetried answers
      → length answers ≡ attempt
      → length delays ≡ attempt
      → attempt + left ≡ m
      → attempt ≤ m - 1
      → IsLog m (attempts r m left attempt start answers delays s)
  unfolding attempts
  attempts-IsLog zero attempt start answers delays s h e e' sum le =
      exhausted-IsLog start answers delays s h (omega arith) (omega arith)
  attempts-IsLog (suc left) attempt start answers delays s h e e' sum le =
      let (answer, s1) = r.op s in
      after_answer-IsLog answer left attempt start answers delays s1
        (attempts r m left (attempt + 1) start (answer ∷ answers)) h e e' sum
        (λ a below d s'.
          attempts-IsLog left (attempt + 1) start (answer ∷ answers) (d ∷ delays) s' (a, h)
            (omega arith) (omega arith) (omega arith) below)

-- The retry loop calls its operation at most `max_attempts` times and waits exactly once between two
-- calls: never before the first one, and never after the last one. It returns only after an answer that is a
-- success and re-raises only after an exception that is not retried, in both cases after answers that all were; it gives up only after `max_attempts` retried
-- answers; and where a callback raises, all answers before it were retried.
pub with_retry-IsLog :
    {S : Type 0} (r : Retrying S) (max_attempts : ℕ) (s : S)
    → IsLog max_attempts (with_retry r max_attempts s)
unfolding with_retry
with_retry-IsLog r max_attempts s =
    attempts-IsLog r max_attempts max_attempts 0 (r.monotonic s) [] [] s tt refl refl (omega arith)
      (omega arith)

capped-le_cap : (attempt : ℕ) (base cap : Time) → capped_backoff attempt base cap ≤ cap
unfolding capped_backoff
capped-le_cap attempt base cap = ground arith

-- The delay of `with_retry` is within a tenth of the capped backoff, and never more than 33 seconds,
-- whatever the random number.
backoff_bounds :
    (attempt one rng : ℕ)
    → rng ≤ one
    → let d = compute_backoff_seconds attempt (seconds 1) (seconds 30) 10 one rng in
      let capped = capped_backoff attempt (seconds 1) (seconds 30) in
      (capped * (90 * one) ≤ d) × (d ≤ capped * (110 * one)) × (d ≤ seconds 33 * (100 * one))
unfolding compute_backoff_seconds
backoff_bounds attempt one rng h =
    let c = capped_backoff attempt (seconds 1) (seconds 30) in
    let small : c ≤ seconds 30 = capped-le_cap attempt (seconds 1) (seconds 30) in
    let less : c * rng ≤ c * one = mul-le-mul_left c h in
    let bound : c * one ≤ seconds 30 * one = mul-le-mul_right one small in
    (omega (arith, less, bound), omega (arith, less, bound), omega (arith, less, bound))
