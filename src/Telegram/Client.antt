-- ===== src/Telegram/Client.antt =====
-- telegram/client.py: the checks of the settings and the loop that reconnects.
use mathlib.Core.Path.{subst}
use telegram_olymptrade_sign.Prelude.{
  ℕ, zero, suc, ◌+◌, ◌*◌, ◌≤◌, ◌<◌, ◌≡◌, ◌≢◌, ◌↔◌, refl, Bool, false, Option, none, some, String,
  List, [], ◌∷◌, arith, ltb, ◌==◌, str_eq, eq_iff, if◌then◌else◌, Bool-cases, inl, inr, All, ap,
}
use telegram_olymptrade_sign.Config.{Time, seconds}
use telegram_olymptrade_sign.Broker.Retry.{pow2, min_time}

pub record TelegramSettings : Type 0 where
  pub api_id : ℕ
  pub api_hash : String
  pub phone : String
  pub session_string : String
  pub target_chat : String

-- The setting that `TelegramConfigError` names.
pub data ConfigError : Type 0 where
  bad_api_id bad_api_hash bad_phone bad_session_string bad_target_chat : ConfigError

-- The checks of `__init__`.
unfoldable pub config_error : TelegramSettings → Option ConfigError
config_error s =
    if s.api_id == 0
    then some bad_api_id
    else if str_eq s.api_hash ""
    then some bad_api_hash
    else if str_eq s.phone ""
    then some bad_phone
    else if str_eq s.session_string ""
    then some bad_session_string
    else if str_eq s.target_chat ""
    then some bad_target_chat
    else none

abbrev pub max_reconnect_attempts : ℕ
max_reconnect_attempts = 10

abbrev pub flood_wait_threshold_seconds : ℕ
flood_wait_threshold_seconds = 60

unfoldable pub compute_backoff_seconds : ℕ → Time
compute_backoff_seconds attempt = min_time (seconds 1 * pow2 attempt) (seconds 30)

-- How one `run_until_disconnected` ends: it returns, or raises `FloodWaitError` with its seconds,
-- `ConnectionError`, or another exception.
pub data Ended : Type 0 where
  disconnected : Ended
  flood_wait : ℕ → Ended
  connection_error : Ended
  other_exception : Ended

-- How `start` ends; `still_running` is a loop in its next `run_until_disconnected`.
pub data StartOutcome : Type 0 where
  returned : StartOutcome
  raised : Ended → StartOutcome
  notifier_raised : StartOutcome
  still_running : StartOutcome

-- The delays slept, the last one first.
pub record StartLog : Type 0 where
  pub outcome : StartOutcome
  pub delays : List Time

-- Whether `on_telegram_disconnect` raises, by the number of the attempt; `none` is no notifier.
abbrev pub notice_raises : Option (ℕ → Bool) → ℕ → Bool
notice_raises none attempt = false
notice_raises (some raises) attempt = raises attempt

-- `start`, over the ends of the calls of `run_until_disconnected` so far.
unfoldable pub start : Option (ℕ → Bool) → List Ended → ℕ → List Time → StartLog
unfolding compute_backoff_seconds
start notifier [] attempt delays = record { outcome = still_running; delays = delays }
start notifier (disconnected ∷ es) attempt delays = record { outcome = returned; delays = delays }
start notifier (other_exception ∷ es) attempt delays = record {
  outcome = raised other_exception;
  delays = delays;
}
start notifier (flood_wait s ∷ es) attempt delays =
    let rest = start notifier es attempt delays in
    if ltb flood_wait_threshold_seconds s
    then record { outcome = raised (flood_wait s); delays = delays }
    else rest
start notifier (connection_error ∷ es) attempt delays =
    let delay = compute_backoff_seconds attempt in
    let rest = start notifier es (attempt + 1) (delay ∷ delays) in
    if ltb max_reconnect_attempts (attempt + 1)
    then record { outcome = raised connection_error; delays = delays }
    else if notice_raises notifier (attempt + 1)
    then record { outcome = notifier_raised; delays = delays }
    else rest

-- The settings are accepted exactly if the id is not zero and no other setting is empty.
pub config_error_lem :
    (s : TelegramSettings)
    → (config_error s ≡ none) ↔ (
        (s.api_id ≢ 0)
        × (s.api_hash ≢ "")
        × (s.phone ≢ "")
        × (s.session_string ≢ "")
        × (s.target_chat ≢ ""))
unfolding config_error
config_error_lem s = ground (
  arith,
  eq_iff s.api_hash "",
  eq_iff s.phone "",
  eq_iff s.session_string "",
  eq_iff s.target_chat "",
)

-- A lost connection, or a flood wait of at most a minute.
abbrev pub IsPassing : Ended → Type 0
IsPassing connection_error = Unit
IsPassing (flood_wait s) = s ≤ 60
IsPassing _ = ⊥

abbrev pub count_lost : List Ended → ℕ
count_lost [] = 0
count_lost (connection_error ∷ es) = suc (count_lost es)
count_lost (_ ∷ es) = count_lost es

-- The delays of the first `n` attempts, the last one first: 1, 2, 4, 8, 16 and then 30 seconds.
unfoldable pub schedule : ℕ → List Time
schedule zero = []
schedule (suc n) = compute_backoff_seconds n ∷ schedule n

schedule-next : (n : ℕ) → schedule (n + 1) ≡ compute_backoff_seconds n ∷ schedule n
unfolding schedule
schedule-next n =
    let one_more : suc n ≡ n + 1 = omega arith in
    subst (λ m. schedule m ≡ compute_backoff_seconds n ∷ schedule n) one_more refl

-- What `start` has come to after so many lost connections.
abbrev Reaches : ℕ → StartLog → Type 0
Reaches lost log =
    (lost ≤ 10 → (log.outcome ≡ still_running) × (log.delays ≡ schedule lost))
    × (10 < lost → (log.outcome ≡ raised connection_error) × (log.delays ≡ schedule 10))

start_from :
    (notifier : Option (ℕ → Bool)) (es : List Ended) (attempt lost : ℕ)
    → All IsPassing es
    → ((n : ℕ) → notice_raises notifier n ≡ false)
    → attempt ≤ 10
    → attempt + count_lost es ≡ lost
    → Reaches lost (start notifier es attempt (schedule attempt))
unfolding start
start_from notifier [] attempt lost passing quiet le sum =
    let same : attempt ≡ lost = omega arith in ground (arith, ap schedule same)
start_from notifier (flood_wait s ∷ es) attempt lost passing quiet le sum =
    ground (arith, passing.0, start_from notifier es attempt lost passing.1 quiet le sum)
start_from notifier (connection_error ∷ es) attempt lost passing quiet le sum =
    elim (Bool-cases (ltb max_reconnect_attempts (attempt + 1))) [
      | inl too_many ↦
          let last : attempt ≡ 10 = ground arith in
          rw (too_many, start) ((λ few. absurd (omega arith)), λ many. (refl, ap schedule last))
      | inr few ↦
          rw (few, start)
            (rw (quiet (attempt + 1), start)
              (rw (← schedule-next attempt) (
                start_from notifier es (attempt + 1) lost passing.1 quiet (ground arith)
                  (omega arith))))
    ]
start_from notifier (disconnected ∷ es) attempt lost passing quiet le sum = absurd passing.0
start_from notifier (other_exception ∷ es) attempt lost passing quiet le sum = absurd passing.0

-- Through any number of flood waits of at most a minute, `start` survives ten lost connections over the
-- whole life of the process, with delays of 1, 2, 4, 8, 16 and then 30 seconds, and raises the
-- eleventh, however much time has passed between them, provided that the notifier does not raise.
pub start-count_lost :
    (notifier : Option (ℕ → Bool)) (es : List Ended)
    → All IsPassing es
    → ((n : ℕ) → notice_raises notifier n ≡ false)
    → let log = start notifier es 0 [] in
      (count_lost es ≤ 10 → (log.outcome ≡ still_running) × (log.delays ≡ schedule (count_lost es)))
      × (10 < count_lost es → (log.outcome ≡ raised connection_error) × (log.delays ≡ schedule 10))
unfolding schedule
start-count_lost notifier es passing quiet =
    start_from notifier es 0 (count_lost es) passing quiet (omega arith) (omega arith)
