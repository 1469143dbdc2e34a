-- ===== src/Tests/Logs.antt =====
-- The logs over a list of sinks with counted ids.
use telegram_olymptrade_sign.Prelude.{
  ℕ, suc, ◌≡◌, refl, true, false, Option, none, some, String, str_eq, List, [], ◌∷◌, ◌++◌, arith,
  if◌then◌else◌,
}
use telegram_olymptrade_sign.Logging.{
  Sink, stderr, log_file, parse_failures_file, Loguru, Logging, has_id, without, setup_logging,
  delivered,
}
use telegram_olymptrade_sign.Logging.Ids.{logging, parse_failures_log, set_ups}
use telegram_olymptrade_sign.Logging.Routing.{failures_log}
use telegram_olymptrade_sign.Logging.Handlers.{
  StdRecord, intercept, emitted, written, places, messages_routed,
}

abbrev Sinks : Type 0
Sinks = List (ℕ × Sink) × ℕ

abbrev sample_remove : ℕ → Sinks → Option Sinks
sample_remove k (ss, n) = if has_id k ss then some (without k ss, n) else none

sample_missing : (k : ℕ) (s : Sinks) → has_id k s.0 ≡ false → sample_remove k s ≡ none
sample_missing k (ss, n) h = rw h refl

sample_found :
    (k : ℕ) (s : Sinks)
    → has_id k s.0 ≡ true
    → (t : Sinks) × (sample_remove k s ≡ some t) × (t.0 ≡ without k s.0) × (t.1 ≡ s.1)
sample_found k (ss, n) h = ((without k ss, n), rw h refl, refl, refl)

abbrev sample_loguru : Loguru
sample_loguru = record {
  S = Sinks;
  sinks = λ s. s.0;
  issued = λ s. s.1;
  add = λ k s. (s.1, (s.0 ++ ((s.1, k) ∷ []), suc s.1));
  remove_all = λ s. ([], s.1);
  remove = sample_remove;
  add_sinks = λ k s. refl;
  add_new = λ k s. omega arith;
  add_issued = λ k s. omega arith;
  remove_all_sinks = λ s. refl;
  remove_all_issued = λ s. refl;
  remove_missing = sample_missing;
  remove_found = sample_found;
}

abbrev sample_logging : Logging sample_loguru
sample_logging = record { state = ([], 0); parse_failures_sink_id = none }

abbrev sample_levels : String → Option ℕ
sample_levels name = if str_eq name "INFO" then some 20 else none

-- A level that loguru does not know.
abbrev sample_message : StdRecord
sample_message = record { name = "signal_copier.recovery"; levelname = "Level 35"; levelno = 35 }

messages_routed_example :
    let l = failures_log sample_loguru 1 (
      setup_logging sample_loguru
        (set_ups sample_loguru (parse_failures_log ∷ logging ∷ []) sample_logging)) in
    written (delivered (sample_loguru.sinks l.state)) (emitted sample_levels sample_message)
    ≡ places
        (str_eq sample_message.name "signal_copier.parse_failures")
        sample_message.levelno
        (intercept sample_levels sample_message).level
messages_routed_example =
    messages_routed sample_loguru (parse_failures_log ∷ logging ∷ []) 1 sample_logging sample_levels
      sample_message refl

places_run :
    places
      (str_eq sample_message.name "signal_copier.parse_failures")
      sample_message.levelno
      (intercept sample_levels sample_message).level
    ≡ stderr ∷ log_file ∷ parse_failures_file ∷ []
unfolding intercept
places_run = refl
