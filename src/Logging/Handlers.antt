-- ===== src/Logging/Handlers.antt =====
-- infra/log.py: the handlers that hand the records of the standard library's loggers to loguru, and where a
-- message goes by its logger and level. `level_of` is the number of loguru's level of a name (`none` is
-- the ValueError). No other logger has a level or handlers of its own, and no child of the logger of parse failures is used.
use telegram_olymptrade_sign.Prelude.{
  ℕ, ◌≡◌, Bool, true, false, Option, none, some, String, List, [], ◌∷◌, ◌++◌, arith, str_eq, leb,
  if◌then◌else◌,
}
use telegram_olymptrade_sign.Logging.{
  Loguru, Target, stderr, log_file, parse_failures_file, LogRecord, Logging, setup_logging,
  delivered, warning,
}
use telegram_olymptrade_sign.Logging.Ids.{SetUp, set_ups}
use telegram_olymptrade_sign.Logging.Routing.{failures_log, records_routed}

-- A record of the standard library.
pub record StdRecord : Type 0 where
  pub name : String
  pub levelname : String
  pub levelno : ℕ

-- `_InterceptHandler.emit`
unfoldable pub intercept : (String → Option ℕ) → StdRecord → LogRecord
intercept level_of r = record {
  level = elim (level_of r.levelname) [ none ↦ r.levelno | some level ↦ level ];
  parse_failure = false;
}

-- `_ParseFailuresHandler.emit`
abbrev pub parse_failure_record : LogRecord
parse_failure_record = record { level = warning; parse_failure = true }

-- The loggers, as `basicConfig` and `setup_parse_failures_log` leave them: the logger of parse failures has its
-- level and its handler and does not propagate; every other record comes to the root, whose level is 0.
unfoldable pub emitted : (String → Option ℕ) → StdRecord → List LogRecord
unfolding intercept
emitted level_of r =
    if str_eq r.name "signal_copier.parse_failures"
    then (if leb warning r.levelno then parse_failure_record ∷ [] else [])
    else intercept level_of r ∷ []

-- Where a message is written.
unfoldable pub written : (LogRecord → List Target) → List LogRecord → List Target
written to [] = []
written to (r ∷ rs) = to r ++ written to rs

-- Where a message is to be written, by its logger and its level of loguru.
abbrev pub places : Bool → ℕ → ℕ → List Target
places is_parse_failure levelno level =
    if is_parse_failure
    then (if leb 30 levelno then parse_failures_file ∷ [] else [])
    else if leb 30 level
    then stderr ∷ log_file ∷ parse_failures_file ∷ []
    else if leb 20 level
    then stderr ∷ log_file ∷ []
    else []

-- However often the two logs have been set up before, once the application's log has been set up and then the log of
-- parse failures, one time or more, each message of a logger is written at most once to each place. One
-- of the logger of parse failures goes to parse_failures.log alone, from WARNING on, and nowhere below. Any other
-- goes to stderr and the log file from INFO on, and from WARNING on to parse_failures.log as well, by the level of loguru that its
-- level has by name, or else by its number.
pub messages_routed :
    (loguru : Loguru) (before : List SetUp) (n : ℕ) (l : Logging loguru)
    (level_of : String → Option ℕ) (r : StdRecord)
    → l.parse_failures_sink_id ≡ none
    → let l' = failures_log loguru n (setup_logging loguru (set_ups loguru before l)) in
      written (delivered (loguru.sinks l'.state)) (emitted level_of r)
      ≡ places (str_eq r.name "signal_copier.parse_failures") r.levelno (intercept level_of r).level
unfolding written emitted intercept
messages_routed loguru before n l level_of r fresh = ground (
  arith,
  records_routed loguru before n l (intercept level_of r) fresh,
  records_routed loguru before n l parse_failure_record fresh,
)
