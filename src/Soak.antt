-- ===== src/Soak.antt =====
-- tools/soak_assertions.py: the nine checks of a soak run. A log is its text, where the file exists. Of a
-- detail the model keeps the ids of the entries that the code collects for it, before it cuts them to
-- five, and not its sentence.
pub mod Checks
pub mod Fixture
pub mod Outcomes
pub mod Verdict
pub mod Env
pub mod Probe
pub mod Liveness
pub mod Driver
use Prim.Native.String.{String}
use telegram_olymptrade_sign.Prelude.{
  ℕ, ◌+◌, ◌*◌, ◌/◌, Bool, true, false, ◌&&◌, ◌||◌, not, Option, none, some, List, [], ◌∷◌, str_eq,
  ltb, leb, ◌==◌, if◌then◌else◌, length, max,
}
use telegram_olymptrade_sign.Config.{Time, seconds}
use telegram_olymptrade_sign.Telegram.Channel.{contains}

-- `InvariantName`
pub data InvariantName : Type 0 where
  uptime no_exceptions no_missed_triggers no_duplicate_trades no_dm_failures : InvariantName
  row_counts restart_drill telegram_liveness per_signal_outcomes : InvariantName

pub record InvariantResult : Type 0 where
  pub name : InvariantName
  pub passed : Bool
  pub entries : List String

-- The columns that the checks read.
pub record StageEntry : Type 0 where
  pub signal_id : String
  pub stage : String
  pub placed_at_unix : Time
  pub trigger_ts_unix : Time

pub record SignalEntry : Type 0 where
  pub signal_id : String
  pub status : String

pub record FixtureEntry : Type 0 where
  pub expected_outcome : Option String
  pub signal_id : Option String

pub record LivenessRecord : Type 0 where
  pub timestamp : Time
  pub connected : Bool

pub record RestartDrillResult : Type 0 where
  pub in_flight_signal_ids : List String
  pub completed_within_60s : List (String × Bool)

abbrev pub is_none : {A : Type 0} → List A → Bool
is_none [] = true
is_none (_ ∷ _) = false

unfoldable pub log_shows : (String → Bool) → Option String → Bool
log_shows test none = false
log_shows test (some text) = test text

unfoldable pub assert_uptime : Option String → InvariantResult
unfolding log_shows
assert_uptime app_log = record {
  name = uptime;
  passed = log_shows (λ text. contains "bot_started" text || contains "Bot started" text) app_log;
  entries = [];
}

unfoldable pub assert_no_exceptions : Option String → InvariantResult
unfolding log_shows
assert_no_exceptions app_log = record {
  name = no_exceptions;
  passed = log_shows (λ text. not (contains "Traceback (most recent call last):" text)) app_log;
  entries = [];
}

unfoldable pub missed_triggers : Time → List StageEntry → List String
missed_triggers tolerance [] = []
missed_triggers tolerance (s ∷ ss) =
    let rest = missed_triggers tolerance ss in
    if ltb (s.trigger_ts_unix + tolerance) s.placed_at_unix then s.signal_id ∷ rest else rest

unfoldable pub assert_no_missed_triggers : Time → List StageEntry → InvariantResult
unfolding missed_triggers
assert_no_missed_triggers tolerance stages =
    let missed = missed_triggers tolerance stages in
    record { name = no_missed_triggers; passed = is_none missed; entries = missed }

abbrev pub Key : Type 0
Key = String × String

abbrev pub key_eq : Key → Key → Bool
key_eq (a, b) (c, d) = str_eq a c && str_eq b d

unfoldable pub seen_before : Key → List Key → Bool
seen_before key [] = false
seen_before key (k ∷ ks) = if key_eq k key then true else seen_before key ks

-- The loop with its set of keys seen.
unfoldable pub duplicates : List Key → List StageEntry → List String
unfolding seen_before
duplicates seen [] = []
duplicates seen (s ∷ ss) =
    let key : Key = (s.signal_id, s.stage) in
    let rest = duplicates (key ∷ seen) ss in
    if seen_before key seen then s.signal_id ∷ rest else rest

unfoldable pub assert_no_duplicate_trades : List StageEntry → InvariantResult
unfolding duplicates
assert_no_duplicate_trades stages =
    let dupes = duplicates [] stages in
    record { name = no_duplicate_trades; passed = is_none dupes; entries = dupes }

unfoldable pub assert_no_dm_failures : Option String → InvariantResult
unfolding log_shows
assert_no_dm_failures app_log = record {
  name = no_dm_failures;
  passed = log_shows (λ text. not (contains "DM send failed" text)) app_log;
  entries = [];
}

abbrev pub outcome_of : FixtureEntry → String
outcome_of f = elim f.expected_outcome [ none ↦ "" | some outcome ↦ outcome ]

abbrev pub id_of : FixtureEntry → String
id_of f = elim f.signal_id [ none ↦ "" | some id ↦ id ]

-- `_EXPECTED_OUTCOME_STAGES`, 0 for any other outcome.
unfoldable pub expected_outcome_stages : String → ℕ
expected_outcome_stages outcome =
    if str_eq outcome "win_at_initial"
    then 1
    else if str_eq outcome "loss_initial_win_gale1"
    then 2
    else if str_eq outcome "loss_initial_loss_gale1_win_gale2"
    then 3
    else if str_eq outcome "full_loss"
    then 3
    else 0

unfoldable pub expected_total : List FixtureEntry → ℕ
unfolding expected_outcome_stages
expected_total [] = 0
expected_total (f ∷ fs) = expected_outcome_stages (outcome_of f) + expected_total fs

unfoldable pub assert_row_counts_match_expected :
    List StageEntry → List FixtureEntry → InvariantResult
unfolding expected_total
assert_row_counts_match_expected stages fixture = record {
  name = row_counts;
  passed = length stages == expected_total fixture;
  entries = [];
}

unfoldable pub not_completed : List (String × Bool) → List String
not_completed [] = []
not_completed ((id, done) ∷ rest) =
    let others = not_completed rest in if done then others else id ∷ others

unfoldable pub assert_restart_drill : RestartDrillResult → InvariantResult
unfolding not_completed
assert_restart_drill drill =
    if is_none drill.in_flight_signal_ids
    then record { name = restart_drill; passed = true; entries = [] }
    else (let late = not_completed drill.completed_within_60s in
        record { name = restart_drill; passed = is_none late; entries = late })

unfoldable pub connected_count : List LivenessRecord → ℕ
connected_count [] = 0
connected_count (r ∷ rs) = (if r.connected then 1 else 0) + connected_count rs

-- `max(1, int(duration // 3600) + 1)`
abbrev pub hours_of : Time → ℕ
hours_of duration = max 1 (duration / seconds 3_600 + 1)

unfoldable pub assert_telegram_liveness : List LivenessRecord → Time → InvariantResult
unfolding connected_count
assert_telegram_liveness records duration = record {
  name = telegram_liveness;
  passed = not (ltb (connected_count records) (hours_of duration));
  entries = [];
}

-- `_OUTCOME_TO_STATUS`
unfoldable pub outcome_to_status : String → Option String
outcome_to_status outcome =
    if str_eq outcome "win_at_initial"
    then some "done_win"
    else if str_eq outcome "loss_initial_win_gale1"
    then some "done_win"
    else if str_eq outcome "loss_initial_loss_gale1_win_gale2"
    then some "done_win"
    else if str_eq outcome "full_loss"
    then some "done_loss"
    else if str_eq outcome "signal_expired"
    then some "error"
    else if str_eq outcome "unsupported_pair"
    then some "error"
    else none

-- `by_id.get`: the last row of an id stands in the dictionary.
unfoldable pub status_by_id : List SignalEntry → String → Option String
status_by_id [] id = none
status_by_id (s ∷ ss) id = elim (status_by_id ss id) [
  | some status ↦ some status
  | none ↦ if str_eq s.signal_id id then some s.status else none
]

abbrev pub has_status : Option String → String → Bool
has_status none expected = false
has_status (some actual) expected = str_eq actual expected

-- Whether an entry of the fixture is a mismatch.
unfoldable pub is_mismatch : List SignalEntry → FixtureEntry → Bool
unfolding outcome_to_status status_by_id
is_mismatch signals f =
    let outcome = outcome_of f in
    if str_eq outcome "parse_failure" || str_eq outcome "unsupported_pair"
    then false
    else elim f.signal_id [
      | none ↦ false
      | some id ↦ elim (outcome_to_status outcome) [
        | none ↦ false
        | some expected ↦ not (has_status (status_by_id signals id) expected)
      ]
    ]

unfoldable pub mismatches : List SignalEntry → List FixtureEntry → List String
unfolding is_mismatch
mismatches signals [] = []
mismatches signals (f ∷ fs) =
    let rest = mismatches signals fs in if is_mismatch signals f then id_of f ∷ rest else rest

unfoldable pub assert_per_signal_outcomes : List SignalEntry → List FixtureEntry → InvariantResult
unfolding mismatches
assert_per_signal_outcomes signals fixture =
    let wrong = mismatches signals fixture in
    record { name = per_signal_outcomes; passed = is_none wrong; entries = wrong }

-- The arguments of `assert_invariants`; the default tolerance is two seconds.
pub record Soak : Type 0 where
  pub app_log : Option String
  pub signals : List SignalEntry
  pub stages : List StageEntry
  pub fixture : List FixtureEntry
  pub liveness_records : List LivenessRecord
  pub drill : RestartDrillResult
  pub expected_duration_seconds : Time

unfoldable pub assert_invariants : Soak → List InvariantResult
unfolding assert_uptime assert_no_exceptions assert_no_missed_triggers assert_no_duplicate_trades
    assert_no_dm_failures assert_row_counts_match_expected assert_restart_drill
    assert_telegram_liveness assert_per_signal_outcomes
assert_invariants s =
    assert_uptime s.app_log
    ∷ assert_no_exceptions s.app_log
    ∷ assert_no_missed_triggers (seconds 2) s.stages
    ∷ assert_no_duplicate_trades s.stages
    ∷ assert_no_dm_failures s.app_log
    ∷ assert_row_counts_match_expected s.stages s.fixture
    ∷ assert_restart_drill s.drill
    ∷ assert_telegram_liveness s.liveness_records s.expected_duration_seconds
    ∷ assert_per_signal_outcomes s.signals s.fixture
    ∷ []

-- `Report.passed`
unfoldable pub report_passed : List InvariantResult → Bool
report_passed [] = true
report_passed (r ∷ rs) = r.passed && report_passed rs
