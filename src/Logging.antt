-- ===== src/Logging.antt =====
-- infra/log.py: which sinks the set-up functions leave, over loguru as a record of its operations with the
-- laws that its documentation gives. The formats of the lines are left out.
pub mod Ids
pub mod Routing
pub mod Handlers
use telegram_olymptrade_sign.Prelude.{
  ℕ, zero, suc, ◌+◌, ◌≤◌, ◌<◌, ◌≡◌, Bool, true, false, ◌&&◌, not, Option, none, some, List, [], ◌∷◌,
  ◌++◌, leb, ◌==◌, if◌then◌else◌,
}

pub data Target : Type 0 where
  stderr log_file parse_failures_file : Target

-- A level is its number: 20 is INFO, 30 is WARNING. `filtered` is the filter `_not_parse_failure`.
pub record Sink : Type 0 where
  pub target : Target
  pub level : ℕ
  pub filtered : Bool

-- A record, with its extra `parse_failure`.
pub record LogRecord : Type 0 where
  pub level : ℕ
  pub parse_failure : Bool

abbrev pub info : ℕ
info = 20

abbrev pub warning : ℕ
warning = 30

abbrev pub has_id : ℕ → List (ℕ × Sink) → Bool
has_id k [] = false
has_id k ((j, s) ∷ ss) = if j == k then true else has_id k ss

abbrev pub without : ℕ → List (ℕ × Sink) → List (ℕ × Sink)
without k [] = []
without k ((j, s) ∷ ss) = let rest = without k ss in if j == k then rest else (j, s) ∷ rest

-- loguru: the sinks with their ids, and a bound of the ids given so far. An id is never given twice;
-- `remove` of an id that is not there is a ValueError, which is `none`.
pub record Loguru : Type 1 where
  pub S : Type 0
  pub sinks : S → List (ℕ × Sink)
  pub issued : S → ℕ
  pub add : Sink → S → ℕ × S
  pub remove_all : S → S
  pub remove : ℕ → S → Option S
  pub add_sinks : (k : Sink) (s : S) → sinks (add k s).1 ≡ sinks s ++ (((add k s).0, k) ∷ [])
  pub add_new : (k : Sink) (s : S) → issued s ≤ (add k s).0
  pub add_issued : (k : Sink) (s : S) → (add k s).0 < issued (add k s).1
  pub remove_all_sinks : (s : S) → sinks (remove_all s) ≡ []
  pub remove_all_issued : (s : S) → issued (remove_all s) ≡ issued s
  pub remove_missing : (k : ℕ) (s : S) → has_id k (sinks s) ≡ false → remove k s ≡ none
  pub remove_found :
      (k : ℕ) (s : S)
      → has_id k (sinks s) ≡ true
      → (t : S) × (remove k s ≡ some t) × (sinks t ≡ without k (sinks s)) × (issued t ≡ issued s)

abbrev pub stderr_sink : Sink
stderr_sink = record { target = stderr; level = info; filtered = true }

abbrev pub log_file_sink : Sink
log_file_sink = record { target = log_file; level = info; filtered = true }

abbrev pub parse_failures_sink : Sink
parse_failures_sink = record { target = parse_failures_file; level = warning; filtered = false }

module _ (loguru : Loguru) where
  -- loguru, and `_parse_failures_sink_id`.
  pub record Logging : Type 0 where
    pub state : loguru.S
    pub parse_failures_sink_id : Option ℕ

  unfoldable pub setup_logging : Logging → Logging
  setup_logging l =
      let (_, with_stderr) = loguru.add stderr_sink (loguru.remove_all l.state) in
      let (_, with_file) = loguru.add log_file_sink with_stderr in record l { state = with_file }

  -- A sink that is no longer there is not missed.
  unfoldable pub removed : Option ℕ → loguru.S → loguru.S
  removed none s = s
  removed (some k) s = elim (loguru.remove k s) [ none ↦ s | some t ↦ t ]

  unfoldable pub setup_parse_failures_log : Logging → Logging
  unfolding removed
  setup_parse_failures_log l =
      let (k, s) = loguru.add parse_failures_sink (removed l.parse_failures_sink_id l.state) in
      record { state = s; parse_failures_sink_id = some k }

-- Whether a sink takes a record.
unfoldable pub takes : Sink → LogRecord → Bool
takes s r = leb s.level r.level && (if s.filtered then not r.parse_failure else true)

unfoldable pub delivered : List (ℕ × Sink) → LogRecord → List Target
unfolding takes
delivered [] r = []
delivered ((k, s) ∷ ss) r = let rest = delivered ss r in if takes s r then s.target ∷ rest else rest
