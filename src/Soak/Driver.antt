-- ===== src/Soak/Driver.antt =====
-- tools/soak.py: the run of the harness, over what the application and the database show. `asyncio.run`
-- raises a RuntimeError where a loop is running already.
use telegram_olymptrade_sign.Prelude.{
  ℕ, ◌+◌, ◌≡◌, ◌≢◌, refl, sym, ap, ◌∙◌, Bool, true, false, Option, none, some, String, List, [],
  ◌∷◌, ◌++◌, map, str_eq, eq_iff, leb, if◌then◌else◌, Bool-cases, inl, inr,
}
use telegram_olymptrade_sign.Config.{Time, seconds}
use telegram_olymptrade_sign.Domain.State.{Status, is_terminal}
use telegram_olymptrade_sign.Store.Rows.{Db}
use telegram_olymptrade_sign.Store.Statements.{placed_rows}
use telegram_olymptrade_sign.Soak.{
  StageEntry, SignalEntry, FixtureEntry, LivenessRecord, Soak, assert_invariants, report_passed,
  expected_total,
}
use telegram_olymptrade_sign.Soak.Fixture.{expected_total_lem}
use telegram_olymptrade_sign.Soak.Verdict.{report_passed-IsSound}
use telegram_olymptrade_sign.Soak.Env.{env_get}

-- How a function of the harness ends: the RuntimeError is `nested_run`, and `timeout_expired` what the
-- second wait for the application raises.
pub data Ran (A : Type 0) : Type 0 where
  gives : A → Ran A
  nested_run : Ran A
  timeout_expired : Ran A

-- The application is started, is sent SIGTERM, and is killed.
pub data ProcAct : Type 0 where
  started terminated killed : ProcAct

-- A part of the run, with what it does to the application.
abbrev pub Seen : Type 0 → Type 0
Seen A = Ran A × List ProcAct

infixl 10 ◌>>=◌
abbrev pub ◌>>=◌ : {A B : Type 0} → Seen A → (A → Seen B) → Seen B
(gives a, acts) >>= f = let (end, more) = f a in (end, acts ++ more)
(nested_run, acts) >>= f = (nested_run, acts)
(timeout_expired, acts) >>= f = (timeout_expired, acts)

-- The application ends within ten seconds of SIGTERM, or is killed and then ends, or is still there five
-- seconds later.
pub data Stop : Type 0 where
  ends_in_time ends_killed hangs : Stop

-- SIGTERM and the two waits.
unfoldable pub stop : Stop → Seen Unit
stop ends_in_time = (gives tt, terminated ∷ [])
stop ends_killed = (gives tt, terminated ∷ killed ∷ [])
stop hangs = (timeout_expired, terminated ∷ killed ∷ [])

-- `asyncio.run`, by whether a loop is running.
unfoldable pub asyncio_run : {A : Type 0} → Bool → A → Ran A
asyncio_run true a = nested_run
asyncio_run false a = gives a

-- `env.get("DATABASE_URL", "")`
unfoldable pub database_url : List (String × String) → String
unfolding env_get
database_url env = elim (env_get "DATABASE_URL" env) [ none ↦ "" | some dsn ↦ dsn ]

-- `_async_read_in_flight`
unfoldable pub in_flight_ids : Db → List String
unfolding placed_rows
in_flight_ids db = map (λ r. r.signal_id) (placed_rows db.signals)

-- One signal of `_async_check_completion`, over what the polls before the deadline find: no row, or a status.
unfoldable pub is_completed : List (Option Status) → Bool
is_completed [] = false
is_completed (none ∷ polls) = true
is_completed (some status ∷ polls) =
    let rest = is_completed polls in if is_terminal status then true else rest

-- The polls that are made before the deadline, by their times.
unfoldable pub before_deadline : Time → List (Time × Option Status) → List (Option Status)
before_deadline deadline [] = []
before_deadline deadline ((now, found) ∷ polls) =
    let rest = before_deadline deadline polls in if leb deadline now then [] else found ∷ rest

-- What the harness meets: the loop that it runs in, the tables when the application is stopped, its two stops, the polls of each signal afterwards, the
-- restart, and the inputs of the report.
pub record Meets : Type 0 where
  pub loop_running : Bool
  pub at_restart : Db
  pub first_stop : Stop
  pub second_stop : Stop
  pub restarted_at_unix : Time
  pub polls : String → List (Time × Option Status)
  pub app_log : Option String
  pub rows : List SignalEntry × List StageEntry
  pub fixture : List FixtureEntry
  pub liveness_records : List LivenessRecord

-- `_read_in_flight_signals_from_db`
unfoldable pub read_in_flight : Meets → List (String × String) → Ran (List String)
unfolding database_url asyncio_run in_flight_ids
read_in_flight m env =
    if str_eq (database_url env) ""
    then gives []
    else asyncio_run m.loop_running (in_flight_ids m.at_restart)

-- `_async_check_completion`
unfoldable pub check_completion : Meets → List String → List (String × Bool)
unfolding is_completed before_deadline
check_completion m [] = []
check_completion m (id ∷ ids) =
    (id, is_completed (before_deadline (m.restarted_at_unix + seconds 60) (m.polls id)))
    ∷ check_completion m ids

-- `_check_cascades_completed_within_60s`
unfoldable pub check_completed :
    Meets → List (String × String) → List String → Ran (List (String × Bool))
unfolding check_completion
check_completed m env [] = gives []
check_completed m env (id ∷ ids) =
    if str_eq (database_url env) ""
    then gives (map (λ sid. (sid, false)) (id ∷ ids))
    else asyncio_run m.loop_running (check_completion m (id ∷ ids))

-- `_read_signals_stages_from_db`
unfoldable pub read_signals_stages :
    Meets → List (String × String) → Ran (List SignalEntry × List StageEntry)
read_signals_stages m env =
    if str_eq (database_url env) "" then gives ([], []) else asyncio_run m.loop_running m.rows

-- The report of a run.
abbrev soak_of :
    Meets → Time → List String → List (String × Bool) → List SignalEntry × List StageEntry → Soak
soak_of m duration_s in_flight completed rows = record {
  app_log = m.app_log;
  signals = rows.0;
  stages = rows.1;
  fixture = m.fixture;
  liveness_records = m.liveness_records;
  drill = record { in_flight_signal_ids = in_flight; completed_within_60s = completed };
  expected_duration_seconds = duration_s;
}

-- `_run`, from the start of the application to the exit code.
unfoldable pub run : Meets → List (String × String) → Time → Seen ℕ
unfolding read_in_flight stop check_completed read_signals_stages
run m env duration_s = do
  _ ← (gives tt, started ∷ [])
  in_flight ← (read_in_flight m env, [])
  _ ← stop m.first_stop
  _ ← (gives tt, started ∷ [])
  _ ← stop m.second_stop
  completed ← (check_completed m env in_flight, [])
  rows ← (read_signals_stages m env, [])
  (
    gives (
        if report_passed (assert_invariants (soak_of m duration_s in_flight completed rows))
        then 0
        else 1),
    [],
  )

bind_stop : (x : Stop) (f : Unit → Seen ℕ) → (stop x >>= f).0 ≡ gives 0 → (f tt).0 ≡ gives 0
unfolding stop
bind_stop ends_in_time f h = h
bind_stop ends_killed f h = h
bind_stop hangs f h = cc

-- The exit code without a database.
abbrev bare : Meets → Time → Bool
bare m duration_s = report_passed (assert_invariants (soak_of m duration_s [] [] ([], [])))

exit_zero : (b : Bool) → ◌≡◌ {A = Ran ℕ} (gives (if b then 0 else 1)) (gives 0) → b ≡ true
exit_zero true e = refl
exit_zero false e = cc

module _ (m : Meets) (env : List (String × String)) (duration_s : Time) where
  run_with_database :
      m.loop_running ≡ true
      → str_eq (database_url env) "" ≡ false
      → run m env duration_s ≡ (nested_run, started ∷ [])
  unfolding run read_in_flight asyncio_run
  run_with_database running there = simp (run, read_in_flight, there, running) refl

  abbrev bare_end : Seen ℕ
  bare_end = (gives (if bare m duration_s then 0 else 1), [])

  abbrev second_half : Seen ℕ
  second_half = do _ ← (gives tt, started ∷ []); _ ← stop m.second_stop; bare_end

  abbrev bare_run : Seen ℕ
  bare_run = do _ ← (gives tt, started ∷ []); _ ← stop m.first_stop; second_half

  run_without_database : str_eq (database_url env) "" ≡ true → run m env duration_s ≡ bare_run
  unfolding run read_in_flight read_signals_stages check_completed
  run_without_database missing = rw (run, read_in_flight, missing) refl

  bare_run-zero : bare_run.0 ≡ gives 0 → bare m duration_s ≡ true
  bare_run-zero h =
      exit_zero (bare m duration_s)
        (bind_stop m.second_stop (λ _. bare_end) (bind_stop m.first_stop (λ _. second_half) h))

nested≢gives : (n : ℕ) → nested_run ≢ gives n
nested≢gives n e = cc

bare-empty :
    (m : Meets) (duration_s : Time) → bare m duration_s ≡ true → expected_total m.fixture ≡ 0
bare-empty m duration_s h =
    let sound = (report_passed-IsSound (soak_of m duration_s [] [] ([], []))).0 h in
    expected_total_lem m.fixture ∙ sym sound.5

-- `main` calls `_run` by `asyncio.run`, so that a loop is running. Where the environment then has a DATABASE_URL, the harness ends with a RuntimeError before any
-- report and leaves the application that it started running; and it passes only where there is none and the
-- fixture expects no stage at all.
pub run_passes_only_empty :
    (m : Meets) (env : List (String × String)) (duration_s : Time)
    → m.loop_running ≡ true
    → (database_url env ≢ "" → run m env duration_s ≡ (nested_run, started ∷ []))
      × ((run m env duration_s).0 ≡ gives 0
          → (database_url env ≡ "") × (expected_total m.fixture ≡ 0))
run_passes_only_empty m env duration_s running = elim (Bool-cases (str_eq (database_url env) "")) [
  | inl missing ↦ (
    (λ there. absurd (there ((eq_iff (database_url env) "").0 missing))),
    λ passes. (
      (eq_iff (database_url env) "").0 missing,
      bare-empty m duration_s (
          bare_run-zero m env duration_s
            (sym (ap (λ r. r.0) (run_without_database m env duration_s missing)) ∙ passes)),
    ),
  )
  | inr there ↦ (
    (λ h. run_with_database m env duration_s running there),
    λ passes. absurd (
        nested≢gives 0
          (sym (ap (λ r. r.0) (run_with_database m env duration_s running there)) ∙ passes)),
  )
]
