-- ===== src/Tests/Soaks.antt =====
-- The theorems on tools/soak_assertions.py and tools/soak.py at a run with one won signal.
use telegram_olymptrade_sign.Prelude.{
  ◌≡◌, ◌≢◌, refl, String, List, str_eq, false, Option, none, arith, if◌then◌else◌, ◌↔◌, true, some,
  [], ◌∷◌,
}
use telegram_olymptrade_sign.Config.{Time, seconds}
use telegram_olymptrade_sign.Prelude.Int.{ℤ, pos}
use telegram_olymptrade_sign.Soak.{Soak, assert_invariants, report_passed}
use telegram_olymptrade_sign.Domain.Signal.Chars.{is_space}
use telegram_olymptrade_sign.Domain.State.{placed_initial}
use telegram_olymptrade_sign.Soak.{expected_total}
use telegram_olymptrade_sign.Soak.Env.{env_get, child_env, load_env_file}
use telegram_olymptrade_sign.Soak.Probe.{
  Round, Probed, goes_on, probe_round, probe, has_credentials, liveness_probe,
  read_liveness_records,
}
use telegram_olymptrade_sign.Soak.Liveness.{IsReady, IsHealthy, checked, liveness_passes}
use telegram_olymptrade_sign.Soak.Driver.{
  Meets, started, ends_in_time, ends_killed, gives, nested_run, database_url, run,
  run_passes_only_empty,
}
use telegram_olymptrade_sign.Tests.{db_with}
use telegram_olymptrade_sign.Soak.Verdict.{IsSound, report_passed-IsSound}

abbrev sample_soak : Soak
sample_soak = record {
  app_log = some "bot_started";
  signals = record { signal_id = "a1"; status = "done_win" } ∷ [];
  stages =
      record {
        signal_id = "a1";
        stage = "initial";
        placed_at_unix = seconds 11;
        trigger_ts_unix = seconds 10;
      }
      ∷ [];
  fixture = record { expected_outcome = some "win_at_initial"; signal_id = some "a1" } ∷ [];
  liveness_records = record { timestamp = seconds 20; connected = true } ∷ [];
  drill = record { in_flight_signal_ids = []; completed_within_60s = [] };
  expected_duration_seconds = seconds 60;
}

report_passed-IsSound_example :
    (report_passed (assert_invariants sample_soak) ≡ true) ↔ IsSound sample_soak
report_passed-IsSound_example = report_passed-IsSound sample_soak

abbrev sample_lines : List String
sample_lines =
    "# soak" ∷ " DRY_RUN = 'false' " ∷ "no assignment" ∷ "DATABASE_URL=\"postgresql://db\"" ∷ []

sample_lines_run :
    load_env_file (some sample_lines)
    ≡ ("DRY_RUN", "false") ∷ ("DATABASE_URL", "postgresql://db") ∷ []
unfolding load_env_file is_space
sample_lines_run = refl

abbrev sample_env : List (String × String)
sample_env = load_env_file (some sample_lines)

abbrev sample_meets : Meets
sample_meets = record {
  loop_running = true;
  at_restart = db_with placed_initial;
  restarted_at_unix = seconds 30;
  first_stop = ends_in_time;
  second_stop = ends_killed;
  polls = λ id. [];
  app_log = sample_soak.app_log;
  rows = (sample_soak.signals, sample_soak.stages);
  fixture = sample_soak.fixture;
  liveness_records = sample_soak.liveness_records;
}

run_passes_only_empty_example :
    let env = child_env sample_env "soak.json" "app.log" in
    (database_url env ≢ "" → run sample_meets env (seconds 60) ≡ (nested_run, started ∷ []))
    × ((run sample_meets env (seconds 60)).0 ≡ gives 0
        → (database_url env ≡ "") × (expected_total sample_meets.fixture ≡ 0))
run_passes_only_empty_example =
    run_passes_only_empty sample_meets (child_env sample_env "soak.json" "app.log") (seconds 60)
      refl

abbrev sample_settings : List (String × String)
sample_settings =
    ("TELEGRAM_API_ID", "7") ∷ ("TELEGRAM_API_HASH", "hash") ∷ ("TELEGRAM_SESSION_STRING", "s") ∷ []

-- An `int` that reads every text but the empty one as 7.
abbrev sample_int : String → Option ℤ
sample_int s = if str_eq s "" then none else some (pos 7)

abbrev answered : Time → Round
answered t = record { cancel = false; tested = t; now = t; get_me_raises = false }

abbrev sample_probed : Probed
sample_probed = record {
  at = seconds 2_000;
  connect_raises = false;
  authorized = some true;
  start = seconds 2_000;
  rounds =
      answered (seconds 2_000)
      ∷ answered (seconds 2_060)
      ∷ answered (seconds 2_120)
      ∷ answered (seconds 2_180)
      ∷ answered (seconds 2_240)
      ∷ [];
}

sample-IsReady : IsReady sample_int sample_settings sample_probed
unfolding has_credentials env_get
sample-IsReady = record { has = refl; connects = refl; authorized = refl }

sample-IsHealthy : IsHealthy (seconds 2_000) (seconds 300) (seconds 2_000) sample_probed.rounds
unfolding goes_on
sample-IsHealthy = ground arith

liveness_passes_example : checked sample_int sample_settings (seconds 300) sample_probed ≡ true
liveness_passes_example =
    liveness_passes sample_int sample_settings (seconds 300) sample_probed sample-IsReady
      (omega arith) (omega arith) sample-IsHealthy (omega arith)

-- The client of a run whose `get_me` raises is never asked whether it is connected.
unanswered_run :
    read_liveness_records (
      liveness_probe sample_int sample_settings (seconds 300) (record sample_probed {
        start = seconds 2_000;
        rounds =
            record (answered (seconds 2_000)) { get_me_raises = true }
            ∷ record (answered (seconds 2_100)) { get_me_raises = true }
            ∷ [];
      }))
    ≡ record { timestamp = seconds 2_000; connected = false }
      ∷ record { timestamp = seconds 2_100; connected = false }
      ∷ []
unfolding read_liveness_records liveness_probe has_credentials env_get probe goes_on probe_round
unanswered_run = refl
