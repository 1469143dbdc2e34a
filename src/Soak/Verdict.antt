-- ===== src/Soak/Verdict.antt =====
-- What the report of a soak run means when it passes.
use telegram_olymptrade_sign.Prelude.{
  ℕ, ◌+◌, ◌*◌, ◌<◌, ◌≤◌, ◌∙◌, sym, ◌≡◌, ◌↔◌, ◌⊎◌, refl, true, not, List, [], ◌∷◌, All, ltb, ◌==◌,
  length, arith,
}
use telegram_olymptrade_sign.Config.{seconds}
use telegram_olymptrade_sign.Soak.{
  Soak, assert_no_duplicate_trades, assert_no_missed_triggers, assert_invariants, report_passed,
  expected_total, InvariantResult, hours_of, connected_count, assert_no_exceptions,
  assert_no_dm_failures, assert_row_counts_match_expected, assert_telegram_liveness,
  assert_per_signal_outcomes,
}
use telegram_olymptrade_sign.Soak.Fixture.{
  stages_expected, connected_records, expected_total_lem, hours_of_lem,
}
use telegram_olymptrade_sign.Soak.Outcomes.{IsMet, All-is_mismatch}
use telegram_olymptrade_sign.Soak.Checks.{
  key_of, IsOncePerStage, IsNew, Shows, Lacks, IsCompleted, and_true, All-trivial, duplicates_iff,
  missed_triggers_iff, mismatches_iff, uptime_iff, quiet_iff, drill_iff,
}

report_passed_iff :
    (rs : List InvariantResult) → (report_passed rs ≡ true) ↔ All (λ r. r.passed ≡ true) rs
unfolding report_passed
report_passed_iff [] = ((λ h. tt), (λ h. refl))
report_passed_iff (r ∷ rs) =
    let both = and_true r.passed (report_passed rs) in
    let rest = report_passed_iff rs in
    ((λ h. let (p, q) = both.0 h in (p, rest.0 q)), (λ h. both.1 (h.0, rest.1 h.1)))

-- What a soak run is to show.
abbrev pub IsSound : Soak → Type 0
IsSound s =
    (Shows "bot_started" s.app_log ⊎ Shows "Bot started" s.app_log)
    × Lacks "Traceback (most recent call last):" s.app_log
    × All (λ t. t.placed_at_unix ≤ t.trigger_ts_unix + seconds 2) s.stages
    × IsOncePerStage s.stages
    × Lacks "DM send failed" s.app_log
    × (length s.stages ≡ stages_expected s.fixture)
    × IsCompleted s.drill
    × (s.expected_duration_seconds < seconds 3_600 * length (connected_records s.liveness_records))
    × All (IsMet s.signals) s.fixture

counts_iff : (a b : ℕ) → ((a == b) ≡ true) ↔ (a ≡ b)
counts_iff a b = ground arith

enough_iff : (a b : ℕ) → (not (ltb a b) ≡ true) ↔ (b ≤ a)
enough_iff a b = ground arith

-- The report passes exactly if the log shows a start and neither a traceback nor a failed message, every
-- stage was placed at most two seconds after its trigger, no signal has a stage twice, there are one, two,
-- three and three stages for each entry of the four outcomes that are played, the drill left no signal
-- behind, the run was shorter than as many hours as the client was recorded connected, and each entry of
-- the fixture with a signal id whose outcome asks for a status finds it in the last row of its signal.
pub report_passed-IsSound : (s : Soak) → (report_passed (assert_invariants s) ≡ true) ↔ IsSound s
unfolding assert_invariants assert_no_exceptions assert_no_missed_triggers
    assert_no_duplicate_trades assert_no_dm_failures assert_row_counts_match_expected
    assert_telegram_liveness assert_per_signal_outcomes
report_passed-IsSound s =
    let up = uptime_iff s.app_log in
    let quiet = quiet_iff "Traceback (most recent call last):" s.app_log in
    let timely = missed_triggers_iff (seconds 2) s.stages in
    let once = duplicates_iff [] s.stages in
    let fresh = All-trivial (λ t. IsNew [] (key_of t)) s.stages (λ t. tt) in
    let sent = quiet_iff "DM send failed" s.app_log in
    let rows = counts_iff (length s.stages) (expected_total s.fixture) in
    let drilled = drill_iff s.drill.in_flight_signal_ids s.drill.completed_within_60s in
    let alive =
      enough_iff (connected_count s.liveness_records) (hours_of s.expected_duration_seconds) in
    let total = expected_total_lem s.fixture in
    let hours = hours_of_lem s.expected_duration_seconds s.liveness_records in
    let met = All-is_mismatch s.signals s.fixture in
    let fits = mismatches_iff s.signals s.fixture in
    let all = report_passed_iff (assert_invariants s) in
    (
      (λ h.
          let (a, (b, (c, (d, (e, (f, (g, (i, (j, _))))))))) = all.0 h in
          (
            up.0 a,
            quiet.0 b,
            timely.0 c,
            (once.0 d).1,
            sent.0 e,
            rows.0 f ∙ total,
            drilled.0 g,
            hours.0 (alive.0 i),
            met.0 (fits.0 j),
          )),
      (λ (a, b, c, d, e, f, g, i, j). all.1 (
        up.1 a,
        (
          quiet.1 b,
          (
            timely.1 c,
            (
              once.1 (fresh, d),
              (
                sent.1 e,
                (
                  rows.1 (f ∙ sym total),
                  (drilled.1 g, (alive.1 (hours.1 i), (fits.1 (met.1 j), tt))),
                ),
              ),
            ),
          ),
        ),
      )),
    )
