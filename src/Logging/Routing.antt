-- ===== src/Logging/Routing.antt =====
-- Where a record goes, once the logs are set up.
use mathlib.Core.Path.{subst}
use telegram_olymptrade_sign.Prelude.{
  ℕ, zero, suc, ◌<◌, ◌≡◌, ◌≢◌, refl, sym, ap, ◌∙◌, true, false, ◌&&◌, not, Option, none, some, List,
  [], ◌∷◌, ◌++◌, arith, leb, if◌then◌else◌,
}
use telegram_olymptrade_sign.Logging.Ids.{SetUp, set_ups, IsIssued, set_ups-IsIssued}
use telegram_olymptrade_sign.Logging.{
  Loguru, Target, stderr, log_file, parse_failures_file, LogRecord, Logging, setup_logging, removed,
  setup_parse_failures_log, delivered, stderr_sink, log_file_sink, parse_failures_sink, has_id,
  without, info, warning,
}

module _ (loguru : Loguru) where
  -- The two sinks of the application.
  record HasTwo (s : loguru.S) : Type 0 where
    a : ℕ
    b : ℕ
    sinks : loguru.sinks s ≡ (a, stderr_sink) ∷ (b, log_file_sink) ∷ []
    a_issued : a < loguru.issued s
    b_issued : b < loguru.issued s

  -- The same and the one of the parse failures, whose id is remembered.
  record HasThree (l : Logging loguru) : Type 0 where
    a : ℕ
    b : ℕ
    c : ℕ
    sinks :
        loguru.sinks l.state ≡ (a, stderr_sink) ∷ (b, log_file_sink) ∷ (c, parse_failures_sink) ∷ []
    remembered : l.parse_failures_sink_id ≡ some c
    a_issued : a < loguru.issued l.state
    b_issued : b < loguru.issued l.state
    a_other : a ≢ c
    b_other : b ≢ c

  HasTwo-add :
      (s : loguru.S)
      → HasTwo s
      → (let (k, t) = loguru.add parse_failures_sink s in
          HasThree (record { state = t; parse_failures_sink_id = some k }))
  HasTwo-add s h = record {
    a = h.a;
    b = h.b;
    c = (loguru.add parse_failures_sink s).0;
    sinks =
        loguru.add_sinks parse_failures_sink s
        ∙ ap (λ l. l ++ (((loguru.add parse_failures_sink s).0, parse_failures_sink) ∷ [])) h.sinks;
    remembered = refl;
    a_issued = omega (
      arith,
      h.a_issued,
      loguru.add_new parse_failures_sink s,
      loguru.add_issued parse_failures_sink s,
    );
    b_issued = omega (
      arith,
      h.b_issued,
      loguru.add_new parse_failures_sink s,
      loguru.add_issued parse_failures_sink s,
    );
    a_other = λ e. absurd (omega (arith, h.a_issued, loguru.add_new parse_failures_sink s, e));
    b_other = λ e. absurd (omega (arith, h.b_issued, loguru.add_new parse_failures_sink s, e));
  }

  setup_logging-HasTwo : (l : Logging loguru) → HasTwo (setup_logging loguru l).state
  unfolding setup_logging
  setup_logging-HasTwo l =
      let s0 = loguru.remove_all l.state in
      let s1 = (loguru.add stderr_sink s0).1 in
      record {
        a = (loguru.add stderr_sink s0).0;
        b = (loguru.add log_file_sink s1).0;
        sinks =
            loguru.add_sinks log_file_sink s1
            ∙ ap (λ ss. ss ++ (((loguru.add log_file_sink s1).0, log_file_sink) ∷ []))
                (loguru.add_sinks stderr_sink s0
                  ∙ ap (λ ss. ss ++ (((loguru.add stderr_sink s0).0, stderr_sink) ∷ []))
                      (loguru.remove_all_sinks l.state));
        a_issued = omega (
          arith,
          loguru.add_issued stderr_sink s0,
          loguru.add_new log_file_sink s1,
          loguru.add_issued log_file_sink s1,
        );
        b_issued = loguru.add_issued log_file_sink s1;
      }

  -- The id that is remembered is none of the two, as it was given before them.
  stale :
      (l : Logging loguru) (k : ℕ)
      → IsIssued loguru l
      → l.parse_failures_sink_id ≡ some k
      → has_id k (loguru.sinks (setup_logging loguru l).state) ≡ false
  unfolding setup_logging
  stale l k h e =
      let s0 = loguru.remove_all l.state in
      let s1 = (loguru.add stderr_sink s0).1 in
      ground (
        arith,
        h k e,
        loguru.remove_all_issued l.state,
        loguru.remove_all_sinks l.state,
        loguru.add_sinks stderr_sink s0,
        loguru.add_new stderr_sink s0,
        loguru.add_issued stderr_sink s0,
        loguru.add_sinks log_file_sink s1,
        loguru.add_new log_file_sink s1,
      )

  kept_id :
      (l : Logging loguru) (k : ℕ)
      → (setup_logging loguru l).parse_failures_sink_id ≡ some k
      → l.parse_failures_sink_id ≡ some k
  unfolding setup_logging
  kept_id l k e = e

  removed_stale :
      (o : Option ℕ) (s : loguru.S)
      → ((k : ℕ) → o ≡ some k → has_id k (loguru.sinks s) ≡ false)
      → removed loguru o s ≡ s
  unfolding removed
  removed_stale none s h = refl
  removed_stale (some k) s h = rw (loguru.remove_missing k s (h k refl), removed) refl

  first-HasThree :
      (l : Logging loguru)
      → IsIssued loguru l
      → HasThree (setup_parse_failures_log loguru (setup_logging loguru l))
  unfolding setup_parse_failures_log
  first-HasThree l h =
      let l' = setup_logging loguru l in
      HasTwo-add (removed loguru l'.parse_failures_sink_id l'.state) (
        subst HasTwo
          (sym
            (removed_stale l'.parse_failures_sink_id l'.state (λ k e. stale l k h (kept_id l k e))))
          (setup_logging-HasTwo l))

  three-has_id : (l : Logging loguru) (h : HasThree l) → has_id h.c (loguru.sinks l.state) ≡ true
  three-has_id l h = ap (has_id h.c) h.sinks ∙ ground (arith, h.a_other, h.b_other)

  three-without :
      (l : Logging loguru) (h : HasThree l)
      → without h.c (loguru.sinks l.state) ≡ (h.a, stderr_sink) ∷ (h.b, log_file_sink) ∷ []
  three-without l h = ap (without h.c) h.sinks ∙ ground (arith, h.a_other, h.b_other)

  removed-HasTwo :
      (l : Logging loguru) → HasThree l → HasTwo (removed loguru l.parse_failures_sink_id l.state)
  unfolding removed
  removed-HasTwo l h =
      let (t, e, ss, i) = loguru.remove_found h.c l.state (three-has_id l h) in
      let same : removed loguru l.parse_failures_sink_id l.state ≡ t =
        rw (h.remembered, e, removed) refl in
      subst HasTwo (sym same) (record {
        a = h.a;
        b = h.b;
        sinks = ss ∙ three-without l h;
        a_issued = omega (arith, h.a_issued, i);
        b_issued = omega (arith, h.b_issued, i);
      })

  again-HasThree : (l : Logging loguru) → HasThree l → HasThree (setup_parse_failures_log loguru l)
  unfolding setup_parse_failures_log
  again-HasThree l h =
      HasTwo-add (removed loguru l.parse_failures_sink_id l.state) (removed-HasTwo l h)

  -- The log of parse failures is set up once or more.
  unfoldable pub failures_log : ℕ → Logging loguru → Logging loguru
  failures_log zero l = setup_parse_failures_log loguru l
  failures_log (suc n) l = setup_parse_failures_log loguru (failures_log n l)

  failures_log-HasThree :
      (n : ℕ) (l : Logging loguru)
      → IsIssued loguru l
      → HasThree (failures_log n (setup_logging loguru l))
  unfolding failures_log
  failures_log-HasThree zero l h = first-HasThree l h
  failures_log-HasThree (suc n) l h =
      again-HasThree (failures_log n (setup_logging loguru l)) (failures_log-HasThree n l h)

-- Where a record is to go.
abbrev pub expected : LogRecord → List Target
expected r =
    if leb warning r.level
    then (if r.parse_failure
        then parse_failures_file ∷ []
        else stderr ∷ log_file ∷ parse_failures_file ∷ [])
    else if leb info r.level && not r.parse_failure
    then stderr ∷ log_file ∷ []
    else []

delivered-three :
    (a b c : ℕ) (r : LogRecord)
    → delivered ((a, stderr_sink) ∷ (b, log_file_sink) ∷ (c, parse_failures_sink) ∷ []) r
      ≡ expected r
unfolding delivered
delivered-three a b c r = ground arith

-- However often the two logs have been set up before, once the application's log has been set up and then
-- the log of parse failures, one time or more, each record is written at most once to each place: a parse failure of
-- the level of a warning to parse_failures.log alone, any other record from INFO on to stderr and the log file,
-- and from WARNING on to parse_failures.log as well, and a record below INFO nowhere.
pub records_routed :
    (loguru : Loguru) (before : List SetUp) (n : ℕ) (l : Logging loguru) (r : LogRecord)
    → l.parse_failures_sink_id ≡ none
    → let l' = failures_log loguru n (setup_logging loguru (set_ups loguru before l)) in
      delivered (loguru.sinks l'.state) r ≡ expected r
records_routed loguru before n l r fresh =
    let issued = set_ups-IsIssued loguru before l (λ k e. cc) in
    let h = failures_log-HasThree loguru n (set_ups loguru before l) issued in
    ap (λ ss. delivered ss r) h.sinks ∙ delivered-three h.a h.b h.c r
