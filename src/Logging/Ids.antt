-- ===== src/Logging/Ids.antt =====
-- The set-up functions in any order, and the id that they remember.
use telegram_olymptrade_sign.Prelude.{ℕ, ◌≤◌, ◌<◌, ◌≡◌, some, List, [], ◌∷◌, arith}
use telegram_olymptrade_sign.Logging.{
  Loguru, Sink, Logging, setup_logging, removed, setup_parse_failures_log, stderr_sink,
  log_file_sink, parse_failures_sink,
}

pub data SetUp : Type 0 where
  logging parse_failures_log : SetUp

-- The ids are below a bound.
abbrev AllBelow : ℕ → List (ℕ × Sink) → Type 0
AllBelow b [] = Unit
AllBelow b ((k, s) ∷ ss) = (k < b) × AllBelow b ss

module _ (loguru : Loguru) where
  unfoldable pub set_up : SetUp → Logging loguru → Logging loguru
  set_up logging l = setup_logging loguru l
  set_up parse_failures_log l = setup_parse_failures_log loguru l

  unfoldable pub set_ups : List SetUp → Logging loguru → Logging loguru
  unfolding set_up
  set_ups [] l = l
  set_ups (u ∷ us) l = set_ups us (set_up u l)

  -- The id that is remembered was given by loguru.
  abbrev pub IsIssued : Logging loguru → Type 0
  IsIssued l = (k : ℕ) → l.parse_failures_sink_id ≡ some k → k < loguru.issued l.state

  issued-setup_logging :
      (s : loguru.S)
      → loguru.issued s
        ≤ loguru.issued
            (loguru.add log_file_sink (loguru.add stderr_sink (loguru.remove_all s)).1).1
  issued-setup_logging s = omega (
    arith,
    loguru.remove_all_issued s,
    loguru.add_new stderr_sink (loguru.remove_all s),
    loguru.add_issued stderr_sink (loguru.remove_all s),
    loguru.add_new log_file_sink (loguru.add stderr_sink (loguru.remove_all s)).1,
    loguru.add_issued log_file_sink (loguru.add stderr_sink (loguru.remove_all s)).1,
  )

  set_up-IsIssued : (u : SetUp) (l : Logging loguru) → IsIssued l → IsIssued (set_up u l)
  unfolding set_up setup_logging setup_parse_failures_log
  set_up-IsIssued logging l h k e = omega (arith, h k e, issued-setup_logging l.state)
  set_up-IsIssued parse_failures_log l h k e =
      let s = removed loguru l.parse_failures_sink_id l.state in
      ground (arith, loguru.add_issued parse_failures_sink s)

  pub set_ups-IsIssued :
      (us : List SetUp) (l : Logging loguru) → IsIssued l → IsIssued (set_ups us l)
  unfolding set_ups
  set_ups-IsIssued [] l h = h
  set_ups-IsIssued (u ∷ us) l h = set_ups-IsIssued us (set_up u l) (set_up-IsIssued u l h)
