-- ===== src/Domain/Gale.antt =====
-- domain/gale.py: the stages of a cascade, their stakes and their trigger times.
use telegram_olymptrade_sign.Prelude.{ℕ, ◌+◌, ◌*◌}
use telegram_olymptrade_sign.Config.{Config, Time, seconds}

pub data Stage : Type 0 where
  initial gale1 gale2 : Stage

unfoldable pub amount_for_stage : Stage → Config → ℕ
amount_for_stage initial config = config.amount_initial
amount_for_stage gale1 config = config.amount_gale1
amount_for_stage gale2 config = config.amount_gale2

unfoldable pub compute_gale_triggers : Time → ℕ → Time × Time
compute_gale_triggers trigger_unix_initial expiration_seconds =
    let gale1_unix = trigger_unix_initial + seconds expiration_seconds in
    let gale2_unix = trigger_unix_initial + 2 * seconds expiration_seconds in
    (gale1_unix, gale2_unix)
