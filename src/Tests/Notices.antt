-- ===== src/Tests/Notices.antt =====
-- Direct messages of sample amounts, and of the loss of a sample cascade.
use telegram_olymptrade_sign.Prelude.{◌/◌, ◌%◌, ◌≡◌, ◌↔◌, refl, some, String, [], ◌∷◌}
use telegram_olymptrade_sign.Prelude.Int.{ℤ, negsuc}
use telegram_olymptrade_sign.Config.{seconds}
use telegram_olymptrade_sign.Clock.{LocalTime}
use telegram_olymptrade_sign.Domain.Gale.{initial, gale1}
use telegram_olymptrade_sign.Domain.State.{
  StageResult, SignalState, fire_event, result_event, from_signal, transition,
}
use telegram_olymptrade_sign.Domain.State.Steps.{run}
use telegram_olymptrade_sign.Notify.{on_loss}
use telegram_olymptrade_sign.Notify.Money.{fmt_pnl, fmt_signed, digits_before, round_half_even}
use telegram_olymptrade_sign.Notify.Printed.{
  read_signed, without_dollar, hundredths, IsNear, fmt_pnl-IsReadable,
}
use telegram_olymptrade_sign.Notify.Text.{
  stage_gale_unix, stage_index, next_label, loss_text, lost_text, loss_end, stage_label,
}
use telegram_olymptrade_sign.Notify.Sending.{text_of}
use telegram_olymptrade_sign.Notify.Announced.{announcement, next_stage_announced}
use telegram_olymptrade_sign.Domain.Signal.Parser.{digit_char}
use telegram_olymptrade_sign.Clock.{format_local_hhmm}
use telegram_olymptrade_sign.Domain.Gale.{amount_for_stage}
use telegram_olymptrade_sign.Tests.{sample_config, sample_signal, sample_state}

-- A half of a cent is rounded to the even cent.
fmt_pnl_run : fmt_pnl (negsuc 123_449) ≡ "$-12.34"
unfolding fmt_pnl digits_before digit_char round_half_even
fmt_pnl_run = refl

fmt_pnl-IsReadable_example :
    (without_dollar (fmt_pnl (negsuc 123_449)) ≡ fmt_signed (negsuc 123_449))
    × ((cents : ℤ) × (read_signed (fmt_signed (negsuc 123_449)) ≡ some cents)
        × IsNear (hundredths cents) (negsuc 123_449))
fmt_pnl-IsReadable_example = fmt_pnl-IsReadable (negsuc 123_449)

abbrev sample_local : LocalTime
sample_local = record { hour = λ t. t / seconds 3_600 % 24; minute = λ t. t / seconds 60 % 60 }

abbrev lost_state : SignalState
lost_state =
    run sample_config sample_state
      (fire_event (seconds 1_000) ∷ result_event StageResult.loss (seconds 1_305) ∷ [])

lost_new :
    (transition
      (run sample_config sample_state (fire_event (seconds 1_000) ∷ []))
      (result_event StageResult.loss (seconds 1_305))
      sample_config).new_state
    ≡ some lost_state
unfolding run transition from_signal
lost_new = refl

lost_stage : lost_state.stage ≡ some gale1
unfolding run transition from_signal
lost_stage = refl

text_of_run :
    text_of sample_local sample_config 0
      (on_loss sample_signal initial (negsuc 19_999) (negsuc 19_999) (some gale1))
    ≡ some
        "❌ LOSS (INITIAL)\nPair: EURJPY\nPnL: $-2.00\nNext: scheduling 1st gale at 00:21 (UTC-3), $4.00"
unfolding text_of loss_text loss_end stage_label next_label fmt_pnl digits_before digit_char
    round_half_even stage_gale_unix stage_index format_local_hhmm amount_for_stage
text_of_run = refl

next_stage_announced_example :
    (label : String) × (next_label gale1 ≡ some label)
    × ((stage_gale_unix sample_signal gale1 ≡ lost_state.trigger_unix)
        ↔ (sample_signal.expiration_seconds ≡ 300))
    × (sample_signal.expiration_seconds ≡ 300
        → loss_text sample_local sample_config sample_signal initial
            (negsuc 19_999)
            lost_state.cumulative_pnl
            lost_state.stage
          ≡ some (
              lost_text sample_signal initial
                (negsuc 19_999)
                (announcement sample_local label lost_state.trigger_unix lost_state.amount)))
next_stage_announced_example =
    next_stage_announced sample_local sample_signal sample_config (fire_event (seconds 1_000) ∷ [])
      lost_state StageResult.loss (seconds 1_305) initial gale1 (negsuc 19_999) refl lost_new
      lost_stage
