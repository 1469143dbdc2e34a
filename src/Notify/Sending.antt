-- ===== src/Notify/Sending.antt =====
-- notify/telegram_dm.py: the other direct messages, the message of each notification, and `_send`.
use Prim.Native.String.{String}
use telegram_olymptrade_sign.Prelude.{
  ℕ, zero, suc, Bool, Option, some, List, [], ◌∷◌, ◌++◌, if◌then◌else◌,
}
use telegram_olymptrade_sign.Prelude.Int.{ℤ}
use telegram_olymptrade_sign.Config.{Config, Time}
use telegram_olymptrade_sign.Clock.{LocalTime}
use telegram_olymptrade_sign.Domain.Gale.{Stage, initial, gale1, gale2}
use telegram_olymptrade_sign.Domain.Signal.{Signal}
use telegram_olymptrade_sign.Domain.Signal.Parser.{
  FailureReason, missing_header_line, missing_signal_line, multiple_signal_lines, bad_pair_format,
  bad_time_format, bad_direction, expiration_not_allowed,
}
use telegram_olymptrade_sign.Domain.State.{
  Status, pending, placed_initial, placed_gale1, placed_gale2, done_win, done_loss, done_tie,
}
use telegram_olymptrade_sign.Store.Rows.{DailySummaryRow, LimitType, loss, count, drawdown}
use telegram_olymptrade_sign.Notify.{
  Note, on_signal_received, on_trade_placed, on_win, on_loss, on_signal_expired,
  on_cascade_complete, on_signal_rejected_by_limit, on_pair_unavailable,
}
use telegram_olymptrade_sign.Domain.Signal.Message.{followed_by}
use telegram_olymptrade_sign.Notify.Money.{fmt_signed, fmt_pnl}
use telegram_olymptrade_sign.Notify.Text.{
  joined, number_text, money, stage_label, duration_human, received_text, placed_text, win_text,
  loss_text,
}

-- The names of the stage in the lines of an expired signal.
unfoldable pub expired_lines : Stage → String × String
expired_lines initial = ("\nTrigger was: ", "no trades placed; signal invalid")
expired_lines gale1 = ("\nGale1 trigger was: ", "no gale2 placed — cascade ended")
expired_lines gale2 = ("\nGale2 trigger was: ", "cascade ended, no recovery attempted")

unfoldable pub expired_text : Signal → Stage → String → String
expired_text signal stage trigger_hhmm =
    let (trigger_was, action) = expired_lines stage in
    joined (
      "⏰ Signal EXPIRED ("
      ∷ stage_label stage
      ∷ ")\nPair: "
      ∷ signal.pair
      ∷ trigger_was
      ∷ trigger_hhmm
      ∷ " (UTC-3)\nReason: time window passed before fire\nAction: "
      ∷ action
      ∷ [])

-- The text of a state, which Python has as the state itself.
unfoldable pub status_text : Status → String
status_text pending = "pending"
status_text placed_initial = "placed_initial"
status_text placed_gale1 = "placed_gale1"
status_text placed_gale2 = "placed_gale2"
status_text done_win = "done_win"
status_text done_loss = "done_loss"
status_text done_tie = "done_tie"
status_text Status.error = "error"

unfoldable pub complete_text : Time → Signal → Status → ℤ → String
complete_text now_unix signal final_state cumulative_pnl = joined (
    "🏁 Cascade complete: "
    ∷ status_text final_state
    ∷ "\nSignal ID: "
    ∷ signal.signal_id
    ∷ "\nTotal PnL: $"
    ∷ fmt_signed cumulative_pnl
    ∷ "\nDuration: "
    ∷ duration_human signal.received_at_unix now_unix
    ∷ [])

-- The first three lines of a message on a limit.
unfoldable pub limit_lines : Config → LimitType → DailySummaryRow → List String
limit_lines config loss summary =
    "⚠\u{fe0f} Daily loss limit reached\nLosses today: "
    ∷ fmt_pnl summary.realized_pnl
    ∷ "\nLimit: $"
    ∷ money config.daily_loss_limit
    ∷ []
limit_lines config count summary =
    "⚠\u{fe0f} Daily trade limit reached\nTrades today: "
    ∷ number_text summary.trades_count
    ∷ "\nLimit: "
    ∷ number_text config.daily_trade_limit
    ∷ []
limit_lines config drawdown summary =
    "⚠\u{fe0f} Daily drawdown limit reached\nDrawdown today: "
    ∷ fmt_pnl summary.realized_pnl
    ∷ "\nLimit: "
    ∷ number_text config.daily_drawdown_pct
    ∷ "%"
    ∷ []

unfoldable pub limit_text : Config → LimitType → DailySummaryRow → String
limit_text config limit_type summary =
    joined
      (limit_lines config limit_type summary ++ "\nAction: no new signals until 00:00 (UTC-3)" ∷ [])

unfoldable pub unavailable_text : String → String → String
unavailable_text pair message = joined (
    "⏭\u{fe0f} Skipped signal\nPair: " ∷ pair ∷ "\nReason: " ∷ message
    ∷ "\nWill retry on next tradeable signal." ∷ [])

unfoldable pub started_text : String → String → String → String
started_text mode watching timezone =
    joined
      ("🟢 Bot started\nMode: " ∷ mode ∷ "\nWatching: " ∷ watching ∷ "\nTimezone: " ∷ timezone ∷ [])

unfoldable pub stopping_text : ℕ → String
stopping_text open_cascades =
    joined ("🔴 Bot stopping\nOpen cascades: " ∷ number_text open_cascades ∷ [])

-- `FailureReason.value`
unfoldable pub reason_text : FailureReason → String
reason_text missing_header_line = "missing_header_line"
reason_text missing_signal_line = "missing_signal_line"
reason_text multiple_signal_lines = "multiple_signal_lines"
reason_text bad_pair_format = "bad_pair_format"
reason_text bad_time_format = "bad_time_format"
reason_text bad_direction = "bad_direction"
reason_text expiration_not_allowed = "expiration_not_allowed"

-- `text[:n]`
unfoldable pub prefix : ℕ → String → String
prefix zero s = String.[]
prefix (suc n) String.[] = String.[]
prefix (suc n) (String.◌∷◌ c s) = String.◌∷◌ c (prefix n s)

unfoldable pub parse_failure_text : String → FailureReason → String
parse_failure_text raw_text reason = joined (
    "⚠\u{fe0f} Skipped message (not a valid signal)\nReason: "
    ∷ reason_text reason
    ∷ "\nPreview: "
    ∷ prefix 200 raw_text
    ∷ [])

-- The message of each notification of the scheduler; `none` is the KeyError.
unfoldable pub text_of : LocalTime → Config → Time → Note → Option String
text_of tz config now_unix (on_signal_received signal) = some (received_text signal)
text_of tz config now_unix (on_trade_placed signal stage amount trade_id) =
    some (placed_text tz signal stage amount trade_id)
text_of tz config now_unix (on_win signal stage pnl cumulative_pnl) =
    some (win_text signal stage pnl)
text_of tz config now_unix (on_loss signal stage pnl cumulative_pnl next_stage) =
    loss_text tz config signal stage pnl cumulative_pnl next_stage
text_of tz config now_unix (on_signal_expired signal stage trigger_hhmm) =
    some (expired_text signal stage trigger_hhmm)
text_of tz config now_unix (on_cascade_complete signal final_state cumulative_pnl) =
    some (complete_text now_unix signal final_state cumulative_pnl)
text_of tz config now_unix (on_signal_rejected_by_limit signal limit_type summary) =
    some (limit_text config limit_type summary)
text_of tz config now_unix (on_pair_unavailable pair message) = some (unavailable_text pair message)

-- What `_send` logs.
pub data Sent : Type 0 where
  dm_event : String → Sent
  dm_failed : String → Sent

-- `_send`, by whether Telegram raises; the exception goes no further.
unfoldable pub send : (String → Bool) → String → Sent
unfolding prefix
send send_to_self text = if send_to_self text then dm_failed (prefix 200 text) else dm_event text

-- What `_send` writes to the log, by `repr` and the text of the exception.
unfoldable pub sent_line : (String → String) → String → Sent → String
sent_line repr exc (dm_event text) = text
sent_line repr exc (dm_failed preview) =
    followed_by "DM send failed: text_preview="
      (followed_by (repr preview) (followed_by " exc=" exc))
