-- ===== src/Notify/Text.antt =====
-- notify/telegram_dm.py: the direct messages of a signal, of its trades and of their results.
use Prim.Native.String.{String}
use telegram_olymptrade_sign.Prelude.{ℕ, ◌+◌, ◌-◌, ◌*◌, ◌/◌, ◌%◌, Option, none, some, List, [], ◌∷◌}
use mathlib.Core.Option
use telegram_olymptrade_sign.Prelude.Int.{ℤ}
use telegram_olymptrade_sign.Config.{Config, Time, second, seconds}
use telegram_olymptrade_sign.Clock.{LocalTime, format_local_hhmm}
use telegram_olymptrade_sign.Domain.Gale.{Stage, initial, gale1, gale2, amount_for_stage}
use telegram_olymptrade_sign.Domain.Signal.{Signal, Direction, up, down}
use telegram_olymptrade_sign.Domain.Signal.Message.{followed_by}
use telegram_olymptrade_sign.Domain.Signal.Parser.{two_digits}
use telegram_olymptrade_sign.Notify.Money.{decimal, cents_text, fmt_signed, fmt_pnl}

-- The pieces of an f-string.
abbrev pub joined : List String → String
joined [] = String.[]
joined (s ∷ ss) = followed_by s (joined ss)

abbrev pub number_text : ℕ → String
number_text n = decimal n String.[]

abbrev pub money : ℕ → String
money n = cents_text n String.[]

-- `_stage_label`
unfoldable pub stage_label : Stage → String
stage_label initial = "INITIAL"
stage_label gale1 = "1st GALE"
stage_label gale2 = "2nd GALE"

unfoldable pub stage_index : Stage → ℕ
stage_index initial = 0
stage_index gale1 = 1
stage_index gale2 = 2

-- `_stage_gale_unix`
unfoldable pub stage_gale_unix : Signal → Stage → Time
unfolding stage_index
stage_gale_unix signal stage =
    signal.trigger_unix_initial + stage_index stage * seconds signal.expiration_seconds

-- `_duration_human`; the difference that stops at zero is the maximum with zero.
unfoldable pub duration_human : Time → Time → String
duration_human start_unix end_unix =
    let delta = (end_unix - start_unix) / second in
    decimal (delta / 60) (String.◌∷◌ "m" (two_digits (delta % 60) "s"))

unfoldable pub direction_label : Direction → String
direction_label up = "CALL"
direction_label down = "PUT"

unfoldable pub received_text : Signal → String
received_text signal = joined (
    "🟢 Signal received\nPair: "
    ∷ signal.pair
    ∷ "\nDirection: "
    ∷ direction_label signal.direction
    ∷ "\nTrigger: "
    ∷ signal.trigger_hhmm
    ∷ " (UTC-3)\nExpiration: "
    ∷ number_text (signal.expiration_seconds / 60)
    ∷ " min"
    ∷ [])

-- The message of a placed gale.
abbrev gale_placed : String → String → String → String → String → String
gale_placed label amount expires_hhmm triggered_by trade_id = joined (
    "⏱\u{fe0f} Trade placed (" ∷ label ∷ ")\nAmount: $" ∷ amount ∷ "\nExpires: " ∷ expires_hhmm
    ∷ " (UTC-3)\n" ∷ triggered_by ∷ "\nTrade ID: " ∷ trade_id ∷ [])

unfoldable pub placed_text : LocalTime → Signal → Stage → ℕ → String → String
placed_text tz signal stage amount trade_id =
    let label = stage_label stage in
    let expires_unix = stage_gale_unix signal stage + seconds signal.expiration_seconds in
    let expires_hhmm = format_local_hhmm tz expires_unix in
    elim stage [
      | initial ↦ joined (
          "⏱\u{fe0f} Trade placed ("
          ∷ label
          ∷ ")\nPair: "
          ∷ signal.pair
          ∷ "\nDirection: "
          ∷ direction_label signal.direction
          ∷ "\nAmount: $"
          ∷ money amount
          ∷ "\nExpires: "
          ∷ expires_hhmm
          ∷ " (UTC-3)\nTrade ID: "
          ∷ trade_id
          ∷ [])
      | gale1 ↦
          gale_placed label (money amount) expires_hhmm "Triggered by: loss on initial" trade_id
      | gale2 ↦
          gale_placed label (money amount) expires_hhmm "Triggered by: loss on 1st gale" trade_id
    ]

-- The last line of the message of a win.
unfoldable pub win_end : Stage → String
win_end initial = "\nSignal closed: done_win\nNext: stop (cascade ends)"
win_end gale1 = "\nCascade: stopped after gale1 — total recovered"
win_end gale2 = "\nCascade: stopped after gale2 — full recovery"

unfoldable pub win_text : Signal → Stage → ℤ → String
win_text signal stage pnl = joined (
    "✅ WIN ("
    ∷ stage_label stage
    ∷ ")\nPair: "
    ∷ signal.pair
    ∷ "\nPnL: "
    ∷ fmt_pnl pnl
    ∷ win_end stage
    ∷ [])

-- `next_label`; `none` is the KeyError for a next stage that is the first.
unfoldable pub next_label : Stage → Option String
next_label initial = none
next_label gale1 = some "1st gale"
next_label gale2 = some "2nd gale"

-- The last line of the message of a loss.
unfoldable pub loss_end : LocalTime → Config → Signal → ℤ → Option Stage → Option String
loss_end tz config signal cumulative_pnl none =
    some (joined ("Cascade: ended — full loss ($" ∷ fmt_signed cumulative_pnl ∷ " total)" ∷ []))
loss_end tz config signal cumulative_pnl (some next_stage) = elim (next_label next_stage) [
  | none ↦ none
  | some label ↦ some (
      joined (
        "Next: scheduling "
        ∷ label
        ∷ " at "
        ∷ format_local_hhmm tz (stage_gale_unix signal next_stage)
        ∷ " (UTC-3), $"
        ∷ money (amount_for_stage next_stage config)
        ∷ []))
]

abbrev pub lost_text : Signal → Stage → ℤ → String → String
lost_text signal stage pnl last = joined (
    "❌ LOSS ("
    ∷ stage_label stage
    ∷ ")\nPair: "
    ∷ signal.pair
    ∷ "\nPnL: "
    ∷ fmt_pnl pnl
    ∷ "\n"
    ∷ last
    ∷ [])

unfoldable pub loss_text :
    LocalTime → Config → Signal → Stage → ℤ → ℤ → Option Stage → Option String
unfolding loss_end
loss_text tz config signal stage pnl cumulative_pnl next_stage =
    Option.map (lost_text signal stage pnl) (loss_end tz config signal cumulative_pnl next_stage)
