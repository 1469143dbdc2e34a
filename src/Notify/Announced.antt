-- ===== src/Notify/Announced.antt =====
-- What notify/telegram_dm.py announces after a loss, against the state that domain/state.py goes into.
use telegram_olymptrade_sign.Prelude.{
  ℕ, ◌≡◌, ◌≢◌, ◌↔◌, refl, true, Option, none, some, String, List, [], ◌∷◌, arith,
}
use mathlib.Core.Path.{subst}
use telegram_olymptrade_sign.Prelude.Int.{ℤ}
use telegram_olymptrade_sign.Config.{Config, Time}
use telegram_olymptrade_sign.Clock.{LocalTime, format_local_hhmm}
use telegram_olymptrade_sign.Domain.Gale.{Stage, initial, gale1, gale2, amount_for_stage}
use telegram_olymptrade_sign.Domain.Signal.{Signal}
use telegram_olymptrade_sign.Domain.State.{
  StageResult, SignalState, Event, result_event, is_loss, from_signal, transition,
}
use telegram_olymptrade_sign.Domain.State.Steps.{run}
use telegram_olymptrade_sign.Domain.State.Windows.{IsTimed, run-IsTimed}
use telegram_olymptrade_sign.Notify.Text.{
  joined, money, next_label, stage_gale_unix, loss_end, loss_text, lost_text,
}

-- The state after a loss is that of a later stage, with its stake and its trigger, or has no stage.
abbrev IsAnnounced : Signal → Config → SignalState → Option Stage → Type 0
IsAnnounced signal c s none = Unit
IsAnnounced signal c s (some next) =
    (next ≢ initial)
    × (s.amount ≡ amount_for_stage next c)
    × ((stage_gale_unix signal next ≡ s.trigger_unix) ↔ (signal.expiration_seconds ≡ 300))

loss-IsAnnounced :
    (signal : Signal) (c : Config) (s s' : SignalState) (r : StageResult) (now : Time)
    → IsTimed signal s
    → is_loss r ≡ true
    → (transition s (result_event r now) c).new_state ≡ some s'
    → IsAnnounced signal c s' s'.stage
unfolding transition stage_gale_unix
loss-IsAnnounced signal c s s' r now timed lost e = ground arith

-- The line that announces a next stage, with its trigger and its stake.
abbrev pub announcement : LocalTime → String → Time → ℕ → String
announcement tz label trigger_unix amount = joined (
    "Next: scheduling "
    ∷ label
    ∷ " at "
    ∷ format_local_hhmm tz trigger_unix
    ∷ " (UTC-3), $"
    ∷ money amount
    ∷ [])

announcement-loss_end :
    (tz : LocalTime) (signal : Signal) (c : Config) (cumulative_pnl : ℤ) (next : Stage)
    (label : String) (t : Time) (amount : ℕ)
    → next_label next ≡ some label
    → stage_gale_unix signal next ≡ t
    → amount ≡ amount_for_stage next c
    → loss_end tz c signal cumulative_pnl (some next) ≡ some (announcement tz label t amount)
unfolding loss_end
announcement-loss_end tz signal c cumulative_pnl next label t amount named at stake =
    rw (loss_end, named, at, stake) refl

labelled : (next : Stage) → next ≢ initial → (label : String) × (next_label next ≡ some label)
unfolding next_label
labelled initial later = absurd (later refl)
labelled gale1 later = ("1st gale", refl)
labelled gale2 later = ("2nd gale", refl)

-- After a loss, tie or timeout in any reachable state, the next stage, if there is one, has a label, so
-- that the message does not fail. The trigger that it announces is that of the new state exactly if the
-- signal expires after 300 seconds, and then the message ends in the line with that label and the trigger
-- and the stake of the new state.
pub next_stage_announced :
    (tz : LocalTime) (signal : Signal) (c : Config) (es : List Event) (s' : SignalState)
    (r : StageResult) (now : Time) (stage next : Stage) (pnl : ℤ)
    → is_loss r ≡ true
    → (transition (run c (from_signal signal c) es) (result_event r now) c).new_state ≡ some s'
    → s'.stage ≡ some next
    → (label : String) × (next_label next ≡ some label)
      × ((stage_gale_unix signal next ≡ s'.trigger_unix) ↔ (signal.expiration_seconds ≡ 300))
      × (signal.expiration_seconds ≡ 300
          → loss_text tz c signal stage pnl s'.cumulative_pnl s'.stage
            ≡ some (lost_text signal stage pnl (announcement tz label s'.trigger_unix s'.amount)))
unfolding loss_text
next_stage_announced tz signal c es s' r now stage next pnl lost e staged =
    let (later, stake, times) = subst (IsAnnounced signal c s') staged (
      loss-IsAnnounced signal c (run c (from_signal signal c) es) s' r now (run-IsTimed signal c es)
        lost e) in
    let (label, named) = labelled next later in
    (
      label,
      named,
      times,
      λ h.
          rw
            (
              staged,
              announcement-loss_end tz signal c s'.cumulative_pnl next label s'.trigger_unix
                  s'.amount named (times.1 h) stake,
            )
            refl,
    )
