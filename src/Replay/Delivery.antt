-- ===== src/Replay/Delivery.antt =====
-- What the listener makes of an entry, and when.
use telegram_olymptrade_sign.Prelude.{
  ℕ, suc, ◌+◌, ◌*◌, ◌≤◌, ◌<◌, ◌≡◌, length, Option, String, refl, ap, ◌∙◌, true, false, some, List,
  [], ◌∷◌, All, arith, max,
}
use telegram_olymptrade_sign.Prelude.Int.{ℤ, pos, negsuc, eq_ℤ}
use telegram_olymptrade_sign.Config.{Time}
use telegram_olymptrade_sign.Domain.Signal.{Direction}
use telegram_olymptrade_sign.Domain.Signal.Parser.{cleaned, parsed, int_max_str_digits}
use telegram_olymptrade_sign.Domain.Signal.Message.{
  Currency, message, IsQuietAfter, IsDigit, digits_number, said,
}
use telegram_olymptrade_sign.Domain.Signal.RoundTrip.{parse_signal-message}
use telegram_olymptrade_sign.Telegram.Channel.{unavailable, event_matches, matched}
use telegram_olymptrade_sign.Telegram.Listener.{
  Env, is_blank, allowed_expirations, read_event, read_match, read_text, read_parsed,
}
use telegram_olymptrade_sign.Replay.{
  ReplayEntry, injected, Injection, schedule, build_synthetic_message,
}

eq_ℤ_refl : (a : ℤ) → eq_ℤ a a ≡ true
eq_ℤ_refl a = ground arith

-- An event of the replay passes the filter of a resolver that has resolved the target chat.
injected_matches :
    (env : Env) (target : ℤ) (entry : ReplayEntry) (now received : Time)
    → env.resolver.resolved_chat_id ≡ some target
    → read_event env (injected target entry now) received
      ≡ read_text env (injected target entry now) received
unfolding read_event read_match event_matches injected build_synthetic_message
injected_matches env target entry now received resolved =
    let passes : event_matches env.lower env.resolver target unavailable ≡ matched true =
      ground (arith, eq_ℤ_refl target) in
    ap (read_match env (injected target entry now) received) passes

-- An entry whose text is a message of the channel with any further lines of which none begins with a capital
-- letter, once its marks are taken out, with a number of at most 4300 digits, an allowed expiration and a time of day, is
-- read by the listener as that message, wherever the replay injects it: it depends on the window alone whether it
-- becomes a signal.
pub injected_read :
    (env : Env) (target : ℤ) (entry : ReplayEntry) (now received : Time) (d : ℕ) (ds : List ℕ)
    (base quote : Currency) (hour minute : ℕ) (direction : Direction) (more : Option String)
    → env.resolver.resolved_chat_id ≡ some target
    → is_blank entry.raw_text ≡ false
    → cleaned entry.raw_text ≡ message (d ∷ ds) base quote hour minute direction more
    → All IsDigit (d ∷ ds)
    → length (d ∷ ds) ≤ int_max_str_digits
    → hour < 24
    → minute < 60
    → IsQuietAfter more
    → digits_number d ds * 60 ≡ env.config.expiration_seconds
    → read_event env (injected target entry now) received
      ≡ read_parsed env
          (injected target entry now)
          received
          (parsed (said (digits_number d ds) base quote hour minute direction))
unfolding read_text injected build_synthetic_message
injected_read env target entry now received d ds base quote hour minute direction more resolved full
      clean digits short h m quiet expires =
    injected_matches env target entry now received resolved
    ∙ rw
        (
          full,
          parse_signal-message entry.raw_text (allowed_expirations env.config) d ds base quote hour
              minute direction more clean digits short h m quiet (ground arith),
        )
        refl

-- Each entry that is not before the start, in the order of the fixture, with its time.
abbrev timely : Time → (ℕ → Time) → Time → ℕ → List ReplayEntry → List Injection
timely boot wall ahead n [] = []
timely boot wall ahead n (entry ∷ entries) =
    let rest = timely boot wall ahead (suc n) entries in
    elim entry.inject_at_offset_seconds [
      | negsuc _ ↦ rest
      | pos offset ↦ record { at = max (boot + offset) (wall n) + ahead; entry = entry } ∷ rest
    ]

schedule_lem :
    (boot : Time) (wall mono : ℕ → Time) (ahead : Time) (n : ℕ) (entries : List ReplayEntry)
    → ((k : ℕ) → mono k ≡ wall k + ahead)
    → schedule boot wall mono n entries ≡ timely boot wall ahead n entries
unfolding schedule
schedule_lem boot wall mono ahead n [] same = refl
schedule_lem boot wall mono ahead n (entry ∷ entries) same =
    ground (arith, same n, schedule_lem boot wall mono ahead (suc n) entries same)
