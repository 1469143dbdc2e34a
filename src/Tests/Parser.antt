-- ===== src/Tests/Parser.antt =====
-- The theorems on domain/signal.py at sample messages.
use Prim.Native.Char.{code}
use Prim.Native.String.{String}
use telegram_olymptrade_sign.Prelude.{
  ℕ, ◌≡◌, refl, Option, some, true, false, not, ◌&&◌, Bool, [], ◌∷◌, arith, ◌==◌,
}
use telegram_olymptrade_sign.Domain.Signal.{down}
use telegram_olymptrade_sign.Domain.Signal.Chars.{is_upper, is_zero_width}
use telegram_olymptrade_sign.Domain.Signal.Parser.{
  line_start, parsed, parse_signal, cleaned, digit_char,
}
use telegram_olymptrade_sign.Domain.Signal.Sound.{Sound, parse_signal-Sound}
use telegram_olymptrade_sign.Domain.Signal.Message.{Currency, message, said, IsQuiet, IsQuietAfter}
use telegram_olymptrade_sign.Domain.Signal.RoundTrip.{parse_signal-message}

abbrev pub eur : Currency
unfolding is_upper
eur = record {
  first = "E";
  second = "U";
  third = "R";
  first_is_upper = refl;
  second_is_upper = refl;
  third_is_upper = refl;
}

abbrev pub jpy : Currency
unfolding is_upper
jpy = record {
  first = "J";
  second = "P";
  third = "Y";
  first_is_upper = refl;
  second_is_upper = refl;
  third_is_upper = refl;
}

abbrev only_five_minutes : ℕ → Bool
only_five_minutes n = n == 300

-- The lines of the gales.
abbrev sample_lines : String
sample_lines = "🕛TIME UNTIL 10:25\n1st GALE -> TIME UNTIL 10:25\n2nd GALE - TIME UNTIL 10:25"

abbrev pub sample_more : Option String
sample_more = some sample_lines

-- The first message of the fixtures, with a byte-order mark and a zero-width space.
abbrev pub sample_text : String
sample_text =
    "\u{feff}💰5-minute expiration\nEUR/JPY;10:20;PUT\u{200b}🟥\n🕛TIME UNTIL 10:25\n1st GALE -> TIME UNTIL 10:25\n2nd GALE - TIME UNTIL 10:25"

pub sample_clean : cleaned sample_text ≡ message (5 ∷ []) eur jpy 10 20 down sample_more
unfolding cleaned is_zero_width digit_char eur jpy
sample_clean = refl

and_true : (a b : Bool) → (a && b) ≡ true → (a ≡ true) × (b ≡ true)
and_true a b h = (ground (arith, h), ground (arith, h))

not_upper : (a b : Bool) → not (a && b) ≡ true → a ≡ true → b ≡ false
not_upper a b h e = ground (arith, h, e)

unfoldable is_quiet : ℕ → String → Bool
is_quiet before String.[] = true
is_quiet before (String.◌∷◌ c s) = not (line_start before && is_upper c) && is_quiet (code c) s

is_quiet-IsQuiet : (before : ℕ) (s : String) → is_quiet before s ≡ true → IsQuiet before s
unfolding is_quiet
is_quiet-IsQuiet before String.[] h = tt
is_quiet-IsQuiet before (String.◌∷◌ c s) h =
    let both = and_true (not (line_start before && is_upper c)) (is_quiet (code c) s) h in
    (
      (λ begins. not_upper (line_start before) (is_upper c) both.0 begins),
      is_quiet-IsQuiet (code c) s both.1,
    )

pub sample_quiet : IsQuietAfter sample_more
unfolding is_quiet is_upper
sample_quiet = is_quiet-IsQuiet b'\n' sample_lines refl

parse_signal-message_example :
    parse_signal sample_text only_five_minutes ≡ parsed (said 5 eur jpy 10 20 down)
parse_signal-message_example =
    parse_signal-message sample_text only_five_minutes 5 [] eur jpy 10 20 down sample_more
      sample_clean (omega arith, tt) (omega arith) (omega arith) (omega arith) sample_quiet refl

parse_signal-Sound_example :
    Sound sample_text only_five_minutes (parse_signal sample_text only_five_minutes)
parse_signal-Sound_example = parse_signal-Sound sample_text only_five_minutes
