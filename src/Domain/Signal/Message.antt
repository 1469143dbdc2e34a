-- ===== src/Domain/Signal/Message.antt =====
-- The messages of the channel in their plain form, as the listener receives them.
use Prim.Native.Char.{Char, code}
use Prim.Native.String.{String}
use telegram_olymptrade_sign.Prelude.{
  ℕ, ◌+◌, ◌*◌, ◌/◌, ◌%◌, ◌<◌, ◌≡◌, true, false, Option, none, some, List, [], ◌∷◌,
}
use telegram_olymptrade_sign.Domain.Signal.{Direction, up, down}
use telegram_olymptrade_sign.Domain.Signal.Chars.{is_upper}
use telegram_olymptrade_sign.Domain.Signal.Parser.{
  line_start, ParsedSignal, LineMatch, digit_char, format_hhmm,
}
use telegram_olymptrade_sign.Domain.Signal.Times.{time_text}

-- The digits of a number before a text, and the number.
abbrev pub digits_text : List ℕ → String → String
digits_text [] s = s
digits_text (d ∷ ds) s = String.◌∷◌ (digit_char d) (digits_text ds s)

-- A text before another.
abbrev pub followed_by : String → String → String
followed_by String.[] s = s
followed_by (String.◌∷◌ c t) s = String.◌∷◌ c (followed_by t s)

abbrev pub digits_number : ℕ → List ℕ → ℕ
digits_number acc [] = acc
digits_number acc (d ∷ ds) = digits_number (acc * 10 + d) ds

abbrev pub IsDigit : ℕ → Type 0
IsDigit d = d < 10

-- A currency of three letters.
pub record Currency : Type 0 where
  pub first : Char
  pub second : Char
  pub third : Char
  pub first_is_upper : is_upper first ≡ true
  pub second_is_upper : is_upper second ≡ true
  pub third_is_upper : is_upper third ≡ true

abbrev pub currency_text : Currency → String → String
currency_text k s = String.◌∷◌ k.first (String.◌∷◌ k.second (String.◌∷◌ k.third s))

abbrev pub direction_text : Direction → String → String
direction_text down s = followed_by "PUT🟥" s
direction_text up s = followed_by "CALL🟩" s

-- The lines after that of the signal, if there are any.
abbrev pub more_text : Option String → String
more_text none = String.[]
more_text (some s) = String.◌∷◌ "\n" s

-- No line begins with a capital letter. The number is the character before the text.
abbrev pub IsQuiet : ℕ → String → Type 0
IsQuiet before String.[] = Unit
IsQuiet before (String.◌∷◌ c s) =
    (line_start before ≡ true → is_upper c ≡ false) × IsQuiet (code c) s

abbrev pub IsQuietAfter : Option String → Type 0
IsQuietAfter none = Unit
IsQuietAfter (some s) = IsQuiet b'\n' s

-- The line of a signal, ABC/DEF;HH:MM;PUT or CALL with its mark, before another text.
abbrev pub line_text : Currency → Currency → ℕ → ℕ → Direction → String → String
line_text base quote hour minute direction s = currency_text base (
    String.◌∷◌ "/" (
      currency_text quote (
        String.◌∷◌ ";" (
          String.◌∷◌ (digit_char (hour / 10)) (
            String.◌∷◌ (digit_char (hour % 10)) (
              String.◌∷◌ ":" (
                String.◌∷◌ (digit_char (minute / 10)) (
                  String.◌∷◌ (digit_char (minute % 10))
                    (String.◌∷◌ ";" (direction_text direction s))))))))))

-- A message of the channel: the header with the number of minutes, the line of the signal, and what
-- follows it (the times of the gales).
abbrev pub message : List ℕ → Currency → Currency → ℕ → ℕ → Direction → Option String → String
message ds base quote hour minute direction more = String.◌∷◌ "💰" (
    digits_text ds (
      followed_by "-minute expiration\n"
        (line_text base quote hour minute direction (more_text more))))

-- The match of the line of a signal.
abbrev pub line_match : Currency → Currency → ℕ → ℕ → Direction → LineMatch
line_match base quote hour minute direction = record {
  pair = currency_text base (String.◌∷◌ "/" (currency_text quote String.[]));
  time = format_hhmm hour minute;
  hour = hour;
  minute = minute;
  direction = direction;
}

-- The signal that a message says.
abbrev pub said : ℕ → Currency → Currency → ℕ → ℕ → Direction → ParsedSignal
said minutes base quote hour minute direction = record {
  pair = currency_text base (String.◌∷◌ "/" (currency_text quote String.[]));
  direction = direction;
  trigger_hhmm = format_hhmm hour minute;
  expiration_seconds = minutes * 60;
  gale1_hhmm = time_text (hour * 60 + minute + 5);
  gale2_hhmm = time_text (hour * 60 + minute + 10);
}
