-- ===== src/Domain/Signal/Lines.antt =====
-- How `_HEADER_RE` and `_SIGNAL_LINE_RE` read the two lines of a message.
use Prim.Native.String.{String}
use telegram_olymptrade_sign.Prelude.{
  ℕ, ◌+◌, ◌*◌, ◌/◌, ◌%◌, ◌<◌, ◌≡◌, refl, false, List, [], ◌∷◌, suc, ap, length, All, arith,
  Option-cases, inl, inr, some,
}
use telegram_olymptrade_sign.Domain.Signal.{Direction, up, down}
use telegram_olymptrade_sign.Domain.Signal.Chars.{digit_value, is_space}
use telegram_olymptrade_sign.Domain.Signal.Parser.{
  digit_run, digits_value, number, digit_char, header_at, find_header, signal_line, is_digit,
  three_letters, one_char, skip_spaces, direction_at, literal, spaces_to_end,
}
use telegram_olymptrade_sign.Domain.Signal.Message.{
  digits_text, followed_by, digits_number, IsDigit, Currency, currency_text, direction_text,
  line_text, line_match,
}
use telegram_olymptrade_sign.Domain.Signal.Digits.{
  digits_value-digits_text, is_space-digit_char, is_digit-digit_char, value_of-digit_char,
}
use telegram_olymptrade_sign.Domain.Signal.Times.{digit_value-digit_char}

pub three_letters-currency_text :
    (k : Currency) (s : String)
    → three_letters (currency_text k s) ≡ some ((λ t. currency_text k t), s)
unfolding three_letters one_char
three_letters-currency_text k s =
    rw (three_letters, one_char, k.first_is_upper, k.second_is_upper, k.third_is_upper)

-- A digit is read as it stands.
pub one_char-digit_char :
    (d : ℕ)
    → d < 10
    → (s : String) → one_char is_digit (String.◌∷◌ (digit_char d) s) ≡ some (digit_char d, s)
unfolding one_char
one_char-digit_char d h s = rw (one_char, is_digit-digit_char d h)

pub is_space-semicolon : is_space ";" ≡ false
unfolding is_space
is_space-semicolon = refl

pub direction_at-direction_text :
    (direction : Direction) (s : String)
    → direction_at (skip_spaces (direction_text direction s)) ≡ some (direction, s)
unfolding direction_at skip_spaces is_space
direction_at-direction_text up s = refl
direction_at-direction_text down s = refl

tens_and_units : (n : ℕ) → n / 10 * 10 + n % 10 ≡ n
tens_and_units n = omega arith

pub signal_line-line_text :
    (base quote : Currency) (hour minute : ℕ) (direction : Direction) (s rest : String)
    → hour < 24
    → minute < 60
    → spaces_to_end s ≡ some rest
    → signal_line (line_text base quote hour minute direction s)
      ≡ some (line_match base quote hour minute direction, rest)
unfolding signal_line
signal_line-line_text base quote hour minute direction s rest h m e = rw (
  signal_line,
  three_letters-currency_text,
  three_letters-currency_text,
  is_space-semicolon,
  is_space-digit_char (hour / 10) (ground arith),
  one_char-digit_char (hour / 10) (ground arith),
  one_char-digit_char (hour % 10) (ground arith),
  one_char-digit_char (minute / 10) (ground arith),
  one_char-digit_char (minute % 10) (ground arith),
  is_space-semicolon,
  direction_at-direction_text direction s,
  e,
  value_of-digit_char (hour / 10) (ground arith),
  value_of-digit_char (hour % 10) (ground arith),
  value_of-digit_char (minute / 10) (ground arith),
  value_of-digit_char (minute % 10) (ground arith),
  tens_and_units hour,
  tens_and_units minute,
)

pub is_space-coin : is_space "💰" ≡ false
unfolding is_space
is_space-coin = refl

-- White space to the end of a line always has an end after a line feed.
pub spaces_to_end-line_feed :
    (s : String) → (rest : String) × (spaces_to_end (String.◌∷◌ "\n" s) ≡ some rest)
unfolding spaces_to_end is_space
spaces_to_end-line_feed s = elim (Option-cases (spaces_to_end s)) [
  | inl e ↦ (String.◌∷◌ "\n" s, rw (spaces_to_end, e))
  | inr (rest, e) ↦ (rest, rw (spaces_to_end, e))
]

pub digits_value-header :
    (k : ℕ) (s : String)
    → digits_value k (followed_by "-minute expiration\n" s)
      ≡ (k, followed_by "-minute expiration\n" s)
unfolding digits_value digit_value
digits_value-header k s = refl

pub literal-header :
    (s : String)
    → literal "-minute expiration" (followed_by "-minute expiration\n" s) ≡ some (String.◌∷◌ "\n" s)
unfolding literal
literal-header s = refl

digit_run-header :
    (ds : List ℕ) (s : String)
    → All IsDigit ds
    → digit_run (digits_text ds (followed_by "-minute expiration\n" s)) ≡ length ds
unfolding digit_run digit_value
digit_run-header [] s h = refl
digit_run-header (d ∷ ds) s (h, hs) =
    rw (digit_run, is_digit-digit_char d h) (ap suc (digit_run-header ds s hs))

pub header_at-message :
    (d : ℕ) (ds : List ℕ) (s : String)
    → All IsDigit (d ∷ ds)
    → header_at b'\n' (String.◌∷◌ "💰" (digits_text (d ∷ ds) (followed_by "-minute expiration\n" s)))
      ≡ some (record { digits = suc (length ds); minutes = digits_number d ds })
unfolding header_at
header_at-message d ds s (h, hs) = rw (
  header_at,
  is_space-coin,
  number,
  digit_run-header (d ∷ ds) s (h, hs),
  digit_value-digit_char d h,
  digits_value-digits_text d ds (followed_by "-minute expiration\n" s) hs
      (λ k. digits_value-header k s),
  literal-header s,
  (spaces_to_end-line_feed s).1,
)

pub find_header-message :
    (d : ℕ) (ds : List ℕ) (s : String)
    → All IsDigit (d ∷ ds)
    → find_header b'\n'
        (String.◌∷◌ "💰" (digits_text (d ∷ ds) (followed_by "-minute expiration\n" s)))
      ≡ some (record { digits = suc (length ds); minutes = digits_number d ds })
unfolding find_header
find_header-message d ds s h = rw (find_header, header_at-message d ds s h)
