-- ===== src/Domain/Signal/Times.antt =====
-- The times HH:MM of domain/signal.py: what `_add_minutes` does with a time that it made itself.
use telegram_olymptrade_sign.Prelude.{
  ℕ, zero, suc, ◌+◌, ◌*◌, ◌/◌, ◌%◌, ◌<◌, ◌≡◌, refl, ap, ◌∙◌, some, arith,
}
use telegram_olymptrade_sign.Domain.Signal.Chars.{digit_value}
use telegram_olymptrade_sign.Domain.Signal.Parser.{
  ◌>>=◌, digits_value, number, hhmm_numbers, digit_char, literal, two_digits, format_hhmm,
  add_minutes,
}
use Prim.Native.Char.{Char}
use Prim.Native.String.{String}

-- A text of digits reads back as the digits.
pub digit_value-digit_char : (d : ℕ) → d < 10 → digit_value (digit_char d) ≡ some d
unfolding digit_value digit_char
digit_value-digit_char zero h = refl
digit_value-digit_char (suc zero) h = refl
digit_value-digit_char (suc (suc zero)) h = refl
digit_value-digit_char (suc (suc (suc zero))) h = refl
digit_value-digit_char (suc (suc (suc (suc zero)))) h = refl
digit_value-digit_char (suc (suc (suc (suc (suc zero))))) h = refl
digit_value-digit_char (suc (suc (suc (suc (suc (suc zero)))))) h = refl
digit_value-digit_char (suc (suc (suc (suc (suc (suc (suc zero))))))) h = refl
digit_value-digit_char (suc (suc (suc (suc (suc (suc (suc (suc zero)))))))) h = refl
digit_value-digit_char (suc (suc (suc (suc (suc (suc (suc (suc (suc zero))))))))) h = refl
digit_value-digit_char (suc (suc (suc (suc (suc (suc (suc (suc (suc (suc n)))))))))) h =
    absurd (omega (arith, h))

-- A number of two digits, before a text that does not go on with a digit.
pub number-digits :
    (c d : Char) (i j : ℕ) (s : String)
    → digit_value c ≡ some i
    → digit_value d ≡ some j
    → ((k : ℕ) → digits_value k s ≡ (k, s))
    → number (String.◌∷◌ c (String.◌∷◌ d s)) ≡ some (i * 10 + j, s)
unfolding number digits_value
number-digits c d i j s ci dj stops = rw (number, digits_value, ci, dj, stops (i * 10 + j))

pub number-two_digits :
    (n : ℕ) (s : String)
    → n < 100
    → ((k : ℕ) → digits_value k s ≡ (k, s))
    → number (two_digits n s) ≡ some (n, s)
number-two_digits n s h stops =
    number-digits (digit_char (n / 10)) (digit_char (n % 10)) (n / 10) (n % 10) s
      (digit_value-digit_char (n / 10) (ground arith))
      (digit_value-digit_char (n % 10) (ground arith)) stops
    ∙ ap (λ k. some (k, s)) (omega arith)

pub hhmm_numbers-format_hhmm :
    (hour minute : ℕ)
    → hour < 100
    → minute < 100
    → hhmm_numbers (format_hhmm hour minute) ≡ some (hour, minute)
unfolding hhmm_numbers literal digits_value digit_value
hhmm_numbers-format_hhmm hour minute h m =
    rw
      (
        hhmm_numbers,
        number-two_digits hour (String.◌∷◌ ":" (two_digits minute String.[])) h (λ k. refl),
        number-two_digits minute String.[] m (λ k. refl),
      )
      refl

-- The time of day, as `_add_minutes` prints it.
abbrev pub time_text : ℕ → String
time_text total = format_hhmm (total % 1_440 / 60) (total % 1_440 % 60)

pub add_minutes-format_hhmm :
    (hour minute minutes : ℕ)
    → hour < 100
    → minute < 100
    → add_minutes (format_hhmm hour minute) minutes
      ≡ some (time_text (hour * 60 + minute + minutes))
unfolding add_minutes
add_minutes-format_hhmm hour minute minutes h m = rw (hhmm_numbers-format_hhmm hour minute h m)

-- On every time of day, adding minutes in two steps is adding them at once, midnight included.
add_minutes-add_minutes :
    (hour minute first second : ℕ)
    → hour < 24
    → minute < 60
    → (add_minutes (format_hhmm hour minute) first >>= λ t. add_minutes t second)
      ≡ add_minutes (format_hhmm hour minute) (first + second)
add_minutes-add_minutes hour minute first second h m =
    rw
      (
        add_minutes-format_hhmm hour minute first (ground arith) (ground arith),
        add_minutes-format_hhmm hour minute (first + second) (ground arith) (ground arith),
      )
      (let total = hour * 60 + minute + first in
        add_minutes-format_hhmm (total % 1_440 / 60) (total % 1_440 % 60) second (ground arith)
          (ground arith)
        ∙ ap (λ t. some (format_hhmm (t / 60) (t % 60))) (omega arith))
