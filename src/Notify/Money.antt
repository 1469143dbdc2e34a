-- ===== src/Notify/Money.antt =====
-- How notify/telegram_dm.py prints amounts of money, with the meaning of Python's `:.2f` on a Decimal:
-- rounding to the cent, halves to the even one.
use Prim.Native.String.{String}
use telegram_olymptrade_sign.Prelude.{ℕ, zero, suc, ◌+◌, ◌/◌, ◌%◌, ltb, ◌==◌, if◌then◌else◌}
use telegram_olymptrade_sign.Prelude.Int.{ℤ, pos, negsuc}
use telegram_olymptrade_sign.Domain.Signal.Parser.{digit_char, two_digits}

-- The decimal digits of a number before a text; the number itself is fuel enough.
unfoldable pub digits_before : ℕ → ℕ → String → String
digits_before zero n s = String.◌∷◌ (digit_char n) s
digits_before (suc fuel) n s =
    let rest = digits_before fuel (n / 10) (String.◌∷◌ (digit_char (n % 10)) s) in
    if ltb n 10 then String.◌∷◌ (digit_char n) s else rest

abbrev pub decimal : ℕ → String → String
decimal n s = digits_before n n s

-- A number of cents with two places.
abbrev pub cents_text : ℕ → String → String
cents_text n s = decimal (n / 100) (String.◌∷◌ "." (two_digits (n % 100) s))

-- Hundredths of a cent, rounded to the cent.
unfoldable pub round_half_even : ℕ → ℕ
round_half_even n =
    if ltb (n % 100) 50
    then n / 100
    else if n % 100 == 50
    then n / 100 + n / 100 % 2
    else n / 100 + 1

-- `:.2f` of an amount that is not negative, and of the size of one that is.
abbrev pub fixed_two : ℕ → String
fixed_two n = cents_text (round_half_even n) String.[]

-- `_fmt_signed`
unfoldable pub fmt_signed : ℤ → String
fmt_signed (pos n) = String.◌∷◌ "+" (fixed_two n)
fmt_signed (negsuc n) = String.◌∷◌ "-" (fixed_two (suc n))

-- `_fmt_pnl`
unfoldable pub fmt_pnl : ℤ → String
fmt_pnl (pos n) = String.◌∷◌ "+" (String.◌∷◌ "$" (fixed_two n))
fmt_pnl (negsuc n) = String.◌∷◌ "$" (String.◌∷◌ "-" (fixed_two (suc n)))
