-- ===== src/Notify/Printed.antt =====
-- Amounts that notify/telegram_dm.py prints are read back.
use Prim.Native.Char.{code}
use Prim.Native.String.{String}
use telegram_olymptrade_sign.Prelude.{
  ℕ, zero, suc, ◌+◌, ◌*◌, ◌/◌, ◌%◌, ◌≤◌, ◌<◌, ◌≡◌, refl, inl, inr, Bool, true, false, Option, none,
  some, arith, ltb, ◌==◌, if◌then◌else◌, Bool-cases, ap, ◌∙◌,
}
use telegram_olymptrade_sign.Prelude.Int.{ℤ, pos, negsuc, pos_part, neg_part, neg_ℕ}
use telegram_olymptrade_sign.Domain.Signal.Chars.{digit_value}
use telegram_olymptrade_sign.Domain.Signal.Parser.{digit_char, two_digits, digits_value, ◌>>=◌}
use telegram_olymptrade_sign.Domain.Signal.Times.{digit_value-digit_char}
use telegram_olymptrade_sign.Notify.Money.{
  digits_before, cents_text, round_half_even, fmt_signed, fmt_pnl,
}

-- A point and two digits after a whole number; the number of cents.
abbrev pub places : ℕ × String → Option ℕ
places (whole, String.◌∷◌ c (String.◌∷◌ a (String.◌∷◌ b String.[]))) =
    if code c == b'.'
    then (do x ← digit_value a; y ← digit_value b; some (whole * 100 + x * 10 + y))
    else none
places (whole, _) = none

abbrev pub read_cents : String → Option ℕ
read_cents s = places (digits_value 0 s)

abbrev signed : Bool → Option ℕ → Option ℤ
signed negative none = none
signed negative (some n) = some (if negative then neg_ℕ n else pos n)

-- A sign before the amount.
abbrev pub read_signed : String → Option ℤ
read_signed String.[] = none
read_signed (String.◌∷◌ c s) =
    if code c == b'-'
    then signed true (read_cents s)
    else if code c == b'+'
    then signed false (read_cents s)
    else none

digits_value-digit_char :
    (acc d : ℕ) (s : String)
    → d < 10
    → digits_value acc (String.◌∷◌ (digit_char d) s) ≡ digits_value (acc * 10 + d) s
unfolding digits_value
digits_value-digit_char acc d s h = rw (digits_value, digit_value-digit_char d h) refl

-- A text without its first dollar sign.
abbrev pub without_dollar : String → String
without_dollar String.[] = String.[]
without_dollar (String.◌∷◌ c s) =
    let rest = without_dollar s in if code c == b'$' then s else String.◌∷◌ c rest

-- Two amounts in hundredths of a cent that differ by half a cent at most.
abbrev pub IsNear : ℤ → ℤ → Type 0
IsNear a b =
    (pos_part a + neg_part b ≤ pos_part b + neg_part a + 50)
    × (pos_part b + neg_part a ≤ pos_part a + neg_part b + 50)

abbrev pub hundredths : ℤ → ℤ
hundredths (pos n) = pos (n * 100)
hundredths (negsuc n) = neg_ℕ (suc n * 100)

-- Digits before a text are read as their number, followed by what the text goes on with.
digits_value-digits_before :
    (fuel n : ℕ) (s : String)
    → n ≤ fuel
    → digits_value 0 (digits_before fuel n s) ≡ digits_value n s
unfolding digits_before
digits_value-digits_before zero n s h =
    digits_value-digit_char 0 n s (omega (arith, h)) ∙ ap (λ k. digits_value k s) (omega arith)
digits_value-digits_before (suc fuel) n s h = elim (Bool-cases (ltb n 10)) [
  | inl lt ↦
      rw (lt, digits_value-digit_char 0 n s (ground arith))
        (ap (λ k. digits_value k s) (omega arith))
  | inr ge ↦
      rw
        (
          ge,
          digits_value-digits_before fuel (n / 10) (String.◌∷◌ (digit_char (n % 10)) s)
              (ground arith),
          digits_value-digit_char (n / 10) (n % 10) s (ground arith),
        )
        (ap (λ k. digits_value k s) (omega arith))
]

pub read_cents-cents_text : (n : ℕ) → read_cents (cents_text n String.[]) ≡ some n
unfolding digits_value digit_value
read_cents-cents_text n =
    rw
      (
        digits_value-digits_before (n / 100) (n / 100)
            (String.◌∷◌ "." (two_digits (n % 100) String.[])) (omega arith),
        digit_value-digit_char (n % 100 / 10) (ground arith),
        digit_value-digit_char (n % 100 % 10) (ground arith),
      )
      (ap some (omega arith))

round_half_even_near :
    (n : ℕ) → (n ≤ round_half_even n * 100 + 50) × (round_half_even n * 100 ≤ n + 50)
unfolding round_half_even
round_half_even_near n = ground arith

negated-IsNear :
    (r n : ℕ)
    → (suc n ≤ r * 100 + 50) × (r * 100 ≤ suc n + 50)
    → IsNear (hundredths (neg_ℕ r)) (negsuc n)
negated-IsNear zero n h = ground arith
negated-IsNear (suc r) n h = ground arith

-- What is printed for a profit or loss, with its dollar sign left out, is what is printed for the total
-- of the same amount; and that is read back as a number of cents, which is off by half a cent at most.
pub fmt_pnl-IsReadable :
    (z : ℤ)
    → (without_dollar (fmt_pnl z) ≡ fmt_signed z)
      × ((cents : ℤ) × (read_signed (fmt_signed z) ≡ some cents) × IsNear (hundredths cents) z)
unfolding fmt_pnl fmt_signed
fmt_pnl-IsReadable (pos n) = (
  refl,
  (
    pos (round_half_even n),
    ap (signed false) (read_cents-cents_text (round_half_even n)),
    ground (arith, round_half_even_near n),
  ),
)
fmt_pnl-IsReadable (negsuc n) = (
  refl,
  (
    neg_ℕ (round_half_even (suc n)),
    ap (signed true) (read_cents-cents_text (round_half_even (suc n))),
    negated-IsNear (round_half_even (suc n)) n (round_half_even_near (suc n)),
  ),
)
