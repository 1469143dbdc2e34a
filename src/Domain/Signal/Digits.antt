-- ===== src/Domain/Signal/Digits.antt =====
-- How the patterns of domain/signal.py read what `digit_char` prints.
use Prim.Native.Char.{Char, code}
use Prim.Native.String.{String}
use telegram_olymptrade_sign.Prelude.{
  ℕ, zero, suc, ◌+◌, ◌*◌, ◌<◌, ◌≡◌, refl, true, false, List, [], ◌∷◌, All, arith,
}
use telegram_olymptrade_sign.Domain.Signal.Chars.{is_space}
use telegram_olymptrade_sign.Domain.Signal.Parser.{
  digits_value, digit_char, line_start, is_digit, value_of,
}
use telegram_olymptrade_sign.Domain.Signal.Message.{digits_text, digits_number, IsDigit}
use telegram_olymptrade_sign.Domain.Signal.Times.{digit_value-digit_char}

-- What holds for each of the ten digits holds for what `digit_char` gives.
pub digit_char-cases :
    (P : Char → Type 0) (d : ℕ)
    → d < 10
    → P "0"
    → P "1"
    → P "2"
    → P "3"
    → P "4"
    → P "5"
    → P "6"
    → P "7"
    → P "8"
    → P "9"
    → P (digit_char d)
unfolding digit_char
digit_char-cases P zero h p0 p1 p2 p3 p4 p5 p6 p7 p8 p9 = p0
digit_char-cases P (suc zero) h p0 p1 p2 p3 p4 p5 p6 p7 p8 p9 = p1
digit_char-cases P (suc (suc zero)) h p0 p1 p2 p3 p4 p5 p6 p7 p8 p9 = p2
digit_char-cases P (suc (suc (suc zero))) h p0 p1 p2 p3 p4 p5 p6 p7 p8 p9 = p3
digit_char-cases P (suc (suc (suc (suc zero)))) h p0 p1 p2 p3 p4 p5 p6 p7 p8 p9 = p4
digit_char-cases P (suc (suc (suc (suc (suc zero))))) h p0 p1 p2 p3 p4 p5 p6 p7 p8 p9 = p5
digit_char-cases P (suc (suc (suc (suc (suc (suc zero)))))) h p0 p1 p2 p3 p4 p5 p6 p7 p8 p9 = p6
digit_char-cases P (suc (suc (suc (suc (suc (suc (suc zero))))))) h p0 p1 p2 p3 p4 p5 p6 p7 p8 p9 =
    p7
digit_char-cases P (suc (suc (suc (suc (suc (suc (suc (suc zero)))))))) h p0 p1 p2 p3 p4 p5 p6 p7 p8
      p9 =
    p8
digit_char-cases P (suc (suc (suc (suc (suc (suc (suc (suc (suc zero))))))))) h p0 p1 p2 p3 p4 p5 p6
      p7 p8 p9 =
    p9
digit_char-cases P (suc (suc (suc (suc (suc (suc (suc (suc (suc (suc n)))))))))) h p0 p1 p2 p3 p4 p5
      p6 p7 p8 p9 =
    absurd (omega (arith, h))

pub digits_value-digits_text :
    (acc : ℕ) (ds : List ℕ) (s : String)
    → All IsDigit ds
    → ((k : ℕ) → digits_value k s ≡ (k, s))
    → digits_value acc (digits_text ds s) ≡ (digits_number acc ds, s)
unfolding digits_value
digits_value-digits_text acc [] s h stops = stops acc
digits_value-digits_text acc (d ∷ ds) s (h, hs) stops =
    rw (digits_value, digit_value-digit_char d h)
      (digits_value-digits_text (acc * 10 + d) ds s hs stops)

pub line_start-digit_char : (d : ℕ) → d < 10 → line_start (code (digit_char d)) ≡ false
line_start-digit_char d h =
    digit_char-cases (λ c. line_start (code c) ≡ false) d h refl refl refl refl refl refl refl refl
      refl refl

pub is_space-digit_char : (d : ℕ) → d < 10 → is_space (digit_char d) ≡ false
unfolding is_space
is_space-digit_char d h =
    digit_char-cases (λ c. is_space c ≡ false) d h refl refl refl refl refl refl refl refl refl refl

pub is_digit-digit_char : (d : ℕ) → d < 10 → is_digit (digit_char d) ≡ true
is_digit-digit_char d h = rw (is_digit, digit_value-digit_char d h)

pub value_of-digit_char : (d : ℕ) → d < 10 → value_of (digit_char d) ≡ d
value_of-digit_char d h = rw (value_of, digit_value-digit_char d h)
