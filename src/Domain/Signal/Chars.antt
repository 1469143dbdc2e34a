-- ===== src/Domain/Signal/Chars.antt =====
-- The character classes that the patterns of domain/signal.py use, with the meaning that Python's `re`
-- gives them on text: a digit is any decimal digit of Unicode and white space is that of `str`.
use Prim.Native.Char.{Char, code}
use telegram_olymptrade_sign.Prelude.{
  ℕ, ◌+◌, ◌-◌, Bool, true, false, ◌&&◌, Option, none, some, List, [], ◌∷◌, ltb, leb, ◌==◌,
  if◌then◌else◌,
}

unfoldable pub one_of : List ℕ → ℕ → Bool
one_of [] c = false
one_of (x ∷ xs) c = if c == x then true else one_of xs c

-- The zeros of the sets of decimal digits in Unicode 15.1; each set is the zero and the nine after it.
abbrev pub zeros : List ℕ
zeros =
    0x30 ∷ 0x660 ∷ 0x6f0 ∷ 0x7c0 ∷ 0x966 ∷ 0x9e6 ∷ 0xa66 ∷ 0xae6 ∷ 0xb66 ∷ 0xbe6 ∷ 0xc66 ∷ 0xce6
    ∷ 0xd66 ∷ 0xde6 ∷ 0xe50 ∷ 0xed0 ∷ 0xf20 ∷ 0x1040 ∷ 0x1090 ∷ 0x17e0 ∷ 0x1810 ∷ 0x1946 ∷ 0x19d0
    ∷ 0x1a80 ∷ 0x1a90 ∷ 0x1b50 ∷ 0x1bb0 ∷ 0x1c40 ∷ 0x1c50 ∷ 0xa620 ∷ 0xa8d0 ∷ 0xa900 ∷ 0xa9d0
    ∷ 0xa9f0 ∷ 0xaa50 ∷ 0xabf0 ∷ 0xff10 ∷ 0x104a0 ∷ 0x10d30 ∷ 0x11066 ∷ 0x110f0 ∷ 0x11136 ∷ 0x111d0
    ∷ 0x112f0 ∷ 0x11450 ∷ 0x114d0 ∷ 0x11650 ∷ 0x116c0 ∷ 0x11730 ∷ 0x118e0 ∷ 0x11950 ∷ 0x11c50
    ∷ 0x11d50 ∷ 0x11da0 ∷ 0x11f50 ∷ 0x16a60 ∷ 0x16ac0 ∷ 0x16b50 ∷ 0x1d7ce ∷ 0x1d7d8 ∷ 0x1d7e2
    ∷ 0x1d7ec ∷ 0x1d7f6 ∷ 0x1e140 ∷ 0x1e2f0 ∷ 0x1e4f0 ∷ 0x1e950 ∷ 0x1fbf0 ∷ []

unfoldable pub digit_from : List ℕ → ℕ → Option ℕ
digit_from [] c = none
digit_from (z ∷ zs) c = if leb z c && ltb c (z + 10) then some (c - z) else digit_from zs c

-- `\d`, with the value that `int` reads.
unfoldable pub digit_value : Char → Option ℕ
unfolding digit_from
digit_value c = digit_from zeros (code c)

-- `\s`
unfoldable pub is_space : Char → Bool
unfolding one_of
is_space c =
    one_of
      (0x9 ∷ 0xa ∷ 0xb ∷ 0xc ∷ 0xd ∷ 0x1c ∷ 0x1d ∷ 0x1e ∷ 0x1f ∷ 0x20 ∷ 0x85 ∷ 0xa0 ∷ 0x1680
        ∷ 0x2000 ∷ 0x2001 ∷ 0x2002 ∷ 0x2003 ∷ 0x2004 ∷ 0x2005 ∷ 0x2006 ∷ 0x2007 ∷ 0x2008 ∷ 0x2009
        ∷ 0x200a ∷ 0x2028 ∷ 0x2029 ∷ 0x202f ∷ 0x205f ∷ 0x3000 ∷ [])
      (code c)

-- `[A-Z]`
unfoldable pub is_upper : Char → Bool
is_upper c = leb b'A' (code c) && leb (code c) b'Z'

-- `_ZERO_WIDTH_RE`
unfoldable pub is_zero_width : Char → Bool
unfolding one_of
is_zero_width c =
    one_of (0x200b ∷ 0x200c ∷ 0x200d ∷ 0x2060 ∷ 0xfeff ∷ 0xfe0e ∷ 0xfe0f ∷ []) (code c)

abbrev pub is_bom : Char → Bool
is_bom c = code c == 0xfeff

abbrev pub is_char : ℕ → Char → Bool
is_char n c = code c == n
