-- ===== src/Domain/Signal/Long.antt =====
-- How long a text is whose header has many digits.
use Prim.Native.Char.{Char, code}
use Prim.Native.String.{String, count}
use Prim.Native.String.count
use telegram_olymptrade_sign.Prelude.{
  ℕ, refl, ap, Bool, if◌then◌else◌, ◌≤◌, ◌≡◌, inl, inr, Bool-cases, Option, none, some, arith,
}
use telegram_olymptrade_sign.Domain.Signal.Chars.{is_bom, is_char}
use telegram_olymptrade_sign.Domain.Signal.Parser.{
  digit_run, skip_spaces, one_char, Header, header_at, find_header, strip_start, strip_end,
  remove_zero_width, cleaned, ◌>>=◌, number, literal, spaces_to_end, line_start,
}

digit_run-le_count : (s : String) → digit_run s ≤ count s
unfolding digit_run
digit_run-le_count String.[] = ground (arith, count.nil)
digit_run-le_count (String.◌∷◌ c s) = ground (arith, count.cons c s, digit_run-le_count s)

skip_spaces-le_count : (s : String) → count (skip_spaces s) ≤ count s
unfolding skip_spaces
skip_spaces-le_count String.[] = omega arith
skip_spaces-le_count (String.◌∷◌ c s) = ground (arith, count.cons c s, skip_spaces-le_count s)

one_char-le_count :
    (p : Char → Bool) (s rest : String) (c : Char)
    → one_char p s ≡ some (c, rest)
    → count rest ≤ count s
unfolding one_char
one_char-le_count p String.[] rest c h = absurd (cc)
one_char-le_count p (String.◌∷◌ d s) rest c h = ground (arith, count.cons d s, h)

-- A step of a pattern that matches.
bind-some :
    {A B : Type 0} (o : Option A) (f : A → Option B) (b : B)
    → (o >>= f) ≡ some b
    → (a : A) × (o ≡ some a) × (f a ≡ some b)
bind-some none f b h = absurd (cc)
bind-some (some a) f b h = (a, refl, h)

abbrev digits_of : Option Header → ℕ
digits_of none = 0
digits_of (some h) = h.digits

header_at-le_count :
    (before : ℕ) (s : String) (h : Header) → header_at before s ≡ some h → h.digits ≤ count s
unfolding header_at
header_at-le_count before s h e = elim (Bool-cases (line_start before)) [
  | inr inside ↦ absurd (cc)
  | inl begins ↦
      let ((coin, s1), e1, e2) =
        bind-some (one_char (is_char 0x1f4b0) (skip_spaces s)) _ h (rw begins at e) in
      let ((minutes, s2), _, e3) = bind-some (number s1) _ h e2 in
      let (s3, _, e4) = bind-some (literal "-minute expiration" s2) _ h e3 in
      let (_, _, e5) = bind-some (spaces_to_end s3) _ h e4 in
      let same : digit_run s1 ≡ h.digits = ap digits_of e5 in
      omega (
        arith,
        same,
        digit_run-le_count s1,
        one_char-le_count (is_char 0x1f4b0) (skip_spaces s) s1 coin e1,
        skip_spaces-le_count s,
      )
]

pub find_header-le_count :
    (before : ℕ) (s : String) (h : Header) → find_header before s ≡ some h → h.digits ≤ count s
unfolding find_header
find_header-le_count before String.[] h e = absurd (cc)
find_header-le_count before (String.◌∷◌ c s) h e = ground (
  arith,
  e,
  count.cons c s,
  header_at-le_count before (String.◌∷◌ c s) h,
  find_header-le_count (code c) s h,
)

strip_start-le_count : (s : String) → count (strip_start s) ≤ count s
unfolding strip_start
strip_start-le_count String.[] = omega arith
strip_start-le_count (String.◌∷◌ c s) = ground (arith, count.cons c s, strip_start-le_count s)

strip_end-step :
    (t s : String) (c : Char)
    → count t ≤ count s
    → count (elim t [
      | String.[] ↦ if is_bom c then String.[] else String.◌∷◌ c String.[]
      | String.◌∷◌ d u ↦ String.◌∷◌ c (String.◌∷◌ d u)
    ])
      ≤ count (String.◌∷◌ c s)
strip_end-step String.[] s c h = elim (Bool-cases (is_bom c)) [
  | inl bom ↦ rw bom (omega (arith, count.cons c s, count.nil))
  | inr other ↦ rw other (omega (arith, count.cons c s, count.cons c String.[], count.nil, h))
]
strip_end-step (String.◌∷◌ d u) s c h =
    ground (arith, count.cons c s, count.cons c (String.◌∷◌ d u), h)

strip_end-le_count : (s : String) → count (strip_end s) ≤ count s
unfolding strip_end
strip_end-le_count String.[] = omega arith
strip_end-le_count (String.◌∷◌ c s) = strip_end-step (strip_end s) s c (strip_end-le_count s)

remove_zero_width-le_count : (s : String) → count (remove_zero_width s) ≤ count s
unfolding remove_zero_width
remove_zero_width-le_count String.[] = omega arith
remove_zero_width-le_count (String.◌∷◌ c s) =
    ground (arith, count.cons c s, count.cons c (remove_zero_width s), remove_zero_width-le_count s)

pub cleaned-le_count : (s : String) → count (cleaned s) ≤ count s
unfolding cleaned
cleaned-le_count s =
    let a = remove_zero_width-le_count (strip_end (strip_start s)) in
    let b = strip_end-le_count (strip_start s) in omega (arith, a, b, strip_start-le_count s)
