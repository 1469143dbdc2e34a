-- ===== src/Domain/Signal/Sound.antt =====
-- What each result of `parse_signal` guarantees to the listener.
use Prim.Native.Char.{Char, code}
use Prim.Native.String.{String, count}
use mathlib.Core.Bool.{false≢true}
use telegram_olymptrade_sign.Prelude.{
  ℕ, zero, suc, ◌+◌, ◌-◌, ◌*◌, ◌≤◌, ◌<◌, ltb, ◌≡◌, ◌≢◌, refl, sym, ap, ◌∙◌, inl, inr, Bool, true,
  false, ◌&&◌, Option, none, some, List, [], ◌∷◌, All, leb, arith, Bool-cases, Option-cases,
  if◌then◌else◌,
}
use telegram_olymptrade_sign.Domain.Signal.Chars.{digit_value}
use telegram_olymptrade_sign.Domain.Signal.Parser.{
  Header, int_max_str_digits, bad_pair_format, bad_direction, ParseResult, parsed, parse_failure,
  value_error, LineMatch, ◌>>=◌, one_char, digits_value, literal, hhmm_numbers, is_digit, value_of,
  add_minutes, line_at, signal_line, find_lines, parsed_from, parse_line, parse_lines, parse_header,
  parse_signal, three_letters, skip_spaces, direction_at, spaces_to_end, line_start, cleaned,
  find_header,
}
use telegram_olymptrade_sign.Domain.Signal.Long.{find_header-le_count, cleaned-le_count}
use telegram_olymptrade_sign.Domain.Signal.Times.{time_text, number-digits}

-- What a pattern finds satisfies `P`.
unfoldable Every : {A : Type 0} → (A → Type 0) → Option A → Type 0
Every P none = Unit
Every P (some a) = P a

Every-bind :
    {A B : Type 0} (P : B → Type 0) (o : Option A) (f : A → Option B)
    → ((a : A) → o ≡ some a → Every P (f a))
    → Every P (o >>= f)
unfolding Every
Every-bind P none f k = tt
Every-bind P (some a) f k = k a refl

Every-some : {A : Type 0} (P : A → Type 0) {a : A} → P a → Every P (some a)
unfolding Every
Every-some P p = p

digit_value-none : (c : Char) → digit_value c ≡ none → ¬ (is_digit c ≡ true)
digit_value-none c e h = false≢true (sym (ap (λ o. elim o [ none ↦ false | some _ ↦ true ]) e) ∙ h)

digit_value-is_digit : (c : Char) → is_digit c ≡ true → digit_value c ≡ some (value_of c)
digit_value-is_digit c h = elim (Option-cases (digit_value c)) [
  | inl e ↦ absurd (digit_value-none c e h)
  | inr (d, e) ↦ e ∙ ap some (sym (ap (λ o. elim o [ none ↦ 0 | some d ↦ d ]) e))
]

one_char-is_digit :
    (s rest : String) (c : Char) → one_char is_digit s ≡ some (c, rest) → is_digit c ≡ true
unfolding one_char
one_char-is_digit String.[] rest c h = absurd (cc)
one_char-is_digit (String.◌∷◌ d s) rest c h = grind arith

digits_value-colon :
    (k : ℕ) (s : String) → digits_value k (String.◌∷◌ ":" s) ≡ (k, String.◌∷◌ ":" s)
unfolding digits_value digit_value
digits_value-colon k s = refl

hhmm_numbers-digits :
    (h1 h2 m1 m2 : Char)
    → is_digit h1 ≡ true
    → is_digit h2 ≡ true
    → is_digit m1 ≡ true
    → is_digit m2 ≡ true
    → hhmm_numbers
        (String.◌∷◌ h1 (String.◌∷◌ h2 (String.◌∷◌ ":" (String.◌∷◌ m1 (String.◌∷◌ m2 String.[])))))
      ≡ some (value_of h1 * 10 + value_of h2, value_of m1 * 10 + value_of m2)
unfolding hhmm_numbers literal digits_value
hhmm_numbers-digits h1 h2 m1 m2 a b c d =
    let minutes = String.◌∷◌ m1 (String.◌∷◌ m2 String.[]) in
    rw (
      hhmm_numbers,
      number-digits h1 h2 (value_of h1) (value_of h2) (String.◌∷◌ ":" minutes)
          (digit_value-is_digit h1 a) (digit_value-is_digit h2 b)
          (λ k. digits_value-colon k minutes),
      number-digits m1 m2 (value_of m1) (value_of m2) String.[] (digit_value-is_digit m1 c)
          (digit_value-is_digit m2 d) (λ k. refl),
    )

-- The numbers of a match are those of its time.
abbrev Reads : LineMatch → Type 0
Reads line = hhmm_numbers line.time ≡ some (line.hour, line.minute)

abbrev Found : LineMatch × String → Type 0
Found (line, rest) = Reads line

signal_line-Reads : (s : String) → Every Found (signal_line s)
unfolding signal_line
signal_line-Reads s = Every-bind Found (three_letters s) _ (λ (base, s1) _.
    Every-bind Found (literal "/" s1) _ (λ s2 _.
      Every-bind Found (three_letters s2) _ (λ (quote, s3) _.
        Every-bind Found (literal ";" (skip_spaces s3)) _ (λ s4 _.
          Every-bind Found (one_char is_digit (skip_spaces s4)) _ (λ (h1, s5) i1.
            Every-bind Found (one_char is_digit s5) _ (λ (h2, s6) i2.
              Every-bind Found (literal ":" s6) _ (λ s7 _.
                Every-bind Found (one_char is_digit s7) _ (λ (m1, s8) i3.
                  Every-bind Found (one_char is_digit s8) _ (λ (m2, s9) i4.
                    Every-bind Found (literal ";" (skip_spaces s9)) _ (λ s10 _.
                      Every-bind Found (direction_at (skip_spaces s10)) _ (λ (d, s11) _.
                        Every-bind Found (spaces_to_end s11) _ (λ rest _. Every-some Found (
                          hhmm_numbers-digits h1 h2 m1 m2
                            (one_char-is_digit (skip_spaces s4) s5 h1 i1)
                            (one_char-is_digit s5 s6 h2 i2) (one_char-is_digit s7 s8 m1 i3)
                            (one_char-is_digit s8 s9 m2 i4))))))))))))))

line_at-Reads : (before : ℕ) (s : String) → Every Found (line_at before s)
unfolding line_at Every
line_at-Reads before s =
    elim (line_start before) as (λ b. Every Found (if b then signal_line s else none)) [
      | true ↦ signal_line-Reads s
      | false ↦ tt
    ]

-- One step of `find_lines`, with the match that it looks at.
next-Reads :
    (found : Option (LineMatch × String)) (c : Char) (s : String)
    → Every Found found
    → ((inside : ℕ) → All Reads (find_lines inside (code c) s))
    → All Reads (elim found [
      | none ↦ find_lines 0 (code c) s
      | some (line, rest) ↦ line ∷ find_lines (count s - count rest) (code c) s
    ])
unfolding Every
next-Reads none c s p k = k 0
next-Reads (some (line, rest)) c s p k = (p, k (count s - count rest))

find_lines-Reads : (inside before : ℕ) (s : String) → All Reads (find_lines inside before s)
unfolding find_lines
find_lines-Reads inside before String.[] = tt
find_lines-Reads (suc inside) before (String.◌∷◌ c s) = find_lines-Reads inside (code c) s
find_lines-Reads zero before (String.◌∷◌ c s) =
    next-Reads (line_at before (String.◌∷◌ c s)) c s (line_at-Reads before (String.◌∷◌ c s))
      (λ inside. find_lines-Reads inside (code c) s)

abbrev pub Sound : String → (ℕ → Bool) → ParseResult → Type 0
Sound raw_text allowed (parsed p) =
    (allowed p.expiration_seconds ≡ true)
    × ((hour : ℕ) × ((minute : ℕ) × (hhmm_numbers p.trigger_hhmm ≡ some (hour, minute))
          × (hour ≤ 23)
          × (minute ≤ 59)
          × (p.gale1_hhmm ≡ time_text (hour * 60 + minute + 5))
          × (p.gale2_hhmm ≡ time_text (hour * 60 + minute + 10))))
Sound raw_text allowed (parse_failure reason text) =
    (text ≡ raw_text) × (reason ≢ bad_pair_format) × (reason ≢ bad_direction)
Sound raw_text allowed value_error = int_max_str_digits < count raw_text

parsed_from-Sound :
    (raw_text : String) (allowed : ℕ → Bool) (seconds hour minute : ℕ) (line : LineMatch)
    → allowed seconds ≡ true
    → hhmm_numbers line.time ≡ some (hour, minute)
    → hour ≤ 23
    → minute ≤ 59
    → Sound raw_text allowed
        (parsed_from line seconds (add_minutes line.time 5) (add_minutes line.time 10))
unfolding parsed_from add_minutes
parsed_from-Sound raw_text allowed seconds hour minute line ok reads h m =
    rw (add_minutes, reads) (ok, (hour, (minute, reads, h, m, refl, refl)))

parse_line-Sound :
    (raw_text : String) (allowed : ℕ → Bool) (seconds : ℕ) (line : LineMatch)
    → allowed seconds ≡ true
    → Reads line
    → Sound raw_text allowed (parse_line raw_text seconds line)
unfolding parse_line
parse_line-Sound raw_text allowed seconds line ok reads =
    elim (Bool-cases (leb line.hour 23 && leb line.minute 59)) [
      | inl e ↦ rw e (
          parsed_from-Sound raw_text allowed seconds line.hour line.minute line ok reads
            (ground arith) (ground arith))
      | inr e ↦ rw e (refl, λ p. cc, λ p. cc)
    ]

parse_lines-Sound :
    (raw_text : String) (allowed : ℕ → Bool) (seconds : ℕ) (lines : List LineMatch)
    → allowed seconds ≡ true
    → All Reads lines
    → Sound raw_text allowed (parse_lines raw_text seconds lines)
unfolding parse_lines
parse_lines-Sound raw_text allowed seconds [] ok reads = (refl, λ p. cc, λ p. cc)
parse_lines-Sound raw_text allowed seconds (line ∷ []) ok reads =
    parse_line-Sound raw_text allowed seconds line ok reads.0
parse_lines-Sound raw_text allowed seconds (_ ∷ _ ∷ _) ok reads = (refl, λ p. cc, λ p. cc)

parse_header-Sound :
    (raw_text text : String) (allowed : ℕ → Bool) (header : Option Header)
    → ((h : Header) → header ≡ some h → h.digits ≤ count raw_text)
    → Sound raw_text allowed (parse_header raw_text text allowed header)
unfolding parse_header
parse_header-Sound raw_text text allowed none short = (refl, λ p. cc, λ p. cc)
parse_header-Sound raw_text text allowed (some h) short =
    elim (Bool-cases (ltb int_max_str_digits h.digits)) [
      | inl long ↦ rw (long, parse_header) (ground (arith, long, short h refl))
      | inr fine ↦ elim (Bool-cases (allowed (h.minutes * 60))) [
        | inl e ↦
            rw (fine, e, parse_header)
              (parse_lines-Sound raw_text allowed (h.minutes * 60) (find_lines 0 b'\n' text) e
                (find_lines-Reads 0 b'\n' text))
        | inr e ↦ rw (fine, e, parse_header) (refl, λ p. cc, λ p. cc)
      ]
    ]

-- Whatever the text, `parse_signal` raises no exception unless the text has more than 4300 characters. A signal
-- that it returns has an
-- allowed expiration, a time of day whose hour is at most 23 and whose minute is at most 59, and as its
-- gale times that time five and ten minutes later around the clock. A failure echoes the text, and its
-- reason is never bad_pair_format or bad_direction.
pub parse_signal-Sound :
    (raw_text : String) (allowed : ℕ → Bool)
    → Sound raw_text allowed (parse_signal raw_text allowed)
unfolding parse_signal
parse_signal-Sound raw_text allowed =
    parse_header-Sound raw_text (cleaned raw_text) allowed (find_header b'\n' (cleaned raw_text))
      (λ h e.
        let a = find_header-le_count b'\n' (cleaned raw_text) h e in
        omega (arith, a, cleaned-le_count raw_text))
