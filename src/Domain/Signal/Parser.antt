-- ===== src/Domain/Signal/Parser.antt =====
-- `parse_signal` of domain/signal.py. A text is a `String`, read character by character. The two
-- patterns are read from left to right with no choice to take back, except for `\s*$`: each `\s*`, `\d+`
-- and letter is followed by something that it cannot match itself.
use Prim.Native.Char.{Char, code}
use Prim.Native.String.{String, count, slice, ◌++◌ as str_append}
use telegram_olymptrade_sign.Prelude.{
  ℕ, zero, suc, ◌+◌, ◌-◌, ◌*◌, ◌/◌, ◌%◌, Bool, true, false, ◌&&◌, Option, none, some, List, [], ◌∷◌,
  leb, ltb, ◌==◌, if◌then◌else◌,
}
use telegram_olymptrade_sign.Domain.Signal.{Direction, up, down}
use telegram_olymptrade_sign.Domain.Signal.Chars.{
  digit_value, is_space, is_upper, is_zero_width, is_bom, is_char, one_of,
}

pub data FailureReason : Type 0 where
  missing_header_line missing_signal_line multiple_signal_lines bad_pair_format : FailureReason
  bad_time_format bad_direction expiration_not_allowed : FailureReason

pub record ParsedSignal : Type 0 where
  pub pair : String
  pub direction : Direction
  pub trigger_hhmm : String
  pub expiration_seconds : ℕ
  pub gale1_hhmm : String
  pub gale2_hhmm : String

-- `ParseResult`. `value_error` is the exception that `int` raises on a number that is too long, and that
-- `_add_minutes` raises on a text that is no time.
pub data ParseResult : Type 0 where
  parsed : ParsedSignal → ParseResult
  parse_failure : FailureReason → String → ParseResult
  value_error : ParseResult

-- A monad of failure for the patterns.
infixl 10 ◌>>=◌
abbrev pub ◌>>=◌ : {A B : Type 0} → Option A → (A → Option B) → Option B
none >>= f = none
some a >>= f = f a

unfoldable pub skip_spaces : String → String
skip_spaces String.[] = String.[]
skip_spaces (String.◌∷◌ c s) = if is_space c then skip_spaces s else String.◌∷◌ c s

-- One character of a class.
unfoldable pub one_char : (Char → Bool) → String → Option (Char × String)
one_char p String.[] = none
one_char p (String.◌∷◌ c s) = if p c then some (c, s) else none

-- A literal text.
unfoldable pub literal : String → String → Option String
literal String.[] s = some s
literal (String.◌∷◌ c t) String.[] = none
literal (String.◌∷◌ c t) (String.◌∷◌ d s) = if is_char (code c) d then literal t s else none

-- `\s*$`: what is left after the longest run of white space that ends a line.
unfoldable pub spaces_to_end : String → Option String
spaces_to_end String.[] = some String.[]
spaces_to_end (String.◌∷◌ c s) =
    let shorter = if is_char b'\n' c then some (String.◌∷◌ c s) else none in
    if is_space c
    then elim (spaces_to_end s) [ some rest ↦ some rest | none ↦ shorter ]
    else shorter

-- `\d*` with the number that `int` makes of it after the digits before.
unfoldable pub digits_value : ℕ → String → ℕ × String
digits_value acc String.[] = (acc, String.[])
digits_value acc (String.◌∷◌ c s) = elim (digit_value c) [
  | none ↦ (acc, String.◌∷◌ c s)
  | some d ↦ digits_value (acc * 10 + d) s
]

-- `\d+`
unfoldable pub number : String → Option (ℕ × String)
number String.[] = none
number (String.◌∷◌ c s) = elim (digit_value c) [ none ↦ none | some d ↦ some (digits_value d s) ]

-- `^`: the character before is a line feed, as it is taken to be before the text.
abbrev pub line_start : ℕ → Bool
line_start before = before == b'\n'

abbrev pub is_digit : Char → Bool
is_digit c = elim (digit_value c) [ none ↦ false | some _ ↦ true ]

-- How many digits `\d+` takes.
unfoldable pub digit_run : String → ℕ
digit_run String.[] = 0
digit_run (String.◌∷◌ c s) = let rest = digit_run s in if is_digit c then suc rest else 0

-- The group N of a match: how many digits it has, and their number.
pub record Header : Type 0 where
  pub digits : ℕ
  pub minutes : ℕ

-- `_HEADER_RE` at one place.
unfoldable pub header_at : ℕ → String → Option Header
unfolding skip_spaces one_char number literal spaces_to_end digit_run
header_at before s =
    if line_start before
    then (do
      (coin, s1) ← one_char (is_char 0x1f4b0) (skip_spaces s)
      (minutes, s2) ← number s1
      s3 ← literal "-minute expiration" s2
      rest ← spaces_to_end s3
      some (record { digits = digit_run s1; minutes = minutes }))
    else none

-- `_HEADER_RE.search`
unfoldable pub find_header : ℕ → String → Option Header
unfolding header_at
find_header before String.[] = none
find_header before (String.◌∷◌ c s) = elim (header_at before (String.◌∷◌ c s)) [
  | some header ↦ some header
  | none ↦ find_header (code c) s
]

-- A match of `_SIGNAL_LINE_RE`: the pair, the time with its two numbers, and the direction. The group
-- `dir` begins with PUT or CALL, and of it the code reads no more.
pub record LineMatch : Type 0 where
  pub pair : String
  pub time : String
  pub hour : ℕ
  pub minute : ℕ
  pub direction : Direction

-- `[A-Z]{3}` before the text `t`.
unfoldable pub three_letters : String → Option ((String → String) × String)
unfolding one_char
three_letters s = do
  (a, s1) ← one_char is_upper s
  (b, s2) ← one_char is_upper s1
  (c, s3) ← one_char is_upper s2
  some ((λ t. String.◌∷◌ a (String.◌∷◌ b (String.◌∷◌ c t))), s3)

abbrev pub value_of : Char → ℕ
value_of c = elim (digit_value c) [ none ↦ 0 | some d ↦ d ]

-- `PUT\s*[…]|CALL\s*[…]`
unfoldable pub direction_at : String → Option (Direction × String)
unfolding literal one_char skip_spaces
direction_at s = elim (literal "PUT" s) [
  | some s1 ↦ do
    (mark, rest) ←
        one_char (λ c. one_of (0x1f534 ∷ 0x1f7e5 ∷ 0x1f53b ∷ []) (code c)) (skip_spaces s1)
    some (down, rest)
  | none ↦ do
    s1 ← literal "CALL" s
    (mark, rest) ←
        one_char (λ c. one_of (0x1f7e9 ∷ 0x1f7e2 ∷ 0x1f53a ∷ []) (code c)) (skip_spaces s1)
    some (up, rest)
]

-- `_SIGNAL_LINE_RE` after its `^`, and the text after the match.
unfoldable pub signal_line : String → Option (LineMatch × String)
unfolding three_letters literal skip_spaces one_char direction_at spaces_to_end
signal_line s = do
  (base, s1) ← three_letters s
  s2 ← literal "/" s1
  (quote, s3) ← three_letters s2
  s4 ← literal ";" (skip_spaces s3)
  (h1, s5) ← one_char is_digit (skip_spaces s4)
  (h2, s6) ← one_char is_digit s5
  s7 ← literal ":" s6
  (m1, s8) ← one_char is_digit s7
  (m2, s9) ← one_char is_digit s8
  s10 ← literal ";" (skip_spaces s9)
  (direction, s11) ← direction_at (skip_spaces s10)
  rest ← spaces_to_end s11
  some (
    record {
      pair = base (String.◌∷◌ "/" (quote String.[]));
      time =
          String.◌∷◌ h1 (String.◌∷◌ h2 (String.◌∷◌ ":" (String.◌∷◌ m1 (String.◌∷◌ m2 String.[]))));
      hour = value_of h1 * 10 + value_of h2;
      minute = value_of m1 * 10 + value_of m2;
      direction = direction;
    },
    rest,
  )

-- `_SIGNAL_LINE_RE` at one place.
unfoldable pub line_at : ℕ → String → Option (LineMatch × String)
unfolding signal_line
line_at before s = if line_start before then signal_line s else none

-- `_SIGNAL_LINE_RE.finditer`: the first argument counts the characters that still belong to the last
-- match.
unfoldable pub find_lines : ℕ → ℕ → String → List LineMatch
unfolding line_at
find_lines inside before String.[] = []
find_lines (suc inside) before (String.◌∷◌ c s) = find_lines inside (code c) s
find_lines zero before (String.◌∷◌ c s) = elim (line_at before (String.◌∷◌ c s)) [
  | none ↦ find_lines 0 (code c) s
  | some (found, rest) ↦ found ∷ find_lines (count s - count rest) (code c) s
]

-- `raw_text.strip(_BOM)`, from both ends.
unfoldable pub strip_start : String → String
strip_start String.[] = String.[]
strip_start (String.◌∷◌ c s) = if is_bom c then strip_start s else String.◌∷◌ c s

unfoldable pub strip_end : String → String
strip_end String.[] = String.[]
strip_end (String.◌∷◌ c s) = elim (strip_end s) [
  | String.[] ↦ if is_bom c then String.[] else String.◌∷◌ c String.[]
  | String.◌∷◌ d t ↦ String.◌∷◌ c (String.◌∷◌ d t)
]

unfoldable pub remove_zero_width : String → String
remove_zero_width String.[] = String.[]
remove_zero_width (String.◌∷◌ c s) =
    let rest = remove_zero_width s in if is_zero_width c then rest else String.◌∷◌ c rest

unfoldable pub cleaned : String → String
unfolding strip_start strip_end remove_zero_width
cleaned raw_text = remove_zero_width (strip_end (strip_start raw_text))

-- The two numbers of a text HH:MM, of digits as every caller of `_add_minutes` gives; a text in which a
-- number has another form (signs, spaces, underscores), for which the source has no caller, is `none`.
unfoldable pub hhmm_numbers : String → Option (ℕ × ℕ)
unfolding number literal
hhmm_numbers hhmm = do
  (hour, s1) ← number hhmm
  s2 ← literal ":" s1
  (mins, s3) ← number s2
  elim s3 [ String.[] ↦ some (hour, mins) | String.◌∷◌ _ _ ↦ none ]

unfoldable pub digit_char : ℕ → Char
digit_char d =
    if d == 0
    then "0"
    else if d == 1
    then "1"
    else if d == 2
    then "2"
    else if d == 3
    then "3"
    else if d == 4
    then "4"
    else if d == 5
    then "5"
    else if d == 6
    then "6"
    else if d == 7
    then "7"
    else if d == 8
    then "8"
    else "9"

-- f"{n:02d}" of a number below 100.
abbrev pub two_digits : ℕ → String → String
two_digits n s = String.◌∷◌ (digit_char (n / 10)) (String.◌∷◌ (digit_char (n % 10)) s)

abbrev pub format_hhmm : ℕ → ℕ → String
format_hhmm hour minute = two_digits hour (String.◌∷◌ ":" (two_digits minute String.[]))

-- `_add_minutes`; `none` is the ValueError for a text that is no time.
unfoldable pub add_minutes : String → ℕ → Option String
unfolding hhmm_numbers digit_char
add_minutes hhmm minutes = do
  (hour, mins) ← hhmm_numbers hhmm
  let total = (hour * 60 + mins + minutes) % (24 * 60)
  some (format_hhmm (total / 60) (total % 60))

unfoldable pub parsed_from : LineMatch → ℕ → Option String → Option String → ParseResult
parsed_from line expiration_seconds (some gale1) (some gale2) = parsed (record {
  pair = line.pair;
  direction = line.direction;
  trigger_hhmm = line.time;
  expiration_seconds = expiration_seconds;
  gale1_hhmm = gale1;
  gale2_hhmm = gale2;
})
parsed_from line expiration_seconds _ _ = value_error

-- Step 3 of `parse_signal`, for the one line that matched.
unfoldable pub parse_line : String → ℕ → LineMatch → ParseResult
unfolding parsed_from
parse_line raw_text expiration_seconds line =
    if leb line.hour 23 && leb line.minute 59
    then parsed_from line expiration_seconds (add_minutes line.time 5) (add_minutes line.time 10)
    else parse_failure bad_time_format raw_text

-- Step 2.
unfoldable pub parse_lines : String → ℕ → List LineMatch → ParseResult
unfolding parse_line
parse_lines raw_text expiration_seconds [] = parse_failure missing_signal_line raw_text
parse_lines raw_text expiration_seconds (line ∷ []) = parse_line raw_text expiration_seconds line
parse_lines raw_text expiration_seconds (_ ∷ _ ∷ _) = parse_failure multiple_signal_lines raw_text

-- The most digits that Python's `int` reads by default.
abbrev pub int_max_str_digits : ℕ
int_max_str_digits = 4_300

-- Step 1.
unfoldable pub parse_header : String → String → (ℕ → Bool) → Option Header → ParseResult
unfolding parse_lines
parse_header raw_text text allowed none = parse_failure missing_header_line raw_text
parse_header raw_text text allowed (some header) =
    if ltb int_max_str_digits header.digits
    then value_error
    else if allowed (header.minutes * 60)
    then parse_lines raw_text (header.minutes * 60) (find_lines 0 b'\n' text)
    else parse_failure expiration_not_allowed raw_text

unfoldable pub parse_signal : String → (ℕ → Bool) → ParseResult
unfolding parse_header
parse_signal raw_text allowed_expirations =
    let text = cleaned raw_text in
    parse_header raw_text text allowed_expirations (find_header b'\n' text)

-- `derive_signal_id`, with `date.isoformat` and `sha1` as parameters.
unfoldable pub direction_name : Direction → String
direction_name up = "up"
direction_name down = "down"

unfoldable pub signal_payload : ParsedSignal → String → String
unfolding direction_name
signal_payload p iso_date = str_append p.pair (
    str_append "|" (
      str_append p.trigger_hhmm
        (str_append "|" (str_append (direction_name p.direction) (str_append "|" iso_date)))))

unfoldable pub derive_signal_id : (String → String) → ParsedSignal → String → String
unfolding signal_payload
derive_signal_id sha1_hex p iso_date = slice (sha1_hex (signal_payload p iso_date)) 0 12
