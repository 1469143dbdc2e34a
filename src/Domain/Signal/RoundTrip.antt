-- ===== src/Domain/Signal/RoundTrip.antt =====
-- That `parse_signal` reads back each message of the channel.
use Prim.Native.Char.{Char, code}
use Prim.Native.String.{String, count as length}
use telegram_olymptrade_sign.Prelude.{
  ℕ, zero, suc, ◌/◌, ◌%◌, ◌-◌, ◌*◌, ◌∙◌, ap, ◌≤◌, ◌<◌, ltb, leb, sym, Option, none, inl, inr,
  Bool-cases, length as list_length, ◌&&◌, ◌≡◌, refl, Bool, true, false, List, [], ◌∷◌, All, arith,
  some,
}
use mathlib.Core.Bool.{true≢false}
use telegram_olymptrade_sign.Domain.Signal.{Direction, up, down}
use telegram_olymptrade_sign.Domain.Signal.Chars.{is_upper}
use telegram_olymptrade_sign.Domain.Signal.Parser.{
  parsed, two_digits, LineMatch, digit_char, line_at, signal_line, three_letters, one_char,
  spaces_to_end, int_max_str_digits, find_lines, parse_signal, parse_header, parse_lines,
  parse_line, cleaned, line_start,
}
use telegram_olymptrade_sign.Domain.Signal.Message.{
  digits_text, followed_by, direction_text, more_text, IsQuiet, IsQuietAfter, digits_number,
  IsDigit, Currency, currency_text, line_text, message, line_match, said,
}
use telegram_olymptrade_sign.Domain.Signal.Digits.{line_start-digit_char}
use telegram_olymptrade_sign.Domain.Signal.Lines.{
  spaces_to_end-line_feed, signal_line-line_text, find_header-message,
}
use telegram_olymptrade_sign.Domain.Signal.Times.{add_minutes-format_hhmm}

-- A place that does not begin a line begins no match.
find_lines-inside_line :
    (before : ℕ) (c : Char) (s : String)
    → line_start before ≡ false
    → find_lines 0 before (String.◌∷◌ c s) ≡ find_lines 0 (code c) s
unfolding find_lines line_at
find_lines-inside_line before c s h = rw (find_lines, h)

find_lines-digits_text :
    (before : ℕ) (ds : List ℕ) (s : String) (c : Char)
    → All IsDigit ds
    → line_start before ≡ false
    → find_lines 0 before (digits_text ds (String.◌∷◌ c s)) ≡ find_lines 0 (code c) s
find_lines-digits_text before [] s c _ h = find_lines-inside_line before c s h
find_lines-digits_text before (d ∷ ds) s c (i, is) h =
    find_lines-inside_line before (digit_char d) (digits_text ds (String.◌∷◌ c s)) h
    ∙ find_lines-digits_text (code (digit_char d)) ds s c is (line_start-digit_char d i)

-- Where no line begins with a capital letter there is no match.
find_lines-IsQuiet :
    (inside before : ℕ) (s : String) → IsQuiet before s → find_lines inside before s ≡ []
unfolding find_lines line_at signal_line three_letters one_char
find_lines-IsQuiet inside before String.[] h = refl
find_lines-IsQuiet (suc inside) before (String.◌∷◌ c s) h = find_lines-IsQuiet inside (code c) s h.1
find_lines-IsQuiet zero before (String.◌∷◌ c s) h = elim (Bool-cases (line_start before)) [
  | inl begins ↦ rw (find_lines, begins, h.0 begins) (find_lines-IsQuiet 0 (code c) s h.1)
  | inr inside ↦ rw (find_lines, inside) (find_lines-IsQuiet 0 (code c) s h.1)
]

-- A match with no line after it that could begin another is the last one.
find_lines-last :
    (before : ℕ) (c : Char) (s rest : String) (line : LineMatch)
    → line_at before (String.◌∷◌ c s) ≡ some (line, rest)
    → IsQuiet (code c) s
    → find_lines 0 before (String.◌∷◌ c s) ≡ line ∷ []
unfolding find_lines
find_lines-last before c s rest line h quiet =
    rw (find_lines, h)
      (ap (λ found. line ∷ found) (find_lines-IsQuiet (length s - length rest) (code c) s quiet))

spaces_to_end-more :
    (more : Option String) → (rest : String) × (spaces_to_end (more_text more) ≡ some rest)
unfolding spaces_to_end
spaces_to_end-more none = (String.[], refl)
spaces_to_end-more (some s) = spaces_to_end-line_feed s

line_at-line_text :
    (base quote : Currency) (hour minute : ℕ) (direction : Direction) (more : Option String)
    → hour < 24
    → minute < 60
    → line_at b'\n' (line_text base quote hour minute direction (more_text more))
      ≡ some (line_match base quote hour minute direction, (spaces_to_end-more more).0)
unfolding line_at
line_at-line_text base quote hour minute direction more h m =
    signal_line-line_text base quote hour minute direction (more_text more)
      (spaces_to_end-more more).0 h m (spaces_to_end-more more).1

-- A capital letter is no line feed.
line_start-is_upper : (c : Char) → is_upper c ≡ true → line_start (code c) ≡ false
unfolding is_upper
line_start-is_upper c h = ground (arith, h)

inside_line :
    (before : ℕ) (c : Char)
    → line_start before ≡ false
    → line_start before ≡ true
    → is_upper c ≡ false
inside_line before c h begins = absurd (true≢false (sym begins ∙ h))

more_text-IsQuiet :
    (before : ℕ) (more : Option String)
    → line_start before ≡ false
    → IsQuietAfter more
    → IsQuiet before (more_text more)
more_text-IsQuiet before none h q = tt
more_text-IsQuiet before (some s) h q = (inside_line before "\n" h, q)

direction_text-IsQuiet :
    (direction : Direction) (more : Option String)
    → IsQuietAfter more
    → IsQuiet b';' (direction_text direction (more_text more))
direction_text-IsQuiet down more q =
    let mark : IsQuiet b'T' (String.◌∷◌ "🟥" (more_text more)) =
      (inside_line b'T' "🟥" refl, more_text-IsQuiet (code "🟥") more refl q) in
    (inside_line b';' "P" refl, (inside_line b'P' "U" refl, (inside_line b'U' "T" refl, mark)))
direction_text-IsQuiet up more q =
    let mark : IsQuiet b'L' (String.◌∷◌ "🟩" (more_text more)) =
      (inside_line b'L' "🟩" refl, more_text-IsQuiet (code "🟩") more refl q) in
    let word : IsQuiet b'A' (String.◌∷◌ "L" (String.◌∷◌ "L" (String.◌∷◌ "🟩" (more_text more)))) =
      (inside_line b'A' "L" refl, (inside_line b'L' "L" refl, mark)) in
    (inside_line b';' "C" refl, (inside_line b'C' "A" refl, word))

currency_text-IsQuiet :
    (before : ℕ) (k : Currency) (c : Char) (s : String)
    → line_start before ≡ false
    → IsQuiet (code c) s
    → IsQuiet before (currency_text k (String.◌∷◌ c s))
currency_text-IsQuiet before k c s h q =
    let first = line_start-is_upper k.first k.first_is_upper in
    let second = line_start-is_upper k.second k.second_is_upper in
    let third = line_start-is_upper k.third k.third_is_upper in
    (
      inside_line before k.first h,
      (
        inside_line (code k.first) k.second first,
        (inside_line (code k.second) k.third second, (inside_line (code k.third) c third, q)),
      ),
    )

-- Two digits and a character after them.
two_digits-IsQuiet :
    (before n : ℕ) (c : Char) (s : String)
    → line_start before ≡ false
    → n < 100
    → IsQuiet (code c) s
    → IsQuiet before (two_digits n (String.◌∷◌ c s))
two_digits-IsQuiet before n c s h lt q =
    let tens = digit_char (n / 10) in
    let units = digit_char (n % 10) in
    (
      inside_line before tens h,
      (
        inside_line (code tens) units (line_start-digit_char (n / 10) (ground arith)),
        (inside_line (code units) c (line_start-digit_char (n % 10) (ground arith)), q),
      ),
    )

-- No line begins inside the line of a signal.
line_text-IsQuiet :
    (base quote : Currency) (hour minute : ℕ) (direction : Direction) (more : Option String)
    → hour < 24
    → minute < 60
    → IsQuietAfter more
    → IsQuiet 0 (line_text base quote hour minute direction (more_text more))
line_text-IsQuiet base quote hour minute direction more h m q =
    let end = direction_text direction (more_text more) in
    let rest = two_digits minute (String.◌∷◌ ";" end) in
    let time = two_digits hour (String.◌∷◌ ":" rest) in
    currency_text-IsQuiet 0 base "/" (currency_text quote (String.◌∷◌ ";" time)) refl (
      currency_text-IsQuiet b'/' quote ";" time refl (
        two_digits-IsQuiet b';' hour ":" rest refl (omega (arith, h)) (
          two_digits-IsQuiet b':' minute ";" end refl (omega (arith, m))
            (direction_text-IsQuiet direction more q))))

find_lines-header :
    (s : String) → find_lines 0 b'-' (followed_by "minute expiration\n" s) ≡ find_lines 0 b'\n' s
unfolding find_lines line_at
find_lines-header s = refl

find_lines-coin : (s : String) → find_lines 0 b'\n' (String.◌∷◌ "💰" s) ≡ find_lines 0 (code "💰") s
unfolding find_lines line_at is_upper
find_lines-coin s = refl

find_lines-message :
    (ds : List ℕ) (base quote : Currency) (hour minute : ℕ) (direction : Direction)
    (more : Option String)
    → All IsDigit ds
    → hour < 24
    → minute < 60
    → IsQuietAfter more
    → find_lines 0 b'\n' (message ds base quote hour minute direction more)
      ≡ line_match base quote hour minute direction ∷ []
find_lines-message ds base quote hour minute direction more hs h m q =
    let line = line_text base quote hour minute direction (more_text more) in
    find_lines-coin (digits_text ds (followed_by "-minute expiration\n" line))
    ∙ find_lines-digits_text (code "💰") ds (followed_by "minute expiration\n" line) "-" hs refl
    ∙ find_lines-header line
    ∙ find_lines-last b'\n' base.first _ _ (line_match base quote hour minute direction)
        (line_at-line_text base quote hour minute direction more h m)
        (line_text-IsQuiet base quote hour minute direction more h m q).1

not_longer : {a b : ℕ} → a ≤ b → ltb b a ≡ false
not_longer h = ground (arith, h)

in_range : (hour minute : ℕ) → hour < 24 → minute < 60 → (leb hour 23 && leb minute 59) ≡ true
in_range hour minute h m = ground arith

-- A text that is a message of the channel, once byte-order marks and zero-width characters are taken
-- out, is parsed to exactly the signal that the message says. A message is the header with a number of minutes
-- of one to 4300 digits, the line of the signal with nothing between its parts, and any further lines of which
-- none begins with a capital letter; the expiration is allowed and the time one of the day.
pub parse_signal-message :
    (raw_text : String) (allowed : ℕ → Bool) (d : ℕ) (ds : List ℕ) (base quote : Currency)
    (hour minute : ℕ) (direction : Direction) (more : Option String)
    → cleaned raw_text ≡ message (d ∷ ds) base quote hour minute direction more
    → All IsDigit (d ∷ ds)
    → list_length (d ∷ ds) ≤ int_max_str_digits
    → hour < 24
    → minute < 60
    → IsQuietAfter more
    → allowed (digits_number d ds * 60) ≡ true
    → parse_signal raw_text allowed
      ≡ parsed (said (digits_number d ds) base quote hour minute direction)
unfolding parse_signal
parse_signal-message raw_text allowed d ds base quote hour minute direction more clean digits short
      h m quiet ok =
    rw (
      parse_signal,
      clean,
      find_header-message d ds (line_text base quote hour minute direction (more_text more)) digits,
      parse_header,
      not_longer short,
      ok,
      clean,
      find_lines-message (d ∷ ds) base quote hour minute direction more digits h m quiet,
      parse_lines,
      parse_line,
      in_range hour minute h m,
      add_minutes-format_hhmm hour minute 5 (ground arith) (ground arith),
      add_minutes-format_hhmm hour minute 10 (ground arith) (ground arith),
    )
