-- ===== src/Telegram/Substring.antt =====
-- The substring test of telegram/channel_resolver.py against what a substring is.
use Prim.Native.Char.{Char, code}
use Prim.Native.String.{String, ◌++◌ as str_append}
use Prim.Native.String.append
use telegram_olymptrade_sign.Prelude.{
  ◌≡◌, ◌↔◌, refl, ap, sym, ◌∙◌, Bool, true, ◌&&◌, ◌||◌, arith, inl, inr, ◌⊎◌,
}
use text.Mathlib.TextEquality.{Char-path}
use telegram_olymptrade_sign.Domain.Signal.Chars.{is_char}
use telegram_olymptrade_sign.Telegram.Channel.{starts_with, contains}

is_char-code : (c : Char) → is_char (code c) c ≡ true
is_char-code c = ground arith

starts_with-append : (p after : String) → starts_with p (str_append p after) ≡ true
unfolding starts_with
starts_with-append String.[] after = refl
starts_with-append (String.◌∷◌ c p) after =
    rw (append.cons c p after, starts_with, is_char-code c) (starts_with-append p after)

abbrev pub IsSubstring : String → String → Type 0
IsSubstring p s =
    (before : String) × ((after : String) × (s ≡ str_append before (str_append p after)))

and_true : (a b : Bool) → (a && b) ≡ true → (a ≡ true) × (b ≡ true)
and_true a b h = ground arith

starts_with-IsPrefix :
    (p s : String) → starts_with p s ≡ true → (after : String) × (s ≡ str_append p after)
unfolding starts_with
starts_with-IsPrefix String.[] s h = (s, sym (append.nil s))
starts_with-IsPrefix (String.◌∷◌ c p) String.[] h = absurd (cc)
starts_with-IsPrefix (String.◌∷◌ c p) (String.◌∷◌ d s) h =
    let (same, more) = and_true (is_char (code c) d) (starts_with p s) h in
    let (after, e) = starts_with-IsPrefix p s more in
    (
      after,
      ap (λ x. String.◌∷◌ x s) (Char-path d c (ground arith))
          ∙ ap (λ t. String.◌∷◌ c t) e
          ∙ sym (append.cons c p after),
    )

contains-starts_with : (p s : String) → starts_with p s ≡ true → contains p s ≡ true
unfolding contains
contains-starts_with p String.[] h = h
contains-starts_with p (String.◌∷◌ c s) h = rw h refl

or_true : (a b : Bool) → b ≡ true → (a || b) ≡ true
or_true a b h = ground arith

or_cases : (a b : Bool) → (a || b) ≡ true → (a ≡ true) ⊎ (b ≡ true)
or_cases a b h = ground arith

contains-append :
    (before p after : String) → contains p (str_append before (str_append p after)) ≡ true
unfolding contains
contains-append String.[] p after =
    rw (append.nil (str_append p after))
      (contains-starts_with p (str_append p after) (starts_with-append p after))
contains-append (String.◌∷◌ c before) p after =
    let s = str_append before (str_append p after) in
    rw (append.cons c before (str_append p after))
      (or_true (starts_with p (String.◌∷◌ c s)) (contains p s) (contains-append before p after))

contains-IsSubstring : (p s : String) → contains p s ≡ true → IsSubstring p s
unfolding contains
contains-IsSubstring p String.[] h =
    let (after, e) = starts_with-IsPrefix p String.[] h in
    (String.[], (after, e ∙ sym (append.nil (str_append p after))))
contains-IsSubstring p (String.◌∷◌ c s) h =
    elim (or_cases (starts_with p (String.◌∷◌ c s)) (contains p s) h) [
      | inl first ↦
          let (after, e) = starts_with-IsPrefix p (String.◌∷◌ c s) first in
          (String.[], (after, e ∙ sym (append.nil (str_append p after))))
      | inr later ↦
          let (before, (after, e)) = contains-IsSubstring p s later in
          (
            String.◌∷◌ c before,
            (after, ap (λ t. String.◌∷◌ c t) e ∙ sym (append.cons c before (str_append p after))),
          )
    ]

-- The test holds exactly if the text is made of something, the pattern, and something more.
pub contains_iff : (p s : String) → (contains p s ≡ true) ↔ IsSubstring p s
contains_iff p s =
    (contains-IsSubstring p s, λ (before, (after, e)). rw e (contains-append before p after))
