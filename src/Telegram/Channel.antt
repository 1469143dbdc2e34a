-- ===== src/Telegram/Channel.antt =====
-- telegram/channel_resolver.py: which chat is the channel, and which events come from it. `lower` is
-- `str.lower`.
use Prim.Native.Char.{Char, code}
use Prim.Native.String.{String, ◌++◌ as str_append}
use telegram_olymptrade_sign.Prelude.{
  ℕ, Bool, true, false, ◌&&◌, ◌||◌, not, Option, none, some, List, [], ◌∷◌, str_eq, if◌then◌else◌,
  length, ◌≡◌, refl, Bool-cases, inl, inr, All, arith,
}
use telegram_olymptrade_sign.Prelude.Int.{ℤ, eq_ℤ}
use telegram_olymptrade_sign.Domain.Signal.Chars.{is_space, is_char}

unfoldable pub join_char : Char → Bool × List String → List String
join_char c (true, w ∷ ws) = String.◌∷◌ c w ∷ ws
join_char c (_, ws) = String.◌∷◌ c String.[] ∷ ws

-- `str.split`: whether the text starts with a word, and its words.
unfoldable pub split_from : String → Bool × List String
unfolding join_char
split_from String.[] = (false, [])
split_from (String.◌∷◌ c s) =
    let rest = split_from s in if is_space c then (false, rest.1) else (true, join_char c rest)

-- `" ".join`
unfoldable pub join_words : List String → String
join_words [] = String.[]
join_words (w ∷ []) = w
join_words (w ∷ v ∷ ws) = str_append w (String.◌∷◌ " " (join_words (v ∷ ws)))

unfoldable pub starts_with : String → String → Bool
starts_with String.[] s = true
starts_with (String.◌∷◌ c p) String.[] = false
starts_with (String.◌∷◌ c p) (String.◌∷◌ d s) = is_char (code c) d && starts_with p s

-- `p in s`
unfoldable pub contains : String → String → Bool
unfolding starts_with
contains p String.[] = starts_with p String.[]
contains p (String.◌∷◌ c s) = starts_with p (String.◌∷◌ c s) || contains p s

pub record Dialog : Type 0 where
  pub id : ℤ
  pub title : Option String

-- The fields of `ChannelResolver`.
pub record Resolver : Type 0 where
  pub normalized_pattern : String
  pub resolved_chat_id : Option ℤ
  pub captured_title : Option String

-- How `resolve` ends: with the id and the resolver's state, or in one of its two errors, the second
-- with the number of dialogs that match.
pub data Resolved : Type 0 where
  resolved : ℤ → Resolver → Resolved
  channel_not_found : Resolved
  channel_ambiguous : ℕ → Resolved

-- The chat of an event: not available, or with its title.
pub data Chat : Type 0 where
  unavailable : Chat
  titled : Option String → Chat

-- `resolved_chat_id` when `resolve` has not been called is a RuntimeError.
pub data Match : Type 0 where
  not_resolved : Match
  matched : Bool → Match

module _ (lower : String → String) where
  unfoldable pub normalize : String → String
  unfolding split_from join_words
  normalize s = join_words (split_from (lower s)).1

  unfoldable pub new_resolver : String → Resolver
  unfolding normalize
  new_resolver pattern = record {
    normalized_pattern = normalize pattern;
    resolved_chat_id = none;
    captured_title = none;
  }

  -- The test of a title, in `resolve` and in `matches`.
  unfoldable pub title_matches : Resolver → String → Bool
  unfolding contains normalize
  title_matches r title = contains r.normalized_pattern (normalize title)

  -- In `resolve` a dialog without a title, or with the empty one, is passed over.
  unfoldable pub dialog_matches : Resolver → Dialog → Bool
  unfolding title_matches
  dialog_matches r d = elim d.title [
    | none ↦ false
    | some title ↦ not (str_eq title "") && title_matches r title
  ]

  unfoldable pub matching : Resolver → List Dialog → List Dialog
  unfolding dialog_matches
  matching r [] = []
  matching r (d ∷ ds) = let rest = matching r ds in if dialog_matches r d then d ∷ rest else rest

  unfoldable pub resolve_found : Resolver → List Dialog → Resolved
  resolve_found r [] = channel_not_found
  resolve_found r (d ∷ []) =
      resolved d.id (record r { resolved_chat_id = some d.id; captured_title = d.title })
  resolve_found r (d ∷ e ∷ ds) = channel_ambiguous (length (d ∷ e ∷ ds))

  unfoldable pub resolve : Resolver → List Dialog → Resolved
  unfolding matching resolve_found
  resolve r dialogs = resolve_found r (matching r dialogs)

  unfoldable pub chat_matches : Resolver → Chat → Bool
  unfolding title_matches
  chat_matches r unavailable = true
  chat_matches r (titled none) = false
  chat_matches r (titled (some title)) = title_matches r title

  -- `matches`, for the chat id and the chat of an event.
  unfoldable pub event_matches : Resolver → ℤ → Chat → Match
  unfolding chat_matches
  event_matches r chat_id chat = elim r.resolved_chat_id [
    | none ↦ not_resolved
    | some id ↦ matched (eq_ℤ chat_id id && chat_matches r chat)
  ]

  matching-All :
      (r : Resolver) (ds : List Dialog) → All (λ d. dialog_matches r d ≡ true) (matching r ds)
  unfolding matching
  matching-All r [] = tt
  matching-All r (d ∷ ds) = elim (Bool-cases (dialog_matches r d)) [
    | inl e ↦ rw e (e, matching-All r ds)
    | inr e ↦ rw e (matching-All r ds)
  ]

  -- What a resolver that resolved guarantees about later events.
  abbrev pub Filters : Resolver → Resolved → Type 0
  Filters r (resolved id r') =
      (r'.normalized_pattern ≡ r.normalized_pattern)
      × (event_matches r' id (titled r'.captured_title) ≡ matched true)
      × (event_matches r' id unavailable ≡ matched true)
      × ((title : String)
          → event_matches r' id (titled (some title)) ≡ matched (title_matches r title))
      × ((other : ℤ) (chat : Chat)
          → eq_ℤ other id ≡ false
          → event_matches r' other chat ≡ matched false)
  Filters r channel_not_found = Unit
  Filters r (channel_ambiguous n) = Unit

  eq_ℤ_refl : (a : ℤ) → eq_ℤ a a ≡ true
  eq_ℤ_refl a = ground arith

  dialog_matches-captured :
      (r : Resolver) (id : ℤ) (title : Option String)
      → dialog_matches r (record { id = id; title = title }) ≡ true
      → chat_matches
          (record r { resolved_chat_id = some id; captured_title = title })
          (titled title)
        ≡ true
  unfolding dialog_matches chat_matches
  dialog_matches-captured r id none h = absurd (cc)
  dialog_matches-captured r id (some title) h = ground arith

  resolve_found-Filters :
      (r : Resolver) (ds : List Dialog)
      → All (λ d. dialog_matches r d ≡ true) ds
      → Filters r (resolve_found r ds)
  unfolding resolve_found event_matches
  resolve_found-Filters r [] h = tt
  resolve_found-Filters r (d ∷ e ∷ ds) h = tt
  resolve_found-Filters r (d ∷ []) (h, _) =
      let same = eq_ℤ_refl d.id in
      (
        refl,
        rw (same, dialog_matches-captured r d.id d.title h),
        rw same,
        λ title. rw same,
        λ other chat no. rw no,
      )

  -- A resolver that has resolved the channel accepts from then on an event of the channel under the title
  -- that it captured, one whose chat is not available, and one under a changed title exactly if that
  -- title still has the pattern in it; it accepts no event of another chat.
  pub resolve-Filters : (r : Resolver) (dialogs : List Dialog) → Filters r (resolve r dialogs)
  unfolding resolve
  resolve-Filters r dialogs = resolve_found-Filters r (matching r dialogs) (matching-All r dialogs)
