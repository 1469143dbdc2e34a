-- ===== src/Replay.antt =====
-- replay.py: the fixture, the event that is made of an entry, and when each is injected. The values of the
-- JSON file are a parameter with Python's `float` and `str` on them (`none` is the TypeError or
-- ValueError); an offset is a number of microseconds. An item that is no object is not modelled.
pub mod Delivery
use telegram_olymptrade_sign.Prelude.{
  ℕ, suc, ◌+◌, ◌-◌, ◌*◌, ◌/◌, ◌%◌, Bool, true, false, ◌&&◌, Option, none, some, String, List, [],
  ◌∷◌, if◌then◌else◌, str_eq, leb,
}
use telegram_olymptrade_sign.Prelude.Int.{ℤ, pos, negsuc}
use telegram_olymptrade_sign.Config.{Time}
use telegram_olymptrade_sign.Telegram.Channel.{unavailable}
use telegram_olymptrade_sign.Telegram.Listener.{Message}

pub record ReplayEntry : Type 0 where
  pub id : String
  pub inject_at_offset_seconds : ℤ
  pub raw_text : String
  pub expected_outcome : String
  pub notes : String

module _ {J : Type 0} (float_of : J → Option ℤ) (str_of : J → String) where
  -- An object of the file.
  unfoldable pub get : String → List (String × J) → Option J
  get k [] = none
  get k ((j, v) ∷ item) = if str_eq j k then some v else get k item

  -- `str(item.get("notes", ""))`
  abbrev pub notes_of : Option J → String
  notes_of none = ""
  notes_of (some v) = str_of v

  -- An entry without a required key, or with an offset that is no number, is left out.
  unfoldable pub entry_of : List (String × J) → Option ReplayEntry
  unfolding get
  entry_of item = elim (get "id" item) [
    | none ↦ none
    | some id ↦ elim (get "inject_at_offset_seconds" item) [
      | none ↦ none
      | some offset ↦ elim (get "raw_text" item) [
        | none ↦ none
        | some raw_text ↦ elim (get "expected_outcome" item) [
          | none ↦ none
          | some expected_outcome ↦ elim (float_of offset) [
            | none ↦ none
            | some seconds ↦ some (record {
              id = str_of id;
              inject_at_offset_seconds = seconds;
              raw_text = str_of raw_text;
              expected_outcome = str_of expected_outcome;
              notes = notes_of (get "notes" item);
            })
          ]
        ]
      ]
    ]
  ]

  unfoldable pub load_fixture : List (List (String × J)) → List ReplayEntry
  unfolding entry_of
  load_fixture [] = []
  load_fixture (item ∷ raw) =
      let rest = load_fixture raw in
      elim (entry_of item) [ none ↦ rest | some entry ↦ entry ∷ rest ]

-- The event of `_inject`, which has no `chat`.
unfoldable pub build_synthetic_message : String → ℤ → ℕ → Message
build_synthetic_message raw_text chat_id message_id = record {
  out = false;
  id = message_id;
  chat_id = chat_id;
  chat = unavailable;
  text = some raw_text;
}

-- The event that `_inject` makes at a time, with the milliseconds for its id.
unfoldable pub injected : ℤ → ReplayEntry → Time → Message
unfolding build_synthetic_message
injected target_chat_id entry now =
    build_synthetic_message entry.raw_text target_chat_id (now / 1_000 % 1_000_000_000)

-- A call of `call_at`.
pub record Injection : Type 0 where
  pub at : Time
  pub entry : ReplayEntry

-- The loop of `replay_runner` over what the wall clock and the clock of the loop show at each entry; an
-- entry before the start is left out.
unfoldable pub schedule : Time → (ℕ → Time) → (ℕ → Time) → ℕ → List ReplayEntry → List Injection
schedule boot_unix wall mono n [] = []
schedule boot_unix wall mono n (entry ∷ entries) =
    let rest = schedule boot_unix wall mono (suc n) entries in
    elim entry.inject_at_offset_seconds [
      | negsuc _ ↦ rest
      | pos offset ↦ record { at = (boot_unix + offset - wall n) + mono n; entry = entry } ∷ rest
    ]
