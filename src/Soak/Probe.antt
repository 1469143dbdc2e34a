-- ===== src/Soak/Probe.antt =====
-- tools/soak.py: the liveness probe, over the answers of its Telethon client and the readings of the clock. `int_of` is
-- `int` on a text (`none` is the ValueError). Reading a record back from its line of JSON gives the record.
use telegram_olymptrade_sign.Prelude.{
  ◌+◌, ◌-◌, Bool, true, false, ◌&&◌, ◌||◌, not, Option, none, some, String, List, [], ◌∷◌, leb, ltb,
  str_eq, if◌then◌else◌,
}
use telegram_olymptrade_sign.Prelude.Int.{ℤ}
use telegram_olymptrade_sign.Config.{Time, seconds}
use telegram_olymptrade_sign.Telegram.Auth.{is_zero}
use telegram_olymptrade_sign.Soak.{LivenessRecord}
use telegram_olymptrade_sign.Soak.Env.{env_get}

-- `LIVENESS_INTERVAL_GETME_SECONDS`
abbrev pub liveness_interval_getme : Time
liveness_interval_getme = seconds 1_800

-- `LIVENESS_INTERVAL_ISCONNECTED_SECONDS`
abbrev pub liveness_interval_isconnected : Time
liveness_interval_isconnected = seconds 60

-- What a round of the loop meets: the event `cancel`, the clock in the test and in the round, and whether `get_me` raises.
-- Telethon's `is_connected` is no coroutine but gives a bool, so that the `await` on it raises a TypeError.
pub record Round : Type 0 where
  pub cancel : Bool
  pub tested : Time
  pub now : Time
  pub get_me_raises : Bool

pub record Pinged : Type 0 where
  pub last_getme : Time
  pub last_isconnected : Time

-- The test of the loop.
unfoldable pub goes_on : Time → Time → Round → Bool
goes_on start duration r = not r.cancel && ltb r.tested (start + duration)

abbrev ping : Time → Bool → LivenessRecord
ping now connected = record { timestamp = now; connected = connected }

-- A round: the record that is written, if any, and the times of the last calls that did not raise.
unfoldable pub probe_round : Pinged → Round → Option LivenessRecord × Pinged
probe_round s r =
    if leb liveness_interval_getme (r.now - s.last_getme)
    then if r.get_me_raises
      then (some (ping r.now false), s)
      else (some (ping r.now true), record s { last_getme = r.now })
    else if leb liveness_interval_isconnected (r.now - s.last_isconnected)
    then (some (ping r.now false), s)
    else (none, s)

abbrev pub with_line : Option LivenessRecord → List LivenessRecord → List LivenessRecord
with_line none records = records
with_line (some r) records = r ∷ records

-- The loop, over the rounds that it has time for.
unfoldable pub probe : Time → Time → Pinged → List Round → List LivenessRecord
unfolding goes_on probe_round
probe start duration s [] = []
probe start duration s (r ∷ rounds) =
    let (line, s') = probe_round s r in
    let rest = probe start duration s' rounds in
    if goes_on start duration r then with_line line rest else []

-- `env.get`
abbrev env_or : String → String → List (String × String) → String
env_or k default env = elim (env_get k env) [ none ↦ default | some v ↦ v ]

-- Whether the credentials are there.
unfoldable pub has_credentials : (String → Option ℤ) → List (String × String) → Option Bool
unfolding env_get
has_credentials int_of env = elim (int_of (env_or "TELEGRAM_API_ID" "0" env)) [
  | none ↦ none
  | some api_id ↦ some (
      not (
        is_zero api_id
        || str_eq (env_or "TELEGRAM_API_HASH" "" env) ""
        || str_eq (env_or "TELEGRAM_SESSION_STRING" "" env) ""))
]

-- What the probe meets; `authorized` is `none` where the call raises.
pub record Probed : Type 0 where
  pub at : Time
  pub connect_raises : Bool
  pub authorized : Option Bool
  pub start : Time
  pub rounds : List Round

-- `_liveness_probe`: the records of its file, if it makes one.
unfoldable pub liveness_probe :
    (String → Option ℤ) → List (String × String) → Time → Probed → Option (List LivenessRecord)
unfolding has_credentials probe
liveness_probe int_of env duration m = elim (has_credentials int_of env) [
  | none ↦ none
  | some false ↦ some (ping m.at false ∷ [])
  | some true ↦ if m.connect_raises then none else elim m.authorized [
    | none ↦ none
    | some false ↦ some (ping m.at false ∷ [])
    | some true ↦
        some (probe m.start duration (record { last_getme = 0; last_isconnected = 0 }) m.rounds)
  ]
]

-- `_read_liveness_records`
unfoldable pub read_liveness_records : Option (List LivenessRecord) → List LivenessRecord
read_liveness_records none = []
read_liveness_records (some records) = records
