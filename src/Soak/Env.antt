-- ===== src/Soak/Env.antt =====
-- tools/soak.py: the durations on the command line, the .env file and the environment of the
-- application that is run. `lower` and `float_of` are `str.lower` and `float` on a text (`none` is the
-- ValueError); `is_space` is the white space of `str.strip`. A file is its lines.
use Prim.Native.Char.{Char, code}
use Prim.Native.String.{String}
use mathlib.Core.Option
use telegram_olymptrade_sign.Prelude.{
  ℕ, ◌*◌, ◌≡◌, refl, Bool, true, false, Option, none, some, List, [], ◌∷◌, str_eq, eq_iff, arith,
  ◌==◌, if◌then◌else◌,
}
use telegram_olymptrade_sign.Config.{Time}
use telegram_olymptrade_sign.Domain.Signal.Chars.{is_space}

unfoldable pub strip_left : (Char → Bool) → String → String
strip_left p String.[] = String.[]
strip_left p (String.◌∷◌ c s) = if p c then strip_left p s else String.◌∷◌ c s

unfoldable pub strip_right : (Char → Bool) → String → String
strip_right p String.[] = String.[]
strip_right p (String.◌∷◌ c s) = elim (strip_right p s) [
  | String.[] ↦ if p c then String.[] else String.◌∷◌ c String.[]
  | String.◌∷◌ d t ↦ String.◌∷◌ c (String.◌∷◌ d t)
]

-- `str.strip`
abbrev pub strip : (Char → Bool) → String → String
strip p s = strip_right p (strip_left p s)

-- `s[:-1]` and the last character.
unfoldable pub unsnoc : String → Option (String × ℕ)
unsnoc String.[] = none
unsnoc (String.◌∷◌ c s) = elim (unsnoc s) [
  | none ↦ some (String.[], code c)
  | some (t, d) ↦ some (String.◌∷◌ c t, d)
]

abbrev scaled : ℕ → Option Time → Option Time
scaled k none = none
scaled k (some t) = some (t * k)

-- `parse_duration`
unfoldable pub parse_duration : (String → String) → (String → Option Time) → String → Option Time
unfolding strip_left strip_right unsnoc
parse_duration lower float_of text =
    let s = lower (strip is_space text) in
    elim (unsnoc s) [
      | none ↦ float_of s
      | some (t, c) ↦
          if c == b'h'
          then scaled 3_600 (float_of t)
          else if c == b'm'
          then scaled 60 (float_of t)
          else if c == b's'
          then float_of t
          else float_of s
    ]

-- `line.partition("=")`, where the line has a =.
unfoldable pub partition : String → Option (String × String)
partition String.[] = none
partition (String.◌∷◌ c s) =
    let rest = Option.map (λ (r : String × String). (String.◌∷◌ c r.0, r.1)) (partition s) in
    if code c == b'=' then some (String.[], s) else rest

abbrev is_char : ℕ → Char → Bool
is_char n c = code c == n

abbrev starts_comment : String → Bool
starts_comment String.[] = true
starts_comment (String.◌∷◌ c s) = code c == b'#'

-- A line of the file; `none` is a line that is skipped.
unfoldable pub env_line : String → Option (String × String)
unfolding strip_left strip_right partition
env_line raw =
    let line = strip is_space raw in
    if starts_comment line then none else elim (partition line) [
      | none ↦ none
      | some (key, value) ↦
          some (
            strip is_space key,
            strip (is_char b'\'') (strip (is_char b'"') (strip is_space value)),
          )
    ]

-- An assignment in a dictionary.
unfoldable pub assign : String → String → List (String × String) → List (String × String)
assign k v [] = (k, v) ∷ []
assign k v ((j, w) ∷ env) = if str_eq j k then (k, v) ∷ env else (j, w) ∷ assign k v env

unfoldable pub env_get : String → List (String × String) → Option String
env_get k [] = none
env_get k ((j, v) ∷ env) = if str_eq j k then some v else env_get k env

unfoldable pub load_lines : List String → List (String × String) → List (String × String)
unfolding env_line assign
load_lines [] env = env
load_lines (raw ∷ lines) env = elim (env_line raw) [
  | none ↦ load_lines lines env
  | some (k, v) ↦ load_lines lines (assign k v env)
]

-- `_load_env_file`; `none` is a file that does not exist.
unfoldable pub load_env_file : Option (List String) → List (String × String)
unfolding load_lines
load_env_file none = []
load_env_file (some lines) = load_lines lines []

-- `child_env`
unfoldable pub child_env : List (String × String) → String → String → List (String × String)
unfolding assign
child_env base_env fixtures log_path = assign "LOG_PATH" log_path (
    assign "OLYMP_ACCOUNT_GROUP" "demo"
      (assign "DRY_RUN" "true" (assign "SOAK_REPLAY" fixtures base_env)))

env_get-assign :
    (k j v : String) (env : List (String × String))
    → env_get j (assign k v env) ≡ (if str_eq k j then some v else env_get j env)
unfolding env_get assign
env_get-assign k j v [] = refl
env_get-assign k j v ((i, w) ∷ env) =
    ground (arith, eq_iff i k, eq_iff i j, eq_iff k j, env_get-assign k j v env)

env_get-child_env :
    (base_env : List (String × String)) (fixtures log_path k : String)
    → env_get k (child_env base_env fixtures log_path) ≡ (
        if str_eq "LOG_PATH" k
        then some log_path
        else if str_eq "OLYMP_ACCOUNT_GROUP" k
        then some "demo"
        else if str_eq "DRY_RUN" k
        then some "true"
        else if str_eq "SOAK_REPLAY" k
        then some fixtures
        else env_get k base_env)
unfolding child_env
env_get-child_env base_env fixtures log_path k =
    rw
      (
        env_get-assign "LOG_PATH" k log_path (
            assign "OLYMP_ACCOUNT_GROUP" "demo"
              (assign "DRY_RUN" "true" (assign "SOAK_REPLAY" fixtures base_env))),
        env_get-assign "OLYMP_ACCOUNT_GROUP" k "demo"
            (assign "DRY_RUN" "true" (assign "SOAK_REPLAY" fixtures base_env)),
        env_get-assign "DRY_RUN" k "true" (assign "SOAK_REPLAY" fixtures base_env),
        env_get-assign "SOAK_REPLAY" k fixtures base_env,
      )
      refl

-- Whatever the .env file says, the application of a soak run gets the dry-run broker, the demo group and
-- the fixture, and every setting but these and LOG_PATH as the file has it.
child_env_is_dry :
    (base_env : List (String × String)) (fixtures log_path k : String)
    → let env = child_env base_env fixtures log_path in
      (env_get "DRY_RUN" env ≡ some "true")
      × (env_get "OLYMP_ACCOUNT_GROUP" env ≡ some "demo")
      × (env_get "SOAK_REPLAY" env ≡ some fixtures)
      × (str_eq "LOG_PATH" k ≡ false
          → str_eq "OLYMP_ACCOUNT_GROUP" k ≡ false
          → str_eq "DRY_RUN" k ≡ false
          → str_eq "SOAK_REPLAY" k ≡ false
          → env_get k env ≡ env_get k base_env)
child_env_is_dry base_env fixtures log_path k = (
  env_get-child_env base_env fixtures log_path "DRY_RUN",
  env_get-child_env base_env fixtures log_path "OLYMP_ACCOUNT_GROUP",
  env_get-child_env base_env fixtures log_path "SOAK_REPLAY",
  λ a b c d. rw (env_get-child_env base_env fixtures log_path k, a, b, c, d) refl,
)
