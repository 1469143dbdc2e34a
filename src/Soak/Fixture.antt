-- ===== src/Soak/Fixture.antt =====
-- What assert_row_counts_match_expected and assert_telegram_liveness of tools/soak_assertions.py count, said of
-- the outcomes of the fixture and of the records themselves.
use telegram_olymptrade_sign.Prelude.{
  ℕ, ◌+◌, ◌*◌, ◌<◌, ◌≤◌, ◌≡◌, ◌↔◌, refl, inl, inr, Bool, String, List, [], ◌∷◌, str_eq, eq_iff,
  arith, Bool-cases, if◌then◌else◌, length,
}
use telegram_olymptrade_sign.Config.{Time, seconds}
use telegram_olymptrade_sign.Soak.{
  FixtureEntry, LivenessRecord, outcome_of, expected_outcome_stages, expected_total,
  connected_count, hours_of,
}

abbrev one_if : Bool → ℕ
one_if b = if b then 1 else 0

-- How many entries of the fixture have an outcome.
abbrev pub with_outcome : String → List FixtureEntry → ℕ
with_outcome outcome [] = 0
with_outcome outcome (f ∷ fs) = one_if (str_eq (outcome_of f) outcome) + with_outcome outcome fs

-- A stage for a win at once, two for one at the first gale, three for the others that are played.
abbrev pub stages_expected : List FixtureEntry → ℕ
stages_expected fs =
    with_outcome "win_at_initial" fs
    + 2 * with_outcome "loss_initial_win_gale1" fs
    + 3 * with_outcome "loss_initial_loss_gale1_win_gale2" fs
    + 3 * with_outcome "full_loss" fs

stages_of_outcome :
    (o : String)
    → expected_outcome_stages o
      ≡ one_if (str_eq o "win_at_initial")
        + 2 * one_if (str_eq o "loss_initial_win_gale1")
        + 3 * one_if (str_eq o "loss_initial_loss_gale1_win_gale2")
        + 3 * one_if (str_eq o "full_loss")
unfolding expected_outcome_stages
stages_of_outcome o = elim (Bool-cases (str_eq o "win_at_initial")) [
  | inl e ↦ rw ((eq_iff o "win_at_initial").0 e) refl
  | inr n1 ↦ elim (Bool-cases (str_eq o "loss_initial_win_gale1")) [
    | inl e ↦ rw ((eq_iff o "loss_initial_win_gale1").0 e) refl
    | inr n2 ↦ elim (Bool-cases (str_eq o "loss_initial_loss_gale1_win_gale2")) [
      | inl e ↦ rw ((eq_iff o "loss_initial_loss_gale1_win_gale2").0 e) refl
      | inr n3 ↦ elim (Bool-cases (str_eq o "full_loss")) [
        | inl e ↦ rw ((eq_iff o "full_loss").0 e) refl
        | inr n4 ↦ rw (expected_outcome_stages, n1, n2, n3, n4) refl
      ]
    ]
  ]
]

pub expected_total_lem : (fs : List FixtureEntry) → expected_total fs ≡ stages_expected fs
unfolding expected_total
expected_total_lem [] = refl
expected_total_lem (f ∷ fs) = omega (arith, expected_total_lem fs, stages_of_outcome (outcome_of f))

-- The records of a connected client.
abbrev pub connected_records : List LivenessRecord → List LivenessRecord
connected_records [] = []
connected_records (r ∷ rs) =
    let rest = connected_records rs in if r.connected then r ∷ rest else rest

connected_count_lem :
    (rs : List LivenessRecord) → connected_count rs ≡ length (connected_records rs)
unfolding connected_count
connected_count_lem [] = refl
connected_count_lem (r ∷ rs) = ground (arith, connected_count_lem rs)

hours_iff : (d n : ℕ) → (hours_of d ≤ n) ↔ (d < seconds 3_600 * n)
hours_iff d n = ((λ h. omega (arith, h)), (λ h. omega (arith, h)))

pub hours_of_lem :
    (d : Time) (rs : List LivenessRecord)
    → (hours_of d ≤ connected_count rs) ↔ (d < seconds 3_600 * length (connected_records rs))
hours_of_lem d rs = rw (connected_count_lem rs) (hours_iff d (length (connected_records rs)))
