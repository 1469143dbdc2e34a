-- ===== src/Prelude/Table.antt =====
-- A database table with a primary key, as the list of its rows, and the statements on one key.
use mathlib.Core.Path.{◌≡◌, refl, ap, ◌∙◌}
use mathlib.Core.Logic.{inl, inr}
use mathlib.Core.Bool.{Bool}
use mathlib.Core.Option.{Option, none, some}
use mathlib.Core.List.{List, [], ◌∷◌}
use native.Mathlib.Omega.{arith}
use telegram_olymptrade_sign.Prelude.Tests.{if◌then◌else◌, Bool-cases}
use telegram_olymptrade_sign.Prelude.Lists.{All}
use telegram_olymptrade_sign.Prelude.Eq.{Eq}

module _ {R K : Type 0} ⦃e : Eq K⦄ (key : R → K) where
  -- SELECT * FROM t WHERE key = k
  unfoldable pub select : K → List R → Option R
  select k [] = none
  select k (r ∷ rs) = if e.beq (key r) k then some r else select k rs

  -- UPDATE t SET … WHERE key = k
  unfoldable pub update_where : K → (R → R) → List R → List R
  update_where k f [] = []
  update_where k f (r ∷ rs) = (if e.beq (key r) k then f r else r) ∷ update_where k f rs

  -- No two rows have one key.
  abbrev pub IsKeyed : List R → Type 0
  IsKeyed [] = Unit
  IsKeyed (r ∷ rs) = (select (key r) rs ≡ none) × IsKeyed rs

  abbrev pub map_if : Bool → (R → R) → Option R → Option R
  map_if b f none = none
  map_if b f (some r) = if b then some (f r) else some r

  pub select-update_where :
      (k j : K) (f : R → R) (rs : List R)
      → ((r : R) → key (f r) ≡ key r)
      → select j (update_where k f rs) ≡ map_if (e.beq k j) f (select j rs)
  unfolding select update_where
  select-update_where k j f [] keeps = refl
  select-update_where k j f (r ∷ rs) keeps = ground (
    arith,
    keeps r,
    e.beq_iff (key r) k,
    e.beq_iff (key r) j,
    e.beq_iff (key (f r)) j,
    e.beq_iff k j,
    select-update_where k j f rs keeps,
  )

  pub update_where-IsKeyed :
      (k : K) (f : R → R) (rs : List R)
      → ((r : R) → key (f r) ≡ key r)
      → IsKeyed rs
      → IsKeyed (update_where k f rs)
  unfolding update_where
  update_where-IsKeyed k f [] keeps h = tt
  update_where-IsKeyed k f (r ∷ rs) keeps h = ground (
    arith,
    keeps r,
    select-update_where k (key r) f rs keeps,
    update_where-IsKeyed k f rs keeps h.1,
  )

  -- A row that is found has the key that was asked for.
  pub key-select : (k : K) (rs : List R) (r : R) → select k rs ≡ some r → key r ≡ k
  unfolding select
  key-select k [] r h = cc
  key-select k (x ∷ rs) r h = ground (arith, e.beq_iff (key x) k, key-select k rs r)

  pub select-cons :
      (k : K) (r : R) (rs : List R)
      → select k (r ∷ rs) ≡ (if e.beq (key r) k then some r else select k rs)
  unfolding select
  select-cons k r rs = refl

  none_not_some : (o : Option R) (x : R) → o ≡ none → o ≡ some x → ⊥
  none_not_some o x h h' = ground arith

  found_next :
      (r x : R) (rs : List R)
      → select (key r) rs ≡ none
      → select (key x) rs ≡ some x
      → select (key x) (r ∷ rs) ≡ some x
  unfolding select
  found_next r x rs new h = elim (Bool-cases (e.beq (key r) (key x))) [
    | inr other ↦ rw other h
    | inl same ↦ absurd (
        none_not_some (select (key r) rs) x new
          (ap (λ k. select k rs) ((e.beq_iff (key r) (key x)).0 same) ∙ h))
  ]

  found_below :
      (r : R) (rs found : List R)
      → select (key r) rs ≡ none
      → All (λ x. select (key x) rs ≡ some x) found
      → All (λ x. select (key x) (r ∷ rs) ≡ some x) found
  unfolding select
  found_below r rs [] new h = tt
  found_below r rs (x ∷ found) new h = (found_next r x rs new h.0, found_below r rs found new h.1)

  -- In a keyed table every row is found under its key.
  pub found_in_keyed : (rs : List R) → IsKeyed rs → All (λ x. select (key x) rs ≡ some x) rs
  unfolding select
  found_in_keyed [] h = tt
  found_in_keyed (r ∷ rs) h =
      (ground (arith, e.beq_iff (key r) (key r)), found_below r rs rs h.0 (found_in_keyed rs h.1))
