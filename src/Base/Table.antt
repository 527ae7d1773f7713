-- ===== src/Base/Table.antt =====
-- A table with a primary key, as an association list, and the statements that run against one row.
use mathlib.Core.Path.{◌≡◌, refl}
use mathlib.Core.Logic.{◌↔◌, inl, inr, ◌≢◌}
use mathlib.Core.Bool.{Bool, true, false}
use mathlib.Core.Option.{Option, none, some}
use mathlib.Core.List.{List, [], ◌∷◌}
use native.Mathlib.Omega.{arith}
use unicas.Base.Tests.{if◌then◌else◌, Bool-cases}

-- Equality of keys.
pub record Eq {ℓ} (K : Type ℓ) : Type ℓ where
  pub beq : K → K → Bool
  pub beq_iff : (a b : K) → (beq a b ≡ true) ↔ (a ≡ b)

module _ {ℓ} {K : Type ℓ} ⦃e : Eq K⦄ where
  pub beq_refl : (k : K) → e.beq k k ≡ true
  beq_refl k = (e.beq_iff k k).1 refl

  pub beq_ne : {j k : K} → j ≢ k → e.beq j k ≡ false
  beq_ne {j} {k} h = elim (Bool-cases (e.beq j k)) [
    | inl p ↦ absurd (h ((e.beq_iff j k).0 p))
    | inr p ↦ p
  ]

module _ {ℓ κ} {K : Type ℓ} {V : Type κ} ⦃e : Eq K⦄ where
  -- SELECT ... WHERE key = ?
  unfoldable pub find : K → List (K × V) → Option V
  find k [] = none
  find k ((j, v) ∷ t) = if e.beq j k then some v else find k t

  -- DELETE ... WHERE key = ?
  unfoldable pub delete : K → List (K × V) → List (K × V)
  delete k [] = []
  delete k ((j, v) ∷ t) = let rest = delete k t in if e.beq j k then rest else (j, v) ∷ rest

  -- UPDATE ... SET ... WHERE key = ?
  unfoldable pub update : K → (V → V) → List (K × V) → List (K × V)
  update k f [] = []
  update k f ((j, v) ∷ t) = ((j, if e.beq j k then f v else v) ∷ update k f t)

  -- INSERT ... ON CONFLICT(key) DO UPDATE
  unfoldable pub upsert : K → V → List (K × V) → List (K × V)
  upsert k v [] = (k, v) ∷ []
  upsert k v ((j, w) ∷ t) = if e.beq j k then (k, v) ∷ t else (j, w) ∷ upsert k v t

  pub find-delete :
      (k j : K) (t : List (K × V)) → find j (delete k t) ≡ (if e.beq k j then none else find j t)
  unfolding find delete
  find-delete k j [] = ground arith
  find-delete k j ((i, v) ∷ t) =
      ground (arith, find-delete k j t, e.beq_iff i k, e.beq_iff i j, e.beq_iff k j)

  pub find-update :
      (k j : K) (f : V → V) (t : List (K × V))
      → find j (update k f t)
        ≡ (if e.beq k j then elim (find j t) [ none ↦ none | some v ↦ some (f v) ] else find j t)
  unfolding find update
  find-update k j f [] = ground arith
  find-update k j f ((i, v) ∷ t) =
      ground (arith, find-update k j f t, e.beq_iff i k, e.beq_iff i j, e.beq_iff k j)

  pub find-upsert :
      (k j : K) (v : V) (t : List (K × V))
      → find j (upsert k v t) ≡ (if e.beq k j then some v else find j t)
  unfolding find upsert
  find-upsert k j v [] = refl
  find-upsert k j v ((i, w) ∷ t) =
      ground (arith, find-upsert k j v t, e.beq_iff i k, e.beq_iff i j, e.beq_iff k j)

  -- A new row of a plain INSERT.
  pub find-cons :
      (k j : K) (v : V) (t : List (K × V))
      → find j ((k, v) ∷ t) ≡ (if e.beq k j then some v else find j t)
  unfolding find
  find-cons k j v t = refl
