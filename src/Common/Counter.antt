-- ===== src/Common/Counter.antt =====
-- Dicts of counts, `d[k] = d.get(k, 0) + n`, and the dict laws that their proofs use.
use Prim.Native.Nat.{ℕ, ◌+◌}
use mathlib.Core.Path.{◌≡◌}
use mathlib.Core.Option.{Option, none, some}
use mathlib.Core.Logic.{inl, inr}
use mathlib.Core.List.{List, [], ◌∷◌}
use native.Mathlib.Omega.{arith}
use pcie_pool.Common.Tests.{if◌then◌else◌, Bool-cases}
use pcie_pool.Common.Lists.{sum_by}
use pcie_pool.Common.Dict.{Eq, Dict, lookup, insert, lookup-insert}

abbrev pub or_zero : Option ℕ → ℕ
or_zero none = 0
or_zero (some n) = n

module _ {ℓ} {K : Type ℓ} ⦃e : Eq K⦄ where
  -- `d.get(k, 0)`
  abbrev pub count_of : K → Dict K ℕ → ℕ
  count_of k d = or_zero (lookup k d)

  -- `d[k] = d.get(k, 0) + n`
  pub bump : K → ℕ → Dict K ℕ → Dict K ℕ
  unfolding insert lookup
  bump k n d = insert k (count_of k d + n) d

  pub count_of-bump :
      (k j : K) (n : ℕ) (d : Dict K ℕ)
      → count_of j (bump k n d) ≡ count_of j d + (if e.beq k j then n else 0)
  unfolding bump
  count_of-bump k j n d = elim (Bool-cases (e.beq k j)) [
    | inl same ↦ ground (arith, lookup-insert k j (count_of k d + n) d, e.beq_iff k j)
    | inr other ↦ ground (arith, lookup-insert k j (count_of k d + n) d)
  ]

  -- A loop that counts a weight under a key for each item.
  unfoldable pub tally {κ} : {A : Type κ} → (A → K) → (A → ℕ) → List A → Dict K ℕ → Dict K ℕ
  unfolding bump
  tally key weight [] d = d
  tally key weight (x ∷ xs) d = tally key weight xs (bump (key x) (weight x) d)

  -- After the loop each key has the weight of the items that have it.
  pub count_of-tally {κ} :
      {A : Type κ} (key : A → K) (weight : A → ℕ) (xs : List A) (d : Dict K ℕ) (k : K)
      → count_of k (tally key weight xs d)
        ≡ count_of k d + sum_by (λ x. if e.beq (key x) k then weight x else 0) xs
  unfolding tally
  count_of-tally key weight [] d k = omega arith
  count_of-tally key weight (x ∷ xs) d k = omega (
    arith,
    count_of-tally key weight xs (bump (key x) (weight x) d) k,
    count_of-bump (key x) k (weight x) d,
  )

  abbrev pub total : Dict K ℕ → ℕ
  total d = sum_by (λ p. p.1) d

  total-insert : (k : K) (v : ℕ) (d : Dict K ℕ) → total (insert k v d) + count_of k d ≡ total d + v
  unfolding insert lookup
  total-insert k v [] = omega arith
  total-insert k v ((j, w) ∷ d) = elim (Bool-cases (e.beq j k)) [
    | inl same ↦ rw same (omega arith)
    | inr other ↦ rw other (omega (arith, total-insert k v d))
  ]

  -- The counts add up to the weights.
  pub total-tally {κ} :
      {A : Type κ} (key : A → K) (weight : A → ℕ) (xs : List A) (d : Dict K ℕ)
      → total (tally key weight xs d) ≡ total d + sum_by weight xs
  unfolding tally bump
  total-tally key weight [] d = omega arith
  total-tally key weight (x ∷ xs) d = omega (
    arith,
    total-tally key weight xs (bump (key x) (weight x) d),
    total-insert (key x) (count_of (key x) d + weight x) d,
  )

  -- The same for a loop that begins with an empty dict.
  pub count_of-counts {κ} :
      {A : Type κ} (key : A → K) (weight : A → ℕ) (xs : List A) (k : K)
      → count_of k (tally key weight xs [])
        ≡ sum_by (λ x. if e.beq (key x) k then weight x else 0) xs
  unfolding lookup
  count_of-counts key weight xs k = omega (arith, count_of-tally key weight xs [] k)

  pub total-counts {κ} :
      {A : Type κ} (key : A → K) (weight : A → ℕ) (xs : List A)
      → total (tally key weight xs []) ≡ sum_by weight xs
  total-counts key weight xs = omega (arith, total-tally key weight xs [])
