-- ===== src/Common/Entries.antt =====
-- A predicate on the entries of a dict, kept by writes.
use mathlib.Core.Path.{◌≡◌, sym, subst}
use mathlib.Core.Logic.{inl, inr}
use mathlib.Core.Option.{some}
use mathlib.Core.List.{[], ◌∷◌}
use native.Mathlib.Omega.{arith}
use pcie_pool.Common.Tests.{Bool-cases}
use pcie_pool.Common.Lists.{All}
use pcie_pool.Common.Dict.{Eq, Dict, lookup, insert, erase, modify}

module _ {ℓ κ ι} {K : Type ℓ} {V : Type κ} ⦃e : Eq K⦄ (P : K × V → Type ι) where
  -- A new key comes with its value; a known one keeps its own spelling.
  pub All-insert : (k : K) (v : V) (d : Dict K V) → P (k, v) → All P d → All P (insert k v d)
  unfolding insert
  All-insert k v [] h all = (h, tt)
  All-insert k v ((j, w) ∷ d) h all = ground (arith, All-insert k v d h all.1, e.beq_iff j k)

  pub All-erase : (k : K) (d : Dict K V) → All P d → All P (erase k d)
  unfolding erase
  All-erase k [] all = tt
  All-erase k ((j, w) ∷ d) all = ground (arith, All-erase k d all.1)

  pub All-modify :
      (k : K) (f : V → V) (d : Dict K V)
      → ((j : K) (v : V) → P (j, v) → P (j, f v))
      → All P d
      → All P (modify k f d)
  unfolding modify
  All-modify k f [] h all = tt
  All-modify k f ((j, w) ∷ d) h all = ground (arith, All-modify k f d h all.1, h j w)

  pub All-lookup : (k : K) (v : V) (d : Dict K V) → lookup k d ≡ some v → All P d → P (k, v)
  unfolding lookup
  All-lookup k v [] here all = absurd (ground arith)
  All-lookup k v ((j, w) ∷ d) here all = ground (arith, All-lookup k v d, e.beq_iff j k)

  -- A write to the value of one key.
  pub All-modify_at :
      (k : K) (f : V → V) (d : Dict K V)
      → ((v : V) → P (k, v) → P (k, f v))
      → All P d
      → All P (modify k f d)
  unfolding modify
  All-modify_at k f [] h all = tt
  All-modify_at k f ((j, w) ∷ d) h all = elim (Bool-cases (e.beq j k)) [
    | inl same ↦
        let equal = (e.beq_iff j k).0 same in
        rw same
          (subst (λ i. P (i, f w)) (sym equal) (h w (subst (λ i. P (i, w)) equal all.0)), all.1)
    | inr other ↦ rw other (all.0, All-modify_at k f d h all.1)
  ]
