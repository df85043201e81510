-- ===== src/Quota/Sums.antt =====
-- Sums over the values of a dict, and what writes do to them.
use pcie_pool.Common.{
  ℕ, ◌+◌, ◌≡◌, refl, [], ◌∷◌, Option, none, some, false, arith, sum_by, if◌then◌else◌,
}
use pcie_pool.Common.Dict.{
  Eq, Dict, IsKeyed, lookup, insert, erase, modify, contains, contains-lookup,
}

abbrev pub map_some {κ} : {V : Type κ} → (V → V) → Option V → Option V
map_some f none = none
map_some f (some v) = some (f v)

module _ {ℓ κ} {K : Type ℓ} {V : Type κ} ⦃e : Eq K⦄ where
  -- The weights of the values.
  abbrev pub weigh : (V → ℕ) → Dict K V → ℕ
  weigh w d = sum_by (λ p. w p.1) d

  pub weigh-insert :
      (w : V → ℕ) (k : K) (v : V) (d : Dict K V)
      → contains k d ≡ false
      → weigh w (insert k v d) ≡ weigh w d + w v
  unfolding insert contains
  weigh-insert w k v [] h = omega arith
  weigh-insert w k v ((j, u) ∷ d) h = ground (arith, weigh-insert w k v d)

  pub weigh-erase :
      (w : V → ℕ) (k : K) (v : V) (d : Dict K V)
      → lookup k d ≡ some v
      → weigh w d ≡ weigh w (erase k d) + w v
  unfolding erase lookup
  weigh-erase w k v [] h = absurd (ground arith)
  weigh-erase w k v ((j, u) ∷ d) h = ground (arith, weigh-erase w k v d)

  pub weigh-modify :
      (w : V → ℕ) (k : K) (v : V) (f : V → V) (d : Dict K V)
      → lookup k d ≡ some v
      → weigh w (modify k f d) + w v ≡ weigh w d + w (f v)
  unfolding lookup modify
  weigh-modify w k v f [] h = absurd (ground arith)
  weigh-modify w k v f ((j, u) ∷ d) h = ground (arith, weigh-modify w k v f d)

  -- A write to the fields of one object is seen under its key alone.
  pub lookup-modify :
      (k j : K) (f : V → V) (d : Dict K V)
      → lookup j (modify k f d) ≡ (if e.beq k j then map_some f (lookup j d) else lookup j d)
  unfolding lookup modify
  lookup-modify k j f [] = ground arith
  lookup-modify k j f ((i, w) ∷ d) =
      ground (arith, e.beq_iff k j, e.beq_iff i k, e.beq_iff i j, lookup-modify k j f d)

  pub contains-modify :
      (k j : K) (f : V → V) (d : Dict K V) → contains j (modify k f d) ≡ contains j d
  unfolding contains modify
  contains-modify k j f [] = refl
  contains-modify k j f ((i, w) ∷ d) = ground (arith, contains-modify k j f d)

  pub modify-IsKeyed : (k : K) (f : V → V) (d : Dict K V) → IsKeyed d → IsKeyed (modify k f d)
  unfolding modify
  modify-IsKeyed k f [] h = tt
  modify-IsKeyed k f ((i, w) ∷ d) h =
      ground (arith, contains-modify k i f d, modify-IsKeyed k f d h.1)

  contains-erase : (k j : K) (d : Dict K V) → contains j d ≡ false → contains j (erase k d) ≡ false
  unfolding contains erase
  contains-erase k j [] h = refl
  contains-erase k j ((i, w) ∷ d) h = ground (arith, contains-erase k j d)

  pub erase-IsKeyed : (k : K) (d : Dict K V) → IsKeyed d → IsKeyed (erase k d)
  unfolding erase
  erase-IsKeyed k [] h = tt
  erase-IsKeyed k ((i, w) ∷ d) h = ground (arith, contains-erase k i d h.0, erase-IsKeyed k d h.1)

  -- Where no key occurs twice, an entry that is erased is gone, and the others are still there.
  pub lookup-erase :
      (k j : K) (d : Dict K V)
      → IsKeyed d
      → lookup j (erase k d) ≡ (if e.beq k j then none else lookup j d)
  unfolding erase lookup
  lookup-erase k j [] h = ground arith
  lookup-erase k j ((i, w) ∷ d) h = ground (
    arith,
    e.beq_iff k j,
    e.beq_iff i k,
    e.beq_iff i j,
    contains-lookup k d,
    lookup-erase k j d h.1,
  )
