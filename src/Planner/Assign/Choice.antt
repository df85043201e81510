-- ===== src/Planner/Assign/Choice.antt =====
-- The loop of `_plan_chunks` in turbobus/planner_engine.py that picks a path for a chunk.
use pcie_pool.Common.{
  ℕ, suc, ◌+◌, ◌<◌, ◌≡◌, refl, ◌⊎◌, inl, inr, List, [], ◌∷◌, some, true, false, Bool-cases, arith,
  All, length, get_elem?,
}
use pcie_pool.Common.Float.{FloatOps}
use pcie_pool.Planner.Assign.{projected, select_from}

-- What the proof takes of `<` on floats that are not NaN.
pub record IsStrictOrder (F : Type 0) ⦃f : FloatOps F⦄ : Type 0 where
  pub irreflexive : (a : F) → f.lt a a ≡ false
  pub transitive : (a b c : F) → f.lt a b ≡ true → f.lt b c ≡ true → f.lt a c ≡ true

module _ {F : Type 0} ⦃f : FloatOps F⦄ where
  -- The projected finish times, path by path.
  abbrev pub finishes : ℕ → List F → List F → List F
  finishes bytes [] ss = []
  finishes bytes (w ∷ ws) [] = []
  finishes bytes (w ∷ ws) (s ∷ ss) = projected bytes w s ∷ finishes bytes ws ss

  abbrev NotBelow : F → F → Type 0
  NotBelow best t = f.lt t best ≡ false

  -- How the loop ends: no path beats the best score so far, or one does and none beats it.
  abbrev Outcome : List F → ℕ → F → ℕ → ℕ → Type 0
  Outcome times index best selected k =
      ((k ≡ selected) × All (NotBelow best) times)
      ⊎ ((i : ℕ) × (s : F) × (k ≡ index + i)
          × (get_elem? times i ≡ some s)
          × (f.lt s best ≡ true)
          × All (NotBelow s) times)

  module _ (laws : IsStrictOrder F) where
    asym : (a b : F) → f.lt a b ≡ true → f.lt b a ≡ false
    asym a b h = elim (Bool-cases (f.lt b a)) [
      | inl g ↦ ground (arith, laws.transitive a b a h g, laws.irreflexive a)
      | inr g ↦ g
    ]

    below_not_below : (a s b : F) → f.lt a b ≡ false → f.lt s b ≡ true → f.lt a s ≡ false
    below_not_below a s b h g = elim (Bool-cases (f.lt a s)) [
      | inl k ↦ ground (arith, laws.transitive a s b k g)
      | inr k ↦ k
    ]

    better_step :
        (times : List F) (index : ℕ) (best score : F) (selected k : ℕ)
        → f.lt score best ≡ true
        → Outcome times (suc index) score index k
        → Outcome (score ∷ times) index best selected k
    better_step times index best score selected k h (inl (e, all)) =
        inr (0, score, omega (arith, e), refl, h, (laws.irreflexive score, all))
    better_step times index best score selected k h (inr (i, s, e, at_i, below, all)) = inr (
      suc i,
      s,
      omega arith,
      at_i,
      laws.transitive s score best below h,
      (asym s score below, all),
    )

    worse_step :
        (times : List F) (index : ℕ) (best score : F) (selected k : ℕ)
        → f.lt score best ≡ false
        → Outcome times (suc index) best selected k
        → Outcome (score ∷ times) index best selected k
    worse_step times index best score selected k h (inl (e, all)) = inl (e, (h, all))
    worse_step times index best score selected k h (inr (i, s, e, at_i, below, all)) =
        inr (suc i, s, omega arith, at_i, below, (below_not_below score s best h below, all))

    select_from-Outcome :
        (bytes : ℕ) (ws ss : List F) (index : ℕ) (best : F) (selected : ℕ)
        → Outcome
            (finishes bytes ws ss)
            index
            best
            selected
            (select_from bytes ws ss index best selected)
    unfolding select_from
    select_from-Outcome bytes [] ss index best selected = inl (refl, tt)
    select_from-Outcome bytes (w ∷ ws) [] index best selected = inl (refl, tt)
    select_from-Outcome bytes (w ∷ ws) (s ∷ ss) index best selected =
        let score = projected bytes w s in
        elim (Bool-cases (f.lt score best)) [
          | inl better ↦
              better_step (finishes bytes ws ss) index best score selected _ better
                (rw better (select_from-Outcome bytes ws ss (suc index) score index))
          | inr worse ↦
              worse_step (finishes bytes ws ss) index best score selected _ worse
                (rw worse (select_from-Outcome bytes ws ss (suc index) best selected))
        ]

    -- If every projected finish time is finite, the chunk goes to a path whose finish time no path
    -- beats.
    pub select_from_minimal :
        (bytes : ℕ) (ws ss : List F)
        → 0 < length (finishes bytes ws ss)
        → All (λ t. f.lt t f.infinity ≡ true) (finishes bytes ws ss)
        → (best : F) × (get_elem? (finishes bytes ws ss) (select_from bytes ws ss 0 f.infinity 0)
            ≡ some best)
          × All (λ t. f.lt t best ≡ false) (finishes bytes ws ss)
    select_from_minimal bytes ws ss nonempty finite =
        done (finishes bytes ws ss) nonempty finite (select_from-Outcome bytes ws ss 0 f.infinity 0)
      where
        done :
            (times : List F) {k : ℕ}
            → 0 < length times
            → All (λ t. f.lt t f.infinity ≡ true) times
            → Outcome times 0 f.infinity 0 k
            → (best : F) × (get_elem? times k ≡ some best) × All (λ t. f.lt t best ≡ false) times
        done [] n h o = absurd (omega arith)
        done (t ∷ times) n h (inl (e, all)) = ground arith
        done (t ∷ times) n h (inr (i, s, e, at_i, below, all)) = (s, ground arith, all)
