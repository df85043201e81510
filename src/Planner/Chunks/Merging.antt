-- ===== src/Planner/Chunks/Merging.antt =====
-- `_coalesced_path_chunks` of turbobus/planner_engine.py joins neighbours and loses nothing.
use pcie_pool.Common.{
  ◌+◌, ◌≡◌, refl, List, [], ◌∷◌, true, false, ◌⊎◌, inl, inr, Bool-cases, String, str_eq, arith,
  sum_by,
}
use pcie_pool.Planner.{PlannerChunk}
use pcie_pool.Planner.Chunks.{chunks_are_contiguous, merge_from, coalesced_path_chunks}

-- No two neighbours could still be joined.
abbrev pub IsMerged : List PlannerChunk → Type 0
IsMerged [] = Unit
IsMerged (c ∷ []) = Unit
IsMerged (c ∷ d ∷ cs) = (chunks_are_contiguous c d ≡ false) × IsMerged (d ∷ cs)

merge_from-sum :
    (last : PlannerChunk) (cs : List PlannerChunk)
    → sum_by (λ c. c.bytes) (merge_from last cs) ≡ last.bytes + sum_by (λ c. c.bytes) cs
unfolding merge_from
merge_from-sum last [] = omega arith
merge_from-sum last (c ∷ cs) = elim (Bool-cases (chunks_are_contiguous last c)) [
  | inl joined ↦
      rw joined (omega (arith, merge_from-sum (record last { bytes = last.bytes + c.bytes }) cs))
  | inr apart ↦ rw apart (omega (arith, merge_from-sum c cs))
]

-- A chunk that does not continue into the first one does not continue into what that one grows to.
apart-IsMerged :
    (x last : PlannerChunk) (cs : List PlannerChunk)
    → chunks_are_contiguous x last ≡ false
    → IsMerged (merge_from last cs)
    → IsMerged (x ∷ merge_from last cs)
unfolding merge_from chunks_are_contiguous
apart-IsMerged x last [] e h = (e, tt)
apart-IsMerged x last (c ∷ cs) e h = elim (Bool-cases (chunks_are_contiguous last c)) [
  | inl joined ↦
      rw joined
        (apart-IsMerged x (record last { bytes = last.bytes + c.bytes }) cs e (rw joined at h))
  | inr apart ↦ rw apart (e, rw apart at h)
]

merge_from-IsMerged : (last : PlannerChunk) (cs : List PlannerChunk) → IsMerged (merge_from last cs)
unfolding merge_from
merge_from-IsMerged last [] = tt
merge_from-IsMerged last (c ∷ cs) = elim (Bool-cases (chunks_are_contiguous last c)) [
  | inl joined ↦ rw joined (merge_from-IsMerged (record last { bytes = last.bytes + c.bytes }) cs)
  | inr apart ↦ rw apart (apart-IsMerged last c cs apart (merge_from-IsMerged c cs))
]

-- Merging the chunks of a direct path keeps the byte count and leaves no two neighbours that could
-- still be joined; the chunks of any other path stay as they are.
pub coalesced_path_chunks_lem :
    (kind : String) (cs : List PlannerChunk)
    → (sum_by (λ c. c.bytes) (coalesced_path_chunks kind cs) ≡ sum_by (λ c. c.bytes) cs)
      × ((str_eq kind "direct" ≡ true) × IsMerged (coalesced_path_chunks kind cs)
          ⊎ (str_eq kind "direct" ≡ false) × (coalesced_path_chunks kind cs ≡ cs))
unfolding coalesced_path_chunks
coalesced_path_chunks_lem kind [] =
    (refl, elim (Bool-cases (str_eq kind "direct")) [ inl e ↦ inl (e, tt) | inr e ↦ inr (e, refl) ])
coalesced_path_chunks_lem kind (c ∷ cs) = elim (Bool-cases (str_eq kind "direct")) [
  | inl is_direct ↦ rw is_direct (merge_from-sum c cs, inl (refl, merge_from-IsMerged c cs))
  | inr other ↦ rw other (refl, inr (refl, refl))
]
