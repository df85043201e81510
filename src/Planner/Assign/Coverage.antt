-- ===== src/Planner/Assign/Coverage.antt =====
-- `_plan_chunks` of turbobus/planner_engine.py gives every chunk to exactly one path.
use pcie_pool.Common.{
  ℕ, zero, suc, ◌+◌, ◌<◌, ◌≡◌, refl, sym, subst, ap, ◌∙◌, inl, inr, ◌⊎◌, List, [], ◌∷◌, ◌++◌, map,
  Bool-cases, arith, length, All, length-map, length-update_at, update_at,
}
use mathlib.Core.List.{Perm, flatten, append-nil, append_assoc, perm_middle}
use mathlib.Core.List.Perm
use pcie_pool.Common.Float.{FloatOps}
use pcie_pool.Planner.{PlannerChunk, PlannerPath, PlannerPathAssignment}
use pcie_pool.Planner.Assign.{Lanes, projected, select_from, place, place_all, start_lanes, gather}

-- The chunks of all assignments, path by path.
abbrev pub assigned : {F : Type 0} → List (PlannerPathAssignment F) → List PlannerChunk
assigned [] = []
assigned (a ∷ as') = a.chunks ++ assigned as'

flatten-add :
    (i : ℕ) (c : PlannerChunk) (lanes : List (List PlannerChunk))
    → i < length lanes
    → Perm (flatten (update_at i (λ chunks. chunks ++ c ∷ []) lanes)) (c ∷ flatten lanes)
unfolding flatten
flatten-add i c [] h = elim h [ ]
flatten-add zero c (l ∷ lanes) h = rw append_assoc (perm_middle l (flatten lanes))
flatten-add (suc i) c (l ∷ lanes) h =
    Perm.trans (Perm.append_left l (flatten-add i c lanes (omega arith)))
      (perm_middle l (flatten lanes))

gather-assigned :
    {F : Type 0} (paths : List (PlannerPath F)) (lanes : List (List PlannerChunk))
    → length paths ≡ length lanes
    → assigned (gather paths lanes) ≡ flatten lanes
unfolding gather flatten
gather-assigned [] [] e = refl
gather-assigned [] (l ∷ lanes) e = absurd (omega arith)
gather-assigned (p ∷ ps) [] e = absurd (omega arith)
gather-assigned (p ∷ ps) ([] ∷ lanes) e = gather-assigned ps lanes (omega arith)
gather-assigned (p ∷ ps) ((c ∷ cs) ∷ lanes) e =
    ap (λ rest. c ∷ cs ++ rest) (gather-assigned ps lanes (omega arith))

flatten-blank :
    {F : Type 0} (paths : List (PlannerPath F))
    → flatten {A = PlannerChunk} (map (λ _. []) paths) ≡ []
unfolding flatten
flatten-blank [] = refl
flatten-blank (p ∷ ps) = flatten-blank ps

module _ {F : Type 0} ⦃f : FloatOps F⦄ where
  -- The choice is the path given to begin with or one of the paths of the loop.
  select_from_range :
      (bytes : ℕ) (ws ss : List F) (index : ℕ) (best : F) (selected : ℕ)
      → (select_from bytes ws ss index best selected ≡ selected)
        ⊎ (select_from bytes ws ss index best selected < index + length ss)
  unfolding select_from
  select_from_range bytes [] ss index best selected = inl refl
  select_from_range bytes (w ∷ ws) [] index best selected = inl refl
  select_from_range bytes (w ∷ ws) (s ∷ ss) index best selected =
      let better = f.lt (projected bytes w s) best in
      elim (Bool-cases better) [
        | inl yes_better ↦
            rw yes_better (
              ground (arith, select_from_range bytes ws ss (suc index) (projected bytes w s) index))
        | inr not_better ↦
            rw not_better (ground (arith, select_from_range bytes ws ss (suc index) best selected))
      ]

  abbrev AreParallel : Lanes F → Type 0
  AreParallel lanes = length lanes.assignment_chunks ≡ length lanes.assigned_scores

  place-perm :
      (weights : List F) (lanes : Lanes F) (c : PlannerChunk)
      → AreParallel lanes
      → 0 < length lanes.assignment_chunks
      → Perm
          (flatten (place weights lanes c).assignment_chunks)
          (c ∷ flatten lanes.assignment_chunks)
  unfolding place
  place-perm weights lanes c p h =
      flatten-add (select_from c.bytes weights lanes.assigned_scores 0 f.infinity 0) c
        lanes.assignment_chunks
        (ground (arith, select_from_range c.bytes weights lanes.assigned_scores 0 f.infinity 0))

  place-parallel :
      (weights : List F) (lanes : Lanes F) (c : PlannerChunk)
      → AreParallel lanes
      → AreParallel (place weights lanes c)
        × (length (place weights lanes c).assignment_chunks ≡ length lanes.assignment_chunks)
  unfolding place
  place-parallel weights lanes c p = (
    length-update_at _ _ lanes.assignment_chunks
        ∙ p
        ∙ sym (length-update_at _ _ lanes.assigned_scores),
    length-update_at _ _ lanes.assignment_chunks,
  )

  place_all-perm :
      (weights : List F) (lanes : Lanes F) (cs : List PlannerChunk)
      → AreParallel lanes
      → 0 < length lanes.assignment_chunks
      → Perm
          (flatten (place_all weights lanes cs).assignment_chunks)
          (cs ++ flatten lanes.assignment_chunks)
        × (length (place_all weights lanes cs).assignment_chunks ≡ length lanes.assignment_chunks)
  unfolding place_all
  place_all-perm weights lanes [] p h = (Perm.refl _, refl)
  place_all-perm weights lanes (c ∷ cs) p h =
      let (q, same) = place-parallel weights lanes c p in
      let (rest, len) =
        place_all-perm weights (place weights lanes c) cs q (subst (λ n. 0 < n) (sym same) h) in
      (
        Perm.trans rest
            (Perm.trans (Perm.append_left cs (place-perm weights lanes c p h)) (perm_middle cs _)),
        len ∙ same,
      )

  -- With one path at least, the assignments hold each chunk once: none is lost and none is sent
  -- twice.
  pub assigned-perm :
      (paths : List (PlannerPath F)) (weights : List F) (cs : List PlannerChunk)
      → 0 < length paths
      → Perm
          (assigned (gather paths (place_all weights (start_lanes paths) cs).assignment_chunks))
          cs
  unfolding start_lanes
  assigned-perm paths weights cs h =
      let (perm, len) =
        place_all-perm weights (start_lanes paths) cs
          (length-map _ paths ∙ sym (length-map _ paths))
          (subst (λ n. 0 < n) (sym (length-map _ paths)) h) in
      rw (gather-assigned paths _ (sym (len ∙ length-map _ paths)))
        (rw (flatten-blank paths, append-nil) at perm)

-- Every assignment carries a chunk.
pub gather-nonempty :
    {F : Type 0} (paths : List (PlannerPath F)) (lanes : List (List PlannerChunk))
    → All (λ a. 0 < length a.chunks) (gather paths lanes)
unfolding gather
gather-nonempty [] lanes = tt
gather-nonempty (p ∷ ps) [] = tt
gather-nonempty (p ∷ ps) ([] ∷ lanes) = gather-nonempty ps lanes
gather-nonempty (p ∷ ps) ((c ∷ cs) ∷ lanes) = (omega arith, gather-nonempty ps lanes)

-- What holds of all paths holds of the paths of the assignments.
pub gather-paths {κ} :
    {F : Type 0} (P : PlannerPath F → Type κ) (paths : List (PlannerPath F))
    (lanes : List (List PlannerChunk))
    → All P paths
    → All (λ a. P a.path) (gather paths lanes)
unfolding gather
gather-paths P [] lanes h = tt
gather-paths P (p ∷ ps) [] h = tt
gather-paths P (p ∷ ps) ([] ∷ lanes) h = gather-paths P ps lanes h.1
gather-paths P (p ∷ ps) ((c ∷ cs) ∷ lanes) h = (h.0, gather-paths P ps lanes h.1)
