-- ===== src/Planner/Assign.antt =====
-- Which path carries which chunk: `_plan_chunks` and `_scheduler_weight` of
-- turbobus/planner_engine.py.
pub mod Coverage
pub mod Choice
use pcie_pool.Common.{
  ℕ, zero, suc, List, [], ◌∷◌, ◌++◌, map, Option, none, some, Bool, true, false, if◌then◌else◌,
  update_at,
}
use pcie_pool.Common.Float.{FloatOps, fmax, fmin}
use pcie_pool.Planner.{PlannerChunk, PlannerPath, PlannerPathAssignment}

pub record Lanes (F : Type 0) : Type 0 where
  pub assignment_chunks : List (List PlannerChunk)
  pub assigned_scores : List F

module _ {F : Type 0} ⦃f : FloatOps F⦄ where
  -- `_scheduler_weight`
  pub fallback_weight : PlannerPath F → F
  unfolding fmax fmin
  fallback_weight path =
      let pressure = fmin (fmax f.zero_f path.runtime_pressure) f.four_f in
      f.div (fmax f.zero_f path.effective_bw_gbps) (f.add f.one_f pressure)

  unfoldable pub scheduler_weight : PlannerPath F → F
  unfolding fallback_weight fmax
  scheduler_weight path = elim path.scheduler_weight_gbps [
    | none ↦ fallback_weight path
    | some weight ↦ if f.lt f.zero_f weight then fmax f.zero_f weight else fallback_weight path
  ]

  -- The finish time that a path would have with one more chunk.
  unfoldable pub projected : ℕ → F → F → F
  unfolding fmax
  projected bytes weight score = f.div (f.add score (f.of_ℕ bytes)) (fmax weight f.tiny)

  -- The loop over the paths: the best score so far and where it stands.
  pub select_from : ℕ → List F → List F → ℕ → F → ℕ → ℕ
  unfolding projected
  select_from bytes [] scores index best selected = selected
  select_from bytes (w ∷ ws) [] index best selected = selected
  select_from bytes (w ∷ ws) (s ∷ ss) index best selected =
      let score = projected bytes w s in
      let better = f.lt score best in
      select_from bytes ws ss (suc index) (if better then score else best)
        (if better then index else selected)

  -- One round of the loop over the chunks.
  pub place : List F → Lanes F → PlannerChunk → Lanes F
  unfolding select_from
  place weights lanes chunk =
      let selected = select_from chunk.bytes weights lanes.assigned_scores 0 f.infinity 0 in
      record {
        assignment_chunks =
            update_at selected (λ chunks. chunks ++ chunk ∷ []) lanes.assignment_chunks;
        assigned_scores =
            update_at selected (λ score. f.add score (f.of_ℕ chunk.bytes)) lanes.assigned_scores;
      }

  unfoldable pub place_all : List F → Lanes F → List PlannerChunk → Lanes F
  unfolding place
  place_all weights lanes [] = lanes
  place_all weights lanes (c ∷ cs) = place_all weights (place weights lanes c) cs

  -- The empty lists and zero scores that the loop begins with.
  unfoldable pub start_lanes : List (PlannerPath F) → Lanes F
  start_lanes paths = record {
    assignment_chunks = map (λ _. []) paths;
    assigned_scores = map (λ _. f.zero_f) paths;
  }

  -- Python's `sum` adds from the left to 0.
  unfoldable pub sum_from : F → List F → F
  sum_from total [] = total
  sum_from total (w ∷ ws) = sum_from (f.add total w) ws

-- The assignments of the paths that have been given a chunk.
unfoldable pub gather :
    {F : Type 0} → List (PlannerPath F) → List (List PlannerChunk) → List (PlannerPathAssignment F)
gather [] lanes = []
gather (p ∷ ps) [] = []
gather (p ∷ ps) ([] ∷ lanes) = gather ps lanes
gather (p ∷ ps) ((c ∷ cs) ∷ lanes) = record { path = p; chunks = c ∷ cs } ∷ gather ps lanes
