-- ===== src/Planner/Tests.antt =====
-- Runs of the planner on small inputs, and its theorems applied to them.
use pcie_pool.Common.{
  ℕ, arith, err, ◌≡◌, refl, List, [], ◌∷◌, false, none, some, map, str_eq, String, All, length,
  get_elem?, ltb,
}
use mathlib.Core.List.{Perm}
use pcie_pool.Common.Int.{pos}
use pcie_pool.Common.Float.{fmax}
use pcie_pool.Planner.{TransferMode, PlannerChunk, PlannerTransferPlan}
use pcie_pool.Planner.Cost.{chunks_bytes}
use pcie_pool.Planner.Chunks.{make_chunks}
use pcie_pool.Planner.Chunks.Tiling.{Tiles}
use pcie_pool.Planner.Chunks.Ranges.{Covers}
use pcie_pool.Planner.Paths.{build_paths}
use pcie_pool.Planner.Assign.{projected, select_from}
use pcie_pool.Planner.Assign.Coverage.{assigned}
use pcie_pool.Planner.Assign.Choice.{IsStrictOrder, finishes, select_from_minimal}
use pcie_pool.Planner.Engine.{plan, plan_call, settled_mode, text, unknown_mode, transfer_mode}
use pcie_pool.Planner.Engine.Partition.{plan-partition, plan_ranges-partition}
use pcie_pool.Planner.Engine.Modes.{IsRouted, plan-IsRouted, mode_for, Outcome, plan_call-Outcome}
use pcie_pool.Samples.{
  floats, options, profile, pooled_plan, pooled_plan-ok, ranges, ranged_plan, ranged_plan-ok,
}

shape : PlannerTransferPlan ℕ → List (String × ℕ)
shape p = map (λ a. (a.path.kind, chunks_bytes a.chunks)) p.assignments

pooled : shape pooled_plan ≡ ("direct", 6) ∷ ("relay", 4) ∷ []
unfolding shape plan str_eq
pooled = refl

plan-partition_example :
    (cs : List PlannerChunk) × Tiles 4 (pos 0) (pos 0) 10 cs
    × Perm (assigned pooled_plan.assignments) cs
    × (pooled_plan.total_bytes ≡ 10)
plan-partition_example =
    plan-partition options (pos 10) (pos 4) profile TransferMode.pool "h2d" pooled_plan
      pooled_plan-ok

plan_ranges-partition_example :
    (cs : List PlannerChunk) × Covers 2 ranges cs ranged_plan.total_bytes
    × Perm (assigned ranged_plan.assignments) cs
plan_ranges-partition_example =
    plan_ranges-partition options ranges (pos 2) profile TransferMode.pool "d2h" ranged_plan
      ranged_plan-ok

plan-IsRouted_example :
    IsRouted options profile
      (settled_mode options (length (make_chunks 10 4)) 10 TransferMode.pool).0
      "h2d"
      pooled_plan
plan-IsRouted_example =
    plan-IsRouted options (pos 10) (pos 4) profile TransferMode.pool "h2d" pooled_plan
      pooled_plan-ok

plan_call-Outcome_example :
    Outcome
      (pos 10)
      (pos 4)
      (text "pool")
      (λ m. build_paths options profile (mode_for options (pos 10) (pos 4) m) "h2d")
      (plan_call options (pos 10) (pos 4) profile (text "pool") "h2d")
plan_call-Outcome_example = plan_call-Outcome options (pos 10) (pos 4) profile (text "pool") "h2d"

refused : plan_call options (pos 10) (pos 4) profile (text "fast") "h2d" ≡ err (unknown_mode "fast")
unfolding plan_call transfer_mode str_eq
refused = refl

below : IsStrictOrder ℕ
below = record { irreflexive = λ a. ground arith; transitive = λ a b c h k. ground arith }

select_from_minimal_example :
    (best : ℕ) × (get_elem?
        (finishes 4 (2000000 ∷ 1000000 ∷ []) (0 ∷ 0 ∷ []))
        (select_from 4 (2000000 ∷ 1000000 ∷ []) (0 ∷ 0 ∷ []) 0 floats.infinity 0)
      ≡ some best)
    × All (λ t. ltb t best ≡ false) (finishes 4 (2000000 ∷ 1000000 ∷ []) (0 ∷ 0 ∷ []))
unfolding projected fmax
select_from_minimal_example =
    select_from_minimal below 4 (2000000 ∷ 1000000 ∷ []) (0 ∷ 0 ∷ []) (omega arith)
      (refl, (refl, tt))

abbrev piece : ℕ → ℕ → PlannerChunk
piece offset n = record {
  src_offset = pos offset;
  dst_offset = pos offset;
  bytes = n;
  relay_device = none;
}
