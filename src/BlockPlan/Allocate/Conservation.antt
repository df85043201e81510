-- ===== src/BlockPlan/Allocate/Conservation.antt =====
-- turbobus/scheduler/path_allocator.py: what a block plan keeps of a planner's plan, and what its
-- summary counts.
use pcie_pool.Common.{
  ℕ, ◌+◌, ◌≤◌, ◌≡◌, refl, List, [], ◌∷◌, true, String, arith, sum_by, All, any_by, Bool-cases, inl,
  inr, sum_by-append,
}
use pcie_pool.Common.Int.{pos}
use pcie_pool.Common.Text.{◌^^◌}
use pcie_pool.Common.Dict.{Dict, lookup, string_eq}
use pcie_pool.Common.Float.{FloatOps}
use pcie_pool.Planner.{PlannerPathAssignment, PlannerTransferPlan}
use pcie_pool.BlockPlan.{BlockPath, TransferBlock, BlockPlan}
use pcie_pool.BlockPlan.Build.{allowed_ids, block_plan_from_assignments, split_size}
use pcie_pool.BlockPlan.Build.Blocks.{
  add_assignments-IsSound, HasDistinctIds, Numbered-HasDistinctIds,
}
use pcie_pool.BlockPlan.Build.Paths.{block_plan-paths}
use pcie_pool.BlockPlan.Allocate.{
  block_plan_for_transfer_plan, block_plan_metadata, split_bytes, is_relay_path, paths_by_id,
}
use pcie_pool.Planner.Assign.Coverage.{assigned}

assigned-bytes :
    {F : Type 0} (as' : List (PlannerPathAssignment F))
    → sum_by (λ c. c.bytes) (assigned as') ≡ sum_by (λ a. sum_by (λ c. c.bytes) a.chunks) as'
assigned-bytes [] = refl
assigned-bytes (a ∷ as') =
    omega (arith, sum_by-append (λ c. c.bytes) a.chunks (assigned as'), assigned-bytes as')

split_bytes-sum :
    {F : Type 0} (paths : Dict String (BlockPath F)) (bs : List TransferBlock) (d r : ℕ)
    → (split_bytes paths bs d r).0 + (split_bytes paths bs d r).1 ≡ d + r + sum_by (λ b. b.bytes) bs
unfolding split_bytes
split_bytes-sum paths [] d r = omega arith
split_bytes-sum paths (b ∷ bs) d r = elim (Bool-cases (is_relay_path (lookup b.path_id paths))) [
  | inl e ↦ rw (e, split_bytes) (omega (arith, split_bytes-sum paths bs d (r + b.bytes)))
  | inr e ↦ rw (e, split_bytes) (omega (arith, split_bytes-sum paths bs (d + b.bytes) r))
]

module _ {F : Type 0} ⦃f : FloatOps F⦄ where
  -- The blocks of a block plan carry the bytes of the plan's chunks, none has more bytes than the
  -- chunk size (or one byte, if the size is 0), each goes by a path that the block plan lists, and
  -- no two blocks share an id.
  pub block_plan_for_transfer_plan_lem :
      (plan : PlannerTransferPlan F) (decision_seed direction : String)
      → let out = block_plan_for_transfer_plan plan decision_seed direction in
        (sum_by (λ b. b.bytes) out.blocks ≡ sum_by (λ c. c.bytes) (assigned plan.assignments))
        × All (λ b. b.bytes ≤ split_size (pos plan.chunk_bytes)) out.blocks
        × All (λ b. any_by (λ p. string_eq.beq p.path_id b.path_id) out.paths ≡ true) out.blocks
        × HasDistinctIds out.blocks
  unfolding block_plan_for_transfer_plan block_plan_from_assignments
  block_plan_for_transfer_plan_lem plan seed direction =
      let (sound, sum) =
        add_assignments-IsSound _ (pos plan.chunk_bytes) _ 0 plan.assignments [] [] (tt, tt) in
      (
        omega (arith, assigned-bytes plan.assignments),
        sound.1,
        block_plan-paths ("block-plan-" ^^ seed) (pos plan.chunk_bytes)
            (allowed_ids plan.assignments) plan.assignments,
        Numbered-HasDistinctIds _ 0 _ sound.0,
      )

-- The bytes that the summary counts as direct and as relayed are together those of the blocks.
pub block_plan_metadata-bytes :
    {F : Type 0} (plan : BlockPlan F)
    → let summary = block_plan_metadata plan in
      summary.direct_bytes + summary.relay_bytes ≡ sum_by (λ b. b.bytes) plan.blocks
unfolding block_plan_metadata
block_plan_metadata-bytes plan =
    omega (arith, split_bytes-sum (paths_by_id plan.paths []) plan.blocks 0 0)
