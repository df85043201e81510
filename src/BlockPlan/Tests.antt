-- ===== src/BlockPlan/Tests.antt =====
-- The theorems on block plans, applied to small inputs.
use pcie_pool.Common.{ℕ, ◌≤◌, ◌≡◌, arith, none, some, true, String, All, sum_by, any_by}
use pcie_pool.Common.Int.{pos}
use pcie_pool.Common.Dict.{string_eq}
use pcie_pool.Planner.{PlannerChunk}
use pcie_pool.Planner.Assign.Coverage.{assigned}
use pcie_pool.BlockPlan.Build.{split_chunk, split_size}
use pcie_pool.BlockPlan.Build.Blocks.{HasDistinctIds}
use pcie_pool.BlockPlan.Build.Splitting.{Pieces, split_chunk-Pieces}
use pcie_pool.BlockPlan.Allocate.{block_plan_for_transfer_plan}
use pcie_pool.BlockPlan.Allocate.Conservation.{block_plan_for_transfer_plan_lem}
use pcie_pool.BlockPlan.QueueRecords.{BlockQueueRecord}
use pcie_pool.BlockPlan.EndToEnd.{block_plan-plan}
use pcie_pool.Planner.{TransferMode}
use pcie_pool.Planner.Chunks.{range_from, range_chunks}
use pcie_pool.BlockPlan.Build.{split_from}
use pcie_pool.BlockPlan.Build.Endings.{split_from-all_end}
use pcie_pool.Samples.{floats, options, profile, pooled_plan, pooled_plan-ok}

block_plan-plan_example :
    sum_by (λ b. b.bytes) (block_plan_for_transfer_plan pooled_plan "seed" "h2d").blocks ≡ 10
block_plan-plan_example =
    block_plan-plan options (pos 10) (pos 4) profile TransferMode.pool "h2d" pooled_plan "seed"
      pooled_plan-ok

block_plan_for_transfer_plan_lem_example :
    let out = block_plan_for_transfer_plan pooled_plan "seed" "h2d" in
    (sum_by (λ b. b.bytes) out.blocks ≡ sum_by (λ c. c.bytes) (assigned pooled_plan.assignments))
    × All (λ b. b.bytes ≤ split_size (pos pooled_plan.chunk_bytes)) out.blocks
    × All (λ b. any_by (λ p. string_eq.beq p.path_id b.path_id) out.paths ≡ true) out.blocks
    × HasDistinctIds out.blocks
block_plan_for_transfer_plan_lem_example = block_plan_for_transfer_plan_lem pooled_plan "seed" "h2d"

abbrev large_chunk : PlannerChunk
large_chunk = record {
  src_offset = pos 100;
  dst_offset = pos 0;
  bytes = 7;
  relay_device = some (pos 1);
}

split_chunk-Pieces_example :
    Pieces 3 large_chunk (pos 100) (pos 0) 7 (split_chunk large_chunk (pos 3))
split_chunk-Pieces_example = split_chunk-Pieces large_chunk (pos 3) (omega arith)

abbrev queued : String → ℕ → BlockQueueRecord
queued id n = record {
  block_id = id;
  path_id = "h2d:direct:0";
  state = "queued";
  attempt = 0;
  bytes = n;
  error = none;
}

split_from-all_end_example :
    (range_from 50 2 10 4 ≡ range_from 8 2 10 4)
    × (range_chunks 50 4 (pos 1) (pos 0) 10 2 ≡ range_chunks 8 4 (pos 1) (pos 0) 10 2)
    × (split_from 50 4 large_chunk 2 ≡ split_from 5 4 large_chunk 2)
split_from-all_end_example =
    split_from-all_end 4 10 2 50 (pos 1) (pos 0) large_chunk (omega arith) (omega arith)
      (omega arith)
