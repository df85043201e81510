-- ===== src/BlockPlan/EndToEnd.antt =====
-- From a transfer to its blocks: turbobus/planner_engine.py, then turbobus/scheduler/block_plan.py
-- and path_allocator.py, then block_queue.py.
use pcie_pool.Common.{◌≡◌, refl, ◌∙◌, List, String, length, sum_by, sum_by-one, ok, if◌then◌else◌}
use pcie_pool.Common.Int.{ℤ, pos_part}
use pcie_pool.Common.Dict.{string_eq}
use pcie_pool.Common.Counter.{count_of, count_of-counts, total, total-counts}
use pcie_pool.Common.Sums.{sum_by-perm}
use pcie_pool.Common.Float.{FloatOps}
use pcie_pool.Planner.{TransferMode, PlannerTransferPlan, Profile, PlannerEngineOptions}
use pcie_pool.Planner.Chunks.Tiling.{Tiles-sum}
use pcie_pool.Planner.Engine.{plan}
use pcie_pool.Planner.Engine.Partition.{plan-partition}
use pcie_pool.Planner.Assign.Coverage.{assigned}
use pcie_pool.BlockPlan.Allocate.{block_plan_for_transfer_plan}
use pcie_pool.BlockPlan.Allocate.Conservation.{block_plan_for_transfer_plan_lem}
use pcie_pool.BlockPlan.QueueRecords.{BlockQueueRecord, queue_summary}

module _ {F : Type 0} ⦃f : FloatOps F⦄ where
  -- The block plan of a planned transfer carries the transfer's bytes, no more and no fewer.
  pub block_plan-plan :
      (options : PlannerEngineOptions F) (total_bytes chunk_bytes : ℤ) (profile : Profile F)
      (mode : TransferMode) (direction : String) (p : PlannerTransferPlan F)
      (decision_seed : String)
      → plan options total_bytes chunk_bytes profile mode direction ≡ ok p
      → sum_by (λ b. b.bytes) (block_plan_for_transfer_plan p decision_seed direction).blocks
        ≡ pos_part total_bytes
  block_plan-plan options t c profile mode direction p seed e =
      let (cs, tiles, perm, total) = plan-partition options t c profile mode direction p e in
      (block_plan_for_transfer_plan_lem p seed direction).0
      ∙ sum_by-perm (λ c. c.bytes) (assigned p.assignments) cs perm
      ∙ Tiles-sum _ _ _ _ cs tiles

-- The summary counts every record, in all and state by state, and its byte counts are those of the
-- records.
pub queue_summary-counts :
    (records : List BlockQueueRecord) (state : String)
    → let s = queue_summary records in
      (s.block_count ≡ length records)
      × (total s.states ≡ length records)
      × (count_of state s.states
          ≡ sum_by (λ r. if string_eq.beq r.state state then 1 else 0) records)
      × (count_of state s.bytes_by_state
          ≡ sum_by (λ r. if string_eq.beq r.state state then r.bytes else 0) records)
      × (total s.bytes_by_state ≡ sum_by (λ r. r.bytes) records)
unfolding queue_summary
queue_summary-counts records state = (
  refl,
  total-counts (λ r. r.state) (λ _. 1) records ∙ sum_by-one records,
  count_of-counts (λ r. r.state) (λ _. 1) records state,
  count_of-counts (λ r. r.state) (λ r. r.bytes) records state,
  total-counts (λ r. r.state) (λ r. r.bytes) records,
)
