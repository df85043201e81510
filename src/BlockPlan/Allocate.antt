-- ===== src/BlockPlan/Allocate.antt =====
-- turbobus/scheduler/path_allocator.py: from a planner's plan to a block plan, and its summary.
pub mod Conservation
use pcie_pool.Common.{
  ℕ, zero, ◌+◌, List, [], ◌∷◌, Option, none, some, Bool, false, ◌&&◌, String, ltb, str_eq,
  if◌then◌else◌, length,
}
use pcie_pool.Common.Int.{ℤ, pos}
use pcie_pool.Common.Text.{◌^^◌}
use pcie_pool.Common.Dict.{Dict, lookup, insert, string_eq}
use pcie_pool.Common.Float.{FloatOps}
use pcie_pool.Planner.{PlannerPathAssignment, PlannerTransferPlan}
use pcie_pool.BlockPlan.{BlockPath, TransferBlock, Allocation, BlockPlan}
use pcie_pool.BlockPlan.Build.{block_plan_from_assignments}

-- The loop over the assignments, on the two counts.
pub count_blocks : {F : Type 0} → List (PlannerPathAssignment F) → ℕ → ℕ → ℕ × ℕ
count_blocks [] direct_blocks relay_blocks = (direct_blocks, relay_blocks)
count_blocks (a ∷ as') direct_blocks relay_blocks =
    let is_relay = str_eq a.path.kind "relay" in
    let n = length a.chunks in
    count_blocks as' (if is_relay then direct_blocks else direct_blocks + n)
      (if is_relay then relay_blocks + n else relay_blocks)

pub allocation_for : ℕ → ℕ → Allocation
allocation_for direct_blocks relay_blocks = record {
  allocation_mode =
      if ltb 0 direct_blocks && ltb 0 relay_blocks
      then "mixed"
      else if ltb 0 relay_blocks
      then "relay"
      else "direct";
  direct_block_count = direct_blocks;
  relay_block_count = relay_blocks;
}

module _ {F : Type 0} ⦃f : FloatOps F⦄ where
  -- `block_plan_for_transfer_plan`
  pub block_plan_for_transfer_plan : PlannerTransferPlan F → String → String → BlockPlan F
  unfolding count_blocks allocation_for block_plan_from_assignments
  block_plan_for_transfer_plan plan decision_seed direction =
      let (direct_blocks, relay_blocks) = count_blocks plan.assignments 0 0 in
      block_plan_from_assignments ("block-plan-" ^^ decision_seed) plan.total_bytes
        (pos plan.chunk_bytes) plan.assignments direction
        (some (allocation_for direct_blocks relay_blocks))

-- `{path.path_id: path for path in paths}`
unfoldable pub paths_by_id :
    {F : Type 0} → List (BlockPath F) → Dict String (BlockPath F) → Dict String (BlockPath F)
unfolding insert
paths_by_id [] d = d
paths_by_id (p ∷ ps) d = paths_by_id ps (insert p.path_id p d)

abbrev pub is_relay_path : {F : Type 0} → Option (BlockPath F) → Bool
is_relay_path none = false
is_relay_path (some p) = str_eq p.kind "relay"

-- The loop of `block_plan_metadata`, on the two byte counts.
pub split_bytes : {F : Type 0} → Dict String (BlockPath F) → List TransferBlock → ℕ → ℕ → ℕ × ℕ
unfolding lookup
split_bytes paths [] direct_bytes relay_bytes = (direct_bytes, relay_bytes)
split_bytes paths (b ∷ bs) direct_bytes relay_bytes =
    let relay = is_relay_path (lookup b.path_id paths) in
    split_bytes paths bs (if relay then direct_bytes else direct_bytes + b.bytes)
      (if relay then relay_bytes + b.bytes else relay_bytes)

pub record BlockPlanSummary : Type 0 where
  pub plan_id : String
  pub direction : String
  pub block_count : ℕ
  pub path_count : ℕ
  pub direct_bytes : ℕ
  pub relay_bytes : ℕ
  pub allocation_mode : Option String

abbrev mode_of : Option Allocation → Option String
mode_of none = none
mode_of (some a) = some a.allocation_mode

-- `block_plan_metadata`
pub block_plan_metadata : {F : Type 0} → BlockPlan F → BlockPlanSummary
unfolding split_bytes paths_by_id
block_plan_metadata plan =
    let (direct_bytes, relay_bytes) = split_bytes (paths_by_id plan.paths []) plan.blocks 0 0 in
    record {
      plan_id = plan.plan_id;
      direction = plan.direction;
      block_count = length plan.blocks;
      path_count = length plan.paths;
      direct_bytes = direct_bytes;
      relay_bytes = relay_bytes;
      allocation_mode = mode_of plan.allocation;
    }
