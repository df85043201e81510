-- ===== src/BlockPlan.antt =====
-- Block plans: turbobus/scheduler/block_plan.py, path_allocator.py and block_queue.py. A planner's
-- chunks are split into blocks of bounded size, each with an id, a path and the paths it may move to.
-- The dictionaries of cost metadata that are only copied are left out.
pub mod Build
pub mod Allocate
pub mod QueueRecords
pub mod EndToEnd
mod Tests
use pcie_pool.Common.{ℕ, List, Option, String}
use pcie_pool.Common.Int.{ℤ}

pub record BlockPath (F : Type 0) : Type 0 where
  pub path_id : String
  pub kind : String
  pub direction : String
  pub target_device : ℤ
  pub relay_device : Option ℤ
  pub scheduler_weight_gbps : F
  pub runtime_pressure : F

-- The last three fields are the block's `metadata`.
pub record TransferBlock : Type 0 where
  pub block_id : String
  pub path_id : String
  pub attempt : ℕ
  pub src_offset : ℤ
  pub dst_offset : ℤ
  pub bytes : ℕ
  pub allowed_path_ids : List String
  pub assignment_index : ℕ
  pub chunk_index : ℕ
  pub split_index : ℕ

-- What `block_plan_for_transfer_plan` adds to the metadata.
pub record Allocation : Type 0 where
  pub allocation_mode : String
  pub direct_block_count : ℕ
  pub relay_block_count : ℕ

-- The fields from `block_count` on are the plan's `metadata`.
pub record BlockPlan (F : Type 0) : Type 0 where
  pub plan_id : String
  pub direction : String
  pub total_bytes : ℕ
  pub blocks : List TransferBlock
  pub paths : List (BlockPath F)
  pub block_count : ℕ
  pub path_count : ℕ
  pub chunk_bytes : ℤ
  pub allocation : Option Allocation
