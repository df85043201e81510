-- ===== src/Scheduler.antt =====
-- The daemon's scheduler around the planner: parts of turbobus/scheduler/daemon.py and
-- `resolved_mode_for_plan` of turbobus/scheduler/cost_model.py.
pub mod Leases
pub mod Stats
pub mod Requests
mod Tests
use pcie_pool.Common.{ℕ, Option, String}
use pcie_pool.Planner.{TransferMode}

pub record PlannerStats : Type 0 where
  pub bytes : ℕ
  pub direct_bytes : ℕ
  pub relay_bytes : ℕ
  pub direct_chunks : ℕ
  pub relay_chunks : ℕ
  pub path_count : ℕ
  pub relay_path_count : ℕ
  pub fallback_reason : Option String
  pub requested_mode : TransferMode
  pub resolved_mode : TransferMode
