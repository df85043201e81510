-- ===== src/Planner.antt =====
-- The transfer planner: turbobus/planner_types.py and turbobus/planner_engine.py, with the profile
-- records of turbobus/scheduler/cost_model.py. This file holds the records; the children hold the
-- operations. Cost-metadata dictionaries of the input profiles, which the planner only copies, and
-- the fabric kind of a path, which it never sets, are left out.
pub mod Chunks
pub mod Paths
pub mod Assign
pub mod Cost
pub mod Engine
mod Tests
use pcie_pool.Common.{ℕ, List, [], Option, none, String, Bool}
use pcie_pool.Common.Int.{ℤ}

pub data TransferMode : Type 0 where
  auto pool direct relay : TransferMode

pub record PlannerChunk : Type 0 where
  pub src_offset : ℤ
  pub dst_offset : ℤ
  pub bytes : ℕ
  pub relay_device : Option ℤ

-- `relay_device` is -1 on a direct path.
pub record PlannerPath (F : Type 0) : Type 0 where
  pub kind : String
  pub direction : String
  pub target_device : ℤ
  pub relay_device : ℤ
  pub h2d_bw_gbps : F
  pub d2h_bw_gbps : F
  pub p2p_bw_gbps : F
  pub effective_bw_gbps : F
  pub enabled : Bool
  pub scheduler_weight_gbps : Option F
  pub runtime_pressure : F

pub record PlannerPathAssignment (F : Type 0) : Type 0 where
  pub path : PlannerPath F
  pub chunks : List PlannerChunk

-- One entry of the plan's cost metadata.
pub record PathRecord (F : Type 0) : Type 0 where
  pub kind : String
  pub target_device : ℤ
  pub relay_device : Option ℤ
  pub effective_bw_gbps : F
  pub scheduler_weight_gbps : F
  pub scheduler_weight_source : String
  pub runtime_pressure : F
  pub assigned_bytes : ℕ
  pub assigned_chunks : ℕ
  pub estimated_finish_seconds : F

pub record PlannerTransferPlan (F : Type 0) : Type 0 where
  pub total_bytes : ℕ
  pub chunk_bytes : ℕ
  pub assignments : List (PlannerPathAssignment F)
  pub pool_disabled_reason : Option String
  pub path_records : List (PathRecord F)

-- `PlannerTransferPlan()`
unfoldable pub empty_plan : {F : Type 0} → PlannerTransferPlan F
empty_plan = record {
  total_bytes = 0;
  chunk_bytes = 16777216;
  assignments = [];
  pool_disabled_reason = none;
  path_records = [];
}

pub record RelayProfile (F : Type 0) : Type 0 where
  pub relay_device : ℤ
  pub target_device : ℤ
  pub h2d_bw_gbps : F
  pub d2h_bw_gbps : F
  pub p2p_bw_gbps : F
  pub effective_bw_gbps : F
  pub effective_d2h_bw_gbps : F
  pub p2p_enabled : Bool
  pub scheduler_weight_h2d_gbps : F
  pub scheduler_weight_d2h_gbps : F
  pub runtime_pressure_h2d : F
  pub runtime_pressure_d2h : F

pub record Profile (F : Type 0) : Type 0 where
  pub target_device : ℤ
  pub direct_h2d_bw_gbps : F
  pub direct_d2h_bw_gbps : F
  pub relays : List (RelayProfile F)
  pub direct_scheduler_weight_h2d_gbps : F
  pub direct_scheduler_weight_d2h_gbps : F
  pub direct_runtime_pressure_h2d : F
  pub direct_runtime_pressure_d2h : F

pub record PlannerEngineOptions (F : Type 0) : Type 0 where
  pub min_chunks_for_relay : ℤ
  pub min_pool_bytes : ℤ
  pub relay_min_effective_bw_gbps : F
  pub relay_min_direct_ratio : F
