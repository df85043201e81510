-- ===== src/StagingPool.antt =====
-- The worker's staging pool: turbobus/worker/staging_pool.py, with the requirement of
-- turbobus/schema.py that it reads. The ids of the two buffers and the direction, which a slot only
-- carries as metadata, are left out. The pool's methods run under its lock.
pub mod Slots
pub mod Pool
pub mod RoundTrip
pub mod Ids
mod Tests
use pcie_pool.Common.{ℕ, Bool, String}
use pcie_pool.Common.Dict.{Dict}

pub record WorkerStagingBufferRequirement : Type 0 where
  pub relay_gpu : ℕ
  pub total_bytes : ℕ
  pub max_chunk_bytes : ℕ
  pub chunk_count : ℕ
  pub alignment_bytes : ℕ
  pub buffer_kind : String

pub record WorkerDataPlaneRequest : Type 0 where
  pub transfer_id : String
  pub lease_id : String
  pub session_id : String
  pub job_id : String
  pub relay_gpu : ℕ
  pub staging : WorkerStagingBufferRequirement

pub record WorkerStagingSlot : Type 0 where
  pub slot_id : String
  pub transfer_id : String
  pub lease_id : String
  pub session_id : String
  pub job_id : String
  pub relay_gpu : ℕ
  pub requested_bytes : ℕ
  pub allocated_bytes : ℕ
  pub max_chunk_bytes : ℕ
  pub chunk_count : ℕ
  pub alignment_bytes : ℕ
  pub buffer_kind : String
  pub active : Bool

pub record WorkerStagingPool : Type 0 where
  pub next_slot_id : ℕ
  pub slots : Dict String WorkerStagingSlot
