-- ===== src/BlockRuntime.antt =====
-- The daemon's records of the blocks of a transfer: turbobus/daemon/block_runtime.py. This file
-- holds the records; Create makes them from a block plan, Advance follows a status or a worker's
-- progress, Summary counts them. A record that comes back as a mapping is the record it was made
-- from, so `_record_from_mapping` is the identity here. Times are floats.
pub mod Create
pub mod Advance
pub mod Summary
mod Tests
use pcie_pool.Common.{ℕ, List, [], ◌∷◌, Option, none, some, String}
use pcie_pool.Common.Int.{ℤ}

pub record BlockRuntimeRecord (F : Type 0) : Type 0 where
  pub transfer_id : String
  pub plan_id : String
  pub block_id : String
  pub path_id : String
  pub path_kind : String
  pub direction : String
  pub target_device : ℤ
  pub relay_device : Option ℤ
  pub state : String
  pub attempt : ℕ
  pub src_offset : ℤ
  pub dst_offset : ℤ
  pub bytes : ℕ
  pub allowed_path_ids : List String
  pub lease_ids : List String
  pub plan_generation : ℤ
  pub ticket_id : Option String
  pub issued_at : Option F
  pub started_at : Option F
  pub completed_at : Option F
  pub error : Option String

pub data TransferStatusState : Type 0 where
  submitted running complete failed canceled : TransferStatusState
