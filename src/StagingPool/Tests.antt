-- ===== src/StagingPool/Tests.antt =====
-- The theorems on the staging pool, applied to one request.
use pcie_pool.Common.{◌≡◌, refl, none, some, false, ok}
use pcie_pool.Common.Text.{◌^^◌, show_ℕ}
use pcie_pool.Common.Dict.{insert, contains}
use pcie_pool.StagingPool.{WorkerDataPlaneRequest, WorkerStagingSlot, WorkerStagingPool}
use pcie_pool.StagingPool.Slots.{is_blank, align_up, checked_slot, slot_for, from_request}
use pcie_pool.StagingPool.Pool.{new_slot_id, allocate, validate_slot_for_request, release, describe}
use pcie_pool.StagingPool.RoundTrip.{allocate-release}
use pcie_pool.StagingPool.Ids.{empty_pool, starts, allocates, allocate-no_clash}

abbrev request : WorkerDataPlaneRequest
request = record {
  transfer_id = "t";
  lease_id = "l";
  session_id = "s";
  job_id = "j";
  relay_gpu = 1;
  staging = record {
    relay_gpu = 1;
    total_bytes = 1000;
    max_chunk_bytes = 400;
    chunk_count = 3;
    alignment_bytes = 256;
    buffer_kind = "relay_staging";
  };
}

abbrev slot : WorkerStagingSlot
slot = slot_for request "staging-1"

abbrev filled : WorkerStagingPool
filled = (allocate none request empty_pool).0

allocated : allocate none request empty_pool ≡ (filled, ok slot)
unfolding allocate new_slot_id from_request checked_slot slot_for align_up is_blank show_ℕ contains
    insert
allocated = refl

rounded : slot.allocated_bytes ≡ 1024
unfolding slot_for align_up
rounded = refl

allocate-release_example :
    let released = release slot.slot_id (some request) filled in
    (describe slot.slot_id filled ≡ ok slot)
    × (validate_slot_for_request slot.slot_id request filled ≡ ok slot)
    × (released.0.slots ≡ empty_pool.slots)
    × (released.1 ≡ ok (record slot { active = false }))
allocate-release_example = allocate-release none request empty_pool filled slot allocated

allocate-no_clash_example :
    (allocate none request filled).1
    ≡ from_request request ("staging-" ^^ show_ℕ filled.next_slot_id)
allocate-no_clash_example = allocate-no_clash request filled (allocates empty_pool request starts)
