-- ===== src/StagingPool/Slots.antt =====
-- `WorkerStagingBufferRequirement.__post_init__` of turbobus/schema.py, and `_align_up` and
-- `WorkerStagingSlot` of turbobus/worker/staging_pool.py.
use Prim.Native.Char.{code}
use native.Mathlib.Nat.{mul-mod_left, lt-div-mul-add, div-mul-le_self}
use pcie_pool.Common.{
  ℕ, ◌+◌, ◌-◌, ◌*◌, ◌/◌, ◌%◌, ◌≤◌, ◌<◌, ◌≡◌, Bool, true, ◌&&◌, ◌||◌, not, String, ltb, leb, ◌==◌,
  arith, Result, ok, value_error, ◌>>◌, raise_if,
}
use pcie_pool.Common.Int.{ℤ, pos, pos_part, ltb_ℤ, leb_ℤ}
use pcie_pool.StagingPool.{
  WorkerStagingBufferRequirement, WorkerDataPlaneRequest, WorkerStagingSlot,
}

-- `not s.strip()`, on ASCII white space.
unfoldable pub is_blank : String → Bool
is_blank String.[] = true
is_blank (String.◌∷◌ c s) =
    (code c == 32 || leb 9 (code c) && leb (code c) 13 || leb 28 (code c) && leb (code c) 31)
    && is_blank s

-- `WorkerStagingBufferRequirement(...)`
unfoldable pub staging_requirement :
    ℤ → ℤ → ℤ → ℤ → ℤ → String → Result WorkerStagingBufferRequirement
unfolding is_blank
staging_requirement relay_gpu total_bytes max_chunk_bytes chunk_count alignment_bytes buffer_kind =
    do
      raise_if (ltb_ℤ relay_gpu (pos 0)) (value_error "relay_gpu must be non-negative")
      raise_if (leb_ℤ total_bytes (pos 0)) (value_error "staging total_bytes must be positive")
      raise_if (leb_ℤ max_chunk_bytes (pos 0))
          (value_error "staging max_chunk_bytes must be positive")
      raise_if (ltb_ℤ total_bytes max_chunk_bytes)
          (value_error "staging max_chunk_bytes cannot exceed total_bytes")
      raise_if (leb_ℤ chunk_count (pos 0)) (value_error "staging chunk_count must be positive")
      raise_if (leb_ℤ alignment_bytes (pos 0))
          (value_error "staging alignment_bytes must be positive")
      raise_if (is_blank buffer_kind) (value_error "staging buffer_kind must be non-empty")
      ok (record {
        relay_gpu = pos_part relay_gpu;
        total_bytes = pos_part total_bytes;
        max_chunk_bytes = pos_part max_chunk_bytes;
        chunk_count = pos_part chunk_count;
        alignment_bytes = pos_part alignment_bytes;
        buffer_kind = buffer_kind;
      })

-- `_align_up`
unfoldable pub align_up : ℕ → ℕ → ℕ
align_up value alignment = (value + alignment - 1) / alignment * alignment

-- `WorkerStagingSlot.__post_init__`, on values that are not negative.
unfoldable pub checked_slot : WorkerStagingSlot → Result WorkerStagingSlot
unfolding is_blank
checked_slot s = do
  raise_if (is_blank s.slot_id) (value_error "slot_id must be non-empty")
  raise_if (is_blank s.transfer_id) (value_error "transfer_id must be non-empty")
  raise_if (is_blank s.lease_id) (value_error "lease_id must be non-empty")
  raise_if (is_blank s.session_id) (value_error "session_id must be non-empty")
  raise_if (is_blank s.job_id) (value_error "job_id must be non-empty")
  raise_if (leb s.requested_bytes 0) (value_error "requested_bytes must be positive")
  raise_if (ltb s.allocated_bytes s.requested_bytes)
      (value_error "allocated_bytes cannot be smaller than requested_bytes")
  raise_if (leb s.max_chunk_bytes 0) (value_error "max_chunk_bytes must be positive")
  raise_if (leb s.chunk_count 0) (value_error "chunk_count must be positive")
  raise_if (leb s.alignment_bytes 0) (value_error "alignment_bytes must be positive")
  raise_if (not (s.allocated_bytes % s.alignment_bytes == 0))
      (value_error "allocated_bytes must be alignment-sized")
  raise_if (is_blank s.buffer_kind) (value_error "buffer_kind must be non-empty")
  ok s

-- The slot that a request asks for.
unfoldable pub slot_for : WorkerDataPlaneRequest → String → WorkerStagingSlot
unfolding align_up
slot_for request slot_id = record {
  slot_id = slot_id;
  transfer_id = request.transfer_id;
  lease_id = request.lease_id;
  session_id = request.session_id;
  job_id = request.job_id;
  relay_gpu = request.relay_gpu;
  requested_bytes = request.staging.total_bytes;
  allocated_bytes = align_up request.staging.total_bytes request.staging.alignment_bytes;
  max_chunk_bytes = request.staging.max_chunk_bytes;
  chunk_count = request.staging.chunk_count;
  alignment_bytes = request.staging.alignment_bytes;
  buffer_kind = request.staging.buffer_kind;
  active = true;
}

-- `WorkerStagingSlot.from_request`
unfoldable pub from_request : WorkerDataPlaneRequest → String → Result WorkerStagingSlot
unfolding slot_for checked_slot
from_request request slot_id = checked_slot (slot_for request slot_id)

-- `_align_up` gives the least multiple of the alignment that has room for the value.
pub align_up_lem :
    (value alignment : ℕ)
    → 0 < alignment
    → (align_up value alignment % alignment ≡ 0)
      × (value ≤ align_up value alignment)
      × (align_up value alignment < value + alignment)
unfolding align_up
align_up_lem value alignment h =
    let n = value + alignment - 1 in
    (
      mul-mod_left (n / alignment) alignment,
      omega (arith, lt-div-mul-add {a = n} h),
      omega (arith, div-mul-le_self n alignment),
    )

checked_slot-same : (s t : WorkerStagingSlot) → checked_slot s ≡ ok t → t ≡ s
unfolding checked_slot
checked_slot-same s t e = ground arith

-- A slot that is made is the one that the request asks for.
pub from_request-slot_for :
    (request : WorkerDataPlaneRequest) (id : String) (t : WorkerStagingSlot)
    → from_request request id ≡ ok t
    → t ≡ slot_for request id
unfolding from_request
from_request-slot_for request id t e = checked_slot-same (slot_for request id) t e

pub from_request-aligned :
    (request : WorkerDataPlaneRequest) (id : String) (t : WorkerStagingSlot)
    → from_request request id ≡ ok t
    → 0 < request.staging.alignment_bytes
unfolding from_request checked_slot slot_for
from_request-aligned request id t e = ground arith
