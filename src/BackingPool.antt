-- ===== src/BackingPool.antt =====
-- The pool of CPU buffers behind saved KV blocks: turbobus/adapters/vllm_backing_pool.py, with
-- `block_bytes_from_vllm_kv_tensor` of turbobus/adapters/vllm.py. The allocation of one buffer is a
-- call of other code: its outcome is a parameter.
pub mod Signatures
pub mod Pool
pub mod Clients
pub mod Fresh
pub mod Exclusive
pub mod Fitting
pub mod Reuse
mod Tests
use pcie_pool.Common.{ℕ, List, Option, String, Result}
use pcie_pool.Common.Dict.{Dict}

-- A KV tensor: its shape, its stride in the second dimension and the bytes of an element.
pub record KvCache : Type 0 where
  pub shape : List ℕ
  pub stride_1 : ℕ
  pub element_size : ℕ

-- A buffer: shared ones have an id, pinned tensors have none.
pub record Backing : Type 0 where
  pub buffer_id : Option String
  pub size_bytes : ℕ

-- The slots and the block bytes for each layer.
abbrev pub Signature : Type 0
Signature = List (ℕ × ℕ)

-- `_next_buffer_id` is the next number of `itertools.count(1)`.
pub record TurboBusCpuBackingPool : Type 0 where
  pub job_id : Option String
  pub buffer_id_prefix : String
  pub next_buffer_id : ℕ
  pub free_by_shape : Dict Signature (List (List Backing))

-- How the allocation of a buffer with an id and a size ends.
abbrev pub Allocator : Type 0
Allocator = Option String → ℕ → Result (Unit {0})
