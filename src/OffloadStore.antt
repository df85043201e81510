-- ===== src/OffloadStore.antt =====
-- The named blocks of the offload store: turbobus/offload/store.py and turbobus/offload/blocks.py,
-- with the receipt handles of turbobus/offload/handles.py and the intent of turbobus/schema.py. The
-- slots, the priority, the hints and the user's metadata, which are only carried along, are left
-- out, and so are the evidence snapshots.
pub mod Blocks
pub mod Transfers
pub mod Store
pub mod Spec
pub mod Lookups
pub mod Invariant
pub mod Effects
pub mod Refinement
pub mod Submitted
pub mod Ids
pub mod Failures
mod Tests
use pcie_pool.Common.{ℕ, List, Option, Bool, String, Result}
use pcie_pool.Common.Dict.{Dict}

pub data BlockState : Type 0 where
  cpu gpu prefetching evicting unknown : BlockState

-- The two operation names, "prefetch" and "evict".
pub data Operation : Type 0 where
  prefetch evict : Operation

-- A tensor or a buffer: its identity, which `is` compares, and what its size attributes give.
pub record Backing : Type 0 where
  pub ident : ℕ
  pub numel : Option ℕ
  pub element_size : Option ℕ
  pub size_bytes : Option ℕ
  pub nbytes : Option ℕ

pub record TransferRange : Type 0 where
  pub src_offset : ℕ
  pub dst_offset : ℕ
  pub bytes : ℕ

pub record TransferContext : Type 0 where
  pub job_id : String
  pub session_id : String
  pub cpu_buffer_id : String
  pub gpu_buffer_id : String
  pub intent_prefix : String

-- `block_names` is the metadata that the store adds.
pub record TransferIntent : Type 0 where
  pub intent_id : String
  pub job_id : String
  pub session_id : String
  pub source_buffer_id : String
  pub destination_buffer_id : String
  pub direction : String
  pub total_bytes : ℕ
  pub ranges : List TransferRange
  pub block_names : List String

-- `failed`: the state is FAILED or CANCELED; `error` is then the text that is raised.
pub record TransferReceipt : Type 0 where
  pub intent_id : String
  pub job_id : String
  pub session_id : String
  pub failed : Bool
  pub error : String

-- A handle is a new object for each number that `_next_intent_id` counts.
pub record Handle : Type 0 where
  pub number : ℕ
  pub intent : TransferIntent

pub record Block : Type 0 where
  pub name : String
  pub cpu_tensor : Backing
  pub gpu_tensor : Backing
  pub block_id : String
  pub cpu_offset : ℕ
  pub gpu_offset : ℕ
  pub byte_count : Option ℕ
  pub state : BlockState
  pub last_prefetch : Option Handle
  pub last_evict : Option Handle
  pub last_handle : Option Handle
  pub last_operation : Option Operation

-- A block object is referred to by its name. `block_views` keeps for each view the block that it
-- wraps, `waited` the numbers of the handles whose `_waited` is set, and `submitted` the intents that
-- the session was given, the last one first.
pub record OffloadStore : Type 0 where
  pub transfer_context : TransferContext
  pub blocks : Dict String Block
  pub block_views : Dict String String
  pub intent_counter : ℕ
  pub submitted : List TransferIntent
  pub waited : List ℕ

pub record OffloadBatch : Type 0 where
  pub operation : Operation
  pub names : List String
  pub handles : List Handle

-- What the store calls of the runtime session, with the outcome of each call.
-- `validate_runtime_receipt` stands for the checks of the receipt's evidence, `record_binding` for
-- the entrypoint record that a handle writes.
pub record RuntimeSession : Type 0 where
  pub closed : Bool
  pub open_session : Result (Unit {0})
  pub submit_transfer_intent : TransferIntent → Result TransferReceipt
  pub wait_transfer_receipt : String → Result TransferReceipt
  pub validate_runtime_receipt : TransferReceipt → Result (Unit {0})
  pub record_binding : TransferReceipt → Result (Unit {0})

-- A call on the store: the store after it, and what it returns or raises.
abbrev pub Run {ℓ} : Type ℓ → Type ℓ
Run A = OffloadStore × Result A
