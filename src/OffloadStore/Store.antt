-- ===== src/OffloadStore/Store.antt =====
-- The other methods of `OffloadStore` in turbobus/offload/store.py, and `wait` of a handle in
-- turbobus/offload/handles.py.
use pcie_pool.Common.{
  ℕ, List, [], ◌∷◌, Option, none, some, Bool, ◌==◌, String, any_by, if◌then◌else◌, Result, ok, err,
  value_error, runtime_error, key_error, ◌>>=◌, ◌>>◌, raise_if,
}
use pcie_pool.Common.Int.{ℤ}
use pcie_pool.Common.Text.{◌^^◌}
use pcie_pool.Common.Dict.{lookup, insert, erase, modify, contains, keys, string_eq}
use pcie_pool.OffloadStore.{
  BlockState, cpu, gpu, unknown, prefetch, evict, Backing, TransferContext, Handle, Block,
  OffloadStore, RuntimeSession, Run,
}
use pcie_pool.OffloadStore.Blocks.{validate_name, validate_range_fields, offload_block}
use pcie_pool.OffloadStore.Transfers.{
  and_then, require_runtime_session_open, validate_transfer_receipt,
}

-- The store that `__init__` makes.
unfoldable pub new_store : TransferContext → OffloadStore
new_store context = record {
  transfer_context = context;
  blocks = [];
  block_views = [];
  intent_counter = 0;
  submitted = [];
  waited = [];
}

-- The block that `add` makes, or what it raises.
unfoldable pub new_block :
    String
    → Option Backing
    → Option Backing
    → Option String
    → ℤ
    → ℤ
    → Option ℤ
    → OffloadStore
    → Result Block
unfolding validate_range_fields offload_block contains
new_block name cpu_tensor gpu_tensor block_id cpu_offset gpu_offset byte_count s = do
  validate_name name
  validate_range_fields cpu_offset gpu_offset byte_count
  raise_if (contains name s.blocks) (value_error ("offload block already exists: " ^^ name))
  offload_block name cpu_tensor gpu_tensor block_id cpu_offset gpu_offset byte_count

-- `add`; the view that is returned is the block's name.
unfoldable pub add :
    String
    → Option Backing
    → Option Backing
    → Option String
    → ℤ
    → ℤ
    → Option ℤ
    → OffloadStore
    → Run String
unfolding new_block insert
add name cpu_tensor gpu_tensor block_id cpu_offset gpu_offset byte_count s =
    elim (new_block name cpu_tensor gpu_tensor block_id cpu_offset gpu_offset byte_count s) [
      | err e ↦ (s, err e)
      | ok b ↦ (
        record s { blocks = insert name b s.blocks; block_views = insert name name s.block_views },
        ok name,
      )
    ]

-- `remove`: both tables, one after the other.
unfoldable pub remove : String → OffloadStore → Run String
unfolding lookup erase
remove name s = elim (lookup name s.blocks) [
  | none ↦ (s, err (key_error name))
  | some _ ↦
      let popped : OffloadStore = record s { blocks = erase name s.blocks } in
      elim (lookup name s.block_views) [
        | none ↦ (popped, err (key_error name))
        | some view ↦ (record popped { block_views = erase name s.block_views }, ok view)
      ]
]

-- `block` and `get_block`, and the attributes that the view reads.
unfoldable pub block : String → OffloadStore → Result Block
unfolding lookup
block name s = elim (lookup name s.block_views) [
  | none ↦ err (key_error ("unknown offload block: " ^^ name))
  | some view ↦ elim (lookup view s.blocks) [ none ↦ err (key_error view) | some b ↦ ok b ]
]

-- `names`
abbrev pub names : OffloadStore → List String
names s = keys s.blocks

-- `_mark_waited`
abbrev pub mark_waited : Block → Block
mark_waited b = elim b.last_operation [
  | none ↦ record b { state = unknown }
  | some prefetch ↦ record b { state = gpu }
  | some evict ↦ record b { state = cpu }
]

-- `wait` of a handle. The handle is marked before a failed transfer raises.
unfoldable pub wait_handle : RuntimeSession → Handle → OffloadStore → Run (Unit {0})
unfolding validate_transfer_receipt
wait_handle session handle s =
    if any_by (λ n. n == handle.number) s.waited
    then (s, ok tt)
    else elim (do
      require_runtime_session_open session
      receipt ← session.wait_transfer_receipt handle.intent.intent_id
      validate_transfer_receipt session receipt handle.intent s.transfer_context
      session.record_binding receipt
      ok receipt) [
        | err e ↦ (s, err e)
        | ok receipt ↦ (
          record s { waited = handle.number ∷ s.waited },
          raise_if receipt.failed (runtime_error receipt.error),
        )
      ]

abbrev pub marked : String → OffloadStore → OffloadStore
marked name s = record s { blocks = modify name mark_waited s.blocks }

-- `wait`
unfoldable pub wait : RuntimeSession → String → OffloadStore → Run (Unit {0})
unfolding lookup modify wait_handle
wait session name s = elim (lookup name s.blocks) [
  | none ↦ (s, err (key_error name))
  | some b ↦ elim b.last_handle [
    | none ↦ (s, ok tt)
    | some handle ↦ and_then (wait_handle session handle s) λ t _. (marked name t, ok tt)
  ]
]

-- The wait of one block in `wait_many`: the handles that this call has waited for, with the new one.
unfoldable pub wait_next : RuntimeSession → List ℕ → Option Handle → OffloadStore → Run (List ℕ)
unfolding wait_handle
wait_next session seen none s = (s, ok seen)
wait_next session seen (some handle) s =
    if any_by (λ n. n == handle.number) seen
    then (s, ok seen)
    else and_then (wait_handle session handle s) λ t _. (t, ok (handle.number ∷ seen))

-- The loop of `wait_many`.
unfoldable pub wait_from : RuntimeSession → List ℕ → List String → OffloadStore → Run (Unit {0})
unfolding lookup modify wait_next
wait_from session seen [] s = (s, ok tt)
wait_from session seen (name ∷ names) s = elim (lookup name s.blocks) [
  | none ↦ (s, err (key_error name))
  | some b ↦
      and_then (wait_next session seen b.last_handle s)
        λ t now. wait_from session now names (marked name t)
]

-- `wait_many`
unfoldable pub wait_many : RuntimeSession → List String → OffloadStore → Run (Unit {0})
unfolding wait_from
wait_many session names s = wait_from session [] names s

-- The fields that `clear_block_transfer_state` resets.
abbrev pub cleared : Block → Block
cleared b = record b {
  last_prefetch = none;
  last_evict = none;
  last_handle = none;
  last_operation = none;
}

abbrev pub in_state : BlockState → Block → Block
in_state state b = record b { state = state }

-- `clear_block_transfer_state`
unfoldable pub clear_block_transfer_state : String → OffloadStore → Run (Unit {0})
unfolding lookup modify
clear_block_transfer_state name s = elim (lookup name s.blocks) [
  | none ↦ (s, err (key_error name))
  | some _ ↦ (record s { blocks = modify name cleared s.blocks }, ok tt)
]

-- `set_block_state`
unfoldable pub set_block_state : String → BlockState → Bool → OffloadStore → Run (Unit {0})
unfolding lookup modify clear_block_transfer_state
set_block_state name state clear s = elim (lookup name s.blocks) [
  | none ↦ (s, err (key_error name))
  | some _ ↦
      let set : OffloadStore = record s {
        blocks = modify name (λ b. record b { state = state }) s.blocks;
      } in
      if clear then clear_block_transfer_state name set else (set, ok tt)
]
