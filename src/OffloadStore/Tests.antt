-- ===== src/OffloadStore/Tests.antt =====
-- The theorems on the offload store, applied to two blocks of one tensor and a third one.
use pcie_pool.Common.{
  ℕ, List, [], ◌∷◌, ◌++◌, Option, none, some, Bool, true, false, ◌≡◌, refl, str_eq, length, ok, err,
  runtime_error, any_by, ◌==◌,
}
use pcie_pool.Common.Int.{pos}
use pcie_pool.Common.Text.{show_ℕ}
use pcie_pool.Common.Dict.{lookup, insert, erase, modify, contains, string_eq}
use pcie_pool.StagingPool.Slots.{is_blank}
use pcie_pool.OffloadStore.{
  cpu, prefetching, evicting, prefetch, evict, Backing, TransferRange, TransferContext,
  TransferIntent, TransferReceipt, Handle, Block, OffloadStore, OffloadBatch, RuntimeSession,
}
use pcie_pool.OffloadStore.Blocks.{
  validate_range_fields, offload_block, ranges, can_use_range_batch, blocks_named,
}
use pcie_pool.OffloadStore.Transfers.{
  intent_for, checked_ranges, checked_intent, validate_transfer_receipt, accepted, submit_transfer,
  submit_each, record_many, record_each, submit_blocks, submit_many,
}
use pcie_pool.OffloadStore.Store
use pcie_pool.OffloadStore.Store.{new_store, new_block, wait_handle, wait_next, wait_from, marked}
use pcie_pool.OffloadStore.Spec.{
  Call, add, remove, submit, wait, wait_many, set_block_state, run_call, view,
}
use pcie_pool.OffloadStore.Lookups.{names_of}
use pcie_pool.OffloadStore.Refinement.{run}
use pcie_pool.OffloadStore.Submitted.{sent, submit_many-sends}
use pcie_pool.OffloadStore.Ids.{IsDistinct, intent_ids}
use pcie_pool.OffloadStore.Ids.Runs.{run-IsDistinct}
use pcie_pool.OffloadStore.Failures.{Answers, wait-failed_again}

abbrev context : TransferContext
context = record {
  job_id = "j";
  session_id = "s";
  cpu_buffer_id = "c";
  gpu_buffer_id = "g";
  intent_prefix = "t";
}

-- The session gives a receipt for what it is asked for; the transfers fail where `failed` is true.
abbrev session : Bool → RuntimeSession
session failed = record {
  closed = false;
  open_session = ok tt;
  submit_transfer_intent = λ i. ok (record {
    intent_id = i.intent_id;
    job_id = "j";
    session_id = "s";
    failed = failed;
    error = "lost";
  });
  wait_transfer_receipt = λ id.
      ok (record {
        intent_id = id;
        job_id = "j";
        session_id = "s";
        failed = failed;
        error = "lost";
      });
  validate_runtime_receipt = λ r. ok tt;
  record_binding = λ r. ok tt;
}

abbrev tensor : ℕ → Option Backing
tensor n =
    some (record {
      ident = n;
      numel = some 16;
      element_size = some 4;
      size_bytes = none;
      nbytes = none;
    })

abbrev setup : List Call
setup =
    add "a" (tensor 1) (tensor 2) none (pos 0) (pos 100) (some (pos 10))
    ∷ add "b" (tensor 1) (tensor 2) none (pos 10) (pos 200) (some (pos 20))
    ∷ add "c" (tensor 3) (tensor 2) none (pos 0) (pos 300) none
    ∷ []

abbrev calls : List Call
calls =
    setup
    ++ submit (session false) ("a" ∷ "b" ∷ []) prefetch
      ∷ wait_many (session false) ("a" ∷ "b" ∷ [])
      ∷ submit (session false) ("c" ∷ "a" ∷ []) evict
      ∷ add "a" (tensor 1) (tensor 2) none (pos 0) (pos 0) none
      ∷ wait (session false) "c"
      ∷ set_block_state "b" cpu true
      ∷ remove "b"
      ∷ submit (session false) ("a" ∷ "b" ∷ []) prefetch
      ∷ []

abbrev stocked : OffloadStore
stocked = (run setup (new_store context)).0

abbrev last : OffloadStore
last = (run calls (new_store context)).0

abbrev intent : TransferIntent
intent = record {
  intent_id = "t-prefetch-1";
  job_id = "j";
  session_id = "s";
  source_buffer_id = "c";
  destination_buffer_id = "g";
  direction = "h2d";
  total_bytes = 30;
  ranges =
      record { src_offset = 0; dst_offset = 100; bytes = 10 }
      ∷ record { src_offset = 10; dst_offset = 200; bytes = 20 }
      ∷ [];
  block_names = "a" ∷ "b" ∷ [];
}

abbrev handle : Handle
handle = record { number = 1; intent = intent }

abbrev batch : OffloadBatch
batch = record { operation = prefetch; names = "a" ∷ "b" ∷ []; handles = handle ∷ handle ∷ [] }

abbrev prefetched : OffloadStore
prefetched = (submit_many (session false) ("a" ∷ "b" ∷ []) prefetch stocked).0

abbrev block_a : Block
block_a = record {
  name = "a";
  cpu_tensor = record {
    ident = 1;
    numel = some 16;
    element_size = some 4;
    size_bytes = none;
    nbytes = none;
  };
  gpu_tensor = record {
    ident = 2;
    numel = some 16;
    element_size = some 4;
    size_bytes = none;
    nbytes = none;
  };
  block_id = "a";
  cpu_offset = 0;
  gpu_offset = 100;
  byte_count = some 10;
  state = prefetching;
  last_prefetch = some handle;
  last_evict = none;
  last_handle = some handle;
  last_operation = some prefetch;
}

abbrev receipt : TransferReceipt
receipt = record {
  intent_id = "t-prefetch-1";
  job_id = "j";
  session_id = "s";
  failed = true;
  error = "lost";
}

-- What the calls do: only the second block named "a" and the transfer of the removed block are
-- refused.
computed :
    ((run calls (new_store context)).1
      ≡ true ∷ true ∷ true ∷ true ∷ true ∷ true ∷ false ∷ true ∷ true ∷ true ∷ false ∷ [])
    × (view last "a" ≡ some (evicting, some evict))
    × (view last "b" ≡ none)
    × (view last "c" ≡ some (cpu, some evict))
    × (submit_many (session false) ("a" ∷ "b" ∷ []) prefetch stocked ≡ (prefetched, ok batch))
    × (lookup "a" prefetched.blocks ≡ some block_a)
    × (any_by (λ n. n == 1) prefetched.waited ≡ false)
unfolding run run_call new_store Store.add Store.remove Store.wait Store.wait_many
    Store.set_block_state Store.clear_block_transfer_state new_block validate_range_fields
    offload_block wait_from wait_next wait_handle submit_many submit_blocks submit_each
    submit_transfer record_many record_each blocks_named can_use_range_batch ranges intent_for
    checked_intent checked_ranges accepted validate_transfer_receipt lookup insert erase modify
    contains is_blank show_ℕ str_eq
computed = (refl, refl, refl, refl, refl, refl, refl)

answers : Answers (session true) handle prefetched receipt
unfolding run run_call new_store Store.add new_block validate_range_fields offload_block submit_many
    submit_blocks submit_transfer blocks_named can_use_range_batch ranges intent_for checked_intent
    checked_ranges accepted validate_transfer_receipt lookup insert contains is_blank show_ℕ str_eq
answers = record { opened = refl; answered = refl; accepted = refl; bound = refl }

run-IsDistinct_example : IsDistinct (intent_ids last.submitted)
run-IsDistinct_example = run-IsDistinct context calls

submit_many-sends_example :
    (blocks : List Block) × (items : List TransferRange) × (blocks_named
        ("a" ∷ "b" ∷ [])
        stocked.blocks
      ≡ ok blocks)
    × (ranges blocks prefetch ≡ ok items)
    × (sent prefetched.submitted ≡ sent stocked.submitted ++ items)
    × (batch.names ≡ names_of blocks)
    × (length batch.handles ≡ length blocks)
submit_many-sends_example =
    submit_many-sends (session false) ("a" ∷ "b" ∷ []) prefetch stocked prefetched batch computed.4

wait-failed_again_example :
    let t = (Store.wait (session true) "a" prefetched).0 in
    ((Store.wait (session true) "a" prefetched).1 ≡ err (runtime_error "lost"))
    × (view t ≡ view prefetched)
    × (Store.wait (session false) "a" t ≡ (marked "a" t, ok tt))
wait-failed_again_example =
    wait-failed_again (session true) (session false) "a" prefetched block_a handle receipt
      computed.5 refl computed.6 answers refl
