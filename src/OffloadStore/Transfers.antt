-- ===== src/OffloadStore/Transfers.antt =====
-- `_submit_transfer`, `_record_many` and `_submit_many` of turbobus/offload/store.py, and the intent's
-- own checks in turbobus/schema.py.
use pcie_pool.Common.{
  ℕ, suc, List, [], ◌∷◌, some, Bool, ◌==◌, not, String, str_eq, map, sum_by, leb, if◌then◌else◌,
  Result, ok, err, value_error, runtime_error, ◌>>=◌, ◌>>◌, raise_if,
}
use pcie_pool.Common.Text.{◌^^◌, show_ℕ}
use pcie_pool.Common.Dict.{Dict, modify, string_eq}
use pcie_pool.StagingPool.Slots.{is_blank}
use pcie_pool.OffloadStore.{
  BlockState, prefetching, evicting, Operation, prefetch, evict, TransferRange, TransferContext,
  TransferIntent, TransferReceipt, Handle, Block, OffloadStore, OffloadBatch, RuntimeSession, Run,
}
use pcie_pool.OffloadStore.Blocks.{ranges, can_use_range_batch, blocks_named}

abbrev pub operation_name : Operation → String
operation_name prefetch = "prefetch"
operation_name evict = "evict"

-- `_direction_for_operation`
abbrev pub direction_for_operation : Operation → String
direction_for_operation prefetch = "h2d"
direction_for_operation evict = "d2h"

-- A call, and then another one where it does not raise.
abbrev pub and_then {ℓ ι} : {A : Type ℓ} {B : Type ι} → Run A → (OffloadStore → A → Run B) → Run B
and_then (s, err e) rest = (s, err e)
and_then (s, ok a) rest = rest s a

-- `require_runtime_session_open`
abbrev pub require_runtime_session_open : RuntimeSession → Result (Unit {0})
require_runtime_session_open session =
    raise_if session.closed (runtime_error "runtime session is closed")

-- The intent that `_submit_transfer` makes, with the id of `_next_intent_id`.
unfoldable pub intent_for :
    TransferContext → ℕ → List Block → Operation → List TransferRange → TransferIntent
unfolding show_ℕ
intent_for c number blocks operation items = record {
  intent_id = c.intent_prefix ^^ "-" ^^ operation_name operation ^^ "-" ^^ show_ℕ number;
  job_id = c.job_id;
  session_id = c.session_id;
  source_buffer_id = elim operation [ prefetch ↦ c.cpu_buffer_id | evict ↦ c.gpu_buffer_id ];
  destination_buffer_id = elim operation [ prefetch ↦ c.gpu_buffer_id | evict ↦ c.cpu_buffer_id ];
  direction = direction_for_operation operation;
  total_bytes = sum_by (λ (r : TransferRange). r.bytes) items;
  ranges = items;
  block_names = map (λ (b : Block). b.name) blocks;
}

-- `_normalize_worker_ranges`, on values that are not negative.
unfoldable pub checked_ranges : List TransferRange → Result (List TransferRange)
checked_ranges [] = ok []
checked_ranges (r ∷ items) = do
  raise_if (leb r.bytes 0) (value_error "range bytes must be positive")
  rest ← checked_ranges items
  ok (r ∷ rest)

abbrev pub is_empty : List TransferRange → Bool
is_empty [] = Bool.true
is_empty (r ∷ items) = Bool.false

-- `TransferIntent.__post_init__`
unfoldable pub checked_intent : TransferIntent → Result TransferIntent
unfolding checked_ranges is_blank
checked_intent i = do
  raise_if (leb i.total_bytes 0) (value_error "total_bytes must be positive")
  items ← checked_ranges i.ranges
  raise_if (is_empty items) (value_error "transfer intent requires at least one byte range")
  raise_if (not (sum_by (λ (r : TransferRange). r.bytes) items == i.total_bytes))
      (value_error "total_bytes must equal the sum of range bytes")
  raise_if (is_blank i.source_buffer_id) (value_error "source_buffer_id must be non-empty")
  raise_if (is_blank i.destination_buffer_id)
      (value_error "destination_buffer_id must be non-empty")
  raise_if (str_eq i.source_buffer_id i.destination_buffer_id)
      (value_error "source and destination buffers must be different")
  raise_if (is_blank i.intent_id) (value_error "intent_id must be non-empty")
  raise_if (is_blank i.job_id) (value_error "job_id must be non-empty")
  raise_if (is_blank i.session_id) (value_error "session_id must be non-empty")
  ok (record i { ranges = items })

-- `validate_transfer_receipt`
unfoldable pub validate_transfer_receipt :
    RuntimeSession → TransferReceipt → TransferIntent → TransferContext → Result (Unit {0})
unfolding str_eq
validate_transfer_receipt session receipt intent context = do
  raise_if (not (str_eq receipt.intent_id intent.intent_id))
      (value_error "receipt intent_id does not match transfer intent")
  raise_if (not (str_eq receipt.job_id intent.job_id))
      (value_error "receipt job_id does not match transfer intent")
  raise_if (not (str_eq receipt.session_id intent.session_id))
      (value_error "receipt session_id does not match transfer intent")
  raise_if (not (str_eq receipt.job_id context.job_id))
      (value_error "receipt job_id does not match transfer context")
  raise_if (not (str_eq receipt.session_id context.session_id))
      (value_error "receipt session_id does not match transfer context")
  session.validate_runtime_receipt receipt

-- What `_submit_transfer` does with an intent once the session has it.
unfoldable pub accepted : RuntimeSession → TransferContext → TransferIntent → Result (Unit {0})
unfolding validate_transfer_receipt
accepted session context intent = do
  receipt ← session.submit_transfer_intent intent
  validate_transfer_receipt session receipt intent context
  session.record_binding receipt

-- `_submit_transfer`
unfoldable pub submit_transfer :
    RuntimeSession → List Block → Operation → List TransferRange → OffloadStore → Run Handle
unfolding intent_for checked_intent accepted
submit_transfer session blocks operation items s =
    elim (require_runtime_session_open session >> session.open_session) [
      | err e ↦ (s, err e)
      | ok _ ↦
          let number = suc s.intent_counter in
          let counted : OffloadStore = record s { intent_counter = number } in
          elim (checked_intent (intent_for s.transfer_context number blocks operation items)) [
            | err e ↦ (counted, err e)
            | ok intent ↦ (
              record counted { submitted = intent ∷ s.submitted },
              accepted session s.transfer_context intent
                  >> ok (record { number = number; intent = intent }),
            )
          ]
    ]

-- The handles of the blocks that are submitted one by one.
unfoldable pub submit_each :
    RuntimeSession → Operation → List Block → OffloadStore → Run (List Handle)
unfolding ranges submit_transfer
submit_each session operation [] s = (s, ok [])
submit_each session operation (b ∷ blocks) s = elim (ranges (b ∷ []) operation) [
  | err e ↦ (s, err e)
  | ok items ↦ and_then (submit_transfer session (b ∷ []) operation items s) λ t handle.
      and_then (submit_each session operation blocks t) λ u handles. (u, ok (handle ∷ handles))
]

-- The fields that `_record_many` sets.
abbrev pub recorded : Handle → Operation → BlockState → Block → Block
recorded handle prefetch state b = record b {
  last_prefetch = some handle;
  last_handle = some handle;
  last_operation = some prefetch;
  state = state;
}
recorded handle evict state b = record b {
  last_evict = some handle;
  last_handle = some handle;
  last_operation = some evict;
  state = state;
}

-- `_record_many`
unfoldable pub record_many :
    List Block → Handle → Operation → BlockState → Dict String Block → Dict String Block
unfolding modify
record_many [] handle operation state d = d
record_many (b ∷ blocks) handle operation state d =
    record_many blocks handle operation state (modify b.name (recorded handle operation state) d)

-- `_record_many` for each block with its own handle.
unfoldable pub record_each :
    List Block → List Handle → Operation → BlockState → Dict String Block → Dict String Block
unfolding record_many
record_each [] handles operation state d = d
record_each (b ∷ blocks) [] operation state d = d
record_each (b ∷ blocks) (handle ∷ handles) operation state d =
    record_each blocks handles operation state (record_many (b ∷ []) handle operation state d)

abbrev pub submitting : Operation → BlockState
submitting prefetch = prefetching
submitting evict = evicting

abbrev pub batch_of : Operation → List Block → List Handle → OffloadBatch
batch_of operation blocks handles = record {
  operation = operation;
  names = map (λ (b : Block). b.name) blocks;
  handles = handles;
}

-- The two branches of `_submit_many` on a non-empty list of blocks.
unfoldable pub submit_blocks :
    RuntimeSession → Operation → Block → List Block → OffloadStore → Run OffloadBatch
unfolding can_use_range_batch ranges submit_transfer submit_each record_many record_each
submit_blocks session operation b rest s =
    let blocks = b ∷ rest in
    if can_use_range_batch b rest
    then elim (ranges blocks operation) [
      | err e ↦ (s, err e)
      | ok items ↦ and_then (submit_transfer session blocks operation items s) λ t handle. (
        record t { blocks = record_many blocks handle operation (submitting operation) t.blocks },
        ok (batch_of operation blocks (map (λ _. handle) blocks)),
      )
    ]
    else and_then (submit_each session operation blocks s) λ t handles. (
      record t { blocks = record_each blocks handles operation (submitting operation) t.blocks },
      ok (batch_of operation blocks handles),
    )

-- `_submit_many`
unfoldable pub submit_many :
    RuntimeSession → List String → Operation → OffloadStore → Run OffloadBatch
unfolding blocks_named submit_blocks
submit_many session names operation s = elim (blocks_named names s.blocks) [
  | err e ↦ (s, err e)
  | ok [] ↦ (s, ok (batch_of operation [] []))
  | ok (b ∷ rest) ↦ submit_blocks session operation b rest s
]
