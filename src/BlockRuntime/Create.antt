-- ===== src/BlockRuntime/Create.antt =====
-- `runtime_records_for_block_plan` and `mark_ticket_issued` of turbobus/daemon/block_runtime.py. The
-- mapping that the daemon reads is the `as_dict` of a block plan.
use pcie_pool.Common.{ℕ, ◌≡◌, refl, ap, List, [], ◌∷◌, map, Option, none, some, String, All}
use pcie_pool.Common.Int.{ℤ, negsuc}
use pcie_pool.Common.Dict.{Dict, lookup, string_eq, int_eq}
use pcie_pool.BlockPlan.{BlockPath, TransferBlock, BlockPlan}
use pcie_pool.BlockPlan.Allocate.{paths_by_id}
use pcie_pool.BlockRuntime.{BlockRuntimeRecord}

-- What a block takes from its path, with the defaults of a path that the plan does not list.
pub record PathFields : Type 0 where
  pub kind : String
  pub direction : String
  pub target_device : ℤ
  pub relay_device : Option ℤ

pub path_fields : {F : Type 0} → String → Option (BlockPath F) → PathFields
path_fields direction none = record {
  kind = "unknown";
  direction = direction;
  target_device = negsuc 0;
  relay_device = none;
}
path_fields direction (some p) = record {
  kind = p.kind;
  direction = p.direction;
  target_device = p.target_device;
  relay_device = p.relay_device;
}

abbrev or_empty : Option (List String) → List String
or_empty none = []
or_empty (some ids) = ids

pub leases_of : Dict ℤ (List String) → Option ℤ → List String
unfolding lookup
leases_of leases none = []
leases_of leases (some relay) = or_empty (lookup relay leases)

pub runtime_record :
    {F : Type 0}
    → String
    → String
    → String
    → ℤ
    → Dict ℤ (List String)
    → Dict String (BlockPath F)
    → TransferBlock
    → BlockRuntimeRecord F
unfolding lookup path_fields leases_of
runtime_record transfer_id plan_id direction generation leases paths block =
    let path = path_fields direction (lookup block.path_id paths) in
    record {
      transfer_id = transfer_id;
      plan_id = plan_id;
      block_id = block.block_id;
      path_id = block.path_id;
      path_kind = path.kind;
      direction = path.direction;
      target_device = path.target_device;
      relay_device = path.relay_device;
      state = "queued";
      attempt = block.attempt;
      src_offset = block.src_offset;
      dst_offset = block.dst_offset;
      bytes = block.bytes;
      allowed_path_ids = block.allowed_path_ids;
      lease_ids = leases_of leases path.relay_device;
      plan_generation = generation;
      ticket_id = none;
      issued_at = none;
      started_at = none;
      completed_at = none;
      error = none;
    }

-- `runtime_records_for_block_plan`
unfoldable pub runtime_records_for_block_plan :
    {F : Type 0}
    → String
    → Option (BlockPlan F)
    → ℤ
    → Dict ℤ (List String)
    → List (BlockRuntimeRecord F)
unfolding runtime_record paths_by_id
runtime_records_for_block_plan transfer_id none generation leases = []
runtime_records_for_block_plan transfer_id (some plan) generation leases =
    map
      (runtime_record transfer_id plan.plan_id plan.direction generation leases
        (paths_by_id plan.paths []))
      plan.blocks

-- `mark_ticket_issued`
unfoldable pub mark_ticket_issued :
    {F : Type 0} → List (BlockRuntimeRecord F) → String → F → List (BlockRuntimeRecord F)
mark_ticket_issued {F} records ticket_id issued_at =
    map {A = BlockRuntimeRecord F}
      (λ r. record r { ticket_id = some ticket_id; issued_at = some issued_at }) records

-- What a record keeps of its block.
pub record Carried : Type 0 where
  pub block_id : String
  pub path_id : String
  pub src_offset : ℤ
  pub dst_offset : ℤ
  pub bytes : ℕ
  pub attempt : ℕ

abbrev pub of_block : TransferBlock → Carried
of_block b = record {
  block_id = b.block_id;
  path_id = b.path_id;
  src_offset = b.src_offset;
  dst_offset = b.dst_offset;
  bytes = b.bytes;
  attempt = b.attempt;
}

module _ {F : Type 0} where
  abbrev pub of_record : BlockRuntimeRecord F → Carried
  of_record r = record {
    block_id = r.block_id;
    path_id = r.path_id;
    src_offset = r.src_offset;
    dst_offset = r.dst_offset;
    bytes = r.bytes;
    attempt = r.attempt;
  }

  -- A record that is queued, has no ticket, no times and no error.
  abbrev pub IsFresh : BlockRuntimeRecord F → Type 0
  IsFresh r =
      (r.state ≡ "queued")
      × (r.ticket_id ≡ none)
      × (r.started_at ≡ none)
      × (r.completed_at ≡ none)
      × (r.error ≡ none)

  map-runtime_record :
      (transfer_id plan_id direction : String) (generation : ℤ) (leases : Dict ℤ (List String))
      (paths : Dict String (BlockPath F)) (blocks : List TransferBlock)
      → let out =
          map (runtime_record transfer_id plan_id direction generation leases paths) blocks in
        (map of_record out ≡ map of_block blocks) × All IsFresh out
  unfolding runtime_record
  map-runtime_record t p d g l paths [] = (refl, tt)
  map-runtime_record t p d g l paths (b ∷ bs) =
      let (same, fresh) = map-runtime_record t p d g l paths bs in
      (ap (λ rest. of_block b ∷ rest) same, ((refl, refl, refl, refl, refl), fresh))

  -- The daemon tracks the blocks of the plan, each once and in their order, with their ids, paths,
  -- offsets, sizes and attempts; every record is queued, without ticket, times or error.
  pub runtime_records_for_block_plan_lem :
      (transfer_id : String) (plan : BlockPlan F) (generation : ℤ) (leases : Dict ℤ (List String))
      → let out = runtime_records_for_block_plan transfer_id (some plan) generation leases in
        (map of_record out ≡ map of_block plan.blocks) × All IsFresh out
  unfolding runtime_records_for_block_plan
  runtime_records_for_block_plan_lem t plan g leases =
      map-runtime_record t plan.plan_id plan.direction g leases (paths_by_id plan.paths [])
        plan.blocks
