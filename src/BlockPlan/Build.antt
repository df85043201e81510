-- ===== src/BlockPlan/Build.antt =====
-- `block_plan_from_assignments` and its helpers in turbobus/scheduler/block_plan.py.
pub mod Splitting
pub mod Endings
pub mod Blocks
pub mod Paths
use pcie_pool.Common.{
  ℕ, zero, suc, ◌+◌, ◌-◌, min, max, List, [], ◌∷◌, ◌++◌, Option, none, some, true, false, String,
  ltb, leb, str_eq, if◌then◌else◌, length,
}
use pcie_pool.Common.Int.{ℤ, pos, ◌+ℤ◌, pos_part}
use pcie_pool.Common.Text.{◌^^◌, show_ℕ, show_ℤ, lower}
use pcie_pool.Common.Dict.{Dict, lookup, insert, keys, string_eq}
use pcie_pool.Common.Order.{sorted}
use pcie_pool.Common.Float.{FloatOps, fmax, or_else}
use pcie_pool.Planner.{PlannerChunk, PlannerPath, PlannerPathAssignment}
use pcie_pool.BlockPlan.{BlockPath, TransferBlock, Allocation, BlockPlan}

-- `planner_path_id`
pub planner_path_id : {F : Type 0} → PlannerPath F → String
unfolding show_ℤ lower str_eq
planner_path_id path =
    if str_eq (lower path.kind) "relay"
    then path.direction
      ^^ ":relay:"
      ^^ show_ℤ path.relay_device
      ^^ "->"
      ^^ show_ℤ path.target_device
    else path.direction ^^ ":direct:" ^^ show_ℤ path.target_device

-- The loop of `_split_chunk`, one round for each unit of fuel.
pub split_from : ℕ → ℕ → PlannerChunk → ℕ → List PlannerChunk
split_from zero size chunk consumed = []
split_from (suc f) size chunk consumed = elim (ltb consumed chunk.bytes) [
  | true ↦
      let current = min size (chunk.bytes - consumed) in
      record {
        src_offset = chunk.src_offset +ℤ pos consumed;
        dst_offset = chunk.dst_offset +ℤ pos consumed;
        bytes = current;
        relay_device = chunk.relay_device;
      }
      ∷ split_from f size chunk (consumed + current)
  | false ↦ []
]

abbrev pub split_size : ℤ → ℕ
split_size chunk_bytes = max 1 (pos_part chunk_bytes)

-- `_split_chunk`. There are no more rounds than bytes.
pub split_chunk : PlannerChunk → ℤ → List PlannerChunk
unfolding split_from
split_chunk chunk chunk_bytes =
    let size = split_size chunk_bytes in
    if leb chunk.bytes size then chunk ∷ [] else split_from chunk.bytes size chunk 0

-- What stays the same while the blocks of one assignment are made.
pub record Context : Type 0 where
  pub plan_id : String
  pub path_id : String
  pub allowed_path_ids : List String
  pub assignment_index : ℕ

pub make_block : Context → ℕ → ℕ → ℕ → PlannerChunk → TransferBlock
unfolding show_ℕ
make_block ctx chunk_index split_index count split = record {
  block_id = ctx.plan_id ^^ ":b" ^^ show_ℕ count;
  path_id = ctx.path_id;
  attempt = 0;
  src_offset = split.src_offset;
  dst_offset = split.dst_offset;
  bytes = split.bytes;
  allowed_path_ids = ctx.allowed_path_ids;
  assignment_index = ctx.assignment_index;
  chunk_index = chunk_index;
  split_index = split_index;
}

-- The three nested loops, on the blocks so far.
pub add_splits : Context → ℕ → ℕ → List PlannerChunk → List TransferBlock → List TransferBlock
unfolding make_block
add_splits ctx chunk_index split_index [] blocks = blocks
add_splits ctx chunk_index split_index (s ∷ ss) blocks =
    add_splits ctx chunk_index (suc split_index) ss
      (blocks ++ make_block ctx chunk_index split_index (length blocks) s ∷ [])

pub add_chunks : Context → ℤ → ℕ → List PlannerChunk → List TransferBlock → List TransferBlock
unfolding add_splits split_chunk
add_chunks ctx chunk_bytes chunk_index [] blocks = blocks
add_chunks ctx chunk_bytes chunk_index (c ∷ cs) blocks =
    add_chunks ctx chunk_bytes (suc chunk_index) cs
      (add_splits ctx chunk_index 0 (split_chunk c chunk_bytes) blocks)

-- The path ids of the assignments that have chunks.
pub allowed_ids : {F : Type 0} → List (PlannerPathAssignment F) → List String
unfolding planner_path_id
allowed_ids [] = []
allowed_ids (a ∷ as') =
    if leb (length a.chunks) 0 then allowed_ids as' else planner_path_id a.path ∷ allowed_ids as'

-- `d.setdefault(k, v)`
pub set_default {ℓ} : {V : Type ℓ} → String → V → Dict String V → Dict String V
unfolding lookup insert
set_default k v d = elim (lookup k d) [ none ↦ insert k v d | some _ ↦ d ]

-- `tuple(d[k] for k in ks)`; the keys come from the dict itself.
pub values_at {ℓ} : {V : Type ℓ} → List String → Dict String V → List V
unfolding lookup
values_at [] d = []
values_at (k ∷ ks) d = elim (lookup k d) [ none ↦ values_at ks d | some v ↦ v ∷ values_at ks d ]

module _ {F : Type 0} ⦃f : FloatOps F⦄ where
  abbrev pub weight_or_zero : Option F → F
  weight_or_zero none = f.zero_f
  weight_or_zero (some w) = w

  -- `block_path_from_planner_path`. `x or y or 0.0` with `None` as a falsy `x`.
  pub block_path_from_planner_path : PlannerPath F → BlockPath F
  unfolding planner_path_id fmax or_else str_eq
  block_path_from_planner_path path = record {
    path_id = planner_path_id path;
    kind = path.kind;
    direction = path.direction;
    target_device = path.target_device;
    relay_device = if str_eq path.kind "relay" then some path.relay_device else none;
    scheduler_weight_gbps = fmax f.zero_f (
        or_else (or_else (weight_or_zero path.scheduler_weight_gbps) path.effective_bw_gbps)
          f.zero_f);
    runtime_pressure = fmax f.zero_f path.runtime_pressure;
  }

  pub add_assignments :
      String
      → ℤ
      → List String
      → ℕ
      → List (PlannerPathAssignment F)
      → Dict String (BlockPath F) × List TransferBlock
      → Dict String (BlockPath F) × List TransferBlock
  unfolding planner_path_id add_chunks set_default block_path_from_planner_path
  add_assignments plan_id chunk_bytes allowed index [] state = state
  add_assignments plan_id chunk_bytes allowed index (a ∷ as') (block_paths, blocks) =
      let path_id = planner_path_id a.path in
      let ctx : Context = record {
        plan_id = plan_id;
        path_id = path_id;
        allowed_path_ids = allowed;
        assignment_index = index;
      } in
      add_assignments plan_id chunk_bytes allowed (suc index) as' (
        set_default path_id (block_path_from_planner_path a.path) block_paths,
        add_chunks ctx chunk_bytes 0 a.chunks blocks,
      )

  -- `block_plan_from_assignments`
  unfoldable pub block_plan_from_assignments :
      String → ℕ → ℤ → List (PlannerPathAssignment F) → String → Option Allocation → BlockPlan F
  unfolding allowed_ids add_assignments values_at sorted lower
  block_plan_from_assignments plan_id total_bytes chunk_bytes assignments direction allocation =
      let (block_paths, blocks) =
        add_assignments plan_id chunk_bytes (allowed_ids assignments) 0 assignments ([], []) in
      record {
        plan_id = plan_id;
        direction = lower direction;
        total_bytes = total_bytes;
        blocks = blocks;
        paths = values_at (sorted (keys block_paths)) block_paths;
        block_count = length blocks;
        path_count = length block_paths;
        chunk_bytes = chunk_bytes;
        allocation = allocation;
      }
