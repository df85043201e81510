-- ===== src/NativePlan/Payload.antt =====
-- `native_transfer_plan` of turbobus/native_plan.py, and the dictionary that
-- `PlannerTransferPlan.as_dict` of turbobus/planner_types.py makes of a plan.
use pcie_pool.Common.{
  ℕ, List, [], ◌∷◌, map, Option, none, some, String, true, not, ◌&&◌, ◌||◌, ltb, Result, ok, err,
  value_error, ◌>>=◌, ◌>>◌, raise_if, ◌==◌, length, sum_by,
}
use pcie_pool.Common.Int.{ℤ, pos, negsuc, pos_part, leb_ℤ, ltb_ℤ}
use pcie_pool.Common.Text.{lower}
use pcie_pool.Common.Float.{FloatOps, or_else}
use pcie_pool.Planner.{PlannerChunk, PlannerPath, PlannerPathAssignment, PlannerTransferPlan}
use pcie_pool.Planner.Engine.{is_empty}
use pcie_pool.NativePlan.{
  Entry, not_mapping, mapping, ChunkPayload, PathPayload, AssignmentPayload, PlanPayload, PathKind,
  TransferDirection, NativeChunk, NativePath, NativeAssignment, NativeTransferPlan, get_or,
  validate_assignment_path, native_path_kind, native_transfer_direction, validate_assignment_totals,
  default_chunk_bytes,
}

-- One round of the loop over the chunks.
unfoldable pub read_chunk : Entry ChunkPayload → Result NativeChunk
read_chunk not_mapping = err (value_error "transfer plan chunk must be an object")
read_chunk (mapping c) = do
  let src_offset = get_or c.src_offset (pos 0)
  let dst_offset = get_or c.dst_offset (pos 0)
  let bytes = get_or c.bytes (pos 0)
  raise_if (ltb_ℤ src_offset (pos 0) || ltb_ℤ dst_offset (pos 0) || leb_ℤ bytes (pos 0))
      (value_error "transfer plan chunk offsets must be non-negative and bytes positive")
  ok (record {
    src_offset = pos_part src_offset;
    dst_offset = pos_part dst_offset;
    bytes = pos_part bytes;
  })

unfoldable pub read_chunks : List (Entry ChunkPayload) → Result (List NativeChunk)
unfolding read_chunk
read_chunks [] = ok []
read_chunks (e ∷ es) = do c ← read_chunk e; cs ← read_chunks es; ok (c ∷ cs)

-- `assignment_chunk_bytes` at the end of that loop.
abbrev pub bytes_of : List NativeChunk → ℕ
bytes_of = sum_by λ c. c.bytes

-- The native assignment of an assignment that has chunks; one without is passed over.
abbrev pub keep :
    {F : Type 0}
    → Option (NativeAssignment F)
    → List (NativeAssignment F)
    → List (NativeAssignment F)
keep none rest = rest
keep (some a) rest = a ∷ rest

module _ {F : Type 0} ⦃f : FloatOps F⦄ where
  float_field : Option F → F
  unfolding or_else
  float_field x = or_else (get_or x f.zero_f) f.zero_f

  unfoldable pub native_path : PathPayload F → PathKind → TransferDirection → NativePath F
  unfolding float_field
  native_path p kind direction = record {
    kind = kind;
    direction = direction;
    target_device = get_or p.target_device (pos 0);
    relay_device = get_or p.relay_device (negsuc 0);
    h2d_bw_gbps = float_field p.h2d_bw_gbps;
    d2h_bw_gbps = float_field p.d2h_bw_gbps;
    p2p_bw_gbps = float_field p.p2p_bw_gbps;
    effective_bw_gbps = float_field p.effective_bw_gbps;
    enabled = true;
  }

  -- `if not chunks: continue`, else the totals are checked.
  unfoldable pub close_assignment :
      AssignmentPayload F → NativePath F → List NativeChunk → Result (Option (NativeAssignment F))
  unfolding validate_assignment_totals
  close_assignment a path [] = ok none
  close_assignment a path (c ∷ cs) = do
    validate_assignment_totals a (bytes_of (c ∷ cs)) (length (c ∷ cs))
    ok (some (record { path = path; chunks = c ∷ cs }))

  -- The body of the loop over the assignments, on a path that is a mapping; with it goes the
  -- direction that the plan has from there on.
  unfoldable pub read_path :
      AssignmentPayload F
      → PathPayload F
      → Option String
      → Result (Option (NativeAssignment F) × String)
  unfolding lower validate_assignment_path native_path_kind native_transfer_direction native_path
      read_chunks close_assignment
  read_path a p plan_direction = do
    raise_if (not (get_or p.enabled true)) (value_error "transfer plan contains a disabled path")
    let direction = lower (get_or p.direction "h2d")
    let kind = lower (get_or p.kind "")
    settled ←
        validate_assignment_path kind direction (get_or p.relay_device (negsuc 0)) plan_direction
    native_kind ← native_path_kind kind direction
    native_direction ← native_transfer_direction direction
    chunks ← read_chunks (get_or a.chunks [])
    closed ← close_assignment a (native_path p native_kind native_direction) chunks
    ok (closed, settled)

  unfoldable pub read_assignment :
      Entry (AssignmentPayload F) → Option String → Result (Option (NativeAssignment F) × String)
  unfolding read_path
  read_assignment not_mapping plan_direction =
      err (value_error "transfer plan assignment must be an object")
  read_assignment (mapping a) plan_direction = elim a.path [
    | not_mapping ↦ err (value_error "transfer plan assignment path must be an object")
    | mapping p ↦ read_path a p plan_direction
  ]

  unfoldable pub read_assignments :
      List (Entry (AssignmentPayload F)) → Option String → Result (List (NativeAssignment F))
  unfolding read_assignment
  read_assignments [] plan_direction = ok []
  read_assignments (e ∷ es) plan_direction = do
    round ← read_assignment e plan_direction
    rest ← read_assignments es (some round.1)
    ok (keep round.0 rest)

  -- The two tests after the loop; `chunk_total_bytes` is the sum over what was read.
  unfoldable pub close_plan : ℤ → ℤ → List (NativeAssignment F) → Result (NativeTransferPlan F)
  close_plan total_bytes chunk_bytes assignments = do
    let total = pos_part total_bytes
    raise_if (ltb 0 total && is_empty assignments)
        (value_error "transfer plan has no chunk assignments")
    raise_if
        (not (is_empty assignments) && not (sum_by (λ a. bytes_of a.chunks) assignments == total))
        (value_error "transfer plan total_bytes must match assigned chunk bytes")
    ok (record {
      total_bytes = total;
      chunk_bytes = pos_part chunk_bytes;
      assignments = assignments;
    })

  -- `native_transfer_plan`
  unfoldable pub native_transfer_plan : PlanPayload F → Result (NativeTransferPlan F)
  unfolding default_chunk_bytes read_assignments close_plan
  native_transfer_plan payload = do
    let total_bytes = get_or payload.total_bytes (pos 0)
    let chunk_bytes = get_or payload.chunk_bytes (pos default_chunk_bytes)
    raise_if (ltb_ℤ total_bytes (pos 0))
        (value_error "transfer plan total_bytes must be non-negative")
    raise_if (leb_ℤ chunk_bytes (pos 0)) (value_error "transfer plan chunk_bytes must be positive")
    assignments ← read_assignments (get_or payload.assignments []) none
    close_plan total_bytes chunk_bytes assignments

-- `PlannerChunk.as_dict`, `PlannerPath.as_dict`, `PlannerPathAssignment.as_dict`,
-- `PlannerTransferPlan.as_dict`, for the keys that are read.
unfoldable pub chunk_dict : PlannerChunk → Entry ChunkPayload
chunk_dict c = mapping (record {
  src_offset = some c.src_offset;
  dst_offset = some c.dst_offset;
  bytes = some (pos c.bytes);
})

module _ {F : Type 0} where
  unfoldable pub path_dict : PlannerPath F → PathPayload F
  path_dict p = record {
    kind = some p.kind;
    direction = some p.direction;
    target_device = some p.target_device;
    relay_device = some p.relay_device;
    h2d_bw_gbps = some p.h2d_bw_gbps;
    d2h_bw_gbps = some p.d2h_bw_gbps;
    p2p_bw_gbps = some p.p2p_bw_gbps;
    effective_bw_gbps = some p.effective_bw_gbps;
    enabled = some p.enabled;
  }

  unfoldable pub assignment_dict : PlannerPathAssignment F → AssignmentPayload F
  unfolding path_dict chunk_dict
  assignment_dict a = record {
    path = mapping (path_dict a.path);
    chunks = some (map chunk_dict a.chunks);
    bytes = some (pos (sum_by (λ c. c.bytes) a.chunks));
    chunk_count = some (pos (length a.chunks));
  }

  unfoldable pub plan_dict : PlannerTransferPlan F → PlanPayload F
  unfolding assignment_dict
  plan_dict p = record {
    total_bytes = some (pos p.total_bytes);
    chunk_bytes = some (pos p.chunk_bytes);
    assignments = some (map (λ a. mapping (assignment_dict a)) p.assignments);
  }
