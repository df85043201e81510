-- ===== src/NativePlan/Accepted.antt =====
-- A plan of turbobus/planner_engine.py, handed over as a dictionary, is accepted by
-- turbobus/native_plan.py, and no chunk is lost on the way.
pub mod Plans
use pcie_pool.Common.{
  ℕ, ◌+◌, ◌≡◌, refl, List, [], ◌∷◌, ◌++◌, map, Option, none, some, String, str_eq, true, ◌&&◌, ltb,
  arith, ok, sum_by, sum_by-append, if◌then◌else◌,
}
use pcie_pool.Common.Int.{ℤ, pos, negsuc, pos_part, leb_ℤ, add-pos_pos}
use pcie_pool.Common.Text.{lower}
use pcie_pool.Planner.{PlannerChunk, PlannerPathAssignment}
use pcie_pool.Planner.Chunks.Tiling.{Tiles}
use pcie_pool.NativePlan.{
  NativeChunk, NativeAssignment, direct_h2d, direct_d2h, relay_h2d_then_p2p, relay_p2p_then_d2h,
  TransferDirection, PathKind, h2d, d2h, validate_assignment_path, native_path_kind,
  native_transfer_direction,
}
use pcie_pool.NativePlan.Payload.{bytes_of, read_chunk, read_chunks, chunk_dict}
use pcie_pool.NativePlan.Checked.{name_of}

-- The chunk that the executor gets for a chunk of the planner.
abbrev pub native_chunk : PlannerChunk → NativeChunk
native_chunk c = record {
  src_offset = pos_part c.src_offset;
  dst_offset = pos_part c.dst_offset;
  bytes = c.bytes;
}

-- The chunks of a native plan, assignment by assignment.
abbrev pub sent : {F : Type 0} → List (NativeAssignment F) → List NativeChunk
sent [] = []
sent (a ∷ ns) = a.chunks ++ sent ns

-- Target, relay and chunks of each assignment, as the executor gets them and as they were planned.
abbrev pub native_routes :
    {F : Type 0} → List (NativeAssignment F) → List (ℤ × ℤ × List NativeChunk)
native_routes = map λ a. (a.path.target_device, a.path.relay_device, a.chunks)

abbrev pub planned_routes :
    {F : Type 0} → List (PlannerPathAssignment F) → List (ℤ × ℤ × List NativeChunk)
planned_routes = map λ a. (a.path.target_device, a.path.relay_device, map native_chunk a.chunks)

sent-bytes :
    {F : Type 0} (ns : List (NativeAssignment F))
    → sum_by (λ a. bytes_of a.chunks) ns ≡ bytes_of (sent ns)
sent-bytes [] = refl
sent-bytes (a ∷ ns) = omega (arith, sent-bytes ns, sum_by-append (λ c. c.bytes) a.chunks (sent ns))

bytes_of-map : (cs : List PlannerChunk) → bytes_of (map native_chunk cs) ≡ sum_by (λ c. c.bytes) cs
bytes_of-map [] = refl
bytes_of-map (c ∷ cs) = omega (arith, bytes_of-map cs)

-- 1 for a chunk that would be refused. As a number it can be summed up to the order.
faults : PlannerChunk → ℕ
faults c =
    if leb_ℤ (pos 0) c.src_offset && leb_ℤ (pos 0) c.dst_offset && ltb 0 c.bytes then 0 else 1

Tiles-faults :
    (size s d n : ℕ) (cs : List PlannerChunk)
    → Tiles size (pos s) (pos d) n cs
    → sum_by faults cs ≡ 0
unfolding faults
Tiles-faults size s d n [] t = refl
Tiles-faults size s d n (c ∷ cs) (e₁, e₂, e₃, h, e₄, t) =
    let rest =
      Tiles-faults size (s + c.bytes) (d + c.bytes) _ cs (rw (add-pos_pos, add-pos_pos) at t) in
    let sound : faults c ≡ 0 = rw (faults, e₁, e₂) (ground arith) in omega arith

read_chunk-ok : (c : PlannerChunk) → faults c ≡ 0 → read_chunk (chunk_dict c) ≡ ok (native_chunk c)
unfolding read_chunk chunk_dict faults
read_chunk-ok c h = ground arith

read_chunks-ok :
    (cs : List PlannerChunk)
    → sum_by faults cs ≡ 0
    → read_chunks (map chunk_dict cs) ≡ ok (map native_chunk cs)
unfolding read_chunks
read_chunks-ok [] h = refl
read_chunks-ok (c ∷ cs) h = rw (read_chunk-ok c (omega arith), read_chunks-ok cs (omega arith)) refl

-- The direction that the plan has had before, if any.
data IsBefore (d : TransferDirection) : Option String → Type 0 where
  at_start : IsBefore d none
  same_way : IsBefore d (some (name_of d))

-- A path that the checks let through.
data IsSendable : String → ℤ → Type 0 where
  send_direct : IsSendable "direct" (negsuc 0)
  send_relay : (r : ℤ) → leb_ℤ (pos 0) r ≡ true → IsSendable "relay" r

validate_assignment_path-ok :
    (kind : String) (r : ℤ) (d : TransferDirection) (before : Option String)
    → IsSendable kind r
    → IsBefore d before
    → validate_assignment_path kind (name_of d) r before ≡ ok (name_of d)
unfolding validate_assignment_path str_eq
validate_assignment_path-ok kind r h2d before send_direct at_start = refl
validate_assignment_path-ok kind r h2d before send_direct same_way = refl
validate_assignment_path-ok kind r d2h before send_direct at_start = refl
validate_assignment_path-ok kind r d2h before send_direct same_way = refl
validate_assignment_path-ok kind r h2d before (send_relay _ h) at_start = ground arith
validate_assignment_path-ok kind r h2d before (send_relay _ h) same_way = ground arith
validate_assignment_path-ok kind r d2h before (send_relay _ h) at_start = ground arith
validate_assignment_path-ok kind r d2h before (send_relay _ h) same_way = ground arith

native_path_kind-ok :
    (kind : String) (r : ℤ) (d : TransferDirection)
    → IsSendable kind r
    → (k : PathKind) × (native_path_kind kind (name_of d) ≡ ok k)
unfolding native_path_kind str_eq
native_path_kind-ok kind r h2d send_direct = (direct_h2d, refl)
native_path_kind-ok kind r d2h send_direct = (direct_d2h, refl)
native_path_kind-ok kind r h2d (send_relay _ h) = (relay_h2d_then_p2p, refl)
native_path_kind-ok kind r d2h (send_relay _ h) = (relay_p2p_then_d2h, refl)

native_transfer_direction-ok :
    (d : TransferDirection) → native_transfer_direction (name_of d) ≡ ok d
unfolding native_transfer_direction str_eq
native_transfer_direction-ok h2d = refl
native_transfer_direction-ok d2h = refl

lower-name_of : (d : TransferDirection) → lower (name_of d) ≡ name_of d
unfolding lower
lower-name_of h2d = refl
lower-name_of d2h = refl

lower-kind : (kind : String) (r : ℤ) → IsSendable kind r → lower kind ≡ kind
unfolding lower
lower-kind kind r send_direct = refl
lower-kind kind r (send_relay _ h) = refl
