-- ===== src/NativePlan.antt =====
-- What turbobus/native_plan.py hands to the native executor, and the dictionaries of
-- `PlannerTransferPlan.as_dict` (turbobus/planner_types.py) that it reads. The extension is taken to
-- be loaded and to expose its two enumerations; its objects are records here. A value of a
-- dictionary is of the type that the code converts it to, and `none` is a key that is missing. Sizes and
-- offsets are natural numbers and devices are integers, both without a bound: the objects of the
-- extension hold std::size_t and int and raise a TypeError beyond them, which is not modelled.
pub mod Ranges
pub mod Payload
pub mod Accepted
pub mod Checked
mod Tests
use pcie_pool.Common.{
  ℕ, ◌*◌, List, Option, none, some, String, str_eq, Bool, not, ◌&&◌, ◌||◌, if◌then◌else◌, Result,
  ok, err, value_error, ◌>>◌, raise_if,
}
use pcie_pool.Common.Int.{ℤ, pos, leb_ℤ, ltb_ℤ, eqb_ℤ}
use pcie_pool.Common.Text.{◌^^◌}

-- What `isinstance(value, Mapping)` tells apart; a key that is missing is no mapping either.
pub data Entry (A : Type 0) : Type 0 where
  not_mapping : Entry A
  mapping : A → Entry A

pub record ChunkPayload : Type 0 where
  pub src_offset : Option ℤ
  pub dst_offset : Option ℤ
  pub bytes : Option ℤ

pub record PathPayload (F : Type 0) : Type 0 where
  pub kind : Option String
  pub direction : Option String
  pub target_device : Option ℤ
  pub relay_device : Option ℤ
  pub h2d_bw_gbps : Option F
  pub d2h_bw_gbps : Option F
  pub p2p_bw_gbps : Option F
  pub effective_bw_gbps : Option F
  pub enabled : Option Bool

pub record AssignmentPayload (F : Type 0) : Type 0 where
  pub path : Entry (PathPayload F)
  pub chunks : Option (List (Entry ChunkPayload))
  pub bytes : Option ℤ
  pub chunk_count : Option ℤ

pub record PlanPayload (F : Type 0) : Type 0 where
  pub total_bytes : Option ℤ
  pub chunk_bytes : Option ℤ
  pub assignments : Option (List (Entry (AssignmentPayload F)))

pub data PathKind : Type 0 where
  direct_h2d relay_h2d_then_p2p direct_d2h relay_p2p_then_d2h : PathKind

pub data TransferDirection : Type 0 where
  h2d d2h : TransferDirection

pub record NativeChunk : Type 0 where
  pub src_offset : ℕ
  pub dst_offset : ℕ
  pub bytes : ℕ

pub record NativePath (F : Type 0) : Type 0 where
  pub kind : PathKind
  pub direction : TransferDirection
  pub target_device : ℤ
  pub relay_device : ℤ
  pub h2d_bw_gbps : F
  pub d2h_bw_gbps : F
  pub p2p_bw_gbps : F
  pub effective_bw_gbps : F
  pub enabled : Bool

pub record NativeAssignment (F : Type 0) : Type 0 where
  pub path : NativePath F
  pub chunks : List NativeChunk

pub record NativeTransferPlan (F : Type 0) : Type 0 where
  pub total_bytes : ℕ
  pub chunk_bytes : ℕ
  pub assignments : List (NativeAssignment F)

-- `payload.get(key, default)`
abbrev pub get_or {ℓ} : {A : Type ℓ} → Option A → A → A
get_or none d = d
get_or (some a) d = a

other_direction : Option String → String → Bool
other_direction none direction = Bool.false
other_direction (some d) direction = not (str_eq direction d)

-- `_validate_assignment_path`
unfoldable pub validate_assignment_path : String → String → ℤ → Option String → Result String
unfolding other_direction
validate_assignment_path kind direction relay_device plan_direction = do
  raise_if (not (str_eq direction "h2d" || str_eq direction "d2h"))
      (value_error ("unsupported transfer plan direction: " ^^ direction))
  raise_if (other_direction plan_direction direction)
      (value_error "transfer plan assignments must use one direction")
  if str_eq kind "direct"
      then raise_if (leb_ℤ (pos 0) relay_device)
          (value_error "direct transfer plan path must not set relay_device")
        >> ok direction
      else if str_eq kind "relay"
      then raise_if (ltb_ℤ relay_device (pos 0))
          (value_error "relay transfer plan path requires relay_device")
        >> ok direction
      else err (value_error ("unsupported transfer plan path kind: " ^^ kind))

-- `_native_path_kind`
unfoldable pub native_path_kind : String → String → Result PathKind
native_path_kind kind direction =
    if str_eq kind "direct" && str_eq direction "h2d"
    then ok direct_h2d
    else if str_eq kind "relay" && str_eq direction "h2d"
    then ok relay_h2d_then_p2p
    else if str_eq kind "direct" && str_eq direction "d2h"
    then ok direct_d2h
    else if str_eq kind "relay" && str_eq direction "d2h"
    then ok relay_p2p_then_d2h
    else err (value_error (("unsupported transfer plan path: " ^^ kind) ^^ ("/" ^^ direction)))

-- `_native_transfer_direction`
unfoldable pub native_transfer_direction : String → Result TransferDirection
native_transfer_direction direction =
    if str_eq direction "h2d"
    then ok h2d
    else if str_eq direction "d2h"
    then ok d2h
    else err (value_error ("unsupported transfer plan direction: " ^^ direction))

-- A declared number that is there and differs.
differs : Option ℤ → ℕ → Bool
differs none n = Bool.false
differs (some d) n = not (eqb_ℤ d (pos n))

-- `_validate_assignment_totals`
unfoldable pub validate_assignment_totals :
    {F : Type 0} → AssignmentPayload F → ℕ → ℕ → Result (Unit {0})
unfolding differs
validate_assignment_totals a chunk_bytes chunk_count = do
  raise_if (differs a.bytes chunk_bytes)
      (value_error "transfer plan assignment bytes must match chunk bytes")
  raise_if (differs a.chunk_count chunk_count)
      (value_error "transfer plan assignment chunk_count must match chunks")

pub default_chunk_bytes : ℕ
default_chunk_bytes = 16 * 1024 * 1024
