-- ===== src/Scheduler/Requests.antt =====
-- How the scheduler checks a request and plans it: `_validated_plan_transfer_inputs`,
-- `_normalize_ranges`, `_plan_or_direct` and `_direct_plan` of turbobus/scheduler/daemon.py.
pub mod Normal
pub mod Planned
use pcie_pool.Common.{
  ℕ, ◌+◌, List, [], ◌∷◌, Option, none, some, Bool, true, false, not, ◌&&◌, ◌||◌, String, str_eq,
  if◌then◌else◌, sum_by, ◌==◌, Result, ok, err, Error, value_error, runtime_error, ◌>>=◌, ◌>>◌,
  raise_if,
}
use pcie_pool.Common.Int.{ℤ, pos, pos_part, ltb_ℤ, leb_ℤ, eqb_ℤ}
use pcie_pool.Common.Text.{lower}
use pcie_pool.Common.Float.{FloatOps, or_else}
use pcie_pool.Planner.{TransferMode, direct, PlannerTransferPlan, Profile, PlannerEngineOptions}
use pcie_pool.Planner.Chunks.{RangeItem, mapping, sequence, attributes}
use pcie_pool.Planner.Engine.{plan, plan_ranges}

-- One item of `_normalize_ranges`.
pub normalized_item : RangeItem → Result RangeItem
normalized_item (mapping src dst size) = do
  raise_if (ltb_ℤ src (pos 0) || ltb_ℤ dst (pos 0))
      (value_error "range offsets must be non-negative")
  raise_if (leb_ℤ size (pos 0)) (value_error "range bytes must be positive")
  ok (mapping src dst size)
normalized_item (sequence xs) = err (value_error "ranges must contain mappings")
normalized_item (attributes src dst size) = err (value_error "ranges must contain mappings")

-- The loop of `_normalize_ranges`.
pub normalized_items : List RangeItem → Result (List RangeItem)
unfolding normalized_item
normalized_items [] = ok []
normalized_items (item ∷ items) = do
  first ← normalized_item item
  rest ← normalized_items items
  ok (first ∷ rest)

-- `_normalize_ranges`
unfoldable pub normalize_ranges : Option (List RangeItem) → Result (Option (List RangeItem))
unfolding normalized_items
normalize_ranges none = ok none
normalize_ranges (some items) = do normalized ← normalized_items items; ok (some normalized)

-- `item["bytes"]` of a normalized item.
abbrev pub item_bytes : RangeItem → ℕ
item_bytes (mapping src dst size) = pos_part size
item_bytes (sequence xs) = 0
item_bytes (attributes src dst size) = 0

abbrev pub mismatched : Option (List RangeItem) → ℤ → Bool
mismatched none total_bytes = false
mismatched (some items) total_bytes = not (eqb_ℤ (pos (sum_by item_bytes items)) total_bytes)

pub record Inputs : Type 0 where
  pub total_bytes : ℤ
  pub chunk_bytes : ℤ
  pub ranges : Option (List RangeItem)
  pub direction : String

-- `_validated_plan_transfer_inputs`; `active` is the session's.
unfoldable pub validated_plan_transfer_inputs :
    Bool → ℤ → ℤ → Option (List RangeItem) → String → Result Inputs
unfolding normalize_ranges lower str_eq
validated_plan_transfer_inputs active total_bytes chunk_bytes ranges direction = do
  normalized ← normalize_ranges ranges
  let lowered = lower direction
  raise_if (ltb_ℤ total_bytes (pos 0)) (value_error "total_bytes must be non-negative")
  raise_if (leb_ℤ chunk_bytes (pos 0)) (value_error "chunk_bytes must be positive")
  raise_if (mismatched normalized total_bytes) (value_error "range bytes must match total_bytes")
  raise_if (not (str_eq lowered "h2d" || str_eq lowered "d2h"))
      (value_error "direction must be h2d or d2h")
  raise_if (not active) (value_error "session is closed")
  ok (record {
    total_bytes = total_bytes;
    chunk_bytes = chunk_bytes;
    ranges = normalized;
    direction = lowered;
  })

module _ {F : Type 0} ⦃f : FloatOps F⦄ where
  -- The profile that `_direct_plan` plans with.
  pub direct_profile : Profile F → Profile F
  unfolding or_else
  direct_profile profile = record profile {
    direct_h2d_bw_gbps = or_else profile.direct_h2d_bw_gbps f.one_f;
    direct_d2h_bw_gbps =
        or_else (or_else profile.direct_d2h_bw_gbps profile.direct_h2d_bw_gbps) f.one_f;
    relays = [];
  }

  -- The call of the planner, with or without ranges.
  unfoldable pub plan_inputs :
      PlannerEngineOptions F → Inputs → Profile F → TransferMode → Result (PlannerTransferPlan F)
  unfolding plan plan_ranges
  plan_inputs options inputs profile mode = elim inputs.ranges [
    | some ranges ↦ plan_ranges options ranges inputs.chunk_bytes profile mode inputs.direction
    | none ↦ plan options inputs.total_bytes inputs.chunk_bytes profile mode inputs.direction
  ]

  -- `_plan_or_direct`, with `_direct_plan` where the planner raises `RuntimeError`.
  unfoldable pub plan_or_direct :
      PlannerEngineOptions F → Inputs → Profile F → TransferMode → Result (PlannerTransferPlan F)
  unfolding plan_inputs direct_profile
  plan_or_direct options inputs profile mode = elim (plan_inputs options inputs profile mode) [
    | err (runtime_error e) ↦ plan_inputs options inputs (direct_profile profile) direct
    | r ↦ r
  ]
