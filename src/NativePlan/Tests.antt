-- ===== src/NativePlan/Tests.antt =====
-- The native plan of a small transfer, and the theorems on it applied to it.
use pcie_pool.Common.{ℕ, ◌<◌, ◌≡◌, refl, ◌↔◌, List, [], ◌∷◌, length, ok, sum_by, All, str_eq}
use pcie_pool.Common.Int.{pos}
use pcie_pool.Common.Text.{lower}
use pcie_pool.Planner.{TransferMode}
use pcie_pool.Planner.Engine.{plan}
use pcie_pool.Planner.Chunks.{RangeItem, range_fields}
use pcie_pool.NativePlan.{TransferDirection, h2d, NativeTransferPlan}
use pcie_pool.NativePlan.Payload.{bytes_of, native_transfer_plan, plan_dict}
use pcie_pool.NativePlan.Checked.{IsExecutable}
use pcie_pool.NativePlan.Checked.Rounds.{native_transfer_plan-IsExecutable}
use pcie_pool.NativePlan.Accepted.{sent, native_routes, planned_routes}
use pcie_pool.NativePlan.Accepted.Plans.{native_transfer_plan-plan}
use pcie_pool.NativePlan.Ranges.{TransferRange, native_ranges, AreInside, native_ranges_iff}
use pcie_pool.Samples.{floats, options, profile, from_ok, pooled_plan, pooled_plan-ok}

abbrev native_plan : NativeTransferPlan ℕ
native_plan =
    from_ok (record { total_bytes = 0; chunk_bytes = 0; assignments = [] })
      (native_transfer_plan (plan_dict pooled_plan))

native_plan-ok : native_transfer_plan (plan_dict pooled_plan) ≡ ok native_plan
unfolding native_transfer_plan plan_dict plan str_eq lower
native_plan-ok = refl

native_transfer_plan-IsExecutable_example :
    (0 < native_plan.chunk_bytes)
    × ((d : TransferDirection) × All (IsExecutable d) native_plan.assignments)
    × (sum_by (λ a. bytes_of a.chunks) native_plan.assignments ≡ native_plan.total_bytes)
native_transfer_plan-IsExecutable_example =
    native_transfer_plan-IsExecutable (plan_dict pooled_plan) native_plan native_plan-ok

native_transfer_plan-plan_example :
    (n : NativeTransferPlan ℕ) × (native_transfer_plan (plan_dict pooled_plan) ≡ ok n)
    × (native_routes n.assignments ≡ planned_routes pooled_plan.assignments)
    × (bytes_of (sent n.assignments) ≡ 10)
native_transfer_plan-plan_example =
    native_transfer_plan-plan options (pos 10) (pos 4) profile TransferMode.pool h2d pooled_plan
      (refl, tt) pooled_plan-ok

abbrev copied : List RangeItem
copied =
    RangeItem.mapping (pos 0) (pos 2) (pos 6) ∷ RangeItem.sequence (pos 6 ∷ pos 0 ∷ pos 2 ∷ []) ∷ []

abbrev copied_ranges : List TransferRange
copied_ranges = from_ok [] (native_ranges copied 8 8)

copied_ranges-ok : native_ranges copied 8 8 ≡ ok copied_ranges
unfolding native_ranges range_fields
copied_ranges-ok = refl

native_ranges_iff_example :
    (native_ranges copied 8 8 ≡ ok copied_ranges)
    ↔ ((0 < length copied_ranges) × AreInside 8 8 copied copied_ranges)
native_ranges_iff_example = native_ranges_iff copied 8 8 copied_ranges
