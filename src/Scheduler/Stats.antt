-- ===== src/Scheduler/Stats.antt =====
-- `_stats_for_plan` of turbobus/scheduler/daemon.py and `resolved_mode_for_plan` of
-- turbobus/scheduler/cost_model.py.
pub mod Totals
use pcie_pool.Common.{
  ℕ, suc, ◌+◌, List, [], ◌∷◌, Option, Bool, true, false, ◌&&◌, String, str_eq, length, any_by,
  if◌then◌else◌,
}
use pcie_pool.Planner.{
  TransferMode, pool, direct, relay, PlannerPathAssignment, PlannerTransferPlan,
}
use pcie_pool.Planner.Cost.{chunks_bytes}
use pcie_pool.Scheduler.{PlannerStats}

module _ {F : Type 0} where
  -- `resolved_mode_for_plan`
  unfoldable pub resolved_mode_for_plan : PlannerTransferPlan F → TransferMode
  unfolding str_eq
  resolved_mode_for_plan plan =
      let has_direct = any_by (λ a. str_eq a.path.kind "direct") plan.assignments in
      let has_relay = any_by (λ a. str_eq a.path.kind "relay") plan.assignments in
      if has_direct && has_relay then pool else if has_relay then relay else direct

-- The counters of the loop.
pub record Counts : Type 0 where
  pub direct_bytes : ℕ
  pub relay_bytes : ℕ
  pub direct_chunks : ℕ
  pub relay_chunks : ℕ
  pub relay_path_count : ℕ

module _ {F : Type 0} where
  pub count_assignment : Counts → PlannerPathAssignment F → Counts
  unfolding str_eq
  count_assignment c a =
      if str_eq a.path.kind "relay"
      then record c {
        relay_bytes = c.relay_bytes + chunks_bytes a.chunks;
        relay_chunks = c.relay_chunks + length a.chunks;
        relay_path_count = c.relay_path_count + 1;
      }
      else record c {
        direct_bytes = c.direct_bytes + chunks_bytes a.chunks;
        direct_chunks = c.direct_chunks + length a.chunks;
      }

  pub count_assignments : Counts → List (PlannerPathAssignment F) → Counts
  unfolding count_assignment
  count_assignments c [] = c
  count_assignments c (a ∷ as') = count_assignments (count_assignment c a) as'

abbrev pub no_counts : Counts
no_counts = record {
  direct_bytes = 0;
  relay_bytes = 0;
  direct_chunks = 0;
  relay_chunks = 0;
  relay_path_count = 0;
}

module _ {F : Type 0} where
  -- `_stats_for_plan`
  unfoldable pub stats_for_plan :
      PlannerTransferPlan F → TransferMode → Option String → PlannerStats
  unfolding count_assignments resolved_mode_for_plan
  stats_for_plan plan requested_mode fallback_reason =
      let c = count_assignments no_counts plan.assignments in
      record {
        bytes = plan.total_bytes;
        direct_bytes = c.direct_bytes;
        relay_bytes = c.relay_bytes;
        direct_chunks = c.direct_chunks;
        relay_chunks = c.relay_chunks;
        path_count = length plan.assignments;
        relay_path_count = c.relay_path_count;
        fallback_reason = fallback_reason;
        requested_mode = requested_mode;
        resolved_mode = resolved_mode_for_plan plan;
      }
