-- ===== src/Scheduler/Stats/Totals.antt =====
-- What `_stats_for_plan` of turbobus/scheduler/daemon.py counts.
use pcie_pool.Common.{
  ◌+◌, ◌≡◌, refl, inl, inr, List, [], ◌∷◌, Option, false, String, arith, Bool-cases, str_eq, length,
  sum_by, any_by, All, All-map_to, ok, sum_by-append,
}
use pcie_pool.Common.Int.{ℤ, pos_part}
use pcie_pool.Common.Sums.{sum_by-perm}
use pcie_pool.Common.Float.{FloatOps}
use pcie_pool.Planner.{
  TransferMode, direct, PlannerPath, PlannerPathAssignment, PlannerTransferPlan, Profile,
  PlannerEngineOptions,
}
use pcie_pool.Planner.Cost.{chunks_bytes}
use pcie_pool.Planner.Chunks.{make_chunks}
use pcie_pool.Planner.Chunks.Tiling.{Tiles-sum}
use pcie_pool.Planner.Assign.Coverage.{assigned}
use pcie_pool.Planner.Paths.{direct_path}
use pcie_pool.Planner.Paths.Eligible.{IsEligible-direct}
use pcie_pool.Planner.Engine.{plan, is_pool, settled_mode}
use pcie_pool.Planner.Engine.Partition.{plan-partition}
use pcie_pool.Planner.Engine.Modes.{plan-IsRouted, settled_mode_lem}
use pcie_pool.Scheduler.Stats.{
  resolved_mode_for_plan, Counts, count_assignment, count_assignments, no_counts, stats_for_plan,
}
use pcie_pool.Scheduler.Leases.Grants.{relayed_bytes}

module _ {F : Type 0} where
  count_assignments-sums :
      (c : Counts) (as' : List (PlannerPathAssignment F))
      → let out = count_assignments c as' in
        (out.relay_bytes ≡ c.relay_bytes + relayed_bytes as')
        × (out.direct_bytes + out.relay_bytes
            ≡ c.direct_bytes + c.relay_bytes + sum_by (λ a. chunks_bytes a.chunks) as')
        × (out.direct_chunks + out.relay_chunks
            ≡ c.direct_chunks + c.relay_chunks + sum_by (λ a. length a.chunks) as')
  unfolding count_assignments count_assignment
  count_assignments-sums c [] = (omega arith, omega arith, omega arith)
  count_assignments-sums c (a ∷ as') =
      let ih = count_assignments-sums (count_assignment c a) as' in
      elim (Bool-cases (str_eq a.path.kind "relay")) [
        | inl relay ↦ (ground (arith, ih), ground (arith, ih), ground (arith, ih))
        | inr other ↦ (ground (arith, ih), ground (arith, ih), ground (arith, ih))
      ]

  assigned-total :
      (as' : List (PlannerPathAssignment F))
      → sum_by (λ c. c.bytes) (assigned as') ≡ sum_by (λ a. chunks_bytes a.chunks) as'
  assigned-total [] = refl
  assigned-total (a ∷ as') =
      omega (arith, sum_by-append (λ c. c.bytes) a.chunks (assigned as'), assigned-total as')

module _ {F : Type 0} ⦃f : FloatOps F⦄ where
  -- The statistics of a plan: the direct and the relayed bytes are together the bytes of the transfer,
  -- the relayed ones are those of the assignments over a relay, and the chunks are all counted.
  pub stats_for_plan-totals :
      (options : PlannerEngineOptions F) (total_bytes chunk_bytes : ℤ) (profile : Profile F)
      (mode requested : TransferMode) (direction : String) (reason : Option String)
      (p : PlannerTransferPlan F)
      → plan options total_bytes chunk_bytes profile mode direction ≡ ok p
      → let stats = stats_for_plan p requested reason in
        (stats.direct_bytes + stats.relay_bytes ≡ pos_part total_bytes)
        × (stats.relay_bytes ≡ relayed_bytes p.assignments)
        × (stats.direct_chunks + stats.relay_chunks ≡ sum_by (λ a. length a.chunks) p.assignments)
  unfolding stats_for_plan
  stats_for_plan-totals options t c profile mode requested direction reason p e =
      let (cs, tiles, perm, total) = plan-partition options t c profile mode direction p e in
      let same = sum_by-perm (λ c. c.bytes) (assigned p.assignments) cs perm in
      let sum = Tiles-sum _ _ _ _ cs tiles in
      let (relayed, bytes, chunks) = count_assignments-sums no_counts p.assignments in
      (omega (arith, assigned-total p.assignments), omega arith, omega arith)

  no_relay :
      (path : PlannerPath F) (as' : List (PlannerPathAssignment F))
      → str_eq path.kind "relay" ≡ false
      → All (λ a. a.path ≡ path) as'
      → any_by (λ a. str_eq a.path.kind "relay") as' ≡ false
  no_relay path [] e h = refl
  no_relay path (a ∷ as') e h =
      let here : str_eq a.path.kind "relay" ≡ false = rw h.0 e in rw here (no_relay path as' e h.1)

  no_relay-bytes :
      (as' : List (PlannerPathAssignment F))
      → any_by (λ a. str_eq a.path.kind "relay") as' ≡ false
      → relayed_bytes as' ≡ 0
  no_relay-bytes [] h = refl
  no_relay-bytes (a ∷ as') h = ground (arith, no_relay-bytes as')

  -- A plan in the mode `DIRECT` is resolved as direct: nothing of it goes over a relay.
  pub resolved_mode_for_plan-direct :
      (options : PlannerEngineOptions F) (total_bytes chunk_bytes : ℤ) (profile : Profile F)
      (direction : String) (p : PlannerTransferPlan F)
      → plan options total_bytes chunk_bytes profile direct direction ≡ ok p
      → (resolved_mode_for_plan p ≡ direct) × (relayed_bytes p.assignments ≡ 0)
  unfolding resolved_mode_for_plan is_pool direct_path str_eq
  resolved_mode_for_plan-direct options t c profile direction p e =
      let n = pos_part t in
      let count = length (make_chunks n (pos_part c)) in
      let stays : (settled_mode options count n direct).0 ≡ direct =
        (settled_mode_lem options count n direct).0 in
      let routed = rw stays at (plan-IsRouted options t c profile direct direction p e) in
      let on_direct =
        All-map_to _ (λ a. a.path ≡ direct_path profile direction)
          (λ a r. IsEligible-direct options profile direction a.path r.0) p.assignments routed in
      let none_relayed = no_relay (direct_path profile direction) p.assignments refl on_direct in
      (ground (arith, none_relayed), no_relay-bytes p.assignments none_relayed)
