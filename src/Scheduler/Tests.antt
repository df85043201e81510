-- ===== src/Scheduler/Tests.antt =====
-- The theorems on the scheduler, applied to a small plan.
use pcie_pool.Common.{
  ℕ, ◌+◌, ◌≡◌, ◌↔◌, refl, ◌⊎◌, List, [], ◌∷◌, none, some, true, false, str_eq, length, sum_by, All,
  ok,
}
use pcie_pool.Common.Int.{ℤ, pos, ◌≤ℤ◌}
use pcie_pool.Common.Dict.{Dict, lookup, int_eq}
use pcie_pool.Planner.{TransferMode, PlannerTransferPlan, empty_plan}
use pcie_pool.Planner.Engine.{plan}
use pcie_pool.Quota.{Session, RelayQuota, can_reserve, PlannerLease}
use pcie_pool.Scheduler.Leases.{
  relay_reservation_chunks, LeaseTerms, Grant, granted, refused, leases_for_plan,
}
use pcie_pool.Scheduler.Leases.Grants.{relayed_bytes, IsGranted, leases_for_plan_lem}
use pcie_pool.Common.Text.{lower}
use pcie_pool.Planner.Chunks.{RangeItem, mapping}
use pcie_pool.Planner.Engine.{plan_ranges}
use pcie_pool.Scheduler.Requests.{
  Inputs, normalize_ranges, validated_plan_transfer_inputs, plan_inputs, plan_or_direct,
}
use pcie_pool.Scheduler.Requests.Planned.{
  IsValid, inputs_of, validated_plan_transfer_inputs-IsValid, CarriesAll, plan_or_direct-CarriesAll,
}
use pcie_pool.Samples.{floats, options, profile, from_ok, pooled_plan}

abbrev session : Session ℕ
session = record {
  session_id = "s";
  target_gpu = pos 0;
  relay_gpus = pos 1 ∷ [];
  max_inflight_chunks = pos 8;
  worker_relay_capable = true;
  active_chunks = 2;
  created_at = 5;
  last_seen = 5;
}

abbrev terms : LeaseTerms ℕ
terms = record {
  session = session;
  direction = "h2d";
  now = 5;
  lease_seconds = 30;
  job_id = none;
  defer_relay_admission = false;
}

abbrev quotas : Dict ℤ RelayQuota
quotas =
    (
      pos 1,
      record {
        relay_gpu = pos 1;
        max_sessions = pos 1;
        max_inflight_chunks = pos 8;
        sessions = "s" ∷ [];
        active_chunks = 0;
      },
    )
    ∷ []

abbrev leases_or_none : Grant ℕ → List (PlannerLease ℕ)
leases_or_none (granted ls) = ls
leases_or_none (refused reason) = []

abbrev leases : List (PlannerLease ℕ)
leases = leases_or_none (leases_for_plan terms (λ n. "lease") quotas pooled_plan)

leases-granted : leases_for_plan terms (λ n. "lease") quotas pooled_plan ≡ granted leases
unfolding leases_for_plan plan empty_plan str_eq lookup relay_reservation_chunks can_reserve
leases-granted = refl

one_lease : length leases ≡ 1
unfolding leases_for_plan plan empty_plan str_eq lookup relay_reservation_chunks can_reserve
one_lease = refl

leases_for_plan_lem_example :
    All (IsGranted session quotas) leases
    × (sum_by (λ l. l.bytes_limit) leases ≡ relayed_bytes pooled_plan.assignments)
    × ((leases ≡ []) ⊎ (pos (2 + sum_by (λ l. l.chunk_limit) leases) ≤ℤ pos 8))
leases_for_plan_lem_example =
    leases_for_plan_lem terms (λ n. "lease") quotas pooled_plan leases refl leases-granted

abbrev direct_plan : PlannerTransferPlan ℕ
direct_plan = from_ok empty_plan (plan options (pos 10) (pos 4) profile TransferMode.direct "h2d")

direct_plan-ok : plan options (pos 10) (pos 4) profile TransferMode.direct "h2d" ≡ ok direct_plan
unfolding plan empty_plan str_eq
direct_plan-ok = refl

abbrev ranges : List RangeItem
ranges = mapping (pos 100) (pos 0) (pos 5) ∷ mapping (pos 40) (pos 5) (pos 3) ∷ []

abbrev inputs : Inputs
inputs = record {
  total_bytes = pos 8;
  chunk_bytes = pos 2;
  ranges = some ranges;
  direction = "h2d";
}

inputs-accepted :
    validated_plan_transfer_inputs true (pos 8) (pos 2) (some ranges) "H2D" ≡ ok inputs
unfolding validated_plan_transfer_inputs normalize_ranges lower str_eq
inputs-accepted = refl

abbrev ranged : PlannerTransferPlan ℕ
ranged = from_ok empty_plan (plan_or_direct options inputs profile TransferMode.relay)

ranged-ok : plan_or_direct options inputs profile TransferMode.relay ≡ ok ranged
unfolding plan_or_direct plan_inputs plan_ranges empty_plan str_eq
ranged-ok = refl

validated_plan_transfer_inputs-IsValid_example :
    (validated_plan_transfer_inputs true (pos 8) (pos 2) (some ranges) "H2D" ≡ ok inputs) ↔ (
      (inputs ≡ inputs_of (pos 8) (pos 2) (some ranges) "H2D")
      × IsValid true (pos 8) (pos 2) (some ranges) "H2D")
validated_plan_transfer_inputs-IsValid_example =
    validated_plan_transfer_inputs-IsValid true (pos 8) (pos 2) (some ranges) "H2D" inputs

plan_or_direct-CarriesAll_example : CarriesAll (pos 8) ranged
plan_or_direct-CarriesAll_example =
    plan_or_direct-CarriesAll true (pos 8) (pos 2) (some ranges) "H2D" inputs options profile
      TransferMode.relay ranged inputs-accepted ranged-ok
