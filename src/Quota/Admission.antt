-- ===== src/Quota/Admission.antt =====
-- `_relay_admission_blocked_reason_locked` of turbobus/daemon/server.py, and the admission of a plan
-- by `_admitted_transfer_reservations_locked`. The two tests that read the daemon's load view are
-- parameters: the theorems hold whatever they answer.
use pcie_pool.Common.{
  ◌+◌, List, [], ◌∷◌, Option, none, some, Bool, not, String, sum_by, any_by, if◌then◌else◌,
}
use pcie_pool.Common.Int.{ℤ, pos, ltb_ℤ, eqb_ℤ}
use pcie_pool.Common.Text.{◌^^◌}
use pcie_pool.Common.Dict.{Dict, lookup, string_eq, int_eq}
use pcie_pool.Quota.{Session, RelayQuota, can_reserve, PlannerLease}

-- `relay_fairness_admission_blocked_reason` and `relay_admission_blocked_reason` on the load view.
pub record LoadTests : Type 0 where
  pub fairness_blocked : Option String
  pub runtime_blocked : ℤ → String → Option String

-- The loop over the leases.
unfoldable pub blocked_lease :
    {F : Type 0} → LoadTests → Session F → Dict ℤ RelayQuota → List (PlannerLease F) → Option String
unfolding lookup can_reserve
blocked_lease load session quotas [] = none
blocked_lease load session quotas (lease ∷ rest) =
    let later = blocked_lease load session quotas rest in
    if not (any_by (λ gpu. eqb_ℤ gpu lease.relay_device) session.relay_gpus)
    then some "relay admission is delayed by session relay ownership"
    else elim (lookup lease.relay_device quotas) [
      | none ↦ some "relay admission is delayed by missing relay quota"
      | some quota ↦
          if not (can_reserve quota lease.chunk_limit)
          then some "relay admission is delayed by relay chunk quota"
          else elim (load.runtime_blocked lease.relay_device lease.direction) [
            | some reason ↦ some ("relay admission is delayed by " ^^ reason)
            | none ↦ later
          ]
    ]

abbrev pub over_session : {F : Type 0} → Session F → List (PlannerLease F) → Bool
over_session session leases =
    ltb_ℤ session.max_inflight_chunks
      (pos (session.active_chunks + sum_by (λ lease. lease.chunk_limit) leases))

-- `_relay_admission_blocked_reason_locked`
unfoldable pub relay_admission_blocked_reason :
    {F : Type 0}
    → LoadTests
    → Bool
    → Session F
    → Dict ℤ RelayQuota
    → List (PlannerLease F)
    → Option String
unfolding blocked_lease
relay_admission_blocked_reason load enforce_fairness session quotas leases =
    if over_session session leases
    then some "session relay admission is delayed by chunk quota"
    else elim (if enforce_fairness then load.fairness_blocked else none) [
      | some reason ↦ some reason
      | none ↦ blocked_lease load session quotas leases
    ]
