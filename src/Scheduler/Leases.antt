-- ===== src/Scheduler/Leases.antt =====
-- `_leases_for_plan` and `_relay_reservation_chunks` of turbobus/scheduler/daemon.py. `lease_id` is
-- the lease id factory: the id of its call number n.
pub mod Grants
use pcie_pool.Common.{
  ℕ, suc, ◌+◌, ◌-◌, min, List, [], ◌∷◌, Option, none, some, Bool, true, false, not, ◌&&◌, String,
  str_eq, leb, length, sum_by, any_by, if◌then◌else◌,
}
use pcie_pool.Common.Int.{ℤ, pos, pos_part, ltb_ℤ}
use pcie_pool.Common.Dict.{Dict, lookup, int_eq}
use pcie_pool.Common.Float.{FloatOps}
use pcie_pool.Planner.{PlannerPathAssignment, PlannerTransferPlan}
use pcie_pool.Planner.Cost.{chunks_bytes}
use pcie_pool.Quota.{Session, RelayQuota, can_reserve, PlannerLease}

-- `max(0, limit - active)`
abbrev pub room : ℤ → ℕ → ℕ
room limit active = pos_part limit - active

module _ {F : Type 0} where
  -- `_relay_reservation_chunks`
  unfoldable pub relay_reservation_chunks : ℕ → Session F → Option RelayQuota → ℕ
  relay_reservation_chunks requested session none = 0
  relay_reservation_chunks requested session (some quota) =
      if leb requested 0
      then 0
      else min (min requested (room session.max_inflight_chunks session.active_chunks))
          (room quota.max_inflight_chunks quota.active_chunks)

-- An entry of `lease_specs`.
pub record LeaseSpec : Type 0 where
  pub relay_device : ℤ
  pub chunks : ℕ
  pub bytes_limit : ℕ

module _ {F : Type 0} where
  -- The first loop. `none` stands for its early return, which is always for the relay's chunk quota.
  pub lease_specs :
      Session F → Dict ℤ RelayQuota → List (PlannerPathAssignment F) → Option (List LeaseSpec)
  unfolding lookup relay_reservation_chunks str_eq
  lease_specs session quotas [] = some []
  lease_specs session quotas (a ∷ as') =
      let rest = lease_specs session quotas as' in
      let chunks = length a.chunks in
      let relay = a.path.relay_device in
      let granted = relay_reservation_chunks chunks session (lookup relay quotas) in
      if not (str_eq a.path.kind "relay")
      then rest
      else if leb chunks 0
      then rest
      else if leb granted 0
      then none
      else elim rest [
        | none ↦ none
        | some specs ↦ some (
            record { relay_device = relay; chunks = granted; bytes_limit = chunks_bytes a.chunks }
            ∷ specs)
      ]

-- What the leases of one plan have in common.
pub record LeaseTerms (F : Type 0) : Type 0 where
  pub session : Session F
  pub direction : String
  pub now : F
  pub lease_seconds : F
  pub job_id : Option String
  pub defer_relay_admission : Bool

-- The leases, or the reason why there are none.
pub data Grant (F : Type 0) : Type 0 where
  granted : List (PlannerLease F) → Grant F
  refused : String → Grant F

module _ {F : Type 0} ⦃f : FloatOps F⦄ where
  pub lease_for : LeaseTerms F → String → LeaseSpec → PlannerLease F
  lease_for terms id spec = record {
    lease_id = id;
    session_id = terms.session.session_id;
    relay_device = spec.relay_device;
    chunk_limit = spec.chunks;
    bytes_limit = spec.bytes_limit;
    direction = terms.direction;
    granted_at = terms.now;
    expires_at = f.add terms.now terms.lease_seconds;
    job_id = terms.job_id;
  }

  -- The second loop; `n` counts the calls of the factory.
  pub grant_specs : LeaseTerms F → (ℕ → String) → Dict ℤ RelayQuota → ℕ → List LeaseSpec → Grant F
  unfolding lookup can_reserve lease_for
  grant_specs terms lease_id quotas n [] = granted []
  grant_specs terms lease_id quotas n (spec ∷ specs) =
      let rest = grant_specs terms lease_id quotas (suc n) specs in
      if not (any_by (λ gpu. int_eq.beq gpu spec.relay_device) terms.session.relay_gpus)
      then refused "relay GPU is not assigned to this session"
      else elim (lookup spec.relay_device quotas) [
        | none ↦ refused "relay chunk quota is unavailable"
        | some quota ↦
            if not terms.defer_relay_admission && not (can_reserve quota spec.chunks)
            then refused "relay chunk quota is unavailable"
            else elim rest [
              | refused reason ↦ refused reason
              | granted leases ↦ granted (lease_for terms (lease_id n) spec ∷ leases)
            ]
      ]

  abbrev pub over_limit : LeaseTerms F → List LeaseSpec → Bool
  over_limit terms specs =
      not terms.defer_relay_admission
      && ltb_ℤ terms.session.max_inflight_chunks
          (pos (terms.session.active_chunks + sum_by (λ s. s.chunks) specs))

  -- What follows the first loop.
  pub grant_all : LeaseTerms F → (ℕ → String) → Dict ℤ RelayQuota → List LeaseSpec → Grant F
  unfolding grant_specs
  grant_all terms lease_id quotas [] = granted []
  grant_all terms lease_id quotas (spec ∷ specs) =
      if over_limit terms (spec ∷ specs)
      then refused "session chunk quota is unavailable"
      else grant_specs terms lease_id quotas 0 (spec ∷ specs)

  -- `_leases_for_plan`
  unfoldable pub leases_for_plan :
      LeaseTerms F → (ℕ → String) → Dict ℤ RelayQuota → PlannerTransferPlan F → Grant F
  unfolding lease_specs grant_all
  leases_for_plan terms lease_id quotas plan =
      elim (lease_specs terms.session quotas plan.assignments) [
        | none ↦ refused "relay chunk quota is unavailable"
        | some specs ↦ grant_all terms lease_id quotas specs
      ]
