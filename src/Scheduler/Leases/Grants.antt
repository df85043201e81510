-- ===== src/Scheduler/Leases/Grants.antt =====
-- What `_leases_for_plan` of turbobus/scheduler/daemon.py grants.
use pcie_pool.Common.{
  ℕ, suc, ◌+◌, ◌<◌, ◌≡◌, refl, ◌⊎◌, inl, inr, List, [], ◌∷◌, some, true, false, String, arith,
  Bool-cases, Option-cases, str_eq, leb, length, sum_by, any_by, All, if◌then◌else◌,
}
use pcie_pool.Common.Int.{ℤ, pos, ◌≤ℤ◌}
use pcie_pool.Common.Dict.{Dict, lookup, int_eq}
use pcie_pool.Common.Float.{FloatOps}
use pcie_pool.Planner.{PlannerChunk, PlannerPathAssignment, PlannerTransferPlan}
use pcie_pool.Planner.Cost.{chunks_bytes}
use pcie_pool.Quota.{Session, RelayQuota, can_reserve, PlannerLease}
use pcie_pool.Scheduler.Leases.{
  relay_reservation_chunks, LeaseSpec, lease_specs, LeaseTerms, Grant, granted, refused, lease_for,
  grant_specs, over_limit, grant_all, leases_for_plan,
}

Grant-cases :
    {F : Type 0} (g : Grant F)
    → ((ls : List (PlannerLease F)) × (g ≡ granted ls)) ⊎ ((reason : String) × (g ≡ refused reason))
Grant-cases (granted ls) = inl (ls, refl)
Grant-cases (refused reason) = inr (reason, refl)

no_chunks-bytes : (cs : List PlannerChunk) → leb (length cs) 0 ≡ true → chunks_bytes cs ≡ 0
no_chunks-bytes [] e = refl
no_chunks-bytes (c ∷ cs) e = absurd (ground arith)

module _ {F : Type 0} where
  -- The bytes of the assignments that go over a relay.
  abbrev pub relayed_bytes : List (PlannerPathAssignment F) → ℕ
  relayed_bytes as' =
      sum_by (λ a. if str_eq a.path.kind "relay" then chunks_bytes a.chunks else 0) as'

  -- A lease with chunks, on a relay of the session that has room for them.
  abbrev pub IsGranted : Session F → Dict ℤ RelayQuota → PlannerLease F → Type 0
  IsGranted session quotas l =
      (0 < l.chunk_limit)
      × (any_by (λ gpu. int_eq.beq gpu l.relay_device) session.relay_gpus ≡ true)
      × (quota : RelayQuota) × (lookup l.relay_device quotas ≡ some quota)
      × (can_reserve quota l.chunk_limit ≡ true)

  lease_specs-bytes :
      (session : Session F) (quotas : Dict ℤ RelayQuota) (as' : List (PlannerPathAssignment F))
      (specs : List LeaseSpec)
      → lease_specs session quotas as' ≡ some specs
      → All (λ s. 0 < s.chunks) specs × (sum_by (λ s. s.bytes_limit) specs ≡ relayed_bytes as')
  unfolding lease_specs
  lease_specs-bytes session quotas [] specs e =
      let none_left : specs ≡ [] = ground arith in rw none_left (tt, refl)
  lease_specs-bytes session quotas (a ∷ as') specs e =
      elim (Bool-cases (str_eq a.path.kind "relay")) [
        | inr direct ↦
            let (some_chunks, sum) = lease_specs-bytes session quotas as' specs (ground arith) in
            (some_chunks, ground arith)
        | inl relay ↦ elim (Bool-cases (leb (length a.chunks) 0)) [
          | inl idle ↦
              let (some_chunks, sum) = lease_specs-bytes session quotas as' specs (ground arith) in
              (some_chunks, ground (arith, no_chunks-bytes a.chunks idle))
          | inr busy ↦
              elim (Bool-cases (
                leb
                  (relay_reservation_chunks (length a.chunks) session
                    (lookup a.path.relay_device quotas))
                  0)) [
                    | inl full ↦ absurd (ground arith)
                    | inr room_left ↦ elim (Option-cases (lease_specs session quotas as')) [
                      | inl stopped ↦ absurd (ground arith)
                      | inr (rest, found) ↦
                          let (some_chunks, sum) =
                            lease_specs-bytes session quotas as' rest found in
                          let made : specs
                              ≡ record {
                                relay_device = a.path.relay_device;
                                chunks =
                                    relay_reservation_chunks (length a.chunks) session
                                      (lookup a.path.relay_device quotas);
                                bytes_limit = chunks_bytes a.chunks;
                              }
                                ∷ rest =
                            ground arith in
                          rw made ((ground arith, some_chunks), ground arith)
                    ]
                  ]
        ]
      ]

module _ {F : Type 0} ⦃f : FloatOps F⦄ where
  -- What the leases of the second loop keep of the specs.
  abbrev pub Carries :
      LeaseTerms F → Dict ℤ RelayQuota → List LeaseSpec → List (PlannerLease F) → Type 0
  Carries terms quotas specs ls =
      All (IsGranted terms.session quotas) ls
      × (sum_by (λ l. l.chunk_limit) ls ≡ sum_by (λ s. s.chunks) specs)
      × (sum_by (λ l. l.bytes_limit) ls ≡ sum_by (λ s. s.bytes_limit) specs)

  grant_specs-Carries :
      (terms : LeaseTerms F) (lease_id : ℕ → String) (quotas : Dict ℤ RelayQuota) (n : ℕ)
      (specs : List LeaseSpec) (ls : List (PlannerLease F))
      → terms.defer_relay_admission ≡ false
      → All (λ s. 0 < s.chunks) specs
      → grant_specs terms lease_id quotas n specs ≡ granted ls
      → Carries terms quotas specs ls
  unfolding grant_specs lease_for
  grant_specs-Carries terms lease_id quotas n [] ls now some_chunks e =
      let none_left : ls ≡ [] = ground arith in rw none_left (tt, refl, refl)
  grant_specs-Carries terms lease_id quotas n (spec ∷ specs) ls now some_chunks e =
      elim (Bool-cases
        (any_by (λ gpu. int_eq.beq gpu spec.relay_device) terms.session.relay_gpus)) [
          | inr foreign ↦ absurd (ground arith)
          | inl own ↦ elim (Option-cases (lookup spec.relay_device quotas)) [
            | inl missing ↦ absurd (ground arith)
            | inr (quota, known) ↦ elim (Bool-cases (can_reserve quota spec.chunks)) [
              | inr full ↦ absurd (ground arith)
              | inl fits ↦ elim (Grant-cases (grant_specs terms lease_id quotas (suc n) specs)) [
                | inr (reason, stopped) ↦ absurd (ground arith)
                | inl (rest, found) ↦
                    let (all_granted, chunks, bytes) =
                      grant_specs-Carries terms lease_id quotas (suc n) specs rest now some_chunks.1
                        found in
                    let made : ls ≡ lease_for terms (lease_id n) spec ∷ rest = ground arith in
                    rw made (
                      ((some_chunks.0, own, quota, known, fits), all_granted),
                      ground arith,
                      ground arith,
                    )
              ]
            ]
          ]
        ]

  grant_all-Carries :
      (terms : LeaseTerms F) (lease_id : ℕ → String) (quotas : Dict ℤ RelayQuota)
      (specs : List LeaseSpec) (ls : List (PlannerLease F))
      → terms.defer_relay_admission ≡ false
      → All (λ s. 0 < s.chunks) specs
      → grant_all terms lease_id quotas specs ≡ granted ls
      → Carries terms quotas specs ls × ((ls ≡ []) ⊎ (over_limit terms specs ≡ false))
  unfolding grant_all
  grant_all-Carries terms lease_id quotas [] ls now some_chunks e =
      let none_left : ls ≡ [] = ground arith in rw none_left ((tt, refl, refl), inl refl)
  grant_all-Carries terms lease_id quotas (spec ∷ specs) ls now some_chunks e =
      elim (Bool-cases (over_limit terms (spec ∷ specs))) [
        | inl over ↦ absurd (ground arith)
        | inr within ↦ (
          grant_specs-Carries terms lease_id quotas 0 (spec ∷ specs) ls now some_chunks
              (rw within at e),
          inr within,
        )
      ]

  -- Where admission is not deferred, the leases that are granted for a plan have chunks, are on relays
  -- of the session that have room for them, carry together the bytes of the relayed assignments, and
  -- keep the session within its limit of chunks in flight, unless there is no lease at all.
  pub leases_for_plan_lem :
      (terms : LeaseTerms F) (lease_id : ℕ → String) (quotas : Dict ℤ RelayQuota)
      (plan : PlannerTransferPlan F) (ls : List (PlannerLease F))
      → terms.defer_relay_admission ≡ false
      → leases_for_plan terms lease_id quotas plan ≡ granted ls
      → All (IsGranted terms.session quotas) ls
        × (sum_by (λ l. l.bytes_limit) ls ≡ relayed_bytes plan.assignments)
        × ((ls ≡ [])
            ⊎ (pos (terms.session.active_chunks + sum_by (λ l. l.chunk_limit) ls)
                ≤ℤ terms.session.max_inflight_chunks))
  unfolding leases_for_plan
  leases_for_plan_lem terms lease_id quotas plan ls now e =
      elim (Option-cases (lease_specs terms.session quotas plan.assignments)) [
        | inl stopped ↦ absurd (ground arith)
        | inr (specs, found) ↦
            let (some_chunks, sum) =
              lease_specs-bytes terms.session quotas plan.assignments specs found in
            let ((all_granted, chunks, bytes), limit) =
              grant_all-Carries terms lease_id quotas specs ls now some_chunks
                (rw (found, leases_for_plan) at e) in
            (all_granted, ground arith, ground arith)
      ]
