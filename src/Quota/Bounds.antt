-- ===== src/Quota/Bounds.antt =====
-- What the admission test of turbobus/daemon/server.py guards: the limits on chunks in flight.
use pcie_pool.Common.{
  ℕ, ◌≡◌, refl, ◌⊎◌, inl, inr, List, [], ◌∷◌, map, Option, none, some, Bool, true, false, String,
  arith, Bool-cases, sum_by, any_by, All, if◌then◌else◌,
}
use pcie_pool.Common.Int.{ℤ, pos, ◌≤ℤ◌}
use pcie_pool.Common.Dict.{Dict, lookup, string_eq, int_eq}
use pcie_pool.Quota.{Session, RelayQuota, can_reserve, PlannerLease, Books}
use pcie_pool.Quota.Leases.{
  Granted, commit_lease, commit_leases, add_chunks, quota_add, reservation_of,
}
use pcie_pool.Quota.Admission.{
  LoadTests, blocked_lease, over_session, relay_admission_blocked_reason,
}
use pcie_pool.Quota.Sums.{lookup-modify}

module _ {F : Type 0} where
  -- The chunks of all leases, and of those on one relay.
  abbrev pub all_chunks : List (PlannerLease F) → ℕ
  all_chunks ls = sum_by (λ l. l.chunk_limit) ls

  abbrev pub chunks_on : ℤ → List (PlannerLease F) → ℕ
  chunks_on gpu ls = sum_by (λ l. if int_eq.beq l.relay_device gpu then l.chunk_limit else 0) ls

  abbrev pub leases : List (Granted F) → List (PlannerLease F)
  leases gs = map (λ g. g.0) gs

  -- No two leases are on one relay.
  abbrev pub OnDistinctRelays : List (PlannerLease F) → Type 0
  OnDistinctRelays [] = Unit
  OnDistinctRelays (l ∷ ls) =
      (any_by (λ m. int_eq.beq m.relay_device l.relay_device) ls ≡ false) × OnDistinctRelays ls

  -- A commit adds the chunks of all leases to the session.
  commit-session :
      (id : String) (t : Option String) (n : ℤ) (buffers : List String) (gs : List (Granted F))
      (s : Books F) (session : Session F)
      → lookup id s.sessions ≡ some session
      → lookup id (commit_leases id t n buffers gs s).sessions
        ≡ some (add_chunks (all_chunks (leases gs)) session)
  unfolding commit_leases commit_lease reservation_of
  commit-session id t n buffers [] s session e = ground arith
  commit-session id t n buffers ((l, token) ∷ gs) s session e =
      let seen = lookup-modify id id (add_chunks l.chunk_limit) s.sessions in
      let ih =
        commit-session id t n buffers gs (commit_lease id t n buffers (l, token) s)
          (add_chunks l.chunk_limit session) (ground (arith, seen, string_eq.beq_iff id id)) in
      ground (arith, ih)

  -- A commit adds to each relay the chunks of the leases on it.
  commit-quota :
      (id : String) (t : Option String) (n : ℤ) (buffers : List String) (gs : List (Granted F))
      (s : Books F) (gpu : ℤ) (quota : RelayQuota)
      → lookup gpu s.relay_quotas ≡ some quota
      → lookup gpu (commit_leases id t n buffers gs s).relay_quotas
        ≡ some (quota_add (chunks_on gpu (leases gs)) quota)
  unfolding commit_leases commit_lease reservation_of
  commit-quota id t n buffers [] s gpu quota e = ground arith
  commit-quota id t n buffers ((l, token) ∷ gs) s gpu quota e =
      let seen = lookup-modify l.relay_device gpu (quota_add l.chunk_limit) s.relay_quotas in
      let step = commit_lease id t n buffers (l, token) s in
      elim (Bool-cases (int_eq.beq l.relay_device gpu)) [
        | inl here ↦
            let ih =
              commit-quota id t n buffers gs step gpu (quota_add l.chunk_limit quota)
                (ground (arith, seen)) in
            ground (arith, ih)
        | inr elsewhere ↦
            let ih = commit-quota id t n buffers gs step gpu quota (ground (arith, seen)) in
            ground (arith, ih)
      ]

  -- Each lease of a list that is not blocked fits in its relay.
  abbrev Fits : Dict ℤ RelayQuota → PlannerLease F → Type 0
  Fits quotas l =
      (quota : RelayQuota)
      → lookup l.relay_device quotas ≡ some quota
      → can_reserve quota l.chunk_limit ≡ true

  blocked_lease-Fits :
      (load : LoadTests) (session : Session F) (quotas : Dict ℤ RelayQuota)
      (ls : List (PlannerLease F))
      → blocked_lease load session quotas ls ≡ none
      → All (Fits quotas) ls
  unfolding blocked_lease
  blocked_lease-Fits load session quotas [] h = tt
  blocked_lease-Fits load session quotas (l ∷ ls) h =
      (λ quota e. ground arith, blocked_lease-Fits load session quotas ls (ground arith))

  chunks_on-none :
      (gpu : ℤ) (ls : List (PlannerLease F))
      → any_by (λ m. int_eq.beq m.relay_device gpu) ls ≡ false
      → chunks_on gpu ls ≡ 0
  chunks_on-none gpu [] h = refl
  chunks_on-none gpu (l ∷ ls) h = ground (arith, chunks_on-none gpu ls)

  -- On distinct relays the leases on one relay are one at most, and it fits.
  chunks_on-Fits :
      (gpu : ℤ) (quotas : Dict ℤ RelayQuota) (quota : RelayQuota) (ls : List (PlannerLease F))
      → lookup gpu quotas ≡ some quota
      → All (Fits quotas) ls
      → OnDistinctRelays ls
      → (chunks_on gpu ls ≡ 0) ⊎ (can_reserve quota (chunks_on gpu ls) ≡ true)
  chunks_on-Fits gpu quotas quota [] e fits distinct = inl refl
  chunks_on-Fits gpu quotas quota (l ∷ ls) e fits distinct =
      elim (Bool-cases (int_eq.beq l.relay_device gpu)) [
        | inl here ↦
            let same : l.relay_device ≡ gpu = (int_eq.beq_iff l.relay_device gpu).0 here in
            let others : chunks_on gpu ls ≡ 0 = chunks_on-none gpu ls (rw (← same) distinct.0) in
            let total : chunks_on gpu (l ∷ ls) ≡ l.chunk_limit = ground arith in
            inr (rw total (fits.0 quota (rw same e)))
        | inr elsewhere ↦
            let total : chunks_on gpu (l ∷ ls) ≡ chunks_on gpu ls = ground arith in
            rw total (chunks_on-Fits gpu quotas quota ls e fits.1 distinct.1)
      ]

  not_blocked :
      (load : LoadTests) (fair : Bool) (session : Session F) (quotas : Dict ℤ RelayQuota)
      (ls : List (PlannerLease F))
      → relay_admission_blocked_reason load fair session quotas ls ≡ none
      → (over_session session ls ≡ false) × (blocked_lease load session quotas ls ≡ none)
  unfolding relay_admission_blocked_reason
  not_blocked load fair session quotas ls h = ground arith

  module _ (load : LoadTests) (fair : Bool) (id : String) (t : Option String) (n : ℤ)
      (buffers : List String) (gs : List (Granted F)) (s : Books F) (session : Session F)
      (known : lookup id s.sessions ≡ some session)
      (admitted : relay_admission_blocked_reason load fair session s.relay_quotas (leases gs)
        ≡ none) where
    -- If the admission test finds nothing against the leases of a session, then once they are
    -- committed the session has no more chunks in flight than its limit.
    pub admitted-session_limit :
        (after : Session F)
        → lookup id (commit_leases id t n buffers gs s).sessions ≡ some after
        → pos after.active_chunks ≤ℤ after.max_inflight_chunks
    admitted-session_limit after e =
        let (within, _) = not_blocked load fair session s.relay_quotas (leases gs) admitted in
        ground (arith, commit-session id t n buffers gs s session known)

    -- If the admission test finds nothing against the leases of a session, and they are on distinct
    -- relays, then once they are committed each relay that was within its limit before is still
    -- within it.
    pub admitted-relay_limit :
        OnDistinctRelays (leases gs)
        → (gpu : ℤ) (quota after : RelayQuota) → lookup gpu s.relay_quotas ≡ some quota
        → pos quota.active_chunks ≤ℤ quota.max_inflight_chunks
        → lookup gpu (commit_leases id t n buffers gs s).relay_quotas ≡ some after
        → pos after.active_chunks ≤ℤ after.max_inflight_chunks
    unfolding can_reserve
    admitted-relay_limit distinct gpu quota after e₁ below e₂ =
        let (_, unblocked) = not_blocked load fair session s.relay_quotas (leases gs) admitted in
        let seen = commit-quota id t n buffers gs s gpu quota e₁ in
        elim (chunks_on-Fits gpu s.relay_quotas quota (leases gs) e₁
          (blocked_lease-Fits load session s.relay_quotas (leases gs) unblocked) distinct) [
            | inl unused ↦ ground (arith, seen)
            | inr fits ↦ ground (arith, seen)
          ]
