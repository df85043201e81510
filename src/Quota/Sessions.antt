-- ===== src/Quota/Sessions.antt =====
-- Opening and closing a session keeps the counters of turbobus/daemon/server.py in agreement with its
-- reservations.
use pcie_pool.Common.{
  ◌≡◌, refl, inl, inr, List, [], ◌∷◌, Bool, true, false, String, arith, Bool-cases, Option-cases,
  if◌then◌else◌,
}
use pcie_pool.Common.Int.{ℤ}
use pcie_pool.Common.Dict.{
  Dict, insert-IsKeyed, lookup-insert, lookup, insert, erase, modify, string_eq, int_eq,
}
use pcie_pool.Quota.{Session, RelayQuota, TransferReservation, Books}
use pcie_pool.Quota.Leases.{
  release_all, detach, detach_all, attach, attach_all, close_session, open_session,
}
use pcie_pool.Quota.Sums.{weigh, lookup-modify, lookup-erase, erase-IsKeyed}
use pcie_pool.Quota.Balance.{
  for_session, SessionsBalanced, QuotasBalanced, IsSound, release_all-IsSound,
}

-- A change that leaves a relay's count alone leaves the balance alone.
modify-QuotasBalanced :
    (gpu : ℤ) (change : RelayQuota → RelayQuota) (quotas : Dict ℤ RelayQuota)
    (reservations : Dict String TransferReservation)
    → ((q : RelayQuota) → (change q).active_chunks ≡ q.active_chunks)
    → QuotasBalanced quotas reservations
    → QuotasBalanced (modify gpu change quotas) reservations
modify-QuotasBalanced gpu change quotas reservations same h other quota at_other =
    let seen = lookup-modify gpu other change quotas in
    elim (Option-cases (lookup other quotas)) [
      | inl e ↦ absurd (ground (arith, seen))
      | inr (old, e) ↦ ground (arith, seen, h other old e, same old)
    ]

detach_all-QuotasBalanced :
    (id : String) (gpus : List ℤ) (quotas : Dict ℤ RelayQuota)
    (reservations : Dict String TransferReservation)
    → QuotasBalanced quotas reservations
    → QuotasBalanced (detach_all id gpus quotas) reservations
unfolding detach_all
detach_all-QuotasBalanced id [] quotas reservations h = h
detach_all-QuotasBalanced id (gpu ∷ gpus) quotas reservations h =
    detach_all-QuotasBalanced id gpus (modify gpu (detach id) quotas) reservations
      (modify-QuotasBalanced gpu (detach id) quotas reservations (λ q. refl) h)

attach_all-QuotasBalanced :
    (id : String) (gpus : List ℤ) (quotas : Dict ℤ RelayQuota)
    (reservations : Dict String TransferReservation)
    → QuotasBalanced quotas reservations
    → QuotasBalanced (attach_all id gpus quotas) reservations
unfolding attach_all
attach_all-QuotasBalanced id [] quotas reservations h = h
attach_all-QuotasBalanced id (gpu ∷ gpus) quotas reservations h =
    attach_all-QuotasBalanced id gpus (modify gpu (attach id) quotas) reservations
      (modify-QuotasBalanced gpu (attach id) quotas reservations (λ q. refl) h)

module _ {F : Type 0} where
  without_session-IsSound :
      (id : String) (s : Books F)
      → IsSound s
      → IsSound (record s { sessions = erase id s.sessions })
  without_session-IsSound id s h = (
    ((λ j session at_j. h.0.0 j session (ground (arith, lookup-erase id j s.sessions h.1))), h.0.1),
    erase-IsKeyed id s.sessions h.1,
  )

  pub close_session-IsSound : (id : String) (s : Books F) → IsSound s → IsSound (close_session id s)
  unfolding close_session
  close_session-IsSound id s h = elim (Option-cases (lookup id s.sessions)) [
    | inl e ↦ rw (e, close_session) h
    | inr (session, e) ↦
        let without : Books F = record s { sessions = erase id s.sessions } in
        let (balanced, keyed) =
          release_all-IsSound id s.reservations without (without_session-IsSound id s h) in
        rw (e, close_session)
          (
            (
              balanced.0,
              detach_all-QuotasBalanced id session.relay_gpus
                  (release_all id s.reservations without).relay_quotas
                  (release_all id s.reservations without).reservations balanced.1,
            ),
            keyed,
          )
  ]

  -- A new session has an id that no reservation names.
  pub open_session-IsSound :
      (id : String) (target : ℤ) (relays : List ℤ) (max_inflight : ℤ) (capable : Bool) (now : F)
      (s : Books F)
      → weigh (for_session id) s.reservations ≡ 0
      → IsSound s
      → IsSound (open_session id target relays max_inflight capable now s)
  unfolding open_session
  open_session-IsSound id target relays max_inflight capable now s fresh h =
      ((sessions, quotas capable), insert-IsKeyed id _ s.sessions h.1)
    where
      new : Session F
      new = record {
        session_id = id;
        target_gpu = target;
        relay_gpus = relays;
        max_inflight_chunks = max_inflight;
        worker_relay_capable = capable;
        active_chunks = 0;
        created_at = now;
        last_seen = now;
      }

      sessions : SessionsBalanced (insert id new s.sessions) s.reservations
      sessions j session at_j = elim (Bool-cases (string_eq.beq id j)) [
        | inl e ↦
            let same : id ≡ j = (string_eq.beq_iff id j).0 e in
            let none_held : weigh (for_session j) s.reservations ≡ 0 = rw (← same) fresh in
            ground (arith, lookup-insert id j new s.sessions)
        | inr e ↦ ground (arith, lookup-insert id j new s.sessions, h.0.0 j session)
      ]

      quotas :
          (c : Bool)
          → QuotasBalanced
              (if c then attach_all id relays s.relay_quotas else s.relay_quotas)
              s.reservations
      quotas true = attach_all-QuotasBalanced id relays s.relay_quotas s.reservations h.0.1
      quotas false = h.0.1
