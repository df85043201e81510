-- ===== src/Quota/Steps.antt =====
-- The daemon's books as a state machine: the steps of turbobus/daemon/server.py on leases and
-- sessions, in any order, from a daemon that has just started.
use pcie_pool.Common.{◌+◌, ◌≡◌, List, [], ◌∷◌, Option, some, Bool, String, arith, All}
use pcie_pool.Common.Int.{ℤ}
use pcie_pool.Common.Dict.{Dict, lookup, string_eq, int_eq}
use pcie_pool.Quota.{Session, RelayQuota, TransferReservation, Books}
use pcie_pool.Quota.Leases.{
  Granted, commit_leases, drop_reservation, quota_sub, release_reservation, close_session,
  open_session,
}
use pcie_pool.Quota.Sums.{weigh, weigh-erase, lookup-modify}
use pcie_pool.Quota.Balance.{
  for_session, for_relay, IsSound, CanEnter, QuotasBalanced, commit_leases-IsSound,
  release_reservation-IsSound,
}
use pcie_pool.Quota.Sessions.{close_session-IsSound, open_session-IsSound}

pub data Step {F : Type 0} : Books F → Books F → Type 0 where
  commits :
      (s : Books F) (session_id : String) (transfer_id : Option String) (generation : ℤ)
      (buffer_ids : List String) (leases : List (Granted F))
      → CanEnter session_id transfer_id generation buffer_ids leases s
      → Step s (commit_leases session_id transfer_id generation buffer_ids leases s)
  releases : (s : Books F) (key : String) → Step s (release_reservation key s)
  closes : (s : Books F) (id : String) → Step s (close_session id s)
  opens :
      (s : Books F) (id : String) (target : ℤ) (relays : List ℤ) (max_inflight : ℤ) (capable : Bool)
      (now : F)
      → weigh (for_session id) s.reservations ≡ 0
      → Step s (open_session id target relays max_inflight capable now s)

-- The books of a daemon that has just started: the quotas of its relays, with nothing in use.
abbrev pub started : {F : Type 0} → Dict ℤ RelayQuota → Books F
started quotas = record {
  sessions = [];
  relay_quotas = quotas;
  reservations = [];
  lease_tokens = [];
  lease_plan_generations = [];
  staging_records = [];
  reservation_transfers = [];
}

abbrev pub AreIdle : Dict ℤ RelayQuota → Type 0
AreIdle quotas = All (λ p. p.1.active_chunks ≡ 0) quotas

pub data Reachable {F : Type 0} : Books F → Type 0 where
  starts : (quotas : Dict ℤ RelayQuota) → AreIdle quotas → Reachable (started quotas)
  after : (s s' : Books F) → Reachable s → Step s s' → Reachable s'

idle-QuotasBalanced : (quotas : Dict ℤ RelayQuota) → AreIdle quotas → QuotasBalanced quotas []
unfolding lookup
idle-QuotasBalanced [] h gpu q e = absurd (ground arith)
idle-QuotasBalanced ((g, p) ∷ quotas) h gpu q e =
    ground (arith, idle-QuotasBalanced quotas h.1 gpu q)

Step-IsSound : {F : Type 0} (s s' : Books F) → Step s s' → IsSound s → IsSound s'
Step-IsSound _ _ (commits s id t g buffers ls c) h = commit_leases-IsSound id t g buffers ls s c h
Step-IsSound _ _ (releases s key) h = release_reservation-IsSound key s h
Step-IsSound _ _ (closes s id) h = close_session-IsSound id s h
Step-IsSound _ _ (opens s id target relays m c now fresh) h =
    open_session-IsSound id target relays m c now s fresh h

Reachable-IsSound : {F : Type 0} (s : Books F) → Reachable s → IsSound s
unfolding lookup
Reachable-IsSound _ (starts quotas idle) =
    (((λ id session e. absurd (ground arith)), idle-QuotasBalanced quotas idle), tt)
Reachable-IsSound _ (after s s' r step) = Step-IsSound s s' step (Reachable-IsSound s r)

module _ {F : Type 0} where
  -- Whatever the daemon has done, the active chunks of a session that it knows are exactly the chunks
  -- of the reservations that it holds for the session.
  pub session-active_chunks :
      (s : Books F)
      → Reachable s
      → (id : String) (session : Session F) → lookup id s.sessions ≡ some session
      → session.active_chunks ≡ weigh (for_session id) s.reservations
  session-active_chunks s reach = (Reachable-IsSound s reach).0.0

  -- Whatever the daemon has done, the active chunks of a relay are exactly the chunks of the
  -- reservations that it holds on the relay.
  pub relay-active_chunks :
      (s : Books F)
      → Reachable s
      → (gpu : ℤ) (quota : RelayQuota) → lookup gpu s.relay_quotas ≡ some quota
      → quota.active_chunks ≡ weigh (for_relay gpu) s.reservations
  relay-active_chunks s reach = (Reachable-IsSound s reach).0.1

  -- A release takes back exactly what was reserved: the `max(0, ...)` on the relay's count never cuts
  -- the difference.
  pub release_reservation-exact :
      (s : Books F)
      → Reachable s
      → (key : String) (r : TransferReservation) (quota : RelayQuota)
      → lookup key s.reservations ≡ some r
      → lookup r.relay_gpu s.relay_quotas ≡ some quota
      → (after : RelayQuota) × (lookup r.relay_gpu (release_reservation key s).relay_quotas
          ≡ some after)
        × (after.active_chunks + r.chunks ≡ quota.active_chunks)
  unfolding release_reservation drop_reservation
  release_reservation-exact s reach key r quota held known =
      let seen = lookup-modify r.relay_gpu r.relay_gpu (quota_sub r.chunks) s.relay_quotas in
      let itself = int_eq.beq_iff r.relay_gpu r.relay_gpu in
      rw (held, release_reservation)
        (
          quota_sub r.chunks quota,
          ground (arith, seen, itself),
          ground (
            arith,
            relay-active_chunks s reach r.relay_gpu quota known,
            weigh-erase (for_relay r.relay_gpu) key r s.reservations held,
            itself,
          ),
        )
