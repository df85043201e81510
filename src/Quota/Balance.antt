-- ===== src/Quota/Balance.antt =====
-- The counters of turbobus/daemon/server.py agree with its reservations: `active_chunks` of a session
-- and of a relay is the number of chunks that are reserved for it.
use pcie_pool.Common.{
  ℕ, ◌≡◌, inl, inr, List, [], ◌∷◌, Option, some, false, String, arith, Bool-cases, Option-cases,
  str_eq, if◌then◌else◌,
}
use pcie_pool.Common.Int.{ℤ}
use pcie_pool.Common.Dict.{
  Dict, IsKeyed, lookup, insert, erase, modify, contains, string_eq, int_eq,
}
use pcie_pool.Quota.{Session, RelayQuota, TransferReservation, Books}
use pcie_pool.Quota.Leases.{
  Granted, add_chunks, sub_chunks, quota_add, quota_sub, reservation_of, commit_lease,
  commit_leases, drop_reservation, release_reservation, release_all,
}
use pcie_pool.Quota.Sums.{weigh, weigh-insert, weigh-erase, lookup-modify, modify-IsKeyed}

-- The chunks that a reservation holds of a session, and of a relay.
abbrev pub for_session : String → TransferReservation → ℕ
for_session id r = if string_eq.beq r.session_id id then r.chunks else 0

abbrev pub for_relay : ℤ → TransferReservation → ℕ
for_relay gpu r = if int_eq.beq r.relay_gpu gpu then r.chunks else 0

module _ {F : Type 0} where
  abbrev pub SessionsBalanced : Dict String (Session F) → Dict String TransferReservation → Type 0
  SessionsBalanced sessions reservations =
      (id : String) (session : Session F)
      → lookup id sessions ≡ some session
      → session.active_chunks ≡ weigh (for_session id) reservations

abbrev pub QuotasBalanced : Dict ℤ RelayQuota → Dict String TransferReservation → Type 0
QuotasBalanced quotas reservations =
    (gpu : ℤ) (quota : RelayQuota)
    → lookup gpu quotas ≡ some quota
    → quota.active_chunks ≡ weigh (for_relay gpu) reservations

module _ {F : Type 0} where
  abbrev pub IsBalanced : Books F → Type 0
  IsBalanced s =
      SessionsBalanced s.sessions s.reservations × QuotasBalanced s.relay_quotas s.reservations

  insert-SessionsBalanced :
      (sessions : Dict String (Session F)) (reservations : Dict String TransferReservation)
      (key : String) (r : TransferReservation)
      → contains key reservations ≡ false
      → SessionsBalanced sessions reservations
      → SessionsBalanced
          (modify r.session_id (add_chunks r.chunks) sessions)
          (insert key r reservations)
  insert-SessionsBalanced sessions reservations key r fresh h id session at_id =
      elim (Option-cases (lookup id sessions)) [
        | inl e ↦
            absurd (ground (arith, lookup-modify r.session_id id (add_chunks r.chunks) sessions))
        | inr (old, e) ↦ ground (
          arith,
          lookup-modify r.session_id id (add_chunks r.chunks) sessions,
          h id old e,
          weigh-insert (for_session id) key r reservations fresh,
        )
      ]

  erase-SessionsBalanced :
      (sessions : Dict String (Session F)) (reservations : Dict String TransferReservation)
      (key : String) (r : TransferReservation)
      → lookup key reservations ≡ some r
      → SessionsBalanced sessions reservations
      → SessionsBalanced
          (modify r.session_id (sub_chunks r.chunks) sessions)
          (erase key reservations)
  erase-SessionsBalanced sessions reservations key r known h id session at_id =
      elim (Option-cases (lookup id sessions)) [
        | inl e ↦
            absurd (ground (arith, lookup-modify r.session_id id (sub_chunks r.chunks) sessions))
        | inr (old, e) ↦ ground (
          arith,
          lookup-modify r.session_id id (sub_chunks r.chunks) sessions,
          h id old e,
          weigh-erase (for_session id) key r reservations known,
        )
      ]

insert-QuotasBalanced :
    (quotas : Dict ℤ RelayQuota) (reservations : Dict String TransferReservation) (key : String)
    (r : TransferReservation)
    → contains key reservations ≡ false
    → QuotasBalanced quotas reservations
    → QuotasBalanced (modify r.relay_gpu (quota_add r.chunks) quotas) (insert key r reservations)
insert-QuotasBalanced quotas reservations key r fresh h gpu quota at_gpu =
    let seen = lookup-modify r.relay_gpu gpu (quota_add r.chunks) quotas in
    elim (Option-cases (lookup gpu quotas)) [
      | inl e ↦ absurd (ground (arith, seen))
      | inr (old, e) ↦
          ground (arith, seen, h gpu old e, weigh-insert (for_relay gpu) key r reservations fresh)
    ]

erase-QuotasBalanced :
    (quotas : Dict ℤ RelayQuota) (reservations : Dict String TransferReservation) (key : String)
    (r : TransferReservation)
    → lookup key reservations ≡ some r
    → QuotasBalanced quotas reservations
    → QuotasBalanced (modify r.relay_gpu (quota_sub r.chunks) quotas) (erase key reservations)
erase-QuotasBalanced quotas reservations key r known h gpu quota at_gpu =
    let seen = lookup-modify r.relay_gpu gpu (quota_sub r.chunks) quotas in
    elim (Option-cases (lookup gpu quotas)) [
      | inl e ↦ absurd (ground (arith, seen))
      | inr (old, e) ↦
          ground (arith, seen, h gpu old e, weigh-erase (for_relay gpu) key r reservations known)
    ]

module _ {F : Type 0} where
  -- The counters agree with the reservations, and no session id stands twice in the table.
  abbrev pub IsSound : Books F → Type 0
  IsSound s = IsBalanced s × IsKeyed s.sessions

  -- What a commit relies on: the ids that `uuid.uuid4` gave are new, and the leases are the
  -- session's.
  abbrev pub CanEnter :
      String → Option String → ℤ → List String → List (Granted F) → Books F → Type 0
  CanEnter session_id transfer_id generation buffer_ids [] s = Unit
  CanEnter session_id transfer_id generation buffer_ids (l ∷ ls) s =
      (contains l.0.lease_id s.reservations ≡ false)
      × (l.0.session_id ≡ session_id)
      × CanEnter session_id transfer_id generation buffer_ids ls
          (commit_lease session_id transfer_id generation buffer_ids l s)

  commit_lease-IsSound :
      (session_id : String) (transfer_id : Option String) (generation : ℤ)
      (buffer_ids : List String) (l : Granted F) (s : Books F)
      → contains l.0.lease_id s.reservations ≡ false
      → l.0.session_id ≡ session_id
      → IsSound s
      → IsSound (commit_lease session_id transfer_id generation buffer_ids l s)
  unfolding commit_lease reservation_of
  commit_lease-IsSound session_id t g buffers (lease, token) s fresh own h =
      let r = reservation_of lease in
      (
        (
          rw (← own)
              (insert-SessionsBalanced s.sessions s.reservations lease.lease_id r fresh h.0.0),
          insert-QuotasBalanced s.relay_quotas s.reservations lease.lease_id r fresh h.0.1,
        ),
        modify-IsKeyed session_id (add_chunks lease.chunk_limit) s.sessions h.1,
      )

  -- A commit keeps the balance.
  pub commit_leases-IsSound :
      (session_id : String) (transfer_id : Option String) (generation : ℤ)
      (buffer_ids : List String) (ls : List (Granted F)) (s : Books F)
      → CanEnter session_id transfer_id generation buffer_ids ls s
      → IsSound s
      → IsSound (commit_leases session_id transfer_id generation buffer_ids ls s)
  unfolding commit_leases
  commit_leases-IsSound id t g buffers [] s c h = h
  commit_leases-IsSound id t g buffers (l ∷ ls) s c h =
      commit_leases-IsSound id t g buffers ls (commit_lease id t g buffers l s) c.2
        (commit_lease-IsSound id t g buffers l s c.0 c.1 h)

  -- So does a release, whether the reservation is known or not.
  pub release_reservation-IsSound :
      (key : String) (s : Books F) → IsSound s → IsSound (release_reservation key s)
  unfolding release_reservation drop_reservation
  release_reservation-IsSound key s h = elim (Option-cases (lookup key s.reservations)) [
    | inl e ↦ rw (e, release_reservation) h
    | inr (r, e) ↦
        rw (e, release_reservation)
          (
            (
              erase-SessionsBalanced s.sessions s.reservations key r e h.0.0,
              erase-QuotasBalanced s.relay_quotas s.reservations key r e h.0.1,
            ),
            modify-IsKeyed r.session_id (sub_chunks r.chunks) s.sessions h.1,
          )
  ]

  pub release_all-IsSound :
      (id : String) (rs : Dict String TransferReservation) (s : Books F)
      → IsSound s
      → IsSound (release_all id rs s)
  unfolding release_all
  release_all-IsSound id [] s h = h
  release_all-IsSound id ((key, r) ∷ rs) s h = elim (Bool-cases (str_eq r.session_id id)) [
    | inl e ↦
        rw (e, release_all)
          (release_all-IsSound id rs (release_reservation key s)
            (release_reservation-IsSound key s h))
    | inr e ↦ rw (e, release_all) (release_all-IsSound id rs s h)
  ]
