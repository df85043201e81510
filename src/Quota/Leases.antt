-- ===== src/Quota/Leases.antt =====
-- The helpers of turbobus/daemon/server.py that enter a lease in the books and strike it out:
-- `_commit_scheduler_leases_locked`, `_drop_active_reservation_state_locked`, the session part of
-- `register_session` and the loops over reservations and quotas of `_close_session_locked`.
use pcie_pool.Common.{
  ℕ, ◌+◌, ◌-◌, List, [], ◌∷◌, Option, none, some, Bool, true, false, String, str_eq, not, filter_by,
  any_by, if◌then◌else◌,
}
use pcie_pool.Common.Int.{ℤ}
use pcie_pool.Common.Dict.{Dict, lookup, insert, erase, modify, string_eq, int_eq}
use pcie_pool.Quota.{Session, RelayQuota, TransferReservation, PlannerLease, LeaseToken, Books}

-- A lease and the text that `uuid.uuid4` gives for its token.
abbrev pub Granted : Type 0 → Type 0
Granted F = PlannerLease F × String

module _ {F : Type 0} where
  unfoldable pub reservation_of : PlannerLease F → TransferReservation
  reservation_of lease = record {
    reservation_id = lease.lease_id;
    session_id = lease.session_id;
    relay_gpu = lease.relay_device;
    chunks = lease.chunk_limit;
    bytes = lease.bytes_limit;
    direction = lease.direction;
  }

  pub token_of : PlannerLease F → String → List String → LeaseToken F
  token_of lease token buffer_ids = record {
    lease_id = lease.lease_id;
    session_id = lease.session_id;
    relay_gpu = lease.relay_device;
    token = token;
    buffer_ids = buffer_ids;
    job_id = lease.job_id;
    issued_at = lease.granted_at;
    expires_at = lease.expires_at;
  }

  abbrev pub add_chunks : ℕ → Session F → Session F
  add_chunks n s = record s { active_chunks = s.active_chunks + n }

  abbrev pub sub_chunks : ℕ → Session F → Session F
  sub_chunks n s = record s { active_chunks = s.active_chunks - n }

abbrev pub quota_add : ℕ → RelayQuota → RelayQuota
quota_add n q = record q { active_chunks = q.active_chunks + n }

abbrev pub quota_sub : ℕ → RelayQuota → RelayQuota
quota_sub n q = record q { active_chunks = q.active_chunks - n }

-- An entry that is made only if the lease belongs to a transfer.
abbrev pub note {ℓ} : {V : Type ℓ} → Bool → String → V → Dict String V → Dict String V
note true k v d = insert k v d
note false k v d = d

abbrev pub is_some {ℓ} : {A : Type ℓ} → Option A → Bool
is_some none = false
is_some (some a) = true

abbrev pub or_blank : Option String → String
or_blank none = ""
or_blank (some t) = t

abbrev pub detach : String → RelayQuota → RelayQuota
detach session_id q = record q { sessions = filter_by (λ t. not (str_eq t session_id)) q.sessions }

-- `quota.sessions.discard(session_id)` for each relay of a session.
unfoldable pub detach_all : String → List ℤ → Dict ℤ RelayQuota → Dict ℤ RelayQuota
unfolding modify str_eq
detach_all session_id [] d = d
detach_all session_id (gpu ∷ gpus) d = detach_all session_id gpus (modify gpu (detach session_id) d)

abbrev pub attach : String → RelayQuota → RelayQuota
attach session_id q = record q {
  sessions =
      if any_by (λ t. str_eq t session_id) q.sessions then q.sessions else session_id ∷ q.sessions;
}

unfoldable pub attach_all : String → List ℤ → Dict ℤ RelayQuota → Dict ℤ RelayQuota
unfolding modify str_eq
attach_all session_id [] d = d
attach_all session_id (gpu ∷ gpus) d = attach_all session_id gpus (modify gpu (attach session_id) d)

module _ {F : Type 0} where
  -- One round of the loop of `_commit_scheduler_leases_locked`, for a session and a transfer with
  -- its plan generation.
  unfoldable pub commit_lease :
      String → Option String → ℤ → List String → Granted F → Books F → Books F
  unfolding insert modify reservation_of token_of
  commit_lease session_id transfer_id generation buffer_ids (lease, token) s =
      let r = reservation_of lease in
      let key = r.reservation_id in
      let known = is_some transfer_id in
      record s {
        sessions = modify session_id (add_chunks r.chunks) s.sessions;
        relay_quotas = modify r.relay_gpu (quota_add r.chunks) s.relay_quotas;
        reservations = insert key r s.reservations;
        lease_tokens = insert key (token_of lease token buffer_ids) s.lease_tokens;
        lease_plan_generations = note known key generation s.lease_plan_generations;
        reservation_transfers = note known key (or_blank transfer_id) s.reservation_transfers;
      }

  -- `_commit_scheduler_leases_locked`
  unfoldable pub commit_leases :
      String → Option String → ℤ → List String → List (Granted F) → Books F → Books F
  unfolding commit_lease
  commit_leases session_id transfer_id generation buffer_ids [] s = s
  commit_leases session_id transfer_id generation buffer_ids (l ∷ ls) s =
      commit_leases session_id transfer_id generation buffer_ids ls
        (commit_lease session_id transfer_id generation buffer_ids l s)

  -- `_drop_active_reservation_state_locked`. On natural numbers `-` stops at 0, as the
  -- `max(0, ...)` of the source does.
  unfoldable pub drop_reservation : String → TransferReservation → Books F → Books F
  unfolding erase modify
  drop_reservation key r s = record s {
    reservations = erase key s.reservations;
    lease_tokens = erase key s.lease_tokens;
    lease_plan_generations = erase key s.lease_plan_generations;
    staging_records = erase key s.staging_records;
    reservation_transfers = erase key s.reservation_transfers;
    sessions = modify r.session_id (sub_chunks r.chunks) s.sessions;
    relay_quotas = modify r.relay_gpu (quota_sub r.chunks) s.relay_quotas;
  }

  -- `_release_reservation_locked` on the books: an unknown reservation changes none of these
  -- tables.
  unfoldable pub release_reservation : String → Books F → Books F
  unfolding lookup drop_reservation
  release_reservation key s = elim (lookup key s.reservations) [
    | none ↦ s
    | some r ↦ drop_reservation key r s
  ]

  -- The loop of `_close_session_locked` over a copy of the reservations.
  unfoldable pub release_all : String → Dict String TransferReservation → Books F → Books F
  unfolding release_reservation str_eq
  release_all session_id [] s = s
  release_all session_id ((key, r) ∷ rest) s =
      release_all session_id rest
        (if str_eq r.session_id session_id then release_reservation key s else s)

  -- `_close_session_locked` on the books: the session leaves the table first, so that only the
  -- quotas are credited.
  unfoldable pub close_session : String → Books F → Books F
  unfolding lookup erase release_all detach_all
  close_session session_id s = elim (lookup session_id s.sessions) [
    | none ↦ s
    | some session ↦
        let closed =
          release_all session_id s.reservations
            (record s { sessions = erase session_id s.sessions }) in
        record closed {
          relay_quotas = detach_all session_id session.relay_gpus closed.relay_quotas;
        }
  ]

  -- The part of `register_session` that makes a session and attaches it to its relays.
  unfoldable pub open_session : String → ℤ → List ℤ → ℤ → Bool → F → Books F → Books F
  unfolding insert attach_all
  open_session session_id target relays max_inflight capable now s =
      let session : Session F = record {
        session_id = session_id;
        target_gpu = target;
        relay_gpus = relays;
        max_inflight_chunks = max_inflight;
        worker_relay_capable = capable;
        active_chunks = 0;
        created_at = now;
        last_seen = now;
      } in
      record s {
        sessions = insert session_id session s.sessions;
        relay_quotas =
            if capable then attach_all session_id relays s.relay_quotas else s.relay_quotas;
      }
