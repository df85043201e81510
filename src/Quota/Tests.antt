-- ===== src/Quota/Tests.antt =====
-- The theorems on the daemon's books, applied to a daemon with two relays, a session and two leases.
use pcie_pool.Common.{ℕ, ◌+◌, ◌≡◌, refl, arith, List, [], ◌∷◌, none, some, true, String, str_eq}
use pcie_pool.Common.Int.{ℤ, pos, ◌≤ℤ◌}
use pcie_pool.Common.Dict.{lookup, insert, modify, contains, string_eq, int_eq}
use pcie_pool.Quota.{Session, RelayQuota, can_reserve, Books}
use pcie_pool.Quota.Leases.{
  Granted, reservation_of, commit_lease, commit_leases, attach_all, open_session,
  release_reservation,
}
use pcie_pool.Quota.Admission.{LoadTests, blocked_lease, relay_admission_blocked_reason}
use pcie_pool.Quota.Sums.{weigh}
use pcie_pool.Quota.Balance.{for_session, for_relay}
use pcie_pool.Quota.Steps.{
  started, Reachable, starts, after, commits, opens, session-active_chunks, relay-active_chunks,
  release_reservation-exact,
}
use pcie_pool.Quota.Bounds.{admitted-session_limit, admitted-relay_limit}

abbrev relay : ℤ → RelayQuota
relay gpu = record {
  relay_gpu = gpu;
  max_sessions = pos 1;
  max_inflight_chunks = pos 8;
  sessions = [];
  active_chunks = 0;
}

abbrev at_start : Books ℕ
at_start = started ((pos 1, relay (pos 1)) ∷ (pos 2, relay (pos 2)) ∷ [])

abbrev with_session : Books ℕ
with_session = open_session "s" (pos 0) (pos 1 ∷ pos 2 ∷ []) (pos 8) true 5 at_start

abbrev lease : String → ℤ → ℕ → Granted ℕ
lease id gpu chunks = (
  record {
    lease_id = id;
    session_id = "s";
    relay_device = gpu;
    chunk_limit = chunks;
    bytes_limit = 16;
    direction = "h2d";
    granted_at = 5;
    expires_at = 9;
    job_id = none;
  },
  "token",
)

abbrev two_leases : List (Granted ℕ)
two_leases = lease "l1" (pos 1) 3 ∷ lease "l2" (pos 2) 4 ∷ []

abbrev with_leases : Books ℕ
with_leases = commit_leases "s" (some "t") (pos 0) [] two_leases with_session

abbrev the_session : ℕ → Session ℕ
the_session n = record {
  session_id = "s";
  target_gpu = pos 0;
  relay_gpus = pos 1 ∷ pos 2 ∷ [];
  max_inflight_chunks = pos 8;
  worker_relay_capable = true;
  active_chunks = n;
  created_at = 5;
  last_seen = 5;
}

abbrev held_relay : ℤ → ℕ → RelayQuota
held_relay gpu n = record {
  relay_gpu = gpu;
  max_sessions = pos 1;
  max_inflight_chunks = pos 8;
  sessions = "s" ∷ [];
  active_chunks = n;
}

with_leases-Reachable : Reachable with_leases
unfolding commit_leases commit_lease open_session lookup insert modify contains str_eq
    reservation_of
with_leases-Reachable =
    after with_session with_leases
      (after at_start with_session (starts _ (refl, (refl, tt)))
        (opens at_start "s" (pos 0) (pos 1 ∷ pos 2 ∷ []) (pos 8) true 5 refl))
      (commits with_session "s" (some "t") (pos 0) [] two_leases (refl, refl, (refl, refl, tt)))

session-active_chunks_example : 7 ≡ weigh (for_session "s") with_leases.reservations
unfolding commit_leases commit_lease open_session lookup insert modify str_eq reservation_of
session-active_chunks_example =
    session-active_chunks with_leases with_leases-Reachable "s" (the_session 7) refl

relay-active_chunks_example : 4 ≡ weigh (for_relay (pos 2)) with_leases.reservations
unfolding commit_leases commit_lease open_session attach_all lookup insert modify str_eq
    reservation_of
relay-active_chunks_example =
    relay-active_chunks with_leases with_leases-Reachable (pos 2) (held_relay (pos 2) 4) refl

release_reservation-exact_example :
    (left : RelayQuota) × (lookup (pos 2) (release_reservation "l2" with_leases).relay_quotas
      ≡ some left)
    × (left.active_chunks + 4 ≡ 4)
unfolding commit_leases commit_lease open_session attach_all lookup insert modify str_eq
    reservation_of
release_reservation-exact_example =
    release_reservation-exact with_leases with_leases-Reachable "l2"
      (reservation_of (lease "l2" (pos 2) 4).0) (held_relay (pos 2) 4) refl refl

abbrev no_load : LoadTests
no_load = record { fairness_blocked = none; runtime_blocked = λ gpu direction. none }

admitted-session_limit_example : pos 7 ≤ℤ pos 8
unfolding relay_admission_blocked_reason blocked_lease can_reserve commit_leases commit_lease
    open_session attach_all lookup insert modify str_eq reservation_of
admitted-session_limit_example =
    admitted-session_limit no_load true "s" (some "t") (pos 0) [] two_leases with_session
      (the_session 0) refl refl (the_session 7) refl

admitted-relay_limit_example : pos 4 ≤ℤ pos 8
unfolding relay_admission_blocked_reason blocked_lease can_reserve commit_leases commit_lease
    open_session attach_all lookup insert modify str_eq reservation_of
admitted-relay_limit_example =
    admitted-relay_limit no_load true "s" (some "t") (pos 0) [] two_leases with_session
      (the_session 0) refl refl (refl, (refl, tt)) (pos 2) (held_relay (pos 2) 0)
      (held_relay (pos 2) 4) refl (omega arith) refl
