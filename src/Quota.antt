-- ===== src/Quota.antt =====
-- The daemon's books on relay leases: the records of turbobus/schema.py and the state and helpers
-- of turbobus/daemon/server.py that commit, refuse and release them. A session object is reached
-- through the table of sessions, as the server's `session` arguments are. Fields that no operation
-- here reads are left out, and so is the audit trail.
pub mod Leases
pub mod Admission
pub mod Sums
pub mod Balance
pub mod Sessions
pub mod Steps
pub mod Bounds
mod Tests
use pcie_pool.Common.{ℕ, ◌+◌, List, [], ◌∷◌, Option, none, some, Bool, String, length}
use pcie_pool.Common.Int.{ℤ, pos, ltb_ℤ, leb_ℤ}
use pcie_pool.Common.Dict.{Dict}

pub record Session (F : Type 0) : Type 0 where
  pub session_id : String
  pub target_gpu : ℤ
  pub relay_gpus : List ℤ
  pub max_inflight_chunks : ℤ
  pub worker_relay_capable : Bool
  pub active_chunks : ℕ
  pub created_at : F
  pub last_seen : F

-- `sessions` is a set; it is kept as the list of its members.
pub record RelayQuota : Type 0 where
  pub relay_gpu : ℤ
  pub max_sessions : ℤ
  pub max_inflight_chunks : ℤ
  pub sessions : List String
  pub active_chunks : ℕ

-- `RelayQuota.can_attach`
pub can_attach : RelayQuota → Bool
can_attach q = ltb_ℤ (pos (length q.sessions)) q.max_sessions

-- `RelayQuota.can_reserve`
unfoldable pub can_reserve : RelayQuota → ℕ → Bool
can_reserve q chunks = leb_ℤ (pos (q.active_chunks + chunks)) q.max_inflight_chunks

pub record TransferReservation : Type 0 where
  pub reservation_id : String
  pub session_id : String
  pub relay_gpu : ℤ
  pub chunks : ℕ
  pub bytes : ℕ
  pub direction : String

pub record PlannerLease (F : Type 0) : Type 0 where
  pub lease_id : String
  pub session_id : String
  pub relay_device : ℤ
  pub chunk_limit : ℕ
  pub bytes_limit : ℕ
  pub direction : String
  pub granted_at : F
  pub expires_at : F
  pub job_id : Option String

pub record LeaseToken (F : Type 0) : Type 0 where
  pub lease_id : String
  pub session_id : String
  pub relay_gpu : ℤ
  pub token : String
  pub buffer_ids : List String
  pub job_id : Option String
  pub issued_at : F
  pub expires_at : F

-- The tables of the server that hold leases. A staging record is only dropped here; it is kept as
-- its slot's id.
pub record Books (F : Type 0) : Type 0 where
  pub sessions : Dict String (Session F)
  pub relay_quotas : Dict ℤ RelayQuota
  pub reservations : Dict String TransferReservation
  pub lease_tokens : Dict String (LeaseToken F)
  pub lease_plan_generations : Dict String ℤ
  pub staging_records : Dict String String
  pub reservation_transfers : Dict String String
