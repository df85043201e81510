-- ===== src/StagingPool/RoundTrip.antt =====
-- What `allocate`, `validate_slot_for_request`, `describe` and `release` of
-- turbobus/worker/staging_pool.py do one after the other.
use pcie_pool.Common.{
  ◌+◌, ◌%◌, ◌≤◌, ◌<◌, ◌≡◌, refl, inl, inr, [], ◌∷◌, Option, none, some, false, String, str_eq_iff,
  arith, Bool-cases, Result-cases, ok,
}
use pcie_pool.Common.Dict.{Dict, lookup, insert, erase, contains, lookup-insert, string_eq}
use pcie_pool.StagingPool.{WorkerDataPlaneRequest, WorkerStagingSlot, WorkerStagingPool}
use pcie_pool.StagingPool.Slots.{
  slot_for, from_request, from_request-slot_for, from_request-aligned, align_up_lem,
}
use pcie_pool.StagingPool.Pool.{
  new_slot_id, allocate, validate_slot_for_request, release_check, release, describe,
}

-- How a slot comes to be allocated.
pub record IsAllocated (factory : Option String) (request : WorkerDataPlaneRequest)
    (pool after : WorkerStagingPool) (slot : WorkerStagingSlot) : Type 0 where
  pub id : String
  pub fresh : contains id pool.slots ≡ false
  pub sized : 0 < request.staging.alignment_bytes
  pub made : slot ≡ slot_for request id
  pub kept : after.slots ≡ insert id slot pool.slots

new_slot_id-slots :
    (factory : Option String) (pool : WorkerStagingPool)
    → (new_slot_id factory pool).0.slots ≡ pool.slots
unfolding new_slot_id
new_slot_id-slots none pool = refl
new_slot_id-slots (some id) pool = refl

pub allocate-IsAllocated :
    (factory : Option String) (request : WorkerDataPlaneRequest) (pool after : WorkerStagingPool)
    (slot : WorkerStagingSlot)
    → allocate factory request pool ≡ (after, ok slot)
    → IsAllocated factory request pool after slot
unfolding allocate slot_for
allocate-IsAllocated factory request pool after slot e =
    let next = (new_slot_id factory pool).0 in
    let same = new_slot_id-slots factory pool in
    elim (Result-cases (new_slot_id factory pool).1) [
      | inr (x, refused) ↦ absurd (ground arith)
      | inl (id, made) ↦ elim (Bool-cases (contains id next.slots)) [
        | inl clash ↦ absurd (ground arith)
        | inr fresh ↦ elim (Result-cases (from_request request id)) [
          | inr (x, refused) ↦ absurd (ground arith)
          | inl (s, built) ↦
              let shape : s ≡ slot_for request id = from_request-slot_for request id s built in
              let names : s.slot_id ≡ id = rw shape refl in
              record {
                id = id;
                fresh = rw (← same) fresh;
                sized = from_request-aligned request id s built;
                made = ground (arith, shape);
                kept = ground (arith, shape, same, names);
              }
        ]
      ]
    ]

erase-insert :
    {V : Type 0} (k : String) (v : V) (d : Dict String V)
    → contains k d ≡ false
    → erase k (insert k v d) ≡ d
unfolding erase insert contains
erase-insert k v [] h = ground (arith, string_eq.beq_iff k k)
erase-insert k v ((j, w) ∷ d) h = ground (arith, erase-insert k v d)

find-inserted :
    {V : Type 0} (k : String) (v : V) (d : Dict String V) → lookup k (insert k v d) ≡ some v
find-inserted k v d = ground (arith, lookup-insert k k v d, string_eq.beq_iff k k)

-- A slot that was allocated is found under its id; it passes the test against its own request; and
-- with that request it is released, which leaves the pool with the slots from before and gives the
-- slot back as inactive.
pub allocate-release :
    (factory : Option String) (request : WorkerDataPlaneRequest) (pool after : WorkerStagingPool)
    (slot : WorkerStagingSlot)
    → allocate factory request pool ≡ (after, ok slot)
    → let released = release slot.slot_id (some request) after in
      (describe slot.slot_id after ≡ ok slot)
      × (validate_slot_for_request slot.slot_id request after ≡ ok slot)
      × (released.0.slots ≡ pool.slots)
      × (released.1 ≡ ok (record slot { active = false }))
unfolding describe validate_slot_for_request release release_check slot_for
allocate-release factory request pool after slot e =
    let a = allocate-IsAllocated factory request pool after slot e in
    let made : slot ≡ slot_for request a.id = a.made in
    let found : lookup slot.slot_id after.slots ≡ some slot =
      rw (made, slot_for, a.kept, made) (find-inserted a.id (slot_for request a.id) pool.slots) in
    let gone : erase slot.slot_id after.slots ≡ pool.slots =
      rw (made, slot_for, a.kept, made)
        (erase-insert a.id (slot_for request a.id) pool.slots a.fresh) in
    let e₁ : slot.transfer_id ≡ request.transfer_id = rw made refl in
    let e₂ : slot.lease_id ≡ request.lease_id = rw made refl in
    let e₃ : slot.session_id ≡ request.session_id = rw made refl in
    let e₄ : slot.job_id ≡ request.job_id = rw made refl in
    let e₅ : slot.relay_gpu ≡ request.relay_gpu = rw made refl in
    let valid : validate_slot_for_request slot.slot_id request after ≡ ok slot = ground (
      arith,
      found,
      str_eq_iff slot.transfer_id request.transfer_id,
      str_eq_iff slot.lease_id request.lease_id,
      str_eq_iff slot.session_id request.session_id,
      str_eq_iff slot.job_id request.job_id,
    ) in
    (ground (arith, found), valid, ground (arith, found, valid, gone), ground (arith, found, valid))

-- The bytes of a slot are the least multiple of its alignment that holds the bytes requested.
pub allocate-allocated_bytes :
    (factory : Option String) (request : WorkerDataPlaneRequest) (pool after : WorkerStagingPool)
    (slot : WorkerStagingSlot)
    → allocate factory request pool ≡ (after, ok slot)
    → (slot.allocated_bytes % request.staging.alignment_bytes ≡ 0)
      × (request.staging.total_bytes ≤ slot.allocated_bytes)
      × (slot.allocated_bytes < request.staging.total_bytes + request.staging.alignment_bytes)
unfolding slot_for
allocate-allocated_bytes factory request pool after slot e =
    let a = allocate-IsAllocated factory request pool after slot e in
    rw a.made (align_up_lem request.staging.total_bytes request.staging.alignment_bytes a.sized)
