-- ===== src/StagingPool/Pool.antt =====
-- The methods of `WorkerStagingPool` in turbobus/worker/staging_pool.py. The slot id factory is not
-- part of the pool: `factory` is the id that it returned, and `none` where the pool has no factory.
use pcie_pool.Common.{
  suc, ◌==◌, Option, none, some, false, not, String, str_eq, if◌then◌else◌, Result, ok, err,
  pool_error, ◌>>=◌, ◌>>◌, raise_if,
}
use pcie_pool.Common.Text.{◌^^◌, show_ℕ}
use pcie_pool.Common.Dict.{lookup, insert, erase, contains, string_eq}
use pcie_pool.StagingPool.{WorkerDataPlaneRequest, WorkerStagingSlot, WorkerStagingPool}
use pcie_pool.StagingPool.Slots.{is_blank, from_request}

-- `_new_slot_id`
unfoldable pub new_slot_id : Option String → WorkerStagingPool → WorkerStagingPool × Result String
unfolding is_blank show_ℕ
new_slot_id (some id) pool =
    (pool, (raise_if (is_blank id) (pool_error "slot id factory returned an empty id") >> ok id))
new_slot_id none pool = (
  record pool { next_slot_id = suc pool.next_slot_id },
  ok ("staging-" ^^ show_ℕ pool.next_slot_id),
)

-- `allocate`
unfoldable pub allocate :
    Option String
    → WorkerDataPlaneRequest
    → WorkerStagingPool
    → WorkerStagingPool × Result WorkerStagingSlot
unfolding new_slot_id from_request contains insert
allocate factory request pool =
    let (next, made) = new_slot_id factory pool in
    elim made [
      | err e ↦ (next, err e)
      | ok slot_id ↦
          if contains slot_id next.slots
          then (next, err (pool_error "staging slot id already exists"))
          else elim (from_request request slot_id) [
            | err e ↦ (next, err e)
            | ok slot ↦ (record next { slots = insert slot.slot_id slot next.slots }, ok slot)
          ]
    ]

-- `validate_slot_for_request`
unfoldable pub validate_slot_for_request :
    String → WorkerDataPlaneRequest → WorkerStagingPool → Result WorkerStagingSlot
unfolding lookup str_eq
validate_slot_for_request slot_id request pool = elim (lookup slot_id pool.slots) [
  | none ↦ err (pool_error "unknown staging slot")
  | some slot ↦ do
    raise_if (not (str_eq slot.transfer_id request.transfer_id))
        (pool_error "staging slot transfer mismatch")
    raise_if (not (str_eq slot.lease_id request.lease_id))
        (pool_error "staging slot lease mismatch")
    raise_if (not (str_eq slot.session_id request.session_id))
        (pool_error "staging slot session mismatch")
    raise_if (not (str_eq slot.job_id request.job_id)) (pool_error "staging slot job mismatch")
    raise_if (not (slot.relay_gpu == request.relay_gpu)) (pool_error "staging slot relay mismatch")
    ok slot
]

-- The test of `release` where it is given a request.
unfoldable pub release_check :
    String → Option WorkerDataPlaneRequest → WorkerStagingPool → Result (Unit {0})
unfolding validate_slot_for_request
release_check slot_id none pool = ok tt
release_check slot_id (some request) pool =
    validate_slot_for_request slot_id request pool >>= λ _. ok tt

-- `release`
unfoldable pub release :
    String
    → Option WorkerDataPlaneRequest
    → WorkerStagingPool
    → WorkerStagingPool × Result WorkerStagingSlot
unfolding release_check lookup erase
release slot_id request pool = elim (release_check slot_id request pool) [
  | err e ↦ (pool, err e)
  | ok _ ↦ elim (lookup slot_id pool.slots) [
    | none ↦ (pool, err (pool_error "unknown staging slot"))
    | some slot ↦
        (record pool { slots = erase slot_id pool.slots }, ok (record slot { active = false }))
  ]
]

-- `describe` of one slot.
unfoldable pub describe : String → WorkerStagingPool → Result WorkerStagingSlot
unfolding lookup
describe slot_id pool = elim (lookup slot_id pool.slots) [
  | none ↦ err (pool_error "unknown staging slot")
  | some slot ↦ ok slot
]
