-- ===== src/StagingPool/Ids.antt =====
-- A `WorkerStagingPool` without a factory never gives out an id that is in use.
use pcie_pool.Common.{
  ℕ, suc, ◌<◌, ◌≡◌, refl, sym, ◌∙◌, inl, inr, [], ◌∷◌, Option, none, false, String, arith, All,
  All-map_to, Bool-cases, Option-cases, Result-cases,
}
use pcie_pool.Common.Text.{◌^^◌, show_ℕ, show_ℕ-injective}
use pcie_pool.Common.Dict.{Dict, lookup, insert, erase, contains, string_eq}
use pcie_pool.StagingPool.{WorkerDataPlaneRequest, WorkerStagingSlot, WorkerStagingPool}
use pcie_pool.StagingPool.Slots.{slot_for, from_request, from_request-slot_for}
use pcie_pool.StagingPool.Pool.{new_slot_id, allocate, release_check, release}
use text.Mathlib.TextLemmas.{append_cancel_left}

-- `WorkerStagingPool()`
abbrev pub empty_pool : WorkerStagingPool
empty_pool = record { next_slot_id = 1; slots = [] }

-- The pools that calls of `allocate` and `release` lead to.
pub data Reachable : WorkerStagingPool → Type 0 where
  starts : Reachable empty_pool
  allocates :
      (pool : WorkerStagingPool) (request : WorkerDataPlaneRequest)
      → Reachable pool
      → Reachable (allocate none request pool).0
  releases :
      (pool : WorkerStagingPool) (id : String) (request : Option WorkerDataPlaneRequest)
      → Reachable pool
      → Reachable (release id request pool).0

-- The ids that are in use have numbers below the next one.
IsUsed : ℕ → String × WorkerStagingSlot → Type 0
IsUsed n p = (k : ℕ) × (k < n) × (p.0 ≡ "staging-" ^^ show_ℕ k)

AreUsed : ℕ → Dict String WorkerStagingSlot → Type 0
unfolding IsUsed
AreUsed n d = All (IsUsed n) d

unused :
    (n : ℕ) (d : Dict String WorkerStagingSlot)
    → AreUsed n d
    → contains ("staging-" ^^ show_ℕ n) d ≡ false
unfolding AreUsed contains
unused n [] h = refl
unused n ((id, slot) ∷ d) ((k, below, e), h) =
    elim (Bool-cases (string_eq.beq id ("staging-" ^^ show_ℕ n))) [
      | inr other ↦ rw other (unused n d h)
      | inl same ↦
          let shown : show_ℕ k ≡ show_ℕ n =
            append_cancel_left "staging-" _ _ (sym e ∙ (string_eq.beq_iff _ _).0 same) in
          absurd (omega (arith, show_ℕ-injective k n shown))
    ]

AreUsed-suc : (n : ℕ) (d : Dict String WorkerStagingSlot) → AreUsed n d → AreUsed (suc n) d
unfolding AreUsed
AreUsed-suc n d h = All-map_to (IsUsed n) (IsUsed (suc n)) (λ p u. (u.0, omega arith, u.2)) d h

insert-AreUsed :
    (n : ℕ) (id : String) (slot : WorkerStagingSlot) (d : Dict String WorkerStagingSlot)
    → id ≡ "staging-" ^^ show_ℕ n
    → AreUsed n d
    → AreUsed (suc n) (insert id slot d)
unfolding AreUsed insert
insert-AreUsed n id slot [] e h = ((n, omega arith, e), tt)
insert-AreUsed n id slot ((j, other) ∷ d) e ((k, below, old), h) =
    elim (Bool-cases (string_eq.beq j id)) [
      | inl same ↦ rw same ((k, omega arith, old), AreUsed-suc n d h)
      | inr different ↦ rw different ((k, omega arith, old), insert-AreUsed n id slot d e h)
    ]

erase-AreUsed :
    (n : ℕ) (id : String) (d : Dict String WorkerStagingSlot) → AreUsed n d → AreUsed n (erase id d)
unfolding AreUsed erase
erase-AreUsed n id [] h = tt
erase-AreUsed n id ((j, slot) ∷ d) (u, h) = elim (Bool-cases (string_eq.beq j id)) [
  | inl same ↦ rw same h
  | inr different ↦ rw different (u, erase-AreUsed n id d h)
]

-- What `allocate` does where the next id is not in use.
allocate-unused :
    (request : WorkerDataPlaneRequest) (pool : WorkerStagingPool)
    → AreUsed pool.next_slot_id pool.slots
    → let out = allocate none request pool in
      (out.1 ≡ from_request request ("staging-" ^^ show_ℕ pool.next_slot_id))
      × AreUsed out.0.next_slot_id out.0.slots
unfolding allocate new_slot_id slot_for
allocate-unused request pool h =
    let id = "staging-" ^^ show_ℕ pool.next_slot_id in
    let fresh = unused pool.next_slot_id pool.slots h in
    elim (Result-cases (from_request request id)) [
      | inr (x, refused) ↦
          rw (fresh, allocate, refused) (refl, AreUsed-suc pool.next_slot_id pool.slots h)
      | inl (s, built) ↦
          let names : s.slot_id ≡ id = rw (from_request-slot_for request id s built) refl in
          rw (fresh, allocate, built)
            (refl, insert-AreUsed pool.next_slot_id s.slot_id s pool.slots names h)
    ]

release-AreUsed :
    (id : String) (request : Option WorkerDataPlaneRequest) (pool : WorkerStagingPool)
    → AreUsed pool.next_slot_id pool.slots
    → AreUsed (release id request pool).0.next_slot_id (release id request pool).0.slots
unfolding release
release-AreUsed id request pool h = elim (Result-cases (release_check id request pool)) [
  | inr (x, refused) ↦ rw (refused, release) h
  | inl (_, passed) ↦ elim (Option-cases (lookup id pool.slots)) [
    | inl missing ↦ rw (passed, release, missing) h
    | inr (slot, found) ↦
        rw (passed, release, found) (erase-AreUsed pool.next_slot_id id pool.slots h)
  ]
]

Reachable-AreUsed :
    (pool : WorkerStagingPool) → Reachable pool → AreUsed pool.next_slot_id pool.slots
unfolding AreUsed
Reachable-AreUsed _ starts = tt
Reachable-AreUsed _ (allocates pool request r) =
    (allocate-unused request pool (Reachable-AreUsed pool r)).1
Reachable-AreUsed _ (releases pool id request r) =
    release-AreUsed id request pool (Reachable-AreUsed pool r)

-- However a pool without a factory has been used, `allocate` never fails for an id that is in use:
-- it succeeds or fails as the slot of the request does, under the next number.
pub allocate-no_clash :
    (request : WorkerDataPlaneRequest) (pool : WorkerStagingPool)
    → Reachable pool
    → (allocate none request pool).1 ≡ from_request request ("staging-" ^^ show_ℕ pool.next_slot_id)
allocate-no_clash request pool r = (allocate-unused request pool (Reachable-AreUsed pool r)).0
