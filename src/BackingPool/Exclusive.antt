-- ===== src/BackingPool/Exclusive.antt =====
-- No buffer of the pool (turbobus/adapters/vllm_backing_pool.py) is in two places.
use text.Mathlib.TextLemmas.{append_cancel_left}
use pcie_pool.Common.{
  ℕ, zero, suc, ◌+◌, ◌≤◌, ◌≡◌, refl, sym, ap, subst, ◌∙◌, ◌⊎◌, inl, inr, List, [], ◌∷◌, ◌++◌,
  Option, some, Bool, false, String, arith, sum_by, sum_by-append, get_elem?, Result, ok, err,
  Result-cases, Option-cases, Bool-cases,
}
use pcie_pool.Common.Int.{ℤ}
use pcie_pool.Common.Text.{show_ℕ-injective}
use pcie_pool.Common.Dict.{contains-found, lookup, contains}
use pcie_pool.Quota.Sums.{weigh, weigh-insert, weigh-modify}
use pcie_pool.BackingPool.{KvCache, Backing, TurboBusCpuBackingPool, Allocator}
use pcie_pool.BackingPool.Signatures.{backing_signature, signature_eq}
use pcie_pool.BackingPool.Pool.{split_last, allocate_for_pool, acquire, release}
use pcie_pool.BackingPool.Clients.{
  Held, System, acquired, released, remove_at, holding, given_back, Reachable, Releasing, starts,
  acquires, releases, releases_for, released_for, times, times_free, times_held, occurrences,
  empty_pool,
}
use pcie_pool.BackingPool.Fresh.{IsNew, Advanced, Allocates, allocate_layers-Allocates}
use pcie_pool.BackingPool.Pool.{tagged}

sum_by-split_last {ℓ} :
    {A : Type ℓ} (w : A → ℕ) (x : A) (xs : List A)
    → let (front, last) = split_last x xs in sum_by w front + w last ≡ w x + sum_by w xs
unfolding split_last
sum_by-split_last w x [] = omega arith
sum_by-split_last w x (y ∷ ys) = omega (arith, sum_by-split_last w y ys)

sum_by-remove_at {ℓ} :
    {A : Type ℓ} (w : A → ℕ) (i : ℕ) (a : A) (xs : List A)
    → get_elem? xs i ≡ some a
    → sum_by w (remove_at i xs) + w a ≡ sum_by w xs
sum_by-remove_at w i a [] h = absurd (ground arith)
sum_by-remove_at w zero a (x ∷ xs) h = ground arith
sum_by-remove_at w (suc i) a (x ∷ xs) h = ground (arith, sum_by-remove_at w i a xs)

IsNew-later :
    (prefix : String) (mid to : ℕ) (id : String) (a b : ℕ)
    → mid ≤ to
    → IsNew prefix 0 mid id a
    → IsNew prefix mid to id b
    → IsNew prefix 0 to id (a + b)
IsNew-later prefix mid to id a b below (inl old) (inl new) = inl (omega (arith, old, new))
IsNew-later prefix mid to id a b below (inl old) (inr (n, named, from, up, once)) =
    inr (n, named, omega arith, up, omega (arith, old, once))
IsNew-later prefix mid to id a b below (inr (n, named, from, up, once)) (inl new) =
    inr (n, named, from, omega arith, omega (arith, new, once))
IsNew-later prefix mid to id a b below (inr (n, named, from, up, once))
      (inr (m, other, low, high, twice)) =
    let number : n ≡ m =
      show_ℕ-injective n m
        (append_cancel_left "-" _ _ (append_cancel_left prefix _ _ (sym named ∙ other))) in
    absurd (omega (arith, number))

IsNew-more :
    (prefix : String) (mid to : ℕ) (id : String) (a b : ℕ)
    → mid ≤ to
    → b ≡ a
    → IsNew prefix 0 mid id a
    → IsNew prefix 0 to id b
IsNew-more prefix mid to id a b below same (inl old) = inl (omega (arith, same, old))
IsNew-more prefix mid to id a b below same (inr (n, named, from, up, once)) =
    inr (n, named, from, omega arith, omega (arith, same, once))

-- What `acquire` does with the buffers of one id: it moves them from the free groups to the client,
-- or makes new ones.
abbrev Acquires :
    String → TurboBusCpuBackingPool → TurboBusCpuBackingPool × Result (List Backing × Bool) → Type 0
Acquires id pool (after, err e) = Advanced pool after
Acquires id pool (after, ok group) =
    (after.buffer_id_prefix ≡ pool.buffer_id_prefix)
    × (pool.next_buffer_id ≤ after.next_buffer_id)
    × ((times_free id after + times id group.0 ≡ times_free id pool)
        ⊎ ((after.free_by_shape ≡ pool.free_by_shape)
            × IsNew pool.buffer_id_prefix pool.next_buffer_id after.next_buffer_id id
                (times id group.0)))

tagged-Acquires :
    (id : String) (pool : TurboBusCpuBackingPool)
    (r : TurboBusCpuBackingPool × Result (List Backing))
    → Allocates pool r
    → Acquires id pool (r.0, tagged false r.1)
tagged-Acquires id pool (after, err e) h = h
tagged-Acquires id pool (after, ok backings) h = (h.0.0, h.0.1, inr (h.0.2, h.1 id))

acquire-Acquires :
    (allocator : Allocator) (block_count : ℤ) (kv_caches : List KvCache)
    (pool : TurboBusCpuBackingPool) (id : String)
    → Acquires id pool (acquire allocator block_count kv_caches pool)
unfolding acquire allocate_for_pool
acquire-Acquires allocator block_count kv_caches pool id =
    elim (Result-cases (backing_signature block_count kv_caches)) [
      | inr (e, raised) ↦ rw (raised, acquire) (refl, omega arith, refl)
      | inl (signature, shaped) ↦ elim (Option-cases (lookup signature pool.free_by_shape)) [
        | inl absent ↦ rw (shaped, acquire, absent) made
        | inr ([], empty) ↦ rw (shaped, acquire, empty) made
        | inr ((group ∷ groups), free) ↦
            let split = split_last group groups in
            rw (shaped, acquire, free)
              (
                refl,
                omega arith,
                inl (
                    omega (
                      arith,
                      weigh-modify (sum_by (times id)) signature (group ∷ groups) (λ _. split.0)
                          pool.free_by_shape free,
                      sum_by-split_last (times id) group groups,
                    )),
              )
      ]
    ]
  where
    made : Acquires id pool (
      (allocate_for_pool allocator block_count kv_caches pool).0,
      tagged false (allocate_for_pool allocator block_count kv_caches pool).1,
    )
    made =
        tagged-Acquires id pool (allocate_for_pool allocator block_count kv_caches pool)
          (allocate_layers-Allocates allocator _ kv_caches pool)

-- The invariant for the buffers of one id.
abbrev IsOnce : String → String → System → Type 0
IsOnce prefix id s =
    (s.pool.buffer_id_prefix ≡ prefix) × IsNew prefix 0 s.pool.next_buffer_id id (occurrences id s)

acquired-IsOnce :
    (prefix id : String) (allocator : Allocator) (block_count : ℤ) (kv_caches : List KvCache)
    (s : System)
    → IsOnce prefix id s
    → IsOnce prefix id (acquired allocator block_count kv_caches s)
unfolding acquired
acquired-IsOnce prefix id allocator block_count kv_caches s h =
    after_acquire (acquire allocator block_count kv_caches s.pool)
      (acquire-Acquires allocator block_count kv_caches s.pool id)
  where
    after_acquire :
        (r : TurboBusCpuBackingPool × Result (List Backing × Bool))
        → Acquires id s.pool r
        → IsOnce prefix id (holding block_count kv_caches s r)
    after_acquire (after, err e) a = (
      a.0 ∙ h.0,
      IsNew-more prefix s.pool.next_buffer_id after.next_buffer_id id (occurrences id s) _ a.1
          (ap (λ free. weigh (sum_by (times id)) free + times_held id s.held) a.2) h.1,
    )
    after_acquire (after, ok group) (kept, later, inl moved) = (
      kept ∙ h.0,
      IsNew-more prefix s.pool.next_buffer_id after.next_buffer_id id (occurrences id s) _ later
          (omega (arith, moved)) h.1,
    )
    after_acquire (after, ok group) (kept, later, inr (free, new)) = (
      kept ∙ h.0,
      IsNew-more prefix after.next_buffer_id after.next_buffer_id id
          (occurrences id s + times id group.0) _ (omega arith)
          (omega (arith, ap (weigh (sum_by (times id))) free))
          (IsNew-later prefix s.pool.next_buffer_id after.next_buffer_id id (occurrences id s)
            (times id group.0) later h.1
            (subst (λ p. IsNew p s.pool.next_buffer_id after.next_buffer_id id (times id group.0))
              h.0 new)),
    )

-- `release` moves the buffers of one id to the free groups.
abbrev Releases :
    String → List Backing → TurboBusCpuBackingPool → TurboBusCpuBackingPool × Result ℕ → Type 0
Releases id backings pool (after, err e) = after ≡ pool
Releases id backings pool (after, ok count) =
    (after.buffer_id_prefix ≡ pool.buffer_id_prefix)
    × (after.next_buffer_id ≡ pool.next_buffer_id)
    × (times_free id after ≡ times_free id pool + times id backings)

release-Releases :
    (block_count : ℤ) (kv_caches : List KvCache) (backings : List Backing)
    (pool : TurboBusCpuBackingPool) (id : String)
    → Releases id backings pool (release block_count kv_caches backings pool)
unfolding release contains
release-Releases block_count kv_caches backings pool id =
    elim (Result-cases (backing_signature block_count kv_caches)) [
      | inr (e, raised) ↦ rw (raised, release) refl
      | inl (signature, shaped) ↦ elim (Bool-cases (contains signature pool.free_by_shape)) [
        | inr new ↦
            rw (shaped, release, new)
              (
                refl,
                refl,
                omega (
                  arith,
                  weigh-insert (sum_by (times id)) signature (backings ∷ []) pool.free_by_shape new,
                ),
              )
        | inl known ↦
            let here = contains-found signature pool.free_by_shape known in
            rw (shaped, release, known)
              (
                refl,
                refl,
                omega (
                  arith,
                  weigh-modify (sum_by (times id)) signature here.0
                      (λ groups. groups ++ (backings ∷ [])) pool.free_by_shape here.1,
                  sum_by-append (times id) here.0 (backings ∷ []),
                ),
              )
      ]
    ]

module _ (prefix id : String) (i : ℕ) (s : System) where
  given_back-IsOnce :
      (given : Held) (here : get_elem? s.held i ≡ some given)
      (r : TurboBusCpuBackingPool × Result ℕ)
      → IsOnce prefix id s
      → Releases id given.backings s.pool r
      → IsOnce prefix id (given_back i s r)
  given_back-IsOnce given here (after, err e) h same = rw same h
  given_back-IsOnce given here (after, ok count) h (kept, next, moved) = (
    kept ∙ h.0,
    IsNew-more prefix s.pool.next_buffer_id after.next_buffer_id id (occurrences id s) _
        (omega (arith, next))
        (omega
          (arith, moved, sum_by-remove_at (λ (x : Held). times id x.backings) i given s.held here))
        h.1,
  )

  released-IsOnce : IsOnce prefix id s → IsOnce prefix id (released i s)
  unfolding released
  released-IsOnce h = elim (Option-cases (get_elem? s.held i)) [
    | inl absent ↦ rw (absent, released) h
    | inr (given, here) ↦
        rw (here, released)
          (given_back-IsOnce given here
            (release given.block_count given.kv_caches given.backings s.pool) h
            (release-Releases given.block_count given.kv_caches given.backings s.pool id))
  ]

  released_for-IsOnce :
      (block_count : ℤ) (kv_caches : List KvCache)
      → IsOnce prefix id s
      → IsOnce prefix id (released_for block_count kv_caches i s)
  unfolding released_for
  released_for-IsOnce block_count kv_caches h = elim (Option-cases (get_elem? s.held i)) [
    | inl absent ↦ rw (absent, released_for) h
    | inr (given, here) ↦
        rw (here, released_for)
          (given_back-IsOnce given here (release block_count kv_caches given.backings s.pool) h
            (release-Releases block_count kv_caches given.backings s.pool id))
  ]

-- In every system that clients lead to which give back groups that they hold, for whatever layers, and
-- however the allocations end, no buffer is in two places: a buffer id occurs at most once in all the free groups and all the groups that
-- clients hold.
pub Reachable-occurrences :
    (releasing : Releasing) (job_id : Option String) (prefix : String) (s : System) (id : String)
    → Reachable releasing job_id prefix s
    → occurrences id s ≤ 1
unfolding empty_pool
Reachable-occurrences releasing job_id prefix s id r = elim (reached s r).1 [
  | inl unused ↦ omega (arith, unused)
  | inr (n, named, from, up, once) ↦ omega (arith, once)
]
  where
    reached : (t : System) → Reachable releasing job_id prefix t → IsOnce prefix id t
    reached _ starts = (refl, inl refl)
    reached _ (acquires allocator block_count kv_caches t q) =
        acquired-IsOnce prefix id allocator block_count kv_caches t (reached t q)
    reached _ (releases i t q) = released-IsOnce prefix id i t (reached t q)
    reached _ (releases_for block_count kv_caches i t any q) =
        released_for-IsOnce prefix id i t block_count kv_caches (reached t q)
