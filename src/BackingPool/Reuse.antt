-- ===== src/BackingPool/Reuse.antt =====
-- A group that is released to the pool of turbobus/adapters/vllm_backing_pool.py is the next one that
-- is acquired for such layers.
use pcie_pool.Common.{
  ◌+◌, ◌≡◌, refl, ap, sym, subst, ◌∙◌, length-append, inl, inr, List, [], ◌∷◌, ◌++◌, Option, none,
  some, true, false, arith, length, ok, Bool-cases,
}
use pcie_pool.Common.Int.{ℤ}
use pcie_pool.Common.Dict.{contains-found, lookup, modify, contains, lookup-insert, contains-lookup}
use pcie_pool.Quota.Sums.{lookup-modify}
use pcie_pool.BackingPool.{KvCache, Backing, Signature, TurboBusCpuBackingPool, Allocator}
use pcie_pool.BackingPool.Signatures.{backing_signature, signature_eq}
use pcie_pool.BackingPool.Pool.{split_last, free_groups, acquire, release}

split_last-append {ℓ} :
    {A : Type ℓ} (x : A) (xs : List A) (last : A)
    → split_last x (xs ++ (last ∷ [])) ≡ (x ∷ xs, last)
unfolding split_last
split_last-append x [] last = refl
split_last-append x (y ∷ ys) last = rw (split_last-append y ys last, split_last) refl

self_same : (signature : Signature) → signature_eq.beq signature signature ≡ true
self_same signature = (signature_eq.beq_iff signature signature).1 refl

-- The free groups of a signature are what the table holds under it.
groups_in : Option (List (List Backing)) → List (List Backing)
groups_in none = []
groups_in (some groups) = groups

free_groups-groups_in :
    (signature : Signature) (pool : TurboBusCpuBackingPool)
    → free_groups signature pool ≡ groups_in (lookup signature pool.free_by_shape)
unfolding groups_in
free_groups-groups_in signature pool = ground arith

-- The groups of a signature after a release of one of them.
release-free_groups :
    (block_count : ℤ) (kv_caches : List KvCache) (backings : List Backing)
    (pool : TurboBusCpuBackingPool) (signature : Signature)
    → backing_signature block_count kv_caches ≡ ok signature
    → lookup signature (release block_count kv_caches backings pool).0.free_by_shape
      ≡ some (free_groups signature pool ++ (backings ∷ []))
unfolding release groups_in
release-free_groups block_count kv_caches backings pool signature shaped =
    elim (Bool-cases (contains signature pool.free_by_shape)) [
      | inr new ↦
          rw
            (
              shaped,
              release,
              new,
              lookup-insert signature signature (backings ∷ []) pool.free_by_shape,
              self_same signature,
              free_groups-groups_in signature pool,
              groups_in,
              contains-lookup signature pool.free_by_shape new,
            )
            refl
      | inl known ↦
          let here = contains-found signature pool.free_by_shape known in
          rw
            (
              shaped,
              release,
              known,
              lookup-modify signature signature (λ groups. groups ++ (backings ∷ []))
                  pool.free_by_shape,
              self_same signature,
              free_groups-groups_in signature pool,
              groups_in,
              here.1,
            )
            refl
    ]

-- `release` reports the number of free groups after it.
release-count :
    (block_count : ℤ) (kv_caches : List KvCache) (backings : List Backing)
    (pool : TurboBusCpuBackingPool) (signature : Signature)
    → backing_signature block_count kv_caches ≡ ok signature
    → (release block_count kv_caches backings pool).1
      ≡ ok (length (free_groups signature (release block_count kv_caches backings pool).0))
unfolding release
release-count block_count kv_caches backings pool signature shaped = rw (shaped, release) refl

take_last :
    (allocator : Allocator) (block_count : ℤ) (kv_caches : List KvCache)
    (pool : TurboBusCpuBackingPool) (signature : Signature) (groups : List (List Backing))
    (last : List Backing)
    → backing_signature block_count kv_caches ≡ ok signature
    → lookup signature pool.free_by_shape ≡ some (groups ++ (last ∷ []))
    → acquire allocator block_count kv_caches pool ≡ (
      record pool { free_by_shape = modify signature (λ _. groups) pool.free_by_shape },
      ok (last, true),
    )
unfolding acquire split_last
take_last allocator block_count kv_caches pool signature [] last shaped here =
    rw (shaped, acquire, here) refl
take_last allocator block_count kv_caches pool signature (g ∷ groups) last shaped here =
    rw (shaped, acquire, here, split_last-append g groups last) refl

-- A release leaves the groups of the other signatures alone.
release-other :
    (block_count : ℤ) (kv_caches : List KvCache) (backings : List Backing)
    (pool : TurboBusCpuBackingPool) (signature other : Signature)
    → backing_signature block_count kv_caches ≡ ok signature
    → signature_eq.beq signature other ≡ false
    → lookup other (release block_count kv_caches backings pool).0.free_by_shape
      ≡ lookup other pool.free_by_shape
unfolding release
release-other block_count kv_caches backings pool signature other shaped apart =
    elim (Bool-cases (contains signature pool.free_by_shape)) [
      | inr new ↦
          rw
            (
              shaped,
              release,
              new,
              lookup-insert signature other (backings ∷ []) pool.free_by_shape,
              apart,
            )
            refl
      | inl known ↦
          rw
            (
              shaped,
              release,
              known,
              lookup-modify signature other (λ groups. groups ++ (backings ∷ []))
                  pool.free_by_shape,
              apart,
            )
            refl
    ]

-- After a release, the next `acquire` for the same layers gives back the same group, as a reused one
-- and whatever the allocator would do; the free groups of every signature are then what they were
-- before the release.
pub acquire-release :
    (allocator : Allocator) (block_count : ℤ) (kv_caches : List KvCache) (backings : List Backing)
    (pool : TurboBusCpuBackingPool) (signature any : Signature)
    → backing_signature block_count kv_caches ≡ ok signature
    → let given = (release block_count kv_caches backings pool).0 in
      let taken = acquire allocator block_count kv_caches given in
      (taken.1 ≡ ok (backings, true))
      × (free_groups any taken.0 ≡ free_groups any pool)
      × (taken.0.next_buffer_id ≡ given.next_buffer_id)
      × ((release block_count kv_caches backings pool).1
          ≡ ok (length (free_groups signature pool) + 1))
unfolding groups_in
acquire-release allocator block_count kv_caches backings pool signature any shaped =
    let given = (release block_count kv_caches backings pool).0 in
    let groups = free_groups signature pool in
    let here = release-free_groups block_count kv_caches backings pool signature shaped in
    let left : TurboBusCpuBackingPool = record given {
      free_by_shape = modify signature (λ _. groups) given.free_by_shape;
    } in
    let looked = lookup-modify signature any (λ _. groups) given.free_by_shape in
    let kept : free_groups any left ≡ free_groups any pool =
      elim (Bool-cases (signature_eq.beq signature any)) [
        | inr apart ↦
            let other =
              release-other block_count kv_caches backings pool signature any shaped apart in
            let same_groups : lookup any left.free_by_shape ≡ lookup any pool.free_by_shape =
              looked ∙ rw apart other in
            free_groups-groups_in any left
            ∙ ap groups_in same_groups
            ∙ sym (free_groups-groups_in any pool)
        | inl same ↦
            let equal = (signature_eq.beq_iff signature any).0 same in
            let there : lookup any given.free_by_shape ≡ some (groups ++ (backings ∷ [])) =
              subst (λ x. lookup x given.free_by_shape ≡ some (groups ++ (backings ∷ []))) equal
                here in
            let groups_left : lookup any left.free_by_shape ≡ some groups =
              looked ∙ rw (same, there) refl in
            free_groups-groups_in any left
            ∙ ap groups_in groups_left
            ∙ ap (λ x. free_groups x pool) equal
      ] in
    rw (take_last allocator block_count kv_caches given signature groups backings shaped here) (
      refl,
      kept,
      refl,
      release-count block_count kv_caches backings pool signature shaped
          ∙ ap (λ (gs : List (List Backing)). ok (length gs))
              (free_groups-groups_in signature given ∙ ap groups_in here)
          ∙ ap (λ n. ok n) (length-append groups (backings ∷ [])),
    )
