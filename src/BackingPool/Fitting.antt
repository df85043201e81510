-- ===== src/BackingPool/Fitting.antt =====
-- The sizes of the buffers that the pool of turbobus/adapters/vllm_backing_pool.py gives out.
use pcie_pool.Common.{
  ℕ, zero, suc, ◌*◌, ◌≡◌, refl, sym, ap, subst, ◌∙◌, inl, inr, List, [], ◌∷◌, ◌++◌, Option, some,
  String, Bool, false, arith, All, All-append, map, get_elem?, Result, ok, err, ◌>>=◌, Result-cases,
  Option-cases, Bool-cases,
}
use pcie_pool.Common.Int.{ℤ}
use pcie_pool.Common.Dict.{lookup, contains}
use pcie_pool.Common.Entries.{All-insert, All-modify_at, All-lookup}
use pcie_pool.BackingPool.{KvCache, Backing, Signature, TurboBusCpuBackingPool, Allocator}
use pcie_pool.BackingPool.Signatures.{
  block_bytes_from_vllm_kv_tensor, slots_per_layer, layer_entries, backing_signature, signature_eq,
}
use pcie_pool.BackingPool.Pool.{
  split_last, counted, next_id, allocate_layers, allocate_for_pool, tagged, acquire, release,
}
use pcie_pool.BackingPool.Clients.{
  Held, System, acquired, released, remove_at, holding, given_back, Reachable, starts, acquires,
  releases, releases_for, own_layers, empty_pool,
}

-- The bytes that the layers of a signature need, and those of a group.
abbrev pub areas : Signature → List ℕ
areas signature = map (λ p. p.0 * p.1) signature

abbrev pub sizes : List Backing → List ℕ
sizes backings = map (λ (b : Backing). b.size_bytes) backings

abbrev Fits : Signature → List Backing → Type 0
Fits signature backings = sizes backings ≡ areas signature

abbrev FreeFits : Signature × List (List Backing) → Type 0
FreeFits entry = All (Fits entry.0) entry.1

-- A group that fits what it was acquired for.
abbrev pub FitsLayers : ℤ → List KvCache → List Backing → Type 0
FitsLayers block_count kv_caches backings =
    (signature : Signature) × (backing_signature block_count kv_caches ≡ ok signature)
    × (sizes backings ≡ areas signature)

abbrev HeldFits : Held → Type 0
HeldFits h = FitsLayers h.block_count h.kv_caches h.backings

abbrev IsFitting : System → Type 0
IsFitting s = All FreeFits s.pool.free_by_shape × All HeldFits s.held

module _ {ℓ κ} {A : Type ℓ} (P : A → Type κ) where
  All-split_last :
      (x : A) (xs : List A) → All P (x ∷ xs) → All P (split_last x xs).0 × P (split_last x xs).1
  unfolding split_last
  All-split_last x [] h = (tt, h.0)
  All-split_last x (y ∷ ys) h = let rest = All-split_last y ys h.1 in ((h.0, rest.0), rest.1)

  All-remove_at : (i : ℕ) (xs : List A) → All P xs → All P (remove_at i xs)
  All-remove_at i [] h = tt
  All-remove_at zero (x ∷ xs) h = h.1
  All-remove_at (suc i) (x ∷ xs) h = (h.0, All-remove_at i xs h.1)

  All-get_elem? : (i : ℕ) (xs : List A) (a : A) → get_elem? xs i ≡ some a → All P xs → P a
  All-get_elem? i [] a here h = absurd (ground arith)
  All-get_elem? zero (x ∷ xs) a here h = ground (arith, here)
  All-get_elem? (suc i) (x ∷ xs) a here h = All-get_elem? i xs a here h.1

-- A group that is made fits the signature, and the free groups stay as they are.
abbrev Made :
    Signature → TurboBusCpuBackingPool → TurboBusCpuBackingPool × Result (List Backing) → Type 0
Made signature pool (after, err e) = after.free_by_shape ≡ pool.free_by_shape
Made signature pool (after, ok backings) =
    (after.free_by_shape ≡ pool.free_by_shape) × Fits signature backings

counted-free : (pool : TurboBusCpuBackingPool) → (counted pool).free_by_shape ≡ pool.free_by_shape
counted-free pool = ground arith

rest-Made :
    (pool : TurboBusCpuBackingPool) (slots bytes : ℕ) (signature : Signature)
    (r : TurboBusCpuBackingPool × Result (List Backing))
    → Made signature (counted pool) r
    → Made ((slots, bytes) ∷ signature) pool (
      r.0,
      do
        backings ← r.1
        ok (record { buffer_id = next_id pool; size_bytes = slots * bytes } ∷ backings),
    )
rest-Made pool slots bytes signature (after, err e) h = h ∙ counted-free pool
rest-Made pool slots bytes signature (after, ok backings) h =
    (h.0 ∙ counted-free pool, ap (λ rest. slots * bytes ∷ rest) h.1)

allocate_layers-Made :
    (allocator : Allocator) (slots : ℕ) (kv_caches : List KvCache) (pool : TurboBusCpuBackingPool)
    (signature : Signature)
    → layer_entries slots kv_caches ≡ ok signature
    → Made signature pool (allocate_layers allocator slots kv_caches pool)
unfolding allocate_layers layer_entries
allocate_layers-Made allocator slots [] pool [] e = (refl, refl)
allocate_layers-Made allocator slots [] pool (p ∷ signature) e = absurd (ground arith)
allocate_layers-Made allocator slots (kv_cache ∷ kv_caches) pool signature e =
    elim (Result-cases (block_bytes_from_vllm_kv_tensor kv_cache)) [
      | inr (failure, raised) ↦ rw (raised, allocate_layers) refl
      | inl (bytes, sized) ↦ elim (Result-cases (layer_entries slots kv_caches)) [
        | inr (failure, raised) ↦ absurd (ground (arith, sized, raised, e))
        | inl (rest, others) ↦
            let whole : (slots, bytes) ∷ rest ≡ signature = ground (arith, sized, others, e) in
            elim (Result-cases (allocator (next_id pool) (slots * bytes))) [
              | inr (failure, refused) ↦ rw (sized, allocate_layers, refused) (counted-free pool)
              | inl (done, made) ↦
                  rw (← whole, sized, allocate_layers, made)
                    (rest-Made pool slots bytes rest
                      (allocate_layers allocator slots kv_caches (counted pool))
                      (allocate_layers-Made allocator slots kv_caches (counted pool) rest others))
            ]
      ]
    ]

abbrev Acquired : Signature → TurboBusCpuBackingPool × Result (List Backing × Bool) → Type 0
Acquired signature (after, err e) = All FreeFits after.free_by_shape
Acquired signature (after, ok group) = All FreeFits after.free_by_shape × Fits signature group.0

tagged-Acquired :
    (signature : Signature) (pool : TurboBusCpuBackingPool)
    (r : TurboBusCpuBackingPool × Result (List Backing))
    → All FreeFits pool.free_by_shape
    → Made signature pool r
    → Acquired signature (r.0, tagged false r.1)
tagged-Acquired signature pool (after, err e) free h = rw h free
tagged-Acquired signature pool (after, ok backings) free h = (rw h.0 free, h.1)

acquire-Acquired :
    (allocator : Allocator) (block_count : ℤ) (kv_caches : List KvCache)
    (pool : TurboBusCpuBackingPool) (signature : Signature)
    → backing_signature block_count kv_caches ≡ ok signature
    → All FreeFits pool.free_by_shape
    → Acquired signature (acquire allocator block_count kv_caches pool)
unfolding acquire allocate_for_pool backing_signature
acquire-Acquired allocator block_count kv_caches pool signature shaped free =
    elim (Option-cases (lookup signature pool.free_by_shape)) [
      | inl absent ↦ rw (shaped, acquire, absent) made
      | inr ([], empty) ↦ rw (shaped, acquire, empty) made
      | inr ((group ∷ groups), here) ↦
          let split =
            All-split_last (Fits signature) group groups
              (All-lookup FreeFits signature (group ∷ groups) pool.free_by_shape here free) in
          rw (shaped, acquire, here)
            (
              All-modify_at FreeFits signature (λ _. (split_last group groups).0) pool.free_by_shape
                  (λ v _. split.0) free,
              split.1,
            )
    ]
  where
    made : Acquired signature (
      (allocate_for_pool allocator block_count kv_caches pool).0,
      tagged false (allocate_for_pool allocator block_count kv_caches pool).1,
    )
    made =
        tagged-Acquired signature pool (allocate_for_pool allocator block_count kv_caches pool) free
          (allocate_layers-Made allocator (slots_per_layer block_count kv_caches) kv_caches pool
            signature shaped)

release-fits :
    (block_count : ℤ) (kv_caches : List KvCache) (backings : List Backing)
    (pool : TurboBusCpuBackingPool)
    → FitsLayers block_count kv_caches backings
    → All FreeFits pool.free_by_shape
    → All FreeFits (release block_count kv_caches backings pool).0.free_by_shape
unfolding release
release-fits block_count kv_caches backings pool (signature, shaped, fits) free =
    elim (Bool-cases (contains signature pool.free_by_shape)) [
      | inl known ↦
          rw (shaped, release, known)
            (All-modify_at FreeFits signature (λ groups. groups ++ (backings ∷ []))
              pool.free_by_shape
              (λ groups old. All-append (Fits signature) groups (backings ∷ []) old (fits, tt))
              free)
      | inr new ↦
          rw (shaped, release, new)
            (All-insert FreeFits signature (backings ∷ []) pool.free_by_shape (fits, tt) free)
    ]

acquired-IsFitting :
    (allocator : Allocator) (block_count : ℤ) (kv_caches : List KvCache) (s : System)
    → IsFitting s
    → IsFitting (acquired allocator block_count kv_caches s)
unfolding acquired acquire
acquired-IsFitting allocator block_count kv_caches s h =
    elim (Result-cases (backing_signature block_count kv_caches)) [
      | inr (e, raised) ↦
          let refused : acquire allocator block_count kv_caches s.pool ≡ (s.pool, err e) =
            rw (raised, acquire) refl in
          subst (λ r. IsFitting (holding block_count kv_caches s r)) (sym refused) h
      | inl (signature, shaped) ↦
          after_acquire signature shaped (acquire allocator block_count kv_caches s.pool)
            (acquire-Acquired allocator block_count kv_caches s.pool signature shaped h.0)
    ]
  where
    after_acquire :
        (signature : Signature) (shaped : backing_signature block_count kv_caches ≡ ok signature)
        (r : TurboBusCpuBackingPool × Result (List Backing × Bool))
        → Acquired signature r
        → IsFitting (holding block_count kv_caches s r)
    after_acquire signature shaped (after, err e) free = (free, h.1)
    after_acquire signature shaped (after, ok group) (free, fits) =
        (free, ((signature, shaped, fits), h.1))

released-IsFitting : (i : ℕ) (s : System) → IsFitting s → IsFitting (released i s)
unfolding released
released-IsFitting i s h = elim (Option-cases (get_elem? s.held i)) [
  | inl absent ↦ rw (absent, released) h
  | inr (given, here) ↦
      rw (here, released)
        (after_release (release given.block_count given.kv_caches given.backings s.pool) (
          release-fits given.block_count given.kv_caches given.backings s.pool
            (All-get_elem? HeldFits i s.held given here h.1) h.0))
]
  where
    after_release :
        (r : TurboBusCpuBackingPool × Result ℕ)
        → All FreeFits r.0.free_by_shape
        → IsFitting (given_back i s r)
    after_release (after, err e) free = (free, h.1)
    after_release (after, ok count) free = (free, All-remove_at HeldFits i s.held h.1)

Reachable-IsFitting :
    (job_id : Option String) (prefix : String) (s : System)
    → Reachable own_layers job_id prefix s
    → IsFitting s
unfolding empty_pool
Reachable-IsFitting job_id prefix _ starts = (tt, tt)
Reachable-IsFitting job_id prefix _ (acquires allocator block_count kv_caches s r) =
    acquired-IsFitting allocator block_count kv_caches s (Reachable-IsFitting job_id prefix s r)
Reachable-IsFitting job_id prefix _ (releases i s r) =
    released-IsFitting i s (Reachable-IsFitting job_id prefix s r)
Reachable-IsFitting job_id prefix _ (releases_for block_count kv_caches i s e r) =
    absurd (ground arith)

-- Where clients give each group back for the layers that they acquired it for, a group that `acquire`
-- gives out, a reused one as well as a new one, has for each layer a buffer of exactly the bytes that the layer's signature
-- asks for: its slots times the bytes of a block.
pub acquire-FitsLayers :
    (job_id : Option String) (prefix : String) (s : System) (allocator : Allocator)
    (block_count : ℤ) (kv_caches : List KvCache) (after : TurboBusCpuBackingPool)
    (group : List Backing × Bool)
    → Reachable own_layers job_id prefix s
    → acquire allocator block_count kv_caches s.pool ≡ (after, ok group)
    → FitsLayers block_count kv_caches group.0
unfolding acquire
acquire-FitsLayers job_id prefix s allocator block_count kv_caches after group r e =
    elim (Result-cases (backing_signature block_count kv_caches)) [
      | inr (failure, raised) ↦ absurd (ground (arith, raised, e))
      | inl (signature, shaped) ↦
          let fits : Acquired signature (after, ok group) = subst (Acquired signature) e (
            acquire-Acquired allocator block_count kv_caches s.pool signature shaped
              (Reachable-IsFitting job_id prefix s r).0) in
          (signature, shaped, fits.1)
    ]
