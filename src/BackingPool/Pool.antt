-- ===== src/BackingPool/Pool.antt =====
-- The methods of `TurboBusCPUBackingPool` in turbobus/adapters/vllm_backing_pool.py, and the
-- allocation of a group of buffers.
use pcie_pool.Common.{
  ℕ, suc, ◌*◌, List, [], ◌∷◌, ◌++◌, Option, none, some, Bool, true, false, String, length, Result,
  ok, err, if◌then◌else◌, ◌>>=◌,
}
use pcie_pool.Common.Int.{ℤ}
use pcie_pool.Common.Text.{◌^^◌, show_ℕ}
use pcie_pool.Common.Dict.{lookup, insert, modify, contains}
use pcie_pool.BackingPool.{KvCache, Backing, Signature, TurboBusCpuBackingPool, Allocator}
use pcie_pool.BackingPool.Signatures.{
  block_bytes_from_vllm_kv_tensor, slots_per_layer, max_lanes_per_layer, backing_signature,
  signature_eq,
}

-- `available.pop()`: the last element, and those before it.
unfoldable pub split_last {ℓ} : {A : Type ℓ} → A → List A → List A × A
split_last x [] = ([], x)
split_last x (y ∷ ys) = let (front, last) = split_last y ys in (x ∷ front, last)

-- The id of the next buffer, which a pool without a job does not count.
abbrev pub next_id : TurboBusCpuBackingPool → Option String
next_id pool = elim pool.job_id [
  | none ↦ none
  | some _ ↦ some (pool.buffer_id_prefix ^^ "-" ^^ show_ℕ pool.next_buffer_id)
]

abbrev pub counted : TurboBusCpuBackingPool → TurboBusCpuBackingPool
counted pool = elim pool.job_id [
  | none ↦ pool
  | some _ ↦ record pool { next_buffer_id = suc pool.next_buffer_id }
]

-- The loops of `_allocate` and `_allocate_shared_cpu_backings`.
unfoldable pub allocate_layers :
    Allocator
    → ℕ
    → List KvCache
    → TurboBusCpuBackingPool
    → TurboBusCpuBackingPool × Result (List Backing)
unfolding show_ℕ
allocate_layers allocator slots [] pool = (pool, ok [])
allocate_layers allocator slots (kv_cache ∷ kv_caches) pool =
    elim (block_bytes_from_vllm_kv_tensor kv_cache) [
      | err e ↦ (pool, err e)
      | ok block_bytes ↦ elim (allocator (next_id pool) (slots * block_bytes)) [
        | err e ↦ (counted pool, err e)
        | ok _ ↦
            let (after, rest) = allocate_layers allocator slots kv_caches (counted pool) in
            (
              after,
              do
                backings ← rest
                ok (
                    record { buffer_id = next_id pool; size_bytes = slots * block_bytes }
                    ∷ backings),
            )
      ]
    ]

-- `_allocate_for_pool`
unfoldable pub allocate_for_pool :
    Allocator
    → ℤ
    → List KvCache
    → TurboBusCpuBackingPool
    → TurboBusCpuBackingPool × Result (List Backing)
unfolding allocate_layers max_lanes_per_layer
allocate_for_pool allocator block_count kv_caches pool =
    allocate_layers allocator (slots_per_layer block_count kv_caches) kv_caches pool

-- The free groups of a signature, `[]` where it is not a key.
abbrev pub free_groups : Signature → TurboBusCpuBackingPool → List (List Backing)
free_groups signature pool = elim (lookup signature pool.free_by_shape) [
  | none ↦ []
  | some groups ↦ groups
]

abbrev pub tagged {ℓ} : {A : Type ℓ} → Bool → Result A → Result (A × Bool)
tagged reused made = do value ← made; ok (value, reused)

-- `acquire`: the group, and whether it was taken from the pool.
unfoldable pub acquire :
    Allocator
    → ℤ
    → List KvCache
    → TurboBusCpuBackingPool
    → TurboBusCpuBackingPool × Result (List Backing × Bool)
unfolding backing_signature lookup modify split_last allocate_for_pool
acquire allocator block_count kv_caches pool = elim (backing_signature block_count kv_caches) [
  | err e ↦ (pool, err e)
  | ok signature ↦ elim (free_groups signature pool) [
    | [] ↦
        let (after, made) = allocate_for_pool allocator block_count kv_caches pool in
        (after, tagged false made)
    | (group ∷ groups) ↦
        let (front, last) = split_last group groups in
        (
          record pool { free_by_shape = modify signature (λ _. front) pool.free_by_shape },
          ok (last, true),
        )
  ]
]

-- `release`: the number of free groups of the signature that it reports.
unfoldable pub release :
    ℤ → List KvCache → List Backing → TurboBusCpuBackingPool → TurboBusCpuBackingPool × Result ℕ
unfolding backing_signature contains insert modify
release block_count kv_caches cpu_backings pool = elim (backing_signature block_count kv_caches) [
  | err e ↦ (pool, err e)
  | ok signature ↦
      let after : TurboBusCpuBackingPool = record pool {
        free_by_shape =
            if contains signature pool.free_by_shape
            then modify signature (λ groups. groups ++ (cpu_backings ∷ [])) pool.free_by_shape
            else insert signature (cpu_backings ∷ []) pool.free_by_shape;
      } in
      (after, ok (length (free_groups signature after)))
]
