-- ===== src/BackingPool/Fresh.antt =====
-- The buffers that the pool of turbobus/adapters/vllm_backing_pool.py allocates are new.
use text.Mathlib.TextLemmas.{append_cancel_left}
use pcie_pool.Common.{
  ℕ, suc, ◌+◌, ◌*◌, ◌>>=◌, ◌≤◌, ◌<◌, ◌≡◌, refl, sym, subst, ◌∙◌, ◌⊎◌, inl, inr, List, [], ◌∷◌,
  Option, none, some, String, str_eq, str_eq_iff, arith, Result, ok, err, Result-cases, Bool-cases,
  if◌then◌else◌,
}
use pcie_pool.Common.Text.{◌^^◌, show_ℕ, show_ℕ-injective}
use pcie_pool.Common.Dict.{Dict}
use pcie_pool.BackingPool.{KvCache, Backing, Signature, TurboBusCpuBackingPool, Allocator}
use pcie_pool.BackingPool.Signatures.{block_bytes_from_vllm_kv_tensor, signature_eq}
use pcie_pool.BackingPool.Pool.{counted, next_id, allocate_layers}
use pcie_pool.BackingPool.Clients.{has_id, times}

abbrev pub numbered : String → ℕ → String
numbered prefix n = prefix ^^ "-" ^^ show_ℕ n

-- New buffers have numbers from the counter on, each of them once.
abbrev pub IsNew : String → ℕ → ℕ → String → ℕ → Type 0
IsNew prefix from to id count =
    (count ≡ 0) ⊎ ((n : ℕ) × (id ≡ numbered prefix n) × (from ≤ n) × (n < to) × (count ≡ 1))

-- What an allocation leaves as it was.
abbrev pub Advanced : TurboBusCpuBackingPool → TurboBusCpuBackingPool → Type 0
Advanced pool after =
    (after.buffer_id_prefix ≡ pool.buffer_id_prefix)
    × (pool.next_buffer_id ≤ after.next_buffer_id)
    × (after.free_by_shape ≡ pool.free_by_shape)

counted-Advanced : (pool : TurboBusCpuBackingPool) → Advanced pool (counted pool)
counted-Advanced pool = ground arith

abbrev pub Allocates :
    TurboBusCpuBackingPool → TurboBusCpuBackingPool × Result (List Backing) → Type 0
Allocates pool (after, err e) = Advanced pool after
Allocates pool (after, ok backings) =
    Advanced pool after
    × ((id : String)
        → IsNew pool.buffer_id_prefix pool.next_buffer_id after.next_buffer_id id
            (times id backings))

-- A buffer with the next number, in front of new ones.
front-IsNew :
    (prefix : String) (next to : ℕ) (id : String) (count : ℕ)
    → suc next ≤ to
    → IsNew prefix (suc next) to id count
    → IsNew prefix next to id ((if str_eq (numbered prefix next) id then 1 else 0) + count)
front-IsNew prefix next to id count below new =
    elim (Bool-cases (str_eq (numbered prefix next) id)) [
      | inl same ↦
          let equal = (str_eq_iff (numbered prefix next) id).0 same in
          rw same (elim new [
            | inl zero_times ↦
                inr (next, sym equal, omega arith, omega arith, omega (arith, zero_times))
            | inr (n, named, from, up, once) ↦
                let number : next ≡ n =
                  show_ℕ-injective next n
                    (append_cancel_left "-" _ _ (append_cancel_left prefix _ _ (equal ∙ named))) in
                absurd (omega (arith, number))
          ])
      | inr other ↦ rw other (elim new [
        | inl zero_times ↦ inl (omega (arith, zero_times))
        | inr (n, named, from, up, once) ↦ inr (n, named, omega arith, up, omega (arith, once))
      ])
    ]

-- The first buffer of an allocation, in front of new ones.
first-IsNew :
    (job : Option String) (prefix : String) (next : ℕ) (free : Dict Signature (List (List Backing)))
    (size to : ℕ) (id : String) (count : ℕ)
    → let pool : TurboBusCpuBackingPool = record {
      job_id = job;
      buffer_id_prefix = prefix;
      next_buffer_id = next;
      free_by_shape = free;
    } in
      (counted pool).next_buffer_id ≤ to
      → IsNew prefix (counted pool).next_buffer_id to id count
      → IsNew prefix next to id (
          (if has_id id (record { buffer_id = next_id pool; size_bytes = size }) then 1 else 0)
          + count)
first-IsNew none prefix next free size to id count below new = elim new [
  | inl zero_times ↦ inl (omega (arith, zero_times))
  | inr (n, named, from, up, once) ↦ inr (n, named, from, up, omega (arith, once))
]
first-IsNew (some job) prefix next free size to id count below new =
    front-IsNew prefix next to id count below new

rest_new :
    (pool : TurboBusCpuBackingPool) (size : ℕ) (r : TurboBusCpuBackingPool × Result (List Backing))
    → Allocates (counted pool) r
    → Allocates pool (
      r.0,
      do backings ← r.1; ok (record { buffer_id = next_id pool; size_bytes = size } ∷ backings),
    )
rest_new pool size (after, err e) h = ground (arith, counted-Advanced pool)
rest_new pool size (after, ok backings) h =
    let one = counted-Advanced pool in
    (
      (h.0.0 ∙ one.0, omega (arith, one.1, h.0.1), h.0.2 ∙ one.2),
      λ id.
          first-IsNew pool.job_id pool.buffer_id_prefix pool.next_buffer_id pool.free_by_shape size
            after.next_buffer_id id (times id backings) h.0.1
            (subst
              (λ prefix.
                IsNew prefix (counted pool).next_buffer_id after.next_buffer_id id
                  (times id backings))
              one.0 (h.1 id)),
    )

pub allocate_layers-Allocates :
    (allocator : Allocator) (slots : ℕ) (kv_caches : List KvCache) (pool : TurboBusCpuBackingPool)
    → Allocates pool (allocate_layers allocator slots kv_caches pool)
unfolding allocate_layers
allocate_layers-Allocates allocator slots [] pool = ((refl, omega arith, refl), λ id. inl refl)
allocate_layers-Allocates allocator slots (kv_cache ∷ kv_caches) pool =
    elim (Result-cases (block_bytes_from_vllm_kv_tensor kv_cache)) [
      | inr (e, raised) ↦ rw (raised, allocate_layers) (refl, omega arith, refl)
      | inl (bytes, sized) ↦ elim (Result-cases (allocator (next_id pool) (slots * bytes))) [
        | inr (e, refused) ↦ rw (sized, allocate_layers, refused) (counted-Advanced pool)
        | inl (done, made) ↦
            rw (sized, allocate_layers, made)
              (rest_new pool (slots * bytes)
                (allocate_layers allocator slots kv_caches (counted pool))
                (allocate_layers-Allocates allocator slots kv_caches (counted pool)))
      ]
    ]
