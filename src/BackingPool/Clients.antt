-- ===== src/BackingPool/Clients.antt =====
-- The clients of the pool of turbobus/adapters/vllm_backing_pool.py: the groups that they hold, and
-- what their calls lead to.
use pcie_pool.Common.{
  ℕ, zero, suc, ◌+◌, ◌≡◌, List, [], ◌∷◌, Option, none, some, Bool, false, String, str_eq, sum_by,
  get_elem?, if◌then◌else◌, Result, ok, err,
}
use pcie_pool.Common.Int.{ℤ}
use pcie_pool.Quota.Sums.{weigh}
use pcie_pool.BackingPool.{KvCache, Backing, TurboBusCpuBackingPool, Allocator}
use pcie_pool.BackingPool.Signatures.{signature_eq}
use pcie_pool.BackingPool.Pool.{acquire, release}

-- A group that was acquired and not yet released, with what it was acquired for.
pub record Held : Type 0 where
  pub block_count : ℤ
  pub kv_caches : List KvCache
  pub backings : List Backing

pub record System : Type 0 where
  pub pool : TurboBusCpuBackingPool
  pub held : List Held

unfoldable pub empty_pool : Option String → String → TurboBusCpuBackingPool
empty_pool job_id buffer_id_prefix = record {
  job_id = job_id;
  buffer_id_prefix = buffer_id_prefix;
  next_buffer_id = 1;
  free_by_shape = [];
}

-- The system after an acquisition: the client holds the group, or nothing where the call raised.
abbrev pub holding :
    ℤ → List KvCache → System → TurboBusCpuBackingPool × Result (List Backing × Bool) → System
holding block_count kv_caches s (after, err e) = record { pool = after; held = s.held }
holding block_count kv_caches s (after, ok group) = record {
  pool = after;
  held = record { block_count = block_count; kv_caches = kv_caches; backings = group.0 } ∷ s.held;
}

unfoldable pub acquired : Allocator → ℤ → List KvCache → System → System
unfolding acquire
acquired allocator block_count kv_caches s =
    holding block_count kv_caches s (acquire allocator block_count kv_caches s.pool)

abbrev pub remove_at {ℓ} : {A : Type ℓ} → ℕ → List A → List A
remove_at i [] = []
remove_at zero (x ∷ xs) = xs
remove_at (suc i) (x ∷ xs) = x ∷ remove_at i xs

-- The system after a release: the client keeps the group where the call raised.
abbrev pub given_back : ℕ → System → TurboBusCpuBackingPool × Result ℕ → System
given_back i s (after, err e) = record { pool = after; held = s.held }
given_back i s (after, ok count) = record { pool = after; held = remove_at i s.held }

-- The client gives a group that it holds back, with layers that need not be those that it was acquired
-- for.
unfoldable pub released_for : ℤ → List KvCache → ℕ → System → System
unfolding release
released_for block_count kv_caches i s = elim (get_elem? s.held i) [
  | none ↦ s
  | some h ↦ given_back i s (release block_count kv_caches h.backings s.pool)
]

-- The client gives a group back for the layers that it was acquired for.
unfoldable pub released : ℕ → System → System
unfolding release
released i s = elim (get_elem? s.held i) [
  | none ↦ s
  | some h ↦ given_back i s (release h.block_count h.kv_caches h.backings s.pool)
]

-- Which layers the clients name when they give a group back; `release` does not check them.
pub data Releasing : Type 0 where
  own_layers any_layers : Releasing

-- The systems that calls lead to; each allocation may end in its own way. Clients give back groups that
-- they hold, which `release` does not check either.
pub data Reachable (releasing : Releasing) (job_id : Option String) (prefix : String)
    : System → Type 0 where
  starts : Reachable releasing job_id prefix (record { pool = empty_pool job_id prefix; held = [] })
  acquires :
      (allocator : Allocator) (block_count : ℤ) (kv_caches : List KvCache) (s : System)
      → Reachable releasing job_id prefix s
      → Reachable releasing job_id prefix (acquired allocator block_count kv_caches s)
  releases :
      (i : ℕ) (s : System)
      → Reachable releasing job_id prefix s
      → Reachable releasing job_id prefix (released i s)
  releases_for :
      (block_count : ℤ) (kv_caches : List KvCache) (i : ℕ) (s : System)
      → releasing ≡ any_layers
      → Reachable releasing job_id prefix s
      → Reachable releasing job_id prefix (released_for block_count kv_caches i s)

abbrev pub has_id : String → Backing → Bool
has_id id b = elim b.buffer_id [ none ↦ false | some other ↦ str_eq other id ]

-- How often a buffer with an id is in a group, among the free groups, and in the whole system.
abbrev pub times : String → List Backing → ℕ
times id backings = sum_by (λ b. if has_id id b then 1 else 0) backings

abbrev pub times_free : String → TurboBusCpuBackingPool → ℕ
times_free id pool = weigh (sum_by (times id)) pool.free_by_shape

abbrev pub times_held : String → List Held → ℕ
times_held id held = sum_by (λ (h : Held). times id h.backings) held

abbrev pub occurrences : String → System → ℕ
occurrences id s = times_free id s.pool + times_held id s.held
