-- ===== src/BackingPool/Tests.antt =====
-- The theorems on the pool of CPU buffers, applied to the caches of two layers.
use pcie_pool.Common.{◌+◌, ◌≤◌, ◌≡◌, refl, List, [], ◌∷◌, ◌++◌, some, true, ok, length, str_eq}
use pcie_pool.Common.Int.{pos}
use pcie_pool.Common.Text.{show_ℕ}
use pcie_pool.Common.Dict.{lookup, insert, modify, contains}
use pcie_pool.BackingPool.{KvCache, Backing, Signature, TurboBusCpuBackingPool, Allocator}
use pcie_pool.BackingPool.Signatures.{
  layer_entries, max_lanes_per_layer, backing_signature, signature_beq, signature_eq,
}
use pcie_pool.BackingPool.Pool.{
  split_last, allocate_layers, allocate_for_pool, free_groups, acquire, release,
}
use pcie_pool.BackingPool.Clients.{
  System, acquired, released, Reachable, own_layers, any_layers, released_for, releases_for, starts,
  acquires, releases, empty_pool, occurrences,
}
use pcie_pool.BackingPool.Exclusive.{Reachable-occurrences}
use pcie_pool.BackingPool.Fitting.{FitsLayers, acquire-FitsLayers}
use pcie_pool.BackingPool.Reuse.{acquire-release}

abbrev caches : List KvCache
caches =
    record { shape = 2 ∷ 8 ∷ 16 ∷ []; stride_1 = 16; element_size = 2 }
    ∷ record { shape = 8 ∷ 16 ∷ []; stride_1 = 16; element_size = 4 }
    ∷ []

abbrev willing : Allocator
willing id size = ok tt

abbrev signature : Signature
signature = (6, 32) ∷ (6, 64) ∷ []

abbrev other : Signature
other = (1, 32) ∷ []

abbrev first : Backing
first = record { buffer_id = some "kv-1"; size_bytes = 192 }

abbrev second : Backing
second = record { buffer_id = some "kv-2"; size_bytes = 384 }

-- Two groups are acquired, and the first one of them is released.
abbrev used : System
used = released 1 (
    acquired willing (pos 3) caches
      (acquired willing (pos 3) caches (record { pool = empty_pool (some "j") "kv"; held = [] })))

abbrev reached : Reachable own_layers (some "j") "kv" used
reached =
    releases 1 _ (acquires willing (pos 3) caches _ (acquires willing (pos 3) caches _ starts))

-- The second one is released for other layers.
abbrev swapped : System
swapped = released_for (pos 3) (caches ++ caches) 0 used

abbrev reached_for : Reachable any_layers (some "j") "kv" swapped
reached_for =
    releases_for (pos 3) (caches ++ caches) 0 _ refl
      (releases 1 _ (acquires willing (pos 3) caches _ (acquires willing (pos 3) caches _ starts)))

abbrev after : TurboBusCpuBackingPool
after = (acquire willing (pos 3) caches used.pool).0

computed :
    (backing_signature (pos 3) caches ≡ ok signature)
    × (acquire willing (pos 3) caches used.pool ≡ (after, ok (first ∷ second ∷ [], true)))
    × (occurrences "kv-2" used ≡ 1)
    × (used.pool.next_buffer_id ≡ 5)
    × (length swapped.held ≡ 0)
    × ((acquire willing (pos 3) (caches ++ caches) swapped.pool).1
        ≡ ok (
          record { buffer_id = some "kv-3"; size_bytes = 192 }
              ∷ record { buffer_id = some "kv-4"; size_bytes = 384 }
              ∷ [],
          true,
        ))
unfolding empty_pool acquired released released_for acquire release allocate_for_pool
    allocate_layers split_last backing_signature layer_entries max_lanes_per_layer signature_beq
    lookup insert modify contains show_ℕ str_eq
computed = (refl, refl, refl, refl, refl, refl)

Reachable-occurrences_example : occurrences "kv-2" swapped ≤ 1
Reachable-occurrences_example =
    Reachable-occurrences any_layers (some "j") "kv" swapped "kv-2" reached_for

acquire-FitsLayers_example : FitsLayers (pos 3) caches (first ∷ second ∷ [])
acquire-FitsLayers_example =
    acquire-FitsLayers (some "j") "kv" used willing (pos 3) caches after (first ∷ second ∷ [], true)
      reached computed.1

acquire-release_example :
    let given = (release (pos 3) caches (first ∷ second ∷ []) after).0 in
    let taken = acquire willing (pos 3) caches given in
    (taken.1 ≡ ok (first ∷ second ∷ [], true))
    × (free_groups other taken.0 ≡ free_groups other after)
    × (taken.0.next_buffer_id ≡ given.next_buffer_id)
    × ((release (pos 3) caches (first ∷ second ∷ []) after).1
        ≡ ok (length (free_groups signature after) + 1))
acquire-release_example =
    acquire-release willing (pos 3) caches (first ∷ second ∷ []) after signature other computed.0
