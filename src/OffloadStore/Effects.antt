-- ===== src/OffloadStore/Effects.antt =====
-- The calls on the offload store (turbobus/offload/store.py) against what a client can observe.
pub mod Tables
pub mod Submits
pub mod Waits
use mathlib.Core.Path.{fun_ext}
use pcie_pool.Common.{
  ℕ, suc, List, [], ◌∷◌, ◌++◌, Option, none, some, Bool, true, false, ◌≡◌, refl, sym, ap, subst,
  ◌∙◌, inl, inr, String, str_eq, map, arith, All, length, if◌then◌else◌, Result, ok, err,
  Result-cases, Option-cases, Bool-cases, any_by, ◌==◌, ◌||◌,
}
use pcie_pool.Common.Int.{ℤ}
use pcie_pool.Common.Entries.{All-lookup}
use pcie_pool.Common.Dict.{Dict, lookup, insert, erase, modify, lookup-insert, string_eq}
use pcie_pool.Quota.Sums.{map_some, lookup-erase}
use pcie_pool.OffloadStore.{
  BlockState, cpu, Operation, Backing, TransferRange, Handle, Block, OffloadStore, RuntimeSession,
  OffloadBatch, Run,
}
use pcie_pool.OffloadStore.Blocks.{ranges, blocks_named, can_use_range_batch}
use pcie_pool.OffloadStore.Transfers.{
  and_then, submit_transfer, submit_each, submit_blocks, submit_many, recorded, record_many,
  record_each, submitting,
}
use pcie_pool.OffloadStore.Store
use pcie_pool.OffloadStore.Store.{new_block, wait_handle, wait_next, wait_from, mark_waited, marked}
use pcie_pool.OffloadStore.Spec
use pcie_pool.OffloadStore.Spec.{
  Entry, View, view, view_of, entry_of, change, update, listed, settled, settled_alone, Call,
  run_call, effect, Partial, Simulates, outcome,
}
use pcie_pool.OffloadStore.Lookups.{
  and_then-rule, view-modify, view-record_many, view-record_each, names_of,
}
use pcie_pool.OffloadStore.Invariant.{
  IsTables, IsValid, IsSound, insert-IsTables, erase-IsTables, modify-IsTables,
  record_many-IsTables, record_each-IsTables, new_block-fresh, lookup-views_of,
}

-- After a call: the tables are still valid, and the view has changed as the call says.
abbrev pub Follows {ℓ} : {A : Type ℓ} → Call → OffloadStore → Run A → Type 0
Follows call s (t, ok a) = IsValid t × (view t ≡ effect call (view s))
Follows call s (t, err e) = IsValid t × Partial call (view s) (view t)

-- A transfer that is submitted leaves both tables alone.
abbrev pub SameTables : OffloadStore → OffloadStore → Type 0
SameTables s t = (t.blocks ≡ s.blocks) × (t.block_views ≡ s.block_views)

pub SameTables-IsValid : (s t : OffloadStore) → SameTables s t → IsValid s → IsValid t
SameTables-IsValid s t same h = rw (same.0, same.1) h
