-- ===== src/StateOffload/Tests.antt =====
-- The theorems on the transaction, applied to a run that commits and one that rolls back.
use pcie_pool.Common.{◌≡◌, refl, true, false, any_by, ok, err, runtime_error}
use pcie_pool.StateOffload.{wait_offload, Callbacks, StateOffloadTransaction, Calls}
use pcie_pool.StateOffload.Transaction.{
  fresh, call, call_if, begin, prefetch, prefetch_before_step, commit, commit_after_step, roll_back,
  rollback_on_error,
}
use pcie_pool.StateOffload.Protocol.{
  is_prefetched, is_offloaded, is_restored, Reachable, starts, begins, prefetches, commits,
  rolls_back, Reachable-committed, Reachable-rolled_back,
}

abbrev cb : Callbacks
cb = record { restore_before_step = true; capture_after_step = false; rollback_restore = true }

abbrev all_well : Calls
all_well e = ok tt

abbrev offload_fails : Calls
offload_fails wait_offload = err (runtime_error "offload failed")
offload_fails _ = ok tt

abbrev ready : StateOffloadTransaction
ready = (prefetch_before_step cb all_well (begin fresh).0).0

abbrev done : StateOffloadTransaction
done = (commit_after_step cb all_well ready).0

abbrev undone : StateOffloadTransaction
undone = (rollback_on_error cb all_well (commit_after_step cb offload_fails ready).0).0

ready-Reachable : Reachable cb ready
ready-Reachable = prefetches (begin fresh).0 all_well (begins fresh starts)

Reachable-committed_example :
    (any_by is_prefetched done.events ≡ true)
    × (any_by is_offloaded done.events ≡ true)
    × (done.commit_batch ≡ true)
    × (any_by is_restored done.events ≡ false)
unfolding begin prefetch_before_step prefetch commit_after_step commit call call_if
Reachable-committed_example =
    Reachable-committed cb done (commits ready all_well ready-Reachable) refl

Reachable-rolled_back_example :
    (any_by is_offloaded undone.events ≡ false) × (any_by is_restored undone.events ≡ true)
unfolding begin prefetch_before_step prefetch commit_after_step commit roll_back rollback_on_error
    call call_if
Reachable-rolled_back_example =
    Reachable-rolled_back cb undone
      (rolls_back (commit_after_step cb offload_fails ready).0 all_well
        (commits ready offload_fails ready-Reachable))
      refl
