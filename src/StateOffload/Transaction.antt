-- ===== src/StateOffload/Transaction.antt =====
-- The methods of `StateOffloadTransaction` in turbobus/state_offload/transaction.py. A method gives
-- the transaction as it is left, and whether it raised.
use pcie_pool.Common.{
  [], ◌∷◌, Bool, true, false, String, Result, ok, err, runtime_error, if◌then◌else◌,
}
use pcie_pool.StateOffload.{
  new, active, prefetched, committed, rolled_back, Event, submit_prefetch, wait_prefetch, restore,
  capture, submit_offload, wait_offload, rollback_restore, Callbacks, StateOffloadTransaction,
  Calls,
}

-- `StateOffloadTransaction(core, names)`
abbrev pub fresh : StateOffloadTransaction
fresh = record { state = new; prefetch_transfer = false; commit_batch = false; events = [] }

abbrev pub Done : Type 0
Done = StateOffloadTransaction × Result (Unit {0})

-- A method that raises before it does anything.
abbrev pub refuse : String → StateOffloadTransaction → Done
refuse reason t = (t, err (runtime_error reason))

-- Make a call, and go on only if it returns.
unfoldable pub call :
    Calls → Event → (StateOffloadTransaction → Done) → StateOffloadTransaction → Done
call calls event next t = elim (calls event) [
  | ok _ ↦ next (record t { events = event ∷ t.events })
  | err e ↦ (t, err e)
]

-- A call of a callback that may be unset.
unfoldable pub call_if :
    Bool → Calls → Event → (StateOffloadTransaction → Done) → StateOffloadTransaction → Done
unfolding call
call_if set calls event next t = if set then call calls event next t else next t

-- `begin`
unfoldable pub begin : StateOffloadTransaction → Done
begin t = elim t.state [
  | new ↦ (record t { state = active }, ok tt)
  | _ ↦ refuse "state offload transaction has already started" t
]

-- What `prefetch_before_step` does once the state is checked.
unfoldable pub prefetch : Callbacks → Calls → StateOffloadTransaction → Done
unfolding call call_if
prefetch cb calls t =
    call calls submit_prefetch
      (λ u.
        call calls wait_prefetch
          (call_if cb.restore_before_step calls restore
            (λ v. (record v { state = prefetched }, ok tt)))
          (record u { prefetch_transfer = true }))
      t

-- `prefetch_before_step`
unfoldable pub prefetch_before_step : Callbacks → Calls → StateOffloadTransaction → Done
unfolding prefetch
prefetch_before_step cb calls t = elim t.state [
  | prefetched ↦ refuse "state offload transaction has already prefetched" t
  | active ↦ prefetch cb calls t
  | _ ↦ refuse "state offload transaction is not active" t
]

-- What `commit_after_step` does once the state is checked.
unfoldable pub commit : Callbacks → Calls → StateOffloadTransaction → Done
unfolding call call_if
commit cb calls t =
    call_if cb.capture_after_step calls capture
      (call calls submit_offload (λ u.
        call calls wait_offload (λ v. (record v { state = committed }, ok tt))
          (record u { commit_batch = true })))
      t

-- `commit_after_step`
unfoldable pub commit_after_step : Callbacks → Calls → StateOffloadTransaction → Done
unfolding commit
commit_after_step cb calls t = elim t.state [
  | committed ↦ refuse "state offload transaction has already committed" t
  | rolled_back ↦ refuse "state offload transaction has rolled back" t
  | prefetched ↦ commit cb calls t
  | _ ↦ refuse "state offload transaction must prefetch before commit" t
]

unfoldable pub roll_back : Callbacks → Calls → StateOffloadTransaction → Done
unfolding call_if
roll_back cb calls t =
    call_if cb.rollback_restore calls rollback_restore
      (λ u. (record u { state = rolled_back }, ok tt)) t

-- `rollback_on_error`; its last test is never reached.
unfoldable pub rollback_on_error : Callbacks → Calls → StateOffloadTransaction → Done
unfolding roll_back
rollback_on_error cb calls t = elim t.state [
  | committed ↦ refuse "state offload transaction cannot roll back after commit" t
  | rolled_back ↦ refuse "state offload transaction has already rolled back" t
  | new ↦ refuse "state offload transaction must begin before rollback" t
  | _ ↦ roll_back cb calls t
]
