-- ===== src/StateOffload/Protocol.antt =====
-- The protocol of `StateOffloadTransaction` in turbobus/state_offload/transaction.py: what has been
-- done in each state, whatever calls the methods make and however those end.
use pcie_pool.Common.{◌≡◌, refl, Bool, true, false, not, ◌&&◌, arith, any_by}
use pcie_pool.StateOffload.{
  new, active, prefetched, committed, rolled_back, Event, wait_prefetch, wait_offload,
  rollback_restore, Callbacks, StateOffloadTransaction, Calls,
}
use pcie_pool.StateOffload.Transaction.{
  fresh, call, call_if, begin, prefetch, prefetch_before_step, commit, commit_after_step, roll_back,
  rollback_on_error,
}

abbrev pub is_prefetched : Event → Bool
is_prefetched wait_prefetch = true
is_prefetched _ = false

abbrev pub is_offloaded : Event → Bool
is_offloaded wait_offload = true
is_offloaded _ = false

abbrev pub is_restored : Event → Bool
is_restored rollback_restore = true
is_restored _ = false

-- Whether both are true or both false.
abbrev pub agree : Bool → Bool → Bool
agree true b = b
agree false b = not b

-- What has been done when the transaction is in a state.
abbrev pub facts : Callbacks → StateOffloadTransaction → Bool
facts cb t =
    let prefetch_done = any_by is_prefetched t.events in
    let offload_done = any_by is_offloaded t.events in
    let restored = any_by is_restored t.events in
    elim t.state [
      | new ↦ not prefetch_done && not offload_done && not restored
      | active ↦ not offload_done && not restored
      | prefetched ↦ prefetch_done && not offload_done && not restored
      | committed ↦ prefetch_done && offload_done && not restored && t.commit_batch
      | rolled_back ↦ not offload_done && agree restored cb.rollback_restore
    ]

-- The transactions that calls of the four methods lead to; each call may end in its own way.
pub data Reachable (cb : Callbacks) : StateOffloadTransaction → Type 0 where
  starts : Reachable cb fresh
  begins : (t : StateOffloadTransaction) → Reachable cb t → Reachable cb (begin t).0
  prefetches :
      (t : StateOffloadTransaction) (calls : Calls)
      → Reachable cb t
      → Reachable cb (prefetch_before_step cb calls t).0
  commits :
      (t : StateOffloadTransaction) (calls : Calls)
      → Reachable cb t
      → Reachable cb (commit_after_step cb calls t).0
  rolls_back :
      (t : StateOffloadTransaction) (calls : Calls)
      → Reachable cb t
      → Reachable cb (rollback_on_error cb calls t).0

begin-facts :
    (cb : Callbacks) (t : StateOffloadTransaction) → facts cb t ≡ true → facts cb (begin t).0 ≡ true
unfolding begin
begin-facts cb t h = ground arith

prefetch-facts :
    (cb : Callbacks) (calls : Calls) (t : StateOffloadTransaction)
    → facts cb t ≡ true
    → facts cb (prefetch_before_step cb calls t).0 ≡ true
unfolding prefetch_before_step prefetch call call_if
prefetch-facts cb calls t h = ground arith

commit-facts :
    (cb : Callbacks) (calls : Calls) (t : StateOffloadTransaction)
    → facts cb t ≡ true
    → facts cb (commit_after_step cb calls t).0 ≡ true
unfolding commit_after_step commit call call_if
commit-facts cb calls t h = ground arith

roll_back-facts :
    (cb : Callbacks) (calls : Calls) (t : StateOffloadTransaction)
    → facts cb t ≡ true
    → facts cb (rollback_on_error cb calls t).0 ≡ true
unfolding rollback_on_error roll_back call call_if
roll_back-facts cb calls t h = ground arith

Reachable-facts :
    (cb : Callbacks) (t : StateOffloadTransaction) → Reachable cb t → facts cb t ≡ true
Reachable-facts cb _ starts = refl
Reachable-facts cb _ (begins t r) = begin-facts cb t (Reachable-facts cb t r)
Reachable-facts cb _ (prefetches t calls r) = prefetch-facts cb calls t (Reachable-facts cb t r)
Reachable-facts cb _ (commits t calls r) = commit-facts cb calls t (Reachable-facts cb t r)
Reachable-facts cb _ (rolls_back t calls r) = roll_back-facts cb calls t (Reachable-facts cb t r)

-- A transaction that is committed has waited for its prefetch and for its offload, which it keeps,
-- and has not restored the snapshot.
pub Reachable-committed :
    (cb : Callbacks) (t : StateOffloadTransaction)
    → Reachable cb t
    → t.state ≡ committed
    → (any_by is_prefetched t.events ≡ true)
      × (any_by is_offloaded t.events ≡ true)
      × (t.commit_batch ≡ true)
      × (any_by is_restored t.events ≡ false)
Reachable-committed cb t r e = ground (arith, Reachable-facts cb t r)

-- A transaction that is rolled back has not completed an offload, and has restored the snapshot just
-- where it has a callback for that.
pub Reachable-rolled_back :
    (cb : Callbacks) (t : StateOffloadTransaction)
    → Reachable cb t
    → t.state ≡ rolled_back
    → (any_by is_offloaded t.events ≡ false) × (any_by is_restored t.events ≡ cb.rollback_restore)
Reachable-rolled_back cb t r e = ground (arith, Reachable-facts cb t r)
