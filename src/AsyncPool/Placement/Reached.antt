-- ===== src/AsyncPool/Placement/Reached.antt =====
-- The tables of the pool of turbobus/worker/lifecycle.py in every interleaving of its threads.
use pcie_pool.Common.{ℕ, ◌≡◌, [], Option, some, true, arith, ok}
use pcie_pool.Common.Int.{ℤ}
use pcie_pool.Common.Dict.{lookup, string_eq, nat_eq}
use pcie_pool.AsyncPool.{Work, WorkerAsyncExecutionPool}
use pcie_pool.AsyncPool.Pool.{new_pool, drain_terminal, begin_close}
use pcie_pool.AsyncPool.Steps.{
  once, Reachable, starts, tickets, submits, notes_again, notes_again_at_close, takes, begins, ends,
  cancels, notes, drains, closes, notes_at_close,
}
use pcie_pool.AsyncPool.Placement.{Placed, IsPlaced, is_live, same_call}
use pcie_pool.AsyncPool.Placement.Runs.{
  start-IsPlaced, begin_run-IsPlaced, end_run-IsPlaced, record_canceled-IsPlaced,
  future_cancel-IsPlaced, close_one-IsPlaced,
}
use pcie_pool.AsyncPool.Placement.Submits.{next_pool_ticket-IsPlaced, submit_ticket-IsPlaced}

new_pool-IsPlaced :
    (max_workers : Option ℤ) (limit : ℤ) (s : WorkerAsyncExecutionPool)
    → new_pool max_workers limit ≡ ok s
    → IsPlaced s
unfolding new_pool lookup
new_pool-IsPlaced max_workers limit s e =
    let same = is_empty e in
    record {
      queued_keyed = rw same.0 tt;
      running_keyed = rw same.1 tt;
      futures_keyed = rw same.2 tt;
      placed = λ m w here. absurd (ground (arith, same.3, here));
    }
  where
    is_empty :
        new_pool max_workers limit ≡ ok s
        → (s.queued ≡ []) × (s.running ≡ []) × (s.futures ≡ []) × (s.works ≡ [])
    is_empty e = ground (arith, e)

pub Reachable-IsPlaced :
    (limit : ℤ) (s : WorkerAsyncExecutionPool) → Reachable once limit s → IsPlaced s
unfolding drain_terminal begin_close
Reachable-IsPlaced limit s (starts max_workers _ made) = new_pool-IsPlaced max_workers limit s made
Reachable-IsPlaced limit _ (tickets s r) =
    next_pool_ticket-IsPlaced s (Reachable-IsPlaced limit s r)
Reachable-IsPlaced limit _ (submits n accepted t s _ _ r) =
    submit_ticket-IsPlaced n accepted t s (Reachable-IsPlaced limit s r)
Reachable-IsPlaced limit _ (notes_again n t s not_once here r) = absurd (ground arith)
Reachable-IsPlaced limit _ (notes_again_at_close futures t s not_once r) = absurd (ground arith)
Reachable-IsPlaced limit _ (takes n t s here r) =
    start-IsPlaced n t s here (Reachable-IsPlaced limit s r)
Reachable-IsPlaced limit _ (begins n t s here r) =
    begin_run-IsPlaced n t s here (Reachable-IsPlaced limit s r)
Reachable-IsPlaced limit _ (ends n t state s here r) =
    end_run-IsPlaced n t state s here (Reachable-IsPlaced limit s r)
Reachable-IsPlaced limit _ (cancels n s r) =
    future_cancel-IsPlaced n s (Reachable-IsPlaced limit s r)
Reachable-IsPlaced limit _ (notes n t s here r) =
    record_canceled-IsPlaced n t s here (Reachable-IsPlaced limit s r)
Reachable-IsPlaced limit _ (drains s r) =
    let h = Reachable-IsPlaced limit s r in
    record {
      queued_keyed = h.queued_keyed;
      running_keyed = h.running_keyed;
      futures_keyed = h.futures_keyed;
      placed = h.placed;
    }
Reachable-IsPlaced limit _ (closes s r) =
    let h = Reachable-IsPlaced limit s r in
    record {
      queued_keyed = h.queued_keyed;
      running_keyed = h.running_keyed;
      futures_keyed = h.futures_keyed;
      placed = h.placed;
    }
Reachable-IsPlaced limit _ (notes_at_close futures n t s taken_future here r) =
    close_one-IsPlaced futures n t s taken_future here (Reachable-IsPlaced limit s r)

-- In every pool that the threads can lead to where each execution is cancelled once, the tables tell
-- where each call of the thread pool is: one that waits is queued under its transfer, one that executes
-- is running under it, each in that table alone, and its future is kept.
pub Reachable-Placed :
    (limit : ℤ) (s : WorkerAsyncExecutionPool) (number : ℕ) (w : Work)
    → Reachable once limit s
    → lookup number s.works ≡ some w
    → Placed s number w
Reachable-Placed limit s number w r here = (Reachable-IsPlaced limit s r).placed number w here

-- Where each execution is cancelled once, no two calls for one transfer wait or execute at the same
-- time, in any interleaving of the threads.
pub Reachable-exclusive :
    (limit : ℤ) (s : WorkerAsyncExecutionPool) (m n : ℕ) (v w : Work)
    → Reachable once limit s
    → lookup m s.works ≡ some v
    → lookup n s.works ≡ some w
    → v.transfer_id ≡ w.transfer_id
    → is_live v.phase ≡ true
    → is_live w.phase ≡ true
    → m ≡ n
Reachable-exclusive limit s m n v w r first second same live also =
    same_call s m n v w same live also (Reachable-Placed limit s m v r first)
      (Reachable-Placed limit s n w r second)
