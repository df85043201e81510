-- ===== src/AsyncPool/Steps.antt =====
-- The interleavings of the threads that use the pool of turbobus/worker/lifecycle.py.
use pcie_pool.Common.{ℕ, ◌<◌, ◌≡◌, Option, none, some, String, Result, ok}
use pcie_pool.Common.Int.{ℤ}
use pcie_pool.Common.Dict.{Dict, lookup, string_eq, nat_eq}
use pcie_pool.AsyncPool.{
  Phase, pending, started, executing, canceling, canceled, WorkerAsyncExecutionPool,
}
use pcie_pool.AsyncPool.Pool.{
  new_pool, next_pool_ticket, submit_ticket, start, begin_run, end_run, future_cancel,
  record_canceled, drain_terminal, begin_close, close_one,
}

-- The call with a number: its transfer and its phase.
abbrev pub IsWork : WorkerAsyncExecutionPool → ℕ → String → Phase → Type 0
IsWork s number transfer_id phase =
    lookup number s.works ≡ some (record { transfer_id = transfer_id; phase = phase })

-- Whether an execution may be cancelled again after its cancellation has been written down.
pub data Cancelling : Type 0 where
  once repeatedly : Cancelling

-- The pools that any order of steps leads to. `submit` takes the number of its ticket in one step and
-- the pool's lock in another. Where executions are cancelled once, by a client or by `close`, the one
-- who has cancelled it writes that down, once.
pub data Reachable (cancelling : Cancelling) (limit : ℤ) : WorkerAsyncExecutionPool → Type 0 where
  starts :
      (max_workers : Option ℤ) (s : WorkerAsyncExecutionPool)
      → new_pool max_workers limit ≡ ok s
      → Reachable cancelling limit s
  tickets :
      (s : WorkerAsyncExecutionPool)
      → Reachable cancelling limit s
      → Reachable cancelling limit (next_pool_ticket s).0
  submits :
      (number : ℕ) (accepted : Result (Unit {0})) (transfer_id : String)
      (s : WorkerAsyncExecutionPool)
      → number < s.next_pool_sequence
      → lookup number s.works ≡ none
      → Reachable cancelling limit s
      → Reachable cancelling limit (submit_ticket number accepted transfer_id s).0
  takes :
      (number : ℕ) (transfer_id : String) (s : WorkerAsyncExecutionPool)
      → IsWork s number transfer_id pending
      → Reachable cancelling limit s
      → Reachable cancelling limit (start number s)
  begins :
      (number : ℕ) (transfer_id : String) (s : WorkerAsyncExecutionPool)
      → IsWork s number transfer_id started
      → Reachable cancelling limit s
      → Reachable cancelling limit (begin_run transfer_id number s)
  ends :
      (number : ℕ) (transfer_id state : String) (s : WorkerAsyncExecutionPool)
      → IsWork s number transfer_id executing
      → Reachable cancelling limit s
      → Reachable cancelling limit (end_run transfer_id number state s)
  cancels :
      (number : ℕ) (s : WorkerAsyncExecutionPool)
      → Reachable cancelling limit s
      → Reachable cancelling limit (future_cancel number s).0
  notes :
      (number : ℕ) (transfer_id : String) (s : WorkerAsyncExecutionPool)
      → IsWork s number transfer_id canceling
      → Reachable cancelling limit s
      → Reachable cancelling limit (record_canceled transfer_id number s)
  drains :
      (s : WorkerAsyncExecutionPool)
      → Reachable cancelling limit s
      → Reachable cancelling limit (drain_terminal s).0
  closes :
      (s : WorkerAsyncExecutionPool)
      → Reachable cancelling limit s
      → Reachable cancelling limit (begin_close s)
  notes_at_close :
      (futures : Dict String ℕ) (number : ℕ) (transfer_id : String) (s : WorkerAsyncExecutionPool)
      → lookup transfer_id futures ≡ some number
      → IsWork s number transfer_id canceling
      → Reachable cancelling limit s
      → Reachable cancelling limit (close_one futures transfer_id s)
  notes_again :
      (number : ℕ) (transfer_id : String) (s : WorkerAsyncExecutionPool)
      → cancelling ≡ repeatedly
      → IsWork s number transfer_id canceled
      → Reachable cancelling limit s
      → Reachable cancelling limit (record_canceled transfer_id number s)
  notes_again_at_close :
      (futures : Dict String ℕ) (transfer_id : String) (s : WorkerAsyncExecutionPool)
      → cancelling ≡ repeatedly
      → Reachable cancelling limit s
      → Reachable cancelling limit (close_one futures transfer_id s)
