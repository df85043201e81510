-- ===== src/AsyncPool.antt =====
-- The worker's pool of transfers that run on threads: `WorkerAsyncExecutionPool` of
-- turbobus/worker/lifecycle.py. Each part of a method that holds the pool's lock is one step, and so
-- is each call on a future; the steps of different threads come in any order. The thread pool and the
-- futures are the standard library's.
pub mod Pool
pub mod Steps
pub mod Placement
pub mod History
pub mod Stale
mod Tests
use pcie_pool.Common.{ℕ, Bool, String}
use pcie_pool.Common.Int.{ℤ}
use pcie_pool.Common.Dict.{Dict}

-- What has become of a submitted call: its future is pending; a thread has taken it, and it has not
-- come to its first lock; it executes; it is done. A future that is cancelled is `canceling` until
-- the one who cancelled it has written that down.
pub data Phase : Type 0 where
  pending started executing finished canceling canceled : Phase

pub record Work : Type 0 where
  pub transfer_id : String
  pub phase : Phase

-- A record of the history: the number of the pool ticket, and the state.
pub record TerminalRecord : Type 0 where
  pub number : ℕ
  pub state : String

-- The tables keep for each transfer the number of its pool ticket, which stands for its record and
-- for its future; `works` are the calls that the thread pool was given.
pub record WorkerAsyncExecutionPool : Type 0 where
  pub next_pool_sequence : ℕ
  pub queued : Dict String ℕ
  pub running : Dict String ℕ
  pub futures : Dict String ℕ
  pub terminal : Dict String TerminalRecord
  pub terminal_history_limit : ℤ
  pub terminal_history_evictions : ℕ
  pub closed : Bool
  pub works : Dict ℕ Work
