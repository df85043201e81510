-- ===== src/StateOffload.antt =====
-- The transaction around a training step: turbobus/state_offload/transaction.py. The transfers and
-- the three callbacks are calls of other code: their outcomes are parameters, and the events record
-- which of them ran and in which order.
pub mod Transaction
pub mod Protocol
mod Tests
use pcie_pool.Common.{List, Bool, Result}

-- `_state`: "new", "active", "prefetched", "committed" or "rolled_back".
pub data State : Type 0 where
  new active prefetched committed rolled_back : State

-- The calls that a transaction makes.
pub data Event : Type 0 where
  submit_prefetch wait_prefetch restore capture submit_offload wait_offload rollback_restore : Event

-- Which of the optional callbacks are set.
pub record Callbacks : Type 0 where
  pub restore_before_step : Bool
  pub capture_after_step : Bool
  pub rollback_restore : Bool

-- `events` are the calls that were made and returned, the last one first. `prefetch_transfer` and
-- `commit_batch` tell whether the fields are set.
pub record StateOffloadTransaction : Type 0 where
  pub state : State
  pub prefetch_transfer : Bool
  pub commit_batch : Bool
  pub events : List Event

-- How each call ends, `err` where it raises.
abbrev pub Calls : Type 0
Calls = Event → Result (Unit {0})
