-- ===== src/BlockPlan/QueueRecords.antt =====
-- turbobus/scheduler/block_queue.py: the queue records of a block plan and their summary.
use pcie_pool.Common.{ℕ, List, [], map, Option, none, String, length}
use pcie_pool.Common.Dict.{Dict, string_eq}
use pcie_pool.Common.Counter.{tally}
use pcie_pool.BlockPlan.{TransferBlock, BlockPlan}

pub record BlockQueueRecord : Type 0 where
  pub block_id : String
  pub path_id : String
  pub state : String
  pub attempt : ℕ
  pub bytes : ℕ
  pub error : Option String

pub queue_record : TransferBlock → BlockQueueRecord
queue_record block = record {
  block_id = block.block_id;
  path_id = block.path_id;
  state = "queued";
  attempt = block.attempt;
  bytes = block.bytes;
  error = none;
}

-- `queue_records_for_block_plan`
unfoldable pub queue_records_for_block_plan : {F : Type 0} → BlockPlan F → List BlockQueueRecord
unfolding queue_record
queue_records_for_block_plan plan = map queue_record plan.blocks

-- `transition_block_record` on a record.
pub transition_block_record : BlockQueueRecord → String → Option String → BlockQueueRecord
transition_block_record r state error = record r { state = state; error = error }

pub record QueueSummary : Type 0 where
  pub block_count : ℕ
  pub states : Dict String ℕ
  pub bytes_by_state : Dict String ℕ

-- `queue_summary`: the two dicts of the loop do not depend on one another.
unfoldable pub queue_summary : List BlockQueueRecord → QueueSummary
unfolding tally
queue_summary records = record {
  block_count = length records;
  states = tally (λ r. r.state) (λ _. 1) records [];
  bytes_by_state = tally (λ r. r.state) (λ r. r.bytes) records [];
}
