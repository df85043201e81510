-- ===== src/BlockRuntime/Tests.antt =====
-- The theorems on the daemon's block records, applied to small inputs.
use pcie_pool.Common.{ℕ, ◌≡◌, refl, List, [], ◌∷◌, map, none, some, String, ok, str_eq}
use pcie_pool.Common.Int.{pos}
use pcie_pool.Common.Dict.{string_eq}
use pcie_pool.BlockPlan.{BlockPlan}
use pcie_pool.BlockPlan.Allocate.{block_plan_for_transfer_plan}
use pcie_pool.BlockRuntime.{BlockRuntimeRecord}
use pcie_pool.BlockRuntime.Advance.{
  terminal_partial_records, Progress, advance_from_worker_progress,
}
use pcie_pool.BlockRuntime.Advance.Partial.{IsGreedy, terminal_partial_records-IsGreedy}
use pcie_pool.BlockRuntime.Advance.Worker.{
  Moves, KeepsEnded, advance_from_worker_progress-KeepsEnded,
}
use pcie_pool.Samples.{floats, pooled_plan, from_ok}

abbrev block : String → ℕ → BlockRuntimeRecord ℕ
block id n = record {
  transfer_id = "t";
  plan_id = "p";
  block_id = id;
  path_id = "h2d:direct:0";
  path_kind = "direct";
  direction = "h2d";
  target_device = pos 0;
  relay_device = none;
  state = "running";
  attempt = 0;
  src_offset = pos 0;
  dst_offset = pos 0;
  bytes = n;
  allowed_path_ids = [];
  lease_ids = "l" ∷ [];
  plan_generation = pos 0;
  ticket_id = none;
  issued_at = none;
  started_at = some 5;
  completed_at = none;
  error = none;
}

abbrev blocks : List (BlockRuntimeRecord ℕ)
blocks = block "b0" 4 ∷ block "b1" 3 ∷ block "b2" 2 ∷ []

abbrev progress : Progress
progress = record {
  records =
      record { block_id = some "b1"; state = some "complete" }
      ∷ record { block_id = some "b2"; state = some "failed" }
      ∷ [];
  state = some "running";
  bytes_completed = pos 3;
}

abbrev progressed : List (BlockRuntimeRecord ℕ)
progressed = from_ok [] (advance_from_worker_progress blocks progress none 9)

progressed-ok : advance_from_worker_progress blocks progress none 9 ≡ ok progressed
unfolding advance_from_worker_progress str_eq
progressed-ok = refl

states : map (λ r. r.state) progressed ≡ "running" ∷ "completed" ∷ "failed" ∷ []
unfolding advance_from_worker_progress str_eq
states = refl

advance_from_worker_progress-KeepsEnded_example :
    Moves 9 blocks progressed × KeepsEnded blocks progressed
advance_from_worker_progress-KeepsEnded_example =
    advance_from_worker_progress-KeepsEnded blocks progress none 9 progressed progressed-ok

terminal_partial_records-IsGreedy_example :
    IsGreedy "failed" none 9 6 blocks (terminal_partial_records blocks "failed" (pos 6) none 9)
unfolding str_eq
terminal_partial_records-IsGreedy_example =
    terminal_partial_records-IsGreedy blocks "failed" (pos 6) none 9 refl

abbrev block_plan : BlockPlan ℕ
block_plan = block_plan_for_transfer_plan pooled_plan "seed" "h2d"
