-- ===== src/Lib.antt =====
-- PCIe_Pool (`turbobus`) moves buffers between a host and its GPUs over the direct PCIe link of the
-- target GPU and, in parallel, over the links of other GPUs that relay the data. This library models
-- the part of it that decides what goes where, and the books that a daemon keeps of it, in these
-- stages:
--
--   1. the planner (turbobus/planner_engine.py, turbobus/planner_types.py) cuts a transfer into chunks
--      and gives each chunk to a path;
--   2. the block plan (turbobus/scheduler/block_plan.py, path_allocator.py, block_queue.py) names the
--      chunks as blocks, with the path of each;
--   3. the daemon (turbobus/daemon/server.py, turbobus/schema.py) admits the relay leases of a plan and
--      counts the chunks in flight of each session and relay;
--   4. the daemon's block runtime (turbobus/daemon/block_runtime.py) follows the blocks while a worker
--      moves them; the worker binds the buffers of a transfer (turbobus/worker/resources.py), runs
--      transfers in an execution pool (turbobus/worker/lifecycle.py) with slots of a staging pool
--      (turbobus/worker/staging_pool.py), and hands a plan to the native executor
--      (turbobus/native_plan.py).
--
-- Beside them stand the clients' parts: the offload store (turbobus/offload), which submits blocks for
-- prefetch and eviction, the offload transaction (turbobus/state_offload/transaction.py) and the pool of
-- backing buffers of the vLLM adapter (turbobus/adapters/vllm_backing_pool.py).
--
-- Common holds what the modules share: numbers, texts, dicts in insertion order (Dict), dicts of counts
-- (Counter), results of code that may raise (Outcome) and the operations on floats (Float). Python's
-- floats are a type with operations and no laws; the one theorem that needs an order takes the laws as
-- a hypothesis. Integers that the code keeps non-negative are natural numbers, others are Int.ℤ.
--
--   Planner        the planner's records; Chunks (`_make_chunks`, `plan_ranges`, `_range_fields`),
--                  Paths (`_build_paths`), Assign (`_plan_chunks`), Cost (`_plan_cost_metadata`), Engine
--                  (`plan`, `plan_ranges`, `TransferMode(mode)`), with their theorems in the modules below
--   BlockPlan      the records; Build (`block_plan_from_assignments`, `_split_chunk`), Allocate
--                  (`block_plan_for_transfer_plan`, `block_plan_metadata`), QueueRecords
--                  (`queue_records_for_block_plan`, `queue_summary`), EndToEnd from a transfer to blocks
--   Quota          the records; Leases (`_commit_scheduler_leases_locked`,
--                  `_drop_active_reservation_state_locked`, `_release_reservation_locked`, the books in
--                  `register_session` and `_close_session_locked`), Admission
--                  (`_relay_admission_blocked_reason_locked`), Steps (the daemon as a state machine)
--   BlockRuntime   the records; Create (`runtime_records_for_block_plan`), Advance
--                  (`advance_for_status`, `advance_from_worker_progress`), Summary (`runtime_summary`)
--   Scheduler      Requests (`_validated_plan_transfer_inputs`, `_plan_or_direct`), Leases
--                  (`_leases_for_plan`, `_relay_reservation_chunks`), Stats (`_stats_for_plan`,
--                  `resolved_mode_for_plan`)
--   StagingPool    Slots (`WorkerStagingSlot`, `_align_up`), Pool (`WorkerStagingPool`), both of
--                  turbobus/worker/staging_pool.py; RoundTrip and Ids state what the methods promise
--   StateOffload   Transaction (turbobus/state_offload/transaction.py) and its Protocol
--   OffloadStore   Blocks (`_OffloadBlock`, `_ranges`, `_can_use_range_batch`), Transfers
--                  (`_submit_transfer`, `_submit_many`), Store (the other methods of `OffloadStore`) of
--                  turbobus/offload; Spec and Refinement state what a client observes
--   BackingPool    Signatures (`backing_signature`), Pool (`acquire`, `release`) of
--                  turbobus/adapters/vllm_backing_pool.py; Clients, Exclusive, Fitting and Reuse state
--                  what holds of the groups that clients hold
--   AsyncPool      Pool (`WorkerAsyncExecutionPool` of turbobus/worker/lifecycle.py), Steps (the
--                  interleavings of its threads), Placement, History and Stale
--   NativePlan     Payload (`native_transfer_plan`, `as_dict`), Ranges (`native_ranges`) of
--                  turbobus/native_plan.py; Checked states what gets through, Accepted that plans do
--   Resources      Span (`_validate_cuda_ipc_device_span`), Binding (`__enter__` and `__exit__` of
--                  `WorkerDataPlaneResourceBinding`) of turbobus/worker/resources.py; Released and
--                  Exits state what is closed
--   Samples        small inputs; each component's Tests apply the theorems to them
--
-- A loop of the source that runs until a number of bytes is used up is recursion on fuel, and the fuel
-- is that number of bytes: each round takes one byte at least, so the loop always ends by its own test,
-- which the modules Endings and Tiling are about. Loops over lists are recursion on the list.
--
-- Not modelled: the dictionaries of metadata that are only copied, logging, the audit trail, locks
-- (each handler runs under the daemon's lock, and each lock section of the execution pool is one step),
-- sockets, the CUDA and native layers, the limits of std::size_t and int in the objects of the extension
-- (byte counts are natural numbers without a bound), topology and profile files, the evidence that the
-- worker and the session check, and the other files of turbobus/adapters. The two tests of the admission handler that
-- read the daemon's load view are parameters, and the theorems hold whatever they answer.
pub mod Common
pub mod Planner
pub mod BlockPlan
pub mod BlockRuntime
pub mod Quota
pub mod Scheduler
pub mod StateOffload
pub mod OffloadStore
pub mod BackingPool
pub mod AsyncPool
pub mod NativePlan
pub mod Resources
pub mod StagingPool
pub mod Samples
