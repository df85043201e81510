-- ===== src/AsyncPool/Tests.antt =====
-- The theorems on the worker's pool, applied to a transfer that is cancelled and submitted again, next
-- to one that executes.
use pcie_pool.Common.{
  ℕ, ◌≤◌, ◌≡◌, refl, ◌∷◌, [], none, some, true, false, String, str_eq, length, ok, arith,
}
use pcie_pool.Common.Int.{pos}
use pcie_pool.Common.Dict.{lookup, insert, erase, modify, contains, string_eq, nat_eq}
use pcie_pool.AsyncPool.{pending, started, executing, canceling, canceled, WorkerAsyncExecutionPool}
use pcie_pool.AsyncPool.Pool.{
  new_pool, next_pool_ticket, submit_ticket, submit, enqueue, start, begin_run, end_run,
  future_cancel, record_canceled, record_terminal, move_to_end, evict,
}
use pcie_pool.AsyncPool.Steps.{
  IsWork, Reachable, once, starts, tickets, submits, takes, begins, ends, cancels, notes,
}
use pcie_pool.AsyncPool.Placement.Reached.{Reachable-Placed, Reachable-exclusive}
use pcie_pool.AsyncPool.History.{Reachable-terminal}
use pcie_pool.AsyncPool.Stale.{cancel_twice}

abbrev empty : WorkerAsyncExecutionPool
empty = record {
  next_pool_sequence = 1;
  queued = [];
  running = [];
  futures = [];
  terminal = [];
  terminal_history_limit = pos 1;
  terminal_history_evictions = 0;
  closed = false;
  works = [];
}

abbrev given : String → WorkerAsyncExecutionPool → WorkerAsyncExecutionPool
given t s = (submit_ticket s.next_pool_sequence (ok tt) t (next_pool_ticket s).0).0

-- The transfers "a" and "b" are submitted, "a" executes, "b" is cancelled and submitted again.
abbrev busy : WorkerAsyncExecutionPool
busy = begin_run "a" 1 (start 1 (given "b" (given "a" empty)))

abbrev cancelled : WorkerAsyncExecutionPool
cancelled = record_canceled "b" 2 (future_cancel 2 busy).0

abbrev again : WorkerAsyncExecutionPool
again = given "b" cancelled

abbrev ended : WorkerAsyncExecutionPool
ended = end_run "a" 1 "complete" again

computed :
    (new_pool none (pos 1) ≡ ok empty)
    × IsWork (given "b" (given "a" empty)) 1 "a" pending
    × IsWork (start 1 (given "b" (given "a" empty))) 1 "a" started
    × IsWork (future_cancel 2 busy).0 2 "b" canceling
    × IsWork again 1 "a" executing
    × IsWork again 2 "b" canceled
    × IsWork again 3 "b" pending
    × (again.next_pool_sequence ≡ 4)
    × (again.closed ≡ false)
    × (ended.terminal ≡ ("a", record { number = 1; state = "complete" }) ∷ [])
    × (ended.terminal_history_evictions ≡ 1)
    × (cancelled.next_pool_sequence ≡ 3)
    × (lookup 3 cancelled.works ≡ none)
unfolding new_pool next_pool_ticket submit_ticket submit enqueue start begin_run end_run
    future_cancel record_canceled record_terminal move_to_end evict lookup insert erase modify
    contains str_eq
computed = (refl, refl, refl, refl, refl, refl, refl, refl, refl, refl, refl, refl, refl)

given_reached :
    (t : String) (s : WorkerAsyncExecutionPool)
    → lookup s.next_pool_sequence s.works ≡ none
    → Reachable once (pos 1) s
    → Reachable once (pos 1) (given t s)
unfolding next_pool_ticket
given_reached t s new r =
    submits s.next_pool_sequence (ok tt) t (next_pool_ticket s).0 (ground arith) new (tickets s r)

abbrev reached : Reachable once (pos 1) again
unfolding lookup submit_ticket enqueue next_pool_ticket contains
reached = given_reached "b" cancelled (rw computed.11 computed.12) (
    notes 2 "b" (future_cancel 2 busy).0 computed.3 (
      cancels 2 busy (
        begins 1 "a" _ computed.2 (
          takes 1 "a" _ computed.1 (
            given_reached "b" _ refl
              (given_reached "a" empty refl (starts none empty computed.0)))))))

Reachable-Placed_example :
    (lookup "a" again.queued ≡ none)
    × (lookup "a" again.running ≡ some 1)
    × (lookup "a" again.futures ≡ some 1)
Reachable-Placed_example =
    Reachable-Placed (pos 1) again 1 (record { transfer_id = "a"; phase = executing }) reached
      computed.4

abbrev waiting : ℕ
waiting = 3

Reachable-exclusive_example : waiting ≡ waiting
Reachable-exclusive_example =
    Reachable-exclusive (pos 1) again waiting waiting
      (record { transfer_id = "b"; phase = pending })
      (record { transfer_id = "b"; phase = pending }) reached computed.6 computed.6 refl refl refl

Reachable-terminal_example : length ended.terminal ≤ 1
Reachable-terminal_example =
    Reachable-terminal once 1 ended (ends 1 "a" "complete" again computed.4 reached)

cancel_twice_example :
    let after = record_canceled "b" 2 again in
    let third = submit (ok tt) (ok tt) "b" after in
    (future_cancel 2 again ≡ (again, true))
    × (contains "b" after.queued ≡ false)
    × (third.1 ≡ ok again.next_pool_sequence)
    × IsWork third.0 3 "b" pending
    × IsWork third.0 again.next_pool_sequence "b" pending
cancel_twice_example =
    cancel_twice (pos 1) again 2 3 "b" reached computed.5 computed.6 computed.8
      (rw computed.7 (ground arith))
