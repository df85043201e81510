-- ===== src/AsyncPool/Pool.antt =====
-- The methods of `WorkerAsyncExecutionPool` in turbobus/worker/lifecycle.py.
use pcie_pool.Common.{
  ℕ, suc, ◌+◌, List, [], ◌∷◌, ◌++◌, Option, none, some, Bool, true, false, ◌||◌, String, ltb,
  length, if◌then◌else◌, Result, ok, err, value_error, pool_error, ◌>>◌, raise_if,
}
use pcie_pool.Common.Int.{ℤ, pos, pos_part, ltb_ℤ, leb_ℤ}
use pcie_pool.Common.Dict.{Dict, lookup, insert, erase, modify, contains, keys, string_eq, nat_eq}
use pcie_pool.Common.Order.{sorted}
use pcie_pool.AsyncPool.{
  Phase, pending, started, executing, finished, canceling, canceled, TerminalRecord,
  WorkerAsyncExecutionPool,
}

-- `__init__`, with the history limit of the executor's options.
unfoldable pub new_pool : Option ℤ → ℤ → Result WorkerAsyncExecutionPool
new_pool max_workers terminal_history_limit = do
  raise_if (leb_ℤ (elim max_workers [ none ↦ pos 1 | some n ↦ n ]) (pos 0))
      (value_error "worker async execution pool max_workers must be positive")
  ok (record {
    next_pool_sequence = 1;
    queued = [];
    running = [];
    futures = [];
    terminal = [];
    terminal_history_limit = terminal_history_limit;
    terminal_history_evictions = 0;
    closed = false;
    works = [];
  })

-- The loop of `_record_terminal_locked`: the oldest records go while there are too many. The second
-- component counts them.
unfoldable pub evict {ℓ} : {A : Type ℓ} → ℕ → List A → List A × ℕ
evict limit [] = ([], 0)
evict limit (x ∷ xs) =
    let rest = evict limit xs in
    if ltb limit (length (x ∷ xs)) then (rest.0, suc rest.1) else (x ∷ xs, 0)

-- `_terminal[key] = record` and `move_to_end(key)`.
unfoldable pub move_to_end :
    String → TerminalRecord → Dict String TerminalRecord → Dict String TerminalRecord
unfolding erase
move_to_end key value d = erase key d ++ ((key, value) ∷ [])

-- `_record_terminal_locked`
unfoldable pub record_terminal :
    String → TerminalRecord → WorkerAsyncExecutionPool → WorkerAsyncExecutionPool
unfolding move_to_end evict
record_terminal transfer_id value pool =
    let moved = move_to_end transfer_id value pool.terminal in
    if ltb_ℤ pool.terminal_history_limit (pos 0)
    then record pool { terminal = moved }
    else let kept = evict (pos_part pool.terminal_history_limit) moved in
      record pool {
        terminal = kept.0;
        terminal_history_evictions = pool.terminal_history_evictions + kept.1;
      }

abbrev pub to_phase : ℕ → Phase → WorkerAsyncExecutionPool → WorkerAsyncExecutionPool
to_phase number phase pool = record pool {
  works = modify number (λ w. record w { phase = phase }) pool.works;
}

-- The rest of the lock of `submit`, in a pool that is open. The second argument is how the thread
-- pool's own `submit` ends.
unfoldable pub enqueue :
    ℕ → Result (Unit {0}) → String → WorkerAsyncExecutionPool → WorkerAsyncExecutionPool × Result ℕ
unfolding contains insert erase
enqueue number accepted transfer_id pool =
    if contains transfer_id pool.queued || contains transfer_id pool.running
    then (pool, err (pool_error "worker transfer is already queued or running"))
    else elim accepted [
      | err e ↦ (record pool { futures = erase transfer_id pool.futures }, err e)
      | ok _ ↦ (
        record pool {
          queued = insert transfer_id number pool.queued;
          futures = insert transfer_id number pool.futures;
          works = insert number (record { transfer_id = transfer_id; phase = pending }) pool.works;
        },
        ok number,
      )
    ]

-- `_next_pool_ticket`: the number of the ticket.
unfoldable pub next_pool_ticket : WorkerAsyncExecutionPool → WorkerAsyncExecutionPool × ℕ
next_pool_ticket pool =
    (record pool { next_pool_sequence = suc pool.next_pool_sequence }, pool.next_pool_sequence)

-- The lock of `submit`, with the number of the pool ticket.
unfoldable pub submit_ticket :
    ℕ → Result (Unit {0}) → String → WorkerAsyncExecutionPool → WorkerAsyncExecutionPool × Result ℕ
unfolding enqueue
submit_ticket number accepted transfer_id pool =
    if pool.closed
    then (pool, err (pool_error "worker async execution pool is closed"))
    else enqueue number accepted transfer_id pool

-- `submit`, by a thread that no other one comes between. The first argument is how the checks of the
-- ticket end. The number of the pool ticket is returned.
unfoldable pub submit :
    Result (Unit {0})
    → Result (Unit {0})
    → String
    → WorkerAsyncExecutionPool
    → WorkerAsyncExecutionPool × Result ℕ
unfolding next_pool_ticket submit_ticket
submit validated accepted transfer_id pool = elim validated [
  | err e ↦ (pool, err e)
  | ok _ ↦
      let (counted, number) = next_pool_ticket pool in
      submit_ticket number accepted transfer_id counted
]

-- A thread of the thread pool takes a call.
unfoldable pub start : ℕ → WorkerAsyncExecutionPool → WorkerAsyncExecutionPool
unfolding modify
start number pool = to_phase number started pool

-- The first lock of `_run_transfer`.
unfoldable pub begin_run : String → ℕ → WorkerAsyncExecutionPool → WorkerAsyncExecutionPool
unfolding insert erase modify
begin_run transfer_id number pool =
    let begun : WorkerAsyncExecutionPool = record pool {
      queued = erase transfer_id pool.queued;
      running = insert transfer_id number pool.running;
    } in
    to_phase number executing begun

-- The second lock of `_run_transfer`, after an execution that ends in a state, "failed" where it
-- raises.
unfoldable pub end_run : String → ℕ → String → WorkerAsyncExecutionPool → WorkerAsyncExecutionPool
unfolding erase modify record_terminal
end_run transfer_id number state pool =
    let ended : WorkerAsyncExecutionPool = record pool {
      running = erase transfer_id pool.running;
      futures = erase transfer_id pool.futures;
    } in
    to_phase number finished
      (record_terminal transfer_id (record { number = number; state = state }) ended)

-- `Future.cancel`: whether the future is cancelled, which it is too where it was before.
unfoldable pub future_cancel : ℕ → WorkerAsyncExecutionPool → WorkerAsyncExecutionPool × Bool
unfolding lookup modify
future_cancel number pool = elim (lookup number pool.works) [
  | none ↦ (pool, false)
  | some w ↦ elim w.phase [
    | pending ↦ (to_phase number canceling pool, true)
    | canceling ↦ (pool, true)
    | canceled ↦ (pool, true)
    | _ ↦ (pool, false)
  ]
]

-- What is written down for a cancelled future: the lock of `cancel_transfer` where `cancel` returned
-- True, and of the loop of `close`.
unfoldable pub record_canceled : String → ℕ → WorkerAsyncExecutionPool → WorkerAsyncExecutionPool
unfolding erase modify record_terminal
record_canceled transfer_id number pool =
    let dropped : WorkerAsyncExecutionPool = record pool {
      queued = erase transfer_id pool.queued;
      futures = erase transfer_id pool.futures;
    } in
    to_phase number canceled
      (record_terminal transfer_id (record { number = number; state = "canceled" }) dropped)

-- `drain_terminal`
unfoldable pub drain_terminal :
    WorkerAsyncExecutionPool → WorkerAsyncExecutionPool × Dict String TerminalRecord
drain_terminal pool = (record pool { terminal = [] }, pool.terminal)

-- The first lock of `close`.
unfoldable pub begin_close : WorkerAsyncExecutionPool → WorkerAsyncExecutionPool
begin_close pool = record pool { closed = true }

abbrev pub is_cancelled : Phase → Bool
is_cancelled canceling = true
is_cancelled canceled = true
is_cancelled _ = false

-- `future.cancelled()`
abbrev pub future_cancelled : ℕ → WorkerAsyncExecutionPool → Bool
future_cancelled number pool = elim (lookup number pool.works) [
  | none ↦ false
  | some w ↦ is_cancelled w.phase
]

-- One round of `_record_close_cancelled_queued_locked`, with the futures that `close` has taken from
-- the table before it cancelled them.
unfoldable pub close_one :
    Dict String ℕ → String → WorkerAsyncExecutionPool → WorkerAsyncExecutionPool
unfolding lookup record_canceled
close_one futures transfer_id pool = elim (lookup transfer_id pool.queued) [
  | none ↦ pool
  | some number ↦ elim (lookup transfer_id futures) [
    | none ↦ record_canceled transfer_id number pool
    | some future ↦
        if future_cancelled future pool then record_canceled transfer_id future pool else pool
  ]
]

close_each : Dict String ℕ → List String → WorkerAsyncExecutionPool → WorkerAsyncExecutionPool
unfolding close_one
close_each futures [] pool = pool
close_each futures (transfer_id ∷ ids) pool =
    close_each futures ids (close_one futures transfer_id pool)

-- `_record_close_cancelled_queued_locked`
unfoldable pub end_close :
    Bool → Dict String ℕ → Dict String ℕ → WorkerAsyncExecutionPool → WorkerAsyncExecutionPool
unfolding close_each sorted
end_close cancel_queued queued_snapshot futures pool =
    if cancel_queued then close_each futures (sorted (keys queued_snapshot)) pool else pool
