-- ===== src/AsyncPool/History.antt =====
-- The history that the pool of turbobus/worker/lifecycle.py keeps of what has ended.
use pcie_pool.Common.{
  ℕ, ◌+◌, ◌≤◌, ◌≡◌, refl, ap, ◌∙◌, inl, inr, List, [], ◌∷◌, ◌++◌, Option, false, String, arith, ltb,
  length, Bool-cases, Option-cases, Result, ok,
}
use pcie_pool.Common.Int.{ℤ, pos, ltb_ℤ}
use pcie_pool.Common.Dict.{Dict, lookup, erase, string_eq, nat_eq}
use pcie_pool.AsyncPool.{TerminalRecord, WorkerAsyncExecutionPool}
use pcie_pool.AsyncPool.Pool.{
  new_pool, next_pool_ticket, submit_ticket, enqueue, start, begin_run, end_run, future_cancel,
  record_canceled, drain_terminal, begin_close, close_one, future_cancelled, evict, move_to_end,
  record_terminal,
}
use pcie_pool.AsyncPool.Steps.{
  Cancelling, Reachable, starts, tickets, submits, notes_again, notes_again_at_close, takes, begins,
  ends, cancels, notes, drains, closes, notes_at_close,
}

-- The loop stops when there are few enough records, and has then dropped the oldest ones.
evict_lem {ℓ} :
    {A : Type ℓ} (limit : ℕ) (xs : List A)
    → (length (evict limit xs).0 ≤ limit)
      × ((evict limit xs).1 + length (evict limit xs).0 ≡ length xs)
      × ((dropped : List A) × (dropped ++ (evict limit xs).0 ≡ xs))
unfolding evict
evict_lem limit [] = (omega arith, refl, ([], refl))
evict_lem {A = A} limit (x ∷ xs) = elim (Bool-cases (ltb limit (length (x ∷ xs)))) [
  | inl more ↦
      let rest = evict_lem limit xs in
      rw more (rest.0, omega (arith, rest.1), (x ∷ rest.2.0, ap (λ (ys : List A). x ∷ ys) rest.2.1))
  | inr enough ↦ rw enough (ground (arith, enough), omega arith, ([], refl))
]

-- What is recorded is the newest record of the history, which keeps the newest records, no more than
-- its limit, and counts those that it drops.
pub record_terminal_lem :
    (limit : ℕ) (transfer_id : String) (value : TerminalRecord) (s : WorkerAsyncExecutionPool)
    → s.terminal_history_limit ≡ pos limit
    → let after = record_terminal transfer_id value s in
      let moved = move_to_end transfer_id value s.terminal in
      (length after.terminal ≤ limit)
      × (after.terminal_history_evictions + length after.terminal
          ≡ s.terminal_history_evictions + length moved)
      × ((dropped : Dict String TerminalRecord) × (dropped ++ after.terminal ≡ moved))
unfolding record_terminal
record_terminal_lem limit transfer_id value s is =
    let loop = evict_lem limit (move_to_end transfer_id value s.terminal) in
    let bounded : ltb_ℤ (pos limit) (pos 0) ≡ false = ground arith in
    rw (record_terminal, is, bounded) (loop.0, omega (arith, loop.1), loop.2)

abbrev IsBounded : ℕ → WorkerAsyncExecutionPool → Type 0
IsBounded limit s = (s.terminal_history_limit ≡ pos limit) × (length s.terminal ≤ limit)

record_terminal-IsBounded :
    (limit : ℕ) (transfer_id : String) (value : TerminalRecord) (s : WorkerAsyncExecutionPool)
    → s.terminal_history_limit ≡ pos limit
    → IsBounded limit (record_terminal transfer_id value s)
unfolding record_terminal
record_terminal-IsBounded limit transfer_id value s is =
    let kept : (record_terminal transfer_id value s).terminal_history_limit
        ≡ s.terminal_history_limit =
      ground arith in
    (kept ∙ is, (record_terminal_lem limit transfer_id value s is).0)

submit_ticket-IsBounded :
    (limit number : ℕ) (accepted : Result (Unit {0})) (t : String) (s : WorkerAsyncExecutionPool)
    → IsBounded limit s
    → IsBounded limit (submit_ticket number accepted t s).0
unfolding submit_ticket enqueue
submit_ticket-IsBounded limit number accepted t s h = ground arith

future_cancel-IsBounded :
    (limit n : ℕ) (s : WorkerAsyncExecutionPool)
    → IsBounded limit s
    → IsBounded limit (future_cancel n s).0
unfolding future_cancel
future_cancel-IsBounded limit n s h = ground arith

close_one-IsBounded :
    (limit : ℕ) (futures : Dict String ℕ) (t : String) (s : WorkerAsyncExecutionPool)
    → IsBounded limit s
    → IsBounded limit (close_one futures t s)
unfolding close_one record_canceled
close_one-IsBounded limit futures t s h = elim (Option-cases (lookup t s.queued)) [
  | inl absent ↦ rw (absent, close_one) h
  | inr (n, here) ↦ elim (Option-cases (lookup t futures)) [
    | inl none_taken ↦
        rw (here, close_one, none_taken)
          (record_terminal-IsBounded limit t (record { number = n; state = "canceled" })
            (record s { queued = erase t s.queued; futures = erase t s.futures }) h.0)
    | inr (m, future) ↦ elim (Bool-cases (future_cancelled m s)) [
      | inr alive ↦ rw (here, close_one, future, alive) h
      | inl cancelled ↦
          rw (here, close_one, future, cancelled)
            (record_terminal-IsBounded limit t (record { number = m; state = "canceled" })
              (record s { queued = erase t s.queued; futures = erase t s.futures }) h.0)
    ]
  ]
]

new_pool-IsBounded :
    (limit : ℕ) (max_workers : Option ℤ) (s : WorkerAsyncExecutionPool)
    → new_pool max_workers (pos limit) ≡ ok s
    → IsBounded limit s
unfolding new_pool
new_pool-IsBounded limit max_workers s made =
    let fields : (s.terminal_history_limit ≡ pos limit) × (s.terminal ≡ []) =
      ground (arith, made) in
    (fields.0, rw fields.1 (omega arith))

Reachable-IsBounded :
    (c : Cancelling) (limit : ℕ) (s : WorkerAsyncExecutionPool)
    → Reachable c (pos limit) s
    → IsBounded limit s
unfolding next_pool_ticket start begin_run end_run record_canceled drain_terminal begin_close
Reachable-IsBounded c limit s (starts max_workers _ made) =
    new_pool-IsBounded limit max_workers s made
Reachable-IsBounded c limit _ (tickets s q) = Reachable-IsBounded c limit s q
Reachable-IsBounded c limit _ (submits n accepted t s _ _ q) =
    submit_ticket-IsBounded limit n accepted t s (Reachable-IsBounded c limit s q)
Reachable-IsBounded c limit _ (notes_again n t s _ here q) =
    record_terminal-IsBounded limit t (record { number = n; state = "canceled" })
      (record s { queued = erase t s.queued; futures = erase t s.futures })
      (Reachable-IsBounded c limit s q).0
Reachable-IsBounded c limit _ (notes_again_at_close futures t s _ q) =
    close_one-IsBounded limit futures t s (Reachable-IsBounded c limit s q)
Reachable-IsBounded c limit _ (takes n t s here q) = Reachable-IsBounded c limit s q
Reachable-IsBounded c limit _ (begins n t s here q) = Reachable-IsBounded c limit s q
Reachable-IsBounded c limit _ (ends n t state s here q) =
    record_terminal-IsBounded limit t (record { number = n; state = state })
      (record s { running = erase t s.running; futures = erase t s.futures })
      (Reachable-IsBounded c limit s q).0
Reachable-IsBounded c limit _ (cancels n s q) =
    future_cancel-IsBounded limit n s (Reachable-IsBounded c limit s q)
Reachable-IsBounded c limit _ (notes n t s here q) =
    record_terminal-IsBounded limit t (record { number = n; state = "canceled" })
      (record s { queued = erase t s.queued; futures = erase t s.futures })
      (Reachable-IsBounded c limit s q).0
Reachable-IsBounded c limit _ (drains s q) = ((Reachable-IsBounded c limit s q).0, omega arith)
Reachable-IsBounded c limit _ (closes s q) = Reachable-IsBounded c limit s q
Reachable-IsBounded c limit _ (notes_at_close futures n t s taken here q) =
    close_one-IsBounded limit futures t s (Reachable-IsBounded c limit s q)

-- In every pool that the threads can lead to, however often executions are cancelled, the history has
-- no more records than its limit, where the limit is not negative.
pub Reachable-terminal :
    (cancelling : Cancelling) (limit : ℕ) (s : WorkerAsyncExecutionPool)
    → Reachable cancelling (pos limit) s
    → length s.terminal ≤ limit
Reachable-terminal cancelling limit s r = (Reachable-IsBounded cancelling limit s r).1
