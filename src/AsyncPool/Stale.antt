-- ===== src/AsyncPool/Stale.antt =====
-- Cancelling an execution a second time in the pool of turbobus/worker/lifecycle.py.
use pcie_pool.Common.{
  ℕ, ◌<◌, ◌≡◌, refl, ap, ◌∙◌, inl, inr, none, some, true, false, ◌==◌, String, arith, ok,
  Bool-cases,
}
use pcie_pool.Common.Int.{ℤ}
use pcie_pool.Common.Dict.{
  Dict, lookup, insert, erase, modify, contains, contains-found, lookup-insert, string_eq, nat_eq,
  nat_eq_iff,
}
use pcie_pool.Quota.Sums.{lookup-modify}
use pcie_pool.AsyncPool.{pending, canceled, Work, WorkerAsyncExecutionPool}
use pcie_pool.AsyncPool.Pool.{
  submit, next_pool_ticket, submit_ticket, enqueue, future_cancel, record_canceled, record_terminal,
}
use pcie_pool.AsyncPool.Steps.{IsWork, once, Reachable}
use pcie_pool.AsyncPool.Placement.{erase-own}
use pcie_pool.AsyncPool.Placement.Reached.{Reachable-IsPlaced}

absent-contains : (t : String) (d : Dict String ℕ) → lookup t d ≡ none → contains t d ≡ false
absent-contains t d absent = elim (Bool-cases (contains t d)) [
  | inr missing ↦ missing
  | inl known ↦ absurd (ground (arith, absent, (contains-found t d known).1))
]

other_number :
    (n m : ℕ) (t : String) (s : WorkerAsyncExecutionPool)
    → IsWork s n t canceled
    → IsWork s m t pending
    → (n == m) ≡ false
other_number n m t s first second = elim (Bool-cases (n == m)) [
  | inr apart ↦ apart
  | inl same ↦
      absurd (ground (arith, first, second, ap (λ k. lookup k s.works) ((nat_eq_iff n m).0 same)))
]

record_canceled-tables :
    (t : String) (n : ℕ) (s : WorkerAsyncExecutionPool)
    → let after = record_canceled t n s in
      (after.queued ≡ erase t s.queued)
      × (after.running ≡ s.running)
      × (after.works ≡ modify n (λ w. record w { phase = canceled }) s.works)
      × (after.closed ≡ s.closed)
      × (after.next_pool_sequence ≡ s.next_pool_sequence)
unfolding record_canceled record_terminal
record_canceled-tables t n s = ground arith

-- A submission that an open pool accepts.
submit-accepted :
    (t : String) (s : WorkerAsyncExecutionPool)
    → s.closed ≡ false
    → contains t s.queued ≡ false
    → contains t s.running ≡ false
    → let after = submit (ok tt) (ok tt) t s in
      (after.1 ≡ ok s.next_pool_sequence)
      × (after.0.works
          ≡ insert s.next_pool_sequence (record { transfer_id = t; phase = pending }) s.works)
unfolding submit next_pool_ticket submit_ticket enqueue
submit-accepted t s opened no_queued no_running =
    rw (submit, opened, enqueue, no_queued, no_running) (refl, refl)

-- Where a cancelled execution's transfer has been submitted again and the new call waits, a second
-- cancellation of the old execution succeeds and takes the new call off the books, though it still
-- waits; one more submission of the transfer is then accepted, and two calls for it wait.
pub cancel_twice :
    (limit : ℤ) (s : WorkerAsyncExecutionPool) (n m : ℕ) (t : String)
    → Reachable once limit s
    → IsWork s n t canceled
    → IsWork s m t pending
    → s.closed ≡ false
    → m < s.next_pool_sequence
    → let cancelled = record_canceled t n s in
      let again = submit (ok tt) (ok tt) t cancelled in
      (future_cancel n s ≡ (s, true))
      × (contains t cancelled.queued ≡ false)
      × (again.1 ≡ ok s.next_pool_sequence)
      × IsWork again.0 m t pending
      × IsWork again.0 s.next_pool_sequence t pending
unfolding future_cancel
cancel_twice limit s n m t r first second opened below =
    let after = record_canceled t n s in
    let next = s.next_pool_sequence in
    let again : Work = record { transfer_id = t; phase = pending } in
    let reached = Reachable-IsPlaced limit s r in
    let same = record_canceled-tables t n s in
    let no_queued : contains t after.queued ≡ false =
      rw same.0
        (absent-contains t (erase t s.queued) (erase-own t s.queued reached.queued_keyed)) in
    let no_running : contains t after.running ≡ false =
      rw same.1 (absent-contains t s.running (reached.placed m again second).1) in
    let accepted = submit-accepted t after (same.3 ∙ opened) no_queued no_running in
    let waiting : lookup m after.works ≡ some again =
      ap (lookup m) same.2
      ∙ lookup-modify n m (λ w. record w { phase = canceled }) s.works
      ∙ rw (other_number n m t s first second) second in
    let works : (submit (ok tt) (ok tt) t after).0.works ≡ insert next again after.works =
      accepted.1 ∙ ap (λ k. insert k again after.works) same.4 in
    (
      rw (first, future_cancel) refl,
      no_queued,
      accepted.0 ∙ ap (λ k. ok k) same.4,
      ap (lookup m) works ∙ lookup-insert next m again after.works ∙ rw (ahead, waiting) refl,
      ap (lookup next) works
          ∙ lookup-insert next next again after.works
          ∙ rw ((nat_eq_iff next next).1 refl) refl,
    )
  where
    ahead : (s.next_pool_sequence == m) ≡ false
    ahead = ground (arith, below)
