-- ===== src/AsyncPool/Placement/Runs.antt =====
-- The steps of one call in the pool of turbobus/worker/lifecycle.py keep the tables in place.
use pcie_pool.Common.{ℕ, ◌≡◌, refl, ap, ◌∙◌, inl, inr, some, true, String, arith, Option-cases}
use pcie_pool.Common.Dict.{Dict, lookup, erase, modify, insert-IsKeyed, string_eq, nat_eq}
use pcie_pool.Quota.Sums.{erase-IsKeyed}
use pcie_pool.AsyncPool.{
  Phase, pending, started, executing, finished, canceling, canceled, TerminalRecord,
  WorkerAsyncExecutionPool,
}
use pcie_pool.AsyncPool.Pool.{
  start, begin_run, end_run, future_cancel, record_canceled, record_terminal, close_one, to_phase,
  future_cancelled,
}
use pcie_pool.AsyncPool.Steps.{IsWork}
use pcie_pool.AsyncPool.Placement.{
  IsPlaced, moved-Placed, erase-other, insert-other, erase-own, insert-own,
}

-- The history is no part of the tables.
pub record_terminal-tables :
    (t : String) (value : TerminalRecord) (s : WorkerAsyncExecutionPool)
    → ((record_terminal t value s).queued ≡ s.queued)
      × ((record_terminal t value s).running ≡ s.running)
      × ((record_terminal t value s).futures ≡ s.futures)
      × ((record_terminal t value s).works ≡ s.works)
unfolding record_terminal
record_terminal-tables t value s = ground arith

pub start-IsPlaced :
    (n : ℕ) (t : String) (s : WorkerAsyncExecutionPool)
    → IsWork s n t pending
    → IsPlaced s
    → IsPlaced (start n s)
unfolding start
start-IsPlaced n t s here h = record {
  queued_keyed = h.queued_keyed;
  running_keyed = h.running_keyed;
  futures_keyed = h.futures_keyed;
  placed =
      moved-Placed s (to_phase n started s) n t pending started h here refl refl
        (λ u apart. (refl, refl, refl)) (h.placed n _ here);
}

pub begin_run-IsPlaced :
    (n : ℕ) (t : String) (s : WorkerAsyncExecutionPool)
    → IsWork s n t started
    → IsPlaced s
    → IsPlaced (begin_run t n s)
unfolding begin_run
begin_run-IsPlaced n t s here h = record {
  queued_keyed = erase-IsKeyed t s.queued h.queued_keyed;
  running_keyed = insert-IsKeyed t n s.running h.running_keyed;
  futures_keyed = h.futures_keyed;
  placed =
      moved-Placed s (begin_run t n s) n t started executing h here refl refl
        (λ u apart.
          (erase-other t u s.queued h.queued_keyed apart, insert-other t u n s.running apart, refl))
        (erase-own t s.queued h.queued_keyed, insert-own t n s.running, (h.placed n _ here).2);
}

pub end_run-IsPlaced :
    (n : ℕ) (t state : String) (s : WorkerAsyncExecutionPool)
    → IsWork s n t executing
    → IsPlaced s
    → IsPlaced (end_run t n state s)
unfolding end_run
end_run-IsPlaced n t state s here h =
    let ended : WorkerAsyncExecutionPool = record s {
      running = erase t s.running;
      futures = erase t s.futures;
    } in
    let same = record_terminal-tables t (record { number = n; state = state }) ended in
    record {
      queued_keyed = rw same.0 h.queued_keyed;
      running_keyed = rw same.1 (erase-IsKeyed t s.running h.running_keyed);
      futures_keyed = rw same.2 (erase-IsKeyed t s.futures h.futures_keyed);
      placed =
          moved-Placed s (end_run t n state s) n t executing finished h here refl
            (ap (modify n (λ w. record w { phase = finished })) same.3)
            (λ u apart. (
              ap (lookup u) same.0,
              ap (lookup u) same.1 ∙ erase-other t u s.running h.running_keyed apart,
              ap (lookup u) same.2 ∙ erase-other t u s.futures h.futures_keyed apart,
            ))
            tt;
    }

pub record_canceled-IsPlaced :
    (n : ℕ) (t : String) (s : WorkerAsyncExecutionPool)
    → IsWork s n t canceling
    → IsPlaced s
    → IsPlaced (record_canceled t n s)
unfolding record_canceled
record_canceled-IsPlaced n t s here h =
    let dropped : WorkerAsyncExecutionPool = record s {
      queued = erase t s.queued;
      futures = erase t s.futures;
    } in
    let same = record_terminal-tables t (record { number = n; state = "canceled" }) dropped in
    record {
      queued_keyed = rw same.0 (erase-IsKeyed t s.queued h.queued_keyed);
      running_keyed = rw same.1 h.running_keyed;
      futures_keyed = rw same.2 (erase-IsKeyed t s.futures h.futures_keyed);
      placed =
          moved-Placed s (record_canceled t n s) n t canceling canceled h here refl
            (ap (modify n (λ w. record w { phase = canceled })) same.3)
            (λ u apart. (
              ap (lookup u) same.0 ∙ erase-other t u s.queued h.queued_keyed apart,
              ap (lookup u) same.1,
              ap (lookup u) same.2 ∙ erase-other t u s.futures h.futures_keyed apart,
            ))
            tt;
    }

pub future_cancel-IsPlaced :
    (n : ℕ) (s : WorkerAsyncExecutionPool) → IsPlaced s → IsPlaced (future_cancel n s).0
unfolding future_cancel
future_cancel-IsPlaced n s h = elim (Option-cases (lookup n s.works)) [
  | inl absent ↦ rw (absent, future_cancel) h
  | inr (w, here) ↦ by_phase w.transfer_id w.phase here
]
  where
    by_phase : (t : String) (p : Phase) → IsWork s n t p → IsPlaced (future_cancel n s).0
    by_phase t pending here =
        rw (here, future_cancel)
          (record {
            queued_keyed = h.queued_keyed;
            running_keyed = h.running_keyed;
            futures_keyed = h.futures_keyed;
            placed =
                moved-Placed s (to_phase n canceling s) n t pending canceling h here refl refl
                  (λ u apart. (refl, refl, refl)) (h.placed n _ here);
          })
    by_phase t started here = rw (here, future_cancel) h
    by_phase t executing here = rw (here, future_cancel) h
    by_phase t finished here = rw (here, future_cancel) h
    by_phase t canceling here = rw (here, future_cancel) h
    by_phase t canceled here = rw (here, future_cancel) h

pub close_one-IsPlaced :
    (futures : Dict String ℕ) (n : ℕ) (t : String) (s : WorkerAsyncExecutionPool)
    → lookup t futures ≡ some n
    → IsWork s n t canceling
    → IsPlaced s
    → IsPlaced (close_one futures t s)
unfolding close_one
close_one-IsPlaced futures n t s taken_future here h =
    let cancelled : future_cancelled n s ≡ true = rw (future_cancelled, here) refl in
    let result : close_one futures t s ≡ record_canceled t n s =
      rw (close_one, (h.placed n _ here).0, taken_future, cancelled) refl in
    rw result (record_canceled-IsPlaced n t s here h)
