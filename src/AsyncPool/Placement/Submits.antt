-- ===== src/AsyncPool/Placement/Submits.antt =====
-- `submit` of the pool of turbobus/worker/lifecycle.py keeps the tables in place.
use pcie_pool.Common.{
  ℕ, ◌≡◌, refl, inl, inr, Option, none, some, false, ◌||◌, String, arith, ◌==◌, subst, str_eq,
  Result, err, pool_error, Result-cases, Bool-cases,
}
use pcie_pool.Common.Dict.{
  lookup, insert, erase, contains, lookup-insert, contains-lookup, insert-IsKeyed, string_eq,
  nat_eq, nat_eq_iff,
}
use pcie_pool.Quota.Sums.{erase-IsKeyed}
use pcie_pool.AsyncPool.{
  Phase, pending, started, executing, finished, canceling, canceled, Work, WorkerAsyncExecutionPool,
}
use pcie_pool.AsyncPool.Pool.{next_pool_ticket, submit_ticket, enqueue}
use pcie_pool.AsyncPool.Placement.{
  PlacedAt, Placed, IsPlaced, is_live, dead-PlacedAt, AgreeBut, erase-other, insert-other,
  insert-own,
}

-- A live call is for a transfer that is queued or running.
live-transfer :
    (a b c : Option ℕ) (n : ℕ) (p : Phase)
    → a ≡ none
    → b ≡ none
    → PlacedAt a b c n p
    → is_live p ≡ false
live-transfer a b c n pending x y h = absurd (ground (arith, x, h.0))
live-transfer a b c n started x y h = absurd (ground (arith, x, h.0))
live-transfer a b c n executing x y h = absurd (ground (arith, y, h.1))
live-transfer a b c n canceling x y h = absurd (ground (arith, x, h.0))
live-transfer a b c n finished x y h = refl
live-transfer a b c n canceled x y h = refl

-- Changes of the tables at a transfer that is neither queued nor running.
unmoved-Placed :
    (s after : WorkerAsyncExecutionPool) (t : String)
    → IsPlaced s
    → contains t s.queued ≡ false
    → contains t s.running ≡ false
    → AgreeBut t s after
    → (m : ℕ) (w : Work) → lookup m s.works ≡ some w
    → Placed after m w
unmoved-Placed s after t h no_queued no_running agree m w here =
    elim (Bool-cases (str_eq t w.transfer_id)) [
      | inr apart ↦
          let tables = agree w.transfer_id apart in
          rw (tables.0, tables.1, tables.2) (h.placed m w here)
      | inl shared ↦
          let equal = (string_eq.beq_iff t w.transfer_id).0 shared in
          dead-PlacedAt _ _ _ m w.phase (
            live-transfer _ _ _ m w.phase (rw (← equal) (contains-lookup t s.queued no_queued))
              (rw (← equal) (contains-lookup t s.running no_running)) (h.placed m w here))
    ]

-- The pool after a call that the thread pool did not take, or took with a new number.
refused-IsPlaced :
    (t : String) (s : WorkerAsyncExecutionPool)
    → contains t s.queued ≡ false
    → contains t s.running ≡ false
    → IsPlaced s
    → IsPlaced (record s { futures = erase t s.futures })
refused-IsPlaced t s no_queued no_running h = record {
  queued_keyed = h.queued_keyed;
  running_keyed = h.running_keyed;
  futures_keyed = erase-IsKeyed t s.futures h.futures_keyed;
  placed =
      unmoved-Placed s (record s { futures = erase t s.futures }) t h no_queued no_running
        (λ u apart. (refl, refl, erase-other t u s.futures h.futures_keyed apart));
}

abbrev taken : String → ℕ → WorkerAsyncExecutionPool → WorkerAsyncExecutionPool
taken t n s = record s {
  queued = insert t n s.queued;
  futures = insert t n s.futures;
  works = insert n (record { transfer_id = t; phase = pending }) s.works;
}

taken-IsPlaced :
    (t : String) (n : ℕ) (s : WorkerAsyncExecutionPool)
    → contains t s.queued ≡ false
    → contains t s.running ≡ false
    → IsPlaced s
    → IsPlaced (taken t n s)
taken-IsPlaced t n s no_queued no_running h = record {
  queued_keyed = insert-IsKeyed t n s.queued h.queued_keyed;
  running_keyed = h.running_keyed;
  futures_keyed = insert-IsKeyed t n s.futures h.futures_keyed;
  placed = at;
}
  where
    at : (m : ℕ) (w : Work) → lookup m (taken t n s).works ≡ some w → Placed (taken t n s) m w
    at m w here = elim (Bool-cases (n == m)) [
      | inl same ↦
          let is : record { transfer_id = t; phase = pending } ≡ w = ground (
            arith,
            same,
            here,
            lookup-insert n m (record { transfer_id = t; phase = pending }) s.works,
          ) in
          subst (λ k. Placed (taken t n s) k w) ((nat_eq_iff n m).0 same)
            (subst (Placed (taken t n s) n) is (
              insert-own t n s.queued,
              contains-lookup t s.running no_running,
              insert-own t n s.futures,
            ))
      | inr other ↦
          unmoved-Placed s (taken t n s) t h no_queued no_running
            (λ u apart.
              (insert-other t u n s.queued apart, refl, insert-other t u n s.futures apart))
            m w
            (ground (
              arith,
              other,
              here,
              lookup-insert n m (record { transfer_id = t; phase = pending }) s.works,
            ))
    ]

enqueue-IsPlaced :
    (n : ℕ) (accepted : Result (Unit {0})) (t : String) (s : WorkerAsyncExecutionPool)
    → IsPlaced s
    → IsPlaced (enqueue n accepted t s).0
unfolding enqueue
enqueue-IsPlaced n accepted t s h =
    elim (Bool-cases (contains t s.queued || contains t s.running)) [
      | inl known ↦ rw (known, enqueue) h
      | inr new ↦ elim (Result-cases accepted) [
        | inr (e, refused) ↦
            rw (new, enqueue, refused)
              (refused-IsPlaced t s (ground (arith, new)) (ground (arith, new)) h)
        | inl (_, done) ↦
            rw (new, enqueue, done)
              (taken-IsPlaced t n s (ground (arith, new)) (ground (arith, new)) h)
      ]
    ]

pub next_pool_ticket-IsPlaced :
    (s : WorkerAsyncExecutionPool) → IsPlaced s → IsPlaced (next_pool_ticket s).0
unfolding next_pool_ticket
next_pool_ticket-IsPlaced s h = record {
  queued_keyed = h.queued_keyed;
  running_keyed = h.running_keyed;
  futures_keyed = h.futures_keyed;
  placed = h.placed;
}

pub submit_ticket-IsPlaced :
    (n : ℕ) (accepted : Result (Unit {0})) (t : String) (s : WorkerAsyncExecutionPool)
    → IsPlaced s
    → IsPlaced (submit_ticket n accepted t s).0
unfolding submit_ticket
submit_ticket-IsPlaced n accepted t s h = elim (Bool-cases s.closed) [
  | inl closed ↦
      let result : submit_ticket n accepted t s
          ≡ (s, err (pool_error "worker async execution pool is closed")) =
        rw (submit_ticket, closed) refl in
      rw result h
  | inr opened ↦
      let result : submit_ticket n accepted t s ≡ enqueue n accepted t s =
        rw (submit_ticket, opened) refl in
      rw result (enqueue-IsPlaced n accepted t s h)
]
