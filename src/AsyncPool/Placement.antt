-- ===== src/AsyncPool/Placement.antt =====
-- Where the tables of the pool of turbobus/worker/lifecycle.py keep each call of the thread pool.
pub mod Runs
pub mod Submits
pub mod Reached
use pcie_pool.Common.{
  ℕ, suc, ◌≡◌, refl, sym, ap, ◌∙◌, inl, inr, [], ◌∷◌, Option, none, some, Bool, true, false, ◌||◌,
  String, arith, if◌then◌else◌, ◌==◌, subst, str_eq, Result, ok, err, pool_error, Result-cases,
  Option-cases, Bool-cases,
}
use pcie_pool.Common.Int.{ℤ}
use pcie_pool.Common.Dict.{
  Dict, IsKeyed, lookup, insert, erase, modify, contains, lookup-insert, contains-lookup,
  insert-IsKeyed, string_eq, nat_eq, nat_eq_iff,
}
use pcie_pool.Quota.Sums.{map_some, lookup-modify, lookup-erase, erase-IsKeyed}
use pcie_pool.AsyncPool.{
  Phase, pending, started, executing, finished, canceling, canceled, Work, TerminalRecord,
  WorkerAsyncExecutionPool,
}
use pcie_pool.AsyncPool.Pool.{
  new_pool, submit, enqueue, start, begin_run, end_run, future_cancel, record_canceled,
  drain_terminal, record_terminal, begin_close, close_one, to_phase, future_cancelled,
}
use pcie_pool.AsyncPool.Steps.{
  IsWork, Reachable, starts, submits, takes, begins, ends, cancels, notes, drains, closes,
  notes_at_close,
}

-- A call that waits is queued, a call that executes is running, each under its transfer with its
-- future, and in no other table. Nothing is said of a call that is done or cancelled.
abbrev pub PlacedAt : Option ℕ → Option ℕ → Option ℕ → ℕ → Phase → Type 0
PlacedAt in_queued in_running in_futures number executing =
    (in_queued ≡ none) × (in_running ≡ some number) × (in_futures ≡ some number)
PlacedAt in_queued in_running in_futures number finished = Unit
PlacedAt in_queued in_running in_futures number canceled = Unit
PlacedAt in_queued in_running in_futures number _ =
    (in_queued ≡ some number) × (in_running ≡ none) × (in_futures ≡ some number)

abbrev pub Placed : WorkerAsyncExecutionPool → ℕ → Work → Type 0
Placed s number w =
    PlacedAt (lookup w.transfer_id s.queued) (lookup w.transfer_id s.running)
      (lookup w.transfer_id s.futures) number w.phase

pub record IsPlaced (s : WorkerAsyncExecutionPool) : Type 0 where
  pub queued_keyed : IsKeyed s.queued
  pub running_keyed : IsKeyed s.running
  pub futures_keyed : IsKeyed s.futures
  pub placed : (number : ℕ) (w : Work) → lookup number s.works ≡ some w → Placed s number w

abbrev pub is_live : Phase → Bool
is_live finished = false
is_live canceled = false
is_live _ = true

pub live-future :
    (a b c : Option ℕ) (n : ℕ) (p : Phase) → is_live p ≡ true → PlacedAt a b c n p → c ≡ some n
live-future a b c n pending live h = h.2
live-future a b c n started live h = h.2
live-future a b c n executing live h = h.2
live-future a b c n canceling live h = h.2
live-future a b c n finished live h = absurd (ground arith)
live-future a b c n canceled live h = absurd (ground arith)

pub dead-PlacedAt : (a b c : Option ℕ) (n : ℕ) (p : Phase) → is_live p ≡ false → PlacedAt a b c n p
dead-PlacedAt a b c n pending dead = absurd (ground arith)
dead-PlacedAt a b c n started dead = absurd (ground arith)
dead-PlacedAt a b c n executing dead = absurd (ground arith)
dead-PlacedAt a b c n canceling dead = absurd (ground arith)
dead-PlacedAt a b c n finished dead = tt
dead-PlacedAt a b c n canceled dead = tt

some-injective : (m n : ℕ) → some m ≡ some n → m ≡ n
some-injective m n e = ground arith

-- Two live calls for one transfer are the same call.
pub same_call :
    (s : WorkerAsyncExecutionPool) (m n : ℕ) (v w : Work)
    → v.transfer_id ≡ w.transfer_id
    → is_live v.phase ≡ true
    → is_live w.phase ≡ true
    → Placed s m v
    → Placed s n w
    → m ≡ n
same_call s m n v w same live also a b = some-injective m n (
    sym (live-future _ _ _ m v.phase live a)
    ∙ ap (λ t. lookup t s.futures) same
    ∙ live-future _ _ _ n w.phase also b)

-- The tables of two pools agree at every other transfer.
abbrev pub AgreeBut : String → WorkerAsyncExecutionPool → WorkerAsyncExecutionPool → Type 0
AgreeBut t s after =
    (u : String)
    → str_eq t u ≡ false
    → (lookup u after.queued ≡ lookup u s.queued)
      × (lookup u after.running ≡ lookup u s.running)
      × (lookup u after.futures ≡ lookup u s.futures)

-- A step of one live call: it changes the phase of that call, and the tables at its transfer alone.
pub moved-Placed :
    (s after : WorkerAsyncExecutionPool) (n : ℕ) (t : String) (p q : Phase)
    → IsPlaced s
    → IsWork s n t p
    → is_live p ≡ true
    → after.works ≡ modify n (λ w. record w { phase = q }) s.works
    → AgreeBut t s after
    → Placed after n (record { transfer_id = t; phase = q })
    → (m : ℕ) (w : Work) → lookup m after.works ≡ some w
    → Placed after m w
moved-Placed s after n t p q h here live works agree new m w e = elim (Bool-cases (n == m)) [
  | inl same ↦
      let equal : n ≡ m = (nat_eq_iff n m).0 same in
      let known : lookup m s.works ≡ some (record { transfer_id = t; phase = p }) =
        rw (← equal) here in
      let is : record { transfer_id = t; phase = q } ≡ w = ground (arith, step same, known) in
      subst (λ k. Placed after k w) equal (subst (Placed after n) is new)
  | inr other ↦
      let old : lookup m s.works ≡ some w = ground (arith, step other) in
      elim (Bool-cases (str_eq t w.transfer_id)) [
        | inr apart ↦
            let tables = agree w.transfer_id apart in
            rw (tables.0, tables.1, tables.2) (h.placed m w old)
        | inl shared ↦ elim (Bool-cases (is_live w.phase)) [
          | inr dead ↦ dead-PlacedAt _ _ _ m w.phase dead
          | inl also ↦
              let equal =
                same_call s n m (record { transfer_id = t; phase = p }) w
                  ((string_eq.beq_iff t w.transfer_id).0 shared) live also (h.placed n _ here)
                  (h.placed m w old) in
              absurd (ground (arith, other, equal, nat_eq_iff n m))
        ]
      ]
]
  where
    step :
        {b : Bool}
        → (n == m) ≡ b
        → (if b
            then map_some (λ w. record w { phase = q }) (lookup m s.works)
            else lookup m s.works)
          ≡ some w
    step {b} is =
        subst
          (λ c.
            (if c
              then map_some (λ w. record w { phase = q }) (lookup m s.works)
              else lookup m s.works)
            ≡ some w)
          is
          (sym (lookup-modify n m (λ w. record w { phase = q }) s.works)
            ∙ ap (λ d. lookup m d) (sym works)
            ∙ e)

pub erase-other :
    (t u : String) (d : Dict String ℕ)
    → IsKeyed d
    → str_eq t u ≡ false
    → lookup u (erase t d) ≡ lookup u d
erase-other t u d keyed apart = rw (lookup-erase t u d keyed, apart) refl

pub insert-other :
    (t u : String) (n : ℕ) (d : Dict String ℕ)
    → str_eq t u ≡ false
    → lookup u (insert t n d) ≡ lookup u d
insert-other t u n d apart = rw (lookup-insert t u n d, apart) refl

own_name : (t : String) → str_eq t t ≡ true
own_name t = (string_eq.beq_iff t t).1 refl

pub erase-own : (t : String) (d : Dict String ℕ) → IsKeyed d → lookup t (erase t d) ≡ none
erase-own t d keyed = rw (lookup-erase t t d keyed, own_name t) refl

pub insert-own : (t : String) (n : ℕ) (d : Dict String ℕ) → lookup t (insert t n d) ≡ some n
insert-own t n d = rw (lookup-insert t t n d, own_name t) refl
