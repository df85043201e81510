-- ===== src/Planner/Chunks/Endings.antt =====
-- The loops of turbobus/planner_engine.py that cut bytes, in `_make_chunks` and `plan_ranges`, end by
-- their own tests: fuel beyond the number of bytes changes nothing.
use pcie_pool.Common.{
  ℕ, zero, suc, ◌+◌, ◌-◌, ◌≤◌, ◌<◌, min, ◌≡◌, refl, cons_same, inl, inr, [], ltb, ltb→lt,
  Bool-cases, arith,
}
use pcie_pool.Common.Int.{ℤ}
use pcie_pool.Planner.Chunks.{range_from, range_chunks}

range_from-stops : (f start stop step : ℕ) → stop ≤ start → range_from f start stop step ≡ []
unfolding range_from
range_from-stops zero start stop step h = refl
range_from-stops (suc f) start stop step h = ground arith

pub range_from-ends :
    (f g start stop step : ℕ)
    → 0 < step
    → stop - start ≤ f
    → stop - start ≤ g
    → range_from f start stop step ≡ range_from g start stop step
unfolding range_from
range_from-ends zero g start stop step h hf hg =
    rw (range_from-stops g start stop step (omega arith)) refl
range_from-ends (suc f) zero start stop step h hf hg =
    rw (range_from-stops (suc f) start stop step (omega arith)) refl
range_from-ends (suc f) (suc g) start stop step h hf hg = elim (Bool-cases (ltb start stop)) [
  | inl more ↦
      let lt = ltb→lt start stop more in
      let ih = range_from-ends f g (start + step) stop step h (omega arith) (omega arith) in
      rw (more, range_from) (cons_same ih)
  | inr done ↦ rw (done, range_from) refl
]

range_chunks-stops :
    (f size : ℕ) (src dst : ℤ) (n consumed : ℕ)
    → n ≤ consumed
    → range_chunks f size src dst n consumed ≡ []
unfolding range_chunks
range_chunks-stops zero size src dst n consumed h = refl
range_chunks-stops (suc f) size src dst n consumed h = ground arith

pub range_chunks-ends :
    (f g size : ℕ) (src dst : ℤ) (n consumed : ℕ)
    → 0 < size
    → n - consumed ≤ f
    → n - consumed ≤ g
    → range_chunks f size src dst n consumed ≡ range_chunks g size src dst n consumed
unfolding range_chunks
range_chunks-ends zero g size src dst n consumed h hf hg =
    rw (range_chunks-stops g size src dst n consumed (omega arith)) refl
range_chunks-ends (suc f) zero size src dst n consumed h hf hg =
    rw (range_chunks-stops (suc f) size src dst n consumed (omega arith)) refl
range_chunks-ends (suc f) (suc g) size src dst n consumed h hf hg =
    elim (Bool-cases (ltb consumed n)) [
      | inl more ↦
          let lt = ltb→lt consumed n more in
          let this = min size (n - consumed) in
          let ih =
            range_chunks-ends f g size src dst n (consumed + this) h (omega arith) (omega arith) in
          rw (more, range_chunks) (cons_same ih)
      | inr done ↦ rw (done, range_chunks) refl
    ]
