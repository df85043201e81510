-- ===== src/BlockPlan/Build/Endings.antt =====
-- The loops that cut bytes, in turbobus/planner_engine.py (`_make_chunks`, `plan_ranges`) and
-- turbobus/scheduler/block_plan.py (`_split_chunk`), end by their own tests.
use pcie_pool.Common.{
  ℕ, zero, suc, ◌+◌, ◌-◌, ◌≤◌, ◌<◌, min, ◌≡◌, refl, cons_same, inl, inr, [], ltb, ltb→lt,
  Bool-cases, arith,
}
use pcie_pool.Common.Int.{ℤ}
use pcie_pool.Planner.{PlannerChunk}
use pcie_pool.Planner.Chunks.{range_from, range_chunks}
use pcie_pool.Planner.Chunks.Endings.{range_from-ends, range_chunks-ends}
use pcie_pool.BlockPlan.Build.{split_from}

split_from-stops :
    (f size : ℕ) (chunk : PlannerChunk) (consumed : ℕ)
    → chunk.bytes ≤ consumed
    → split_from f size chunk consumed ≡ []
unfolding split_from
split_from-stops zero size chunk consumed h = refl
split_from-stops (suc f) size chunk consumed h = ground arith

split_from-ends :
    (f g size : ℕ) (chunk : PlannerChunk) (consumed : ℕ)
    → 0 < size
    → chunk.bytes - consumed ≤ f
    → chunk.bytes - consumed ≤ g
    → split_from f size chunk consumed ≡ split_from g size chunk consumed
unfolding split_from
split_from-ends zero g size chunk consumed h hf hg =
    rw (split_from-stops g size chunk consumed (omega arith)) refl
split_from-ends (suc f) zero size chunk consumed h hf hg =
    rw (split_from-stops (suc f) size chunk consumed (omega arith)) refl
split_from-ends (suc f) (suc g) size chunk consumed h hf hg =
    elim (Bool-cases (ltb consumed chunk.bytes)) [
      | inl more ↦
          let lt = ltb→lt consumed chunk.bytes more in
          let this = min size (chunk.bytes - consumed) in
          let ih = split_from-ends f g size chunk (consumed + this) h (omega arith) (omega arith) in
          rw (more, split_from) (cons_same ih)
      | inr done ↦ rw (done, split_from) refl
    ]

-- With a positive step, the three loops that cut bytes end by their own tests: from any place on, as
-- many rounds as there are bytes left are enough, and more rounds give the same chunks.
pub split_from-all_end :
    (size n at f : ℕ) (src dst : ℤ) (chunk : PlannerChunk)
    → 0 < size
    → n - at ≤ f
    → chunk.bytes - at ≤ f
    → (range_from f at n size ≡ range_from (n - at) at n size)
      × (range_chunks f size src dst n at ≡ range_chunks (n - at) size src dst n at)
      × (split_from f size chunk at ≡ split_from (chunk.bytes - at) size chunk at)
split_from-all_end size n at f src dst chunk h enough plenty = (
  range_from-ends f (n - at) at n size h enough (omega arith),
  range_chunks-ends f (n - at) size src dst n at h enough (omega arith),
  split_from-ends f (chunk.bytes - at) size chunk at h plenty (omega arith),
)
