-- ===== src/Planner/Engine/Partition.antt =====
-- A plan of turbobus/planner_engine.py carries the whole transfer, each byte once.
use pcie_pool.Common.{
  ℕ, ◌<◌, ◌≡◌, refl, inl, inr, List, [], ◌∷◌, map, Option, Bool-cases, arith, length, String, ok,
  runtime_error, ◌>>◌, raise_if, if◌then◌else◌, Result-cases,
}
use mathlib.Core.List.{Perm}
use mathlib.Core.List.Perm
use pcie_pool.Common.Int.{ℤ, pos, pos_part, leb_ℤ}
use pcie_pool.Common.Float.{FloatOps}
use pcie_pool.Planner.{
  TransferMode, PlannerChunk, PlannerPath, PlannerTransferPlan, Profile, PlannerEngineOptions,
  empty_plan,
}
use pcie_pool.Planner.Chunks.{make_chunks, RangeItem, collect_ranges}
use pcie_pool.Planner.Chunks.Tiling.{Tiles, make_chunks-Tiles}
use pcie_pool.Planner.Chunks.Ranges.{Covers, Covers-nil, collect_ranges-Covers}
use pcie_pool.Planner.Assign.{scheduler_weight, sum_from, place_all, start_lanes, gather}
use pcie_pool.Planner.Assign.Coverage.{assigned, assigned-perm}
use pcie_pool.Planner.Paths.{build_paths}
use pcie_pool.Planner.Engine.{plan_chunks, plan_over, plan, plan_ranges, is_empty, settled_mode}

module _ {F : Type 0} ⦃f : FloatOps F⦄ where
  pub plan_chunks-assignments :
      (chunks : List PlannerChunk) (total size : ℕ) (paths : List (PlannerPath F))
      (reason : Option String) (p : PlannerTransferPlan F)
      → plan_chunks chunks total size paths reason ≡ ok p
      → let lanes = place_all (map scheduler_weight paths) (start_lanes paths) chunks in
        (p.assignments ≡ gather paths lanes.assignment_chunks)
        × (p.total_bytes ≡ total)
        × (p.chunk_bytes ≡ size)
  unfolding plan_chunks
  plan_chunks-assignments chunks total size paths reason p e =
      elim (Bool-cases (f.le (sum_from f.zero_f (map scheduler_weight paths)) f.zero_f)) [
        | inl no_weight ↦ absurd (ground arith)
        | inr weighted ↦ (ground arith, ground arith, ground arith)
      ]

  plan_chunks-perm :
      (chunks : List PlannerChunk) (total size : ℕ) (paths : List (PlannerPath F))
      (reason : Option String) (p : PlannerTransferPlan F)
      → 0 < length paths
      → plan_chunks chunks total size paths reason ≡ ok p
      → Perm (assigned p.assignments) chunks × (p.total_bytes ≡ total) × (p.chunk_bytes ≡ size)
  plan_chunks-perm chunks total size paths reason p h e =
      let (a, t, s) = plan_chunks-assignments chunks total size paths reason p e in
      (rw a (assigned-perm paths (map scheduler_weight paths) chunks h), t, s)

  plan_over-perm :
      (options : PlannerEngineOptions F) (chunks : List PlannerChunk) (total size : ℕ)
      (profile : Profile F) (mode : TransferMode) (direction : String) (p : PlannerTransferPlan F)
      → plan_over options chunks total size profile mode direction ≡ ok p
      → Perm (assigned p.assignments) chunks × (p.total_bytes ≡ total) × (p.chunk_bytes ≡ size)
  unfolding plan_over
  plan_over-perm options chunks total size profile mode direction p e =
      let settled = settled_mode options (length chunks) total mode in
      go (build_paths options profile settled.0 direction) e
    where
      go :
          (paths : List (PlannerPath F))
          → (raise_if (is_empty paths) (runtime_error "no enabled transfer path is available")
              >> plan_chunks chunks total size paths
                  (settled_mode options (length chunks) total mode).1)
            ≡ ok p
          → Perm (assigned p.assignments) chunks × (p.total_bytes ≡ total) × (p.chunk_bytes ≡ size)
      go [] e = absurd (ground arith)
      go (q ∷ paths) e = plan_chunks-perm chunks total size (q ∷ paths) _ p (omega arith) e

  -- A plan that `plan` returns assigns each chunk of the transfer to one path: put together, the
  -- assignments are, up to their order, chunks that tile the transfer from offset 0 without gap or
  -- overlap; the byte count is the transfer's.
  pub plan-partition :
      (options : PlannerEngineOptions F) (total_bytes chunk_bytes : ℤ) (profile : Profile F)
      (mode : TransferMode) (direction : String) (p : PlannerTransferPlan F)
      → plan options total_bytes chunk_bytes profile mode direction ≡ ok p
      → (cs : List PlannerChunk) × Tiles
          (pos_part chunk_bytes)
          (pos 0)
          (pos 0)
          (pos_part total_bytes)
          cs
        × Perm (assigned p.assignments) cs
        × (p.total_bytes ≡ pos_part total_bytes)
  unfolding plan empty_plan
  plan-partition options t c profile mode direction p e = elim (Bool-cases (leb_ℤ t (pos 0))) [
    | inl nothing ↦
        let a : p.assignments ≡ [] = ground arith in
        ([], ground arith, rw a (Perm.refl _), ground arith)
    | inr something ↦ elim (Bool-cases (leb_ℤ c (pos 0))) [
      | inl bad ↦ absurd (ground arith)
      | inr good ↦
          let (perm, total, _) =
            plan_over-perm options (make_chunks (pos_part t) (pos_part c)) (pos_part t) (pos_part c)
              profile mode direction p (rw (something, good) at e) in
          (
            make_chunks (pos_part t) (pos_part c),
            make_chunks-Tiles (pos_part t) (pos_part c) (ground arith),
            perm,
            total,
          )
    ]
  ]

  -- A plan has a positive chunk size.
  pub plan-chunk_bytes :
      (options : PlannerEngineOptions F) (total_bytes chunk_bytes : ℤ) (profile : Profile F)
      (mode : TransferMode) (direction : String) (p : PlannerTransferPlan F)
      → plan options total_bytes chunk_bytes profile mode direction ≡ ok p
      → 0 < p.chunk_bytes
  unfolding plan empty_plan
  plan-chunk_bytes options t c profile mode direction p e = elim (Bool-cases (leb_ℤ t (pos 0))) [
    | inl nothing ↦ ground arith
    | inr something ↦ elim (Bool-cases (leb_ℤ c (pos 0))) [
      | inl bad ↦ absurd (ground arith)
      | inr good ↦
          let (_, _, size) =
            plan_over-perm options (make_chunks (pos_part t) (pos_part c)) (pos_part t) (pos_part c)
              profile mode direction p (rw (something, good) at e) in
          ground arith
    ]
  ]

  -- A plan that `plan_ranges` returns assigns each chunk to one path: put together, the assignments
  -- are, up to their order, the chunks of the ranges one after the other, which tile each range from
  -- its own offsets; the byte count is the sum over the ranges.
  pub plan_ranges-partition :
      (options : PlannerEngineOptions F) (ranges : List RangeItem) (chunk_bytes : ℤ)
      (profile : Profile F) (mode : TransferMode) (direction : String) (p : PlannerTransferPlan F)
      → plan_ranges options ranges chunk_bytes profile mode direction ≡ ok p
      → (cs : List PlannerChunk) × Covers (pos_part chunk_bytes) ranges cs p.total_bytes
        × Perm (assigned p.assignments) cs
  unfolding plan_ranges empty_plan
  plan_ranges-partition options ranges c profile mode direction p e =
      elim (Bool-cases (leb_ℤ c (pos 0))) [
        | inl bad ↦ absurd (ground arith)
        | inr good ↦ elim (Result-cases (collect_ranges (pos_part c) ranges [] 0)) [
          | inr (x, failed) ↦ absurd (ground arith)
          | inl ((chunks, n), cut) ↦
              let (cs, after, same, sum, cover) =
                collect_ranges-Covers (pos_part c) ranges [] 0 (ground arith) chunks n cut in
              go chunks n after (rw same cover) (omega arith) (rw (good, cut) at e)
        ]
      ]
    where
      go :
          (chunks : List PlannerChunk) (n after : ℕ)
          → Covers (pos_part c) ranges chunks after
          → n ≡ after
          → (if is_empty chunks
              then ok empty_plan
              else plan_over options chunks n (pos_part c) profile mode direction)
            ≡ ok p
          → (cs : List PlannerChunk) × Covers (pos_part c) ranges cs p.total_bytes
            × Perm (assigned p.assignments) cs
      go [] n after cover same e =
          let a : p.assignments ≡ [] = ground arith in
          let t : p.total_bytes ≡ after =
            ground (arith, Covers-nil (pos_part c) ranges [] after cover refl) in
          ([], rw t cover, rw a (Perm.refl _))
      go (x ∷ chunks) n after cover same e =
          let (perm, total, _) =
            plan_over-perm options (x ∷ chunks) n (pos_part c) profile mode direction p e in
          (x ∷ chunks, rw (total, same) cover, perm)
