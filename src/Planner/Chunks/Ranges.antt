-- ===== src/Planner/Chunks/Ranges.antt =====
-- `plan_ranges` of turbobus/planner_engine.py cuts every range of the request, in its order.
use pcie_pool.Common.{
  ℕ, zero, suc, ◌+◌, ◌-◌, ◌≤◌, ◌<◌, min, ◌≡◌, refl, sym, ◌∙◌, inl, inr, List, [], ◌∷◌, ◌++◌, ltb,
  ltb→lt, Bool-cases, arith, ok, Result-cases, if◌then◌else◌,
}
use pcie_pool.Common.Int.{ℤ, pos, ◌+ℤ◌, leb_ℤ, pos_part, add-pos_pos, add_assoc, add_zero}
use pcie_pool.Planner.{PlannerChunk}
use pcie_pool.Planner.Chunks.{RangeItem, Fields, range_fields, range_chunks, collect_ranges}
use pcie_pool.Planner.Chunks.Tiling.{Tiles}
use mathlib.Core.List.{append-nil, append_assoc}

range_chunks-Tiles :
    (f chunk_bytes : ℕ) (src dst : ℤ) (size consumed : ℕ)
    → 0 < chunk_bytes
    → consumed ≤ size
    → size - consumed ≤ f
    → Tiles chunk_bytes
        (src +ℤ pos consumed)
        (dst +ℤ pos consumed)
        (size - consumed)
        (range_chunks f chunk_bytes src dst size consumed)
unfolding range_chunks
range_chunks-Tiles zero cb src dst size consumed h le fuel = omega arith
range_chunks-Tiles (suc f) cb src dst size consumed h le fuel =
    elim (Bool-cases (ltb consumed size)) [
      | inl more ↦
          let lt = ltb→lt consumed size more in
          let this = min cb (size - consumed) in
          let ih =
            range_chunks-Tiles f cb src dst size (consumed + this) h (omega arith) (omega arith) in
          let n : size - consumed - this ≡ size - (consumed + this) = omega arith in
          rw (more, range_chunks)
            (
              refl,
              refl,
              refl,
              omega arith,
              refl,
              rw (add_assoc src, add_assoc dst, add-pos_pos, n) ih,
            )
      | inr done ↦ rw (done, range_chunks) (ground arith)
    ]

-- The chunks of the ranges in their order: for each range a stretch that tiles it, and nothing for
-- a range with no bytes.
abbrev pub Covers : ℕ → List RangeItem → List PlannerChunk → ℕ → Type 0
Covers chunk_bytes [] cs total = (cs ≡ []) × (total ≡ 0)
Covers chunk_bytes (item ∷ items) cs total =
    (r : Fields) × (stretch : List PlannerChunk) × (rest : List PlannerChunk) × (after : ℕ)
    × (range_fields item ≡ ok r)
    × (cs ≡ stretch ++ rest)
    × (total ≡ pos_part r.size + after)
    × Tiles chunk_bytes r.src r.dst (pos_part r.size) stretch
    × Covers chunk_bytes items rest after

whole_range-Tiles :
    (chunk_bytes : ℕ) (src dst : ℤ) (size : ℕ)
    → 0 < chunk_bytes
    → Tiles chunk_bytes src dst size (range_chunks size chunk_bytes src dst size 0)
whole_range-Tiles cb src dst size h =
    let n : size - 0 ≡ size = omega arith in
    rw (add_zero src, add_zero dst, n) at
      (range_chunks-Tiles size cb src dst size 0 h (omega arith) (omega arith))

-- What one round of the loop appends tiles its range, whether the range is skipped or cut.
round-Tiles :
    (chunk_bytes : ℕ) (r : Fields) (chunks : List PlannerChunk) (total : ℕ)
    → 0 < chunk_bytes
    → (stretch : List PlannerChunk) × ((if leb_ℤ r.size (pos 0)
          then chunks
          else chunks ++ range_chunks (pos_part r.size) chunk_bytes r.src r.dst (pos_part r.size) 0)
        ≡ chunks ++ stretch)
      × ((if leb_ℤ r.size (pos 0) then total else total + pos_part r.size)
          ≡ total + pos_part r.size)
      × Tiles chunk_bytes r.src r.dst (pos_part r.size) stretch
round-Tiles cb r chunks total h = elim (Bool-cases (leb_ℤ r.size (pos 0))) [
  | inl skip ↦ ([], rw (skip, append-nil), ground arith, ground arith)
  | inr cut ↦
      let size = pos_part r.size in
      (
        range_chunks size cb r.src r.dst size 0,
        rw cut,
        rw cut,
        whole_range-Tiles cb r.src r.dst size h,
      )
]

-- A request that is accepted is cut range by range, in order, with no gap and no overlap; the byte
-- count is that of the ranges.
pub collect_ranges-Covers :
    (chunk_bytes : ℕ) (items : List RangeItem) (chunks : List PlannerChunk) (total : ℕ)
    → 0 < chunk_bytes
    → (out : List PlannerChunk) (n : ℕ)
    → collect_ranges chunk_bytes items chunks total ≡ ok (out, n)
    → (cs : List PlannerChunk) × (after : ℕ) × (out ≡ chunks ++ cs)
      × (n ≡ total + after)
      × Covers chunk_bytes items cs after
unfolding collect_ranges
collect_ranges-Covers cb [] chunks total h out n e =
    ([], 0, ground (arith, append-nil chunks), ground arith, (refl, refl))
collect_ranges-Covers cb (item ∷ items) chunks total h out n e =
    elim (Result-cases (range_fields item)) [
      | inr (x, bad) ↦ absurd (ground arith)
      | inl (r, good) ↦
          let (stretch, e₁, e₂, t) = round-Tiles cb r chunks total h in
          let (cs, after, o, m, c) =
            collect_ranges-Covers cb items (chunks ++ stretch) (total + pos_part r.size) h out n
              (rw (← e₁, ← e₂) (rw (good, collect_ranges) at e)) in
          (
            stretch ++ cs,
            pos_part r.size + after,
            o ∙ append_assoc chunks stretch cs,
            omega arith,
            (r, stretch, cs, after, good, refl, refl, t, c),
          )
    ]

pub Covers-nil :
    (size : ℕ) (items : List RangeItem) (cs : List PlannerChunk) (n : ℕ)
    → Covers size items cs n
    → cs ≡ []
    → n ≡ 0
Covers-nil size [] cs n c e = c.1
Covers-nil size (item ∷ items) cs n (r, [], rest, after, _, split, sum, t, c) e =
    omega (arith, Covers-nil size items rest after c (sym split ∙ e))
Covers-nil size (item ∷ items) cs n (r, (x ∷ stretch), rest, after, _, split, sum, t, c) e =
    absurd (ground arith)
