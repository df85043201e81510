-- ===== src/Planner/Chunks/Tiling.antt =====
-- `_make_chunks` of turbobus/planner_engine.py cuts a byte range without gap or overlap.
use pcie_pool.Common.{
  ℕ, zero, suc, ◌+◌, ◌-◌, ◌*◌, ◌≤◌, ◌<◌, min, ◌≡◌, refl, subst, inl, inr, List, [], ◌∷◌, map, none,
  ltb, leb, ltb→lt, leb→le, Bool-cases, arith, length, sum_by,
}
use pcie_pool.Common.Int.{ℤ, pos, ◌+ℤ◌, add-pos_pos}
use pcie_pool.Planner.{PlannerChunk}
use pcie_pool.Planner.Chunks.{range_from, chunk_at, make_chunks}

-- The chunks cut `n` bytes from a source and a destination offset: each begins where the one before
-- it ended, and takes `chunk_bytes` or, at the end, what is left.
abbrev pub Tiles : ℕ → ℤ → ℤ → ℕ → List PlannerChunk → Type 0
Tiles chunk_bytes src dst n [] = n ≡ 0
Tiles chunk_bytes src dst n (c ∷ cs) =
    (c.src_offset ≡ src)
    × (c.dst_offset ≡ dst)
    × (c.bytes ≡ min chunk_bytes n)
    × (0 < c.bytes)
    × (c.relay_device ≡ none)
    × Tiles chunk_bytes (src +ℤ pos c.bytes) (dst +ℤ pos c.bytes) (n - c.bytes) cs

range_from_past : (f o total step : ℕ) → total ≤ o → range_from f o total step ≡ []
unfolding range_from
range_from_past zero o total step h = refl
range_from_past (suc f) o total step h = ground arith

-- The chunks after the first: those of the next offset, or none where the first took what was left.
rest-Tiles :
    (f o total chunk_bytes : ℕ)
    → o < total
    → (o + chunk_bytes ≤ total
        → Tiles chunk_bytes
            (pos (o + chunk_bytes))
            (pos (o + chunk_bytes))
            (total - (o + chunk_bytes))
            (map (chunk_at total chunk_bytes) (range_from f (o + chunk_bytes) total chunk_bytes)))
    → let m = min chunk_bytes (total - o) in
      Tiles chunk_bytes
        (pos o +ℤ pos m)
        (pos o +ℤ pos m)
        (total - o - m)
        (map (chunk_at total chunk_bytes) (range_from f (o + chunk_bytes) total chunk_bytes))
rest-Tiles f o total cb h ih = elim (Bool-cases (leb (o + cb) total)) [
  | inl inside ↦
      let e : min cb (total - o) ≡ cb = ground (arith, leb→le (o + cb) total inside) in
      let n : total - o - cb ≡ total - (o + cb) = omega arith in
      rw (e, add-pos_pos, n) (ih (leb→le (o + cb) total inside))
  | inr past ↦ rw (range_from_past f (o + cb) total cb (ground arith)) (ground arith)
]

chunk-Tiles :
    (chunk_bytes o total : ℕ) (cs : List PlannerChunk)
    → 0 < chunk_bytes
    → o < total
    → (let m = min chunk_bytes (total - o) in
        Tiles chunk_bytes (pos o +ℤ pos m) (pos o +ℤ pos m) (total - o - m) cs)
    → Tiles chunk_bytes (pos o) (pos o) (total - o) (chunk_at total chunk_bytes o ∷ cs)
unfolding chunk_at
chunk-Tiles cb o total cs h lt t = (refl, refl, refl, omega arith, refl, t)

range_from-Tiles :
    (f o total chunk_bytes : ℕ)
    → 0 < chunk_bytes
    → o ≤ total
    → total - o ≤ f
    → Tiles chunk_bytes
        (pos o)
        (pos o)
        (total - o)
        (map (chunk_at total chunk_bytes) (range_from f o total chunk_bytes))
unfolding range_from
range_from-Tiles zero o total cb h le fuel = omega arith
range_from-Tiles (suc f) o total cb h le fuel = elim (Bool-cases (ltb o total)) [
  | inl more ↦
      let lt = ltb→lt o total more in
      rw (more, range_from)
        (chunk-Tiles cb o total _ h lt (
          rest-Tiles f o total cb lt
            λ inside. range_from-Tiles f (o + cb) total cb h inside (omega arith)))
  | inr done ↦ rw (done, range_from) (ground arith)
]

-- The chunks of `_make_chunks` cover the transfer once, in order, and the loop ends by its test.
pub make_chunks-Tiles :
    (total_bytes chunk_bytes : ℕ)
    → 0 < chunk_bytes
    → Tiles chunk_bytes (pos 0) (pos 0) total_bytes (make_chunks total_bytes chunk_bytes)
unfolding make_chunks
make_chunks-Tiles total cb h =
    subst (λ n. Tiles cb (pos 0) (pos 0) n (make_chunks total cb)) (omega arith)
      (range_from-Tiles total 0 total cb h (omega arith) (omega arith))

-- The byte counts of the chunks add up to the transfer.
pub Tiles-sum :
    (chunk_bytes : ℕ) (src dst : ℤ) (n : ℕ) (cs : List PlannerChunk)
    → Tiles chunk_bytes src dst n cs
    → sum_by (λ c. c.bytes) cs ≡ n
Tiles-sum cb src dst n [] t = omega arith
Tiles-sum cb src dst n (c ∷ cs) t =
    omega (arith, Tiles-sum cb (src +ℤ pos c.bytes) (dst +ℤ pos c.bytes) (n - c.bytes) cs t.5)

-- There are no more chunks than needed: all but the last are full.
pub Tiles-length :
    (chunk_bytes : ℕ) (src dst : ℤ) (n : ℕ) (cs : List PlannerChunk)
    → Tiles chunk_bytes src dst n cs
    → 0 < chunk_bytes
    → (n ≤ length cs * chunk_bytes) × (length cs * chunk_bytes < n + chunk_bytes)
Tiles-length cb src dst n [] t h = omega arith
Tiles-length cb src dst n (c ∷ cs) t h =
    grind (arith, Tiles-length cb (src +ℤ pos c.bytes) (dst +ℤ pos c.bytes) (n - c.bytes) cs t.5 h)
