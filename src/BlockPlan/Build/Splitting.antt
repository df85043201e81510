-- ===== src/BlockPlan/Build/Splitting.antt =====
-- `_split_chunk` of turbobus/scheduler/block_plan.py cuts a chunk into blocks of bounded size.
use pcie_pool.Common.{
  ℕ, zero, suc, ◌+◌, ◌-◌, ◌≤◌, ◌<◌, min, ◌≡◌, refl, inl, inr, List, [], ◌∷◌, ltb, leb, ltb→lt,
  leb→le, Bool-cases, true, arith, sum_by, All,
}
use pcie_pool.Common.Int.{ℤ, pos, ◌+ℤ◌, add-pos_pos, add_assoc, add_zero}
use pcie_pool.Planner.{PlannerChunk}
use pcie_pool.BlockPlan.Build.{split_from, split_size, split_chunk}

-- The pieces of `n` bytes of a chunk from two offsets on: each begins where the one before it ended,
-- keeps the chunk's relay, and takes `size` bytes or, at the end, what is left.
abbrev pub Pieces : ℕ → PlannerChunk → ℤ → ℤ → ℕ → List PlannerChunk → Type 0
Pieces size chunk src dst n [] = n ≡ 0
Pieces size chunk src dst n (c ∷ cs) =
    (c.src_offset ≡ src)
    × (c.dst_offset ≡ dst)
    × (c.bytes ≡ min size n)
    × (0 < c.bytes)
    × (c.relay_device ≡ chunk.relay_device)
    × Pieces size chunk (src +ℤ pos c.bytes) (dst +ℤ pos c.bytes) (n - c.bytes) cs

split_from-Pieces :
    (f size : ℕ) (chunk : PlannerChunk) (consumed : ℕ)
    → 0 < size
    → consumed ≤ chunk.bytes
    → chunk.bytes - consumed ≤ f
    → Pieces size chunk
        (chunk.src_offset +ℤ pos consumed)
        (chunk.dst_offset +ℤ pos consumed)
        (chunk.bytes - consumed)
        (split_from f size chunk consumed)
unfolding split_from
split_from-Pieces zero size chunk consumed h le fuel = omega arith
split_from-Pieces (suc f) size chunk consumed h le fuel =
    elim (Bool-cases (ltb consumed chunk.bytes)) [
      | inl more ↦
          let lt = ltb→lt consumed chunk.bytes more in
          let this = min size (chunk.bytes - consumed) in
          let ih = split_from-Pieces f size chunk (consumed + this) h (omega arith) (omega arith) in
          let n : chunk.bytes - consumed - this ≡ chunk.bytes - (consumed + this) = omega arith in
          rw (more, split_from)
            (
              refl,
              refl,
              refl,
              omega arith,
              refl,
              rw (add_assoc chunk.src_offset, add_assoc chunk.dst_offset, add-pos_pos, n) ih,
            )
      | inr done ↦ rw (done, split_from) (ground arith)
    ]

-- A chunk that has bytes is cut without gap or overlap, by the greatest size that is allowed, and
-- the loop ends by its test.
pub split_chunk-Pieces :
    (chunk : PlannerChunk) (chunk_bytes : ℤ)
    → 0 < chunk.bytes
    → Pieces
        (split_size chunk_bytes)
        chunk
        chunk.src_offset
        chunk.dst_offset
        chunk.bytes
        (split_chunk chunk chunk_bytes)
unfolding split_chunk
split_chunk-Pieces chunk cb h = elim (Bool-cases (leb chunk.bytes (split_size cb))) [
  | inl small ↦
      let le = leb→le chunk.bytes (split_size cb) small in
      rw small (refl, refl, omega arith, h, refl, omega arith)
  | inr large ↦
      let n : chunk.bytes - 0 ≡ chunk.bytes = omega arith in
      rw large (
        rw (add_zero chunk.src_offset, add_zero chunk.dst_offset, n) at
          (split_from-Pieces chunk.bytes (split_size cb) chunk 0 (omega arith) (omega arith)
            (omega arith)))
]

Pieces-sum :
    (size : ℕ) (chunk : PlannerChunk) (src dst : ℤ) (n : ℕ) (cs : List PlannerChunk)
    → Pieces size chunk src dst n cs
    → sum_by (λ c. c.bytes) cs ≡ n
Pieces-sum size chunk src dst n [] t = omega arith
Pieces-sum size chunk src dst n (c ∷ cs) t =
    omega
      (arith, Pieces-sum size chunk (src +ℤ pos c.bytes) (dst +ℤ pos c.bytes) (n - c.bytes) cs t.5)

Pieces-small :
    (size : ℕ) (chunk : PlannerChunk) (src dst : ℤ) (n : ℕ) (cs : List PlannerChunk)
    → Pieces size chunk src dst n cs
    → All (λ c. c.bytes ≤ size) cs
Pieces-small size chunk src dst n [] t = tt
Pieces-small size chunk src dst n (c ∷ cs) t = (
  omega arith,
  Pieces-small size chunk (src +ℤ pos c.bytes) (dst +ℤ pos c.bytes) (n - c.bytes) cs t.5,
)

empty_chunk :
    (chunk : PlannerChunk) (chunk_bytes : ℤ)
    → chunk.bytes ≡ 0
    → split_chunk chunk chunk_bytes ≡ chunk ∷ []
unfolding split_chunk
empty_chunk chunk cb e =
    let small : leb chunk.bytes (split_size cb) ≡ true = ground arith in rw small

-- Empty chunks included, the pieces have the chunk's bytes and none is too large.
pub split_chunk-bytes :
    (chunk : PlannerChunk) (chunk_bytes : ℤ)
    → (sum_by (λ c. c.bytes) (split_chunk chunk chunk_bytes) ≡ chunk.bytes)
      × All (λ c. c.bytes ≤ split_size chunk_bytes) (split_chunk chunk chunk_bytes)
split_chunk-bytes chunk cb = elim (Bool-cases (ltb 0 chunk.bytes)) [
  | inl some_bytes ↦
      let t = split_chunk-Pieces chunk cb (ltb→lt 0 chunk.bytes some_bytes) in
      (Pieces-sum _ chunk _ _ _ _ t, Pieces-small _ chunk _ _ _ _ t)
  | inr none_left ↦
      let z : chunk.bytes ≡ 0 = ground arith in
      rw (empty_chunk chunk cb z) (omega arith, (omega arith, tt))
]
