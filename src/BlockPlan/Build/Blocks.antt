-- ===== src/BlockPlan/Build/Blocks.antt =====
-- The loops of `block_plan_from_assignments` in turbobus/scheduler/block_plan.py: the ids, sizes and
-- byte counts of the blocks.
use pcie_pool.Common.{
  ℕ, suc, ◌+◌, ◌≤◌, ◌<◌, ◌≡◌, refl, sym, ap, ◌∙◌, List, [], ◌∷◌, ◌++◌, String, arith, length,
  sum_by, All, any_by, false, Bool-cases, inl, inr, All-append, sum_by-append,
}
use pcie_pool.Common.Int.{ℤ}
use pcie_pool.Common.Text.{◌^^◌, show_ℕ, show_ℕ-injective}
use pcie_pool.Common.Dict.{Dict, string_eq}
use pcie_pool.Common.Float.{FloatOps}
use pcie_pool.Planner.{PlannerChunk, PlannerPathAssignment}
use pcie_pool.BlockPlan.{BlockPath, TransferBlock}
use pcie_pool.BlockPlan.Build.{
  Context, make_block, add_splits, add_chunks, add_assignments, split_chunk, split_size,
}
use pcie_pool.BlockPlan.Build.Splitting.{split_chunk-bytes}
use text.Mathlib.TextLemmas.{append_cancel_left}

-- The blocks are numbered from `n` on in their ids.
abbrev pub Numbered : String → ℕ → List TransferBlock → Type 0
Numbered plan_id n [] = Unit
Numbered plan_id n (b ∷ bs) =
    (b.block_id ≡ plan_id ^^ ":b" ^^ show_ℕ n) × Numbered plan_id (suc n) bs

Numbered-append :
    (plan_id : String) (n : ℕ) (bs : List TransferBlock) (b : TransferBlock)
    → Numbered plan_id n bs
    → b.block_id ≡ plan_id ^^ ":b" ^^ show_ℕ (n + length bs)
    → Numbered plan_id n (bs ++ b ∷ [])
Numbered-append plan_id n [] b h e =
    let z : n + 0 ≡ n = omega arith in (e ∙ ap (λ k. plan_id ^^ ":b" ^^ show_ℕ k) z, tt)
Numbered-append plan_id n (c ∷ bs) b h e =
    let z : n + suc (length bs) ≡ suc n + length bs = omega arith in
    (h.0, Numbered-append plan_id (suc n) bs b h.1 (e ∙ ap (λ k. plan_id ^^ ":b" ^^ show_ℕ k) z))

-- What every loop keeps: the ids in order, and no block above the limit.
abbrev pub IsSound : String → ℕ → List TransferBlock → Type 0
IsSound plan_id limit blocks = Numbered plan_id 0 blocks × All (λ b. b.bytes ≤ limit) blocks

total_of : List TransferBlock → ℕ
total_of bs = sum_by (λ b. b.bytes) bs

pieces_total : List PlannerChunk → ℕ
pieces_total cs = sum_by (λ c. c.bytes) cs

add_splits-IsSound :
    (ctx : Context) (limit ci si : ℕ) (ss : List PlannerChunk) (blocks : List TransferBlock)
    → All (λ s. s.bytes ≤ limit) ss
    → IsSound ctx.plan_id limit blocks
    → IsSound ctx.plan_id limit (add_splits ctx ci si ss blocks)
      × (sum_by (λ b. b.bytes) (add_splits ctx ci si ss blocks)
          ≡ sum_by (λ b. b.bytes) blocks + sum_by (λ s. s.bytes) ss)
unfolding add_splits make_block
add_splits-IsSound ctx limit ci si [] blocks small h = (h, omega arith)
add_splits-IsSound ctx limit ci si (s ∷ ss) blocks small h =
    let b = make_block ctx ci si (length blocks) s in
    let z : length blocks ≡ 0 + length blocks = omega arith in
    let (sound, sum) = add_splits-IsSound ctx limit ci (suc si) ss (blocks ++ b ∷ []) small.1 (
      Numbered-append ctx.plan_id 0 blocks b h.0 (ap (λ k. ctx.plan_id ^^ ":b" ^^ show_ℕ k) z),
      All-append _ blocks (b ∷ []) h.1 (small.0, tt),
    ) in
    (sound, omega (arith, sum_by-append (λ b. b.bytes) blocks (b ∷ [])))

add_chunks-IsSound :
    (ctx : Context) (chunk_bytes : ℤ) (ci : ℕ) (cs : List PlannerChunk)
    (blocks : List TransferBlock)
    → IsSound ctx.plan_id (split_size chunk_bytes) blocks
    → IsSound ctx.plan_id (split_size chunk_bytes) (add_chunks ctx chunk_bytes ci cs blocks)
      × (sum_by (λ b. b.bytes) (add_chunks ctx chunk_bytes ci cs blocks)
          ≡ sum_by (λ b. b.bytes) blocks + sum_by (λ c. c.bytes) cs)
unfolding add_chunks
add_chunks-IsSound ctx cb ci [] blocks h = (h, omega arith)
add_chunks-IsSound ctx cb ci (c ∷ cs) blocks h =
    let (bytes, small) = split_chunk-bytes c cb in
    let (sound₁, sum₁) =
      add_splits-IsSound ctx (split_size cb) ci 0 (split_chunk c cb) blocks small h in
    let (sound, sum) =
      add_chunks-IsSound ctx cb (suc ci) cs (add_splits ctx ci 0 (split_chunk c cb) blocks)
        sound₁ in
    (sound, omega arith)

module _ {F : Type 0} ⦃f : FloatOps F⦄ where
  pub add_assignments-IsSound :
      (plan_id : String) (chunk_bytes : ℤ) (allowed : List String) (index : ℕ)
      (as' : List (PlannerPathAssignment F)) (d : Dict String (BlockPath F))
      (blocks : List TransferBlock)
      → IsSound plan_id (split_size chunk_bytes) blocks
      → let out = (add_assignments plan_id chunk_bytes allowed index as' (d, blocks)).1 in
        IsSound plan_id (split_size chunk_bytes) out
        × (sum_by (λ b. b.bytes) out
            ≡ sum_by (λ b. b.bytes) blocks + sum_by (λ a. sum_by (λ c. c.bytes) a.chunks) as')
  unfolding add_assignments
  add_assignments-IsSound plan_id cb allowed index [] d blocks h = (h, omega arith)
  add_assignments-IsSound plan_id cb allowed index (a ∷ as') d blocks h =
      let (sound₁, sum₁) = add_chunks-IsSound _ cb 0 a.chunks blocks h in
      let (sound, sum) = add_assignments-IsSound plan_id cb allowed (suc index) as' _ _ sound₁ in
      (sound, omega arith)

-- No two blocks share an id.
abbrev pub HasDistinctIds : List TransferBlock → Type 0
HasDistinctIds [] = Unit
HasDistinctIds (b ∷ bs) =
    (any_by (λ c. string_eq.beq c.block_id b.block_id) bs ≡ false) × HasDistinctIds bs

later-other_id :
    (plan_id : String) (n m : ℕ) (bs : List TransferBlock)
    → n < m
    → Numbered plan_id m bs
    → any_by (λ c. string_eq.beq c.block_id (plan_id ^^ ":b" ^^ show_ℕ n)) bs ≡ false
later-other_id plan_id n m [] lt h = refl
later-other_id plan_id n m (c ∷ bs) lt h =
    elim (Bool-cases (string_eq.beq c.block_id (plan_id ^^ ":b" ^^ show_ℕ n))) [
      | inr other ↦ rw other (later-other_id plan_id n (suc m) bs (omega arith) h.1)
      | inl same ↦
          let shown : show_ℕ m ≡ show_ℕ n =
            append_cancel_left ":b" _ _
              (append_cancel_left plan_id _ _ (sym h.0 ∙ (string_eq.beq_iff _ _).0 same)) in
          absurd (omega (arith, show_ℕ-injective m n shown))
    ]

pub Numbered-HasDistinctIds :
    (plan_id : String) (n : ℕ) (bs : List TransferBlock) → Numbered plan_id n bs → HasDistinctIds bs
Numbered-HasDistinctIds plan_id n [] h = tt
Numbered-HasDistinctIds plan_id n (b ∷ bs) h = (
  rw h.0 (later-other_id plan_id n (suc n) bs (omega arith) h.1),
  Numbered-HasDistinctIds plan_id (suc n) bs h.1,
)
