-- ===== src/BlockPlan/Build/Paths.antt =====
-- The path table of `block_plan_from_assignments` in turbobus/scheduler/block_plan.py.
use pcie_pool.Common.{
  ℕ, suc, ◌≡◌, refl, ◌∙◌, inl, inr, List, [], ◌∷◌, ◌++◌, some, true, String, arith, length, All,
  All-append, All-map_to, Bool-cases, Option-cases, any_by,
}
use pcie_pool.Common.Int.{ℤ}
use pcie_pool.Common.Dict.{
  Dict, lookup, insert, contains, keys, contains-lookup, contains-insert, string_eq,
}
use pcie_pool.Common.Order.{sorted, any_by-sorted}
use pcie_pool.Common.Float.{FloatOps}
use pcie_pool.Planner.{PlannerChunk, PlannerPathAssignment}
use pcie_pool.BlockPlan.{BlockPath, TransferBlock}
use pcie_pool.BlockPlan.Build.{
  planner_path_id, Context, make_block, add_splits, add_chunks, add_assignments, split_chunk,
  set_default, values_at, block_path_from_planner_path,
}

-- A property of all blocks that one assignment may add is kept by the loops that add them.
add_splits-All :
    (P : TransferBlock → Type 0) (ctx : Context) (ci si : ℕ) (ss : List PlannerChunk)
    (blocks : List TransferBlock)
    → ((ci si n : ℕ) (s : PlannerChunk) → P (make_block ctx ci si n s))
    → All P blocks
    → All P (add_splits ctx ci si ss blocks)
unfolding add_splits
add_splits-All P ctx ci si [] blocks new h = h
add_splits-All P ctx ci si (s ∷ ss) blocks new h =
    add_splits-All P ctx ci (suc si) ss (blocks ++ make_block ctx ci si (length blocks) s ∷ []) new
      (All-append P blocks _ h (new ci si (length blocks) s, tt))

add_chunks-All :
    (P : TransferBlock → Type 0) (ctx : Context) (chunk_bytes : ℤ) (ci : ℕ) (cs : List PlannerChunk)
    (blocks : List TransferBlock)
    → ((ci si n : ℕ) (s : PlannerChunk) → P (make_block ctx ci si n s))
    → All P blocks
    → All P (add_chunks ctx chunk_bytes ci cs blocks)
unfolding add_chunks
add_chunks-All P ctx cb ci [] blocks new h = h
add_chunks-All P ctx cb ci (c ∷ cs) blocks new h =
    add_chunks-All P ctx cb (suc ci) cs (add_splits ctx ci 0 (split_chunk c cb) blocks) new
      (add_splits-All P ctx ci 0 (split_chunk c cb) blocks new h)

contains-set_default :
    {V : Type 0} (k j : String) (v : V) (d : Dict String V)
    → contains j d ≡ true
    → contains j (set_default k v d) ≡ true
unfolding set_default
contains-set_default k j v d h = elim (Option-cases (lookup k d)) [
  | inl e ↦ rw (e, set_default) (ground (arith, contains-insert k j v d))
  | inr (w, e) ↦ rw (e, set_default) h
]

contains-set_default_same :
    {V : Type 0} (k : String) (v : V) (d : Dict String V) → contains k (set_default k v d) ≡ true
unfolding set_default
contains-set_default_same k v d = elim (Option-cases (lookup k d)) [
  | inl e ↦ rw (e, set_default) (ground (arith, contains-insert k k v d, string_eq.beq_iff k k))
  | inr (w, e) ↦
      rw (e, set_default)
        (elim (Bool-cases (contains k d)) [
          | inl known ↦ known
          | inr unknown ↦ absurd (ground (arith, contains-lookup k d unknown))
        ])
]

module _ {F : Type 0} where
  -- Each path stands under its own id.
  abbrev pub IsIndexed : Dict String (BlockPath F) → Type 0
  IsIndexed d = All (λ p. p.1.path_id ≡ p.0) d

  insert-IsIndexed :
      (k : String) (v : BlockPath F) (d : Dict String (BlockPath F))
      → v.path_id ≡ k
      → IsIndexed d
      → IsIndexed (insert k v d)
  unfolding insert
  insert-IsIndexed k v [] e h = (e, tt)
  insert-IsIndexed k v ((j, w) ∷ d) e h =
      ground (arith, string_eq.beq_iff j k, insert-IsIndexed k v d e h.1)

  set_default-IsIndexed :
      (k : String) (v : BlockPath F) (d : Dict String (BlockPath F))
      → v.path_id ≡ k
      → IsIndexed d
      → IsIndexed (set_default k v d)
  unfolding set_default
  set_default-IsIndexed k v d e h = elim (Option-cases (lookup k d)) [
    | inl e₁ ↦ rw (e₁, set_default) (insert-IsIndexed k v d e h)
    | inr (w, e₁) ↦ rw (e₁, set_default) h
  ]

  lookup-IsIndexed :
      (k : String) (v : BlockPath F) (d : Dict String (BlockPath F))
      → IsIndexed d
      → lookup k d ≡ some v
      → v.path_id ≡ k
  unfolding lookup
  lookup-IsIndexed k v [] h e = absurd (ground arith)
  lookup-IsIndexed k v ((j, w) ∷ d) h e =
      ground (arith, string_eq.beq_iff j k, lookup-IsIndexed k v d h.1)

  -- `tuple(d[k] for k in ks)` has a path for each known key.
  values_at-has :
      (k : String) (ks : List String) (d : Dict String (BlockPath F))
      → IsIndexed d
      → (v : BlockPath F) → lookup k d ≡ some v
      → any_by (λ j. string_eq.beq j k) ks ≡ true
      → any_by (λ p. string_eq.beq p.path_id k) (values_at ks d) ≡ true
  unfolding values_at
  values_at-has k [] d h v e m = absurd (ground arith)
  values_at-has k (j ∷ ks) d h v e m =
      let ih = values_at-has k ks d h v e in
      elim (Bool-cases (string_eq.beq j k)) [
        | inl same ↦
            let s : j ≡ k = (string_eq.beq_iff j k).0 same in
            let e₁ : lookup j d ≡ some v = rw s e in
            rw (e₁, values_at)
              (ground (arith, lookup-IsIndexed k v d h e, string_eq.beq_iff v.path_id k))
        | inr other ↦ elim (Option-cases (lookup j d)) [
          | inl e₁ ↦ rw (e₁, values_at) (ground arith)
          | inr (w, e₁) ↦ rw (e₁, values_at) (ground arith)
        ]
      ]

  contains-lookup-some :
      (k : String) (d : Dict String (BlockPath F))
      → contains k d ≡ true
      → (v : BlockPath F) × (lookup k d ≡ some v)
  unfolding contains lookup
  contains-lookup-some k [] h = absurd (ground arith)
  contains-lookup-some k ((j, w) ∷ d) h = elim (Bool-cases (string_eq.beq j k)) [
    | inl same ↦ (w, rw same refl)
    | inr other ↦ let (v, e) = contains-lookup-some k d (ground arith) in (v, rw other e)
  ]

  contains-keys :
      (k : String) (d : Dict String (BlockPath F))
      → contains k d ≡ true
      → any_by (λ j. string_eq.beq j k) (keys d) ≡ true
  unfolding contains
  contains-keys k [] h = absurd (ground arith)
  contains-keys k ((j, w) ∷ d) h = ground (arith, contains-keys k d)

  -- The table that the plan lists, in the order of the ids.
  table-has :
      (k : String) (d : Dict String (BlockPath F))
      → IsIndexed d
      → contains k d ≡ true
      → any_by (λ p. string_eq.beq p.path_id k) (values_at (sorted (keys d)) d) ≡ true
  table-has k d h c =
      let (v, e) = contains-lookup-some k d c in
      values_at-has k (sorted (keys d)) d h v e
        (any_by-sorted (λ j. string_eq.beq j k) (keys d) ∙ contains-keys k d c)

  -- Every block goes by a path of the table, and the table is indexed by the paths' own ids.
  abbrev pub IsTabled : Dict String (BlockPath F) × List TransferBlock → Type 0
  IsTabled (d, blocks) = IsIndexed d × All (λ b. contains b.path_id d ≡ true) blocks

module _ {F : Type 0} ⦃f : FloatOps F⦄ where
  add_assignments-IsTabled :
      (plan_id : String) (chunk_bytes : ℤ) (allowed : List String) (index : ℕ)
      (as' : List (PlannerPathAssignment F)) (d : Dict String (BlockPath F))
      (blocks : List TransferBlock)
      → IsTabled (d, blocks)
      → IsTabled (add_assignments plan_id chunk_bytes allowed index as' (d, blocks))
  unfolding add_assignments make_block block_path_from_planner_path
  add_assignments-IsTabled plan_id cb allowed index [] d blocks h = h
  add_assignments-IsTabled plan_id cb allowed index (a ∷ as') d blocks h =
      let k = planner_path_id a.path in
      let v = block_path_from_planner_path a.path in
      let d₁ = set_default k v d in
      add_assignments-IsTabled plan_id cb allowed (suc index) as' d₁ _ (
        set_default-IsIndexed k v d refl h.0,
        add_chunks-All (λ b. contains b.path_id d₁ ≡ true) _ cb 0 a.chunks blocks
            (λ ci si n s. contains-set_default_same k v d)
            (All-map_to _ _ (λ b. contains-set_default k b.path_id v d) blocks h.1),
      )

  -- The path of every block of a plan is in the plan's list of paths.
  pub block_plan-paths :
      (plan_id : String) (chunk_bytes : ℤ) (allowed : List String)
      (as' : List (PlannerPathAssignment F))
      → let out = add_assignments plan_id chunk_bytes allowed 0 as' ([], []) in
        All
          (λ b.
            any_by (λ p. string_eq.beq p.path_id b.path_id) (values_at (sorted (keys out.0)) out.0)
            ≡ true)
          out.1
  block_plan-paths plan_id cb allowed as' =
      let out = add_assignments plan_id cb allowed 0 as' ([], []) in
      let (indexed, known) = add_assignments-IsTabled plan_id cb allowed 0 as' [] [] (tt, tt) in
      All-map_to _ _ (λ b. table-has b.path_id out.0 indexed) out.1 known
