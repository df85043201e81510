-- ===== src/OffloadStore/Effects/Submits.antt =====
-- `_submit_many` of turbobus/offload/store.py as a change of the view.
use mathlib.Core.Path.{fun_ext}
use pcie_pool.Common.{
  suc, List, [], ◌∷◌, ◌≡◌, refl, ap, ◌∙◌, inl, inr, String, arith, All, length, ok, err,
  Result-cases, Option-cases, Bool-cases,
}
use pcie_pool.Common.Entries.{All-lookup}
use pcie_pool.Common.Dict.{Dict, lookup, string_eq}
use pcie_pool.OffloadStore.{
  Operation, TransferRange, Handle, Block, OffloadStore, RuntimeSession, Run,
}
use pcie_pool.OffloadStore.Blocks.{ranges, blocks_named, can_use_range_batch}
use pcie_pool.OffloadStore.Transfers.{
  submit_transfer, submit_each, submit_blocks, submit_many, submitting,
}
use pcie_pool.OffloadStore.Spec
use pcie_pool.OffloadStore.Spec.{
  Entry, View, view, view_of, entry_of, change, update, listed, settled, settled_alone, Call,
  run_call, effect, Partial, Simulates, outcome,
}
use pcie_pool.OffloadStore.Lookups.{and_then-rule, view-record_many, view-record_each, names_of}
use pcie_pool.OffloadStore.Invariant.{IsValid, record_many-IsTables, record_each-IsTables}
use pcie_pool.OffloadStore.Effects.{Follows, SameTables, SameTables-IsValid}

pub submit_transfer-tables :
    (session : RuntimeSession) (blocks : List Block) (operation : Operation)
    (items : List TransferRange) (s : OffloadStore)
    → SameTables s (submit_transfer session blocks operation items s).0
unfolding submit_transfer
submit_transfer-tables session blocks operation items s = ground arith

abbrev Submitted : OffloadStore → List Block → Run (List Handle) → Type 0
Submitted s blocks (t, ok handles) = SameTables s t × (length handles ≡ length blocks)
Submitted s blocks (t, err e) = SameTables s t

submit_each-tables :
    (session : RuntimeSession) (operation : Operation) (blocks : List Block) (s : OffloadStore)
    → Submitted s blocks (submit_each session operation blocks s)
unfolding submit_each
submit_each-tables session operation [] s = ((refl, refl), refl)
submit_each-tables session operation (b ∷ blocks) s =
    elim (Result-cases (ranges (b ∷ []) operation)) [
      | inr (e, raised) ↦ rw (raised, submit_each) (refl, refl)
      | inl (items, made) ↦
          rw (made, submit_each)
            (and_then-rule (λ r. SameTables s r.0) (Submitted s (b ∷ blocks))
              (submit_transfer session (b ∷ []) operation items s) _
              (submit_transfer-tables session (b ∷ []) operation items s) (λ t e same. same)
              (λ t handle same.
                and_then-rule (Submitted t blocks) (Submitted s (b ∷ blocks))
                  (submit_each session operation blocks t) _
                  (submit_each-tables session operation blocks t)
                  (λ u e also. (also.0 ∙ same.0, also.1 ∙ same.1))
                  (λ u handles also.
                    ((also.0.0 ∙ same.0, also.0.1 ∙ same.1), ap (λ n. suc n) also.1))))
    ]

submit_blocks-Follows :
    (session : RuntimeSession) (operation : Operation) (b : Block) (rest : List Block)
    (s : OffloadStore)
    → IsValid s
    → Follows
        (Spec.submit session (names_of (b ∷ rest)) operation)
        s
        (submit_blocks session operation b rest s)
unfolding submit_blocks
submit_blocks-Follows session operation b rest s h =
    let blocks = b ∷ rest in
    let call = Spec.submit session (names_of blocks) operation in
    elim (Bool-cases (can_use_range_batch b rest)) [
      | inl batch ↦ elim (Result-cases (ranges blocks operation)) [
        | inr (e, raised) ↦ rw (batch, submit_blocks, raised) (h, refl)
        | inl (items, made) ↦
            rw (batch, submit_blocks, made)
              (and_then-rule (λ r. SameTables s r.0) (Follows call s)
                (submit_transfer session blocks operation items s) _
                (submit_transfer-tables session blocks operation items s)
                (λ t e same. (SameTables-IsValid s t same h, ap view_of same.0))
                (λ t handle same. (
                  record_many-IsTables blocks handle operation (submitting operation) t.blocks
                      t.block_views (SameTables-IsValid s t same h),
                  fun_ext λ other.
                      view-record_many blocks handle operation (submitting operation) t.blocks other
                      ∙ ap (λ d. effect call (view_of d) other) same.0,
                )))
      ]
      | inr each ↦
          rw (each, submit_blocks)
            (and_then-rule (Submitted s blocks) (Follows call s)
              (submit_each session operation blocks s) _
              (submit_each-tables session operation blocks s)
              (λ t e same. (SameTables-IsValid s t same h, ap view_of same.0))
              (λ t handles same. (
                record_each-IsTables blocks handles operation (submitting operation) t.blocks
                    t.block_views (SameTables-IsValid s t same.0 h),
                fun_ext λ other.
                    view-record_each blocks handles operation (submitting operation) t.blocks other
                      same.1
                    ∙ ap (λ d. effect call (view_of d) other) same.0.0,
              )))
    ]

-- The blocks that names stand for have those names.
blocks_named-names :
    (names : List String) (d : Dict String Block) (blocks : List Block)
    → blocks_named names d ≡ ok blocks
    → All (λ p. p.1.name ≡ p.0) d
    → names_of blocks ≡ names
unfolding blocks_named
blocks_named-names [] d [] e named = refl
blocks_named-names [] d (b ∷ blocks) e named = absurd (ground arith)
blocks_named-names (name ∷ names) d blocks e named = elim (Option-cases (lookup name d)) [
  | inl missing ↦ absurd (ground (arith, missing))
  | inr (b, here) ↦ elim (Result-cases (blocks_named names d)) [
    | inr (f, raised) ↦ absurd (ground (arith, here, raised))
    | inl (others, found) ↦ ground (
      arith,
      here,
      found,
      blocks_named-names names d others found named,
      All-lookup (λ (p : String × Block). p.1.name ≡ p.0) name b d here named,
    )
  ]
]

pub submit-Follows :
    (session : RuntimeSession) (names : List String) (operation : Operation) (s : OffloadStore)
    → IsValid s
    → Follows (Spec.submit session names operation) s (submit_many session names operation s)
unfolding submit_many
submit-Follows session names operation s h = elim (Result-cases (blocks_named names s.blocks)) [
  | inr (e, raised) ↦ rw (raised, submit_many) (h, refl)
  | inl ([], found) ↦
      rw (found, submit_many, ← blocks_named-names names s.blocks [] found h.named) (h, refl)
  | inl ((b ∷ rest), found) ↦
      rw (found, submit_many, ← blocks_named-names names s.blocks (b ∷ rest) found h.named)
        (submit_blocks-Follows session operation b rest s h)
]
