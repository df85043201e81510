-- ===== src/OffloadStore/Submitted.antt =====
-- The ranges that `_submit_many` of turbobus/offload/store.py hands to the session.
use pcie_pool.Common.{
  suc, List, [], ◌∷◌, ◌++◌, ◌≡◌, refl, sym, ap, subst, ◌∙◌, inl, inr, String, arith, length,
  length-map, ok, err, Result-cases, Bool-cases,
}
use mathlib.Core.List.{append-nil, append_assoc}
use pcie_pool.OffloadStore.{
  Operation, TransferRange, TransferIntent, Handle, Block, OffloadStore, OffloadBatch,
  RuntimeSession, Run,
}
use pcie_pool.OffloadStore.Blocks.{block_bytes, ranges, blocks_named, can_use_range_batch}
use pcie_pool.OffloadStore.Transfers.{
  intent_for, checked_ranges, checked_intent, submit_transfer, submit_each, submit_blocks,
  submit_many, batch_of,
}
use pcie_pool.OffloadStore.Lookups.{and_then-rule, names_of}

-- The ranges of the submitted intents, in the order of submission.
abbrev pub sent : List TransferIntent → List TransferRange
sent [] = []
sent (i ∷ intents) = sent intents ++ i.ranges

checked_ranges-same :
    (items kept : List TransferRange) → checked_ranges items ≡ ok kept → kept ≡ items
unfolding checked_ranges
checked_ranges-same [] kept e = ground arith
checked_ranges-same (r ∷ items) kept e = elim (Result-cases (checked_ranges items)) [
  | inl (rest, made) ↦ ground (arith, made, checked_ranges-same items rest made)
  | inr (f, raised) ↦ absurd (ground (arith, raised))
]

-- The checks of an intent keep its ranges and its id.
pub checked_intent-same :
    (i j : TransferIntent)
    → checked_intent i ≡ ok j
    → (j.ranges ≡ i.ranges) × (j.intent_id ≡ i.intent_id)
unfolding checked_intent
checked_intent-same i j e = elim (Result-cases (checked_ranges i.ranges)) [
  | inl (items, made) ↦ ground (arith, made, checked_ranges-same i.ranges items made)
  | inr (f, raised) ↦ absurd (ground (arith, raised))
]

-- A transfer that is submitted adds one intent with the given ranges.
abbrev Adds : OffloadStore → List TransferRange → Run Handle → Type 0
Adds s items (t, ok handle) = sent t.submitted ≡ sent s.submitted ++ items
Adds s items (t, err e) = Unit

submit_transfer-Adds :
    (session : RuntimeSession) (blocks : List Block) (operation : Operation)
    (items : List TransferRange) (s : OffloadStore)
    → Adds s items (submit_transfer session blocks operation items s)
unfolding submit_transfer intent_for
submit_transfer-Adds session blocks operation items s =
    let i = intent_for s.transfer_context (suc s.intent_counter) blocks operation items in
    elim (Result-cases (checked_intent i)) [
      | inl (intent, made) ↦ ground (arith, made, checked_intent-same i intent made)
      | inr (f, raised) ↦ ground (arith, raised)
    ]

-- The ranges of a list of blocks are those of its first block and then those of the others.
ranges-cons :
    (operation : Operation) (b : Block) (blocks : List Block) (first rest : List TransferRange)
    → ranges (b ∷ []) operation ≡ ok first
    → ranges blocks operation ≡ ok rest
    → ranges (b ∷ blocks) operation ≡ ok (first ++ rest)
unfolding ranges
ranges-cons operation b blocks first rest e f = elim (Result-cases (block_bytes b)) [
  | inl (size, made) ↦ ground (arith, made, e, f)
  | inr (failure, raised) ↦ absurd (ground (arith, raised, e))
]

abbrev EachAdds : OffloadStore → Operation → List Block → Run (List Handle) → Type 0
EachAdds s operation blocks (t, ok handles) =
    (items : List TransferRange) × (ranges blocks operation ≡ ok items)
    × (sent t.submitted ≡ sent s.submitted ++ items)
    × (length handles ≡ length blocks)
EachAdds s operation blocks (t, err e) = Unit

submit_each-EachAdds :
    (session : RuntimeSession) (operation : Operation) (blocks : List Block) (s : OffloadStore)
    → EachAdds s operation blocks (submit_each session operation blocks s)
unfolding submit_each ranges
submit_each-EachAdds session operation [] s = ([], refl, sym (append-nil (sent s.submitted)), refl)
submit_each-EachAdds session operation (b ∷ blocks) s =
    elim (Result-cases (ranges (b ∷ []) operation)) [
      | inr (e, raised) ↦ rw (raised, submit_each) tt
      | inl (first, made) ↦
          rw (made, submit_each)
            (and_then-rule (Adds s first) (EachAdds s operation (b ∷ blocks))
              (submit_transfer session (b ∷ []) operation first s) _
              (submit_transfer-Adds session (b ∷ []) operation first s) (λ t e same. tt)
              (λ t handle one.
                and_then-rule (EachAdds t operation blocks) (EachAdds s operation (b ∷ blocks))
                  (submit_each session operation blocks t) _
                  (submit_each-EachAdds session operation blocks t) (λ u e same. tt)
                  (λ u handles others. (
                    first ++ others.0,
                    ranges-cons operation b blocks first others.0 made others.1,
                    others.2
                        ∙ ap (λ items. items ++ others.0) one
                        ∙ append_assoc (sent s.submitted) first others.0,
                    ap (λ n. suc n) others.3,
                  ))))
    ]

-- What a successful submission of blocks has handed to the session.
abbrev pub Sends : OffloadStore → Operation → List Block → Run OffloadBatch → Type 0
Sends s operation blocks (t, ok batch) =
    (items : List TransferRange) × (ranges blocks operation ≡ ok items)
    × (sent t.submitted ≡ sent s.submitted ++ items)
    × (batch.names ≡ names_of blocks)
    × (length batch.handles ≡ length blocks)
Sends s operation blocks (t, err e) = Unit

submit_blocks-Sends :
    (session : RuntimeSession) (operation : Operation) (b : Block) (rest : List Block)
    (s : OffloadStore)
    → Sends s operation (b ∷ rest) (submit_blocks session operation b rest s)
unfolding submit_blocks
submit_blocks-Sends session operation b rest s =
    let blocks = b ∷ rest in
    elim (Bool-cases (can_use_range_batch b rest)) [
      | inl batch ↦ elim (Result-cases (ranges blocks operation)) [
        | inr (e, raised) ↦ rw (batch, submit_blocks, raised) tt
        | inl (items, made) ↦
            rw (batch, submit_blocks, made)
              (and_then-rule (Adds s items) (Sends s operation blocks)
                (submit_transfer session blocks operation items s) _
                (submit_transfer-Adds session blocks operation items s) (λ t e same. tt)
                (λ t handle one. (items, made, one, refl, length-map (λ _. handle) blocks)))
      ]
      | inr each ↦
          rw (each, submit_blocks)
            (and_then-rule (EachAdds s operation blocks) (Sends s operation blocks)
              (submit_each session operation blocks s) _
              (submit_each-EachAdds session operation blocks s) (λ t e same. tt)
              (λ t handles all. (all.0, all.1, all.2, refl, all.3)))
    ]

-- Whether the store submits the named blocks in one range batch or one by one, a submission that
-- returns has handed the session, after what was sent before, exactly the ranges of these blocks in
-- the order of the names; the batch names the blocks and has a handle for each.
pub submit_many-sends :
    (session : RuntimeSession) (names : List String) (operation : Operation) (s t : OffloadStore)
    (batch : OffloadBatch)
    → submit_many session names operation s ≡ (t, ok batch)
    → (blocks : List Block) × (items : List TransferRange) × (blocks_named names s.blocks
        ≡ ok blocks)
      × (ranges blocks operation ≡ ok items)
      × (sent t.submitted ≡ sent s.submitted ++ items)
      × (batch.names ≡ names_of blocks)
      × (length batch.handles ≡ length blocks)
unfolding submit_many ranges
submit_many-sends session names operation s t batch e =
    elim (Result-cases (blocks_named names s.blocks)) [
      | inr (f, raised) ↦ absurd (ground (arith, raised, e))
      | inl ([], found) ↦
          let at_once : submit_many session names operation s ≡ (s, ok (batch_of operation [] [])) =
            rw (found, submit_many) refl in
          let sends : Sends s operation [] (t, ok batch) =
            subst (Sends s operation []) (sym at_once ∙ e)
              ([], refl, sym (append-nil (sent s.submitted)), refl, refl) in
          ([], sends.0, found, sends.1, sends.2, sends.3, sends.4)
      | inl ((b ∷ rest), found) ↦
          let step : submit_many session names operation s
              ≡ submit_blocks session operation b rest s =
            rw (found, submit_many) refl in
          let sends : Sends s operation (b ∷ rest) (t, ok batch) =
            subst (Sends s operation (b ∷ rest)) (sym step ∙ e)
              (submit_blocks-Sends session operation b rest s) in
          (b ∷ rest, sends.0, found, sends.1, sends.2, sends.3, sends.4)
    ]
