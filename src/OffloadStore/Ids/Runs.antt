-- ===== src/OffloadStore/Ids/Runs.antt =====
-- Every call on the offload store (turbobus/offload/store.py) keeps the numbering of its intents.
use pcie_pool.Common.{
  ℕ, suc, List, [], ◌∷◌, Option, none, some, refl, inl, inr, String, arith, ok, err, Result-cases,
  Option-cases, Bool-cases, any_by, ◌==◌,
}
use pcie_pool.Common.Dict.{lookup, string_eq}
use pcie_pool.OffloadStore.{
  Operation, TransferContext, Handle, Block, OffloadStore, RuntimeSession, Run,
}
use pcie_pool.OffloadStore.Blocks.{ranges, blocks_named, can_use_range_batch}
use pcie_pool.OffloadStore.Transfers.{submit_transfer, submit_each, submit_blocks, submit_many}
use pcie_pool.OffloadStore.Store
use pcie_pool.OffloadStore.Store.{wait_handle, wait_next, wait_from, marked, new_store}
use pcie_pool.OffloadStore.Spec.{
  Call, add, remove, submit, wait, wait_many, set_block_state, outcome, run_call,
}
use pcie_pool.OffloadStore.Lookups.{and_then-rule}
use pcie_pool.OffloadStore.Refinement.{run}
use pcie_pool.OffloadStore.Ids.{
  IsCounted, IsDistinct, IsNumbered-IsDistinct, intent_ids, submit_transfer-IsCounted,
}

module _ (c : TransferContext) where
  abbrev Counted {ℓ} : {A : Type ℓ} → Run A → Type 0
  Counted r = IsCounted c r.0

  submit_each-Counted :
      (session : RuntimeSession) (operation : Operation) (blocks : List Block) (s : OffloadStore)
      → IsCounted c s
      → Counted (submit_each session operation blocks s)
  unfolding submit_each
  submit_each-Counted session operation [] s h = h
  submit_each-Counted session operation (b ∷ blocks) s h =
      elim (Result-cases (ranges (b ∷ []) operation)) [
        | inr (e, raised) ↦ rw (raised, submit_each) h
        | inl (items, made) ↦
            rw (made, submit_each)
              (and_then-rule Counted Counted (submit_transfer session (b ∷ []) operation items s) _
                (submit_transfer-IsCounted c session (b ∷ []) operation items s h) (λ t e k. k)
                (λ t handle k.
                  and_then-rule Counted Counted (submit_each session operation blocks t) _
                    (submit_each-Counted session operation blocks t k) (λ u e l. l)
                    (λ u handles l. l)))
      ]

  submit_blocks-Counted :
      (session : RuntimeSession) (operation : Operation) (b : Block) (rest : List Block)
      (s : OffloadStore)
      → IsCounted c s
      → Counted (submit_blocks session operation b rest s)
  unfolding submit_blocks
  submit_blocks-Counted session operation b rest s h =
      elim (Bool-cases (can_use_range_batch b rest)) [
        | inl batch ↦ elim (Result-cases (ranges (b ∷ rest) operation)) [
          | inr (e, raised) ↦ rw (batch, submit_blocks, raised) h
          | inl (items, made) ↦
              rw (batch, submit_blocks, made)
                (and_then-rule Counted Counted
                  (submit_transfer session (b ∷ rest) operation items s) _
                  (submit_transfer-IsCounted c session (b ∷ rest) operation items s h) (λ t e k. k)
                  (λ t handle k. k))
        ]
        | inr each ↦
            rw (each, submit_blocks)
              (and_then-rule Counted Counted (submit_each session operation (b ∷ rest) s) _
                (submit_each-Counted session operation (b ∷ rest) s h) (λ t e k. k)
                (λ t handles k. k))
      ]

  submit_many-Counted :
      (session : RuntimeSession) (names : List String) (operation : Operation) (s : OffloadStore)
      → IsCounted c s
      → Counted (submit_many session names operation s)
  unfolding submit_many
  submit_many-Counted session names operation s h =
      elim (Result-cases (blocks_named names s.blocks)) [
        | inr (e, raised) ↦ rw (raised, submit_many) h
        | inl ([], found) ↦ rw (found, submit_many) h
        | inl ((b ∷ rest), found) ↦
            rw (found, submit_many) (submit_blocks-Counted session operation b rest s h)
      ]

  wait_handle-Counted :
      (session : RuntimeSession) (handle : Handle) (s : OffloadStore)
      → IsCounted c s
      → Counted (wait_handle session handle s)
  unfolding wait_handle
  wait_handle-Counted session handle s h = ground arith

  wait-Counted :
      (session : RuntimeSession) (name : String) (s : OffloadStore)
      → IsCounted c s
      → Counted (Store.wait session name s)
  unfolding Store.wait
  wait-Counted session name s h = elim (Option-cases (lookup name s.blocks)) [
    | inl missing ↦ rw (missing, Store.wait) h
    | inr (b, here) ↦ elim (Option-cases b.last_handle) [
      | inl fresh ↦ rw (here, Store.wait, fresh) h
      | inr (handle, last) ↦
          rw (here, Store.wait, last)
            (and_then-rule Counted Counted (wait_handle session handle s) _
              (wait_handle-Counted session handle s h) (λ t e k. k) (λ t done k. k))
    ]
  ]

  wait_next-Counted :
      (session : RuntimeSession) (seen : List ℕ) (last : Option Handle) (s : OffloadStore)
      → IsCounted c s
      → Counted (wait_next session seen last s)
  unfolding wait_next
  wait_next-Counted session seen none s h = h
  wait_next-Counted session seen (some handle) s h =
      elim (Bool-cases (any_by (λ n. n == handle.number) seen)) [
        | inl known ↦ rw (known, wait_next) h
        | inr new ↦
            rw (new, wait_next)
              (and_then-rule Counted Counted (wait_handle session handle s) _
                (wait_handle-Counted session handle s h) (λ t e k. k) (λ t done k. k))
      ]

  wait_from-Counted :
      (session : RuntimeSession) (seen : List ℕ) (names : List String) (s : OffloadStore)
      → IsCounted c s
      → Counted (wait_from session seen names s)
  unfolding wait_from
  wait_from-Counted session seen [] s h = h
  wait_from-Counted session seen (name ∷ names) s h = elim (Option-cases (lookup name s.blocks)) [
    | inl missing ↦ rw (missing, wait_from) h
    | inr (b, here) ↦
        rw (here, wait_from)
          (and_then-rule Counted Counted (wait_next session seen b.last_handle s) _
            (wait_next-Counted session seen b.last_handle s h) (λ t e k. k)
            (λ t now k. wait_from-Counted session now names (marked name t) k))
  ]

  outcome-IsCounted {ℓ} : {A : Type ℓ} (r : Run A) → Counted r → IsCounted c (outcome r).0
  outcome-IsCounted (s, ok a) h = h
  outcome-IsCounted (s, err e) h = h

  run_call-IsCounted :
      (call : Call) (s : OffloadStore) → IsCounted c s → IsCounted c (run_call call s).0
  unfolding run_call Store.wait_many Store.add Store.remove Store.set_block_state
      Store.clear_block_transfer_state
  run_call-IsCounted (add name on_cpu on_gpu id cpu_offset gpu_offset bytes) s h = ground arith
  run_call-IsCounted (remove name) s h = ground arith
  run_call-IsCounted (submit session names operation) s h =
      outcome-IsCounted _ (submit_many-Counted session names operation s h)
  run_call-IsCounted (wait session name) s h = outcome-IsCounted _ (wait-Counted session name s h)
  run_call-IsCounted (wait_many session names) s h =
      outcome-IsCounted _ (wait_from-Counted session [] names s h)
  run_call-IsCounted (set_block_state name state clear) s h = ground arith

  run-IsCounted :
      (calls : List Call) (s : OffloadStore) → IsCounted c s → IsCounted c (run calls s).0
  unfolding run
  run-IsCounted [] s h = h
  run-IsCounted (call ∷ calls) s h =
      run-IsCounted calls (run_call call s).0 (run_call-IsCounted call s h)

-- Whatever calls a client makes on a new store, and however the session answers them, no two of the
-- intents that the store hands to the session have the same id, those of failed submissions included.
pub run-IsDistinct :
    (context : TransferContext) (calls : List Call)
    → IsDistinct (intent_ids (run calls (new_store context)).0.submitted)
unfolding new_store
run-IsDistinct context calls =
    let end = (run calls (new_store context)).0 in
    IsNumbered-IsDistinct end.transfer_context (suc end.intent_counter) end.submitted
      (run-IsCounted context calls (new_store context) (refl, tt)).1
