-- ===== src/BlockRuntime/Advance/Worker.antt =====
-- The state machine of a block in turbobus/daemon/block_runtime.py: the moves that a status or a
-- worker's progress can make.
use pcie_pool.Common.{
  ℕ, ◌-◌, ◌≡◌, refl, inl, inr, List, [], ◌∷◌, map, Option, some, true, false, not, ◌||◌, String,
  arith, Bool-cases, Option-cases, Result-cases, ok, str_eq, leb,
}
use pcie_pool.Common.Int.{ℤ}
use pcie_pool.Common.Dict.{Dict, lookup, string_eq}
use pcie_pool.Common.Float.{FloatOps}
use pcie_pool.BlockRuntime.{
  BlockRuntimeRecord, TransferStatusState, submitted, running, complete, failed, canceled,
}
use pcie_pool.BlockRuntime.Advance.{
  status_state, running_record, completed_record, stopped_record, partial_from,
  terminal_partial_records, advance_by, advance_for_status, Progress, ProgressItem,
  progress_by_block, progressed, progress_record, advance_from_worker_progress, no_items,
  is_terminal, completion_error, spelled, text_or,
}

-- A block stays as it is, starts unless it has ended, or ends at this moment.
pub data Move {F : Type 0} (now : F) (r r' : BlockRuntimeRecord F) : Type 0 where
  stays : r' ≡ r → Move now r r'
  starts : is_terminal r.state ≡ false → r'.state ≡ "running" → Move now r r'
  ends : is_terminal r'.state ≡ true → r'.completed_at ≡ some now → Move now r r'

-- Block by block.
abbrev pub Moves :
    {F : Type 0} → F → List (BlockRuntimeRecord F) → List (BlockRuntimeRecord F) → Type 0
Moves now [] [] = Unit
Moves now (r ∷ rs) (r' ∷ rs') = Move now r r' × Moves now rs rs'
Moves now _ _ = ⊥

-- Whether every block that had ended is still ended.
abbrev pub KeepsEnded :
    {F : Type 0} → List (BlockRuntimeRecord F) → List (BlockRuntimeRecord F) → Type 0
KeepsEnded (r ∷ rs) (r' ∷ rs') =
    ((not (is_terminal r.state) || is_terminal r'.state) ≡ true) × KeepsEnded rs rs'
KeepsEnded _ _ = Unit

module _ {F : Type 0} where
  map-Moves :
      (now : F) (step : BlockRuntimeRecord F → BlockRuntimeRecord F)
      → ((r : BlockRuntimeRecord F) → Move now r (step r))
      → (rs : List (BlockRuntimeRecord F)) → Moves now rs (map step rs)
  map-Moves now step h [] = tt
  map-Moves now step h (r ∷ rs) = (h r, map-Moves now step h rs)

  Move-ended :
      (now : F) (r r' : BlockRuntimeRecord F)
      → Move now r r'
      → (not (is_terminal r.state) || is_terminal r'.state) ≡ true
  Move-ended now r r' (stays e) = rw e (ground arith)
  Move-ended now r r' (starts open_ e) = ground arith
  Move-ended now r r' (ends t _) = ground arith

  -- No move takes a block out of a final state.
  Moves-KeepsEnded :
      (now : F) (rs rs' : List (BlockRuntimeRecord F)) → Moves now rs rs' → KeepsEnded rs rs'
  Moves-KeepsEnded now [] rs' m = tt
  Moves-KeepsEnded now (r ∷ rs) [] m = elim m [ ]
  Moves-KeepsEnded now (r ∷ rs) (r' ∷ rs') m =
      (Move-ended now r r' m.0, Moves-KeepsEnded now rs rs' m.1)

module _ {F : Type 0} ⦃f : FloatOps F⦄ where
  running-Move : (now : F) (r : BlockRuntimeRecord F) → Move now r (running_record r now)
  unfolding running_record
  running-Move now r = elim (Bool-cases (is_terminal r.state)) [
    | inl e ↦ rw (e, running_record) (stays refl)
    | inr e ↦ starts e (rw e refl)
  ]

  completed-Move : (now : F) (r : BlockRuntimeRecord F) → Move now r (completed_record r now)
  unfolding completed_record str_eq
  completed-Move now r = ends refl refl

  stopped-Move :
      (now : F) (r : BlockRuntimeRecord F) (state : String) (error : Option String)
      → is_terminal state ≡ true
      → Move now r (stopped_record r state error now)
  unfolding stopped_record
  stopped-Move now r state error h = ends h refl

  partial_from-Moves :
      (now : F) (rs : List (BlockRuntimeRecord F)) (state : String) (n : ℕ) (error : Option String)
      → is_terminal state ≡ true
      → Moves now rs (partial_from rs state n error now)
  unfolding partial_from
  partial_from-Moves now [] state n error h = tt
  partial_from-Moves now (r ∷ rs) state n error h = elim (Bool-cases (leb r.bytes n)) [
    | inl e ↦ rw e (completed-Move now r, partial_from-Moves now rs state (n - r.bytes) error h)
    | inr e ↦ rw e (stopped-Move now r state error h, partial_from-Moves now rs state n error h)
  ]

  advance_by-Moves :
      (rs : List (BlockRuntimeRecord F)) (status : TransferStatusState) (n : ℤ)
      (evidence : Option (Dict String String)) (now : F)
      → Moves now rs (advance_by rs status n evidence now)
  unfolding advance_by terminal_partial_records str_eq
  advance_by-Moves rs running n evidence now = map-Moves now _ (running-Move now) rs
  advance_by-Moves rs complete n evidence now = map-Moves now _ (completed-Move now) rs
  advance_by-Moves rs failed n evidence now = partial_from-Moves now rs "failed" _ _ refl
  advance_by-Moves rs canceled n evidence now = partial_from-Moves now rs "canceled" _ _ refl
  advance_by-Moves rs submitted n evidence now = same rs
    where
      same : (rs : List (BlockRuntimeRecord F)) → Moves now rs rs
      same [] = tt
      same (r ∷ rs) = (stays refl, same rs)

  -- After a status each block has made one of the moves.
  advance_for_status-Moves :
      (rs : List (BlockRuntimeRecord F)) (state : String) (n : ℤ)
      (evidence : Option (Dict String String)) (now : F) (out : List (BlockRuntimeRecord F))
      → advance_for_status rs state n evidence now ≡ ok out
      → Moves now rs out
  unfolding advance_for_status
  advance_for_status-Moves [] state n evidence now out e =
      let o : out ≡ [] = ground arith in rw o tt
  advance_for_status-Moves (r ∷ rs) state n evidence now out e =
      elim (Result-cases (status_state state)) [
        | inr (x, bad) ↦ absurd (ground arith)
        | inl (status, good) ↦
            let o : out ≡ advance_by (r ∷ rs) status n evidence now = ground arith in
            rw o (advance_by-Moves (r ∷ rs) status n evidence now)
      ]

  progressed-Move :
      (now : F) (r : BlockRuntimeRecord F) (reported : String) (error : Option String)
      → Move now r (progressed r reported error now)
  unfolding progressed
  progressed-Move now r reported error = elim (Bool-cases (str_eq (spelled reported) "completed")) [
    | inl e ↦ rw (e, progressed) (completed-Move now r)
    | inr e ↦
        elim (Bool-cases
          (str_eq (spelled reported) "failed" || str_eq (spelled reported) "canceled")) [
            | inl e₁ ↦
                rw (e, progressed, e₁) (stopped-Move now r (spelled reported) error (ground arith))
            | inr e₁ ↦ elim (Bool-cases (str_eq (spelled reported) "running")) [
              | inl e₂ ↦ rw (e, progressed, e₁, e₂) (running-Move now r)
              | inr e₂ ↦ rw (e, progressed, e₁, e₂) (stays refl)
            ]
          ]
  ]

  progress_record-Move :
      (now : F) (by_block : Dict String ProgressItem) (evidence : Option (Dict String String))
      (r : BlockRuntimeRecord F)
      → Move now r (progress_record by_block evidence now r)
  unfolding progress_record
  progress_record-Move now by_block evidence r = elim (Option-cases (lookup r.block_id by_block)) [
    | inl e ↦ rw (e, progress_record) (stays refl)
    | inr (item, e) ↦
        rw (e, progress_record)
          (progressed-Move now r (text_or item.state r.state) (completion_error evidence))
  ]

  -- After a worker's progress each block has made one of the moves.
  advance_from_worker_progress-Moves :
      (rs : List (BlockRuntimeRecord F)) (progress : Progress)
      (evidence : Option (Dict String String)) (now : F) (out : List (BlockRuntimeRecord F))
      → advance_from_worker_progress rs progress evidence now ≡ ok out
      → Moves now rs out
  unfolding advance_from_worker_progress
  advance_from_worker_progress-Moves [] progress evidence now out e =
      let o : out ≡ [] = ground arith in rw o tt
  advance_from_worker_progress-Moves (r ∷ rs) progress evidence now out e =
      let by_block = progress_by_block progress.records [] in
      elim (Bool-cases (no_items by_block)) [
        | inl whole ↦
            advance_for_status-Moves (r ∷ rs) (text_or progress.state "running")
              progress.bytes_completed evidence now out (rw whole at e)
        | inr named ↦
            let o : out ≡ map (progress_record by_block evidence now) (r ∷ rs) = ground arith in
            rw o (map-Moves now _ (progress_record-Move now by_block evidence) (r ∷ rs))
      ]

  -- After a worker's progress each block has stayed as it was, has started though it had not ended,
  -- or has ended at this moment; a block that had ended is still ended.
  pub advance_from_worker_progress-KeepsEnded :
      (rs : List (BlockRuntimeRecord F)) (progress : Progress)
      (evidence : Option (Dict String String)) (now : F) (out : List (BlockRuntimeRecord F))
      → advance_from_worker_progress rs progress evidence now ≡ ok out
      → Moves now rs out × KeepsEnded rs out
  advance_from_worker_progress-KeepsEnded rs progress evidence now out e =
      let moves = advance_from_worker_progress-Moves rs progress evidence now out e in
      (moves, Moves-KeepsEnded now rs out moves)
