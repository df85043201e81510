-- ===== src/BlockRuntime/Advance/Frame.antt =====
-- What the steps of turbobus/daemon/block_runtime.py leave alone.
use pcie_pool.Common.{
  ℕ, ◌≡◌, refl, ap, inl, inr, List, [], ◌∷◌, map, Option, none, String, arith, Bool-cases,
  Option-cases, Result-cases, ok, leb, ◌-◌,
}
use pcie_pool.Common.Int.{ℤ}
use pcie_pool.Common.Dict.{Dict, lookup, string_eq}
use pcie_pool.Common.Float.{FloatOps}
use pcie_pool.BlockRuntime.{
  BlockRuntimeRecord, TransferStatusState, submitted, running, complete, failed, canceled,
}
use pcie_pool.BlockRuntime.Advance.{
  status_state, running_record, completed_record, stopped_record, partial_from,
  terminal_partial_records, advance_by, advance_for_status, Progress, progress_by_block, progressed,
  progress_record, advance_from_worker_progress, no_items, is_terminal, completion_error, text_or,
}

module _ {F : Type 0} where
  -- A record less the four fields that a step may write: all that says which block it is, what it
  -- moves, under which leases and ticket.
  abbrev pub frame : BlockRuntimeRecord F → BlockRuntimeRecord F
  frame r = record r { state = ""; started_at = none; completed_at = none; error = none }

  map-frame :
      (step : BlockRuntimeRecord F → BlockRuntimeRecord F)
      → ((r : BlockRuntimeRecord F) → frame (step r) ≡ frame r)
      → (rs : List (BlockRuntimeRecord F)) → map frame (map step rs) ≡ map frame rs
  map-frame step h [] = refl
  map-frame step h (r ∷ rs) = cc (h r, map-frame step h rs)

module _ {F : Type 0} ⦃f : FloatOps F⦄ where
  running_record-frame :
      (r : BlockRuntimeRecord F) (now : F) → frame (running_record r now) ≡ frame r
  unfolding running_record
  running_record-frame r now = elim (Bool-cases (is_terminal r.state)) [
    | inl e ↦ rw (e, running_record) refl
    | inr e ↦ rw (e, running_record) refl
  ]

  partial_from-frame :
      (rs : List (BlockRuntimeRecord F)) (state : String) (n : ℕ) (error : Option String) (now : F)
      → map frame (partial_from rs state n error now) ≡ map frame rs
  unfolding partial_from completed_record stopped_record
  partial_from-frame [] state n error now = refl
  partial_from-frame (r ∷ rs) state n error now = elim (Bool-cases (leb r.bytes n)) [
    | inl e ↦ rw e (ap (λ l. frame r ∷ l) (partial_from-frame rs state (n - r.bytes) error now))
    | inr e ↦ rw e (ap (λ l. frame r ∷ l) (partial_from-frame rs state n error now))
  ]

  advance_by-frame :
      (rs : List (BlockRuntimeRecord F)) (status : TransferStatusState) (n : ℤ)
      (evidence : Option (Dict String String)) (now : F)
      → map frame (advance_by rs status n evidence now) ≡ map frame rs
  unfolding advance_by terminal_partial_records completed_record
  advance_by-frame rs running n evidence now = map-frame _ (λ r. running_record-frame r now) rs
  advance_by-frame rs complete n evidence now = map-frame _ (λ r. refl) rs
  advance_by-frame rs failed n evidence now = partial_from-frame rs _ _ _ now
  advance_by-frame rs canceled n evidence now = partial_from-frame rs _ _ _ now
  advance_by-frame rs submitted n evidence now = refl

  -- A status never changes which blocks there are, in what order, nor what they move, by which path
  -- or under which leases.
  pub advance_for_status-frame :
      (rs : List (BlockRuntimeRecord F)) (state : String) (n : ℤ)
      (evidence : Option (Dict String String)) (now : F) (out : List (BlockRuntimeRecord F))
      → advance_for_status rs state n evidence now ≡ ok out
      → map frame out ≡ map frame rs
  unfolding advance_for_status
  advance_for_status-frame [] state n evidence now out e = ground arith
  advance_for_status-frame (r ∷ rs) state n evidence now out e =
      elim (Result-cases (status_state state)) [
        | inr (x, bad) ↦ absurd (ground arith)
        | inl (status, good) ↦
            let o : out ≡ advance_by (r ∷ rs) status n evidence now = ground arith in
            rw o (advance_by-frame (r ∷ rs) status n evidence now)
      ]

  progressed-frame :
      (r : BlockRuntimeRecord F) (reported : String) (error : Option String) (now : F)
      → frame (progressed r reported error now) ≡ frame r
  unfolding progressed completed_record stopped_record
  progressed-frame r reported error now = ground (arith, running_record-frame r now)

  progress_record-frame :
      (by_block : _) (evidence : Option (Dict String String)) (now : F) (r : BlockRuntimeRecord F)
      → frame (progress_record by_block evidence now r) ≡ frame r
  unfolding progress_record
  progress_record-frame by_block evidence now r = elim (Option-cases (lookup r.block_id by_block)) [
    | inl e ↦ rw (e, progress_record) refl
    | inr (item, e) ↦
        rw (e, progress_record)
          (progressed-frame r (text_or item.state r.state) (completion_error evidence) now)
  ]

  -- A worker's progress, whether it names blocks or not, never changes which blocks there are, in
  -- what order, nor what they move, by which path, under which leases or with which ticket.
  pub advance_from_worker_progress-frame :
      (rs : List (BlockRuntimeRecord F)) (progress : Progress)
      (evidence : Option (Dict String String)) (now : F) (out : List (BlockRuntimeRecord F))
      → advance_from_worker_progress rs progress evidence now ≡ ok out
      → map frame out ≡ map frame rs
  unfolding advance_from_worker_progress
  advance_from_worker_progress-frame [] progress evidence now out e = ground arith
  advance_from_worker_progress-frame (r ∷ rs) progress evidence now out e =
      let by_block = progress_by_block progress.records [] in
      elim (Bool-cases (no_items by_block)) [
        | inl whole ↦
            advance_for_status-frame (r ∷ rs) (text_or progress.state "running")
              progress.bytes_completed evidence now out (rw whole at e)
        | inr named ↦
            let o : out ≡ map (progress_record by_block evidence now) (r ∷ rs) = ground arith in
            rw o (map-frame _ (progress_record-frame by_block evidence now) (r ∷ rs))
      ]
