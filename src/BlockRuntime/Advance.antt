-- ===== src/BlockRuntime/Advance.antt =====
-- `advance_for_status` and `advance_from_worker_progress` of turbobus/daemon/block_runtime.py. The
-- evidence that they return beside the records is `runtime_evidence` of those records, and an echo
-- of the progress; it is left out. A mapping with a key set to `None` is read as one without it.
pub mod Frame
pub mod Partial
pub mod Worker
use pcie_pool.Common.{
  ℕ, ◌-◌, List, [], ◌∷◌, map, Option, none, some, Bool, true, false, ◌||◌, String, str_eq, leb,
  if◌then◌else◌, Result, ok, err, Error, value_error, ◌>>=◌,
}
use pcie_pool.Common.Int.{ℤ, pos_part}
use pcie_pool.Common.Dict.{Dict, lookup, insert, string_eq}
use pcie_pool.Common.Float.{FloatOps, or_else}
use pcie_pool.BlockRuntime.{
  BlockRuntimeRecord, TransferStatusState, submitted, running, complete, failed, canceled,
}

-- `TransferStatusState(state)` on a text.
pub status_state : String → Result TransferStatusState
unfolding str_eq
status_state s =
    if str_eq s "submitted"
    then ok submitted
    else if str_eq s "running"
    then ok running
    else if str_eq s "complete"
    then ok complete
    else if str_eq s "failed"
    then ok failed
    else if str_eq s "canceled"
    then ok canceled
    else err (value_error s)

-- `_completion_error`: the first of the two fields that is there.
pub completion_error : Option (Dict String String) → Option String
unfolding lookup
completion_error none = none
completion_error (some evidence) = elim (lookup "error" evidence) [
  | some value ↦ some value
  | none ↦ lookup "failure_source" evidence
]

abbrev pub is_terminal : String → Bool
is_terminal s = str_eq s "completed" || str_eq s "failed" || str_eq s "canceled"

abbrev pub error_or : Option String → String → Option String
error_or none state = some state
error_or (some e) state = if str_eq e "" then some state else some e

module _ {F : Type 0} ⦃f : FloatOps F⦄ where
  -- `record.started_at or float(now)`
  abbrev pub started_or : Option F → F → Option F
  started_or none now = some now
  started_or (some t) now = some (or_else t now)

  -- `_running_record`
  pub running_record : BlockRuntimeRecord F → F → BlockRuntimeRecord F
  unfolding str_eq or_else
  running_record r now =
      if is_terminal r.state
      then r
      else record r { state = "running"; started_at = started_or r.started_at now }

  -- `_completed_record`
  pub completed_record : BlockRuntimeRecord F → F → BlockRuntimeRecord F
  unfolding or_else
  completed_record r now = record r {
    state = "completed";
    started_at = started_or r.started_at now;
    completed_at = some now;
    error = none;
  }

  -- The `replace` of a block that did not complete.
  pub stopped_record : BlockRuntimeRecord F → String → Option String → F → BlockRuntimeRecord F
  unfolding or_else str_eq
  stopped_record r state error now = record r {
    state = state;
    started_at = started_or r.started_at now;
    completed_at = some now;
    error = error_or error state;
  }

  -- The loop of `_terminal_partial_records` on the bytes that remain.
  pub partial_from :
      List (BlockRuntimeRecord F) → String → ℕ → Option String → F → List (BlockRuntimeRecord F)
  unfolding completed_record stopped_record
  partial_from [] state remaining error now = []
  partial_from (r ∷ rs) state remaining error now =
      let done = leb r.bytes remaining in
      (if done then completed_record r now else stopped_record r state error now)
      ∷ partial_from rs state (if done then remaining - r.bytes else remaining) error now

  -- `_terminal_partial_records`
  pub terminal_partial_records :
      List (BlockRuntimeRecord F) → String → ℤ → Option String → F → List (BlockRuntimeRecord F)
  unfolding partial_from
  terminal_partial_records records state bytes_completed error now =
      partial_from records state (pos_part bytes_completed) error now

  -- The branches of `advance_for_status` on its status.
  pub advance_by :
      List (BlockRuntimeRecord F)
      → TransferStatusState
      → ℤ
      → Option (Dict String String)
      → F
      → List (BlockRuntimeRecord F)
  unfolding running_record completed_record terminal_partial_records completion_error
  advance_by current running bytes_completed evidence now = map (λ r. running_record r now) current
  advance_by current complete bytes_completed evidence now =
      map (λ r. completed_record r now) current
  advance_by current failed bytes_completed evidence now =
      terminal_partial_records current "failed" bytes_completed (completion_error evidence) now
  advance_by current canceled bytes_completed evidence now =
      terminal_partial_records current "canceled" bytes_completed (completion_error evidence) now
  advance_by current submitted bytes_completed evidence now = current

  -- `advance_for_status`: the status is looked at only if there are records.
  unfoldable pub advance_for_status :
      List (BlockRuntimeRecord F)
      → String
      → ℤ
      → Option (Dict String String)
      → F
      → Result (List (BlockRuntimeRecord F))
  unfolding status_state advance_by
  advance_for_status [] state bytes_completed evidence now = ok []
  advance_for_status (r ∷ rs) state bytes_completed evidence now = do
    status ← status_state state
    ok (advance_by (r ∷ rs) status bytes_completed evidence now)

pub record ProgressItem : Type 0 where
  pub block_id : Option String
  pub state : Option String

pub record Progress : Type 0 where
  pub records : List ProgressItem
  pub state : Option String
  pub bytes_completed : ℤ

-- `progress_by_block`: the last item of a block counts.
pub progress_by_block : List ProgressItem → Dict String ProgressItem → Dict String ProgressItem
unfolding insert
progress_by_block [] d = d
progress_by_block (item ∷ items) d = elim item.block_id [
  | none ↦ progress_by_block items d
  | some id ↦ progress_by_block items (insert id item d)
]

abbrev pub no_items : Dict String ProgressItem → Bool
no_items [] = true
no_items (p ∷ d) = false

abbrev pub text_or : Option String → String → String
text_or none s = s
text_or (some t) s = t

-- The state that a worker reports, in the daemon's spelling.
pub spelled : String → String
unfolding str_eq
spelled s =
    if str_eq s "complete" then "completed" else if str_eq s "cancelled" then "canceled" else s

module _ {F : Type 0} ⦃f : FloatOps F⦄ where
  -- One round of the loop of `advance_from_worker_progress`.
  pub progressed : BlockRuntimeRecord F → String → Option String → F → BlockRuntimeRecord F
  unfolding spelled completed_record stopped_record running_record str_eq
  progressed r reported error now =
      let state = spelled reported in
      if str_eq state "completed"
      then completed_record r now
      else if str_eq state "failed" || str_eq state "canceled"
      then stopped_record r state error now
      else if str_eq state "running"
      then running_record r now
      else r

  pub progress_record :
      Dict String ProgressItem
      → Option (Dict String String)
      → F
      → BlockRuntimeRecord F
      → BlockRuntimeRecord F
  unfolding lookup progressed completion_error
  progress_record by_block evidence now r = elim (lookup r.block_id by_block) [
    | none ↦ r
    | some item ↦ progressed r (text_or item.state r.state) (completion_error evidence) now
  ]

  -- `advance_from_worker_progress`
  unfoldable pub advance_from_worker_progress :
      List (BlockRuntimeRecord F)
      → Progress
      → Option (Dict String String)
      → F
      → Result (List (BlockRuntimeRecord F))
  unfolding progress_by_block progress_record advance_for_status
  advance_from_worker_progress [] progress evidence now = ok []
  advance_from_worker_progress (r ∷ rs) progress evidence now =
      let by_block = progress_by_block progress.records [] in
      if no_items by_block
      then advance_for_status (r ∷ rs) (text_or progress.state "running") progress.bytes_completed
          evidence now
      else ok (map (progress_record by_block evidence now) (r ∷ rs))
