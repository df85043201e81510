-- ===== src/Planner/Engine.antt =====
-- `PlannerEngine.plan`, `plan_ranges` and `_plan_chunks` of turbobus/planner_engine.py, from the
-- parts in the sibling modules. A `PlannerEngine` is its options.
pub mod Names
pub mod Modes
pub mod Partition
use pcie_pool.Common.{
  ℕ, zero, suc, List, [], ◌∷◌, map, Option, none, some, Bool, true, false, ◌&&◌, String, ltb,
  if◌then◌else◌, length, str_eq, Result, ok, err, Error, value_error, runtime_error, ◌>>=◌, ◌>>◌,
  raise_if,
}
use pcie_pool.Common.Int.{ℤ, pos, pos_part, ltb_ℤ, leb_ℤ}
use pcie_pool.Common.Float.{FloatOps}
use pcie_pool.Common.Text.{◌^^◌}
use pcie_pool.Planner.{
  TransferMode, auto, pool, direct, relay, PlannerChunk, PlannerPath, PlannerTransferPlan, Profile,
  PlannerEngineOptions, empty_plan,
}
use pcie_pool.Planner.Chunks.{make_chunks, RangeItem, collect_ranges}
use pcie_pool.Planner.Paths.{build_paths}
use pcie_pool.Planner.Assign.{Lanes, scheduler_weight, place_all, start_lanes, sum_from, gather}
use pcie_pool.Planner.Cost.{path_records}

-- The `mode` of a call: a member of the enum or a text.
pub data ModeArgument : Type 0 where
  member : TransferMode → ModeArgument
  text : String → ModeArgument

-- The value of a member.
unfoldable pub mode_value : TransferMode → String
mode_value auto = "auto"
mode_value pool = "pool"
mode_value direct = "direct"
mode_value relay = "relay"

-- The error of `TransferMode(mode)`; the escapes that `repr` writes for quotes and control characters
-- in the text are left out.
abbrev pub unknown_mode : String → Error
unknown_mode name = value_error ("'" ^^ name ^^ "' is not a valid TransferMode")

-- `TransferMode(mode)`
unfoldable pub transfer_mode : ModeArgument → Result TransferMode
unfolding mode_value
transfer_mode (member mode) = ok mode
transfer_mode (text name) =
    if str_eq name (mode_value auto)
    then ok auto
    else if str_eq name (mode_value pool)
    then ok pool
    else if str_eq name (mode_value direct)
    then ok direct
    else if str_eq name (mode_value relay)
    then ok relay
    else err (unknown_mode name)

unfoldable pub is_pool : TransferMode → Bool
is_pool pool = true
is_pool _ = false

module _ {F : Type 0} where
  -- The two tests that turn `POOL` into `DIRECT`, on the mode and the reason so far.
  pub enough_chunks :
      PlannerEngineOptions F → ℕ → TransferMode × Option String → TransferMode × Option String
  unfolding is_pool
  enough_chunks options chunk_count (mode, reason) =
      if is_pool mode && ltb_ℤ (pos chunk_count) options.min_chunks_for_relay
      then (direct, some "below_min_chunks_for_relay")
      else (mode, reason)

  pub enough_bytes :
      PlannerEngineOptions F → ℕ → TransferMode × Option String → TransferMode × Option String
  unfolding is_pool
  enough_bytes options total_bytes (mode, reason) =
      if is_pool mode
        && ltb_ℤ (pos 0) options.min_pool_bytes
        && ltb_ℤ (pos total_bytes) options.min_pool_bytes
      then (direct, some "below_min_pool_bytes")
      else (mode, reason)

  pub settled_mode : PlannerEngineOptions F → ℕ → ℕ → TransferMode → TransferMode × Option String
  unfolding enough_chunks enough_bytes
  settled_mode options chunk_count total_bytes mode =
      enough_bytes options total_bytes (enough_chunks options chunk_count (mode, none))

abbrev pub is_empty {ℓ} : {A : Type ℓ} → List A → Bool
is_empty [] = true
is_empty (x ∷ xs) = false

module _ {F : Type 0} ⦃f : FloatOps F⦄ where
  -- `_plan_chunks`
  pub plan_chunks :
      List PlannerChunk
      → ℕ
      → ℕ
      → List (PlannerPath F)
      → Option String
      → Result (PlannerTransferPlan F)
  unfolding scheduler_weight sum_from place_all start_lanes gather path_records
  plan_chunks chunks total_bytes chunk_bytes paths pool_disabled_reason = do
    let path_weights = map scheduler_weight paths
    raise_if (f.le (sum_from f.zero_f path_weights) f.zero_f)
        (runtime_error "enabled paths have zero effective bandwidth")
    let lanes = place_all path_weights (start_lanes paths) chunks
    let assignments = gather paths lanes.assignment_chunks
    ok (record {
      total_bytes = total_bytes;
      chunk_bytes = chunk_bytes;
      assignments = assignments;
      pool_disabled_reason = pool_disabled_reason;
      path_records = path_records assignments paths path_weights;
    })

  -- What `plan` and `plan_ranges` do once the chunks are cut.
  pub plan_over :
      PlannerEngineOptions F
      → List PlannerChunk
      → ℕ
      → ℕ
      → Profile F
      → TransferMode
      → String
      → Result (PlannerTransferPlan F)
  unfolding settled_mode build_paths plan_chunks
  plan_over options chunks total_bytes chunk_bytes profile mode direction = do
    let settled = settled_mode options (length chunks) total_bytes mode
    let paths = build_paths options profile settled.0 direction
    raise_if (is_empty paths) (runtime_error "no enabled transfer path is available")
    plan_chunks chunks total_bytes chunk_bytes paths settled.1

  -- `PlannerEngine.plan` with a mode that is a member of the enum, as the scheduler calls it.
  unfoldable pub plan :
      PlannerEngineOptions F
      → ℤ
      → ℤ
      → Profile F
      → TransferMode
      → String
      → Result (PlannerTransferPlan F)
  unfolding empty_plan make_chunks plan_over
  plan options total_bytes chunk_bytes profile mode direction =
      let total = pos_part total_bytes in
      let size = pos_part chunk_bytes in
      if leb_ℤ total_bytes (pos 0)
      then ok empty_plan
      else if leb_ℤ chunk_bytes (pos 0)
      then err (value_error "chunk_bytes must be greater than zero")
      else plan_over options (make_chunks total size) total size profile mode direction

  -- `PlannerEngine.plan_ranges` with a mode that is a member of the enum.
  unfoldable pub plan_ranges :
      PlannerEngineOptions F
      → List RangeItem
      → ℤ
      → Profile F
      → TransferMode
      → String
      → Result (PlannerTransferPlan F)
  unfolding empty_plan collect_ranges plan_over
  plan_ranges options ranges chunk_bytes profile mode direction = do
    let size = pos_part chunk_bytes
    raise_if (leb_ℤ chunk_bytes (pos 0)) (value_error "chunk_bytes must be greater than zero")
    cut ← collect_ranges size ranges [] 0
    if is_empty cut.0
        then ok empty_plan
        else plan_over options cut.0 cut.1 size profile mode direction

  -- `PlannerEngine.plan`
  unfoldable pub plan_call :
      PlannerEngineOptions F
      → ℤ
      → ℤ
      → Profile F
      → ModeArgument
      → String
      → Result (PlannerTransferPlan F)
  unfolding empty_plan make_chunks transfer_mode plan_over
  plan_call options total_bytes chunk_bytes profile mode direction =
      let total = pos_part total_bytes in
      let size = pos_part chunk_bytes in
      if leb_ℤ total_bytes (pos 0)
      then ok empty_plan
      else if leb_ℤ chunk_bytes (pos 0)
      then err (value_error "chunk_bytes must be greater than zero")
      else do
        found ← transfer_mode mode
        plan_over options (make_chunks total size) total size profile found direction

  -- `PlannerEngine.plan_ranges`
  unfoldable pub plan_ranges_call :
      PlannerEngineOptions F
      → List RangeItem
      → ℤ
      → Profile F
      → ModeArgument
      → String
      → Result (PlannerTransferPlan F)
  unfolding empty_plan collect_ranges transfer_mode plan_over
  plan_ranges_call options ranges chunk_bytes profile mode direction = do
    let size = pos_part chunk_bytes
    raise_if (leb_ℤ chunk_bytes (pos 0)) (value_error "chunk_bytes must be greater than zero")
    cut ← collect_ranges size ranges [] 0
    if is_empty cut.0 then ok empty_plan else do
      found ← transfer_mode mode
      plan_over options cut.0 cut.1 size profile found direction
