-- ===== src/Planner/Cost.antt =====
-- The cost metadata of a plan: `_plan_cost_metadata` and `_planner_path_key` of
-- turbobus/planner_engine.py.
use pcie_pool.Common.{
  ℕ, leb, List, [], ◌∷◌, Option, none, some, Bool, ◌&&◌, String, if◌then◌else◌, str_eq, length,
  sum_by,
}
use pcie_pool.Common.Int.{eqb_ℤ}
use pcie_pool.Common.Float.{FloatOps, fmax}
use pcie_pool.Planner.{PlannerChunk, PlannerPath, PlannerPathAssignment, PathRecord}

abbrev pub chunks_bytes : List PlannerChunk → ℕ
chunks_bytes = sum_by λ c. c.bytes

-- Equality of `_planner_path_key`, the tuple of kind, direction and the two devices.
pub same_key : {F : Type 0} → PlannerPath F → PlannerPath F → Bool
same_key p q =
    str_eq p.kind q.kind
    && str_eq p.direction q.direction
    && eqb_ℤ p.target_device q.target_device
    && eqb_ℤ p.relay_device q.relay_device

-- `assigned_by_path.get(key)`: the dict is built from pairs, so the last assignment of a key wins.
pub assigned_by_path :
    {F : Type 0}
    → PlannerPath F
    → List (PlannerPathAssignment F)
    → Option (PlannerPathAssignment F)
    → Option (PlannerPathAssignment F)
unfolding same_key
assigned_by_path path [] found = found
assigned_by_path path (a ∷ as') found =
    assigned_by_path path as' (if same_key a.path path then some a else found)

abbrev pub bytes_of : {F : Type 0} → Option (PlannerPathAssignment F) → ℕ
bytes_of none = 0
bytes_of (some a) = chunks_bytes a.chunks

abbrev pub chunks_of : {F : Type 0} → Option (PlannerPathAssignment F) → ℕ
chunks_of none = 0
chunks_of (some a) = length a.chunks

module _ {F : Type 0} ⦃f : FloatOps F⦄ where
  abbrev pub weight_source : Option F → String
  weight_source none = "runtime_pressure_fallback"
  weight_source (some w) = if f.lt f.zero_f w then "explicit" else "runtime_pressure_fallback"

  -- One record, with the bytes and chunks that the path has been given.
  pub path_record : PlannerPath F → Option (PlannerPathAssignment F) → F → PathRecord F
  unfolding fmax
  path_record path assignment path_weight =
      let assigned_bytes = bytes_of assignment in
      let weight = fmax f.zero_f path_weight in
      record {
        kind = path.kind;
        target_device = path.target_device;
        relay_device = if str_eq path.kind "relay" then some path.relay_device else none;
        effective_bw_gbps = path.effective_bw_gbps;
        scheduler_weight_gbps = weight;
        scheduler_weight_source = weight_source path.scheduler_weight_gbps;
        runtime_pressure = path.runtime_pressure;
        assigned_bytes = assigned_bytes;
        assigned_chunks = chunks_of assignment;
        estimated_finish_seconds =
            if leb assigned_bytes 0
            then f.zero_f
            else f.div (f.of_ℕ assigned_bytes) (f.mul (fmax weight f.tiny) f.giga);
      }

  -- `for index, path in enumerate(paths)`. The weights are computed from the paths, one for each.
  unfoldable pub path_records :
      List (PlannerPathAssignment F) → List (PlannerPath F) → List F → List (PathRecord F)
  unfolding path_record assigned_by_path
  path_records assignments [] weights = []
  path_records assignments (p ∷ ps) [] = []
  path_records assignments (p ∷ ps) (w ∷ ws) =
      path_record p (assigned_by_path p assignments none) w ∷ path_records assignments ps ws
