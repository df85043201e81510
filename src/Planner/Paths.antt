-- ===== src/Planner/Paths.antt =====
-- Which paths a transfer may take: `_build_paths` and the bandwidth helpers of
-- turbobus/planner_engine.py.
pub mod Eligible
use pcie_pool.Common.{
  ℕ, List, [], ◌∷◌, ◌++◌, Option, none, some, Bool, true, false, not, ◌&&◌, ◌||◌, String,
  if◌then◌else◌, str_eq,
}
use pcie_pool.Common.Int.{ℤ, negsuc}
use pcie_pool.Common.Float.{FloatOps, fmax, fmin, or_else}
use pcie_pool.Planner.{
  TransferMode, auto, pool, direct, relay, PlannerPath, RelayProfile, Profile, PlannerEngineOptions,
}

pub is_relay : TransferMode → Bool
is_relay relay = true
is_relay _ = false

pub is_direct : TransferMode → Bool
is_direct direct = true
is_direct _ = false

module _ {F : Type 0} ⦃f : FloatOps F⦄ where
  -- `max(0.0, float(x or 0.0))`
  pub clamped : F → F
  unfolding fmax or_else
  clamped x = fmax f.zero_f (or_else x f.zero_f)

  -- `_direct_bandwidth`
  pub direct_bandwidth : Profile F → String → F
  unfolding clamped
  direct_bandwidth profile direction =
      let bw = clamped (
        if str_eq direction "h2d"
        then profile.direct_h2d_bw_gbps
        else profile.direct_d2h_bw_gbps) in
      if not (str_eq direction "h2d") && f.le bw f.zero_f
      then clamped profile.direct_h2d_bw_gbps
      else bw

  -- `_relay_effective_bandwidth`
  pub relay_effective_bandwidth : RelayProfile F → String → F
  unfolding clamped
  relay_effective_bandwidth relay_profile direction =
      let bw = clamped (
        if str_eq direction "h2d"
        then relay_profile.effective_bw_gbps
        else relay_profile.effective_d2h_bw_gbps) in
      if not (str_eq direction "h2d") && f.le bw f.zero_f
      then clamped relay_profile.effective_bw_gbps
      else bw

  -- A weight counts only if it is positive.
  pub positive_weight : F → F
  unfolding or_else
  positive_weight x =
      let weight = or_else x f.zero_f in if f.lt f.zero_f weight then weight else f.zero_f

  -- `_direct_scheduler_weight`
  pub direct_scheduler_weight : Profile F → String → F
  unfolding positive_weight
  direct_scheduler_weight profile direction = positive_weight (
      if str_eq direction "h2d"
      then profile.direct_scheduler_weight_h2d_gbps
      else profile.direct_scheduler_weight_d2h_gbps)

  -- `_relay_scheduler_weight`
  pub relay_scheduler_weight : RelayProfile F → String → F
  unfolding positive_weight
  relay_scheduler_weight relay_profile direction = positive_weight (
      if str_eq direction "h2d"
      then relay_profile.scheduler_weight_h2d_gbps
      else relay_profile.scheduler_weight_d2h_gbps)

  -- `_direct_runtime_pressure`
  pub direct_runtime_pressure : Profile F → String → F
  unfolding clamped
  direct_runtime_pressure profile direction = clamped (
      if str_eq direction "h2d"
      then profile.direct_runtime_pressure_h2d
      else profile.direct_runtime_pressure_d2h)

  -- `_relay_runtime_pressure`
  pub relay_runtime_pressure : RelayProfile F → String → F
  unfolding clamped
  relay_runtime_pressure relay_profile direction = clamped (
      if str_eq direction "h2d"
      then relay_profile.runtime_pressure_h2d
      else relay_profile.runtime_pressure_d2h)

  unfoldable pub direct_path : Profile F → String → PlannerPath F
  unfolding direct_bandwidth direct_scheduler_weight direct_runtime_pressure or_else
  direct_path profile direction = record {
    kind = "direct";
    direction = direction;
    target_device = profile.target_device;
    relay_device = negsuc 0;
    h2d_bw_gbps = or_else profile.direct_h2d_bw_gbps f.zero_f;
    d2h_bw_gbps = or_else profile.direct_d2h_bw_gbps (direct_bandwidth profile direction);
    p2p_bw_gbps = f.zero_f;
    effective_bw_gbps = direct_bandwidth profile direction;
    enabled = true;
    scheduler_weight_gbps = some (direct_scheduler_weight profile direction);
    runtime_pressure = direct_runtime_pressure profile direction;
  }

  unfoldable pub relay_path : RelayProfile F → String → PlannerPath F
  unfolding relay_effective_bandwidth relay_scheduler_weight relay_runtime_pressure or_else
  relay_path r direction = record {
    kind = "relay";
    direction = direction;
    target_device = r.target_device;
    relay_device = r.relay_device;
    h2d_bw_gbps = or_else r.h2d_bw_gbps f.zero_f;
    d2h_bw_gbps = or_else r.d2h_bw_gbps r.h2d_bw_gbps;
    p2p_bw_gbps = or_else r.p2p_bw_gbps f.zero_f;
    effective_bw_gbps = relay_effective_bandwidth r direction;
    enabled = true;
    scheduler_weight_gbps = some (relay_scheduler_weight r direction);
    runtime_pressure = relay_runtime_pressure r direction;
  }

  -- The three `continue`s of the relay loop.
  pub skip_relay : PlannerEngineOptions F → F → RelayProfile F → String → Bool
  unfolding relay_effective_bandwidth
  skip_relay options direct_bw r direction =
      let bw = relay_effective_bandwidth r direction in
      (not r.p2p_enabled || f.le bw f.zero_f)
      || f.lt bw options.relay_min_effective_bw_gbps
      || (f.lt f.zero_f direct_bw
          && f.lt f.zero_f options.relay_min_direct_ratio
          && f.lt bw (f.mul direct_bw options.relay_min_direct_ratio))

  -- `for relay in profile.relays`, on the paths so far.
  pub add_relays :
      PlannerEngineOptions F
      → F
      → String
      → List (RelayProfile F)
      → List (PlannerPath F)
      → List (PlannerPath F)
  unfolding skip_relay relay_path
  add_relays options direct_bw direction [] paths = paths
  add_relays options direct_bw direction (r ∷ rs) paths =
      add_relays options direct_bw direction rs (
        if skip_relay options direct_bw r direction
        then paths
        else paths ++ relay_path r direction ∷ [])

  -- `_build_paths`
  unfoldable pub build_paths :
      PlannerEngineOptions F → Profile F → TransferMode → String → List (PlannerPath F)
  unfolding is_relay is_direct direct_bandwidth direct_path add_relays
  build_paths options profile mode direction =
      let direct_bw = direct_bandwidth profile direction in
      let paths =
        if not (is_relay mode) && f.lt f.zero_f direct_bw
        then direct_path profile direction ∷ []
        else [] in
      if is_direct mode then paths else add_relays options direct_bw direction profile.relays paths
