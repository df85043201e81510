-- ===== src/Samples.antt =====
-- Small inputs for the tests of the other modules. Floats are whole numbers in millionths.
use pcie_pool.Common.{ℕ, ◌≡◌, refl, List, [], ◌∷◌, true, Result, ok, err, str_eq}
use pcie_pool.Common.Int.{pos}
use pcie_pool.Common.Float.{FloatOps, millionths}
use pcie_pool.Planner.{
  TransferMode, Profile, RelayProfile, PlannerEngineOptions, PlannerTransferPlan, empty_plan,
}
use pcie_pool.Planner.Chunks.{RangeItem}
use pcie_pool.Planner.Engine.{plan, plan_ranges}

instance abbrev pub floats : FloatOps ℕ
floats = millionths

abbrev pub options : PlannerEngineOptions ℕ
options = record {
  min_chunks_for_relay = pos 2;
  min_pool_bytes = pos 0;
  relay_min_effective_bw_gbps = 0;
  relay_min_direct_ratio = 0;
}

abbrev pub relay_1 : RelayProfile ℕ
relay_1 = record {
  relay_device = pos 1;
  target_device = pos 0;
  h2d_bw_gbps = 20000000;
  d2h_bw_gbps = 20000000;
  p2p_bw_gbps = 40000000;
  effective_bw_gbps = 20000000;
  effective_d2h_bw_gbps = 20000000;
  p2p_enabled = true;
  scheduler_weight_h2d_gbps = 0;
  scheduler_weight_d2h_gbps = 0;
  runtime_pressure_h2d = 0;
  runtime_pressure_d2h = 0;
}

abbrev pub profile : Profile ℕ
profile = record {
  target_device = pos 0;
  direct_h2d_bw_gbps = 20000000;
  direct_d2h_bw_gbps = 20000000;
  relays = relay_1 ∷ [];
  direct_scheduler_weight_h2d_gbps = 0;
  direct_scheduler_weight_d2h_gbps = 0;
  direct_runtime_pressure_h2d = 0;
  direct_runtime_pressure_d2h = 0;
}

abbrev pub from_ok : {A : Type 0} → A → Result A → A
from_ok d (ok a) = a
from_ok d (err e) = d

-- Ten bytes in chunks of four, over the direct path and a relay.
abbrev pub pooled_plan : PlannerTransferPlan ℕ
pooled_plan = from_ok empty_plan (plan options (pos 10) (pos 4) profile TransferMode.pool "h2d")

pub pooled_plan-ok : plan options (pos 10) (pos 4) profile TransferMode.pool "h2d" ≡ ok pooled_plan
unfolding plan empty_plan str_eq
pooled_plan-ok = refl

abbrev pub ranges : List RangeItem
ranges =
    RangeItem.mapping (pos 100) (pos 0) (pos 5)
    ∷ RangeItem.sequence (pos 7 ∷ pos 5 ∷ pos 0 ∷ [])
    ∷ RangeItem.attributes (pos 40) (pos 5) (pos 3)
    ∷ []

abbrev pub ranged_plan : PlannerTransferPlan ℕ
ranged_plan =
    from_ok empty_plan (plan_ranges options ranges (pos 2) profile TransferMode.pool "d2h")

pub ranged_plan-ok :
    plan_ranges options ranges (pos 2) profile TransferMode.pool "d2h" ≡ ok ranged_plan
unfolding plan_ranges empty_plan str_eq
ranged_plan-ok = refl
