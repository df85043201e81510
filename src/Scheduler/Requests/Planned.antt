-- ===== src/Scheduler/Requests/Planned.antt =====
-- What `_validated_plan_transfer_inputs` of turbobus/scheduler/daemon.py accepts, and what the
-- scheduler plans for it.
use pcie_pool.Common.{
  ℕ, ◌↔◌, bind-ok, ◌≡◌, refl, sym, ap, ◌∙◌, inl, inr, List, [], ◌∷◌, Option, Bool, true, false,
  ◌||◌, String, arith, Option-cases, Result-cases, str_eq, sum_by, sum_by-append, All, ok, err,
  Error, value_error, runtime_error, key_error, type_error, pool_error,
}
use pcie_pool.Common.Int.{ℤ, pos, pos_part, ◌≤ℤ◌}
use pcie_pool.Common.Text.{lower}
use pcie_pool.Common.Sums.{sum_by-perm}
use pcie_pool.Common.Float.{FloatOps}
use pcie_pool.Planner.{
  TransferMode, direct, PlannerChunk, PlannerTransferPlan, Profile, PlannerEngineOptions,
}
use pcie_pool.Planner.Chunks.{RangeItem, mapping, sequence, attributes, range_fields}
use pcie_pool.Planner.Chunks.Tiling.{Tiles-sum}
use pcie_pool.Planner.Chunks.Ranges.{Covers}
use pcie_pool.Planner.Assign.Coverage.{assigned}
use pcie_pool.Planner.Engine.Partition.{plan-partition, plan_ranges-partition}
use pcie_pool.Scheduler.Requests.Normal.{
  IsNormal, AreNormal, normalize_ranges-same, normalize_ranges-normal, normal-normalize_ranges,
}
use pcie_pool.Scheduler.Requests.{
  normalize_ranges, item_bytes, mismatched, Inputs, validated_plan_transfer_inputs, direct_profile,
  plan_inputs, plan_or_direct,
}

-- The inputs that a request becomes: those that it asks for, its direction in lower case.
abbrev pub inputs_of : ℤ → ℤ → Option (List RangeItem) → String → Inputs
inputs_of total chunk ranges direction = record {
  total_bytes = total;
  chunk_bytes = chunk;
  ranges = ranges;
  direction = lower direction;
}

-- The requests that may be accepted.
pub record IsValid (active : Bool) (total chunk : ℤ) (ranges : Option (List RangeItem))
    (direction : String) : Type 0 where
  pub is_active : active ≡ true
  pub total_known : pos 0 ≤ℤ total
  pub chunk_known : pos 1 ≤ℤ chunk
  pub way : (str_eq (lower direction) "h2d" || str_eq (lower direction) "d2h") ≡ true
  pub normal : AreNormal ranges total

-- The tests after the ranges have been normalized, in one piece.
checked :
    (active : Bool) (total chunk : ℤ) (ranges : Option (List RangeItem)) (direction : String)
    (inputs : Inputs)
    → normalize_ranges ranges ≡ ok ranges
    → (validated_plan_transfer_inputs active total chunk ranges direction ≡ ok inputs) ↔ (
        (inputs ≡ inputs_of total chunk ranges direction)
        × (active ≡ true)
        × (mismatched ranges total ≡ false)
        × (pos 0 ≤ℤ total)
        × (pos 1 ≤ℤ chunk)
        × ((str_eq (lower direction) "h2d" || str_eq (lower direction) "d2h") ≡ true))
unfolding validated_plan_transfer_inputs
checked active total chunk ranges direction inputs n = (
  λ e. (ground arith, ground arith, ground arith, ground arith, ground arith, ground arith),
  λ h. ground arith,
)

-- The ranges of an accepted request were normal already.
accepted-normalize_ranges :
    (active : Bool) (total chunk : ℤ) (ranges : Option (List RangeItem)) (direction : String)
    (inputs : Inputs)
    → validated_plan_transfer_inputs active total chunk ranges direction ≡ ok inputs
    → normalize_ranges ranges ≡ ok ranges
unfolding validated_plan_transfer_inputs
accepted-normalize_ranges active total chunk ranges direction inputs e =
    let (r, n, _) = bind-ok (normalize_ranges ranges) _ inputs e in
    n ∙ ap (λ x. ok x) (normalize_ranges-same ranges r n)

-- Just these requests are accepted: the session is active, the byte count is not negative, the chunk
-- size is positive, the direction is one of the two in lower case, and there are no ranges or ranges
-- that are mappings with no negative offset, each with bytes, which add up to the byte count. The
-- inputs are then those of the request, with the direction in lower case.
pub validated_plan_transfer_inputs-IsValid :
    (active : Bool) (total chunk : ℤ) (ranges : Option (List RangeItem)) (direction : String)
    (inputs : Inputs)
    → (validated_plan_transfer_inputs active total chunk ranges direction ≡ ok inputs) ↔ (
        (inputs ≡ inputs_of total chunk ranges direction)
        × IsValid active total chunk ranges direction)
validated_plan_transfer_inputs-IsValid active total chunk ranges direction inputs = (
  λ e.
      let n = accepted-normalize_ranges active total chunk ranges direction inputs e in
      let (same, on, match_, t, c, w) =
        (checked active total chunk ranges direction inputs n).0 e in
      (
        same,
        record {
          is_active = on;
          total_known = t;
          chunk_known = c;
          way = w;
          normal = normalize_ranges-normal ranges total n match_;
        },
      ),
  λ (same, v).
      let (n, match_) = normal-normalize_ranges ranges total v.normal in
      (checked active total chunk ranges direction inputs n).1
        (same, v.is_active, match_, v.total_known, v.chunk_known, v.way),
)

normal_bytes :
    (item : RangeItem) (r : _)
    → IsNormal item
    → range_fields item ≡ ok r
    → pos_part r.size ≡ item_bytes item
unfolding range_fields
normal_bytes (mapping src dst size) r n e = ground arith
normal_bytes (sequence xs) r n e = elim n [ ]
normal_bytes (attributes src dst size) r n e = elim n [ ]

-- The chunks of normal ranges carry the bytes of the ranges.
Covers-sum :
    (size : ℕ) (items : List RangeItem) (cs : List PlannerChunk) (total : ℕ)
    → All IsNormal items
    → Covers size items cs total
    → (sum_by (λ c. c.bytes) cs ≡ total) × (total ≡ sum_by item_bytes items)
Covers-sum size [] cs total n (none_left, zero_) = (rw (none_left, zero_) refl, zero_)
Covers-sum size (item ∷ items) cs total n (r, stretch, rest, after, fields, split, sum, t, c) =
    let ih = Covers-sum size items rest after n.1 c in
    let here = Tiles-sum _ _ _ _ stretch t in
    let bytes = normal_bytes item r n.0 fields in
    (rw split (omega (arith, sum_by-append (λ c. c.bytes) stretch rest)), omega arith)

module _ {F : Type 0} ⦃f : FloatOps F⦄ where
  -- What is shown of a plan for a number of bytes.
  abbrev pub CarriesAll : ℤ → PlannerTransferPlan F → Type 0
  CarriesAll total_bytes p =
      (sum_by (λ c. c.bytes) (assigned p.assignments) ≡ pos_part total_bytes)
      × (p.total_bytes ≡ pos_part total_bytes)

  plan_inputs-CarriesAll :
      (options : PlannerEngineOptions F) (inputs : Inputs) (profile : Profile F)
      (mode : TransferMode) (p : PlannerTransferPlan F)
      → AreNormal inputs.ranges inputs.total_bytes
      → plan_inputs options inputs profile mode ≡ ok p
      → CarriesAll inputs.total_bytes p
  unfolding plan_inputs
  plan_inputs-CarriesAll options inputs profile mode p v e = elim (Option-cases inputs.ranges) [
    | inl whole ↦
        let (cs, tiles, perm, total) =
          plan-partition options inputs.total_bytes inputs.chunk_bytes profile mode inputs.direction
            p (rw whole at e) in
        (
          sum_by-perm (λ c. c.bytes) (assigned p.assignments) cs perm ∙ Tiles-sum _ _ _ _ cs tiles,
          total,
        )
    | inr (ranges, given) ↦
        let normal = rw given at v in
        let (cs, cover, perm) =
          plan_ranges-partition options ranges inputs.chunk_bytes profile mode inputs.direction p
            (rw given at e) in
        let (sum, total) = Covers-sum _ ranges cs p.total_bytes normal.0 cover in
        let same : pos_part inputs.total_bytes ≡ sum_by item_bytes ranges =
          ap pos_part (sym normal.1) in
        (
          sum_by-perm (λ c. c.bytes) (assigned p.assignments) cs perm ∙ sum ∙ total ∙ sym same,
          total ∙ sym same,
        )
  ]

  inputs-CarriesAll :
      (inputs : Inputs) (options : PlannerEngineOptions F) (profile : Profile F)
      (mode : TransferMode) (p : PlannerTransferPlan F)
      → AreNormal inputs.ranges inputs.total_bytes
      → plan_or_direct options inputs profile mode ≡ ok p
      → CarriesAll inputs.total_bytes p
  unfolding plan_or_direct
  inputs-CarriesAll inputs options profile mode p v e =
      elim (Result-cases (plan_inputs options inputs profile mode)) [
        | inl (q, planned) ↦
            let same : ok q ≡ ok p = rw (planned, plan_or_direct) at e in
            plan_inputs-CarriesAll options inputs profile mode p v (planned ∙ same)
        | inr (x, raised) ↦ fallen_back x raised
      ]
    where
      fallen_back :
          (x : Error)
          → plan_inputs options inputs profile mode ≡ err x
          → CarriesAll inputs.total_bytes p
      fallen_back (runtime_error text) raised =
          plan_inputs-CarriesAll options inputs (direct_profile profile) direct p v
            (rw (raised, plan_or_direct) at e)
      fallen_back (value_error text) raised = absurd (ground arith)
      fallen_back (key_error text) raised = absurd (ground arith)
      fallen_back (type_error text) raised = absurd (ground arith)
      fallen_back (pool_error text) raised = absurd (ground arith)

  -- Whichever plan the scheduler takes for an accepted request, the one asked for or the direct one,
  -- its chunks carry exactly the bytes that the request asks for, with ranges and without.
  pub plan_or_direct-CarriesAll :
      (active : Bool) (total chunk : ℤ) (ranges : Option (List RangeItem)) (direction : String)
      (inputs : Inputs) (options : PlannerEngineOptions F) (profile : Profile F)
      (mode : TransferMode) (p : PlannerTransferPlan F)
      → validated_plan_transfer_inputs active total chunk ranges direction ≡ ok inputs
      → plan_or_direct options inputs profile mode ≡ ok p
      → CarriesAll total p
  plan_or_direct-CarriesAll active total chunk ranges direction inputs options profile mode p a e =
      let (same, v) =
        (validated_plan_transfer_inputs-IsValid active total chunk ranges direction inputs).0 a in
      inputs-CarriesAll (inputs_of total chunk ranges direction) options profile mode p v.normal
        (rw same at e)
