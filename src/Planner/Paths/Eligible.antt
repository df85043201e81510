-- ===== src/Planner/Paths/Eligible.antt =====
-- `_build_paths` of turbobus/planner_engine.py offers only the paths that the mode and the
-- thresholds allow.
use pcie_pool.Common.{
  ℕ, suc, ◌≡◌, refl, inl, inr, List, [], ◌∷◌, ◌++◌, some, Bool, true, false, not, ◌&&◌, Bool-cases,
  arith, All, All-append, get_elem?, String, if◌then◌else◌,
}
use pcie_pool.Common.Float.{FloatOps}
use pcie_pool.Planner.{
  TransferMode, direct, PlannerPath, RelayProfile, Profile, PlannerEngineOptions,
}
use pcie_pool.Planner.Paths.{
  is_relay, is_direct, direct_bandwidth, relay_effective_bandwidth, direct_path, relay_path,
  skip_relay, add_relays, build_paths,
}

module _ {F : Type 0} ⦃f : FloatOps F⦄ where
  -- A relay that passes the thresholds: peer access, a positive bandwidth that is not below the
  -- least one, nor below the least share of the direct bandwidth.
  pub record IsUsable (options : PlannerEngineOptions F) (direct_bw bw : F) (enabled : Bool)
      : Type 0 where
    pub peer_access : enabled ≡ true
    pub carries : f.le bw f.zero_f ≡ false
    pub wide : f.lt bw options.relay_min_effective_bw_gbps ≡ false
    pub worth :
        (f.lt f.zero_f direct_bw
          && f.lt f.zero_f options.relay_min_direct_ratio
          && f.lt bw (f.mul direct_bw options.relay_min_direct_ratio))
        ≡ false

  -- Why a path may be used in a mode.
  pub data IsEligible (options : PlannerEngineOptions F) (profile : Profile F) (mode : TransferMode)
      (direction : String) (path : PlannerPath F) : Type 0 where
    by_direct :
        is_relay mode ≡ false
        → f.lt f.zero_f (direct_bandwidth profile direction) ≡ true
        → path ≡ direct_path profile direction
        → IsEligible options profile mode direction path
    by_relay :
        (i : ℕ) (r : RelayProfile F)
        → is_direct mode ≡ false
        → get_elem? profile.relays i ≡ some r
        → IsUsable options
            (direct_bandwidth profile direction)
            (relay_effective_bandwidth r direction)
            r.p2p_enabled
        → path ≡ relay_path r direction
        → IsEligible options profile mode direction path

  skip_relay-IsUsable :
      (options : PlannerEngineOptions F) (direct_bw : F) (r : RelayProfile F) (direction : String)
      → skip_relay options direct_bw r direction ≡ false
      → IsUsable options direct_bw (relay_effective_bandwidth r direction) r.p2p_enabled
  unfolding skip_relay
  skip_relay-IsUsable options direct_bw r direction h = ground arith

  add_relays-All {κ} :
      (P : PlannerPath F → Type κ) (options : PlannerEngineOptions F) (direct_bw : F)
      (direction : String) (rs : List (RelayProfile F)) (paths : List (PlannerPath F))
      → ((i : ℕ) (r : RelayProfile F)
          → get_elem? rs i ≡ some r
          → skip_relay options direct_bw r direction ≡ false
          → P (relay_path r direction))
      → All P paths
      → All P (add_relays options direct_bw direction rs paths)
  unfolding add_relays
  add_relays-All P options direct_bw direction [] paths each h = h
  add_relays-All P options direct_bw direction (r ∷ rs) paths each h =
      elim (Bool-cases (skip_relay options direct_bw r direction)) [
        | inl skip ↦ rw skip (
            add_relays-All P options direct_bw direction rs paths
              (λ i s at_i ok_s. each (suc i) s at_i ok_s) h)
        | inr take ↦ rw take (
            add_relays-All P options direct_bw direction rs (paths ++ relay_path r direction ∷ [])
              (λ i s at_i ok_s. each (suc i) s at_i ok_s)
              (All-append P paths _ h (each 0 r refl take, tt)))
      ]

  direct_part :
      (options : PlannerEngineOptions F) (profile : Profile F) (mode : TransferMode)
      (direction : String)
      → All (IsEligible options profile mode direction) (
          if not (is_relay mode) && f.lt f.zero_f (direct_bandwidth profile direction)
          then direct_path profile direction ∷ []
          else [])
  direct_part options profile mode direction =
      elim (Bool-cases
        (not (is_relay mode) && f.lt f.zero_f (direct_bandwidth profile direction))) [
          | inl use_it ↦ rw use_it (by_direct (ground arith) (ground arith) refl, tt)
          | inr none_here ↦ rw none_here tt
        ]

  -- Every path on offer is the direct one with a positive bandwidth, where the mode is not `RELAY`,
  -- or that of a relay in the profile that passes the thresholds, where it is not `DIRECT`.
  pub build_paths-IsEligible :
      (options : PlannerEngineOptions F) (profile : Profile F) (mode : TransferMode)
      (direction : String)
      → All (IsEligible options profile mode direction) (build_paths options profile mode direction)
  unfolding build_paths
  build_paths-IsEligible options profile mode direction = elim (Bool-cases (is_direct mode)) [
    | inl only_direct ↦ rw only_direct (direct_part options profile mode direction)
    | inr others ↦ rw others (
        add_relays-All (IsEligible options profile mode direction) options
          (direct_bandwidth profile direction) direction profile.relays _
          (λ i r at_i taken.
            by_relay i r others at_i (skip_relay-IsUsable options _ r direction taken) refl)
          (direct_part options profile mode direction))
  ]

  -- In the mode `DIRECT` only the direct path is eligible.
  pub IsEligible-direct :
      (options : PlannerEngineOptions F) (profile : Profile F) (direction : String)
      (path : PlannerPath F)
      → IsEligible options profile direct direction path
      → path ≡ direct_path profile direction
  unfolding is_direct
  IsEligible-direct options profile direction path (by_direct _ _ e) = e
  IsEligible-direct options profile direction path (by_relay i r no_direct _ _ _) = cc
