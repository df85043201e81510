-- ===== src/Planner/Engine/Modes.antt =====
-- Which paths a plan of turbobus/planner_engine.py uses, and when it is refused.
use pcie_pool.Common.{
  ◌↔◌, ◌&&◌, ◌||◌, ℕ, ◌<◌, ◌≡◌, ◌≢◌, refl, inl, inr, List, [], ◌∷◌, map, Option, none, true, false,
  Bool-cases, Result-cases, arith, All, All-both, length, String, Result, ok, err, value_error,
  runtime_error, ◌>>◌, raise_if, if◌then◌else◌,
}
use pcie_pool.Common.Int.{ℤ, pos, pos_part, leb_ℤ, ltb_ℤ, ◌≤ℤ◌}
use pcie_pool.Common.Float.{FloatOps}
use pcie_pool.Planner.{
  TransferMode, auto, pool, direct, relay, PlannerChunk, PlannerPath, PlannerTransferPlan, Profile,
  PlannerEngineOptions, empty_plan,
}
use pcie_pool.Planner.Chunks.{make_chunks}
use pcie_pool.Planner.Assign.{scheduler_weight, sum_from}
use pcie_pool.Planner.Assign.Coverage.{gather-nonempty, gather-paths}
use pcie_pool.Planner.Paths.{build_paths}
use pcie_pool.Planner.Paths.Eligible.{IsEligible, build_paths-IsEligible}
use pcie_pool.Planner.Engine.Partition.{plan_chunks-assignments}
use pcie_pool.Planner.Engine.{
  is_pool, plan_chunks, plan_over, plan, plan_call, is_empty, settled_mode, ModeArgument, text,
  unknown_mode,
}
use pcie_pool.Planner.Engine.Names.{Names, IsUnknown, transfer_mode-cases}

module _ {F : Type 0} where
  -- The mode is kept, or `POOL` becomes `DIRECT`: just where there are fewer chunks than the least
  -- number, or fewer bytes than a positive least number. There is a reason just where it changes.
  pub settled_mode_lem :
      (options : PlannerEngineOptions F) (chunk_count total_bytes : ℕ) (mode : TransferMode)
      → let small =
          ltb_ℤ (pos chunk_count) options.min_chunks_for_relay
          || ltb_ℤ (pos 0) options.min_pool_bytes
            && ltb_ℤ (pos total_bytes) options.min_pool_bytes in
        let out = settled_mode options chunk_count total_bytes mode in
        (out.0 ≡ (if is_pool mode && small then direct else mode))
        × ((out.1 ≡ none) ↔ (is_pool mode && small ≡ false))
  unfolding settled_mode is_pool
  settled_mode_lem options n total pool = ground arith
  settled_mode_lem options n total auto = ground arith
  settled_mode_lem options n total direct = ground arith
  settled_mode_lem options n total relay = ground arith

is_empty-nil {ℓ} : {A : Type ℓ} (xs : List A) → is_empty xs ≡ true → xs ≡ []
is_empty-nil [] h = refl
is_empty-nil (x ∷ xs) h = absurd (ground arith)

not_empty {ℓ} : {A : Type ℓ} (xs : List A) → is_empty xs ≡ false → xs ≢ []
not_empty [] h = absurd (ground arith)
not_empty (x ∷ xs) h = ground arith

module _ {F : Type 0} ⦃f : FloatOps F⦄ where
  -- What is shown of each assignment of a plan.
  abbrev pub IsRouted :
      PlannerEngineOptions F → Profile F → TransferMode → String → PlannerTransferPlan F → Type 0
  IsRouted options profile mode direction p =
      All (λ a. IsEligible options profile mode direction a.path × (0 < length a.chunks))
        p.assignments

  plan_over-IsRouted :
      (options : PlannerEngineOptions F) (chunks : List PlannerChunk) (total size : ℕ)
      (profile : Profile F) (mode : TransferMode) (direction : String) (p : PlannerTransferPlan F)
      → plan_over options chunks total size profile mode direction ≡ ok p
      → IsRouted options profile (settled_mode options (length chunks) total mode).0 direction p
  unfolding plan_over
  plan_over-IsRouted options chunks total size profile mode direction p e =
      go (build_paths options profile settled.0 direction)
        (build_paths-IsEligible options profile settled.0 direction) e
    where
      settled : TransferMode × Option String
      settled = settled_mode options (length chunks) total mode

      go :
          (paths : List (PlannerPath F))
          → All (IsEligible options profile settled.0 direction) paths
          → (raise_if (is_empty paths) (runtime_error "no enabled transfer path is available")
              >> plan_chunks chunks total size paths settled.1)
            ≡ ok p
          → IsRouted options profile settled.0 direction p
      go [] h e = absurd (ground arith)
      go (q ∷ paths) h e =
          let (a, _, _) = plan_chunks-assignments chunks total size (q ∷ paths) settled.1 p e in
          rw a (All-both _ _ _ (gather-paths _ (q ∷ paths) _ h) (gather-nonempty (q ∷ paths) _))

  -- Every assignment of a plan carries a chunk and uses a path that is eligible in the mode that the
  -- tests on the number of chunks and bytes have settled on.
  pub plan-IsRouted :
      (options : PlannerEngineOptions F) (total_bytes chunk_bytes : ℤ) (profile : Profile F)
      (mode : TransferMode) (direction : String) (p : PlannerTransferPlan F)
      → plan options total_bytes chunk_bytes profile mode direction ≡ ok p
      → let n = pos_part total_bytes in
        let count = length (make_chunks n (pos_part chunk_bytes)) in
        IsRouted options profile (settled_mode options count n mode).0 direction p
  unfolding plan empty_plan
  plan-IsRouted options t c profile mode direction p e = elim (Bool-cases (leb_ℤ t (pos 0))) [
    | inl nothing ↦ let a : p.assignments ≡ [] = ground arith in rw a tt
    | inr something ↦ elim (Bool-cases (leb_ℤ c (pos 0))) [
      | inl bad ↦ absurd (ground arith)
      | inr good ↦
          plan_over-IsRouted options (make_chunks (pos_part t) (pos_part c)) (pos_part t)
            (pos_part c) profile mode direction p (rw (something, good) at e)
    ]
  ]

  -- The mode that the tests on the size of a transfer settle on.
  abbrev pub mode_for : PlannerEngineOptions F → ℤ → ℤ → TransferMode → TransferMode
  mode_for options total_bytes chunk_bytes mode =
      let n = pos_part total_bytes in
      (settled_mode options (length (make_chunks n (pos_part chunk_bytes))) n mode).0

  -- How a call of `plan` may end, and when it ends so. `paths` are the paths of a mode.
  pub data Outcome (total_bytes chunk_bytes : ℤ) (mode : ModeArgument)
      (paths : TransferMode → List (PlannerPath F)) (result : Result (PlannerTransferPlan F))
      : Type 0 where
    nothing_to_send :
        total_bytes ≤ℤ pos 0
        → result ≡ ok empty_plan
        → Outcome total_bytes chunk_bytes mode paths result
    bad_chunk_size :
        pos 1 ≤ℤ total_bytes
        → chunk_bytes ≤ℤ pos 0
        → result ≡ err (value_error "chunk_bytes must be greater than zero")
        → Outcome total_bytes chunk_bytes mode paths result
    bad_mode :
        pos 1 ≤ℤ total_bytes
        → pos 1 ≤ℤ chunk_bytes
        → (name : String) → mode ≡ text name
        → IsUnknown name
        → result ≡ err (unknown_mode name)
        → Outcome total_bytes chunk_bytes mode paths result
    no_path :
        pos 1 ≤ℤ total_bytes
        → pos 1 ≤ℤ chunk_bytes
        → (found : TransferMode) → Names mode found
        → paths found ≡ []
        → result ≡ err (runtime_error "no enabled transfer path is available")
        → Outcome total_bytes chunk_bytes mode paths result
    no_weight :
        pos 1 ≤ℤ total_bytes
        → pos 1 ≤ℤ chunk_bytes
        → (found : TransferMode) → Names mode found
        → paths found ≢ []
        → f.le (sum_from f.zero_f (map scheduler_weight (paths found))) f.zero_f ≡ true
        → result ≡ err (runtime_error "enabled paths have zero effective bandwidth")
        → Outcome total_bytes chunk_bytes mode paths result
    planned :
        pos 1 ≤ℤ total_bytes
        → pos 1 ≤ℤ chunk_bytes
        → (found : TransferMode) → Names mode found
        → paths found ≢ []
        → f.le (sum_from f.zero_f (map scheduler_weight (paths found))) f.zero_f ≡ false
        → (p : PlannerTransferPlan F) → result ≡ ok p
        → Outcome total_bytes chunk_bytes mode paths result

  plan_chunks-Outcome :
      (t c : ℤ) (mode : ModeArgument) (found : TransferMode)
      (paths : TransferMode → List (PlannerPath F)) (chunks : List PlannerChunk)
      (reason : Option String)
      → pos 1 ≤ℤ t
      → pos 1 ≤ℤ c
      → Names mode found
      → Outcome t c mode paths (
          raise_if (is_empty (paths found)) (runtime_error "no enabled transfer path is available")
          >> plan_chunks chunks (pos_part t) (pos_part c) (paths found) reason)
  unfolding plan_chunks
  plan_chunks-Outcome t c mode found paths chunks reason ht hc named =
      elim (Bool-cases (is_empty (paths found))) [
        | inl none_left ↦
            no_path ht hc found named (is_empty-nil (paths found) none_left) (rw none_left refl)
        | inr some_left ↦
            elim (Bool-cases
              (f.le (sum_from f.zero_f (map scheduler_weight (paths found))) f.zero_f)) [
                | inl zero_weight ↦
                    no_weight ht hc found named (not_empty (paths found) some_left) zero_weight
                      (rw (some_left, zero_weight) refl)
                | inr some_weight ↦
                    elim (Result-cases
                      (plan_chunks chunks (pos_part t) (pos_part c) (paths found) reason)) [
                        | inl (p, e) ↦
                            planned ht hc found named (not_empty (paths found) some_left)
                              some_weight p (rw some_left e)
                        | inr (x, e) ↦ absurd (ground arith)
                      ]
              ]
      ]

  -- How a call of `plan` with integer sizes and a mode that is a member or a text ends: with nothing to
  -- send the plan is empty whatever the rest is; then a chunk size that is not positive, a text that
  -- is the value of no member, no path, and paths with no weight are refused, in that order; all else
  -- is planned.
  pub plan_call-Outcome :
      (options : PlannerEngineOptions F) (total_bytes chunk_bytes : ℤ) (profile : Profile F)
      (mode : ModeArgument) (direction : String)
      → Outcome total_bytes chunk_bytes mode
          (λ m. build_paths options profile (mode_for options total_bytes chunk_bytes m) direction)
          (plan_call options total_bytes chunk_bytes profile mode direction)
  unfolding plan_call plan_over
  plan_call-Outcome options t c profile mode direction = elim (Bool-cases (leb_ℤ t (pos 0))) [
    | inl nothing ↦ nothing_to_send (ground arith) (rw nothing)
    | inr something ↦ elim (Bool-cases (leb_ℤ c (pos 0))) [
      | inl bad ↦ bad_chunk_size (ground arith) (ground arith) (rw (something, bad))
      | inr good ↦ elim (transfer_mode-cases mode) [
        | inr (name, given, unknown, e) ↦
            bad_mode (ground arith) (ground arith) name given unknown (rw (something, good, e))
        | inl (found, named, e) ↦
            let n = pos_part t in
            let cs = make_chunks n (pos_part c) in
            rw (something, good, e)
              (plan_chunks-Outcome t c mode found
                (λ m. build_paths options profile (mode_for options t c m) direction) cs
                (settled_mode options (length cs) n found).1 (ground arith) (ground arith) named)
      ]
    ]
  ]
