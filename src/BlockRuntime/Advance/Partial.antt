-- ===== src/BlockRuntime/Advance/Partial.antt =====
-- `_terminal_partial_records` of turbobus/daemon/block_runtime.py: which blocks of a failed or
-- cancelled transfer count as completed.
use pcie_pool.Common.{
  ℕ, ◌+◌, ◌-◌, ◌<◌, ◌≡◌, refl, ◌⊎◌, inl, inr, List, [], ◌∷◌, Option, none, some, false, String,
  arith, Bool-cases, if◌then◌else◌, str_eq, leb, leb→le, sum_by,
}
use pcie_pool.Common.Int.{ℤ, pos_part}
use pcie_pool.Common.Float.{FloatOps, or_else}
use pcie_pool.BlockRuntime.{BlockRuntimeRecord}
use pcie_pool.BlockRuntime.Advance.{
  started_or, error_or, completed_record, stopped_record, partial_from, terminal_partial_records,
}

module _ {F : Type 0} where
  abbrev pub completed_bytes : BlockRuntimeRecord F → ℕ
  completed_bytes r = if str_eq r.state "completed" then r.bytes else 0

  -- What becomes of a block: it is completed, without an error, or it has the final state, and then
  -- it does not fit in the rest. All else of it stays.
  abbrev pub IsSettled :
      ⦃f : FloatOps F⦄
      → String
      → Option String
      → F
      → ℕ
      → BlockRuntimeRecord F
      → BlockRuntimeRecord F
      → Type 0
  IsSettled state error now rest r out =
      (out ≡ record r {
        state = "completed";
        started_at = started_or r.started_at now;
        completed_at = some now;
        error = none;
      })
      ⊎ ((out ≡ record r {
        state = state;
        started_at = started_or r.started_at now;
        completed_at = some now;
        error = error_or error state;
      })
          × (rest < r.bytes))

  -- Block by block, in their order.
  abbrev pub AreSettled :
      ⦃f : FloatOps F⦄
      → String
      → Option String
      → F
      → ℕ
      → List (BlockRuntimeRecord F)
      → List (BlockRuntimeRecord F)
      → Type 0
  AreSettled state error now rest [] [] = Unit
  AreSettled state error now rest [] (o ∷ out) = ⊥
  AreSettled state error now rest (r ∷ rs) [] = ⊥
  AreSettled state error now rest (r ∷ rs) (o ∷ out) =
      IsSettled state error now rest r o × AreSettled state error now rest rs out

  -- A greedy choice: what is not used is too small for every block that is left out, and a budget
  -- for all blocks completes them all.
  abbrev pub IsGreedy :
      ⦃f : FloatOps F⦄
      → String
      → Option String
      → F
      → ℕ
      → List (BlockRuntimeRecord F)
      → List (BlockRuntimeRecord F)
      → Type 0
  IsGreedy state error now budget rs out =
      (rest : ℕ) × (sum_by completed_bytes out + rest ≡ budget)
      × AreSettled state error now rest rs out
      × ((budget < sum_by (λ r. r.bytes) rs)
          ⊎ (sum_by completed_bytes out ≡ sum_by (λ r. r.bytes) rs))

module _ {F : Type 0} ⦃f : FloatOps F⦄ where
  partial_from-IsGreedy :
      (rs : List (BlockRuntimeRecord F)) (state : String) (budget : ℕ) (error : Option String)
      (now : F)
      → str_eq state "completed" ≡ false
      → IsGreedy state error now budget rs (partial_from rs state budget error now)
  unfolding partial_from completed_record stopped_record str_eq or_else
  partial_from-IsGreedy [] state budget error now h = (budget, omega arith, tt, inr refl)
  partial_from-IsGreedy (r ∷ rs) state budget error now h = elim (Bool-cases (leb r.bytes budget)) [
    | inl fits ↦
        let le = leb→le r.bytes budget fits in
        let (rest, sum, settled, full) =
          partial_from-IsGreedy rs state (budget - r.bytes) error now h in
        rw fits (rest, omega arith, (inl refl, settled), ground (arith, full))
    | inr large ↦
        let (rest, sum, settled, full) = partial_from-IsGreedy rs state budget error now h in
        rw large (rest, ground arith, (inr (refl, ground arith), settled), inl (ground arith))
  ]

  -- When a transfer ends in a state other than "completed", every block is settled in its place: it is
  -- completed or takes that state, and all else of it stays but for its times and its error. The
  -- blocks that are completed have at most the bytes that were moved; no block that is left out would
  -- fit in the remainder; and if all bytes were moved, the completed blocks have all bytes.
  pub terminal_partial_records-IsGreedy :
      (rs : List (BlockRuntimeRecord F)) (state : String) (bytes_completed : ℤ)
      (error : Option String) (now : F)
      → str_eq state "completed" ≡ false
      → IsGreedy state error now
          (pos_part bytes_completed)
          rs
          (terminal_partial_records rs state bytes_completed error now)
  unfolding terminal_partial_records
  terminal_partial_records-IsGreedy rs state n error now h =
      partial_from-IsGreedy rs state (pos_part n) error now h
