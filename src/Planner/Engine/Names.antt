-- ===== src/Planner/Engine/Names.antt =====
-- The modes that a call of turbobus/planner_engine.py names: `TransferMode(mode)`.
use pcie_pool.Common.{
  ◌≡◌, ◌≢◌, refl, ◌⊎◌, inl, inr, String, str_eq, str_eq_iff, false, Bool-cases, List, ok, err,
  arith,
}
use pcie_pool.Common.Int.{ℤ}
use pcie_pool.Common.Float.{FloatOps}
use pcie_pool.Planner.{TransferMode, auto, pool, direct, relay, Profile, PlannerEngineOptions}
use pcie_pool.Planner.Chunks.{RangeItem}
use pcie_pool.Planner.Engine.{
  ModeArgument, member, text, mode_value, unknown_mode, transfer_mode, plan, plan_ranges, plan_call,
  plan_ranges_call,
}

-- The mode is the member, or the text is its value.
abbrev pub Names : ModeArgument → TransferMode → Type 0
Names (member m) mode = m ≡ mode
Names (text name) mode = name ≡ mode_value mode

abbrev pub IsUnknown : String → Type 0
IsUnknown name = (mode : TransferMode) → name ≢ mode_value mode

differs : (s t : String) → str_eq s t ≡ false → s ≢ t
differs s t h e = absurd (ground (arith, (str_eq_iff s t).1 e))

not_any :
    (name : String)
    → str_eq name (mode_value auto) ≡ false
    → str_eq name (mode_value pool) ≡ false
    → str_eq name (mode_value direct) ≡ false
    → str_eq name (mode_value relay) ≡ false
    → IsUnknown name
not_any name a p d r auto = differs name _ a
not_any name a p d r pool = differs name _ p
not_any name a p d r direct = differs name _ d
not_any name a p d r relay = differs name _ r

-- A mode that is named is found; a text that is no value is refused.
pub transfer_mode-cases :
    (mode : ModeArgument)
    → ((found : TransferMode) × Names mode found × (transfer_mode mode ≡ ok found))
      ⊎ ((name : String) × (mode ≡ text name)
          × IsUnknown name
          × (transfer_mode mode ≡ err (unknown_mode name)))
unfolding transfer_mode
transfer_mode-cases (member m) = inl (m, refl, refl)
transfer_mode-cases (text name) = elim (Bool-cases (str_eq name (mode_value auto))) [
  | inl a ↦ inl (auto, (str_eq_iff name _).0 a, ground arith)
  | inr a ↦ elim (Bool-cases (str_eq name (mode_value pool))) [
    | inl p ↦ inl (pool, (str_eq_iff name _).0 p, ground arith)
    | inr p ↦ elim (Bool-cases (str_eq name (mode_value direct))) [
      | inl d ↦ inl (direct, (str_eq_iff name _).0 d, ground arith)
      | inr d ↦ elim (Bool-cases (str_eq name (mode_value relay))) [
        | inl r ↦ inl (relay, (str_eq_iff name _).0 r, ground arith)
        | inr r ↦ inr (name, refl, not_any name a p d r, ground arith)
      ]
    ]
  ]
]

module _ {F : Type 0} ⦃f : FloatOps F⦄ where
  -- A call with a member is planned for it.
  plan_call-member :
      (options : PlannerEngineOptions F) (total_bytes chunk_bytes : ℤ) (profile : Profile F)
      (mode : TransferMode) (direction : String)
      → plan_call options total_bytes chunk_bytes profile (member mode) direction
        ≡ plan options total_bytes chunk_bytes profile mode direction
  unfolding plan_call plan transfer_mode
  plan_call-member options total_bytes chunk_bytes profile mode direction = refl

  plan_ranges_call-member :
      (options : PlannerEngineOptions F) (ranges : List RangeItem) (chunk_bytes : ℤ)
      (profile : Profile F) (mode : TransferMode) (direction : String)
      → plan_ranges_call options ranges chunk_bytes profile (member mode) direction
        ≡ plan_ranges options ranges chunk_bytes profile mode direction
  unfolding plan_ranges_call plan_ranges transfer_mode
  plan_ranges_call-member options ranges chunk_bytes profile mode direction = refl
