-- ===== src/Scheduler/Requests/Normal.antt =====
-- Which ranges of a request `_normalize_ranges` of turbobus/scheduler/daemon.py accepts.
use pcie_pool.Common.{
  bind-ok, ◌≡◌, refl, inl, inr, List, [], ◌∷◌, Option, none, some, false, arith, Result-cases,
  sum_by, All, ok,
}
use pcie_pool.Common.Int.{ℤ, pos, ◌≤ℤ◌, eqb_ℤ_iff}
use pcie_pool.Planner.Chunks.{RangeItem, mapping, sequence, attributes}
use pcie_pool.Scheduler.Requests.{
  normalized_item, normalized_items, normalize_ranges, item_bytes, mismatched,
}

-- A mapping with offsets that are not negative and a positive size.
abbrev pub IsNormal : RangeItem → Type 0
IsNormal (mapping src dst size) = (pos 0 ≤ℤ src) × (pos 0 ≤ℤ dst) × (pos 1 ≤ℤ size)
IsNormal (sequence xs) = ⊥
IsNormal (attributes src dst size) = ⊥

abbrev pub AreNormal : Option (List RangeItem) → ℤ → Type 0
AreNormal none total_bytes = Unit
AreNormal (some items) total_bytes =
    All IsNormal items × (pos (sum_by item_bytes items) ≡ total_bytes)

normalized_item-IsNormal : (item out : RangeItem) → normalized_item item ≡ ok out → IsNormal out
unfolding normalized_item
normalized_item-IsNormal (mapping src dst size) out e =
    let same : out ≡ mapping src dst size = ground arith in rw same (ground arith)
normalized_item-IsNormal (sequence xs) out e = absurd (ground arith)
normalized_item-IsNormal (attributes src dst size) out e = absurd (ground arith)

normalized_items-IsNormal :
    (items out : List RangeItem) → normalized_items items ≡ ok out → All IsNormal out
unfolding normalized_items
normalized_items-IsNormal [] out e = let none_left : out ≡ [] = ground arith in rw none_left tt
normalized_items-IsNormal (item ∷ items) out e = elim (Result-cases (normalized_item item)) [
  | inr (x, bad) ↦ absurd (ground arith)
  | inl (first, good) ↦ elim (Result-cases (normalized_items items)) [
    | inr (x, bad) ↦ absurd (ground arith)
    | inl (rest, all_good) ↦
        let made : out ≡ first ∷ rest = ground arith in
        rw made
          (normalized_item-IsNormal item first good, normalized_items-IsNormal items rest all_good)
  ]
]

normalized_item-same : (item out : RangeItem) → normalized_item item ≡ ok out → out ≡ item
unfolding normalized_item
normalized_item-same (mapping src dst size) out e = ground arith
normalized_item-same (sequence xs) out e = absurd (ground arith)
normalized_item-same (attributes src dst size) out e = absurd (ground arith)

normalized_items-same : (items out : List RangeItem) → normalized_items items ≡ ok out → out ≡ items
unfolding normalized_items
normalized_items-same [] out e = ground arith
normalized_items-same (item ∷ items) out e =
    let (first, e₁, e₂) = bind-ok (normalized_item item) _ out e in
    let (rest, e₃, e₄) = bind-ok (normalized_items items) _ out e₂ in
    let made : out ≡ first ∷ rest = ground arith in
    rw (made, normalized_item-same item first e₁, normalized_items-same items rest e₃) refl

normalized_items-ok :
    (items : List RangeItem) → All IsNormal items → normalized_items items ≡ ok items
unfolding normalized_items normalized_item
normalized_items-ok [] h = refl
normalized_items-ok (mapping src dst size ∷ items) (h, rest) =
    let one : normalized_item (mapping src dst size) ≡ ok (mapping src dst size) = ground arith in
    rw (one, normalized_items-ok items rest) refl
normalized_items-ok (sequence xs ∷ items) (h, rest) = elim h [ ]
normalized_items-ok (attributes src dst size ∷ items) (h, rest) = elim h [ ]

pub normalize_ranges-same :
    (ranges r : Option (List RangeItem)) → normalize_ranges ranges ≡ ok r → r ≡ ranges
unfolding normalize_ranges
normalize_ranges-same none r e = ground arith
normalize_ranges-same (some items) r e =
    let (out, e₁, e₂) = bind-ok (normalized_items items) _ r e in
    let made : r ≡ some out = ground arith in rw (made, normalized_items-same items out e₁) refl

pub normalize_ranges-normal :
    (ranges : Option (List RangeItem)) (total : ℤ)
    → normalize_ranges ranges ≡ ok ranges
    → mismatched ranges total ≡ false
    → AreNormal ranges total
unfolding normalize_ranges
normalize_ranges-normal none total n m = tt
normalize_ranges-normal (some items) total n m =
    let (out, e₁, e₂) = bind-ok (normalized_items items) _ (some items) n in
    let same : out ≡ items = ground arith in
    (
      rw same at (normalized_items-IsNormal items out e₁),
      (eqb_ℤ_iff (pos (sum_by item_bytes items)) total).0 (ground arith),
    )

pub normal-normalize_ranges :
    (ranges : Option (List RangeItem)) (total : ℤ)
    → AreNormal ranges total
    → (normalize_ranges ranges ≡ ok ranges) × (mismatched ranges total ≡ false)
unfolding normalize_ranges
normal-normalize_ranges none total h = (refl, refl)
normal-normalize_ranges (some items) total (h, sum) = (
  rw (normalized_items-ok items h) refl,
  rw ((eqb_ℤ_iff (pos (sum_by item_bytes items)) total).1 sum) refl,
)
