-- ===== src/NativePlan/Ranges.antt =====
-- `native_ranges` of turbobus/native_plan.py. Its `range_fields` has the text of `_range_fields` of
-- turbobus/planner_engine.py, which the planner's part of the library models.
use pcie_pool.Common.{
  ℕ, ◌+◌, ◌≤◌, ◌<◌, ◌≡◌, refl, ◌↔◌, List, [], ◌∷◌, Bool, ◌||◌, ltb, arith, length, Result, ok,
  value_error, ◌>>=◌, ◌>>◌, raise_if, bind-ok,
}
use pcie_pool.Common.Int.{pos, pos_part, leb_ℤ, ltb_ℤ}
use pcie_pool.Planner.Chunks.{RangeItem, Fields, range_fields}
use pcie_pool.Planner.Engine.{is_empty}

-- `native.TransferRange`
pub record TransferRange : Type 0 where
  pub src_offset : ℕ
  pub dst_offset : ℕ
  pub bytes : ℕ

-- The tests of one round, on fields that have been read.
unfoldable pub checked_range : ℕ → ℕ → Fields → Result TransferRange
checked_range source_bytes destination_bytes r = do
  raise_if (ltb_ℤ r.src (pos 0) || ltb_ℤ r.dst (pos 0) || leb_ℤ r.size (pos 0))
      (value_error "range offsets must be non-negative and bytes must be positive")
  raise_if (ltb source_bytes (pos_part r.src + pos_part r.size))
      (value_error "range source extends past source tensor")
  raise_if (ltb destination_bytes (pos_part r.dst + pos_part r.size))
      (value_error "range destination extends past destination tensor")
  ok (record { src_offset = pos_part r.src; dst_offset = pos_part r.dst; bytes = pos_part r.size })

unfoldable pub convert_ranges : ℕ → ℕ → List RangeItem → Result (List TransferRange)
unfolding checked_range
convert_ranges source_bytes destination_bytes [] = ok []
convert_ranges source_bytes destination_bytes (item ∷ items) = do
  fields ← range_fields item
  here ← checked_range source_bytes destination_bytes fields
  rest ← convert_ranges source_bytes destination_bytes items
  ok (here ∷ rest)

unfoldable pub native_ranges : List RangeItem → ℕ → ℕ → Result (List TransferRange)
unfolding convert_ranges
native_ranges items source_bytes destination_bytes = do
  converted ← convert_ranges source_bytes destination_bytes items
  raise_if (is_empty converted) (value_error "at least one non-empty range is required")
  ok converted

-- A native range that an item stands for, inside a source and a destination of these sizes.
pub record IsInside (source_bytes destination_bytes : ℕ) (item : RangeItem) (t : TransferRange)
    : Type 0 where
  pub stands_for :
      range_fields item
      ≡ ok (record { src = pos t.src_offset; dst = pos t.dst_offset; size = pos t.bytes })
  pub carries : 0 < t.bytes
  pub in_source : t.src_offset + t.bytes ≤ source_bytes
  pub in_destination : t.dst_offset + t.bytes ≤ destination_bytes

-- Item by item.
abbrev pub AreInside : ℕ → ℕ → List RangeItem → List TransferRange → Type 0
AreInside s d [] [] = Unit
AreInside s d [] (t ∷ ts) = ⊥
AreInside s d (i ∷ is) [] = ⊥
AreInside s d (i ∷ is) (t ∷ ts) = IsInside s d i t × AreInside s d is ts

checked_range-IsInside :
    (s d : ℕ) (item : RangeItem) (r : Fields) (t : TransferRange)
    → range_fields item ≡ ok r
    → checked_range s d r ≡ ok t
    → IsInside s d item t
unfolding checked_range
checked_range-IsInside s d item r t e h =
    let m : r ≡ record { src = pos t.src_offset; dst = pos t.dst_offset; size = pos t.bytes } =
      ground arith in
    record {
      stands_for = rw (e, m) refl;
      carries = ground arith;
      in_source = ground arith;
      in_destination = ground arith;
    }

checked_range-ok :
    (s d : ℕ) (t : TransferRange)
    → 0 < t.bytes
    → t.src_offset + t.bytes ≤ s
    → t.dst_offset + t.bytes ≤ d
    → checked_range s d
        (record { src = pos t.src_offset; dst = pos t.dst_offset; size = pos t.bytes })
      ≡ ok t
unfolding checked_range
checked_range-ok s d t h₁ h₂ h₃ = ground arith

convert_ranges-AreInside :
    (s d : ℕ) (items : List RangeItem) (out : List TransferRange)
    → convert_ranges s d items ≡ ok out
    → AreInside s d items out
unfolding convert_ranges
convert_ranges-AreInside s d [] out e = let same : out ≡ [] = ground arith in rw same tt
convert_ranges-AreInside s d (item ∷ items) out e =
    let (r, e₁, e₂) = bind-ok (range_fields item) _ out e in
    let (t, e₃, e₄) = bind-ok (checked_range s d r) _ out e₂ in
    let (ts, e₅, e₆) = bind-ok (convert_ranges s d items) _ out e₄ in
    let same : out ≡ t ∷ ts = ground arith in
    rw same (checked_range-IsInside s d item r t e₁ e₃, convert_ranges-AreInside s d items ts e₅)

convert_ranges-ok :
    (s d : ℕ) (items : List RangeItem) (out : List TransferRange)
    → AreInside s d items out
    → convert_ranges s d items ≡ ok out
unfolding convert_ranges
convert_ranges-ok s d [] [] h = refl
convert_ranges-ok s d [] (t ∷ ts) h = absurd h
convert_ranges-ok s d (i ∷ is) [] h = absurd h
convert_ranges-ok s d (i ∷ is) (t ∷ ts) (h, k) =
    let here = checked_range-ok s d t h.carries h.in_source h.in_destination in
    rw (h.stands_for, here, convert_ranges-ok s d is ts k) refl

filled :
    (s d : ℕ) (items : List RangeItem) (ts out : List TransferRange)
    → (raise_if (is_empty ts) (value_error "at least one non-empty range is required") >> ok ts)
      ≡ ok out
    → AreInside s d items ts
    → (0 < length out) × AreInside s d items out
filled s d items [] out e h = absurd (ground arith)
filled s d items (t ∷ ts) out e h =
    let same : out ≡ t ∷ ts = ground arith in rw same (omega arith, h)

not_empty : (ts : List TransferRange) → 0 < length ts → is_empty ts ≡ Bool.false
not_empty [] h = absurd (omega arith)
not_empty (t ∷ ts) h = refl

-- The ranges that a copy may use are accepted, and no others: there is one at least, and each stands
-- for its item, has a byte at least and ends inside the source and inside the destination.
pub native_ranges_iff :
    (items : List RangeItem) (source_bytes destination_bytes : ℕ) (out : List TransferRange)
    → (native_ranges items source_bytes destination_bytes ≡ ok out)
      ↔ ((0 < length out) × AreInside source_bytes destination_bytes items out)
unfolding native_ranges
native_ranges_iff items s d out = (
  λ e.
      let (ts, e₁, e₂) = bind-ok (convert_ranges s d items) _ out e in
      filled s d items ts out e₂ (convert_ranges-AreInside s d items ts e₁),
  λ inside. rw (convert_ranges-ok s d items out inside.1, not_empty out inside.0) refl,
)
