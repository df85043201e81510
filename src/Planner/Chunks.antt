-- ===== src/Planner/Chunks.antt =====
-- How the planner cuts a transfer into chunks: `_make_chunks`, the loops of `plan_ranges`,
-- `_range_fields` and `_coalesced_path_chunks` of turbobus/planner_engine.py.
pub mod Tiling
pub mod Endings
pub mod Ranges
pub mod Merging
use pcie_pool.Common.{
  ℕ, zero, suc, ◌+◌, ◌-◌, min, List, [], ◌∷◌, ◌++◌, map, Option, none, some, Bool, true, false,
  ◌&&◌, String, ltb, ◌==◌, if◌then◌else◌, str_eq, length, Result, ok, err, Error, value_error,
  ◌>>=◌,
}
use pcie_pool.Common.Int.{ℤ, pos, ◌+ℤ◌, leb_ℤ, eqb_ℤ, pos_part}
use pcie_pool.Planner.{PlannerChunk}

-- `range(start, stop, step)`, one round for each unit of fuel.
pub range_from : ℕ → ℕ → ℕ → ℕ → List ℕ
range_from zero start stop step = []
range_from (suc f) start stop step = elim (ltb start stop) [
  | true ↦ start ∷ range_from f (start + step) stop step
  | false ↦ []
]

pub chunk_at : ℕ → ℕ → ℕ → PlannerChunk
chunk_at total_bytes chunk_bytes offset = record {
  src_offset = pos offset;
  dst_offset = pos offset;
  bytes = min chunk_bytes (total_bytes - offset);
  relay_device = none;
}

-- `_make_chunks`. There are no more rounds than bytes.
unfoldable pub make_chunks : ℕ → ℕ → List PlannerChunk
unfolding range_from chunk_at
make_chunks total_bytes chunk_bytes =
    map (chunk_at total_bytes chunk_bytes) (range_from total_bytes 0 total_bytes chunk_bytes)

-- What a caller may pass as a range: a mapping or an object with the three fields, or a sequence.
pub data RangeItem : Type 0 where
  mapping : ℤ → ℤ → ℤ → RangeItem
  sequence : List ℤ → RangeItem
  attributes : ℤ → ℤ → ℤ → RangeItem

pub record Fields : Type 0 where
  pub src : ℤ
  pub dst : ℤ
  pub size : ℤ

-- `_range_fields`
unfoldable pub range_fields : RangeItem → Result Fields
range_fields (mapping s d b) = ok (record { src = s; dst = d; size = b })
range_fields (attributes s d b) = ok (record { src = s; dst = d; size = b })
range_fields (sequence (s ∷ d ∷ b ∷ [])) = ok (record { src = s; dst = d; size = b })
range_fields (sequence _) = err (value_error "range tuples must be (src_offset, dst_offset, bytes)")

-- `while consumed < bytes_` of `plan_ranges`, one round for each unit of fuel.
pub range_chunks : ℕ → ℕ → ℤ → ℤ → ℕ → ℕ → List PlannerChunk
range_chunks zero chunk_bytes src dst size consumed = []
range_chunks (suc f) chunk_bytes src dst size consumed = elim (ltb consumed size) [
  | true ↦
      let this = min chunk_bytes (size - consumed) in
      record {
        src_offset = src +ℤ pos consumed;
        dst_offset = dst +ℤ pos consumed;
        bytes = this;
        relay_device = none;
      }
      ∷ range_chunks f chunk_bytes src dst size (consumed + this)
  | false ↦ []
]

-- `for range_item in ranges` of `plan_ranges`, on the chunks and the byte count so far.
unfoldable pub collect_ranges :
    ℕ → List RangeItem → List PlannerChunk → ℕ → Result (List PlannerChunk × ℕ)
unfolding range_chunks range_fields
collect_ranges chunk_bytes [] chunks total_bytes = ok (chunks, total_bytes)
collect_ranges chunk_bytes (item ∷ items) chunks total_bytes = do
  r ← range_fields item
  let size = pos_part r.size
  let skip = leb_ℤ r.size (pos 0)
  collect_ranges chunk_bytes items
      (if skip then chunks else chunks ++ range_chunks size chunk_bytes r.src r.dst size 0)
      (if skip then total_bytes else total_bytes + size)

-- `==` on `int | None`
pub option_eq : Option ℤ → Option ℤ → Bool
option_eq none none = true
option_eq (some a) (some b) = eqb_ℤ a b
option_eq _ _ = false

-- `_chunks_are_contiguous`
pub chunks_are_contiguous : PlannerChunk → PlannerChunk → Bool
unfolding option_eq
chunks_are_contiguous left right =
    option_eq left.relay_device right.relay_device
    && eqb_ℤ (left.src_offset +ℤ pos left.bytes) right.src_offset
    && eqb_ℤ (left.dst_offset +ℤ pos left.bytes) right.dst_offset

-- The loop of `_coalesced_path_chunks` with `merged[-1]` in hand: `last` absorbs the chunks that
-- continue it, and goes out before the first that does not.
pub merge_from : PlannerChunk → List PlannerChunk → List PlannerChunk
merge_from last [] = last ∷ []
merge_from last (c ∷ cs) =
    let grown = merge_from (record last { bytes = last.bytes + c.bytes }) cs in
    let fresh = last ∷ merge_from c cs in if chunks_are_contiguous last c then grown else fresh

pub coalesced_path_chunks : String → List PlannerChunk → List PlannerChunk
unfolding merge_from
coalesced_path_chunks kind [] = []
coalesced_path_chunks kind (c ∷ cs) = if str_eq kind "direct" then merge_from c cs else c ∷ cs
