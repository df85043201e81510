-- ===== src/OffloadStore/Blocks.antt =====
-- `_OffloadBlock` and `_backing_nbytes` of turbobus/offload/blocks.py, and the checks and the ranges
-- of turbobus/offload/store.py.
use pcie_pool.Common.{
  ℕ, ◌*◌, List, [], ◌∷◌, Option, none, some, Bool, true, false, ◌&&◌, ◌||◌, ◌==◌, String, str_eq,
  all_by, Result, ok, err, value_error, key_error, type_error, ◌>>=◌, ◌>>◌, raise_if,
}
use pcie_pool.Common.Int.{ℤ, pos, pos_part, ltb_ℤ, leb_ℤ}
use pcie_pool.Common.Dict.{Dict, lookup, string_eq}
use pcie_pool.OffloadStore.{cpu, Operation, prefetch, evict, Backing, TransferRange, Block}

-- `_validate_name`, on a text.
abbrev pub validate_name : String → Result (Unit {0})
validate_name name =
    raise_if (str_eq name "") (value_error "offload block name must be a non-empty string")

abbrev pub not_positive : Option ℤ → Bool
not_positive none = false
not_positive (some n) = leb_ℤ n (pos 0)

-- `_validate_range_fields`
unfoldable pub validate_range_fields : ℤ → ℤ → Option ℤ → Result (Unit {0})
validate_range_fields cpu_offset gpu_offset byte_count = do
  raise_if (ltb_ℤ cpu_offset (pos 0) || ltb_ℤ gpu_offset (pos 0))
      (value_error "block offsets must be non-negative")
  raise_if (not_positive byte_count) (value_error "byte_count must be positive")
  ok tt

abbrev pub given : Option ℤ → Option ℕ
given none = none
given (some n) = some (pos_part n)

abbrev pub real_backing : Option Backing → String → Result Backing
real_backing none failure = err (value_error failure)
real_backing (some backing) failure = ok backing

abbrev pub id_or_name : Option String → String → String
id_or_name none name = name
id_or_name (some id) name = id

-- `_OffloadBlock(...)` with its `__post_init__`.
unfoldable pub offload_block :
    String → Option Backing → Option Backing → Option String → ℤ → ℤ → Option ℤ → Result Block
offload_block name cpu_tensor gpu_tensor block_id cpu_offset gpu_offset byte_count = do
  cpu_backing ← real_backing cpu_tensor "offload blocks require a real CPU backing object"
  gpu_backing ← real_backing gpu_tensor "offload blocks require a real GPU backing object"
  ok (record {
    name = name;
    cpu_tensor = cpu_backing;
    gpu_tensor = gpu_backing;
    block_id = id_or_name block_id name;
    cpu_offset = pos_part cpu_offset;
    gpu_offset = pos_part gpu_offset;
    byte_count = given byte_count;
    state = cpu;
    last_prefetch = none;
    last_evict = none;
    last_handle = none;
    last_operation = none;
  })

abbrev pub sized_by : Option ℕ → Option ℕ → Result ℕ
sized_by (some size_bytes) nbytes = ok size_bytes
sized_by none (some nbytes) = ok nbytes
sized_by none none =
    err (type_error "offload block backing must expose numel/element_size, size_bytes, or nbytes")

-- `_backing_nbytes`
abbrev pub backing_nbytes : Backing → Result ℕ
backing_nbytes b = elim b.numel [
  | none ↦ sized_by b.size_bytes b.nbytes
  | some numel ↦ elim b.element_size [
    | none ↦ sized_by b.size_bytes b.nbytes
    | some element_size ↦ ok (numel * element_size)
  ]
]

-- `bytes`
abbrev pub block_bytes : Block → Result ℕ
block_bytes b = elim b.byte_count [
  | some byte_count ↦ ok byte_count
  | none ↦ backing_nbytes b.cpu_tensor
]

-- One item of `_ranges`.
abbrev pub range_at : Operation → Block → ℕ → TransferRange
range_at prefetch b n = record { src_offset = b.cpu_offset; dst_offset = b.gpu_offset; bytes = n }
range_at evict b n = record { src_offset = b.gpu_offset; dst_offset = b.cpu_offset; bytes = n }

-- `_ranges`
unfoldable pub ranges : List Block → Operation → Result (List TransferRange)
ranges [] operation = ok []
ranges (b ∷ blocks) operation = do
  size ← block_bytes b
  rest ← ranges blocks operation
  ok (range_at operation b size ∷ rest)

abbrev pub has_byte_count : Block → Bool
has_byte_count b = elim b.byte_count [ none ↦ false | some _ ↦ true ]

abbrev pub same_backing : Block → Block → Bool
same_backing first b =
    (b.cpu_tensor.ident == first.cpu_tensor.ident)
    && (b.gpu_tensor.ident == first.gpu_tensor.ident)
    && has_byte_count b

-- `_can_use_range_batch`, of the first block and the others.
unfoldable pub can_use_range_batch : Block → List Block → Bool
can_use_range_batch first rest =
    has_byte_count first && same_backing first first && all_by (same_backing first) rest

-- `[self._blocks[str(name)] for name in names]`
unfoldable pub blocks_named : List String → Dict String Block → Result (List Block)
unfolding lookup
blocks_named [] blocks = ok []
blocks_named (name ∷ names) blocks = elim (lookup name blocks) [
  | none ↦ err (key_error name)
  | some b ↦ do rest ← blocks_named names blocks; ok (b ∷ rest)
]
