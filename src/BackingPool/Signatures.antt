-- ===== src/BackingPool/Signatures.antt =====
-- `max_lanes_per_layer`, `backing_signature` of turbobus/adapters/vllm_backing_pool.py and
-- `block_bytes_from_vllm_kv_tensor` of turbobus/adapters/vllm.py.
use pcie_pool.Common.{
  ℕ, ◌*◌, ◌≡◌, ◌↔◌, max, List, [], ◌∷◌, Bool, true, false, ◌&&◌, ◌==◌, leb, ltb, arith, length,
  Result, ok, value_error, ◌>>=◌, ◌>>◌, raise_if, if◌then◌else◌,
}
use pcie_pool.Common.Int.{ℤ, pos_part}
use pcie_pool.Common.Dict.{Eq}
use pcie_pool.BackingPool.{KvCache, Signature}

-- `block_bytes_from_vllm_kv_tensor`
abbrev pub block_bytes_from_vllm_kv_tensor : KvCache → Result ℕ
block_bytes_from_vllm_kv_tensor tensor =
    raise_if (ltb (length tensor.shape) 2)
      (value_error "vLLM KV tensor must have at least two dimensions")
    >> ok (tensor.stride_1 * tensor.element_size)

abbrev first_dim : List ℕ → ℕ
first_dim [] = 0
first_dim (n ∷ shape) = n

-- The lanes of one layer.
abbrev pub lanes : KvCache → ℕ
lanes kv_cache = if leb 3 (length kv_cache.shape) then first_dim kv_cache.shape else 1

-- `max_lanes_per_layer`
unfoldable pub max_lanes_per_layer : List KvCache → ℕ
max_lanes_per_layer [] = 1
max_lanes_per_layer (kv_cache ∷ []) = lanes kv_cache
max_lanes_per_layer (kv_cache ∷ next ∷ rest) =
    max (lanes kv_cache) (max_lanes_per_layer (next ∷ rest))

-- `max(1, int(block_count) * max_lanes_per_layer(kv_caches))`
abbrev pub slots_per_layer : ℤ → List KvCache → ℕ
slots_per_layer block_count kv_caches = max 1 (pos_part block_count * max_lanes_per_layer kv_caches)

-- The signature's entries for the layers.
unfoldable pub layer_entries : ℕ → List KvCache → Result Signature
layer_entries slots [] = ok []
layer_entries slots (kv_cache ∷ kv_caches) = do
  block_bytes ← block_bytes_from_vllm_kv_tensor kv_cache
  rest ← layer_entries slots kv_caches
  ok ((slots, block_bytes) ∷ rest)

-- `backing_signature`
unfoldable pub backing_signature : ℤ → List KvCache → Result Signature
unfolding layer_entries max_lanes_per_layer
backing_signature block_count kv_caches =
    layer_entries (slots_per_layer block_count kv_caches) kv_caches

-- Python's `==` on two signatures.
unfoldable pub signature_beq : Signature → Signature → Bool
signature_beq [] [] = true
signature_beq [] (b ∷ t) = false
signature_beq (a ∷ s) [] = false
signature_beq (a ∷ s) (b ∷ t) = (a.0 == b.0) && (a.1 == b.1) && signature_beq s t

pub signature_beq_iff : (s t : Signature) → (signature_beq s t ≡ true) ↔ (s ≡ t)
unfolding signature_beq
signature_beq_iff [] [] = ground arith
signature_beq_iff [] (b ∷ t) = ground arith
signature_beq_iff (a ∷ s) [] = ground arith
signature_beq_iff (a ∷ s) (b ∷ t) = ground (arith, signature_beq_iff s t)

instance abbrev pub signature_eq : Eq Signature
signature_eq = record { beq = signature_beq; beq_iff = signature_beq_iff }
