-- ===== src/Resources/Span.antt =====
-- `_validate_cuda_ipc_device_span` of turbobus/worker/resources.py: no range of a validated request
-- leaves the exported allocation.
use pcie_pool.Common.{
  ◌≡◌, inl, inr, List, [], ◌∷◌, Option, none, some, String, str_eq, str_eq_iff, not, ◌||◌,
  Bool-cases, if◌then◌else◌, arith, All, length, Result, ok, err, runtime_error, key_error,
  raise_if, All-map_to, ◌>>=◌, ◌>>◌, bind-ok, raise_if-ok,
}
use pcie_pool.Common.Int.{ℤ, pos, ◌+ℤ◌, ◌≤ℤ◌, ltb_ℤ, leb_ℤ, eqb_ℤ, eqb_ℤ_iff, int_laws}
use pcie_pool.Resources.{DeviceHandle, RequestRange, Request, SpanEvidence}

-- `metadata["allocation_size_bytes"]`
present : Option ℤ → Result ℤ
present none = err (key_error "allocation_size_bytes")
present (some n) = ok n

-- `metadata.get("device_offset_bytes", 0)`
unfoldable pub offset_bytes : DeviceHandle → ℤ
offset_bytes handle = elim handle.device_offset_bytes [ none ↦ pos 0 | some n ↦ n ]

abbrev pub range_offset : String → RequestRange → ℤ
range_offset direction item = if str_eq direction "h2d" then item.dst_offset else item.src_offset

-- `for item in request.ranges`
check_ranges : String → ℤ → List RequestRange → Result (Unit {0})
check_ranges direction device_bytes [] = ok tt
check_ranges direction device_bytes (item ∷ items) = do
  let offset = range_offset direction item
  raise_if (ltb_ℤ offset (pos 0) || ltb_ℤ device_bytes (offset +ℤ item.bytes))
      (runtime_error "worker CUDA IPC range exceeds validated device view")
  check_ranges direction device_bytes items

unfoldable pub validate_cuda_ipc_device_span : Request → ℤ → ℤ → Result SpanEvidence
unfolding present offset_bytes check_ranges
validate_cuda_ipc_device_span request base_ptr device_ptr = do
  let handle = request.device_handle
  let offset = offset_bytes handle
  raise_if (not (str_eq handle.handle_type "cuda_ipc_device"))
      (runtime_error "worker CUDA IPC span validation requires a cuda_ipc_device handle")
  allocation_size ← present handle.allocation_size_bytes
  raise_if (leb_ℤ allocation_size (pos 0))
      (runtime_error "worker CUDA IPC span validation requires positive allocation_size_bytes")
  raise_if (ltb_ℤ offset (pos 0))
      (runtime_error "worker CUDA IPC span validation requires non-negative device_offset_bytes")
  raise_if (leb_ℤ handle.size_bytes (pos 0))
      (runtime_error "worker CUDA IPC span validation requires positive device buffer size")
  raise_if (not (eqb_ℤ device_ptr (base_ptr +ℤ offset)))
      (runtime_error "worker CUDA IPC opened pointer does not match declared device offset")
  raise_if (ltb_ℤ allocation_size (offset +ℤ handle.size_bytes))
      (runtime_error "worker CUDA IPC device view exceeds exported allocation span")
  check_ranges request.direction handle.size_bytes request.ranges
  ok (record {
    device_buffer_role = if str_eq request.direction "h2d" then "destination" else "source";
    allocation_size_bytes = allocation_size;
    device_offset_bytes = offset;
    device_view_bytes = handle.size_bytes;
    device_view_end_bytes = offset +ℤ handle.size_bytes;
    device_ipc_base_ptr = base_ptr;
    device_ptr = device_ptr;
    range_count = length request.ranges;
  })

-- The bytes that a range touches lie in the allocation that begins at the base pointer.
abbrev pub IsInAllocation : String → ℤ → ℤ → ℤ → RequestRange → Type 0
IsInAllocation direction base_ptr device_ptr allocation_size item =
    let first = device_ptr +ℤ range_offset direction item in
    (base_ptr ≤ℤ first) × (first +ℤ item.bytes ≤ℤ base_ptr +ℤ allocation_size)

abbrev IsInView : String → ℤ → RequestRange → Type 0
IsInView direction device_bytes item =
    let offset = range_offset direction item in
    (pos 0 ≤ℤ offset) × (offset +ℤ item.bytes ≤ℤ device_bytes)

check_ranges-IsInView :
    (direction : String) (device_bytes : ℤ) (items : List RequestRange) (u : Unit {0})
    → check_ranges direction device_bytes items ≡ ok u
    → All (IsInView direction device_bytes) items
unfolding check_ranges
check_ranges-IsInView direction n [] u e = tt
check_ranges-IsInView direction n (item ∷ items) u e =
    let offset = range_offset direction item in
    elim (Bool-cases (ltb_ℤ offset (pos 0) || ltb_ℤ n (offset +ℤ item.bytes))) [
      | inl outside ↦ let bad = rw outside at e in absurd (ground arith)
      | inr inside ↦
          ((ground arith, ground arith), check_ranges-IsInView direction n items u (rw inside at e))
    ]

view-IsInAllocation :
    (direction : String) (base ptr offset n size : ℤ)
    → ptr ≡ base +ℤ offset
    → pos 0 ≤ℤ offset
    → offset +ℤ n ≤ℤ size
    → (item : RequestRange) → IsInView direction n item
    → IsInAllocation direction base ptr size item
view-IsInAllocation direction base ptr offset n size e₁ e₂ e₃ item (h₁, h₂) =
    rw e₁ (omega int_laws, omega int_laws)

present-some : (o : Option ℤ) (n : ℤ) → present o ≡ ok n → o ≡ some n
unfolding present
present-some none n e = absurd (ground arith)
present-some (some m) n e = ground arith

-- When the span of a request is validated, the handle is one of a CUDA IPC device, the view ends
-- inside the exported allocation, and every range of the request, with the offset of the device's
-- side, lies in it from its first byte to its last.
pub validate_cuda_ipc_device_span-IsInAllocation :
    (request : Request) (base_ptr device_ptr : ℤ) (evidence : SpanEvidence)
    → validate_cuda_ipc_device_span request base_ptr device_ptr ≡ ok evidence
    → (request.device_handle.handle_type ≡ "cuda_ipc_device")
      × (request.device_handle.allocation_size_bytes ≡ some evidence.allocation_size_bytes)
      × (evidence.device_view_end_bytes ≤ℤ evidence.allocation_size_bytes)
      × All
          (IsInAllocation request.direction base_ptr device_ptr evidence.allocation_size_bytes)
          request.ranges
unfolding validate_cuda_ipc_device_span present
validate_cuda_ipc_device_span-IsInAllocation request base ptr evidence e =
    let handle = request.device_handle in
    let offset = offset_bytes handle in
    let (typed, e₁) =
      raise_if-ok (not (str_eq handle.handle_type "cuda_ipc_device")) _ _ evidence e in
    let (size, at_size, e₂) = bind-ok (present handle.allocation_size_bytes) _ evidence e₁ in
    let (_, e₃) = raise_if-ok (leb_ℤ size (pos 0)) _ _ evidence e₂ in
    let (natural, e₄) = raise_if-ok (ltb_ℤ offset (pos 0)) _ _ evidence e₃ in
    let (_, e₅) = raise_if-ok (leb_ℤ handle.size_bytes (pos 0)) _ _ evidence e₄ in
    let (moved, e₆) = raise_if-ok (not (eqb_ℤ ptr (base +ℤ offset))) _ _ evidence e₅ in
    let (fits, e₇) = raise_if-ok (ltb_ℤ size (offset +ℤ handle.size_bytes)) _ _ evidence e₆ in
    let (u, checked, e₈) =
      bind-ok (check_ranges request.direction handle.size_bytes request.ranges) _ evidence e₇ in
    let alloc : evidence.allocation_size_bytes ≡ size = ground arith in
    let end : evidence.device_view_end_bytes ≡ offset +ℤ handle.size_bytes = ground arith in
    let at_size' : handle.allocation_size_bytes ≡ some size = present-some _ size at_size in
    let in_view =
      check_ranges-IsInView request.direction handle.size_bytes request.ranges u checked in
    (
      (str_eq_iff handle.handle_type "cuda_ipc_device").0 (ground arith),
      rw alloc at_size',
      rw (alloc, end) (ground arith),
      rw alloc (
          All-map_to _ _
            (view-IsInAllocation request.direction base ptr offset handle.size_bytes size
              (ground (arith, eqb_ℤ_iff ptr (base +ℤ offset))) (ground arith) (ground arith))
            request.ranges in_view),
    )
