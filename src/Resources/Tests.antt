-- ===== src/Resources/Tests.antt =====
-- Bindings of a small request, and the theorems on them applied.
use pcie_pool.Common.{
  ◌≡◌, refl, [], ◌∷◌, none, some, true, str_eq, All, ok, err, Error, runtime_error,
}
use pcie_pool.Common.Int.{pos, ◌≤ℤ◌, ◌+ℤ◌}
use pcie_pool.Resources.{Request, SpanEvidence}
use pcie_pool.Resources.Span.{
  offset_bytes, validate_cuda_ipc_device_span, IsInAllocation,
  validate_cuda_ipc_device_span-IsInAllocation,
}
use pcie_pool.Resources.Binding.{Answers, Binding, new_binding, and_then, enter, exit}
use pcie_pool.Resources.Binding.Released.{IsReleased, enter-IsReleased}
use pcie_pool.Resources.Binding.Exits.{exit-enter}

-- Eight bytes at offset 4 of an allocation of 16, in two ranges.
abbrev request : Request
request = record {
  direction = "h2d";
  ranges =
      record { src_offset = pos 0; dst_offset = pos 0; bytes = pos 4 }
      ∷ record { src_offset = pos 4; dst_offset = pos 4; bytes = pos 4 }
      ∷ [];
  device_handle = record {
    handle_type = "cuda_ipc_device";
    device_index = some (pos 0);
    size_bytes = pos 8;
    allocation_size_bytes = some (pos 16);
    device_offset_bytes = some (pos 4);
  };
}

abbrev evidence : SpanEvidence
evidence = record {
  device_buffer_role = "destination";
  allocation_size_bytes = pos 16;
  device_offset_bytes = pos 4;
  device_view_bytes = pos 8;
  device_view_end_bytes = pos 12;
  device_ipc_base_ptr = pos 100;
  device_ptr = pos 104;
  range_count = 2;
}

evidence-ok : validate_cuda_ipc_device_span request (pos 100) (pos 104) ≡ ok evidence
unfolding validate_cuda_ipc_device_span offset_bytes str_eq ◌+ℤ◌
evidence-ok = refl

validate_cuda_ipc_device_span-IsInAllocation_example :
    (request.device_handle.handle_type ≡ "cuda_ipc_device")
    × (some (pos 16) ≡ some evidence.allocation_size_bytes)
    × (evidence.device_view_end_bytes ≤ℤ evidence.allocation_size_bytes)
    × All (IsInAllocation "h2d" (pos 100) (pos 104) (pos 16)) request.ranges
validate_cuda_ipc_device_span-IsInAllocation_example =
    validate_cuda_ipc_device_span-IsInAllocation request (pos 100) (pos 104) evidence evidence-ok

abbrev working : Answers
working = record {
  set_device = none;
  open_cpu = none;
  register_cpu = none;
  open_ipc = ok (pos 100);
  set_for_ipc = none;
  close_ipc = none;
  set_for_cpu = none;
  close_cpu = some (runtime_error "close failed");
  set_again = none;
  close_again = none;
}

-- The IPC handle opens and its allocation is then found too small.
abbrev small : Request
small = record request {
  device_handle = record request.device_handle { allocation_size_bytes = some (pos 8) };
}

abbrev after_failure : Binding
after_failure = record new_binding {
  cpu_buffer = true;
  ipc_opens = pos 100 ∷ [];
  ipc_closes = pos 100 ∷ [];
  cpu_opens = 1;
  cpu_closes = 1;
}

abbrev failure : Error
failure =
    runtime_error
      "failed to bind worker data-plane resources: worker CUDA IPC device view exceeds exported allocation span"

small-fails : enter working true small new_binding ≡ (after_failure, err failure)
unfolding enter new_binding and_then validate_cuda_ipc_device_span offset_bytes str_eq ◌+ℤ◌
small-fails = refl

enter-IsReleased_example : IsReleased after_failure
unfolding offset_bytes
enter-IsReleased_example =
    enter-IsReleased working true small after_failure failure refl refl refl small-fails

abbrev entered : Binding
entered = (enter working true request new_binding).0

request-enters : enter working true request new_binding ≡ (entered, ok tt)
unfolding enter new_binding and_then validate_cuda_ipc_device_span offset_bytes str_eq ◌+ℤ◌
request-enters = refl

exit-enter_example :
    (entered.ipc_opens ≡ pos 100 ∷ [])
    × ((exit working entered).0.ipc_closes ≡ pos 100 ∷ pos 100 ∷ [])
    × ((exit working entered).0.cpu_closes ≡ entered.cpu_opens)
exit-enter_example =
    exit-enter working true request (pos 100) entered tt refl refl refl refl refl request-enters
