-- ===== src/Resources.antt =====
-- The buffers that a worker binds for a transfer: turbobus/worker/resources.py. Of the handles and the
-- request this keeps the fields that the code decides on; the evidence that it collects on the way is
-- left out, except for what a span check returns.
pub mod Span
pub mod Binding
mod Tests
use pcie_pool.Common.{ℕ, List, Option, String}
use pcie_pool.Common.Int.{ℤ}

-- A device handle of the request with its metadata.
pub record DeviceHandle : Type 0 where
  pub handle_type : String
  pub device_index : Option ℤ
  pub size_bytes : ℤ
  pub allocation_size_bytes : Option ℤ
  pub device_offset_bytes : Option ℤ

pub record RequestRange : Type 0 where
  pub src_offset : ℤ
  pub dst_offset : ℤ
  pub bytes : ℤ

pub record Request : Type 0 where
  pub direction : String
  pub ranges : List RequestRange
  pub device_handle : DeviceHandle

pub record SpanEvidence : Type 0 where
  pub device_buffer_role : String
  pub allocation_size_bytes : ℤ
  pub device_offset_bytes : ℤ
  pub device_view_bytes : ℤ
  pub device_view_end_bytes : ℤ
  pub device_ipc_base_ptr : ℤ
  pub device_ptr : ℤ
  pub range_count : ℕ
