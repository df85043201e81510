-- ===== src/Resources/Binding.antt =====
-- `__enter__` and `__exit__` of `WorkerDataPlaneResourceBinding` in turbobus/worker/resources.py, with
-- `close` of `WorkerDataPlaneResources`. Each call of the backend and of the shared CPU buffer is an
-- answer, one for each place of the code that calls; the state counts what was opened and closed.
pub mod Released
pub mod Exits
use pcie_pool.Common.{
  ℕ, suc, List, [], ◌∷◌, Option, none, some, String, str_eq, Bool, true, false, ◌||◌, if◌then◌else◌,
  Result, ok, err, Error, value_error, runtime_error, key_error, type_error, pool_error,
}
use pcie_pool.Common.Int.{ℤ, pos, ◌+ℤ◌, ltb_ℤ, eqb_ℤ}
use pcie_pool.Common.Text.{◌^^◌}
use pcie_pool.Resources.{DeviceHandle, Request}
use pcie_pool.Resources.Span.{offset_bytes, validate_cuda_ipc_device_span}

-- What the calls do: `none` returns, `some e` raises.
pub record Answers : Type 0 where
  pub set_device : Option Error
  pub open_cpu : Option Error
  pub register_cpu : Option Error
  pub open_ipc : Result ℤ
  pub set_for_ipc : Option Error
  pub close_ipc : Option Error
  pub set_for_cpu : Option Error
  pub close_cpu : Option Error
  pub set_again : Option Error
  pub close_again : Option Error

pub record Resources : Type 0 where
  pub device_ptr : ℤ
  pub device_ipc_base_ptr : ℤ
  pub device_index : Option ℤ
  pub closed : Bool
  pub device_ipc_closed : Bool

-- The binding, the local `cpu_buffer` of `__enter__`, and the calls that reached the libraries: the
-- pointers of the IPC handles opened and closed, and how often the CPU buffer was.
pub record Binding : Type 0 where
  pub resources : Option Resources
  pub device_ptr : Option ℤ
  pub device_ipc_base_ptr : Option ℤ
  pub device_index : Option ℤ
  pub cpu_buffer : Bool
  pub ipc_opens : List ℤ
  pub ipc_closes : List ℤ
  pub cpu_opens : ℕ
  pub cpu_closes : ℕ

unfoldable pub new_binding : Binding
new_binding = record {
  resources = none;
  device_ptr = none;
  device_ipc_base_ptr = none;
  device_index = none;
  cpu_buffer = false;
  ipc_opens = [];
  ipc_closes = [];
  cpu_opens = 0;
  cpu_closes = 0;
}

abbrev pub answer : Option Error → Result (Unit {0})
answer none = ok tt
answer (some e) = err e

-- `_set_cuda_device_index`
abbrev pub set_cuda_device_index : Option Error → Option ℤ → Result (Unit {0})
set_cuda_device_index reply none = ok tt
set_cuda_device_index reply (some index) = answer reply

unfoldable pub and_then :
    {A B : Type 0} → Binding × Result A → (Binding → A → Binding × Result B) → Binding × Result B
and_then (b, ok a) rest = rest b a
and_then (b, err e) rest = (b, err e)

-- `SharedPinnedCpuBuffer.open_from_registration`
pub open_cpu_buffer : Answers → Binding → Binding × Result (Unit {0})
open_cpu_buffer answers b = elim answers.open_cpu [
  | none ↦ (record b { cpu_buffer = true; cpu_opens = suc b.cpu_opens }, ok tt)
  | some e ↦ (b, err e)
]

-- `_open_cuda_ipc_device_handle`, and the assignment of what it returns.
pub open_cuda_ipc_device_handle : Answers → DeviceHandle → Binding → Binding × Result ℤ
unfolding offset_bytes
open_cuda_ipc_device_handle answers handle b =
    let offset = offset_bytes handle in
    if str_eq handle.handle_type "cuda_ipc_device"
    then elim answers.open_ipc [
      | err e ↦ (b, err e)
      | ok base ↦
          let opened = record b { ipc_opens = base ∷ b.ipc_opens } in
          if ltb_ℤ offset (pos 0)
          then (
            opened,
            err (runtime_error "worker device binding requires non-negative device_offset_bytes"),
          )
          else (
            record opened { device_ipc_base_ptr = some base; device_ptr = some (base +ℤ offset) },
            ok base,
          )
    ]
    else (b, err (runtime_error "worker device binding requires a cuda_ipc_device handle"))

-- The `try` block of `__enter__`.
pub open_all : Answers → Bool → Request → Binding → Binding × Result (Unit {0})
unfolding and_then open_cpu_buffer open_cuda_ipc_device_handle validate_cuda_ipc_device_span
    offset_bytes
open_all answers register_cuda_host request b =
    let handle = request.device_handle in
    let placed = record b { device_index = handle.device_index } in
    and_then (placed, set_cuda_device_index answers.set_device handle.device_index)
      λ b _. and_then (open_cpu_buffer answers b) λ b _.
        and_then (b, if register_cuda_host then answer answers.register_cpu else ok tt)
          λ b _. and_then (open_cuda_ipc_device_handle answers handle b) λ b base.
            let ptr = base +ℤ offset_bytes handle in
            and_then (b, validate_cuda_ipc_device_span request base ptr)
              λ b evidence.
                let resources : Resources = record {
                  device_ptr = ptr;
                  device_ipc_base_ptr = base;
                  device_index = handle.device_index;
                  closed = false;
                  device_ipc_closed = false;
                } in
                (record b { resources = some resources }, ok tt)

-- The cleanup in the `except` block; what it raises itself is caught.
pub close_ipc_after_failure : Answers → Binding → Binding
close_ipc_after_failure answers b = elim b.device_ipc_base_ptr [
  | none ↦ b
  | some base ↦ elim (set_cuda_device_index answers.set_for_ipc b.device_index) [
    | ok _ ↦ record b {
      ipc_closes = base ∷ b.ipc_closes;
      device_ptr = none;
      device_ipc_base_ptr = none;
    }
    | err _ ↦ record b { device_ptr = none; device_ipc_base_ptr = none }
  ]
]

pub close_cpu_after_failure : Answers → Binding → Binding
close_cpu_after_failure answers b = elim b.cpu_buffer [
  | false ↦ b
  | true ↦ elim (set_cuda_device_index answers.set_for_cpu b.device_index) [
    | ok _ ↦ record b { cpu_closes = suc b.cpu_closes }
    | err _ ↦ b
  ]
]

pub clean_up : Answers → Binding → Binding
unfolding close_ipc_after_failure close_cpu_after_failure
clean_up answers b = record (close_cpu_after_failure answers (close_ipc_after_failure answers b)) {
  resources = none;
  device_index = none;
  device_ipc_base_ptr = none;
}

message : Error → String
message (value_error s) = s
message (runtime_error s) = s
message (key_error s) = s
message (type_error s) = s
message (pool_error s) = s

abbrev pub is_some {ℓ} : {A : Type ℓ} → Option A → Bool
is_some none = false
is_some (some a) = true

finish_enter : Answers → Binding × Result (Unit {0}) → Binding × Result (Unit {0})
unfolding clean_up message
finish_enter answers (b, ok u) = (b, ok u)
finish_enter answers (b, err e) = (
  clean_up answers b,
  err (runtime_error ("failed to bind worker data-plane resources: " ^^ message e)),
)

-- `WorkerDataPlaneResourceBinding.__enter__`
unfoldable pub enter : Answers → Bool → Request → Binding → Binding × Result (Unit {0})
unfolding open_all finish_enter
enter answers register_cuda_host request b =
    let bound = is_some b.resources || is_some b.device_ptr || is_some b.device_ipc_base_ptr in
    let done =
      finish_enter answers
        (open_all answers register_cuda_host request (record b { cpu_buffer = false })) in
    if bound then (b, err (runtime_error "worker data-plane resources already bound")) else done

-- A call that runs whatever came before; what it raises replaces what was raised.
abbrev pub and_finally : Result (Unit {0}) → Result (Unit {0}) → Result (Unit {0})
and_finally before (err e) = err e
and_finally before (ok u) = before

-- `self.device_ipc_base_ptr or self.device_ptr`
abbrev pub closing_ptr : Resources → ℤ
closing_ptr r = if eqb_ℤ r.device_ipc_base_ptr (pos 0) then r.device_ptr else r.device_ipc_base_ptr

-- `close_device_ipc_handle` of the resources: its call on the backend, if it makes one.
pub close_device_ipc_handle : Answers → Resources → Binding → Binding × Result (Unit {0})
close_device_ipc_handle answers r b = elim r.device_ipc_closed [
  | true ↦ (b, ok tt)
  | false ↦ elim (set_cuda_device_index answers.set_for_ipc r.device_index) [
    | err e ↦ (b, err e)
    | ok _ ↦ (record b { ipc_closes = closing_ptr r ∷ b.ipc_closes }, answer answers.close_ipc)
  ]
]

-- `WorkerDataPlaneResources.close`
pub close_resources : Answers → Resources → Binding → Binding × Result (Unit {0})
unfolding close_device_ipc_handle
close_resources answers r b =
    let counted = record b { cpu_closes = suc b.cpu_closes } in
    let (after, result) = close_device_ipc_handle answers r counted in
    if r.closed then (b, ok tt) else (after, and_finally (answer answers.close_cpu) result)

-- The `finally` block of `__exit__`.
pub close_left : Answers → Binding × Result (Unit {0}) → Binding × Result (Unit {0})
close_left answers (b, result) = elim b.device_ipc_base_ptr [
  | none ↦ (record b { device_index = none }, result)
  | some base ↦ elim (set_cuda_device_index answers.set_again b.device_index) [
    | err e ↦ (b, err e)
    | ok _ ↦
        let again = record b { ipc_closes = base ∷ b.ipc_closes } in
        elim answers.close_again [
          | some e ↦ (again, err e)
          | none ↦ (
            record again { device_ptr = none; device_ipc_base_ptr = none; device_index = none },
            result,
          )
        ]
  ]
]

-- `WorkerDataPlaneResourceBinding.__exit__`
unfoldable pub exit : Answers → Binding → Binding × Result (Unit {0})
unfolding and_then close_resources close_left
exit answers b =
    let taken = record b { resources = none } in
    close_left answers (elim b.resources [
      | none ↦ (taken, ok tt)
      | some r ↦
          and_then (close_resources answers r taken)
            λ b _. (record b { device_ptr = none; device_ipc_base_ptr = none }, ok tt)
    ])
