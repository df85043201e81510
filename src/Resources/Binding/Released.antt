-- ===== src/Resources/Binding/Released.antt =====
-- What turbobus/worker/resources.py opens for a transfer is closed: after a failure by `__enter__`
-- itself, else by `__exit__`.
use pcie_pool.Common.{
  ℕ, ◌≡◌, refl, inl, inr, List, [], ◌∷◌, Option, none, some, str_eq, Bool, true, false, Bool-cases,
  Result-cases, Option-cases, if◌then◌else◌, arith, ◌+◌, ◌∙◌, sym, ap, subst, Result, ok, err,
  Error,
}
use pcie_pool.Common.Int.{ℤ, pos, ◌+ℤ◌, ltb_ℤ}
use pcie_pool.Resources.{DeviceHandle, Request}
use pcie_pool.Resources.Span.{offset_bytes, validate_cuda_ipc_device_span}
use pcie_pool.Resources.Binding.{
  Answers, Binding, new_binding, answer, set_cuda_device_index, and_then, open_cpu_buffer,
  open_cuda_ipc_device_handle, open_all, close_ipc_after_failure, close_cpu_after_failure, clean_up,
  finish_enter, enter,
}

-- The books of a binding that has nothing open.
pub record IsReleased (b : Binding) : Type 0 where
  pub ipc_closed : b.ipc_closes ≡ b.ipc_opens
  pub cpu_closed : b.cpu_closes ≡ b.cpu_opens
  pub no_resources : b.resources ≡ none
  pub no_handle : b.device_ipc_base_ptr ≡ none

abbrev handles : Option ℤ → List ℤ
handles none = []
handles (some p) = p ∷ []

abbrev buffers : Bool → ℕ
buffers false = 0
buffers true = 1

-- While `__enter__` runs, what is open is what the binding and the local variable hold.
abbrev IsHeld : Binding → Type 0
IsHeld b =
    (b.ipc_opens ≡ handles b.device_ipc_base_ptr)
    × (b.ipc_closes ≡ [])
    × (b.cpu_opens ≡ buffers b.cpu_buffer)
    × (b.cpu_closes ≡ 0)

abbrev IsHandleless : Binding → Type 0
IsHandleless b = IsHeld b × (b.device_ipc_base_ptr ≡ none) × (b.cpu_buffer ≡ true)

-- What holds when the first step raises and, when it returns, after the rest, holds of the chain.
and_then-keeps :
    {A B : Type 0} (Q : Binding → Type 0) (x : Binding × Result A)
    (rest : Binding → A → Binding × Result B)
    → ((b : Binding) (e : Error) → x ≡ (b, err e) → Q b)
    → ((b : Binding) (a : A) → x ≡ (b, ok a) → Q (rest b a).0)
    → Q (and_then x rest).0
unfolding and_then
and_then-keeps Q (b, ok a) rest raised returned = returned b a refl
and_then-keeps Q (b, err e) rest raised returned = raised b e refl

-- The same for a step that leaves the binding alone.
and_then-same :
    {A B : Type 0} (Q : Binding → Type 0) (b : Binding) (r : Result A)
    (rest : Binding → A → Binding × Result B)
    → Q b
    → ((a : A) → Q (rest b a).0)
    → Q (and_then (b, r) rest).0
unfolding and_then
and_then-same Q b (ok a) rest raised returned = returned a
and_then-same Q b (err e) rest raised returned = raised

open_cuda_ipc_device_handle-IsHeld :
    (answers : Answers) (handle : DeviceHandle) (b : Binding)
    → ltb_ℤ (offset_bytes handle) (pos 0) ≡ false
    → IsHandleless b
    → IsHeld (open_cuda_ipc_device_handle answers handle b).0
unfolding open_cuda_ipc_device_handle
open_cuda_ipc_device_handle-IsHeld answers handle b h held =
    elim (Bool-cases (str_eq handle.handle_type "cuda_ipc_device")) [
      | inr other ↦ rw other held.0
      | inl device ↦ elim (Result-cases answers.open_ipc) [
        | inr (e, failed) ↦ rw (device, failed) held.0
        | inl (base, opened) ↦ rw (device, opened, h) (ground arith)
      ]
    ]

pub selected :
    (reply : Option Error) (index : Option ℤ)
    → reply ≡ none
    → set_cuda_device_index reply index ≡ ok tt
selected reply none e = refl
selected reply (some index) e = rw e refl

close_ipc_after_failure_lem :
    (answers : Answers) (b : Binding)
    → set_cuda_device_index answers.set_for_ipc b.device_index ≡ ok tt
    → let after = close_ipc_after_failure answers b in
      (b.ipc_closes ≡ [] → after.ipc_closes ≡ handles b.device_ipc_base_ptr)
      × (after.ipc_opens ≡ b.ipc_opens)
      × (after.cpu_opens ≡ b.cpu_opens)
      × (after.cpu_closes ≡ b.cpu_closes)
      × (after.cpu_buffer ≡ b.cpu_buffer)
      × (after.device_index ≡ b.device_index)
unfolding close_ipc_after_failure
close_ipc_after_failure_lem answers b set = ground arith

close_cpu_after_failure_lem :
    (answers : Answers) (b : Binding)
    → set_cuda_device_index answers.set_for_cpu b.device_index ≡ ok tt
    → let after = close_cpu_after_failure answers b in
      (after.ipc_closes ≡ b.ipc_closes)
      × (after.ipc_opens ≡ b.ipc_opens)
      × (after.cpu_opens ≡ b.cpu_opens)
      × (after.cpu_closes ≡ buffers b.cpu_buffer + b.cpu_closes)
unfolding close_cpu_after_failure
close_cpu_after_failure_lem answers b set = ground arith

clean_up-IsReleased :
    (answers : Answers) (b : Binding)
    → answers.set_for_ipc ≡ none
    → answers.set_for_cpu ≡ none
    → IsHeld b
    → IsReleased (clean_up answers b)
unfolding clean_up
clean_up-IsReleased answers b set₁ set₂ (opens, closes, cpu, cpu_closes) =
    let mid = close_ipc_after_failure answers b in
    let (i₁, i₂, i₃, i₄, i₅, i₆) =
      close_ipc_after_failure_lem answers b (selected answers.set_for_ipc b.device_index set₁) in
    let (c₁, c₂, c₃, c₄) =
      close_cpu_after_failure_lem answers mid
        (selected answers.set_for_cpu mid.device_index set₂) in
    record {
      ipc_closed = c₁ ∙ i₁ closes ∙ sym opens ∙ sym i₂ ∙ sym c₂;
      cpu_closed = ground arith;
      no_resources = refl;
      no_handle = refl;
    }

open_cpu_buffer-IsHeld :
    (answers : Answers) (b : Binding)
    → IsHeld b
    → b.device_ipc_base_ptr ≡ none
    → b.cpu_buffer ≡ false
    → IsHeld (open_cpu_buffer answers b).0
      × ((c : Binding) (u : Unit {0}) → open_cpu_buffer answers b ≡ (c, ok u) → IsHandleless c)
unfolding open_cpu_buffer
open_cpu_buffer-IsHeld answers b h none_yet no_buffer = elim (Option-cases answers.open_cpu) [
  | inl works ↦ (
    rw works (ground arith),
    λ c u e.
        let same : c ≡ (open_cpu_buffer answers b).0 = ground arith in
        rw (same, works) (ground arith),
  )
  | inr (x, fails) ↦ (rw fails h, λ c u e. absurd (ground arith))
]

open_all-IsHeld :
    (answers : Answers) (register_cuda_host : Bool) (request : Request)
    → ltb_ℤ (offset_bytes request.device_handle) (pos 0) ≡ false
    → IsHeld (open_all answers register_cuda_host request new_binding).0
unfolding open_all new_binding
open_all-IsHeld answers register request offset =
    let handle = request.device_handle in
    let placed = record new_binding { device_index = handle.device_index } in
    let at_start : IsHeld placed = (refl, refl, refl, refl) in
    let (cpu, then_cpu) = open_cpu_buffer-IsHeld answers placed at_start refl refl in
    and_then-same IsHeld placed (set_cuda_device_index answers.set_device handle.device_index) _
      at_start
      λ _.
        and_then-keeps IsHeld (open_cpu_buffer answers placed) _
          (λ b e x. subst (λ y. IsHeld y.0) x cpu)
          λ b u x.
            let held = then_cpu b u x in
            and_then-same IsHeld b (if register then answer answers.register_cpu else ok tt) _
              held.0
              λ _.
                let ipc = open_cuda_ipc_device_handle-IsHeld answers handle b offset held in
                and_then-keeps IsHeld (open_cuda_ipc_device_handle answers handle b) _
                  (λ b e x. subst (λ y. IsHeld y.0) x ipc)
                  λ b base x.
                    let opened = subst (λ y. IsHeld y.0) x ipc in
                    and_then-same IsHeld b
                      (validate_cuda_ipc_device_span request base (base +ℤ offset_bytes handle)) _
                      opened λ _. opened

finish_enter-IsReleased :
    (answers : Answers) (x : Binding × Result (Unit {0})) (b : Binding) (e : Error)
    → answers.set_for_ipc ≡ none
    → answers.set_for_cpu ≡ none
    → IsHeld x.0
    → finish_enter answers x ≡ (b, err e)
    → IsReleased b
unfolding finish_enter
finish_enter-IsReleased answers (c, ok u) b e set₁ set₂ h ran = absurd (ground arith)
finish_enter-IsReleased answers (c, err x) b e set₁ set₂ h ran =
    subst IsReleased (ap (λ y. y.0) ran) (clean_up-IsReleased answers c set₁ set₂ h)

-- When `__enter__` of a new binding raises, nothing is left to it: whichever call failed, the close of
-- each IPC handle that was opened has been called once, and so has that of the CPU buffer. The device
-- offset is not negative, which the registration of a handle sees to, and the cleanup can select the
-- device.
pub enter-IsReleased :
    (answers : Answers) (register_cuda_host : Bool) (request : Request) (b : Binding) (e : Error)
    → answers.set_for_ipc ≡ none
    → answers.set_for_cpu ≡ none
    → ltb_ℤ (offset_bytes request.device_handle) (pos 0) ≡ false
    → enter answers register_cuda_host request new_binding ≡ (b, err e)
    → IsReleased b
unfolding enter new_binding
enter-IsReleased answers register request b e set₁ set₂ offset ran =
    finish_enter-IsReleased answers (open_all answers register request new_binding) b e set₁ set₂
      (open_all-IsHeld answers register request offset) ran
