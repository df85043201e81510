-- ===== src/Resources/Binding/Exits.antt =====
-- What `__exit__` of turbobus/worker/resources.py closes after an `__enter__` that returned.
use pcie_pool.Common.{
  suc, ◌≡◌, refl, ◌∙◌, sym, ap, subst, List, [], ◌∷◌, Option, none, some, Bool, true, false,
  if◌then◌else◌, arith, Result, ok, err, Error,
}
use pcie_pool.Common.Int.{ℤ, pos, ◌+ℤ◌, eqb_ℤ}
use pcie_pool.Resources.{DeviceHandle, Request}
use pcie_pool.Resources.Span.{offset_bytes, validate_cuda_ipc_device_span}
use pcie_pool.Resources.Binding.{
  Answers, Resources, Binding, new_binding, answer, set_cuda_device_index, and_then,
  open_cpu_buffer, open_cuda_ipc_device_handle, open_all, finish_enter, enter, exit, closing_ptr,
  is_some, close_device_ipc_handle, close_resources, close_left,
}
use pcie_pool.Resources.Binding.Released.{selected}

-- A binding that `__enter__` has left with resources on a handle opened at a pointer.
pub record IsBound (p : ℤ) (b : Binding) : Type 0 where
  pub r : Resources
  pub has_resources : b.resources ≡ some r
  pub resource_ptr : r.device_ipc_base_ptr ≡ p
  pub is_open : r.closed ≡ false
  pub is_open_ipc : r.device_ipc_closed ≡ false
  pub handle : b.device_ipc_base_ptr ≡ some p
  pub opened : b.ipc_opens ≡ p ∷ []
  pub none_closed : b.ipc_closes ≡ []
  pub cpu_opened : b.cpu_opens ≡ 1
  pub cpu_not_closed : b.cpu_closes ≡ 0

data IsEntered (p : ℤ) : Binding × Result (Unit {0}) → Type 0 where
  returned : (b : Binding) (u : Unit {0}) → IsBound p b → IsEntered p (b, ok u)
  raised : (b : Binding) (e : Error) → IsEntered p (b, err e)

and_then-IsEntered :
    {A : Type 0} (p : ℤ) (x : Binding × Result A) (rest : Binding → A → Binding × Result (Unit {0}))
    → ((b : Binding) (a : A) → x ≡ (b, ok a) → IsEntered p (rest b a))
    → IsEntered p (and_then x rest)
unfolding and_then
and_then-IsEntered p (b, ok a) rest k = k b a refl
and_then-IsEntered p (b, err e) rest k = raised b e

and_then_same-IsEntered :
    {A : Type 0} (p : ℤ) (b : Binding) (r : Result A)
    (rest : Binding → A → Binding × Result (Unit {0}))
    → ((a : A) → IsEntered p (rest b a))
    → IsEntered p (and_then (b, r) rest)
unfolding and_then
and_then_same-IsEntered p b (ok a) rest k = k a
and_then_same-IsEntered p b (err e) rest k = raised b e

open_cpu_buffer-ok :
    (answers : Answers) (b c : Binding) (u : Unit {0})
    → open_cpu_buffer answers b ≡ (c, ok u)
    → c ≡ record b { cpu_buffer = true; cpu_opens = suc b.cpu_opens }
unfolding open_cpu_buffer
open_cpu_buffer-ok answers b c u e = ground arith

open_cuda_ipc_device_handle-ok :
    (answers : Answers) (handle : DeviceHandle) (b c : Binding) (base p : ℤ)
    → answers.open_ipc ≡ ok p
    → open_cuda_ipc_device_handle answers handle b ≡ (c, ok base)
    → (base ≡ p)
      × (c ≡ record b {
        ipc_opens = p ∷ b.ipc_opens;
        device_ipc_base_ptr = some p;
        device_ptr = some (p +ℤ offset_bytes handle);
      })
unfolding open_cuda_ipc_device_handle
open_cuda_ipc_device_handle-ok answers handle b c base p at_p e = (ground arith, ground arith)

open_all-IsEntered :
    (answers : Answers) (register_cuda_host : Bool) (request : Request) (p : ℤ)
    → answers.open_ipc ≡ ok p
    → IsEntered p (open_all answers register_cuda_host request new_binding)
unfolding open_all new_binding
open_all-IsEntered answers register request p at_p =
    let handle = request.device_handle in
    let placed = record new_binding { device_index = handle.device_index } in
    and_then_same-IsEntered p placed (set_cuda_device_index answers.set_device handle.device_index)
      _
      λ _. and_then-IsEntered p (open_cpu_buffer answers placed) _ λ b u x.
        let cpu = open_cpu_buffer-ok answers placed b u x in
        and_then_same-IsEntered p b (if register then answer answers.register_cpu else ok tt) _ λ _.
          and_then-IsEntered p (open_cuda_ipc_device_handle answers handle b) _ λ c base y.
            let (same, ipc) = open_cuda_ipc_device_handle-ok answers handle b c base p at_p y in
            and_then_same-IsEntered p c
              (validate_cuda_ipc_device_span request base (base +ℤ offset_bytes handle)) _
              λ evidence. returned _ _ (record {
                r = _;
                has_resources = refl;
                resource_ptr = same;
                is_open = refl;
                is_open_ipc = refl;
                handle = ap (λ s. s.device_ipc_base_ptr) ipc;
                opened = rw (ipc, cpu) refl;
                none_closed = rw (ipc, cpu) refl;
                cpu_opened = rw (ipc, cpu) refl;
                cpu_not_closed = rw (ipc, cpu) refl;
              })

finish_enter-IsBound :
    (answers : Answers) (p : ℤ) (x : Binding × Result (Unit {0})) (b : Binding) (u : Unit {0})
    → IsEntered p x
    → finish_enter answers x ≡ (b, ok u)
    → IsBound p b
unfolding finish_enter
finish_enter-IsBound answers p x b u (returned c _ h) e = subst (IsBound p) (ap (λ y. y.0) e) h
finish_enter-IsBound answers p x b u (raised c _) e = absurd (ground arith)

close_resources_lem :
    (answers : Answers) (r : Resources) (b : Binding)
    → r.closed ≡ false
    → r.device_ipc_closed ≡ false
    → answers.close_ipc ≡ none
    → set_cuda_device_index answers.set_for_ipc r.device_index ≡ ok tt
    → close_resources answers r b ≡ (
      record b { cpu_closes = suc b.cpu_closes; ipc_closes = closing_ptr r ∷ b.ipc_closes },
      answer answers.close_cpu,
    )
unfolding close_resources close_device_ipc_handle
close_resources_lem answers r b e₁ e₂ e₃ e₄ = ground arith

left_once :
    (answers : Answers) (b : Binding)
    → b.device_ipc_base_ptr ≡ none
    → let (after, result) = close_left answers (b, ok tt) in
      (after.ipc_closes ≡ b.ipc_closes) × (after.cpu_closes ≡ b.cpu_closes)
unfolding close_left
left_once answers b e = ground arith

left_again :
    (answers : Answers) (b : Binding) (x : Error) (p : ℤ)
    → b.device_ipc_base_ptr ≡ some p
    → set_cuda_device_index answers.set_again b.device_index ≡ ok tt
    → let (after, result) = close_left answers (b, err x) in
      (after.ipc_closes ≡ p ∷ b.ipc_closes) × (after.cpu_closes ≡ b.cpu_closes)
unfolding close_left
left_again answers b x p e set = ground arith

abbrev clear : Binding → Unit {0} → Binding × Result (Unit {0})
clear b u = (record b { device_ptr = none; device_ipc_base_ptr = none }, ok tt)

exit-close_left :
    (answers : Answers) (b : Binding) (r : Resources)
    → b.resources ≡ some r
    → exit answers b
      ≡ close_left answers
          (and_then (close_resources answers r (record b { resources = none })) clear)
unfolding exit
exit-close_left answers b r e = rw e refl

exit-closes :
    (answers : Answers) (b : Binding) (closed : List ℤ) (p : ℤ) (reply : Option Error)
    → b.device_ipc_base_ptr ≡ some p
    → set_cuda_device_index answers.set_again b.device_index ≡ ok tt
    → let after = record b {
      resources = none;
      cpu_closes = suc b.cpu_closes;
      ipc_closes = closed;
    } in
      let out = (close_left answers (and_then (after, answer reply) clear)).0 in
      (out.ipc_closes ≡ (if is_some reply then p ∷ closed else closed))
      × (out.cpu_closes ≡ suc b.cpu_closes)
unfolding and_then
exit-closes answers b closed p none handle set = left_once answers _ refl
exit-closes answers b closed p (some x) handle set = left_again answers _ x p handle set

-- After an `__enter__` that returned, `__exit__` closes the CPU buffer once. It closes the IPC handle
-- once where the buffer's `close` returns, and twice where that raises: the `finally` block finds
-- the pointer still set. The calls on the device and the first close of the handle are taken to
-- work, and the pointer not to be null.
pub exit-enter :
    (answers : Answers) (register_cuda_host : Bool) (request : Request) (p : ℤ) (b : Binding)
    (u : Unit {0})
    → answers.open_ipc ≡ ok p
    → eqb_ℤ p (pos 0) ≡ false
    → answers.set_for_ipc ≡ none
    → answers.set_again ≡ none
    → answers.close_ipc ≡ none
    → enter answers register_cuda_host request new_binding ≡ (b, ok u)
    → let out = (exit answers b).0 in
      (b.ipc_opens ≡ p ∷ [])
      × (out.ipc_closes ≡ (if is_some answers.close_cpu then p ∷ p ∷ [] else p ∷ []))
      × (out.cpu_closes ≡ b.cpu_opens)
unfolding enter new_binding
exit-enter answers register request p b u at_p real set₁ set₂ close₁ ran =
    let h =
      finish_enter-IsBound answers p (open_all answers register request new_binding) b u
        (open_all-IsEntered answers register request p at_p) ran in
    let closing : closing_ptr h.r ≡ p = rw (h.resource_ptr, real) refl in
    let (ipc, cpu) =
      exit-closes answers b (closing_ptr h.r ∷ b.ipc_closes) p answers.close_cpu h.handle
        (selected answers.set_again b.device_index set₂) in
    let closed =
      close_resources_lem answers h.r (record b { resources = none }) h.is_open h.is_open_ipc close₁
        (selected answers.set_for_ipc h.r.device_index set₁) in
    let exits =
      exit-close_left answers b h.r h.has_resources
      ∙ ap (λ y. close_left answers (and_then y clear)) closed in
    let once : closing_ptr h.r ∷ b.ipc_closes ≡ p ∷ [] = rw (closing, h.none_closed) refl in
    (
      h.opened,
      ap (λ y. y.0.ipc_closes) exits
          ∙ ipc
          ∙ ap (λ closes. if is_some answers.close_cpu then p ∷ closes else closes) once,
      ap (λ y. y.0.cpu_closes) exits ∙ cpu ∙ ap suc h.cpu_not_closed ∙ sym h.cpu_opened,
    )
