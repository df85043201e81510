-- ===== src/OffloadStore/Effects/Tables.antt =====
-- `add`, `remove` and `set_block_state` of turbobus/offload/store.py as changes of the view.
use mathlib.Core.Path.{fun_ext}
use pcie_pool.Common.{
  [], ◌∷◌, Option, none, some, Bool, true, false, ◌≡◌, refl, ap, ◌∙◌, inl, inr, String, arith,
  if◌then◌else◌, Result-cases, Option-cases,
}
use pcie_pool.Common.Int.{ℤ}
use pcie_pool.Common.Dict.{Dict, lookup, insert, erase, modify, lookup-insert, string_eq}
use pcie_pool.Quota.Sums.{map_some, lookup-erase, lookup-modify}
use pcie_pool.OffloadStore.{BlockState, Backing, Block, OffloadStore}
use pcie_pool.OffloadStore.Store
use pcie_pool.OffloadStore.Store.{
  new_block, cleared, in_state, wait_handle, wait_next, wait_from, mark_waited, marked,
}
use pcie_pool.OffloadStore.Spec
use pcie_pool.OffloadStore.Spec.{
  set_to, Entry, View, view, view_of, entry_of, change, update, listed, settled, settled_alone,
  Call, run_call, effect, Partial, Simulates, outcome,
}
use pcie_pool.OffloadStore.Lookups.{view-modify}
use pcie_pool.OffloadStore.Invariant.{
  IsTables, IsValid, insert-IsTables, erase-IsTables, modify-IsTables, new_block-fresh,
  lookup-views_of,
}
use pcie_pool.OffloadStore.Effects.{Follows}

view-insert :
    (name : String) (b : Block) (d : Dict String Block)
    → view_of (insert name b d) ≡ update name (entry_of (some b)) (view_of d)
view-insert name b d = fun_ext λ other. rw (lookup-insert name other b d) (ground arith)

view-erase :
    (name : String) (d : Dict String Block) (views : Dict String String)
    → IsTables d views
    → view_of (erase name d) ≡ update name none (view_of d)
view-erase name d views h = fun_ext λ other. rw (lookup-erase name other d h.keyed) (ground arith)

pub add-Follows :
    (name : String) (on_cpu on_gpu : Option Backing) (id : Option String)
    (cpu_offset gpu_offset : ℤ) (bytes : Option ℤ) (s : OffloadStore)
    → IsValid s
    → Follows
        (Spec.add name on_cpu on_gpu id cpu_offset gpu_offset bytes)
        s
        (Store.add name on_cpu on_gpu id cpu_offset gpu_offset bytes s)
unfolding Store.add
add-Follows name on_cpu on_gpu id cpu_offset gpu_offset bytes s h =
    elim (Result-cases (new_block name on_cpu on_gpu id cpu_offset gpu_offset bytes s)) [
      | inr (e, raised) ↦ rw (raised, Store.add) (h, refl)
      | inl (b, made) ↦
          let fresh = new_block-fresh name on_cpu on_gpu id cpu_offset gpu_offset bytes s b made in
          rw (made, Store.add)
            (
              insert-IsTables name b s.blocks s.block_views fresh.0 fresh.1 h,
              view-insert name b s.blocks ∙ ap (λ entry. update name entry (view s)) fresh.2,
            )
    ]

pub remove-Follows :
    (name : String) (s : OffloadStore)
    → IsValid s
    → Follows (Spec.remove name) s (Store.remove name s)
unfolding Store.remove
remove-Follows name s h = elim (Option-cases (lookup name s.blocks)) [
  | inl missing ↦ rw (missing, Store.remove) (h, refl)
  | inr (b, here) ↦
      let found : lookup name s.block_views ≡ some name =
        rw (h.viewed, lookup-views_of name s.blocks, here) refl in
      rw (here, Store.remove, found)
        (erase-IsTables name s.blocks s.block_views h, view-erase name s.blocks s.block_views h)
]

set_twice :
    (state : BlockState) (o : Option Entry) (here : Bool)
    → (let set = if here then map_some (set_to state false) o else o in
        if here then map_some (λ (e : Entry). (e.0, none)) set else set)
      ≡ (if here then map_some (set_to state true) o else o)
set_twice state none true = refl
set_twice state (some e) true = refl
set_twice state o false = refl

-- Setting the state, and after it clearing the handles where that is asked for.
pub set_block_state-Follows :
    (name : String) (state : BlockState) (clear : Bool) (s : OffloadStore)
    → IsValid s
    → Follows (Spec.set_block_state name state clear) s (Store.set_block_state name state clear s)
unfolding Store.set_block_state Store.clear_block_transfer_state
set_block_state-Follows name state clear s h = elim (Option-cases (lookup name s.blocks)) [
  | inl missing ↦ rw (missing, Store.set_block_state) (h, refl)
  | inr (b, here) ↦ by_clear clear b here
]
  where
    set : Dict String Block
    set = modify name (in_state state) s.blocks

    set-IsTables : IsTables set s.block_views
    set-IsTables =
        modify-IsTables name (in_state state) s.blocks s.block_views (λ b. (refl, λ k. k)) h

    set-view :
        (other : String)
        → view_of set other ≡ change (name ∷ []) (set_to state false) (view s) other
    set-view other =
        view-modify name other (in_state state) (set_to state false) s.blocks (λ b. refl)

    by_clear :
        (clear : Bool) (b : Block)
        → lookup name s.blocks ≡ some b
        → Follows
            (Spec.set_block_state name state clear)
            s
            (Store.set_block_state name state clear s)
    by_clear false b here = rw (here, Store.set_block_state) (set-IsTables, fun_ext set-view)
    by_clear true b here =
        let found : lookup name set ≡ some (in_state state b) =
          rw (lookup-modify name name (in_state state) s.blocks, here)
            (ground (arith, string_eq.beq_iff name name)) in
        rw (here, Store.set_block_state, Store.clear_block_transfer_state, found)
          (
            modify-IsTables name cleared set s.block_views (λ c. (refl, λ k. refl)) set-IsTables,
            fun_ext λ other.
                view-modify name other cleared (λ e. (e.0, none)) set (λ c. refl)
                ∙ ap (λ v. change (name ∷ []) (λ e. (e.0, none)) v other) (fun_ext set-view)
                ∙ set_twice state (view s other) (listed other (name ∷ [])),
          )
