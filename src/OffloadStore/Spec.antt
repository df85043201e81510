-- ===== src/OffloadStore/Spec.antt =====
-- What a client of the offload store can observe of turbobus/offload/store.py: for each name the
-- block's state and its last operation. Each call is a change of that function.
use pcie_pool.Common.{
  List, [], ◌∷◌, ◌++◌, Option, none, some, Bool, true, false, ◌≡◌, String, str_eq, any_by,
  if◌then◌else◌, Result, ok, err,
}
use pcie_pool.Common.Int.{ℤ}
use pcie_pool.Common.Dict.{Dict, lookup, string_eq}
use pcie_pool.Quota.Sums.{map_some}
use pcie_pool.OffloadStore.{
  BlockState, cpu, gpu, unknown, Operation, prefetch, evict, Backing, Block, OffloadStore,
  RuntimeSession,
}
use pcie_pool.OffloadStore.Transfers
use pcie_pool.OffloadStore.Transfers.{submitting}
use pcie_pool.OffloadStore.Store

abbrev pub Entry : Type 0
Entry = BlockState × Option Operation

abbrev pub View : Type 0
View = String → Option Entry

abbrev pub entry_of : Option Block → Option Entry
entry_of none = none
entry_of (some b) = some (b.state, b.last_operation)

abbrev pub view_of : Dict String Block → View
view_of d name = entry_of (lookup name d)

abbrev pub view : OffloadStore → View
view s = view_of s.blocks

abbrev pub listed : String → List String → Bool
listed name names = any_by (λ n. str_eq n name) names

-- The view with the entries under the listed names replaced by their images.
abbrev pub change : List String → (Entry → Entry) → View → View
change names f v name = if listed name names then map_some f (v name) else v name

abbrev pub update : String → Option Entry → View → View
update name entry v other = if str_eq name other then entry else v other

-- A block whose transfer is waited for: where its last operation leads to.
abbrev pub settled : Entry → Entry
settled (state, none) = (unknown, none)
settled (state, some prefetch) = (gpu, some prefetch)
settled (state, some evict) = (cpu, some evict)

-- `wait` does nothing for a block that was never transferred.
abbrev pub settled_alone : Entry → Entry
settled_alone (state, none) = (state, none)
settled_alone (state, some operation) = settled (state, some operation)

abbrev pub set_to : BlockState → Bool → Entry → Entry
set_to state clear entry = (state, if clear then none else entry.1)

-- The calls of a client.
pub data Call : Type 0 where
  add : String → Option Backing → Option Backing → Option String → ℤ → ℤ → Option ℤ → Call
  remove : String → Call
  submit : RuntimeSession → List String → Operation → Call
  wait : RuntimeSession → String → Call
  wait_many : RuntimeSession → List String → Call
  set_block_state : String → BlockState → Bool → Call

-- The store after a call, and whether the call returned.
abbrev pub outcome {ℓ} : {A : Type ℓ} → OffloadStore × Result A → OffloadStore × Bool
outcome (s, ok a) = (s, true)
outcome (s, err e) = (s, false)

unfoldable pub run_call : Call → OffloadStore → OffloadStore × Bool
unfolding Store.add Store.remove Transfers.submit_many Store.wait Store.wait_many
    Store.set_block_state
run_call (add name on_cpu on_gpu id cpu_offset gpu_offset bytes) s =
    outcome (Store.add name on_cpu on_gpu id cpu_offset gpu_offset bytes s)
run_call (remove name) s = outcome (Store.remove name s)
run_call (submit session names operation) s =
    outcome (Transfers.submit_many session names operation s)
run_call (wait session name) s = outcome (Store.wait session name s)
run_call (wait_many session names) s = outcome (Store.wait_many session names s)
run_call (set_block_state name state clear) s = outcome (Store.set_block_state name state clear s)

-- What a call that returned did to the view.
abbrev pub effect : Call → View → View
effect (add name _ _ _ _ _ _) v = update name (some (cpu, none)) v
effect (remove name) v = update name none v
effect (submit _ names operation) v = change names (λ _. (submitting operation, some operation)) v
effect (wait _ name) v = change (name ∷ []) settled_alone v
effect (wait_many _ names) v = change names settled v
effect (set_block_state name state clear) v = change (name ∷ []) (set_to state clear) v

-- What a call that raised left behind: nothing, or for `wait_many` the blocks it had come to.
abbrev pub Partial : Call → View → View → Type 0
Partial (wait_many _ names) v w =
    (front : List String) × (rest : List String) × (names ≡ front ++ rest)
    × (w ≡ change front settled v)
Partial _ v w = w ≡ v

abbrev pub Simulates : Call → View → View → Bool → Type 0
Simulates call v w true = w ≡ effect call v
Simulates call v w false = Partial call v w
