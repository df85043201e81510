-- ===== src/OffloadStore/Effects/Waits.antt =====
-- `wait` and `wait_many` of turbobus/offload/store.py as changes of the view.
use mathlib.Core.Path.{fun_ext}
use pcie_pool.Common.{
  ℕ, List, [], ◌∷◌, Option, none, some, Bool, false, ◌≡◌, refl, sym, ap, ◌∙◌, inl, inr, String,
  str_eq, arith, if◌then◌else◌, ok, err, Option-cases, Bool-cases, any_by, ◌==◌, ◌||◌,
}
use pcie_pool.Common.Entries.{All-lookup}
use pcie_pool.Common.Dict.{lookup, string_eq}
use pcie_pool.Quota.Sums.{map_some}
use pcie_pool.OffloadStore.{Handle, Block, OffloadStore, RuntimeSession, Run}
use pcie_pool.OffloadStore.Store
use pcie_pool.OffloadStore.Store.{new_block, wait_handle, wait_next, wait_from, mark_waited, marked}
use pcie_pool.OffloadStore.Spec
use pcie_pool.OffloadStore.Spec.{
  Entry, View, view, view_of, entry_of, change, update, listed, settled, settled_alone, Call,
  run_call, effect, Partial, Simulates, outcome,
}
use pcie_pool.OffloadStore.Lookups.{and_then-rule, view-modify}
use pcie_pool.OffloadStore.Invariant.{IsValid, IsSound, modify-IsTables}
use pcie_pool.OffloadStore.Effects.{Follows, SameTables, SameTables-IsValid}

pub wait_handle-tables :
    (session : RuntimeSession) (handle : Handle) (s : OffloadStore)
    → SameTables s (wait_handle session handle s).0
unfolding wait_handle
wait_handle-tables session handle s = ground arith

mark_waited-entry :
    (b : Block) → entry_of (some (mark_waited b)) ≡ some (settled (b.state, b.last_operation))
mark_waited-entry b = ground arith

mark_waited-keeps :
    (b : Block) → ((mark_waited b).name ≡ b.name) × (IsSound b → IsSound (mark_waited b))
mark_waited-keeps b = ground arith

-- The block that a wait marks is settled, and no other changes.
marked_follows :
    (name : String) (s t : OffloadStore)
    → SameTables s t
    → IsValid s
    → IsValid (marked name t) × (view (marked name t) ≡ change (name ∷ []) settled (view s))
marked_follows name s t same h = (
  modify-IsTables name mark_waited t.blocks t.block_views mark_waited-keeps
      (SameTables-IsValid s t same h),
  fun_ext λ other.
      view-modify name other mark_waited settled t.blocks mark_waited-entry
      ∙ ap (λ d. change (name ∷ []) settled (view_of d) other) same.0,
)

-- Two changes agree at a name whose entry they agree on.
change-agree :
    (name : String) (f g : Entry → Entry) (v : View) (entry : Entry)
    → v name ≡ some entry
    → f entry ≡ g entry
    → change (name ∷ []) f v ≡ change (name ∷ []) g v
change-agree name f g v entry here same = fun_ext λ other. elim (Bool-cases (str_eq name other)) [
  | inr other_name ↦ rw other_name refl
  | inl equal ↦
      rw (equal, ← (string_eq.beq_iff name other).0 equal, here) (ap (λ (x : Entry). some x) same)
]

change-unmoved :
    (name : String) (f : Entry → Entry) (v : View) (entry : Entry)
    → v name ≡ some entry
    → f entry ≡ entry
    → v ≡ change (name ∷ []) f v
change-unmoved name f v entry here same = fun_ext λ other. elim (Bool-cases (str_eq name other)) [
  | inr other_name ↦ rw other_name refl
  | inl equal ↦
      rw (equal, ← (string_eq.beq_iff name other).0 equal, here)
        (ap (λ (x : Entry). some x) (sym same))
]

pub wait-Follows :
    (session : RuntimeSession) (name : String) (s : OffloadStore)
    → IsValid s
    → Follows (Spec.wait session name) s (Store.wait session name s)
unfolding Store.wait
wait-Follows session name s h = elim (Option-cases (lookup name s.blocks)) [
  | inl missing ↦ rw (missing, Store.wait) (h, refl)
  | inr (b, here) ↦
      let sound = All-lookup (λ (p : String × Block). IsSound p.1) name b s.blocks here h.sound in
      elim (Option-cases b.last_handle) [
        | inl fresh ↦
            rw (here, Store.wait, fresh)
              (
                h,
                change-unmoved name settled_alone (view s) (b.state, b.last_operation)
                    (ap entry_of here) (ground (arith, sound, fresh)),
              )
        | inr (handle, last) ↦
            rw (here, Store.wait, last)
              (and_then-rule (λ r. SameTables s r.0) (Follows (Spec.wait session name) s)
                (wait_handle session handle s) _ (wait_handle-tables session handle s)
                (λ t e same. (SameTables-IsValid s t same h, ap view_of same.0))
                (λ t done same.
                  let now = marked_follows name s t same h in
                  (
                    now.0,
                    now.1
                        ∙ change-agree name settled settled_alone (view s)
                            (b.state, b.last_operation) (ap entry_of here)
                            (ground (arith, sound, last)),
                  )))
      ]
]

wait_next-tables :
    (session : RuntimeSession) (seen : List ℕ) (last : Option Handle) (s : OffloadStore)
    → SameTables s (wait_next session seen last s).0
unfolding wait_next
wait_next-tables session seen none s = (refl, refl)
wait_next-tables session seen (some handle) s =
    elim (Bool-cases (any_by (λ n. n == handle.number) seen)) [
      | inl known ↦ rw (known, wait_next) (refl, refl)
      | inr new ↦
          rw (new, wait_next)
            (and_then-rule (λ r. SameTables s r.0) (λ r. SameTables s r.0)
              (wait_handle session handle s) _ (wait_handle-tables session handle s)
              (λ t e same. same) (λ t done same. same))
    ]

settled_twice : (e : Entry) → settled (settled e) ≡ settled e
settled_twice e = ground arith

change-cons :
    (name : String) (names : List String) (v : View)
    → change names settled (change (name ∷ []) settled v) ≡ change (name ∷ names) settled v
change-cons name names v =
    fun_ext λ other. at other (v other) (str_eq name other) (listed other names)
  where
    at :
        (other : String) (entry : Option Entry) (here later : Bool)
        → (if later
            then map_some settled (if (here || false) then map_some settled entry else entry)
            else if (here || false)
            then map_some settled entry
            else entry)
          ≡ (if (here || later) then map_some settled entry else entry)
    at other none here later = ground arith
    at other (some e) here later = ground (arith, settled_twice e)

-- The rest of a `wait_many`, after the block in front is settled.
later-Follows :
    (session : RuntimeSession) (name : String) (names : List String) (s t : OffloadStore)
    (r : Run (Unit {0}))
    → view t ≡ change (name ∷ []) settled (view s)
    → Follows (Spec.wait_many session names) t r
    → Follows (Spec.wait_many session (name ∷ names)) s r
later-Follows session name names s t (u, ok done) e h =
    (h.0, h.1 ∙ ap (change names settled) e ∙ change-cons name names (view s))
later-Follows session name names s t (u, err failure) e (valid, (front, rest, split, now)) = (
  valid,
  (
    name ∷ front,
    rest,
    ap (λ xs. name ∷ xs) split,
    now ∙ ap (change front settled) e ∙ change-cons name front (view s),
  ),
)

pub wait_from-Follows :
    (session : RuntimeSession) (seen : List ℕ) (names : List String) (s : OffloadStore)
    → IsValid s
    → Follows (Spec.wait_many session names) s (wait_from session seen names s)
unfolding wait_from
wait_from-Follows session seen [] s h = (h, refl)
wait_from-Follows session seen (name ∷ names) s h = elim (Option-cases (lookup name s.blocks)) [
  | inl missing ↦ rw (missing, wait_from) (h, ([], name ∷ names, refl, refl))
  | inr (b, here) ↦
      rw (here, wait_from)
        (and_then-rule (λ r. SameTables s r.0) (Follows (Spec.wait_many session (name ∷ names)) s)
          (wait_next session seen b.last_handle s) _ (wait_next-tables session seen b.last_handle s)
          (λ t e same. (SameTables-IsValid s t same h, ([], name ∷ names, refl, ap view_of same.0)))
          (λ t now same.
            let next = marked_follows name s t same h in
            later-Follows session name names s (marked name t)
              (wait_from session now names (marked name t)) next.1
              (wait_from-Follows session now names (marked name t) next.0)))
]
