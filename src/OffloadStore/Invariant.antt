-- ===== src/OffloadStore/Invariant.antt =====
-- What always holds of the two tables of the offload store (turbobus/offload/store.py).
use pcie_pool.Common.{
  List, [], ◌∷◌, Option, none, some, Bool, true, false, ◌≡◌, refl, String, map, arith, All, ok,
}
use pcie_pool.Common.Dict.{Dict, IsKeyed, lookup, insert, erase, modify, insert-IsKeyed, string_eq}
use pcie_pool.Common.Entries.{All-insert, All-erase, All-modify}
use pcie_pool.Quota.Sums.{modify-IsKeyed, erase-IsKeyed}
use pcie_pool.OffloadStore.{
  BlockState, Operation, prefetch, evict, Handle, Block, OffloadStore, TransferContext,
}
use pcie_pool.OffloadStore.Transfers.{recorded, record_many, record_each}
use pcie_pool.OffloadStore.Store.{new_store, new_block}
use pcie_pool.OffloadStore.Blocks.{offload_block}
use pcie_pool.OffloadStore.Spec.{entry_of}
use pcie_pool.Common.{◌∙◌}
use pcie_pool.Common.Int.{ℤ}
use pcie_pool.OffloadStore.{cpu, Backing}

abbrev pub is_set {ℓ} : {A : Type ℓ} → Option A → Bool
is_set none = false
is_set (some a) = true

-- The block object under a name has that name, and a handle just where it has an operation.
abbrev pub IsSound : Block → Type 0
IsSound b = is_set b.last_handle ≡ is_set b.last_operation

abbrev pub views_of : Dict String Block → Dict String String
views_of d = map (λ p. (p.0, p.0)) d

pub record IsTables (blocks : Dict String Block) (views : Dict String String) : Type 0 where
  pub keyed : IsKeyed blocks
  pub viewed : views ≡ views_of blocks
  pub named : All (λ p. p.1.name ≡ p.0) blocks
  pub sound : All (λ p. IsSound p.1) blocks

abbrev pub IsValid : OffloadStore → Type 0
IsValid s = IsTables s.blocks s.block_views

views_of-insert :
    (name : String) (b : Block) (d : Dict String Block)
    → insert name name (views_of d) ≡ views_of (insert name b d)
unfolding insert
views_of-insert name b [] = refl
views_of-insert name b ((k, c) ∷ d) =
    ground (arith, views_of-insert name b d, string_eq.beq_iff k name)

views_of-erase :
    (name : String) (d : Dict String Block) → erase name (views_of d) ≡ views_of (erase name d)
unfolding erase
views_of-erase name [] = refl
views_of-erase name ((k, c) ∷ d) = ground (arith, views_of-erase name d)

views_of-modify :
    (name : String) (f : Block → Block) (d : Dict String Block)
    → views_of (modify name f d) ≡ views_of d
unfolding modify
views_of-modify name f [] = refl
views_of-modify name f ((k, c) ∷ d) = ground (arith, views_of-modify name f d)

-- A view is found where its block is.
pub lookup-views_of :
    (name : String) (d : Dict String Block)
    → lookup name (views_of d) ≡ (elim (lookup name d) [ none ↦ none | some b ↦ some name ])
unfolding lookup
lookup-views_of name [] = refl
lookup-views_of name ((k, c) ∷ d) = ground (arith, lookup-views_of name d, string_eq.beq_iff k name)

pub insert-IsTables :
    (name : String) (b : Block) (d : Dict String Block) (views : Dict String String)
    → b.name ≡ name
    → IsSound b
    → IsTables d views
    → IsTables (insert name b d) (insert name name views)
insert-IsTables name b d views e sound h = record {
  keyed = insert-IsKeyed name b d h.keyed;
  viewed = rw h.viewed (views_of-insert name b d);
  named = All-insert (λ (p : String × Block). p.1.name ≡ p.0) name b d e h.named;
  sound = All-insert (λ (p : String × Block). IsSound p.1) name b d sound h.sound;
}

pub erase-IsTables :
    (name : String) (d : Dict String Block) (views : Dict String String)
    → IsTables d views
    → IsTables (erase name d) (erase name views)
erase-IsTables name d views h = record {
  keyed = erase-IsKeyed name d h.keyed;
  viewed = rw h.viewed (views_of-erase name d);
  named = All-erase (λ (p : String × Block). p.1.name ≡ p.0) name d h.named;
  sound = All-erase (λ (p : String × Block). IsSound p.1) name d h.sound;
}

-- A write to fields that keeps the name, and the handle together with the operation.
pub modify-IsTables :
    (name : String) (f : Block → Block) (d : Dict String Block) (views : Dict String String)
    → ((b : Block) → ((f b).name ≡ b.name) × (IsSound b → IsSound (f b)))
    → IsTables d views
    → IsTables (modify name f d) views
modify-IsTables name f d views keep h = record {
  keyed = modify-IsKeyed name f d h.keyed;
  viewed = rw (views_of-modify name f d) h.viewed;
  named =
      All-modify (λ (p : String × Block). p.1.name ≡ p.0) name f d (λ j b e. (keep b).0 ∙ e)
        h.named;
  sound = All-modify (λ (p : String × Block). IsSound p.1) name f d (λ j b. (keep b).1) h.sound;
}

recorded-keeps :
    (handle : Handle) (operation : Operation) (state : BlockState) (b : Block)
    → ((recorded handle operation state b).name ≡ b.name)
      × (IsSound b → IsSound (recorded handle operation state b))
recorded-keeps handle prefetch state b = (refl, λ _. refl)
recorded-keeps handle evict state b = (refl, λ _. refl)

pub record_many-IsTables :
    (blocks : List Block) (handle : Handle) (operation : Operation) (state : BlockState)
    (d : Dict String Block) (views : Dict String String)
    → IsTables d views
    → IsTables (record_many blocks handle operation state d) views
unfolding record_many
record_many-IsTables [] handle operation state d views h = h
record_many-IsTables (b ∷ blocks) handle operation state d views h =
    record_many-IsTables blocks handle operation state _ views (
      modify-IsTables b.name (recorded handle operation state) d views
        (recorded-keeps handle operation state) h)

pub record_each-IsTables :
    (blocks : List Block) (handles : List Handle) (operation : Operation) (state : BlockState)
    (d : Dict String Block) (views : Dict String String)
    → IsTables d views
    → IsTables (record_each blocks handles operation state d) views
unfolding record_each
record_each-IsTables [] handles operation state d views h = h
record_each-IsTables (b ∷ blocks) [] operation state d views h = h
record_each-IsTables (b ∷ blocks) (handle ∷ handles) operation state d views h =
    record_each-IsTables blocks handles operation state _ views
      (record_many-IsTables (b ∷ []) handle operation state d views h)

pub new_store-IsValid : (context : TransferContext) → IsValid (new_store context)
unfolding new_store
new_store-IsValid context = record { keyed = tt; viewed = refl; named = tt; sound = tt }

-- The block that `add` makes has its name, and neither a handle nor an operation.
pub new_block-fresh :
    (name : String) (on_cpu on_gpu : Option Backing) (id : Option String)
    (cpu_offset gpu_offset : ℤ) (bytes : Option ℤ) (s : OffloadStore) (b : Block)
    → new_block name on_cpu on_gpu id cpu_offset gpu_offset bytes s ≡ ok b
    → (b.name ≡ name) × IsSound b × (entry_of (some b) ≡ some (cpu, none))
unfolding new_block offload_block
new_block-fresh name on_cpu on_gpu id cpu_offset gpu_offset bytes s b e = ground arith
