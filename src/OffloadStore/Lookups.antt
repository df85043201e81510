-- ===== src/OffloadStore/Lookups.antt =====
-- What the writes of the offload store (turbobus/offload/store.py) do to its two tables.
use pcie_pool.Common.{
  List, [], ◌∷◌, Option, none, some, Bool, true, false, ◌||◌, ◌≡◌, refl, String, str_eq, map, arith,
  length, if◌then◌else◌, ok, err,
}
use pcie_pool.Common.Dict.{Dict, lookup, modify, string_eq}
use pcie_pool.Quota.Sums.{map_some, lookup-modify}
use pcie_pool.OffloadStore.{
  BlockState, Operation, prefetch, evict, Handle, Block, OffloadStore, Run,
}
use pcie_pool.OffloadStore.Transfers.{and_then, recorded, record_many, record_each}
use pcie_pool.OffloadStore.Spec.{Entry, view_of, change, entry_of}

-- The rule of the chain: what holds of the first call, and what then holds of both.
pub and_then-rule {ℓ ι κ} :
    {A : Type ℓ} {B : Type ι} (P : Run A → Type κ) (Q : Run B → Type κ) (r : Run A)
    (rest : OffloadStore → A → Run B)
    → P r
    → ((s : OffloadStore) (e : _) → P (s, err e) → Q (s, err e))
    → ((s : OffloadStore) (a : A) → P (s, ok a) → Q (rest s a))
    → Q (and_then r rest)
and_then-rule P Q (s, err e) rest h raised returned = raised s e h
and_then-rule P Q (s, ok a) rest h raised returned = returned s a h

-- A write to the fields of one block is a change of the view at its name.
pub view-modify :
    (name other : String) (f : Block → Block) (g : Entry → Entry) (d : Dict String Block)
    → ((b : Block) → entry_of (some (f b)) ≡ map_some g (entry_of (some b)))
    → view_of (modify name f d) other ≡ change (name ∷ []) g (view_of d) other
view-modify name other f g d h =
    rw (lookup-modify name other f d) (at_entry (lookup other d) (str_eq name other))
  where
    moved : (o : Option Block) → entry_of (map_some f o) ≡ map_some g (entry_of o)
    moved none = refl
    moved (some b) = h b

    at_entry :
        (o : Option Block) (here : Bool)
        → entry_of (if here then map_some f o else o)
          ≡ (if (here || false) then map_some g (entry_of o) else entry_of o)
    at_entry o true = moved o
    at_entry o false = refl

abbrev pub names_of : List Block → List String
names_of blocks = map (λ (b : Block). b.name) blocks

abbrev submitted_as : BlockState → Operation → Entry → Entry
submitted_as state operation _ = (state, some operation)

recorded-entry :
    (handle : Handle) (operation : Operation) (state : BlockState) (b : Block)
    → entry_of (some (recorded handle operation state b)) ≡ some (state, some operation)
recorded-entry handle prefetch state b = refl
recorded-entry handle evict state b = refl

-- `_record_many` changes the blocks that it is given, and no other.
pub view-record_many :
    (blocks : List Block) (handle : Handle) (operation : Operation) (state : BlockState)
    (d : Dict String Block) (other : String)
    → view_of (record_many blocks handle operation state d) other
      ≡ change (names_of blocks) (λ _. (state, some operation)) (view_of d) other
unfolding record_many
view-record_many [] handle operation state d other = refl
view-record_many (b ∷ blocks) handle operation state d other =
    rw
      (
        view-record_many blocks handle operation state
            (modify b.name (recorded handle operation state) d) other,
        view-modify b.name other (recorded handle operation state) (λ _. (state, some operation)) d
            (recorded-entry handle operation state),
      )
      (ground arith)

pub view-record_each :
    (blocks : List Block) (handles : List Handle) (operation : Operation) (state : BlockState)
    (d : Dict String Block) (other : String)
    → length handles ≡ length blocks
    → view_of (record_each blocks handles operation state d) other
      ≡ change (names_of blocks) (λ _. (state, some operation)) (view_of d) other
unfolding record_each
view-record_each [] handles operation state d other h = refl
view-record_each (b ∷ blocks) [] operation state d other h = absurd (ground arith)
view-record_each (b ∷ blocks) (handle ∷ handles) operation state d other h =
    rw
      (
        view-record_each blocks handles operation state
            (record_many (b ∷ []) handle operation state d) other (omega (arith, h)),
        view-record_many (b ∷ []) handle operation state d other,
      )
      (ground arith)
