-- ===== src/Common/Dict.antt =====
-- A Python dict in insertion order, keyed by any type with a Boolean equality.
use Prim.Native.Nat.{ℕ}
use Prim.Native.String.{String}
use mathlib.Core.Path.{◌≡◌, refl}
use native.Mathlib.Omega.{arith}
use mathlib.Core.Logic.{◌↔◌, inl, inr}
use mathlib.Core.Bool.{Bool, true, false, ◌||◌}
use mathlib.Core.Option.{Option, none, some}
use mathlib.Core.List.{List, [], ◌∷◌, map}
use pcie_pool.Common.Tests.{◌==◌, if◌then◌else◌, str_eq, str_eq_iff, Bool-cases}
use pcie_pool.Common.Int.{ℤ, eqb_ℤ, eqb_ℤ_iff}

pub record Eq {ℓ} (A : Type ℓ) : Type ℓ where
  pub beq : A → A → Bool
  pub beq_iff : (x y : A) → (beq x y ≡ true) ↔ (x ≡ y)

instance abbrev pub string_eq : Eq String
string_eq = record { beq = str_eq; beq_iff = str_eq_iff }

instance abbrev pub int_eq : Eq ℤ
int_eq = record { beq = eqb_ℤ; beq_iff = eqb_ℤ_iff }

pub nat_eq_iff : (m n : ℕ) → ((m == n) ≡ true) ↔ (m ≡ n)
nat_eq_iff m n = ground arith

instance abbrev pub nat_eq : Eq ℕ
nat_eq = record { beq = ◌==◌; beq_iff = nat_eq_iff }

abbrev pub Dict {ℓ κ} : Type ℓ → Type κ → Type (ℓ ⊔ κ)
Dict K V = List (K × V)

module _ {ℓ κ} {K : Type ℓ} {V : Type κ} ⦃e : Eq K⦄ where
  -- `d.get(k)`
  unfoldable pub lookup : K → Dict K V → Option V
  lookup k [] = none
  lookup k ((j, v) ∷ d) = if e.beq j k then some v else lookup k d

  -- `d[k] = v`: in place where the key is known, else at the end.
  unfoldable pub insert : K → V → Dict K V → Dict K V
  insert k v [] = (k, v) ∷ []
  insert k v ((j, w) ∷ d) = if e.beq j k then (j, v) ∷ d else (j, w) ∷ insert k v d

  -- `d.pop(k, None)`, without the value.
  unfoldable pub erase : K → Dict K V → Dict K V
  erase k [] = []
  erase k ((j, w) ∷ d) = if e.beq j k then d else (j, w) ∷ erase k d

  -- `d[k]` replaced by its image, where the key is known: a write to a field of the stored object.
  unfoldable pub modify : K → (V → V) → Dict K V → Dict K V
  modify k f [] = []
  modify k f ((j, w) ∷ d) = if e.beq j k then (j, f w) ∷ d else (j, w) ∷ modify k f d

  -- `k in d`
  unfoldable pub contains : K → Dict K V → Bool
  contains k [] = false
  contains k ((j, v) ∷ d) = e.beq j k || contains k d

  -- No key occurs twice, which a Python dict has by construction.
  abbrev pub IsKeyed : Dict K V → Type 0
  IsKeyed [] = Unit
  IsKeyed ((k, v) ∷ d) = (contains k d ≡ false) × IsKeyed d

  pub lookup-insert :
      (k j : K) (v : V) (d : Dict K V)
      → lookup j (insert k v d) ≡ (if e.beq k j then some v else lookup j d)
  unfolding lookup insert
  lookup-insert k j v [] = refl
  lookup-insert k j v ((i, w) ∷ d) =
      ground (arith, e.beq_iff k j, e.beq_iff i k, e.beq_iff i j, lookup-insert k j v d)

  pub contains-lookup : (k : K) (d : Dict K V) → contains k d ≡ false → lookup k d ≡ none
  unfolding contains lookup
  contains-lookup k [] h = refl
  contains-lookup k ((j, v) ∷ d) h = ground (arith, contains-lookup k d)

  pub contains-found :
      (k : K) (d : Dict K V) → contains k d ≡ true → (v : V) × (lookup k d ≡ some v)
  unfolding contains lookup
  contains-found k [] h = absurd (ground arith)
  contains-found k ((j, w) ∷ d) h = elim (Bool-cases (e.beq j k)) [
    | inl same ↦ (w, rw same refl)
    | inr other ↦
        let found = contains-found k d (ground (arith, h, other)) in (found.0, rw other found.1)
  ]

  pub contains-insert :
      (k j : K) (v : V) (d : Dict K V) → contains j (insert k v d) ≡ (e.beq k j || contains j d)
  unfolding contains insert
  contains-insert k j v [] = refl
  contains-insert k j v ((i, w) ∷ d) =
      ground (arith, e.beq_iff k j, e.beq_iff i k, e.beq_iff i j, contains-insert k j v d)

  -- A write keeps the keys distinct.
  pub insert-IsKeyed : (k : K) (v : V) (d : Dict K V) → IsKeyed d → IsKeyed (insert k v d)
  unfolding insert contains
  insert-IsKeyed k v [] h = (refl, tt)
  insert-IsKeyed k v ((j, w) ∷ d) h =
      ground
        (arith, e.beq_iff j k, e.beq_iff k j, contains-insert k j v d, insert-IsKeyed k v d h.1)

abbrev pub keys {ℓ κ} : {K : Type ℓ} {V : Type κ} → Dict K V → List K
keys d = map (λ p. p.0) d

abbrev pub values {ℓ κ} : {K : Type ℓ} {V : Type κ} → Dict K V → List V
values d = map (λ p. p.1) d
