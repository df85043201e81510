-- ===== src/Common/Outcome.antt =====
-- Python's exceptions as values, with the text that the code raises: `ValueError`, `RuntimeError`,
-- `KeyError`, `TypeError` and the program's own error classes.
use Prim.Native.String.{String}
use mathlib.Core.Path.{◌≡◌, refl}
use mathlib.Core.Bool.{Bool, true, false}
use mathlib.Core.Logic.{◌⊎◌, inl, inr}
use native.Mathlib.Omega.{arith}

pub data Error : Type 0 where
  value_error runtime_error key_error type_error pool_error : String → Error

pub data Result {ℓ} (A : Type ℓ) : Type ℓ where
  ok : A → Result A
  err : Error → Result A

-- A step that raises ends the computation.
infixl 5 ◌>>=◌ ◌>>◌
abbrev pub ◌>>=◌ {ℓ ι} : {A : Type ℓ} {B : Type ι} → Result A → (A → Result B) → Result B
err failure >>= rest = err failure
ok value >>= rest = rest value

abbrev pub ◌>>◌ {ℓ} : {B : Type ℓ} → Result (Unit {0}) → Result B → Result B
step >> rest = step >>= λ _. rest

-- `if c: raise e`
abbrev pub raise_if : Bool → Error → Result (Unit {0})
raise_if true e = err e
raise_if false e = ok tt

pub Result-cases {ℓ} :
    {A : Type ℓ} (r : Result A) → ((a : A) × (r ≡ ok a)) ⊎ ((e : Error) × (r ≡ err e))
Result-cases (ok a) = inl (a, refl)
Result-cases (err e) = inr (e, refl)

-- A chain that returns has a first step that returns, and the rest returns on its value.
pub bind-ok {ℓ ι} :
    {A : Type ℓ} {B : Type ι} (r : Result A) (rest : A → Result B) (b : B)
    → (r >>= rest) ≡ ok b
    → (a : A) × (r ≡ ok a) × (rest a ≡ ok b)
bind-ok (ok a) rest b e = (a, refl, e)
bind-ok (err x) rest b e = absurd (ground arith)

pub raise_if-ok {ℓ} :
    {B : Type ℓ} (c : Bool) (x : Error) (rest : Result B) (b : B)
    → (raise_if c x >> rest) ≡ ok b
    → (c ≡ false) × (rest ≡ ok b)
raise_if-ok false x rest b e = (refl, e)
raise_if-ok true x rest b e = absurd (ground arith)
