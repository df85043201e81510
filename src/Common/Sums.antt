-- ===== src/Common/Sums.antt =====
-- Sums over lists that are equal up to their order.
use Prim.Native.Nat.{ℕ}
use mathlib.Core.Path.{◌≡◌, refl, ap, ◌∙◌}
use mathlib.Core.Logic.{∥∥₁_elim}
use mathlib.Core.List.{List, Perm, Permᴰ}
use native.Mathlib.Omega.{arith}
use native.Mathlib.Decide.{ℕ_discrete}
use mathlib.Core.HLevel.{hedberg}
use pcie_pool.Common.Lists.{sum_by}

sum_by-permᴰ {ℓ} :
    {A : Type ℓ} (f : A → ℕ) {xs ys : List A} → Permᴰ xs ys → sum_by f xs ≡ sum_by f ys
sum_by-permᴰ f Permᴰ.nil = refl
sum_by-permᴰ f (Permᴰ.cons e p) = omega (arith, ap f e, sum_by-permᴰ f p)
sum_by-permᴰ f (Permᴰ.swap e e₁) = omega (arith, ap f e, ap f e₁)
sum_by-permᴰ f (Permᴰ.trans p q) = sum_by-permᴰ f p ∙ sum_by-permᴰ f q

pub sum_by-perm {ℓ} :
    {A : Type ℓ} (f : A → ℕ) (xs ys : List A) → Perm xs ys → sum_by f xs ≡ sum_by f ys
sum_by-perm f xs ys p = ∥∥₁_elim p (hedberg ℕ_discrete _ _) (λ d. sum_by-permᴰ f d)
