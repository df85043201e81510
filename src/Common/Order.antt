-- ===== src/Common/Order.antt =====
-- `sorted` on texts: insertion into a list that is in order, by the code points.
use Prim.Native.String.{String, compare}
use Prim.Native.Nat.{Ordering}
use mathlib.Core.Bool.{Bool, true, false}
use mathlib.Core.List.{List, [], ◌∷◌}
use mathlib.Core.List.{Perm}
use mathlib.Core.List.Perm
use mathlib.Core.Bool.{◌||◌}
use mathlib.Core.Path.{◌≡◌, refl, ap, ◌∙◌}
use native.Mathlib.Omega.{arith}
use pcie_pool.Common.Lists.{any_by}
use pcie_pool.Common.Tests.{if◌then◌else◌, Bool-cases}
use mathlib.Core.Logic.{inl, inr}

unfoldable pub str_le : String → String → Bool
str_le s t = elim (compare s t) [ Ordering.gt ↦ false | _ ↦ true ]

insert_sorted : String → List String → List String
insert_sorted s [] = s ∷ []
insert_sorted s (t ∷ ts) = if str_le s t then s ∷ t ∷ ts else t ∷ insert_sorted s ts

unfoldable pub sorted : List String → List String
unfolding insert_sorted str_le
sorted [] = []
sorted (s ∷ ss) = insert_sorted s (sorted ss)

insert_sorted-perm : (s : String) (ts : List String) → Perm (insert_sorted s ts) (s ∷ ts)
unfolding insert_sorted
insert_sorted-perm s [] = Perm.refl _
insert_sorted-perm s (t ∷ ts) = elim (Bool-cases (str_le s t)) [
  | inl le ↦ rw le (Perm.refl _)
  | inr gt ↦ rw gt (Perm.trans (Perm.cons t (insert_sorted-perm s ts)) (Perm.swap s t ts))
]

-- Sorting keeps the items, as often as they occur.
pub sorted-perm : (ss : List String) → Perm (sorted ss) ss
unfolding sorted
sorted-perm [] = Perm.refl _
sorted-perm (s ∷ ss) = Perm.trans (insert_sorted-perm s (sorted ss)) (Perm.cons s (sorted-perm ss))

any_by-insert_sorted :
    (p : String → Bool) (s : String) (ts : List String)
    → any_by p (insert_sorted s ts) ≡ (p s || any_by p ts)
unfolding insert_sorted
any_by-insert_sorted p s [] = refl
any_by-insert_sorted p s (t ∷ ts) = ground (arith, any_by-insert_sorted p s ts)

-- Sorting neither adds a text nor loses one.
pub any_by-sorted : (p : String → Bool) (ss : List String) → any_by p (sorted ss) ≡ any_by p ss
unfolding sorted
any_by-sorted p [] = refl
any_by-sorted p (s ∷ ss) =
    any_by-insert_sorted p s (sorted ss) ∙ ap (λ b. p s || b) (any_by-sorted p ss)
