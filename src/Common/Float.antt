-- ===== src/Common/Float.antt =====
-- Python's `float` as the type and the operations that the code applies to it. The proofs use no
-- law of floating-point arithmetic; where one needs the order, the laws are hypotheses by name.
use Prim.Native.Nat.{ℕ, ◌+◌, ◌*◌, ◌/◌}
use mathlib.Core.Bool.{Bool}
use pcie_pool.Common.Tests.{ltb, leb, ◌==◌, if◌then◌else◌}

pub record FloatOps (F : Type 0) : Type 0 where
  pub zero_f : F
  pub one_f : F
  -- 4.0, the bound on a runtime pressure; 1e9, the bytes in a gigabyte; 1e-12, the least weight.
  pub four_f : F
  pub giga : F
  pub tiny : F
  pub infinity : F
  pub of_ℕ : ℕ → F
  pub add : F → F → F
  pub mul : F → F → F
  pub div : F → F → F
  pub lt : F → F → Bool
  pub le : F → F → Bool
  pub eq : F → F → Bool

module _ {F : Type 0} ⦃f : FloatOps F⦄ where
  -- Python's `max(a, b)` returns `b` only if it is greater, and `min(a, b)` only if it is less.
  unfoldable pub fmax : F → F → F
  fmax a b = if f.lt a b then b else a

  unfoldable pub fmin : F → F → F
  fmin a b = if f.lt b a then b else a

  -- Python's `x or y` on floats.
  unfoldable pub or_else : F → F → F
  or_else x y = if f.eq x f.zero_f then y else x

-- Whole numbers in millionths, for the tests: `of_ℕ` scales, and a quotient is rounded down.
abbrev pub millionths : FloatOps ℕ
millionths = record {
  zero_f = 0;
  one_f = 1000000;
  four_f = 4000000;
  giga = 1000000000000000;
  tiny = 1;
  infinity = 1000000000000000000000000;
  of_ℕ = λ n. n * 1000000;
  add = λ a b. a + b;
  mul = λ a b. a * b / 1000000;
  div = λ a b. a * 1000000 / b;
  lt = ltb;
  le = leb;
  eq = ◌==◌;
}
