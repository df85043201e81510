-- ===== src/Common/Text.antt =====
-- Python's `str(n)` of a natural number and of an integer, and the concatenation of an f-string.
use Prim.Native.Nat.{ℕ, zero, suc, ◌+◌, ◌-◌, ◌*◌, ◌/◌, ◌%◌, ◌<◌}
use Prim.Native.Char.{Char, code}
use Prim.Native.String.{String}
use Prim.Native.String
use mathlib.Core.Path.{◌≡◌, refl, sym, ap, ◌∙◌}
use mathlib.Core.Logic.{inl, inr}
use native.Mathlib.Omega.{arith}
use mathlib.Core.Bool.{◌&&◌}
use pcie_pool.Common.Tests.{ltb, leb, if◌then◌else◌, Bool-cases}
use pcie_pool.Common.Int.{ℤ, pos, negsuc}

infixr 65 ◌^^◌
abbrev pub ◌^^◌ : String → String → String
s ^^ t = String.◌++◌ s t

digit : ℕ → Char
digit zero = "0"
digit (suc zero) = "1"
digit (suc (suc zero)) = "2"
digit (suc (suc (suc zero))) = "3"
digit (suc (suc (suc (suc zero)))) = "4"
digit (suc (suc (suc (suc (suc zero))))) = "5"
digit (suc (suc (suc (suc (suc (suc zero)))))) = "6"
digit (suc (suc (suc (suc (suc (suc (suc zero))))))) = "7"
digit (suc (suc (suc (suc (suc (suc (suc (suc zero)))))))) = "8"
digit _ = "9"

-- The digits of a number in front of a text. One digit is written for each unit of fuel.
emit : ℕ → ℕ → String → String
emit zero n s = s
emit (suc f) n s =
    let rest = emit f (n / 10) (String.◌∷◌ (digit (n % 10)) s) in
    if ltb n 10 then String.◌∷◌ (digit n) s else rest

-- `str(n)`: a number has no more digits than units, and one at least.
unfoldable pub show_ℕ : ℕ → String
unfolding emit digit
show_ℕ n = emit (suc n) n ""

unfoldable pub show_ℤ : ℤ → String
unfolding show_ℕ
show_ℤ (pos n) = show_ℕ n
show_ℤ (negsuc n) = "-" ^^ show_ℕ (suc n)

-- The number that a text of digits stands for, after the digits already read.
value : ℕ → String → ℕ
value acc String.[] = acc
value acc (String.◌∷◌ c s) = value (acc * 10 + (code c - 48)) s

digit-code : (d : ℕ) → d < 10 → code (digit d) ≡ 48 + d
unfolding digit
digit-code zero h = refl
digit-code (suc zero) h = refl
digit-code (suc (suc zero)) h = refl
digit-code (suc (suc (suc zero))) h = refl
digit-code (suc (suc (suc (suc zero)))) h = refl
digit-code (suc (suc (suc (suc (suc zero))))) h = refl
digit-code (suc (suc (suc (suc (suc (suc zero)))))) h = refl
digit-code (suc (suc (suc (suc (suc (suc (suc zero))))))) h = refl
digit-code (suc (suc (suc (suc (suc (suc (suc (suc zero)))))))) h = refl
digit-code (suc (suc (suc (suc (suc (suc (suc (suc (suc zero))))))))) h = refl
digit-code (suc (suc (suc (suc (suc (suc (suc (suc (suc (suc n)))))))))) h = absurd (omega arith)

value-emit : (f n : ℕ) (s : String) → n < f → value 0 (emit f n s) ≡ value n s
unfolding value emit
value-emit zero n s h = absurd (omega arith)
value-emit (suc f) n s h = elim (Bool-cases (ltb n 10)) [
  | inl small ↦ rw small (ap (λ k. value k s) (omega (arith, digit-code n (ground arith))))
  | inr big ↦
      rw (big, value-emit f (n / 10) (String.◌∷◌ (digit (n % 10)) s) (ground arith))
        (ap (λ k. value k s) (omega (arith, digit-code (n % 10) (omega arith))))
]

-- Two numbers that print alike are the same number.
pub show_ℕ-injective : (m n : ℕ) → show_ℕ m ≡ show_ℕ n → m ≡ n
unfolding show_ℕ value
show_ℕ-injective m n h =
    sym (value-emit (suc m) m "" (omega arith))
    ∙ ap (value 0) h
    ∙ value-emit (suc n) n "" (omega arith)

-- The character at a place in a text, and a default past its end.
char_or : Char → ℕ → String → Char
char_or d i String.[] = d
char_or d zero (String.◌∷◌ c s) = c
char_or d (suc i) (String.◌∷◌ c s) = char_or d i s

lower_char : Char → Char
unfolding char_or
lower_char c =
    if leb b'A' (code c) && leb (code c) b'Z'
    then char_or c (code c - b'A') "abcdefghijklmnopqrstuvwxyz"
    else c

-- Python's `str.lower`, on ASCII letters; other characters stay.
unfoldable pub lower : String → String
unfolding lower_char
lower String.[] = ""
lower (String.◌∷◌ c s) = String.◌∷◌ (lower_char c) (lower s)
