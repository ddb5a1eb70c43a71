-- ===== src/Prelude/Int.antt =====
-- Signed integers over the native numbers, under the library's names (its ℤ stands on the unary ℕ).
-- Python's `int` and, in a fixed unit, its `Decimal` and `float` values where the program only adds,
-- subtracts, scales and compares them.
use Prim.Native.Nat.{ℕ, suc, ◌+◌, ◌-◌, ◌*◌, ◌≤◌, ◌<◌}
use mathlib.Core.Path.{◌≡◌}
use mathlib.Core.Logic.{◌↔◌}
use mathlib.Core.Bool.{Bool, true, false}
use mathlib.Core.List.{List, [], ◌∷◌, ◌++◌}
use native.Mathlib.Omega.{arith}
use domain_specific_paper_ha.Prelude.Tests.{ltb, leb, ◌==◌, if◌then◌else◌}

-- `negsuc n` is -(n + 1).
pub data ℤ : Type 0 where
  pos : ℕ → ℤ
  negsuc : ℕ → ℤ

abbrev pub pos_part : ℤ → ℕ
pos_part (pos n) = n
pos_part (negsuc n) = 0

abbrev pub neg_part : ℤ → ℕ
neg_part (pos n) = 0
neg_part (negsuc n) = suc n

-- a - b, as an integer.
abbrev pub sub_ℕ : ℕ → ℕ → ℤ
sub_ℕ a b = if leb b a then pos (a - b) else negsuc (b - a - 1)

infixl 65 ◌+ℤ◌ ◌-ℤ◌
infixl 70 ◌*ℤ◌
infix 50 ◌≤ℤ◌ ◌<ℤ◌
unfoldable pub ◌+ℤ◌ : ℤ → ℤ → ℤ
a +ℤ b = sub_ℕ (pos_part a + pos_part b) (neg_part a + neg_part b)

unfoldable pub ◌-ℤ◌ : ℤ → ℤ → ℤ
a -ℤ b = sub_ℕ (pos_part a + neg_part b) (neg_part a + pos_part b)

-- A multiple, with a natural factor.
unfoldable pub ◌*ℤ◌ : ℕ → ℤ → ℤ
n *ℤ b = sub_ℕ (n * pos_part b) (n * neg_part b)

abbrev pub ◌≤ℤ◌ : ℤ → ℤ → Type 0
a ≤ℤ b = pos_part a + neg_part b ≤ pos_part b + neg_part a

abbrev pub ◌<ℤ◌ : ℤ → ℤ → Type 0
a <ℤ b = pos_part a + neg_part b < pos_part b + neg_part a

abbrev pub ltb_ℤ : ℤ → ℤ → Bool
ltb_ℤ a b = ltb (pos_part a + neg_part b) (pos_part b + neg_part a)

abbrev pub leb_ℤ : ℤ → ℤ → Bool
leb_ℤ a b = leb (pos_part a + neg_part b) (pos_part b + neg_part a)

abbrev pub eqb_ℤ : ℤ → ℤ → Bool
eqb_ℤ a b = (pos_part a + neg_part b) == (pos_part b + neg_part a)

-- Python's `min` of two numbers returns the first on a tie.
abbrev pub min_ℤ : ℤ → ℤ → ℤ
min_ℤ a b = if ltb_ℤ b a then b else a

abbrev pub max_ℤ : ℤ → ℤ → ℤ
max_ℤ a b = if ltb_ℤ a b then b else a

-- One lemma for each operation lets `omega` work with the operations shut, at any depth.
pub +ℤ_parts :
    (a b : ℤ)
    → pos_part (a +ℤ b) + neg_part a + neg_part b ≡ neg_part (a +ℤ b) + pos_part a + pos_part b
unfolding ◌+ℤ◌
+ℤ_parts a b = ground arith

pub -ℤ_parts :
    (a b : ℤ)
    → pos_part (a -ℤ b) + neg_part a + pos_part b ≡ neg_part (a -ℤ b) + pos_part a + neg_part b
unfolding ◌-ℤ◌
-ℤ_parts a b = ground arith

pub eq_of_parts : (a b : ℤ) → pos_part a + neg_part b ≡ pos_part b + neg_part a → a ≡ b
eq_of_parts a b h = ground arith

pub ruleset int_laws = (arith, +ℤ_parts, -ℤ_parts, eq_of_parts)

pub eqb_ℤ_iff : (a b : ℤ) → (eqb_ℤ a b ≡ true) ↔ (a ≡ b)
eqb_ℤ_iff a b = (λ h. eq_of_parts a b (ground arith), λ h. ground arith)

pub +ℤ_assoc : (a b c : ℤ) → a +ℤ (b +ℤ c) ≡ a +ℤ b +ℤ c
+ℤ_assoc a b c = omega int_laws

pub *ℤ_nonneg : (n : ℕ) (b : ℤ) → pos 0 ≤ℤ b → pos 0 ≤ℤ n *ℤ b
unfolding ◌*ℤ◌
*ℤ_nonneg n (pos k) h = ground arith
*ℤ_nonneg n (negsuc k) h = absurd (omega arith)

pub neg_part_of_nonneg : (a : ℤ) → pos 0 ≤ℤ a → neg_part a ≡ 0
neg_part_of_nonneg a h = ground arith

-- The sum of a list.
unfoldable pub sum_ℤ : List ℤ → ℤ
sum_ℤ [] = pos 0
sum_ℤ (x ∷ xs) = x +ℤ sum_ℤ xs

pub sum_ℤ-append : (xs ys : List ℤ) → sum_ℤ (xs ++ ys) ≡ sum_ℤ xs +ℤ sum_ℤ ys
unfolding sum_ℤ
sum_ℤ-append [] ys = omega int_laws
sum_ℤ-append (x ∷ xs) ys = rw (sum_ℤ-append xs ys) (+ℤ_assoc x (sum_ℤ xs) (sum_ℤ ys))

-- Python's `min` of several numbers.
abbrev pub min_of : ℤ → List ℤ → ℤ
min_of a [] = a
min_of a (x ∷ xs) = min_of (min_ℤ a x) xs

abbrev pub AtLeast : ℤ → List ℤ → Type 0
AtLeast c [] = Unit
AtLeast c (x ∷ xs) = (c ≤ℤ x) × AtLeast c xs

pub min_of-AtLeast : (c a : ℤ) (xs : List ℤ) → ltb_ℤ (min_of a xs) c ≡ false → AtLeast c (a ∷ xs)
min_of-AtLeast c a [] h = (ground arith, tt)
min_of-AtLeast c a (x ∷ xs) h =
    let (least, rest) = min_of-AtLeast c (min_ℤ a x) xs h in (ground arith, (ground arith, rest))

pub AtLeast-min_of : (c a : ℤ) (xs : List ℤ) → AtLeast c (a ∷ xs) → ltb_ℤ (min_of a xs) c ≡ false
AtLeast-min_of c a [] h = ground arith
AtLeast-min_of c a (x ∷ xs) h = AtLeast-min_of c (min_ℤ a x) xs (ground arith, h.1.1)
