-- ===== src/Ranking/Ratio.antt =====
-- The floats of the scores, as exact ratios of whole numbers; the rounding of floats is not modelled.
use mathlib.Core.Path.{subst}
use domain_specific_paper_ha.Prelude.{
  ◌<◌, zero, suc, refl, Bool-cases, inl, inr, sym, ap, ℕ, ◌+◌, ◌*◌, ◌≤◌, ◌≡◌, Bool, arith, ltb,
  if◌then◌else◌,
}
use domain_specific_paper_ha.Prelude.Int.{ℤ, pos, pos_part, ◌+ℤ◌, ◌*ℤ◌, ltb_ℤ, leb_ℤ}

-- `num / den`, where `den` is positive.
pub record Ratio : Type 0 where
  pub num : ℤ
  pub den : ℕ

abbrev pub whole : ℤ → Ratio
whole n = record { num = n; den = 1 }

-- The quotient of two whole numbers, of which the second is positive.
unfoldable pub quotient : ℤ → ℤ → Ratio
quotient a b = record { num = a; den = pos_part b }

unfoldable pub add : Ratio → Ratio → Ratio
add a b = record { num = (b.den *ℤ a.num) +ℤ (a.den *ℤ b.num); den = a.den * b.den }

-- A product with a weight of so many hundredths.
unfoldable pub weigh : ℕ → Ratio → Ratio
weigh hundredths a = record { num = hundredths *ℤ a.num; den = 100 * a.den }

unfoldable pub halve : Ratio → Ratio
halve a = record { num = a.num; den = 2 * a.den }

abbrev pub leb_ratio : Ratio → Ratio → Bool
leb_ratio a b = leb_ℤ (b.den *ℤ a.num) (a.den *ℤ b.num)

abbrev pub ltb_ratio : Ratio → Ratio → Bool
ltb_ratio a b = ltb_ℤ (b.den *ℤ a.num) (a.den *ℤ b.num)

-- Python's `min` and `max` return the first on a tie.
unfoldable pub min_ratio : Ratio → Ratio → Ratio
min_ratio a b = if ltb_ratio b a then b else a

unfoldable pub max_ratio : Ratio → Ratio → Ratio
max_ratio a b = if ltb_ratio a b then b else a

-- `a` is a ratio between zero and so many hundredths.
pub record IsUpTo (hundredths : ℕ) (a : Ratio) : Type 0 where
  pub proper : 1 ≤ a.den
  pub amount : ℕ
  pub is_amount : a.num ≡ pos amount
  pub below : 100 * amount ≤ hundredths * a.den

-- `a` is a ratio between zero and one.
abbrev pub IsUnit : Ratio → Type 0
IsUnit = IsUpTo 100

pub *ℤ_pos : (n k : ℕ) → n *ℤ pos k ≡ pos (n * k)
unfolding ◌*ℤ◌
*ℤ_pos n k = ground arith

pub +ℤ_pos : (n k : ℕ) → pos n +ℤ pos k ≡ pos (n + k)
unfolding ◌+ℤ◌
+ℤ_pos n k = ground arith

product_positive : (a b : ℕ) → 1 ≤ a → 1 ≤ b → 1 ≤ a * b
product_positive zero b h k = absurd (omega arith)
product_positive (suc a) zero h k = absurd (omega arith)
product_positive (suc a) (suc b) h k = omega arith

scaled : (a b n : ℕ) → a ≤ b → n * a ≤ n * b
scaled a b zero h = omega arith
scaled a b (suc n) h = omega (arith, h, scaled a b n h)

pub add-IsUpTo : (p q : ℕ) (a b : Ratio) → IsUpTo p a → IsUpTo q b → IsUpTo (p + q) (add a b)
unfolding add
add-IsUpTo p q a b h k = record {
  proper = product_positive a.den b.den h.proper k.proper;
  amount = b.den * h.amount + a.den * k.amount;
  is_amount =
      rw (h.is_amount, k.is_amount, *ℤ_pos b.den h.amount, *ℤ_pos a.den k.amount)
        (+ℤ_pos (b.den * h.amount) (a.den * k.amount));
  below =
      let first = scaled (100 * h.amount) (p * a.den) b.den h.below in
      let second = scaled (100 * k.amount) (q * b.den) a.den k.below in
      omega (arith, first, second);
}

pub weigh-IsUpTo : (p : ℕ) (a : Ratio) → IsUnit a → IsUpTo p (weigh p a)
unfolding weigh
weigh-IsUpTo p a h = record {
  proper = omega (arith, h.proper);
  amount = p * h.amount;
  is_amount = rw h.is_amount (*ℤ_pos p h.amount);
  below = let first = scaled (100 * h.amount) (100 * a.den) p h.below in omega (arith, first);
}

pub whole-IsUnit : (n : ℕ) → n ≤ 1 → IsUnit (whole (pos n))
whole-IsUnit n h = record {
  proper = omega arith;
  amount = n;
  is_amount = refl;
  below = omega arith;
}

pub quotient-IsUnit : (a b : ℕ) → a ≤ b → 1 ≤ b → IsUnit (quotient (pos a) (pos b))
unfolding quotient
quotient-IsUnit a b h k = record { proper = k; amount = a; is_amount = refl; below = omega arith }

-- Two ratios of one value.
abbrev pub IsSame : Ratio → Ratio → Type 0
IsSame a b = b.den *ℤ a.num ≡ a.den *ℤ b.num

abbrev of_amount : ℕ → ℕ → Ratio
of_amount n d = record { num = pos n; den = d }

abbrev pub clamp : Ratio → Ratio
clamp a = min_ratio (whole (pos 1)) (max_ratio (whole (pos 0)) a)

max_ratio-zero : (d : ℕ) → max_ratio (whole (pos 0)) (of_amount 0 d) ≡ whole (pos 0)
unfolding max_ratio ◌*ℤ◌
max_ratio-zero d = ground arith

max_ratio-positive :
    (n d : ℕ) → max_ratio (whole (pos 0)) (of_amount (suc n) d) ≡ of_amount (suc n) d
unfolding max_ratio ◌*ℤ◌
max_ratio-positive n d = ground arith

min_ratio-below : (n d : ℕ) → n < d → min_ratio (whole (pos 1)) (of_amount n d) ≡ of_amount n d
unfolding min_ratio ◌*ℤ◌
min_ratio-below n d h = ground arith

min_ratio-full : (d : ℕ) → min_ratio (whole (pos 1)) (of_amount d d) ≡ whole (pos 1)
unfolding min_ratio ◌*ℤ◌
min_ratio-full d = ground arith

-- What `clamp` makes of a ratio between zero and one.
abbrev pub IsClampOf : Ratio → Ratio → Type 0
IsClampOf a c = IsUnit c × IsSame c a

clamp-amount : (n d : ℕ) → 1 ≤ d → n ≤ d → IsClampOf (of_amount n d) (clamp (of_amount n d))
clamp-amount zero d h k = rw (max_ratio-zero d) (
    rw (min_ratio-below 0 1 (omega arith))
      (whole-IsUnit 0 (omega arith), rw (*ℤ_pos d 0, *ℤ_pos 1 0) (ap pos (omega arith))))
clamp-amount (suc n) d h k = elim (Bool-cases (ltb (suc n) d)) [
  | inl less ↦ rw (max_ratio-positive n d) (
      rw (min_ratio-below (suc n) d (ground arith))
        (record { proper = h; amount = suc n; is_amount = refl; below = omega (arith, k) }, refl))
  | inr full ↦
      let same : suc n ≡ d = ground arith in
      rw (max_ratio-positive n d) (
        rw (sym same) (
          rw (min_ratio-full (suc n)) (
            whole-IsUnit 1 (omega arith),
            rw (*ℤ_pos (suc n) 1, *ℤ_pos 1 (suc n)) (ap pos (omega arith)),
          )))
]

pub clamp-IsClampOf : (a : Ratio) → IsUnit a → IsClampOf a (clamp a)
clamp-IsClampOf a h =
    let same : of_amount h.amount a.den ≡ a =
      ap (λ n. record { num = n; den = a.den }) (sym h.is_amount) in
    subst (λ b. IsClampOf b (clamp b)) same
      (clamp-amount h.amount a.den h.proper (omega (arith, h.below)))
