-- ===== src/Trends/Accepted.antt =====
-- What `trend_change` computes is always a consistent change, with the growth rounded to the nearest
-- millionth where the samples are large enough.
use domain_specific_paper_ha.Prelude.{
  ℕ, suc, ◌-◌, ◌*◌, ◌≤◌, ◌≡◌, refl, inl, inr, Bool, ◌||◌, Option, none, some, arith, ◌==◌, is_some,
  if◌then◌else◌, Bool-cases,
}
use domain_specific_paper_ha.Prelude.Int.{
  ℤ, pos, negsuc, sub_ℕ, ◌+ℤ◌, ◌-ℤ◌, ltb_ℤ, pos_part, neg_part, int_laws,
}
use domain_specific_paper_ha.Prelude.Round.{half_even, IsNearest, half_even-IsNearest}
use domain_specific_paper_ha.Result.{ok}
use domain_specific_paper_ha.Trends.Change.{
  TrendThresholds, TrendChange, TrendGrowthStatus, make_change, change_checks, quantized,
  trend_change, available, zero_denominator, limited_sample, is_available,
}

-- Up or down, to the nearest millionth.
pub record IsGrowth (current preceding : ℕ) (r : ℤ) : Type 0 where
  pub up : IsNearest ((current - preceding) * 1000000) preceding (pos_part r)
  pub down : IsNearest ((preceding - current) * 1000000) preceding (neg_part r)

sub_ℕ-zero : (n : ℕ) → (pos_part (sub_ℕ 0 n) ≡ 0) × (neg_part (sub_ℕ 0 n) ≡ n)
sub_ℕ-zero n = (ground arith, ground arith)

nothing-IsNearest : (b : ℕ) → IsNearest 0 b 0
nothing-IsNearest b = record { below = omega arith; above = omega arith }

quantized-IsGrowth :
    (current preceding : ℕ) (d : ℤ)
    → 1 ≤ preceding
    → pos_part d ≡ current - preceding
    → neg_part d ≡ preceding - current
    → IsGrowth current preceding (quantized d preceding)
unfolding quantized
quantized-IsGrowth current preceding (pos n) h up down = record {
  up = rw⁻¹ up (half_even-IsNearest (n * 1000000) preceding h);
  down = rw⁻¹ down (nothing-IsNearest preceding);
}
quantized-IsGrowth current preceding (negsuc n) h up down =
    let parts = sub_ℕ-zero (half_even (suc n * 1000000) preceding) in
    record {
      up = rw (parts.0, ← up) (nothing-IsNearest preceding);
      down = rw (parts.1, ← down) (half_even-IsNearest (suc n * 1000000) preceding h);
    }

-- The sample is large enough for a relative change.
abbrev pub is_small : ℕ → ℕ → ℕ → TrendThresholds → Bool
is_small preceding current_papers preceding_papers t =
    ltb_ℤ (pos preceding) t.minimum_growth_denominator
    || (ltb_ℤ (pos current_papers) t.limited_paper_count
        || ltb_ℤ (pos preceding_papers) t.limited_paper_count)

pub record IsChange (current preceding : ℕ) (small : Bool) (c : TrendChange) : Type 0 where
  pub current_count : c.current_count ≡ pos current
  pub preceding_count : c.preceding_count ≡ pos preceding
  pub absolute : c.absolute_change +ℤ pos preceding ≡ pos current
  pub status :
      c.growth_status
      ≡ (if preceding == 0 then zero_denominator else if small then limited_sample else available)
  pub value : is_some c.relative_change ≡ is_available c.growth_status
  pub growth : (r : ℤ) → c.relative_change ≡ some r → IsGrowth current preceding r

abbrev change : ℕ → ℕ → Option ℤ → TrendGrowthStatus → TrendChange
change current preceding relative status = record {
  current_count = pos current;
  preceding_count = pos preceding;
  absolute_change = pos current -ℤ pos preceding;
  denominator_count = pos preceding;
  relative_change = relative;
  growth_status = status;
}

difference : (m n : ℕ) → (pos_part (pos m -ℤ pos n) ≡ m - n) × (neg_part (pos m -ℤ pos n) ≡ n - m)
unfolding ◌-ℤ◌
difference m n = (ground arith, ground arith)

difference_back : (m n : ℕ) → (pos m -ℤ pos n) +ℤ pos n ≡ pos m
difference_back m n = omega int_laws

-- The computed change is always accepted: it counts what it was given, has a relative value exactly
-- if the denominator is not zero and the sample is large enough, and that value is a millionth that
-- is nearest to the exact growth.
pub trend_change-IsChange :
    (current preceding current_papers preceding_papers : ℕ) (t : TrendThresholds)
    → (c : TrendChange) × (trend_change current preceding current_papers preceding_papers t ≡ ok c)
      × IsChange current preceding (is_small preceding current_papers preceding_papers t) c
unfolding trend_change make_change change_checks
trend_change-IsChange current preceding cp pp t = elim (Bool-cases (preceding == 0)) [
  | inl empty ↦ (
    change current preceding none zero_denominator,
    ground (arith, difference_back current preceding),
    record {
      current_count = refl;
      preceding_count = refl;
      absolute = difference_back current preceding;
      status = ground arith;
      value = refl;
      growth = λ r h. cc;
    },
  )
  | inr full ↦ elim (Bool-cases (is_small preceding cp pp t)) [
    | inl small ↦ (
      change current preceding none limited_sample,
      ground (arith, difference_back current preceding),
      record {
        current_count = refl;
        preceding_count = refl;
        absolute = difference_back current preceding;
        status = ground arith;
        value = refl;
        growth = λ r h. cc;
      },
    )
    | inr large ↦ (
      change current preceding (some (quantized (pos current -ℤ pos preceding) preceding))
          available,
      ground (arith, difference_back current preceding),
      record {
        current_count = refl;
        preceding_count = refl;
        absolute = difference_back current preceding;
        status = ground arith;
        value = refl;
        growth = λ r h.
            (let same : quantized (pos current -ℤ pos preceding) preceding ≡ r = cc in
              rw⁻¹ same (
                quantized-IsGrowth current preceding (pos current -ℤ pos preceding) (ground arith)
                  (difference current preceding).0 (difference current preceding).1));
      },
    )
  ]
]
