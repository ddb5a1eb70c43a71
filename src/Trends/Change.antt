-- ===== src/Trends/Change.antt =====
-- domain/knowledge.py: `TrendWindow`, `TrendThresholds`, `TrendChange`, `_data_sufficiency` and
-- `_trend_change`. A relative change counts millionths; the code's quotient of 28 digits rounds to
-- the same millionth as the exact one while counts stay below 10^9.
use domain_specific_paper_ha.Prelude.{
  ℕ, suc, ◌*◌, Bool, true, false, not, ◌&&◌, ◌||◌, Option, none, some, List, [], ◌∷◌, ◌==◌, is_none,
  is_some, if◌then◌else◌,
}
use domain_specific_paper_ha.Prelude.Int.{ℤ, pos, negsuc, sub_ℕ, ◌-ℤ◌, ltb_ℤ, eqb_ℤ}
use domain_specific_paper_ha.Prelude.Round.{half_even}
use domain_specific_paper_ha.Result.{Result, Check, validated, domain_invariant}

pub data TrendWindow : Type 0 where
  seven_days thirty_days ninety_days : TrendWindow

abbrev pub days : TrendWindow → ℕ
days seven_days = 7
days thirty_days = 30
days ninety_days = 90

pub data TrendDataSufficiency : Type 0 where
  sufficient limited insufficient : TrendDataSufficiency

pub data TrendGrowthStatus : Type 0 where
  available zero_denominator limited_sample : TrendGrowthStatus

pub record TrendThresholds : Type 0 where
  pub limited_paper_count : ℤ
  pub sufficient_paper_count : ℤ
  pub minimum_growth_denominator : ℤ

unfoldable pub thresholds_checks : TrendThresholds → List Check
thresholds_checks t =
    (
      ltb_ℤ t.limited_paper_count (pos 1) || ltb_ℤ t.sufficient_paper_count t.limited_paper_count,
      domain_invariant "trend sufficiency thresholds are inconsistent",
    )
    ∷ (
      ltb_ℤ t.minimum_growth_denominator (pos 1),
      domain_invariant "trend growth denominator threshold must be positive",
    )
    ∷ []

unfoldable pub make_thresholds : TrendThresholds → Result TrendThresholds
unfolding thresholds_checks
make_thresholds t = validated t (thresholds_checks t)

abbrev pub default_trend_thresholds : TrendThresholds
default_trend_thresholds = record {
  limited_paper_count = pos 3;
  sufficient_paper_count = pos 10;
  minimum_growth_denominator = pos 3;
}

pub record TrendChange : Type 0 where
  pub current_count : ℤ
  pub preceding_count : ℤ
  pub absolute_change : ℤ
  pub denominator_count : ℤ
  -- in millionths
  pub relative_change : Option ℤ
  pub growth_status : TrendGrowthStatus

abbrev pub is_available : TrendGrowthStatus → Bool
is_available available = true
is_available _ = false

abbrev pub is_zero_denominator : TrendGrowthStatus → Bool
is_zero_denominator zero_denominator = true
is_zero_denominator _ = false

unfoldable pub change_checks : TrendChange → List Check
change_checks c =
    (
      ltb_ℤ c.current_count (pos 0) || ltb_ℤ c.preceding_count (pos 0),
      domain_invariant "trend counts cannot be negative",
    )
    ∷ (
      not (eqb_ℤ c.absolute_change (c.current_count -ℤ c.preceding_count)),
      domain_invariant "trend absolute change is inconsistent",
    )
    ∷ (
      not (eqb_ℤ c.denominator_count c.preceding_count),
      domain_invariant "trend denominator must be the preceding count",
    )
    ∷ (
      is_available c.growth_status
          && (eqb_ℤ c.preceding_count (pos 0) || is_none c.relative_change),
      domain_invariant "available trend growth requires a nonzero denominator",
    )
    ∷ (
      not (is_available c.growth_status) && is_some c.relative_change,
      domain_invariant "unavailable trend growth cannot carry a relative value",
    )
    ∷ (
      is_zero_denominator c.growth_status && not (eqb_ℤ c.denominator_count (pos 0)),
      domain_invariant "zero-denominator trend status requires a zero denominator",
    )
    ∷ []

unfoldable pub make_change : TrendChange → Result TrendChange
unfolding change_checks
make_change c = validated c (change_checks c)

unfoldable pub data_sufficiency : ℤ → TrendThresholds → TrendDataSufficiency
data_sufficiency paper_count t =
    if not (ltb_ℤ paper_count t.sufficient_paper_count)
    then sufficient
    else if not (ltb_ℤ paper_count t.limited_paper_count)
    then limited
    else insufficient

-- `(Decimal(absolute_change) / Decimal(preceding_count)).quantize(...)`
unfoldable pub quantized : ℤ → ℕ → ℤ
unfolding half_even
quantized (pos n) b = pos (half_even (n * 1000000) b)
quantized (negsuc n) b = sub_ℕ 0 (half_even (suc n * 1000000) b)

-- The counts are sizes of sets.
unfoldable pub trend_change : ℕ → ℕ → ℕ → ℕ → TrendThresholds → Result TrendChange
unfolding quantized make_change
trend_change current preceding current_papers preceding_papers t =
    let absolute_change = pos current -ℤ pos preceding in
    if preceding == 0
    then make_change (record {
      current_count = pos current;
      preceding_count = pos preceding;
      absolute_change = absolute_change;
      denominator_count = pos 0;
      relative_change = none;
      growth_status = zero_denominator;
    })
    else if ltb_ℤ (pos preceding) t.minimum_growth_denominator
        || (ltb_ℤ (pos current_papers) t.limited_paper_count
            || ltb_ℤ (pos preceding_papers) t.limited_paper_count)
    then make_change (record {
      current_count = pos current;
      preceding_count = pos preceding;
      absolute_change = absolute_change;
      denominator_count = pos preceding;
      relative_change = none;
      growth_status = limited_sample;
    })
    else make_change (record {
      current_count = pos current;
      preceding_count = pos preceding;
      absolute_change = absolute_change;
      denominator_count = pos preceding;
      relative_change = some (quantized absolute_change preceding);
      growth_status = available;
    })
