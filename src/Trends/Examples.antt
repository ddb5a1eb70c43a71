-- ===== src/Trends/Examples.antt =====
-- A topic that falls from seven papers to five.
use domain_specific_paper_ha.Prelude.{◌≡◌, refl, some}
use domain_specific_paper_ha.Prelude.Int.{pos, negsuc, ◌-ℤ◌}
use domain_specific_paper_ha.Prelude.Round.{half_even}
use domain_specific_paper_ha.Result.{ok}
use domain_specific_paper_ha.Trends.Change.{
  TrendChange, trend_change, default_trend_thresholds, make_change, change_checks, quantized,
  available,
}
use domain_specific_paper_ha.Prelude.Text.{codes}
use domain_specific_paper_ha.Trends.Calendar.{iso_text}
use domain_specific_paper_ha.Trends.Accepted.{IsChange, is_small, trend_change-IsChange}

fall :
    trend_change 5 7 5 7 default_trend_thresholds
    ≡ ok (record {
      current_count = pos 5;
      preceding_count = pos 7;
      absolute_change = negsuc 1;
      denominator_count = pos 7;
      relative_change = some (negsuc 285713);
      growth_status = available;
    })
unfolding trend_change make_change change_checks quantized half_even ◌-ℤ◌
fall = refl

trend_change-IsChange_example :
    (c : TrendChange) × (trend_change 5 7 5 7 default_trend_thresholds ≡ ok c)
    × IsChange 5 7 (is_small 7 5 7 default_trend_thresholds) c
trend_change-IsChange_example = trend_change-IsChange 5 7 5 7 default_trend_thresholds

first_of_1970 : iso_text 719163 ≡ codes "1970-01-01"
unfolding iso_text
first_of_1970 = refl

leap_day : iso_text 730179 ≡ codes "2000-02-29"
unfolding iso_text
leap_day = refl

last_of_1900 : iso_text 693960 ≡ codes "1900-12-31"
unfolding iso_text
last_of_1900 = refl

last_of_2000 : iso_text 730485 ≡ codes "2000-12-31"
unfolding iso_text
last_of_2000 = refl
