-- ===== src/Trends/Calendar.antt =====
-- Dates as their proleptic ordinals, with the ISO text that `date.isoformat` gives, and the bounds of
-- a trend window and of the window before it (domain/knowledge.py).
use domain_specific_paper_ha.Prelude.{
  ℕ, suc, ◌+◌, ◌-◌, ◌*◌, ◌/◌, ◌%◌, Bool, ◌&&◌, ◌||◌, not, List, [], ◌∷◌, ◌++◌, ltb, leb, ◌==◌,
  if◌then◌else◌,
}
use domain_specific_paper_ha.Prelude.Text.{Text}
use domain_specific_paper_ha.Result.{Result, ok, err, overflow_error, ◌>>=◌}
use domain_specific_paper_ha.Trends.Change.{TrendWindow, days}

-- `date.toordinal()`; the first of January of the year 1 is day 1.
abbrev pub Day : Type 0
Day = ℕ

abbrev pub day_min : Day
day_min = 1

-- `day - timedelta(days=count)`
unfoldable pub subtract_days : Day → ℕ → Result Day
subtract_days day count =
    if leb day count then err (overflow_error "date value out of range") else ok (day - count)

abbrev is_leap : ℕ → Bool
is_leap year = year % 4 == 0 && (not (year % 100 == 0) || year % 400 == 0)

abbrev month_lengths : Bool → List ℕ
month_lengths leap =
    31 ∷ (if leap then 29 else 28) ∷ 31 ∷ 30 ∷ 31 ∷ 30 ∷ 31 ∷ 31 ∷ 30 ∷ 31 ∷ 30 ∷ 31 ∷ []

abbrev two_digits : ℕ → Text
two_digits n = (b'0' + n / 10 % 10) ∷ (b'0' + n % 10) ∷ []

abbrev four_digits : ℕ → Text
four_digits n = two_digits (n / 100) ++ two_digits (n % 100)

-- The month and the day of the month, from the day of the year, counted from zero.
month_and_day : ℕ → ℕ → List ℕ → Text
month_and_day month offset [] = []
month_and_day month offset (l ∷ lengths) =
    let later = month_and_day (suc month) (offset - l) lengths in
    if ltb offset l then b'-' ∷ two_digits month ++ b'-' ∷ two_digits (suc offset) else later

-- The year, counted from one, and the day of the year, counted from zero.
abbrev year_of : ℕ → ℕ
year_of n =
    let in_400 = n % 146097 in
    let in_100 = in_400 % 36524 in
    let in_4 = in_100 % 1461 in
    let over = in_400 / 36524 == 4 || in_4 / 365 == 4 in
    n / 146097 * 400
    + in_400 / 36524 * 100
    + in_100 / 1461 * 4
    + in_4 / 365
    + (if over then 0 else 1)

abbrev day_of_year : ℕ → ℕ
day_of_year n =
    let in_400 = n % 146097 in
    let in_4 = in_400 % 36524 % 1461 in
    if in_400 / 36524 == 4 || in_4 / 365 == 4 then 365 else in_4 % 365

-- `date.isoformat()`
unfoldable pub iso_text : Day → Text
unfolding month_and_day
iso_text day =
    let n = day - 1 in
    four_digits (year_of n) ++ month_and_day 1 (day_of_year n) (month_lengths (is_leap (year_of n)))

pub record TrendBounds : Type 0 where
  pub window_start : Day
  pub window_end : Day
  pub preceding_start : Day
  pub preceding_end : Day

unfoldable pub bounds_of : Day → TrendWindow → Result TrendBounds
unfolding subtract_days
bounds_of as_of_date window = do
  window_start ← subtract_days as_of_date (days window - 1)
  preceding_end ← subtract_days window_start 1
  preceding_start ← subtract_days preceding_end (days window - 1)
  ok (record {
    window_start = window_start;
    window_end = as_of_date;
    preceding_start = preceding_start;
    preceding_end = preceding_end;
  })

-- `_in_window`
unfoldable pub in_window : Day → Day → Day → Bool
in_window value start end = leb start value && leb value end
