-- ===== src/Trends/Split.antt =====
-- The two windows of a trend adjoin, have the same length and split the days that they cover.
use domain_specific_paper_ha.Prelude.{
  ℕ, suc, ◌+◌, ◌-◌, ◌≤◌, ◌<◌, ◌≡◌, refl, false, ◌&&◌, ◌||◌, arith, leb, ◌⊎◌, Bool-cases, inl, inr,
}
use domain_specific_paper_ha.Result.{ok, err, overflow_error}
use domain_specific_paper_ha.Trends.Change.{TrendWindow, seven_days, thirty_days, ninety_days, days}
use domain_specific_paper_ha.Trends.Calendar.{Day, TrendBounds, bounds_of, subtract_days, in_window}

-- The windows end at a day and, of the length given, are disjoint and adjoin.
pub record IsSplit (as_of_date : Day) (length : ℕ) (b : TrendBounds) : Type 0 where
  pub end : b.window_end ≡ as_of_date
  pub current_length : b.window_start + length ≡ suc b.window_end
  pub preceding_length : b.preceding_start + length ≡ suc b.preceding_end
  pub adjoin : suc b.preceding_end ≡ b.window_start
  pub disjoint :
      (day : Day)
      → (in_window day b.window_start b.window_end
          && in_window day b.preceding_start b.preceding_end)
        ≡ false
  pub cover :
      (day : Day)
      → in_window day b.preceding_start as_of_date ≡ (
          in_window day b.window_start b.window_end
          || in_window day b.preceding_start b.preceding_end)

abbrev split_at : Day → ℕ → TrendBounds
split_at as_of_date length = record {
  window_start = as_of_date - (length - 1);
  window_end = as_of_date;
  preceding_start = as_of_date - (length - 1) - 1 - (length - 1);
  preceding_end = as_of_date - (length - 1) - 1;
}

split_at-IsSplit :
    (as_of_date : Day) (length : ℕ)
    → 1 ≤ length
    → length + length ≤ as_of_date
    → IsSplit as_of_date length (split_at as_of_date length)
unfolding in_window
split_at-IsSplit as_of_date length some_days early = record {
  end = refl;
  current_length = omega arith;
  preceding_length = omega arith;
  adjoin = omega arith;
  disjoint = λ day. ground arith;
  cover = λ day. ground arith;
}

days-positive : (window : TrendWindow) → 1 ≤ days window
days-positive seven_days = omega arith
days-positive thirty_days = omega arith
days-positive ninety_days = omega arith

-- Where the day is at least twice the window's length, the bounds are found: both windows have that
-- length, the first ends at the day, the other ends before it starts, and a day between the ends is
-- in exactly one of them. For an earlier day the code raises an overflow.
pub bounds_of-cases :
    (as_of_date : Day) (window : TrendWindow)
    → ((days window + days window ≤ as_of_date)
        × ((b : TrendBounds) × (bounds_of as_of_date window ≡ ok b)
            × IsSplit as_of_date (days window) b))
      ⊎ ((as_of_date < days window + days window)
          × (bounds_of as_of_date window ≡ err (overflow_error "date value out of range")))
unfolding bounds_of subtract_days
bounds_of-cases as_of_date window =
    let n = days window in
    elim (Bool-cases (leb as_of_date (n - 1))) [
      | inl first ↦ inr (ground (arith, days-positive window), simp first)
      | inr first ↦ elim (Bool-cases (leb (as_of_date - (n - 1)) 1)) [
        | inl second ↦ inr (ground (arith, days-positive window), simp (first, second))
        | inr second ↦ elim (Bool-cases (leb (as_of_date - (n - 1) - 1) (n - 1))) [
          | inl third ↦ inr (ground (arith, days-positive window), simp (first, second, third))
          | inr third ↦
              let enough : n + n ≤ as_of_date = ground (arith, days-positive window) in
              inl (
                enough,
                (
                  split_at as_of_date n,
                  simp (first, second, third),
                  split_at-IsSplit as_of_date n (days-positive window) enough,
                ),
              )
        ]
      ]
    ]
