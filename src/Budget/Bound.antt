-- ===== src/Budget/Bound.antt =====
-- application/pipeline_budget.py: `pipeline_budget`. Timeouts are floats: whole microseconds, infinities
-- or no numbers; what is computed is not rounded to a float, but infinite out of their range. What
-- `round` gets is not negative where it is finite, so its positive part is its value.
use domain_specific_paper_ha.Prelude.{
  ℕ, ◌+◌, ◌*◌, ◌^◌, Bool, true, false, ◌||◌, List, [], ◌∷◌, ltb, if◌then◌else◌,
}
use domain_specific_paper_ha.Prelude.Int.{ℤ, pos, pos_part, ltb_ℤ, ◌+ℤ◌, ◌-ℤ◌, ◌*ℤ◌}
use domain_specific_paper_ha.Prelude.Round.{half_even}
use domain_specific_paper_ha.Result.{
  Result, Check, ok, err, validated, value_error, overflow_error, ◌>>=◌,
}

abbrev pub arxiv_operation_seconds : ℕ
arxiv_operation_seconds = 90

abbrev pub arxiv_discovery_seconds : ℕ
arxiv_discovery_seconds = 900

abbrev pub pdf_parser_operation_seconds : ℕ
pdf_parser_operation_seconds = 180

abbrev pub llm_operation_seconds : ℕ
llm_operation_seconds = 300

abbrev pub pipeline_safety_seconds : ℕ
pipeline_safety_seconds = 900

abbrev pub microseconds : ℕ → ℕ
microseconds n = n * 1000000

pub record PipelineBudget : Type 0 where
  pub timeout_seconds : ℤ
  pub required_worst_case_seconds : ℕ

-- A float: whole microseconds of seconds, an infinity, or no number.
pub data Float : Type 0 where
  finite : ℤ → Float
  infinite minus_infinite nan : Float

-- Seconds from here on, in microseconds, are infinite.
unfoldable pub float_limit : ℕ
float_limit = microseconds (2 ^ 1024)

-- A result in the range of floats, or an infinity.
unfoldable pub in_range : ℤ → Float
in_range n =
    if ltb_ℤ n (pos float_limit)
    then if ltb_ℤ (pos 0 -ℤ pos float_limit) n then finite n else minus_infinite
    else infinite

-- An `int` of seconds as a float.
unfoldable pub to_float : ℕ → Result Float
to_float n =
    if ltb (microseconds n) float_limit
    then ok (finite (pos (microseconds n)))
    else err (overflow_error "int too large to convert to float")

unfoldable pub add_floats : Float → Float → Float
unfolding in_range
add_floats (finite x) (finite y) = in_range (x +ℤ y)
add_floats nan y = nan
add_floats (finite x) y = y
add_floats infinite nan = nan
add_floats infinite minus_infinite = nan
add_floats infinite y = infinite
add_floats minus_infinite nan = nan
add_floats minus_infinite infinite = nan
add_floats minus_infinite y = minus_infinite

-- `n * x` of a positive `int`.
unfoldable pub times_float : ℕ → Float → Result Float
unfolding to_float in_range
times_float n x = to_float n >>= λ converted. ok (elim x [
  | finite y ↦ in_range (n *ℤ y)
  | infinite ↦ infinite
  | minus_infinite ↦ minus_infinite
  | nan ↦ nan
])

-- `x + n` of an `int`.
unfoldable pub add_int : Float → ℕ → Result Float
unfolding to_float add_floats
add_int x n = to_float n >>= λ y. ok (add_floats x y)

-- `x < y`, false where one is no number.
unfoldable pub is_less : Float → Float → Bool
is_less (finite x) (finite y) = ltb_ℤ x y
is_less (finite x) infinite = true
is_less minus_infinite (finite y) = true
is_less minus_infinite infinite = true
is_less _ _ = false

-- `min(x, y)`
unfoldable pub min_float : Float → Float → Float
unfolding is_less
min_float x y = if is_less y x then y else x

-- `round(x)`
unfoldable pub round_float : Float → Result ℕ
unfolding half_even
round_float (finite x) = ok (half_even (pos_part x) 1000000)
round_float nan = err (value_error "cannot convert float NaN to integer")
round_float _ = err (overflow_error "cannot convert float infinity to integer")

-- The arguments of the function.
pub record BudgetRequest : Type 0 where
  pub timeout_seconds : ℤ
  pub selected_papers : ℤ
  pub search_timeout : Float
  pub comparisons_per_paper : ℤ
  pub backfill_timeout : Float

unfoldable pub budget_guards : BudgetRequest → List Check
unfolding is_less min_float
budget_guards r =
    (
      ltb_ℤ r.timeout_seconds (pos 1) || ltb_ℤ (pos 86400) r.timeout_seconds,
      value_error "pipeline timeout must be between 1 and 86400 seconds",
    )
    ∷ (
      ltb_ℤ r.selected_papers (pos 1) || ltb_ℤ r.comparisons_per_paper (pos 1),
      value_error "pipeline paper and comparison bounds must be positive",
    )
    ∷ (
      is_less (min_float r.search_timeout r.backfill_timeout) (finite (pos 1000000)),
      value_error "pipeline dependency timeouts must be positive",
    )
    ∷ []

abbrev pub analysis_seconds : ℕ
analysis_seconds = arxiv_operation_seconds + pdf_parser_operation_seconds + llm_operation_seconds

-- The argument of `round`, for accepted numbers of papers and comparisons.
unfoldable pub worst_case : BudgetRequest → Result Float
worst_case r =
    let papers = pos_part r.selected_papers in
    to_float (2 * papers * analysis_seconds + arxiv_discovery_seconds + arxiv_operation_seconds)
    >>= λ fixed. times_float papers r.search_timeout >>= λ searches.
        add_int (add_floats (add_floats fixed r.backfill_timeout) searches)
          (papers * pos_part r.comparisons_per_paper * llm_operation_seconds)
        >>= λ compared. add_int compared llm_operation_seconds >>= λ reported.
            add_int reported pipeline_safety_seconds

unfoldable pub pipeline_budget : BudgetRequest → Result PipelineBudget
unfolding budget_guards worst_case round_float
pipeline_budget r = do
  accepted ← validated r (budget_guards r)
  worst ← worst_case accepted
  required ← round_float worst
  ok (record { timeout_seconds = accepted.timeout_seconds; required_worst_case_seconds = required })
