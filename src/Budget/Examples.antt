-- ===== src/Budget/Examples.antt =====
-- A run of one paper with one comparison.
use domain_specific_paper_ha.Prelude.{◌≡◌, refl, ◌+◌, ◌≤◌, [], ◌∷◌, arith}
use domain_specific_paper_ha.Prelude.Int.{pos, ◌+ℤ◌, ◌-ℤ◌, ◌*ℤ◌}
use domain_specific_paper_ha.Prelude.Round.{half_even}
use domain_specific_paper_ha.Result.{ok, err, value_error, overflow_error}
use domain_specific_paper_ha.Budget.Bound.{
  finite, infinite, nan, to_float, times_float, add_floats, add_int, in_range, float_limit,
  BudgetRequest, PipelineBudget, budget_guards, worst_case, pipeline_budget, microseconds,
  pipeline_safety_seconds,
}
use domain_specific_paper_ha.Budget.Covers.{
  AnalysisRun, PipelineRun, run_time, pipeline_budget-covers,
}

abbrev request : BudgetRequest
request = record {
  timeout_seconds = pos 28800;
  selected_papers = pos 2;
  search_timeout = finite (pos 60000000);
  comparisons_per_paper = pos 3;
  backfill_timeout = finite (pos 600000000);
}

abbrev analysis : AnalysisRun
analysis = record { fetch = 5000000; parse = 60000000; answer = 90000000 }

abbrev run : PipelineRun
run = record {
  discovery = 30000000;
  materialization = 4000000;
  backfill = 100000000;
  papers =
      record {
        current = analysis;
        historical = analysis;
        search = 20000000;
        comparisons = 80000000 ∷ [];
      }
      ∷ [];
  report = 70000000;
}

required :
    pipeline_budget request
    ≡ ok (record { timeout_seconds = pos 28800; required_worst_case_seconds = 6990 })
unfolding pipeline_budget budget_guards worst_case half_even to_float times_float add_floats add_int
    in_range float_limit ◌+ℤ◌ ◌-ℤ◌ ◌*ℤ◌
required = refl

-- An infinite timeout passes the guards.
abbrev endless : BudgetRequest
endless = record request { search_timeout = infinite }

endless_raises :
    pipeline_budget endless ≡ err (overflow_error "cannot convert float infinity to integer")
unfolding pipeline_budget budget_guards worst_case half_even to_float times_float add_floats add_int
    in_range float_limit ◌+ℤ◌ ◌-ℤ◌ ◌*ℤ◌
endless_raises = refl

abbrev no_number : BudgetRequest
no_number = record request { search_timeout = nan }

no_number_raises :
    pipeline_budget no_number ≡ err (value_error "cannot convert float NaN to integer")
unfolding pipeline_budget budget_guards worst_case half_even to_float times_float add_floats add_int
    in_range float_limit ◌+ℤ◌ ◌-ℤ◌ ◌*ℤ◌
no_number_raises = refl

pipeline_budget-covers_example :
    (b : PipelineBudget) × (pipeline_budget request ≡ ok b)
    × (run_time run + microseconds pipeline_safety_seconds
        ≤ microseconds b.required_worst_case_seconds + 500000)
unfolding budget_guards
pipeline_budget-covers_example =
    pipeline_budget-covers request 60000000 600000000 run refl refl (omega arith)
      (refl, (refl, (refl, tt)))
      (record {
        discovery = omega arith;
        materialization = omega arith;
        backfill_bound = omega arith;
        papers = (
          record {
            current = record { fetch = omega arith; parse = omega arith; answer = omega arith };
            historical = record { fetch = omega arith; parse = omega arith; answer = omega arith };
            search_bound = omega arith;
            comparisons = (omega arith, tt);
            count = omega arith;
          },
          tt,
        );
        count = omega arith;
        report = omega arith;
      })
