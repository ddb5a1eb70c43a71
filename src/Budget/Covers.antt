-- ===== src/Budget/Covers.antt =====
-- The budget covers every run whose operations keep their own bounds.
use native.Mathlib.Nat.{mul-le-mul_right}
use domain_specific_paper_ha.Prelude.{
  ap, ℕ, ◌+◌, ◌*◌, ◌≤◌, ◌≡◌, refl, List, [], ◌∷◌, arith, length, Each,
}
use domain_specific_paper_ha.Prelude.Int.{pos, pos_part}
use domain_specific_paper_ha.Prelude.Round.{half_even, half_even-IsNearest}
use domain_specific_paper_ha.Result.{ok, AllPass, validated-AllPass}
use domain_specific_paper_ha.Budget.Bound.{
  arxiv_operation_seconds, arxiv_discovery_seconds, pdf_parser_operation_seconds,
  llm_operation_seconds, pipeline_safety_seconds, analysis_seconds, microseconds, PipelineBudget,
  BudgetRequest, budget_guards, worst_case, pipeline_budget, finite, round_float,
}
use domain_specific_paper_ha.Budget.Floats.{
  exact_limit, to_float-eq, add_floats-eq, times_float-eq, add_int-eq,
}

-- The operations of an analysis, in microseconds.
pub record AnalysisRun : Type 0 where
  pub fetch : ℕ
  pub parse : ℕ
  pub answer : ℕ

-- What is done for a selected paper: its analysis and that of its historical counterpart, the
-- search and the comparisons.
pub record PaperRun : Type 0 where
  pub current : AnalysisRun
  pub historical : AnalysisRun
  pub search : ℕ
  pub comparisons : List ℕ

pub record PipelineRun : Type 0 where
  pub discovery : ℕ
  pub materialization : ℕ
  pub backfill : ℕ
  pub papers : List PaperRun
  pub report : ℕ

abbrev pub sum : List ℕ → ℕ
sum [] = 0
sum (n ∷ ns) = n + sum ns

abbrev analysis_time : AnalysisRun → ℕ
analysis_time a = a.fetch + a.parse + a.answer

abbrev paper_time : PaperRun → ℕ
paper_time p = analysis_time p.current + analysis_time p.historical + p.search + sum p.comparisons

abbrev papers_time : List PaperRun → ℕ
papers_time [] = 0
papers_time (p ∷ ps) = paper_time p + papers_time ps

abbrev pub run_time : PipelineRun → ℕ
run_time run =
    run.discovery + run.materialization + run.backfill + papers_time run.papers + run.report

pub record IsAnalysisBounded (a : AnalysisRun) : Type 0 where
  pub fetch : a.fetch ≤ microseconds arxiv_operation_seconds
  pub parse : a.parse ≤ microseconds pdf_parser_operation_seconds
  pub answer : a.answer ≤ microseconds llm_operation_seconds

module _ (r : BudgetRequest) (search backfill : ℕ) where
  pub record IsPaperBounded (p : PaperRun) : Type 0 where
    pub current : IsAnalysisBounded p.current
    pub historical : IsAnalysisBounded p.historical
    pub search_bound : p.search ≤ search
    pub comparisons : Each (λ n. n ≤ microseconds llm_operation_seconds) p.comparisons
    pub count : length p.comparisons ≤ pos_part r.comparisons_per_paper

  -- Each operation keeps its bound, of which the search and the backfill have those given, and there
  -- are as many as the request allows.
  pub record IsRunBounded (run : PipelineRun) : Type 0 where
    pub discovery : run.discovery ≤ microseconds arxiv_discovery_seconds
    pub materialization : run.materialization ≤ microseconds arxiv_operation_seconds
    pub backfill_bound : run.backfill ≤ backfill
    pub papers : Each IsPaperBounded run.papers
    pub count : length run.papers ≤ pos_part r.selected_papers
    pub report : run.report ≤ microseconds llm_operation_seconds

  abbrev paper_bound : ℕ
  paper_bound =
      2 * microseconds analysis_seconds
      + search
      + pos_part r.comparisons_per_paper * microseconds llm_operation_seconds

  -- What the papers and the rest of a run may take together, with the safety margin, in microseconds.
  abbrev pub longest_run : ℕ
  longest_run =
      pos_part r.selected_papers * paper_bound
      + backfill
      + microseconds arxiv_discovery_seconds
      + microseconds arxiv_operation_seconds
      + microseconds llm_operation_seconds
      + microseconds pipeline_safety_seconds

  sum-le : (c : ℕ) (ns : List ℕ) → Each (λ n. n ≤ c) ns → sum ns ≤ length ns * c
  sum-le c [] h = omega arith
  sum-le c (n ∷ ns) h = omega (arith, sum-le c ns h.1, h.0)

  paper_time-le : (p : PaperRun) → IsPaperBounded p → paper_time p ≤ paper_bound
  paper_time-le p h = omega (
    arith,
    sum-le (microseconds llm_operation_seconds) p.comparisons h.comparisons,
    h.count,
    h.search_bound,
    h.current.fetch,
    h.current.parse,
    h.current.answer,
    h.historical.fetch,
    h.historical.parse,
    h.historical.answer,
  )

  papers_time-le :
      (ps : List PaperRun) → Each IsPaperBounded ps → papers_time ps ≤ length ps * paper_bound
  papers_time-le [] h = omega arith
  papers_time-le (p ∷ ps) h = omega (arith, paper_time-le p h.0, papers_time-le ps h.1)

  run_time-le :
      (run : PipelineRun)
      → IsRunBounded run
      → run_time run + microseconds pipeline_safety_seconds ≤ longest_run
  run_time-le run h = omega (
    arith,
    papers_time-le run.papers h.papers,
    mul-le-mul_right paper_bound h.count,
    h.discovery,
    h.materialization,
    h.backfill_bound,
    h.report,
  )

  worst_case-eq :
      r.search_timeout ≡ finite (pos search)
      → r.backfill_timeout ≡ finite (pos backfill)
      → longest_run ≤ exact_limit
      → worst_case r ≡ ok (finite (pos longest_run))
  unfolding worst_case
  worst_case-eq e f small =
      let papers = pos_part r.selected_papers in
      let fixed =
        2 * papers * analysis_seconds + arxiv_discovery_seconds + arxiv_operation_seconds in
      let compared = papers * pos_part r.comparisons_per_paper * llm_operation_seconds in
      let first = microseconds fixed + backfill + papers * search in
      rw
        (
          e,
          f,
          to_float-eq fixed (omega (arith, small)),
          times_float-eq papers search (omega (arith, small)) (omega (arith, small)),
          add_floats-eq (microseconds fixed) backfill (omega (arith, small)),
          add_floats-eq (microseconds fixed + backfill) (papers * search) (omega (arith, small)),
          add_int-eq first compared (omega (arith, small)),
          add_int-eq (first + microseconds compared) llm_operation_seconds (omega (arith, small)),
          add_int-eq (first + microseconds compared + microseconds llm_operation_seconds)
              pipeline_safety_seconds (omega (arith, small)),
        )
        (ap (λ n. ok (finite (pos n))) (omega arith))

  -- For arguments that the guards accept, with timeouts that are finite and a run that takes no more
  -- than 2 ^ 53 microseconds, the budget is computed, and a run with no more papers and comparisons
  -- than the arguments say, each of whose operations keeps its bound, ends with the safety margin left
  -- within the required time, up to the half second that rounding may take.
  pub pipeline_budget-covers :
      (run : PipelineRun)
      → r.search_timeout ≡ finite (pos search)
      → r.backfill_timeout ≡ finite (pos backfill)
      → longest_run ≤ exact_limit
      → AllPass (budget_guards r)
      → IsRunBounded run
      → (b : PipelineBudget) × (pipeline_budget r ≡ ok b)
        × (run_time run + microseconds pipeline_safety_seconds
            ≤ microseconds b.required_worst_case_seconds + 500000)
  unfolding pipeline_budget round_float
  pipeline_budget-covers run e f small pass h =
      let near = half_even-IsNearest longest_run 1000000 (omega arith) in
      (
        record {
          timeout_seconds = r.timeout_seconds;
          required_worst_case_seconds = half_even longest_run 1000000;
        },
        rw (validated-AllPass r (budget_guards r) pass, worst_case-eq e f small) refl,
        omega (arith, near.above, run_time-le run h),
      )
