-- ===== src/Accounting/Examples.antt =====
-- Ports that answer from a counter, and the theorems about the accounting at a run over them.
use domain_specific_paper_ha.Prelude.{
  ℕ, suc, ◌≡◌, refl, none, some, List, [], ◌∷◌, length, ltb, if◌then◌else◌,
}
use domain_specific_paper_ha.Prelude.Int.{ℤ, pos, ◌+ℤ◌, ◌-ℤ◌, ◌≤ℤ◌}
use domain_specific_paper_ha.Result.{ok, err, external_error}
use domain_specific_paper_ha.Exec.{Exec}
use domain_specific_paper_ha.Accounting.Usage.{ModelUsage, make_model_usage}
use domain_specific_paper_ha.Accounting.Counters.{
  fresh, snapshot, external_call_count_lower_bound, PipelineAccountingSnapshot,
  complete_grobid_operation, begin_model_operation, complete_model_operation,
  begin_grobid_operation, record_arxiv_operation, record_scholarly_operation, snapshot_checks,
}
use domain_specific_paper_ha.Accounting.Ports.{PortTypes, Ports, counted, parsed_with, metered}
use domain_specific_paper_ha.Accounting.Calls.{
  Call, search, parse, analyze, compare_papers, get_paper, events, final_world, serve,
}
use domain_specific_paper_ha.Accounting.Totals.{Accounts, serve-Accounts}
use domain_specific_paper_ha.Accounting.Snapshots.{report, snapshot-report, external_call_count-ge}

abbrev types : PortTypes
types = record {
  Day = ℕ;
  Text = ℕ;
  Seconds = ℕ;
  Number = ℕ;
  Instant = ℕ;
  IdentifierPage = ℕ;
  PaperRecord = ℕ;
  Pdf = ℕ;
  ScholarlyPaper = ℕ;
  PdfParseRequest = ℕ;
  ParsedPaper = ℤ;
  call_count = λ n. n;
  AnalysisRequest = ℕ;
  GeneratedAnalysis = ModelUsage;
  analysis_usage = λ u. u;
  CrawlerPlanRequest = ℕ;
  GeneratedCrawlerPlan = ModelUsage;
  crawler_usage = λ u. u;
  CandidateSelectionRequest = ℕ;
  GeneratedCandidateSelection = ModelUsage;
  selection_usage = λ u. u;
  ComparisonRequest = ℕ;
  GeneratedComparison = ModelUsage;
  comparison_usage = λ u. u;
  ReportNarrativeRequest = ℕ;
  GeneratedReportNarrative = ModelUsage;
  report_usage = λ u. u;
}

abbrev usage : ModelUsage
usage = record {
  prompt_tokens = pos 100;
  completion_tokens = pos 20;
  total_tokens = pos 120;
  call_count = pos 2;
  duration_ms = pos 900;
  estimated_cost_usd = some (pos 35000);
}

abbrev answers : {A : Type 0} → A → Exec ℕ A
answers a w = (ok a, suc w)

-- The model port fails from the third call on.
abbrev model_answers : Exec ℕ ModelUsage
model_answers w = if ltb w 4 then (ok usage, suc w) else (err (external_error "down"), suc w)

abbrev ports : Ports types ℕ
ports = record {
  arxiv = record {
    list_updated_identifiers = λ d c r t. answers 0;
    search = λ q f u m. answers [];
    get_papers_by_ids = λ ids t. answers [];
    download_pdf = λ i v u. answers 0;
  };
  parser = record { parse = λ r. answers (pos 3) };
  llm = record {
    analyze = λ r. model_answers;
    plan_scholarly_search = λ r t. model_answers;
    select_prior_work = λ r t. model_answers;
    compare_papers = λ r. model_answers;
    generate_report = λ r. model_answers;
  };
  scholarly = record {
    search_papers = λ q f u l t. answers [];
    get_paper = λ i t. answers 0;
    get_paper_by_arxiv_id = λ i t. answers 0;
    get_references = λ i t. answers [];
    get_citations = λ i t. answers [];
    get_recommendations = λ ids t. answers [];
  };
}

abbrev calls : List (Call types)
calls = search 1 2 3 4 ∷ parse 5 ∷ analyze 6 ∷ get_paper 7 none ∷ compare_papers 8 ∷ []

-- The last call raised, so the cost of the run is unknown.
snapshot_of_calls :
    snapshot (serve types ports calls (fresh, 0)).0
    ≡ ok (record {
      arxiv_operation_count = pos 1;
      semantic_scholar_operation_count = pos 1;
      grobid_api_call_count = pos 3;
      model_api_call_count = pos 3;
      prompt_tokens = pos 100;
      completion_tokens = pos 20;
      total_tokens = pos 120;
      model_duration_ms = pos 900;
      estimated_cost_usd = none;
    })
unfolding snapshot snapshot_checks serve final_world counted parsed_with metered
    record_arxiv_operation record_scholarly_operation begin_grobid_operation
    complete_grobid_operation begin_model_operation complete_model_operation ◌+ℤ◌ ◌-ℤ◌
snapshot_of_calls = refl

serve-Accounts_example :
    Accounts fresh (events types ports calls 0) (serve types ports calls (fresh, 0)).0
    × ((serve types ports calls (fresh, 0)).1 ≡ final_world types ports calls 0)
serve-Accounts_example = serve-Accounts types ports calls fresh 0

snapshot-report_example :
    snapshot (serve types ports calls (fresh, 0)).0 ≡ ok (report (events types ports calls 0))
unfolding events make_model_usage ◌+ℤ◌
snapshot-report_example = snapshot-report types ports calls 0 (tt, (tt, (refl, (tt, (tt, tt)))))

external_call_count-ge_example :
    (s : PipelineAccountingSnapshot) × (snapshot (serve types ports calls (fresh, 0)).0 ≡ ok s)
    × (pos (length calls) ≤ℤ external_call_count_lower_bound s)
unfolding events make_model_usage ◌+ℤ◌
external_call_count-ge_example =
    external_call_count-ge types ports calls 0 (tt, (tt, (refl, (tt, (tt, tt)))))
