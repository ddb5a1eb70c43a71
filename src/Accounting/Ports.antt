-- ===== src/Accounting/Ports.antt =====
-- application/pipeline_accounting.py: the wrappers `AccountingArxiv`, `AccountingPdfParser`,
-- `AccountingLLM` and `AccountingScholarlySearch`. A port (ports/*.py) is a record of methods over
-- a world `W` that its implementation reads and changes; what requests and responses hold beside
-- a usage or a call count is left abstract. A wrapper turns a port over `W` into one over the
-- counters and `W`.
use domain_specific_paper_ha.Prelude.{Option, List}
use domain_specific_paper_ha.Prelude.Int.{ℤ}
use domain_specific_paper_ha.Result.{Result, ok, err}
use domain_specific_paper_ha.Exec.{Exec}
use domain_specific_paper_ha.Accounting.Usage.{ModelUsage}
use domain_specific_paper_ha.Accounting.Counters.{
  PipelineAccounting, record_arxiv_operation, record_scholarly_operation, begin_grobid_operation,
  complete_grobid_operation, begin_model_operation, complete_model_operation,
}

-- The types that pass through the ports.
pub record PortTypes : Type 1 where
  pub Day : Type 0
  pub Text : Type 0
  pub Seconds : Type 0
  pub Number : Type 0
  pub Instant : Type 0
  pub IdentifierPage : Type 0
  pub PaperRecord : Type 0
  pub Pdf : Type 0
  pub ScholarlyPaper : Type 0
  pub PdfParseRequest : Type 0
  pub ParsedPaper : Type 0
  pub call_count : ParsedPaper → ℤ
  pub AnalysisRequest : Type 0
  pub GeneratedAnalysis : Type 0
  pub analysis_usage : GeneratedAnalysis → ModelUsage
  pub CrawlerPlanRequest : Type 0
  pub GeneratedCrawlerPlan : Type 0
  pub crawler_usage : GeneratedCrawlerPlan → ModelUsage
  pub CandidateSelectionRequest : Type 0
  pub GeneratedCandidateSelection : Type 0
  pub selection_usage : GeneratedCandidateSelection → ModelUsage
  pub ComparisonRequest : Type 0
  pub GeneratedComparison : Type 0
  pub comparison_usage : GeneratedComparison → ModelUsage
  pub ReportNarrativeRequest : Type 0
  pub GeneratedReportNarrative : Type 0
  pub report_usage : GeneratedReportNarrative → ModelUsage

module _ (T : PortTypes) (W : Type 0) where
  open T use {
    Day, Text, Seconds, Number, Instant, IdentifierPage, PaperRecord, Pdf, ScholarlyPaper,
    PdfParseRequest, ParsedPaper, AnalysisRequest, GeneratedAnalysis, CrawlerPlanRequest,
    GeneratedCrawlerPlan, CandidateSelectionRequest, GeneratedCandidateSelection, ComparisonRequest,
    GeneratedComparison, ReportNarrativeRequest, GeneratedReportNarrative,
  }

  pub record ArxivPort : Type 0 where
    pub list_updated_identifiers : Day → Text → Option Text → Option Seconds → Exec W IdentifierPage
    pub search : Text → Instant → Instant → Number → Exec W (List PaperRecord)
    pub get_papers_by_ids : List Text → Option Seconds → Exec W (List PaperRecord)
    pub download_pdf : Text → Number → Text → Exec W Pdf

  pub record PdfParserPort : Type 0 where
    pub parse : PdfParseRequest → Exec W ParsedPaper

  pub record LlmPort : Type 0 where
    pub analyze : AnalysisRequest → Exec W GeneratedAnalysis
    pub plan_scholarly_search : CrawlerPlanRequest → Option Seconds → Exec W GeneratedCrawlerPlan
    pub select_prior_work :
        CandidateSelectionRequest → Option Seconds → Exec W GeneratedCandidateSelection
    pub compare_papers : ComparisonRequest → Exec W GeneratedComparison
    pub generate_report : ReportNarrativeRequest → Exec W GeneratedReportNarrative

  pub record ScholarlySearchPort : Type 0 where
    pub search_papers :
        Text → Number → Number → Number → Option Seconds → Exec W (List ScholarlyPaper)
    pub get_paper : Text → Option Seconds → Exec W ScholarlyPaper
    pub get_paper_by_arxiv_id : Text → Option Seconds → Exec W ScholarlyPaper
    pub get_references : Text → Option Seconds → Exec W (List ScholarlyPaper)
    pub get_citations : Text → Option Seconds → Exec W (List ScholarlyPaper)
    pub get_recommendations : List Text → Option Seconds → Exec W (List ScholarlyPaper)

  pub record Ports : Type 0 where
    pub arxiv : ArxivPort
    pub parser : PdfParserPort
    pub llm : LlmPort
    pub scholarly : ScholarlySearchPort

module _ {W A : Type 0} where
  -- A counter is updated, then the delegate is called.
  unfoldable pub counted :
      (PipelineAccounting → PipelineAccounting) → Exec W A → Exec (PipelineAccounting × W) A
  counted update call (a, w) = let (result, w') = call w in (result, (update a, w'))

  abbrev finish_parse :
      (A → ℤ) → Result A → PipelineAccounting → W → Result A × (PipelineAccounting × W)
  finish_parse call_count (err e) a w = (err e, (a, w))
  finish_parse call_count (ok parsed) a w =
      let (checked, a') = complete_grobid_operation (call_count parsed) a in
      (elim checked [ ok _ ↦ ok parsed | err e ↦ err e ], (a', w))

  -- `AccountingPdfParser.parse`
  unfoldable pub parsed_with : (A → ℤ) → Exec W A → Exec (PipelineAccounting × W) A
  parsed_with call_count call (a, w) =
      let (result, w') = call w in finish_parse call_count result (begin_grobid_operation a) w'

  abbrev finish_model :
      (A → ModelUsage) → Result A → PipelineAccounting → W → Result A × (PipelineAccounting × W)
  finish_model usage (err e) a w = (err e, (a, w))
  finish_model usage (ok generated) a w =
      (ok generated, (complete_model_operation (usage generated) a, w))

  -- The body that the five methods of `AccountingLLM` share.
  unfoldable pub metered : (A → ModelUsage) → Exec W A → Exec (PipelineAccounting × W) A
  metered usage call (a, w) =
      let (result, w') = call w in finish_model usage result (begin_model_operation a) w'

module _ (T : PortTypes) (W : Type 0) where
  abbrev pub accounting_arxiv : ArxivPort T W → ArxivPort T (PipelineAccounting × W)
  accounting_arxiv delegate = record {
    list_updated_identifiers = λ day category resumption_token timeout_seconds.
        counted record_arxiv_operation
          (delegate.list_updated_identifiers day category resumption_token timeout_seconds);
    search = λ query updated_from updated_until max_results.
        counted record_arxiv_operation
          (delegate.search query updated_from updated_until max_results);
    get_papers_by_ids = λ canonical_arxiv_ids timeout_seconds.
        counted record_arxiv_operation
          (delegate.get_papers_by_ids canonical_arxiv_ids timeout_seconds);
    download_pdf = λ canonical_arxiv_id version pdf_url.
        counted record_arxiv_operation (delegate.download_pdf canonical_arxiv_id version pdf_url);
  }

  abbrev pub accounting_pdf_parser : PdfParserPort T W → PdfParserPort T (PipelineAccounting × W)
  accounting_pdf_parser delegate = record {
    parse = λ request. parsed_with T.call_count (delegate.parse request);
  }

  abbrev pub accounting_llm : LlmPort T W → LlmPort T (PipelineAccounting × W)
  accounting_llm delegate = record {
    analyze = λ request. metered T.analysis_usage (delegate.analyze request);
    plan_scholarly_search = λ request timeout_seconds.
        metered T.crawler_usage (delegate.plan_scholarly_search request timeout_seconds);
    select_prior_work = λ request timeout_seconds.
        metered T.selection_usage (delegate.select_prior_work request timeout_seconds);
    compare_papers = λ request. metered T.comparison_usage (delegate.compare_papers request);
    generate_report = λ request. metered T.report_usage (delegate.generate_report request);
  }

  abbrev pub accounting_scholarly_search :
      ScholarlySearchPort T W → ScholarlySearchPort T (PipelineAccounting × W)
  accounting_scholarly_search delegate = record {
    search_papers = λ query year_from year_to limit timeout_seconds.
        counted record_scholarly_operation
          (delegate.search_papers query year_from year_to limit timeout_seconds);
    get_paper = λ semantic_scholar_id timeout_seconds.
        counted record_scholarly_operation (delegate.get_paper semantic_scholar_id timeout_seconds);
    get_paper_by_arxiv_id = λ canonical_arxiv_id timeout_seconds.
        counted record_scholarly_operation
          (delegate.get_paper_by_arxiv_id canonical_arxiv_id timeout_seconds);
    get_references = λ semantic_scholar_id timeout_seconds.
        counted record_scholarly_operation
          (delegate.get_references semantic_scholar_id timeout_seconds);
    get_citations = λ semantic_scholar_id timeout_seconds.
        counted record_scholarly_operation
          (delegate.get_citations semantic_scholar_id timeout_seconds);
    get_recommendations = λ positive_paper_ids timeout_seconds.
        counted record_scholarly_operation
          (delegate.get_recommendations positive_paper_ids timeout_seconds);
  }

  abbrev pub accounting_ports : Ports T W → Ports T (PipelineAccounting × W)
  accounting_ports p = record {
    arxiv = accounting_arxiv p.arxiv;
    parser = accounting_pdf_parser p.parser;
    llm = accounting_llm p.llm;
    scholarly = accounting_scholarly_search p.scholarly;
  }
