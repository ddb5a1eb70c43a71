-- ===== src/Accounting/Calls.antt =====
-- A Daily run as the sequence of port calls that it makes, over any ports. The same sequence is run
-- over bare ports, which yields the events, and over the accounting wrappers.
use domain_specific_paper_ha.Prelude.{Option, none, some, List, [], ◌∷◌}
use domain_specific_paper_ha.Prelude.Int.{ℤ}
use domain_specific_paper_ha.Result.{Result, ok, err}
use domain_specific_paper_ha.Exec.{Exec}
use domain_specific_paper_ha.Accounting.Usage.{ModelUsage}
use domain_specific_paper_ha.Accounting.Counters.{PipelineAccounting}
use domain_specific_paper_ha.Accounting.Ports.{PortTypes, Ports, accounting_ports}

-- What one call did, as far as the accounting is concerned; `none` stands for a raised exception.
pub data Event : Type 0 where
  arxiv_event : Event
  scholarly_event : Event
  grobid_event : Option ℤ → Event
  model_event : Option ModelUsage → Event

abbrev returned : {A B : Type 0} → (A → B) → Result A → Option B
returned f (ok a) = some (f a)
returned f (err e) = none

module _ (T : PortTypes) where
  open T use {Day, Text, Seconds, Number, Instant}

  -- A call of a method of one of the ports, with its arguments.
  pub data Call : Type 0 where
    list_updated_identifiers : Day → Text → Option Text → Option Seconds → Call
    search : Text → Instant → Instant → Number → Call
    get_papers_by_ids : List Text → Option Seconds → Call
    download_pdf : Text → Number → Text → Call
    parse : T.PdfParseRequest → Call
    analyze : T.AnalysisRequest → Call
    plan_scholarly_search : T.CrawlerPlanRequest → Option Seconds → Call
    select_prior_work : T.CandidateSelectionRequest → Option Seconds → Call
    compare_papers : T.ComparisonRequest → Call
    generate_report : T.ReportNarrativeRequest → Call
    search_papers : Text → Number → Number → Number → Option Seconds → Call
    get_paper : Text → Option Seconds → Call
    get_paper_by_arxiv_id : Text → Option Seconds → Call
    get_references : Text → Option Seconds → Call
    get_citations : Text → Option Seconds → Call
    get_recommendations : List Text → Option Seconds → Call

  module _ {W : Type 0} (p : Ports T W) where
    abbrev as_event : {A : Type 0} → (Result A → Event) → Exec W A → W → Event × W
    as_event f call w = let (result, w') = call w in (f result, w')

    abbrev pub invoke : Call → W → Event × W
    invoke (list_updated_identifiers d c r t) =
        as_event (λ _. arxiv_event) (p.arxiv.list_updated_identifiers d c r t)
    invoke (search q f u m) = as_event (λ _. arxiv_event) (p.arxiv.search q f u m)
    invoke (get_papers_by_ids ids t) = as_event (λ _. arxiv_event) (p.arxiv.get_papers_by_ids ids t)
    invoke (download_pdf i v u) = as_event (λ _. arxiv_event) (p.arxiv.download_pdf i v u)
    invoke (parse r) = as_event (λ x. grobid_event (returned T.call_count x)) (p.parser.parse r)
    invoke (analyze r) = as_event (λ x. model_event (returned T.analysis_usage x)) (p.llm.analyze r)
    invoke (plan_scholarly_search r t) =
        as_event (λ x. model_event (returned T.crawler_usage x)) (p.llm.plan_scholarly_search r t)
    invoke (select_prior_work r t) =
        as_event (λ x. model_event (returned T.selection_usage x)) (p.llm.select_prior_work r t)
    invoke (compare_papers r) =
        as_event (λ x. model_event (returned T.comparison_usage x)) (p.llm.compare_papers r)
    invoke (generate_report r) =
        as_event (λ x. model_event (returned T.report_usage x)) (p.llm.generate_report r)
    invoke (search_papers q f u l t) =
        as_event (λ _. scholarly_event) (p.scholarly.search_papers q f u l t)
    invoke (get_paper i t) = as_event (λ _. scholarly_event) (p.scholarly.get_paper i t)
    invoke (get_paper_by_arxiv_id i t) =
        as_event (λ _. scholarly_event) (p.scholarly.get_paper_by_arxiv_id i t)
    invoke (get_references i t) = as_event (λ _. scholarly_event) (p.scholarly.get_references i t)
    invoke (get_citations i t) = as_event (λ _. scholarly_event) (p.scholarly.get_citations i t)
    invoke (get_recommendations ids t) =
        as_event (λ _. scholarly_event) (p.scholarly.get_recommendations ids t)

    -- An exception ends only its own call: the pipeline records a failed item and goes on.
    unfoldable pub events : List Call → W → List Event
    events [] w = []
    events (c ∷ cs) w = (invoke c w).0 ∷ events cs (invoke c w).1

    unfoldable pub final_world : List Call → W → W
    final_world [] w = w
    final_world (c ∷ cs) w = final_world cs (invoke c w).1

  -- The same calls through the wrappers.
  unfoldable pub serve :
      {W : Type 0} → Ports T W → List Call → PipelineAccounting × W → PipelineAccounting × W
  unfolding final_world
  serve {W} p calls s = final_world (accounting_ports T W p) calls s
