-- ===== src/Ingest/Examples.antt =====
-- A day with one category, whose updates come in two pages.
use domain_specific_paper_ha.Prelude.{
  ℕ, suc, ◌≡◌, refl, false, true, Option, none, some, [], ◌∷◌, map, length, arith,
}
use domain_specific_paper_ha.Prelude.Int.{pos, ◌+ℤ◌}
use domain_specific_paper_ha.Prelude.Text.{Text, codes, text_eq}
use domain_specific_paper_ha.Prelude.Keys.{member}
use domain_specific_paper_ha.Result.{Result, ok}
use domain_specific_paper_ha.Lineage.Edge.{Datetime}
use domain_specific_paper_ha.Selection.Rank.{TopicConfig, same_texts}
use domain_specific_paper_ha.Ingest.Record.{ArxivPaperRecord}
use domain_specific_paper_ha.Ingest.Progress.{
  ArxivIdentifierPage, HarvestPorts, Harvesting, last_saved, save,
}
use domain_specific_paper_ha.Ingest.Harvest.{
  HarvestRequest, Loop, harvest, first_progress, first_loop,
}
use domain_specific_paper_ha.Ingest.Sound.{IsSound}
use domain_specific_paper_ha.Ingest.Harvested.{
  IsSound-nil, harvest-IsSound, IsHarvested, harvest-IsHarvested,
}
use domain_specific_paper_ha.Ingest.Ends.{harvest_returns}

abbrev noon : Datetime
noon = record { instant = pos 0; is_aware = true }

abbrev paper : Text → ArxivPaperRecord
paper id = record {
  canonical_arxiv_id = id;
  version = pos 1;
  title = codes "On graphs";
  abstract = codes "Graph retrieval";
  submitted_at = noon;
  updated_at = noon;
  primary_category = codes "cs.CL";
  categories = codes "cs.CL" ∷ [];
  authors = codes "A" ∷ [];
  pdf_url = codes "p";
  source_url = codes "s";
}

abbrev topic : TopicConfig
topic = record {
  categories = codes "cs.CL" ∷ [];
  include_terms = codes "graph" ∷ [];
  exclude_terms = [];
  max_results = 50;
  representative_full_text_count = 1;
}

abbrev as_it_is : Text → Text
as_it_is t = t

abbrev request : HarvestRequest
request = record {
  topic = topic;
  is_reprocess = false;
  cursor_to = noon;
  day_from = 738000;
  day_to = 738000;
  max_total = pos 900;
  max_pages = 100;
  nfkc = as_it_is;
  casefold = as_it_is;
  lower = as_it_is;
  digit_value = λ c. none;
}

abbrev page_of : Option Text → ArxivIdentifierPage
page_of none = record {
  canonical_arxiv_ids = codes "1" ∷ codes "2" ∷ [];
  next_token = some (codes "t");
}
page_of (some token) = record { canonical_arxiv_ids = codes "3" ∷ []; next_token = none }

-- The world is the time, which each reading of the clock takes one tick further.
abbrev ports : HarvestPorts ℕ
ports = record {
  monotonic = λ w. (pos w, suc w);
  clock = λ w. (noon, w);
  list_updated_identifiers = λ day category token timeout w. (ok (page_of token), w);
  get_papers_by_ids = λ ids timeout w. (ok (map paper ids), w);
  get_reprocessing_baseline_paper_version_ids = λ w. (ok [], w);
  get_analysis_targets_by_version_ids = λ ids w. (ok [], w);
  select_progress = λ w. (ok tt, w);
  lock_run = λ w. (ok tt, w);
  write = λ progress records at w. (ok tt, w);
}

abbrev start : Harvesting ℕ
start = record { world = 0; log = [] }

abbrev result : Option (Result Loop × Harvesting ℕ)
result = harvest request ports 6 start

abbrev loop_of : Option (Result Loop × Harvesting ℕ) → Loop
loop_of (some (ok l, s)) = l
loop_of _ = first_loop request ports (first_progress request)

abbrev state_of : Option (Result Loop × Harvesting ℕ) → Harvesting ℕ
state_of (some (r, s)) = s
state_of none = start

harvested : result ≡ some (ok (loop_of result), state_of result)
unfolding harvest last_saved save ◌+ℤ◌ text_eq same_texts member
harvested = refl

harvest-IsSound_example : IsSound request (state_of result).log
harvest-IsSound_example =
    harvest-IsSound request ports 6 start (ok (loop_of result), state_of result) harvested
      (IsSound-nil request)

harvest-IsHarvested_example : IsHarvested request ports (state_of result).log
harvest-IsHarvested_example =
    harvest-IsHarvested request ports 6 start (loop_of result) (state_of result) harvested
      (IsSound-nil request)

harvest_returns_example :
    (fuel : ℕ) × (r : Result Loop × Harvesting ℕ) × (harvest request ports fuel start ≡ some r)
harvest_returns_example = harvest_returns request ports start (omega arith)

-- The two pages, the two lookups, the first checkpoint, and one after each page, lookup and turn.
ten_events : length (state_of result).log ≡ 10
unfolding harvest last_saved save ◌+ℤ◌ text_eq same_texts member
ten_events = refl
