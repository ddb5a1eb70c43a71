-- ===== src/Ingest/Harvest.antt =====
-- application/ingest_arxiv.py: `_harvest`, a loop that lists the updates of each day and category and
-- looks the identifiers up, with a checkpoint after each step.
use domain_specific_paper_ha.Prelude.{
  ℕ, zero, suc, ◌+◌, Bool, true, false, not, ◌&&◌, ◌||◌, Option, none, some, is_some, List, [], ◌∷◌,
  ◌++◌, map, take, filter, length, min, is_nil, ltb, leb, if◌then◌else◌,
}
use domain_specific_paper_ha.Prelude.Int.{ℤ, ◌+ℤ◌, ◌-ℤ◌, leb_ℤ}
use domain_specific_paper_ha.Prelude.Text.{Text, text_eq, text_leb}
use domain_specific_paper_ha.Prelude.Keys.{member, same_set, unique}
use domain_specific_paper_ha.Prelude.Sort.{sorted}
use domain_specific_paper_ha.Result.{
  Result, Error, ok, err, each_result, arxiv_token_expired, arxiv_discovery_incomplete,
  arxiv_response_invalid, repository_integrity, ingestion_resume, external_error,
}
use domain_specific_paper_ha.Exec.{Exec, raise, pure, ◌>>=◌, ◌>>◌}
use domain_specific_paper_ha.Lineage.Edge.{Datetime}
use domain_specific_paper_ha.Trends.Calendar.{Day}
use domain_specific_paper_ha.Selection.Rank.{TopicConfig, same_texts}
use domain_specific_paper_ha.Ingest.Record.{ArxivPaperRecord, make_record, normalized_within}
use domain_specific_paper_ha.Ingest.Query.{matches_arxiv_topic, build_arxiv_query}
use domain_specific_paper_ha.Ingest.Progress.{
  ArxivIdentifierPage, ArxivDiscoveryProgress, HarvestPorts, Harvesting, listed, looked_up, call,
  attempt, happens, check, save, get_ingestion_progress,
}

abbrev pub max_arxiv_id_lookup : ℕ
max_arxiv_id_lookup = 200

-- The arguments of `_harvest`, the budgets of the object, and the parameters that it computes with.
pub record HarvestRequest : Type 0 where
  pub topic : TopicConfig
  pub is_reprocess : Bool
  pub cursor_to : Datetime
  -- `cursor_from.date()` and `cursor_to.date()`
  pub day_from : Day
  pub day_to : Day
  pub max_total : ℤ
  pub max_pages : ℕ
  pub nfkc : Text → Text
  pub casefold : Text → Text
  pub lower : Text → Text
  pub digit_value : ℕ → Option ℕ

-- The local variables of the loop.
pub record Loop : Type 0 where
  pub progress : ArxivDiscoveryProgress
  pub pages : ℕ
  pub token_restarts : ℕ

unfoldable pub drop : ℕ → List Text → List Text
drop zero xs = xs
drop (suc n) [] = []
drop (suc n) (x ∷ xs) = drop n xs

-- `progress.categories[index]`
unfoldable pub category_at : ℕ → List Text → Option Text
category_at n [] = none
category_at zero (c ∷ cs) = some c
category_at (suc n) (c ∷ cs) = category_at n cs

abbrev pub ids_of : List ArxivPaperRecord → List Text
ids_of records = map (λ r. r.canonical_arxiv_id) records

-- Two tokens are both there and equal.
unfoldable pub is_same_token : Option Text → Option Text → Bool
is_same_token (some s) (some t) = text_eq s t
is_same_token _ _ = false

abbrev pub is_token_expired : Error → Bool
is_token_expired (arxiv_token_expired message) = true
is_token_expired _ = false

module _ (request : HarvestRequest) where
  -- The looked-up records that are stored.
  unfoldable pub accepted : List ArxivPaperRecord → List ArxivPaperRecord
  unfolding normalized_within matches_arxiv_topic
  accepted records =
      filter
        (λ r.
          matches_arxiv_topic request.nfkc request.casefold request.topic r
          && (not request.is_reprocess || leb_ℤ r.updated_at.instant request.cursor_to.instant))
        (normalized_within none records)

  abbrev pub batch : ArxivDiscoveryProgress → List Text
  batch progress = take (min request.topic.max_results max_arxiv_id_lookup) progress.pending_ids

  abbrev pub missing : List Text → List ArxivPaperRecord → List Text
  missing ids records = filter (λ k. not (member k (ids_of records))) ids

  unfoldable pub looked : ArxivDiscoveryProgress → List ArxivPaperRecord → ArxivDiscoveryProgress
  unfolding drop
  looked progress records = record progress {
    pending_ids =
        missing (batch progress) records ++ drop (length (batch progress)) progress.pending_ids;
  }

  -- After the last page of a category.
  unfoldable pub advanced : ArxivDiscoveryProgress → ArxivDiscoveryProgress
  advanced progress =
      if ltb (progress.category_index + 1) (length progress.progress_categories)
      then record progress { category_index = progress.category_index + 1; page_exhausted = false }
      else if ltb progress.day request.day_to
      then record progress { day = progress.day + 1; category_index = 0; page_exhausted = false }
      else record progress { complete = true }

  unfoldable pub paged : ArxivDiscoveryProgress → ArxivIdentifierPage → ArxivDiscoveryProgress
  paged progress page = record progress {
    pending_ids = page.canonical_arxiv_ids;
    resumption_token = page.next_token;
    page_exhausted = not (is_some page.next_token);
  }

  unfoldable pub first_progress : ArxivDiscoveryProgress
  unfolding build_arxiv_query
  first_progress = record {
    query = build_arxiv_query request.topic;
    progress_categories = request.topic.categories;
    day = request.day_from;
    category_index = 0;
    resumption_token = none;
    pending_ids = [];
    page_exhausted = false;
    complete = false;
  }

  module _ {W : Type 0} (ports : HarvestPorts W) where
    abbrev pub checkpoint :
        ArxivDiscoveryProgress → List ArxivPaperRecord → Exec (Harvesting W) (Unit {0})
    checkpoint = save ports request.day_from request.day_to

    unfoldable pub look_up : ℤ → Loop → Exec (Harvesting W) Loop
    unfolding accepted looked
    look_up deadline l = call ports.monotonic >>= λ now.
        attempt (ports.get_papers_by_ids (batch l.progress) (deadline -ℤ now)) >>= λ records.
        happens (looked_up (batch l.progress) records)
        >> (checkpoint (looked l.progress records) (accepted records)
            >> (check (not (is_nil (missing (batch l.progress) records)))
                  (arxiv_response_invalid "arXiv metadata lookup omitted required identities")
                >> pure (record l { progress = looked l.progress records })))

    unfoldable pub go_on : Loop → Exec (Harvesting W) Loop
    unfolding advanced
    go_on l =
        checkpoint (advanced l.progress) [] >> pure (record l { progress = advanced l.progress })

    -- What follows the answer of a listing; `l` has counted the page.
    unfoldable pub after_page : Loop → Text → Result ArxivIdentifierPage → Exec (Harvesting W) Loop
    unfolding paged is_same_token
    after_page l category (err e) =
        if is_token_expired e && (is_some l.progress.resumption_token && ltb l.token_restarts 2)
        then checkpoint (record l.progress { resumption_token = none }) []
          >> pure (record l {
            progress = record l.progress { resumption_token = none };
            token_restarts = l.token_restarts + 1;
          })
        else raise e
    after_page l category (ok page) =
        happens (listed l.progress.day category l.progress.resumption_token page)
        >> (check (is_same_token page.next_token l.progress.resumption_token) (
              arxiv_response_invalid
                "arXiv OAI returned the same continuation token without advancing")
            >> (checkpoint (paged l.progress page) []
                >> pure (record l { progress = paged l.progress page })))

    abbrev pub list_page : ℤ → Loop → Text → Exec (Harvesting W) Loop
    list_page deadline l category = call ports.monotonic >>= λ now.
        call (
          ports.list_updated_identifiers l.progress.day category l.progress.resumption_token
            (deadline -ℤ now))
        >>= after_page (record l { pages = l.pages + 1 }) category

    unfoldable pub next_page : ℤ → Loop → Exec (Harvesting W) Loop
    unfolding after_page category_at
    next_page deadline l =
        check (leb request.max_pages l.pages)
          (arxiv_discovery_incomplete "arXiv discovery page budget exhausted")
        >> (elim (category_at l.progress.category_index l.progress.progress_categories) [
          | none ↦ raise (external_error "IndexError: tuple index out of range")
          | some category ↦ list_page deadline l category
        ])

    -- The body of `while not progress.complete`.
    unfoldable pub harvest_round : ℤ → Loop → Exec (Harvesting W) Loop
    unfolding look_up go_on next_page
    harvest_round deadline l = call ports.monotonic >>= λ now.
        check (leb_ℤ deadline now)
          (arxiv_discovery_incomplete "arXiv discovery time budget exhausted")
        >> (if not (is_nil l.progress.pending_ids)
            then look_up deadline l
            else if l.progress.page_exhausted
            then go_on l
            else next_page deadline l)

    -- The loop goes on with what a round returned.
    abbrev pub continued :
        (Loop → Harvesting W → Option (Result Loop × Harvesting W))
        → Result Loop × Harvesting W
        → Option (Result Loop × Harvesting W)
    continued rest (ok l, s) = rest l s
    continued rest (err e, s) = some (err e, s)

    -- `while not progress.complete`; `none` where the fuel is used up.
    unfoldable pub harvest_loop : ℕ → ℤ → Loop → Harvesting W → Option (Result Loop × Harvesting W)
    unfolding harvest_round
    harvest_loop zero deadline l s = if l.progress.complete then some (ok l, s) else none
    harvest_loop (suc fuel) deadline l s = elim l.progress.complete [
      | true ↦ some (ok l, s)
      | false ↦ continued (harvest_loop fuel deadline) (harvest_round deadline l s)
    ]

    unfoldable pub baseline_records : Exec (Harvesting W) (List ArxivPaperRecord)
    baseline_records = attempt ports.get_reprocessing_baseline_paper_version_ids >>= λ baseline_ids.
        attempt (ports.get_analysis_targets_by_version_ids (sorted text_leb (unique baseline_ids)))
        >>= λ targets.
            check (not (same_set (map (λ t. t.version_id) targets) baseline_ids))
              (repository_integrity "reprocessing baseline lost its topic-owned versions")
            >> (λ s. (
              each_result (make_record request.digit_value request.lower)
                  (map (λ t. t.arxiv) targets),
              s,
            ))

    -- The progress that the loop starts with.
    unfoldable pub started :
        Option ArxivDiscoveryProgress → Exec (Harvesting W) ArxivDiscoveryProgress
    unfolding first_progress baseline_records
    started none = (if request.is_reprocess then baseline_records else pure []) >>= λ records.
        checkpoint first_progress records >> pure first_progress
    started (some progress) =
        check
          (not (text_eq progress.query (build_arxiv_query request.topic))
            || not (same_texts progress.progress_categories request.topic.categories))
          (ingestion_resume "resumable arXiv discovery topic scope changed")
        >> pure progress

    -- What comes before the loop, with the deadline.
    unfoldable pub prepared : Exec (Harvesting W) (ArxivDiscoveryProgress × ℤ)
    unfolding started get_ingestion_progress
    prepared = get_ingestion_progress ports >>= started >>= λ progress.
        call ports.monotonic >>= λ now. pure (progress, now +ℤ request.max_total)

    abbrev pub first_loop : ArxivDiscoveryProgress → Loop
    first_loop progress = record { progress = progress; pages = 0; token_restarts = 0 }

    abbrev pub looped :
        ℕ → Result (ArxivDiscoveryProgress × ℤ) × Harvesting W → Option (Result Loop × Harvesting W)
    looped fuel (ok (progress, deadline), s) = harvest_loop fuel deadline (first_loop progress) s
    looped fuel (err e, s) = some (err e, s)

    unfoldable pub harvest : ℕ → Harvesting W → Option (Result Loop × Harvesting W)
    unfolding prepared harvest_loop
    harvest fuel s = looped fuel (prepared s)
