-- ===== src/Ingest/Progress.antt =====
-- ports/arxiv.py: `ArxivIdentifierPage` and `ArxivDiscoveryProgress`; and `persist_ingestion_progress`
-- of adapters/postgres/repository.py. The clocks, arXiv and the statements of the database are
-- parameters over a world `W`. A log of what happened is kept beside the world, newest first; the
-- progress that the database holds is the last one that the log saved.
use domain_specific_paper_ha.Prelude.{
  ℕ, Bool, false, not, ◌&&◌, ◌||◌, Option, none, some, List, [], ◌∷◌, leb, if◌then◌else◌,
}
use domain_specific_paper_ha.Prelude.Int.{ℤ}
use domain_specific_paper_ha.Prelude.Text.{Text, Uuid, text_eq}
use domain_specific_paper_ha.Result.{Result, Error, ok, value_error, repository_integrity}
use domain_specific_paper_ha.Exec.{Exec, raise, pure, ◌>>=◌, ◌>>◌}
use domain_specific_paper_ha.Lineage.Edge.{Datetime}
use domain_specific_paper_ha.Trends.Calendar.{Day}
use domain_specific_paper_ha.Selection.Rank.{same_texts}
use domain_specific_paper_ha.Ingest.Record.{ArxivPaperRecord}

pub record ArxivIdentifierPage : Type 0 where
  pub canonical_arxiv_ids : List Text
  pub next_token : Option Text

pub record ArxivDiscoveryProgress : Type 0 where
  pub query : Text
  pub progress_categories : List Text
  pub day : Day
  pub category_index : ℕ
  pub resumption_token : Option Text
  pub pending_ids : List Text
  pub page_exhausted : Bool
  pub complete : Bool

-- A paper version of the baseline, with its record.
pub record AnalysisTarget : Type 0 where
  pub version_id : Uuid
  pub arxiv : ArxivPaperRecord

pub data HarvestEvent : Type 0 where
  -- a page of the updates of a day and a category, from a token on
  listed : Day → Text → Option Text → ArxivIdentifierPage → HarvestEvent
  -- the records of the identifiers that were asked for
  looked_up : List Text → List ArxivPaperRecord → HarvestEvent
  -- a transaction that stored the progress and records
  saved : ArxivDiscoveryProgress → List ArxivPaperRecord → HarvestEvent

pub record HarvestPorts (W : Type 0) : Type 0 where
  pub monotonic : W → ℤ × W
  pub clock : W → Datetime × W
  pub list_updated_identifiers : Day → Text → Option Text → ℤ → W → Result ArxivIdentifierPage × W
  pub get_papers_by_ids : List Text → ℤ → W → Result (List ArxivPaperRecord) × W
  pub get_reprocessing_baseline_paper_version_ids : W → Result (List Uuid) × W
  pub get_analysis_targets_by_version_ids : List Uuid → W → Result (List AnalysisTarget) × W
  -- the statements: the select of the progress, the lock of a running ingestion of the topic, and the
  -- writes with the commit
  pub select_progress : W → Result (Unit {0}) × W
  pub lock_run : W → Result (Unit {0}) × W
  pub write : ArxivDiscoveryProgress → List ArxivPaperRecord → Datetime → W → Result (Unit {0}) × W

pub record Harvesting (W : Type 0) : Type 0 where
  pub world : W
  pub log : List HarvestEvent

unfoldable pub last_saved : List HarvestEvent → Option ArxivDiscoveryProgress
last_saved [] = none
last_saved (saved progress records ∷ log) = some progress
last_saved (listed day category token page ∷ log) = last_saved log
last_saved (looked_up ids records ∷ log) = last_saved log

abbrev pub outside : Day → Day → Day → Bool
outside day_from day_to day = not (leb day_from day && leb day day_to)

-- A checkpoint whose scope is not the one that is saved, or after the last one.
unfoldable pub is_refused : Option ArxivDiscoveryProgress → ArxivDiscoveryProgress → Bool
is_refused none progress = false
is_refused (some existing) progress =
    not (text_eq existing.query progress.query)
    || (not (same_texts existing.progress_categories progress.progress_categories)
        || existing.complete)

module _ {W : Type 0} where
  abbrev pub call {ℓ} : {A : Type ℓ} → (W → A × W) → Exec (Harvesting W) A
  call f s = (ok (f s.world).0, record s { world = (f s.world).1 })

  abbrev pub attempt {ℓ} : {A : Type ℓ} → (W → Result A × W) → Exec (Harvesting W) A
  attempt f s = ((f s.world).0, record s { world = (f s.world).1 })

  abbrev pub happens : HarvestEvent → Exec (Harvesting W) (Unit {0})
  happens event s = (ok tt, record s { log = event ∷ s.log })

  abbrev pub check : Bool → Error → Exec (Harvesting W) (Unit {0})
  check fails e = if fails then raise e else pure tt

module _ {W : Type 0} (ports : HarvestPorts W) where
  -- `_aware_now`
  unfoldable pub aware_now : Exec (Harvesting W) Datetime
  aware_now = call ports.clock >>= λ now.
      if now.is_aware
      then pure now
      else raise (value_error "ingestion clock must return a timezone-aware datetime")

  unfoldable pub get_ingestion_progress : Exec (Harvesting W) (Option ArxivDiscoveryProgress)
  get_ingestion_progress = attempt ports.select_progress >>= λ _. λ s. (ok (last_saved s.log), s)

  module _ (day_from day_to : Day) where
    -- `persist_ingestion_progress`: one transaction, so a raise stores nothing.
    unfoldable pub persist_ingestion_progress :
        ArxivDiscoveryProgress → List ArxivPaperRecord → Datetime → Exec (Harvesting W) (Unit {0})
    unfolding last_saved is_refused
    persist_ingestion_progress progress records persisted_at =
        attempt ports.lock_run
        >> (check (outside day_from day_to progress.day)
              (repository_integrity "discovery checkpoint is outside its fixed window")
            >> ((λ s.
                  check (is_refused (last_saved s.log) progress)
                    (repository_integrity
                      "discovery checkpoint scope changed or is already complete")
                    s)
                >> (attempt (ports.write progress records persisted_at)
                    >> happens (saved progress records))))

    -- The checkpoint with records, at the time of the clock.
    unfoldable pub save :
        ArxivDiscoveryProgress → List ArxivPaperRecord → Exec (Harvesting W) (Unit {0})
    unfolding aware_now persist_ingestion_progress
    save progress records = aware_now >>= persist_ingestion_progress progress records
