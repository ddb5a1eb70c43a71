-- ===== src/Ingest/Sound.antt =====
-- application/ingest_arxiv.py: the logs of harvests of one window, and what a checkpoint adds to them.
use mathlib.Core.Path.{subst}
use domain_specific_paper_ha.Prelude.{
  true, false, ◌≡◌, refl, sym, ap, ◌∙◌, inl, Option, some, List, [], ◌∷◌, arith,
}
use domain_specific_paper_ha.Prelude.Text.{Text}
use domain_specific_paper_ha.Prelude.Keys.{member}
use domain_specific_paper_ha.Ingest.Record.{ArxivPaperRecord}
use domain_specific_paper_ha.Ingest.Progress.{
  ArxivIdentifierPage, ArxivDiscoveryProgress, HarvestEvent, listed, looked_up, saved, last_saved,
}
use domain_specific_paper_ha.Ingest.Harvest.{HarvestRequest, Loop, advanced}
use domain_specific_paper_ha.Ingest.Logs.{Log}
use domain_specific_paper_ha.Ingest.Fetched.{
  IsKept, IsKept-listed, IsKept-looked_up, IsKept-saved, pending_of,
}
use domain_specific_paper_ha.Ingest.Covered.{IsCovered, IsCovered-later}

module _ (request : HarvestRequest) where
  -- The log of one or several harvests of a window.
  pub record IsSound (log : Log) : Type 0 where
    pub kept : IsKept request log
    pub covered : (p : ArxivDiscoveryProgress) → last_saved log ≡ some p → IsCovered request log p

  pub record IsLoop (l : Loop) (log : Log) : Type 0 where
    pub sound : IsSound log
    pub current : last_saved log ≡ some l.progress
    pub scope : l.progress.progress_categories ≡ request.topic.categories

  IsSound-quiet :
      (event : HarvestEvent) (log : Log)
      → last_saved (event ∷ log) ≡ last_saved log
      → IsKept request (event ∷ log)
      → IsSound log
      → IsSound (event ∷ log)
  IsSound-quiet event log same kept h = record {
    kept = kept;
    covered = λ p e. IsCovered-later request event log p (h.covered p (sym same ∙ e));
  }

  pub IsSound-listed :
      (day : _) (category : Text) (token : Option Text) (page : ArxivIdentifierPage) (log : Log)
      → IsSound log
      → IsSound (listed day category token page ∷ log)
  unfolding last_saved
  IsSound-listed day category token page log h =
      IsSound-quiet (listed day category token page) log refl
        (IsKept-listed request day category token page log h.kept) h

  pub IsSound-looked_up :
      (ids : List Text) (records : List ArxivPaperRecord) (log : Log)
      → IsSound log
      → IsSound (looked_up ids records ∷ log)
  unfolding last_saved
  IsSound-looked_up ids records log h =
      IsSound-quiet (looked_up ids records) log refl
        (IsKept-looked_up request ids records log h.kept) h

  pub IsSound-saved :
      (p : ArxivDiscoveryProgress) (records : List ArxivPaperRecord) (log : Log)
      → IsKept request (saved p records ∷ log)
      → IsCovered request (saved p records ∷ log) p
      → IsSound (saved p records ∷ log)
  unfolding last_saved
  IsSound-saved p records log kept covered = record {
    kept = kept;
    covered = λ q e. subst (IsCovered request (saved p records ∷ log)) (cc) covered;
  }

  -- A loop goes on with the progress that it stored.
  pub IsLoop-saved :
      (l : Loop) (records : List ArxivPaperRecord) (log after : Log)
      → after ≡ saved l.progress records ∷ log
      → IsSound (saved l.progress records ∷ log)
      → l.progress.progress_categories ≡ request.topic.categories
      → IsLoop l after
  unfolding last_saved
  IsLoop-saved l records log after e h scope =
      subst (IsLoop l) (sym e) (record { sound = h; current = refl; scope = scope })

  -- A checkpoint that keeps the pending identifiers.
  pub same_pending :
      (p : ArxivDiscoveryProgress) (records : List ArxivPaperRecord) (log : Log)
      (q : ArxivDiscoveryProgress)
      → last_saved log ≡ some q
      → p.pending_ids ≡ q.pending_ids
      → IsKept request log
      → IsKept request (saved p records ∷ log)
  same_pending p records log q current same kept =
      IsKept-saved request p records log kept
        (λ k waiting. inl (rw (same) (ap (λ o. member k (pending_of o)) (sym current) ∙ waiting)))

  pub advanced-pending :
      (p : ArxivDiscoveryProgress) → (advanced request p).pending_ids ≡ p.pending_ids
  unfolding advanced
  advanced-pending p = ground arith

  pub advanced-categories :
      (p : ArxivDiscoveryProgress)
      → (advanced request p).progress_categories ≡ p.progress_categories
  unfolding advanced
  advanced-categories p = ground arith

  pub nothing_pending :
      (k : Text) (l : Loop) (log : Log)
      → last_saved log ≡ some l.progress
      → l.progress.pending_ids ≡ []
      → member k (pending_of (last_saved log)) ≡ true
      → ⊥
  unfolding member
  nothing_pending k l log current empty waiting =
      let stuck : false ≡ true =
        ap (member k) (sym empty) ∙ ap (λ o. member k (pending_of o)) (sym current) ∙ waiting in
      cc
