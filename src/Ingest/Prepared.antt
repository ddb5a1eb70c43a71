-- ===== src/Ingest/Prepared.antt =====
-- application/ingest_arxiv.py: what a harvest does before its loop, new or resumed.
use mathlib.Core.Path.{subst}
use domain_specific_paper_ha.Prelude.{
  Bool, true, false, not, ◌||◌, ◌≡◌, refl, sym, ap, ◌∙◌, inl, inr, Option, none, some, List, [],
  ◌∷◌, arith, map, Bool-cases, if◌then◌else◌,
}
use mathlib.Core.Path.{ap₂}
use domain_specific_paper_ha.Prelude.Text.{Text, text_eq, text_eq_iff, text_leb}
use domain_specific_paper_ha.Prelude.Keys.{member, same_set, unique}
use domain_specific_paper_ha.Prelude.Sort.{sorted}
use domain_specific_paper_ha.Prelude.Int.{ℤ, ◌+ℤ◌}
use domain_specific_paper_ha.Result.{Result, ok, err, Result-cases, each_result}
use domain_specific_paper_ha.Selection.Rank.{same_texts}
use domain_specific_paper_ha.Exec.{Exec, continue, pure, ◌>>◌}
use domain_specific_paper_ha.Ingest.Record.{ArxivPaperRecord, make_record}
use domain_specific_paper_ha.Ingest.Query.{build_arxiv_query}
use domain_specific_paper_ha.Ingest.Progress.{
  ArxivDiscoveryProgress, HarvestPorts, Harvesting, saved, last_saved, get_ingestion_progress,
}
use domain_specific_paper_ha.Ingest.Harvest.{
  HarvestRequest, first_progress, checkpoint, baseline_records, started, prepared, first_loop,
}
use domain_specific_paper_ha.Ingest.Logs.{Log, Gives, stored, refused, save-Saves}
use domain_specific_paper_ha.Ingest.Fetched.{IsKept, IsKept-saved, pending_of}
use domain_specific_paper_ha.Ingest.Covered.{first_progress-IsCovered}
use domain_specific_paper_ha.Ingest.Sound.{IsSound, IsLoop, IsSound-saved, IsLoop-saved}

same_texts-eq : (ss ts : List Text) → same_texts ss ts ≡ true → ss ≡ ts
unfolding same_texts
same_texts-eq [] [] h = refl
same_texts-eq [] (t ∷ ts) h = cc
same_texts-eq (s ∷ ss) [] h = cc
same_texts-eq (s ∷ ss) (t ∷ ts) h =
    ap₂ ◌∷◌ ((text_eq_iff s t).0 (ground (arith, h))) (same_texts-eq ss ts (ground (arith, h)))

module _ (request : HarvestRequest) where
  module _ {W : Type 0} (ports : HarvestPorts W) where
    -- A block that adds nothing to the log.
    abbrev IsQuiet : {A : Type 0} → Log → Result A × Harvesting W → Type 0
    IsQuiet log = Gives (λ _ after. after ≡ log) (λ after. after ≡ log)

    baseline_records-IsQuiet : (s : Harvesting W) → IsQuiet s.log (baseline_records request ports s)
    unfolding baseline_records
    baseline_records-IsQuiet s =
        elim (Result-cases (ports.get_reprocessing_baseline_paper_version_ids s.world).0) [
          | inr (x, e) ↦ rw e refl
          | inl (ids, e) ↦
              let w = (ports.get_reprocessing_baseline_paper_version_ids s.world).1 in
              let asked =
                ports.get_analysis_targets_by_version_ids (sorted text_leb (unique ids)) w in
              elim (Result-cases asked.0) [
                | inr (x, f) ↦ rw (e, f) refl
                | inl (targets, f) ↦
                    elim (Bool-cases (not (same_set (map (λ t. t.version_id) targets) ids))) [
                      | inl lost ↦ rw (e, f, lost) refl
                      | inr all ↦
                          elim (Result-cases (
                            each_result (make_record request.digit_value request.lower)
                              (map (λ t. t.arxiv) targets))) [
                                | inr (x, g) ↦ rw (e, f, all, g) refl
                                | inl (v, g) ↦ rw (e, f, all, g) refl
                              ]
                    ]
              ]
        ]

    if-IsQuiet :
        (b : Bool) (x y : Exec (Harvesting W) (List ArxivPaperRecord)) (s : Harvesting W)
        → IsQuiet s.log (x s)
        → IsQuiet s.log (y s)
        → IsQuiet s.log ((if b then x else y) s)
    if-IsQuiet true x y s h k = h
    if-IsQuiet false x y s h k = k

    -- The first checkpoint of a harvest, after the records of the baseline.
    first_saved-Gives :
        (log : Log) (r : Result (List ArxivPaperRecord) × Harvesting W)
        → IsQuiet log r
        → last_saved log ≡ none
        → IsSound request log
        → Gives
            (λ p after. IsLoop request (first_loop request ports p) after)
            (IsSound request)
            (continue
              (λ records.
                checkpoint request ports (first_progress request) records
                >> pure (first_progress request))
              r)
    unfolding first_progress member
    first_saved-Gives log (err x, s) quiet fresh h = subst (IsSound request) (sym quiet) h
    first_saved-Gives log (ok records, s) quiet fresh h =
        let p = first_progress request in
        let sound =
          IsSound-saved request p records s.log
            (IsKept-saved request p records s.log (subst (IsKept request) (sym quiet) h.kept)
              (λ k waiting.
                let stuck : false ≡ true =
                  sym (
                    ap (λ l. member k (pending_of (last_saved l))) quiet
                    ∙ ap (λ o. member k (pending_of o)) fresh)
                  ∙ waiting in
                cc))
            (first_progress-IsCovered request (saved p records ∷ s.log)) in
        elim (save-Saves ports request.day_from request.day_to p records s) [
          | refused x s' q k ↦ rw q (subst (IsSound request) (sym (k ∙ quiet)) h)
          | stored s' q k ↦
              rw q (
                IsLoop-saved request (first_loop request ports p) records s.log s'.log k sound refl)
        ]

    started-Gives :
        (o : Option ArxivDiscoveryProgress) (s : Harvesting W)
        → last_saved s.log ≡ o
        → IsSound request s.log
        → Gives
            (λ p after. IsLoop request (first_loop request ports p) after)
            (IsSound request)
            (started request ports o s)
    unfolding started
    started-Gives none s fresh h =
        first_saved-Gives s.log
          ((if request.is_reprocess then baseline_records request ports else pure []) s)
          (if-IsQuiet request.is_reprocess (baseline_records request ports) (pure []) s
            (baseline_records-IsQuiet s) refl)
          fresh h
    started-Gives (some p) s current h =
        let other =
          not (text_eq p.query (build_arxiv_query request.topic))
          || not (same_texts p.progress_categories request.topic.categories) in
        elim (Bool-cases other) [
          | inl changed ↦ rw changed h
          | inr unchanged ↦ rw unchanged (record {
            sound = h;
            current = current;
            scope =
                same_texts-eq p.progress_categories request.topic.categories
                  (ground (arith, unchanged));
          })
        ]

    timed :
        (r : Result ArxivDiscoveryProgress × Harvesting W)
        → Gives (λ p after. IsLoop request (first_loop request ports p) after) (IsSound request) r
        → Gives
            (λ (made : ArxivDiscoveryProgress × ℤ) after.
              IsLoop request (first_loop request ports made.0) after)
            (IsSound request)
            (continue
              (λ p s. (
                ok (p, (ports.monotonic s.world).0 +ℤ request.max_total),
                record s { world = (ports.monotonic s.world).1 },
              ))
              r)
    timed (ok p, s) h = h
    timed (err x, s) h = h

    pub prepared-Gives :
        (s : Harvesting W)
        → IsSound request s.log
        → Gives
            (λ (made : ArxivDiscoveryProgress × ℤ) after.
              IsLoop request (first_loop request ports made.0) after)
            (IsSound request)
            (prepared request ports s)
    unfolding prepared get_ingestion_progress
    prepared-Gives s h = elim (Result-cases (ports.select_progress s.world).0) [
      | inr (x, e) ↦ rw e h
      | inl (v, e) ↦
          let s₁ = record s { world = (ports.select_progress s.world).1 } in
          rw e (
            timed (started request ports (last_saved s.log) s₁)
              (started-Gives (last_saved s.log) s₁ refl h))
    ]
