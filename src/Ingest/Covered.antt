-- ===== src/Ingest/Covered.antt =====
-- application/ingest_arxiv.py: the days and categories whose pages a log of the harvest has read.
use mathlib.Core.Path.{subst}
use domain_specific_paper_ha.Prelude.{
  Option-cases, ℕ, zero, suc, ◌+◌, ◌≤◌, ◌<◌, true, false, not, ◌≡◌, refl, sym, ap, ◌∙◌, ◌⊎◌, inl,
  inr, Option, none, some, is_some, List, [], ◌∷◌, length, ltb, arith, Bool-cases,
}
use domain_specific_paper_ha.Prelude.Text.{Text}
use domain_specific_paper_ha.Trends.Calendar.{Day}
use domain_specific_paper_ha.Ingest.Record.{ArxivPaperRecord}
use domain_specific_paper_ha.Ingest.Progress.{
  ArxivIdentifierPage, ArxivDiscoveryProgress, HarvestEvent, listed, saved,
}
use domain_specific_paper_ha.Ingest.Harvest.{
  HarvestRequest, category_at, looked, advanced, paged, first_progress,
}
use domain_specific_paper_ha.Ingest.Logs.{Log}

-- The pages of a day and a category were read up to a token, each followed by a checkpoint that has its
-- identifiers pending.
pub data IsAt (day : Day) (category : Text) : Option Text → Log → Type 0 where
  at_start : (log : Log) → IsAt day category none log
  at_page :
      (token : Option Text) (page : ArxivIdentifierPage) (next : Text)
      (progress : ArxivDiscoveryProgress) (records : List ArxivPaperRecord) (log : Log)
      → page.next_token ≡ some next
      → progress.pending_ids ≡ page.canonical_arxiv_ids
      → IsAt day category token log
      → IsAt day category
          (some next)
          (saved progress records ∷ listed day category token page ∷ log)
  at_later :
      (token : Option Text) (event : HarvestEvent) (log : Log)
      → IsAt day category token log
      → IsAt day category token (event ∷ log)

-- All pages of a day and a category were read, from the first to the one without a token.
pub data IsRead (day : Day) (category : Text) : Log → Type 0 where
  last_page :
      (token : Option Text) (page : ArxivIdentifierPage) (progress : ArxivDiscoveryProgress)
      (records : List ArxivPaperRecord) (log : Log)
      → page.next_token ≡ none
      → progress.pending_ids ≡ page.canonical_arxiv_ids
      → IsAt day category token log
      → IsRead day category (saved progress records ∷ listed day category token page ∷ log)
  read_later :
      (event : HarvestEvent) (log : Log)
      → IsRead day category log
      → IsRead day category (event ∷ log)

module _ (request : HarvestRequest) where
  -- The log has read all that comes before the progress.
  pub record IsCovered (log : Log) (p : ArxivDiscoveryProgress) : Type 0 where
    pub inside : request.day_from ≤ p.day
    pub before :
        (day : Day) (index : ℕ) (category : Text)
        → request.day_from ≤ day
        → (day < p.day) ⊎ ((day ≡ p.day) × (index < p.category_index))
        → category_at index p.progress_categories ≡ some category
        → IsRead day category log
    pub exhausted :
        (category : Text)
        → p.page_exhausted ≡ true
        → category_at p.category_index p.progress_categories ≡ some category
        → IsRead p.day category log
    pub reading :
        (category : Text)
        → p.page_exhausted ≡ false
        → category_at p.category_index p.progress_categories ≡ some category
        → IsAt p.day category p.resumption_token log
    pub token : p.page_exhausted ≡ true → p.resumption_token ≡ none
    pub finished :
        p.complete ≡ true
        → (p.page_exhausted ≡ true)
          × (request.day_to ≤ p.day)
          × (length p.progress_categories ≤ p.category_index + 1)
          × (p.pending_ids ≡ [])

  pub IsCovered-later :
      (event : HarvestEvent) (log : Log) (p : ArxivDiscoveryProgress)
      → IsCovered log p
      → IsCovered (event ∷ log) p
  IsCovered-later event log p h = record {
    inside = h.inside;
    before = λ d i c from earlier at. read_later event log (h.before d i c from earlier at);
    exhausted = λ c e at. read_later event log (h.exhausted c e at);
    reading = λ c e at. at_later p.resumption_token event log (h.reading c e at);
    token = h.token;
    finished = h.finished;
  }

  pub first_progress-IsCovered : (log : Log) → IsCovered log (first_progress request)
  unfolding first_progress
  first_progress-IsCovered log = record {
    inside = omega arith;
    before = λ d i c from earlier at.
        absurd
          (elim earlier [ inl lt ↦ omega (arith, from, lt) | inr same ↦ omega (arith, same.1) ]);
    exhausted = λ c e at. cc;
    reading = λ c e at. at_start log;
    token = λ e. cc;
    finished = λ e. cc;
  }

  -- A change of the pending identifiers of a progress that is not complete.
  pub looked-IsCovered :
      (log : Log) (p : ArxivDiscoveryProgress) (records : List ArxivPaperRecord)
      → p.complete ≡ false
      → IsCovered log p
      → IsCovered log (looked request p records)
  unfolding looked
  looked-IsCovered log p records going h = record {
    inside = h.inside;
    before = h.before;
    exhausted = h.exhausted;
    reading = h.reading;
    token = h.token;
    finished = λ e. let stuck : false ≡ true = sym going ∙ e in cc;
  }

  -- The listing starts again from the first page.
  pub restarted-IsCovered :
      (log : Log) (p : ArxivDiscoveryProgress)
      → p.complete ≡ false
      → IsCovered log p
      → IsCovered log (record p { resumption_token = none })
  restarted-IsCovered log p going h = record {
    inside = h.inside;
    before = h.before;
    exhausted = h.exhausted;
    reading = λ c e at. at_start log;
    token = λ e. refl;
    finished = λ e. let stuck : false ≡ true = sym going ∙ e in cc;
  }

  pub category_at-length :
      (i : ℕ) (cs : List Text) (c : Text) → category_at i cs ≡ some c → i < length cs
  unfolding category_at
  category_at-length i [] c h = cc
  category_at-length zero (x ∷ cs) c h = omega arith
  category_at-length (suc i) (x ∷ cs) c h = omega (arith, category_at-length i cs c h)

  -- What comes before a progress whose category is read, and that category.
  pub before_next :
      (log : Log) (p : ArxivDiscoveryProgress)
      → p.page_exhausted ≡ true
      → IsCovered log p
      → (d : Day) (i : ℕ) (c : Text) → request.day_from ≤ d
      → (d < p.day) ⊎ ((d ≡ p.day) × (i ≤ p.category_index))
      → category_at i p.progress_categories ≡ some c
      → IsRead d c log
  before_next log p e h d i c from earlier at = elim earlier [
    | inl lt ↦ h.before d i c from (inl lt) at
    | inr (same, le) ↦ elim (Bool-cases (ltb i p.category_index)) [
      | inl less ↦ h.before d i c from (inr (same, ground (arith, less))) at
      | inr full ↦
          let here : i ≡ p.category_index = ground (arith, le, full) in
          rw same (h.exhausted c e (ap (λ j. category_at j p.progress_categories) (sym here) ∙ at))
    ]
  ]

  next_category-IsCovered :
      (log : Log) (p : ArxivDiscoveryProgress)
      → p.complete ≡ false
      → p.page_exhausted ≡ true
      → IsCovered log p
      → IsCovered log (record p { category_index = p.category_index + 1; page_exhausted = false })
  next_category-IsCovered log p going e h = record {
    inside = h.inside;
    before = λ d i c from earlier at.
        before_next log p e h d i c from
          (elim earlier [ inl lt ↦ inl lt | inr (same, less) ↦ inr (same, omega (arith, less)) ])
          at;
    exhausted = λ c x at. cc;
    reading = λ c x at. rw (h.token e) (at_start log);
    token = λ x. cc;
    finished = λ x. let stuck : false ≡ true = sym going ∙ x in cc;
  }

  next_day-IsCovered :
      (log : Log) (p : ArxivDiscoveryProgress)
      → p.complete ≡ false
      → p.page_exhausted ≡ true
      → length p.progress_categories ≤ p.category_index + 1
      → IsCovered log p
      → IsCovered log (record p { day = p.day + 1; category_index = 0; page_exhausted = false })
  next_day-IsCovered log p going e last h = record {
    inside = omega (arith, h.inside);
    before = λ d i c from earlier at.
        let short = category_at-length i p.progress_categories c at in
        before_next log p e h d i c from
          (elim earlier [
            | inl lt ↦ elim (Bool-cases (ltb d p.day)) [
              | inl less ↦ inl (ground (arith, less))
              | inr equal ↦ inr (ground (arith, equal, lt), omega (arith, short, last))
            ]
            | inr (same, less) ↦ absurd (omega (arith, less))
          ])
          at;
    exhausted = λ c x at. cc;
    reading = λ c x at. rw (h.token e) (at_start log);
    token = λ x. cc;
    finished = λ x. let stuck : false ≡ true = sym going ∙ x in cc;
  }

  pub advanced-IsCovered :
      (log : Log) (p : ArxivDiscoveryProgress)
      → p.complete ≡ false
      → p.page_exhausted ≡ true
      → p.pending_ids ≡ []
      → IsCovered log p
      → IsCovered log (advanced request p)
  unfolding advanced
  advanced-IsCovered log p going e none_left h =
      elim (Bool-cases (ltb (p.category_index + 1) (length p.progress_categories))) [
        | inl more ↦ rw more (next_category-IsCovered log p going e h)
        | inr last ↦ elim (Bool-cases (ltb p.day request.day_to)) [
          | inl later ↦ rw (last, later) (next_day-IsCovered log p going e (ground (arith, last)) h)
          | inr over ↦
              rw (last, over)
                (record {
                  inside = h.inside;
                  before = h.before;
                  exhausted = h.exhausted;
                  reading = h.reading;
                  token = h.token;
                  finished = λ x. (e, ground (arith, over), ground (arith, last), none_left);
                })
        ]
      ]

  -- A page of the category of the progress was listed and stored.
  pub paged-IsCovered :
      (log : Log) (p : ArxivDiscoveryProgress) (category : Text) (page : ArxivIdentifierPage)
      (records : List ArxivPaperRecord)
      → p.complete ≡ false
      → p.page_exhausted ≡ false
      → category_at p.category_index p.progress_categories ≡ some category
      → IsCovered log p
      → IsCovered
          (saved (paged request p page) records
            ∷ listed p.day category p.resumption_token page
            ∷ log)
          (paged request p page)
  unfolding paged
  paged-IsCovered log p category page records going more here h =
      let listing = listed p.day category p.resumption_token page in
      let stored = saved (paged request p page) records in
      let at = h.reading category more here in
      record {
        inside = h.inside;
        before = λ d i c from earlier there.
            read_later stored (listing ∷ log)
              (read_later listing log (h.before d i c from earlier there));
        exhausted = λ c x there. elim (Option-cases page.next_token) [
          | inl end ↦
              subst (λ k. IsRead p.day k (stored ∷ listing ∷ log)) (cc)
                (last_page p.resumption_token page (paged request p page) records log end refl at)
          | inr (t, e) ↦ let stuck : false ≡ true = sym (ap (λ o. not (is_some o)) e) ∙ x in cc
        ];
        reading = λ c x there. elim (Option-cases page.next_token) [
          | inl end ↦ let stuck : true ≡ false = sym (ap (λ o. not (is_some o)) end) ∙ x in cc
          | inr (t, e) ↦
              let same : category ≡ c = cc in
              subst (λ k. IsAt p.day k page.next_token (stored ∷ listing ∷ log)) same
                (subst (λ o. IsAt p.day category o (stored ∷ listing ∷ log)) (sym e)
                  (at_page p.resumption_token page t (paged request p page) records log e refl at))
        ];
        token = λ x. elim (Option-cases page.next_token) [
          | inl end ↦ end
          | inr (t, e) ↦ let stuck : false ≡ true = sym (ap (λ o. not (is_some o)) e) ∙ x in cc
        ];
        finished = λ x. let stuck : false ≡ true = sym going ∙ x in cc;
      }
