-- ===== src/Selection/Ordered.antt =====
-- The daily selection is the bounded prefix of the ranking of the papers that pass the filter.
use mathlib.Core.List.{Memᴰ}
use mathlib.Core.List.Permᴰ
use mathlib.Core.Path.{subst}
use domain_specific_paper_ha.Prelude.{
  ℕ, ◌≤◌, ◌≡◌, refl, sym, ◌∙◌, true, false, List, [], ◌∷◌, arith, length, take, length-take, filter,
  map, length-filter, length-map,
}
use domain_specific_paper_ha.Prelude.Text.{Text, text_eq_iff, text_leb-total}
use domain_specific_paper_ha.Prelude.Keys.{text_eq_refl, distinct}
use domain_specific_paper_ha.Prelude.Sort.{sorted-IsOrdered, length-sorted}
use domain_specific_paper_ha.Prelude.Members.{Memᴰ-Perm, sorted-Permᴰ}
use domain_specific_paper_ha.Prelude.Reorder.{distinct-Perm, map-Perm}
use domain_specific_paper_ha.Result.{ok, AllPass, validated-AllPass}
use domain_specific_paper_ha.Selection.Rank.{
  DailySelectionCandidate, RankedDailyPaper, TopicConfig, same_texts, same_candidate, same_papers,
  rank_leb, is_eligible, ranked, normalize,
}
use domain_specific_paper_ha.Selection.Relevant.{
  IsRelevant, HasScore, IsRanked, is_eligible_iff, score-HasScore, IsOrdered-IsRanked,
}
use domain_specific_paper_ha.Selection.Passed.{
  version_of, passed-distinct, passed_sound, passed_total,
}
use domain_specific_paper_ha.Selection.Daily.{
  DailySelection, selection_checks, make_selection, selection_guards, ranking, select_daily_papers,
}

pub rank_leb-total : (a b : RankedDailyPaper) → rank_leb a b ≡ false → rank_leb b a ≡ true
unfolding rank_leb
rank_leb-total a b h = ground (
  arith,
  text_leb-total a.candidate.canonical_arxiv_id b.candidate.canonical_arxiv_id,
  text_leb-total a.candidate.paper_version_id b.candidate.paper_version_id,
  text_eq_iff a.candidate.canonical_arxiv_id b.candidate.canonical_arxiv_id,
  text_eq_iff b.candidate.canonical_arxiv_id a.candidate.canonical_arxiv_id,
)

same_texts_refl : (ts : List Text) → same_texts ts ts ≡ true
unfolding same_texts
same_texts_refl [] = refl
same_texts_refl (t ∷ ts) = ground (arith, text_eq_refl t, same_texts_refl ts)

same_candidate_refl : (c : DailySelectionCandidate) → same_candidate c c ≡ true
unfolding same_candidate
same_candidate_refl c = ground (
  arith,
  text_eq_refl c.paper_id,
  text_eq_refl c.paper_version_id,
  text_eq_refl c.canonical_arxiv_id,
  text_eq_refl c.title,
  text_eq_refl c.abstract,
  same_texts_refl c.categories,
)

same_papers_refl : (ps : List RankedDailyPaper) → same_papers ps ps ≡ true
unfolding same_papers
same_papers_refl [] = refl
same_papers_refl (p ∷ ps) = ground (arith, same_candidate_refl p.candidate, same_papers_refl ps)

module _ (nfkc casefold : Text → Text) (topic : TopicConfig) where
  -- A paper of the ranking: a candidate that is relevant, with its score.
  pub record IsOfCandidates (candidates : List DailySelectionCandidate) (r : RankedDailyPaper)
      : Type 0 where
    pub among : Memᴰ r.candidate candidates
    pub relevant : IsRelevant nfkc casefold topic r.candidate
    pub scored :
        HasScore nfkc casefold
          (normalize nfkc casefold r.candidate.title)
          (normalize nfkc casefold r.candidate.abstract)
          topic.include_terms
          r.relevance_score

  -- The relevant candidates with their scores, each once, in the order of the ranking, and as many of
  -- the first as the limit allows.
  pub record IsSelection (candidates : List DailySelectionCandidate) (limit : ℕ)
      (d : DailySelection) : Type 0 where
    pub sound : (r : RankedDailyPaper) → Memᴰ r d.eligible → IsOfCandidates candidates r
    pub total :
        (c : DailySelectionCandidate)
        → Memᴰ c candidates
        → IsRelevant nfkc casefold topic c
        → (r : RankedDailyPaper) × Memᴰ r d.eligible × (r.candidate ≡ c)
    pub apart : distinct (map version_of d.eligible) ≡ true
    pub in_order : IsRanked d.eligible
    pub prefix : d.selected ≡ take limit d.eligible
    pub evaluated : d.evaluated_count ≡ length candidates

  ranking_sound :
      (candidates : List DailySelectionCandidate) (r : RankedDailyPaper)
      → Memᴰ r (ranking nfkc casefold topic candidates)
      → IsOfCandidates candidates r
  unfolding ranking ranked
  ranking_sound candidates r m =
      let (c, among, pass, e) =
        passed_sound nfkc casefold topic r candidates (Memᴰ-Perm (sorted-Permᴰ rank_leb _) m) in
      subst (IsOfCandidates candidates) (sym e) (record {
        among = among;
        relevant = (is_eligible_iff nfkc casefold topic c).0 pass;
        scored =
            score-HasScore nfkc casefold (normalize nfkc casefold c.title)
              (normalize nfkc casefold c.abstract) topic.include_terms;
      })

  ranking_total :
      (candidates : List DailySelectionCandidate) (c : DailySelectionCandidate)
      → Memᴰ c candidates
      → IsRelevant nfkc casefold topic c
      → (r : RankedDailyPaper) × Memᴰ r (ranking nfkc casefold topic candidates) × (r.candidate ≡ c)
  unfolding ranking ranked
  ranking_total candidates c m relevant =
      let pass = (is_eligible_iff nfkc casefold topic c).1 relevant in
      (
        ranked nfkc casefold topic c,
        Memᴰ-Perm (Permᴰ.symm (sorted-Permᴰ rank_leb _))
            (passed_total nfkc casefold topic c candidates m pass),
        refl,
      )

  ranking-length :
      (candidates : List DailySelectionCandidate)
      → length (ranking nfkc casefold topic candidates) ≤ length candidates
  unfolding ranking
  ranking-length candidates =
      let passed = filter (is_eligible nfkc casefold topic) candidates in
      omega (
        arith,
        length-sorted rank_leb (map (ranked nfkc casefold topic) passed),
        length-map (ranked nfkc casefold topic) passed,
        length-filter (is_eligible nfkc casefold topic) candidates,
      )

  -- For candidates and a limit that pass the guards, the selection is made, and it accepts itself: its
  -- ranking holds, each once, the candidates that share a category with the topic and have no excluded
  -- term in title and abstract, scored by two points for a term in the title and one in the abstract;
  -- higher scores come first, then later updates, then the lesser identifiers; and the selected papers
  -- are its prefix up to the limit.
  pub select_daily_papers-IsSelection :
      (candidates : List DailySelectionCandidate) (limit : ℕ)
      → AllPass (selection_guards topic candidates limit)
      → (d : DailySelection) × (select_daily_papers nfkc casefold topic candidates limit ≡ ok d)
        × IsSelection candidates limit d
  unfolding select_daily_papers make_selection selection_checks selection_guards ranking
  select_daily_papers-IsSelection candidates limit pass =
      let eligible = ranking nfkc casefold topic candidates in
      let d : DailySelection = record {
        eligible = eligible;
        selected = take limit eligible;
        evaluated_count = length candidates;
        limit = limit;
      } in
      let counts = ranking-length candidates in
      let short = length-take limit eligible in
      (
        d,
        rw (validated-AllPass candidates (selection_guards topic candidates limit) pass) (
            validated-AllPass d (selection_checks d)
              (ground arith, (rw (same_papers_refl (take limit eligible)) refl, tt))),
        record {
          sound = ranking_sound candidates;
          total = ranking_total candidates;
          apart =
              distinct-Perm (map-Perm version_of (sorted-Permᴰ rank_leb _))
              ∙ passed-distinct nfkc casefold topic candidates (ground (arith, pass.1.0));
          in_order = IsOrdered-IsRanked _ (sorted-IsOrdered rank_leb rank_leb-total _);
          prefix = refl;
          evaluated = refl;
        },
      )
