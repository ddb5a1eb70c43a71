-- ===== src/Selection/Rank.antt =====
-- application/daily_selection.py: `DailySelectionCandidate`, `RankedDailyPaper`, `_normalize`, the
-- score and the sort key. Unicode's `NFKC` form and `str.casefold` are parameters.
use domain_specific_paper_ha.Prelude.{
  ℕ, ◌+◌, Bool, true, false, not, ◌&&◌, ◌||◌, List, [], ◌∷◌, ◌++◌, any, ltb, ◌==◌, is_nil,
  if◌then◌else◌,
}
use domain_specific_paper_ha.Prelude.Int.{ltb_ℤ, eqb_ℤ}
use domain_specific_paper_ha.Prelude.Text.{Text, Uuid, text_eq, text_leb, is_space, strip, contains}
use domain_specific_paper_ha.Prelude.Keys.{member}
use domain_specific_paper_ha.Result.{Result, Check, validated, value_error}
use domain_specific_paper_ha.Identity.Graph.{is_blank}
use domain_specific_paper_ha.Lineage.Edge.{Datetime}

pub record DailySelectionCandidate : Type 0 where
  pub paper_id : Uuid
  pub paper_version_id : Uuid
  pub canonical_arxiv_id : Text
  pub title : Text
  pub abstract : Text
  pub categories : List Text
  pub updated_at : Datetime

unfoldable pub candidate_checks : DailySelectionCandidate → List Check
candidate_checks c =
    (
      is_blank c.title || (is_blank c.abstract || is_nil c.categories),
      value_error "daily selection candidate metadata is incomplete",
    )
    ∷ (
      not c.updated_at.is_aware,
      value_error "daily selection candidate timestamp must be timezone-aware",
    )
    ∷ []

unfoldable pub make_candidate : DailySelectionCandidate → Result DailySelectionCandidate
unfolding candidate_checks
make_candidate c = validated c (candidate_checks c)

-- The score is a sum of ones and twos, so the check that it is not negative always passes.
pub record RankedDailyPaper : Type 0 where
  pub candidate : DailySelectionCandidate
  pub relevance_score : ℕ

-- The fields of domain/models.py, `TopicConfig`, that the selection and the ingestion read.
pub record TopicConfig : Type 0 where
  pub categories : List Text
  pub include_terms : List Text
  pub exclude_terms : List Text
  pub max_results : ℕ
  pub representative_full_text_count : ℕ

-- `re.sub(r"\s+", " ", value)`, where `blank` tells that a blank was read last.
unfoldable pub collapse : Bool → Text → Text
unfolding is_space
collapse blank [] = []
collapse blank (c ∷ s) =
    let skip = collapse true s in
    let rest = collapse false s in
    if is_space c then if blank then skip else b' ' ∷ skip else c ∷ rest

-- `topic_categories.intersection(candidate.categories)`
unfoldable pub shares : List Text → List Text → Bool
shares topic_categories categories = any (λ c. member c topic_categories) categories

unfoldable pub same_texts : List Text → List Text → Bool
same_texts [] [] = true
same_texts (s ∷ ss) (t ∷ ts) = text_eq s t && same_texts ss ts
same_texts _ _ = false

-- `==` of two candidates.
unfoldable pub same_candidate : DailySelectionCandidate → DailySelectionCandidate → Bool
unfolding same_texts
same_candidate a b =
    text_eq a.paper_id b.paper_id
    && (text_eq a.paper_version_id b.paper_version_id
        && (text_eq a.canonical_arxiv_id b.canonical_arxiv_id
            && (text_eq a.title b.title
                && (text_eq a.abstract b.abstract
                    && (same_texts a.categories b.categories
                        && eqb_ℤ a.updated_at.instant b.updated_at.instant)))))

unfoldable pub same_papers : List RankedDailyPaper → List RankedDailyPaper → Bool
unfolding same_candidate
same_papers [] [] = true
same_papers (a ∷ more_a) (b ∷ more_b) =
    a.relevance_score == b.relevance_score
    && (same_candidate a.candidate b.candidate && same_papers more_a more_b)
same_papers _ _ = false

-- The order of the sort: higher scores, later updates, then the identifiers.
unfoldable pub rank_leb : RankedDailyPaper → RankedDailyPaper → Bool
rank_leb a b =
    if not (a.relevance_score == b.relevance_score)
    then ltb b.relevance_score a.relevance_score
    else if not (eqb_ℤ a.candidate.updated_at.instant b.candidate.updated_at.instant)
    then ltb_ℤ b.candidate.updated_at.instant a.candidate.updated_at.instant
    else if not (text_eq a.candidate.canonical_arxiv_id b.candidate.canonical_arxiv_id)
    then text_leb a.candidate.canonical_arxiv_id b.candidate.canonical_arxiv_id
    else text_leb a.candidate.paper_version_id b.candidate.paper_version_id

module _ (nfkc casefold : Text → Text) where
  -- `_normalize`
  unfoldable pub normalize : Text → Text
  unfolding collapse
  normalize value = casefold (strip (collapse false (nfkc value)))

  -- The points of one term; a term that is normalized to nothing has none.
  unfoldable pub term_points : Text → Text → Text → ℕ
  unfolding contains normalize
  term_points title abstract term =
      let t = normalize term in
      if is_nil t
      then 0
      else (if contains t title then 2 else 0) + (if contains t abstract then 1 else 0)

  unfoldable pub score : Text → Text → List Text → ℕ
  unfolding term_points
  score title abstract [] = 0
  score title abstract (term ∷ terms) = term_points title abstract term + score title abstract terms

  -- The candidate is not skipped by either `continue`.
  unfoldable pub is_eligible : TopicConfig → DailySelectionCandidate → Bool
  unfolding contains normalize shares
  is_eligible topic c =
      shares topic.categories c.categories
      && not (
          any (λ term. contains (normalize term) (normalize c.title ++ b' ' ∷ normalize c.abstract))
            topic.exclude_terms)

  unfoldable pub ranked : TopicConfig → DailySelectionCandidate → RankedDailyPaper
  unfolding score normalize
  ranked topic c = record {
    candidate = c;
    relevance_score = score (normalize c.title) (normalize c.abstract) topic.include_terms;
  }
