-- ===== src/Selection/Daily.antt =====
-- application/daily_selection.py: `DailySelection` and `select_daily_papers`.
use domain_specific_paper_ha.Prelude.{ℕ, not, ◌||◌, List, [], ◌∷◌, length, take, filter, map, ltb}
use domain_specific_paper_ha.Prelude.Text.{Text}
use domain_specific_paper_ha.Prelude.Keys.{distinct}
use domain_specific_paper_ha.Prelude.Sort.{sorted}
use domain_specific_paper_ha.Result.{Result, Check, validated, value_error, ◌>>=◌}
use domain_specific_paper_ha.Selection.Rank.{
  DailySelectionCandidate, RankedDailyPaper, TopicConfig, same_papers, rank_leb, is_eligible,
  ranked,
}

pub record DailySelection : Type 0 where
  pub eligible : List RankedDailyPaper
  pub selected : List RankedDailyPaper
  pub evaluated_count : ℕ
  pub limit : ℕ

unfoldable pub selection_checks : DailySelection → List Check
unfolding same_papers
selection_checks d =
    (
      ltb d.evaluated_count (length d.eligible) || ltb d.limit (length d.selected),
      value_error "daily selection counts are inconsistent",
    )
    ∷ (
      not (same_papers d.selected (take d.limit d.eligible)),
      value_error "daily selection must be the bounded prefix of the stable ranking",
    )
    ∷ []

unfoldable pub make_selection : DailySelection → Result DailySelection
unfolding selection_checks
make_selection d = validated d (selection_checks d)

unfoldable pub selection_guards : TopicConfig → List DailySelectionCandidate → ℕ → List Check
selection_guards topic candidates limit =
    (
      ltb limit 1 || ltb topic.representative_full_text_count limit,
      value_error "daily selection limit exceeds the configured topic bound",
    )
    ∷ (
      not (distinct (map (λ c. c.paper_id) candidates))
          || not (distinct (map (λ c. c.paper_version_id) candidates)),
      value_error "daily selection candidates must have unique paper and version IDs",
    )
    ∷ []

module _ (nfkc casefold : Text → Text) where
  -- `eligible`
  unfoldable pub ranking : TopicConfig → List DailySelectionCandidate → List RankedDailyPaper
  unfolding rank_leb is_eligible ranked
  ranking topic candidates =
      sorted rank_leb
        (map (ranked nfkc casefold topic) (filter (is_eligible nfkc casefold topic) candidates))

  unfoldable pub select_daily_papers :
      TopicConfig → List DailySelectionCandidate → ℕ → Result DailySelection
  unfolding selection_guards ranking make_selection
  select_daily_papers topic candidates limit = do
    values ← validated candidates (selection_guards topic candidates limit)
    make_selection (record {
      eligible = ranking topic values;
      selected = take limit (ranking topic values);
      evaluated_count = length values;
      limit = limit;
    })
