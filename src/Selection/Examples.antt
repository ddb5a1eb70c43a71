-- ===== src/Selection/Examples.antt =====
-- Three papers, of which one is in no category of the topic and one matches a term in its title.
use domain_specific_paper_ha.Prelude.{◌≡◌, refl, true, List, [], ◌∷◌}
use domain_specific_paper_ha.Prelude.Int.{pos}
use domain_specific_paper_ha.Prelude.Text.{Text, codes, text_eq, is_space, strip}
use domain_specific_paper_ha.Prelude.Keys.{distinct, member}
use domain_specific_paper_ha.Result.{ok}
use domain_specific_paper_ha.Selection.Rank.{DailySelectionCandidate, TopicConfig, normalize, score}
use domain_specific_paper_ha.Selection.Daily.{DailySelection, selection_guards, select_daily_papers}
use domain_specific_paper_ha.Selection.Ordered.{IsSelection, select_daily_papers-IsSelection}
use domain_specific_paper_ha.Selection.Reordered.{select_daily_papers-Perm}
use mathlib.Core.List.Perm

abbrev as_it_is : Text → Text
as_it_is s = s

abbrev topic : TopicConfig
topic = record {
  categories = codes "cs.CL" ∷ [];
  include_terms = codes "retrieval" ∷ [];
  exclude_terms = codes "survey" ∷ [];
  max_results = 50;
  representative_full_text_count = 2;
}

abbrev candidate : Text → Text → Text → DailySelectionCandidate
candidate id title category = record {
  paper_id = id;
  paper_version_id = id;
  canonical_arxiv_id = id;
  title = title;
  abstract = codes "on retrieval";
  categories = category ∷ [];
  updated_at = record { instant = pos 7; is_aware = true };
}

abbrev candidates : List DailySelectionCandidate
candidates =
    candidate (codes "1") (codes "notes") (codes "cs.CL")
    ∷ candidate (codes "2") (codes "dense retrieval") (codes "cs.CL")
    ∷ candidate (codes "3") (codes "dense retrieval") (codes "cs.CV")
    ∷ []

spaces : normalize as_it_is as_it_is (codes "  dense   retrieval ") ≡ codes "dense retrieval"
unfolding normalize strip is_space
spaces = refl

points :
    score as_it_is as_it_is
      (codes "dense retrieval")
      (codes "on retrieval")
      (codes "retrieval" ∷ [])
    ≡ 3
unfolding score normalize strip is_space
points = refl

select_daily_papers-IsSelection_example :
    (d : DailySelection) × (select_daily_papers as_it_is as_it_is topic candidates 1 ≡ ok d)
    × IsSelection as_it_is as_it_is topic candidates 1 d
unfolding selection_guards distinct member text_eq
select_daily_papers-IsSelection_example =
    select_daily_papers-IsSelection as_it_is as_it_is topic candidates 1 (refl, (refl, tt))

abbrev other_order : List DailySelectionCandidate
other_order =
    candidate (codes "2") (codes "dense retrieval") (codes "cs.CL")
    ∷ candidate (codes "1") (codes "notes") (codes "cs.CL")
    ∷ candidate (codes "3") (codes "dense retrieval") (codes "cs.CV")
    ∷ []

select_daily_papers-Perm_example :
    select_daily_papers as_it_is as_it_is topic candidates 1
    ≡ select_daily_papers as_it_is as_it_is topic other_order 1
select_daily_papers-Perm_example =
    select_daily_papers-Perm as_it_is as_it_is topic candidates other_order 1 (
      Perm.swap (candidate (codes "2") (codes "dense retrieval") (codes "cs.CL"))
        (candidate (codes "1") (codes "notes") (codes "cs.CL"))
        (candidate (codes "3") (codes "dense retrieval") (codes "cs.CV") ∷ []))
