-- ===== src/Ingest/Query.antt =====
-- application/arxiv_query.py. Unicode's NFKC form and `str.casefold` are parameters.
use domain_specific_paper_ha.Prelude.{
  Bool, not, ◌&&◌, List, [], ◌∷◌, ◌++◌, map, any, is_nil, if◌then◌else◌,
}
use domain_specific_paper_ha.Prelude.Text.{Text, codes, contains}
use domain_specific_paper_ha.Identity.Joined.{one_line}
use domain_specific_paper_ha.Selection.Rank.{TopicConfig, shares}
use domain_specific_paper_ha.Ingest.Record.{ArxivPaperRecord}

module _ (nfkc casefold : Text → Text) where
  unfoldable pub matches_arxiv_topic : TopicConfig → ArxivPaperRecord → Bool
  unfolding one_line shares contains
  matches_arxiv_topic topic r =
      let normalized = λ (value : Text). one_line (casefold (nfkc value)) in
      let content = normalized (r.title ++ b' ' ∷ r.abstract) in
      shares topic.categories r.categories
      && (any (λ term. contains (normalized term) content) topic.include_terms
          && not (any (λ term. contains (normalized term) content) topic.exclude_terms))

-- `" OR ".join(parts)`
unfoldable pub or_joined : List Text → Text
or_joined [] = []
or_joined (part ∷ []) = part
or_joined (part ∷ next ∷ parts) = part ++ (codes " OR " ++ or_joined (next ∷ parts))

abbrev all_term : Text → Text
all_term term = codes "all:\"" ++ (term ++ codes "\"")

unfoldable pub build_arxiv_query : TopicConfig → Text
unfolding or_joined
build_arxiv_query topic =
    let query =
      codes "("
      ++ (or_joined (map (λ c. codes "cat:" ++ c) topic.categories)
          ++ (codes ") AND (" ++ (or_joined (map all_term topic.include_terms) ++ codes ")"))) in
    if is_nil topic.exclude_terms
    then query
    else query ++ (codes " ANDNOT (" ++ (or_joined (map all_term topic.exclude_terms) ++ codes ")"))
