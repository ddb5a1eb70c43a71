-- ===== src/Ranking/Examples.antt =====
-- Signals of a paper that was found by every way, and texts with two words of three in common.
use domain_specific_paper_ha.Prelude.{
  ℕ, Option, ap, ◌≡◌, refl, ◌+◌, true, none, some, leb, [], ◌∷◌, map, arith, if◌then◌else◌, ◌&&◌,
}
use domain_specific_paper_ha.Prelude.Int.{pos, negsuc, ◌*ℤ◌}
use domain_specific_paper_ha.Prelude.Text.{Text, codes, text_eq}
use domain_specific_paper_ha.Prelude.Keys.{member, unique}
use domain_specific_paper_ha.Result.{ok}
use domain_specific_paper_ha.Ranking.Ratio.{IsUnit}
use domain_specific_paper_ha.Ranking.Lexical.{matches, lexical_similarity}
use domain_specific_paper_ha.Ranking.Similar.{lexical_similarity_comm}
use domain_specific_paper_ha.Ranking.Signals.{
  RankingSignals, CandidateScoreComponents, Float, ratio_of, finite, make_signals,
  combine_ranking_signals,
}
use domain_specific_paper_ha.Ranking.Combined.{IsProper, IsScores, combine_ranking_signals-IsScores}

abbrev signals : RankingSignals
signals = record {
  semantic_scholar_rank = some (pos 2);
  semantic_scholar_result_count = pos 4;
  lexical_score = finite (record { num = pos 2; den = 3 });
  cosine_similarity = some (finite (record { num = negsuc 0; den = 2 }));
  shared_entity_count = pos 1;
  source_entity_count = pos 5;
  citation_related = true;
  recommendation_related = true;
}

abbrev den_of : Option Float → ℕ
den_of none = 1
den_of (some f) = (ratio_of f).den

signals-IsProper : IsProper signals
signals-IsProper = record { lexical = omega arith; cosine = λ f e. omega (arith, ap den_of e) }

signals_are_accepted : make_signals signals ≡ ok signals
unfolding make_signals ◌*ℤ◌
signals_are_accepted = refl

combine_ranking_signals-IsScores_example :
    (c : CandidateScoreComponents) × (combine_ranking_signals signals ≡ ok c) × IsScores signals c
combine_ranking_signals-IsScores_example =
    combine_ranking_signals-IsScores signals signals-IsProper signals_are_accepted

-- ASCII's lower case.
abbrev casefold : Text → Text
casefold s = map (λ c. if leb b'A' c && leb c b'Z' then c + 32 else c) s

tokens_of_title :
    matches (codes "Graph-based RAG, v2")
    ≡ codes "Graph" ∷ codes "based" ∷ codes "RAG" ∷ codes "v2" ∷ []
unfolding matches
tokens_of_title = refl

two_of_three :
    lexical_similarity casefold (codes "Graph RAG") (codes "a RAG graph, a GRAPH")
    ≡ record { num = pos 2; den = 3 }
unfolding lexical_similarity unique member text_eq
two_of_three = refl

lexical_similarity_comm_example :
    (lexical_similarity casefold (codes "Graph RAG") (codes "a RAG graph")
      ≡ lexical_similarity casefold (codes "a RAG graph") (codes "Graph RAG"))
    × IsUnit (lexical_similarity casefold (codes "Graph RAG") (codes "a RAG graph"))
lexical_similarity_comm_example =
    lexical_similarity_comm casefold (codes "Graph RAG") (codes "a RAG graph")
