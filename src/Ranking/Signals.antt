-- ===== src/Ranking/Signals.antt =====
-- application/historical_ranking.py: `RankingSignals` and `combine_ranking_signals`, and
-- domain/historical.py: `CandidateScoreComponents`.
use domain_specific_paper_ha.Prelude.{
  Bool, false, not, ◌&&◌, Option, none, some, List, [], ◌∷◌, ◌++◌, option_is, if◌then◌else◌,
}
use domain_specific_paper_ha.Prelude.Int.{ℤ, pos, negsuc, ◌+ℤ◌, ◌-ℤ◌, ltb_ℤ, leb_ℤ, eqb_ℤ, min_ℤ}
use domain_specific_paper_ha.Result.{Result, Check, validated, domain_invariant}
use domain_specific_paper_ha.Ranking.Ratio.{
  Ratio, whole, quotient, add, weigh, halve, leb_ratio, clamp,
}

-- A `float`: one for which `math.isfinite` is true has a ratio.
pub data Float : Type 0 where
  finite : Ratio → Float
  not_finite : Float

-- The ratio of a float that is finite, as every one that is computed with.
abbrev pub ratio_of : Float → Ratio
ratio_of (finite a) = a
ratio_of not_finite = whole (pos 0)

abbrev pub is_between : Ratio → Ratio → Float → Bool
is_between low high (finite a) = leb_ratio low a && leb_ratio a high
is_between low high not_finite = false

pub record RankingSignals : Type 0 where
  pub semantic_scholar_rank : Option ℤ
  pub semantic_scholar_result_count : ℤ
  pub lexical_score : Float
  pub cosine_similarity : Option Float
  pub shared_entity_count : ℤ
  pub source_entity_count : ℤ
  pub citation_related : Bool
  pub recommendation_related : Bool

-- The checks of the rank, by whether there is one.
unfoldable pub rank_checks : Option ℤ → ℤ → List Check
rank_checks (some rank) result_count =
    (
      not (leb_ℤ (pos 1) rank && leb_ℤ rank result_count),
      domain_invariant "Semantic Scholar rank must fit its result count",
    )
    ∷ []
rank_checks none result_count =
    (
      not (eqb_ℤ result_count (pos 0)),
      domain_invariant "Semantic Scholar result count requires a rank",
    )
    ∷ []

unfoldable pub signals_checks : RankingSignals → List Check
unfolding rank_checks
signals_checks s =
    rank_checks s.semantic_scholar_rank s.semantic_scholar_result_count
    ++ (
      not (is_between (whole (pos 0)) (whole (pos 1)) s.lexical_score),
      domain_invariant "lexical score must be between zero and one",
    )
      ∷ (
        option_is (λ c. not (is_between (whole (negsuc 0)) (whole (pos 1)) c)) s.cosine_similarity,
        domain_invariant "cosine similarity must be between minus one and one",
      )
      ∷ (
        ltb_ℤ (min_ℤ s.shared_entity_count s.source_entity_count) (pos 0),
        domain_invariant "entity counts cannot be negative",
      )
      ∷ (
        ltb_ℤ s.source_entity_count s.shared_entity_count,
        domain_invariant "shared entity count cannot exceed source entities",
      )
      ∷ []

unfoldable pub make_signals : RankingSignals → Result RankingSignals
unfolding signals_checks
make_signals s = validated s (signals_checks s)

pub record CandidateScoreComponents : Type 0 where
  pub semantic_scholar : Ratio
  pub lexical : Ratio
  pub vector : Ratio
  pub entity_overlap : Ratio
  pub citation : Ratio
  pub recommendation : Ratio
  pub final : Ratio

-- `_require_unit_score` of a finite score; the message begins with the score's name.
abbrev pub is_unit_score : Ratio → Bool
is_unit_score a = leb_ratio (whole (pos 0)) a && leb_ratio a (whole (pos 1))

unfoldable pub components_checks : CandidateScoreComponents → List Check
components_checks c =
    (
      not (is_unit_score c.semantic_scholar),
      domain_invariant "semantic_scholar must be a finite score between zero and one",
    )
    ∷ (
      not (is_unit_score c.lexical),
      domain_invariant "lexical must be a finite score between zero and one",
    )
    ∷ (
      not (is_unit_score c.vector),
      domain_invariant "vector must be a finite score between zero and one",
    )
    ∷ (
      not (is_unit_score c.entity_overlap),
      domain_invariant "entity_overlap must be a finite score between zero and one",
    )
    ∷ (
      not (is_unit_score c.citation),
      domain_invariant "citation must be a finite score between zero and one",
    )
    ∷ (
      not (is_unit_score c.recommendation),
      domain_invariant "recommendation must be a finite score between zero and one",
    )
    ∷ (
      not (is_unit_score c.final),
      domain_invariant "final must be a finite score between zero and one",
    )
    ∷ []

unfoldable pub make_components : CandidateScoreComponents → Result CandidateScoreComponents
unfolding components_checks
make_components c = validated c (components_checks c)

unfoldable pub semantic_scholar_of : RankingSignals → Ratio
unfolding quotient
semantic_scholar_of s = elim s.semantic_scholar_rank [
  | none ↦ whole (pos 0)
  | some rank ↦
      quotient (s.semantic_scholar_result_count -ℤ rank +ℤ pos 1) s.semantic_scholar_result_count
]

unfoldable pub vector_of : RankingSignals → Ratio
unfolding add halve
vector_of s = elim s.cosine_similarity [
  | none ↦ whole (pos 0)
  | some cosine ↦ halve (add (ratio_of cosine) (whole (pos 1)))
]

unfoldable pub entity_overlap_of : RankingSignals → Ratio
unfolding quotient
entity_overlap_of s =
    if eqb_ℤ s.source_entity_count (pos 0)
    then whole (pos 0)
    else quotient s.shared_entity_count s.source_entity_count

abbrev pub flag_score : Bool → Ratio
flag_score related = if related then whole (pos 1) else whole (pos 0)

-- `final`, before it is clamped; the weights are hundredths.
unfoldable pub weighted_sum : RankingSignals → Ratio
unfolding semantic_scholar_of vector_of entity_overlap_of add weigh
weighted_sum s =
    add
      (add
        (add
          (add (add (weigh 25 (semantic_scholar_of s)) (weigh 20 (ratio_of s.lexical_score)))
            (weigh 30 (vector_of s)))
          (weigh 10 (entity_overlap_of s)))
        (weigh 10 (flag_score s.citation_related)))
      (weigh 5 (flag_score s.recommendation_related))

unfoldable pub components_of : RankingSignals → CandidateScoreComponents
unfolding weighted_sum semantic_scholar_of vector_of entity_overlap_of
components_of s = record {
  semantic_scholar = semantic_scholar_of s;
  lexical = ratio_of s.lexical_score;
  vector = vector_of s;
  entity_overlap = entity_overlap_of s;
  citation = flag_score s.citation_related;
  recommendation = flag_score s.recommendation_related;
  final = clamp (weighted_sum s);
}

unfoldable pub combine_ranking_signals : RankingSignals → Result CandidateScoreComponents
unfolding make_components components_of
combine_ranking_signals s = make_components (components_of s)
