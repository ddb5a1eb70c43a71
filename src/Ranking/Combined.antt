-- ===== src/Ranking/Combined.antt =====
-- application/historical_ranking.py: the scores that `combine_ranking_signals` makes of accepted
-- signals.
use mathlib.Core.Path.{subst}
use domain_specific_paper_ha.Prelude.{
  ap, ℕ, suc, ◌+◌, ◌-◌, ◌*◌, ◌≤◌, ◌≡◌, refl, inl, inr, Bool, true, false, not, some, List, [], ◌∷◌,
  arith, Bool-cases, Option-cases, option_is, ◌++◌,
}
use domain_specific_paper_ha.Prelude.Int.{
  ℤ, pos, negsuc, ◌+ℤ◌, ◌-ℤ◌, ◌*ℤ◌, ltb_ℤ, leb_ℤ, min_ℤ, eqb_ℤ, +ℤ_parts, -ℤ_parts,
}
use domain_specific_paper_ha.Result.{ok, Check, AllPass, validated-AllPass, validated-eq-ok}
use domain_specific_paper_ha.Ranking.Ratio.{
  Ratio, IsUnit, IsSame, whole, quotient, halve, add, add-IsUpTo, weigh-IsUpTo, whole-IsUnit,
  quotient-IsUnit, clamp-IsClampOf,
}
use domain_specific_paper_ha.Ranking.Signals.{
  Float, finite, not_finite, ratio_of, is_between, RankingSignals, rank_checks, signals_checks,
  make_signals, CandidateScoreComponents, is_unit_score, components_checks, make_components,
  semantic_scholar_of, vector_of, entity_overlap_of, flag_score, weighted_sum, components_of,
  combine_ranking_signals,
}

unit_score-IsUnit : (a : Ratio) → IsUnit a → is_unit_score a ≡ true
unfolding ◌*ℤ◌
unit_score-IsUnit a h = let n = h.amount in rw (h.is_amount) (ground (arith, h.below))

flag_score-IsUnit : (related : Bool) → IsUnit (flag_score related)
flag_score-IsUnit true = whole-IsUnit 1 (omega arith)
flag_score-IsUnit false = whole-IsUnit 0 (omega arith)

quotient-of_bounds :
    (a b : ℤ)
    → leb_ℤ (pos 0) a ≡ true
    → leb_ℤ a b ≡ true
    → leb_ℤ (pos 1) b ≡ true
    → IsUnit (quotient a b)
quotient-of_bounds (pos a) (pos b) h k l = quotient-IsUnit a b (ground arith) (ground arith)
quotient-of_bounds (pos a) (negsuc b) h k l = absurd (ground arith)
quotient-of_bounds (negsuc a) b h k l = absurd (ground arith)

-- The ratio of a numerator and a denominator.
abbrev ratio : ℤ → ℕ → Ratio
ratio n d = record { num = n; den = d }

IsUnit-of_between :
    (n : ℤ) (d : ℕ)
    → 1 ≤ d
    → is_between (whole (pos 0)) (whole (pos 1)) (finite (ratio n d)) ≡ true
    → IsUnit (ratio n d)
unfolding ◌*ℤ◌
IsUnit-of_between (pos n) d p h = record {
  proper = p;
  amount = n;
  is_amount = refl;
  below = ground (arith, h);
}
IsUnit-of_between (negsuc n) d p h = absurd (ground (arith, h))

halved-num :
    (n : ℤ) (d : ℕ)
    → 1 ≤ d
    → is_between (whole (negsuc 0)) (whole (pos 1)) (finite (ratio n d)) ≡ true
    → (k : ℕ) × ((1 *ℤ n) +ℤ (d *ℤ pos 1) ≡ pos k) × (k ≤ 2 * d)
unfolding ◌*ℤ◌ ◌+ℤ◌
halved-num (pos n) d p h = (n + d, ground (arith, h), ground (arith, h))
halved-num (negsuc n) d p h = (d - suc n, ground (arith, h), ground (arith, h))

halved-IsUnit :
    (n : ℤ) (d : ℕ)
    → 1 ≤ d
    → is_between (whole (negsuc 0)) (whole (pos 1)) (finite (ratio n d)) ≡ true
    → IsUnit (halve (add (ratio n d) (whole (pos 1))))
unfolding halve add
halved-IsUnit n d p h =
    let (k, e, small) = halved-num n d p h in
    record { proper = omega (arith, p); amount = k; is_amount = e; below = omega (arith, small) }

-- The floats of the signals are ratios: their denominators are positive.
pub record IsProper (s : RankingSignals) : Type 0 where
  pub lexical : 1 ≤ (ratio_of s.lexical_score).den
  pub cosine : (f : Float) → s.cosine_similarity ≡ some f → 1 ≤ (ratio_of f).den

AllPass-split : (first rest : List Check) → AllPass (first ++ rest) → AllPass first × AllPass rest
AllPass-split [] rest h = (tt, h)
AllPass-split ((c, e) ∷ first) rest h =
    let (more, last) = AllPass-split first rest h.1 in ((h.0, more), last)

semantic_scholar_of-IsUnit :
    (s : RankingSignals)
    → AllPass (rank_checks s.semantic_scholar_rank s.semantic_scholar_result_count)
    → IsUnit (semantic_scholar_of s)
unfolding semantic_scholar_of rank_checks
semantic_scholar_of-IsUnit s h = elim (Option-cases s.semantic_scholar_rank) [
  | inl absent ↦ rw absent (whole-IsUnit 0 (omega arith))
  | inr (rank, e) ↦
      let passed : AllPass (rank_checks (some rank) s.semantic_scholar_result_count) =
        subst (λ r. AllPass (rank_checks r s.semantic_scholar_result_count)) e h in
      let fits = passed.0 in
      let count = s.semantic_scholar_result_count in
      let less = -ℤ_parts count rank in
      let more = +ℤ_parts (count -ℤ rank) (pos 1) in
      rw e (
        quotient-of_bounds (count -ℤ rank +ℤ pos 1) count (ground (arith, fits, less, more))
          (ground (arith, fits, less, more)) (ground (arith, fits)))
]

between-of_lexical :
    (f : Float)
    → 1 ≤ (ratio_of f).den
    → is_between (whole (pos 0)) (whole (pos 1)) f ≡ true
    → IsUnit (ratio_of f)
between-of_lexical (finite a) p h = IsUnit-of_between a.num a.den p h
between-of_lexical not_finite p h = cc

vector-of_cosine :
    (f : Float)
    → 1 ≤ (ratio_of f).den
    → is_between (whole (negsuc 0)) (whole (pos 1)) f ≡ true
    → IsUnit (halve (add (ratio_of f) (whole (pos 1))))
vector-of_cosine (finite a) p h = halved-IsUnit a.num a.den p h
vector-of_cosine not_finite p h = cc

vector_of-IsUnit :
    (s : RankingSignals)
    → IsProper s
    → option_is (λ c. not (is_between (whole (negsuc 0)) (whole (pos 1)) c)) s.cosine_similarity
      ≡ false
    → IsUnit (vector_of s)
unfolding vector_of
vector_of-IsUnit s p h = elim (Option-cases s.cosine_similarity) [
  | inl absent ↦ rw absent (whole-IsUnit 0 (omega arith))
  | inr (f, e) ↦
      let inside : not (is_between (whole (negsuc 0)) (whole (pos 1)) f) ≡ false = simp e at h in
      rw e (vector-of_cosine f (p.cosine f e) (ground (arith, inside)))
]

entity_overlap_of-IsUnit :
    (s : RankingSignals)
    → ltb_ℤ (min_ℤ s.shared_entity_count s.source_entity_count) (pos 0) ≡ false
    → ltb_ℤ s.source_entity_count s.shared_entity_count ≡ false
    → IsUnit (entity_overlap_of s)
unfolding entity_overlap_of
entity_overlap_of-IsUnit s h k = elim (Bool-cases (eqb_ℤ s.source_entity_count (pos 0))) [
  | inl none_there ↦ rw none_there (whole-IsUnit 0 (omega arith))
  | inr some_there ↦ rw some_there (
      quotient-of_bounds s.shared_entity_count s.source_entity_count (ground (arith, h, k))
        (ground (arith, h, k)) (ground (arith, h, k, some_there)))
]

-- The scores of some signals.
pub record IsScores (s : RankingSignals) (c : CandidateScoreComponents) : Type 0 where
  pub semantic_scholar : IsUnit c.semantic_scholar
  pub lexical : IsUnit c.lexical
  pub vector : IsUnit c.vector
  pub entity_overlap : IsUnit c.entity_overlap
  pub citation : IsUnit c.citation
  pub recommendation : IsUnit c.recommendation
  pub final : IsUnit c.final
  pub sum : IsSame c.final (weighted_sum s)

components_of-IsScores :
    (s : RankingSignals) → IsProper s → make_signals s ≡ ok s → IsScores s (components_of s)
unfolding make_signals signals_checks components_of weighted_sum
components_of-IsScores s p h =
    let (first, rest) =
      AllPass-split (rank_checks s.semantic_scholar_rank s.semantic_scholar_result_count) _
        (validated-eq-ok s (signals_checks s) h).1 in
    let scholar = semantic_scholar_of-IsUnit s first in
    let inside = rest.0 in
    let lexical = between-of_lexical s.lexical_score p.lexical (ground (arith, inside)) in
    let vector = vector_of-IsUnit s p rest.1.0 in
    let overlap = entity_overlap_of-IsUnit s rest.1.1.0 rest.1.1.1.0 in
    let cited = flag_score-IsUnit s.citation_related in
    let recommended = flag_score-IsUnit s.recommendation_related in
    let sum =
      add-IsUpTo 95 5 _ _
        (add-IsUpTo 85 10 _ _
          (add-IsUpTo 75 10 _ _
            (add-IsUpTo 45 30 _ _
              (add-IsUpTo 25 20 _ _ (weigh-IsUpTo 25 _ scholar) (weigh-IsUpTo 20 _ lexical))
              (weigh-IsUpTo 30 _ vector))
            (weigh-IsUpTo 10 _ overlap))
          (weigh-IsUpTo 10 _ cited))
        (weigh-IsUpTo 5 _ recommended) in
    let (final, same) = clamp-IsClampOf (weighted_sum s) sum in
    record {
      semantic_scholar = scholar;
      lexical = lexical;
      vector = vector;
      entity_overlap = overlap;
      citation = cited;
      recommendation = recommended;
      final = final;
      sum = same;
    }

scores-pass :
    (s : RankingSignals) (c : CandidateScoreComponents) → IsScores s c → make_components c ≡ ok c
unfolding make_components components_checks
scores-pass s c h = validated-AllPass c (components_checks c) (
  ap not (unit_score-IsUnit c.semantic_scholar h.semantic_scholar),
  (
    ap not (unit_score-IsUnit c.lexical h.lexical),
    (
      ap not (unit_score-IsUnit c.vector h.vector),
      (
        ap not (unit_score-IsUnit c.entity_overlap h.entity_overlap),
        (
          ap not (unit_score-IsUnit c.citation h.citation),
          (
            ap not (unit_score-IsUnit c.recommendation h.recommendation),
            (ap not (unit_score-IsUnit c.final h.final), tt),
          ),
        ),
      ),
    ),
  ),
)

-- Signals that their checks accept are combined into scores that theirs accept: each is between zero
-- and one, and the final one has the value of the weighted sum, so the clamping changes nothing.
pub combine_ranking_signals-IsScores :
    (s : RankingSignals)
    → IsProper s
    → make_signals s ≡ ok s
    → (c : CandidateScoreComponents) × (combine_ranking_signals s ≡ ok c) × IsScores s c
unfolding combine_ranking_signals
combine_ranking_signals-IsScores s p h =
    let scores = components_of-IsScores s p h in
    (components_of s, scores-pass s (components_of s) scores, scores)
