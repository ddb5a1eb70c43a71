-- ===== src/Selection/Reordered.antt =====
-- The daily selection does not depend on the order in which its candidates come.
use mathlib.Core.Logic.{∥∥₁_elim}
use mathlib.Core.List.{Perm, Permᴰ}
use domain_specific_paper_ha.Prelude.{ℕ, ◌≡◌, refl, true, List, arith, map, inl, inr}
use domain_specific_paper_ha.Prelude.Text.{Text, text_eq_iff, text_leb-transitive, text_leb-antisym}
use domain_specific_paper_ha.Prelude.Keys.{distinct}
use domain_specific_paper_ha.Prelude.Reorder.{
  IsOrder, sorted-Perm, EachPair-map, IsTold, EachPair, IsTie, length-Perm, map-Perm, filter-Perm,
  distinct-Perm, distinct-IsTold,
}
use domain_specific_paper_ha.Result.{Result_set, validated-AllPass, validated-cases}
use domain_specific_paper_ha.Selection.Rank.{
  DailySelectionCandidate, RankedDailyPaper, TopicConfig, rank_leb, is_eligible, ranked,
}
use domain_specific_paper_ha.Selection.Daily.{
  DailySelection, selection_guards, ranking, select_daily_papers,
}
use domain_specific_paper_ha.Selection.Ordered.{rank_leb-total}
use domain_specific_paper_ha.Selection.Passed.{version_of, passed, passed-distinct}

rank_leb-transitive :
    (x y z : RankedDailyPaper) → rank_leb x y ≡ true → rank_leb y z ≡ true → rank_leb x z ≡ true
unfolding rank_leb
rank_leb-transitive x y z h k = ground (
  arith,
  text_eq_iff x.candidate.canonical_arxiv_id y.candidate.canonical_arxiv_id,
  text_eq_iff y.candidate.canonical_arxiv_id z.candidate.canonical_arxiv_id,
  text_eq_iff x.candidate.canonical_arxiv_id z.candidate.canonical_arxiv_id,
  text_leb-transitive x.candidate.canonical_arxiv_id y.candidate.canonical_arxiv_id
      z.candidate.canonical_arxiv_id,
  text_leb-antisym x.candidate.canonical_arxiv_id y.candidate.canonical_arxiv_id,
  text_leb-transitive x.candidate.paper_version_id y.candidate.paper_version_id
      z.candidate.paper_version_id,
)

rank_leb-antisym :
    (x y : RankedDailyPaper)
    → rank_leb x y ≡ true
    → rank_leb y x ≡ true
    → x.candidate.paper_version_id ≡ y.candidate.paper_version_id
unfolding rank_leb
rank_leb-antisym x y h k =
    let a = x.candidate.canonical_arxiv_id in
    let b = y.candidate.canonical_arxiv_id in
    text_leb-antisym x.candidate.paper_version_id y.candidate.paper_version_id
      (ground (arith, text_eq_iff a b, text_eq_iff b a, text_leb-antisym a b))
      (ground (arith, text_eq_iff a b, text_eq_iff b a, text_leb-antisym a b))

rank_leb-IsOrder : IsOrder rank_leb
rank_leb-IsOrder = record { total = rank_leb-total; transitive = rank_leb-transitive }

selection_set : IsSet DailySelection
selection_set = hlevel

module _ (nfkc casefold : Text → Text) (topic : TopicConfig) where
  passed-ties :
      (candidates : List DailySelectionCandidate)
      → distinct (map (λ c. c.paper_version_id) candidates) ≡ true
      → EachPair (IsTie rank_leb) (passed nfkc casefold topic candidates)
  passed-ties candidates d =
      EachPair-map (IsTold version_of) (IsTie rank_leb)
        (λ x y told h k. told (rank_leb-antisym x y h k)) (passed nfkc casefold topic candidates)
        (distinct-IsTold version_of (passed nfkc casefold topic candidates)
          (passed-distinct nfkc casefold topic candidates d))

  ranking-Perm :
      {candidates others : List DailySelectionCandidate}
      → distinct (map (λ c. c.paper_version_id) candidates) ≡ true
      → Permᴰ candidates others
      → ranking nfkc casefold topic candidates ≡ ranking nfkc casefold topic others
  unfolding ranking
  ranking-Perm {candidates = candidates} d p =
      sorted-Perm rank_leb rank_leb-IsOrder (passed-ties candidates d)
        (map-Perm (ranked nfkc casefold topic) (filter-Perm (is_eligible nfkc casefold topic) p))

  guards-Perm :
      {candidates others : List DailySelectionCandidate} (limit : ℕ)
      → Permᴰ candidates others
      → selection_guards topic candidates limit ≡ selection_guards topic others limit
  unfolding selection_guards
  guards-Perm limit p =
      rw
        (
          distinct-Perm (map-Perm (λ c. c.paper_id) p),
          distinct-Perm (map-Perm (λ c. c.paper_version_id) p),
        )
        refl

  -- Candidates in another order give the same selection, and are refused the same way.
  pub select_daily_papers-Perm :
      (candidates others : List DailySelectionCandidate) (limit : ℕ)
      → Perm candidates others
      → select_daily_papers nfkc casefold topic candidates limit
        ≡ select_daily_papers nfkc casefold topic others limit
  unfolding select_daily_papers selection_guards
  select_daily_papers-Perm candidates others limit p =
      ∥∥₁_elim p (Result_set selection_set _ _) (λ q.
        let same = guards-Perm limit q in
        let checks = selection_guards topic others limit in
        elim (validated-cases checks) [
          | inl pass ↦
              let d : distinct (map (λ c. c.paper_version_id) candidates) ≡ true =
                ground (arith, distinct-Perm (map-Perm (λ c. c.paper_version_id) q), pass.1.0) in
              rw
                (
                  same,
                  validated-AllPass candidates checks pass,
                  validated-AllPass others checks pass,
                  length-Perm q,
                  ranking-Perm d q,
                )
                refl
          | inr (e, fails) ↦
              rw
                (
                  same,
                  fails (List DailySelectionCandidate) candidates,
                  fails (List DailySelectionCandidate) others,
                )
                refl
        ])
