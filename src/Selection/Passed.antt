-- ===== src/Selection/Passed.antt =====
-- application/daily_selection.py: the candidates that pass the filter, with their scores.
use mathlib.Core.List.{Memᴰ}
use mathlib.Core.List.Memᴰ
use domain_specific_paper_ha.Prelude.{
  ◌≡◌, refl, sym, ap, ◌∙◌, true, false, List, [], ◌∷◌, arith, filter, map, Bool-cases, inl, inr,
}
use domain_specific_paper_ha.Prelude.Text.{Text}
use domain_specific_paper_ha.Prelude.Keys.{member, distinct}
use domain_specific_paper_ha.Selection.Rank.{
  DailySelectionCandidate, RankedDailyPaper, TopicConfig, is_eligible, ranked,
}

abbrev pub version_of : RankedDailyPaper → Text
version_of r = r.candidate.paper_version_id

module _ (nfkc casefold : Text → Text) (topic : TopicConfig) where
  abbrev pub passed : List DailySelectionCandidate → List RankedDailyPaper
  passed candidates =
      map (ranked nfkc casefold topic) (filter (is_eligible nfkc casefold topic) candidates)

  passed-member :
      (k : Text) (candidates : List DailySelectionCandidate)
      → member k (map (λ c. c.paper_version_id) candidates) ≡ false
      → member k (map version_of (passed candidates)) ≡ false
  unfolding member ranked
  passed-member k [] m = refl
  passed-member k (c ∷ cs) m = elim (Bool-cases (is_eligible nfkc casefold topic c)) [
    | inl kept ↦ rw kept (ground (arith, passed-member k cs))
    | inr cut ↦ rw cut (passed-member k cs (ground arith))
  ]

  pub passed-distinct :
      (candidates : List DailySelectionCandidate)
      → distinct (map (λ c. c.paper_version_id) candidates) ≡ true
      → distinct (map version_of (passed candidates)) ≡ true
  unfolding distinct ranked
  passed-distinct [] d = refl
  passed-distinct (c ∷ cs) d = elim (Bool-cases (is_eligible nfkc casefold topic c)) [
    | inl kept ↦ rw kept (ground (arith, passed-distinct cs, passed-member c.paper_version_id cs))
    | inr cut ↦ rw cut (passed-distinct cs (ground arith))
  ]

  -- A ranked paper is made of a candidate that passes.
  pub passed_sound :
      (r : RankedDailyPaper) (candidates : List DailySelectionCandidate)
      → Memᴰ r (passed candidates)
      → (c : DailySelectionCandidate) × Memᴰ c candidates
        × (is_eligible nfkc casefold topic c ≡ true)
        × (r ≡ ranked nfkc casefold topic c)
  passed_sound r [] m = elim m [ ]
  passed_sound r (c ∷ cs) m = elim (Bool-cases (is_eligible nfkc casefold topic c)) [
    | inl kept ↦ elim (Memᴰ.cases_cons (simp kept at m)) [
      | inl first ↦ (c, Memᴰ.head refl, kept, first)
      | inr later ↦
          let (d, among, pass, e) = passed_sound r cs later in (d, Memᴰ.tail among, pass, e)
    ]
    | inr cut ↦
        let (d, among, pass, e) = passed_sound r cs (simp cut at m) in (d, Memᴰ.tail among, pass, e)
  ]

  pub passed_total :
      (c : DailySelectionCandidate) (candidates : List DailySelectionCandidate)
      → Memᴰ c candidates
      → is_eligible nfkc casefold topic c ≡ true
      → Memᴰ (ranked nfkc casefold topic c) (passed candidates)
  passed_total c [] m pass = elim m [ ]
  passed_total c (d ∷ cs) (Memᴰ.head e) pass =
      let kept : is_eligible nfkc casefold topic d ≡ true =
        ap (is_eligible nfkc casefold topic) (sym e) ∙ pass in
      rw kept (Memᴰ.head (ap (ranked nfkc casefold topic) e))
  passed_total c (d ∷ cs) (Memᴰ.tail m) pass =
      elim (Bool-cases (is_eligible nfkc casefold topic d)) [
        | inl kept ↦ rw kept (Memᴰ.tail (passed_total c cs m pass))
        | inr cut ↦ rw cut (passed_total c cs m pass)
      ]
