-- ===== src/Selection/Relevant.antt =====
-- application/daily_selection.py: what the filter, the score and the sort key mean, apart from the code.
use mathlib.Core.List.{Memᴰ}
use domain_specific_paper_ha.Prelude.{
  ℕ, ◌+◌, ◌<◌, ◌≡◌, ◌≢◌, refl, sym, ap, ◌∙◌, ◌⊎◌, inl, inr, ◌↔◌, Bool, true, false, List, [], ◌∷◌,
  ◌++◌, arith, any, is_nil, Bool-cases, if◌then◌else◌, ◌==◌, ==_iff,
}
use mathlib.Core.Path.{ap₂, subst}
use domain_specific_paper_ha.Prelude.Int.{◌<ℤ◌, eqb_ℤ, eqb_ℤ_iff}
use domain_specific_paper_ha.Prelude.Text.{
  Text, text_eq, text_eq_iff, text_leb, starts_with, contains,
}
use domain_specific_paper_ha.Prelude.Keys.{member, text_eq_refl}
use domain_specific_paper_ha.Prelude.Sort.{IsOrdered}
use domain_specific_paper_ha.Selection.Rank.{
  DailySelectionCandidate, RankedDailyPaper, TopicConfig, shares, rank_leb, normalize, term_points,
  score, is_eligible,
}

-- A text stands somewhere in another one.
abbrev pub IsWithin : Text → Text → Type 0
IsWithin t s = (before : Text) × (after : Text) × (s ≡ before ++ (t ++ after))

starts_with-append : (t s : Text) → starts_with t s ≡ true → (after : Text) × (s ≡ t ++ after)
unfolding starts_with
starts_with-append [] s h = (s, refl)
starts_with-append (c ∷ t) [] h = cc
starts_with-append (c ∷ t) (d ∷ s) h =
    let (after, e) = starts_with-append t s (ground arith) in (after, ap₂ ◌∷◌ (ground arith) e)

append-starts_with : (t after : Text) → starts_with t (t ++ after) ≡ true
unfolding starts_with
append-starts_with [] after = refl
append-starts_with (c ∷ t) after = ground (arith, append-starts_with t after)

contains-IsWithin : (t s : Text) → contains t s ≡ true → IsWithin t s
unfolding contains
contains-IsWithin t [] h = let (after, e) = starts_with-append t [] h in ([], after, e)
contains-IsWithin t (c ∷ s) h = elim (Bool-cases (starts_with t (c ∷ s))) [
  | inl here ↦ let (after, e) = starts_with-append t (c ∷ s) here in ([], after, e)
  | inr later ↦
      let (before, after, e) = contains-IsWithin t s (ground arith) in
      (c ∷ before, after, ap (λ r. c ∷ r) e)
]

contains-start : (t s : Text) → starts_with t s ≡ true → contains t s ≡ true
unfolding contains
contains-start t [] h = h
contains-start t (c ∷ s) h = ground arith

contains-append : (t before after : Text) → contains t (before ++ (t ++ after)) ≡ true
unfolding contains
contains-append t [] after = contains-start t (t ++ after) (append-starts_with t after)
contains-append t (c ∷ before) after = ground (arith, contains-append t before after)

pub contains_iff : (t s : Text) → (contains t s ≡ true) ↔ IsWithin t s
contains_iff t s = (
  contains-IsWithin t s,
  λ (before, after, e). ap (contains t) e ∙ contains-append t before after,
)

-- What a match is worth, and nothing without one.
abbrev pub IsWorth : ℕ → Text → Text → ℕ → Type 0
IsWorth n t s points = (IsWithin t s × (points ≡ n)) ⊎ ((IsWithin t s → ⊥) × (points ≡ 0))

contains-IsWorth : (n : ℕ) (t s : Text) → IsWorth n t s (if contains t s then n else 0)
contains-IsWorth n t s = elim (Bool-cases (contains t s)) [
  | inl found ↦ rw found (inl ((contains_iff t s).0 found, refl))
  | inr lost ↦
      rw lost
        (inr (λ w. let clash : true ≡ false = sym ((contains_iff t s).1 w) ∙ lost in cc, refl))
]

is_nil-eq : (t : Text) → is_nil t ≡ true → t ≡ []
is_nil-eq [] h = refl
is_nil-eq (c ∷ t) h = cc

any-none :
    {A : Type 0} (p : A → Bool) (xs : List A) (x : A) → any p xs ≡ false → Memᴰ x xs → p x ≡ false
any-none p [] x h m = elim m [ ]
any-none p (y ∷ ys) x h (Memᴰ.head e) = ap p e ∙ ground arith
any-none p (y ∷ ys) x h (Memᴰ.tail m) = any-none p ys x (ground arith) m

none-any :
    {A : Type 0} (p : A → Bool) (xs : List A)
    → ((x : A) → Memᴰ x xs → p x ≡ false)
    → any p xs ≡ false
none-any p [] h = refl
none-any p (y ∷ ys) h =
    ground (arith, h y (Memᴰ.head refl), none-any p ys (λ x m. h x (Memᴰ.tail m)))

shares-member :
    (js ks : List Text)
    → shares js ks ≡ true
    → (k : Text) × (member k js ≡ true) × (member k ks ≡ true)
unfolding shares member
shares-member js [] h = cc
shares-member js (k ∷ ks) h = elim (Bool-cases (member k js)) [
  | inl both ↦ (k, both, ground (arith, text_eq_refl k))
  | inr other ↦ let (j, m, n) = shares-member js ks (ground arith) in (j, m, ground (arith, n))
]

member-shares :
    (js ks : List Text) (k : Text) → member k js ≡ true → member k ks ≡ true → shares js ks ≡ true
unfolding shares member
member-shares js [] k m n = cc
member-shares js (j ∷ ks) k m n = elim (Bool-cases (text_eq k j)) [
  | inl same ↦
      let here : member j js ≡ true = ap (λ i. member i js) (sym ((text_eq_iff k j).0 same)) ∙ m in
      ground arith
  | inr other ↦ ground (arith, member-shares js ks k m)
]

module _ (nfkc casefold : Text → Text) where
  -- Two points for each term in the title and one for each in the abstract, but for blank terms.
  pub data HasScore (title abstract : Text) : List Text → ℕ → Type 0 where
    no_terms : HasScore title abstract [] 0
    blank_term :
        (term : Text) (terms : List Text) (n : ℕ)
        → normalize nfkc casefold term ≡ []
        → HasScore title abstract terms n
        → HasScore title abstract (term ∷ terms) n
    one_term :
        (term : Text) (terms : List Text) (n in_title in_abstract : ℕ)
        → normalize nfkc casefold term ≢ []
        → IsWorth 2 (normalize nfkc casefold term) title in_title
        → IsWorth 1 (normalize nfkc casefold term) abstract in_abstract
        → HasScore title abstract terms n
        → HasScore title abstract (term ∷ terms) (in_title + in_abstract + n)

  pub score-HasScore :
      (title abstract : Text) (terms : List Text)
      → HasScore title abstract terms (score nfkc casefold title abstract terms)
  unfolding score term_points
  score-HasScore title abstract [] = no_terms
  score-HasScore title abstract (term ∷ terms) =
      let t = normalize nfkc casefold term in
      let rest = score-HasScore title abstract terms in
      elim (Bool-cases (is_nil t)) [
        | inl empty ↦
            let same : score nfkc casefold title abstract terms
                ≡ 0 + score nfkc casefold title abstract terms =
              omega arith in
            rw empty (
              subst (HasScore title abstract (term ∷ terms)) same
                (blank_term term terms _ (is_nil-eq t empty) rest))
        | inr some_text ↦ rw some_text (
            one_term term terms _ _ _
              (λ e. let stuck : true ≡ false = sym (ap is_nil e) ∙ some_text in cc)
              (contains-IsWorth 2 t title) (contains-IsWorth 1 t abstract) rest)
      ]

  module _ (topic : TopicConfig) where
    -- A category of the topic, and no excluded term in the title and abstract.
    pub record IsRelevant (c : DailySelectionCandidate) : Type 0 where
      pub category : Text
      pub of_topic : member category topic.categories ≡ true
      pub of_paper : member category c.categories ≡ true
      pub not_excluded :
          (term : Text)
          → Memᴰ term topic.exclude_terms
          → IsWithin
              (normalize nfkc casefold term)
              (normalize nfkc casefold c.title ++ b' ' ∷ normalize nfkc casefold c.abstract)
          → ⊥

    pub is_eligible_iff :
        (c : DailySelectionCandidate) → (is_eligible nfkc casefold topic c ≡ true) ↔ IsRelevant c
    unfolding is_eligible
    is_eligible_iff c =
        let combined =
          normalize nfkc casefold c.title ++ b' ' ∷ normalize nfkc casefold c.abstract in
        let matches = λ (term : Text). contains (normalize nfkc casefold term) combined in
        (
          λ h.
              let (k, m, n) = shares-member topic.categories c.categories (ground arith) in
              let clear : any matches topic.exclude_terms ≡ false = ground arith in
              record {
                category = k;
                of_topic = m;
                of_paper = n;
                not_excluded = λ term among within.
                    let found = (contains_iff (normalize nfkc casefold term) combined).1 within in
                    let clash : true ≡ false =
                      sym found ∙ any-none matches topic.exclude_terms term clear among in
                    cc;
              },
          λ r.
              let shared =
                member-shares topic.categories c.categories r.category r.of_topic r.of_paper in
              let clear : any matches topic.exclude_terms ≡ false =
                none-any matches topic.exclude_terms (λ term among.
                  elim (Bool-cases (matches term)) [
                    | inl found ↦ absurd (
                        r.not_excluded term among
                          ((contains_iff (normalize nfkc casefold term) combined).0 found))
                    | inr lost ↦ lost
                  ]) in
              ground arith,
        )

-- A higher score comes first, then the later update, the lesser arXiv identifier and the lesser
-- version identifier.
abbrev pub IsNoLater : RankedDailyPaper → RankedDailyPaper → Type 0
IsNoLater a b =
    (b.relevance_score < a.relevance_score)
    ⊎ ((a.relevance_score ≡ b.relevance_score)
        × ((b.candidate.updated_at.instant <ℤ a.candidate.updated_at.instant)
            ⊎ ((a.candidate.updated_at.instant ≡ b.candidate.updated_at.instant)
                × (((a.candidate.canonical_arxiv_id ≢ b.candidate.canonical_arxiv_id)
                      × (text_leb a.candidate.canonical_arxiv_id b.candidate.canonical_arxiv_id
                          ≡ true))
                    ⊎ ((a.candidate.canonical_arxiv_id ≡ b.candidate.canonical_arxiv_id)
                        × (text_leb a.candidate.paper_version_id b.candidate.paper_version_id
                            ≡ true))))))

-- Each paper comes no later than the next.
pub data IsRanked : List RankedDailyPaper → Type 0 where
  no_papers : IsRanked []
  one_paper : (a : RankedDailyPaper) → IsRanked (a ∷ [])
  next_paper :
      (a b : RankedDailyPaper) (more : List RankedDailyPaper)
      → IsNoLater a b
      → IsRanked (b ∷ more)
      → IsRanked (a ∷ b ∷ more)

rank_leb-IsNoLater : (a b : RankedDailyPaper) → rank_leb a b ≡ true → IsNoLater a b
unfolding rank_leb
rank_leb-IsNoLater a b h = elim (Bool-cases (a.relevance_score == b.relevance_score)) [
  | inr other ↦ inl (ground (arith, other, h))
  | inl same ↦
      let t = eqb_ℤ_iff a.candidate.updated_at.instant b.candidate.updated_at.instant in
      let i = text_eq_iff a.candidate.canonical_arxiv_id b.candidate.canonical_arxiv_id in
      inr (
        (==_iff a.relevance_score b.relevance_score).0 same,
        elim (Bool-cases (eqb_ℤ a.candidate.updated_at.instant b.candidate.updated_at.instant)) [
          | inr other ↦ inl (ground (arith, same, other, h))
          | inl at_once ↦ inr (
            t.0 at_once,
            elim (Bool-cases
                (text_eq a.candidate.canonical_arxiv_id b.candidate.canonical_arxiv_id)) [
                  | inr other ↦ inl (
                    λ e. (let clash : true ≡ false = sym (i.1 e) ∙ other in cc),
                    ground (arith, same, at_once, other, h),
                  )
                  | inl alike ↦ inr (i.0 alike, ground (arith, same, at_once, alike, h))
                ],
          )
        ],
      )
]

pub IsOrdered-IsRanked : (rs : List RankedDailyPaper) → IsOrdered rank_leb rs → IsRanked rs
IsOrdered-IsRanked [] h = no_papers
IsOrdered-IsRanked (a ∷ []) h = one_paper a
IsOrdered-IsRanked (a ∷ b ∷ rs) h =
    next_paper a b rs (rank_leb-IsNoLater a b h.0) (IsOrdered-IsRanked (b ∷ rs) h.1)
