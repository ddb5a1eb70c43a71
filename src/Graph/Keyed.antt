-- ===== src/Graph/Keyed.antt =====
-- What an entity of the graph is, once its constructor has accepted it.
use mathlib.Core.Path.{subst}
use domain_specific_paper_ha.Prelude.{
  ◌≡◌, refl, ap, ◌∙◌, inl, inr, true, false, not, List, [], ◌∷◌, ◌&&◌, arith, Each, Bool-cases,
  if◌then◌else◌,
}
use domain_specific_paper_ha.Prelude.Text.{Text, text_eq, text_eq_iff}
use domain_specific_paper_ha.Prelude.Keys.{member, distinct, unique, without}
use domain_specific_paper_ha.Result.{ok, >>=-eq-ok}
use domain_specific_paper_ha.Graph.Label.{normalized_entity_key}
use domain_specific_paper_ha.Graph.Entity.{matching}

pub member-without :
    (k j : Text) (ks : List Text) → member k (without j ks) ≡ (not (text_eq k j) && member k ks)
unfolding without member
member-without k j [] = ground arith
member-without k j (i ∷ ks) = elim (Bool-cases (text_eq j i)) [
  | inl same ↦ rw same (ground (arith, member-without k j ks, (text_eq_iff j i).0 same))
  | inr other ↦
      rw other
        (ground (arith, member-without k j ks, text_eq_iff k i, text_eq_iff k j, text_eq_iff j i))
]

without-distinct : (j : Text) (ks : List Text) → distinct ks ≡ true → distinct (without j ks) ≡ true
unfolding without distinct
without-distinct j [] h = refl
without-distinct j (i ∷ ks) h = elim (Bool-cases (text_eq j i)) [
  | inl same ↦ rw same (without-distinct j ks (ground arith))
  | inr other ↦ rw other (ground (arith, without-distinct j ks, member-without i j ks))
]

pub unique-distinct : (ks : List Text) → distinct (unique ks) ≡ true
unfolding unique distinct
unique-distinct [] = refl
unique-distinct (k ∷ ks) = ground (
  arith,
  without-distinct k (unique ks) (unique-distinct ks),
  member-without k k (unique ks),
  text_eq_iff k k,
)

module _ (nfkc casefold : Text → Text) where
  abbrev pub HasKey : Text → Text → Type 0
  HasKey key label = normalized_entity_key nfkc casefold label ≡ ok key

  -- The aliases that are kept: they have the key, and are some of those that were given.
  pub record IsMatching (key : Text) (aliases kept : List Text) : Type 0 where
    pub keyed : Each (HasKey key) kept
    pub from : (k : Text) → member k aliases ≡ false → member k kept ≡ false
    pub apart : distinct aliases ≡ true → distinct kept ≡ true

  kept-IsMatching :
      (key alias alias_key : Text) (aliases kept : List Text)
      → HasKey alias_key alias
      → IsMatching key aliases kept
      → IsMatching key (alias ∷ aliases) (if text_eq alias_key key then alias ∷ kept else kept)
  unfolding member distinct
  kept-IsMatching key alias alias_key aliases kept h rest =
      elim (Bool-cases (text_eq alias_key key)) [
        | inl same ↦ rw same (record {
          keyed = (h ∙ ap ok ((text_eq_iff alias_key key).0 same), rest.keyed);
          from = λ k m. ground (arith, rest.from k);
          apart = λ d. ground (arith, rest.apart, rest.from alias);
        })
        | inr other ↦ rw other (record {
          keyed = rest.keyed;
          from = λ k m. rest.from k (ground arith);
          apart = λ d. rest.apart (ground arith);
        })
      ]

  pub matching-IsMatching :
      (key : Text) (aliases kept : List Text)
      → matching nfkc casefold key aliases ≡ ok kept
      → IsMatching key aliases kept
  unfolding matching distinct
  matching-IsMatching key [] kept h =
      let same : [] ≡ kept = cc in
      subst (IsMatching key []) same (record { keyed = tt; from = λ k m. m; apart = λ d. d })
  matching-IsMatching key (alias ∷ aliases) kept h =
      let (alias_key, first, more) =
        >>=-eq-ok (normalized_entity_key nfkc casefold alias) _ kept h in
      let (rest, second, last) = >>=-eq-ok (matching nfkc casefold key aliases) _ kept more in
      let ih = matching-IsMatching key aliases rest second in
      let made : (if text_eq alias_key key then alias ∷ rest else rest) ≡ kept = cc in
      subst (IsMatching key (alias ∷ aliases)) made
        (kept-IsMatching key alias alias_key aliases rest first ih)
