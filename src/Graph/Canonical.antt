-- ===== src/Graph/Canonical.antt =====
-- What an entity of the graph is, once its constructor has accepted it.
use mathlib.Core.Path.{subst}
use domain_specific_paper_ha.Prelude.{
  ◌≡◌, refl, sym, ap, ◌∙◌, inl, inr, true, false, Option, none, some, List, ◌++◌, arith, Each,
  Bool-cases, is_some, if◌then◌else◌,
}
use domain_specific_paper_ha.Prelude.Int.{◌≤ℤ◌}
use domain_specific_paper_ha.Prelude.Text.{Text, Uuid, codes, text_eq, text_eq_iff}
use domain_specific_paper_ha.Prelude.Keys.{distinct, unique}
use domain_specific_paper_ha.Result.{ok, ok-injective, after_step, validated->>=, each_result}
use domain_specific_paper_ha.Identity.Graph.{stable_graph_entity_id, stable_graph_paper_entity_id}
use domain_specific_paper_ha.Lineage.Snapshot.{require_text}
use domain_specific_paper_ha.Graph.Label.{normalized_entity_key}
use domain_specific_paper_ha.Graph.Entity.{
  GraphEntity, Expected, is_paper, entity_value, entity_stamps, key_checks, no_paper_checks,
  normalizer, expected_paper, expected_entity, expected_of, cleaned_aliases, make_entity,
}
use domain_specific_paper_ha.Graph.Keyed.{HasKey, matching-IsMatching, unique-distinct}

is_none-eq {ℓ} : {A : Type ℓ} (o : Option A) → is_some o ≡ false → o ≡ none
is_none-eq none h = refl
is_none-eq (some a) h = cc

module _ (nfkc casefold : Text → Text) (uuid5 : Uuid → Text → Uuid) where
  -- The key and the identifier of a paper's node.
  abbrev IsPaperKey : GraphEntity → Text → Uuid → Type 0
  IsPaperKey e key id =
      (p : Uuid) × (e.paper_id ≡ some p)
      × (key ≡ codes "paper:" ++ p)
      × (stable_graph_paper_entity_id uuid5 e.topic_id p ≡ ok id)

  -- Those of another node, with the two labels.
  abbrev IsEntityKey : GraphEntity → Text → Text → Text → Uuid → Type 0
  IsEntityKey e key canonical display id =
      (e.paper_id ≡ none)
      × HasKey nfkc casefold key canonical
      × HasKey nfkc casefold key display
      × (stable_graph_entity_id uuid5 e.topic_id (entity_value e.entity_type) key ≡ ok id)

  abbrev IsExpected : GraphEntity → Text → Expected → Type 0
  IsExpected e canonical x =
      (is_paper e.entity_type ≡ true → IsPaperKey e x.expected_key x.expected_id)
      × (is_paper e.entity_type ≡ false
          → IsEntityKey e x.expected_key canonical x.expected_label x.expected_id)

  IsPaperKey-of :
      (e : GraphEntity) (display : Text) (x : Expected) (paper_id : Option Uuid)
      → e.paper_id ≡ paper_id
      → expected_paper nfkc casefold uuid5 e display paper_id ≡ ok x
      → IsPaperKey e x.expected_key x.expected_id
  unfolding expected_paper
  IsPaperKey-of e display x none given h = cc
  IsPaperKey-of e display x (some p) given h =
      after_step (stable_graph_paper_entity_id uuid5 e.topic_id p) _ x h (λ id known made.
        subst (λ y. IsPaperKey e y.expected_key y.expected_id) (ok-injective made)
          (p, given, refl, known))

  label-HasKey :
      (key display_key canonical display : Text)
      → HasKey nfkc casefold key canonical
      → HasKey nfkc casefold display_key display
      → HasKey nfkc casefold key (if text_eq display_key key then display else canonical)
  label-HasKey key display_key canonical display h k = elim (Bool-cases (text_eq display_key key)) [
    | inl same ↦ rw same (k ∙ ap ok ((text_eq_iff display_key key).0 same))
    | inr other ↦ rw other h
  ]

  expected_entity-IsEntityKey :
      (e : GraphEntity) (canonical display : Text) (x : Expected)
      → expected_entity nfkc casefold uuid5 e canonical display ≡ ok x
      → IsEntityKey e x.expected_key canonical x.expected_label x.expected_id
  unfolding expected_entity
  expected_entity-IsEntityKey e canonical display x h =
      let (pass, rest) = validated->>= e (no_paper_checks e) _ x h in
      after_step (normalized_entity_key nfkc casefold canonical) _ x rest (λ key canonical_key rest.
        after_step (normalized_entity_key nfkc casefold display) _ x rest
          (λ display_key displayed rest.
            after_step (stable_graph_entity_id uuid5 e.topic_id (entity_value e.entity_type) key) _
              x rest
              (λ id known made.
                subst (λ y. IsEntityKey e y.expected_key canonical y.expected_label y.expected_id)
                  (ok-injective made)
                  (
                    is_none-eq e.paper_id pass.0,
                    canonical_key,
                    label-HasKey key display_key canonical display canonical_key displayed,
                    known,
                  ))))

  expected_of-IsExpected :
      (e : GraphEntity) (canonical display : Text) (x : Expected)
      → expected_of nfkc casefold uuid5 e canonical display ≡ ok x
      → IsExpected e canonical x
  unfolding expected_of
  expected_of-IsExpected e canonical display x h = (
    λ paper. IsPaperKey-of e display x e.paper_id refl (simp paper at h),
    λ other. expected_entity-IsEntityKey e canonical display x (simp other at h),
  )

  -- The aliases of an entity that was made.
  cleaned-apart :
      (e : GraphEntity) (key : Text) (aliases : List Text)
      → cleaned_aliases nfkc casefold e key ≡ ok aliases
      → (distinct aliases ≡ true)
        × (is_paper e.entity_type ≡ false → Each (HasKey nfkc casefold key) aliases)
  unfolding cleaned_aliases
  cleaned-apart e key aliases h =
      after_step (each_result (normalizer nfkc casefold e.entity_type) e.aliases) _ aliases h
        (λ normalized made rest. elim (Bool-cases (is_paper e.entity_type)) [
          | inl paper ↦
              let same : unique normalized ≡ aliases = ok-injective (simp paper at rest) in
              (rw (sym same) (unique-distinct normalized), λ other. ground arith)
          | inr other ↦
              let kept =
                matching-IsMatching nfkc casefold key (unique normalized) aliases
                  (simp other at rest) in
              (kept.apart (unique-distinct normalized), λ _. kept.keyed)
        ])

  -- An entity with a canonical key, the identifier that the key gives, and labels and aliases that
  -- have the key, or those of a paper.
  pub record IsEntity (e : GraphEntity) : Type 0 where
    pub of_paper : is_paper e.entity_type ≡ true → IsPaperKey e e.normalized_key e.id
    pub of_entity :
        is_paper e.entity_type ≡ false
        → IsEntityKey e e.normalized_key e.canonical_label e.display_label e.id
    pub keyed :
        is_paper e.entity_type ≡ false → Each (HasKey nfkc casefold e.normalized_key) e.aliases
    pub apart : distinct e.aliases ≡ true
    pub in_order : e.created_at.instant ≤ℤ e.updated_at.instant

  -- An entity that is made has the identifier and the key that were given. The key is that of its
  -- paper, or of its canonical label, display label and aliases; the identifier is the one of the key;
  -- the aliases are distinct; and it was not updated before it was created.
  pub make_entity-IsEntity :
      (given made : GraphEntity)
      → make_entity nfkc casefold uuid5 given ≡ ok made
      → (made.id ≡ given.id) × (made.normalized_key ≡ given.normalized_key) × IsEntity made
  unfolding make_entity require_text
  make_entity-IsEntity given made h =
      after_step (normalizer nfkc casefold given.entity_type given.canonical_label) _ made h
        (λ canonical first rest.
          after_step (normalizer nfkc casefold given.entity_type given.display_label) _ made rest
            (λ display second rest.
              let (stamps, rest) = validated->>= given (entity_stamps given) _ made rest in
              after_step (expected_of nfkc casefold uuid5 given canonical display) _ made rest
                (λ x expected rest.
                  let (keys, rest) = validated->>= given (key_checks given x) _ made rest in
                  after_step (cleaned_aliases nfkc casefold given x.expected_key) _ made rest
                    (λ aliases cleaned rest.
                      let known = expected_of-IsExpected given canonical display x expected in
                      let key : given.normalized_key ≡ x.expected_key =
                        (text_eq_iff given.normalized_key x.expected_key).0
                          (ground (arith, keys.0)) in
                      let id : given.id ≡ x.expected_id =
                        (text_eq_iff given.id x.expected_id).0 (ground (arith, keys.1.0)) in
                      let apart = cleaned-apart given x.expected_key aliases cleaned in
                      subst
                        (λ f.
                          (f.id ≡ given.id)
                          × (f.normalized_key ≡ given.normalized_key)
                          × IsEntity f)
                        (ok-injective rest)
                        (
                          refl,
                          refl,
                          record {
                            of_paper = rw (key, id) known.0;
                            of_entity = rw (key, id) known.1;
                            keyed = rw key apart.1;
                            apart = apart.0;
                            in_order = ground (arith, stamps);
                          },
                        )))))
