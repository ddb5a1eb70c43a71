-- ===== src/Graph/Closed.antt =====
-- A bundle that its constructor accepts is closed: what its records refer to is in it.
use mathlib.Core.Path.{subst}
use mathlib.Core.List.{Memᴰ}
use mathlib.Core.List.Memᴰ
use domain_specific_paper_ha.Prelude.{
  ◌≡◌, refl, sym, ap, ◌∙◌, inl, inr, Bool, true, false, not, Option, none, some, List, [], ◌∷◌, map,
  any, arith, Each, Each-map, Bool-cases,
}
use domain_specific_paper_ha.Prelude.Text.{Text, Uuid, text_eq, text_eq_iff}
use domain_specific_paper_ha.Prelude.Keys.{member, subset, same_set, distinct}
use domain_specific_paper_ha.Prelude.Members.{HasSame}
use domain_specific_paper_ha.Result.{
  Check, ok, Passed, passing, validated-eq-ok, AllPass, after_step, validated->>=, ok-injective,
}
use domain_specific_paper_ha.Lineage.Edge.{GraphEdge, is_paper_relation}
use domain_specific_paper_ha.Graph.Record.{GraphEntityMention}
use domain_specific_paper_ha.Graph.Label.{normalized_entity_key}
use domain_specific_paper_ha.Graph.Entity.{GraphEntity, is_paper}
use domain_specific_paper_ha.Graph.Union.{get, deduplicate_identified}
use domain_specific_paper_ha.Graph.Merge.{
  GraphReferenceSet, same_id, entity_id_of, merge_graph_entities,
}
use domain_specific_paper_ha.Graph.Keyed.{HasKey}
use domain_specific_paper_ha.Graph.Dictionary.{get-cases}
use domain_specific_paper_ha.Graph.United.{united-IsUnion}
use domain_specific_paper_ha.Graph.Grouped.{merge_graph_entities-IsMerged}
use domain_specific_paper_ha.Graph.Bundle.{
  KnowledgeGraphBundle, for_each, mention_references, owner_check, label_check, edge_references,
  paper_target_checks, paper_target, target_check, has_paper_mention, owned_checks, check_ends,
  check_edge, check_label, check_entity, check_mention, mention-discrete, edge-discrete,
  mention_conflict, edge_conflict, bundle_checks, orphan_check, make_bundle, mention_id_of,
  edge_id_of,
}

pub for_each-Each :
    {A : Type 0} (check : A → Passed) (values : List A) (u : Unit)
    → for_each check values ≡ ok u
    → Each (λ v. check v ≡ ok tt) values
unfolding for_each
for_each-Each check [] u h = tt
for_each-Each check (v ∷ vs) u h =
    after_step (check v) _ u h (λ made first rest. (first, for_each-Each check vs u rest))

same_id-eq : (a b : Option Uuid) → same_id a b ≡ true → a ≡ b
same_id-eq none none h = refl
same_id-eq none (some b) h = cc
same_id-eq (some a) none h = cc
same_id-eq (some a) (some b) h = ap some ((text_eq_iff a b).0 h)

some-eq : {A : Type 0} (a b : A) → ◌≡◌ {A = Option A} (some a) (some b) → a ≡ b
some-eq a b h = cc

any-Memᴰ :
    {A : Type 0} (p : A → Bool) (xs : List A) → any p xs ≡ true → (x : A) × Memᴰ x xs × (p x ≡ true)
any-Memᴰ p [] h = cc
any-Memᴰ p (x ∷ xs) h = elim (Bool-cases (p x)) [
  | inl found ↦ (x, Memᴰ.head refl, found)
  | inr other ↦ let (y, m, e) = any-Memᴰ p xs (ground arith) in (y, Memᴰ.tail m, e)
]

-- The entity of an identifier.
abbrev pub HasEntity : List GraphEntity → Uuid → GraphEntity → Type 0
HasEntity entities id entity = Memᴰ entity entities × (id ≡ entity.id)

get-HasEntity :
    (entities : List GraphEntity) (id : Uuid) (entity : GraphEntity)
    → get entity_id_of entities id ≡ some entity
    → HasEntity entities id entity
unfolding entity_id_of
get-HasEntity entities id entity h = elim (get-cases entity_id_of entities id) [
  | inl (missing, _) ↦ let clash : none ≡ some entity = sym missing ∙ h in cc
  | inr (found, e, m, k) ↦
      let same : found ≡ entity = some-eq found entity (sym e ∙ h) in
      (Memᴰ.cast (sym same) m, k ∙ ap entity_id_of same)
]

-- A mention of an entity of the bundle, with references that the bundle knows.
pub record IsMentionIn (nfkc casefold : Text → Text) (r : GraphReferenceSet)
    (entities : List GraphEntity) (m : GraphEntityMention) : Type 0 where
  pub entity : GraphEntity
  pub found : HasEntity entities m.entity_id entity
  pub version : member m.paper_version_id r.paper_version_ids ≡ true
  pub evidence : subset m.evidence_ids r.evidence_ids ≡ true
  pub owned : is_paper entity.entity_type ≡ true → entity.paper_id ≡ some m.paper_id
  pub labelled :
      is_paper entity.entity_type ≡ false
      → HasKey nfkc casefold entity.normalized_key m.observed_label

-- A mention of the version of one end by the owner of the edge.
abbrev pub HasOwned : List GraphEntityMention → GraphEdge → Uuid → Option Uuid → Type 0
HasOwned mentions e entity_id version_id =
    (m : GraphEntityMention) × Memᴰ m mentions
    × (m.entity_id ≡ entity_id)
    × (some m.paper_version_id ≡ version_id)
    × (m.analysis_id ≡ e.analysis_id)
    × (m.comparison_id ≡ e.comparison_id)

-- An edge between entities of the bundle, from a paper, with references that the bundle knows.
pub record IsEdgeIn (r : GraphReferenceSet) (entities : List GraphEntity)
    (mentions : List GraphEntityMention) (e : GraphEdge) : Type 0 where
  pub source : GraphEntity
  pub target : GraphEntity
  pub source_found : HasEntity entities e.source_entity_id source
  pub target_found : HasEntity entities e.target_entity_id target
  pub from_paper : is_paper source.entity_type ≡ true
  pub version : member e.source_paper_version_id r.paper_version_ids ≡ true
  pub evidence : subset e.evidence_ids r.evidence_ids ≡ true
  pub between_papers : is_paper_relation e.relation_type ≡ true → is_paper target.entity_type ≡ true
  pub source_owned : HasOwned mentions e e.source_entity_id (some e.source_paper_version_id)
  pub target_owned :
      is_paper_relation e.relation_type ≡ true
      → HasOwned mentions e e.target_entity_id e.target_paper_version_id

has_paper_mention-HasOwned :
    (mentions : List GraphEntityMention) (e : GraphEdge) (entity_id : Uuid)
    (version_id : Option Uuid)
    → has_paper_mention mentions e entity_id version_id ≡ true
    → HasOwned mentions e entity_id version_id
unfolding has_paper_mention
has_paper_mention-HasOwned mentions e entity_id version_id h =
    let (m, among, found) = any-Memᴰ _ mentions h in
    (
      m,
      among,
      (text_eq_iff m.entity_id entity_id).0 (ground arith),
      same_id-eq (some m.paper_version_id) version_id (ground arith),
      same_id-eq m.analysis_id e.analysis_id (ground arith),
      same_id-eq m.comparison_id e.comparison_id (ground arith),
    )

passed : {u : Unit} (checks : List Check) → passing checks ≡ ok u → AllPass checks
passed checks h = (validated-eq-ok {0} tt checks h).1

module _ (nfkc casefold : Text → Text) (r : GraphReferenceSet) (entities : List GraphEntity) where
  check_entity-IsMentionIn :
      (m : GraphEntityMention) (entity : Option GraphEntity)
      → get entity_id_of entities m.entity_id ≡ entity
      → check_entity nfkc casefold r m entity ≡ ok tt
      → IsMentionIn nfkc casefold r entities m
  unfolding check_entity check_label
  check_entity-IsMentionIn m none known h = cc
  check_entity-IsMentionIn m (some entity) known h =
      let (pass, rest) = validated->>= {0, 0} tt (mention_references r m) _ tt h in
      record {
        entity = entity;
        found = get-HasEntity entities m.entity_id entity known;
        version = ground (arith, pass.0);
        evidence = ground (arith, pass.1.1.1.0);
        owned = λ paper.
            let owner = passed (owner_check entity m) (simp paper at rest) in
            same_id-eq entity.paper_id (some m.paper_id) (ground (arith, owner.0));
        labelled = λ other.
            after_step (normalized_entity_key nfkc casefold m.observed_label) _ tt
              (simp other at rest)
              (λ key keyed last.
                let same = (passed (label_check entity key) last).0 in
                keyed ∙ ap ok ((text_eq_iff key entity.normalized_key).0 (ground (arith, same))));
      }

  check_mention-IsMentionIn :
      (m : GraphEntityMention)
      → check_mention nfkc casefold r entities m ≡ ok tt
      → IsMentionIn nfkc casefold r entities m
  unfolding check_mention
  check_mention-IsMentionIn m h =
      check_entity-IsMentionIn m (get entity_id_of entities m.entity_id) refl h

  target_check-paper :
      (target : GraphEntity) (e : GraphEdge) (u : Unit)
      → target_check r target e ≡ ok u
      → is_paper_relation e.relation_type ≡ true
      → is_paper target.entity_type ≡ true
  unfolding target_check paper_target
  target_check-paper target e u h paper =
      let (pass, rest) =
        validated->>= {0, 0} tt (paper_target_checks r target) _ u (simp paper at h) in
      ground (arith, pass.0)

  check_ends-IsEdgeIn :
      (mentions : List GraphEntityMention) (e : GraphEdge) (source target : Option GraphEntity)
      → get entity_id_of entities e.source_entity_id ≡ source
      → get entity_id_of entities e.target_entity_id ≡ target
      → check_ends r mentions e source target ≡ ok tt
      → IsEdgeIn r entities mentions e
  unfolding check_ends owned_checks
  check_ends-IsEdgeIn mentions e none target s t h = cc
  check_ends-IsEdgeIn mentions e (some source) none s t h = cc
  check_ends-IsEdgeIn mentions e (some source) (some target) s t h =
      let (pass, rest) = validated->>= {0, 0} tt (edge_references r source e) _ tt h in
      after_step (target_check r target e) _ tt rest (λ u targeted last.
        let owned = passed (owned_checks mentions e) last in
        record {
          source = source;
          target = target;
          source_found = get-HasEntity entities e.source_entity_id source s;
          target_found = get-HasEntity entities e.target_entity_id target t;
          from_paper = ground (arith, pass.0);
          version = ground (arith, pass.1.0);
          evidence = ground (arith, pass.1.1.1.1.1.0);
          between_papers = target_check-paper target e u targeted;
          source_owned =
              has_paper_mention-HasOwned mentions e e.source_entity_id
                (some e.source_paper_version_id) (ground (arith, owned.0));
          target_owned = λ paper.
              has_paper_mention-HasOwned mentions e e.target_entity_id e.target_paper_version_id
                (ground (arith, owned.1.0, paper));
        })

  check_edge-IsEdgeIn :
      (mentions : List GraphEntityMention) (e : GraphEdge)
      → check_edge r entities mentions e ≡ ok tt
      → IsEdgeIn r entities mentions e
  unfolding check_edge
  check_edge-IsEdgeIn mentions e h =
      check_ends-IsEdgeIn mentions e (get entity_id_of entities e.source_entity_id)
        (get entity_id_of entities e.target_entity_id) refl refl h

-- A closed bundle.
pub record IsClosed (nfkc casefold : Text → Text) (b : KnowledgeGraphBundle) : Type 0 where
  pub entities_apart : distinct (map entity_id_of b.entities) ≡ true
  pub mentions_apart : distinct (map mention_id_of b.mentions) ≡ true
  pub edges_apart : distinct (map edge_id_of b.edges) ≡ true
  pub one_topic : any (λ e. not (text_eq e.topic_id b.topic_id)) b.entities ≡ false
  pub mentioned : same_set (map (λ m. m.entity_id) b.mentions) (map entity_id_of b.entities) ≡ true
  pub mentions_in : Each (IsMentionIn nfkc casefold b.references b.entities) b.mentions
  pub edges_in : Each (IsEdgeIn b.references b.entities b.mentions) b.edges

-- A bundle that is made has one topic, and no two of its entities, of its mentions or of its edges share
-- an identifier; its mentions and its edges are those given, and its entities have the identifiers of
-- those given; each entity is mentioned; each mention is of an entity of the bundle, of the paper's own node or with a label that has the entity's key; each
-- edge leads from a paper to an entity of the bundle, a paper if it relates papers; the versions of
-- mentions and edges and their evidence are known references; and each end that is a paper's version
-- is mentioned by the owner of the edge.
pub make_bundle-IsClosed :
    (nfkc casefold : Text → Text) (uuid5 : Uuid → Text → Uuid) (given made : KnowledgeGraphBundle)
    → make_bundle nfkc casefold uuid5 given ≡ ok made
    → (made.topic_id ≡ given.topic_id)
      × HasSame made.mentions given.mentions
      × HasSame made.edges given.edges
      × ((k : Uuid)
          → member k (map entity_id_of made.entities) ≡ member k (map entity_id_of given.entities))
      × IsClosed nfkc casefold made
unfolding make_bundle
make_bundle-IsClosed nfkc casefold uuid5 given made h =
    let r = given.references in
    after_step (merge_graph_entities nfkc casefold uuid5 given.entities) _ made h
      (λ entities merged rest.
        after_step
          (deduplicate_identified mention_id_of mention-discrete mention_conflict given.mentions) _
          made rest
          (λ mentions united rest.
            after_step (deduplicate_identified edge_id_of edge-discrete edge_conflict given.edges) _
              made rest
              (λ edges joined rest.
                let (filled, rest) =
                  validated->>= {0, 0} tt (bundle_checks given.topic_id entities mentions) _ made
                    rest in
                after_step (for_each (check_mention nfkc casefold r entities) mentions) _ made rest
                  (λ u each_mention rest.
                    let (complete, rest) =
                      validated->>= {0, 0} tt (orphan_check entities mentions) _ made rest in
                    after_step (for_each (check_edge r entities mentions) edges) _ made rest
                      (λ v each_edge rest.
                        let mention_union =
                          united-IsUnion mention_id_of mention-discrete mention_conflict
                            given.mentions mentions united in
                        let entity_union =
                          merge_graph_entities-IsMerged nfkc casefold uuid5 given.entities entities
                            merged in
                        let edge_union =
                          united-IsUnion edge_id_of edge-discrete edge_conflict given.edges edges
                            joined in
                        subst
                          (λ b.
                            (b.topic_id ≡ given.topic_id)
                            × HasSame b.mentions given.mentions
                            × HasSame b.edges given.edges
                            × ((k : Uuid)
                                → member k (map entity_id_of b.entities)
                                  ≡ member k (map entity_id_of given.entities))
                            × IsClosed nfkc casefold b)
                          (ok-injective rest)
                          (
                            refl,
                            mention_union.same_records,
                            edge_union.same_records,
                            entity_union.same_ids,
                            record {
                              entities_apart = entity_union.apart;
                              mentions_apart = mention_union.apart;
                              edges_apart = edge_union.apart;
                              one_topic = filled.1.0;
                              mentioned = ground (arith, complete.0);
                              mentions_in =
                                  Each-map (λ m. check_mention nfkc casefold r entities m ≡ ok tt)
                                    (IsMentionIn nfkc casefold r entities)
                                    (check_mention-IsMentionIn nfkc casefold r entities) mentions
                                    (for_each-Each (check_mention nfkc casefold r entities) mentions
                                      u each_mention);
                              edges_in =
                                  Each-map (λ e. check_edge r entities mentions e ≡ ok tt)
                                    (IsEdgeIn r entities mentions)
                                    (check_edge-IsEdgeIn nfkc casefold r entities mentions) edges
                                    (for_each-Each (check_edge r entities mentions) edges v
                                      each_edge);
                            },
                          ))))))
