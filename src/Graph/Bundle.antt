-- ===== src/Graph/Bundle.antt =====
-- domain/knowledge.py: `KnowledgeGraphBundle` with the checks of its constructor, the salting of its
-- records with a pipeline execution, and the merge of bundles.
use native.Mathlib.Decide.{ℕ_discrete}
use domain_specific_paper_ha.Prelude.{
  Bool, not, ◌&&◌, ◌||◌, Option, none, some, List, [], ◌∷◌, any, map, is_nil, option_is,
  if◌then◌else◌,
}
use domain_specific_paper_ha.Prelude.Text.{Text, Uuid, text_eq}
use domain_specific_paper_ha.Prelude.Keys.{member, subset, same_set}
use domain_specific_paper_ha.Result.{
  Error, Result, ok, err, Check, passing, validated, domain_invariant, assertion_error,
  external_error, ◌>>=◌, Passed,
}
use domain_specific_paper_ha.Lineage.Edge.{
  GraphEdge, GraphRelationType, addresses, uses_method, targets_task, uses_dataset, evaluates_on,
  is_paper_relation,
}
use domain_specific_paper_ha.Graph.Record.{GraphEntityMention}
use domain_specific_paper_ha.Graph.Label.{normalized_entity_key}
use domain_specific_paper_ha.Graph.Entity.{
  GraphEntity, GraphEntityType, is_paper, research_problem, method, task, dataset, benchmark,
}
use domain_specific_paper_ha.Graph.Union.{get, deduplicate_identified}
use domain_specific_paper_ha.Graph.Merge.{
  GraphReferenceSet, same_id, same_type, entity_id_of, merge_graph_entities,
}

pub record KnowledgeGraphBundle : Type 0 where
  pub topic_id : Uuid
  pub entities : List GraphEntity
  pub mentions : List GraphEntityMention
  pub edges : List GraphEdge
  pub references : GraphReferenceSet

abbrev pub mention_id_of : GraphEntityMention → Uuid
mention_id_of m = m.id

abbrev pub edge_id_of : GraphEdge → Uuid
edge_id_of e = e.id

-- `==` of records, field by field.
unfoldable pub mention-discrete : Discrete GraphEntityMention
mention-discrete = hlevel (ℕ_discrete)

unfoldable pub edge-discrete : Discrete GraphEdge
edge-discrete = hlevel (ℕ_discrete)

abbrev pub mention_conflict : Error
mention_conflict = domain_invariant "conflicting graph mention records share a stable ID"

abbrev pub edge_conflict : Error
edge_conflict = domain_invariant "conflicting graph edge records share a stable ID"

-- `for value in values: check(value)`
unfoldable pub for_each : {A : Type 0} → (A → Passed) → List A → Passed
for_each check [] = ok tt
for_each check (value ∷ values) = check value >>= λ _. for_each check values

-- `value is not None and value not in known`
abbrev pub is_unknown : Option Uuid → List Uuid → Bool
is_unknown value known = option_is (λ v. not (member v known)) value

abbrev pub mention_references : GraphReferenceSet → GraphEntityMention → List Check
mention_references r m =
    (
      not (member m.paper_version_id r.paper_version_ids),
      domain_invariant "graph mention references an unknown paper version",
    )
    ∷ (
      is_unknown m.analysis_id r.analysis_ids,
      domain_invariant "graph mention references an unknown analysis",
    )
    ∷ (
      is_unknown m.comparison_id r.comparison_ids,
      domain_invariant "graph mention references an unknown comparison",
    )
    ∷ (
      not (subset m.evidence_ids r.evidence_ids),
      domain_invariant "graph mention references unknown evidence",
    )
    ∷ []

abbrev pub owner_check : GraphEntity → GraphEntityMention → List Check
owner_check entity m =
    (
      not (same_id entity.paper_id (some m.paper_id)),
      domain_invariant "paper graph mention has mismatched paper ownership",
    )
    ∷ []

abbrev pub label_check : GraphEntity → Text → List Check
label_check entity key =
    (
      not (text_eq key entity.normalized_key),
      domain_invariant "graph mention label does not match its entity key",
    )
    ∷ []

abbrev pub edge_references : GraphReferenceSet → GraphEntity → GraphEdge → List Check
edge_references r source e =
    (
      not (is_paper source.entity_type),
      domain_invariant "initial graph edges must originate from a paper",
    )
    ∷ (
      not (member e.source_paper_version_id r.paper_version_ids),
      domain_invariant "graph edge references an unknown source paper version",
    )
    ∷ (
      is_unknown e.analysis_id r.analysis_ids,
      domain_invariant "graph edge references an unknown analysis",
    )
    ∷ (
      is_unknown e.comparison_id r.comparison_ids,
      domain_invariant "graph edge references an unknown comparison",
    )
    ∷ (
      is_unknown e.paper_relation_id r.paper_relation_ids,
      domain_invariant "graph edge references an unknown paper relation",
    )
    ∷ (
      not (subset e.evidence_ids r.evidence_ids),
      domain_invariant "graph edge references unknown evidence",
    )
    ∷ []

-- `_ENTITY_RELATION_TARGET`, without the keys of the relations between papers.
abbrev pub entity_relation_target : GraphRelationType → Option GraphEntityType
entity_relation_target addresses = some research_problem
entity_relation_target uses_method = some method
entity_relation_target targets_task = some task
entity_relation_target uses_dataset = some dataset
entity_relation_target evaluates_on = some benchmark
entity_relation_target _ = none

abbrev pub paper_target_checks : GraphReferenceSet → GraphEntity → List Check
paper_target_checks r target =
    (
      not (is_paper target.entity_type),
      domain_invariant "paper relation must target a paper entity",
    )
    ∷ []

abbrev pub version_check : GraphReferenceSet → Uuid → List Check
version_check r version =
    (
      not (member version r.paper_version_ids),
      domain_invariant "graph edge references an unknown target version",
    )
    ∷ []

-- The branch of a relation between papers; the constructor of the edge ensures the assertion.
unfoldable pub paper_target : GraphReferenceSet → GraphEntity → Option Uuid → Passed
paper_target r target version = do
  checked ← passing (paper_target_checks r target)
  elim version [
    | none ↦ err (assertion_error "")
    | some known ↦ validated checked (version_check r known)
  ]

unfoldable pub entity_target : GraphEntity → Option GraphEntityType → Passed
entity_target target none = err (external_error "KeyError")
entity_target target (some expected) = passing (
    (
      not (same_type target.entity_type expected),
      domain_invariant "paper-to-entity relation has the wrong target type",
    )
    ∷ [])

unfoldable pub target_check : GraphReferenceSet → GraphEntity → GraphEdge → Passed
unfolding paper_target entity_target
target_check r target e =
    if is_paper_relation e.relation_type
    then paper_target r target e.target_paper_version_id
    else entity_target target (entity_relation_target e.relation_type)

-- `_has_paper_mention`, of the entity and the version of one end.
unfoldable pub has_paper_mention : List GraphEntityMention → GraphEdge → Uuid → Option Uuid → Bool
has_paper_mention mentions e entity_id version_id =
    any
      (λ m.
        text_eq m.entity_id entity_id
        && (same_id (some m.paper_version_id) version_id
            && (same_id m.analysis_id e.analysis_id && same_id m.comparison_id e.comparison_id)))
      mentions

unfoldable pub owned_checks : List GraphEntityMention → GraphEdge → List Check
unfolding has_paper_mention
owned_checks mentions e =
    (
      not (has_paper_mention mentions e e.source_entity_id (some e.source_paper_version_id)),
      domain_invariant "graph edge source version lacks an owned paper mention",
    )
    ∷ (
      is_paper_relation e.relation_type
          && not (has_paper_mention mentions e e.target_entity_id e.target_paper_version_id),
      domain_invariant "graph edge target version lacks an owned paper mention",
    )
    ∷ []

-- The checks of one edge, whose ends were looked up.
unfoldable pub check_ends :
    GraphReferenceSet
    → List GraphEntityMention
    → GraphEdge
    → Option GraphEntity
    → Option GraphEntity
    → Passed
unfolding target_check owned_checks
check_ends r mentions e (some source) (some target) = do
  known ← passing (edge_references r source e)
  targeted ← target_check r target e
  passing (owned_checks mentions e)
check_ends r mentions e _ _ = err (domain_invariant "graph edge cannot reference an orphan entity")

unfoldable pub check_edge :
    GraphReferenceSet → List GraphEntity → List GraphEntityMention → GraphEdge → Passed
unfolding check_ends get
check_edge r entities mentions e =
    check_ends r mentions e (get entity_id_of entities e.source_entity_id)
      (get entity_id_of entities e.target_entity_id)

abbrev pub bundle_checks : Uuid → List GraphEntity → List GraphEntityMention → List Check
bundle_checks topic_id entities mentions =
    (
      is_nil entities || is_nil mentions,
      domain_invariant "knowledge graph bundle requires entities and mentions",
    )
    ∷ (
      any (λ entity. not (text_eq entity.topic_id topic_id)) entities,
      domain_invariant "knowledge graph bundle cannot cross topic boundaries",
    )
    ∷ []

-- An entity of a mention is in the dictionary by then, so the two sets are compared.
abbrev pub orphan_check : List GraphEntity → List GraphEntityMention → List Check
orphan_check entities mentions =
    (
      not (same_set (map (λ m. m.entity_id) mentions) (map entity_id_of entities)),
      domain_invariant "knowledge graph bundle cannot contain orphan entities",
    )
    ∷ []

module _ (nfkc casefold : Text → Text) where
  unfoldable pub check_label : GraphEntity → GraphEntityMention → Passed
  unfolding normalized_entity_key
  check_label entity m =
      if is_paper entity.entity_type
      then passing (owner_check entity m)
      else (normalized_entity_key nfkc casefold m.observed_label >>= λ key.
          passing (label_check entity key))

  -- The checks of one mention, whose entity was looked up.
  unfoldable pub check_entity : GraphReferenceSet → GraphEntityMention → Option GraphEntity → Passed
  unfolding check_label
  check_entity r m none = err (domain_invariant "graph mention cannot reference an orphan entity")
  check_entity r m (some entity) = do known ← passing (mention_references r m); check_label entity m

  unfoldable pub check_mention : GraphReferenceSet → List GraphEntity → GraphEntityMention → Passed
  unfolding check_entity get
  check_mention r entities m = check_entity r m (get entity_id_of entities m.entity_id)

  module _ (uuid5 : Uuid → Text → Uuid) where
    unfoldable pub make_bundle : KnowledgeGraphBundle → Result KnowledgeGraphBundle
    unfolding merge_graph_entities deduplicate_identified for_each check_mention check_edge
    make_bundle b = do
      entities ← merge_graph_entities nfkc casefold uuid5 b.entities
      mentions ← deduplicate_identified mention_id_of mention-discrete mention_conflict b.mentions
      edges ← deduplicate_identified edge_id_of edge-discrete edge_conflict b.edges
      filled ← passing (bundle_checks b.topic_id entities mentions)
      mentioned ← for_each (check_mention b.references entities) mentions
      complete ← passing (orphan_check entities mentions)
      linked ← for_each (check_edge b.references entities mentions) edges
      ok (record {
        topic_id = b.topic_id;
        entities = entities;
        mentions = mentions;
        edges = edges;
        references = b.references;
      })
