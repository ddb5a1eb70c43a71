-- ===== src/Graph/Publish.antt =====
-- domain/knowledge.py: `namespace_knowledge_graph_bundle` and `merge_knowledge_graph_bundles`.
use domain_specific_paper_ha.Prelude.{not, some, List, [], ◌∷◌, ◌++◌, any}
use domain_specific_paper_ha.Prelude.Text.{Text, Uuid, text_eq}
use domain_specific_paper_ha.Result.{
  Result, err, Check, validated, domain_invariant, ◌>>=◌, each_result,
}
use domain_specific_paper_ha.Identity.Graph.{stable_graph_edge_id, stable_graph_entity_mention_id}
use domain_specific_paper_ha.Lineage.Edge.{GraphEdge}
use domain_specific_paper_ha.Graph.Record.{
  GraphEntityMention, mention_key, edge_identity, make_mention, make_edge,
}
use domain_specific_paper_ha.Graph.Merge.{GraphReferenceSet, make_references}
use domain_specific_paper_ha.Graph.Bundle.{KnowledgeGraphBundle, make_bundle}

-- The mention as an occurrence of a pipeline execution, before its identifier.
abbrev pub mention_of_execution : GraphEntityMention → Uuid → Uuid → GraphEntityMention
mention_of_execution m execution id = record {
  id = id;
  entity_id = m.entity_id;
  paper_id = m.paper_id;
  paper_version_id = m.paper_version_id;
  analysis_id = m.analysis_id;
  comparison_id = m.comparison_id;
  observed_label = m.observed_label;
  provenance = m.provenance;
  evidence_ids = m.evidence_ids;
  model_provenance = m.model_provenance;
  confidence = m.confidence;
  verification_status = m.verification_status;
  generated_at = m.generated_at;
  schema_version = m.schema_version;
  created_at = m.created_at;
  pipeline_execution_id = some execution;
}

abbrev pub edge_of_execution : GraphEdge → Uuid → Uuid → GraphEdge
edge_of_execution e execution id = record {
  id = id;
  source_entity_id = e.source_entity_id;
  target_entity_id = e.target_entity_id;
  relation_type = e.relation_type;
  source_paper_version_id = e.source_paper_version_id;
  target_paper_version_id = e.target_paper_version_id;
  analysis_id = e.analysis_id;
  comparison_id = e.comparison_id;
  paper_relation_id = e.paper_relation_id;
  provenance = e.provenance;
  evidence_ids = e.evidence_ids;
  justification = e.justification;
  model_provenance = e.model_provenance;
  confidence = e.confidence;
  verification_status = e.verification_status;
  generated_at = e.generated_at;
  schema_version = e.schema_version;
  created_at = e.created_at;
  pipeline_execution_id = some execution;
}

-- The fields of all bundles, one after the other.
abbrev pub all_of {ℓ} :
    {A : Type ℓ} → (KnowledgeGraphBundle → List A) → List KnowledgeGraphBundle → List A
all_of field [] = []
all_of field (b ∷ bundles) = field b ++ all_of field bundles

abbrev pub all_references : List KnowledgeGraphBundle → GraphReferenceSet
all_references bundles = record {
  paper_version_ids = all_of (λ b. b.references.paper_version_ids) bundles;
  analysis_ids = all_of (λ b. b.references.analysis_ids) bundles;
  comparison_ids = all_of (λ b. b.references.comparison_ids) bundles;
  paper_relation_ids = all_of (λ b. b.references.paper_relation_ids) bundles;
  evidence_ids = all_of (λ b. b.references.evidence_ids) bundles;
}

abbrev pub all_records : Uuid → List KnowledgeGraphBundle → GraphReferenceSet → KnowledgeGraphBundle
all_records topic_id bundles references = record {
  topic_id = topic_id;
  entities = all_of (λ b. b.entities) bundles;
  mentions = all_of (λ b. b.mentions) bundles;
  edges = all_of (λ b. b.edges) bundles;
  references = references;
}

abbrev pub topic_checks : KnowledgeGraphBundle → List KnowledgeGraphBundle → List Check
topic_checks b bundles =
    (
      any (λ other. not (text_eq other.topic_id b.topic_id)) bundles,
      domain_invariant "knowledge graph updates cannot cross topic boundaries",
    )
    ∷ []

module _ (uuid5 : Uuid → Text → Uuid) where
  unfoldable pub namespace_mention : Uuid → GraphEntityMention → Result GraphEntityMention
  unfolding make_mention
  namespace_mention execution m = do
    id ← stable_graph_entity_mention_id uuid5 (mention_key (mention_of_execution m execution m.id))
    make_mention uuid5 (mention_of_execution m execution id)

  unfoldable pub namespace_edge : Uuid → GraphEdge → Result GraphEdge
  unfolding make_edge
  namespace_edge execution e = do
    id ← stable_graph_edge_id uuid5 (edge_identity (edge_of_execution e execution e.id))
    make_edge uuid5 (edge_of_execution e execution id)

  module _ (nfkc casefold : Text → Text) where
    unfoldable pub namespace_knowledge_graph_bundle :
        KnowledgeGraphBundle → Uuid → Result KnowledgeGraphBundle
    unfolding namespace_mention namespace_edge make_bundle
    namespace_knowledge_graph_bundle b execution = do
      mentions ← each_result (namespace_mention execution) b.mentions
      edges ← each_result (namespace_edge execution) b.edges
      make_bundle nfkc casefold uuid5 (record {
        topic_id = b.topic_id;
        entities = b.entities;
        mentions = mentions;
        edges = edges;
        references = b.references;
      })

    unfoldable pub merge_knowledge_graph_bundles :
        List KnowledgeGraphBundle → Result KnowledgeGraphBundle
    unfolding make_references make_bundle
    merge_knowledge_graph_bundles [] =
        err (domain_invariant "at least one knowledge graph bundle is required")
    merge_knowledge_graph_bundles (b ∷ bundles) = do
      checked ← validated b (topic_checks b bundles)
      make_bundle nfkc casefold uuid5 (
          all_records checked.topic_id (checked ∷ bundles)
            (make_references (all_references (checked ∷ bundles))))
