-- ===== src/Identity/Graph.antt =====
-- domain/identity.py: the identifiers whose names are length-prefixed parts: pipeline executions,
-- embeddings, graph entities, mentions and edges, lineage and trend snapshots. `X_name` is the name
-- that `stable_X_id` hands to `uuid5`; `uuid5` is a parameter. A date is its ISO text.
use domain_specific_paper_ha.Prelude.{
  ℕ, Bool, ◌&&◌, ◌||◌, Option, none, some, List, [], ◌∷◌, ◌++◌, is_none, is_some, is_nil, any, ltb,
}
use domain_specific_paper_ha.Prelude.Text.{Text, Uuid, codes, text_eq, text_leb, strip}
use domain_specific_paper_ha.Prelude.Keys.{unique}
use domain_specific_paper_ha.Prelude.Sort.{sorted}
use domain_specific_paper_ha.Result.{domain_invariant, Result, Check, validated, map_ok}
use domain_specific_paper_ha.Identity.Encoding.{decimal, encode_identity_parts}

abbrev pub embedding_namespace : Uuid
embedding_namespace = codes "cf44753b-3e97-4380-ad64-8aad2ac810a1"

abbrev pub graph_entity_namespace : Uuid
graph_entity_namespace = codes "ec6392cf-c38b-4fdb-b205-59c9bf80f8fe"

abbrev pub graph_entity_mention_namespace : Uuid
graph_entity_mention_namespace = codes "d73b3650-d074-4d28-991c-bd97e8fc4899"

abbrev pub graph_edge_namespace : Uuid
graph_edge_namespace = codes "09c7e488-4471-430e-87f7-6d9312918710"

abbrev pub lineage_snapshot_namespace : Uuid
lineage_snapshot_namespace = codes "048c51ec-5f00-4245-bb51-5e66123a32f4"

abbrev pub trend_snapshot_namespace : Uuid
trend_snapshot_namespace = codes "eb58cde7-537d-4677-aa2f-b71b5fe3d6a2"

abbrev pub pipeline_execution_namespace : Uuid
pipeline_execution_namespace = codes "0357d07f-0ab6-48d1-a941-a5b4786db14f"

-- `not value.strip()`
abbrev pub is_blank : Text → Bool
is_blank value = is_nil (strip value)

-- `str(value or "none")`; an identifier is never false.
abbrev pub or_none : Option Uuid → Text
or_none none = codes "none"
or_none (some u) = u

-- What a pipeline execution adds to the parts.
abbrev pub execution_parts : Option Uuid → List Text
execution_parts none = []
execution_parts (some execution) = codes "pipeline_execution" ∷ execution ∷ []

unfoldable pub pipeline_execution_name : Uuid → Text → Text
pipeline_execution_name topic_id logical_date =
    encode_identity_parts (topic_id ∷ logical_date ∷ codes "NORMAL" ∷ codes "canonical" ∷ [])

pub record EmbeddingContract : Type 0 where
  pub model_identifier : Text
  pub model_revision : Text
  pub tokenizer_identifier : Text
  pub tokenizer_revision : Text
  pub dimension : ℕ
  pub preprocessing_contract : Text
  pub model_provenance : Text
  pub source : Text

unfoldable pub embedding_name : Uuid → EmbeddingContract → Result Text
embedding_name owner_id c =
    validated
      (encode_identity_parts (
        owner_id
        ∷ c.model_identifier
        ∷ c.model_revision
        ∷ c.tokenizer_identifier
        ∷ c.tokenizer_revision
        ∷ decimal c.dimension
        ∷ c.preprocessing_contract
        ∷ c.model_provenance
        ∷ c.source
        ∷ []))
      ((
        any is_blank (
              c.model_identifier ∷ c.model_revision ∷ c.tokenizer_identifier ∷ c.tokenizer_revision
              ∷ c.preprocessing_contract ∷ c.model_provenance ∷ c.source ∷ [])
            || ltb c.dimension 1,
        domain_invariant "complete embedding contract provenance is required",
      )
        ∷ [])

unfoldable pub graph_entity_name : Uuid → Text → Text → Result Text
graph_entity_name topic_id entity_type normalized_key =
    validated (encode_identity_parts (topic_id ∷ strip entity_type ∷ strip normalized_key ∷ [])) (
      (
        is_nil (strip entity_type) || is_nil (strip normalized_key),
        domain_invariant "graph entity type and normalized key are required",
      )
      ∷ [])

unfoldable pub graph_paper_entity_name : Uuid → Uuid → Result Text
unfolding graph_entity_name
graph_paper_entity_name topic_id paper_id =
    graph_entity_name topic_id (codes "PAPER") (codes "paper:" ++ paper_id)

abbrev pub owner_kind : Option Uuid → Text
owner_kind none = codes "comparison"
owner_kind (some _) = codes "analysis"

abbrev pub owner_of : Option Uuid → Option Uuid → Text
owner_of (some analysis) comparison = analysis
owner_of none (some comparison) = comparison
owner_of none none = []

pub record MentionKey : Type 0 where
  pub entity_id : Uuid
  pub paper_version_id : Uuid
  pub analysis_id : Option Uuid
  pub comparison_id : Option Uuid
  pub pipeline_execution_id : Option Uuid

abbrev pub mention_parts : MentionKey → List Text
mention_parts k =
    k.entity_id
    ∷ k.paper_version_id
    ∷ owner_kind k.analysis_id
    ∷ owner_of k.analysis_id k.comparison_id
    ∷ execution_parts k.pipeline_execution_id

unfoldable pub mention_checks : MentionKey → List Check
mention_checks k =
    (
      (is_none k.analysis_id && is_none k.comparison_id)
          || (is_some k.analysis_id && is_some k.comparison_id),
      domain_invariant "graph entity mention requires exactly one analysis or comparison owner",
    )
    ∷ []

unfoldable pub graph_entity_mention_name : MentionKey → Result Text
unfolding mention_checks
graph_entity_mention_name k = validated (encode_identity_parts (mention_parts k)) (mention_checks k)

pub record EdgeKey : Type 0 where
  pub source_entity_id : Uuid
  pub target_entity_id : Uuid
  pub relation_type : Text
  pub source_paper_version_id : Uuid
  pub target_paper_version_id : Option Uuid
  pub analysis_id : Option Uuid
  pub comparison_id : Option Uuid
  pub paper_relation_id : Option Uuid
  pub pipeline_execution_id : Option Uuid

abbrev pub edge_parts : EdgeKey → List Text
edge_parts k =
    k.source_entity_id
    ∷ k.target_entity_id
    ∷ strip k.relation_type
    ∷ k.source_paper_version_id
    ∷ or_none k.target_paper_version_id
    ∷ or_none k.analysis_id
    ∷ or_none k.comparison_id
    ∷ or_none k.paper_relation_id
    ∷ execution_parts k.pipeline_execution_id

unfoldable pub edge_checks : EdgeKey → List Check
edge_checks k =
    (
      text_eq k.source_entity_id k.target_entity_id,
      domain_invariant "graph edges cannot be self-relations",
    )
    ∷ (is_nil (strip k.relation_type), domain_invariant "graph edge relation type is required")
    ∷ (
      is_none k.analysis_id && is_none k.comparison_id,
      domain_invariant "graph edge requires an analysis or comparison owner",
    )
    ∷ (
      is_some k.analysis_id && is_some k.comparison_id,
      domain_invariant "graph edge cannot have both analysis and comparison owners",
    )
    ∷ (
      is_some k.paper_relation_id && is_none k.comparison_id,
      domain_invariant "paper-relation graph edge requires a comparison owner",
    )
    ∷ []

unfoldable pub graph_edge_name : EdgeKey → Result Text
unfolding edge_checks
graph_edge_name k = validated (encode_identity_parts (edge_parts k)) (edge_checks k)

pub record LineageKey : Type 0 where
  pub topic_id : Uuid
  pub root_paper_id : Uuid
  pub as_of_date : Text
  pub permitted_relation_types : List Text
  pub max_depth : ℕ
  pub max_nodes : ℕ
  pub max_edges : ℕ
  pub lineage_version : Text
  pub pipeline_execution_id : Option Uuid

unfoldable pub lineage_snapshot_name : LineageKey → Result Text
lineage_snapshot_name k =
    let relation_values = sorted text_leb (unique k.permitted_relation_types) in
    validated
      (encode_identity_parts (
        k.topic_id
        ∷ k.root_paper_id
        ∷ k.as_of_date
        ∷ (relation_values
            ++ (decimal k.max_depth
                ∷ decimal k.max_nodes
                ∷ decimal k.max_edges
                ∷ k.lineage_version
                ∷ execution_parts k.pipeline_execution_id))))
      ((
        is_nil relation_values,
        domain_invariant "lineage requires at least one permitted relation type",
      )
        ∷ (
          ltb k.max_depth 1
              || (ltb k.max_nodes 1 || (ltb k.max_edges 1 || is_blank k.lineage_version)),
          domain_invariant "lineage identity bounds and version must be positive",
        )
        ∷ [])

unfoldable pub trend_snapshot_name : Uuid → Text → Text → Text → Option Uuid → Result Text
trend_snapshot_name topic_id as_of_date window aggregation_version pipeline_execution_id =
    validated
      (encode_identity_parts (
        topic_id
        ∷ as_of_date
        ∷ strip window
        ∷ strip aggregation_version
        ∷ execution_parts pipeline_execution_id))
      ((
        is_nil (strip window) || is_nil (strip aggregation_version),
        domain_invariant "trend window and aggregation version are required",
      )
        ∷ [])

module _ (uuid5 : Uuid → Text → Uuid) where
  abbrev pub stable_pipeline_execution_id : Uuid → Text → Uuid
  stable_pipeline_execution_id topic_id logical_date =
      uuid5 pipeline_execution_namespace (pipeline_execution_name topic_id logical_date)

  abbrev pub stable_embedding_id : Uuid → EmbeddingContract → Result Uuid
  stable_embedding_id owner_id c = map_ok (uuid5 embedding_namespace) (embedding_name owner_id c)

  abbrev pub stable_graph_entity_id : Uuid → Text → Text → Result Uuid
  stable_graph_entity_id topic_id entity_type key =
      map_ok (uuid5 graph_entity_namespace) (graph_entity_name topic_id entity_type key)

  abbrev pub stable_graph_paper_entity_id : Uuid → Uuid → Result Uuid
  stable_graph_paper_entity_id topic_id paper_id =
      map_ok (uuid5 graph_entity_namespace) (graph_paper_entity_name topic_id paper_id)

  abbrev pub stable_graph_entity_mention_id : MentionKey → Result Uuid
  stable_graph_entity_mention_id k =
      map_ok (uuid5 graph_entity_mention_namespace) (graph_entity_mention_name k)

  abbrev pub stable_graph_edge_id : EdgeKey → Result Uuid
  stable_graph_edge_id k = map_ok (uuid5 graph_edge_namespace) (graph_edge_name k)

  abbrev pub stable_lineage_snapshot_id : LineageKey → Result Uuid
  stable_lineage_snapshot_id k = map_ok (uuid5 lineage_snapshot_namespace) (lineage_snapshot_name k)

  abbrev pub stable_trend_snapshot_id : Uuid → Text → Text → Text → Option Uuid → Result Uuid
  stable_trend_snapshot_id topic_id as_of_date window version execution =
      map_ok (uuid5 trend_snapshot_namespace)
        (trend_snapshot_name topic_id as_of_date window version execution)
