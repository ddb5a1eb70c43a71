-- ===== src/Graph/Record.antt =====
-- domain/knowledge.py: the checks of `GraphModelProvenance`, `GraphEntityMention` and `GraphEdge`.
-- A confidence is a whole number of millionths.
use domain_specific_paper_ha.Prelude.{
  Bool, true, false, not, ◌&&◌, ◌||◌, Option, List, [], ◌∷◌, ◌++◌, is_none, is_some, is_nil,
  option_is, if◌then◌else◌,
}
use domain_specific_paper_ha.Prelude.Int.{ℤ, pos, ltb_ℤ}
use domain_specific_paper_ha.Prelude.Text.{Text, Uuid, text_eq}
use domain_specific_paper_ha.Prelude.Keys.{distinct}
use domain_specific_paper_ha.Result.{Result, Check, validated, domain_invariant, ◌>>=◌}
use domain_specific_paper_ha.Identity.Graph.{
  EdgeKey, MentionKey, stable_graph_edge_id, stable_graph_entity_mention_id,
}
use domain_specific_paper_ha.Lineage.Edge.{
  GraphEdge, GraphModelProvenance, RelationProvenance, text_explicit, llm_inferred,
  deterministically_derived, human_verified, VerificationStatus, verified_by_human, Datetime,
  relation_value, is_paper_relation, is_inferred,
}
use domain_specific_paper_ha.Lineage.Snapshot.{require_text, max_paper_title_length}

unfoldable pub model_provenance_checks : GraphModelProvenance → List Check
unfolding require_text
model_provenance_checks m =
    require_text m.provider "graph model provider must not be empty"
      "graph model provider must be concise valid text" 100
    ++ (require_text m.configured_model "configured graph model must not be empty"
          "configured graph model must be concise valid text" 200
        ++ (require_text m.model_version "graph model version must not be empty"
              "graph model version must be concise valid text" 200
            ++ require_text m.prompt_version "graph prompt version must not be empty"
                "graph prompt version must be concise valid text" 100))

unfoldable pub make_model_provenance : GraphModelProvenance → Result GraphModelProvenance
unfolding model_provenance_checks
make_model_provenance m = validated m (model_provenance_checks m)

abbrev pub full_confidence : ℤ
full_confidence = pos 1000000

abbrev pub needs_evidence : RelationProvenance → Bool
needs_evidence text_explicit = true
needs_evidence llm_inferred = true
needs_evidence _ = false

abbrev pub may_have_model : RelationProvenance → Bool
may_have_model llm_inferred = true
may_have_model deterministically_derived = true
may_have_model _ = false

abbrev pub is_human : RelationProvenance → Bool
is_human human_verified = true
is_human _ = false

abbrev pub is_verified_by_human : VerificationStatus → Bool
is_verified_by_human verified_by_human = true
is_verified_by_human _ = false

-- `_validate_occurrence_provenance`
unfoldable pub occurrence_checks :
    RelationProvenance
    → List Uuid
    → Option GraphModelProvenance
    → Option ℤ
    → VerificationStatus
    → List Check
occurrence_checks provenance evidence_ids model_provenance confidence verification_status =
    (not (distinct evidence_ids), domain_invariant "graph evidence IDs must be unique")
    ∷ (
      needs_evidence provenance && is_nil evidence_ids,
      domain_invariant "text-explicit and LLM-inferred graph records require evidence",
    )
    ∷ (
      is_inferred provenance && (is_none model_provenance || is_none confidence),
      domain_invariant "LLM-inferred graph records require model provenance and confidence",
    )
    ∷ (
      not (is_inferred provenance) && is_some confidence,
      domain_invariant "only LLM-inferred graph records may carry confidence",
    )
    ∷ (
      is_some model_provenance && not (may_have_model provenance),
      domain_invariant "only inferred or AI-derived graph records may carry model provenance",
    )
    ∷ (
      option_is (λ c. ltb_ℤ c (pos 0) || ltb_ℤ full_confidence c) confidence,
      domain_invariant "graph confidence must be between zero and one",
    )
    ∷ (
      is_human provenance && not (is_verified_by_human verification_status),
      domain_invariant "human-verified provenance requires human verification status",
    )
    ∷ []

-- The last checks of both records.
unfoldable pub stamp_checks : Datetime → Datetime → ℤ → List Check
stamp_checks generated_at created_at schema_version =
    (not generated_at.is_aware, domain_invariant "generated_at must be timezone-aware")
    ∷ (not created_at.is_aware, domain_invariant "created_at must be timezone-aware")
    ∷ (ltb_ℤ schema_version (pos 1), domain_invariant "schema_version must be positive")
    ∷ []

pub record GraphEntityMention : Type 0 where
  pub id : Uuid
  pub entity_id : Uuid
  pub paper_id : Uuid
  pub paper_version_id : Uuid
  pub analysis_id : Option Uuid
  pub comparison_id : Option Uuid
  pub observed_label : Text
  pub provenance : RelationProvenance
  pub evidence_ids : List Uuid
  pub model_provenance : Option GraphModelProvenance
  pub confidence : Option ℤ
  pub verification_status : VerificationStatus
  pub generated_at : Datetime
  pub schema_version : ℤ
  pub created_at : Datetime
  pub pipeline_execution_id : Option Uuid

abbrev pub mention_key : GraphEntityMention → MentionKey
mention_key m = record {
  entity_id = m.entity_id;
  paper_version_id = m.paper_version_id;
  analysis_id = m.analysis_id;
  comparison_id = m.comparison_id;
  pipeline_execution_id = m.pipeline_execution_id;
}

abbrev pub mention_content : GraphEntityMention → List Check
mention_content m =
    require_text m.observed_label "graph observed label must not be empty"
      "graph observed label must be concise valid text" max_paper_title_length
    ++ occurrence_checks m.provenance m.evidence_ids m.model_provenance m.confidence
        m.verification_status

-- Which identifiers an edge of its relation has.
unfoldable pub relation_checks : GraphEdge → List Check
relation_checks e =
    if is_paper_relation e.relation_type
    then (
      is_none e.target_paper_version_id
          || (is_none e.paper_relation_id || (is_none e.comparison_id || is_some e.analysis_id)),
      domain_invariant
          "paper graph relation requires target version, comparison, and source relation",
    )
      ∷ (
        option_is (text_eq e.source_paper_version_id) e.target_paper_version_id,
        domain_invariant "paper graph relation requires distinct versions",
      )
      ∷ []
    else (
      is_some e.target_paper_version_id
          || (is_some e.paper_relation_id
              || ((is_none e.analysis_id && is_none e.comparison_id)
                  || (is_some e.analysis_id && is_some e.comparison_id))),
      domain_invariant "paper-to-entity edge requires exactly one analysis or comparison owner",
    )
      ∷ []

abbrev pub edge_identity : GraphEdge → EdgeKey
edge_identity e = record {
  source_entity_id = e.source_entity_id;
  target_entity_id = e.target_entity_id;
  relation_type = relation_value e.relation_type;
  source_paper_version_id = e.source_paper_version_id;
  target_paper_version_id = e.target_paper_version_id;
  analysis_id = e.analysis_id;
  comparison_id = e.comparison_id;
  paper_relation_id = e.paper_relation_id;
  pipeline_execution_id = e.pipeline_execution_id;
}

-- The checks before the identifier.
abbrev pub edge_content : GraphEdge → List Check
edge_content e =
    (
      text_eq e.source_entity_id e.target_entity_id,
      domain_invariant "graph edges cannot be self-relations",
    )
    ∷ (require_text e.justification "graph edge justification must not be empty"
          "graph edge justification must be concise valid text" 2000
        ++ (occurrence_checks e.provenance e.evidence_ids e.model_provenance e.confidence
              e.verification_status
            ++ relation_checks e))

module _ (uuid5 : Uuid → Text → Uuid) where
  unfoldable pub make_mention : GraphEntityMention → Result GraphEntityMention
  unfolding require_text occurrence_checks stamp_checks
  make_mention m = do
    checked ← validated m (mention_content m)
    expected_id ← stable_graph_entity_mention_id uuid5 (mention_key checked)
    validated checked (
        (
          not (text_eq checked.id expected_id),
          domain_invariant "graph entity mention ID is not stable for its owner",
        )
        ∷ stamp_checks checked.generated_at checked.created_at checked.schema_version)

  unfoldable pub make_edge : GraphEdge → Result GraphEdge
  unfolding require_text occurrence_checks relation_checks stamp_checks
  make_edge e = do
    checked ← validated e (edge_content e)
    expected_id ← stable_graph_edge_id uuid5 (edge_identity checked)
    validated checked (
        (
          not (text_eq checked.id expected_id),
          domain_invariant "graph edge ID is not stable for its source occurrence",
        )
        ∷ stamp_checks checked.generated_at checked.created_at checked.schema_version)
