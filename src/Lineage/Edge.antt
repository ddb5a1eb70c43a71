-- ===== src/Lineage/Edge.antt =====
-- domain/knowledge.py and domain/historical.py: the relation types, the provenance and the fields of
-- a graph edge that the lineage reads or passes on. Enumerations compare and sort by their values.
use domain_specific_paper_ha.Prelude.{Bool, true, false, ◌||◌, Option, List, [], ◌∷◌}
use domain_specific_paper_ha.Prelude.Int.{ℤ}
use domain_specific_paper_ha.Prelude.Text.{Text, Uuid, codes, text_eq}

pub data GraphRelationType : Type 0 where
  cites similar_to extends_on compares_with contradicts improves_on : GraphRelationType
  addresses uses_method targets_task uses_dataset evaluates_on : GraphRelationType

abbrev pub relation_value : GraphRelationType → Text
relation_value cites = codes "CITES"
relation_value similar_to = codes "SIMILAR_TO"
relation_value extends_on = codes "EXTENDS"
relation_value compares_with = codes "COMPARES_WITH"
relation_value contradicts = codes "CONTRADICTS"
relation_value improves_on = codes "IMPROVES_ON"
relation_value addresses = codes "ADDRESSES"
relation_value uses_method = codes "USES_METHOD"
relation_value targets_task = codes "TARGETS_TASK"
relation_value uses_dataset = codes "USES_DATASET"
relation_value evaluates_on = codes "EVALUATES_ON"

-- `item in PAPER_GRAPH_RELATION_TYPES`
abbrev pub is_paper_relation : GraphRelationType → Bool
is_paper_relation cites = true
is_paper_relation similar_to = true
is_paper_relation extends_on = true
is_paper_relation compares_with = true
is_paper_relation contradicts = true
is_paper_relation improves_on = true
is_paper_relation _ = false

-- `item in predecessor_relations`
abbrev pub is_predecessor_relation : GraphRelationType → Bool
is_predecessor_relation cites = true
is_predecessor_relation extends_on = true
is_predecessor_relation improves_on = true
is_predecessor_relation _ = false

abbrev pub default_lineage_relation_types : List GraphRelationType
default_lineage_relation_types = cites ∷ extends_on ∷ improves_on ∷ []

pub data RelationProvenance : Type 0 where
  metadata_explicit text_explicit deterministically_derived llm_inferred human_verified :
      RelationProvenance

-- `edge.provenance in explicit_provenance`
abbrev pub is_explicit : RelationProvenance → Bool
is_explicit metadata_explicit = true
is_explicit text_explicit = true
is_explicit human_verified = true
is_explicit _ = false

-- `provenance is RelationProvenance.LLM_INFERRED`
abbrev pub is_inferred : RelationProvenance → Bool
is_inferred llm_inferred = true
is_inferred _ = false

pub data VerificationStatus : Type 0 where
  unverified verified_by_human rejected : VerificationStatus

pub record GraphModelProvenance : Type 0 where
  pub provider : Text
  pub configured_model : Text
  pub model_version : Text
  pub prompt_version : Text

-- An instant, and whether the `datetime` has a time zone.
pub record Datetime : Type 0 where
  pub instant : ℤ
  pub is_aware : Bool

pub record GraphEdge : Type 0 where
  pub id : Uuid
  pub source_entity_id : Uuid
  pub target_entity_id : Uuid
  pub relation_type : GraphRelationType
  pub source_paper_version_id : Uuid
  pub target_paper_version_id : Option Uuid
  pub analysis_id : Option Uuid
  pub comparison_id : Option Uuid
  pub paper_relation_id : Option Uuid
  pub provenance : RelationProvenance
  pub evidence_ids : List Uuid
  pub justification : Text
  pub model_provenance : Option GraphModelProvenance
  -- in millionths
  pub confidence : Option ℤ
  pub verification_status : VerificationStatus
  pub generated_at : Datetime
  pub schema_version : ℤ
  pub created_at : Datetime
  pub pipeline_execution_id : Option Uuid

abbrev pub edge_ids : List GraphEdge → List Uuid
edge_ids [] = []
edge_ids (e ∷ es) = e.id ∷ edge_ids es

abbrev pub is_rejected : VerificationStatus → Bool
is_rejected rejected = true
is_rejected _ = false

-- `edge.relation_type in permitted`
unfoldable pub permits : List GraphRelationType → GraphRelationType → Bool
permits [] r = false
permits (p ∷ ps) r = text_eq (relation_value r) (relation_value p) || permits ps r
