-- ===== src/Graph/Merge.antt =====
-- domain/knowledge.py: `GraphReferenceSet` and `_merge_graph_entities`.
use domain_specific_paper_ha.Prelude.{
  Bool, true, false, not, ◌&&◌, ◌||◌, Option, none, some, List, [], ◌∷◌, ◌++◌, any, if◌then◌else◌,
}
use domain_specific_paper_ha.Prelude.Int.{ltb_ℤ, eqb_ℤ}
use domain_specific_paper_ha.Prelude.Text.{Text, Uuid, codes, text_eq, text_leb}
use domain_specific_paper_ha.Prelude.Keys.{unique}
use domain_specific_paper_ha.Prelude.Sort.{sorted}
use domain_specific_paper_ha.Result.{Result, ok, validated, domain_invariant, ◌>>=◌, each_result}
use domain_specific_paper_ha.Lineage.Edge.{
  RelationProvenance, metadata_explicit, text_explicit, deterministically_derived, llm_inferred,
  human_verified, Datetime,
}
use domain_specific_paper_ha.Graph.Entity.{GraphEntity, GraphEntityType, entity_value, make_entity}
use domain_specific_paper_ha.Graph.Union.{id_leb}

pub record GraphReferenceSet : Type 0 where
  pub paper_version_ids : List Uuid
  pub analysis_ids : List Uuid
  pub comparison_ids : List Uuid
  pub paper_relation_ids : List Uuid
  pub evidence_ids : List Uuid

-- `tuple(sorted(set(values), key=str))`
unfoldable pub sorted_ids : List Uuid → List Uuid
sorted_ids values = sorted text_leb (unique values)

unfoldable pub make_references : GraphReferenceSet → GraphReferenceSet
unfolding sorted_ids
make_references r = record {
  paper_version_ids = sorted_ids r.paper_version_ids;
  analysis_ids = sorted_ids r.analysis_ids;
  comparison_ids = sorted_ids r.comparison_ids;
  paper_relation_ids = sorted_ids r.paper_relation_ids;
  evidence_ids = sorted_ids r.evidence_ids;
}

abbrev pub provenance_value : RelationProvenance → Text
provenance_value metadata_explicit = codes "METADATA_EXPLICIT"
provenance_value text_explicit = codes "TEXT_EXPLICIT"
provenance_value deterministically_derived = codes "DETERMINISTICALLY_DERIVED"
provenance_value llm_inferred = codes "LLM_INFERRED"
provenance_value human_verified = codes "HUMAN_VERIFIED"

-- `==` of two optional identifiers.
abbrev pub same_id : Option Uuid → Option Uuid → Bool
same_id none none = true
same_id (some a) (some b) = text_eq a b
same_id _ _ = false

abbrev pub same_type : GraphEntityType → GraphEntityType → Bool
same_type a b = text_eq (entity_value a) (entity_value b)

-- The tuples `identity` of two entities are equal.
unfoldable pub same_identity : GraphEntity → GraphEntity → Bool
same_identity a b =
    text_eq a.topic_id b.topic_id
    && (same_type a.entity_type b.entity_type
        && (same_id a.paper_id b.paper_id
            && (text_eq a.normalized_key b.normalized_key
                && (text_eq (provenance_value a.provenance) (provenance_value b.provenance)
                    && (text_eq a.source b.source && eqb_ℤ a.schema_version b.schema_version)))))

-- The observations of one identifier, in order; there is a first one.
pub record Group : Type 0 where
  pub entity_id : Uuid
  pub first : GraphEntity
  pub others : List GraphEntity

abbrev pub observations : Group → List GraphEntity
observations g = g.first ∷ g.others

-- `grouped[value.id].append(value)`
unfoldable pub grouped_with : GraphEntity → List Group → List Group
grouped_with value [] = record { entity_id = value.id; first = value; others = [] } ∷ []
grouped_with value (g ∷ groups) =
    let later = g ∷ grouped_with value groups in
    if text_eq value.id g.entity_id
    then record { entity_id = g.entity_id; first = g.first; others = g.others ++ value ∷ [] }
      ∷ groups
    else later

unfoldable pub grouped : List GraphEntity → List Group → List Group
unfolding grouped_with
grouped [] groups = groups
grouped (value ∷ values) groups = grouped values (grouped_with value groups)

-- `min(item.created_at for item in observations)`
unfoldable pub earliest : Datetime → List GraphEntity → Datetime
earliest found [] = found
earliest found (e ∷ es) =
    earliest (if ltb_ℤ e.created_at.instant found.instant then e.created_at else found) es

-- `max(item.updated_at for item in observations)`
unfoldable pub latest : Datetime → List GraphEntity → Datetime
latest found [] = found
latest found (e ∷ es) =
    latest (if ltb_ℤ found.instant e.updated_at.instant then e.updated_at else found) es

unfoldable pub entity_id_of : GraphEntity → Uuid
entity_id_of e = e.id

-- The labels of the observations.
unfoldable pub labels_of : List GraphEntity → List Text
labels_of [] = []
labels_of (e ∷ es) = e.aliases ++ (e.display_label ∷ e.canonical_label ∷ labels_of es)

module _ (nfkc casefold : Text → Text) where
  -- The key of `max` is greater: a later update, then the label.
  unfoldable pub is_after : GraphEntity → GraphEntity → Bool
  is_after a b =
      ltb_ℤ b.updated_at.instant a.updated_at.instant
      || (eqb_ℤ a.updated_at.instant b.updated_at.instant
          && (not (text_leb (casefold a.display_label) (casefold b.display_label))
              || (text_eq (casefold a.display_label) (casefold b.display_label)
                  && not (text_leb a.display_label b.display_label))))

  -- `selected`, the first of the greatest.
  unfoldable pub selected_of : GraphEntity → List GraphEntity → GraphEntity
  unfolding is_after
  selected_of found [] = found
  selected_of found (e ∷ es) = selected_of (if is_after e found then e else found) es

  -- The order of the aliases.
  unfoldable pub alias_leb : Text → Text → Bool
  alias_leb a b =
      not (text_leb (casefold b) (casefold a))
      || (text_eq (casefold a) (casefold b) && text_leb a b)

  unfoldable pub merged_fields : Group → GraphEntity
  unfolding selected_of alias_leb earliest latest labels_of
  merged_fields g =
      let selected = selected_of g.first g.others in
      record {
        id = g.entity_id;
        topic_id = selected.topic_id;
        entity_type = selected.entity_type;
        paper_id = selected.paper_id;
        canonical_label = selected.canonical_label;
        normalized_key = selected.normalized_key;
        display_label = selected.display_label;
        aliases = sorted alias_leb (unique (labels_of (observations g)));
        provenance = selected.provenance;
        source = selected.source;
        schema_version = selected.schema_version;
        created_at = earliest g.first.created_at g.others;
        updated_at = latest g.first.updated_at g.others;
      }

  module _ (uuid5 : Uuid → Text → Uuid) where
    unfoldable pub merge_group : Group → Result GraphEntity
    unfolding same_identity merged_fields make_entity
    merge_group g = do
      checked ← validated g (
          (
            any (λ item. not (same_identity item g.first)) g.others,
            domain_invariant "conflicting graph entities share a stable ID",
          )
          ∷ [])
      make_entity nfkc casefold uuid5 (merged_fields checked)

    unfoldable pub merge_graph_entities : List GraphEntity → Result (List GraphEntity)
    unfolding grouped merge_group id_leb entity_id_of
    merge_graph_entities values = do
      merged ← each_result merge_group (grouped values [])
      ok (sorted (id_leb entity_id_of) merged)
