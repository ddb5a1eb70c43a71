-- ===== src/Graph/Entity.antt =====
-- domain/knowledge.py: `GraphEntity`, whose constructor normalizes its labels and aliases.
use domain_specific_paper_ha.Prelude.{
  Bool, true, false, not, Option, none, some, List, [], ◌∷◌, ◌++◌, is_some, if◌then◌else◌,
}
use domain_specific_paper_ha.Prelude.Int.{ℤ, pos, ltb_ℤ}
use domain_specific_paper_ha.Prelude.Text.{Text, Uuid, codes, text_eq}
use domain_specific_paper_ha.Prelude.Keys.{unique}
use domain_specific_paper_ha.Result.{
  Result, ok, err, Check, validated, domain_invariant, ◌>>=◌, each_result,
}
use domain_specific_paper_ha.Identity.Graph.{stable_graph_entity_id, stable_graph_paper_entity_id}
use domain_specific_paper_ha.Lineage.Edge.{RelationProvenance, Datetime}
use domain_specific_paper_ha.Lineage.Snapshot.{require_text}
use domain_specific_paper_ha.Graph.Label.{
  normalize_entity_label, normalize_paper_title, normalized_entity_key,
}

pub data GraphEntityType : Type 0 where
  paper research_problem method task dataset benchmark : GraphEntityType

-- `entity_type.value`
abbrev pub entity_value : GraphEntityType → Text
entity_value paper = codes "PAPER"
entity_value research_problem = codes "RESEARCH_PROBLEM"
entity_value method = codes "METHOD"
entity_value task = codes "TASK"
entity_value dataset = codes "DATASET"
entity_value benchmark = codes "BENCHMARK"

abbrev pub is_paper : GraphEntityType → Bool
is_paper paper = true
is_paper _ = false

pub record GraphEntity : Type 0 where
  pub id : Uuid
  pub topic_id : Uuid
  pub entity_type : GraphEntityType
  pub paper_id : Option Uuid
  pub canonical_label : Text
  pub normalized_key : Text
  pub display_label : Text
  pub aliases : List Text
  pub provenance : RelationProvenance
  pub source : Text
  pub schema_version : ℤ
  pub created_at : Datetime
  pub updated_at : Datetime

abbrev pub entity_stamps : GraphEntity → List Check
entity_stamps e =
    require_text e.source "graph entity source must not be empty"
      "graph entity source must be concise valid text" 100
    ++ ((ltb_ℤ e.schema_version (pos 1), domain_invariant "schema_version must be positive")
        ∷ (not e.created_at.is_aware, domain_invariant "created_at must be timezone-aware")
        ∷ (not e.updated_at.is_aware, domain_invariant "updated_at must be timezone-aware")
        ∷ (
          ltb_ℤ e.updated_at.instant e.created_at.instant,
          domain_invariant "graph entity update cannot precede creation",
        )
        ∷ [])

abbrev pub no_paper_checks : GraphEntity → List Check
no_paper_checks e =
    (is_some e.paper_id, domain_invariant "non-paper graph entity cannot carry a paper ID") ∷ []

-- What the constructor works out from the kind of the entity.
pub record Expected : Type 0 where
  pub expected_key : Text
  pub expected_id : Uuid
  pub expected_label : Text

abbrev pub key_checks : GraphEntity → Expected → List Check
key_checks e x =
    (
      not (text_eq e.normalized_key x.expected_key),
      domain_invariant "graph entity normalized key is not canonical",
    )
    ∷ (
      not (text_eq e.id x.expected_id),
      domain_invariant "graph entity ID is not stable for its canonical key",
    )
    ∷ []

abbrev pub with_labels : GraphEntity → Text → Text → List Text → GraphEntity
with_labels e canonical display aliases = record {
  id = e.id;
  topic_id = e.topic_id;
  entity_type = e.entity_type;
  paper_id = e.paper_id;
  canonical_label = canonical;
  normalized_key = e.normalized_key;
  display_label = display;
  aliases = aliases;
  provenance = e.provenance;
  source = e.source;
  schema_version = e.schema_version;
  created_at = e.created_at;
  updated_at = e.updated_at;
}

module _ (nfkc casefold : Text → Text) where
  -- `normalizer`
  unfoldable pub normalizer : GraphEntityType → Text → Result Text
  normalizer entity_type value =
      if is_paper entity_type
      then normalize_paper_title nfkc value
      else normalize_entity_label nfkc value

  -- Of the aliases, those with the key of the entity.
  unfoldable pub matching : Text → List Text → Result (List Text)
  unfolding normalized_entity_key
  matching key [] = ok []
  matching key (alias ∷ aliases) = do
    alias_key ← normalized_entity_key nfkc casefold alias
    rest ← matching key aliases
    ok (if text_eq alias_key key then alias ∷ rest else rest)

  unfoldable pub cleaned_aliases : GraphEntity → Text → Result (List Text)
  unfolding normalizer matching
  cleaned_aliases e key = do
    normalized ← each_result (normalizer e.entity_type) e.aliases
    if is_paper e.entity_type then ok (unique normalized) else matching key (unique normalized)

  module _ (uuid5 : Uuid → Text → Uuid) where
    unfoldable pub expected_paper : GraphEntity → Text → Option Uuid → Result Expected
    expected_paper e display none = err (domain_invariant "paper graph entity requires a paper ID")
    expected_paper e display (some paper_id) = do
      id ← stable_graph_paper_entity_id uuid5 e.topic_id paper_id
      ok (record {
        expected_key = codes "paper:" ++ paper_id;
        expected_id = id;
        expected_label = display;
      })

    unfoldable pub expected_entity : GraphEntity → Text → Text → Result Expected
    unfolding normalized_entity_key
    expected_entity e canonical display = do
      checked ← validated e (no_paper_checks e)
      key ← normalized_entity_key nfkc casefold canonical
      display_key ← normalized_entity_key nfkc casefold display
      id ← stable_graph_entity_id uuid5 checked.topic_id (entity_value checked.entity_type) key
      ok (record {
        expected_key = key;
        expected_id = id;
        expected_label = if text_eq display_key key then display else canonical;
      })

    unfoldable pub expected_of : GraphEntity → Text → Text → Result Expected
    unfolding expected_paper expected_entity
    expected_of e canonical display =
        if is_paper e.entity_type
        then expected_paper e display e.paper_id
        else expected_entity e canonical display

    unfoldable pub make_entity : GraphEntity → Result GraphEntity
    unfolding normalizer expected_of cleaned_aliases require_text
    make_entity e = do
      canonical ← normalizer e.entity_type e.canonical_label
      display ← normalizer e.entity_type e.display_label
      stamped ← validated e (entity_stamps e)
      expected ← expected_of stamped canonical display
      checked ← validated stamped (key_checks stamped expected)
      aliases ← cleaned_aliases checked expected.expected_key
      ok (with_labels checked canonical expected.expected_label aliases)
