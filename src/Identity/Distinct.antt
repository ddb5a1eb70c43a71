-- ===== src/Identity/Distinct.antt =====
-- Graph records with one name are one: what is hashed into an identifier determines every part of
-- the key that it was made from.
use domain_specific_paper_ha.Prelude.{
  ◌≡◌, refl, sym, ap, ◌∙◌, Option, none, some, List, arith, length, is_none, is_some, false, ◌&&◌,
  ◌||◌,
}
use domain_specific_paper_ha.Prelude.Text.{Text, Uuid, strip}
use domain_specific_paper_ha.Result.{ok, validated, validated-eq-ok, Check}
use domain_specific_paper_ha.Identity.Encoding.{
  encode_identity_parts, encode_identity_parts-injective,
}
use domain_specific_paper_ha.Identity.Graph.{
  or_none, execution_parts, owner_kind, owner_of, MentionKey, graph_entity_mention_name, EdgeKey,
  graph_edge_name, edge_parts, edge_checks, mention_parts, mention_checks,
}

-- The canonical text of a UUID has 36 characters.
abbrev pub IsUuid : Option Uuid → Type 0
IsUuid none = Unit
IsUuid (some u) = length u ≡ 36

or_none-injective : (a b : Option Uuid) → IsUuid a → IsUuid b → or_none a ≡ or_none b → a ≡ b
or_none-injective none none p q e = refl
or_none-injective none (some u) p q e = absurd (omega (arith, ap length e))
or_none-injective (some u) none p q e = absurd (omega (arith, ap length e))
or_none-injective (some u) (some v) p q e = ap some e

execution_parts-injective : (a b : Option Uuid) → execution_parts a ≡ execution_parts b → a ≡ b
execution_parts-injective none none e = refl
execution_parts-injective none (some v) e = absurd (omega (arith, ap length e))
execution_parts-injective (some u) none e = absurd (omega (arith, ap length e))
execution_parts-injective (some u) (some v) e = cc

-- Two names that were accepted and agree come from the same parts.
same_parts :
    (ps qs : List Text) (cs ds : List Check) {n : Text}
    → validated (encode_identity_parts ps) cs ≡ ok n
    → validated (encode_identity_parts qs) ds ≡ ok n
    → ps ≡ qs
same_parts ps qs cs ds p q = encode_identity_parts-injective ps qs (
    (validated-eq-ok (encode_identity_parts ps) cs p).0
    ∙ sym (validated-eq-ok (encode_identity_parts qs) ds q).0)

pub record HasUuids (k : EdgeKey) : Type 0 where
  pub target : IsUuid k.target_paper_version_id
  pub analysis : IsUuid k.analysis_id
  pub comparison : IsUuid k.comparison_id
  pub relation : IsUuid k.paper_relation_id

-- All fields agree, up to the blanks round the relation type.
pub record IsSameEdge (j k : EdgeKey) : Type 0 where
  pub source : j.source_entity_id ≡ k.source_entity_id
  pub target : j.target_entity_id ≡ k.target_entity_id
  pub relation_type : strip j.relation_type ≡ strip k.relation_type
  pub source_version : j.source_paper_version_id ≡ k.source_paper_version_id
  pub target_version : j.target_paper_version_id ≡ k.target_paper_version_id
  pub analysis : j.analysis_id ≡ k.analysis_id
  pub comparison : j.comparison_id ≡ k.comparison_id
  pub paper_relation : j.paper_relation_id ≡ k.paper_relation_id
  pub execution : j.pipeline_execution_id ≡ k.pipeline_execution_id

-- Two graph edges whose keys are accepted and hash the same name agree in every field, up to blanks
-- round the relation type, provided that their optional identifiers have the length of a UUID.
pub graph_edge_name-injective :
    (j k : EdgeKey) (name : Text)
    → HasUuids j
    → HasUuids k
    → graph_edge_name j ≡ ok name
    → graph_edge_name k ≡ ok name
    → IsSameEdge j k
unfolding graph_edge_name
graph_edge_name-injective j k name hj hk p q =
    let e = same_parts (edge_parts j) (edge_parts k) (edge_checks j) (edge_checks k) p q in
    record {
      source = cc;
      target = cc;
      relation_type = cc;
      source_version = cc;
      target_version =
          or_none-injective j.target_paper_version_id k.target_paper_version_id hj.target hk.target
            (cc);
      analysis = or_none-injective j.analysis_id k.analysis_id hj.analysis hk.analysis (cc);
      comparison =
          or_none-injective j.comparison_id k.comparison_id hj.comparison hk.comparison (cc);
      paper_relation =
          or_none-injective j.paper_relation_id k.paper_relation_id hj.relation hk.relation (cc);
      execution = execution_parts-injective j.pipeline_execution_id k.pipeline_execution_id (cc);
    }

-- Exactly one owner, as the name of a mention asks for.
owner_injective :
    (a b c d : Option Uuid)
    → (is_none a && is_none b) || (is_some a && is_some b) ≡ false
    → (is_none c && is_none d) || (is_some c && is_some d) ≡ false
    → owner_kind a ≡ owner_kind c
    → owner_of a b ≡ owner_of c d
    → (a ≡ c) × (b ≡ d)
owner_injective none (some u) none (some v) p q e f = (refl, cc)
owner_injective (some u) none (some v) none p q e f = (cc, refl)
owner_injective none (some u) (some v) none p q e f = absurd (omega (arith, ap length e))
owner_injective (some u) none none (some v) p q e f = absurd (omega (arith, ap length e))
owner_injective none none c d p q e f = cc
owner_injective (some u) (some v) c d p q e f = cc
owner_injective none (some u) none none p q e f = cc
owner_injective none (some u) (some v) (some w) p q e f = cc
owner_injective (some u) none none none p q e f = cc
owner_injective (some u) none (some v) (some w) p q e f = cc

-- Two graph mentions whose keys are accepted and hash the same name have the same key: the entity,
-- the paper version, the owner and its kind, and the pipeline execution.
pub graph_entity_mention_name-injective :
    (j k : MentionKey) (name : Text)
    → graph_entity_mention_name j ≡ ok name
    → graph_entity_mention_name k ≡ ok name
    → j ≡ k
unfolding graph_entity_mention_name
graph_entity_mention_name-injective j k name p q =
    let e =
      same_parts (mention_parts j) (mention_parts k) (mention_checks j) (mention_checks k) p q in
    let jc = (validated-eq-ok (encode_identity_parts (mention_parts j)) (mention_checks j) p).1 in
    let kc = (validated-eq-ok (encode_identity_parts (mention_parts k)) (mention_checks k) q).1 in
    let (analysis, comparison) =
      owner_injective j.analysis_id j.comparison_id k.analysis_id k.comparison_id jc.0 kc.0 (cc)
        (cc) in
    let execution =
      execution_parts-injective j.pipeline_execution_id k.pipeline_execution_id (cc) in
    ground arith
