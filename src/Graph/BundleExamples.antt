-- ===== src/Graph/BundleExamples.antt =====
-- A bundle with a paper that uses a method, one with a paper alone, and a label with a dash and blanks.
use mathlib.Core.List.{Memᴰ}
use mathlib.Core.List.Memᴰ
use domain_specific_paper_ha.Prelude.{
  ◌≡◌, ◌≤◌, refl, true, false, none, some, List, [], ◌∷◌, ◌++◌, is_nil, map, length, ◌↔◌, ◌⊎◌, inl,
  inr,
}
use domain_specific_paper_ha.Prelude.Int.{pos}
use domain_specific_paper_ha.Prelude.Text.{Text, Uuid, codes, text_eq, text_leb, strip, is_space}
use domain_specific_paper_ha.Prelude.Keys.{unique, member, subset, same_set}
use domain_specific_paper_ha.Prelude.Sort.{sorted}
use native.Mathlib.Decide.{ℕ_discrete}
use domain_specific_paper_ha.Identity.Encoding.{encode_identity_parts, decimal}
use domain_specific_paper_ha.Identity.Graph.{graph_paper_entity_name}
use domain_specific_paper_ha.Prelude.Members.{HasSame}
use domain_specific_paper_ha.Result.{ok, err}
use domain_specific_paper_ha.Lineage.Edge.{GraphEdge, uses_method, metadata_explicit, unverified}
use domain_specific_paper_ha.Graph.Record.{GraphEntityMention}
use domain_specific_paper_ha.Graph.Label.{normalize_label, entity_label_messages, has_null}
use domain_specific_paper_ha.Graph.Normal.{normalize_label-idempotent}
use domain_specific_paper_ha.Graph.Entity.{GraphEntity, paper, method, make_entity}
use domain_specific_paper_ha.Graph.Merge.{entity_id_of}
use domain_specific_paper_ha.Graph.Canonical.{IsEntity, make_entity-IsEntity}
use domain_specific_paper_ha.Graph.Union.{deduplicate_identified}
use domain_specific_paper_ha.Graph.United.{
  IsUnion, IsConflict, deduplicate_identified-HasSame, deduplicate_identified-cases,
}
use domain_specific_paper_ha.Graph.Bundle.{
  KnowledgeGraphBundle, mention_id_of, mention-discrete, edge-discrete, mention_conflict,
  make_bundle,
}
use domain_specific_paper_ha.Graph.Closed.{IsClosed, make_bundle-IsClosed}
use domain_specific_paper_ha.Graph.Publish.{merge_knowledge_graph_bundles}
use domain_specific_paper_ha.Graph.Published.{IsOfBundle, merge_knowledge_graph_bundles-IsClosed}

abbrev hash : Uuid → Text → Uuid
hash namespace (a ∷ b ∷ c ∷ d ∷ name) = d ∷ []
hash namespace name = []

abbrev as_it_is : Text → Text
as_it_is s = s

label_made :
    normalize_label as_it_is entity_label_messages 500
      (0x20 ∷ codes "deep" ++ 0x2013 ∷ codes "net ")
    ≡ ok (codes "deep-net")
unfolding normalize_label is_space
label_made = refl

normalize_label-idempotent_example :
    (is_nil (codes "deep-net") ≡ false)
    × (length (codes "deep-net") ≤ 500)
    × (has_null (codes "deep-net") ≡ false)
    × (normalize_label as_it_is entity_label_messages 500 (codes "deep-net")
        ≡ ok (codes "deep-net"))
normalize_label-idempotent_example =
    normalize_label-idempotent as_it_is (λ s h. h) entity_label_messages 500
      (0x20 ∷ codes "deep" ++ 0x2013 ∷ codes "net ") (codes "deep-net") label_made refl

abbrev given_entity : List Text → GraphEntity
given_entity aliases = record {
  id = codes "5";
  topic_id = codes "t";
  entity_type = paper;
  paper_id = some (codes "p");
  canonical_label = codes "Title";
  normalized_key = codes "paper:p";
  display_label = codes "Title";
  aliases = aliases;
  provenance = metadata_explicit;
  source = codes "arxiv";
  schema_version = pos 1;
  created_at = record { instant = pos 0; is_aware = true };
  updated_at = record { instant = pos 1; is_aware = true };
}

entity_made :
    make_entity as_it_is as_it_is hash (given_entity (codes "A" ∷ codes " A" ∷ []))
    ≡ ok (given_entity (codes "A" ∷ []))
unfolding make_entity strip graph_paper_entity_name text_eq unique encode_identity_parts decimal
entity_made = refl

make_entity-IsEntity_example :
    (codes "5" ≡ codes "5")
    × (codes "paper:p" ≡ codes "paper:p")
    × IsEntity as_it_is as_it_is hash (given_entity (codes "A" ∷ []))
make_entity-IsEntity_example =
    make_entity-IsEntity as_it_is as_it_is hash (given_entity (codes "A" ∷ codes " A" ∷ []))
      (given_entity (codes "A" ∷ [])) entity_made

abbrev mention : GraphEntityMention
mention = record {
  id = codes "7";
  entity_id = codes "5";
  paper_id = codes "p";
  paper_version_id = codes "p1";
  analysis_id = some (codes "a");
  comparison_id = none;
  observed_label = codes "Title";
  provenance = metadata_explicit;
  evidence_ids = [];
  model_provenance = none;
  confidence = none;
  verification_status = unverified;
  generated_at = record { instant = pos 0; is_aware = true };
  schema_version = pos 1;
  created_at = record { instant = pos 0; is_aware = true };
  pipeline_execution_id = none;
}

twice-HasSame : HasSame (mention ∷ mention ∷ []) (mention ∷ [])
twice-HasSame x =
    (λ m. elim (Memᴰ.cases_cons m) [ inl e ↦ Memᴰ.head e | inr later ↦ later ], λ m. Memᴰ.tail m)

deduplicate_identified-HasSame_example :
    deduplicate_identified mention_id_of mention-discrete mention_conflict (mention ∷ mention ∷ [])
    ≡ deduplicate_identified mention_id_of mention-discrete mention_conflict (mention ∷ [])
deduplicate_identified-HasSame_example =
    deduplicate_identified-HasSame mention_id_of mention-discrete mention_conflict
      (mention ∷ mention ∷ []) (mention ∷ []) twice-HasSame

deduplicate_identified-cases_example :
    ((made : List GraphEntityMention) × (deduplicate_identified mention_id_of mention-discrete
          mention_conflict
          (mention ∷ [])
        ≡ ok made)
      × IsUnion mention_id_of mention-discrete mention_conflict (mention ∷ []) made)
    ⊎ ((deduplicate_identified mention_id_of mention-discrete mention_conflict (mention ∷ [])
          ≡ err mention_conflict)
        × IsConflict mention_id_of (mention ∷ []) [])
deduplicate_identified-cases_example =
    deduplicate_identified-cases mention_id_of mention-discrete mention_conflict (mention ∷ [])

abbrev given_bundle : List Text → KnowledgeGraphBundle
given_bundle aliases = record {
  topic_id = codes "t";
  entities = given_entity aliases ∷ [];
  mentions = mention ∷ [];
  edges = [];
  references = record {
    paper_version_ids = codes "p1" ∷ [];
    analysis_ids = codes "a" ∷ [];
    comparison_ids = [];
    paper_relation_ids = [];
    evidence_ids = [];
  };
}

bundles_merged :
    merge_knowledge_graph_bundles hash as_it_is as_it_is (given_bundle [] ∷ given_bundle [] ∷ [])
    ≡ ok (given_bundle (codes "Title" ∷ []))
unfolding merge_knowledge_graph_bundles encode_identity_parts decimal strip graph_paper_entity_name
    text_eq unique text_leb sorted mention-discrete ℕ_discrete member subset same_set
bundles_merged = refl

merge_knowledge_graph_bundles-IsClosed_example :
    IsClosed as_it_is as_it_is (given_bundle (codes "Title" ∷ []))
    × ((m : GraphEntityMention)
        → Memᴰ m (mention ∷ [])
          ↔ IsOfBundle (λ b. b.mentions) (given_bundle [] ∷ given_bundle [] ∷ []) m)
    × ((e : GraphEdge)
        → Memᴰ e [] ↔ IsOfBundle (λ b. b.edges) (given_bundle [] ∷ given_bundle [] ∷ []) e)
merge_knowledge_graph_bundles-IsClosed_example =
    merge_knowledge_graph_bundles-IsClosed hash as_it_is as_it_is
      (given_bundle [] ∷ given_bundle [] ∷ []) (given_bundle (codes "Title" ∷ [])) bundles_merged

abbrev rag : List Text → GraphEntity
rag aliases = record {
  id = codes "6";
  topic_id = codes "t";
  entity_type = method;
  paper_id = none;
  canonical_label = codes "rag";
  normalized_key = codes "rag";
  display_label = codes "rag";
  aliases = aliases;
  provenance = metadata_explicit;
  source = codes "arxiv";
  schema_version = pos 1;
  created_at = record { instant = pos 0; is_aware = true };
  updated_at = record { instant = pos 1; is_aware = true };
}

abbrev rag_mention : GraphEntityMention
rag_mention = record mention { id = codes "8"; entity_id = codes "6"; observed_label = codes "rag" }

abbrev edge : GraphEdge
edge = record {
  id = codes "9";
  source_entity_id = codes "5";
  target_entity_id = codes "6";
  relation_type = uses_method;
  source_paper_version_id = codes "p1";
  target_paper_version_id = none;
  analysis_id = some (codes "a");
  comparison_id = none;
  paper_relation_id = none;
  provenance = metadata_explicit;
  evidence_ids = [];
  justification = codes "uses rag";
  model_provenance = none;
  confidence = none;
  verification_status = unverified;
  generated_at = record { instant = pos 0; is_aware = true };
  schema_version = pos 1;
  created_at = record { instant = pos 0; is_aware = true };
  pipeline_execution_id = none;
}

-- The paper and the method, given twice, and an edge between them.
abbrev linked : List GraphEntity → KnowledgeGraphBundle
linked entities = record (given_bundle []) {
  entities = entities;
  mentions = mention ∷ rag_mention ∷ [];
  edges = edge ∷ [];
}

abbrev linked_given : KnowledgeGraphBundle
linked_given = linked (rag [] ∷ given_entity [] ∷ rag [] ∷ [])

abbrev linked_made : KnowledgeGraphBundle
linked_made = linked (given_entity (codes "Title" ∷ []) ∷ rag (codes "rag" ∷ []) ∷ [])

bundle_made : make_bundle as_it_is as_it_is hash linked_given ≡ ok linked_made
unfolding make_bundle encode_identity_parts decimal strip graph_paper_entity_name text_eq unique
    text_leb sorted member subset same_set mention-discrete edge-discrete
bundle_made = refl

make_bundle-IsClosed_example :
    (codes "t" ≡ codes "t")
    × HasSame linked_made.mentions linked_given.mentions
    × HasSame (edge ∷ []) (edge ∷ [])
    × ((k : Uuid)
        → member k (map entity_id_of linked_made.entities)
          ≡ member k (map entity_id_of linked_given.entities))
    × IsClosed as_it_is as_it_is linked_made
make_bundle-IsClosed_example =
    make_bundle-IsClosed as_it_is as_it_is hash linked_given linked_made bundle_made
