-- ===== src/Graph/Examples.antt =====
-- An edge between two papers that a model inferred from evidence.
use domain_specific_paper_ha.Prelude.{◌≡◌, refl, true, none, some, [], ◌∷◌}
use domain_specific_paper_ha.Prelude.Int.{pos}
use domain_specific_paper_ha.Prelude.Text.{Text, Uuid, codes, text_eq, strip, is_space}
use domain_specific_paper_ha.Prelude.Keys.{distinct, member}
use domain_specific_paper_ha.Result.{ok}
use domain_specific_paper_ha.Identity.Graph.{stable_graph_edge_id, graph_edge_name, edge_checks}
use domain_specific_paper_ha.Lineage.Edge.{GraphEdge, extends_on, llm_inferred, unverified}
use domain_specific_paper_ha.Lineage.Snapshot.{require_text}
use domain_specific_paper_ha.Graph.Record.{
  make_edge, edge_identity, occurrence_checks, relation_checks, stamp_checks,
}
use domain_specific_paper_ha.Graph.Accepted.{IsGraphEdge, make_edge-IsGraphEdge}

abbrev hash : Uuid → Text → Uuid
hash namespace name = codes "5"

abbrev edge : GraphEdge
edge = record {
  id = codes "5";
  source_entity_id = codes "a";
  target_entity_id = codes "b";
  relation_type = extends_on;
  source_paper_version_id = codes "a1";
  target_paper_version_id = some (codes "b1");
  analysis_id = none;
  comparison_id = some (codes "c");
  paper_relation_id = some (codes "r");
  provenance = llm_inferred;
  evidence_ids = codes "e" ∷ codes "f" ∷ [];
  justification = codes "builds on it";
  model_provenance = some (record {
    provider = codes "p";
    configured_model = codes "m";
    model_version = codes "1";
    prompt_version = codes "1";
  });
  confidence = some (pos 800000);
  verification_status = unverified;
  generated_at = record { instant = pos 0; is_aware = true };
  schema_version = pos 1;
  created_at = record { instant = pos 0; is_aware = true };
  pipeline_execution_id = none;
}

edge_made : make_edge hash edge ≡ ok edge
unfolding make_edge require_text occurrence_checks relation_checks stamp_checks graph_edge_name
    edge_checks text_eq strip is_space distinct member
edge_made = refl

make_edge-IsGraphEdge_example :
    (edge ≡ edge) × (stable_graph_edge_id hash (edge_identity edge) ≡ ok edge.id) × IsGraphEdge edge
make_edge-IsGraphEdge_example = make_edge-IsGraphEdge hash edge edge edge_made
