-- ===== src/Graph/Accepted.antt =====
-- What an edge of the graph is, once its checks have accepted it.
use mathlib.Core.Path.{subst}
use domain_specific_paper_ha.Prelude.{
  ◌≡◌, sym, true, false, not, some, List, ◌∷◌, arith, is_some, is_nil, option_is, Bool-cases, inl,
  inr,
}
use domain_specific_paper_ha.Prelude.Int.{ℤ, pos, ◌≤ℤ◌}
use domain_specific_paper_ha.Prelude.Text.{Text, Uuid, text_eq, text_eq_iff}
use domain_specific_paper_ha.Result.{
  ok, Check, validated, validated-eq-ok, AllPass, domain_invariant, ◌>>=◌, >>=-eq-ok,
}
use domain_specific_paper_ha.Identity.Graph.{stable_graph_edge_id}
use domain_specific_paper_ha.Lineage.Edge.{GraphEdge, is_paper_relation, is_inferred}
use domain_specific_paper_ha.Lineage.Snapshot.{require_text}
use domain_specific_paper_ha.Graph.Record.{
  full_confidence, needs_evidence, occurrence_checks, relation_checks, stamp_checks, edge_identity,
  edge_content, make_edge,
}

-- Either a relation of two versions, owned by a comparison, or one of a paper to an entity, owned by
-- an analysis or by a comparison.
pub record IsGraphEdge (e : GraphEdge) : Type 0 where
  pub ends : text_eq e.source_entity_id e.target_entity_id ≡ false
  pub versions : is_some e.target_paper_version_id ≡ is_paper_relation e.relation_type
  pub relation : is_some e.paper_relation_id ≡ is_paper_relation e.relation_type
  pub owner : is_some e.analysis_id ≡ not (is_some e.comparison_id)
  pub compared : is_paper_relation e.relation_type ≡ true → is_some e.comparison_id ≡ true
  pub apart : option_is (text_eq e.source_paper_version_id) e.target_paper_version_id ≡ false
  pub confidence : is_some e.confidence ≡ is_inferred e.provenance
  pub unit : (c : ℤ) → e.confidence ≡ some c → (pos 0 ≤ℤ c) × (c ≤ℤ full_confidence)
  pub evidence : needs_evidence e.provenance ≡ true → is_nil e.evidence_ids ≡ false

-- The part of it that the relation decides.
record IsShaped (e : GraphEdge) : Type 0 where
  pub versions : is_some e.target_paper_version_id ≡ is_paper_relation e.relation_type
  pub relation : is_some e.paper_relation_id ≡ is_paper_relation e.relation_type
  pub owner : is_some e.analysis_id ≡ not (is_some e.comparison_id)
  pub compared : is_paper_relation e.relation_type ≡ true → is_some e.comparison_id ≡ true
  pub apart : option_is (text_eq e.source_paper_version_id) e.target_paper_version_id ≡ false

relation_checks-IsShaped : (e : GraphEdge) → AllPass (relation_checks e) → IsShaped e
unfolding relation_checks
relation_checks-IsShaped e h = elim (Bool-cases (is_paper_relation e.relation_type)) [
  | inl paper ↦
      let s = simp paper at h in
      record {
        versions = rw paper (ground (arith, s.0));
        relation = rw paper (ground (arith, s.0));
        owner = ground (arith, s.0);
        compared = λ _. ground (arith, s.0);
        apart = s.1.0;
      }
  | inr entity ↦
      let s = simp entity at h in
      record {
        versions = rw entity (ground (arith, s.0));
        relation = rw entity (ground (arith, s.0));
        owner = ground (arith, s.0);
        compared = λ p. ground (arith, p, entity);
        apart = ground (arith, s.0);
      }
]

content-IsGraphEdge : (e : GraphEdge) → AllPass (edge_content e) → IsGraphEdge e
unfolding occurrence_checks require_text
content-IsGraphEdge e h =
    let occurrence = h.1.1.1 in
    let shaped = relation_checks-IsShaped e occurrence.1.1.1.1.1.1.1 in
    record {
      ends = h.0;
      versions = shaped.versions;
      relation = shaped.relation;
      owner = shaped.owner;
      compared = shaped.compared;
      apart = shaped.apart;
      confidence = ground (arith, occurrence.1.1.0, occurrence.1.1.1.0);
      unit =
          λ c k. let s = simp k at occurrence.1.1.1.1.1.0 in (ground (arith, s), ground (arith, s));
      evidence = ground (arith, occurrence.1.0);
    }

-- The second half of the checks.
identity_checks : GraphEdge → Uuid → List Check
identity_checks e expected_id =
    (
      not (text_eq e.id expected_id),
      domain_invariant "graph edge ID is not stable for its source occurrence",
    )
    ∷ stamp_checks e.generated_at e.created_at e.schema_version

abbrev IsIdentified : (Uuid → Text → Uuid) → GraphEdge → GraphEdge → Type 0
IsIdentified uuid5 f e = (e ≡ f) × (stable_graph_edge_id uuid5 (edge_identity e) ≡ ok e.id)

identity_checks-IsIdentified :
    (uuid5 : Uuid → Text → Uuid) (e f : GraphEdge)
    → (stable_graph_edge_id uuid5 (edge_identity e) >>= λ expected_id.
        validated e (identity_checks e expected_id))
      ≡ ok f
    → IsIdentified uuid5 f e
unfolding identity_checks
identity_checks-IsIdentified uuid5 e f h =
    let (expected_id, known, rest) =
      >>=-eq-ok (stable_graph_edge_id uuid5 (edge_identity e)) _ f h in
    let accepted = validated-eq-ok e (identity_checks e expected_id) rest in
    let same : e.id ≡ expected_id =
      (text_eq_iff e.id expected_id).0 (ground (arith, accepted.1.0)) in
    (accepted.0, rw same known)

-- An edge that its checks accept is the one that was given, has the identifier of its key, and is
-- well formed: its ends differ, it relates two distinct versions under a comparison or a paper to
-- an entity under exactly one owner, it has a confidence, between zero and one, exactly if a model
-- inferred it, and it has evidence where its provenance asks for that.
pub make_edge-IsGraphEdge :
    (uuid5 : Uuid → Text → Uuid) (e f : GraphEdge)
    → make_edge uuid5 e ≡ ok f
    → (e ≡ f) × (stable_graph_edge_id uuid5 (edge_identity e) ≡ ok e.id) × IsGraphEdge e
unfolding make_edge identity_checks
make_edge-IsGraphEdge uuid5 e f h =
    let (checked, first, rest) = >>=-eq-ok (validated e (edge_content e)) _ f h in
    let content = validated-eq-ok e (edge_content e) first in
    let identified =
      subst (IsIdentified uuid5 f) (sym content.0)
        (identity_checks-IsIdentified uuid5 checked f rest) in
    (identified.0, identified.1, content-IsGraphEdge e content.1)
