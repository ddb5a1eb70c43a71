-- ===== src/Lineage/Build.antt =====
-- domain/knowledge.py, `build_lineage_snapshot`: the whole function, from its guards to the snapshot
-- that checks itself.
use domain_specific_paper_ha.Prelude.{
  ℕ, Bool, true, false, not, ◌&&◌, ◌||◌, Option, none, some, List, [], ◌∷◌, ◌++◌, filter, any, map,
  ltb, is_nil, option_is, is_none, if◌then◌else◌,
}
use domain_specific_paper_ha.Prelude.Text.{Text, Uuid, codes, text_eq, text_leb}
use domain_specific_paper_ha.Prelude.Keys.{distinct}
use domain_specific_paper_ha.Prelude.Sort.{sorted}
use domain_specific_paper_ha.Result.{
  Result, Check, ok, err, validated, domain_invariant, assertion_error, ◌>>=◌,
}
use domain_specific_paper_ha.Identity.Graph.{stable_lineage_snapshot_id}
use domain_specific_paper_ha.Lineage.Edge.{
  GraphEdge, GraphRelationType, RelationProvenance, human_verified, VerificationStatus,
  verified_by_human, Datetime, is_paper_relation, is_predecessor_relation, is_explicit, is_inferred,
}
use domain_specific_paper_ha.Lineage.Search.{Depths}
use domain_specific_paper_ha.Lineage.Eligible.{
  Date, LineagePaper, date_of, paper_id_of, chronology_excluded,
}
use domain_specific_paper_ha.Lineage.Select.{Selection, select}
use domain_specific_paper_ha.Lineage.Snapshot.{
  LineageNode, make_node, node_leb, sorted_types, LineageSnapshot, bound_checks, lineage_key,
  currently_retrieved_corpus, make_lineage_snapshot,
}

-- The arguments of the function.
pub record LineageRequest : Type 0 where
  pub topic_id : Uuid
  pub root_paper_id : Uuid
  pub as_of_date : Date
  pub papers : List LineagePaper
  pub edges : List GraphEdge
  pub generated_at : Datetime
  pub max_depth : ℕ
  pub max_nodes : ℕ
  pub max_edges : ℕ
  pub permitted_relation_types : List GraphRelationType
  pub lineage_version : Text

unfoldable pub request_checks : LineageRequest → List Check
unfolding bound_checks
request_checks r =
    bound_checks r.max_depth r.max_nodes r.max_edges
    ++ (not r.generated_at.is_aware, domain_invariant "generated_at must be timezone-aware")
      ∷ (
        not (distinct (map (λ p. p.graph_entity_id) r.papers))
            || not (distinct (map (λ p. p.paper_id) r.papers)),
        domain_invariant "lineage input papers must have unique entities and paper IDs",
      )
      ∷ []

-- `root_candidates[0]`
unfoldable pub only_candidate : List LineagePaper → Result LineagePaper
only_candidate (root ∷ []) = ok root
only_candidate _ = err (domain_invariant "lineage root paper must be present exactly once")

unfoldable pub root_checks : LineageRequest → LineagePaper → List Check
unfolding sorted_types
root_checks r root =
    let permitted = sorted_types r.permitted_relation_types in
    (
      option_is (λ d. not (text_leb d r.as_of_date)) root.publication_date,
      domain_invariant "lineage root publication date is after the snapshot date",
    )
    ∷ (
      is_nil permitted || any (λ t. not (is_paper_relation t)) permitted,
      domain_invariant "lineage permits only paper relation types",
    )
    ∷ []

unfoldable pub title_of : List LineagePaper → Uuid → Text
title_of [] entity = []
title_of (p ∷ ps) entity = if text_eq entity p.graph_entity_id then p.title else title_of ps entity

-- A node for each selected entity; they are sorted afterwards.
unfoldable pub make_nodes : List LineagePaper → Depths → Result (List LineageNode)
unfolding make_node title_of date_of paper_id_of
make_nodes papers [] = ok []
make_nodes papers ((entity, depth) ∷ depths) = do
  node ← make_node (record {
    graph_entity_id = entity;
    paper_id = paper_id_of papers entity;
    title = title_of papers entity;
    publication_date = date_of papers entity;
    depth = depth;
  })
  nodes ← make_nodes papers depths
  ok (node ∷ nodes)

unfoldable pub predecessor_edges : Uuid → List GraphEdge → List GraphEdge
predecessor_edges root selected =
    filter (λ e. text_eq e.source_entity_id root && is_predecessor_relation e.relation_type)
      selected

abbrev pub is_verified : VerificationStatus → RelationProvenance → Bool
is_verified verified_by_human provenance = true
is_verified _ human_verified = true
is_verified _ _ = false

abbrev pub note_if : Bool → Text → List Text
note_if true text = text ∷ []
note_if false text = []

-- `limitations`, in the order in which they are appended.
unfoldable pub limitations_of : Bool → List LineageNode → Bool → List GraphEdge → Bool → List Text
limitations_of verified nodes chronology selected truncated =
    codes "Lineage among the currently retrieved corpus; global completeness is not claimed."
    ∷ (note_if (not verified) (codes "No verified predecessor relation is currently available.")
        ++ (note_if (any (λ n. is_none n.publication_date) nodes)
              (codes "Some publication or version dates are unavailable.")
            ++ (note_if chronology (
                  codes
                    "Relations pointing to a later-dated paper were excluded from predecessor lineage.")
                ++ (note_if (any (λ e. is_inferred e.provenance) selected) (
                      codes
                        "AI-inferred edges are unverified unless their verification status says otherwise.")
                    ++ note_if truncated (
                        codes
                          "Traversal was truncated by the configured depth, node, or edge bound.")))))

-- The snapshot that is constructed, with its flags and limitations, before its identifier.
unfoldable pub snapshot_of : LineageRequest → Uuid → Selection → List LineageNode → LineageSnapshot
unfolding predecessor_edges limitations_of chronology_excluded sorted_types
snapshot_of r root selection nodes =
    let permitted = sorted_types r.permitted_relation_types in
    let predecessors = predecessor_edges root selection.edges in
    let verified = any (λ e. is_verified e.verification_status e.provenance) predecessors in
    let excluded = chronology_excluded r.as_of_date r.papers permitted r.edges in
    record {
      id = [];
      topic_id = r.topic_id;
      root_paper_id = r.root_paper_id;
      as_of_date = r.as_of_date;
      nodes = nodes;
      edges = selection.edges;
      permitted_relation_types = permitted;
      max_depth = r.max_depth;
      max_nodes = r.max_nodes;
      max_edges = r.max_edges;
      truncated = selection.truncated;
      explicit_predecessor_available = any (λ e. is_explicit e.provenance) predecessors;
      verified_predecessor_available = verified;
      corpus_scope = currently_retrieved_corpus;
      limitations =
          limitations_of verified nodes (ltb 0 excluded) selection.edges selection.truncated;
      lineage_version = r.lineage_version;
      generated_at = r.generated_at;
      schema_version = 1;
      pipeline_execution_id = none;
    }

module _ (uuid5 : Uuid → Text → Uuid) where
  -- The call of the constructor.
  unfoldable pub assemble :
      LineageRequest → Uuid → Selection → List LineageNode → Result LineageSnapshot
  unfolding make_lineage_snapshot snapshot_of
  assemble r root selection nodes = do
    id ← stable_lineage_snapshot_id uuid5 (lineage_key (snapshot_of r root selection nodes))
    make_lineage_snapshot uuid5 (record (snapshot_of r root selection nodes) { id = id })

  -- The search's fuel is enough, so that a selection is always there.
  unfoldable pub with_selection : LineageRequest → Uuid → Option Selection → Result LineageSnapshot
  unfolding make_nodes assemble node_leb
  with_selection r root none = err (assertion_error "the search is out of fuel")
  with_selection r root (some selection) = do
    nodes ← make_nodes r.papers selection.depths
    assemble r root selection (sorted node_leb nodes)

  unfoldable pub build_lineage_snapshot : LineageRequest → Result LineageSnapshot
  unfolding request_checks only_candidate root_checks with_selection select
  build_lineage_snapshot r = do
    request ← validated r (request_checks r)
    candidate ←
        only_candidate (filter (λ p. text_eq p.paper_id request.root_paper_id) request.papers)
    root ← validated candidate (root_checks request candidate)
    with_selection request root.graph_entity_id (
        select request.max_depth request.max_nodes request.max_edges request.as_of_date
          request.papers (sorted_types request.permitted_relation_types) request.edges
          root.graph_entity_id)
