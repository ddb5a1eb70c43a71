-- ===== src/Lineage/Snapshot.antt =====
-- domain/knowledge.py, `LineageSnapshot`: the record and the checks of its `__post_init__`. Depths and
-- bounds are counts, so the checks that they are not negative always pass and are left out.
use domain_specific_paper_ha.Prelude.{
  ℕ, zero, suc, ◌+◌, Bool, true, not, ◌&&◌, ◌||◌, Option, some, String, List, [], ◌∷◌, ◌++◌, length,
  filter, any, map, ltb, ◌==◌, is_nil, if◌then◌else◌,
}
use domain_specific_paper_ha.Prelude.Text.{Text, Uuid, text_eq, text_leb}
use domain_specific_paper_ha.Prelude.Keys.{member, distinct, same_set}
use domain_specific_paper_ha.Prelude.Sort.{sorted}
use domain_specific_paper_ha.Result.{Result, Check, validated, domain_invariant, ◌>>=◌}
use domain_specific_paper_ha.Identity.Graph.{LineageKey, is_blank, stable_lineage_snapshot_id}
use domain_specific_paper_ha.Lineage.Edge.{
  GraphEdge, GraphRelationType, Datetime, relation_value, is_paper_relation, permits, edge_ids,
}
use domain_specific_paper_ha.Lineage.Eligible.{Date, date_key, tuple_leb}

abbrev pub max_lineage_depth : ℕ
max_lineage_depth = 10

abbrev pub max_lineage_nodes : ℕ
max_lineage_nodes = 200

abbrev pub max_lineage_edges : ℕ
max_lineage_edges = 1000

abbrev pub max_paper_title_length : ℕ
max_paper_title_length = 4000

pub data LineageCorpusScope : Type 0 where
  currently_retrieved_corpus : LineageCorpusScope

-- `_require_text`, with the two messages.
unfoldable pub require_text : Text → String → String → ℕ → List Check
require_text value empty invalid maximum =
    (is_blank value, domain_invariant empty)
    ∷ (any (λ c. c == 0) value || ltb maximum (length value), domain_invariant invalid)
    ∷ []

pub record LineageNode : Type 0 where
  pub graph_entity_id : Uuid
  pub paper_id : Uuid
  pub title : Text
  pub publication_date : Option Date
  pub depth : ℕ

unfoldable pub make_node : LineageNode → Result LineageNode
unfolding require_text
make_node n = validated n (
    require_text n.title "lineage node title must not be empty"
      "lineage node title must be concise valid text" max_paper_title_length)

unfoldable pub node_leb : LineageNode → LineageNode → Bool
unfolding tuple_leb
node_leb m n =
    tuple_leb (date_key m.publication_date ++ m.paper_id ∷ [])
      (date_key n.publication_date ++ n.paper_id ∷ [])

-- `tuple(sorted(set(types), key=lambda item: item.value))`
unfoldable pub sorted_types : List GraphRelationType → List GraphRelationType
sorted_types types =
    sorted (λ p q. text_leb (relation_value p) (relation_value q)) (distinct_types types)
  where
    distinct_types : List GraphRelationType → List GraphRelationType
    distinct_types [] = []
    distinct_types (p ∷ ps) = p ∷ filter (λ q. not (permits (p ∷ []) q)) (distinct_types ps)

pub record LineageSnapshot : Type 0 where
  pub id : Uuid
  pub topic_id : Uuid
  pub root_paper_id : Uuid
  pub as_of_date : Date
  pub nodes : List LineageNode
  pub edges : List GraphEdge
  pub permitted_relation_types : List GraphRelationType
  pub max_depth : ℕ
  pub max_nodes : ℕ
  pub max_edges : ℕ
  pub truncated : Bool
  pub explicit_predecessor_available : Bool
  pub verified_predecessor_available : Bool
  pub corpus_scope : LineageCorpusScope
  pub limitations : List Text
  pub lineage_version : Text
  pub generated_at : Datetime
  pub schema_version : ℕ
  pub pipeline_execution_id : Option Uuid

-- `nodes_by_id[entity].depth`; what is looked up is there.
unfoldable pub node_depth : List LineageNode → Uuid → ℕ
node_depth [] entity = 0
node_depth (n ∷ ns) entity =
    if text_eq entity n.graph_entity_id then n.depth else node_depth ns entity

-- `len(root_nodes) != 1 or root_nodes[0].depth != 0`
unfoldable pub has_no_root : List LineageNode → Bool
has_no_root (n ∷ []) = not (n.depth == 0)
has_no_root _ = true

unfoldable pub bound_checks : ℕ → ℕ → ℕ → List Check
bound_checks max_depth max_nodes max_edges =
    (
      ltb max_depth 1 || ltb max_lineage_depth max_depth,
      domain_invariant "lineage max depth is outside the supported bound",
    )
    ∷ (
      ltb max_nodes 1 || ltb max_lineage_nodes max_nodes,
      domain_invariant "lineage max nodes is outside the supported bound",
    )
    ∷ (
      ltb max_edges 1 || ltb max_lineage_edges max_edges,
      domain_invariant "lineage max edges is outside the supported bound",
    )
    ∷ []

-- The loop over the edges.
unfoldable pub edges_checks :
    List GraphRelationType → List LineageNode → List GraphEdge → List Check
unfolding node_depth
edges_checks permitted nodes [] = []
edges_checks permitted nodes (e ∷ es) =
    let ids = map (λ n. n.graph_entity_id) nodes in
    (
      not (permits permitted e.relation_type)
          || (not (member e.source_entity_id ids) || not (member e.target_entity_id ids)),
      domain_invariant "lineage edge is outside the bounded snapshot",
    )
    ∷ (
      not (node_depth nodes e.target_entity_id == node_depth nodes e.source_entity_id + 1),
      domain_invariant "lineage edges must point to the next predecessor depth",
    )
    ∷ edges_checks permitted nodes es

-- One round of `for depth in range(self.max_depth)`; an entity that is added counts at once.
unfoldable pub reach_round : List LineageNode → ℕ → List GraphEdge → List Uuid → List Uuid
unfolding node_depth
reach_round nodes depth [] reachable = reachable
reach_round nodes depth (e ∷ es) reachable = reach_round nodes depth es (
    if member e.source_entity_id reachable && (node_depth nodes e.source_entity_id == depth)
    then e.target_entity_id ∷ reachable
    else reachable)

unfoldable pub reach : List LineageNode → List GraphEdge → ℕ → ℕ → List Uuid → List Uuid
unfolding reach_round
reach nodes edges zero depth reachable = reachable
reach nodes edges (suc rounds) depth reachable =
    reach nodes edges rounds (depth + 1) (reach_round nodes depth edges reachable)

unfoldable pub limitation_checks : List Text → List Check
unfolding require_text
limitation_checks [] = []
limitation_checks (limitation ∷ limitations) =
    require_text limitation "lineage limitation must not be empty"
      "lineage limitation must be concise valid text" 500
    ++ limitation_checks limitations

-- The checks before the identifier, on a snapshot whose nodes and types are sorted.
unfoldable pub snapshot_checks_of : LineageSnapshot → List Check
unfolding bound_checks edges_checks reach limitation_checks has_no_root require_text
snapshot_checks_of s =
    let ids = map (λ n. n.graph_entity_id) s.nodes in
    let roots = filter (λ n. text_eq n.paper_id s.root_paper_id) s.nodes in
    bound_checks s.max_depth s.max_nodes s.max_edges
    ++ (
      is_nil s.nodes || ltb s.max_nodes (length s.nodes),
      domain_invariant "lineage snapshot node count is invalid",
    )
      ∷ (not (distinct ids), domain_invariant "lineage paper entities must be unique")
      ∷ (
        not (distinct (map (λ n. n.paper_id) s.nodes)),
        domain_invariant "lineage papers must be unique",
      )
      ∷ (has_no_root roots, domain_invariant "lineage root must appear exactly once at depth zero")
      ∷ (
        any (λ n. ltb s.max_depth n.depth) s.nodes,
        domain_invariant "lineage node exceeds the configured depth",
      )
      ∷ (
        is_nil s.permitted_relation_types
            || any (λ t. not (is_paper_relation t)) s.permitted_relation_types,
        domain_invariant "lineage permits only explicit paper relation types",
      )
      ∷ (
        ltb s.max_edges (length s.edges),
        domain_invariant "lineage snapshot edge count exceeds its bound",
      )
      ∷ (not (distinct (edge_ids s.edges)), domain_invariant "lineage edges must be unique")
      ∷ (edges_checks s.permitted_relation_types s.nodes s.edges
          ++ (
            not (
                same_set (reach s.nodes s.edges s.max_depth 0 (map (λ n. n.graph_entity_id) roots))
                  ids),
            domain_invariant "lineage snapshot contains an unreachable node",
          )
            ∷ (require_text s.lineage_version "lineage version must not be empty"
                  "lineage version must be concise valid text" 100
                ++ (limitation_checks s.limitations
                    ++ (
                      not s.generated_at.is_aware,
                      domain_invariant "generated_at must be timezone-aware",
                    )
                      ∷ (ltb s.schema_version 1, domain_invariant "schema_version must be positive")
                      ∷ [])))

abbrev pub lineage_key : LineageSnapshot → LineageKey
lineage_key s = record {
  topic_id = s.topic_id;
  root_paper_id = s.root_paper_id;
  as_of_date = s.as_of_date;
  permitted_relation_types = map relation_value s.permitted_relation_types;
  max_depth = s.max_depth;
  max_nodes = s.max_nodes;
  max_edges = s.max_edges;
  lineage_version = s.lineage_version;
  pipeline_execution_id = s.pipeline_execution_id;
}

module _ (uuid5 : Uuid → Text → Uuid) where
  unfoldable pub make_lineage_snapshot : LineageSnapshot → Result LineageSnapshot
  unfolding node_leb sorted_types snapshot_checks_of
  make_lineage_snapshot s =
      let t = record s {
        nodes = sorted node_leb s.nodes;
        permitted_relation_types = sorted_types s.permitted_relation_types;
      } in
      do
        checked ← validated t (snapshot_checks_of t)
        expected_id ← stable_lineage_snapshot_id uuid5 (lineage_key checked)
        validated checked (
            (
              not (text_eq checked.id expected_id),
              domain_invariant "lineage snapshot ID is not stable for its scope",
            )
            ∷ [])

  -- `replace` makes the record again, so its checks run again.
  unfoldable pub namespace_lineage_snapshot : LineageSnapshot → Uuid → Result LineageSnapshot
  unfolding make_lineage_snapshot
  namespace_lineage_snapshot s pipeline_execution_id =
      let renamed = record s { pipeline_execution_id = some pipeline_execution_id } in
      do
        id ← stable_lineage_snapshot_id uuid5 (lineage_key renamed)
        make_lineage_snapshot (record renamed { id = id })
