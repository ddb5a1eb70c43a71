-- ===== src/Lineage/Select.antt =====
-- domain/knowledge.py, `build_lineage_snapshot`: what the lineage selects. The search's tree, and
-- then the other edges between selected papers that lead one step deeper, up to the bound.
use mathlib.Core.Option
use domain_specific_paper_ha.Prelude.{
  ℕ, ◌+◌, ◌-◌, Bool, not, ◌&&◌, ◌||◌, Option, List, ◌++◌, length, take, filter, ltb, ◌==◌,
}
use domain_specific_paper_ha.Prelude.Text.{Uuid}
use domain_specific_paper_ha.Prelude.Keys.{member}
use domain_specific_paper_ha.Lineage.Edge.{GraphEdge, GraphRelationType, edge_ids}
use domain_specific_paper_ha.Lineage.Search.{Depths, Search, keys, depth_of, search}
use domain_specific_paper_ha.Lineage.Eligible.{Date, LineagePaper, eligible_edges, outgoing_edges}

-- `selected_depths`, `tree_edges`, `selected_edges` and `truncated`.
pub record Selection : Type 0 where
  pub depths : Depths
  pub tree_edges : List GraphEdge
  pub edges : List GraphEdge
  pub truncated : Bool

unfoldable pub is_forward : Depths → GraphEdge → Bool
is_forward depths e =
    member e.source_entity_id (keys depths)
    && (member e.target_entity_id (keys depths)
        && (depth_of depths e.target_entity_id == depth_of depths e.source_entity_id + 1))

unfoldable pub additional_edges : List GraphEdge → Search → List GraphEdge
unfolding is_forward
additional_edges eligible s =
    filter (λ e. not (member e.id (edge_ids s.tree))) (filter (λ e. is_forward s.depths e) eligible)

-- The search never takes more than `max_edges`, so the difference is Python's.
unfoldable pub with_additional : ℕ → List GraphEdge → Search → Selection
unfolding additional_edges
with_additional max_edges eligible s =
    let additional = additional_edges eligible s in
    record {
      depths = s.depths;
      tree_edges = s.tree;
      edges = s.tree ++ take (max_edges - length s.tree) additional;
      truncated = s.truncated || ltb max_edges (length s.tree + length additional);
    }

module _ (max_depth max_nodes max_edges : ℕ) (as_of_date : Date) (papers : List LineagePaper)
    (permitted : List GraphRelationType) (edges : List GraphEdge) where
  -- From the adjacency to the selected edges; `root` is the root's entity.
  unfoldable pub select : Uuid → Option Selection
  unfolding with_additional eligible_edges outgoing_edges search
  select root =
      let eligible = eligible_edges as_of_date papers permitted edges in
      Option.map (with_additional max_edges eligible) (
        search max_depth max_nodes max_edges (outgoing_edges as_of_date papers permitted eligible)
          root)
