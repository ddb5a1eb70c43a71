-- ===== src/Lineage/Search.antt =====
-- domain/knowledge.py, `build_lineage_snapshot`: the breadth-first search for predecessors.
use domain_specific_paper_ha.Prelude.{
  ℕ, zero, suc, ◌+◌, Bool, true, false, not, ◌||◌, Option, none, some, List, [], ◌∷◌, ◌++◌, length,
  any, leb, if◌then◌else◌,
}
use domain_specific_paper_ha.Prelude.Text.{Uuid, text_eq}
use domain_specific_paper_ha.Prelude.Keys.{member}
use domain_specific_paper_ha.Lineage.Edge.{GraphEdge}

-- `selected_depths`, in insertion order.
abbrev pub Depths : Type 0
Depths = List (Uuid × ℕ)

abbrev pub keys : Depths → List Uuid
keys [] = []
keys ((k, d) ∷ ds) = k ∷ keys ds

-- `selected_depths[k]`; every key that is looked up is there.
unfoldable pub depth_of : Depths → Uuid → ℕ
depth_of [] k = 0
depth_of ((j, d) ∷ ds) k = if text_eq k j then d else depth_of ds k

pub record Search : Type 0 where
  pub depths : Depths
  pub tree : List GraphEdge
  pub queue : List Uuid
  pub truncated : Bool

module _ (max_depth max_nodes max_edges : ℕ) (outgoing : Uuid → List GraphEdge) where
  -- The body of `for edge in outgoing_edges`.
  unfoldable pub offer : ℕ → Search → GraphEdge → Search
  offer depth s edge =
      if member edge.target_entity_id (keys s.depths)
      then s
      else if leb max_nodes (length s.depths) || leb max_edges (length s.tree)
      then record s { truncated = true }
      else record {
        depths = s.depths ++ (edge.target_entity_id, depth + 1) ∷ [];
        tree = s.tree ++ edge ∷ [];
        queue = s.queue ++ edge.target_entity_id ∷ [];
        truncated = s.truncated;
      }

  unfoldable pub offer_all : ℕ → Search → List GraphEdge → Search
  offer_all depth s [] = s
  offer_all depth s (edge ∷ edges) = offer_all depth (offer depth s edge) edges

  -- One round of `while queue`, after `entity_id` left the queue.
  unfoldable pub expand : Search → Uuid → Search
  unfolding offer_all offer
  expand s entity_id =
      let depth = depth_of s.depths entity_id in
      if leb max_depth depth
      then (if any (λ edge. not (member edge.target_entity_id (keys s.depths))) (outgoing entity_id)
          then record s { truncated = true }
          else s)
      else offer_all depth s (outgoing entity_id)

  -- `none` where the fuel is used up with work left.
  unfoldable pub search_loop : ℕ → Search → Option Search
  search_loop zero s = elim s.queue [ [] ↦ some s | _ ∷ _ ↦ none ]
  search_loop (suc fuel) s = elim s.queue [
    | [] ↦ some s
    | entity_id ∷ rest ↦ search_loop fuel (expand (record s { queue = rest }) entity_id)
  ]

  abbrev pub start : Uuid → Search
  start root = record { depths = (root, 0) ∷ []; tree = []; queue = root ∷ []; truncated = false }

  unfoldable pub search : Uuid → Option Search
  unfolding search_loop expand
  search root = search_loop max_nodes (start root)
