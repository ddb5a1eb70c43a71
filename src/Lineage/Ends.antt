-- ===== src/Lineage/Ends.antt =====
-- The search for predecessors ends: each entity enters the queue once, and at most `max_nodes` do.
use domain_specific_paper_ha.Prelude.{
  ℕ, zero, suc, ◌+◌, ◌-◌, ◌≤◌, ◌≡◌, ap, inl, inr, some, List, [], ◌∷◌, arith, length, length-append,
  List-cases,
}
use domain_specific_paper_ha.Prelude.Text.{Uuid}
use domain_specific_paper_ha.Lineage.Edge.{GraphEdge}
use domain_specific_paper_ha.Lineage.Search.{
  Search, depth_of, offer, offer_all, expand, search_loop, search, start,
}

module _ (max_depth max_nodes max_edges : ℕ) (outgoing : Uuid → List GraphEdge) where
  -- The nodes that may still be selected, and those that wait in the queue.
  abbrev work : Search → ℕ
  work s = (max_nodes - length s.depths) + length s.queue

  offer-work :
      (depth : ℕ) (s : Search) (edge : GraphEdge)
      → work (offer max_depth max_nodes max_edges outgoing depth s edge) ≤ work s
  unfolding offer
  offer-work depth s edge = ground (
    arith,
    length-append s.depths ((edge.target_entity_id, depth + 1) ∷ []),
    length-append s.queue (edge.target_entity_id ∷ []),
  )

  offer_all-work :
      (depth : ℕ) (s : Search) (edges : List GraphEdge)
      → work (offer_all max_depth max_nodes max_edges outgoing depth s edges) ≤ work s
  unfolding offer_all
  offer_all-work depth s [] = omega arith
  offer_all-work depth s (edge ∷ edges) = omega (
    arith,
    offer-work depth s edge,
    offer_all-work depth (offer max_depth max_nodes max_edges outgoing depth s edge) edges,
  )

  expand-work :
      (s : Search) (entity_id : Uuid)
      → work (expand max_depth max_nodes max_edges outgoing s entity_id) ≤ work s
  unfolding expand
  expand-work s entity_id =
      ground (arith, offer_all-work (depth_of s.depths entity_id) s (outgoing entity_id))

  loop_ends :
      (fuel : ℕ) (s : Search)
      → work s ≤ fuel
      → (t : Search) × (search_loop max_depth max_nodes max_edges outgoing fuel s ≡ some t)
  unfolding search_loop
  loop_ends zero s h = (s, ground arith)
  loop_ends (suc fuel) s h = elim (List-cases s.queue) [
    | inl empty ↦ (s, simp (empty, search_loop))
    | inr (k, rest, e) ↦
        let s' = record s { queue = rest } in
        let (t, ends) =
          loop_ends fuel (expand max_depth max_nodes max_edges outgoing s' k)
            (omega (arith, expand-work s' k, ap length e)) in
        (t, simp (e, search_loop, ends))
  ]

  -- With room for the root the search returns, whatever edges are offered.
  pub search_returns :
      (root : Uuid)
      → 1 ≤ max_nodes
      → (t : Search) × (search max_depth max_nodes max_edges outgoing root ≡ some t)
  unfolding search
  search_returns root h =
      loop_ends max_nodes (start max_depth max_nodes max_edges outgoing root) (omega arith)
