-- ===== src/Lineage/Preserved.antt =====
-- Each round of the search keeps the tree.
use mathlib.Core.Path.{subst}
use domain_specific_paper_ha.Prelude.{
  ℕ, zero, suc, ◌+◌, ◌≤◌, ◌<◌, ◌≡◌, refl, inl, inr, true, false, not, ◌||◌, some, List, [], ◌∷◌,
  ◌++◌, arith, length, any, length-append, Each, Each-map, Each-append, leb, Bool-cases, List-cases,
}
use domain_specific_paper_ha.Prelude.Text.{Uuid, text_eq_iff}
use domain_specific_paper_ha.Prelude.Keys.{
  member, member-append, distinct, distinct-append_one, text_eq_refl,
}
use domain_specific_paper_ha.Lineage.Edge.{GraphEdge}
use domain_specific_paper_ha.Lineage.Search.{
  keys, Search, depth_of, offer, offer_all, expand, search_loop, search, start,
}
use domain_specific_paper_ha.Lineage.Invariant.{
  keys-append, targets-append, IsSelected, IsSelected-append, IsSelected-new, IsTreeEdge,
  IsTreeEdge-append, IsTree, IsOffer, depth_of-append_one,
}

module _ (max_depth max_nodes max_edges : ℕ) (outgoing : Uuid → List GraphEdge)
    (Offered : GraphEdge → Type 0) (root : Uuid) where
  abbrev Tree : Search → Type 0
  Tree = IsTree Offered max_depth max_nodes max_edges root

  -- A new target gets its place.
  add-IsTree :
      (depth : ℕ) (s : Search) (e : GraphEdge)
      → Tree s
      → depth < max_depth
      → IsSelected s.depths e.source_entity_id depth
      → Offered e
      → member e.target_entity_id (keys s.depths) ≡ false
      → length s.depths < max_nodes
      → length s.tree < max_edges
      → Tree (record {
        depths = s.depths ++ (e.target_entity_id, depth + 1) ∷ [];
        tree = s.tree ++ e ∷ [];
        queue = s.queue ++ e.target_entity_id ∷ [];
        truncated = s.truncated;
      })
  unfolding member
  add-IsTree depth s e h deep from offered new room_n room_e =
      let k = e.target_entity_id in
      let old = IsSelected-append s.depths k e.source_entity_id (depth + 1) depth new from in
      let fresh = IsSelected-new s.depths k (depth + 1) new in
      let ks = keys-append s.depths ((k, depth + 1) ∷ []) in
      record {
        order = rw (ks, targets-append s.tree (e ∷ []), h.order) refl;
        once = rw ks (distinct-append_one (keys s.depths) k h.once new);
        nodes = omega (arith, length-append s.depths ((k, depth + 1) ∷ []));
        edges = omega (arith, length-append s.tree (e ∷ []));
        queued = λ j m. ground (
          arith,
          ks,
          member-append j (keys s.depths) (k ∷ []),
          member-append j s.queue (k ∷ []),
          h.queued j,
        );
        deep = λ j m. ground (
          arith,
          ks,
          member-append j (keys s.depths) (k ∷ []),
          depth_of-append_one s.depths k (depth + 1) j new,
          text_eq_iff j k,
          h.deep j,
        );
        at_root =
            (IsSelected-append s.depths k root (depth + 1) 0 new (record {
              here = rw h.order (ground (arith, text_eq_refl root));
              depth = h.at_root;
            })).depth;
        steps =
            Each-append (IsTreeEdge Offered (s.depths ++ (k, depth + 1) ∷ [])) s.tree (e ∷ [])
              (Each-map _ _ (IsTreeEdge-append Offered s.depths k (depth + 1) new) s.tree h.steps)
              (
                record {
                  source = old.here;
                  target = fresh.here;
                  step = omega (arith, fresh.depth, old.depth);
                  offered = offered;
                },
                tt,
              );
      }

  IsTree-truncated : (s : Search) → Tree s → Tree (record s { truncated = true })
  IsTree-truncated s h = record {
    order = h.order;
    once = h.once;
    nodes = h.nodes;
    edges = h.edges;
    queued = h.queued;
    deep = h.deep;
    at_root = h.at_root;
    steps = h.steps;
  }

  IsTree-dequeued :
      (s : Search) (k : Uuid) (rest : List Uuid)
      → Tree s
      → s.queue ≡ k ∷ rest
      → Tree (record s { queue = rest })
  unfolding member
  IsTree-dequeued s k rest h e = record {
    order = h.order;
    once = h.once;
    nodes = h.nodes;
    edges = h.edges;
    queued = λ j m. h.queued j (rw e (ground arith));
    deep = h.deep;
    at_root = h.at_root;
    steps = h.steps;
  }

  -- The edge's source keeps its depth.
  offer-IsTree :
      (depth : ℕ) (s : Search) (e : GraphEdge)
      → Tree s
      → depth < max_depth
      → IsSelected s.depths e.source_entity_id depth
      → Offered e
      → let t = offer max_depth max_nodes max_edges outgoing depth s e in
        Tree t × IsSelected t.depths e.source_entity_id depth
  unfolding offer
  offer-IsTree depth s e h deep from offered =
      elim (Bool-cases (member e.target_entity_id (keys s.depths))) [
        | inl known ↦ rw known (h, from)
        | inr new ↦
            elim (Bool-cases (leb max_nodes (length s.depths) || leb max_edges (length s.tree))) [
              | inl full ↦ rw (new, full) (IsTree-truncated s h, from)
              | inr room ↦
                  rw (new, room)
                    (
                      add-IsTree depth s e h deep from offered new (ground arith) (ground arith),
                      IsSelected-append s.depths e.target_entity_id e.source_entity_id (depth + 1)
                          depth new from,
                    )
            ]
      ]

  offer_all-IsTree :
      (k : Uuid) (depth : ℕ) (s : Search) (edges : List GraphEdge)
      → Tree s
      → depth < max_depth
      → IsSelected s.depths k depth
      → Each (IsOffer Offered k) edges
      → Tree (offer_all max_depth max_nodes max_edges outgoing depth s edges)
  unfolding offer_all
  offer_all-IsTree k depth s [] h deep from offers = h
  offer_all-IsTree k depth s (e ∷ edges) h deep from offers =
      let at_e = offers.0 in
      let (tree, from') = offer-IsTree depth s e h deep (rw at_e.source from) at_e.offered in
      offer_all-IsTree k depth (offer max_depth max_nodes max_edges outgoing depth s e) edges tree
        deep (rw⁻¹ at_e.source from') offers.1

  expand-IsTree :
      (s : Search) (k : Uuid)
      → Tree s
      → member k (keys s.depths) ≡ true
      → Each (IsOffer Offered k) (outgoing k)
      → Tree (expand max_depth max_nodes max_edges outgoing s k)
  unfolding expand
  expand-IsTree s k h here offers = elim (Bool-cases (leb max_depth (depth_of s.depths k))) [
    | inl bottom ↦
        elim (Bool-cases
          (any (λ e. not (member e.target_entity_id (keys s.depths))) (outgoing k))) [
            | inl more ↦ rw (bottom, more) (IsTree-truncated s h)
            | inr end ↦ rw (bottom, end) h
          ]
    | inr above ↦ rw above (
        offer_all-IsTree k (depth_of s.depths k) s (outgoing k) h (ground arith)
          (record { here = here; depth = refl }) offers)
  ]

  search_loop-IsTree :
      (fuel : ℕ) (s t : Search)
      → Tree s
      → ((k : Uuid) → Each (IsOffer Offered k) (outgoing k))
      → search_loop max_depth max_nodes max_edges outgoing fuel s ≡ some t
      → Tree t
  unfolding search_loop member
  search_loop-IsTree zero s t h offers run = elim (List-cases s.queue) [
    | inl empty ↦ subst Tree (let done = simp (search_loop, empty) at run in cc) h
    | inr (k, rest, e) ↦ cc
  ]
  search_loop-IsTree (suc fuel) s t h offers run = elim (List-cases s.queue) [
    | inl empty ↦ subst Tree (let done = simp (search_loop, empty) at run in cc) h
    | inr (k, rest, e) ↦
        let s' = record s { queue = rest } in
        let rest_Tree = IsTree-dequeued s k rest h e in
        search_loop-IsTree fuel (expand max_depth max_nodes max_edges outgoing s' k) t
          (expand-IsTree s' k rest_Tree (h.queued k (rw e (ground (arith, text_eq_refl k))))
            (offers k))
          offers (simp (search_loop, e) at run)
  ]

  start-IsTree : 1 ≤ max_nodes → Tree (start max_depth max_nodes max_edges outgoing root)
  unfolding member distinct depth_of
  start-IsTree h = record {
    order = refl;
    once = refl;
    nodes = h;
    edges = omega arith;
    queued = λ k m. m;
    deep = λ k m. ground arith;
    at_root = ground (arith, text_eq_refl root);
    steps = tt;
  }

  pub search-IsTree :
      (t : Search)
      → 1 ≤ max_nodes
      → ((k : Uuid) → Each (IsOffer Offered k) (outgoing k))
      → search max_depth max_nodes max_edges outgoing root ≡ some t
      → Tree t
  unfolding search
  search-IsTree t h offers run =
      search_loop-IsTree max_nodes (start max_depth max_nodes max_edges outgoing root) t
        (start-IsTree h) offers run
