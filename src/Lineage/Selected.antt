-- ===== src/Lineage/Selected.antt =====
-- The selection of a lineage: it is always made, and it is a bounded layered graph of eligible edges.
use mathlib.Core.Option
use domain_specific_paper_ha.Prelude.{
  ℕ, ◌-◌, ◌≤◌, ◌≡◌, ap, Bool, true, false, not, some, List, ◌∷◌, length, length-append, length-take,
  take-append, take, filter, arith, Each, Each-all, Each-map, Each-append, Each-filter, Each-take,
}
use domain_specific_paper_ha.Prelude.Text.{Uuid, text_eq, text_eq_iff}
use domain_specific_paper_ha.Prelude.Keys.{member, distinct}
use domain_specific_paper_ha.Prelude.Sort.{Each-sorted}
use domain_specific_paper_ha.Lineage.Edge.{
  GraphEdge, GraphRelationType, edge_ids, is_rejected, permits,
}
use domain_specific_paper_ha.Lineage.Search.{Search, keys, depth_of}
use domain_specific_paper_ha.Lineage.Ends.{search_returns}
use domain_specific_paper_ha.Lineage.Invariant.{targets, IsTreeEdge, IsTree, IsOffer}
use domain_specific_paper_ha.Lineage.Preserved.{search-IsTree}
use domain_specific_paper_ha.Lineage.Eligible.{
  Date, LineagePaper, eligible_edges, outgoing_edges, is_candidate, is_to_later, eligible_paper_ids,
  is_after, date_of, outgoing_leb, tuple_leb, edge_key,
}
use domain_specific_paper_ha.Lineage.Select.{
  Selection, is_forward, additional_edges, with_additional, select,
}

module _ (max_depth max_nodes max_edges : ℕ) (as_of_date : Date) (papers : List LineagePaper)
    (permitted : List GraphRelationType) (edges : List GraphEdge) where
  -- What the code promises of an edge that it keeps.
  pub record IsEligible (e : GraphEdge) : Type 0 where
    pub allowed : permits permitted e.relation_type ≡ true
    pub standing : is_rejected e.verification_status ≡ false
    pub source : member e.source_entity_id (eligible_paper_ids as_of_date papers) ≡ true
    pub target : member e.target_entity_id (eligible_paper_ids as_of_date papers) ≡ true
    pub backward :
        is_after (date_of papers e.target_entity_id) (date_of papers e.source_entity_id) ≡ false

  abbrev may_use : GraphEdge → Bool
  may_use = is_candidate as_of_date papers permitted

  abbrev not_later : GraphEdge → Bool
  not_later e = not (is_to_later as_of_date papers permitted e)

  IsEligible-of_guards :
      (e : GraphEdge) → (Unit {0} × (may_use e ≡ true)) × (not_later e ≡ true) → IsEligible e
  unfolding is_candidate is_to_later
  IsEligible-of_guards e h = record {
    allowed = ground (arith, h.0.1);
    standing = ground (arith, h.0.1);
    source = ground (arith, h.0.1);
    target = ground (arith, h.0.1);
    backward = ground (arith, h.1);
  }

  eligible_edges-IsEligible : Each IsEligible (eligible_edges as_of_date papers permitted edges)
  unfolding eligible_edges
  eligible_edges-IsEligible =
      Each-sorted (λ e f. tuple_leb (edge_key e) (edge_key f)) IsEligible
        (filter not_later (filter may_use edges))
        (Each-map _ _ IsEligible-of_guards (filter not_later (filter may_use edges)) (
          Each-filter (λ e. Unit {0} × (may_use e ≡ true)) not_later (filter may_use edges)
            (Each-filter (λ e. Unit {0}) may_use edges (Each-all (λ e. Unit {0}) (λ e. tt) edges))))

  outgoing_edges-IsOffer :
      (k : Uuid)
      → Each (IsOffer IsEligible k) (
          outgoing_edges as_of_date papers permitted
            (eligible_edges as_of_date papers permitted edges)
            k)
  unfolding outgoing_edges
  outgoing_edges-IsOffer k =
      Each-sorted (outgoing_leb as_of_date papers permitted) (IsOffer IsEligible k) _ (
        Each-map (λ e. IsEligible e × (text_eq e.source_entity_id k ≡ true)) (IsOffer IsEligible k)
          (λ e h. record { source = (text_eq_iff e.source_entity_id k).0 h.1; offered = h.0 }) _
          (Each-filter IsEligible (λ e. text_eq e.source_entity_id k) _ eligible_edges-IsEligible))

  -- The bounds hold, the root stands at depth zero, the papers are the root and one for each edge
  -- of the tree, and every edge is eligible and leads one step down between selected papers.
  pub record IsLineage (root : Uuid) (l : Selection) : Type 0 where
    pub nodes : length l.depths ≤ max_nodes
    pub bounded : length l.edges ≤ max_edges
    pub once : distinct (keys l.depths) ≡ true
    pub at_root : depth_of l.depths root ≡ 0
    pub deep : (k : Uuid) → member k (keys l.depths) ≡ true → depth_of l.depths k ≤ max_depth
    pub reached : keys l.depths ≡ root ∷ targets l.tree_edges
    pub kept : (n : ℕ) × (take n l.edges ≡ l.tree_edges)
    pub steps : Each (IsTreeEdge IsEligible l.depths) l.edges

  IsTreeEdge-of_guards :
      (s : Search) (e : GraphEdge)
      → (IsEligible e × (is_forward s.depths e ≡ true))
        × (not (member e.id (edge_ids s.tree)) ≡ true)
      → IsTreeEdge IsEligible s.depths e
  unfolding is_forward
  IsTreeEdge-of_guards s e h = record {
    source = ground (arith, h.0.1);
    target = ground (arith, h.0.1);
    step = ground (arith, h.0.1);
    offered = h.0.0;
  }

  additional_edges-IsTreeEdge :
      (s : Search)
      → Each
          (IsTreeEdge IsEligible s.depths)
          (additional_edges (eligible_edges as_of_date papers permitted edges) s)
  unfolding additional_edges
  additional_edges-IsTreeEdge s =
      Each-map _ _ (IsTreeEdge-of_guards s)
        (additional_edges (eligible_edges as_of_date papers permitted edges) s)
        (Each-filter (λ e. IsEligible e × (is_forward s.depths e ≡ true))
          (λ e. not (member e.id (edge_ids s.tree))) _
          (Each-filter IsEligible (λ e. is_forward s.depths e) _ eligible_edges-IsEligible))

  with_additional-IsLineage :
      (root : Uuid) (s : Search)
      → IsTree IsEligible max_depth max_nodes max_edges root s
      → IsLineage root
          (with_additional max_edges (eligible_edges as_of_date papers permitted edges) s)
  unfolding with_additional
  with_additional-IsLineage root s h =
      let more = additional_edges (eligible_edges as_of_date papers permitted edges) s in
      let room = max_edges - length s.tree in
      record {
        nodes = h.nodes;
        bounded =
            omega (arith, length-append s.tree (take room more), length-take room more, h.edges);
        once = h.once;
        at_root = h.at_root;
        deep = h.deep;
        reached = h.order;
        kept = (length s.tree, take-append s.tree (take room more));
        steps =
            Each-append _ s.tree (take room more) h.steps
              (Each-take _ room more (additional_edges-IsTreeEdge s));
      }

  -- With room for the root, a selection is made from any papers and edges, and it is a lineage: the
  -- bounds on nodes, edges and depth hold, the papers are distinct, the root stands at depth zero,
  -- every other paper is the target of one edge of the search's tree, the tree's edges come first,
  -- and every edge leads one step down between selected papers, is of a permitted relation, was not
  -- rejected, joins papers known by the date, and does not point to a paper with a later date.
  pub select-IsLineage :
      (root : Uuid)
      → 1 ≤ max_nodes
      → (l : Selection) × (select max_depth max_nodes max_edges as_of_date papers permitted edges
            root
          ≡ some l)
        × IsLineage root l
  unfolding select
  select-IsLineage root h =
      let eligible = eligible_edges as_of_date papers permitted edges in
      let outgoing = outgoing_edges as_of_date papers permitted eligible in
      let (s, run) = search_returns max_depth max_nodes max_edges outgoing root h in
      let tree =
        search-IsTree max_depth max_nodes max_edges outgoing IsEligible root s h
          outgoing_edges-IsOffer run in
      (
        with_additional max_edges eligible s,
        ap (Option.map (with_additional max_edges eligible)) run,
        with_additional-IsLineage root s tree,
      )
