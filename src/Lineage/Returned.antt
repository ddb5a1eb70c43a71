-- ===== src/Lineage/Returned.antt =====
-- A snapshot that `build_lineage_snapshot` returns has the edges that were selected for its root.
use mathlib.Core.Path.{subst}
use domain_specific_paper_ha.Prelude.{◌≡◌, sym, arith, ◌∙◌, ap, ◌≤◌}
use domain_specific_paper_ha.Result.{validated-eq-ok, >>=-eq-ok}
use domain_specific_paper_ha.Lineage.Build.{
  LineageRequest, request_checks, only_candidate, root_checks, make_nodes, assemble, with_selection,
  build_lineage_snapshot, snapshot_of,
}
use domain_specific_paper_ha.Lineage.Snapshot.{snapshot_checks_of}
use domain_specific_paper_ha.Lineage.Selected.{IsLineage, select-IsLineage}
use domain_specific_paper_ha.Prelude.{not, some, List, [], ◌∷◌, filter}
use domain_specific_paper_ha.Prelude.Text.{Text, Uuid, text_eq}
use domain_specific_paper_ha.Prelude.Sort.{sorted}
use domain_specific_paper_ha.Result.{Result, ok, validated, domain_invariant, ◌>>=◌}
use domain_specific_paper_ha.Identity.Graph.{stable_lineage_snapshot_id}
use domain_specific_paper_ha.Lineage.Eligible.{LineagePaper}
use domain_specific_paper_ha.Lineage.Select.{Selection, select}
use domain_specific_paper_ha.Lineage.Snapshot.{
  LineageNode, node_leb, sorted_types, LineageSnapshot, bound_checks, lineage_key,
  make_lineage_snapshot,
}

module _ (uuid5 : Uuid → Text → Uuid) where
  make_lineage_snapshot-edges :
      (s t : LineageSnapshot) → make_lineage_snapshot uuid5 s ≡ ok t → s.edges ≡ t.edges
  unfolding make_lineage_snapshot
  make_lineage_snapshot-edges s t h =
      let u = record s {
        nodes = sorted node_leb s.nodes;
        permitted_relation_types = sorted_types s.permitted_relation_types;
      } in
      let (checked, first, h1) = >>=-eq-ok (validated u (snapshot_checks_of u)) _ t h in
      let (expected_id, known, h2) =
        >>=-eq-ok (stable_lineage_snapshot_id uuid5 (lineage_key checked)) _ t h1 in
      let before = validated-eq-ok u (snapshot_checks_of u) first in
      let after =
        validated-eq-ok checked
          ((
            not (text_eq checked.id expected_id),
            domain_invariant "lineage snapshot ID is not stable for its scope",
          )
            ∷ [])
          h2 in
      ap (λ x. x.edges) (before.0 ∙ after.0)

  assemble-edges :
      (r : LineageRequest) (root : Uuid) (l : Selection) (nodes : List LineageNode)
      (s : LineageSnapshot)
      → assemble uuid5 r root l nodes ≡ ok s
      → l.edges ≡ s.edges
  unfolding assemble snapshot_of
  assemble-edges r root l nodes s h =
      let plain = snapshot_of r root l nodes in
      let (id, known, made) =
        >>=-eq-ok (stable_lineage_snapshot_id uuid5 (lineage_key plain))
          (λ id. make_lineage_snapshot uuid5 (record plain { id = id })) s h in
      make_lineage_snapshot-edges (record plain { id = id }) s made

  with_selection-edges :
      (r : LineageRequest) (root : Uuid) (l : Selection) (s : LineageSnapshot)
      → with_selection uuid5 r root (some l) ≡ ok s
      → l.edges ≡ s.edges
  unfolding with_selection
  with_selection-edges r root l s h =
      let (nodes, made, h1) =
        >>=-eq-ok (make_nodes r.papers l.depths)
          (λ nodes. assemble uuid5 r root l (sorted node_leb nodes)) s h in
      assemble-edges r root l (sorted node_leb nodes) s h1

  abbrev from_root : LineageRequest → LineagePaper → Result LineageSnapshot
  from_root r root = with_selection uuid5 r root.graph_entity_id (
      select r.max_depth r.max_nodes r.max_edges r.as_of_date r.papers
        (sorted_types r.permitted_relation_types) r.edges root.graph_entity_id)

  -- The lineage of the request from an entity.
  abbrev pub IsLineageOf : LineageRequest → Uuid → Selection → Type 0
  IsLineageOf r =
      IsLineage r.max_depth r.max_nodes r.max_edges r.as_of_date r.papers
        (sorted_types r.permitted_relation_types) r.edges

  from_root-IsLineageOf :
      (r : LineageRequest) (root : LineagePaper) (s : LineageSnapshot)
      → 1 ≤ r.max_nodes
      → from_root r root ≡ ok s
      → (l : Selection) × IsLineageOf r root.graph_entity_id l × (l.edges ≡ s.edges)
  from_root-IsLineageOf r root s room h =
      let (l, run, lineage) =
        select-IsLineage r.max_depth r.max_nodes r.max_edges r.as_of_date r.papers
          (sorted_types r.permitted_relation_types) r.edges root.graph_entity_id room in
      (l, lineage, with_selection-edges r root.graph_entity_id l s (simp run at h))

  -- What the guards let through, at the request that was given.
  from_request : LineageRequest → Result LineageSnapshot
  from_request r = do
    candidate ← only_candidate (filter (λ p. text_eq p.paper_id r.root_paper_id) r.papers)
    root ← validated candidate (root_checks r candidate)
    from_root r root

  from_request-IsLineageOf :
      (r : LineageRequest) (s : LineageSnapshot)
      → 1 ≤ r.max_nodes
      → from_request r ≡ ok s
      → (root : LineagePaper) × (l : Selection) × (only_candidate
            (filter (λ p. text_eq p.paper_id r.root_paper_id) r.papers)
          ≡ ok root)
        × IsLineageOf r root.graph_entity_id l
        × (l.edges ≡ s.edges)
  unfolding from_request
  from_request-IsLineageOf r s room h =
      let (candidate, found, h1) =
        >>=-eq-ok (only_candidate (filter (λ p. text_eq p.paper_id r.root_paper_id) r.papers))
          (λ candidate. validated candidate (root_checks r candidate) >>= from_root r) s h in
      let (root, checked, h2) =
        >>=-eq-ok (validated candidate (root_checks r candidate)) (from_root r) s h1 in
      let same = (validated-eq-ok candidate (root_checks r candidate) checked).0 in
      let (l, lineage, edges) = from_root-IsLineageOf r root s room h2 in
      (root, l, found ∙ ap ok same, lineage, edges)

  -- Where a snapshot is returned, the root paper is the only one with its identifier, and the
  -- snapshot's edges are those of a lineage of it: within the bounds on nodes, edges and depth, each
  -- of them permitted, not rejected, between papers known by the date, not to a later paper, and one
  -- step down between selected papers.
  pub build_lineage_snapshot-IsLineageOf :
      (r : LineageRequest) (s : LineageSnapshot)
      → build_lineage_snapshot uuid5 r ≡ ok s
      → (root : LineagePaper) × (l : Selection) × (only_candidate
            (filter (λ p. text_eq p.paper_id r.root_paper_id) r.papers)
          ≡ ok root)
        × IsLineageOf r root.graph_entity_id l
        × (l.edges ≡ s.edges)
  unfolding build_lineage_snapshot from_request bound_checks request_checks
  build_lineage_snapshot-IsLineageOf r s h =
      let (request, passed, h1) = >>=-eq-ok (validated r (request_checks r)) from_request s h in
      let guards = validated-eq-ok r (request_checks r) passed in
      from_request-IsLineageOf r s (ground (arith, guards.1.1.0))
        (subst (λ x. from_request x ≡ ok s) (sym guards.0) h1)
