-- ===== src/Lineage/Examples.antt =====
-- A paper that cites two others, of which one extends the other, and one that came later.
use mathlib.Core.List.{Memᴰ}
use domain_specific_paper_ha.Prelude.{
  filter, false, ℕ, ◌≡◌, refl, true, Option, none, some, List, [], ◌∷◌, arith,
}
use domain_specific_paper_ha.Prelude.Int.{pos}
use domain_specific_paper_ha.Prelude.Text.{Text, Uuid, codes, text_eq, text_leb, strip}
use domain_specific_paper_ha.Identity.Graph.{lineage_snapshot_name}
use domain_specific_paper_ha.Prelude.Sort.{sorted}
use domain_specific_paper_ha.Prelude.Keys.{member, distinct, unique, same_set, subset}
use domain_specific_paper_ha.Lineage.Edge.{
  GraphEdge, GraphRelationType, cites, extends_on, metadata_explicit, unverified,
  default_lineage_relation_types, edge_ids, permits,
}
use domain_specific_paper_ha.Lineage.Search.{Search, depth_of, keys, search}
use domain_specific_paper_ha.Lineage.Ends.{search_returns}
use domain_specific_paper_ha.Lineage.Reached.{
  IsPredecessor, itself, by_eligible, select-IsPredecessor, select-all_forward,
}
use domain_specific_paper_ha.Lineage.Eligible.{LineagePaper, eligible_edges}
use domain_specific_paper_ha.Lineage.Select.{Selection, select, is_forward}
use domain_specific_paper_ha.Result.{ok}
use domain_specific_paper_ha.Lineage.Snapshot.{
  LineageSnapshot, LineageNode, currently_retrieved_corpus,
}
use domain_specific_paper_ha.Lineage.Build.{LineageRequest, only_candidate, build_lineage_snapshot}
use domain_specific_paper_ha.Lineage.Returned.{IsLineageOf, build_lineage_snapshot-IsLineageOf}
use domain_specific_paper_ha.Lineage.Selected.{IsLineage, select-IsLineage}

abbrev paper : Text → Option Text → LineagePaper
paper name published = record {
  graph_entity_id = name;
  paper_id = name;
  title = name;
  publication_date = published;
}

abbrev edge : Text → Text → Text → GraphRelationType → GraphEdge
edge id source target relation = record {
  id = id;
  source_entity_id = source;
  target_entity_id = target;
  relation_type = relation;
  source_paper_version_id = source;
  target_paper_version_id = some target;
  analysis_id = none;
  comparison_id = some id;
  paper_relation_id = none;
  provenance = metadata_explicit;
  evidence_ids = [];
  justification = codes "cited";
  model_provenance = none;
  confidence = none;
  verification_status = unverified;
  generated_at = record { instant = pos 0; is_aware = true };
  schema_version = pos 1;
  created_at = record { instant = pos 0; is_aware = true };
  pipeline_execution_id = none;
}

abbrev papers : List LineagePaper
papers =
    paper (codes "a") (some (codes "2024-03-01"))
    ∷ paper (codes "b") (some (codes "2023-01-01"))
    ∷ paper (codes "c") none
    ∷ paper (codes "d") (some (codes "2024-05-01"))
    ∷ []

abbrev edges : List GraphEdge
edges =
    edge (codes "1") (codes "a") (codes "b") cites
    ∷ edge (codes "2") (codes "a") (codes "c") cites
    ∷ edge (codes "3") (codes "b") (codes "c") extends_on
    ∷ edge (codes "4") (codes "a") (codes "d") cites
    ∷ edge (codes "5") (codes "c") (codes "a") extends_on
    ∷ []

abbrev selected : Option Selection
selected =
    select 3 50 200 (codes "2024-06-01") papers default_lineage_relation_types edges (codes "a")

abbrev ids : Option Selection → List Uuid
ids none = []
ids (some l) = edge_ids l.edges

-- The edge to the later paper and the one back to the root are left out, and so is the one between
-- papers of one depth.
lineage_of_a : ids selected ≡ codes "1" ∷ codes "2" ∷ []
unfolding select permits depth_of text_eq text_leb sorted member
lineage_of_a = refl

select-IsLineage_example :
    (l : Selection) × (selected ≡ some l)
    × IsLineage 3 50 200
        (codes "2024-06-01")
        papers
        default_lineage_relation_types
        edges
        (codes "a")
        l
select-IsLineage_example =
    select-IsLineage 3 50 200 (codes "2024-06-01") papers default_lineage_relation_types edges
      (codes "a") (omega arith)

abbrev lineage : Selection
lineage = record {
  depths = (codes "a", 0) ∷ (codes "b", 1) ∷ (codes "c", 1) ∷ [];
  tree_edges =
      edge (codes "1") (codes "a") (codes "b") cites
      ∷ edge (codes "2") (codes "a") (codes "c") cites
      ∷ [];
  edges =
      edge (codes "1") (codes "a") (codes "b") cites
      ∷ edge (codes "2") (codes "a") (codes "c") cites
      ∷ [];
  truncated = false;
}

lineage_is_selected : selected ≡ some lineage
unfolding select permits depth_of text_eq text_leb sorted member
lineage_is_selected = refl

abbrev first_edge : GraphEdge
first_edge = edge (codes "1") (codes "a") (codes "b") cites

abbrev last_edge : GraphEdge
last_edge = edge (codes "3") (codes "b") (codes "c") extends_on

abbrev eligible : List GraphEdge
eligible = eligible_edges (codes "2024-06-01") papers default_lineage_relation_types edges

first_is_eligible : Memᴰ first_edge eligible
unfolding eligible_edges permits text_eq text_leb sorted member
first_is_eligible = Memᴰ.head refl

last_is_eligible : Memᴰ last_edge eligible
unfolding eligible_edges permits text_eq text_leb sorted member
last_is_eligible = Memᴰ.tail (Memᴰ.tail (Memᴰ.head refl))

-- `c` is a predecessor by way of `b` too.
c-IsPredecessor :
    IsPredecessor 3 50 200
      (codes "2024-06-01")
      papers
      default_lineage_relation_types
      edges
      (codes "a")
      (codes "c")
c-IsPredecessor =
    by_eligible last_edge (by_eligible first_edge itself first_is_eligible) last_is_eligible

select-IsPredecessor_example : member (codes "c") (keys lineage.depths) ≡ true
select-IsPredecessor_example =
    select-IsPredecessor 3 50 200 (codes "2024-06-01") papers default_lineage_relation_types edges
      (codes "a") lineage lineage_is_selected refl (codes "c") c-IsPredecessor

first_is_forward : is_forward lineage.depths first_edge ≡ true
unfolding is_forward depth_of text_eq member
first_is_forward = refl

select-all_forward_example : member (codes "1") (edge_ids lineage.edges) ≡ true
select-all_forward_example =
    select-all_forward 3 50 200 (codes "2024-06-01") papers default_lineage_relation_types edges
      (codes "a") lineage lineage_is_selected refl first_edge first_is_eligible first_is_forward

-- The edges of the example, with no guard on them.
abbrev offered : Uuid → List GraphEdge
offered k = filter (λ e. text_eq e.source_entity_id k) edges

search_returns_example : (t : Search) × (search 3 50 200 offered (codes "a") ≡ some t)
search_returns_example = search_returns 3 50 200 offered (codes "a") (omega arith)

abbrev hash : Uuid → Text → Uuid
hash namespace name = codes "7"

abbrev node : Text → Option Text → ℕ → LineageNode
node name published depth = record {
  graph_entity_id = name;
  paper_id = name;
  title = name;
  publication_date = published;
  depth = depth;
}

abbrev request : LineageRequest
request = record {
  topic_id = codes "t";
  root_paper_id = codes "a";
  as_of_date = codes "2024-06-01";
  papers = papers;
  edges = edges;
  generated_at = record { instant = pos 0; is_aware = true };
  max_depth = 3;
  max_nodes = 50;
  max_edges = 200;
  permitted_relation_types = default_lineage_relation_types;
  lineage_version = codes "lineage_v1";
}

abbrev snapshot : LineageSnapshot
snapshot = record {
  id = codes "7";
  topic_id = codes "t";
  root_paper_id = codes "a";
  as_of_date = codes "2024-06-01";
  nodes =
      node (codes "b") (some (codes "2023-01-01")) 1
      ∷ node (codes "a") (some (codes "2024-03-01")) 0
      ∷ node (codes "c") none 1
      ∷ [];
  edges =
      edge (codes "1") (codes "a") (codes "b") cites
      ∷ edge (codes "2") (codes "a") (codes "c") cites
      ∷ [];
  permitted_relation_types = default_lineage_relation_types;
  max_depth = 3;
  max_nodes = 50;
  max_edges = 200;
  truncated = false;
  explicit_predecessor_available = true;
  verified_predecessor_available = false;
  corpus_scope = currently_retrieved_corpus;
  limitations =
      codes "Lineage among the currently retrieved corpus; global completeness is not claimed."
      ∷ codes "No verified predecessor relation is currently available."
      ∷ codes "Some publication or version dates are unavailable."
      ∷ codes "Relations pointing to a later-dated paper were excluded from predecessor lineage."
      ∷ [];
  lineage_version = codes "lineage_v1";
  generated_at = record { instant = pos 0; is_aware = true };
  schema_version = 1;
  pipeline_execution_id = none;
}

-- The snapshot accepts itself; its nodes stand by date, the undated one last.
built : build_lineage_snapshot hash request ≡ ok snapshot
unfolding build_lineage_snapshot lineage_snapshot_name permits depth_of text_eq text_leb strip
    sorted member distinct unique same_set subset
built = refl

build_lineage_snapshot-IsLineageOf_example :
    (root : LineagePaper) × (l : Selection) × (only_candidate
        (filter (λ p. text_eq p.paper_id request.root_paper_id) request.papers)
      ≡ ok root)
    × IsLineageOf hash request root.graph_entity_id l
    × (l.edges ≡ snapshot.edges)
build_lineage_snapshot-IsLineageOf_example =
    build_lineage_snapshot-IsLineageOf hash request snapshot built
