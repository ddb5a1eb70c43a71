-- ===== src/Lineage/Eligible.antt =====
-- domain/knowledge.py, `build_lineage_snapshot`: the edges that the lineage may use, and the order
-- in which the search looks at those of one paper. A date is its ISO text, which sorts as the date.
use domain_specific_paper_ha.Prelude.{
  Bool, true, false, not, ◌&&◌, Option, none, some, List, [], ◌∷◌, ◌++◌, length, filter, ℕ,
  if◌then◌else◌,
}
use domain_specific_paper_ha.Prelude.Text.{Text, Uuid, codes, text_eq, text_leb}
use domain_specific_paper_ha.Prelude.Keys.{member}
use domain_specific_paper_ha.Prelude.Sort.{sorted}
use domain_specific_paper_ha.Lineage.Edge.{
  GraphEdge, GraphRelationType, relation_value, is_rejected, permits,
}

abbrev pub Date : Type 0
Date = Text

abbrev pub date_max : Date
date_max = codes "9999-12-31"

pub record LineagePaper : Type 0 where
  pub graph_entity_id : Uuid
  pub paper_id : Uuid
  pub title : Text
  pub publication_date : Option Date

-- `item.publication_date is None or item.publication_date <= as_of_date`
unfoldable pub is_known_by : Date → Option Date → Bool
is_known_by as_of_date none = true
is_known_by as_of_date (some d) = text_leb d as_of_date

unfoldable pub eligible_paper_ids : Date → List LineagePaper → List Uuid
unfolding is_known_by
eligible_paper_ids as_of_date [] = []
eligible_paper_ids as_of_date (p ∷ ps) =
    let rest = eligible_paper_ids as_of_date ps in
    if is_known_by as_of_date p.publication_date then p.graph_entity_id ∷ rest else rest

-- `papers_by_entity[entity].publication_date`; the papers have distinct entities, and an entity
-- that is looked up is eligible, so it has a paper.
unfoldable pub date_of : List LineagePaper → Uuid → Option Date
date_of [] entity = none
date_of (p ∷ ps) entity =
    if text_eq entity p.graph_entity_id then p.publication_date else date_of ps entity

unfoldable pub is_after : Option Date → Option Date → Bool
is_after (some target_date) (some source_date) = not (text_leb target_date source_date)
is_after _ _ = false

-- Tuples of texts in their order.
unfoldable pub tuple_leb : List Text → List Text → Bool
tuple_leb [] ts = true
tuple_leb (s ∷ ss) [] = false
tuple_leb (s ∷ ss) (t ∷ ts) =
    let rest = tuple_leb ss ts in if text_eq s t then rest else text_leb s t

abbrev pub edge_key : GraphEdge → List Text
edge_key e = relation_value e.relation_type ∷ e.source_entity_id ∷ e.target_entity_id ∷ e.id ∷ []

-- `item.publication_date is None`, `item.publication_date or date.max`
abbrev pub date_key : Option Date → List Text
date_key none = (1 ∷ []) ∷ date_max ∷ []
date_key (some d) = (0 ∷ []) ∷ d ∷ []

-- `str(papers_by_entity[entity].paper_id)`
unfoldable pub paper_id_of : List LineagePaper → Uuid → Text
paper_id_of [] entity = []
paper_id_of (p ∷ ps) entity =
    if text_eq entity p.graph_entity_id then p.paper_id else paper_id_of ps entity

module _ (as_of_date : Date) (papers : List LineagePaper) (permitted : List GraphRelationType) where
  -- The guard of `continue`, negated.
  unfoldable pub is_candidate : GraphEdge → Bool
  unfolding eligible_paper_ids
  is_candidate e =
      permits permitted e.relation_type
      && (not (is_rejected e.verification_status)
          && (member e.source_entity_id (eligible_paper_ids as_of_date papers)
              && member e.target_entity_id (eligible_paper_ids as_of_date papers)))

  unfoldable pub is_to_later : GraphEdge → Bool
  unfolding date_of is_after
  is_to_later e = is_after (date_of papers e.target_entity_id) (date_of papers e.source_entity_id)

  unfoldable pub chronology_excluded : List GraphEdge → ℕ
  unfolding is_candidate is_to_later
  chronology_excluded edges = length (filter is_to_later (filter is_candidate edges))

  unfoldable pub eligible_edges : List GraphEdge → List GraphEdge
  unfolding is_candidate is_to_later tuple_leb
  eligible_edges edges =
      sorted (λ e f. tuple_leb (edge_key e) (edge_key f))
        (filter (λ e. not (is_to_later e)) (filter is_candidate edges))

  unfoldable pub outgoing_key : GraphEdge → List Text
  unfolding paper_id_of date_of
  outgoing_key e =
      date_key (date_of papers e.target_entity_id)
      ++ paper_id_of papers e.target_entity_id ∷ relation_value e.relation_type ∷ e.id ∷ []

  -- The order of `adjacency[entity_id]`.
  unfoldable pub outgoing_leb : GraphEdge → GraphEdge → Bool
  unfolding tuple_leb outgoing_key
  outgoing_leb e f = tuple_leb (outgoing_key e) (outgoing_key f)

  -- `adjacency.get(entity_id, ())`
  unfoldable pub outgoing_edges : List GraphEdge → Uuid → List GraphEdge
  unfolding outgoing_leb
  outgoing_edges eligible entity_id =
      sorted outgoing_leb (filter (λ e. text_eq e.source_entity_id entity_id) eligible)
