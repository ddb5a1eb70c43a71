-- ===== src/Lineage/Reached.antt =====
-- domain/knowledge.py, `build_lineage_snapshot`: the eligible edges and the papers to which they lead,
-- in a lineage that was not truncated.
use mathlib.Core.List.{Memᴰ}
use mathlib.Core.List.Permᴰ
use domain_specific_paper_ha.Prelude.{
  ℕ, zero, suc, ◌+◌, ◌-◌, ◌≤◌, ◌≡◌, refl, sym, ap, ◌∙◌, ◌||◌, inl, inr, Bool, true, false, not,
  none, some, List, [], ◌∷◌, ◌++◌, length, take, filter, arith, ltb, Bool-cases, Option-cases,
}
use domain_specific_paper_ha.Prelude.Text.{Uuid, text_eq}
use domain_specific_paper_ha.Prelude.Keys.{member, member-append, text_eq_refl}
use domain_specific_paper_ha.Prelude.Members.{Memᴰ-Perm, sorted-Permᴰ}
use domain_specific_paper_ha.Lineage.Edge.{GraphEdge, GraphRelationType, edge_ids}
use domain_specific_paper_ha.Lineage.Search.{Search, keys, search}
use domain_specific_paper_ha.Lineage.Complete.{IsReachable, at_root, by_edge, search-IsKnown}
use domain_specific_paper_ha.Lineage.Eligible.{
  Date, LineagePaper, eligible_edges, outgoing_edges, outgoing_leb,
}
use domain_specific_paper_ha.Lineage.Select.{
  Selection, is_forward, additional_edges, with_additional, select,
}

Memᴰ-filter {ℓ} :
    {A : Type ℓ} (p : A → Bool) (x : A) (xs : List A)
    → Memᴰ x xs
    → p x ≡ true
    → Memᴰ x (filter p xs)
Memᴰ-filter p x [] m h = elim m [ ]
Memᴰ-filter p x (y ∷ ys) (Memᴰ.head e) h =
    let same : p y ≡ true = ap p (sym e) ∙ h in rw same (Memᴰ.head e)
Memᴰ-filter p x (y ∷ ys) (Memᴰ.tail m) h = elim (Bool-cases (p y)) [
  | inl kept ↦ rw kept (Memᴰ.tail (Memᴰ-filter p x ys m h))
  | inr cut ↦ rw cut (Memᴰ-filter p x ys m h)
]

take-all {ℓ} : {A : Type ℓ} (n : ℕ) (xs : List A) → length xs ≤ n → take n xs ≡ xs
take-all zero [] h = refl
take-all zero (x ∷ xs) h = absurd (omega (arith, h))
take-all (suc n) [] h = refl
take-all (suc n) (x ∷ xs) h = ap (λ ys. x ∷ ys) (take-all n xs (omega (arith, h)))

module _ (max_depth max_nodes max_edges : ℕ) (as_of_date : Date) (papers : List LineagePaper)
    (permitted : List GraphRelationType) (edges : List GraphEdge) where
  abbrev eligible : List GraphEdge
  eligible = eligible_edges as_of_date papers permitted edges

  -- The papers to which a chain of eligible edges leads from the root.
  pub data IsPredecessor (root : Uuid) : Uuid → Type 0 where
    itself : IsPredecessor root root
    by_eligible :
        (e : GraphEdge)
        → IsPredecessor root e.source_entity_id
        → Memᴰ e (eligible_edges as_of_date papers permitted edges)
        → IsPredecessor root e.target_entity_id

  outgoing-of_eligible :
      (e : GraphEdge)
      → Memᴰ e eligible
      → Memᴰ e (outgoing_edges as_of_date papers permitted eligible e.source_entity_id)
  unfolding outgoing_edges
  outgoing-of_eligible e m =
      Memᴰ-Perm
        (Permᴰ.symm (
          sorted-Permᴰ (outgoing_leb as_of_date papers permitted)
            (filter (λ f. text_eq f.source_entity_id e.source_entity_id) eligible)))
        (Memᴰ-filter (λ f. text_eq f.source_entity_id e.source_entity_id) e eligible m
          (text_eq_refl e.source_entity_id))

  IsReachable-of_chain :
      (root k : Uuid)
      → IsPredecessor root k
      → IsReachable max_depth max_nodes max_edges
          (outgoing_edges as_of_date papers permitted eligible)
          root
          k
  IsReachable-of_chain root k itself = at_root
  IsReachable-of_chain root k (by_eligible e before m) =
      by_edge e.source_entity_id e (IsReachable-of_chain root e.source_entity_id before)
        (outgoing-of_eligible e m)

  select-search :
      (root : Uuid) (l : Selection)
      → select max_depth max_nodes max_edges as_of_date papers permitted edges root ≡ some l
      → (t : Search) × (search max_depth max_nodes max_edges
            (outgoing_edges as_of_date papers permitted eligible)
            root
          ≡ some t)
        × (with_additional max_edges eligible t ≡ l)
  unfolding select
  select-search root l h =
      elim (Option-cases (
        search max_depth max_nodes max_edges (outgoing_edges as_of_date papers permitted eligible)
          root)) [
            | inl e ↦ let stuck : none ≡ some l = simp e at h in cc
            | inr (t, e) ↦
                let made : some (with_additional max_edges eligible t) ≡ some l = simp e at h in
                (t, e, cc)
          ]

  -- Where the lineage is selected and was not truncated, it has every paper to which a chain of
  -- eligible edges leads from the root.
  pub select-IsPredecessor :
      (root : Uuid) (l : Selection)
      → select max_depth max_nodes max_edges as_of_date papers permitted edges root ≡ some l
      → l.truncated ≡ false
      → (k : Uuid) → IsPredecessor root k
      → member k (keys l.depths) ≡ true
  unfolding with_additional
  select-IsPredecessor root l h untruncated k chain =
      let (t, found, made) = select-search root l h in
      let whole : (t.truncated
            || ltb max_edges (length t.tree + length (additional_edges eligible t)))
          ≡ false =
        ap (λ m. m.truncated) made ∙ untruncated in
      let known =
        search-IsKnown max_depth max_nodes max_edges
          (outgoing_edges as_of_date papers permitted eligible) root t found (ground (arith, whole))
          k (IsReachable-of_chain root k chain) in
      ap (λ m. member k (keys m.depths)) (sym made) ∙ known

  edge_ids-append : (xs ys : List GraphEdge) → edge_ids (xs ++ ys) ≡ edge_ids xs ++ edge_ids ys
  edge_ids-append [] ys = refl
  edge_ids-append (x ∷ xs) ys = ap (λ ids. x.id ∷ ids) (edge_ids-append xs ys)

  id-Memᴰ : (e : GraphEdge) (es : List GraphEdge) → Memᴰ e es → member e.id (edge_ids es) ≡ true
  unfolding member
  id-Memᴰ e [] m = elim m [ ]
  id-Memᴰ e (f ∷ es) (Memᴰ.head h) =
      ground (arith, ap (λ g. text_eq e.id g.id) (sym h) ∙ text_eq_refl e.id)
  id-Memᴰ e (f ∷ es) (Memᴰ.tail m) = ground (arith, id-Memᴰ e es m)

  -- Where the lineage is selected and was not truncated, it has every eligible edge that leads one
  -- step down between its papers.
  pub select-all_forward :
      (root : Uuid) (l : Selection)
      → select max_depth max_nodes max_edges as_of_date papers permitted edges root ≡ some l
      → l.truncated ≡ false
      → (e : GraphEdge) → Memᴰ e (eligible_edges as_of_date papers permitted edges)
      → is_forward l.depths e ≡ true
      → member e.id (edge_ids l.edges) ≡ true
  unfolding with_additional additional_edges
  select-all_forward root l h untruncated e m forward =
      let (t, found, made) = select-search root l h in
      let additional = additional_edges eligible t in
      let whole : (t.truncated || ltb max_edges (length t.tree + length additional)) ≡ false =
        ap (λ m. m.truncated) made ∙ untruncated in
      let ahead : is_forward t.depths e ≡ true = ap (λ m. is_forward m.depths e) made ∙ forward in
      let all : edge_ids l.edges ≡ edge_ids t.tree ++ edge_ids additional =
        ap (λ m. edge_ids m.edges) (sym made)
        ∙ ap (λ es. edge_ids (t.tree ++ es))
            (take-all (max_edges - length t.tree) additional (ground (arith, whole)))
        ∙ edge_ids-append t.tree additional in
      ap (member e.id) all
      ∙ member-append e.id (edge_ids t.tree) (edge_ids additional)
      ∙ (elim (Bool-cases (member e.id (edge_ids t.tree))) [
        | inl taken ↦ ground (arith, taken)
        | inr untaken ↦
            let late = id-Memᴰ e additional (
              Memᴰ-filter (λ f. not (member f.id (edge_ids t.tree))) e
                (filter (λ f. is_forward t.depths f) eligible)
                (Memᴰ-filter (λ f. is_forward t.depths f) e eligible m ahead)
                (ground (arith, untaken))) in
            ground (arith, late)
      ])
