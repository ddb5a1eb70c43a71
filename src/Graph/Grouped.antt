-- ===== src/Graph/Grouped.antt =====
-- domain/knowledge.py: the identifiers of the entities that `_merge_graph_entities` returns.
use domain_specific_paper_ha.Prelude.{
  ◌≡◌, refl, sym, ap, ◌∙◌, true, not, ◌||◌, List, [], ◌∷◌, map, any, arith, Bool-cases, inl, inr,
}
use mathlib.Core.Path.{ap₂}
use domain_specific_paper_ha.Prelude.Text.{Text, Uuid, text_eq, text_eq_iff}
use domain_specific_paper_ha.Prelude.Keys.{member, distinct}
use domain_specific_paper_ha.Prelude.Sort.{sorted}
use domain_specific_paper_ha.Prelude.Reorder.{distinct-Perm, member-Perm, map-Perm}
use domain_specific_paper_ha.Prelude.Members.{sorted-Permᴰ}
use domain_specific_paper_ha.Result.{
  ok, domain_invariant, after_step, validated->>=, each_result, ok-injective,
}
use domain_specific_paper_ha.Graph.Entity.{GraphEntity, make_entity}
use domain_specific_paper_ha.Graph.Union.{id_leb}
use domain_specific_paper_ha.Graph.Merge.{
  same_identity, Group, grouped_with, grouped, entity_id_of, merged_fields, merge_group,
  merge_graph_entities,
}
use domain_specific_paper_ha.Graph.Canonical.{make_entity-IsEntity}

abbrev group_id : Group → Uuid
group_id g = g.entity_id

grouped_with-member :
    (k : Uuid) (v : GraphEntity) (groups : List Group)
    → member k (map group_id (grouped_with v groups))
      ≡ (text_eq k v.id || member k (map group_id groups))
unfolding grouped_with member
grouped_with-member k v [] = refl
grouped_with-member k v (g ∷ groups) = elim (Bool-cases (text_eq v.id g.entity_id)) [
  | inl same ↦ rw same (ground (arith, (text_eq_iff v.id g.entity_id).0 same))
  | inr other ↦ rw other (ground (arith, grouped_with-member k v groups))
]

grouped_with-distinct :
    (v : GraphEntity) (groups : List Group)
    → distinct (map group_id groups) ≡ true
    → distinct (map group_id (grouped_with v groups)) ≡ true
unfolding grouped_with distinct member
grouped_with-distinct v [] d = refl
grouped_with-distinct v (g ∷ groups) d = elim (Bool-cases (text_eq v.id g.entity_id)) [
  | inl same ↦ rw same d
  | inr other ↦ rw other (
      ground (
        arith,
        grouped_with-distinct v groups,
        grouped_with-member g.entity_id v groups,
        text_eq_iff v.id g.entity_id,
        text_eq_iff g.entity_id v.id,
      ))
]

grouped-distinct :
    (vs : List GraphEntity) (groups : List Group)
    → distinct (map group_id groups) ≡ true
    → distinct (map group_id (grouped vs groups)) ≡ true
unfolding grouped
grouped-distinct [] groups d = d
grouped-distinct (v ∷ vs) groups d =
    grouped-distinct vs (grouped_with v groups) (grouped_with-distinct v groups d)

grouped-member :
    (k : Uuid) (vs : List GraphEntity) (groups : List Group)
    → member k (map group_id (grouped vs groups))
      ≡ (member k (map entity_id_of vs) || member k (map group_id groups))
unfolding grouped member entity_id_of
grouped-member k [] groups = refl
grouped-member k (v ∷ vs) groups =
    grouped-member k vs (grouped_with v groups) ∙ ground (arith, grouped_with-member k v groups)

module _ (nfkc casefold : Text → Text) (uuid5 : Uuid → Text → Uuid) where
  merge_group-id :
      (g : Group) (made : GraphEntity)
      → merge_group nfkc casefold uuid5 g ≡ ok made
      → entity_id_of made ≡ group_id g
  unfolding merge_group merged_fields entity_id_of
  merge_group-id g made h =
      let (pass, rest) =
        validated->>= g
          ((
            any (λ item. not (same_identity item g.first)) g.others,
            domain_invariant "conflicting graph entities share a stable ID",
          )
            ∷ [])
          (λ checked. make_entity nfkc casefold uuid5 (merged_fields nfkc casefold checked)) made
          h in
      (make_entity-IsEntity nfkc casefold uuid5 (merged_fields nfkc casefold g) made rest).0

  merged-ids :
      (groups : List Group) (made : List GraphEntity)
      → each_result (merge_group nfkc casefold uuid5) groups ≡ ok made
      → map entity_id_of made ≡ map group_id groups
  merged-ids [] made h = ap (map entity_id_of) (sym (ok-injective h))
  merged-ids (g ∷ groups) made h =
      after_step (merge_group nfkc casefold uuid5 g) _ made h (λ e first rest.
        after_step (each_result (merge_group nfkc casefold uuid5) groups) _ made rest
          (λ es more last.
            ap (map entity_id_of) (sym (ok-injective last))
            ∙ ap₂ ◌∷◌ (merge_group-id g e first) (merged-ids groups es more)))

  -- The identifiers that were given, each once.
  pub record IsMerged (given made : List GraphEntity) : Type 0 where
    pub apart : distinct (map entity_id_of made) ≡ true
    pub same_ids : (k : Uuid) → member k (map entity_id_of made) ≡ member k (map entity_id_of given)

  pub merge_graph_entities-IsMerged :
      (given made : List GraphEntity)
      → merge_graph_entities nfkc casefold uuid5 given ≡ ok made
      → IsMerged given made
  unfolding merge_graph_entities distinct member
  merge_graph_entities-IsMerged given made h =
      after_step (each_result (merge_group nfkc casefold uuid5) (grouped given [])) _ made h
        (λ merged each last.
          let ids = merged-ids (grouped given []) merged each in
          let same : sorted (id_leb entity_id_of) merged ≡ made = ok-injective last in
          let p = map-Perm entity_id_of (sorted-Permᴰ (id_leb entity_id_of) merged) in
          record {
            apart =
                ap (λ m. distinct (map entity_id_of m)) (sym same)
                ∙ distinct-Perm p
                ∙ ap distinct ids
                ∙ grouped-distinct given [] refl;
            same_ids = λ k.
                ap (λ m. member k (map entity_id_of m)) (sym same)
                ∙ member-Perm k p
                ∙ ap (member k) ids
                ∙ grouped-member k given []
                ∙ ground arith;
          })
