-- ===== src/Graph/Published.antt =====
-- What the salting of a bundle keeps, and what a merge of bundles holds.
use mathlib.Core.Path.{subst}
use mathlib.Core.List.{Memᴰ}
use mathlib.Core.List.Memᴰ
use domain_specific_paper_ha.Prelude.{◌≡◌, refl, ◌↔◌, ◌⊎◌, inl, inr, List, [], ◌∷◌, ◌++◌}
use domain_specific_paper_ha.Prelude.Text.{Text, Uuid}
use domain_specific_paper_ha.Prelude.Members.{HasSame}
use domain_specific_paper_ha.Result.{ok, validated->>=}
use domain_specific_paper_ha.Lineage.Edge.{GraphEdge}
use domain_specific_paper_ha.Graph.Record.{GraphEntityMention}
use domain_specific_paper_ha.Graph.Merge.{make_references}
use domain_specific_paper_ha.Graph.Bundle.{KnowledgeGraphBundle}
use domain_specific_paper_ha.Graph.Closed.{IsClosed, make_bundle-IsClosed}
use domain_specific_paper_ha.Graph.Publish.{
  topic_checks, all_of, all_references, all_records, merge_knowledge_graph_bundles,
}

-- A record of one of the bundles.
abbrev pub IsOfBundle {ℓ} :
    {A : Type ℓ} → (KnowledgeGraphBundle → List A) → List KnowledgeGraphBundle → A → Type ℓ
IsOfBundle field bundles x = (b : KnowledgeGraphBundle) × Memᴰ b bundles × Memᴰ x (field b)

Memᴰ-append {ℓ} : {A : Type ℓ} (x : A) (xs ys : List A) → Memᴰ x (xs ++ ys) → Memᴰ x xs ⊎ Memᴰ x ys
Memᴰ-append x [] ys m = inr m
Memᴰ-append x (y ∷ xs) ys (Memᴰ.head e) = inl (Memᴰ.head e)
Memᴰ-append x (y ∷ xs) ys (Memᴰ.tail m) = elim (Memᴰ-append x xs ys m) [
  | inl here ↦ inl (Memᴰ.tail here)
  | inr there ↦ inr there
]

all_of-IsOfBundle {ℓ} :
    {A : Type ℓ} (field : KnowledgeGraphBundle → List A) (bundles : List KnowledgeGraphBundle)
    (x : A)
    → Memᴰ x (all_of field bundles)
    → IsOfBundle field bundles x
all_of-IsOfBundle field [] x m = elim m [ ]
all_of-IsOfBundle field (b ∷ bundles) x m =
    elim (Memᴰ-append x (field b) (all_of field bundles) m) [
      | inl here ↦ (b, Memᴰ.head refl, here)
      | inr there ↦
          let (c, among, found) = all_of-IsOfBundle field bundles x there in
          (c, Memᴰ.tail among, found)
    ]

IsOfBundle-all_of {ℓ} :
    {A : Type ℓ} (field : KnowledgeGraphBundle → List A) (bundles : List KnowledgeGraphBundle)
    (x : A) (b : KnowledgeGraphBundle)
    → Memᴰ b bundles
    → Memᴰ x (field b)
    → Memᴰ x (all_of field bundles)
IsOfBundle-all_of field [] x b among m = elim among [ ]
IsOfBundle-all_of field (c ∷ bundles) x b (Memᴰ.head e) m =
    Memᴰ.append_left (all_of field bundles) (subst (λ d. Memᴰ x (field d)) e m)
IsOfBundle-all_of field (c ∷ bundles) x b (Memᴰ.tail among) m =
    Memᴰ.append_right (field c) (IsOfBundle-all_of field bundles x b among m)

all_of_iff {ℓ} :
    {A : Type ℓ} (field : KnowledgeGraphBundle → List A) (bundles : List KnowledgeGraphBundle)
    (made : List A)
    → HasSame made (all_of field bundles)
    → (x : A) → Memᴰ x made ↔ IsOfBundle field bundles x
all_of_iff field bundles made same x = (
  λ m. all_of-IsOfBundle field bundles x ((same x).0 m),
  λ given. (same x).1 (IsOfBundle-all_of field bundles x given.0 given.1 given.2),
)

-- A merge of bundles that is returned is closed, and its mentions and its edges are those of the
-- bundles.
pub merge_knowledge_graph_bundles-IsClosed :
    (uuid5 : Uuid → Text → Uuid) (nfkc casefold : Text → Text) (bundles : List KnowledgeGraphBundle)
    (made : KnowledgeGraphBundle)
    → merge_knowledge_graph_bundles uuid5 nfkc casefold bundles ≡ ok made
    → IsClosed nfkc casefold made
      × ((m : GraphEntityMention) → Memᴰ m made.mentions ↔ IsOfBundle (λ b. b.mentions) bundles m)
      × ((e : GraphEdge) → Memᴰ e made.edges ↔ IsOfBundle (λ b. b.edges) bundles e)
unfolding merge_knowledge_graph_bundles
merge_knowledge_graph_bundles-IsClosed uuid5 nfkc casefold [] made h = cc
merge_knowledge_graph_bundles-IsClosed uuid5 nfkc casefold (b ∷ bundles) made h =
    let (pass, rest) = validated->>= b (topic_checks b bundles) _ made h in
    let (topic, mentions, edges, ids, closed) =
      make_bundle-IsClosed nfkc casefold uuid5
        (all_records b.topic_id (b ∷ bundles) (make_references (all_references (b ∷ bundles)))) made
        rest in
    (
      closed,
      all_of_iff (λ c. c.mentions) (b ∷ bundles) made.mentions mentions,
      all_of_iff (λ c. c.edges) (b ∷ bundles) made.edges edges,
    )
