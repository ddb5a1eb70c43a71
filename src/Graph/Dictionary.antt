-- ===== src/Graph/Dictionary.antt =====
-- The dictionary of `_deduplicate_identified`: what is found in it, and what it holds afterwards.
use mathlib.Core.List.{Memᴰ}
use mathlib.Core.List.Memᴰ
use domain_specific_paper_ha.Prelude.{
  ◌≡◌, refl, sym, ap, ◌∙◌, ◌⊎◌, inl, inr, true, false, none, some, List, [], ◌∷◌, map, arith,
  Bool-cases, Each,
}
use domain_specific_paper_ha.Prelude.Text.{Uuid, text_eq, text_eq_iff}
use domain_specific_paper_ha.Prelude.Keys.{member, distinct}
use domain_specific_paper_ha.Prelude.Reorder.{IsTold, distinct-IsTold}
use domain_specific_paper_ha.Prelude.Members.{Each-Memᴰ, member-Memᴰ}
use domain_specific_paper_ha.Graph.Union.{get, put, equal_record, conflicting, compared}

pub compared-cases :
    {P : Type 0} (d : Dec P)
    → ((compared d ≡ equal_record) × P) ⊎ ((compared d ≡ conflicting) × (P → ⊥))
compared-cases (yes p) = inl (refl, p)
compared-cases (no n) = inr (refl, n)

module _ {A : Type 0} (id_of : A → Uuid) where
  -- What the dictionary holds under a key.
  pub get-cases :
      (by_id : List A) (key : Uuid)
      → ((get id_of by_id key ≡ none) × (member key (map id_of by_id) ≡ false))
        ⊎ ((found : A) × (get id_of by_id key ≡ some found)
            × Memᴰ found by_id
            × (key ≡ id_of found))
  unfolding get member
  get-cases [] key = inl (refl, refl)
  get-cases (v ∷ vs) key = elim (Bool-cases (text_eq key (id_of v))) [
    | inl same ↦ rw same (inr (v, refl, Memᴰ.head refl, (text_eq_iff key (id_of v)).0 same))
    | inr other ↦ rw other (elim (get-cases vs key) [
      | inl (e, m) ↦ inl (e, m)
      | inr (found, e, m, k) ↦ inr (found, e, Memᴰ.tail m, k)
    ])
  ]

  put-member :
      (k : Uuid) (v : A) (vs : List A)
      → member k (map id_of (put id_of v vs)) ≡ member k (id_of v ∷ map id_of vs)
  unfolding put member
  put-member k v [] = refl
  put-member k v (w ∷ ws) = elim (Bool-cases (text_eq (id_of v) (id_of w))) [
    | inl same ↦ rw same (ground (arith, (text_eq_iff (id_of v) (id_of w)).0 same))
    | inr other ↦ rw other (ground (arith, put-member k v ws))
  ]

  pub put-distinct :
      (v : A) (vs : List A)
      → distinct (map id_of vs) ≡ true
      → distinct (map id_of (put id_of v vs)) ≡ true
  unfolding put distinct member
  put-distinct v [] d = refl
  put-distinct v (w ∷ ws) d = elim (Bool-cases (text_eq (id_of v) (id_of w))) [
    | inl same ↦ rw same (ground (arith, (text_eq_iff (id_of v) (id_of w)).0 same))
    | inr other ↦ rw other (
        ground (
          arith,
          put-distinct v ws,
          put-member (id_of w) v ws,
          text_eq_iff (id_of v) (id_of w),
          text_eq_iff (id_of w) (id_of v),
        ))
  ]

  -- No other value has the identifier of `v`.
  abbrev pub IsAlone : A → List A → Type 0
  IsAlone v vs = (w : A) → Memᴰ w vs → id_of w ≡ id_of v → w ≡ v

  pub put-Memᴰ : (x v : A) (vs : List A) → Memᴰ x (put id_of v vs) → (x ≡ v) ⊎ Memᴰ x vs
  unfolding put
  put-Memᴰ x v [] m = Memᴰ.cases_cons m
  put-Memᴰ x v (w ∷ ws) m = elim (Bool-cases (text_eq (id_of v) (id_of w))) [
    | inl same ↦ elim (Memᴰ.cases_cons (simp same at m)) [
      | inl first ↦ inl first
      | inr later ↦ inr (Memᴰ.tail later)
    ]
    | inr other ↦ elim (Memᴰ.cases_cons (simp other at m)) [
      | inl first ↦ inr (Memᴰ.head first)
      | inr later ↦ elim (put-Memᴰ x v ws later) [
        | inl here ↦ inl here
        | inr there ↦ inr (Memᴰ.tail there)
      ]
    ]
  ]

  pub Memᴰ-put_new : (x v : A) (vs : List A) → x ≡ v → Memᴰ x (put id_of v vs)
  unfolding put
  Memᴰ-put_new x v [] e = Memᴰ.head e
  Memᴰ-put_new x v (w ∷ ws) e = elim (Bool-cases (text_eq (id_of v) (id_of w))) [
    | inl same ↦ rw same (Memᴰ.head e)
    | inr other ↦ rw other (Memᴰ.tail (Memᴰ-put_new x v ws e))
  ]

  pub Memᴰ-put_old : (x v : A) (vs : List A) → IsAlone v vs → Memᴰ x vs → Memᴰ x (put id_of v vs)
  unfolding put
  Memᴰ-put_old x v [] alone m = elim m [ ]
  Memᴰ-put_old x v (w ∷ ws) alone m = elim (Bool-cases (text_eq (id_of v) (id_of w))) [
    | inl same ↦ rw same (elim (Memᴰ.cases_cons m) [
      | inl first ↦
          Memᴰ.head
            (first ∙ alone w (Memᴰ.head refl) (sym ((text_eq_iff (id_of v) (id_of w)).0 same)))
      | inr later ↦ Memᴰ.tail later
    ])
    | inr other ↦ rw other (elim (Memᴰ.cases_cons m) [
      | inl first ↦ Memᴰ.head first
      | inr later ↦ Memᴰ.tail (Memᴰ-put_old x v ws (λ u n. alone u (Memᴰ.tail n)) later)
    ])
  ]

  pub IsAlone-absent :
      (v : A) (by_id : List A) → member (id_of v) (map id_of by_id) ≡ false → IsAlone v by_id
  IsAlone-absent v by_id absent w m e =
      let known = member-Memᴰ id_of w by_id m in
      ground (arith, ap (λ k. member k (map id_of by_id)) e)

  pub IsAlone-found :
      (v : A) (by_id : List A) → distinct (map id_of by_id) ≡ true → Memᴰ v by_id → IsAlone v by_id
  IsAlone-found v by_id d found w m =
      let told =
        Each-Memᴰ (λ x. Each (IsTold id_of x) by_id) by_id w (distinct-IsTold id_of by_id d) m in
      Each-Memᴰ (IsTold id_of w) by_id v told found
