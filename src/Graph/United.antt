-- ===== src/Graph/United.antt =====
-- Records collected by their identifier are a set: what is made of them depends on nothing else.
use mathlib.Core.Path.{subst}
use mathlib.Core.List.{Memᴰ}
use mathlib.Core.List.Memᴰ
use mathlib.Core.List.Permᴰ
use domain_specific_paper_ha.Prelude.{
  ◌≡◌, ◌≢◌, refl, sym, ap, ◌∙◌, ◌↔◌, ◌⊎◌, inl, inr, true, List, [], ◌∷◌, map,
}
use domain_specific_paper_ha.Prelude.Text.{
  Uuid, text_leb-total, text_leb-transitive, text_leb-antisym,
}
use domain_specific_paper_ha.Prelude.Keys.{distinct}
use domain_specific_paper_ha.Prelude.Sort.{sorted, IsOrdered, sorted-IsOrdered}
use domain_specific_paper_ha.Prelude.Reorder.{
  IsOrder, IsTold, IsTie, sorted-Perm, map-Perm, distinct-Perm, EachPair-map, distinct-IsTold,
}
use domain_specific_paper_ha.Prelude.Members.{Memᴰ-Perm, sorted-Permᴰ, HasSame, HasSame-Perm}
use domain_specific_paper_ha.Result.{Error, Result, ok, err, ok-injective}
use domain_specific_paper_ha.Graph.Union.{put, collect, id_leb, deduplicate_identified}
use domain_specific_paper_ha.Graph.Dictionary.{
  compared-cases, get-cases, put-distinct, put-Memᴰ, Memᴰ-put_new, Memᴰ-put_old, IsAlone,
  IsAlone-absent, IsAlone-found,
}

module _ {A : Type 0} (id_of : A → Uuid) where
  -- A value of the rest of the loop or of the dictionary.
  abbrev pub IsAmong : List A → List A → A → Type 0
  IsAmong values by_id x = Memᴰ x values ⊎ Memᴰ x by_id

  -- The dictionary that the loop ends with.
  record IsCollected (values by_id made : List A) : Type 0 where
    pub apart : distinct (map id_of made) ≡ true
    pub same : (x : A) → Memᴰ x made ↔ IsAmong values by_id x

  -- Two different values with one identifier.
  pub record IsConflict (values by_id : List A) : Type 0 where
    pub one : A
    pub other : A
    pub one_among : IsAmong values by_id one
    pub other_among : IsAmong values by_id other
    pub ids : id_of one ≡ id_of other
    pub differ : one ≢ other

  IsAmong-put :
      (v : A) (values by_id : List A) (x : A)
      → IsAlone id_of v by_id
      → IsAmong values (put id_of v by_id) x ↔ IsAmong (v ∷ values) by_id x
  IsAmong-put v values by_id x alone = (
    λ m. elim m [
      | inl later ↦ inl (Memᴰ.tail later)
      | inr known ↦ elim (put-Memᴰ id_of x v by_id known) [
        | inl first ↦ inl (Memᴰ.head first)
        | inr old ↦ inr old
      ]
    ],
    λ m. elim m [
      | inl given ↦ elim (Memᴰ.cases_cons given) [
        | inl first ↦ inr (Memᴰ-put_new id_of x v by_id first)
        | inr later ↦ inl later
      ]
      | inr old ↦ inr (Memᴰ-put_old id_of x v by_id alone old)
    ],
  )

  module _ (same : Discrete A) (conflict : Error) where
    abbrev IsOutcome : List A → List A → Result (List A) → Type 0
    IsOutcome values by_id r =
        ((made : List A) × (r ≡ ok made) × IsCollected values by_id made)
        ⊎ ((r ≡ err conflict) × IsConflict values by_id)

    IsOutcome-put :
        (v : A) (values by_id : List A) (r : Result (List A))
        → IsAlone id_of v by_id
        → IsOutcome values (put id_of v by_id) r
        → IsOutcome (v ∷ values) by_id r
    IsOutcome-put v values by_id r alone h = elim h [
      | inl (made, e, c) ↦ inl (
        made,
        e,
        record {
          apart = c.apart;
          same = λ x. (
            λ m. (IsAmong-put v values by_id x alone).0 ((c.same x).0 m),
            λ m. (c.same x).1 ((IsAmong-put v values by_id x alone).1 m),
          );
        },
      )
      | inr (e, c) ↦ inr (
        e,
        record {
          one = c.one;
          other = c.other;
          one_among = (IsAmong-put v values by_id c.one alone).0 c.one_among;
          other_among = (IsAmong-put v values by_id c.other alone).0 c.other_among;
          ids = c.ids;
          differ = c.differ;
        },
      )
    ]

    collect-cases :
        (values by_id : List A)
        → distinct (map id_of by_id) ≡ true
        → IsOutcome values by_id (collect id_of same conflict values by_id)
    unfolding collect
    collect-cases [] by_id d = inl (
      by_id,
      refl,
      record {
        apart = d;
        same =
            λ x. (λ m. inr m, λ m. elim m [ inl none_left ↦ elim none_left [ ] | inr old ↦ old ]);
      },
    )
    collect-cases (v ∷ values) by_id d =
        let rest = collect-cases values (put id_of v by_id) (put-distinct id_of v by_id d) in
        elim (get-cases id_of by_id (id_of v)) [
          | inl (e, absent) ↦
              let step : collect id_of same conflict (v ∷ values) by_id
                  ≡ collect id_of same conflict values (put id_of v by_id) =
                rw (collect, e) refl in
              subst (IsOutcome (v ∷ values) by_id) (sym step)
                (IsOutcome-put v values by_id _ (IsAlone-absent id_of v by_id absent) rest)
          | inr (found, e, m, k) ↦ elim (compared-cases (same found v)) [
            | inl (equal, f) ↦
                let step : collect id_of same conflict (v ∷ values) by_id
                    ≡ collect id_of same conflict values (put id_of v by_id) =
                  rw (collect, e, equal) refl in
                subst (IsOutcome (v ∷ values) by_id) (sym step) (
                  IsOutcome-put v values by_id _
                    (IsAlone-found id_of v by_id d (Memᴰ.cast (sym f) m)) rest)
            | inr (unequal, n) ↦
                let step : collect id_of same conflict (v ∷ values) by_id ≡ err conflict =
                  rw (collect, e, unequal) refl in
                subst (IsOutcome (v ∷ values) by_id) (sym step) (
                  inr (
                    refl,
                    record {
                      one = found;
                      other = v;
                      one_among = inr m;
                      other_among = inl (Memᴰ.head refl);
                      ids = sym k;
                      differ = n;
                    },
                  ))
          ]
        ]

    id_leb-IsOrder : IsOrder (id_leb id_of)
    unfolding id_leb
    id_leb-IsOrder = record {
      total = λ x y. text_leb-total (id_of x) (id_of y);
      transitive = λ x y z. text_leb-transitive (id_of x) (id_of y) (id_of z);
    }

    -- Each record once, ordered by the identifiers, which differ.
    pub record IsUnion (values made : List A) : Type 0 where
      pub apart : distinct (map id_of made) ≡ true
      pub ordered : IsOrdered (id_leb id_of) made
      pub same_records : HasSame made values

    -- Records are united, each once, in the order of their identifiers, or they are refused because
    -- two different ones have one identifier.
    pub deduplicate_identified-cases :
        (values : List A)
        → ((made : List A) × (deduplicate_identified id_of same conflict values ≡ ok made)
            × IsUnion values made)
          ⊎ ((deduplicate_identified id_of same conflict values ≡ err conflict)
              × IsConflict values [])
    unfolding deduplicate_identified distinct
    deduplicate_identified-cases values = elim (collect-cases values [] refl) [
      | inl (by_id, e, c) ↦
          let p = sorted-Permᴰ (id_leb id_of) by_id in
          inl (
            sorted (id_leb id_of) by_id,
            rw e refl,
            record {
              apart = distinct-Perm (map-Perm id_of p) ∙ c.apart;
              ordered = sorted-IsOrdered (id_leb id_of) id_leb-IsOrder.total by_id;
              same_records = λ x. (
                λ m. elim ((c.same x).0 (Memᴰ-Perm p m)) [
                  | inl given ↦ given
                  | inr none_known ↦ elim none_known [ ]
                ],
                λ m. Memᴰ-Perm (Permᴰ.symm p) ((c.same x).1 (inl m)),
              );
            },
          )
      | inr (e, c) ↦ inr (rw e refl, c)
    ]

    pub united-IsUnion :
        (values made : List A)
        → deduplicate_identified id_of same conflict values ≡ ok made
        → IsUnion values made
    united-IsUnion values made h = elim (deduplicate_identified-cases values) [
      | inl (others, e, u) ↦ subst (IsUnion values) (ok-injective (sym e ∙ h)) u
      | inr (e, c) ↦
          let clash : ◌≡◌ {A = Result (List A)} (err conflict) (ok made) = sym e ∙ h in cc
    ]

    id_leb-IsTie : (x y : A) → IsTold id_of x y → IsTie (id_leb id_of) x y
    unfolding id_leb
    id_leb-IsTie x y told h k = told (text_leb-antisym (id_of x) (id_of y) h k)

    made-equal :
        (xs ys made others : List A)
        → HasSame xs ys
        → IsCollected xs [] made
        → IsCollected ys [] others
        → sorted (id_leb id_of) made ≡ sorted (id_leb id_of) others
    made-equal xs ys made others same_values c e =
        sorted-Perm (id_leb id_of) id_leb-IsOrder
          (EachPair-map (IsTold id_of) (IsTie (id_leb id_of)) id_leb-IsTie made
            (distinct-IsTold id_of made c.apart))
          (HasSame-Perm id_of made others c.apart e.apart (λ x. (
            λ m. (e.same x).1 (elim ((c.same x).0 m) [
              | inl given ↦ inl ((same_values x).0 given)
              | inr none_known ↦ elim none_known [ ]
            ]),
            λ m. (c.same x).1 (elim ((e.same x).0 m) [
              | inl given ↦ inl ((same_values x).1 given)
              | inr none_known ↦ elim none_known [ ]
            ]),
          )))

    made_from :
        (xs ys made : List A)
        → HasSame xs ys
        → IsCollected xs [] made
        → (x : A) → IsAmong ys [] x
        → Memᴰ x made
    made_from xs ys made same_values c x m = elim m [
      | inl given ↦ (c.same x).1 (inl ((same_values x).1 given))
      | inr none_known ↦ elim none_known [ ]
    ]

    no_conflict :
        (xs ys made : List A) → HasSame xs ys → IsCollected xs [] made → IsConflict ys [] → ⊥
    no_conflict xs ys made same_values c conflicted = conflicted.differ (
        IsAlone-found id_of conflicted.other made c.apart
          (made_from xs ys made same_values c conflicted.other conflicted.other_among)
          conflicted.one (made_from xs ys made same_values c conflicted.one conflicted.one_among)
          conflicted.ids)

    -- Lists of the same records give the same result, or are refused with the same error, however
    -- the records are ordered and repeated.
    pub deduplicate_identified-HasSame :
        (xs ys : List A)
        → HasSame xs ys
        → deduplicate_identified id_of same conflict xs
          ≡ deduplicate_identified id_of same conflict ys
    unfolding deduplicate_identified distinct
    deduplicate_identified-HasSame xs ys same_values = elim (collect-cases xs [] refl) [
      | inl (made, e, c) ↦ elim (collect-cases ys [] refl) [
        | inl (others, f, k) ↦ rw (e, f) (ap ok (made-equal xs ys made others same_values c k))
        | inr (f, k) ↦ absurd (no_conflict xs ys made same_values c k)
      ]
      | inr (e, c) ↦ elim (collect-cases ys [] refl) [
        | inl (others, f, k) ↦
            absurd (no_conflict ys xs others (λ x. ((same_values x).1, (same_values x).0)) k c)
        | inr (f, k) ↦ rw (e, f) refl
      ]
    ]
