-- ===== src/Trends/Counted.antt =====
-- domain/knowledge.py: the sets of papers of a trend window, in terms of the records and mentions.
use mathlib.Core.List.{Memᴰ}
use mathlib.Core.List.Memᴰ
use domain_specific_paper_ha.Prelude.{
  ℕ, ◌≤◌, ◌≡◌, refl, sym, ap, ◌∙◌, ◌↔◌, Bool, true, false, ◌&&◌, List, [], ◌∷◌, map, filter, length,
  arith, Bool-cases, inl, inr,
}
use domain_specific_paper_ha.Prelude.Text.{Text, Uuid, text_eq, text_eq_iff}
use domain_specific_paper_ha.Prelude.Keys.{member, distinct, unique}
use domain_specific_paper_ha.Prelude.Members.{Memᴰ-member, member-Memᴰ}
use domain_specific_paper_ha.Graph.Keyed.{unique-distinct, member-without}
use domain_specific_paper_ha.Graph.Entity.{is_paper}
use domain_specific_paper_ha.Trends.Calendar.{Day, in_window}
use domain_specific_paper_ha.Trends.Snapshot.{TrendPaperRecord}
use domain_specific_paper_ha.Trends.Aggregate.{
  MentionActivity, paper_ids_in, entity_papers, counts_entity,
}

-- The number of the papers that have a property.
pub record IsCount (n : ℕ) (P : Uuid → Type 0) : Type 0 where
  pub papers : List Uuid
  pub apart : distinct papers ≡ true
  pub size : length papers ≡ n
  pub listed : (k : Uuid) → (member k papers ≡ true) ↔ P k

pub member-unique : (k : Text) (ks : List Text) → member k (unique ks) ≡ member k ks
unfolding unique member
member-unique k [] = refl
member-unique k (j ∷ ks) =
    ground (arith, member-without k j (unique ks), member-unique k ks, text_eq_iff k j)

Memᴰ-filter :
    {A : Type 0} (p : A → Bool) (xs : List A) (x : A)
    → Memᴰ x (filter p xs) ↔ (Memᴰ x xs × (p x ≡ true))
Memᴰ-filter p [] x = (λ m. elim m [ ], λ (m, e). elim m [ ])
Memᴰ-filter p (y ∷ ys) x =
    let ih = Memᴰ-filter p ys x in
    elim (Bool-cases (p y)) [
      | inl kept ↦ rw kept (
        λ m. elim (Memᴰ.cases_cons m) [
          | inl here ↦ (Memᴰ.head here, ap p here ∙ kept)
          | inr later ↦ let (n, e) = ih.0 later in (Memᴰ.tail n, e)
        ],
        λ (m, e). elim (Memᴰ.cases_cons m) [
          | inl here ↦ Memᴰ.head here
          | inr later ↦ Memᴰ.tail (ih.1 (later, e))
        ],
      )
      | inr cut ↦ rw cut (
        λ m. let (n, e) = ih.0 m in (Memᴰ.tail n, e),
        λ (m, e). elim (Memᴰ.cases_cons m) [
          | inl here ↦ let clash : true ≡ false = sym e ∙ ap p here ∙ cut in cc
          | inr later ↦ ih.1 (later, e)
        ],
      )
    ]

unique-found :
    {A : Type 0} (id_of : A → Uuid) (p : A → Bool) (xs : List A) (k : Uuid)
    → member k (unique (map id_of (filter p xs))) ≡ true
    → (x : A) × Memᴰ x xs × (p x ≡ true) × (id_of x ≡ k)
unique-found id_of p xs k h =
    let (x, m, e) = Memᴰ-member id_of k (filter p xs) (sym (member-unique k _) ∙ h) in
    let (n, kept) = (Memᴰ-filter p xs x).0 m in (x, n, kept, e)

-- The identifiers of the elements that pass a test.
unique-IsCount :
    {A : Type 0} (id_of : A → Uuid) (p : A → Bool) (xs : List A)
    → IsCount
        (length (unique (map id_of (filter p xs))))
        (λ k. (x : A) × Memᴰ x xs × (p x ≡ true) × (id_of x ≡ k))
unique-IsCount id_of p xs = record {
  papers = unique (map id_of (filter p xs));
  apart = unique-distinct (map id_of (filter p xs));
  size = refl;
  listed = λ k. (
    unique-found id_of p xs k,
    λ (x, m, kept, e).
        member-unique k _
        ∙ ap (λ j. member j (map id_of (filter p xs))) (sym e)
        ∙ member-Memᴰ id_of x (filter p xs) ((Memᴰ-filter p xs x).1 (m, kept)),
  );
}

IsCount-same :
    {P Q : Uuid → Type 0} (n : ℕ)
    → ((k : Uuid) → P k → Q k)
    → ((k : Uuid) → Q k → P k)
    → IsCount n P
    → IsCount n Q
IsCount-same n f g c = record {
  papers = c.papers;
  apart = c.apart;
  size = c.size;
  listed = λ k. (λ m. f k ((c.listed k).0 m), λ q. (c.listed k).1 (g k q));
}

-- A paper with a record in a window.
abbrev pub IsPaperOf : Day → Day → List TrendPaperRecord → Uuid → Type 0
IsPaperOf start end papers k =
    (p : TrendPaperRecord) × Memᴰ p papers
    × (p.paper_id ≡ k)
    × (start ≤ p.activity_date)
    × (p.activity_date ≤ end)

-- A paper with a mention in a window of an entity that is not a paper.
abbrev pub IsMentioned : Day → Day → List MentionActivity → Uuid → Uuid → Type 0
IsMentioned start end mentions entity_id k =
    (m : MentionActivity) × Memᴰ m mentions
    × (m.paper_id ≡ k)
    × (m.entity.id ≡ entity_id)
    × (is_paper m.entity.entity_type ≡ false)
    × (start ≤ m.activity_date)
    × (m.activity_date ≤ end)

module _ (at : Day → Bool) (start end : Day)
    (within : (day : Day) → at day ≡ in_window day start end) where
  in_bounds : (day : Day) → at day ≡ true → (start ≤ day) × (day ≤ end)
  unfolding in_window
  in_bounds day h = (ground (arith, within day, h), ground (arith, within day, h))

  at_bounds : (day : Day) → start ≤ day → day ≤ end → at day ≡ true
  unfolding in_window
  at_bounds day h k = ground (arith, within day, h, k)

  pub paper_ids_in-IsCount :
      (papers : List TrendPaperRecord)
      → IsCount (length (paper_ids_in at papers)) (IsPaperOf start end papers)
  unfolding paper_ids_in
  paper_ids_in-IsCount papers =
      IsCount-same _
        (λ k (p, m, kept, e).
          let (from, to) = in_bounds p.activity_date kept in (p, m, e, from, to))
        (λ k (p, m, e, from, to). (p, m, at_bounds p.activity_date from to, e))
        (unique-IsCount (λ p. p.paper_id) (λ p. at p.activity_date) papers)

  pub paper_ids_in-IsPaperOf :
      (papers : List TrendPaperRecord) (k : Uuid)
      → member k (paper_ids_in at papers) ≡ true
      → IsPaperOf start end papers k
  unfolding paper_ids_in
  paper_ids_in-IsPaperOf papers k h =
      let (p, m, kept, e) = unique-found (λ p. p.paper_id) (λ p. at p.activity_date) papers k h in
      let (from, to) = in_bounds p.activity_date kept in (p, m, e, from, to)

  pub entity_papers-IsCount :
      (mentions : List MentionActivity) (entity_id : Uuid)
      → IsCount
          (length (entity_papers at mentions entity_id))
          (IsMentioned start end mentions entity_id)
  unfolding entity_papers
  entity_papers-IsCount mentions entity_id =
      IsCount-same _
        (λ k (m, among, kept, e).
          let (from, to) = in_bounds m.activity_date (ground arith) in
          (
            m,
            among,
            e,
            (text_eq_iff m.entity.id entity_id).0 (ground arith),
            ground arith,
            from,
            to,
          ))
        (λ k (m, among, e, same, other, from, to). (
          m,
          among,
          ground (
            arith,
            (text_eq_iff m.entity.id entity_id).1 same,
            other,
            at_bounds m.activity_date from to,
          ),
          e,
        ))
        (unique-IsCount (λ m. m.paper_id) (λ m. counts_entity at m && text_eq m.entity.id entity_id)
          mentions)
