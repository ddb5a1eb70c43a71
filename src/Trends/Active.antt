-- ===== src/Trends/Active.antt =====
-- domain/knowledge.py: the representative papers of a trend window and what makes them active.
use mathlib.Core.Path.{subst}
use domain_specific_paper_ha.Prelude.{
  ℕ, ◌≤◌, ◌≡◌, refl, true, List, [], ◌∷◌, map, length, take, length-take, length-map, arith, Each,
  Each-take, Bool-cases, inl, inr,
}
use domain_specific_paper_ha.Prelude.Text.{Text, Uuid, text_eq}
use domain_specific_paper_ha.Prelude.Keys.{member, unique, without, subset, subset_iff}
use domain_specific_paper_ha.Prelude.Sort.{sorted, Each-sorted}
use domain_specific_paper_ha.Trends.Calendar.{TrendBounds}
use domain_specific_paper_ha.Trends.Snapshot.{TrendPaperRecord}
use domain_specific_paper_ha.Trends.Aggregate.{key_of}
use domain_specific_paper_ha.Trends.Window.{
  TrendInputs, ScoredPaper, activities, scored, scored_leb, representatives,
}
use mathlib.Core.List.{Memᴰ}
use mathlib.Core.List.Memᴰ
use domain_specific_paper_ha.Prelude.{Bool, Each-map, ◌++◌, sym, ap, ◌∙◌, filter}
use domain_specific_paper_ha.Prelude.Members.{Memᴰ-member}
use domain_specific_paper_ha.Trends.Calendar.{Day, in_window}
use domain_specific_paper_ha.Trends.Aggregate.{
  MentionActivity, EdgeActivity, is_current, paper_ids_in,
}
use domain_specific_paper_ha.Trends.Counted.{IsPaperOf, paper_ids_in-IsPaperOf}

length-without : (k : Text) (ks : List Text) → length (without k ks) ≤ length ks
unfolding without
length-without k [] = omega arith
length-without k (j ∷ ks) = elim (Bool-cases (text_eq k j)) [
  | inl same ↦ rw same (omega (arith, length-without k ks))
  | inr other ↦ rw other (omega (arith, length-without k ks))
]

pub length-unique : (ks : List Text) → length (unique ks) ≤ length ks
unfolding unique
length-unique [] = omega arith
length-unique (k ∷ ks) = omega (arith, length-unique ks, length-without k (unique ks))

Each-without : (P : Text → Type 0) (k : Text) (ks : List Text) → Each P ks → Each P (without k ks)
unfolding without
Each-without P k [] h = tt
Each-without P k (j ∷ ks) h = elim (Bool-cases (text_eq k j)) [
  | inl same ↦ rw same (Each-without P k ks h.1)
  | inr other ↦ rw other (h.0, Each-without P k ks h.1)
]

pub Each-unique : (P : Text → Type 0) (ks : List Text) → Each P ks → Each P (unique ks)
unfolding unique
Each-unique P [] h = tt
Each-unique P (k ∷ ks) h = (h.0, Each-without P k (unique ks) (Each-unique P ks h.1))

Each-member : (ks all : List Text) → subset ks all ≡ true → Each (λ k. member k all ≡ true) ks
unfolding subset
Each-member [] all h = tt
Each-member (k ∷ ks) all h = (ground arith, Each-member ks all (ground arith))

Each-of_map {ℓ κ μ} :
    {A : Type ℓ} {B : Type κ} (P : B → Type μ) (f : A → B) (xs : List A)
    → Each (λ x. P (f x)) xs
    → Each P (map f xs)
Each-of_map P f [] h = tt
Each-of_map P f (x ∷ xs) h = (h.0, Each-of_map P f xs h.1)

-- A paper with a record, a mention or an edge in a window.
pub data IsActiveIn (start end : Day) (i : TrendInputs) (k : Uuid) : Type 0 where
  by_record : IsPaperOf start end i.papers k → IsActiveIn start end i k
  by_mention :
      (m : MentionActivity)
      → Memᴰ m i.mentions
      → m.paper_id ≡ k
      → start ≤ m.activity_date
      → m.activity_date ≤ end
      → IsActiveIn start end i k
  by_edge :
      (e : EdgeActivity)
      → Memᴰ e i.edges
      → e.paper_id ≡ k
      → start ≤ e.activity_date
      → e.activity_date ≤ end
      → IsActiveIn start end i k

-- A pair that is made of an element that passes a test.
kept_pair :
    {A : Type 0} (f : A → Uuid × Day) (p : A → Bool) (xs : List A) (y : Uuid × Day)
    → Memᴰ y (map f (filter p xs))
    → (x : A) × Memᴰ x xs × (p x ≡ true) × (y ≡ f x)
kept_pair f p [] y m = elim m [ ]
kept_pair f p (x ∷ xs) y m = elim (Bool-cases (p x)) [
  | inl kept ↦ elim (Memᴰ.cases_cons (simp kept at m)) [
    | inl here ↦ (x, Memᴰ.head refl, kept, here)
    | inr later ↦ let (z, n, pass, e) = kept_pair f p xs y later in (z, Memᴰ.tail n, pass, e)
  ]
  | inr cut ↦ let (z, n, pass, e) = kept_pair f p xs y (simp cut at m) in (z, Memᴰ.tail n, pass, e)
]

module _ (b : TrendBounds) (i : TrendInputs) where
  -- A paper with an activity in the window.
  abbrev IsActive : Uuid → Type 0
  IsActive paper_id = member paper_id (map key_of (activities b i)) ≡ true

  activity-IsActiveIn :
      (y : Uuid × Day) (k : Uuid)
      → Memᴰ y (activities b i)
      → key_of y ≡ k
      → IsActiveIn b.window_start b.window_end i k
  unfolding activities in_window
  activity-IsActiveIn y k m e =
      let in_papers =
        λ (p : TrendPaperRecord). member p.paper_id (paper_ids_in (is_current b) i.papers) in
      let said = λ (x : MentionActivity). is_current b x.activity_date in
      let drawn = λ (x : EdgeActivity). is_current b x.activity_date in
      let of_record : TrendPaperRecord → Uuid × Day = λ p. (p.paper_id, p.activity_date) in
      let of_said : MentionActivity → Uuid × Day = λ x. (x.paper_id, x.activity_date) in
      let of_drawn : EdgeActivity → Uuid × Day = λ x. (x.paper_id, x.activity_date) in
      let mentions = map of_said (filter said i.mentions) in
      let edges = map of_drawn (filter drawn i.edges) in
      elim (Memᴰ.append_cases (map of_record (filter in_papers i.papers)) {t = mentions ++ edges}
        m) [
          | inl of_paper ↦
              let (p, among, kept, same) = kept_pair of_record in_papers i.papers y of_paper in
              let active =
                paper_ids_in-IsPaperOf (is_current b) b.window_start b.window_end (λ day. refl)
                  i.papers p.paper_id kept in
              by_record (
                subst (IsPaperOf b.window_start b.window_end i.papers) (sym (ap key_of same) ∙ e)
                  active)
          | inr other ↦ elim (Memᴰ.append_cases mentions {t = edges} other) [
            | inl of_mention ↦
                let (x, among, kept, same) = kept_pair of_said said i.mentions y of_mention in
                by_mention x among (sym (ap key_of same) ∙ e) (ground (arith, kept))
                  (ground (arith, kept))
            | inr of_edge ↦
                let (x, among, kept, same) = kept_pair of_drawn drawn i.edges y of_edge in
                by_edge x among (sym (ap key_of same) ∙ e) (ground (arith, kept))
                  (ground (arith, kept))
          ]
        ]

  IsActive-IsActiveIn : (k : Uuid) → IsActive k → IsActiveIn b.window_start b.window_end i k
  IsActive-IsActiveIn k h =
      let (y, m, e) = Memᴰ-member key_of k (activities b i) h in activity-IsActiveIn y k m e

  ranked_papers : List ScoredPaper
  ranked_papers = sorted scored_leb (map (scored b i) (unique (map key_of (activities b i))))

  pub representatives-few : (limit : ℕ) → length (representatives b i limit) ≤ limit
  unfolding representatives ranked_papers
  representatives-few limit = omega (
    arith,
    length-map (λ s. s.paper_id) (take limit ranked_papers),
    length-take limit ranked_papers,
  )

  representatives-IsActive : (limit : ℕ) → Each IsActive (representatives b i limit)
  unfolding representatives scored
  representatives-IsActive limit =
      let keys = map key_of (activities b i) in
      let active =
        Each-unique IsActive keys (Each-member keys keys ((subset_iff keys keys).1 (λ k m. m))) in
      let papers = Each-of_map (λ s. IsActive s.paper_id) (scored b i) (unique keys) active in
      Each-of_map IsActive (λ s. s.paper_id) _
        (Each-take (λ s. IsActive s.paper_id) limit _
          (Each-sorted scored_leb (λ s. IsActive s.paper_id) (map (scored b i) (unique keys))
            papers))

  pub representatives-IsActiveIn :
      (limit : ℕ) → Each (IsActiveIn b.window_start b.window_end i) (representatives b i limit)
  representatives-IsActiveIn limit =
      Each-map IsActive (IsActiveIn b.window_start b.window_end i) IsActive-IsActiveIn
        (representatives b i limit) (representatives-IsActive limit)
