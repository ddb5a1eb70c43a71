-- ===== src/Trends/Found.antt =====
-- The guards of `aggregate_trend_snapshots` ensure that every lookup succeeds.
use domain_specific_paper_ha.Prelude.{
  ◌≡◌, refl, sym, ap, Bool, true, false, not, List, [], ◌∷◌, map, any, filter, length, arith, Each,
  Each-map, Each-filter, Bool-cases, inl, inr,
}
use domain_specific_paper_ha.Prelude.Text.{Uuid, text_eq}
use domain_specific_paper_ha.Prelude.Keys.{member, subset}
use domain_specific_paper_ha.Result.{Result, ok, AllPass, each_result}
use domain_specific_paper_ha.Lineage.Edge.{GraphEdge, is_rejected, edge_ids}
use domain_specific_paper_ha.Graph.Record.{GraphEntityMention}
use domain_specific_paper_ha.Trends.Aggregate.{
  value_at, key_of, entities_by_id, papers_by_version, mention_activity, edge_activity,
}
use domain_specific_paper_ha.Trends.Window.{TrendRequest, TrendInputs}
use domain_specific_paper_ha.Trends.Guarded.{
  TrendRecords, version_ids, entity_ids, kept_mentions, kept_edges, record_guards, reference_guards,
  inputs_of,
}

-- A call returns.
abbrev pub Returns {ℓ} : {A : Type ℓ} → Result A → Type ℓ
Returns r = (value : _) × (r ≡ ok value)

value_at-Returns {ℓ} :
    {A : Type ℓ} (items : List (Uuid × A)) (key : Uuid)
    → member key (map key_of items) ≡ true
    → Returns (value_at items key)
unfolding value_at member
value_at-Returns [] key h = cc
value_at-Returns ((k, v) ∷ items) key h = elim (Bool-cases (text_eq key k)) [
  | inl same ↦ rw same (v, refl)
  | inr other ↦ rw other (value_at-Returns items key (ground arith))
]

map-pairs {ℓ} :
    {A : Type ℓ} (key : A → Uuid) (xs : List A) → map key_of (map (λ x. (key x, x)) xs) ≡ map key xs
map-pairs key [] = refl
map-pairs key (x ∷ xs) = ap (◌∷◌ (key x)) (map-pairs key xs)

each_result-Returns {ℓ κ} :
    {A : Type ℓ} {B : Type κ} (f : A → Result B) (xs : List A)
    → Each (λ x. Returns (f x)) xs
    → (ys : List B) × (each_result f xs ≡ ok ys) × (length ys ≡ length xs)
each_result-Returns f [] h = ([], refl, refl)
each_result-Returns f (x ∷ xs) h =
    let (y, e) = h.0 in
    let (ys, es, n) = each_result-Returns f xs h.1 in (y ∷ ys, rw (e, es) refl, omega (arith, n))

any-false {ℓ} :
    {A : Type ℓ} (p : A → Bool) (xs : List A)
    → any (λ x. not (p x)) xs ≡ false
    → Each (λ x. p x ≡ true) xs
any-false p [] h = tt
any-false p (x ∷ xs) h = (ground arith, any-false p xs (ground arith))

subset-Each {ℓ} :
    {A : Type ℓ} (key : A → Uuid) (xs : List A) (keys : List Uuid)
    → subset (map key xs) keys ≡ true
    → Each (λ x. member (key x) keys ≡ true) xs
unfolding subset
subset-Each key [] keys h = tt
subset-Each key (x ∷ xs) keys h = (ground arith, subset-Each key xs keys (ground arith))

edge_ids-map : (es : List GraphEdge) → edge_ids es ≡ map (λ e. e.id) es
edge_ids-map [] = refl
edge_ids-map (e ∷ es) = ap (◌∷◌ e.id) (edge_ids-map es)

Each-zip {ℓ κ μ ν} :
    {A : Type ℓ} (P : A → Type κ) (Q : A → Type μ) (R : A → Type ν)
    → ((x : A) → P x → Q x → R x)
    → (xs : List A) → Each P xs
    → Each Q xs
    → Each R xs
Each-zip P Q R f [] h k = tt
Each-zip P Q R f (x ∷ xs) h k = (f x h.0 k.0, Each-zip P Q R f xs h.1 k.1)

mention_activity-Returns :
    (t : TrendRecords) (m : GraphEntityMention)
    → member m.entity_id (entity_ids t.entities) ≡ true
    → member m.paper_version_id (version_ids t.papers) ≡ true
    → member m.id (map key_of t.mention_activity_dates) ≡ true
    → Returns (mention_activity t.papers t.entities t.mention_activity_dates m)
unfolding mention_activity
mention_activity-Returns t m known version dated =
    let (entity, e) =
      value_at-Returns (entities_by_id t.entities) m.entity_id
        (rw (map-pairs (λ x. x.id) t.entities) known) in
    let (found, f) =
      value_at-Returns (papers_by_version t.papers) m.paper_version_id
        (rw (map-pairs (λ x. x.paper_version_id) t.papers) version) in
    let (day, d) = value_at-Returns t.mention_activity_dates m.id dated in
    (record { entity = entity; paper_id = found.paper_id; activity_date = day }, rw (e, f, d) refl)

edge_activity-Returns :
    (t : TrendRecords) (e : GraphEdge)
    → member e.source_paper_version_id (version_ids t.papers) ≡ true
    → member e.id (map key_of t.edge_activity_dates) ≡ true
    → Returns (edge_activity t.papers t.edge_activity_dates e)
unfolding edge_activity
edge_activity-Returns t e version dated =
    let (found, f) =
      value_at-Returns (papers_by_version t.papers) e.source_paper_version_id
        (rw (map-pairs (λ x. x.paper_version_id) t.papers) version) in
    let (day, d) = value_at-Returns t.edge_activity_dates e.id dated in
    (record { edge = e; paper_id = found.paper_id; activity_date = day }, rw (f, d) refl)

-- What is said of all mentions or edges holds of those that are kept.
Each-kept {ℓ κ} :
    {A : Type ℓ} (P : A → Type κ) (p : A → Bool) (xs : List A) → Each P xs → Each P (filter p xs)
Each-kept P p xs h =
    Each-map (λ x. P x × (p x ≡ true)) P (λ x k. k.0) (filter p xs) (Each-filter P p xs h)

abbrev IsDated : TrendRecords → GraphEntityMention → Type 0
IsDated t m = member m.id (map key_of t.mention_activity_dates) ≡ true

abbrev IsVersioned : TrendRecords → Uuid → Type 0
IsVersioned t version = member version (version_ids t.papers) ≡ true

mentions-Return :
    (r : TrendRequest) (t : TrendRecords)
    → AllPass (record_guards r t)
    → AllPass (reference_guards t)
    → Each
        (λ m. Returns (mention_activity t.papers t.entities t.mention_activity_dates m))
        (kept_mentions t)
unfolding record_guards reference_guards
mentions-Return r t records references =
    let known =
      any-false (λ m. member m.entity_id (entity_ids t.entities)) (kept_mentions t) references.0 in
    let version =
      any-false (λ m. member m.paper_version_id (version_ids t.papers)) (kept_mentions t)
        references.1.1.0 in
    let dated =
      Each-kept (IsDated t) (λ m. not (is_rejected m.verification_status)) t.mentions
        (subset-Each (λ m. m.id) t.mentions (map key_of t.mention_activity_dates)
          (ground (arith, records.1.1.1.1.0))) in
    let both =
      Each-zip (λ m. member m.entity_id (entity_ids t.entities) ≡ true)
        (λ m. IsVersioned t m.paper_version_id)
        (λ m.
          (member m.entity_id (entity_ids t.entities) ≡ true) × IsVersioned t m.paper_version_id)
        (λ m h k. (h, k)) (kept_mentions t) known version in
    Each-zip
      (λ m. (member m.entity_id (entity_ids t.entities) ≡ true) × IsVersioned t m.paper_version_id)
      (IsDated t) (λ m. Returns (mention_activity t.papers t.entities t.mention_activity_dates m))
      (λ m h d. mention_activity-Returns t m h.0 h.1 d) (kept_mentions t) both dated

edges-Return :
    (r : TrendRequest) (t : TrendRecords)
    → AllPass (record_guards r t)
    → AllPass (reference_guards t)
    → Each (λ e. Returns (edge_activity t.papers t.edge_activity_dates e)) (kept_edges t)
unfolding record_guards reference_guards
edges-Return r t records references =
    let version =
      any-false (λ e. member e.source_paper_version_id (version_ids t.papers)) (kept_edges t)
        references.1.1.1.0 in
    let keys = map key_of t.edge_activity_dates in
    let all_dated : subset (map (λ e. e.id) t.edges) keys ≡ true =
      rw (sym (edge_ids-map t.edges)) (ground (arith, records.1.1.1.1.1.1.0)) in
    let dated =
      Each-kept (λ e. member e.id keys ≡ true) (λ e. not (is_rejected e.verification_status))
        t.edges (subset-Each (λ e. e.id) t.edges keys all_dated) in
    Each-zip (λ e. IsVersioned t e.source_paper_version_id) (λ e. member e.id keys ≡ true)
      (λ e. Returns (edge_activity t.papers t.edge_activity_dates e))
      (λ e v d. edge_activity-Returns t e v d) (kept_edges t) version dated

-- Records that the guards accept are all found: no lookup fails, and there is one activity for each
-- mention and for each edge that is not rejected.
pub inputs_of-Returns :
    (r : TrendRequest) (t : TrendRecords)
    → AllPass (record_guards r t)
    → AllPass (reference_guards t)
    → (i : TrendInputs) × (inputs_of t ≡ ok i)
      × (i.papers ≡ t.papers)
      × (length i.mentions ≡ length (kept_mentions t))
      × (length i.edges ≡ length (kept_edges t))
unfolding inputs_of record_guards reference_guards
inputs_of-Returns r t records references =
    let (mentions, e, n) =
      each_result-Returns (mention_activity t.papers t.entities t.mention_activity_dates)
        (kept_mentions t) (mentions-Return r t records references) in
    let (edges, f, k) =
      each_result-Returns (edge_activity t.papers t.edge_activity_dates) (kept_edges t)
        (edges-Return r t records references) in
    (record { papers = t.papers; mentions = mentions; edges = edges }, rw (e, f) refl, refl, n, k)
