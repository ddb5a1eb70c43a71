-- ===== src/Trends/Aggregate.antt =====
-- domain/knowledge.py: `_aggregate_trend_window` and `aggregate_trend_snapshots`. The dictionaries of
-- dates are association lists; a set is the list of its elements, each once.
use domain_specific_paper_ha.Prelude.{
  ℕ, Bool, true, false, not, ◌&&◌, List, [], ◌∷◌, map, filter, length, if◌then◌else◌,
}
use domain_specific_paper_ha.Prelude.Int.{ltb_ℤ, eqb_ℤ}
use domain_specific_paper_ha.Prelude.Text.{Text, Uuid, text_eq, text_leb}
use domain_specific_paper_ha.Prelude.Keys.{unique}
use domain_specific_paper_ha.Result.{Result, ok, err, external_error, ◌>>=◌}
use domain_specific_paper_ha.Lineage.Edge.{GraphEdge, GraphRelationType, relation_value}
use domain_specific_paper_ha.Graph.Record.{GraphEntityMention}
use domain_specific_paper_ha.Graph.Entity.{GraphEntity, entity_value, is_paper}
use domain_specific_paper_ha.Trends.Change.{TrendChange, TrendThresholds, trend_change}
use domain_specific_paper_ha.Trends.Calendar.{Day, TrendBounds, in_window}
use domain_specific_paper_ha.Trends.Snapshot.{
  TrendEntityCount, TrendRelationCount, TrendPaperRecord, make_entity_count, is_new, is_recurring,
}

-- A mention and an edge with what the dictionaries hold for them.
pub record MentionActivity : Type 0 where
  pub entity : GraphEntity
  pub paper_id : Uuid
  pub activity_date : Day

pub record EdgeActivity : Type 0 where
  pub edge : GraphEdge
  pub paper_id : Uuid
  pub activity_date : Day

-- `dictionary[key]`
unfoldable pub value_at {ℓ} : {A : Type ℓ} → List (Uuid × A) → Uuid → Result A
value_at [] key = err (external_error "KeyError")
value_at ((k, value) ∷ items) key =
    let later = value_at items key in if text_eq key k then ok value else later

abbrev pub key_of {ℓ} : {A : Type ℓ} → Uuid × A → Uuid
key_of item = item.0

abbrev pub entities_by_id : List GraphEntity → List (Uuid × GraphEntity)
entities_by_id entities = map (λ e. (e.id, e)) entities

abbrev pub papers_by_version : List TrendPaperRecord → List (Uuid × TrendPaperRecord)
papers_by_version papers = map (λ p. (p.paper_version_id, p)) papers

unfoldable pub mention_activity :
    List TrendPaperRecord
    → List GraphEntity
    → List (Uuid × Day)
    → GraphEntityMention
    → Result MentionActivity
unfolding value_at
mention_activity papers entities dates m = do
  entity ← value_at (entities_by_id entities) m.entity_id
  found ← value_at (papers_by_version papers) m.paper_version_id
  day ← value_at dates m.id
  ok (record { entity = entity; paper_id = found.paper_id; activity_date = day })

unfoldable pub edge_activity :
    List TrendPaperRecord → List (Uuid × Day) → GraphEdge → Result EdgeActivity
unfolding value_at
edge_activity papers dates e = do
  found ← value_at (papers_by_version papers) e.source_paper_version_id
  day ← value_at dates e.id
  ok (record { edge = e; paper_id = found.paper_id; activity_date = day })

abbrev pub is_current : TrendBounds → Day → Bool
is_current b day = in_window day b.window_start b.window_end

-- What the branch `elif` takes.
abbrev pub is_preceding : TrendBounds → Day → Bool
is_preceding b day = not (is_current b day) && in_window day b.preceding_start b.preceding_end

-- The set of the papers that are active on the days that `at` accepts.
unfoldable pub paper_ids_in : (Day → Bool) → List TrendPaperRecord → List Uuid
paper_ids_in at papers = unique (map (λ p. p.paper_id) (filter (λ p. at p.activity_date) papers))

abbrev pub counts_entity : (Day → Bool) → MentionActivity → Bool
counts_entity at m = not (is_paper m.entity.entity_type) && at m.activity_date

-- `entity_papers[entity_id]`
unfoldable pub entity_papers : (Day → Bool) → List MentionActivity → Uuid → List Uuid
entity_papers at mentions entity_id = unique (
    map (λ m. m.paper_id)
      (filter (λ m. counts_entity at m && text_eq m.entity.id entity_id) mentions))

-- The entities that are counted in either window, each once.
unfoldable pub counted_entities : (Day → Bool) → List MentionActivity → List GraphEntity
counted_entities at [] = []
counted_entities at (m ∷ ms) =
    let rest = counted_entities at ms in
    if counts_entity at m
    then m.entity ∷ filter (λ e. not (text_eq e.id m.entity.id)) rest
    else rest

-- `key`, of a relation between two entities.
abbrev pub relation_key : EdgeActivity → List Text
relation_key e =
    e.edge.source_entity_id ∷ e.edge.target_entity_id ∷ relation_value e.edge.relation_type ∷ []

unfoldable pub same_key : List Text → List Text → Bool
same_key [] [] = true
same_key (s ∷ ss) (t ∷ ts) = text_eq s t && same_key ss ts
same_key _ _ = false

-- A set of keys.
unfoldable pub unique_keys : List (List Text) → List (List Text)
unfolding same_key
unique_keys [] = []
unique_keys (k ∷ ks) = k ∷ filter (λ j. not (same_key k j)) (unique_keys ks)

-- The keys of the edges that are active on the days that `at` accepts and that `which` picks.
unfoldable pub relation_keys :
    (Day → Bool) → (EdgeActivity → Bool) → List EdgeActivity → List (List Text)
unfolding unique_keys
relation_keys at which edges =
    unique_keys (map relation_key (filter (λ e. at e.activity_date && which e) edges))

abbrev pub has_type : GraphRelationType → EdgeActivity → Bool
has_type relation_type e =
    text_eq (relation_value e.edge.relation_type) (relation_value relation_type)

-- The numbers of papers of the two windows, which every change is judged by.
pub record PaperCounts : Type 0 where
  pub current : ℕ
  pub preceding : ℕ

abbrev pub change_of : PaperCounts → TrendThresholds → ℕ → ℕ → Result TrendChange
change_of n thresholds current preceding =
    trend_change current preceding n.current n.preceding thresholds

unfoldable pub entity_count_of :
    TrendBounds
    → PaperCounts
    → TrendThresholds
    → List MentionActivity
    → GraphEntity
    → Result TrendEntityCount
unfolding trend_change entity_papers make_entity_count in_window
entity_count_of b n thresholds mentions e = do
  change ←
      change_of n thresholds (length (entity_papers (is_current b) mentions e.id))
        (length (entity_papers (is_preceding b) mentions e.id))
  make_entity_count (record {
    entity_id = e.id;
    entity_type = e.entity_type;
    label = e.display_label;
    change = change;
    newly_appearing = is_new change;
    recurring = is_recurring change;
  })

unfoldable pub relation_count_of :
    TrendBounds
    → PaperCounts
    → TrendThresholds
    → List EdgeActivity
    → GraphRelationType
    → Result TrendRelationCount
unfolding trend_change relation_keys in_window
relation_count_of b n thresholds edges relation_type = do
  change ←
      change_of n thresholds (length (relation_keys (is_current b) (has_type relation_type) edges))
        (length (relation_keys (is_preceding b) (has_type relation_type) edges))
  ok (record { relation_type = relation_type; change = change })

-- An entity count with the key of its label.
abbrev pub KeyedCount : Type 0
KeyedCount = Text × TrendEntityCount

-- The order of the counts: more papers, more papers before, the type, the key and the identifier.
unfoldable pub count_leb : KeyedCount → KeyedCount → Bool
count_leb (key_a, a) (key_b, b) =
    if not (eqb_ℤ a.change.current_count b.change.current_count)
    then ltb_ℤ b.change.current_count a.change.current_count
    else if not (eqb_ℤ a.change.preceding_count b.change.preceding_count)
    then ltb_ℤ b.change.preceding_count a.change.preceding_count
    else if not (text_eq (entity_value a.entity_type) (entity_value b.entity_type))
    then text_leb (entity_value a.entity_type) (entity_value b.entity_type)
    else if not (text_eq key_a key_b)
    then text_leb key_a key_b
    else text_leb a.entity_id b.entity_id
