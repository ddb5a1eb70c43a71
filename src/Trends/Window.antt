-- ===== src/Trends/Window.antt =====
-- domain/knowledge.py: the counts and the representative papers of one trend window, the snapshot of
-- it, and `aggregate_trend_snapshots`.
use domain_specific_paper_ha.Prelude.{
  ℕ, Bool, not, ◌&&◌, ◌||◌, none, List, [], ◌∷◌, ◌++◌, map, filter, length, take, ltb, ◌==◌,
  if◌then◌else◌,
}
use domain_specific_paper_ha.Prelude.Int.{pos}
use domain_specific_paper_ha.Prelude.Text.{Text, Uuid, text_eq, text_leb}
use domain_specific_paper_ha.Prelude.Keys.{member, unique}
use domain_specific_paper_ha.Prelude.Sort.{sorted}
use domain_specific_paper_ha.Result.{Result, ok, ◌>>=◌, each_result}
use domain_specific_paper_ha.Identity.Graph.{stable_trend_snapshot_id}
use domain_specific_paper_ha.Lineage.Edge.{Datetime, GraphRelationType}
use domain_specific_paper_ha.Lineage.Snapshot.{sorted_types}
use domain_specific_paper_ha.Graph.Label.{normalized_entity_key}
use domain_specific_paper_ha.Trends.Change.{
  TrendWindow, TrendThresholds, TrendChange, data_sufficiency, trend_change,
}
use domain_specific_paper_ha.Trends.Calendar.{
  Day, day_min, TrendBounds, bounds_of, in_window, iso_text,
}
use domain_specific_paper_ha.Trends.Snapshot.{
  TrendEntityCount, TrendRelationCount, TrendPaperRecord, TrendSnapshot, window_value,
  make_trend_snapshot,
}
use domain_specific_paper_ha.Trends.Aggregate.{
  MentionActivity, EdgeActivity, key_of, is_current, is_preceding, paper_ids_in, counted_entities,
  relation_keys, PaperCounts, change_of, entity_count_of, relation_count_of, KeyedCount, count_leb,
}

abbrev pub max_representative_papers : ℕ
max_representative_papers = 20

-- The arguments, without the bounds and the version.
pub record TrendInputs : Type 0 where
  pub papers : List TrendPaperRecord
  pub mentions : List MentionActivity
  pub edges : List EdgeActivity

unfoldable pub paper_counts : TrendBounds → List TrendPaperRecord → PaperCounts
unfolding paper_ids_in in_window
paper_counts b papers = record {
  current = length (paper_ids_in (is_current b) papers);
  preceding = length (paper_ids_in (λ day. in_window day b.preceding_start b.preceding_end) papers);
}

-- The types of the relations that are counted in either window.
unfoldable pub relation_types_of : TrendBounds → List EdgeActivity → List GraphRelationType
unfolding in_window sorted_types
relation_types_of b edges = sorted_types (
    map (λ e. e.edge.relation_type)
      (filter (λ e. is_current b e.activity_date || is_preceding b e.activity_date) edges))

-- What `latest_activity_by_paper` is updated with, in order.
unfoldable pub activities : TrendBounds → TrendInputs → List (Uuid × Day)
unfolding paper_ids_in in_window
activities b i =
    map (λ p. (p.paper_id, p.activity_date))
      (filter (λ p. member p.paper_id (paper_ids_in (is_current b) i.papers)) i.papers)
    ++ (map (λ m. (m.paper_id, m.activity_date))
          (filter (λ m. is_current b m.activity_date) i.mentions)
        ++ map (λ e. (e.paper_id, e.activity_date))
            (filter (λ e. is_current b e.activity_date) i.edges))

-- `latest_activity_by_paper[paper_id]`
unfoldable pub latest_activity : Day → List (Uuid × Day) → Uuid → Day
latest_activity latest [] paper_id = latest
latest_activity latest ((k, day) ∷ more) paper_id =
    latest_activity (if text_eq paper_id k && ltb latest day then day else latest) more paper_id

-- A paper with its scores: entities, relations and the latest day.
pub record ScoredPaper : Type 0 where
  pub paper_id : Uuid
  pub entity_score : ℕ
  pub relation_score : ℕ
  pub latest : Day

unfoldable pub scored : TrendBounds → TrendInputs → Uuid → ScoredPaper
unfolding latest_activity activities relation_keys in_window counted_entities
scored b i paper_id = record {
  paper_id = paper_id;
  entity_score =
      length
        (counted_entities (is_current b) (filter (λ m. text_eq m.paper_id paper_id) i.mentions));
  relation_score = length (relation_keys (is_current b) (λ e. text_eq e.paper_id paper_id) i.edges);
  latest = latest_activity day_min (activities b i) paper_id;
}

unfoldable pub scored_leb : ScoredPaper → ScoredPaper → Bool
scored_leb a b =
    if not (a.entity_score == b.entity_score)
    then ltb b.entity_score a.entity_score
    else if not (a.relation_score == b.relation_score)
    then ltb b.relation_score a.relation_score
    else if not (a.latest == b.latest)
    then ltb b.latest a.latest
    else text_leb a.paper_id b.paper_id

unfoldable pub representatives : TrendBounds → TrendInputs → ℕ → List Uuid
unfolding scored scored_leb activities
representatives b i representative_limit =
    map (λ s. s.paper_id)
      (take representative_limit
        (sorted scored_leb (map (scored b i) (unique (map key_of (activities b i))))))

-- `tuple(sorted((item.entity_id for item in entity_counts if p(item)), key=str))`
unfoldable pub flagged_ids : (TrendEntityCount → Bool) → List TrendEntityCount → List Uuid
flagged_ids p counts = sorted text_leb (map (λ c. c.entity_id) (filter p counts))

pub record TrendRequest : Type 0 where
  pub topic_id : Uuid
  pub as_of_date : Day
  pub generated_at : Datetime
  pub thresholds : TrendThresholds
  pub representative_limit : ℕ
  pub aggregation_version : Text

-- The fields of the snapshot of a window.
unfoldable pub trend_snapshot_of :
    TrendRequest
    → TrendInputs
    → TrendWindow
    → TrendBounds
    → PaperCounts
    → List TrendEntityCount
    → List TrendRelationCount
    → Uuid
    → TrendChange
    → TrendSnapshot
unfolding representatives flagged_ids data_sufficiency
trend_snapshot_of r i window b n entity_counts relation_counts id change = record {
  id = id;
  topic_id = r.topic_id;
  as_of_date = r.as_of_date;
  window = window;
  window_start = b.window_start;
  window_end = r.as_of_date;
  preceding_window_start = b.preceding_start;
  preceding_window_end = b.preceding_end;
  included_paper_count = pos n.current;
  preceding_paper_count = pos n.preceding;
  paper_count_change = change;
  entity_counts = entity_counts;
  relation_counts = relation_counts;
  new_entity_ids = flagged_ids (λ c. c.newly_appearing) entity_counts;
  recurring_entity_ids = flagged_ids (λ c. c.recurring) entity_counts;
  representative_paper_ids = representatives b i r.representative_limit;
  data_sufficiency = data_sufficiency (pos n.current) r.thresholds;
  preceding_data_sufficiency = data_sufficiency (pos n.preceding) r.thresholds;
  thresholds = r.thresholds;
  aggregation_version = r.aggregation_version;
  generated_at = r.generated_at;
  schema_version = pos 1;
  pipeline_execution_id = none;
}

module _ (nfkc casefold : Text → Text) where
  -- A count with the part of its sort key that may raise.
  unfoldable pub keyed_count : TrendEntityCount → Result KeyedCount
  unfolding normalized_entity_key
  keyed_count c = do key ← normalized_entity_key nfkc casefold c.label; ok (key, c)

  unfoldable pub entity_counts_of :
      TrendBounds
      → PaperCounts
      → TrendThresholds
      → List MentionActivity
      → Result (List TrendEntityCount)
  unfolding counted_entities entity_count_of keyed_count count_leb in_window
  entity_counts_of b n thresholds mentions = do
    counts ←
        each_result (entity_count_of b n thresholds mentions)
          (counted_entities (λ day. is_current b day || is_preceding b day) mentions)
    keyed ← each_result keyed_count counts
    ok (map (λ k. k.1) (sorted count_leb keyed))

  module _ (uuid5 : Uuid → Text → Uuid) where
    unfoldable pub aggregate_trend_window :
        TrendRequest → TrendInputs → TrendWindow → Result TrendSnapshot
    unfolding bounds_of paper_counts entity_counts_of relation_types_of relation_count_of
        trend_snapshot_of make_trend_snapshot trend_change data_sufficiency iso_text
    aggregate_trend_window r i window = do
      b ← bounds_of r.as_of_date window
      let n = paper_counts b i.papers
      entity_counts ← entity_counts_of b n r.thresholds i.mentions
      relation_counts ←
          each_result (relation_count_of b n r.thresholds i.edges) (relation_types_of b i.edges)
      id ←
          stable_trend_snapshot_id uuid5 r.topic_id (iso_text r.as_of_date) (window_value window)
            r.aggregation_version none
      change ← change_of n r.thresholds n.current n.preceding
      make_trend_snapshot uuid5
          (trend_snapshot_of r i window b n entity_counts relation_counts id change)
