-- ===== src/Trends/Snapshot.antt =====
-- domain/knowledge.py: `TrendEntityCount`, `TrendRelationCount`, `TrendPaperRecord` and
-- `TrendSnapshot` with the checks of their constructors, and `namespace_trend_snapshot`.
use domain_specific_paper_ha.Prelude.{
  Bool, true, false, not, ◌&&◌, ◌||◌, Option, some, List, [], ◌∷◌, ◌++◌, any, map, ◌==◌,
}
use domain_specific_paper_ha.Prelude.Int.{ℤ, pos, ltb_ℤ, eqb_ℤ}
use domain_specific_paper_ha.Prelude.Text.{Text, Uuid, codes, text_eq}
use domain_specific_paper_ha.Prelude.Keys.{member, distinct, unique}
use domain_specific_paper_ha.Result.{Result, Check, validated, domain_invariant, ◌>>=◌}
use domain_specific_paper_ha.Identity.Graph.{stable_trend_snapshot_id}
use domain_specific_paper_ha.Lineage.Edge.{Datetime, GraphRelationType, relation_value}
use domain_specific_paper_ha.Lineage.Snapshot.{require_text, max_paper_title_length}
use domain_specific_paper_ha.Graph.Label.{max_graph_label_length}
use domain_specific_paper_ha.Graph.Entity.{GraphEntityType, is_paper}
use domain_specific_paper_ha.Graph.Merge.{sorted_ids}
use domain_specific_paper_ha.Trends.Change.{
  TrendWindow, seven_days, thirty_days, ninety_days, TrendChange, TrendDataSufficiency, sufficient,
  limited, insufficient, TrendThresholds, data_sufficiency,
}
use domain_specific_paper_ha.Trends.Calendar.{Day, TrendBounds, bounds_of, iso_text}

pub record TrendEntityCount : Type 0 where
  pub entity_id : Uuid
  pub entity_type : GraphEntityType
  pub label : Text
  pub change : TrendChange
  pub newly_appearing : Bool
  pub recurring : Bool

-- `count > 0`
abbrev pub is_positive : ℤ → Bool
is_positive count = ltb_ℤ (pos 0) count

abbrev pub is_new : TrendChange → Bool
is_new c = is_positive c.current_count && eqb_ℤ c.preceding_count (pos 0)

abbrev pub is_recurring : TrendChange → Bool
is_recurring c = is_positive c.current_count && is_positive c.preceding_count

-- `a != b` of Booleans.
abbrev pub differs : Bool → Bool → Bool
differs true b = not b
differs false b = b

unfoldable pub entity_count_checks : TrendEntityCount → List Check
unfolding require_text
entity_count_checks c =
    (
      is_paper c.entity_type,
      domain_invariant "paper volume is stored separately from entity counts",
    )
    ∷ (require_text c.label "trend entity label must not be empty"
          "trend entity label must be concise valid text" max_graph_label_length
        ++ ((
          differs c.newly_appearing (is_new c.change),
          domain_invariant "new entity flag is inconsistent with its counts",
        )
            ∷ (
              differs c.recurring (is_recurring c.change),
              domain_invariant "recurring entity flag is inconsistent with its counts",
            )
            ∷ []))

unfoldable pub make_entity_count : TrendEntityCount → Result TrendEntityCount
unfolding entity_count_checks
make_entity_count c = validated c (entity_count_checks c)

pub record TrendRelationCount : Type 0 where
  pub relation_type : GraphRelationType
  pub change : TrendChange

pub record TrendPaperRecord : Type 0 where
  pub paper_id : Uuid
  pub paper_version_id : Uuid
  pub activity_date : Day
  pub title : Text

unfoldable pub make_paper_record : TrendPaperRecord → Result TrendPaperRecord
unfolding require_text
make_paper_record p = validated p (
    require_text p.title "trend paper title must not be empty"
      "trend paper title must be concise valid text" max_paper_title_length)

pub record TrendSnapshot : Type 0 where
  pub id : Uuid
  pub topic_id : Uuid
  pub as_of_date : Day
  pub window : TrendWindow
  pub window_start : Day
  pub window_end : Day
  pub preceding_window_start : Day
  pub preceding_window_end : Day
  pub included_paper_count : ℤ
  pub preceding_paper_count : ℤ
  pub paper_count_change : TrendChange
  pub entity_counts : List TrendEntityCount
  pub relation_counts : List TrendRelationCount
  pub new_entity_ids : List Uuid
  pub recurring_entity_ids : List Uuid
  pub representative_paper_ids : List Uuid
  pub data_sufficiency : TrendDataSufficiency
  pub preceding_data_sufficiency : TrendDataSufficiency
  pub thresholds : TrendThresholds
  pub aggregation_version : Text
  pub generated_at : Datetime
  pub schema_version : ℤ
  pub pipeline_execution_id : Option Uuid

-- `window.value`
abbrev pub window_value : TrendWindow → Text
window_value seven_days = codes "7D"
window_value thirty_days = codes "30D"
window_value ninety_days = codes "90D"

abbrev pub same_sufficiency : TrendDataSufficiency → TrendDataSufficiency → Bool
same_sufficiency sufficient sufficient = true
same_sufficiency limited limited = true
same_sufficiency insufficient insufficient = true
same_sufficiency _ _ = false

unfoldable pub trend_checks_of : TrendSnapshot → TrendBounds → List Check
unfolding require_text
trend_checks_of s b =
    (
      not (s.window_start == b.window_start)
          || (not (s.window_end == s.as_of_date)
              || (not (s.preceding_window_start == b.preceding_start)
                  || not (s.preceding_window_end == b.preceding_end))),
      domain_invariant "trend snapshot window bounds are not exact",
    )
    ∷ (
      not (eqb_ℤ s.included_paper_count s.paper_count_change.current_count)
          || not (eqb_ℤ s.preceding_paper_count s.paper_count_change.preceding_count),
      domain_invariant "trend paper comparison does not match snapshot totals",
    )
    ∷ (
      not (
            same_sufficiency s.data_sufficiency
              (data_sufficiency s.included_paper_count s.thresholds))
          || not (
              same_sufficiency s.preceding_data_sufficiency
                (data_sufficiency s.preceding_paper_count s.thresholds)),
      domain_invariant "trend data sufficiency is inconsistent with thresholds",
    )
    ∷ (
      not (distinct (map (λ c. c.entity_id) s.entity_counts)),
      domain_invariant "trend entity counts must be unique",
    )
    ∷ (
      not (distinct (map (λ c. relation_value c.relation_type) s.relation_counts)),
      domain_invariant "trend relation counts must be unique",
    )
    ∷ (
      any (λ id. member id s.recurring_entity_ids) s.new_entity_ids,
      domain_invariant "new and recurring trend entity sets cannot overlap",
    )
    ∷ (require_text s.aggregation_version "trend aggregation version must not be empty"
          "trend aggregation version must be concise valid text" 100
        ++ ((not s.generated_at.is_aware, domain_invariant "generated_at must be timezone-aware")
            ∷ (ltb_ℤ s.schema_version (pos 1), domain_invariant "schema_version must be positive")
            ∷ []))

abbrev pub id_check : TrendSnapshot → Uuid → List Check
id_check s expected_id =
    (
      not (text_eq s.id expected_id),
      domain_invariant "trend snapshot ID is not stable for its scope",
    )
    ∷ []

-- The tuples of identifiers, sorted or made unique.
unfoldable pub with_sorted_ids : TrendSnapshot → TrendSnapshot
unfolding sorted_ids
with_sorted_ids s = record s {
  new_entity_ids = sorted_ids s.new_entity_ids;
  recurring_entity_ids = sorted_ids s.recurring_entity_ids;
  representative_paper_ids = unique s.representative_paper_ids;
}

module _ (uuid5 : Uuid → Text → Uuid) where
  unfoldable pub make_trend_snapshot : TrendSnapshot → Result TrendSnapshot
  unfolding with_sorted_ids bounds_of trend_checks_of iso_text
  make_trend_snapshot given =
      let s = with_sorted_ids given in
      do
        bounds ← bounds_of s.as_of_date s.window
        checked ← validated s (trend_checks_of s bounds)
        expected_id ←
            stable_trend_snapshot_id uuid5 checked.topic_id (iso_text checked.as_of_date)
              (window_value checked.window) checked.aggregation_version
              checked.pipeline_execution_id
        validated checked (id_check checked expected_id)

  unfoldable pub namespace_trend_snapshot : TrendSnapshot → Uuid → Result TrendSnapshot
  unfolding make_trend_snapshot
  namespace_trend_snapshot s execution = do
    id ←
        stable_trend_snapshot_id uuid5 s.topic_id (iso_text s.as_of_date) (window_value s.window)
          s.aggregation_version (some execution)
    make_trend_snapshot (record s { id = id; pipeline_execution_id = some execution })
