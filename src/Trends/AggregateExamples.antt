-- ===== src/Trends/AggregateExamples.antt =====
-- A paper of the last week that uses one method, and nothing the week before.
use domain_specific_paper_ha.Prelude.{
  ◌≡◌, ◌≤◌, ◌<◌, ◌+◌, ◌⊎◌, refl, true, false, none, some, [], ◌∷◌, length,
}
use domain_specific_paper_ha.Prelude.Int.{pos, ◌-ℤ◌}
use domain_specific_paper_ha.Identity.Graph.{trend_snapshot_name}
use domain_specific_paper_ha.Prelude.Text.{Text, Uuid, codes, text_eq, strip}
use domain_specific_paper_ha.Prelude.Keys.{member, subset, distinct, unique}
use domain_specific_paper_ha.Prelude.Sort.{sorted}
use domain_specific_paper_ha.Result.{ok, err, overflow_error}
use domain_specific_paper_ha.Lineage.Edge.{metadata_explicit, unverified}
use domain_specific_paper_ha.Graph.Record.{GraphEntityMention}
use domain_specific_paper_ha.Graph.Entity.{GraphEntity, method}
use domain_specific_paper_ha.Trends.Change.{
  TrendChange, zero_denominator, insufficient, default_trend_thresholds, seven_days, days,
}
use domain_specific_paper_ha.Trends.Calendar.{TrendBounds, bounds_of}
use domain_specific_paper_ha.Trends.Split.{IsSplit, bounds_of-cases}
use domain_specific_paper_ha.Trends.Snapshot.{TrendPaperRecord, TrendSnapshot}
use domain_specific_paper_ha.Trends.Window.{TrendRequest, TrendInputs, aggregate_trend_window}
use domain_specific_paper_ha.Trends.Guarded.{
  TrendRecords, kept_mentions, kept_edges, inputs_of, record_guards, reference_guards,
}
use domain_specific_paper_ha.Trends.Found.{inputs_of-Returns}
use domain_specific_paper_ha.Trends.Aggregated.{IsTrend, aggregate_trend_window-IsTrend}

abbrev hash : Uuid → Text → Uuid
hash namespace name = codes "5"

abbrev as_it_is : Text → Text
as_it_is s = s

bounds_of-cases_example :
    ((days seven_days + days seven_days ≤ 730179)
      × ((b : TrendBounds) × (bounds_of 730179 seven_days ≡ ok b)
          × IsSplit 730179 (days seven_days) b))
    ⊎ ((730179 < days seven_days + days seven_days)
        × (bounds_of 730179 seven_days ≡ err (overflow_error "date value out of range")))
bounds_of-cases_example = bounds_of-cases 730179 seven_days

abbrev request : TrendRequest
request = record {
  topic_id = codes "t";
  as_of_date = 730179;
  generated_at = record { instant = pos 0; is_aware = true };
  thresholds = default_trend_thresholds;
  representative_limit = 5;
  aggregation_version = codes "trend_v1";
}

abbrev entity : GraphEntity
entity = record {
  id = codes "m";
  topic_id = codes "t";
  entity_type = method;
  paper_id = none;
  canonical_label = codes "rag";
  normalized_key = codes "rag";
  display_label = codes "rag";
  aliases = [];
  provenance = metadata_explicit;
  source = codes "arxiv";
  schema_version = pos 1;
  created_at = record { instant = pos 0; is_aware = true };
  updated_at = record { instant = pos 0; is_aware = true };
}

abbrev mention : GraphEntityMention
mention = record {
  id = codes "7";
  entity_id = codes "m";
  paper_id = codes "p";
  paper_version_id = codes "p1";
  analysis_id = some (codes "a");
  comparison_id = none;
  observed_label = codes "rag";
  provenance = metadata_explicit;
  evidence_ids = [];
  model_provenance = none;
  confidence = none;
  verification_status = unverified;
  generated_at = record { instant = pos 0; is_aware = true };
  schema_version = pos 1;
  created_at = record { instant = pos 0; is_aware = true };
  pipeline_execution_id = none;
}

abbrev paper_of_week : TrendPaperRecord
paper_of_week = record {
  paper_id = codes "p";
  paper_version_id = codes "p1";
  activity_date = 730177;
  title = codes "On rag";
}

abbrev records : TrendRecords
records = record {
  papers = paper_of_week ∷ [];
  entities = entity ∷ [];
  mentions = mention ∷ [];
  edges = [];
  mention_activity_dates = (codes "7", 730178) ∷ [];
  edge_activity_dates = [];
}

inputs_of-Returns_example :
    (i : TrendInputs) × (inputs_of records ≡ ok i)
    × (i.papers ≡ records.papers)
    × (length i.mentions ≡ length (kept_mentions records))
    × (length i.edges ≡ length (kept_edges records))
unfolding record_guards reference_guards distinct text_eq subset member
inputs_of-Returns_example =
    inputs_of-Returns request records (refl, (refl, (refl, (refl, (refl, (refl, (refl, tt)))))))
      (refl, (refl, (refl, (refl, tt))))

abbrev inputs : TrendInputs
inputs = record {
  papers = paper_of_week ∷ [];
  mentions = record { entity = entity; paper_id = codes "p"; activity_date = 730178 } ∷ [];
  edges = [];
}

abbrev one_more : TrendChange
one_more = record {
  current_count = pos 1;
  preceding_count = pos 0;
  absolute_change = pos 1;
  denominator_count = pos 0;
  relative_change = none;
  growth_status = zero_denominator;
}

abbrev week : TrendSnapshot
week = record {
  id = codes "5";
  topic_id = codes "t";
  as_of_date = 730179;
  window = seven_days;
  window_start = 730173;
  window_end = 730179;
  preceding_window_start = 730166;
  preceding_window_end = 730172;
  included_paper_count = pos 1;
  preceding_paper_count = pos 0;
  paper_count_change = one_more;
  entity_counts =
      record {
        entity_id = codes "m";
        entity_type = method;
        label = codes "rag";
        change = one_more;
        newly_appearing = true;
        recurring = false;
      }
      ∷ [];
  relation_counts = [];
  new_entity_ids = codes "m" ∷ [];
  recurring_entity_ids = [];
  representative_paper_ids = codes "p" ∷ [];
  data_sufficiency = insufficient;
  preceding_data_sufficiency = insufficient;
  thresholds = default_trend_thresholds;
  aggregation_version = codes "trend_v1";
  generated_at = record { instant = pos 0; is_aware = true };
  schema_version = pos 1;
  pipeline_execution_id = none;
}

week_made : aggregate_trend_window as_it_is as_it_is hash request inputs seven_days ≡ ok week
unfolding aggregate_trend_window unique text_eq ◌-ℤ◌ strip sorted trend_snapshot_name distinct
    member
week_made = refl

aggregate_trend_window-IsTrend_example : IsTrend request inputs seven_days week
aggregate_trend_window-IsTrend_example =
    aggregate_trend_window-IsTrend as_it_is as_it_is hash request inputs seven_days week week_made
