-- ===== src/Trends/Guarded.antt =====
-- domain/knowledge.py, `aggregate_trend_snapshots`: the checks of the arguments, and the snapshots of
-- all windows. A date is always a date here, so the checks of the dates' types are left out.
use domain_specific_paper_ha.Prelude.{
  not, ◌||◌, List, [], ◌∷◌, ◌++◌, any, map, filter, is_nil, ltb, ◌==◌,
}
use domain_specific_paper_ha.Prelude.Text.{Text, Uuid, text_eq}
use domain_specific_paper_ha.Prelude.Keys.{member, distinct, subset}
use domain_specific_paper_ha.Result.{
  Result, ok, Check, validated, domain_invariant, ◌>>=◌, each_result,
}
use domain_specific_paper_ha.Lineage.Edge.{GraphEdge, is_rejected, edge_ids}
use domain_specific_paper_ha.Graph.Record.{GraphEntityMention}
use domain_specific_paper_ha.Graph.Entity.{GraphEntity}
use domain_specific_paper_ha.Trends.Change.{TrendWindow, seven_days, thirty_days, ninety_days, days}
use domain_specific_paper_ha.Trends.Calendar.{Day}
use domain_specific_paper_ha.Trends.Snapshot.{TrendPaperRecord, TrendSnapshot}
use domain_specific_paper_ha.Trends.Aggregate.{key_of, mention_activity, edge_activity}
use domain_specific_paper_ha.Trends.Window.{
  TrendRequest, TrendInputs, max_representative_papers, aggregate_trend_window,
}

pub record TrendRecords : Type 0 where
  pub papers : List TrendPaperRecord
  pub entities : List GraphEntity
  pub mentions : List GraphEntityMention
  pub edges : List GraphEdge
  pub mention_activity_dates : List (Uuid × Day)
  pub edge_activity_dates : List (Uuid × Day)

-- `tuple(sorted(set(windows), key=lambda item: item.days))`
unfoldable pub window_values : List TrendWindow → List TrendWindow
window_values windows =
    filter (λ w. any (λ v. days v == days w) windows) (seven_days ∷ thirty_days ∷ ninety_days ∷ [])

abbrev pub version_ids : List TrendPaperRecord → List Uuid
version_ids papers = map (λ p. p.paper_version_id) papers

abbrev pub entity_ids : List GraphEntity → List Uuid
entity_ids entities = map (λ e. e.id) entities

-- `mention_values` and `edge_values`
abbrev pub kept_mentions : TrendRecords → List GraphEntityMention
kept_mentions t = filter (λ m. not (is_rejected m.verification_status)) t.mentions

abbrev pub kept_edges : TrendRecords → List GraphEdge
kept_edges t = filter (λ e. not (is_rejected e.verification_status)) t.edges

unfoldable pub request_guards : TrendRequest → List TrendWindow → List Check
unfolding window_values
request_guards r windows =
    (not r.generated_at.is_aware, domain_invariant "generated_at must be timezone-aware")
    ∷ (
      ltb r.representative_limit 1 || ltb max_representative_papers r.representative_limit,
      domain_invariant "representative paper limit is outside the supported bound",
    )
    ∷ (is_nil (window_values windows), domain_invariant "at least one trend window is required")
    ∷ []

unfoldable pub record_guards : TrendRequest → TrendRecords → List Check
record_guards r t =
    (not (distinct (version_ids t.papers)), domain_invariant "trend paper versions must be unique")
    ∷ (
      not (distinct (entity_ids t.entities)),
      domain_invariant "trend graph entities must be unique",
    )
    ∷ (
      any (λ e. not (text_eq e.topic_id r.topic_id)) t.entities,
      domain_invariant "trend graph entities cannot cross topic boundaries",
    )
    ∷ (
      not (distinct (map (λ m. m.id) t.mentions)),
      domain_invariant "trend graph mentions must be unique",
    )
    ∷ (
      not (subset (map (λ m. m.id) t.mentions) (map key_of t.mention_activity_dates)),
      domain_invariant "trend aggregation is missing mention activity dates",
    )
    ∷ (not (distinct (edge_ids t.edges)), domain_invariant "trend graph edges must be unique")
    ∷ (
      not (subset (edge_ids t.edges) (map key_of t.edge_activity_dates)),
      domain_invariant "trend aggregation is missing edge activity dates",
    )
    ∷ []

unfoldable pub reference_guards : TrendRecords → List Check
reference_guards t =
    (
      any (λ m. not (member m.entity_id (entity_ids t.entities))) (kept_mentions t),
      domain_invariant "trend mention references an unknown graph entity",
    )
    ∷ (
      any
          (λ e.
            not (member e.source_entity_id (entity_ids t.entities))
            || not (member e.target_entity_id (entity_ids t.entities)))
          (kept_edges t),
      domain_invariant "trend edge references an unknown graph entity",
    )
    ∷ (
      any (λ m. not (member m.paper_version_id (version_ids t.papers))) (kept_mentions t),
      domain_invariant "trend mention references an unknown paper version",
    )
    ∷ (
      any (λ e. not (member e.source_paper_version_id (version_ids t.papers))) (kept_edges t),
      domain_invariant "trend edge references an unknown source paper version",
    )
    ∷ []

abbrev pub all_guards : TrendRequest → TrendRecords → List TrendWindow → List Check
all_guards r t windows = request_guards r windows ++ (record_guards r t ++ reference_guards t)

-- What is looked up for each mention and each edge; the guards ensure that it is found.
unfoldable pub inputs_of : TrendRecords → Result TrendInputs
unfolding mention_activity edge_activity
inputs_of t = do
  mentions ←
      each_result (mention_activity t.papers t.entities t.mention_activity_dates) (kept_mentions t)
  edges ← each_result (edge_activity t.papers t.edge_activity_dates) (kept_edges t)
  ok (record { papers = t.papers; mentions = mentions; edges = edges })

module _ (nfkc casefold : Text → Text) (uuid5 : Uuid → Text → Uuid) where
  unfoldable pub aggregate_trend_snapshots :
      TrendRequest → TrendRecords → List TrendWindow → Result (List TrendSnapshot)
  unfolding request_guards record_guards reference_guards inputs_of window_values
      aggregate_trend_window
  aggregate_trend_snapshots r t windows = do
    checked ← validated t (all_guards r t windows)
    inputs ← inputs_of checked
    each_result (aggregate_trend_window nfkc casefold uuid5 r inputs) (window_values windows)
