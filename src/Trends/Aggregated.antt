-- ===== src/Trends/Aggregated.antt =====
-- What a trend snapshot says, once the aggregation of a window has returned it.
use mathlib.Core.Path.{subst}
use domain_specific_paper_ha.Prelude.{
  ℕ, ◌≤◌, ◌≡◌, refl, true, false, none, map, any, length, arith, Each, inl, inr,
}
use domain_specific_paper_ha.Prelude.Int.{pos}
use domain_specific_paper_ha.Prelude.Text.{Text, Uuid}
use domain_specific_paper_ha.Prelude.Keys.{member, distinct}
use domain_specific_paper_ha.Result.{
  ok, AllPass, validated-eq-ok, after_step, validated->>=, each_result,
}
use domain_specific_paper_ha.Identity.Graph.{stable_trend_snapshot_id}
use domain_specific_paper_ha.Graph.Keyed.{unique-distinct}
use domain_specific_paper_ha.Trends.Change.{TrendWindow}
use domain_specific_paper_ha.Trends.Calendar.{TrendBounds, bounds_of, iso_text}
use domain_specific_paper_ha.Trends.Snapshot.{
  TrendSnapshot, window_value, trend_checks_of, id_check, with_sorted_ids, make_trend_snapshot,
}
use domain_specific_paper_ha.Trends.Aggregate.{change_of, relation_count_of}
use domain_specific_paper_ha.Trends.Window.{
  TrendRequest, TrendInputs, representatives, paper_counts, entity_counts_of, relation_types_of,
  trend_snapshot_of, aggregate_trend_window,
}
use domain_specific_paper_ha.Prelude.{◌+◌, sym, ◌∙◌}
use domain_specific_paper_ha.Trends.Calendar.{Day, in_window}
use domain_specific_paper_ha.Trends.Aggregate.{is_current}
use domain_specific_paper_ha.Trends.Counted.{IsCount, IsPaperOf, paper_ids_in-IsCount}
use domain_specific_paper_ha.Result.{Result, err, overflow_error, ok-injective}
use domain_specific_paper_ha.Trends.Change.{days}
use domain_specific_paper_ha.Trends.Split.{IsSplit, bounds_of-cases}
use domain_specific_paper_ha.Trends.EntityCounts.{IsEntityCount, entity_counts_of-Each}
use domain_specific_paper_ha.Trends.Active.{
  length-unique, Each-unique, IsActiveIn, representatives-few, representatives-IsActiveIn,
}

bounds_of-IsSplit :
    (as_of_date : Day) (window : TrendWindow) (b : TrendBounds)
    → bounds_of as_of_date window ≡ ok b
    → IsSplit as_of_date (days window) b
bounds_of-IsSplit as_of_date window b h = elim (bounds_of-cases as_of_date window) [
  | inl (long, (found, e, split)) ↦
      subst (IsSplit as_of_date (days window)) (ok-injective (sym e ∙ h)) split
  | inr (short, e) ↦
      let clash : ◌≡◌ {A = Result TrendBounds} (err (overflow_error "date value out of range"))
          (ok b) =
        sym e ∙ h in
      cc
]

-- The snapshot of a window.
pub record IsTrend (r : TrendRequest) (i : TrendInputs) (window : TrendWindow) (s : TrendSnapshot)
    : Type 0 where
  pub at_end : s.window_end ≡ r.as_of_date
  pub current_length : s.window_start + days window ≡ s.window_end + 1
  pub preceding_length : s.preceding_window_start + days window ≡ s.window_start
  pub adjoin : s.preceding_window_end + 1 ≡ s.window_start
  pub included : ℕ
  pub included_count : s.included_paper_count ≡ pos included
  pub included_papers : IsCount included (IsPaperOf s.window_start s.window_end i.papers)
  pub preceding : ℕ
  pub preceding_count : s.preceding_paper_count ≡ pos preceding
  pub preceding_papers :
      IsCount preceding (IsPaperOf s.preceding_window_start s.preceding_window_end i.papers)
  pub entities :
      Each
        (IsEntityCount
          (record {
            window_start = s.window_start;
            window_end = s.window_end;
            preceding_start = s.preceding_window_start;
            preceding_end = s.preceding_window_end;
          })
          i.mentions)
        s.entity_counts
  pub counted_once : distinct (map (λ c. c.entity_id) s.entity_counts) ≡ true
  pub apart : any (λ id. member id s.recurring_entity_ids) s.new_entity_ids ≡ false
  pub few : length s.representative_paper_ids ≤ r.representative_limit
  pub representatives_apart : distinct s.representative_paper_ids ≡ true
  pub active : Each (IsActiveIn s.window_start s.window_end i) s.representative_paper_ids

module _ (nfkc casefold : Text → Text) (uuid5 : Uuid → Text → Uuid) where
  made-snapshot :
      (given s : TrendSnapshot)
      → make_trend_snapshot uuid5 given ≡ ok s
      → (with_sorted_ids given ≡ s)
        × ((b : TrendBounds) × AllPass (trend_checks_of (with_sorted_ids given) b))
  unfolding make_trend_snapshot
  made-snapshot given s h =
      let t = with_sorted_ids given in
      after_step (bounds_of t.as_of_date t.window) _ s h (λ b known rest.
        let (pass, rest) = validated->>= t (trend_checks_of t b) _ s rest in
        after_step
          (stable_trend_snapshot_id uuid5 t.topic_id (iso_text t.as_of_date) (window_value t.window)
            t.aggregation_version t.pipeline_execution_id)
          _ s rest (λ id identified last. ((validated-eq-ok t (id_check t id) last).0, (b, pass))))

  -- The snapshot that the aggregation of a window returns is of the window that ends on its day and of
  -- the one of the same length before it; it counts the distinct papers with a record in each, and for
  -- each of its entities, each once, the distinct papers that mention it in each; no entity is both new
  -- and recurring; and the representative papers are distinct, at most as many as asked for, and each
  -- has a record, a mention or an edge in the window.
  pub aggregate_trend_window-IsTrend :
      (r : TrendRequest) (i : TrendInputs) (window : TrendWindow) (s : TrendSnapshot)
      → aggregate_trend_window nfkc casefold uuid5 r i window ≡ ok s
      → IsTrend r i window s
  unfolding aggregate_trend_window paper_counts trend_checks_of with_sorted_ids trend_snapshot_of
  aggregate_trend_window-IsTrend r i window s h =
      after_step (bounds_of r.as_of_date window) _ s h (λ b known rest.
        let n = paper_counts b i.papers in
        after_step (entity_counts_of nfkc casefold b n r.thresholds i.mentions) _ s rest
          (λ entity_counts e rest.
            after_step
              (each_result (relation_count_of b n r.thresholds i.edges)
                (relation_types_of b i.edges))
              _ s rest
              (λ relation_counts f rest.
                after_step
                  (stable_trend_snapshot_id uuid5 r.topic_id (iso_text r.as_of_date)
                    (window_value window) r.aggregation_version none)
                  _ s rest
                  (λ id g rest.
                    after_step (change_of n r.thresholds n.current n.preceding) _ s rest
                      (λ change c last.
                        let (same, (limits, pass)) =
                          made-snapshot
                            (trend_snapshot_of r i window b n entity_counts relation_counts id
                              change)
                            s last in
                        let split = bounds_of-IsSplit r.as_of_date window b known in
                        subst (IsTrend r i window) same (record {
                          at_end = refl;
                          current_length = omega (arith, split.current_length, split.end);
                          preceding_length = omega (arith, split.preceding_length, split.adjoin);
                          adjoin = omega (arith, split.adjoin);
                          included = n.current;
                          included_count = refl;
                          included_papers =
                              subst (λ d. IsCount n.current (IsPaperOf b.window_start d i.papers))
                                split.end
                                (paper_ids_in-IsCount (is_current b) b.window_start b.window_end
                                  (λ day. refl) i.papers);
                          preceding = n.preceding;
                          preceding_count = refl;
                          preceding_papers =
                              paper_ids_in-IsCount
                                (λ day. in_window day b.preceding_start b.preceding_end)
                                b.preceding_start b.preceding_end (λ day. refl) i.papers;
                          entities =
                              subst
                                (λ d.
                                  Each
                                    (IsEntityCount
                                      (record {
                                        window_start = b.window_start;
                                        window_end = d;
                                        preceding_start = b.preceding_start;
                                        preceding_end = b.preceding_end;
                                      })
                                      i.mentions)
                                    entity_counts)
                                split.end
                                (entity_counts_of-Each b n r.thresholds i.mentions r.as_of_date
                                  (days window) split nfkc casefold entity_counts e);
                          counted_once = ground (arith, pass.1.1.1.0);
                          apart = pass.1.1.1.1.1.0;
                          few = omega (
                            arith,
                            length-unique (representatives b i r.representative_limit),
                            representatives-few b i r.representative_limit,
                          );
                          representatives_apart =
                              unique-distinct (representatives b i r.representative_limit);
                          active =
                              Each-unique (IsActiveIn b.window_start r.as_of_date i)
                                (representatives b i r.representative_limit)
                                (subst
                                  (λ d.
                                    Each (IsActiveIn b.window_start d i)
                                      (representatives b i r.representative_limit))
                                  split.end
                                  (representatives-IsActiveIn b i r.representative_limit));
                        }))))))
