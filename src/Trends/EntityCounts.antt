-- ===== src/Trends/EntityCounts.antt =====
-- domain/knowledge.py: what the entity counts of a trend window count.
use mathlib.Core.Path.{subst}
use domain_specific_paper_ha.Prelude.{
  ℕ, ◌≡◌, refl, sym, ap, ◌∙◌, List, [], ◌∷◌, map, length, arith, Each,
}
use domain_specific_paper_ha.Prelude.Int.{pos}
use domain_specific_paper_ha.Prelude.Text.{Text}
use domain_specific_paper_ha.Prelude.Members.{Each-of_Memᴰ}
use domain_specific_paper_ha.Prelude.Sort.{sorted, Each-sorted}
use domain_specific_paper_ha.Result.{
  Result, ok, after_step, each_result, ok-injective, validated-eq-ok,
}
use domain_specific_paper_ha.Graph.Entity.{GraphEntity}
use domain_specific_paper_ha.Graph.Label.{normalized_entity_key}
use domain_specific_paper_ha.Trends.Change.{TrendChange, TrendThresholds}
use domain_specific_paper_ha.Trends.Accepted.{trend_change-IsChange}
use domain_specific_paper_ha.Trends.Calendar.{Day, TrendBounds, in_window}
use domain_specific_paper_ha.Trends.Split.{IsSplit}
use domain_specific_paper_ha.Trends.Snapshot.{
  TrendEntityCount, is_new, is_recurring, make_entity_count, entity_count_checks,
}
use domain_specific_paper_ha.Trends.Aggregate.{
  MentionActivity, PaperCounts, KeyedCount, is_current, is_preceding, entity_papers, change_of,
  entity_count_of, count_leb,
}
use domain_specific_paper_ha.Trends.Window.{keyed_count, entity_counts_of}
use domain_specific_paper_ha.Trends.Counted.{IsCount, IsMentioned, entity_papers-IsCount}

each_result-Each :
    {A B : Type 0} (f : A → Result B) (P : A → Type 0) (Q : B → Type 0) (xs : List A) (ys : List B)
    → ((x : A) (y : B) → P x → f x ≡ ok y → Q y)
    → Each P xs
    → each_result f xs ≡ ok ys
    → Each Q ys
each_result-Each f P Q [] ys step hs e = subst (Each Q) (ok-injective e) tt
each_result-Each f P Q (x ∷ xs) ys step hs e = after_step (f x) _ ys e (λ y first rest.
    after_step (each_result f xs) _ ys rest (λ more each last.
      subst (Each Q) (ok-injective last)
        (step x y hs.0 first, each_result-Each f P Q xs more step hs.1 each)))

Each-snd {ℓ} :
    {A B : Type ℓ} (P : B → Type 0) (xs : List (A × B))
    → Each (λ x. P x.1) xs
    → Each P (map (λ x. x.1) xs)
Each-snd P [] h = tt
Each-snd P (x ∷ xs) h = (h.0, Each-snd P xs h.1)

-- The count of an entity: the papers that mention it in the window, and in the one before.
pub record IsEntityCount (b : TrendBounds) (mentions : List MentionActivity) (c : TrendEntityCount)
    : Type 0 where
  pub current : ℕ
  pub preceding : ℕ
  pub current_count : c.change.current_count ≡ pos current
  pub preceding_count : c.change.preceding_count ≡ pos preceding
  pub current_papers :
      IsCount current (IsMentioned b.window_start b.window_end mentions c.entity_id)
  pub preceding_papers :
      IsCount preceding (IsMentioned b.preceding_start b.preceding_end mentions c.entity_id)

module _ (b : TrendBounds) (n : PaperCounts) (thresholds : TrendThresholds)
    (mentions : List MentionActivity) (as_of_date : Day) (size : ℕ)
    (split : IsSplit as_of_date size b) where
  preceding_in : (day : Day) → is_preceding b day ≡ in_window day b.preceding_start b.preceding_end
  preceding_in day = ground (arith, split.disjoint day)

  change_of-counts :
      (current preceding : ℕ) (c : TrendChange)
      → change_of n thresholds current preceding ≡ ok c
      → (c.current_count ≡ pos current) × (c.preceding_count ≡ pos preceding)
  change_of-counts current preceding c e =
      let (made, f, counted) =
        trend_change-IsChange current preceding n.current n.preceding thresholds in
      let same : made ≡ c = ok-injective (sym f ∙ e) in
      (
        ap (λ d. d.current_count) (sym same) ∙ counted.current_count,
        ap (λ d. d.preceding_count) (sym same) ∙ counted.preceding_count,
      )

  entity_count_of-IsEntityCount :
      (e : GraphEntity) (c : TrendEntityCount)
      → entity_count_of b n thresholds mentions e ≡ ok c
      → IsEntityCount b mentions c
  unfolding entity_count_of make_entity_count
  entity_count_of-IsEntityCount e c h =
      let current = length (entity_papers (is_current b) mentions e.id) in
      let preceding = length (entity_papers (is_preceding b) mentions e.id) in
      after_step (change_of n thresholds current preceding) _ c h (λ change made rest.
        let (here, before) = change_of-counts current preceding change made in
        let given : TrendEntityCount = record {
          entity_id = e.id;
          entity_type = e.entity_type;
          label = e.display_label;
          change = change;
          newly_appearing = is_new change;
          recurring = is_recurring change;
        } in
        subst (IsEntityCount b mentions) (validated-eq-ok given (entity_count_checks given) rest).0
          (record {
            current = current;
            preceding = preceding;
            current_count = here;
            preceding_count = before;
            current_papers =
                entity_papers-IsCount (is_current b) b.window_start b.window_end (λ day. refl)
                  mentions e.id;
            preceding_papers =
                entity_papers-IsCount (is_preceding b) b.preceding_start b.preceding_end
                  preceding_in mentions e.id;
          }))

  module _ (nfkc casefold : Text → Text) where
    keyed_count-snd :
        (P : TrendEntityCount → Type 0) (c : TrendEntityCount) (k : KeyedCount)
        → P c
        → keyed_count nfkc casefold c ≡ ok k
        → P k.1
    unfolding keyed_count
    keyed_count-snd P c k h e =
        after_step (normalized_entity_key nfkc casefold c.label) _ k e
          (λ key first rest. subst P (ap (λ j. j.1) (ok-injective rest)) h)

    pub entity_counts_of-Each :
        (counts : List TrendEntityCount)
        → entity_counts_of nfkc casefold b n thresholds mentions ≡ ok counts
        → Each (IsEntityCount b mentions) counts
    unfolding entity_counts_of
    entity_counts_of-Each counts h =
        let P = IsEntityCount b mentions in
        after_step (each_result (entity_count_of b n thresholds mentions) _) _ counts h
          (λ made each rest.
            after_step (each_result (keyed_count nfkc casefold) made) _ counts rest
              (λ keyed each_key last.
                let first : Each P made =
                  each_result-Each (entity_count_of b n thresholds mentions) (λ e. Unit {0}) P _
                    made (λ e c u f. entity_count_of-IsEntityCount e c f)
                    (Each-of_Memᴰ (λ e. Unit {0}) _ (λ e m. tt)) each in
                let second : Each (λ (k : KeyedCount). P k.1) keyed =
                  each_result-Each (keyed_count nfkc casefold) P (λ k. P k.1) made keyed
                    (λ c k. keyed_count-snd P c k) first each_key in
                subst (Each P) (ok-injective last) (
                  Each-snd P (sorted count_leb keyed)
                    (Each-sorted count_leb (λ k. P k.1) keyed second))))
