-- ===== src/Accounting/Snapshots.antt =====
-- The snapshot of a Daily run: it is never refused, and it reports the totals over the events.
use domain_specific_paper_ha.Prelude.{
  ◌≡◌, refl, ◌∙◌, ap, inl, inr, Bool, true, false, none, some, List, [], ◌∷◌, arith, Option-cases,
  is_some, all, length, ◌&&◌, if◌then◌else◌,
}
use mathlib.Core.Path.{ap₂}
use domain_specific_paper_ha.Prelude.Int.{
  ℤ, pos, ◌+ℤ◌, ◌≤ℤ◌, eqb_ℤ, AtLeast, AtLeast-min_of, sum_ℤ, int_laws,
}
use domain_specific_paper_ha.Result.{ok, AllPass, validated-AllPass}
use domain_specific_paper_ha.Accounting.Usage.{make_model_usage, make_model_usage-IsUsage}
use domain_specific_paper_ha.Accounting.Counters.{
  PipelineAccounting, PipelineAccountingSnapshot, fresh, snapshot, snapshot_fields, snapshot_checks,
  external_call_count_lower_bound,
}
use domain_specific_paper_ha.Accounting.Ports.{PortTypes, Ports}
use domain_specific_paper_ha.Accounting.Calls.{
  Event, arxiv_event, scholarly_event, grobid_event, model_event, Call, invoke, events, serve,
}
use domain_specific_paper_ha.Accounting.Totals.{
  arxiv_calls, scholarly_calls, grobid_calls, model_calls, prompt_tokens, completion_tokens,
  duration_ms, known_cost, unknown_cost, total, Accounts, serve-Accounts,
}

-- A usage that a response carries was accepted by `ModelUsage.__post_init__`.
abbrev pub HasValidUsage : Event → Type 0
HasValidUsage (model_event (some u)) = make_model_usage u ≡ ok u
HasValidUsage _ = Unit

abbrev pub AllValid : List Event → Type 0
AllValid [] = Unit
AllValid (e ∷ es) = HasValidUsage e × AllValid es

unknown_nonneg : (e : Event) → pos 0 ≤ℤ unknown_cost e
unknown_nonneg (model_event none) = omega arith
unknown_nonneg (model_event (some u)) = ground arith
unknown_nonneg arxiv_event = omega arith
unknown_nonneg _ = omega arith

module _ (f : Event → ℤ) (nonneg : (e : Event) → HasValidUsage e → pos 0 ≤ℤ f e) where
  total_nonneg : (es : List Event) → AllValid es → pos 0 ≤ℤ total f es
  unfolding sum_ℤ
  total_nonneg [] h = omega arith
  total_nonneg (e ∷ es) h = omega (int_laws, nonneg e h.0, total_nonneg es h.1)

grobid_nonneg : (e : Event) → HasValidUsage e → pos 0 ≤ℤ grobid_calls e
grobid_nonneg (grobid_event none) h = omega arith
grobid_nonneg (grobid_event (some n)) h = ground arith
grobid_nonneg arxiv_event h = omega arith
grobid_nonneg _ h = omega arith

model_nonneg : (e : Event) → HasValidUsage e → pos 0 ≤ℤ model_calls e
model_nonneg (model_event (some u)) h = omega (arith, (make_model_usage-IsUsage u h).calls)
model_nonneg (model_event none) h = omega arith
model_nonneg _ h = omega arith

prompt_nonneg : (e : Event) → HasValidUsage e → pos 0 ≤ℤ prompt_tokens e
prompt_nonneg (model_event (some u)) h = omega (arith, (make_model_usage-IsUsage u h).prompt)
prompt_nonneg (model_event none) h = omega arith
prompt_nonneg _ h = omega arith

completion_nonneg : (e : Event) → HasValidUsage e → pos 0 ≤ℤ completion_tokens e
completion_nonneg (model_event (some u)) h =
    omega (arith, (make_model_usage-IsUsage u h).completion)
completion_nonneg (model_event none) h = omega arith
completion_nonneg _ h = omega arith

duration_nonneg : (e : Event) → HasValidUsage e → pos 0 ≤ℤ duration_ms e
duration_nonneg (model_event (some u)) h = omega (arith, (make_model_usage-IsUsage u h).duration)
duration_nonneg (model_event none) h = omega arith
duration_nonneg _ h = omega arith

cost_nonneg : (e : Event) → HasValidUsage e → pos 0 ≤ℤ known_cost e
cost_nonneg (model_event (some u)) h = elim (Option-cases u.estimated_cost_usd) [
  | inl absent ↦ rw absent (omega arith)
  | inr (c, given) ↦ rw given ((make_model_usage-IsUsage u h).cost c given)
]
cost_nonneg (model_event none) h = omega arith
cost_nonneg _ h = omega arith

arxiv_nonneg : (e : Event) → HasValidUsage e → pos 0 ≤ℤ arxiv_calls e
arxiv_nonneg arxiv_event h = omega arith
arxiv_nonneg _ h = omega arith

scholarly_nonneg : (e : Event) → HasValidUsage e → pos 0 ≤ℤ scholarly_calls e
scholarly_nonneg scholarly_event h = omega arith
scholarly_nonneg _ h = omega arith

one_call :
    (e : Event)
    → HasValidUsage e
    → pos 1 ≤ℤ arxiv_calls e +ℤ scholarly_calls e +ℤ grobid_calls e +ℤ model_calls e
one_call (model_event (some u)) h = omega (int_laws, (make_model_usage-IsUsage u h).calls)
one_call (grobid_event (some n)) h = grind int_laws
one_call arxiv_event h = omega int_laws
one_call _ h = omega int_laws

-- The call returned, with a cost.
abbrev pub priced : Event → Bool
priced (model_event none) = false
priced (model_event (some u)) = is_some u.estimated_cost_usd
priced _ = true

priced-eq : (e : Event) → eqb_ℤ (unknown_cost e) (pos 0) ≡ priced e
priced-eq (model_event none) = refl
priced-eq (model_event (some u)) = ground arith
priced-eq arxiv_event = refl
priced-eq _ = refl

eqb_zero-add :
    (x y : ℤ)
    → pos 0 ≤ℤ x
    → pos 0 ≤ℤ y
    → eqb_ℤ (x +ℤ y) (pos 0) ≡ (eqb_ℤ x (pos 0) && eqb_ℤ y (pos 0))
unfolding ◌+ℤ◌
eqb_zero-add x y h k = ground arith

unknown_total_nonneg : (es : List Event) → pos 0 ≤ℤ total unknown_cost es
unfolding sum_ℤ
unknown_total_nonneg [] = omega arith
unknown_total_nonneg (e ∷ es) = omega (int_laws, unknown_nonneg e, unknown_total_nonneg es)

all-priced : (es : List Event) → eqb_ℤ (total unknown_cost es) (pos 0) ≡ all priced es
unfolding sum_ℤ
all-priced [] = refl
all-priced (e ∷ es) =
    eqb_zero-add (unknown_cost e) (total unknown_cost es) (unknown_nonneg e)
      (unknown_total_nonneg es)
    ∙ ap₂ ◌&&◌ (priced-eq e) (all-priced es)

-- The report that the events call for.
abbrev pub report : List Event → PipelineAccountingSnapshot
report es = record {
  arxiv_operation_count = total arxiv_calls es;
  semantic_scholar_operation_count = total scholarly_calls es;
  grobid_api_call_count = total grobid_calls es;
  model_api_call_count = total model_calls es;
  prompt_tokens = total prompt_tokens es;
  completion_tokens = total completion_tokens es;
  total_tokens = total prompt_tokens es +ℤ total completion_tokens es;
  model_duration_ms = total duration_ms es;
  estimated_cost_usd = if all priced es then some (total known_cost es) else none;
}

add_nonneg : (x y : ℤ) → pos 0 ≤ℤ x → pos 0 ≤ℤ y → pos 0 ≤ℤ x +ℤ y
add_nonneg x y h k = omega int_laws

zero_plus : (x : ℤ) → pos 0 +ℤ x ≡ x
zero_plus x = omega int_laws

fields-report :
    (es : List Event) (b : PipelineAccounting) → Accounts fresh es b → snapshot_fields b ≡ report es
fields-report es b h = ground (
  arith,
  h.arxiv ∙ zero_plus _,
  h.scholarly ∙ zero_plus _,
  h.grobid ∙ zero_plus _,
  h.model ∙ zero_plus _,
  h.prompt ∙ zero_plus _,
  h.completion ∙ zero_plus _,
  h.duration ∙ zero_plus _,
  h.cost ∙ zero_plus _,
  ap (λ x. eqb_ℤ x (pos 0)) (h.unknown ∙ zero_plus _) ∙ all-priced es,
)

report_counts :
    (es : List Event)
    → AllValid es
    → AtLeast (pos 0) (
        total arxiv_calls es
        ∷ total scholarly_calls es
        ∷ total grobid_calls es
        ∷ total model_calls es
        ∷ total prompt_tokens es
        ∷ total completion_tokens es
        ∷ (total prompt_tokens es +ℤ total completion_tokens es)
        ∷ total duration_ms es
        ∷ [])
report_counts es h =
    let prompt = total_nonneg prompt_tokens prompt_nonneg es h in
    let completion = total_nonneg completion_tokens completion_nonneg es h in
    assumption (
      total_nonneg arxiv_calls arxiv_nonneg es h,
      total_nonneg scholarly_calls scholarly_nonneg es h,
      total_nonneg grobid_calls grobid_nonneg es h,
      total_nonneg model_calls model_nonneg es h,
      prompt,
      completion,
      add_nonneg (total prompt_tokens es) (total completion_tokens es) prompt completion,
      total_nonneg duration_ms duration_nonneg es h,
      tt,
    )

report-AllPass : (es : List Event) → AllValid es → AllPass (snapshot_checks (report es))
unfolding snapshot_checks
report-AllPass es h = (
  AtLeast-min_of (pos 0) (total arxiv_calls es)
      (total scholarly_calls es
        ∷ total grobid_calls es
        ∷ total model_calls es
        ∷ total prompt_tokens es
        ∷ total completion_tokens es
        ∷ (total prompt_tokens es +ℤ total completion_tokens es)
        ∷ total duration_ms es
        ∷ [])
      (report_counts es h),
  (ground arith, (ground (arith, total_nonneg known_cost cost_nonneg es h), tt)),
)

module _ (T : PortTypes) {W : Type 0} (p : Ports T W) where
  -- Whatever calls a run makes and whichever of them raise, provided that the usages that came back
  -- are usage objects, `snapshot` returns: the counts are the totals over the calls, and a cost is
  -- reported exactly if every model call returned with one.
  pub snapshot-report :
      (calls : List (Call T)) (w : W)
      → AllValid (events T p calls w)
      → snapshot (serve T p calls (fresh, w)).0 ≡ ok (report (events T p calls w))
  unfolding snapshot
  snapshot-report calls w h =
      let es = events T p calls w in
      rw (fields-report es (serve T p calls (fresh, w)).0 (serve-Accounts T p calls fresh w).0)
        (validated-AllPass (report es) (snapshot_checks (report es)) (report-AllPass es h))

  report_calls-ge :
      (calls : List (Call T)) (w : W)
      → AllValid (events T p calls w)
      → pos (length calls) ≤ℤ external_call_count_lower_bound (report (events T p calls w))
  unfolding external_call_count_lower_bound events sum_ℤ
  report_calls-ge [] w h = omega int_laws
  report_calls-ge (c ∷ calls) w h =
      omega
        (int_laws, report_calls-ge calls (invoke T p c w).1 h.1, one_call (invoke T p c w).0 h.0)

  -- With such usages, the snapshot that is taken after the calls through the wrappers is made, and its
  -- lower bound on external calls is at least the number of port calls.
  pub external_call_count-ge :
      (calls : List (Call T)) (w : W)
      → AllValid (events T p calls w)
      → (s : PipelineAccountingSnapshot) × (snapshot (serve T p calls (fresh, w)).0 ≡ ok s)
        × (pos (length calls) ≤ℤ external_call_count_lower_bound s)
  external_call_count-ge calls w h =
      (report (events T p calls w), snapshot-report calls w h, report_calls-ge calls w h)
