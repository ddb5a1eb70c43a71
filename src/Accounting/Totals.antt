-- ===== src/Accounting/Totals.antt =====
-- What the counters hold after any sequence of calls, in terms of the events alone.
use domain_specific_paper_ha.Prelude.{
  ◌≡◌, refl, sym, ◌∙◌, inl, inr, none, some, List, [], ◌∷◌, map, arith, if◌then◌else◌, Option-cases,
}
use mathlib.Core.Path.{subst}
use domain_specific_paper_ha.Prelude.Int.{ℤ, pos, ◌+ℤ◌, ◌-ℤ◌, ltb_ℤ, sum_ℤ, int_laws}
use domain_specific_paper_ha.Accounting.Usage.{ModelUsage}
use domain_specific_paper_ha.Accounting.Counters.{
  PipelineAccounting, record_arxiv_operation, record_scholarly_operation, begin_grobid_operation,
  complete_grobid_operation, begin_model_operation, complete_model_operation,
}
use domain_specific_paper_ha.Accounting.Ports.{
  PortTypes, Ports, accounting_ports, counted, parsed_with, metered,
}
use domain_specific_paper_ha.Accounting.Calls.{
  Event, arxiv_event, scholarly_event, grobid_event, model_event, Call, invoke, events, final_world,
  serve,
}

abbrev pub arxiv_calls : Event → ℤ
arxiv_calls arxiv_event = pos 1
arxiv_calls _ = pos 0

abbrev pub scholarly_calls : Event → ℤ
scholarly_calls scholarly_event = pos 1
scholarly_calls _ = pos 0

-- A parse counts once if it raised, or if the count that it reports is not positive.
abbrev pub grobid_calls : Event → ℤ
grobid_calls (grobid_event none) = pos 1
grobid_calls (grobid_event (some n)) = if ltb_ℤ n (pos 1) then pos 1 else n
grobid_calls _ = pos 0

abbrev of_usage : (ModelUsage → ℤ) → ℤ → Event → ℤ
of_usage f raised (model_event none) = raised
of_usage f raised (model_event (some u)) = f u
of_usage f raised _ = pos 0

abbrev pub model_calls : Event → ℤ
model_calls = of_usage (λ u. u.call_count) (pos 1)

abbrev pub prompt_tokens : Event → ℤ
prompt_tokens = of_usage (λ u. u.prompt_tokens) (pos 0)

abbrev pub completion_tokens : Event → ℤ
completion_tokens = of_usage (λ u. u.completion_tokens) (pos 0)

abbrev pub duration_ms : Event → ℤ
duration_ms = of_usage (λ u. u.duration_ms) (pos 0)

abbrev pub known_cost : Event → ℤ
known_cost = of_usage (λ u. elim u.estimated_cost_usd [ none ↦ pos 0 | some c ↦ c ]) (pos 0)

abbrev pub unknown_cost : Event → ℤ
unknown_cost = of_usage (λ u. elim u.estimated_cost_usd [ none ↦ pos 1 | some c ↦ pos 0 ]) (pos 1)

abbrev pub total : (Event → ℤ) → List Event → ℤ
total f es = sum_ℤ (map f es)

-- `b` is `a` with the events `es` accounted for.
pub record Accounts (a : PipelineAccounting) (es : List Event) (b : PipelineAccounting)
    : Type 0 where
  pub arxiv : b.arxiv_operation_count ≡ a.arxiv_operation_count +ℤ total arxiv_calls es
  pub scholarly :
      b.semantic_scholar_operation_count
      ≡ a.semantic_scholar_operation_count +ℤ total scholarly_calls es
  pub grobid : b.grobid_api_call_count ≡ a.grobid_api_call_count +ℤ total grobid_calls es
  pub model : b.model_api_call_count ≡ a.model_api_call_count +ℤ total model_calls es
  pub prompt : b.prompt_tokens ≡ a.prompt_tokens +ℤ total prompt_tokens es
  pub completion : b.completion_tokens ≡ a.completion_tokens +ℤ total completion_tokens es
  pub duration : b.model_duration_ms ≡ a.model_duration_ms +ℤ total duration_ms es
  pub cost : b.estimated_cost_usd ≡ a.estimated_cost_usd +ℤ total known_cost es
  pub unknown : b.unknown_cost_events ≡ a.unknown_cost_events +ℤ total unknown_cost es

-- What the wrappers do to the counters, told by the event.
account : Event → PipelineAccounting → PipelineAccounting
account arxiv_event a = record_arxiv_operation a
account scholarly_event a = record_scholarly_operation a
account (grobid_event none) a = begin_grobid_operation a
account (grobid_event (some n)) a = (complete_grobid_operation n (begin_grobid_operation a)).1
account (model_event none) a = begin_model_operation a
account (model_event (some u)) a = complete_model_operation u (begin_model_operation a)

module _ (T : PortTypes) {W : Type 0} (p : Ports T W) where
  invoke-account :
      (c : Call T) (a : PipelineAccounting) (w : W)
      → (invoke T (accounting_ports T W p) c (a, w)).1
        ≡ (account (invoke T p c w).0 a, (invoke T p c w).1)
  unfolding account counted parsed_with metered
  invoke-account (Call.parse r) a w = ground arith
  invoke-account _ a w = ground arith

Accounts-nil : (a : PipelineAccounting) → Accounts a [] a
unfolding sum_ℤ
Accounts-nil a = omega int_laws

plus_zero : (x : ℤ) → x ≡ x +ℤ pos 0
plus_zero x = omega int_laws

shift : (x y : ℤ) → x +ℤ pos 1 +ℤ (y -ℤ pos 1) ≡ x +ℤ y
shift x y = omega int_laws

one_event : (a : PipelineAccounting) (e : Event) → Accounts a (e ∷ []) (account e a)
unfolding sum_ℤ account record_arxiv_operation record_scholarly_operation begin_grobid_operation
    complete_grobid_operation begin_model_operation complete_model_operation
one_event a arxiv_event = omega int_laws
one_event a scholarly_event = omega int_laws
one_event a (grobid_event none) = omega int_laws
one_event a (grobid_event (some n)) = grind int_laws
one_event a (model_event none) = omega int_laws
one_event a (model_event (some u)) = elim (Option-cases u.estimated_cost_usd) [
  | inl absent ↦ rw (absent, account, complete_model_operation) (omega int_laws)
  | inr (c, given) ↦ rw (given, account, complete_model_operation) (omega int_laws)
]

join :
    (f : Event → ℤ) (e : Event) (es : List Event) (a : ℤ) {a' b : ℤ}
    → a' ≡ a +ℤ total f (e ∷ [])
    → b ≡ a' +ℤ total f es
    → b ≡ a +ℤ total f (e ∷ es)
unfolding sum_ℤ
join f e es a p q = q ∙ rw p (regroup a (f e) (total f es))
  where
    regroup : (x y z : ℤ) → x +ℤ (y +ℤ pos 0) +ℤ z ≡ x +ℤ (y +ℤ z)
    regroup x y z = omega int_laws

Accounts-cons :
    (e : Event) (es : List Event) {a a' b : PipelineAccounting}
    → Accounts a (e ∷ []) a'
    → Accounts a' es b
    → Accounts a (e ∷ es) b
Accounts-cons e es {a} h k = record {
  arxiv = join arxiv_calls e es a.arxiv_operation_count h.arxiv k.arxiv;
  scholarly = join scholarly_calls e es a.semantic_scholar_operation_count h.scholarly k.scholarly;
  grobid = join grobid_calls e es a.grobid_api_call_count h.grobid k.grobid;
  model = join model_calls e es a.model_api_call_count h.model k.model;
  prompt = join prompt_tokens e es a.prompt_tokens h.prompt k.prompt;
  completion = join completion_tokens e es a.completion_tokens h.completion k.completion;
  duration = join duration_ms e es a.model_duration_ms h.duration k.duration;
  cost = join known_cost e es a.estimated_cost_usd h.cost k.cost;
  unknown = join unknown_cost e es a.unknown_cost_events h.unknown k.unknown;
}

module _ (T : PortTypes) {W : Type 0} (p : Ports T W) where
  -- Whatever calls are made and whichever of them raise, each counter grows by its total over the
  -- events, and the world is the one that the bare ports leave.
  pub serve-Accounts :
      (calls : List (Call T)) (a : PipelineAccounting) (w : W)
      → Accounts a (events T p calls w) (serve T p calls (a, w)).0
        × ((serve T p calls (a, w)).1 ≡ final_world T p calls w)
  unfolding serve events final_world
  serve-Accounts [] a w = (Accounts-nil a, refl)
  serve-Accounts (c ∷ calls) a w =
      let e = (invoke T p c w).0 in
      let rest = serve-Accounts calls (account e a) (invoke T p c w).1 in
      let tail = events T p calls (invoke T p c w).1 in
      subst
        (λ s.
          Accounts a (e ∷ tail) (final_world T (accounting_ports T W p) calls s).0
          × ((final_world T (accounting_ports T W p) calls s).1
              ≡ final_world T p calls (invoke T p c w).1))
        (sym (invoke-account T p c a w)) (Accounts-cons e tail (one_event a e) rest.0, rest.1)
