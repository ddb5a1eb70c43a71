-- ===== src/Accounting/Counters.antt =====
-- application/pipeline_accounting.py: the counters of one Daily run and their snapshot.
use domain_specific_paper_ha.Prelude.{
  List, [], ◌∷◌, Option, none, some, not, option_is, if◌then◌else◌,
}
use domain_specific_paper_ha.Prelude.Int.{ℤ, pos, ◌+ℤ◌, ◌-ℤ◌, ltb_ℤ, eqb_ℤ, min_of}
use domain_specific_paper_ha.Result.{value_error, Result, ok, err, Check, validated}
use domain_specific_paper_ha.Accounting.Usage.{ModelUsage}

pub record PipelineAccountingSnapshot : Type 0 where
  pub arxiv_operation_count : ℤ
  pub semantic_scholar_operation_count : ℤ
  pub grobid_api_call_count : ℤ
  pub model_api_call_count : ℤ
  pub prompt_tokens : ℤ
  pub completion_tokens : ℤ
  pub total_tokens : ℤ
  pub model_duration_ms : ℤ
  pub estimated_cost_usd : Option ℤ

unfoldable pub snapshot_checks : PipelineAccountingSnapshot → List Check
snapshot_checks s =
    (
      ltb_ℤ
          (min_of s.arxiv_operation_count (
            s.semantic_scholar_operation_count ∷ s.grobid_api_call_count ∷ s.model_api_call_count
            ∷ s.prompt_tokens ∷ s.completion_tokens ∷ s.total_tokens ∷ s.model_duration_ms ∷ []))
          (pos 0),
      value_error "pipeline accounting values cannot be negative",
    )
    ∷ (
      not (eqb_ℤ s.total_tokens (s.prompt_tokens +ℤ s.completion_tokens)),
      value_error "pipeline token accounting is inconsistent",
    )
    ∷ (
      option_is (λ c. ltb_ℤ c (pos 0)) s.estimated_cost_usd,
      value_error "pipeline estimated cost cannot be negative",
    )
    ∷ []

-- `PipelineAccountingSnapshot(...)`: the object, or what `__post_init__` raises.
unfoldable pub make_snapshot : PipelineAccountingSnapshot → Result PipelineAccountingSnapshot
make_snapshot s = validated s (snapshot_checks s)

unfoldable pub external_call_count_lower_bound : PipelineAccountingSnapshot → ℤ
external_call_count_lower_bound s =
    s.arxiv_operation_count +ℤ s.semantic_scholar_operation_count +ℤ s.grobid_api_call_count
    +ℤ s.model_api_call_count

pub record PipelineAccounting : Type 0 where
  pub arxiv_operation_count : ℤ
  pub semantic_scholar_operation_count : ℤ
  pub grobid_api_call_count : ℤ
  pub model_api_call_count : ℤ
  pub prompt_tokens : ℤ
  pub completion_tokens : ℤ
  pub model_duration_ms : ℤ
  pub estimated_cost_usd : ℤ
  pub unknown_cost_events : ℤ

abbrev pub fresh : PipelineAccounting
fresh = record {
  arxiv_operation_count = pos 0;
  semantic_scholar_operation_count = pos 0;
  grobid_api_call_count = pos 0;
  model_api_call_count = pos 0;
  prompt_tokens = pos 0;
  completion_tokens = pos 0;
  model_duration_ms = pos 0;
  estimated_cost_usd = pos 0;
  unknown_cost_events = pos 0;
}

unfoldable pub record_arxiv_operation : PipelineAccounting → PipelineAccounting
record_arxiv_operation a = record a { arxiv_operation_count = a.arxiv_operation_count +ℤ pos 1 }

unfoldable pub record_scholarly_operation : PipelineAccounting → PipelineAccounting
record_scholarly_operation a = record a {
  semantic_scholar_operation_count = a.semantic_scholar_operation_count +ℤ pos 1;
}

unfoldable pub begin_grobid_operation : PipelineAccounting → PipelineAccounting
begin_grobid_operation a = record a { grobid_api_call_count = a.grobid_api_call_count +ℤ pos 1 }

unfoldable pub complete_grobid_operation :
    ℤ → PipelineAccounting → Result (Unit {0}) × PipelineAccounting
complete_grobid_operation call_count a =
    if ltb_ℤ call_count (pos 1)
    then (err (value_error "successful GROBID output requires a positive call count"), a)
    else (
      ok tt,
      record a { grobid_api_call_count = a.grobid_api_call_count +ℤ (call_count -ℤ pos 1) },
    )

unfoldable pub begin_model_operation : PipelineAccounting → PipelineAccounting
begin_model_operation a = record a {
  model_api_call_count = a.model_api_call_count +ℤ pos 1;
  unknown_cost_events = a.unknown_cost_events +ℤ pos 1;
}

add_cost : Option ℤ → PipelineAccounting → PipelineAccounting
add_cost none a = a
add_cost (some cost) a = record a {
  estimated_cost_usd = a.estimated_cost_usd +ℤ cost;
  unknown_cost_events = a.unknown_cost_events -ℤ pos 1;
}

unfoldable pub complete_model_operation : ModelUsage → PipelineAccounting → PipelineAccounting
unfolding add_cost
complete_model_operation usage a = add_cost usage.estimated_cost_usd (record a {
  model_api_call_count = a.model_api_call_count +ℤ (usage.call_count -ℤ pos 1);
  prompt_tokens = a.prompt_tokens +ℤ usage.prompt_tokens;
  completion_tokens = a.completion_tokens +ℤ usage.completion_tokens;
  model_duration_ms = a.model_duration_ms +ℤ usage.duration_ms;
})

-- The arguments that `snapshot` passes to the constructor.
abbrev pub snapshot_fields : PipelineAccounting → PipelineAccountingSnapshot
snapshot_fields a = record {
  arxiv_operation_count = a.arxiv_operation_count;
  semantic_scholar_operation_count = a.semantic_scholar_operation_count;
  grobid_api_call_count = a.grobid_api_call_count;
  model_api_call_count = a.model_api_call_count;
  prompt_tokens = a.prompt_tokens;
  completion_tokens = a.completion_tokens;
  total_tokens = a.prompt_tokens +ℤ a.completion_tokens;
  model_duration_ms = a.model_duration_ms;
  estimated_cost_usd =
      if not (eqb_ℤ a.unknown_cost_events (pos 0)) then none else some a.estimated_cost_usd;
}

unfoldable pub snapshot : PipelineAccounting → Result PipelineAccountingSnapshot
unfolding make_snapshot
snapshot a = make_snapshot (snapshot_fields a)
