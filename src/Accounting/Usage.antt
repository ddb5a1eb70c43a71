-- ===== src/Accounting/Usage.antt =====
-- domain/analysis.py: `ModelUsage`, the usage that a model call reports, and its bounds.
-- A `Decimal` cost is a number of 10^-8 US dollars, the scale of the bound on it; a cost that is
-- no finite number does not arise, since the program refuses one.
use domain_specific_paper_ha.Prelude.{List, [], ◌∷◌, Option, some, ◌≡◌, arith, not, option_is}
use domain_specific_paper_ha.Prelude.Int.{
  ℤ, pos, ◌+ℤ◌, ◌≤ℤ◌, ltb_ℤ, eqb_ℤ, max_ℤ, min_of, min_of-AtLeast,
}
use domain_specific_paper_ha.Result.{
  domain_invariant, Result, ok, Check, validated, validated-eq-ok,
}

abbrev pub max_model_token_count : ℤ
max_model_token_count = pos 1000000

abbrev pub max_model_completion_token_count : ℤ
max_model_completion_token_count = pos 16000

abbrev pub max_model_duration_ms : ℤ
max_model_duration_ms = pos 1800000

abbrev pub max_model_call_count : ℤ
max_model_call_count = pos 4

-- 9999999999.99999999 US dollars.
abbrev pub max_model_estimated_cost_usd : ℤ
max_model_estimated_cost_usd = pos 999999999999999999

pub record ModelUsage : Type 0 where
  pub prompt_tokens : ℤ
  pub completion_tokens : ℤ
  pub total_tokens : ℤ
  pub call_count : ℤ
  pub duration_ms : ℤ
  pub estimated_cost_usd : Option ℤ

usage_checks : ModelUsage → List Check
usage_checks u =
    (
      ltb_ℤ
          (min_of u.prompt_tokens
            (u.completion_tokens ∷ u.total_tokens ∷ u.call_count ∷ u.duration_ms ∷ []))
          (pos 0),
      domain_invariant "model usage values cannot be negative",
    )
    ∷ (
      not (eqb_ℤ u.total_tokens (u.prompt_tokens +ℤ u.completion_tokens)),
      domain_invariant "total tokens must equal prompt plus completion tokens",
    )
    ∷ (ltb_ℤ u.call_count (pos 1), domain_invariant "model call count must be positive")
    ∷ (
      ltb_ℤ max_model_token_count
          (max_ℤ (max_ℤ u.prompt_tokens u.completion_tokens) u.total_tokens),
      domain_invariant "model token counts exceed the persistence bound",
    )
    ∷ (
      ltb_ℤ max_model_completion_token_count u.completion_tokens,
      domain_invariant "model completion tokens exceed the configured output bound",
    )
    ∷ (
      ltb_ℤ max_model_call_count u.call_count,
      domain_invariant "model call count exceeds the persistence bound",
    )
    ∷ (
      ltb_ℤ max_model_duration_ms u.duration_ms,
      domain_invariant "model duration exceeds the persistence bound",
    )
    ∷ (
      option_is (λ c. ltb_ℤ c (pos 0)) u.estimated_cost_usd,
      domain_invariant "estimated model cost cannot be negative",
    )
    ∷ (
      option_is (λ c. ltb_ℤ max_model_estimated_cost_usd c) u.estimated_cost_usd,
      domain_invariant "estimated model cost exceeds the persistence bound",
    )
    ∷ []

-- `ModelUsage(...)`: the object, or what `__post_init__` raises.
unfoldable pub make_model_usage : ModelUsage → Result ModelUsage
unfolding usage_checks
make_model_usage u = validated u (usage_checks u)

pub record IsUsage (u : ModelUsage) : Type 0 where
  pub prompt : pos 0 ≤ℤ u.prompt_tokens
  pub completion : pos 0 ≤ℤ u.completion_tokens
  pub calls : pos 1 ≤ℤ u.call_count
  pub duration : pos 0 ≤ℤ u.duration_ms
  pub cost : (c : ℤ) → u.estimated_cost_usd ≡ some c → pos 0 ≤ℤ c

-- A usage object holds no negative value, and at least one call.
pub make_model_usage-IsUsage : (u : ModelUsage) → make_model_usage u ≡ ok u → IsUsage u
unfolding make_model_usage
make_model_usage-IsUsage u h =
    let checked = (validated-eq-ok u (usage_checks u) h).1 in
    let counts =
      min_of-AtLeast (pos 0) u.prompt_tokens
        (u.completion_tokens ∷ u.total_tokens ∷ u.call_count ∷ u.duration_ms ∷ []) checked.0 in
    record {
      prompt = counts.0;
      completion = counts.1.0;
      calls = ground arith;
      duration = counts.1.1.1.1.0;
      cost = λ c e. ground arith;
    }
