-- ===== src/Retry/Policy.antt =====
-- adapters/http_retry.py: `HttpRetryPolicy`. A duration or an instant, a float of seconds in the
-- program, is a number of microseconds; rounding of floats is not modelled.
use domain_specific_paper_ha.Prelude.{ℕ, ◌*◌, ◌≡◌, List, [], ◌∷◌, not, ◌&&◌, arith}
use domain_specific_paper_ha.Prelude.Int.{ℤ, pos, ◌≤ℤ◌, leb_ℤ}
use domain_specific_paper_ha.Result.{value_error, Result, ok, Check, validated, validated-eq-ok}

abbrev pub seconds : ℕ → ℤ
seconds n = pos (n * 1000000)

pub record HttpRetryPolicy : Type 0 where
  pub max_retries : ℤ
  pub request_timeout : ℤ
  pub total_timeout : ℤ
  pub backoff : ℤ
  pub max_retry_after : ℤ

policy_checks : HttpRetryPolicy → List Check
policy_checks p =
    (
      not (leb_ℤ (pos 0) p.max_retries && leb_ℤ p.max_retries (pos 3)),
      value_error "max_retries must be between 0 and 3",
    )
    ∷ (
      not (leb_ℤ (seconds 1) p.request_timeout && leb_ℤ p.request_timeout (seconds 600)),
      value_error "request timeout must be between 1 and 600 seconds",
    )
    ∷ (
      not (leb_ℤ p.request_timeout p.total_timeout && leb_ℤ p.total_timeout (seconds 1800)),
      value_error "total timeout must be bounded and at least the request timeout",
    )
    ∷ (
      not (leb_ℤ (pos 0) p.backoff && leb_ℤ p.backoff (seconds 30)),
      value_error "retry backoff must be between 0 and 30 seconds",
    )
    ∷ (
      not (leb_ℤ (seconds 1) p.max_retry_after && leb_ℤ p.max_retry_after (seconds 300)),
      value_error "Retry-After bound must be between 1 and 300 seconds",
    )
    ∷ []

-- `HttpRetryPolicy(...)`: the object, or what `__post_init__` raises.
unfoldable pub make_policy : HttpRetryPolicy → Result HttpRetryPolicy
unfolding policy_checks
make_policy p = validated p (policy_checks p)

pub record IsPolicy (p : HttpRetryPolicy) : Type 0 where
  pub retries : pos 0 ≤ℤ p.max_retries
  pub few : p.max_retries ≤ℤ pos 3
  pub request : seconds 1 ≤ℤ p.request_timeout
  pub backoff : pos 0 ≤ℤ p.backoff
  pub retry_after : seconds 1 ≤ℤ p.max_retry_after

pub make_policy-IsPolicy : (p : HttpRetryPolicy) → make_policy p ≡ ok p → IsPolicy p
unfolding make_policy
make_policy-IsPolicy p h = let checked = (validated-eq-ok p (policy_checks p) h).1 in ground arith
