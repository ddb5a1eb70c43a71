-- ===== src/Retry/Examples.antt =====
-- A server that is overloaded twice, and the theorems about the retry loop against it.
use domain_specific_paper_ha.Prelude.{
  ◌≡◌, refl, Option, none, some, String, [], arith, length, ltb, if◌then◌else◌,
}
use domain_specific_paper_ha.Prelude.Int.{pos, ◌+ℤ◌, ◌-ℤ◌, ◌*ℤ◌, ◌≤ℤ◌}
use domain_specific_paper_ha.Result.{ok, err, overflow_error}
use domain_specific_paper_ha.Retry.Policy.{
  HttpRetryPolicy, seconds, make_policy, make_policy-IsPolicy,
}
use domain_specific_paper_ha.Retry.Loop.{
  Response, Environment, Float, finite, ParsedDate, aware, as_utc, retry_delay,
  retryable_http_status, send_with_retry,
}
use domain_specific_paper_ha.Retry.Trace.{
  sends, IsSafe, send_with_retry-IsSafe, send_with_retry-sends,
}
use domain_specific_paper_ha.Retry.Outcome.{IsOutcome, send_with_retry-IsOutcome}

abbrev policy : HttpRetryPolicy
policy = record {
  max_retries = pos 2;
  request_timeout = seconds 60;
  total_timeout = seconds 180;
  backoff = seconds 1;
  max_retry_after = seconds 30;
}

abbrev busy : Response
busy = record { status_code = 503; retry_after = some "5" }

abbrev done : Response
done = record { status_code = 200; retry_after = none }

abbrev number_of : String → Option Float
number_of s = some (finite (seconds 5))

abbrev no_date : String → Option ParsedDate
no_date s = none

-- A second passes with each thing that happens.
abbrev server : Environment
server = record {
  monotonic = λ h. seconds (length h);
  now = λ h. seconds (length h);
  respond = λ h timeout. if ltb (sends h) 2 then ok busy else ok done;
}

served : (send_with_retry number_of no_date server policy []).0 ≡ ok done
unfolding send_with_retry retry_delay retryable_http_status ◌+ℤ◌ ◌-ℤ◌ ◌*ℤ◌
served = refl

abbrev no_number : String → Option Float
no_number s = none

-- The last second of the year 9999, an hour west of UTC.
abbrev late_date : String → Option ParsedDate
late_date s = some (aware (pos 315537901199000000))

late_date_raises :
    (send_with_retry no_number late_date server policy []).0
    ≡ err (overflow_error "date value out of range")
unfolding send_with_retry retry_delay as_utc retryable_http_status ◌+ℤ◌ ◌-ℤ◌ ◌*ℤ◌
late_date_raises = refl

send_with_retry-IsSafe_example :
    IsSafe policy (pos 0 +ℤ seconds 180) (send_with_retry number_of no_date server policy []).1
unfolding make_policy
send_with_retry-IsSafe_example =
    send_with_retry-IsSafe number_of no_date server policy (make_policy-IsPolicy policy refl)

send_with_retry-sends_example :
    pos (sends (send_with_retry number_of no_date server policy []).1) ≤ℤ pos 2 +ℤ pos 1
send_with_retry-sends_example = send_with_retry-sends number_of no_date server policy (omega arith)

send_with_retry-IsOutcome_example :
    IsOutcome number_of no_date server policy
      (pos 0 +ℤ seconds 180)
      (send_with_retry number_of no_date server policy []).0
      (send_with_retry number_of no_date server policy []).1
unfolding make_policy
send_with_retry-IsOutcome_example = send_with_retry-IsOutcome number_of no_date server policy refl
