-- ===== src/Retry/Loop.antt =====
-- adapters/http_retry.py: `send_with_retry`, `_retry_delay` and `_bounded_sleep`.
-- What the loop does to the outside is written down: each reading of the clock, each send with its
-- timeout, each sleep, each response closed. The outside answers by functions of what happened so
-- far, so a statement about every `Environment` is one about every behaviour of clock and server.
-- The parsers of the Retry-After header (`float` and `parsedate_to_datetime`) are parameters. `now`
-- answers with an instant that UTC has, as `datetime.now(UTC)` does.
use domain_specific_paper_ha.Prelude.{
  ℕ, zero, suc, ◌^◌, Bool, not, ◌&&◌, ◌||◌, Option, none, some, String, List, ◌∷◌, ◌==◌,
  if◌then◌else◌,
}
use domain_specific_paper_ha.Prelude.Int.{
  ℤ, pos, pos_part, ◌+ℤ◌, ◌-ℤ◌, ◌*ℤ◌, leb_ℤ, ltb_ℤ, eqb_ℤ, min_ℤ, max_ℤ,
}
use domain_specific_paper_ha.Result.{
  timeout_error, assertion_error, overflow_error, Result, ok, err, map_ok,
}
use domain_specific_paper_ha.Exec.{Exec, pure, raise, ◌>>=◌, ◌>>◌}
use domain_specific_paper_ha.Retry.Policy.{HttpRetryPolicy}

pub record Response : Type 0 where
  pub status_code : ℕ
  -- the Retry-After header
  pub retry_after : Option String

-- The newest first.
pub data Event : Type 0 where
  clock_read : ℤ → Event
  sent : (timeout : ℤ) → Event
  slept : (delay : ℤ) → Event
  closed : Response → Event

abbrev pub History : Type 0
History = List Event

pub record Environment : Type 0 where
  pub monotonic : History → ℤ
  pub now : History → ℤ
  pub respond : History → ℤ → Result Response

-- What `float(text)` gives.
pub data Float : Type 0 where
  finite : ℤ → Float
  not_finite : Float

-- The last instant of a `datetime` in UTC, in microseconds since the start of the year 1.
abbrev pub datetime_max : ℤ
datetime_max = pos 315537897599999999

-- What `parsedate_to_datetime` gives: the instant that its fields denote in its own zone, or, with
-- no zone, in UTC.
pub data ParsedDate : Type 0 where
  aware : ℤ → ParsedDate
  naive : ℤ → ParsedDate

-- `replace(tzinfo=UTC)` where there is no zone, and `astimezone(UTC)`, which raises where the instant is
-- out of the years of UTC.
unfoldable pub as_utc : ParsedDate → Result ℤ
as_utc (aware t) =
    if leb_ℤ (pos 0) t && leb_ℤ t datetime_max
    then ok t
    else err (overflow_error "date value out of range")
as_utc (naive t) = ok t

unfoldable pub retryable_http_status : ℕ → Bool
retryable_http_status s = s == 429 || (s == 500 || (s == 502 || s == 503))

unfoldable pub attempted : {A : Type 0} → Exec History A → Exec History (Result A)
attempted m h = let (r, h') = m h in (ok r, h')

module _ (parse_float : String → Option Float) (parse_date : String → Option ParsedDate)
    (env : Environment) (policy : HttpRetryPolicy) where
  unfoldable pub read_clock : Exec History ℤ
  read_clock h = let t = env.monotonic h in (ok t, clock_read t ∷ h)

  unfoldable pub send : ℤ → Exec History Response
  send timeout h = (env.respond h timeout, sent timeout ∷ h)

  unfoldable pub sleep : ℤ → Exec History (Unit {0})
  sleep delay h = (ok tt, slept delay ∷ h)

  unfoldable pub close : Response → Exec History (Unit {0})
  close response h = (ok tt, closed response ∷ h)

  unfoldable pub bounded_sleep : ℤ → ℤ → Exec History (Unit {0})
  unfolding read_clock sleep
  bounded_sleep delay deadline = do
    t ← read_clock
    if ltb_ℤ (deadline -ℤ t) delay
        then raise (timeout_error "HTTP retry would exceed its total timeout")
        else sleep delay

  abbrev fallback_delay : ℕ → ℤ
  fallback_delay attempt = min_ℤ (2 ^ attempt *ℤ policy.backoff) policy.max_retry_after

  abbrev bounded_delay : ℤ → Float → Option ℤ
  bounded_delay fallback not_finite = some fallback
  bounded_delay fallback (finite delay) =
      if ltb_ℤ delay (pos 0)
      then some fallback
      else if ltb_ℤ policy.max_retry_after delay
      then none
      else some (max_ℤ (pos 0) delay)

  abbrev date_delay : ℤ → Option ParsedDate → ℤ → Result (Option ℤ)
  date_delay fallback none now = ok (some fallback)
  date_delay fallback (some retry_at) now =
      map_ok (λ at. bounded_delay fallback (finite (max_ℤ (pos 0) (at -ℤ now)))) (as_utc retry_at)

  abbrev header_delay : ℤ → String → Option Float → ℤ → Result (Option ℤ)
  header_delay fallback header none now = date_delay fallback (parse_date header) now
  header_delay fallback header (some delay) now = ok (bounded_delay fallback delay)

  -- `none` where the header asks for more than the policy allows.
  unfoldable pub retry_delay : Option String → ℕ → ℤ → Result (Option ℤ)
  unfolding as_utc
  retry_delay none attempt now = ok (some (fallback_delay attempt))
  retry_delay (some header) attempt now =
      header_delay (fallback_delay attempt) header (parse_float header) now

  unfoldable pub last_attempt : ℕ → Bool
  last_attempt attempt = eqb_ℤ (pos attempt) policy.max_retries

  unfoldable pub is_final : ℕ → Response → Bool
  unfolding last_attempt retryable_http_status
  is_final attempt response =
      not (retryable_http_status response.status_code) || last_attempt attempt

  -- After a response that may be retried.
  unfoldable pub retry_after :
      ℕ → ℤ → Response → Exec History Response → Result (Option ℤ) → Exec History Response
  retry_after attempt deadline response again (err e) = raise e
  retry_after attempt deadline response again (ok none) = pure response
  retry_after attempt deadline response again (ok (some delay)) = do
    close response
    bounded_sleep delay deadline
    again

  -- What follows a send in one round of the loop.
  unfoldable pub after_send :
      ℕ → ℤ → Exec History Response → Result Response → Exec History Response
  unfolding last_attempt is_final retry_after bounded_sleep close
  after_send attempt deadline again (err (timeout_error message)) =
      if last_attempt attempt
      then raise (timeout_error message)
      else (do bounded_sleep (fallback_delay attempt) deadline; again)
  after_send attempt deadline again (err e) = raise e
  after_send attempt deadline again (ok response) = do
    t ← read_clock
    if leb_ℤ (deadline -ℤ t) (pos 0)
        then (do close response; raise (timeout_error "HTTP operation exceeded its total timeout"))
        else if is_final attempt response
        then pure response
        else λ h.
            retry_after attempt deadline response again
              (retry_delay response.retry_after attempt (env.now h)) h

  -- One round of the loop; `again` is what `continue` leads to.
  unfoldable pub round : ℕ → ℤ → Exec History Response → Exec History Response
  unfolding attempted read_clock send after_send
  round attempt deadline again = do
    t ← read_clock
    let remaining = deadline -ℤ t
    if leb_ℤ remaining (pos 0)
        then raise (timeout_error "HTTP operation exceeded its total timeout")
        else do
          result ← attempted (send (min_ℤ policy.request_timeout remaining))
          after_send attempt deadline again result

  -- `for attempt in range(policy.max_retries + 1)`, with the rounds that are left.
  unfoldable pub loop : ℕ → ℕ → ℤ → Exec History Response
  loop zero attempt deadline = raise (assertion_error "bounded retry loop must return or raise")
  loop (suc left) attempt deadline =
      let again = loop left (suc attempt) deadline in round attempt deadline again

  unfoldable pub send_with_retry : Exec History Response
  unfolding loop round read_clock
  send_with_retry = do
    t ← read_clock
    loop (pos_part (policy.max_retries +ℤ pos 1)) 0 (t +ℤ policy.total_timeout)
