-- ===== src/Retry/Trace.antt =====
-- What `send_with_retry` does to the outside, whatever the clock and the server do.
use domain_specific_paper_ha.Prelude.{
  ℕ, zero, suc, ◌+◌, ◌≤◌, ◌^◌, ◌≡◌, refl, Option, none, some, String, [], ◌∷◌, arith,
}
use domain_specific_paper_ha.Prelude.Int.{
  ℤ, pos, pos_part, ◌+ℤ◌, ◌-ℤ◌, ◌*ℤ◌, ◌≤ℤ◌, ◌<ℤ◌, *ℤ_nonneg, min_ℤ, int_laws, neg_part_of_nonneg,
}
use domain_specific_paper_ha.Result.{timeout_error, Result, ok, err}
use domain_specific_paper_ha.Exec.{Exec, ◌>>◌}
use domain_specific_paper_ha.Retry.Policy.{HttpRetryPolicy, IsPolicy}
use domain_specific_paper_ha.Retry.Loop.{
  Response, Event, clock_read, sent, slept, closed, History, Environment, Float, ParsedDate,
  bounded_sleep, retry_delay, retry_after, after_send, round, loop, read_clock, close, send, sleep,
  attempted, send_with_retry,
}

-- A send has a positive timeout within the policy, a sleep is not negative and within the policy,
-- and neither outlasts the deadline at the clock reading just before it.
abbrev pub IsSafeStep : HttpRetryPolicy → ℤ → Event → History → Type 0
IsSafeStep p deadline (sent t) (clock_read now ∷ h) =
    (pos 0 <ℤ t) × (t ≤ℤ p.request_timeout) × (t ≤ℤ deadline -ℤ now)
IsSafeStep p deadline (slept d) (clock_read now ∷ h) =
    (pos 0 ≤ℤ d) × (d ≤ℤ p.max_retry_after) × (d ≤ℤ deadline -ℤ now)
IsSafeStep p deadline (clock_read now) h = Unit
IsSafeStep p deadline (closed r) h = Unit
IsSafeStep p deadline _ _ = ⊥

abbrev pub IsSafe : HttpRetryPolicy → ℤ → History → Type 0
IsSafe p deadline [] = Unit
IsSafe p deadline (e ∷ h) = IsSafeStep p deadline e h × IsSafe p deadline h

abbrev pub sends : History → ℕ
sends [] = 0
sends (sent t ∷ h) = suc (sends h)
sends (clock_read t ∷ h) = sends h
sends (slept d ∷ h) = sends h
sends (closed r ∷ h) = sends h

module _ (parse_float : String → Option Float) (parse_date : String → Option ParsedDate)
    (env : Environment) (policy : HttpRetryPolicy) where
  abbrev delay_of : Option String → ℕ → ℤ → Result (Option ℤ)
  delay_of = retry_delay parse_float parse_date env policy

  module _ (valid : IsPolicy policy) where
    fallback_bounds :
        (n : ℕ)
        → (pos 0 ≤ℤ min_ℤ (n *ℤ policy.backoff) policy.max_retry_after)
          × (min_ℤ (n *ℤ policy.backoff) policy.max_retry_after ≤ℤ policy.max_retry_after)
    fallback_bounds n = ground (arith, *ℤ_nonneg n policy.backoff valid.backoff)

    delay_bounds :
        (header : Option String) (attempt : ℕ) (now d : ℤ)
        → delay_of header attempt now ≡ ok (some d)
        → (pos 0 ≤ℤ d) × (d ≤ℤ policy.max_retry_after)
    unfolding retry_delay
    delay_bounds header attempt now d h = ground (arith, fallback_bounds (2 ^ attempt))

    bounded_sleep-IsSafe :
        (d deadline : ℤ) (h : History)
        → pos 0 ≤ℤ d
        → d ≤ℤ policy.max_retry_after
        → IsSafe policy deadline h
        → IsSafe policy deadline (bounded_sleep parse_float parse_date env policy d deadline h).1
    unfolding bounded_sleep
    bounded_sleep-IsSafe d deadline h low high s = ground arith

    module _ (deadline : ℤ) (again : Exec History Response)
        (ih : (h : History) → IsSafe policy deadline h → IsSafe policy deadline (again h).1) where
      sleep_again-IsSafe :
          (d : ℤ) (h : History)
          → pos 0 ≤ℤ d
          → d ≤ℤ policy.max_retry_after
          → IsSafe policy deadline h
          → IsSafe policy deadline
              ((bounded_sleep parse_float parse_date env policy d deadline >> again) h).1
      unfolding bounded_sleep
      sleep_again-IsSafe d h low high s =
          ground (arith, ih (slept d ∷ clock_read (env.monotonic h) ∷ h))

      retry_after-IsSafe :
          (attempt : ℕ) (r : Response) (d : Result (Option ℤ)) (h : History)
          → ((x : ℤ) → d ≡ ok (some x) → (pos 0 ≤ℤ x) × (x ≤ℤ policy.max_retry_after))
          → IsSafe policy deadline h
          → IsSafe policy deadline
              (retry_after parse_float parse_date env policy attempt deadline r again d h).1
      unfolding retry_after close
      retry_after-IsSafe attempt r (err e) h b s = s
      retry_after-IsSafe attempt r (ok none) h b s = s
      retry_after-IsSafe attempt r (ok (some d)) h b s =
          let (low, high) = b d refl in sleep_again-IsSafe d (closed r ∷ h) low high (tt, s)

      after_send-IsSafe :
          (attempt : ℕ) (result : Result Response) (h : History)
          → IsSafe policy deadline h
          → IsSafe policy deadline
              (after_send parse_float parse_date env policy attempt deadline again result h).1
      unfolding after_send read_clock close
      after_send-IsSafe attempt (err (timeout_error m)) h s =
          let (low, high) = fallback_bounds (2 ^ attempt) in
          ground (
            arith,
            sleep_again-IsSafe (min_ℤ (2 ^ attempt *ℤ policy.backoff) policy.max_retry_after) h low
                high s,
          )
      after_send-IsSafe attempt (ok r) h s =
          let h' = clock_read (env.monotonic h) ∷ h in
          let d = delay_of r.retry_after attempt (env.now h') in
          ground (
            arith,
            retry_after-IsSafe attempt r d h'
                (λ x e. delay_bounds r.retry_after attempt (env.now h') x e) (tt, s),
          )
      after_send-IsSafe attempt (err e) h s = s

      round-IsSafe :
          (attempt : ℕ) (h : History)
          → IsSafe policy deadline h
          → IsSafe policy deadline
              (round parse_float parse_date env policy attempt deadline again h).1
      unfolding round read_clock send attempted
      round-IsSafe attempt h s =
          let now = env.monotonic h in
          let t = min_ℤ policy.request_timeout (deadline -ℤ now) in
          let h' = clock_read now ∷ h in
          ground (arith, valid.request, after_send-IsSafe attempt (env.respond h' t) (sent t ∷ h'))

    loop-IsSafe :
        (left attempt : ℕ) (deadline : ℤ) (h : History)
        → IsSafe policy deadline h
        → IsSafe policy deadline (loop parse_float parse_date env policy left attempt deadline h).1
    unfolding loop
    loop-IsSafe zero attempt deadline h s = s
    loop-IsSafe (suc left) attempt deadline h s =
        round-IsSafe deadline (loop parse_float parse_date env policy left (suc attempt) deadline)
          (loop-IsSafe left (suc attempt) deadline) attempt h s

    -- Under a policy that its constructor accepts, every send has a positive timeout within
    -- `request_timeout`, every sleep lies between zero and the Retry-After bound, and neither is
    -- longer than what the last clock reading leaves of the total timeout.
    pub send_with_retry-IsSafe :
        IsSafe policy
          (env.monotonic [] +ℤ policy.total_timeout)
          (send_with_retry parse_float parse_date env policy []).1
    unfolding send_with_retry
    send_with_retry-IsSafe = loop-IsSafe _ 0 _ (clock_read (env.monotonic []) ∷ []) (tt, tt)

  module _ (deadline : ℤ) (again : Exec History Response) (n : ℕ) where
    abbrev Spends : Exec History Response → ℕ → Type 0
    Spends m k = (h : History) → sends (m h).1 ≤ sends h + k

    retry_after-sends :
        (attempt : ℕ) (r : Response) (d : Result (Option ℤ))
        → Spends again n
        → Spends (retry_after parse_float parse_date env policy attempt deadline r again d) n
    unfolding retry_after close bounded_sleep read_clock sleep
    retry_after-sends attempt r (err e) ih h = omega arith
    retry_after-sends attempt r (ok none) ih h = omega arith
    retry_after-sends attempt r (ok (some d)) ih h =
        let h' = closed r ∷ h in ground (arith, ih (slept d ∷ clock_read (env.monotonic h') ∷ h'))

    after_send-sends :
        (attempt : ℕ) (result : Result Response)
        → Spends again n
        → Spends (after_send parse_float parse_date env policy attempt deadline again result) n
    unfolding after_send read_clock close bounded_sleep retry_after sleep
    after_send-sends attempt (err (timeout_error m)) ih h =
        let now = env.monotonic h in
        ground (
          arith,
          ih (
              slept (min_ℤ (2 ^ attempt *ℤ policy.backoff) policy.max_retry_after)
              ∷ clock_read now
              ∷ h),
        )
    after_send-sends attempt (ok r) ih h =
        let h' = clock_read (env.monotonic h) ∷ h in
        let d = delay_of r.retry_after attempt (env.now h') in
        ground (arith, retry_after-sends attempt r d ih h')
    after_send-sends attempt (err e) ih h = omega arith

    round-sends :
        (attempt : ℕ)
        → Spends again n
        → Spends (round parse_float parse_date env policy attempt deadline again) (suc n)
    unfolding round read_clock send attempted
    round-sends attempt ih h =
        let now = env.monotonic h in
        let t = min_ℤ policy.request_timeout (deadline -ℤ now) in
        let h' = clock_read now ∷ h in
        ground (arith, after_send-sends attempt (env.respond h' t) ih (sent t ∷ h'))

  loop-sends :
      (left attempt : ℕ) (deadline : ℤ) (h : History)
      → sends (loop parse_float parse_date env policy left attempt deadline h).1 ≤ sends h + left
  unfolding loop
  loop-sends zero attempt deadline h = omega arith
  loop-sends (suc left) attempt deadline h =
      round-sends deadline (loop parse_float parse_date env policy left (suc attempt) deadline) left
        attempt (loop-sends left (suc attempt) deadline) h

  -- One request and at most `max_retries` repetitions of it are sent.
  pub send_with_retry-sends :
      pos 0 ≤ℤ policy.max_retries
      → pos (sends (send_with_retry parse_float parse_date env policy []).1)
        ≤ℤ policy.max_retries +ℤ pos 1
  unfolding send_with_retry
  send_with_retry-sends h =
      let rounds = pos_part (policy.max_retries +ℤ pos 1) in
      omega (
        int_laws,
        neg_part_of_nonneg (policy.max_retries +ℤ pos 1) (omega int_laws),
        loop-sends rounds 0 (env.monotonic [] +ℤ policy.total_timeout)
            (clock_read (env.monotonic []) ∷ []),
      )
