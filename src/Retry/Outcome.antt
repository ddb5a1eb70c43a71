-- ===== src/Retry/Outcome.antt =====
-- What `send_with_retry` returns or raises, and why it stops.
use domain_specific_paper_ha.Prelude.{
  ℕ, zero, suc, ◌+◌, ◌^◌, ◌≡◌, ◌≢◌, refl, sym, ap, ◌∙◌, ◌⊎◌, inl, inr, true, false, Option, none,
  some, String, [], ◌∷◌, arith, Bool-cases, Option-cases, ◌&&◌,
}
use mathlib.Core.Logic.{⊎_elim}
use mathlib.Core.Path.{subst}
use domain_specific_paper_ha.Prelude.Int.{
  ℤ, pos, negsuc, pos_part, ◌+ℤ◌, ◌-ℤ◌, ◌*ℤ◌, ◌≤ℤ◌, ◌<ℤ◌, min_ℤ, leb_ℤ, eqb_ℤ_iff, int_laws,
}
use domain_specific_paper_ha.Result.{Error, timeout_error, overflow_error, Result, ok, err}
use domain_specific_paper_ha.Exec.{Exec, ◌>>◌}
use domain_specific_paper_ha.Retry.Policy.{HttpRetryPolicy, make_policy, make_policy-IsPolicy}
use domain_specific_paper_ha.Retry.Loop.{
  Response, clock_read, sent, slept, closed, History, Environment, Float, ParsedDate, aware, naive,
  datetime_max, as_utc, retryable_http_status, bounded_sleep, retry_delay, retry_after, after_send,
  round, loop, read_clock, close, send, sleep, attempted, last_attempt, is_final, send_with_retry,
}
use domain_specific_paper_ha.Retry.Trace.{sends}

before : (deadline now : ℤ) → leb_ℤ (deadline -ℤ now) (pos 0) ≡ false → now <ℤ deadline
unfolding ◌-ℤ◌
before deadline now h = ground arith

plus_one : (n : ℕ) → pos (suc n) ≡ pos n +ℤ pos 1
plus_one n = omega int_laws

none_left : (n : ℕ) (m : ℤ) → pos n ≡ m +ℤ pos 1 → pos n ≤ℤ m → ⊥
unfolding ◌+ℤ◌
none_left n m e h = ground arith

next_attempt : (n : ℕ) (m : ℤ) → pos n ≤ℤ m → pos n ≢ m → pos (suc n) ≤ℤ m
next_attempt n (pos m) h e = ground arith
next_attempt n (negsuc m) h e = absurd (omega arith)

rounds : (m : ℤ) → pos 0 ≤ℤ m → pos (pos_part (m +ℤ pos 1) + 0) ≡ m +ℤ pos 1
unfolding ◌+ℤ◌
rounds m h = ground arith

module _ (parse_float : String → Option Float) (parse_date : String → Option ParsedDate)
    (env : Environment) (policy : HttpRetryPolicy) where
  -- The response answers the last send and came before the deadline; and its status asks for no
  -- retry, or no attempt is left, or its Retry-After asks for more than the policy allows.
  abbrev pub IsReturned : ℤ → Response → History → Type 0
  IsReturned deadline r (clock_read t ∷ sent timeout ∷ h) =
      (env.respond h timeout ≡ ok r)
      × (t <ℤ deadline)
      × ((retryable_http_status r.status_code ≡ false)
          ⊎ ((pos (suc (sends h)) ≡ policy.max_retries +ℤ pos 1)
              ⊎ (retry_delay parse_float parse_date env policy r.retry_after (sends h)
                    (env.now (clock_read t ∷ sent timeout ∷ h))
                  ≡ ok none)))
  IsReturned deadline r _ = ⊥

  -- A timeout, or what the last send raised, or the overflow of the date in its answer's Retry-After.
  abbrev pub IsRaised : Error → History → Type 0
  IsRaised (timeout_error message) h = Unit
  IsRaised e (sent timeout ∷ h) = env.respond h timeout ≡ err e
  IsRaised e (clock_read t ∷ sent timeout ∷ h) =
      (r : Response) × (env.respond h timeout ≡ ok r)
      × (retryable_http_status r.status_code ≡ true)
      × (header : String) × (r.retry_after ≡ some header)
      × (parse_float header ≡ none)
      × (instant : ℤ) × (parse_date header ≡ some (aware instant))
      × ((instant <ℤ pos 0) ⊎ (datetime_max <ℤ instant))
      × (e ≡ overflow_error "date value out of range")
  IsRaised e _ = ⊥

  -- The only error of the delay is the overflow of a date that is out of the years of UTC.
  retry_delay-overflow :
      (header : Option String) (attempt : ℕ) (now : ℤ) (e : Error)
      → retry_delay parse_float parse_date env policy header attempt now ≡ err e
      → (text : String) × (header ≡ some text)
        × (parse_float text ≡ none)
        × (instant : ℤ) × (parse_date text ≡ some (aware instant))
        × ((instant <ℤ pos 0) ⊎ (datetime_max <ℤ instant))
        × (e ≡ overflow_error "date value out of range")
  unfolding retry_delay as_utc
  retry_delay-overflow none attempt now e h = cc
  retry_delay-overflow (some text) attempt now e h = elim (Option-cases (parse_float text)) [
    | inr (x, f) ↦ let stuck : ◌≡◌ {A = Result (Option ℤ)} _ (err e) = simp f at h in cc
    | inl f ↦ elim (Option-cases (parse_date text)) [
      | inl d ↦ let stuck : ◌≡◌ {A = Result (Option ℤ)} _ (err e) = simp (f, d) at h in cc
      | inr (naive t, d) ↦
          let stuck : ◌≡◌ {A = Result (Option ℤ)} _ (err e) = simp (f, d) at h in cc
      | inr (aware t, d) ↦ elim (Bool-cases (leb_ℤ (pos 0) t && leb_ℤ t datetime_max)) [
        | inl within ↦
            let stuck : ◌≡◌ {A = Result (Option ℤ)} _ (err e) = simp (f, d, within) at h in cc
        | inr outside ↦
            let raised : ◌≡◌ {A = Result (Option ℤ)}
                (err (overflow_error "date value out of range")) (err e) =
              simp (f, d, outside) at h in
            (
              text,
              refl,
              f,
              t,
              d,
              elim (Bool-cases (leb_ℤ (pos 0) t)) [
                | inl late ↦ inr (ground (arith, late, outside))
                | inr early ↦ inl (ground (arith, early))
              ],
              cc,
            )
      ]
    ]
  ]

  abbrev pub IsOutcome : ℤ → Result Response → History → Type 0
  IsOutcome deadline (ok r) h = IsReturned deadline r h
  IsOutcome deadline (err e) h = IsRaised e h

  module _ (deadline : ℤ) (again : Exec History Response) (attempt : ℕ)
      (ih : (h : History)
        → pos attempt ≢ policy.max_retries
        → sends h ≡ suc attempt
        → IsOutcome deadline (again h).0 (again h).1) where
    abbrev IsDone : Exec History Response → History → Type 0
    IsDone m h = IsOutcome deadline (m h).0 (m h).1

    sleep_again-IsDone :
        (d : ℤ) (h : History)
        → pos attempt ≢ policy.max_retries
        → sends h ≡ suc attempt
        → IsDone (bounded_sleep parse_float parse_date env policy d deadline >> again) h
    unfolding bounded_sleep read_clock sleep
    sleep_again-IsDone d h more count =
        ground (arith, ih (slept d ∷ clock_read (env.monotonic h) ∷ h))

    retry_after-IsDone :
        (r : Response) (d : Result (Option ℤ)) (h : History)
        → pos attempt ≢ policy.max_retries
        → sends h ≡ suc attempt
        → (d ≡ ok none → IsReturned deadline r h)
        → ((e : Error) → d ≡ err e → IsRaised e h)
        → IsDone (retry_after parse_float parse_date env policy attempt deadline r again d) h
    unfolding retry_after close
    retry_after-IsDone r (err e) h more count give_up fails = fails e refl
    retry_after-IsDone r (ok none) h more count give_up fails = give_up refl
    retry_after-IsDone r (ok (some d)) h more count give_up fails =
        sleep_again-IsDone d (closed r ∷ h) more count

    stop_reason :
        (r : Response) (h : History)
        → sends h ≡ attempt
        → is_final parse_float parse_date env policy attempt r ≡ true
        → (retryable_http_status r.status_code ≡ false)
          ⊎ (pos (suc (sends h)) ≡ policy.max_retries +ℤ pos 1)
    unfolding is_final last_attempt
    stop_reason r h count final =
        ground (arith, eqb_ℤ_iff (pos attempt) policy.max_retries, plus_one (sends h))

    still_retryable :
        (r : Response)
        → is_final parse_float parse_date env policy attempt r ≡ false
        → retryable_http_status r.status_code ≡ true
    unfolding is_final
    still_retryable r more = ground (arith, more)

    not_last :
        (r : Response)
        → is_final parse_float parse_date env policy attempt r ≡ false
        → pos attempt ≢ policy.max_retries
    unfolding is_final last_attempt
    not_last r more last = ground (arith, eqb_ℤ_iff (pos attempt) policy.max_retries)

    after_send-IsDone :
        (result : Result Response) (h : History) (timeout : ℤ)
        → env.respond h timeout ≡ result
        → sends h ≡ attempt
        → IsDone
            (after_send parse_float parse_date env policy attempt deadline again result)
            (sent timeout ∷ h)
    unfolding after_send read_clock close
    after_send-IsDone (err (timeout_error m)) h timeout e count = ground (
      arith,
      sleep_again-IsDone (min_ℤ (2 ^ attempt *ℤ policy.backoff) policy.max_retry_after)
          (sent timeout ∷ h),
    )
    after_send-IsDone (ok r) h timeout e count =
        let now = env.monotonic (sent timeout ∷ h) in
        let h' = clock_read now ∷ sent timeout ∷ h in
        let d = retry_delay parse_float parse_date env policy r.retry_after attempt (env.now h') in
        elim (Bool-cases (leb_ℤ (deadline -ℤ now) (pos 0))) [
          | inl late ↦ rw (late, after_send) tt
          | inr early ↦ elim (Bool-cases (is_final parse_float parse_date env policy attempt r)) [
            | inl final ↦
                rw (early, final, after_send)
                  (
                    e,
                    before deadline now early,
                    ⊎_elim inl (λ q. inr (inl q)) (stop_reason r h count final),
                  )
            | inr more ↦
                rw (early, more, after_send)
                  (retry_after-IsDone r d h' (not_last r more) (ap suc count)
                    (λ none_left. (e, before deadline now early, inr (inr (rw count none_left))))
                    (λ x fails.
                      let (text, header, number, instant, date, far, same) =
                        retry_delay-overflow r.retry_after attempt (env.now h') x fails in
                      subst (λ y. IsRaised y h') (sym same)
                        (
                          r,
                          e,
                          still_retryable r more,
                          text,
                          header,
                          number,
                          instant,
                          date,
                          far,
                          refl,
                        )))
          ]
        ]
    after_send-IsDone (err x) h timeout e count = e

    round-IsDone :
        (h : History)
        → sends h ≡ attempt
        → IsDone (round parse_float parse_date env policy attempt deadline again) h
    unfolding round read_clock send attempted
    round-IsDone h count =
        let now = env.monotonic h in
        let t = min_ℤ policy.request_timeout (deadline -ℤ now) in
        let h' = clock_read now ∷ h in
        ground (arith, after_send-IsDone (env.respond h' t) h' t refl count)

  loop-IsOutcome :
      (left attempt : ℕ) (deadline : ℤ) (h : History)
      → pos (left + attempt) ≡ policy.max_retries +ℤ pos 1
      → pos attempt ≤ℤ policy.max_retries
      → sends h ≡ attempt
      → IsOutcome deadline
          (loop parse_float parse_date env policy left attempt deadline h).0
          (loop parse_float parse_date env policy left attempt deadline h).1
  unfolding loop
  loop-IsOutcome zero attempt deadline h total few count =
      absurd (none_left attempt policy.max_retries (ap pos (omega arith) ∙ total) few)
  loop-IsOutcome (suc left) attempt deadline h total few count =
      round-IsDone deadline (loop parse_float parse_date env policy left (suc attempt) deadline)
        attempt
        (λ h' more count'.
          loop-IsOutcome left (suc attempt) deadline h' (ap pos (omega arith) ∙ total)
            (next_attempt attempt policy.max_retries few more) count')
        h count

  -- Under a policy that its constructor accepts the loop ends by returning the answer to its last
  -- send, before the deadline, because its status asks for no retry, or all attempts are used up,
  -- or its Retry-After asks for more than the policy allows; or by raising a timeout; or by raising
  -- what the last send raised; or by an overflow, where that answer asks for a retry and its
  -- Retry-After is a date that is out of the years of UTC. It never runs out of its range.
  pub send_with_retry-IsOutcome :
      make_policy policy ≡ ok policy
      → IsOutcome
          (env.monotonic [] +ℤ policy.total_timeout)
          (send_with_retry parse_float parse_date env policy []).0
          (send_with_retry parse_float parse_date env policy []).1
  unfolding send_with_retry
  send_with_retry-IsOutcome valid =
      let p = make_policy-IsPolicy policy valid in
      loop-IsOutcome (pos_part (policy.max_retries +ℤ pos 1)) 0
        (env.monotonic [] +ℤ policy.total_timeout) (clock_read (env.monotonic []) ∷ [])
        (rounds policy.max_retries p.retries) p.retries refl
