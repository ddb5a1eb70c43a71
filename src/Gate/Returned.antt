-- ===== src/Gate/Returned.antt =====
-- Every use of the gate gives its connection back or throws it away, in order.
use domain_specific_paper_ha.Prelude.{
  ◌≡◌, refl, ap, Bool, true, false, Option, some, inl, inr, Bool-cases,
}
use domain_specific_paper_ha.Prelude.Int.{ℤ, pos, ◌+ℤ◌, ◌-ℤ◌, leb_ℤ}
use domain_specific_paper_ha.Result.{Result, ok, err}
use domain_specific_paper_ha.Exec.{◌>>=◌}
use domain_specific_paper_ha.Gate.Phase.{
  Phase, connected, configured, lock_sent, lock_committed, slept, request_sent, request_done,
  unlock_committed, invalidated, closed, idle, open_connection, uncertain, held, paced, serving,
  finished, discarded, advance_option,
}
use domain_specific_paper_ha.Gate.Coordinate.{
  Database, Coordination, DbAnswer, done, cancelled, failed, ConnectAnswer, pool_connection,
  pool_timeout, connect_failed, UnlockAnswer, unlocked, unlock_failed, min_request_gap,
  remaining_ms, call, happens, after_event, invalidate, acquired, opened, released,
  remaining_seconds, take_lock, acquire, unlock_answer, release, served, paced_request,
  with_connection, coordinate,
}
use domain_specific_paper_ha.Exec.Ends.{
  Ends, Ends-continue, Ends-weaken, Ends-cleaned_up, Ends-if, after_end, Ends-kept,
}

-- A connection that may be returned to the pool.
abbrev is_closable : Option Phase → Bool
is_closable (some open_connection) = true
is_closable (some discarded) = true
is_closable _ = false

-- A connection that holds the lock, with no request under way.
abbrev is_releasable : Option Phase → Bool
is_releasable (some held) = true
is_releasable (some paced) = true
is_releasable (some finished) = true
is_releasable _ = false

closed-idle : (p : Option Phase) → is_closable p ≡ true → advance_option p closed ≡ some idle
unfolding advance_option
closed-idle (some open_connection) h = refl
closed-idle (some discarded) h = refl
closed-idle _ h = cc

released-closable :
    (p : Option Phase)
    → is_releasable p ≡ true
    → advance_option p unlock_committed ≡ some open_connection
unfolding advance_option
released-closable (some held) h = refl
released-closable (some paced) h = refl
released-closable (some finished) h = refl
released-closable _ h = cc

discarded-closable :
    (p : Option Phase) → is_releasable p ≡ true → advance_option p invalidated ≡ some discarded
unfolding advance_option
discarded-closable (some held) h = refl
discarded-closable (some paced) h = refl
discarded-closable (some finished) h = refl
discarded-closable _ h = cc

module _ {W : Type 0} where
  abbrev IsIn : Phase → Coordination W → Type 0
  IsIn phase s = s.phase ≡ some phase

  abbrev IsClosable : Coordination W → Type 0
  IsClosable s = is_closable s.phase ≡ true

  abbrev IsReleasable : Coordination W → Type 0
  IsReleasable s = is_releasable s.phase ≡ true

module _ {W : Type 0} (db : Database W) where
  remaining_seconds-Ends :
      (P : Coordination W → Type 0) (deadline : ℤ) (s : Coordination W)
      → ((w : W) → P (record s { world = w }))
      → Ends P P (remaining_seconds db deadline s)
  unfolding remaining_seconds
  remaining_seconds-Ends P deadline s h =
      elim (Bool-cases (leb_ℤ (deadline -ℤ (db.monotonic s.world).0) (pos 0))) [
        | inl late ↦ rw late (h (db.monotonic s.world).1)
        | inr early ↦ rw early (h (db.monotonic s.world).1)
      ]

  acquired-Ends :
      (P : Coordination W → Type 0) (answer : DbAnswer) (s : Coordination W)
      → P s
      → Ends P P (acquired answer s)
  acquired-Ends P done s h = h
  acquired-Ends P cancelled s h = h
  acquired-Ends P failed s h = h

  statement-Ends :
      (phase : Phase) (f : W → DbAnswer × W) (s : Coordination W)
      → IsIn phase s
      → Ends (IsIn phase) (IsIn phase) ((call f >>= acquired) s)
  statement-Ends phase f s h = acquired-Ends (IsIn phase) (f s.world).0 _ h

  open-IsClosable : (s : Coordination W) → IsIn open_connection s → IsClosable s
  open-IsClosable s h = rw h refl

  committed_release :
      (answer : DbAnswer) (s : Coordination W)
      → IsReleasable s
      → Ends IsClosable IsReleasable (released answer s)
  committed_release done s h = rw (released-closable s.phase h) refl
  committed_release cancelled s h = h
  committed_release failed s h = h

  opened-Ends :
      (answer : ConnectAnswer) (s : Coordination W)
      → IsIn idle s
      → Ends (IsIn open_connection) (IsIn idle) (opened answer s)
  unfolding advance_option
  opened-Ends pool_connection s h = ap (λ p. advance_option p connected) h
  opened-Ends pool_timeout s h = h
  opened-Ends connect_failed s h = h

  held-IsReleasable : (s : Coordination W) → IsIn held s → IsReleasable s
  held-IsReleasable s h = rw h refl

  paced-IsReleasable : (s : Coordination W) → IsIn paced s → IsReleasable s
  paced-IsReleasable s h = rw h refl

  slept_state : Coordination W → Coordination W
  slept_state s = after_event slept (record s { world = db.sleep min_request_gap s.world })

  take_lock-Ends :
      (s : Coordination W)
      → IsIn open_connection s
      → Ends (IsIn held) (IsIn uncertain) (take_lock db s)
  unfolding take_lock advance_option
  take_lock-Ends s h =
      Ends-continue (IsIn held) (IsIn uncertain) (IsIn uncertain) _ _
        (statement-Ends uncertain db.advisory_lock (after_event lock_sent s)
          (ap (λ p. advance_option p lock_sent) h))
        (λ _ s₁ h₁.
          Ends-continue (IsIn held) (IsIn uncertain) (IsIn uncertain) _ _
            (statement-Ends uncertain db.commit s₁ h₁)
            (λ _ s₂ h₂. ap (λ p. advance_option p lock_committed) h₂))

  acquire-Ends :
      (deadline : ℤ) (s : Coordination W)
      → IsIn open_connection s
      → Ends (IsIn held) IsClosable (acquire db deadline s)
  unfolding acquire advance_option
  acquire-Ends deadline s h =
      Ends-continue (IsIn held) (IsIn open_connection) IsClosable _ _
        (Ends-weaken (IsIn open_connection) (IsIn open_connection) (IsIn open_connection) IsClosable
          _ (remaining_seconds-Ends (IsIn open_connection) deadline s (λ w. h)) (λ _ k. k)
          open-IsClosable)
        (λ remaining s₁ h₁.
          Ends-continue (IsIn held) (IsIn open_connection) IsClosable _ _
            (Ends-weaken (IsIn open_connection) (IsIn open_connection) (IsIn open_connection)
              IsClosable _
              (statement-Ends open_connection (db.set_statement_timeout (remaining_ms remaining)) s₁
                h₁)
              (λ _ k. k) open-IsClosable)
            (λ _ s₂ h₂.
              Ends-continue (IsIn held) (IsIn open_connection) IsClosable _ _
                (Ends-weaken (IsIn open_connection) (IsIn open_connection) (IsIn open_connection)
                  IsClosable _
                  (remaining_seconds-Ends (IsIn open_connection) deadline
                    (after_event configured s₂) (λ w. ap (λ p. advance_option p configured) h₂))
                  (λ _ k. k) open-IsClosable)
                (λ _ s₃ h₃.
                  Ends-cleaned_up (IsIn held) (IsIn uncertain) IsClosable invalidate
                    (take_lock db s₃) (take_lock-Ends s₃ h₃)
                    (λ s₄ h₄. ap (λ p. is_closable (advance_option p invalidated)) h₄))))

  unlock_answer-Ends :
      (answer : UnlockAnswer) (s : Coordination W)
      → IsReleasable s
      → Ends IsClosable IsReleasable (unlock_answer db answer s)
  unlock_answer-Ends (unlocked true) s h =
      committed_release (db.commit s.world).0 (record s { world = (db.commit s.world).1 }) h
  unlock_answer-Ends (unlocked false) s h = h
  unlock_answer-Ends unlock_failed s h = h

  release-Ends : (s : Coordination W) → IsReleasable s → Ends IsClosable IsClosable (release db s)
  unfolding release
  release-Ends s h =
      Ends-cleaned_up IsClosable IsReleasable IsClosable invalidate _
        (Ends-if IsClosable IsReleasable s.is_invalidated _ _ s h (
          unlock_answer-Ends (db.advisory_unlock s.world).0
            (record s { world = (db.advisory_unlock s.world).1 }) h))
        (λ s₁ h₁. rw (discarded-closable s₁.phase h₁) refl)

  module _ {A : Type 0} (request : W → Result A × W) where
    served-Ends :
        (s : Coordination W)
        → IsIn serving s
        → Ends (IsIn serving) (IsIn serving) (served db request s)
    served-Ends s h = same_phase (request s.world).0 h
      where
        same_phase :
            (r : Result A)
            → IsIn serving s
            → Ends (IsIn serving) (IsIn serving) (r, record s { world = (request s.world).1 })
        same_phase (ok v) h = h
        same_phase (err e) h = h

    paced_request-Ends :
        (deadline : ℤ) (s : Coordination W)
        → IsIn held s
        → Ends IsReleasable IsReleasable (paced_request db request deadline s)
    unfolding paced_request advance_option slept_state
    paced_request-Ends deadline s h =
        Ends-continue IsReleasable (IsIn held) IsReleasable _ _
          (Ends-weaken (IsIn held) (IsIn held) (IsIn held) IsReleasable _
            (remaining_seconds-Ends (IsIn held) deadline s (λ w. h)) (λ _ k. k) held-IsReleasable)
          (λ remaining s₁ h₁.
            Ends-if IsReleasable IsReleasable (leb_ℤ remaining min_request_gap) _ _ s₁
              (held-IsReleasable s₁ h₁)
              (Ends-continue IsReleasable (IsIn paced) IsReleasable _ _
                (Ends-weaken (IsIn paced) (IsIn paced) (IsIn paced) IsReleasable _
                  (remaining_seconds-Ends (IsIn paced) deadline (slept_state s₁)
                    (λ w. ap (λ p. advance_option p slept) h₁))
                  (λ _ k. k) paced-IsReleasable)
                (λ _ s₂ h₂.
                  Ends-kept IsReleasable (IsIn serving)
                    (served db request (after_event request_sent s₂)) (happens request_done)
                    (served-Ends (after_event request_sent s₂)
                      (ap (λ p. advance_option p request_sent) h₂))
                    (λ s₃ h₃. ap (λ p. is_releasable (advance_option p request_done)) h₃))))

    with_connection-Ends :
        (deadline : ℤ) (s : Coordination W)
        → IsIn open_connection s
        → Ends IsClosable IsClosable (with_connection db request deadline s)
    unfolding with_connection
    with_connection-Ends deadline s h =
        Ends-continue IsClosable (IsIn open_connection) IsClosable _ _
          (Ends-weaken (IsIn open_connection) (IsIn open_connection) (IsIn open_connection)
            IsClosable _ (remaining_seconds-Ends (IsIn open_connection) deadline s (λ w. h))
            (λ _ k. k) open-IsClosable)
          (λ _ s₁ h₁.
            Ends-continue IsClosable (IsIn held) IsClosable _ _ (acquire-Ends deadline s₁ h₁)
              (λ _ s₂ h₂.
                Ends-kept IsClosable IsReleasable (paced_request db request deadline s₂)
                  (release db) (paced_request-Ends deadline s₂ h₂) release-Ends))

    -- A use of the gate that starts without a connection ends without one, whatever the database, the
    -- clock and the request do: each event was in order, so the request ran while the lock was held and
    -- after the pause, and a connection that may have held the lock was returned to the pool only after
    -- the lock was given back, and was thrown away otherwise.
    pub coordinate-idle :
        (timeout_seconds : ℤ) (s : Coordination W)
        → s.phase ≡ some idle
        → (coordinate db request timeout_seconds s).1.phase ≡ some idle
    unfolding coordinate advance_option
    coordinate-idle timeout_seconds s h = after_end (IsIn idle) _ (
        Ends-if (IsIn idle) (IsIn idle) (leb_ℤ timeout_seconds (pos 0)) _ _ s h (
          Ends-continue (IsIn idle) (IsIn open_connection) (IsIn idle) _ _
            (opened-Ends (db.connect (db.monotonic s.world).1).0
              (record s { world = (db.connect (db.monotonic s.world).1).1 }) h)
            (λ _ s₁ h₁.
              Ends-kept (IsIn idle) IsClosable
                (with_connection db request ((db.monotonic s.world).0 +ℤ timeout_seconds) s₁)
                (happens closed)
                (with_connection-Ends ((db.monotonic s.world).0 +ℤ timeout_seconds) s₁ h₁)
                (λ s₂ h₂. closed-idle s₂.phase h₂))))
