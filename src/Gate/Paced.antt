-- ===== src/Gate/Paced.antt =====
-- adapters/postgres/arxiv_request_gate.py: when the request of a use of the gate is made. What the
-- database and the other runtimes do is seen in the world: whether the session of the connection holds
-- the lock, the time, and when the last request of any runtime ended.
use domain_specific_paper_ha.Prelude.{◌≡◌, refl, Bool, true, false, inl, inr, Bool-cases}
use domain_specific_paper_ha.Prelude.Int.{ℤ, pos, ◌+ℤ◌, ◌-ℤ◌, ◌≤ℤ◌, leb_ℤ, int_laws}
use domain_specific_paper_ha.Result.{Result, ok, err}
use domain_specific_paper_ha.Gate.Phase.{configured, slept, request_sent, request_done, closed}
use domain_specific_paper_ha.Gate.Coordinate.{
  Database, Coordination, DbAnswer, done, cancelled, failed, ConnectAnswer, pool_connection,
  pool_timeout, connect_failed, UnlockAnswer, unlocked, unlock_failed, min_request_gap,
  remaining_ms, happens, after_event, invalidate, acquired, opened, released, remaining_seconds,
  take_lock, acquire, unlock_answer, release, served, paced_request, with_connection, coordinate,
}
use domain_specific_paper_ha.Exec.Ends.{
  Ends, Ends-continue, Ends-weaken, Ends-cleaned_up, Ends-if, after_end, Ends-kept,
}

pub record Observed (W : Type 0) : Type 0 where
  pub holds : W → Bool
  pub time : W → ℤ
  pub last_ended : W → ℤ

module _ {W : Type 0} (db : Database W) (o : Observed W) where
  -- The lock is still held, no request ended, and time went on.
  abbrev pub IsHeldOn : W → W → Type 0
  IsHeldOn before after =
      (o.holds after ≡ true)
      × (o.last_ended after ≡ o.last_ended before)
      × (o.time before ≤ℤ o.time after)

  -- A session that got the lock has it until it unlocks it or its connection fails, the one before it
  -- has ended its request, no other runtime makes one meanwhile, and a sleep takes as long as asked.
  pub record IsServer : Type 0 where
    pub granted :
        (w : W)
        → (db.advisory_lock w).0 ≡ done
        → (o.holds (db.advisory_lock w).1 ≡ true)
          × (o.last_ended (db.advisory_lock w).1 ≤ℤ o.time (db.advisory_lock w).1)
    pub committed : (w : W) → (db.commit w).0 ≡ done → o.holds w ≡ true → IsHeldOn w (db.commit w).1
    pub clock_read : (w : W) → o.holds w ≡ true → IsHeldOn w (db.monotonic w).1
    pub slept_on : (d : ℤ) (w : W) → o.holds w ≡ true → IsHeldOn w (db.sleep d w)
    pub sleeps : (d : ℤ) (w : W) → o.time w +ℤ d ≤ℤ o.time (db.sleep d w)

  module _ {A : Type 0} (request : W → Result A × W) (Q : W → Type 0) where
    -- The database keeps a property of the world, and so does a request that is made while the lock is
    -- held, three seconds or more after the last one ended.
    pub record IsKeptPaced : Type 0 where
      pub by_monotonic : (w : W) → Q w → Q (db.monotonic w).1
      pub by_sleep : (d : ℤ) (w : W) → Q w → Q (db.sleep d w)
      pub by_connect : (w : W) → Q w → Q (db.connect w).1
      pub by_timeout : (n : _) (w : W) → Q w → Q (db.set_statement_timeout n w).1
      pub by_lock : (w : W) → Q w → Q (db.advisory_lock w).1
      pub by_unlock : (w : W) → Q w → Q (db.advisory_unlock w).1
      pub by_commit : (w : W) → Q w → Q (db.commit w).1
      pub by_request :
          (w : W)
          → o.holds w ≡ true
          → o.last_ended w +ℤ pos 3000000 ≤ℤ o.time w
          → Q w
          → Q (request w).1

    abbrev IsAny : Coordination W → Type 0
    IsAny s = Q s.world

    -- The lock is held, and at least so much time passed since the last request ended.
    abbrev IsHeld : ℤ → Coordination W → Type 0
    IsHeld gap s =
        Q s.world × (o.holds s.world ≡ true) × (o.last_ended s.world +ℤ gap ≤ℤ o.time s.world)

    module _ (server : IsServer) (keeps : IsKeptPaced) where
      held_on :
          (gap : ℤ) (w v : W)
          → o.last_ended w +ℤ gap ≤ℤ o.time w
          → IsHeldOn w v
          → o.last_ended v +ℤ gap ≤ℤ o.time v
      held_on gap w v h (locked, same, later) = rw same (omega (int_laws, h, later))

      remaining_seconds-keeps :
          (P : Coordination W → Type 0) (deadline : ℤ) (s : Coordination W)
          → P (record s { world = (db.monotonic s.world).1 })
          → Ends P P (remaining_seconds db deadline s)
      unfolding remaining_seconds
      remaining_seconds-keeps P deadline s h =
          elim (Bool-cases (leb_ℤ (deadline -ℤ (db.monotonic s.world).0) (pos 0))) [
            | inl late ↦ rw late h
            | inr early ↦ rw early h
          ]

      remaining_seconds-IsHeld :
          (gap deadline : ℤ) (s : Coordination W)
          → IsHeld gap s
          → Ends (IsHeld gap) IsAny (remaining_seconds db deadline s)
      remaining_seconds-IsHeld gap deadline s (q, locked, passed) =
          Ends-weaken (IsHeld gap) (IsHeld gap) (IsHeld gap) IsAny _
            (remaining_seconds-keeps (IsHeld gap) deadline s (
              let on = server.clock_read s.world locked in
              (keeps.by_monotonic s.world q, on.0, held_on gap s.world _ passed on)))
            (λ _ h. h) (λ _ h. h.0)

      acquired-keeps :
          (good : Coordination W → Type 0) (answer : DbAnswer) (s : Coordination W)
          → (answer ≡ done → good s)
          → IsAny s
          → Ends good IsAny (acquired answer s)
      acquired-keeps good done s h q = h refl
      acquired-keeps good cancelled s h q = q
      acquired-keeps good failed s h q = q

      take_lock-IsHeld :
          (s : Coordination W) → IsAny s → Ends (IsHeld (pos 0)) IsAny (take_lock db s)
      unfolding take_lock
      take_lock-IsHeld s q =
          Ends-continue (IsHeld (pos 0)) (IsHeld (pos 0)) IsAny _ _
            (acquired-keeps (IsHeld (pos 0)) (db.advisory_lock s.world).0 _
              (λ e.
                let (locked, passed) = server.granted s.world e in
                (keeps.by_lock s.world q, locked, omega (int_laws, passed)))
              (keeps.by_lock s.world q))
            (λ _ s₁ (q₁, locked, passed).
              Ends-continue (IsHeld (pos 0)) (IsHeld (pos 0)) IsAny _ _
                (acquired-keeps (IsHeld (pos 0)) (db.commit s₁.world).0 _
                  (λ e.
                    let on = server.committed s₁.world e locked in
                    (keeps.by_commit s₁.world q₁, on.0, held_on (pos 0) s₁.world _ passed on))
                  (keeps.by_commit s₁.world q₁))
                (λ _ s₂ h₂. h₂))

      acquire-IsHeld :
          (deadline : ℤ) (s : Coordination W)
          → IsAny s
          → Ends (IsHeld (pos 0)) IsAny (acquire db deadline s)
      unfolding acquire
      acquire-IsHeld deadline s q =
          Ends-continue (IsHeld (pos 0)) IsAny IsAny _ _
            (remaining_seconds-keeps IsAny deadline s (keeps.by_monotonic s.world q))
            (λ remaining s₁ q₁.
              Ends-continue (IsHeld (pos 0)) IsAny IsAny _ _
                (acquired-keeps IsAny (db.set_statement_timeout (remaining_ms remaining) s₁.world).0
                  _ (λ e. keeps.by_timeout _ s₁.world q₁) (keeps.by_timeout _ s₁.world q₁))
                (λ _ s₂ q₂.
                  Ends-continue (IsHeld (pos 0)) IsAny IsAny _ _
                    (remaining_seconds-keeps IsAny deadline (after_event configured s₂)
                      (keeps.by_monotonic s₂.world q₂))
                    (λ _ s₃ q₃.
                      Ends-cleaned_up (IsHeld (pos 0)) IsAny IsAny invalidate (take_lock db s₃)
                        (take_lock-IsHeld s₃ q₃) (λ _ h. h))))

      released-keeps :
          (answer : DbAnswer) (s : Coordination W) → IsAny s → Ends IsAny IsAny (released answer s)
      released-keeps done s q = q
      released-keeps cancelled s q = q
      released-keeps failed s q = q

      unlock_answer-keeps :
          (answer : UnlockAnswer) (s : Coordination W)
          → IsAny s
          → Ends IsAny IsAny (unlock_answer db answer s)
      unlock_answer-keeps (unlocked true) s q =
          released-keeps (db.commit s.world).0 _ (keeps.by_commit s.world q)
      unlock_answer-keeps (unlocked false) s q = q
      unlock_answer-keeps unlock_failed s q = q

      release-keeps : (s : Coordination W) → IsAny s → Ends IsAny IsAny (release db s)
      unfolding release
      release-keeps s q =
          Ends-cleaned_up IsAny IsAny IsAny invalidate _
            (Ends-if IsAny IsAny s.is_invalidated _ _ s q
              (unlock_answer-keeps (db.advisory_unlock s.world).0 _ (keeps.by_unlock s.world q)))
            (λ _ h. h)

      served-keeps :
          (s : Coordination W) → IsHeld (pos 3000000) s → Ends IsAny IsAny (served db request s)
      served-keeps s (q, locked, passed) =
          either (request s.world).0 (keeps.by_request s.world locked passed q)
        where
          either :
              (r : Result A)
              → Q (request s.world).1
              → Ends IsAny IsAny (r, record s { world = (request s.world).1 })
          either (ok v) h = h
          either (err e) h = h

      paced_request-keeps :
          (deadline : ℤ) (s : Coordination W)
          → IsHeld (pos 0) s
          → Ends IsAny IsAny (paced_request db request deadline s)
      unfolding paced_request
      paced_request-keeps deadline s h =
          Ends-continue IsAny (IsHeld (pos 0)) IsAny _ _
            (remaining_seconds-IsHeld (pos 0) deadline s h)
            (λ remaining s₁ (q₁, locked, passed).
              let on = server.slept_on (pos 3000000) s₁.world locked in
              let lasts = server.sleeps (pos 3000000) s₁.world in
              Ends-if IsAny IsAny (leb_ℤ remaining min_request_gap) _ _ s₁ q₁ (
                Ends-continue IsAny (IsHeld (pos 3000000)) IsAny _ _
                  (remaining_seconds-IsHeld (pos 3000000) deadline
                    (after_event slept (record s₁ { world = db.sleep (pos 3000000) s₁.world }))
                    (
                      keeps.by_sleep (pos 3000000) s₁.world q₁,
                      on.0,
                      rw (on.1) (omega (int_laws, passed, lasts)),
                    ))
                  (λ _ s₂ h₂.
                    Ends-kept IsAny IsAny (served db request (after_event request_sent s₂))
                      (happens request_done) (served-keeps (after_event request_sent s₂) h₂)
                      (λ _ h₃. h₃))))

      with_connection-keeps :
          (deadline : ℤ) (s : Coordination W)
          → IsAny s
          → Ends IsAny IsAny (with_connection db request deadline s)
      unfolding with_connection
      with_connection-keeps deadline s q =
          Ends-continue IsAny IsAny IsAny _ _
            (remaining_seconds-keeps IsAny deadline s (keeps.by_monotonic s.world q))
            (λ _ s₁ q₁.
              Ends-continue IsAny (IsHeld (pos 0)) IsAny _ _ (acquire-IsHeld deadline s₁ q₁)
                (λ _ s₂ h₂.
                  Ends-kept IsAny IsAny (paced_request db request deadline s₂) (release db)
                    (paced_request-keeps deadline s₂ h₂) release-keeps))

      opened-keeps :
          (answer : ConnectAnswer) (s : Coordination W)
          → IsAny s
          → Ends IsAny IsAny (opened answer s)
      opened-keeps pool_connection s q = q
      opened-keeps pool_timeout s q = q
      opened-keeps connect_failed s q = q

    -- With a server that keeps a lock until it is unlocked, a use of the gate makes its request only
    -- while it holds the lock and three seconds or more after the last request of any runtime ended:
    -- whatever property of the world the database and such a request keep, the use keeps, however it
    -- ends.
    pub coordinate-IsPaced :
        (timeout_seconds : ℤ) (s : Coordination W)
        → IsServer
        → IsKeptPaced
        → Q s.world
        → Q (coordinate db request timeout_seconds s).1.world
    unfolding coordinate
    coordinate-IsPaced timeout_seconds s server keeps q = after_end IsAny _ (
        Ends-if IsAny IsAny (leb_ℤ timeout_seconds (pos 0)) _ _ s q (
          Ends-continue IsAny IsAny IsAny _ _
            (opened-keeps server keeps (db.connect (db.monotonic s.world).1).0 _
              (keeps.by_connect _ (keeps.by_monotonic s.world q)))
            (λ _ s₁ q₁.
              Ends-kept IsAny IsAny
                (with_connection db request ((db.monotonic s.world).0 +ℤ timeout_seconds) s₁)
                (happens closed) (with_connection-keeps server keeps _ s₁ q₁) (λ _ h. h))))
