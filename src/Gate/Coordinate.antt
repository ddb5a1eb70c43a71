-- ===== src/Gate/Coordinate.antt =====
-- adapters/postgres/arxiv_request_gate.py: `PostgresArxivRequestGate`. The clock, the pause, the
-- database and the caller's request are parameters over a world `W`. Times are microseconds. The phase
-- of the connection is kept beside the world: `none` after an event out of order.
use domain_specific_paper_ha.Prelude.{ℕ, Bool, true, false, Option, if◌then◌else◌, ◌/◌, ltb}
use domain_specific_paper_ha.Prelude.Int.{ℤ, pos, ◌+ℤ◌, ◌-ℤ◌, leb_ℤ, pos_part}
use domain_specific_paper_ha.Result.{Result, ok, arxiv_unavailable, repository_unavailable}
use domain_specific_paper_ha.Exec.{Exec, raise, pure, ◌>>=◌, ◌>>◌, finally, on_raise}
use domain_specific_paper_ha.Gate.Phase.{
  Event, Phase, connected, configured, lock_sent, lock_committed, slept, request_sent, request_done,
  unlock_committed, invalidated, closed, advance_option,
}

-- How a statement ends: done, `QueryCanceled` or `LockNotAvailable`, or another `DBAPIError`.
pub data DbAnswer : Type 0 where
  done cancelled failed : DbAnswer

pub data ConnectAnswer : Type 0 where
  pool_connection pool_timeout connect_failed : ConnectAnswer

-- The answer of `pg_advisory_unlock`, or a `DBAPIError`.
pub data UnlockAnswer : Type 0 where
  unlocked : Bool → UnlockAnswer
  unlock_failed : UnlockAnswer

-- `_MIN_REQUEST_GAP_SECONDS`
abbrev pub min_request_gap : ℤ
min_request_gap = pos 3000000

-- `max(1, int(remaining * 1000))`, of microseconds.
abbrev pub remaining_ms : ℤ → ℕ
remaining_ms remaining = let ms = pos_part remaining / 1000 in if ltb ms 1 then 1 else ms

pub record Database (W : Type 0) : Type 0 where
  pub monotonic : W → ℤ × W
  pub sleep : ℤ → W → W
  pub connect : W → ConnectAnswer × W
  pub set_statement_timeout : ℕ → W → DbAnswer × W
  pub advisory_lock : W → DbAnswer × W
  pub advisory_unlock : W → UnlockAnswer × W
  pub commit : W → DbAnswer × W

-- The world, the phase of the connection and `connection.invalidated`.
pub record Coordination (W : Type 0) : Type 0 where
  pub world : W
  pub phase : Option Phase
  pub is_invalidated : Bool

module _ {W : Type 0} where
  abbrev pub after_event : Event → Coordination W → Coordination W
  after_event event s = record s { phase = advance_option s.phase event }

  abbrev pub happens : Event → Exec (Coordination W) (Unit {0})
  happens event s = (ok tt, after_event event s)

  -- `connection.invalidate()`
  abbrev pub invalidate : Coordination W → Coordination W
  invalidate s = record (after_event invalidated s) { is_invalidated = true }

  -- A call of a collaborator.
  abbrev pub call {ℓ} : {A : Type ℓ} → (W → A × W) → Exec (Coordination W) A
  call f s = let (answer, world) = f s.world in (ok answer, record s { world = world })

  abbrev pub acquired : DbAnswer → Exec (Coordination W) (Unit {0})
  acquired done = pure tt
  acquired cancelled =
      raise (arxiv_unavailable "arXiv request coordination timed out waiting for another request")
  acquired failed =
      raise (repository_unavailable "PostgreSQL arXiv request coordination is unavailable")

  abbrev pub opened : ConnectAnswer → Exec (Coordination W) (Unit {0})
  opened pool_connection = happens connected
  opened pool_timeout =
      raise
        (arxiv_unavailable "arXiv request coordination timed out acquiring a database connection")
  opened connect_failed =
      raise (repository_unavailable "PostgreSQL arXiv request coordination is unavailable")

  abbrev pub released : DbAnswer → Exec (Coordination W) (Unit {0})
  released done = happens unlock_committed
  released _ = raise (repository_unavailable "PostgreSQL arXiv request lock release is unavailable")

module _ {W : Type 0} (db : Database W) where
  -- `_remaining_seconds`
  unfoldable pub remaining_seconds : ℤ → Exec (Coordination W) ℤ
  remaining_seconds deadline = call db.monotonic >>= λ now.
      if leb_ℤ (deadline -ℤ now) (pos 0)
      then raise (arxiv_unavailable "arXiv request coordination exhausted the operation deadline")
      else pure (deadline -ℤ now)

  -- The statements of `_acquire` after `acquisition_started`.
  unfoldable pub take_lock : Exec (Coordination W) (Unit {0})
  take_lock =
      happens lock_sent
      >> ((call db.advisory_lock >>= acquired)
          >> ((call db.commit >>= acquired) >> happens lock_committed))

  -- `_acquire`; only the statements after `acquisition_started` are followed by an invalidation.
  unfoldable pub acquire : ℤ → Exec (Coordination W) (Unit {0})
  unfolding remaining_seconds take_lock
  acquire deadline = remaining_seconds deadline >>= λ remaining.
      (call (db.set_statement_timeout (remaining_ms remaining)) >>= acquired)
      >> (happens configured >> (remaining_seconds deadline >>= λ _. on_raise take_lock invalidate))

  abbrev pub unlock_answer : UnlockAnswer → Exec (Coordination W) (Unit {0})
  unlock_answer (unlocked true) = call db.commit >>= released
  unlock_answer (unlocked false) =
      raise (repository_unavailable "PostgreSQL arXiv request lock ownership was lost")
  unlock_answer unlock_failed =
      raise (repository_unavailable "PostgreSQL arXiv request lock release is unavailable")

  -- `_release`
  unfoldable pub release : Exec (Coordination W) (Unit {0})
  release =
      on_raise
        (λ s.
          (if s.is_invalidated
              then raise
                  (repository_unavailable "PostgreSQL arXiv request lock connection was lost")
              else (call db.advisory_unlock >>= unlock_answer))
            s)
        invalidate

  module _ {A : Type 0} (request : W → Result A × W) where
    -- The caller's block, which runs at the `yield`.
    abbrev pub served : Exec (Coordination W) A
    served s = let (answer, world) = request s.world in (answer, record s { world = world })

    unfoldable pub paced_request : ℤ → Exec (Coordination W) A
    unfolding remaining_seconds
    paced_request deadline = remaining_seconds deadline >>= λ remaining.
        if leb_ℤ remaining min_request_gap
        then raise (arxiv_unavailable "arXiv request pacing would exhaust the operation deadline")
        else call (λ w. (tt {0}, db.sleep min_request_gap w))
          >> (happens slept
              >> (remaining_seconds deadline >>= λ _.
                  happens request_sent >> finally served (happens request_done)))

    unfoldable pub with_connection : ℤ → Exec (Coordination W) A
    unfolding remaining_seconds acquire release paced_request
    with_connection deadline = remaining_seconds deadline >>= λ _.
        acquire deadline >> finally (paced_request deadline) release

    -- `__call__`, with the block of the `with` statement that uses it.
    unfoldable pub coordinate : ℤ → Exec (Coordination W) A
    unfolding with_connection
    coordinate timeout_seconds =
        if leb_ℤ timeout_seconds (pos 0)
        then raise (arxiv_unavailable "arXiv request coordination has no remaining time budget")
        else call db.monotonic >>= λ now.
            (call db.connect >>= opened)
            >> finally (with_connection (now +ℤ timeout_seconds)) (happens closed)
