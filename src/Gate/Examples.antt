-- ===== src/Gate/Examples.antt =====
-- Databases that answer at once, with the time as the world or as a part of it.
use domain_specific_paper_ha.Prelude.{
  ℕ, ◌+◌, ◌≡◌, refl, Bool, true, false, some, arith, suc, leb, ◌&&◌, if◌then◌else◌,
}
use domain_specific_paper_ha.Prelude.Int.{int_laws, pos, pos_part, ◌+ℤ◌, ◌-ℤ◌}
use domain_specific_paper_ha.Result.{Result, ok}
use domain_specific_paper_ha.Gate.Phase.{idle}
use domain_specific_paper_ha.Gate.Coordinate.{
  Database, Coordination, done, pool_connection, unlocked, coordinate,
}
use domain_specific_paper_ha.Gate.Returned.{coordinate-idle}
use domain_specific_paper_ha.Gate.Paced.{Observed, coordinate-IsPaced}

abbrev database : Database ℕ
database = record {
  monotonic = λ t. (pos t, t + 1);
  sleep = λ d t. t + pos_part d;
  connect = λ t. (pool_connection, t);
  set_statement_timeout = λ ms t. (done, t);
  advisory_lock = λ t. (done, t + 1000);
  advisory_unlock = λ t. (unlocked true, t);
  commit = λ t. (done, t);
}

abbrev request : ℕ → Result ℕ × ℕ
request t = (ok t, t + 500)

abbrev at_start : Coordination ℕ
at_start = record { world = 0; phase = some idle; is_invalidated = false }

served_late : (coordinate database request (pos 60000000) at_start).0 ≡ ok 3001006
unfolding coordinate ◌+ℤ◌ ◌-ℤ◌
served_late = refl

coordinate-idle_example : (coordinate database request (pos 60000000) at_start).1.phase ≡ some idle
coordinate-idle_example = coordinate-idle database request (pos 60000000) at_start refl

-- A server with the time, the lock, the end of the last request and the number of requests that were
-- made too early or without the lock.
record Shared : Type 0 where
  now : ℕ
  is_held : Bool
  ended : ℕ
  early : ℕ

abbrev server : Database Shared
server = record {
  monotonic = λ w. (pos w.now, record w { now = w.now + 1 });
  sleep = λ d w. record w { now = w.now + pos_part d };
  connect = λ w. (pool_connection, w);
  set_statement_timeout = λ ms w. (done, w);
  advisory_lock = λ w. (done, record w { is_held = true; now = w.now + w.ended });
  advisory_unlock = λ w. (unlocked true, record w { is_held = false });
  commit = λ w. (done, w);
}

abbrev observed : Observed Shared
observed = record { holds = λ w. w.is_held; time = λ w. pos w.now; last_ended = λ w. pos w.ended }

abbrev timed_request : Shared → Result ℕ × Shared
timed_request w = (
  ok w.now,
  record w {
    now = w.now + 500;
    ended = w.now + 500;
    early = if w.is_held && leb (w.ended + 3000000) w.now then w.early else suc w.early;
  },
)

abbrev shared : Coordination Shared
shared = record {
  world = record { now = 7; is_held = false; ended = 5; early = 0 };
  phase = some idle;
  is_invalidated = false;
}

coordinate-IsPaced_example :
    (coordinate server timed_request (pos 60000000) shared).1.world.early ≡ 0
unfolding ◌+ℤ◌
coordinate-IsPaced_example =
    coordinate-IsPaced server observed timed_request (λ w. w.early ≡ 0) (pos 60000000) shared
      (record {
        granted = λ w e. (refl, omega int_laws);
        committed = λ w e h. (h, refl, omega int_laws);
        clock_read = λ w h. (h, refl, omega int_laws);
        slept_on = λ d w h. (h, refl, omega int_laws);
        sleeps = λ d w. ground arith;
      })
      (record {
        by_monotonic = λ w q. q;
        by_sleep = λ d w q. q;
        by_connect = λ w q. q;
        by_timeout = λ n w q. q;
        by_lock = λ w q. q;
        by_unlock = λ w q. q;
        by_commit = λ w q. q;
        by_request = λ w h late q. ground (arith, h, late, q);
      })
      refl
