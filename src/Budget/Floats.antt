-- ===== src/Budget/Floats.antt =====
-- The floats of the budget, below 2 ^ 53 microseconds.
use domain_specific_paper_ha.Prelude.{ℕ, ◌+◌, ◌*◌, ◌≤◌, ◌<◌, ◌≡◌, ◌∙◌, ap, arith}
use domain_specific_paper_ha.Prelude.Int.{pos, ◌+ℤ◌, ◌-ℤ◌, ◌*ℤ◌}
use domain_specific_paper_ha.Result.{ok}
use domain_specific_paper_ha.Budget.Bound.{
  microseconds, finite, float_limit, in_range, to_float, add_floats, times_float, add_int,
}

-- The microseconds up to which floats hold each whole number.
abbrev pub exact_limit : ℕ
exact_limit = 9007199254740992

exact_limit-lt : exact_limit < float_limit
unfolding float_limit
exact_limit-lt = omega arith

pub in_range-eq : (n : ℕ) → n ≤ exact_limit → in_range (pos n) ≡ finite (pos n)
unfolding in_range ◌-ℤ◌
in_range-eq n h = ground (arith, exact_limit-lt, h)

pub to_float-eq :
    (n : ℕ) → microseconds n ≤ exact_limit → to_float n ≡ ok (finite (pos (microseconds n)))
unfolding to_float
to_float-eq n h = ground (arith, exact_limit-lt, h)

add_pos : (m n : ℕ) → pos m +ℤ pos n ≡ pos (m + n)
unfolding ◌+ℤ◌
add_pos m n = ground arith

times_pos : (m n : ℕ) → m *ℤ pos n ≡ pos (m * n)
unfolding ◌*ℤ◌
times_pos m n = ground arith

pub add_floats-eq :
    (m n : ℕ)
    → m + n ≤ exact_limit
    → add_floats (finite (pos m)) (finite (pos n)) ≡ finite (pos (m + n))
unfolding add_floats
add_floats-eq m n h = ap in_range (add_pos m n) ∙ in_range-eq (m + n) h

pub times_float-eq :
    (n x : ℕ)
    → microseconds n ≤ exact_limit
    → n * x ≤ exact_limit
    → times_float n (finite (pos x)) ≡ ok (finite (pos (n * x)))
unfolding times_float
times_float-eq n x h k =
    rw (to_float-eq n h) (ap (λ y. ok (in_range y)) (times_pos n x) ∙ ap ok (in_range-eq (n * x) k))

pub add_int-eq :
    (m n : ℕ)
    → m + microseconds n ≤ exact_limit
    → add_int (finite (pos m)) n ≡ ok (finite (pos (m + microseconds n)))
unfolding add_int
add_int-eq m n h =
    rw (to_float-eq n (omega (arith, h))) (ap ok (add_floats-eq m (microseconds n) h))
