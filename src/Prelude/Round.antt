-- ===== src/Prelude/Round.antt =====
-- Quotients rounded to a whole number.
use native.Mathlib.Nat.{div-add-mod', mod-lt}
use native.Mathlib.Omega.{arith}
use Prim.Native.Nat.{ℕ, suc, ◌+◌, ◌*◌, ◌/◌, ◌%◌, ◌≤◌}
use mathlib.Core.Path.{◌≡◌}
use domain_specific_paper_ha.Prelude.Tests.{ltb, ◌==◌, if◌then◌else◌}

-- The quotient of two naturals as a whole number, ROUND_HALF_EVEN; `b` is not zero.
unfoldable pub half_even : ℕ → ℕ → ℕ
half_even a b =
    let q = a / b in
    let rest = 2 * (a % b) in
    if ltb rest b then q else if ltb b rest then suc q else if q % 2 == 0 then q else suc q

-- `r` is a nearest whole number to `a / b`.
pub record IsNearest (a b r : ℕ) : Type 0 where
  pub below : 2 * (r * b) ≤ 2 * a + b
  pub above : 2 * a ≤ 2 * (r * b) + b

pub half_even-IsNearest : (a b : ℕ) → 1 ≤ b → IsNearest a b (half_even a b)
unfolding half_even
half_even-IsNearest a b h =
    let whole = div-add-mod' a b in
    let small = mod-lt a h in
    let next : suc (a / b) * b ≡ a / b * b + b = omega arith in
    record { below = ground arith; above = ground arith }
