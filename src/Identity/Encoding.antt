-- ===== src/Identity/Encoding.antt =====
-- domain/identity.py: `_encode_identity_parts`, the length-prefixed names from which identifiers are
-- derived, and its reading.
use domain_specific_paper_ha.Prelude.{
  ℕ, zero, suc, ◌+◌, ◌-◌, ◌*◌, ◌/◌, ◌%◌, ◌≤◌, ◌<◌, ◌≡◌, ◌≢◌, refl, sym, ap, ◌∙◌, inl, inr, List, [],
  ◌∷◌, ◌++◌, arith, length, ltb, if◌then◌else◌, Bool-cases,
}
use domain_specific_paper_ha.Prelude.Text.{Text}
use mathlib.Core.Path.{ap₂}

-- `str(n)` of a number that is not negative, with fuel.
decimal_fuel : ℕ → ℕ → Text
decimal_fuel zero n = []
decimal_fuel (suc fuel) n =
    let front = decimal_fuel fuel (n / 10) in
    if ltb n 10 then (b'0' + n) ∷ [] else front ++ (b'0' + n % 10) ∷ []

unfoldable pub decimal : ℕ → Text
unfolding decimal_fuel
decimal n = decimal_fuel (suc n) n

unfoldable pub encode_identity_parts : List Text → Text
encode_identity_parts [] = []
encode_identity_parts (part ∷ parts) =
    decimal (length part) ++ b':' ∷ (part ++ encode_identity_parts parts)

-- The number that a text of digits denotes.
unfoldable pub value_from : ℕ → Text → ℕ
value_from acc [] = acc
value_from acc (d ∷ ds) = value_from (acc * 10 + d - b'0') ds

abbrev pub IsDigits : Text → Type 0
IsDigits [] = Unit
IsDigits (d ∷ ds) = (b'0' ≤ d) × (d ≤ b'9') × IsDigits ds

IsDigits-append_one :
    (ds : Text) (d : ℕ) → IsDigits ds → b'0' ≤ d → d ≤ b'9' → IsDigits (ds ++ d ∷ [])
IsDigits-append_one [] d h low high = (low, high, tt)
IsDigits-append_one (x ∷ ds) d h low high = (h.0, h.1, IsDigits-append_one ds d h.2 low high)

value_from-append_one :
    (acc : ℕ) (ds : Text) (d : ℕ)
    → value_from acc (ds ++ d ∷ []) ≡ value_from acc ds * 10 + d - b'0'
unfolding value_from
value_from-append_one acc [] d = refl
value_from-append_one acc (x ∷ ds) d = value_from-append_one (acc * 10 + x - b'0') ds d

decimal_fuel-IsDigits : (fuel n : ℕ) → n < fuel → IsDigits (decimal_fuel fuel n)
unfolding decimal_fuel
decimal_fuel-IsDigits zero n h = tt
decimal_fuel-IsDigits (suc fuel) n h = elim (Bool-cases (ltb n 10)) [
  | inl small ↦ rw small (ground arith)
  | inr big ↦ rw big (
      IsDigits-append_one (decimal_fuel fuel (n / 10)) (b'0' + n % 10)
        (decimal_fuel-IsDigits fuel (n / 10) (ground arith)) (omega arith) (omega arith))
]

value-decimal_fuel : (fuel n : ℕ) → n < fuel → value_from 0 (decimal_fuel fuel n) ≡ n
unfolding decimal_fuel value_from
value-decimal_fuel zero n h = absurd (omega arith)
value-decimal_fuel (suc fuel) n h = elim (Bool-cases (ltb n 10)) [
  | inl small ↦ rw small (omega arith)
  | inr big ↦
      rw (big, value_from-append_one 0 (decimal_fuel fuel (n / 10)) (b'0' + n % 10))
        (omega (arith, value-decimal_fuel fuel (n / 10) (ground arith)))
]

pub decimal-IsDigits : (n : ℕ) → IsDigits (decimal n)
unfolding decimal
decimal-IsDigits n = decimal_fuel-IsDigits (suc n) n (omega arith)

pub value-decimal : (n : ℕ) → value_from 0 (decimal n) ≡ n
unfolding decimal
value-decimal n = value-decimal_fuel (suc n) n (omega arith)

-- The first digit of a positive number is not zero.
decimal_fuel-first :
    (fuel n : ℕ)
    → n < fuel
    → 1 ≤ n
    → (d : ℕ) × (ds : Text) × (decimal_fuel fuel n ≡ d ∷ ds) × (b'1' ≤ d)
unfolding decimal_fuel
decimal_fuel-first zero n h p = absurd (omega arith)
decimal_fuel-first (suc fuel) n h p = elim (Bool-cases (ltb n 10)) [
  | inl small ↦ (b'0' + n, [], rw small refl, omega (arith, p))
  | inr big ↦
      let (d, ds, e, first) = decimal_fuel-first fuel (n / 10) (ground arith) (ground arith) in
      (d, ds ++ (b'0' + n % 10) ∷ [], rw (big, e) refl, first)
]

pub decimal-first : (n : ℕ) → 1 ≤ n → (d : ℕ) × (ds : Text) × (decimal n ≡ d ∷ ds) × (b'1' ≤ d)
unfolding decimal
decimal-first n h = decimal_fuel-first (suc n) n (omega arith) h

pub decimal-injective : (m n : ℕ) → decimal m ≡ decimal n → m ≡ n
decimal-injective m n e = sym (value-decimal m) ∙ ap (value_from 0) e ∙ value-decimal n

-- Digits end at the first colon.
split_at_colon :
    (a b x y : Text) → IsDigits a → IsDigits b → a ++ b':' ∷ x ≡ b ++ b':' ∷ y → (a ≡ b) × (x ≡ y)
split_at_colon [] [] x y p q e = (refl, cc)
split_at_colon [] (d ∷ b) x y p q e = absurd (ground arith)
split_at_colon (c ∷ a) [] x y p q e = absurd (ground arith)
split_at_colon (c ∷ a) (d ∷ b) x y p q e =
    let (h, t) = split_at_colon a b x y p.2 q.2 (cc) in (cc, t)

split_at_length : (a b x y : Text) → length a ≡ length b → a ++ x ≡ b ++ y → (a ≡ b) × (x ≡ y)
split_at_length [] [] x y n e = (refl, e)
split_at_length [] (d ∷ b) x y n e = absurd (omega arith)
split_at_length (c ∷ a) [] x y n e = absurd (omega arith)
split_at_length (c ∷ a) (d ∷ b) x y n e =
    let (h, t) = split_at_length a b x y (omega arith) (cc) in (cc, t)

append_cons-ne-nil : (a : Text) (c : ℕ) (x : Text) → a ++ c ∷ x ≢ []
append_cons-ne-nil [] c x e = cc
append_cons-ne-nil (d ∷ a) c x e = cc

encode_cons-ne-nil : (p : Text) (ps : List Text) → encode_identity_parts (p ∷ ps) ≢ []
unfolding encode_identity_parts
encode_cons-ne-nil p ps e = append_cons-ne-nil (decimal (length p)) b':' _ e

-- Different lists of parts have different encodings, whatever delimiters the parts hold.
pub encode_identity_parts-injective :
    (ps qs : List Text) → encode_identity_parts ps ≡ encode_identity_parts qs → ps ≡ qs
unfolding encode_identity_parts
encode_identity_parts-injective [] [] e = refl
encode_identity_parts-injective [] (q ∷ qs) e = absurd (encode_cons-ne-nil q qs (sym e))
encode_identity_parts-injective (p ∷ ps) [] e = absurd (encode_cons-ne-nil p ps e)
encode_identity_parts-injective (p ∷ ps) (q ∷ qs) e =
    let (lengths, tails) =
      split_at_colon (decimal (length p)) (decimal (length q)) (p ++ encode_identity_parts ps)
        (q ++ encode_identity_parts qs) (decimal-IsDigits (length p)) (decimal-IsDigits (length q))
        e in
    let (heads, rests) =
      split_at_length p q (encode_identity_parts ps) (encode_identity_parts qs)
        (decimal-injective (length p) (length q) lengths) tails in
    ap₂ ◌∷◌ heads (encode_identity_parts-injective ps qs rests)
