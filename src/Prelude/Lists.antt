-- ===== src/Prelude/Lists.antt =====
-- Lists measured and cut by native numbers, under the library's names, and Boolean searches.
use Prim.Native.Nat.{◌≤◌, ℕ, zero, suc, ◌+◌, min}
use mathlib.Core.Path.{◌≡◌, refl}
use mathlib.Core.Logic.{◌⊎◌, inl, inr}
use mathlib.Core.Bool.{Bool, true, false, ◌&&◌, ◌||◌}
use mathlib.Core.List.{List, [], ◌∷◌, ◌++◌, map}
use native.Mathlib.Omega.{arith}
use domain_specific_paper_ha.Prelude.Tests.{Bool-cases, if◌then◌else◌}

module _ {ℓ} {A : Type ℓ} where
  abbrev pub length : List A → ℕ
  length [] = 0
  length (x ∷ xs) = suc (length xs)

  abbrev pub take : ℕ → List A → List A
  take zero xs = []
  take (suc n) [] = []
  take (suc n) (x ∷ xs) = x ∷ take n xs

  abbrev pub is_nil : List A → Bool
  is_nil [] = true
  is_nil (_ ∷ _) = false

  -- Python's `any` and `all` over a generator.
  abbrev pub any : (A → Bool) → List A → Bool
  any p [] = false
  any p (x ∷ xs) = p x || any p xs

  abbrev pub all : (A → Bool) → List A → Bool
  all p [] = true
  all p (x ∷ xs) = p x && all p xs

  pub length-append : (xs ys : List A) → length (xs ++ ys) ≡ length xs + length ys
  length-append [] ys = omega arith
  length-append (x ∷ xs) ys = omega (arith, length-append xs ys)

  pub length-take : (n : ℕ) (xs : List A) → length (take n xs) ≡ min n (length xs)
  length-take zero xs = omega arith
  length-take (suc n) [] = omega arith
  length-take (suc n) (x ∷ xs) = omega (arith, length-take n xs)

  pub List-cases : (xs : List A) → (xs ≡ []) ⊎ ((x : A) × (rest : List A) × (xs ≡ x ∷ rest))
  List-cases [] = inl refl
  List-cases (x ∷ xs) = inr (x, xs, refl)

-- `P` holds of each element.
abbrev pub Each {ℓ κ} : {A : Type ℓ} → (A → Type κ) → List A → Type κ
Each P [] = Unit
Each P (x ∷ xs) = P x × Each P xs

pub Each-map {ℓ κ μ} :
    {A : Type ℓ} (P : A → Type κ) (Q : A → Type μ)
    → ((x : A) → P x → Q x)
    → (xs : List A) → Each P xs
    → Each Q xs
Each-map P Q f [] h = tt
Each-map P Q f (x ∷ xs) h = (f x h.0, Each-map P Q f xs h.1)

pub Each-append {ℓ κ} :
    {A : Type ℓ} (P : A → Type κ) (xs ys : List A) → Each P xs → Each P ys → Each P (xs ++ ys)
Each-append P [] ys h k = k
Each-append P (x ∷ xs) ys h k = (h.0, Each-append P xs ys h.1 k)

-- `[x for x in xs if p(x)]`
abbrev pub filter {ℓ} : {A : Type ℓ} → (A → Bool) → List A → List A
filter p [] = []
filter p (x ∷ xs) = let rest = filter p xs in if p x then x ∷ rest else rest

pub Each-filter {ℓ κ} :
    {A : Type ℓ} (P : A → Type κ) (p : A → Bool) (xs : List A)
    → Each P xs
    → Each (λ x. P x × (p x ≡ true)) (filter p xs)
Each-filter P p [] h = tt
Each-filter P p (x ∷ xs) h = elim (Bool-cases (p x)) [
  | inl kept ↦ rw kept ((h.0, kept), Each-filter P p xs h.1)
  | inr cut ↦ rw cut (Each-filter P p xs h.1)
]

pub Each-take {ℓ κ} :
    {A : Type ℓ} (P : A → Type κ) (n : ℕ) (xs : List A) → Each P xs → Each P (take n xs)
Each-take P zero xs h = tt
Each-take P (suc n) [] h = tt
Each-take P (suc n) (x ∷ xs) h = (h.0, Each-take P n xs h.1)

-- What `P` says of no element in particular.
pub Each-all {ℓ κ} : {A : Type ℓ} (P : A → Type κ) → ((x : A) → P x) → (xs : List A) → Each P xs
Each-all P f [] = tt
Each-all P f (x ∷ xs) = (f x, Each-all P f xs)

pub take-append {ℓ} : {A : Type ℓ} (xs ys : List A) → take (length xs) (xs ++ ys) ≡ xs
take-append [] ys = refl
take-append (x ∷ xs) ys = simp (take, take-append xs ys)

pub length-filter {ℓ} : {A : Type ℓ} (p : A → Bool) (xs : List A) → length (filter p xs) ≤ length xs
length-filter p [] = omega arith
length-filter p (x ∷ xs) = elim (Bool-cases (p x)) [
  | inl kept ↦ rw kept (omega (arith, length-filter p xs))
  | inr cut ↦ rw cut (omega (arith, length-filter p xs))
]

pub length-map {ℓ κ} :
    {A : Type ℓ} {B : Type κ} (f : A → B) (xs : List A) → length (map f xs) ≡ length xs
length-map f [] = refl
length-map f (x ∷ xs) = omega (arith, length-map f xs)
