-- ===== src/Prelude/Sort.antt =====
-- `sorted(xs, key=...)`: the stable sort, for an order given as a Boolean test on the elements.
use Prim.Native.Nat.{suc}
use native.Mathlib.Omega.{arith}
use mathlib.Core.Path.{◌≡◌, refl}
use mathlib.Core.Bool.{Bool, true, false}
use mathlib.Core.List.{List, [], ◌∷◌, Perm}
use mathlib.Core.List.Perm
use domain_specific_paper_ha.Prelude.Tests.{if◌then◌else◌, Bool-cases}
use domain_specific_paper_ha.Prelude.Lists.{Each, length}
use mathlib.Core.Logic.{inl, inr}

module _ {ℓ} {A : Type ℓ} (le : A → A → Bool) where
  unfoldable pub insert_sorted : A → List A → List A
  insert_sorted x [] = x ∷ []
  insert_sorted x (y ∷ ys) =
      let later = y ∷ insert_sorted x ys in if le x y then x ∷ y ∷ ys else later

  unfoldable pub sorted : List A → List A
  unfolding insert_sorted
  sorted [] = []
  sorted (x ∷ xs) = insert_sorted x (sorted xs)

  pub insert_sorted-perm : (x : A) (xs : List A) → Perm (insert_sorted x xs) (x ∷ xs)
  unfolding insert_sorted
  insert_sorted-perm x [] = Perm.rfl
  insert_sorted-perm x (y ∷ ys) = elim (Bool-cases (le x y)) [
    | inl h ↦ rw h Perm.rfl
    | inr h ↦ rw h (Perm.trans (Perm.cons y (insert_sorted-perm x ys)) (Perm.swap x y ys))
  ]

  pub sorted-perm : (xs : List A) → Perm (sorted xs) xs
  unfolding sorted
  sorted-perm [] = Perm.rfl
  sorted-perm (x ∷ xs) =
      Perm.trans (insert_sorted-perm x (sorted xs)) (Perm.cons x (sorted-perm xs))

  pub Each-insert_sorted {κ} :
      (P : A → Type κ) (x : A) (xs : List A) → P x → Each P xs → Each P (insert_sorted x xs)
  unfolding insert_sorted
  Each-insert_sorted P x [] h hs = (h, tt)
  Each-insert_sorted P x (y ∷ ys) h hs = elim (Bool-cases (le x y)) [
    | inl e ↦ rw e (h, hs)
    | inr e ↦ rw e (hs.0, Each-insert_sorted P x ys h hs.1)
  ]

  pub Each-sorted {κ} : (P : A → Type κ) (xs : List A) → Each P xs → Each P (sorted xs)
  unfolding sorted
  Each-sorted P [] hs = tt
  Each-sorted P (x ∷ xs) hs = Each-insert_sorted P x (sorted xs) hs.0 (Each-sorted P xs hs.1)

  -- Each element comes no later than the next.
  abbrev pub IsOrdered : List A → Type 0
  IsOrdered [] = Unit
  IsOrdered (x ∷ []) = Unit
  IsOrdered (x ∷ y ∷ ys) = (le x y ≡ true) × IsOrdered (y ∷ ys)

  insert_after-IsOrdered :
      ((x y : A) → le x y ≡ false → le y x ≡ true)
      → (x y : A) (ys : List A) → le y x ≡ true
      → IsOrdered (y ∷ ys)
      → IsOrdered (y ∷ insert_sorted x ys)
  unfolding insert_sorted
  insert_after-IsOrdered total x y [] h hs = (h, tt)
  insert_after-IsOrdered total x y (z ∷ zs) h hs = elim (Bool-cases (le x z)) [
    | inl e ↦ rw e (h, (e, hs.1))
    | inr e ↦ rw e (hs.0, insert_after-IsOrdered total x z zs (total x z e) hs.1)
  ]

  insert_sorted-IsOrdered :
      ((x y : A) → le x y ≡ false → le y x ≡ true)
      → (x : A) (ys : List A) → IsOrdered ys
      → IsOrdered (insert_sorted x ys)
  unfolding insert_sorted
  insert_sorted-IsOrdered total x [] hs = tt
  insert_sorted-IsOrdered total x (y ∷ ys) hs = elim (Bool-cases (le x y)) [
    | inl e ↦ rw e (e, hs)
    | inr e ↦ rw e (insert_after-IsOrdered total x y ys (total x y e) hs)
  ]

  pub sorted-IsOrdered :
      ((x y : A) → le x y ≡ false → le y x ≡ true) → (xs : List A) → IsOrdered (sorted xs)
  unfolding sorted
  sorted-IsOrdered total [] = tt
  sorted-IsOrdered total (x ∷ xs) =
      insert_sorted-IsOrdered total x (sorted xs) (sorted-IsOrdered total xs)

  length-insert_sorted : (x : A) (xs : List A) → length (insert_sorted x xs) ≡ suc (length xs)
  unfolding insert_sorted
  length-insert_sorted x [] = refl
  length-insert_sorted x (y ∷ ys) = elim (Bool-cases (le x y)) [
    | inl e ↦ rw e refl
    | inr e ↦ rw e (omega (arith, length-insert_sorted x ys))
  ]

  pub length-sorted : (xs : List A) → length (sorted xs) ≡ length xs
  unfolding sorted
  length-sorted [] = refl
  length-sorted (x ∷ xs) = omega (arith, length-sorted xs, length-insert_sorted x (sorted xs))
