-- ===== src/Prelude/Members.antt =====
-- Lists as sets: what an element's membership says, and lists with the same elements.
use mathlib.Core.Path.{◌≡◌, refl, sym, ◌∙◌, ap, subst}
use mathlib.Core.Logic.{◌↔◌, inl, inr}
use mathlib.Core.Bool.{Bool, true, false}
use mathlib.Core.List.{List, [], ◌∷◌, map, Permᴰ, Memᴰ}
use mathlib.Core.List.Permᴰ
use mathlib.Core.List.Memᴰ
use native.Mathlib.Omega.{arith}
use domain_specific_paper_ha.Prelude.Tests.{Bool-cases}
use domain_specific_paper_ha.Prelude.Lists.{Each}
use domain_specific_paper_ha.Prelude.Text.{Text, text_eq, text_eq_iff}
use domain_specific_paper_ha.Prelude.Keys.{member, distinct}
use domain_specific_paper_ha.Prelude.Sort.{insert_sorted, sorted}
use domain_specific_paper_ha.Prelude.Reorder.{distinct-Perm, map-Perm}

pub Memᴰ-Perm {ℓ} : {A : Type ℓ} {x : A} {xs ys : List A} → Permᴰ xs ys → Memᴰ x xs → Memᴰ x ys
Memᴰ-Perm Permᴰ.nil m = m
Memᴰ-Perm (Permᴰ.cons e d) (Memᴰ.head h) = Memᴰ.head (h ∙ e)
Memᴰ-Perm (Permᴰ.cons e d) (Memᴰ.tail m) = Memᴰ.tail (Memᴰ-Perm d m)
Memᴰ-Perm (Permᴰ.swap e₁ e₂) (Memᴰ.head h) = Memᴰ.tail (Memᴰ.head (h ∙ e₁))
Memᴰ-Perm (Permᴰ.swap e₁ e₂) (Memᴰ.tail (Memᴰ.head h)) = Memᴰ.head (h ∙ e₂)
Memᴰ-Perm (Permᴰ.swap e₁ e₂) (Memᴰ.tail (Memᴰ.tail m)) = Memᴰ.tail (Memᴰ.tail m)
Memᴰ-Perm (Permᴰ.trans d₁ d₂) m = Memᴰ-Perm d₂ (Memᴰ-Perm d₁ m)

pub Each-Memᴰ {ℓ κ} :
    {A : Type ℓ} (P : A → Type κ) (xs : List A) (x : A) → Each P xs → Memᴰ x xs → P x
Each-Memᴰ P [] x h m = elim m [ ]
Each-Memᴰ P (y ∷ ys) x h (Memᴰ.head e) = subst P (sym e) h.0
Each-Memᴰ P (y ∷ ys) x h (Memᴰ.tail m) = Each-Memᴰ P ys x h.1 m

pub Each-of_Memᴰ {ℓ κ} :
    {A : Type ℓ} (P : A → Type κ) (xs : List A) → ((x : A) → Memᴰ x xs → P x) → Each P xs
Each-of_Memᴰ P [] f = tt
Each-of_Memᴰ P (x ∷ xs) f = (f x (Memᴰ.head refl), Each-of_Memᴰ P xs (λ y m. f y (Memᴰ.tail m)))

-- An element can be brought to the front.
pub Memᴰ-front {ℓ} :
    {A : Type ℓ} (x : A) (xs : List A) → Memᴰ x xs → (rest : List A) × Permᴰ xs (x ∷ rest)
Memᴰ-front x [] m = elim m [ ]
Memᴰ-front x (y ∷ ys) (Memᴰ.head e) = (ys, Permᴰ.cons (sym e) (Permᴰ.refl ys))
Memᴰ-front x (y ∷ ys) (Memᴰ.tail m) =
    let (rest, d) = Memᴰ-front x ys m in
    (y ∷ rest, Permᴰ.trans (Permᴰ.cons refl d) (Permᴰ.swap refl refl))

-- Two lists with the same elements.
abbrev pub HasSame {ℓ} : {A : Type ℓ} → List A → List A → Type ℓ
HasSame xs ys = (x : _) → Memᴰ x xs ↔ Memᴰ x ys

module _ {ℓ} {A : Type ℓ} (key : A → Text) where
  pub member-Memᴰ : (x : A) (xs : List A) → Memᴰ x xs → member (key x) (map key xs) ≡ true
  unfolding member
  member-Memᴰ x [] m = elim m [ ]
  member-Memᴰ x (y ∷ ys) (Memᴰ.head e) = ground (arith, (text_eq_iff (key x) (key y)).1 (ap key e))
  member-Memᴰ x (y ∷ ys) (Memᴰ.tail m) = ground (arith, member-Memᴰ x ys m)

  pub Memᴰ-member :
      (k : Text) (xs : List A) → member k (map key xs) ≡ true → (x : A) × Memᴰ x xs × (key x ≡ k)
  unfolding member
  Memᴰ-member k [] h = cc
  Memᴰ-member k (y ∷ ys) h = elim (Bool-cases (text_eq k (key y))) [
    | inl same ↦ (y, Memᴰ.head refl, sym ((text_eq_iff k (key y)).0 same))
    | inr other ↦ let (x, m, e) = Memᴰ-member k ys (ground arith) in (x, Memᴰ.tail m, e)
  ]

  absent : (x : A) (xs : List A) → member (key x) (map key xs) ≡ false → Memᴰ x xs → ⊥
  absent x xs h m = ground (arith, member-Memᴰ x xs m)

  same_later :
      (x : A) (xs ys rest : List A)
      → member (key x) (map key xs) ≡ false
      → member (key x) (map key rest) ≡ false
      → HasSame (x ∷ xs) ys
      → Permᴰ ys (x ∷ rest)
      → HasSame xs rest
  same_later x xs ys rest d e same p y = (
    λ m. elim (Memᴰ.cases_cons (Memᴰ-Perm p ((same y).0 (Memᴰ.tail m)))) [
      | inl first ↦ absurd (absent x xs d (Memᴰ.cast (sym first) m))
      | inr later ↦ later
    ],
    λ m. elim (Memᴰ.cases_cons ((same y).1 (Memᴰ-Perm (Permᴰ.symm p) (Memᴰ.tail m)))) [
      | inl first ↦ absurd (absent x rest e (Memᴰ.cast (sym first) m))
      | inr later ↦ later
    ],
  )

  -- Lists with the same elements and distinct keys are permutations of each other.
  pub HasSame-Perm :
      (xs ys : List A)
      → distinct (map key xs) ≡ true
      → distinct (map key ys) ≡ true
      → HasSame xs ys
      → Permᴰ xs ys
  unfolding distinct
  HasSame-Perm [] [] d e same = Permᴰ.nil
  HasSame-Perm [] (y ∷ ys) d e same = elim ((same y).1 (Memᴰ.head refl)) [ ]
  HasSame-Perm (x ∷ xs) ys d e same =
      let (rest, p) = Memᴰ-front x ys ((same x).0 (Memᴰ.head refl)) in
      let apart : distinct (map key (x ∷ rest)) ≡ true =
        ground (arith, distinct-Perm (map-Perm key p)) in
      let later = same_later x xs ys rest (ground arith) (ground arith) same p in
      Permᴰ.trans (Permᴰ.cons refl (HasSame-Perm xs rest (ground arith) (ground arith) later))
        (Permᴰ.symm p)

module _ {ℓ} {A : Type ℓ} (le : A → A → Bool) where
  insert_sorted-Permᴰ : (x : A) (xs : List A) → Permᴰ (insert_sorted le x xs) (x ∷ xs)
  unfolding insert_sorted
  insert_sorted-Permᴰ x [] = Permᴰ.refl (x ∷ [])
  insert_sorted-Permᴰ x (y ∷ ys) = elim (Bool-cases (le x y)) [
    | inl h ↦ rw h (Permᴰ.refl (x ∷ y ∷ ys))
    | inr h ↦ rw h (Permᴰ.trans (Permᴰ.cons refl (insert_sorted-Permᴰ x ys)) (Permᴰ.swap refl refl))
  ]

  pub sorted-Permᴰ : (xs : List A) → Permᴰ (sorted le xs) xs
  unfolding sorted
  sorted-Permᴰ [] = Permᴰ.nil
  sorted-Permᴰ (x ∷ xs) =
      Permᴰ.trans (insert_sorted-Permᴰ x (sorted le xs)) (Permᴰ.cons refl (sorted-Permᴰ xs))
