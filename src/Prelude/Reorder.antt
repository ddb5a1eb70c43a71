-- ===== src/Prelude/Reorder.antt =====
-- What does not depend on the order of a list: lengths, filters, sets of keys, and the sorted list.
use mathlib.Core.Path.{◌≡◌, refl, sym, ◌∙◌, ap, ap₂, subst}
use mathlib.Core.Logic.{inl, inr}
use mathlib.Core.Bool.{Bool, true, false, ◌||◌}
use mathlib.Core.List.{List, [], ◌∷◌, map}
use mathlib.Core.List.{Permᴰ}
use mathlib.Core.List.Permᴰ
use native.Mathlib.Omega.{arith}
use domain_specific_paper_ha.Prelude.Tests.{Bool-cases}
use domain_specific_paper_ha.Prelude.Lists.{length, filter, Each, Each-map}
use domain_specific_paper_ha.Prelude.Text.{Text, text_eq, text_eq_iff}
use domain_specific_paper_ha.Prelude.Keys.{member, distinct}
use domain_specific_paper_ha.Prelude.Sort.{insert_sorted, sorted}

pub length-Perm {ℓ} : {A : Type ℓ} {xs ys : List A} → Permᴰ xs ys → length xs ≡ length ys
length-Perm Permᴰ.nil = refl
length-Perm (Permᴰ.cons e d) = omega (arith, length-Perm d)
length-Perm (Permᴰ.swap e₁ e₂) = refl
length-Perm (Permᴰ.trans d₁ d₂) = length-Perm d₁ ∙ length-Perm d₂

pub map-Perm {ℓ κ} :
    {A : Type ℓ} {B : Type κ} (f : A → B) {xs ys : List A}
    → Permᴰ xs ys
    → Permᴰ (map f xs) (map f ys)
map-Perm f Permᴰ.nil = Permᴰ.nil
map-Perm f (Permᴰ.cons e d) = Permᴰ.cons (ap f e) (map-Perm f d)
map-Perm f (Permᴰ.swap e₁ e₂) = Permᴰ.swap (ap f e₁) (ap f e₂)
map-Perm f (Permᴰ.trans d₁ d₂) = Permᴰ.trans (map-Perm f d₁) (map-Perm f d₂)

module _ {ℓ} {A : Type ℓ} (p : A → Bool) where
  filter_swap : (a b : A) (xs : List A) → Permᴰ (filter p (a ∷ b ∷ xs)) (filter p (b ∷ a ∷ xs))
  filter_swap a b xs = elim (Bool-cases (p a)) [
    | inl l ↦ rw l (elim (Bool-cases (p b)) [
      | inl r ↦ rw r (Permᴰ.swap refl refl)
      | inr r ↦ rw r (Permᴰ.refl _)
    ])
    | inr l ↦ rw l (Permᴰ.refl _)
  ]

  filter_cons :
      (a : A) (xs ys : List A)
      → Permᴰ (filter p xs) (filter p ys)
      → Permᴰ (filter p (a ∷ xs)) (filter p (a ∷ ys))
  filter_cons a xs ys d = elim (Bool-cases (p a)) [
    | inl kept ↦ rw kept (Permᴰ.cons refl d)
    | inr cut ↦ rw cut d
  ]

  pub filter-Perm : {xs ys : List A} → Permᴰ xs ys → Permᴰ (filter p xs) (filter p ys)
  filter-Perm Permᴰ.nil = Permᴰ.nil
  filter-Perm (Permᴰ.cons {a = a} {b = b} {l₁ = xs} {l₂ = ys} e d) =
      subst (λ c. Permᴰ (filter p (a ∷ xs)) (filter p (c ∷ ys))) e
        (filter_cons a xs ys (filter-Perm d))
  filter-Perm (Permᴰ.swap {a = a} {b = b} {a' = a'} {b' = b'} {l = xs} e₁ e₂) =
      subst (λ c. Permᴰ (filter p (a ∷ b ∷ xs)) (filter p (a' ∷ c ∷ xs))) e₁
        (subst (λ c. Permᴰ (filter p (a ∷ b ∷ xs)) (filter p (c ∷ a ∷ xs))) e₂ (filter_swap a b xs))
  filter-Perm (Permᴰ.trans d₁ d₂) = Permᴰ.trans (filter-Perm d₁) (filter-Perm d₂)

pub member-Perm : {js ks : List Text} (k : Text) → Permᴰ js ks → member k js ≡ member k ks
unfolding member
member-Perm k Permᴰ.nil = refl
member-Perm k (Permᴰ.cons e d) = ap₂ ◌||◌ (ap (text_eq k) e) (member-Perm k d)
member-Perm k (Permᴰ.swap {a = a} {b = b} {a' = a'} {b' = b'} e₁ e₂) =
    rw (sym e₁, sym e₂) (ground arith)
member-Perm k (Permᴰ.trans d₁ d₂) = member-Perm k d₁ ∙ member-Perm k d₂

pub distinct-Perm : {js ks : List Text} → Permᴰ js ks → distinct js ≡ distinct ks
unfolding distinct member
distinct-Perm Permᴰ.nil = refl
distinct-Perm (Permᴰ.cons {a = a} {b = b} {l₁ = js} {l₂ = ks} e d) =
    rw (sym e) (ground (arith, distinct-Perm d, member-Perm a d))
distinct-Perm (Permᴰ.swap {a = a} {b = b} e₁ e₂) =
    rw (sym e₁, sym e₂) (ground (arith, text_eq_iff a b, text_eq_iff b a))
distinct-Perm (Permᴰ.trans d₁ d₂) = distinct-Perm d₁ ∙ distinct-Perm d₂

-- What an order asks for: of any two elements one comes first, and before what comes later.
pub record IsOrder {ℓ} {A : Type ℓ} (le : A → A → Bool) : Type ℓ where
  pub total : (x y : A) → le x y ≡ false → le y x ≡ true
  pub transitive : (x y z : A) → le x y ≡ true → le y z ≡ true → le x z ≡ true

Each-both {ℓ κ μ} :
    {A : Type ℓ} (P : A → Type κ) (Q : A → Type μ) (xs : List A)
    → Each P xs
    → Each Q xs
    → Each (λ x. P x × Q x) xs
Each-both P Q [] h k = tt
Each-both P Q (x ∷ xs) h k = ((h.0, k.0), Each-both P Q xs h.1 k.1)

-- `R` holds of any two elements.
abbrev pub EachPair {ℓ κ} : {A : Type ℓ} → (A → A → Type κ) → List A → Type κ
EachPair R xs = Each (λ x. Each (R x) xs) xs

pub Each-Perm {ℓ κ} :
    {A : Type ℓ} (P : A → Type κ) {xs ys : List A} → Permᴰ xs ys → Each P xs → Each P ys
Each-Perm P Permᴰ.nil h = tt
Each-Perm P (Permᴰ.cons e d) h = (subst P e h.0, Each-Perm P d h.1)
Each-Perm P (Permᴰ.swap e₁ e₂) h = (subst P e₂ h.1.0, (subst P e₁ h.0, h.1.1))
Each-Perm P (Permᴰ.trans d₁ d₂) h = Each-Perm P d₂ (Each-Perm P d₁ h)

pub EachPair-Perm {ℓ κ} :
    {A : Type ℓ} (R : A → A → Type κ) {xs ys : List A} → Permᴰ xs ys → EachPair R xs → EachPair R ys
EachPair-Perm R {xs = xs} {ys = ys} d h =
    Each-map (λ x. Each (R x) xs) (λ x. Each (R x) ys) (λ x. Each-Perm (R x) d) ys
      (Each-Perm (λ x. Each (R x) xs) d h)

pub EachPair-rest {ℓ κ} :
    {A : Type ℓ} (R : A → A → Type κ) (x : A) (xs : List A) → EachPair R (x ∷ xs) → EachPair R xs
EachPair-rest R x xs h =
    Each-map (λ y. Each (R y) (x ∷ xs)) (λ y. Each (R y) xs) (λ y k. k.1) xs h.1

pub EachPair-map {ℓ κ μ} :
    {A : Type ℓ} (R : A → A → Type κ) (S : A → A → Type μ)
    → ((x y : A) → R x y → S x y)
    → (xs : List A) → EachPair R xs
    → EachPair S xs
EachPair-map R S f xs =
    Each-map (λ x. Each (R x) xs) (λ x. Each (S x) xs) (λ x. Each-map (R x) (S x) (f x) xs) xs

-- Elements that tie are equal.
abbrev pub IsTie {ℓ} : {A : Type ℓ} → (A → A → Bool) → A → A → Type ℓ
IsTie le x y = le x y ≡ true → le y x ≡ true → x ≡ y

module _ {ℓ} {A : Type ℓ} (le : A → A → Bool) (order : IsOrder le) where
  abbrev Swaps : A → A → List A → Type ℓ
  Swaps x y zs =
      insert_sorted le x (insert_sorted le y zs) ≡ insert_sorted le y (insert_sorted le x zs)

  insert_sorted_swap :
      (x y : A) → (le x y ≡ true → le y x ≡ true → x ≡ y) → (zs : List A) → Swaps x y zs
  unfolding insert_sorted
  insert_sorted_swap x y tie [] = elim (Bool-cases (le x y)) [
    | inl a ↦ elim (Bool-cases (le y x)) [
      | inl b ↦ rw (a, b, tie a b) refl
      | inr b ↦ rw (a, b) refl
    ]
    | inr a ↦ rw (a, order.total x y a) refl
  ]
  insert_sorted_swap x y tie (z ∷ zs) =
      let ih = insert_sorted_swap x y tie zs in
      elim (Bool-cases (le x z)) [
        | inl xz ↦ elim (Bool-cases (le y z)) [
          | inl yz ↦ elim (Bool-cases (le x y)) [
            | inl a ↦ elim (Bool-cases (le y x)) [
              | inl b ↦ subst (λ w. Swaps x w (z ∷ zs)) (tie a b) refl
              | inr b ↦ simp (xz, yz, a, b)
            ]
            | inr a ↦ simp (xz, yz, a, order.total x y a)
          ]
          | inr yz ↦ elim (Bool-cases (le y x)) [
            | inl b ↦ ground (arith, order.transitive y x z b xz)
            | inr b ↦ simp (xz, yz, b)
          ]
        ]
        | inr xz ↦ elim (Bool-cases (le y z)) [
          | inl yz ↦ elim (Bool-cases (le x y)) [
            | inl a ↦ ground (arith, order.transitive x y z a yz)
            | inr a ↦ simp (xz, yz, a)
          ]
          | inr yz ↦ simp (xz, yz, ih)
        ]
      ]

  -- The order of the list is forgotten, where no two elements that differ tie.
  pub sorted-Perm :
      {xs ys : List A} → EachPair (IsTie le) xs → Permᴰ xs ys → sorted le xs ≡ sorted le ys
  unfolding sorted
  sorted-Perm ties Permᴰ.nil = refl
  sorted-Perm ties (Permᴰ.cons {a = a} {l₁ = xs} e d) =
      rw (sym e, sorted-Perm (EachPair-rest (IsTie le) a xs ties) d) refl
  sorted-Perm ties (Permᴰ.swap {a = a} {b = b} {l = xs} e₁ e₂) =
      rw (sym e₁, sym e₂) (insert_sorted_swap a b ties.0.1.0 (sorted le xs))
  sorted-Perm ties (Permᴰ.trans d₁ d₂) =
      sorted-Perm ties d₁ ∙ sorted-Perm (EachPair-Perm (IsTie le) d₁ ties) d₂

-- Elements whose keys are distinct are told apart by their keys.
module _ {ℓ} {A : Type ℓ} (key : A → Text) where
  abbrev pub IsTold : A → A → Type ℓ
  IsTold x y = key x ≡ key y → x ≡ y

  IsTold-from_later :
      (x : A) (xs : List A)
      → member (key x) (map key xs) ≡ false
      → Each (IsTold x) xs × Each (λ y. IsTold y x) xs
  unfolding member
  IsTold-from_later x [] m = (tt, tt)
  IsTold-from_later x (y ∷ ys) m =
      let (here, there) = IsTold-from_later x ys (ground arith) in
      (
        (λ same. ground (arith, (text_eq_iff (key x) (key y)).1 same), here),
        (λ same. ground (arith, (text_eq_iff (key x) (key y)).1 (sym same)), there),
      )

  pub distinct-IsTold : (xs : List A) → distinct (map key xs) ≡ true → EachPair IsTold xs
  unfolding distinct
  distinct-IsTold [] d = tt
  distinct-IsTold (x ∷ xs) d =
      let (here, there) = IsTold-from_later x xs (ground arith) in
      let rest = distinct-IsTold xs (ground arith) in
      ((λ same. refl, here), Each-both (λ y. IsTold y x) (λ y. Each (IsTold y) xs) xs there rest)
