-- ===== src/Prelude/Keys.antt =====
-- Sets and dictionaries keyed by text, as lists: membership, distinctness, lookup.
use mathlib.Core.Path.{◌≡◌, refl}
use mathlib.Core.Logic.{◌↔◌, inl, inr}
use mathlib.Core.Bool.{Bool, true, false, not, ◌&&◌, ◌||◌}
use mathlib.Core.List.{List, [], ◌∷◌, ◌++◌}
use native.Mathlib.Omega.{arith}
use domain_specific_paper_ha.Prelude.Tests.{if◌then◌else◌, Bool-cases}
use domain_specific_paper_ha.Prelude.Text.{Text, text_eq, text_eq_iff}

-- `k in ks`
unfoldable pub member : Text → List Text → Bool
member k [] = false
member k (j ∷ ks) = text_eq k j || member k ks

-- `len(set(ks)) == len(ks)`
unfoldable pub distinct : List Text → Bool
distinct [] = true
distinct (k ∷ ks) = not (member k ks) && distinct ks

-- `set(js) <= set(ks)`
unfoldable pub subset : List Text → List Text → Bool
subset [] ks = true
subset (j ∷ js) ks = member j ks && subset js ks

-- `set(js) == set(ks)`
unfoldable pub same_set : List Text → List Text → Bool
same_set js ks = subset js ks && subset ks js

pub text_eq_refl : (k : Text) → text_eq k k ≡ true
text_eq_refl k = (text_eq_iff k k).1 refl

pub member-append :
    (k : Text) (js ks : List Text) → member k (js ++ ks) ≡ (member k js || member k ks)
unfolding member
member-append k [] ks = refl
member-append k (j ∷ js) ks = ground (arith, member-append k js ks)

pub subset_iff :
    (js ks : List Text)
    → (subset js ks ≡ true) ↔ ((k : Text) → member k js ≡ true → member k ks ≡ true)
unfolding subset member
subset_iff [] ks = (λ h k m. cc, λ h. refl)
subset_iff (j ∷ js) ks =
    let ih = subset_iff js ks in
    (
      λ h k m. elim (Bool-cases (text_eq k j)) [
        | inl same ↦ rw ((text_eq_iff k j).0 same) (ground arith)
        | inr other ↦ ih.0 (ground arith) k (ground arith)
      ],
      λ h.
          let rest = ih.1 (λ k m. h k (ground arith)) in
          let head = h j (ground (arith, text_eq_refl j)) in ground arith,
    )

pub distinct-append_one :
    (ks : List Text) (k : Text)
    → distinct ks ≡ true
    → member k ks ≡ false
    → distinct (ks ++ k ∷ []) ≡ true
unfolding distinct member
distinct-append_one [] k d m = refl
distinct-append_one (j ∷ ks) k d m =
    ground (
      arith,
      distinct-append_one ks k,
      member-append j ks (k ∷ []),
      text_eq_iff k j,
      text_eq_iff j k,
    )

unfoldable pub without : Text → List Text → List Text
without k [] = []
without k (j ∷ js) = let rest = without k js in if text_eq k j then rest else j ∷ rest

-- `set(ks)` as a list, each key at its first occurrence.
unfoldable pub unique : List Text → List Text
unfolding without
unique [] = []
unique (k ∷ ks) = k ∷ without k (unique ks)
