-- ===== src/Ranking/Similar.antt =====
-- application/historical_ranking.py: the sets of tokens that `lexical_similarity` compares.
use domain_specific_paper_ha.Prelude.{
  ap, sym, ◌∙◌, ℕ, suc, ◌+◌, ◌≤◌, ◌≡◌, refl, inl, inr, true, false, not, List, [], ◌∷◌, map, length,
  length-append, filter, arith, Bool-cases, if◌then◌else◌,
}
use domain_specific_paper_ha.Prelude.Text.{Text, text_eq, text_eq_iff}
use domain_specific_paper_ha.Prelude.Keys.{text_eq_refl, member, distinct}
use domain_specific_paper_ha.Graph.Keyed.{unique-distinct}
use domain_specific_paper_ha.Ranking.Ratio.{IsUnit, whole-IsUnit, quotient-IsUnit}
use domain_specific_paper_ha.Ranking.Lexical.{
  matches, tokens, shared, joined, jaccard, lexical_similarity,
}

-- How many of some texts are in a list.
count_in : List Text → List Text → ℕ
count_in [] ys = 0
count_in (x ∷ xs) ys = if member x ys then suc (count_in xs ys) else count_in xs ys

length-shared : (xs ys : List Text) → length (shared xs ys) ≡ count_in xs ys
unfolding shared count_in
length-shared [] ys = refl
length-shared (x ∷ xs) ys = elim (Bool-cases (member x ys)) [
  | inl h ↦ rw h (ap suc (length-shared xs ys))
  | inr h ↦ rw h (length-shared xs ys)
]

count_in-empty : (xs : List Text) → count_in xs [] ≡ 0
unfolding count_in member
count_in-empty [] = refl
count_in-empty (x ∷ xs) = count_in-empty xs

-- One more text to be found counts where it is one of those that are sought, which are distinct.
count_in-more :
    (xs : List Text) (y : Text) (ys : List Text)
    → distinct xs ≡ true
    → member y ys ≡ false
    → count_in xs (y ∷ ys) ≡ (if member y xs then suc (count_in xs ys) else count_in xs ys)
unfolding count_in distinct member
count_in-more [] y ys d m = refl
count_in-more (x ∷ xs) y ys d m = elim (Bool-cases (text_eq x y)) [
  | inl same ↦
      let e : x ≡ y = (text_eq_iff x y).0 same in
      rw e (ground (arith, m, d, text_eq_refl y, ap (λ z. member z xs) e, count_in-more xs y ys))
  | inr other ↦ ground (arith, d, other, text_eq_iff x y, text_eq_iff y x, count_in-more xs y ys)
]

count_in-swap :
    (xs ys : List Text) → distinct xs ≡ true → distinct ys ≡ true → count_in xs ys ≡ count_in ys xs
unfolding count_in distinct
count_in-swap xs [] d e = count_in-empty xs
count_in-swap xs (y ∷ ys) d e =
    count_in-more xs y ys d (ground (arith, e))
    ∙ rw (count_in-swap xs ys d (ground (arith, e))) refl

length-unshared :
    (xs ys : List Text) → length (filter (λ t. not (member t xs)) ys) + count_in ys xs ≡ length ys
unfolding count_in
length-unshared xs [] = refl
length-unshared xs (y ∷ ys) = elim (Bool-cases (member y xs)) [
  | inl h ↦ rw h (omega (arith, length-unshared xs ys))
  | inr h ↦ rw h (omega (arith, length-unshared xs ys))
]

length-joined : (xs ys : List Text) → length (joined xs ys) + count_in ys xs ≡ length xs + length ys
unfolding joined
length-joined xs ys =
    let rest = filter (λ t. not (member t xs)) ys in
    omega (arith, length-append xs rest, length-unshared xs ys)

count_in-le : (xs ys : List Text) → count_in xs ys ≤ length xs
unfolding count_in
count_in-le [] ys = omega arith
count_in-le (x ∷ xs) ys = elim (Bool-cases (member x ys)) [
  | inl h ↦ rw h (omega (arith, count_in-le xs ys))
  | inr h ↦ rw h (omega (arith, count_in-le xs ys))
]

shared_comm :
    (xs ys : List Text)
    → distinct xs ≡ true
    → distinct ys ≡ true
    → length (shared xs ys) ≡ length (shared ys xs)
shared_comm xs ys d e = length-shared xs ys ∙ count_in-swap xs ys d e ∙ sym (length-shared ys xs)

joined_comm :
    (xs ys : List Text)
    → distinct xs ≡ true
    → distinct ys ≡ true
    → length (joined xs ys) ≡ length (joined ys xs)
joined_comm xs ys d e =
    omega (arith, length-joined xs ys, length-joined ys xs, count_in-swap xs ys d e)

jaccard_comm :
    (xs ys : List Text) → distinct xs ≡ true → distinct ys ≡ true → jaccard xs ys ≡ jaccard ys xs
unfolding jaccard
jaccard_comm [] [] d e = refl
jaccard_comm [] (y ∷ ys) d e = refl
jaccard_comm (x ∷ xs) [] d e = refl
jaccard_comm (x ∷ xs) (y ∷ ys) d e =
    rw (shared_comm (x ∷ xs) (y ∷ ys) d e, joined_comm (x ∷ xs) (y ∷ ys) d e) refl

jaccard-IsUnit : (xs ys : List Text) → IsUnit (jaccard xs ys)
unfolding jaccard
jaccard-IsUnit [] ys = whole-IsUnit 0 (omega arith)
jaccard-IsUnit (x ∷ xs) [] = whole-IsUnit 0 (omega arith)
jaccard-IsUnit (x ∷ xs) (y ∷ ys) =
    let there = length-joined (x ∷ xs) (y ∷ ys) in
    let some = length-shared (x ∷ xs) (y ∷ ys) in
    let few = count_in-le (x ∷ xs) (y ∷ ys) in
    let found = count_in-le (y ∷ ys) (x ∷ xs) in
    quotient-IsUnit (length (shared (x ∷ xs) (y ∷ ys))) (length (joined (x ∷ xs) (y ∷ ys)))
      (omega (arith, there, some, few, found)) (omega (arith, there, found))

module _ (casefold : Text → Text) where
  tokens-distinct : (value : Text) → distinct (tokens casefold value) ≡ true
  unfolding tokens
  tokens-distinct value = unique-distinct (map casefold (matches value))

  -- The similarity does not depend on the order of the texts, and it is between zero and one.
  pub lexical_similarity_comm :
      (source candidate : Text)
      → (lexical_similarity casefold source candidate
          ≡ lexical_similarity casefold candidate source)
        × IsUnit (lexical_similarity casefold source candidate)
  unfolding lexical_similarity
  lexical_similarity_comm source candidate = (
    jaccard_comm (tokens casefold source) (tokens casefold candidate) (tokens-distinct source)
        (tokens-distinct candidate),
    jaccard-IsUnit (tokens casefold source) (tokens casefold candidate),
  )
