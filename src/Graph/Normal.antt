-- ===== src/Graph/Normal.antt =====
-- A label that was normalized is normal: normalizing it again changes nothing.
use domain_specific_paper_ha.Prelude.{
  ℕ, ◌≤◌, ◌≡◌, refl, sym, inl, inr, Bool, true, false, [], ◌∷◌, map, is_nil, length, arith, Each,
  Bool-cases, ltb,
}
use domain_specific_paper_ha.Prelude.Text.{Text, is_space}
use domain_specific_paper_ha.Result.{ok, validated, validated-eq-ok, >>=-eq-ok, domain_invariant}
use domain_specific_paper_ha.Identity.Joined.{single_spaced, one_line}
use domain_specific_paper_ha.Graph.Label.{
  punctuation, cleaned, normalize_label, LabelMessages, label_checks, has_null,
}

-- A code point that the table leaves as it is.
abbrev IsPlain : ℕ → Type 0
IsPlain c = punctuation c ≡ c

punctuation-IsPlain : (c : ℕ) → IsPlain (punctuation c)
unfolding punctuation
punctuation-IsPlain c = ground arith

map-IsPlain : (s : Text) → Each IsPlain (map punctuation s)
map-IsPlain [] = tt
map-IsPlain (c ∷ s) = (punctuation-IsPlain c, map-IsPlain s)

IsPlain-map : (s : Text) → Each IsPlain s → map punctuation s ≡ s
IsPlain-map [] h = refl
IsPlain-map (c ∷ s) h = rw (h.0, IsPlain-map s h.1) refl

single_spaced-IsPlain :
    (started pending : Bool) (s : Text)
    → Each IsPlain s
    → Each IsPlain (single_spaced started pending s)
unfolding single_spaced punctuation
single_spaced-IsPlain started pending [] h = tt
single_spaced-IsPlain started pending (c ∷ s) h = elim (Bool-cases (is_space c)) [
  | inl blank ↦ rw blank (single_spaced-IsPlain started started s h.1)
  | inr word ↦ elim (Bool-cases pending) [
    | inl after ↦ rw (word, after) (refl, (h.0, single_spaced-IsPlain true false s h.1))
    | inr first ↦ rw (word, first) (h.0, single_spaced-IsPlain true false s h.1)
  ]
]

-- Text that is read after a word, with blanks pending or not, is spaced once.
spaced_again :
    (pending : Bool) (s : Text)
    → single_spaced true false (single_spaced true pending s) ≡ single_spaced true pending s
unfolding single_spaced is_space
spaced_again pending [] = refl
spaced_again pending (c ∷ s) = elim (Bool-cases (is_space c)) [
  | inl blank ↦ rw blank (spaced_again true s)
  | inr word ↦ elim (Bool-cases pending) [
    | inl after ↦ simp (word, after, spaced_again false s)
    | inr first ↦ simp (word, first, spaced_again false s)
  ]
]

pub one_line-idempotent : (s : Text) → one_line (one_line s) ≡ one_line s
unfolding one_line single_spaced
one_line-idempotent [] = refl
one_line-idempotent (c ∷ s) = elim (Bool-cases (is_space c)) [
  | inl blank ↦ rw blank (one_line-idempotent s)
  | inr word ↦ simp (word, spaced_again false s)
]

has_null-map : (s : Text) → has_null s ≡ false → has_null (map punctuation s) ≡ false
unfolding punctuation
has_null-map [] h = refl
has_null-map (c ∷ s) h = ground (arith, has_null-map s)

has_null-single_spaced :
    (started pending : Bool) (s : Text)
    → has_null s ≡ false
    → has_null (single_spaced started pending s) ≡ false
unfolding single_spaced
has_null-single_spaced started pending [] h = refl
has_null-single_spaced started pending (c ∷ s) h = elim (Bool-cases (is_space c)) [
  | inl blank ↦ rw blank (has_null-single_spaced started started s (ground arith))
  | inr word ↦ elim (Bool-cases pending) [
    | inl after ↦ rw (word, after) (ground (arith, has_null-single_spaced true false s))
    | inr first ↦ rw (word, first) (ground (arith, has_null-single_spaced true false s))
  ]
]

module _ (nfkc : Text → Text)
    (nfkc-has_null : (s : Text) → has_null s ≡ false → has_null (nfkc s) ≡ false)
    (messages : LabelMessages) (maximum : ℕ) where
  -- A label that NFKC leaves as it is.
  cleaned-again :
      (value : Text)
      → nfkc (cleaned nfkc value) ≡ cleaned nfkc value
      → cleaned nfkc (cleaned nfkc value) ≡ cleaned nfkc value
  unfolding cleaned one_line
  cleaned-again value same =
      let spaced =
        single_spaced-IsPlain false false (map punctuation (nfkc value))
          (map-IsPlain (nfkc value)) in
      rw (same, IsPlain-map (one_line (map punctuation (nfkc value))) spaced)
        (one_line-idempotent (map punctuation (nfkc value)))

  cleaned-has_null : (value : Text) → has_null value ≡ false → has_null (cleaned nfkc value) ≡ false
  unfolding cleaned one_line
  cleaned-has_null value h =
      has_null-single_spaced false false (map punctuation (nfkc value))
        (has_null-map (nfkc value) (nfkc-has_null value h))

  -- Where NFKC adds no null character, a label that was normalized and that NFKC leaves as it is is
  -- not empty, no longer than the maximum, without a null character, and normalized to itself.
  pub normalize_label-idempotent :
      (value label : Text)
      → normalize_label nfkc messages maximum value ≡ ok label
      → nfkc label ≡ label
      → (is_nil label ≡ false)
        × (length label ≤ maximum)
        × (has_null label ≡ false)
        × (normalize_label nfkc messages maximum label ≡ ok label)
  unfolding normalize_label
  normalize_label-idempotent value label h same =
      let (checked, first, rest) =
        >>=-eq-ok
          (validated value ((has_null value, domain_invariant messages.null_character) ∷ [])) _
          label h in
      let start =
        validated-eq-ok value ((has_null value, domain_invariant messages.null_character) ∷ [])
          first in
      let accepted =
        validated-eq-ok (cleaned nfkc checked)
          (label_checks messages maximum (cleaned nfkc checked)) rest in
      let clean : has_null checked ≡ false = rw (sym start.0) start.1.0 in
      let no_null : has_null label ≡ false = rw (sym accepted.0) (cleaned-has_null checked clean) in
      let again : cleaned nfkc label ≡ label =
        rw (sym accepted.0) (cleaned-again checked (rw accepted.0 same)) in
      let filled : is_nil label ≡ false = rw (sym accepted.0) accepted.1.0 in
      let short : ltb maximum (length label) ≡ false = rw (sym accepted.0) accepted.1.1.0 in
      (filled, ground arith, no_null, rw (no_null, again, filled, short) refl)
