-- ===== src/Identity/Parsed.antt =====
-- domain/identity.py: what `parse_arxiv_identifier` reads from a printed identifier.
use mathlib.Core.Path.{subst}
use mathlib.Core.List.{reverse, reverse-append, reverse-cons, reverse-reverse, append_assoc}
use domain_specific_paper_ha.Prelude.{
  ℕ, ◌+◌, ◌-◌, ◌*◌, ◌≤◌, ◌<◌, ◌≡◌, refl, sym, ap, ◌∙◌, inl, inr, Bool, true, false, ◌&&◌, ◌||◌, not,
  Option, none, some, [], ◌∷◌, ◌++◌, all, ◌==◌, arith, Bool-cases,
}
use domain_specific_paper_ha.Prelude.Text.{Text, codes, strip, lstrip, is_space, starts_with}
use domain_specific_paper_ha.Result.{ok}
use domain_specific_paper_ha.Identity.Encoding.{
  decimal, IsDigits, value_from, value-decimal, decimal-IsDigits, decimal-first,
}
use domain_specific_paper_ha.Identity.Arxiv.{
  is_letter, partition, split_version, without_url, is_archive, is_digit, is_modern, is_classic,
  is_canonical, is_version, number_from, match_versioned, parse_arxiv_identifier,
}

-- What the code relies on of Unicode's decimal digits.
pub record IsDecimal (digit_value : ℕ → Option ℕ) : Type 0 where
  pub ascii : (d : ℕ) → d < 10 → digit_value (b'0' + d) ≡ some d
  pub no_space : (c : ℕ) → is_digit digit_value c ≡ true → is_space c ≡ false
  pub no_colon : is_digit digit_value b':' ≡ false

-- Neither a space nor a colon.
is_plain : ℕ → Bool
is_plain c = not (is_space c) && not (c == b':')

all_mono :
    (p q : ℕ → Bool)
    → ((c : ℕ) → p c ≡ true → q c ≡ true)
    → (t : Text) → all p t ≡ true
    → all q t ≡ true
all_mono p q f [] h = refl
all_mono p q f (c ∷ t) h = ground (arith, h, f c, all_mono p q f t)

all-append : (p : ℕ → Bool) (s t : Text) → all p s ≡ true → all p t ≡ true → all p (s ++ t) ≡ true
all-append p [] t h k = k
all-append p (c ∷ s) t h k = ground (arith, h, all-append p s t)

abbrev from_separator : ℕ → Option Text → Text
from_separator c none = []
from_separator c (some after) = c ∷ after

partition-append : (c : ℕ) (t : Text) → t ≡ (partition c t).0 ++ from_separator c (partition c t).1
unfolding partition
partition-append c [] = refl
partition-append c (d ∷ t) = elim (Bool-cases (d == c)) [
  | inl here ↦ let same : d ≡ c = ground (arith, here) in rw (here, same) refl
  | inr there ↦ rw there (ap (λ s. d ∷ s) (partition-append c t))
]

all-partition :
    (p : ℕ → Bool) (c : ℕ) (t : Text)
    → all p (partition c t).0 ≡ true
    → all p (from_separator c (partition c t).1) ≡ true
    → all p t ≡ true
all-partition p c t h k =
    ap (all p) (partition-append c t)
    ∙ all-append p (partition c t).0 (from_separator c (partition c t).1) h k

starts_with-all :
    (p : ℕ → Bool) (t s : Text) → starts_with t s ≡ true → all p s ≡ true → all p t ≡ true
unfolding starts_with
starts_with-all p [] s h k = refl
starts_with-all p (c ∷ t) [] h k = cc
starts_with-all p (c ∷ t) (d ∷ s) h k =
    let same : c ≡ d = ground (arith, h) in rw same (ground (arith, h, k, starts_with-all p t s))

split_version-none : (ds : Text) → IsDigits ds → split_version ds ≡ none
unfolding split_version
split_version-none [] h = refl
split_version-none (d ∷ ds) h = rw (split_version-none ds h.2) (ground (arith, h.0, h.1))

split_version-last : (c ds : Text) → IsDigits ds → split_version (c ++ b'v' ∷ ds) ≡ some (c, ds)
unfolding split_version
split_version-last [] ds h = rw (split_version-none ds h) refl
split_version-last (x ∷ c) ds h = rw (split_version-last c ds h) refl

lstrip-first : (c : ℕ) (s : Text) → is_space c ≡ false → lstrip (c ∷ s) ≡ c ∷ s
unfolding lstrip
lstrip-first c s h = rw h refl

strip_ends :
    (c : ℕ) (s : Text) (d : ℕ)
    → is_space c ≡ false
    → is_space d ≡ false
    → strip (c ∷ (s ++ d ∷ [])) ≡ c ∷ (s ++ d ∷ [])
unfolding strip
strip_ends c s d h k =
    let turned : reverse (c ∷ (s ++ d ∷ [])) ≡ d ∷ (reverse s ++ c ∷ []) =
      reverse-append (c ∷ s) (d ∷ []) ∙ ap (λ r. d ∷ r) (reverse-cons c s) in
    rw (lstrip-first c (s ++ d ∷ []) h, turned, lstrip-first d (reverse s ++ c ∷ []) k)
      (ap reverse (sym turned) ∙ reverse-reverse (c ∷ (s ++ d ∷ [])))

-- The last of some digits.
IsDigits-last :
    (d : ℕ) (ds : Text)
    → IsDigits (d ∷ ds)
    → (front : Text) × (last : ℕ) × (d ∷ ds ≡ front ++ last ∷ []) × (is_space last ≡ false)
unfolding is_space
IsDigits-last d [] h = ([], d, refl, ground (arith, h))
IsDigits-last d (e ∷ ds) h =
    let (front, last, same, plain) = IsDigits-last e ds h.2 in
    (d ∷ front, last, ap (λ t. d ∷ t) same, plain)

digits-is_plain : (ds : Text) → IsDigits ds → all is_plain ds ≡ true
unfolding is_plain is_space
digits-is_plain [] h = refl
digits-is_plain (d ∷ ds) h = ground (arith, h.0, h.1, digits-is_plain ds h.2)

letter-is_plain : (c : ℕ) → is_letter c ≡ true → is_plain c ≡ true
unfolding is_letter is_plain is_space
letter-is_plain c h = ground (arith, h)

module _ (digit_value : ℕ → Option ℕ) (decimals : IsDecimal digit_value) where
  digit-is_plain : (c : ℕ) → is_digit digit_value c ≡ true → is_plain c ≡ true
  unfolding is_plain
  digit-is_plain c h = elim (Bool-cases (c == b':')) [
    | inl colon ↦
        let same : c ≡ b':' = ground (arith, colon) in
        let stuck : true ≡ false = sym h ∙ ap (is_digit digit_value) same ∙ decimals.no_colon in cc
    | inr other ↦ ground (arith, other, decimals.no_space c h)
  ]

  archive_char-is_plain : (c : ℕ) → (is_letter c || c == b'-') ≡ true → is_plain c ≡ true
  unfolding is_plain is_space
  archive_char-is_plain c h = elim (Bool-cases (is_letter c)) [
    | inl letter ↦ letter-is_plain c letter
    | inr other ↦ let same : c ≡ b'-' = ground (arith, h, other) in rw same refl
  ]

  modern-is_plain :
      (m : Text) (n : Option Text)
      → is_modern digit_value m n ≡ true
      → (all is_plain m ≡ true) × (all is_plain (from_separator b'.' n) ≡ true)
  unfolding is_modern is_plain is_space
  modern-is_plain m none h = (absurd (ground (arith, h)), refl)
  modern-is_plain m (some digits) h = (
    all_mono (is_digit digit_value) is_plain digit-is_plain m (ground (arith, h)),
    all_mono (is_digit digit_value) is_plain digit-is_plain digits (ground (arith, h)),
  )

  archive-is_plain :
      (a : Text × Option Text)
      → is_archive a ≡ true
      → (all is_plain a.0 ≡ true) × (all is_plain (from_separator b'.' a.1) ≡ true)
  unfolding is_archive is_plain is_space
  archive-is_plain (name, none) h = (
    all_mono (λ c. is_letter c || c == b'-') is_plain archive_char-is_plain name
        (ground (arith, h)),
    refl,
  )
  archive-is_plain (name, some letters) h = (
    all_mono (λ c. is_letter c || c == b'-') is_plain archive_char-is_plain name
        (ground (arith, h)),
    all_mono is_letter is_plain letter-is_plain letters (ground (arith, h)),
  )

  classic-is_plain :
      (a : Text) (n : Option Text)
      → is_classic digit_value a n ≡ true
      → (all is_plain a ≡ true) × (all is_plain (from_separator b'/' n) ≡ true)
  unfolding is_classic is_plain is_space
  classic-is_plain a none h = (cc, refl)
  classic-is_plain a (some digits) h =
      let (name, subject) = archive-is_plain (partition b'.' a) (ground (arith, h)) in
      (
        all-partition is_plain b'.' a name subject,
        all_mono (is_digit digit_value) is_plain digit-is_plain digits (ground (arith, h)),
      )

  canonical-is_plain : (c : Text) → is_canonical digit_value c ≡ true → all is_plain c ≡ true
  unfolding is_canonical
  canonical-is_plain c h =
      elim (Bool-cases (is_modern digit_value (partition b'.' c).0 (partition b'.' c).1)) [
        | inl modern ↦
            let (m, n) = modern-is_plain (partition b'.' c).0 (partition b'.' c).1 modern in
            all-partition is_plain b'.' c m n
        | inr other ↦
            let (a, n) =
              classic-is_plain (partition b'/' c).0 (partition b'/' c).1
                (ground (arith, h, other)) in
            all-partition is_plain b'/' c a n
      ]

  value-digit : (c : ℕ) → b'0' ≤ c → c ≤ b'9' → digit_value c ≡ some (c - b'0')
  value-digit c h k =
      ap digit_value (omega (arith, h, k)) ∙ decimals.ascii (c - b'0') (omega (arith, h, k))

  all_digits : (ds : Text) → IsDigits ds → all (is_digit digit_value) ds ≡ true
  all_digits [] h = refl
  all_digits (c ∷ ds) h = rw (value-digit c h.0 h.1) (all_digits ds h.2)

  number_from-value_from :
      (read : ℕ) (ds : Text) → IsDigits ds → number_from digit_value read ds ≡ value_from read ds
  unfolding number_from value_from
  number_from-value_from read [] h = refl
  number_from-value_from read (c ∷ ds) h =
      let step : 10 * read + (c - b'0') ≡ read * 10 + c - b'0' = omega (arith, h.0) in
      rw (value-digit c h.0 h.1, step) (number_from-value_from (read * 10 + c - b'0') ds h.2)

  decimal-is_version : (n : ℕ) → 1 ≤ n → is_version digit_value (decimal n) ≡ true
  unfolding is_version
  decimal-is_version n h =
      let (d, ds, e, first) = decimal-first n h in
      let digits : IsDigits (d ∷ ds) = subst IsDigits e (decimal-IsDigits n) in
      rw e (ground (arith, first, digits.1, all_digits ds digits.2))

  canonical-cons :
      (c : Text) → is_canonical digit_value c ≡ true → (x : ℕ) × (rest : Text) × (c ≡ x ∷ rest)
  unfolding is_canonical is_modern is_classic partition is_archive
  canonical-cons [] h = cc
  canonical-cons (x ∷ rest) h = (x, rest, refl)

  stripped :
      (c : Text) (n : ℕ)
      → is_canonical digit_value c ≡ true
      → 1 ≤ n
      → strip (c ++ b'v' ∷ decimal n) ≡ c ++ b'v' ∷ decimal n
  unfolding is_plain
  stripped c n h p =
      let (x, rest, e) = canonical-cons c h in
      let plain : all is_plain (x ∷ rest) ≡ true =
        ap (all is_plain) (sym e) ∙ canonical-is_plain c h in
      let (d, ds, f, first) = decimal-first n p in
      let (front, last, g, dense) = IsDigits-last d ds (subst IsDigits f (decimal-IsDigits n)) in
      let whole : c ++ b'v' ∷ decimal n ≡ x ∷ ((rest ++ b'v' ∷ front) ++ last ∷ []) =
        ap (λ t. t ++ b'v' ∷ decimal n) e
        ∙ ap (λ t. x ∷ (rest ++ b'v' ∷ t)) (f ∙ g)
        ∙ ap (λ t. x ∷ t) (sym (append_assoc rest (b'v' ∷ front) (last ∷ []))) in
      rw whole (strip_ends x (rest ++ b'v' ∷ front) last (ground (arith, plain)) dense)

  not_url :
      (c : Text) (n : ℕ)
      → is_canonical digit_value c ≡ true
      → without_url (c ++ b'v' ∷ decimal n) ≡ c ++ b'v' ∷ decimal n
  unfolding without_url is_plain is_space
  not_url c n h =
      let plain =
        all-append is_plain c (b'v' ∷ decimal n) (canonical-is_plain c h)
          (digits-is_plain (decimal n) (decimal-IsDigits n)) in
      elim (Bool-cases (starts_with (codes "http://") (c ++ b'v' ∷ decimal n))) [
        | inl http ↦
            let stuck =
              starts_with-all is_plain (codes "http://") (c ++ b'v' ∷ decimal n) http plain in
            cc
        | inr no_http ↦ elim (Bool-cases (starts_with (codes "https://") (c ++ b'v' ∷ decimal n))) [
          | inl https ↦
              let stuck =
                starts_with-all is_plain (codes "https://") (c ++ b'v' ∷ decimal n) https plain in
              cc
          | inr no_https ↦ rw (no_http, no_https) refl
        ]
      ]

  -- A canonical identifier, printed with a positive version after `v`, is read back in lower case and
  -- with that version.
  pub parse_arxiv_identifier-append :
      (lower : Text → Text) (canonical : Text) (version : ℕ)
      → is_canonical digit_value canonical ≡ true
      → 1 ≤ version
      → parse_arxiv_identifier digit_value lower (canonical ++ b'v' ∷ decimal version)
        ≡ ok (lower canonical, version)
  unfolding parse_arxiv_identifier match_versioned
  parse_arxiv_identifier-append lower canonical version h p =
      let found = split_version-last canonical (decimal version) (decimal-IsDigits version) in
      let number = number_from-value_from 0 (decimal version) (decimal-IsDigits version) in
      rw (stripped canonical version h p, not_url canonical version h)
        (simp
          (found, match_versioned, h, decimal-is_version version p, number, value-decimal version))
