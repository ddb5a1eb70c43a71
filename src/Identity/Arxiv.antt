-- ===== src/Identity/Arxiv.antt =====
-- domain/identity.py: arXiv identifiers and the names made of them, and the identifiers whose names
-- fold case. `str.lower`, `str.casefold` and the value of a Unicode decimal digit, which `\d` and `int`
-- accept, are parameters. `X_name` is what `stable_X_id` hands to `uuid5`.
use domain_specific_paper_ha.Prelude.{
  ℕ, ◌+◌, ◌*◌, Bool, true, false, ◌&&◌, ◌||◌, not, Option, none, some, is_some, [], ◌∷◌, ◌++◌,
  is_nil, length, all, leb, ◌==◌, if◌then◌else◌,
}
use domain_specific_paper_ha.Prelude.Int.{ℤ, pos, ltb_ℤ}
use domain_specific_paper_ha.Prelude.Text.{Text, codes, strip, starts_with}
use domain_specific_paper_ha.Result.{Result, ok, err, validated, domain_invariant, ◌>>=◌}
use domain_specific_paper_ha.Identity.Graph.{is_blank}
use domain_specific_paper_ha.Identity.Joined.{decimal_ℤ, normalize_author_name}

-- `[a-z]` or `[A-Z]` with `re.IGNORECASE`, which also accepts U+0130, U+0131, U+017F and U+212A.
unfoldable pub is_letter : ℕ → Bool
is_letter c =
    (leb b'a' c && leb c b'z')
    || ((leb b'A' c && leb c b'Z') || (c == 0x130 || (c == 0x131 || (c == 0x17F || c == 0x212A))))

-- The text before the first `c` and the text after it, where there is one.
unfoldable pub partition : ℕ → Text → Text × Option Text
partition c [] = ([], none)
partition c (d ∷ s) =
    let (before, after) = partition c s in if d == c then ([], some s) else (d ∷ before, after)

-- The text before the last `v` of either case and the text after it.
unfoldable pub split_version : Text → Option (Text × Text)
split_version [] = none
split_version (c ∷ s) = elim (split_version s) [
  | some (before, after) ↦ some (c ∷ before, after)
  | none ↦ if c == b'v' || c == b'V' then some ([], s) else none
]

-- The text after the last slash.
unfoldable pub last_segment : Text → Text
last_segment [] = []
last_segment (c ∷ s) =
    let rest = last_segment s in
    elim (partition b'/' s).1 [ some _ ↦ rest | none ↦ if c == b'/' then s else c ∷ s ]

-- `rstrip("/")`
unfoldable pub strip_slashes : Text → Text
strip_slashes [] = []
strip_slashes (c ∷ s) =
    let rest = strip_slashes s in if is_nil rest && c == b'/' then [] else c ∷ rest

-- The last segment of a URL.
unfoldable pub without_url : Text → Text
unfolding starts_with strip_slashes last_segment partition
without_url cleaned =
    if starts_with (codes "http://") cleaned || starts_with (codes "https://") cleaned
    then last_segment (strip_slashes cleaned)
    else cleaned

-- `[a-z-]+(?:\.[A-Z]{2})?`
unfoldable pub is_archive : Text × Option Text → Bool
unfolding is_letter
is_archive (name, subject) =
    not (is_nil name)
    && (all (λ c. is_letter c || c == b'-') name && (elim subject [
      | none ↦ true
      | some letters ↦ length letters == 2 && all is_letter letters
    ]))

module _ (digit_value : ℕ → Option ℕ) where
  abbrev pub is_digit : ℕ → Bool
  is_digit c = is_some (digit_value c)

  -- So many digits, a dot, and four or five digits.
  unfoldable pub is_modern : Text → Option Text → Bool
  is_modern month number = (length month == 4 && all is_digit month) && (elim number [
    | none ↦ false
    | some digits ↦ (length digits == 4 || length digits == 5) && all is_digit digits
  ])

  -- An archive, a slash and seven digits.
  unfoldable pub is_classic : Text → Option Text → Bool
  unfolding is_archive partition
  is_classic archive number = elim number [
    | none ↦ false
    | some digits ↦
        is_archive (partition b'.' archive) && (length digits == 7 && all is_digit digits)
  ]

  -- A full match of `_ARXIV_CANONICAL_ID`.
  unfoldable pub is_canonical : Text → Bool
  unfolding is_modern is_classic partition
  is_canonical t =
      is_modern (partition b'.' t).0 (partition b'.' t).1
      || is_classic (partition b'/' t).0 (partition b'/' t).1

  -- `[1-9]\d*`
  unfoldable pub is_version : Text → Bool
  is_version [] = false
  is_version (c ∷ s) = (leb b'1' c && leb c b'9') && all is_digit s

  -- `int(digits)`, after the number that was read already.
  unfoldable pub number_from : ℕ → Text → ℕ
  number_from read [] = read
  number_from read (c ∷ s) =
      number_from (elim (digit_value c) [ none ↦ read | some d ↦ 10 * read + d ]) s

  module _ (lower : Text → Text) where
    -- The groups of a full match of `_ARXIV_VERSIONED_ID`: a version ends in digits, so its `v` is the
    -- last one.
    unfoldable pub match_versioned : Text → Result (Text × ℕ)
    unfolding split_version is_canonical is_version number_from
    match_versioned cleaned = elim (split_version cleaned) [
      | none ↦ err (domain_invariant "arXiv identifier must include an explicit version")
      | some (canonical, version) ↦
          if is_canonical canonical && is_version version
          then ok (lower canonical, number_from 0 version)
          else err (domain_invariant "arXiv identifier must include an explicit version")
    ]

    -- The message of the error ends with the value.
    unfoldable pub parse_arxiv_identifier : Text → Result (Text × ℕ)
    unfolding without_url match_versioned
    parse_arxiv_identifier value = match_versioned (without_url (strip value))

    unfoldable pub validate_canonical_arxiv_id : Text → Result Text
    unfolding is_canonical
    validate_canonical_arxiv_id value =
        let cleaned = lower (strip value) in
        validated cleaned
          ((not (is_canonical cleaned), domain_invariant "invalid canonical arXiv identifier") ∷ [])

    -- `stable_paper_id`
    unfoldable pub paper_name : Text → Result Text
    unfolding validate_canonical_arxiv_id
    paper_name canonical_arxiv_id = validate_canonical_arxiv_id canonical_arxiv_id

    -- `stable_paper_version_id`
    unfoldable pub paper_version_name : Text → ℤ → Result Text
    unfolding validate_canonical_arxiv_id decimal_ℤ
    paper_version_name canonical_arxiv_id version =
        validated {0} tt
          ((ltb_ℤ version (pos 1), domain_invariant "paper version must be positive") ∷ [])
        >>= λ _. validate_canonical_arxiv_id canonical_arxiv_id >>= λ canonical.
            ok (codes "arxiv:" ++ canonical ++ codes ":v" ++ decimal_ℤ version)

    module _ (casefold : Text → Text) where
      -- `stable_author_id`
      unfoldable pub author_name : Text → Result Text
      unfolding normalize_author_name
      author_name name = normalize_author_name name >>= λ normalized. ok (casefold normalized)

      -- `stable_external_paper_id`. The paper's identifier is not empty after the first check, so the
      -- branches of the DOI and of the last error are never taken.
      unfoldable pub external_paper_name : Text → Option Text → Option Text → Result Text
      unfolding validate_canonical_arxiv_id
      external_paper_name semantic_scholar_id arxiv_id doi =
          let value = strip semantic_scholar_id in
          validated {0} tt
            ((is_nil value, domain_invariant "Semantic Scholar paper ID must not be empty") ∷ [])
          >>= λ _. elim arxiv_id [
            | some arxiv ↦
                validate_canonical_arxiv_id arxiv >>= λ canonical. ok (codes "arxiv:" ++ canonical)
            | none ↦
                if not (is_nil value)
                then ok (codes "semantic_scholar:" ++ casefold value)
                else elim doi [
                  | none ↦ err (domain_invariant "external paper needs an approved stable identity")
                  | some d ↦
                      if is_blank d
                      then err (domain_invariant "external paper needs an approved stable identity")
                      else ok (codes "doi:" ++ casefold (strip d))
                ]
          ]
