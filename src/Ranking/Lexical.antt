-- ===== src/Ranking/Lexical.antt =====
-- application/historical_ranking.py: `_TOKEN` and `lexical_similarity`. `str.casefold` is a parameter.
use domain_specific_paper_ha.Prelude.{
  ℕ, Bool, false, not, ◌||◌, ◌&&◌, List, [], ◌∷◌, ◌++◌, map, length, filter, is_nil, leb, ◌==◌,
  if◌then◌else◌,
}
use domain_specific_paper_ha.Prelude.Int.{pos}
use domain_specific_paper_ha.Prelude.Text.{Text}
use domain_specific_paper_ha.Prelude.Keys.{member, unique}
use domain_specific_paper_ha.Ranking.Ratio.{Ratio, whole, quotient}

-- `[a-z0-9]` with `re.IGNORECASE`, which also accepts the four letters U+0130, U+0131, U+017F and
-- U+212A, whose other case is an ASCII letter.
unfoldable pub is_token_char : ℕ → Bool
is_token_char c =
    (leb b'a' c && leb c b'z')
    || ((leb b'A' c && leb c b'Z')
        || ((leb b'0' c && leb c b'9')
            || (c == 0x130 || (c == 0x131 || (c == 0x17F || c == 0x212A)))))

-- The match that is being read goes first, where a character extends it.
abbrev pub extend : ℕ → List Text → List Text
extend c [] = (c ∷ []) ∷ []
extend c (t ∷ ts) = (c ∷ t) ∷ ts

unfoldable pub starts_with_token : Text → Bool
starts_with_token [] = false
starts_with_token (c ∷ s) = is_token_char c

-- The matches of `_TOKEN`, which are the longest runs of its characters.
unfoldable pub matches : Text → List Text
unfolding is_token_char starts_with_token
matches [] = []
matches (c ∷ s) =
    let rest = matches s in
    if is_token_char c
    then (if starts_with_token s then extend c rest else (c ∷ []) ∷ rest)
    else rest

-- `source_tokens & candidate_tokens`
unfoldable pub shared : List Text → List Text → List Text
shared source candidate = filter (λ t. member t candidate) source

-- `source_tokens | candidate_tokens`
unfoldable pub joined : List Text → List Text → List Text
joined source candidate = source ++ filter (λ t. not (member t source)) candidate

-- The Jaccard similarity of two sets of tokens.
unfoldable pub jaccard : List Text → List Text → Ratio
unfolding shared joined quotient
jaccard source candidate =
    if is_nil source || is_nil candidate
    then whole (pos 0)
    else quotient (pos (length (shared source candidate))) (pos (length (joined source candidate)))

module _ (casefold : Text → Text) where
  -- The set of folded matches.
  unfoldable pub tokens : Text → List Text
  unfolding matches
  tokens value = unique (map casefold (matches value))

  unfoldable pub lexical_similarity : Text → Text → Ratio
  unfolding tokens jaccard
  lexical_similarity source candidate = jaccard (tokens source) (tokens candidate)
