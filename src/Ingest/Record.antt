-- ===== src/Ingest/Record.antt =====
-- ports/arxiv.py: `ArxivPaperRecord` with its checks, and `normalize_arxiv_records`.
use domain_specific_paper_ha.Prelude.{
  ℕ, Bool, true, false, not, ◌&&◌, ◌||◌, Option, none, some, List, [], ◌∷◌, filter, is_nil,
  if◌then◌else◌,
}
use domain_specific_paper_ha.Prelude.Int.{ℤ, pos, ltb_ℤ, leb_ℤ, eqb_ℤ}
use domain_specific_paper_ha.Prelude.Text.{Text, text_eq, text_leb}
use domain_specific_paper_ha.Prelude.Sort.{sorted}
use domain_specific_paper_ha.Result.{
  Result, Check, ok, err, validated, domain_invariant, value_error, ◌>>=◌,
}
use domain_specific_paper_ha.Lineage.Edge.{Datetime}
use domain_specific_paper_ha.Selection.Rank.{same_texts}
use domain_specific_paper_ha.Identity.Arxiv.{validate_canonical_arxiv_id}

pub record ArxivPaperRecord : Type 0 where
  pub canonical_arxiv_id : Text
  pub version : ℤ
  pub title : Text
  pub abstract : Text
  pub submitted_at : Datetime
  pub updated_at : Datetime
  pub primary_category : Text
  pub categories : List Text
  pub authors : List Text
  pub pdf_url : Text
  pub source_url : Text

unfoldable pub record_checks : ArxivPaperRecord → List Check
record_checks r =
    (ltb_ℤ r.version (pos 1), domain_invariant "arXiv version must be positive")
    ∷ (
      is_nil r.title || (is_nil r.abstract || is_nil r.primary_category),
      domain_invariant "arXiv record metadata is incomplete",
    )
    ∷ (
      is_nil r.categories || (is_nil r.authors || (is_nil r.pdf_url || is_nil r.source_url)),
      domain_invariant "arXiv record source fields are incomplete",
    )
    ∷ (not r.submitted_at.is_aware, domain_invariant "submitted_at must be timezone-aware")
    ∷ (not r.updated_at.is_aware, domain_invariant "updated_at must be timezone-aware")
    ∷ []

unfoldable pub make_record :
    (ℕ → Option ℕ) → (Text → Text) → ArxivPaperRecord → Result ArxivPaperRecord
unfolding record_checks
make_record digit_value lower r =
    validate_canonical_arxiv_id digit_value lower r.canonical_arxiv_id >>= λ _.
    validated r (record_checks r)

-- `>` of two texts, and of two tuples of texts.
abbrev text_after : Text → Text → Bool
text_after s t = not (text_leb s t)

unfoldable pub texts_after : List Text → List Text → Bool
texts_after [] ts = false
texts_after (s ∷ ss) [] = true
texts_after (s ∷ ss) (t ∷ ts) =
    let rest = texts_after ss ts in if text_eq s t then rest else text_after s t

-- `>` of two tuples: for each place, whether it is equal and whether it is greater.
unfoldable pub tuple_after : List (Bool × Bool) → Bool
tuple_after [] = false
tuple_after ((equal, after) ∷ places) =
    let rest = tuple_after places in if equal then rest else after

abbrev text_place : Text → Text → Bool × Bool
text_place s t = (text_eq s t, text_after s t)

abbrev time_place : Datetime → Datetime → Bool × Bool
time_place s t = (eqb_ℤ s.instant t.instant, ltb_ℤ t.instant s.instant)

abbrev texts_place : List Text → List Text → Bool × Bool
texts_place s t = (same_texts s t, texts_after s t)

-- `_record_preference_key(a) > _record_preference_key(b)`
unfoldable pub is_preferred : ArxivPaperRecord → ArxivPaperRecord → Bool
unfolding tuple_after texts_after
is_preferred a b = tuple_after (
    time_place a.updated_at b.updated_at
    ∷ time_place a.submitted_at b.submitted_at
    ∷ text_place a.title b.title
    ∷ text_place a.abstract b.abstract
    ∷ text_place a.primary_category b.primary_category
    ∷ texts_place a.categories b.categories
    ∷ texts_place a.authors b.authors
    ∷ text_place a.pdf_url b.pdf_url
    ∷ text_place a.source_url b.source_url
    ∷ [])

unfoldable pub is_same_version : ArxivPaperRecord → ArxivPaperRecord → Bool
is_same_version a b = text_eq a.canonical_arxiv_id b.canonical_arxiv_id && eqb_ℤ a.version b.version

-- `by_identity[identity] = ...`, in insertion order. A datetime is its instant, so `astimezone(UTC)`
-- changes nothing.
unfoldable pub keep_preferred : ArxivPaperRecord → List ArxivPaperRecord → List ArxivPaperRecord
unfolding is_same_version is_preferred
keep_preferred r [] = r ∷ []
keep_preferred r (e ∷ es) =
    let rest = keep_preferred r es in
    if is_same_version r e then (if is_preferred r e then r else e) ∷ es else e ∷ rest

unfoldable pub by_identity : List ArxivPaperRecord → List ArxivPaperRecord → List ArxivPaperRecord
unfolding keep_preferred
by_identity kept [] = kept
by_identity kept (r ∷ rs) = by_identity (keep_preferred r kept) rs

abbrev version_leb : ArxivPaperRecord → ArxivPaperRecord → Bool
version_leb a b =
    if text_eq a.canonical_arxiv_id b.canonical_arxiv_id
    then leb_ℤ a.version b.version
    else text_leb a.canonical_arxiv_id b.canonical_arxiv_id

-- The three stable sorts, of which the last two are reversed.
unfoldable pub ordered : List ArxivPaperRecord → List ArxivPaperRecord
ordered records =
    sorted (λ a b. leb_ℤ b.updated_at.instant a.updated_at.instant)
      (sorted (λ a b. leb_ℤ b.submitted_at.instant a.submitted_at.instant)
        (sorted version_leb records))

-- The records of a window of discovery, or all.
unfoldable pub windowed :
    Option (Datetime × Datetime) → List ArxivPaperRecord → List ArxivPaperRecord
windowed none records = records
windowed (some (first, last)) records =
    filter
      (λ r. leb_ℤ first.instant r.updated_at.instant && leb_ℤ r.updated_at.instant last.instant)
      records

unfoldable pub window_of : Option Datetime → Option Datetime → Result (Option (Datetime × Datetime))
window_of none none = ok none
window_of (some first) (some last) = validated (some (first, last)) (
    (not first.is_aware, value_error "arXiv discovery window must be timezone-aware")
    ∷ (not last.is_aware, value_error "arXiv discovery window must be timezone-aware")
    ∷ (ltb_ℤ last.instant first.instant, value_error "arXiv discovery start cannot follow its end")
    ∷ [])
window_of _ _ = err (value_error "arXiv normalization requires both discovery window bounds")

unfoldable pub normalized_within :
    Option (Datetime × Datetime) → List ArxivPaperRecord → List ArxivPaperRecord
unfolding by_identity windowed ordered
normalized_within window records = ordered (windowed window (by_identity [] records))

unfoldable pub normalize_arxiv_records :
    List ArxivPaperRecord → Option Datetime → Option Datetime → Result (List ArxivPaperRecord)
unfolding window_of normalized_within
normalize_arxiv_records records updated_from updated_until =
    window_of updated_from updated_until >>= λ window. ok (normalized_within window records)
