-- ===== src/Graph/Label.antt =====
-- domain/knowledge.py: the normalization of labels and titles. Unicode's NFKC form and
-- `str.casefold` are parameters.
use domain_specific_paper_ha.Prelude.{
  ℕ, Bool, ◌&&◌, ◌||◌, String, List, [], ◌∷◌, map, any, is_nil, length, ltb, leb, ◌==◌,
  if◌then◌else◌,
}
use domain_specific_paper_ha.Prelude.Text.{Text, text_eq}
use domain_specific_paper_ha.Result.{Check, Result, ok, validated, domain_invariant, ◌>>=◌}
use domain_specific_paper_ha.Identity.Joined.{one_line}
use domain_specific_paper_ha.Lineage.Snapshot.{max_paper_title_length}

abbrev pub max_graph_label_length : ℕ
max_graph_label_length = 500

-- `_PUNCTUATION_TRANSLATION`: hyphens, dashes and the minus sign, single and double quotes.
unfoldable pub punctuation : ℕ → ℕ
punctuation c =
    if (leb 0x2010 c && leb c 0x2015) || c == 0x2212
    then b'-'
    else if c == 0x2018 || c == 0x2019
    then b'\''
    else if c == 0x201C || c == 0x201D
    then b'"'
    else c

-- `"\x00" in value`
abbrev pub has_null : Text → Bool
has_null value = any (λ c. c == 0) value

-- The messages of one use of `_normalize_label`.
pub record LabelMessages : Type 0 where
  pub null_character : String
  pub empty : String
  pub too_long : String

abbrev pub entity_label_messages : LabelMessages
entity_label_messages = record {
  null_character = "graph entity label contains a null character";
  empty = "graph entity label must not be empty";
  too_long = "graph entity label exceeds the persistence bound";
}

abbrev pub paper_title_messages : LabelMessages
paper_title_messages = record {
  null_character = "paper graph title contains a null character";
  empty = "paper graph title must not be empty";
  too_long = "paper graph title exceeds the persistence bound";
}

abbrev pub label_checks : LabelMessages → ℕ → Text → List Check
label_checks messages maximum label =
    (is_nil label, domain_invariant messages.empty)
    ∷ (ltb maximum (length label), domain_invariant messages.too_long)
    ∷ []

module _ (nfkc : Text → Text) where
  -- The label before its last two checks.
  unfoldable pub cleaned : Text → Text
  unfolding punctuation one_line
  cleaned value = one_line (map punctuation (nfkc value))

  unfoldable pub normalize_label : LabelMessages → ℕ → Text → Result Text
  unfolding cleaned
  normalize_label messages maximum value = do
    checked ← validated value ((has_null value, domain_invariant messages.null_character) ∷ [])
    validated (cleaned checked) (label_checks messages maximum (cleaned checked))

  abbrev pub normalize_entity_label : Text → Result Text
  normalize_entity_label value = normalize_label entity_label_messages max_graph_label_length value

  abbrev pub normalize_paper_title : Text → Result Text
  normalize_paper_title value = normalize_label paper_title_messages max_paper_title_length value

  module _ (casefold : Text → Text) where
    unfoldable pub normalized_entity_key : Text → Result Text
    unfolding normalize_label
    normalized_entity_key value = do label ← normalize_entity_label value; ok (casefold label)

    unfoldable pub graph_entity_keys_match : Text → Text → Result Bool
    unfolding normalized_entity_key
    graph_entity_keys_match left right = do
      left_key ← normalized_entity_key left
      right_key ← normalized_entity_key right
      ok (text_eq left_key right_key)
