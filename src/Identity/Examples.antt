-- ===== src/Identity/Examples.antt =====
-- Keys of two records as they are read from two places, and the theorems about names at them.
use domain_specific_paper_ha.Prelude.{
  ℕ, ◌+◌, ◌-◌, ◌≡◌, refl, true, ◌&&◌, Option, none, some, [], ◌∷◌, ◌++◌, map, arith, leb,
  if◌then◌else◌,
}
use domain_specific_paper_ha.Prelude.Text.{Text, Uuid, codes, strip, is_space, text_eq}
use domain_specific_paper_ha.Result.{ok, err, domain_invariant}
use domain_specific_paper_ha.Identity.Arxiv.{is_canonical, parse_arxiv_identifier}
use domain_specific_paper_ha.Identity.Parsed.{IsDecimal, parse_arxiv_identifier-append}
use domain_specific_paper_ha.Identity.Encoding.{
  encode_identity_parts, encode_identity_parts-injective, decimal,
}
use domain_specific_paper_ha.Identity.Graph.{
  EdgeKey, MentionKey, graph_edge_name, graph_entity_mention_name, edge_parts, mention_parts,
  edge_checks, mention_checks,
}
use domain_specific_paper_ha.Identity.Distinct.{
  IsSameEdge, graph_edge_name-injective, graph_entity_mention_name-injective,
}
use domain_specific_paper_ha.Prelude.Int.{pos}
use domain_specific_paper_ha.Identity.Joined.{
  ComparisonKey, joined, decimal_ℤ, one_line, search_action_name,
}
use domain_specific_paper_ha.Identity.Readable.{
  search_action_name-injective, comparison_name-injective,
}

abbrev uuid_a : Uuid
uuid_a = codes "cbd3c150-b93e-4af8-95ba-e17e77ccb12a"

abbrev uuid_b : Uuid
uuid_b = codes "3e7688e7-0ca6-46d9-a4d2-e3b416a82cf3"

abbrev uuid_c : Uuid
uuid_c = codes "34bd2824-7bd2-4df8-a09e-784db57d20cb"

abbrev edge : Text → EdgeKey
edge relation_type = record {
  source_entity_id = uuid_a;
  target_entity_id = uuid_b;
  relation_type = relation_type;
  source_paper_version_id = uuid_c;
  target_paper_version_id = some uuid_b;
  analysis_id = some uuid_a;
  comparison_id = none;
  paper_relation_id = none;
  pipeline_execution_id = some uuid_c;
}

abbrev mention : MentionKey
mention = record {
  entity_id = uuid_a;
  paper_version_id = uuid_c;
  analysis_id = none;
  comparison_id = some uuid_b;
  pipeline_execution_id = some uuid_c;
}

-- A colon inside a part does not end it.
encoded : encode_identity_parts (codes "a:b" ∷ codes "c" ∷ []) ≡ codes "3:a:b1:c"
unfolding encode_identity_parts decimal
encoded = refl

edge_named :
    graph_edge_name (edge (codes "CITES"))
    ≡ ok (encode_identity_parts (edge_parts (edge (codes "CITES"))))
unfolding graph_edge_name edge_checks text_eq strip
edge_named = refl

blank_named :
    graph_edge_name (edge (codes " CITES "))
    ≡ ok (encode_identity_parts (edge_parts (edge (codes "CITES"))))
unfolding graph_edge_name edge_checks text_eq strip
blank_named = refl

mention_named :
    graph_entity_mention_name mention ≡ ok (encode_identity_parts (mention_parts mention))
unfolding graph_entity_mention_name mention_checks
mention_named = refl

encode_identity_parts-injective_example :
    codes "a:b" ∷ codes "c" ∷ [] ≡ codes "a:b" ∷ codes "c" ∷ []
encode_identity_parts-injective_example =
    encode_identity_parts-injective (codes "a:b" ∷ codes "c" ∷ []) (codes "a:b" ∷ codes "c" ∷ [])
      refl

graph_edge_name-injective_example : IsSameEdge (edge (codes "CITES")) (edge (codes " CITES "))
graph_edge_name-injective_example =
    graph_edge_name-injective (edge (codes "CITES")) (edge (codes " CITES "))
      (encode_identity_parts (edge_parts (edge (codes "CITES"))))
      (record { target = refl; analysis = refl; comparison = tt; relation = tt })
      (record { target = refl; analysis = refl; comparison = tt; relation = tt }) edge_named
      blank_named

graph_entity_mention_name-injective_example : mention ≡ mention
graph_entity_mention_name-injective_example =
    graph_entity_mention_name-injective mention mention
      (encode_identity_parts (mention_parts mention)) mention_named mention_named

abbrev comparison : ComparisonKey
comparison = record {
  search_session_id = uuid_a;
  source_paper_version_id = uuid_b;
  source_analysis_id = uuid_c;
  target_paper_version_id = uuid_a;
  target_analysis_id = uuid_b;
  provider = codes "deepseek";
  configured_model = codes "chat";
  model_version = codes "v3";
  prompt_version = codes "compare:1";
}

spaced : one_line (codes "  a  b c ") ≡ codes "a b c"
unfolding one_line is_space
spaced = refl

search_action_name-injective_example : (uuid_a ≡ uuid_a) × (pos 2 ≡ pos 2)
unfolding search_action_name
search_action_name-injective_example =
    search_action_name-injective uuid_a uuid_a (pos 2) (pos 2)
      (joined (uuid_a ∷ decimal_ℤ (pos 2) ∷ [])) refl refl refl refl

comparison_name-injective_example : comparison ≡ comparison
comparison_name-injective_example =
    comparison_name-injective comparison comparison
      (refl, (refl, (refl, (refl, (refl, (refl, (refl, (refl, tt))))))))
      (refl, (refl, (refl, (refl, (refl, (refl, (refl, (refl, tt)))))))) refl

-- The digits and the capital letters of ASCII.
abbrev ascii_digit : ℕ → Option ℕ
ascii_digit c = if leb b'0' c && leb c b'9' then some (c - b'0') else none

abbrev ascii_lower : Text → Text
ascii_lower t = map (λ c. if leb b'A' c && leb c b'Z' then c + 32 else c) t

ascii-IsDecimal : IsDecimal ascii_digit
unfolding is_space
ascii-IsDecimal = record {
  ascii = λ d h. ground arith;
  no_space = λ c h. ground (arith, h);
  no_colon = refl;
}

classic_is_canonical : is_canonical ascii_digit (codes "hep-th/9901001") ≡ true
unfolding is_canonical
classic_is_canonical = refl

parse_arxiv_identifier-append_example :
    parse_arxiv_identifier ascii_digit ascii_lower (codes "hep-th/9901001" ++ b'v' ∷ decimal 3)
    ≡ ok (codes "hep-th/9901001", 3)
parse_arxiv_identifier-append_example =
    parse_arxiv_identifier-append ascii_digit ascii-IsDecimal ascii_lower (codes "hep-th/9901001") 3
      classic_is_canonical (omega arith)

-- A URL of an identifier of the old style loses its archive and is refused.
classic_url_is_refused :
    parse_arxiv_identifier ascii_digit ascii_lower (codes "https://arxiv.org/abs/hep-th/9901001v3")
    ≡ err (domain_invariant "arXiv identifier must include an explicit version")
unfolding parse_arxiv_identifier strip is_space
classic_url_is_refused = refl

modern_url :
    parse_arxiv_identifier ascii_digit ascii_lower (codes " https://arxiv.org/abs/2601.01234v12/ ")
    ≡ ok (codes "2601.01234", 12)
unfolding parse_arxiv_identifier strip is_space
modern_url = refl
