-- ===== src/Identity/Joined.antt =====
-- domain/identity.py: the identifiers whose names are parts joined by colons, but for those that
-- read arXiv identifiers or fold case. `X_name` is the name that `stable_X_id` hands to `uuid5`, which is a
-- parameter. A date is its ISO text.
use domain_specific_paper_ha.Prelude.{
  suc, Bool, true, false, not, ◌||◌, Option, none, some, List, [], ◌∷◌, ◌++◌, is_nil, if◌then◌else◌,
}
use domain_specific_paper_ha.Prelude.Int.{ℤ, pos, negsuc, ltb_ℤ}
use domain_specific_paper_ha.Prelude.Text.{Text, Uuid, codes, text_eq, text_leb, strip, is_space}
use domain_specific_paper_ha.Result.{domain_invariant, Result, validated}
use domain_specific_paper_ha.Identity.Encoding.{decimal}
use domain_specific_paper_ha.Identity.Graph.{is_blank}

-- `":".join(parts)`
unfoldable pub joined : List Text → Text
joined [] = []
joined (part ∷ []) = part
joined (part ∷ next ∷ parts) = part ++ b':' ∷ joined (next ∷ parts)

-- `str(n)`
unfoldable pub decimal_ℤ : ℤ → Text
unfolding decimal
decimal_ℤ (pos n) = decimal n
decimal_ℤ (negsuc n) = b'-' ∷ decimal (suc n)

-- `" ".join(value.split())`, where `pending` tells that a word was read and a blank after it.
unfoldable pub single_spaced : Bool → Bool → Text → Text
unfolding is_space
single_spaced started pending [] = []
single_spaced started pending (c ∷ s) =
    let blank = single_spaced started started s in
    let word = single_spaced true false s in
    if is_space c then blank else if pending then b' ' ∷ c ∷ word else c ∷ word

unfoldable pub one_line : Text → Text
unfolding single_spaced
one_line value = single_spaced false false value

unfoldable pub source_identity_name : Text → Text → Text → Text
source_identity_name source external_id source_version =
    joined (source ∷ external_id ∷ source_version ∷ [])

unfoldable pub normalize_author_name : Text → Result Text
unfolding one_line
normalize_author_name value =
    validated (one_line value)
      ((is_nil (one_line value), domain_invariant "author name must not be empty") ∷ [])

unfoldable pub parsed_paper_name : Uuid → Text → Text → Text
parsed_paper_name paper_version_id parser_name parser_version =
    joined (paper_version_id ∷ parser_name ∷ parser_version ∷ [])

unfoldable pub parsed_section_name : Uuid → ℤ → Text
unfolding decimal_ℤ
parsed_section_name parsed_paper_id index = joined (parsed_paper_id ∷ decimal_ℤ index ∷ [])

unfoldable pub parsed_passage_name : Uuid → Text → Text
parsed_passage_name parsed_paper_id source_id = joined (parsed_paper_id ∷ source_id ∷ [])

unfoldable pub parsed_reference_name : Uuid → Text → Text
parsed_reference_name parsed_paper_id source_id = joined (parsed_paper_id ∷ source_id ∷ [])

unfoldable pub citation_context_name : Uuid → Uuid → Text → ℤ → Text
unfolding decimal_ℤ
citation_context_name parsed_paper_id passage_id reference_source_id ordinal =
    joined (parsed_paper_id ∷ passage_id ∷ reference_source_id ∷ decimal_ℤ ordinal ∷ [])

pub record AnalysisKey : Type 0 where
  pub paper_version_id : Uuid
  pub analysis_scope : Text
  pub parsed_paper_id : Option Uuid
  pub provider : Text
  pub configured_model : Text
  pub model_version : Text
  pub prompt_version : Text
  pub revision_id : Option Uuid

abbrev parsed_identity : Option Uuid → Text
parsed_identity none = codes "abstract"
parsed_identity (some parsed_paper_id) = parsed_paper_id

abbrev revised : Text → Option Uuid → Text
revised identity none = identity
revised identity (some revision_id) = identity ++ codes ":revision:" ++ revision_id

unfoldable pub analysis_name : AnalysisKey → Text
analysis_name k =
    revised
      (joined (
        k.paper_version_id
        ∷ k.analysis_scope
        ∷ parsed_identity k.parsed_paper_id
        ∷ k.provider
        ∷ k.configured_model
        ∷ k.model_version
        ∷ k.prompt_version
        ∷ []))
      k.revision_id

unfoldable pub claim_name : Uuid → Text → Text
claim_name analysis_id claim_key = joined (analysis_id ∷ claim_key ∷ [])

unfoldable pub evidence_name : Uuid → Text → Text
evidence_name analysis_id evidence_key = joined (analysis_id ∷ evidence_key ∷ [])

unfoldable pub periodic_report_name : Uuid → Text → Text → Text → Result Text
periodic_report_name topic_id report_type period_start period_end =
    validated
      (joined (codes "periodic" ∷ topic_id ∷ strip report_type ∷ period_start ∷ period_end ∷ []))
      ((
        not (
            text_eq (strip report_type) (codes "WEEKLY")
            || text_eq (strip report_type) (codes "MONTHLY")),
        domain_invariant "periodic report identity requires weekly or monthly scope",
      )
        ∷ (
          not (text_leb period_start period_end),
          domain_invariant "periodic report identity has a reversed period",
        )
        ∷ [])

unfoldable pub search_session_name : Uuid → Text → Text → Text → Result Text
unfolding one_line
search_session_name source_paper_version_id objective limits_identity prompt_version =
    validated
      (joined
        (source_paper_version_id ∷ one_line objective ∷ limits_identity ∷ prompt_version ∷ []))
      ((is_nil (one_line objective), domain_invariant "search objective must not be empty")
        ∷ (
          is_blank limits_identity || is_blank prompt_version,
          domain_invariant "search policy identity and prompt version are required",
        )
        ∷ [])

unfoldable pub search_action_name : Uuid → ℤ → Result Text
unfolding decimal_ℤ
search_action_name session_id step =
    validated (joined (session_id ∷ decimal_ℤ step ∷ []))
      ((ltb_ℤ step (pos 1), domain_invariant "search action step must be positive") ∷ [])

unfoldable pub search_candidate_name : Uuid → Text → Result Text
search_candidate_name session_id semantic_scholar_id =
    validated (joined (session_id ∷ strip semantic_scholar_id ∷ [])) (
      (
        is_blank semantic_scholar_id,
        domain_invariant "candidate Semantic Scholar ID must not be empty",
      )
      ∷ [])

-- `action_id or 'local'`
abbrev pub or_local : Option Uuid → Text
or_local none = codes "local"
or_local (some action_id) = action_id

unfoldable pub candidate_discovery_name : Uuid → Text → Option Uuid → ℤ → Result Text
unfolding decimal_ℤ
candidate_discovery_name candidate_id origin action_id relation_depth =
    validated (joined (candidate_id ∷ origin ∷ or_local action_id ∷ decimal_ℤ relation_depth ∷ []))
      ((
        ltb_ℤ relation_depth (pos 0),
        domain_invariant "candidate discovery depth cannot be negative",
      )
        ∷ [])

unfoldable pub historical_corpus_entry_name : Uuid → Uuid → Text
historical_corpus_entry_name topic_id external_paper_id = joined (topic_id ∷ external_paper_id ∷ [])

unfoldable pub historical_backfill_name : Uuid → Text → Text → Result Text
historical_backfill_name topic_id window_from window_to =
    validated (joined (topic_id ∷ window_from ∷ window_to ∷ [])) (
      (
        not (text_leb window_from window_to),
        domain_invariant "historical backfill window is invalid",
      )
      ∷ [])

pub record ComparisonKey : Type 0 where
  pub search_session_id : Uuid
  pub source_paper_version_id : Uuid
  pub source_analysis_id : Uuid
  pub target_paper_version_id : Uuid
  pub target_analysis_id : Uuid
  pub provider : Text
  pub configured_model : Text
  pub model_version : Text
  pub prompt_version : Text

unfoldable pub comparison_name : ComparisonKey → Text
comparison_name k = joined (
    k.search_session_id ∷ k.source_paper_version_id ∷ k.source_analysis_id
    ∷ k.target_paper_version_id ∷ k.target_analysis_id ∷ k.provider ∷ k.configured_model
    ∷ k.model_version ∷ k.prompt_version ∷ [])

unfoldable pub comparison_dimension_name : Uuid → Text → Text
comparison_dimension_name comparison_id name = joined (comparison_id ∷ name ∷ [])

-- `text or 'none'`; the empty text is false.
abbrev pub text_or_none : Option Text → Text
text_or_none none = codes "none"
text_or_none (some []) = codes "none"
text_or_none (some (c ∷ s)) = c ∷ s

pub record PaperRelationKey : Type 0 where
  pub comparison_id : Uuid
  pub source_paper_version_id : Uuid
  pub target_paper_version_id : Uuid
  pub relation_type : Text
  pub provenance : Text
  pub model_version : Option Text
  pub prompt_version : Option Text

unfoldable pub paper_relation_name : PaperRelationKey → Text
paper_relation_name k = joined (
    k.comparison_id
    ∷ k.source_paper_version_id
    ∷ k.target_paper_version_id
    ∷ k.relation_type
    ∷ k.provenance
    ∷ text_or_none k.model_version
    ∷ text_or_none k.prompt_version
    ∷ [])
