-- ===== src/Compatibility/Profiles.antt =====
-- compatibility/profiles.go and compatibility/candidate.go, with `ParseUseCase` of
-- compatibility/evaluate.go.
use llmadapter.Prelude.{
  String, Bool, true, false, not, ◌||◌, Option, none, some, List, [], ◌∷◌, ◌==◌, string_eq,
  if◌then◌else◌,
}
use llmadapter.Unified.Errors.{Result, ok, err, formatted}
use llmadapter.Router.Types.{CapabilitySet}
use llmadapter.Compatibility.Types.{
  UseCase, use_case_agentic_coding, use_case_summarization, feature_streaming_text, feature_tools,
  feature_tool_continuation, feature_structured_output, feature_reasoning, feature_prompt_caching,
  feature_cache_accounting, feature_usage, feature_pricing, feature_gateway, requirement_required,
  requirement_preferred, requirement_optional, EvidenceLevel, evidence_fixture, evidence_mapped,
  evidence_modeldb, evidence_provider_descriptor, evidence_config_override, evidence_manual,
  evidence_untested, evidence_unsupported, Profile, FeatureEvidence,
}

unfoldable pub agentic_coding_profile : Profile
agentic_coding_profile = record {
  use_case = use_case_agentic_coding;
  description =
      "Coding-agent runtime with tool use, continuation, caching, structured output, and usage accounting; reasoning evidence is optional and can be used for thinking-model filters.";
  requirements =
      (feature_streaming_text, requirement_required)
      ∷ (feature_tools, requirement_required)
      ∷ (feature_tool_continuation, requirement_required)
      ∷ (feature_structured_output, requirement_required)
      ∷ (feature_reasoning, requirement_optional)
      ∷ (feature_prompt_caching, requirement_required)
      ∷ (feature_usage, requirement_required)
      ∷ (feature_cache_accounting, requirement_required)
      ∷ (feature_pricing, requirement_preferred)
      ∷ (feature_gateway, requirement_optional)
      ∷ [];
}

unfoldable pub summarization_profile : Profile
summarization_profile = record {
  use_case = use_case_summarization;
  description =
      "Simple text generation or summarization where tools, reasoning, and prompt-cache behavior are not required.";
  requirements =
      (feature_streaming_text, requirement_required)
      ∷ (feature_usage, requirement_required)
      ∷ (feature_tools, requirement_optional)
      ∷ (feature_tool_continuation, requirement_optional)
      ∷ (feature_structured_output, requirement_optional)
      ∷ (feature_reasoning, requirement_optional)
      ∷ (feature_prompt_caching, requirement_optional)
      ∷ (feature_cache_accounting, requirement_optional)
      ∷ (feature_pricing, requirement_optional)
      ∷ (feature_gateway, requirement_optional)
      ∷ [];
}

unfoldable pub builtin_profile : UseCase → Option Profile
unfolding agentic_coding_profile summarization_profile
builtin_profile use_case =
    if use_case == use_case_agentic_coding
    then some agentic_coding_profile
    else if use_case == use_case_summarization
    then some summarization_profile
    else none

unfoldable parse_use_case : String → Result UseCase
unfolding builtin_profile
parse_use_case value = elim (builtin_profile value) [
  | none ↦ err (formatted "unknown use case %q" (value ∷ []))
  | some profile ↦ ok value
]

unfoldable evidence_from_capability_source : String → EvidenceLevel
evidence_from_capability_source source =
    if source == "modeldb_exposure"
    then evidence_modeldb
    else if source == "config_override"
    then evidence_config_override
    else if source == "provider_descriptor" || source == ""
    then evidence_provider_descriptor
    else evidence_manual

unfoldable evidence_for_support : Bool → EvidenceLevel → EvidenceLevel
evidence_for_support supported evidence = if supported then evidence else evidence_unsupported

-- `caps.JSONSchema || caps.JSONMode || caps.Tools`
abbrev structured : CapabilitySet → Bool
structured caps = caps.json_schema || caps.json_mode || caps.tools

unfoldable pub candidate_features : CapabilitySet → String → String → List FeatureEvidence
unfolding evidence_from_capability_source evidence_for_support
candidate_features caps source service =
    let evidence = evidence_from_capability_source source in
    (record {
      feature = feature_streaming_text;
      supported = caps.streaming;
      evidence = evidence_for_support caps.streaming evidence;
      detail = "provider endpoint streaming capability";
    })
    ∷ (record {
      feature = feature_tools;
      supported = caps.tools;
      evidence = evidence_for_support caps.tools evidence;
      detail = "provider endpoint tool-use capability";
    })
    ∷ (record {
      feature = feature_tool_continuation;
      supported = caps.tools;
      evidence = evidence_for_support caps.tools evidence;
      detail = "tool-result continuation uses the same endpoint tool capability";
    })
    ∷ (record {
      feature = feature_structured_output;
      supported = structured caps;
      evidence = evidence_for_support (structured caps) evidence;
      detail = "JSON mode/schema or tool schema can carry structured data";
    })
    ∷ (record {
      feature = feature_reasoning;
      supported = caps.reasoning;
      evidence = evidence_for_support caps.reasoning evidence;
      detail = "provider endpoint reasoning/thinking capability";
    })
    ∷ (record {
      feature = feature_prompt_caching;
      supported = caps.prompt_caching;
      evidence = evidence_for_support caps.prompt_caching evidence;
      detail = "request-side prompt cache controls can be encoded";
    })
    ∷ (record {
      feature = feature_usage;
      supported = true;
      evidence = evidence_mapped;
      detail = "canonical usage events are mapped when providers report usage";
    })
    ∷ (record {
      feature = feature_cache_accounting;
      supported = false;
      evidence = evidence_untested;
      detail = "requires live provider cache write/read counter evidence";
    })
    ∷ (record {
      feature = feature_pricing;
      supported = not (service == "");
      evidence = evidence_for_support (not (service == "")) evidence_modeldb;
      detail = "pricing requires modeldb service/offering metadata";
    })
    ∷ (record {
      feature = feature_gateway;
      supported = true;
      evidence = evidence_fixture;
      detail = "gateway path exists for supported API families";
    })
    ∷ []
