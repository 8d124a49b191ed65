-- ===== src/Compatibility/Types.antt =====
-- The types and constants of compatibility/types.go.
use llmadapter.Prelude.{ℕ, String, Bool, List, string_eq}
use llmadapter.Prelude.Assoc.{Assoc}
use llmadapter.Unified.Kinds.{ApiKind, ApiFamily, ContinuationMode, TransportKind}
use llmadapter.Router.Types.{CapabilitySet}

abbrev pub UseCase : Type 0
UseCase = String

abbrev pub use_case_agentic_coding : UseCase
use_case_agentic_coding = "agentic_coding"

abbrev pub use_case_summarization : UseCase
use_case_summarization = "summarization"

abbrev pub Feature : Type 0
Feature = String

abbrev pub feature_streaming_text : Feature
feature_streaming_text = "streaming_text"

abbrev pub feature_tools : Feature
feature_tools = "tools"

abbrev pub feature_tool_continuation : Feature
feature_tool_continuation = "tool_continuation"

abbrev pub feature_structured_output : Feature
feature_structured_output = "structured_output"

abbrev pub feature_reasoning : Feature
feature_reasoning = "reasoning"

abbrev pub feature_prompt_caching : Feature
feature_prompt_caching = "prompt_caching"

abbrev pub feature_cache_accounting : Feature
feature_cache_accounting = "cache_accounting"

abbrev pub feature_usage : Feature
feature_usage = "usage"

abbrev pub feature_pricing : Feature
feature_pricing = "pricing"

abbrev pub feature_gateway : Feature
feature_gateway = "gateway"

abbrev pub RequirementLevel : Type 0
RequirementLevel = String

abbrev pub requirement_required : RequirementLevel
requirement_required = "required"

abbrev pub requirement_preferred : RequirementLevel
requirement_preferred = "preferred"

abbrev pub requirement_optional : RequirementLevel
requirement_optional = "optional"

abbrev pub EvidenceLevel : Type 0
EvidenceLevel = String

abbrev pub evidence_live : EvidenceLevel
evidence_live = "live"

abbrev pub evidence_fixture : EvidenceLevel
evidence_fixture = "fixture"

abbrev pub evidence_mapped : EvidenceLevel
evidence_mapped = "mapped"

abbrev pub evidence_modeldb : EvidenceLevel
evidence_modeldb = "modeldb"

abbrev pub evidence_provider_descriptor : EvidenceLevel
evidence_provider_descriptor = "provider_descriptor"

abbrev pub evidence_config_override : EvidenceLevel
evidence_config_override = "config_override"

abbrev pub evidence_manual : EvidenceLevel
evidence_manual = "manual"

abbrev pub evidence_untested : EvidenceLevel
evidence_untested = "untested"

abbrev pub evidence_unsupported : EvidenceLevel
evidence_unsupported = "unsupported"

abbrev pub EvaluationStatus : Type 0
EvaluationStatus = String

abbrev pub status_approved : EvaluationStatus
status_approved = "approved"

abbrev pub status_degraded : EvaluationStatus
status_degraded = "degraded"

abbrev pub status_failed : EvaluationStatus
status_failed = "failed"

abbrev pub status_untested : EvaluationStatus
status_untested = "untested"

pub record Profile : Type 0 where
  pub use_case : UseCase
  pub description : String
  pub requirements : Assoc Feature RequirementLevel

pub record FeatureEvidence : Type 0 where
  pub feature : Feature
  pub supported : Bool
  pub evidence : EvidenceLevel
  pub detail : String

pub record Candidate : Type 0 where
  pub input : String
  pub matched_as : String
  pub source_api : ApiKind
  pub public_model : String
  pub native_model : String
  pub provider : String
  pub provider_type : String
  pub provider_api : ApiKind
  pub family : ApiFamily
  pub weight : ℕ
  pub priority : ℕ
  pub modeldb_service : String
  pub capabilities : CapabilitySet
  pub capability_source : String
  pub consumer_continuation : ContinuationMode
  pub internal_continuation : ContinuationMode
  pub transport : TransportKind
  pub features : List FeatureEvidence

pub record FeatureResult : Type 0 where
  pub feature : Feature
  pub requirement : RequirementLevel
  pub supported : Bool
  pub evidence : EvidenceLevel
  pub detail : String

pub record Evaluation : Type 0 where
  pub candidate : Candidate
  pub use_case : UseCase
  pub status : EvaluationStatus
  pub features : List FeatureResult
  pub missing_required : List Feature
  pub untested_required : List Feature
  pub degraded_preferred : List Feature
  pub unsupported_optional : List Feature
