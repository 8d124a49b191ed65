-- ===== src/AdapterConfig/Evidence.antt =====
-- The types of adapterconfig/compatibility_evidence.go and adapterconfig/usecase_selection.go. The
-- item of modeldb that a candidate carries is left out.
use llmadapter.Prelude.{String, Bool, List, string_eq}
use llmadapter.Unified.Kinds.{ApiKind, ApiFamily, ContinuationMode, TransportKind}
use llmadapter.Compatibility.Types.{UseCase, EvaluationStatus, Evaluation}
use llmadapter.AdapterConfig.Candidates.{ModelResolutionCandidate}

pub record RowEvidence : Type 0 where
  pub candidate : String
  pub public_model : String
  pub native_model : String
  pub provider : String
  pub provider_api : ApiKind
  pub family : ApiFamily
  pub status : EvaluationStatus
  pub text : String
  pub tools : String
  pub tool_continuation : String
  pub structured_output : String
  pub reasoning : String
  pub prompt_caching : String
  pub usage : String
  pub cache_accounting : String
  pub consumer_continuation : ContinuationMode
  pub internal_continuation : ContinuationMode
  pub transport : TransportKind

pub record CompatibilityEvidence : Type 0 where
  pub use_case : UseCase
  pub rows : List RowEvidence

pub record SelectionOptions : Type 0 where
  pub use_case : UseCase
  pub evidence : CompatibilityEvidence
  pub allow_degraded : Bool
  pub allow_untested : Bool

pub record RuntimeViewCandidate : Type 0 where
  pub resolution : ModelResolutionCandidate
  pub runtime_id : String

pub record Selection : Type 0 where
  pub resolution : ModelResolutionCandidate
  pub evaluation : Evaluation
  pub evidence : RowEvidence
  pub runtime_id : String
