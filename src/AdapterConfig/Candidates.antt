-- ===== src/AdapterConfig/Candidates.antt =====
-- adapterconfig/compatibility.go. What `ResolveModelCandidates` gives is an argument; the limits of
-- a candidate, of a type of modeldb, are not read here and left out.
use llmadapter.Prelude.{
  ℕ, String, Bool, ◌&&◌, ◌||◌, none, some, List, [], ◌∷◌, map, filter, ◌==◌, string_eq,
}
use llmadapter.Unified.Kinds.{ApiKind, ApiFamily, ContinuationMode, TransportKind}
use llmadapter.Unified.Errors.{GoError, formatted, Result, ok, err}
use llmadapter.Router.Types.{CapabilitySet}
use llmadapter.Compatibility.Types.{
  UseCase, status_approved, status_degraded, Candidate, Evaluation,
}
use llmadapter.Compatibility.Evaluate.{evaluate_many}
use llmadapter.Compatibility.Profiles.{builtin_profile, candidate_features}

pub record ModelResolutionCandidate : Type 0 where
  pub input : String
  pub matched_as : String
  pub source_api : ApiKind
  pub public_model : String
  pub native_model : String
  pub provider : String
  pub provider_type : String
  pub provider_api : ApiKind
  pub family : ApiFamily
  pub weight : ℕ
  pub priority : ℕ
  pub modeldb_service : String
  pub capabilities : CapabilitySet
  pub capability_source : String
  pub consumer_continuation : ContinuationMode
  pub internal_continuation : ContinuationMode
  pub transport : TransportKind

unfoldable pub compatibility_candidate : ModelResolutionCandidate → Candidate
unfolding candidate_features
compatibility_candidate r = record {
  input = r.input;
  matched_as = r.matched_as;
  source_api = r.source_api;
  public_model = r.public_model;
  native_model = r.native_model;
  provider = r.provider;
  provider_type = r.provider_type;
  provider_api = r.provider_api;
  family = r.family;
  weight = r.weight;
  priority = r.priority;
  modeldb_service = r.modeldb_service;
  capabilities = r.capabilities;
  capability_source = r.capability_source;
  consumer_continuation = r.consumer_continuation;
  internal_continuation = r.internal_continuation;
  transport = r.transport;
  features = candidate_features r.capabilities r.capability_source r.modeldb_service;
}

abbrev pub unknown_use_case : UseCase → GoError
unknown_use_case use_case = formatted "unknown use case %q" (use_case ∷ [])

unfoldable pub compatibility_candidates :
    Result (List ModelResolutionCandidate) → Result (List Candidate)
unfolding compatibility_candidate
compatibility_candidates (ok resolutions) = ok (map compatibility_candidate resolutions)
compatibility_candidates (err e) = err e

unfoldable pub evaluate_compatibility_candidates :
    Result (List ModelResolutionCandidate) → UseCase → Result (List Evaluation)
unfolding compatibility_candidates builtin_profile evaluate_many
evaluate_compatibility_candidates resolutions use_case = elim (builtin_profile use_case) [
  | none ↦ err (unknown_use_case use_case)
  | some profile ↦ elim (compatibility_candidates resolutions) [
    | ok candidates ↦ ok (evaluate_many candidates profile)
    | err e ↦ err e
  ]
]

-- The test of `CompatibleCandidates`.
abbrev pub is_compatible : Bool → Evaluation → Bool
is_compatible include_degraded e =
    e.status == status_approved || (include_degraded && e.status == status_degraded)

unfoldable pub compatible_candidates :
    Result (List ModelResolutionCandidate) → UseCase → Bool → Result (List Candidate)
unfolding evaluate_compatibility_candidates
compatible_candidates resolutions use_case include_degraded =
    elim (evaluate_compatibility_candidates resolutions use_case) [
      | ok evaluations ↦
          ok (map (λ e. e.candidate) (filter (is_compatible include_degraded) evaluations))
      | err e ↦ err e
    ]
