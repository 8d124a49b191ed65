-- ===== src/Compatibility/Builtin.antt =====
-- The verdicts on candidates that carry only the evidence of their capabilities.
use llmadapter.Prelude.{
  String, [], ◌∙◌, ◌≡◌, refl, Bool, true, false, ◌&&◌, if◌then◌else◌, string_eq,
}
use llmadapter.Prelude.Assoc.{lookup, insert}
use llmadapter.Router.Types.{CapabilitySet}
use llmadapter.Compatibility.Types.{
  EvaluationStatus, status_approved, status_failed, status_untested, Candidate,
}
use llmadapter.Compatibility.Evaluate.{evidence_of, item_of, level_of, evaluate}
use llmadapter.Compatibility.Status.{evaluate-status, status_of}
use llmadapter.Compatibility.Profiles.{
  agentic_coding_profile, summarization_profile, candidate_features,
}

-- A candidate that has just the evidence of `CandidateFeatures`.
abbrev pub from_capabilities : Candidate → Candidate
from_capabilities c = record c {
  features = candidate_features c.capabilities c.capability_source c.modeldb_service;
}

-- The capabilities that the required features of the profiles read.
abbrev with_flags : CapabilitySet → Bool → Bool → Bool → Bool → Bool → CapabilitySet
with_flags caps streaming tools caching schema mode = record caps {
  streaming = streaming;
  tools = tools;
  prompt_caching = caching;
  json_schema = schema;
  json_mode = mode;
}

abbrev agentic_coding_verdict : Bool → Bool → Bool → EvaluationStatus
agentic_coding_verdict streaming tools caching =
    if streaming && tools && caching then status_untested else status_failed

agentic_coding_status :
    (caps : CapabilitySet) (source service : String) (streaming tools caching schema mode : Bool)
    → status_of agentic_coding_profile.requirements (
        evidence_of []
          (candidate_features (with_flags caps streaming tools caching schema mode) source service))
      ≡ agentic_coding_verdict streaming tools caching
unfolding agentic_coding_profile candidate_features lookup insert item_of level_of evidence_of
agentic_coding_status caps source service false t p s m = refl
agentic_coding_status caps source service true false p s m = refl
agentic_coding_status caps source service true true false true m = refl
agentic_coding_status caps source service true true false false true = refl
agentic_coding_status caps source service true true false false false = refl
agentic_coding_status caps source service true true true true m = refl
agentic_coding_status caps source service true true true false true = refl
agentic_coding_status caps source service true true true false false = refl

summarization_status :
    (caps : CapabilitySet) (source service : String) (streaming : Bool)
    → status_of summarization_profile.requirements
        (evidence_of [] (candidate_features (record caps { streaming = streaming }) source service))
      ≡ (if streaming then status_approved else status_failed)
unfolding summarization_profile candidate_features lookup insert item_of level_of evidence_of
summarization_status caps source service true = refl
summarization_status caps source service false = refl

-- On the evidence of its capabilities alone no candidate is approved for agentic coding, nor
-- degraded: it is untested if it has streaming, tools and prompt caching, and failed if not. For
-- summarization it is approved if it has streaming, and failed if not.
pub evaluate-from_capabilities :
    (c : Candidate)
    → ((evaluate (from_capabilities c) agentic_coding_profile).status
        ≡ agentic_coding_verdict c.capabilities.streaming c.capabilities.tools
            c.capabilities.prompt_caching)
      × ((evaluate (from_capabilities c) summarization_profile).status
          ≡ (if c.capabilities.streaming then status_approved else status_failed))
evaluate-from_capabilities c =
    let caps = c.capabilities in
    (
      evaluate-status (from_capabilities c) agentic_coding_profile
          ∙ agentic_coding_status caps c.capability_source c.modeldb_service caps.streaming
              caps.tools caps.prompt_caching caps.json_schema caps.json_mode,
      evaluate-status (from_capabilities c) summarization_profile
          ∙ summarization_status caps c.capability_source c.modeldb_service caps.streaming,
    )
