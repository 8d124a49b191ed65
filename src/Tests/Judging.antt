-- ===== src/Tests/Judging.antt =====
-- Verdicts on concrete candidates.
use llmadapter.Prelude.{refl, String, Option, none, is_nil, All, ◌≡◌, false, [], ◌∷◌}
use llmadapter.Prelude.Assoc.{lookup, insert}
use llmadapter.AdapterConfig.Candidates.{ModelResolutionCandidate}
use llmadapter.AdapterConfig.Evidence.{
  RowEvidence, SelectionOptions, RuntimeViewCandidate, Selection,
}
use llmadapter.AdapterConfig.Selection.{
  selection_of, select_models, select_with, select_from, chosen_or_error, choose_each, choose,
  match_row, row_matches, status_allowed,
}
use llmadapter.AdapterConfig.Selected.{IsSelected, select_models-All-IsSelected}
use llmadapter.Compatibility.Profiles.{builtin_profile}
use llmadapter.Unified.Errors.{ok}
use llmadapter.Tests.{streaming_only}
use llmadapter.Compatibility.Types.{
  feature_tools, feature_usage, requirement_required, requirement_preferred, evidence_live,
  status_approved, status_failed, Profile, Candidate,
}
use llmadapter.Compatibility.Evaluate.{evidence_of, item_of, level_of, evaluate}
use llmadapter.Compatibility.Profiles.{agentic_coding_profile, summarization_profile}
use llmadapter.Compatibility.Status.{evaluate-status}
use llmadapter.Compatibility.Builtin.{from_capabilities, evaluate-from_capabilities}

abbrev haiku : Candidate
haiku = record {
  input = "haiku";
  matched_as = "haiku";
  source_api = "anthropic.messages";
  public_model = "haiku";
  native_model = "claude-haiku";
  provider = "anthropic";
  provider_type = "anthropic";
  provider_api = "anthropic.messages";
  family = "anthropic.messages";
  weight = 100;
  priority = 0;
  modeldb_service = "anthropic";
  capabilities = streaming_only;
  capability_source = "provider_descriptor";
  consumer_continuation = "replay";
  internal_continuation = "replay";
  transport = "http";
  features =
      (record { feature = feature_tools; supported = false; evidence = evidence_live; detail = "" })
      ∷ [];
}

abbrev tool_profile : Profile
tool_profile = record {
  use_case = "tools";
  description = "";
  requirements =
      (feature_usage, requirement_preferred) ∷ (feature_tools, requirement_required) ∷ [];
}

evaluate-status_example : (evaluate haiku tool_profile).status ≡ status_failed
unfolding evidence_of level_of item_of lookup insert
evaluate-status_example = evaluate-status haiku tool_profile

evaluate-from_capabilities_example :
    ((evaluate (from_capabilities haiku) agentic_coding_profile).status ≡ status_failed)
    × ((evaluate (from_capabilities haiku) summarization_profile).status ≡ status_approved)
evaluate-from_capabilities_example = evaluate-from_capabilities haiku

abbrev haiku_resolution : ModelResolutionCandidate
haiku_resolution = record {
  input = "haiku";
  matched_as = "haiku";
  source_api = "anthropic.messages";
  public_model = "haiku";
  native_model = "claude-haiku";
  provider = "anthropic";
  provider_type = "anthropic";
  provider_api = "anthropic.messages";
  family = "anthropic.messages";
  weight = 100;
  priority = 0;
  modeldb_service = "anthropic";
  capabilities = streaming_only;
  capability_source = "provider_descriptor";
  consumer_continuation = "replay";
  internal_continuation = "replay";
  transport = "http";
}

abbrev haiku_row : RowEvidence
haiku_row = record {
  candidate = "";
  public_model = "";
  native_model = "";
  provider = "anthropic";
  provider_api = "";
  family = "";
  status = status_approved;
  text = "live";
  tools = "";
  tool_continuation = "";
  structured_output = "";
  reasoning = "";
  prompt_caching = "";
  usage = "live";
  cache_accounting = "";
  consumer_continuation = "";
  internal_continuation = "";
  transport = "";
}

abbrev live_evidence : SelectionOptions
live_evidence = record {
  use_case = "summarization";
  evidence = record { use_case = "summarization"; rows = haiku_row ∷ [] };
  allow_degraded = false;
  allow_untested = false;
}

abbrev haiku_view : RuntimeViewCandidate
haiku_view = record { resolution = haiku_resolution; runtime_id = "llmadapter-anthropic" }

abbrev no_rest : String → Option String
no_rest name = none

abbrev haiku_selection : Selection
haiku_selection = selection_of no_rest haiku_view haiku_row summarization_profile

select_models-All-IsSelected_example :
    (is_nil (haiku_selection ∷ []) ≡ false)
    × All (IsSelected no_rest live_evidence (haiku_view.resolution ∷ [])) (haiku_selection ∷ [])
unfolding select_models select_with select_from chosen_or_error choose_each choose match_row
    row_matches status_allowed builtin_profile
select_models-All-IsSelected_example =
    select_models-All-IsSelected no_rest "haiku" live_evidence (ok (haiku_view ∷ []))
      (haiku_selection ∷ []) refl
