-- ===== src/AdapterConfig/Selection.antt =====
-- The selection of adapterconfig/usecase_selection.go from the candidates on that
-- `useCaseRuntimeViewCandidates` gives.
use llmadapter.Prelude.{
  String, ◌<>◌, Bool, true, false, not, ◌&&◌, ◌||◌, Option, none, some, List, [], ◌∷◌, ◌++◌, map,
  is_nil, ◌==◌, string_eq, if◌then◌else◌,
}
use llmadapter.Prelude.Assoc.{Assoc, lookup}
use llmadapter.Unified.Errors.{GoError, formatted, Result, ok, err}
use llmadapter.Compatibility.Types.{
  UseCase, use_case_agentic_coding, Feature, feature_streaming_text, feature_tools,
  feature_tool_continuation, feature_structured_output, feature_reasoning, feature_prompt_caching,
  feature_usage, feature_cache_accounting, FeatureEvidence, evidence_live, EvaluationStatus,
  status_approved, status_degraded, status_untested, Profile,
}
use llmadapter.Compatibility.Evaluate.{evaluate}
use llmadapter.Compatibility.Profiles.{builtin_profile}
use llmadapter.AdapterConfig.Evidence.{
  RowEvidence, SelectionOptions, RuntimeViewCandidate, Selection,
}
use llmadapter.AdapterConfig.Candidates.{
  ModelResolutionCandidate, compatibility_candidate, unknown_use_case,
}

unfoldable pub status_allowed : EvaluationStatus → SelectionOptions → Bool
status_allowed status opts =
    if status == status_approved
    then true
    else if status == status_degraded
    then opts.allow_degraded
    else if status == status_untested
    then opts.allow_untested
    else false

unfoldable pub reject_reason : ModelResolutionCandidate → String → String
reject_reason r reason =
    r.provider <> "/" <> r.provider_api <> "/" <> r.native_model <> ":" <> reason

-- The features that a row shows live.
abbrev live_features : RowEvidence → Assoc Feature Bool
live_features row =
    (feature_streaming_text, row.text == "live")
    ∷ (feature_tools, row.tools == "live")
    ∷ (feature_tool_continuation, row.tool_continuation == "live")
    ∷ (feature_structured_output, row.structured_output == "live")
    ∷ (feature_reasoning, row.reasoning == "live")
    ∷ (feature_prompt_caching, row.prompt_caching == "live")
    ∷ (feature_usage, row.usage == "live")
    ∷ (feature_cache_accounting, row.cache_accounting == "live")
    ∷ []

abbrev is_live : Option Bool → Bool
is_live none = false
is_live (some flag) = flag

unfoldable pub apply_evidence : RowEvidence → FeatureEvidence → FeatureEvidence
apply_evidence row feature =
    if is_live (lookup feature.feature (live_features row))
    then record feature {
      supported = true;
      evidence = evidence_live;
      detail = "live compatibility evidence";
    }
    else feature

abbrev join_texts : List String → String
join_texts [] = ""
join_texts (text ∷ []) = text
join_texts (text ∷ other ∷ texts) = text <> ", " <> join_texts (other ∷ texts)

pub data Choice : Type 0 where
  selected : Selection → Choice
  rejected : String → Choice

pub record Chosen : Type 0 where
  pub out : List Selection
  pub rejected : List String

-- `selections[0]`; of no selection it panics.
pub data Picked : Type 0 where
  picked : Selection → Picked
  refused : GoError → Picked
  index_out_of_range : Picked

-- `qualified_rest` is what `modelDBServiceQualifiedName` gives: the name behind the service's
-- prefix, if there is one.
module _ (qualified_rest : String → Option String) where
  unfoldable same_wire_model : String → String → Bool
  same_wire_model left right = if left == right then true else elim (qualified_rest left) [
    | none ↦ elim (qualified_rest right) [ none ↦ false | some rest ↦ rest == left ]
    | some left_rest ↦ elim (qualified_rest right) [
      | none ↦ left_rest == right
      | some rest ↦ left_rest == right || rest == left || left_rest == rest
    ]
  ]

  -- The loop of `match` passes over a row for which one of its tests fails.
  unfoldable pub row_matches : RowEvidence → ModelResolutionCandidate → Bool
  unfolding same_wire_model
  row_matches row r =
      row.provider == r.provider
      && (row.provider_api == "" || row.provider_api == r.provider_api)
      && (row.native_model == "" || same_wire_model row.native_model r.native_model)
      && (row.public_model == ""
          || r.public_model == ""
          || row.public_model == r.public_model
          || row.public_model == r.input)

  unfoldable pub match_row : List RowEvidence → ModelResolutionCandidate → Option RowEvidence
  unfolding row_matches
  match_row [] r = none
  match_row (row ∷ rows) r =
      let later = match_row rows r in if row_matches row r then some row else later

  -- The selection of a candidate by the evidence on it. The status of the evaluation is that of
  -- the row.
  abbrev pub selection_of : RuntimeViewCandidate → RowEvidence → Profile → Selection
  selection_of c row profile =
      let candidate = compatibility_candidate c.resolution in
      let evaluation =
        evaluate (record candidate { features = map (apply_evidence row) candidate.features })
          profile in
      record {
        resolution = c.resolution;
        evaluation = record evaluation { status = row.status };
        evidence = row;
        runtime_id = c.runtime_id;
      }

  -- One turn of the loop of `SelectModelsForUseCase`.
  unfoldable pub choose : SelectionOptions → Profile → RuntimeViewCandidate → Choice
  unfolding match_row status_allowed reject_reason apply_evidence compatibility_candidate evaluate
  choose opts profile c = elim (match_row opts.evidence.rows c.resolution) [
    | none ↦ rejected (reject_reason c.resolution "no_live_evidence")
    | some row ↦ elim (status_allowed row.status opts) [
      | true ↦ selected (selection_of c row profile)
      | false ↦ rejected (reject_reason c.resolution row.status)
    ]
  ]

  abbrev pub note_choice : Chosen → Choice → Chosen
  note_choice acc (selected s) = record acc { out = acc.out ++ s ∷ [] }
  note_choice acc (rejected reason) = record acc { rejected = acc.rejected ++ reason ∷ [] }

  unfoldable pub choose_each :
      SelectionOptions → Profile → Chosen → List RuntimeViewCandidate → Chosen
  unfolding choose
  choose_each opts profile acc [] = acc
  choose_each opts profile acc (c ∷ cs) =
      choose_each opts profile (note_choice acc (choose opts profile c)) cs

  abbrev pub use_case_of : SelectionOptions → UseCase
  use_case_of opts = if opts.use_case == "" then use_case_agentic_coding else opts.use_case

  unfoldable pub chosen_or_error : String → UseCase → Chosen → Result (List Selection)
  chosen_or_error model use_case chosen =
      if is_nil chosen.out
      then err (
          formatted "model %q has no candidates approved for use case %q: %s"
            (model ∷ use_case ∷ join_texts chosen.rejected ∷ []))
      else ok chosen.out

  unfoldable pub select_from :
      String
      → SelectionOptions
      → Profile
      → Result (List RuntimeViewCandidate)
      → Result (List Selection)
  unfolding choose_each chosen_or_error
  select_from model opts profile (err e) = err e
  select_from model opts profile (ok cs) =
      chosen_or_error model (use_case_of opts)
        (choose_each opts profile (record { out = []; rejected = [] }) cs)

  -- `SelectModelsForUseCase` behind `BuiltinProfile`.
  unfoldable pub select_with :
      String
      → SelectionOptions
      → Result (List RuntimeViewCandidate)
      → Option Profile
      → Result (List Selection)
  unfolding select_from
  select_with model opts cs none = err (unknown_use_case (use_case_of opts))
  select_with model opts cs (some profile) =
      if opts.evidence.use_case == "" || is_nil opts.evidence.rows
      then err (
          formatted "use-case selection for %q requires compatibility evidence"
            (use_case_of opts ∷ []))
      else if not (opts.evidence.use_case == use_case_of opts)
      then err (
          formatted "compatibility evidence use case %q does not match requested use case %q"
            (opts.evidence.use_case ∷ use_case_of opts ∷ []))
      else select_from model opts profile cs

  unfoldable pub select_models :
      String → SelectionOptions → Result (List RuntimeViewCandidate) → Result (List Selection)
  unfolding select_with builtin_profile
  select_models model opts cs = select_with model opts cs (builtin_profile (use_case_of opts))

  -- `SelectModelForUseCase` behind the call of `SelectModelsForUseCase`.
  abbrev pub first_selection : Result (List Selection) → Picked
  first_selection (ok []) = index_out_of_range
  first_selection (ok (s ∷ more)) = picked s
  first_selection (err e) = refused e

  unfoldable pub select_model :
      String → SelectionOptions → Result (List RuntimeViewCandidate) → Picked
  unfolding select_models
  select_model model opts cs = first_selection (select_models model opts cs)
