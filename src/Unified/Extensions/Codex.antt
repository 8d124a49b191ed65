-- ===== src/Unified/Extensions/Codex.antt =====
-- The Codex extensions of unified/extensions.go.
use llmadapter.Prelude.{
  String, ◌==◌, string_eq, Bool, true, false, not, ◌&&◌, none, some, [], ◌∷◌, ◌++◌, if◌then◌else◌,
}
use llmadapter.Unified.Kinds.{InteractionMode, valid_interaction_mode}
use llmadapter.Unified.Errors.{formatted, ok, err}
use llmadapter.RouteAttempt.{ExtensionMap}
use llmadapter.Unified.Extensions.{
  ExtensionOps, Setter, ◌then_set◌, set_when, set, get_extension, Warnings, extension_warning,
  valid_extension_string,
}

abbrev ext_codex_interaction_mode : String
ext_codex_interaction_mode = "codex.interaction_mode"

abbrev ext_codex_session_id : String
ext_codex_session_id = "codex.session_id"

abbrev ext_codex_branch_id : String
ext_codex_branch_id = "codex.branch_id"

abbrev ext_codex_branch_head_id : String
ext_codex_branch_head_id = "codex.branch_head_id"

abbrev ext_codex_input_base_hash : String
ext_codex_input_base_hash = "codex.input_base_hash"

abbrev ext_codex_parent_response_id : String
ext_codex_parent_response_id = "codex.parent_response_id"

abbrev ext_codex_window_id : String
ext_codex_window_id = "codex.window_id"

abbrev ext_codex_turn_state : String
ext_codex_turn_state = "codex.turn_state"

abbrev ext_codex_turn_metadata : String
ext_codex_turn_metadata = "codex.turn_metadata"

abbrev ext_codex_parent_thread_id : String
ext_codex_parent_thread_id = "codex.parent_thread_id"

abbrev ext_codex_subagent : String
ext_codex_subagent = "codex.subagent"

abbrev ext_codex_memgen_request : String
ext_codex_memgen_request = "codex.memgen_request"

abbrev ext_codex_include_timing_metrics : String
ext_codex_include_timing_metrics = "codex.include_timing_metrics"

pub record CodexExtensions : Type 0 where
  pub interaction_mode : InteractionMode
  pub session_id : String
  pub branch_id : String
  pub branch_head_id : String
  pub input_base_hash : String
  pub parent_response_id : String
  pub window_id : String
  pub turn_state : String
  pub turn_metadata : String
  pub parent_thread_id : String
  pub subagent : Bool
  pub memgen_request : Bool
  pub include_timing_metrics : Bool

module _ (ops : ExtensionOps) where
  -- `setString` of `CodexExtensionsFrom`
  unfoldable codex_string : ExtensionMap → String → Warnings → String × Warnings
  unfolding get_extension extension_warning valid_extension_string
  codex_string values key warnings = elim (get_extension ops.parse_string values key) [
    | none ↦ ("", warnings)
    | some result ↦ elim result [
      | err e ↦ ("", warnings ++ extension_warning ops key e ∷ [])
      | ok value ↦
          if not (valid_extension_string ops value)
          then (
            "",
            warnings
                ++ extension_warning ops key
                    (formatted "must be a non-empty string without control characters" [])
                  ∷ [],
          )
          else (value, warnings)
    ]
  ]

  -- `setBool`
  unfoldable codex_bool : ExtensionMap → String → Warnings → Bool × Warnings
  unfolding get_extension extension_warning
  codex_bool values key warnings = elim (get_extension ops.parse_bool values key) [
    | none ↦ (false, warnings)
    | some result ↦ elim result [
      | err e ↦ (false, warnings ++ extension_warning ops key e ∷ [])
      | ok value ↦ (value, warnings)
    ]
  ]

  -- A value that is dropped with a warning where it fails its test.
  abbrev checked : String → String → (String → Bool) → String × Warnings → String × Warnings
  checked key reason valid (value, warnings) =
      if not (value == "") && not (valid value)
      then ("", warnings ++ extension_warning ops key (formatted reason []) ∷ [])
      else (value, warnings)

  unfoldable codex_extensions_from : ExtensionMap → CodexExtensions × Warnings
  unfolding codex_string codex_bool extension_warning valid_interaction_mode
  codex_extensions_from values =
      let (v1, w1) =
        checked ext_codex_interaction_mode "must be \"auto\", \"one_shot\", or \"session\""
          valid_interaction_mode (codex_string values ext_codex_interaction_mode []) in
      let (v2, w2) = codex_string values ext_codex_session_id w1 in
      let (v3, w3) = codex_string values ext_codex_branch_id w2 in
      let (v4, w4) = codex_string values ext_codex_branch_head_id w3 in
      let (v5, w5) = codex_string values ext_codex_input_base_hash w4 in
      let (v6, w6) = codex_string values ext_codex_parent_response_id w5 in
      let (v7, w7) = codex_string values ext_codex_window_id w6 in
      let (v8, w8) = codex_string values ext_codex_turn_state w7 in
      let (v9, w9) =
        checked ext_codex_turn_metadata "must be a JSON object string" ops.parses_object
          (codex_string values ext_codex_turn_metadata w8) in
      let (v10, w10) = codex_string values ext_codex_parent_thread_id w9 in
      let (v11, w11) = codex_bool values ext_codex_subagent w10 in
      let (v12, w12) = codex_bool values ext_codex_memgen_request w11 in
      let (v13, w13) = codex_bool values ext_codex_include_timing_metrics w12 in
      (
        record {
          interaction_mode = v1;
          session_id = v2;
          branch_id = v3;
          branch_head_id = v4;
          input_base_hash = v5;
          parent_response_id = v6;
          window_id = v7;
          turn_state = v8;
          turn_metadata = v9;
          parent_thread_id = v10;
          subagent = v11;
          memgen_request = v12;
          include_timing_metrics = v13;
        },
        w13,
      )

  -- A field that is not empty is set.
  abbrev set_codex_string : String → String → Setter
  set_codex_string key value = set_when (not (value == "")) (set key (ops.marshal_string value))

  abbrev set_codex_bool : String → Bool → Setter
  set_codex_bool key value = set_when value (set key (ops.marshal_bool true))

  abbrev set_codex_mode : InteractionMode → Setter
  set_codex_mode mode values =
      if not (mode == "") && not (valid_interaction_mode mode)
      then (
        values,
        some (
            formatted
              "invalid codex interaction mode: must be \"auto\", \"one_shot\", or \"session\"" []),
      )
      else set_codex_string ext_codex_interaction_mode mode values

  unfoldable set_codex_extensions : CodexExtensions → Setter
  unfolding set valid_interaction_mode
  set_codex_extensions value =
      set_codex_mode value.interaction_mode
      then_set set_codex_string ext_codex_session_id value.session_id
      then_set set_codex_string ext_codex_branch_id value.branch_id
      then_set set_codex_string ext_codex_branch_head_id value.branch_head_id
      then_set set_codex_string ext_codex_input_base_hash value.input_base_hash
      then_set set_codex_string ext_codex_parent_response_id value.parent_response_id
      then_set set_codex_string ext_codex_window_id value.window_id
      then_set set_codex_string ext_codex_turn_state value.turn_state
      then_set set_codex_string ext_codex_turn_metadata value.turn_metadata
      then_set set_codex_string ext_codex_parent_thread_id value.parent_thread_id
      then_set set_codex_bool ext_codex_subagent value.subagent
      then_set set_codex_bool ext_codex_memgen_request value.memgen_request
      then_set set_codex_bool ext_codex_include_timing_metrics value.include_timing_metrics
