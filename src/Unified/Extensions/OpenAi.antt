-- ===== src/Unified/Extensions/OpenAi.antt =====
-- The extensions of the OpenAI responses API in unified/extensions.go.
use llmadapter.Prelude.{
  String, Bool, not, ◌&&◌, Option, none, some, [], ◌∷◌, ◌++◌, ◌==◌, string_eq, if◌then◌else◌,
}
use llmadapter.Unified.Errors.{formatted, ok, err}
use llmadapter.RouteAttempt.{ExtensionMap}
use llmadapter.Unified.Extensions.{
  ext_openai_previous_response_id, ext_openai_store, ext_openai_prompt_cache_key,
  ext_openai_prompt_cache_retention, ExtensionOps, Setter, ◌then_set◌, set_when, set, get_extension,
  Warnings, extension_warning,
}

pub record OpenAiResponsesExtensions : Type 0 where
  pub previous_response_id : String
  pub store : Option Bool
  pub prompt_cache_key : String
  pub prompt_cache_retention : String

module _ (ops : ExtensionOps) where
  -- `setString` of `OpenAIResponsesExtensionsFrom`
  unfoldable openai_string : ExtensionMap → String → Warnings → String × Warnings
  unfolding get_extension extension_warning
  openai_string values key warnings = elim (get_extension ops.parse_string values key) [
    | none ↦ ("", warnings)
    | some result ↦ elim result [
      | err e ↦ ("", warnings ++ extension_warning ops key e ∷ [])
      | ok value ↦
          if ops.trim_space value == ""
          then ("", warnings ++ extension_warning ops key (formatted "empty string" []) ∷ [])
          else (value, warnings)
    ]
  ]

  unfoldable openai_responses_extensions_from : ExtensionMap → OpenAiResponsesExtensions × Warnings
  unfolding openai_string get_extension extension_warning
  openai_responses_extensions_from values =
      let (previous, w1) = openai_string values ext_openai_previous_response_id [] in
      let (cache_key, w2) = openai_string values ext_openai_prompt_cache_key w1 in
      let (held, w3) = openai_string values ext_openai_prompt_cache_retention w2 in
      let unknown = not (held == "") && not (held == "24h") && not (held == "in_memory") in
      let retention = if unknown then "" else held in
      let w4 =
        if unknown
        then w3
          ++ extension_warning ops ext_openai_prompt_cache_retention
              (formatted "must be \"24h\" or \"in_memory\"" [])
            ∷ []
        else w3 in
      let out = λ (store : Option Bool).
        let made : OpenAiResponsesExtensions = record {
          previous_response_id = previous;
          store = store;
          prompt_cache_key = cache_key;
          prompt_cache_retention = retention;
        } in
        made in
      elim (get_extension ops.parse_bool values ext_openai_store) [
        | none ↦ (out none, w4)
        | some result ↦ elim result [
          | err e ↦ (out none, w4 ++ extension_warning ops ext_openai_store e ∷ [])
          | ok value ↦ (out (some value), w4)
        ]
      ]

  unfoldable set_openai_responses_extensions : OpenAiResponsesExtensions → Setter
  unfolding set
  set_openai_responses_extensions value =
      set_when (not (value.previous_response_id == ""))
        (set ext_openai_previous_response_id (ops.marshal_string value.previous_response_id))
      then_set (λ values. elim value.store [
        | none ↦ (values, none)
        | some store ↦ set ext_openai_store (ops.marshal_bool store) values
      ])
      then_set set_when (not (value.prompt_cache_key == ""))
          (set ext_openai_prompt_cache_key (ops.marshal_string value.prompt_cache_key))
      then_set set_when (not (value.prompt_cache_retention == ""))
          (set ext_openai_prompt_cache_retention (ops.marshal_string value.prompt_cache_retention))
