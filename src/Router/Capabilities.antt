-- ===== src/Router/Capabilities.antt =====
-- `capabilityMismatch` and its helpers of router/router.go: the first capability that the request
-- needs and the endpoint lacks, as the reason text; the empty text if there is none.
pub mod Needs
use llmadapter.Prelude.{
  String, Bool, true, false, not, ◌&&◌, ◌||◌, Option, none, some, List, [], ◌∷◌, any, is_nil,
  is_some, ◌==◌, string_eq, if◌then◌else◌,
}
use llmadapter.Prelude.Assoc.{Assoc, lookup}
use llmadapter.Unified.Kinds.{response_format_json, response_format_json_schema}
use llmadapter.Unified.Content.{ContentPart, image_part, audio_part}
use llmadapter.Unified.Request.{Request, Message, ResponseFormat, ReasoningConfig}
use llmadapter.Router.Types.{CapabilitySet, ResolvedModelMetadata}

unfoldable requires_tools : Request → Bool
requires_tools req =
    not (is_nil req.tools)
    || is_some req.tool_choice
    || any (λ msg. not (is_nil msg.tool_calls) || not (is_nil msg.tool_results)) req.messages

abbrev contains_metadata_value : List String → String → Bool
contains_metadata_value values value = any (λ candidate. candidate == value) values

-- a missing key of a map reads as the zero value
abbrev string_at : String → Assoc String String → String
string_at key m = elim (lookup key m) [ none ↦ "" | some v ↦ v ]

-- The test `len(meta.ParameterValueMappings) == 0` is that of a lookup in an empty map.
unfoldable mapped_metadata_value : Option ResolvedModelMetadata → String → String → String
mapped_metadata_value none parameter value = ""
mapped_metadata_value (some meta) parameter value =
    elim (lookup parameter meta.parameter_value_mappings) [
      | none ↦ ""
      | some values ↦ string_at value values
    ]

unfoldable supports_model_metadata_value : Option ResolvedModelMetadata → String → String → Bool
unfolding mapped_metadata_value
supports_model_metadata_value none parameter value = true
supports_model_metadata_value (some meta) parameter value =
    if parameter == "reasoning_effort" && contains_metadata_value meta.reasoning_efforts value
    then true
    else if not (mapped_metadata_value (some meta) parameter value == "")
    then true
    else elim (lookup parameter meta.parameter_values) [
      | none ↦ true
      | some values ↦ is_nil values || contains_metadata_value values value
    ]

abbrev part_mismatch : CapabilitySet → ContentPart → String
part_mismatch caps (image_part source alt) = if not caps.vision then "vision required" else ""
part_mismatch caps (audio_part source) = if not caps.audio_input then "audio input required" else ""
part_mismatch caps _ = ""

-- The inner loop: the first part with a reason ends it.
unfoldable parts_mismatch : CapabilitySet → List ContentPart → String
parts_mismatch caps [] = ""
parts_mismatch caps (part ∷ parts) =
    let rest = parts_mismatch caps parts in
    if part_mismatch caps part == "" then rest else part_mismatch caps part

unfoldable messages_mismatch : CapabilitySet → List Message → String
unfolding parts_mismatch
messages_mismatch caps [] = ""
messages_mismatch caps (msg ∷ msgs) =
    let rest = messages_mismatch caps msgs in
    if parts_mismatch caps msg.content == "" then rest else parts_mismatch caps msg.content

abbrev format_mismatch : CapabilitySet → Option ResponseFormat → String
format_mismatch caps none = ""
format_mismatch caps (some format) =
    if format.kind == response_format_json
    then (if not caps.json_mode then "json mode required" else "")
    else if format.kind == response_format_json_schema
    then (if not caps.json_schema then "json schema required" else "")
    else ""

abbrev reasoning_mismatch :
    CapabilitySet → Option ResolvedModelMetadata → Option ReasoningConfig → String
reasoning_mismatch caps meta none = ""
reasoning_mismatch caps meta (some reasoning) =
    if not caps.reasoning
    then "reasoning required"
    else if not (reasoning.effort == "")
        && not (supports_model_metadata_value meta "reasoning_effort" reasoning.effort)
    then "reasoning effort unsupported"
    else ""

unfoldable pub capability_mismatch : Request → CapabilitySet → Option ResolvedModelMetadata → String
unfolding requires_tools supports_model_metadata_value messages_mismatch
capability_mismatch req caps meta =
    if req.stream && not caps.streaming
    then "streaming required"
    else if requires_tools req && not caps.tools
    then "tools required"
    else if not (format_mismatch caps req.response_format == "")
    then format_mismatch caps req.response_format
    else if not (reasoning_mismatch caps meta req.reasoning == "")
    then reasoning_mismatch caps meta req.reasoning
    else messages_mismatch caps req.messages
