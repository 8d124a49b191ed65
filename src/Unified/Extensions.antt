-- ===== src/Unified/Extensions.antt =====
-- unified/extensions.go on the values of one extension map; internal/routeattempt/ shares such maps
-- between requests. What encoding/json, strings and unicode do is a parameter. A setter that fails
-- keeps what it has set before.
pub mod OpenRouter
pub mod OpenAi
pub mod Anthropic
pub mod Codex
pub mod ReadBack
use Prim.Native.String.{compare}
use Prim.Native.Nat.{Ordering}
use llmadapter.Prelude.{
  String, ◌<>◌, Bool, true, false, not, ◌&&◌, ◌||◌, Option, none, some, is_some, List, [], ◌∷◌,
  ◌++◌, is_nil, ◌==◌, string_eq, if◌then◌else◌,
}
use llmadapter.Prelude.Assoc.{or_empty, lookup, insert, keys}
use llmadapter.Prelude.StableSort.{stable_sort}
use llmadapter.Router.Types.{ResolvedModelMetadata}
use llmadapter.Unified.Content.{RawMessage}
use llmadapter.Unified.Errors.{GoError, formatted, Result, ok, err}
use llmadapter.Unified.Event.{WarningEvent}
use llmadapter.Unified.Json.{JsonValue, JsonItems, JsonFields, value_of}
use llmadapter.RouteAttempt.{ExtensionMap, ext_modeldb_resolved}

abbrev ext_openai_previous_response_id : String
ext_openai_previous_response_id = "openai.responses.previous_response_id"

abbrev ext_openai_store : String
ext_openai_store = "openai.responses.store"

abbrev ext_openai_prompt_cache_key : String
ext_openai_prompt_cache_key = "openai.responses.prompt_cache_key"

abbrev ext_openai_prompt_cache_retention : String
ext_openai_prompt_cache_retention = "openai.responses.prompt_cache_retention"

abbrev ext_anthropic_betas : String
ext_anthropic_betas = "anthropic.betas"

abbrev ext_anthropic_context_management : String
ext_anthropic_context_management = "anthropic.context_management"

abbrev ext_open_router_models : String
ext_open_router_models = "openrouter.models"

abbrev ext_open_router_route : String
ext_open_router_route = "openrouter.route"

abbrev ext_open_router_provider : String
ext_open_router_provider = "openrouter.provider"

abbrev ext_open_router_provider_prefs : String
ext_open_router_provider_prefs = "openrouter.provider_preferences"

abbrev ext_open_router_plugins : String
ext_open_router_plugins = "openrouter.plugins"

abbrev ext_open_router_debug : String
ext_open_router_debug = "openrouter.debug"

abbrev ext_open_router_trace : String
ext_open_router_trace = "openrouter.trace"

abbrev ext_open_router_session_id : String
ext_open_router_session_id = "openrouter.session_id"

-- `json.Valid`, `json.Unmarshal` and `json.Marshal` at the types that the extensions have, whether
-- a text has a control or a space character or a comma, `strings.TrimSpace`, and `err.Error()`.
pub record ExtensionOps : Type 0 where
  pub valid : RawMessage → Bool
  pub parse_any : RawMessage → Result JsonValue
  pub parse_string : RawMessage → Result String
  pub parse_bool : RawMessage → Result Bool
  pub parse_strings : RawMessage → Result (List String)
  pub parses_object : String → Bool
  pub marshal_string : String → Result RawMessage
  pub marshal_bool : Bool → Result RawMessage
  pub marshal_strings : List String → Result RawMessage
  pub any_control : String → Bool
  pub any_space : String → Bool
  pub has_comma : String → Bool
  pub trim_space : String → String
  pub error_text : GoError → String

-- The map that a setter leaves, and its error.
abbrev Setter : Type 0
Setter = ExtensionMap → ExtensionMap × Option GoError

-- `if err := …; err != nil { return err }`
infixl 5 ◌then_set◌
abbrev pub ◌then_set◌ : Setter → Setter → Setter
◌then_set◌ f g values =
    let (values', e) = f values in
    elim e [ some failed ↦ (values', some failed) | none ↦ g values' ]

abbrev set_when : Bool → Setter → Setter
set_when test f values = if test then f values else (values, none)

-- `Extensions.Set`, with what `json.Marshal` gives
unfoldable pub set : String → Result RawMessage → Setter
set key (ok b) values = (insert key b values, none)
set key (err e) values = (values, some e)

-- `Extensions.Raw`: empty where the key is missing
unfoldable pub raw : ExtensionMap → String → RawMessage
raw values key = or_empty (lookup key values)

unfoldable pub has : ExtensionMap → String → Bool
has values key = is_some (lookup key values)

-- `GetExtension`, with the parser of the type; `none` where the key is missing
unfoldable get_extension {ℓ} :
    {T : Type ℓ} → (RawMessage → Result T) → ExtensionMap → String → Option (Result T)
get_extension parse values key = elim (lookup key values) [
  | none ↦ none
  | some text ↦ some (parse text)
]

-- `Keys`: in the order of their bytes
unfoldable extension_keys : ExtensionMap → List String
extension_keys values =
    stable_sort (λ a b. elim (compare a b) [ Ordering.lt ↦ true | _ ↦ false ]) (keys values)

unfoldable resolved_model_metadata_from :
    (RawMessage → Result ResolvedModelMetadata)
    → ExtensionMap
    → Option (Result ResolvedModelMetadata)
unfolding get_extension
resolved_model_metadata_from parse values = get_extension parse values ext_modeldb_resolved

-- A copy of the map, or nothing where it is empty.
unfoldable transport_values : ExtensionMap → Option ExtensionMap
transport_values values = if is_nil values then none else some values

abbrev Warnings : Type 0
Warnings = List WarningEvent

unfoldable raw_object : JsonValue → Bool
raw_object (JsonValue.object fields) = true
raw_object _ = false

module _ (ops : ExtensionOps) where
  unfoldable extension_warning : String → GoError → WarningEvent
  extension_warning key e = record {
    code = "invalid_extension_dropped";
    message = "invalid extension " <> key <> " was dropped: " <> ops.error_text e;
    source = "unified.extensions";
    meta = ("key", key) ∷ [];
  }

  unfoldable set_raw : String → RawMessage → Setter
  set_raw key text values =
      if text == ""
      then (values, none)
      else if not (ops.valid text)
      then (values, some (formatted "invalid raw extension JSON" []))
      else (insert key text values, none)

  unfoldable valid_extension_string : String → Bool
  valid_extension_string value = not (ops.trim_space value == "") && not (ops.any_control value)

  unfoldable validated_raw_extension :
      ExtensionMap → String → (JsonValue → Bool) → Warnings → RawMessage × Warnings
  unfolding raw extension_warning
  validated_raw_extension values key valid warnings =
      let text = raw values key in
      if text == "" then ("", warnings) else elim (ops.parse_any text) [
        | err e ↦ ("", warnings ++ extension_warning key e ∷ [])
        | ok value ↦
            if not (valid value)
            then ("", warnings ++ extension_warning key (formatted "unexpected JSON type" []) ∷ [])
            else (text, warnings)
      ]
