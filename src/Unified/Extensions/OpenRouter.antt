-- ===== src/Unified/Extensions/OpenRouter.antt =====
-- The OpenRouter extensions of unified/extensions.go.
use llmadapter.Prelude.{
  String, Bool, true, false, not, ◌&&◌, none, some, [], string_eq, if◌then◌else◌,
}
use llmadapter.Unified.Content.{RawMessage}
use llmadapter.Unified.Json.{JsonValue, JsonItems, JsonFields, value_of}
use llmadapter.RouteAttempt.{ExtensionMap}
use llmadapter.Unified.Extensions.{
  raw, ext_open_router_models, ext_open_router_route, ext_open_router_provider,
  ext_open_router_provider_prefs, ext_open_router_plugins, ext_open_router_debug,
  ext_open_router_trace, ext_open_router_session_id, ExtensionOps, Setter, ◌then_set◌, Warnings,
  raw_object, set_raw, valid_extension_string, validated_raw_extension,
}

-- The type of `OpenRouterRawExtensions` and of `OpenRouterExtensions`, which have the same fields.
pub record OpenRouterExtensions : Type 0 where
  pub models : RawMessage
  pub route : RawMessage
  pub provider : RawMessage
  pub provider_prefs : RawMessage
  pub plugins : RawMessage
  pub debug : RawMessage
  pub trace : RawMessage
  pub session_id : RawMessage

unfoldable pub open_router_raw_extensions_from : ExtensionMap → OpenRouterExtensions
unfolding raw
open_router_raw_extensions_from values = record {
  models = raw values ext_open_router_models;
  route = raw values ext_open_router_route;
  provider = raw values ext_open_router_provider;
  provider_prefs = raw values ext_open_router_provider_prefs;
  plugins = raw values ext_open_router_plugins;
  debug = raw values ext_open_router_debug;
  trace = raw values ext_open_router_trace;
  session_id = raw values ext_open_router_session_id;
}

module _ (ops : ExtensionOps) where
  unfoldable raw_safe_string : JsonValue → Bool
  unfolding valid_extension_string
  raw_safe_string (JsonValue.text value) = valid_extension_string ops value
  raw_safe_string _ = false

  unfoldable all_safe_strings : JsonItems → Bool
  unfolding raw_safe_string
  all_safe_strings JsonItems.nil = true
  all_safe_strings (JsonItems.cons item items) =
      let rest = all_safe_strings items in if not (raw_safe_string item) then false else rest

  unfoldable raw_string_array : JsonValue → Bool
  unfolding all_safe_strings
  raw_string_array (JsonValue.array items) = all_safe_strings items
  raw_string_array _ = false

  unfoldable raw_bool_or_object : JsonValue → Bool
  unfolding raw_object
  raw_bool_or_object (JsonValue.boolean b) = true
  raw_bool_or_object v = raw_object v

  unfoldable raw_object_or_safe_string : JsonValue → Bool
  unfolding raw_object raw_safe_string
  raw_object_or_safe_string v = if raw_object v then true else raw_safe_string v

  -- A key that is missing, or holds an array of safe strings.
  abbrev string_array_at : JsonFields → String → Bool
  string_array_at fields key = elim (value_of key fields) [
    | none ↦ true
    | some value ↦ raw_string_array value
  ]

  unfoldable raw_provider_object : JsonValue → Bool
  unfolding raw_string_array value_of
  raw_provider_object (JsonValue.object fields) =
      string_array_at fields "order"
      && string_array_at fields "ignore"
      && string_array_at fields "only"
  raw_provider_object _ = false

  abbrev is_plugin : JsonValue → Bool
  is_plugin (JsonValue.object fields) = elim (value_of "id" fields) [
    | none ↦ true
    | some id ↦ raw_safe_string id
  ]
  is_plugin _ = false

  unfoldable all_plugins : JsonItems → Bool
  unfolding raw_safe_string value_of
  all_plugins JsonItems.nil = true
  all_plugins (JsonItems.cons item items) =
      let rest = all_plugins items in if not (is_plugin item) then false else rest

  unfoldable raw_plugin_array : JsonValue → Bool
  unfolding all_plugins
  raw_plugin_array (JsonValue.array items) = all_plugins items
  raw_plugin_array _ = false

  unfoldable pub open_router_extensions_from : ExtensionMap → OpenRouterExtensions × Warnings
  unfolding validated_raw_extension raw_string_array raw_object_or_safe_string raw_provider_object
      raw_object raw_plugin_array raw_bool_or_object raw_safe_string
  open_router_extensions_from values =
      let (models, w1) =
        validated_raw_extension ops values ext_open_router_models raw_string_array [] in
      let (route, w2) =
        validated_raw_extension ops values ext_open_router_route raw_object_or_safe_string w1 in
      let (provider, w3) =
        validated_raw_extension ops values ext_open_router_provider raw_provider_object w2 in
      let (prefs, w4) =
        validated_raw_extension ops values ext_open_router_provider_prefs raw_object w3 in
      let (plugins, w5) =
        validated_raw_extension ops values ext_open_router_plugins raw_plugin_array w4 in
      let (debug, w6) =
        validated_raw_extension ops values ext_open_router_debug raw_bool_or_object w5 in
      let (trace, w7) = validated_raw_extension ops values ext_open_router_trace raw_object w6 in
      let (session, w8) =
        validated_raw_extension ops values ext_open_router_session_id raw_safe_string w7 in
      (
        record {
          models = models;
          route = route;
          provider = provider;
          provider_prefs = prefs;
          plugins = plugins;
          debug = debug;
          trace = trace;
          session_id = session;
        },
        w8,
      )

  unfoldable pub set_open_router_raw_extensions : OpenRouterExtensions → Setter
  unfolding set_raw
  set_open_router_raw_extensions value =
      set_raw ops ext_open_router_models value.models
      then_set set_raw ops ext_open_router_route value.route
      then_set set_raw ops ext_open_router_provider value.provider
      then_set set_raw ops ext_open_router_provider_prefs value.provider_prefs
      then_set set_raw ops ext_open_router_plugins value.plugins
      then_set set_raw ops ext_open_router_debug value.debug
      then_set set_raw ops ext_open_router_trace value.trace
      then_set set_raw ops ext_open_router_session_id value.session_id

  unfoldable set_open_router_extensions : OpenRouterExtensions → Setter
  unfolding set_open_router_raw_extensions
  set_open_router_extensions value = set_open_router_raw_extensions value
