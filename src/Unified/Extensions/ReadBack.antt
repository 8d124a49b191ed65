-- ===== src/Unified/Extensions/ReadBack.antt =====
-- Extensions that are set are read back.
use mathlib.Core.Path.{fun_ext}
use llmadapter.Prelude.{
  String, ◌≡◌, refl, ap, true, none, Bool-cases, inl, inr, ◌==◌, string_eq, if◌then◌else◌, arith,
}
use llmadapter.Prelude.Assoc.{insert, lookup-insert}
use llmadapter.Unified.Content.{RawMessage}
use llmadapter.RouteAttempt.{ExtensionMap}
use llmadapter.Unified.Extensions.{
  ExtensionOps, raw, set_raw, Setter, ext_open_router_models, ext_open_router_route,
  ext_open_router_provider, ext_open_router_provider_prefs, ext_open_router_plugins,
  ext_open_router_debug, ext_open_router_trace, ext_open_router_session_id,
}
use llmadapter.Unified.Extensions.OpenRouter.{
  OpenRouterExtensions, set_open_router_raw_extensions, open_router_raw_extensions_from,
}

-- A value over what is held.
abbrev over : RawMessage → RawMessage → RawMessage
over text held = if text == "" then held else text

-- What a setter that does not fail does to the map.
abbrev put : String → RawMessage → ExtensionMap → ExtensionMap
put key text values = if text == "" then values else insert key text values

raw-put :
    (j k : String) (text : RawMessage) (values : ExtensionMap)
    → raw (put j text values) k ≡ (if j == k then over text (raw values k) else raw values k)
unfolding raw
raw-put j k text values = elim (Bool-cases (text == "")) [
  | inl e ↦ rw e (ground arith)
  | inr e ↦ rw (e, lookup-insert j k text values) (ground arith)
]

module _ (ops : ExtensionOps) where
  -- Empty, or valid JSON.
  abbrev IsSettable : RawMessage → Type 0
  IsSettable text = (if text == "" then true else ops.valid text) ≡ true

  set_raw-put :
      (key : String) (text : RawMessage)
      → IsSettable text
      → set_raw ops key text ≡ (λ values. (put key text values, none))
  unfolding set_raw
  set_raw-put key text h = fun_ext (λ values. ground (arith, h))

  -- The map behind the first seven fields, and behind all eight.
  abbrev put_seven : OpenRouterExtensions → ExtensionMap → ExtensionMap
  put_seven value values = put ext_open_router_trace value.trace (
      put ext_open_router_debug value.debug (
        put ext_open_router_plugins value.plugins (
          put ext_open_router_provider_prefs value.provider_prefs (
            put ext_open_router_provider value.provider (
              put ext_open_router_route value.route
                (put ext_open_router_models value.models values))))))

  abbrev put_all : OpenRouterExtensions → ExtensionMap → ExtensionMap
  put_all value values = put ext_open_router_session_id value.session_id (put_seven value values)

  pub record AllSettable (value : OpenRouterExtensions) : Type 0 where
    pub models_settable : IsSettable value.models
    pub route_settable : IsSettable value.route
    pub provider_settable : IsSettable value.provider
    pub provider_prefs_settable : IsSettable value.provider_prefs
    pub plugins_settable : IsSettable value.plugins
    pub debug_settable : IsSettable value.debug
    pub trace_settable : IsSettable value.trace
    pub session_id_settable : IsSettable value.session_id

  set_open_router-put_all :
      (value : OpenRouterExtensions) (values : ExtensionMap)
      → AllSettable value
      → set_open_router_raw_extensions ops value values ≡ (put_all value values, none)
  unfolding set_open_router_raw_extensions
  set_open_router-put_all value values h =
      rw
        (
          set_raw-put ext_open_router_models value.models h.models_settable,
          set_raw-put ext_open_router_route value.route h.route_settable,
          set_raw-put ext_open_router_provider value.provider h.provider_settable,
          set_raw-put ext_open_router_provider_prefs value.provider_prefs h.provider_prefs_settable,
          set_raw-put ext_open_router_plugins value.plugins h.plugins_settable,
          set_raw-put ext_open_router_debug value.debug h.debug_settable,
          set_raw-put ext_open_router_trace value.trace h.trace_settable,
        )
        (ap (λ (f : Setter). f (put_seven value values))
          (set_raw-put ext_open_router_session_id value.session_id h.session_id_settable))

  -- Each text that is not empty, over what the map holds.
  abbrev laid_over : OpenRouterExtensions → OpenRouterExtensions → OpenRouterExtensions
  laid_over value held = record {
    models = over value.models held.models;
    route = over value.route held.route;
    provider = over value.provider held.provider;
    provider_prefs = over value.provider_prefs held.provider_prefs;
    plugins = over value.plugins held.plugins;
    debug = over value.debug held.debug;
    trace = over value.trace held.trace;
    session_id = over value.session_id held.session_id;
  }

  raw-put_all :
      (value : OpenRouterExtensions) (values : ExtensionMap)
      → open_router_raw_extensions_from (put_all value values)
        ≡ laid_over value (open_router_raw_extensions_from values)
  unfolding open_router_raw_extensions_from
  raw-put_all value values = simp raw-put

  -- Setting OpenRouter extensions that are each empty or valid JSON succeeds, and reading them
  -- back gives each text that is not empty, and what the map held before for an empty one.
  pub open_router_from-set :
      (value : OpenRouterExtensions) (values : ExtensionMap)
      → AllSettable value
      → ((set_open_router_raw_extensions ops value values).1 ≡ none)
        × (open_router_raw_extensions_from (set_open_router_raw_extensions ops value values).0
            ≡ laid_over value (open_router_raw_extensions_from values))
  open_router_from-set value values h =
      rw (set_open_router-put_all value values h) (refl, raw-put_all value values)
