-- ===== src/RouteAttempt.antt =====
-- internal/routeattempt/routeattempt.go, and `Extensions.Set` and `SetResolvedModelMetadata` of
-- unified/extensions.go. The extension map of a request is shared by every copy of the request,
-- so maps live in a store and a request holds an address. `json.Marshal` of model metadata is a
-- parameter; `none` is its error.
pub mod Aliasing
use llmadapter.Prelude.{
  ℕ, suc, String, Bool, true, false, not, ◌&&◌, Option, none, some, List, [], ◌∷◌, leb, ltb, ◌==◌,
  nat_eq, string_eq, if◌then◌else◌,
}
use llmadapter.Prelude.Assoc.{Assoc, lookup, insert}
use llmadapter.Prelude.Int64
use llmadapter.Unified.Content.{RawMessage}
use llmadapter.Unified.Request.{Request, Extensions}
use llmadapter.Unified.Errors.{ApiError, GoError, wrapped, is_unsupported, as_api, Result, ok, err}
use llmadapter.Router.Types.{AdaptRequest, Route, ResolvedModelMetadata}

-- The router that is handed in: with or without the method `Routes`.
pub data AnyRouter : Type 0 where
  candidate_router : (AdaptRequest → Result (List Route)) → AnyRouter
  single_router : (AdaptRequest → Result Route) → AnyRouter

unfoldable pub candidates : AnyRouter → AdaptRequest → Result (List Route)
candidates (candidate_router routes) req = routes req
candidates (single_router route) req = elim (route req) [ ok r ↦ ok (r ∷ []) | err e ↦ err e ]

abbrev pub ExtensionMap : Type 0
ExtensionMap = Assoc String RawMessage

-- The maps that requests refer to; `next` is the first address that is not in use.
pub record Store : Type 0 where
  pub next : ℕ
  pub maps : Assoc ℕ ExtensionMap

-- `e.values[key]` of a map that may be nil
abbrev map_at : Store → Extensions → ExtensionMap
map_at store none = []
map_at store (some a) = elim (lookup a store.maps) [ none ↦ [] | some m ↦ m ]

unfoldable pub raw_value : Store → Extensions → String → Option RawMessage
raw_value store e key = lookup key (map_at store e)

-- `if e.values == nil { e.values = make(…) }`
unfoldable ensure_map : Store → Extensions → ℕ × Store
ensure_map store none =
    (store.next, record { next = suc store.next; maps = insert store.next [] store.maps })
ensure_map store (some a) = (a, store)

-- `Extensions.Set`, with what `json.Marshal` gave for the value
unfoldable pub set_extension : Store → Extensions → String → Option RawMessage → Extensions × Store
unfolding ensure_map
set_extension store e key none = let (a, store') = ensure_map store e in (some a, store')
set_extension store e key (some b) =
    let (a, store') = ensure_map store e in
    (some a, record store' { maps = insert a (insert key b (map_at store' (some a))) store'.maps })

abbrev pub ext_modeldb_resolved : String
ext_modeldb_resolved = "llmadapter.modeldb.resolved"

abbrev has_no_ids : ResolvedModelMetadata → Bool
has_no_ids meta = meta.service_id == "" && meta.wire_model_id == "" && meta.api_type == ""

module _ (marshal : ResolvedModelMetadata → Option RawMessage) where
  unfoldable set_resolved_model_metadata :
      Store → Extensions → ResolvedModelMetadata → Extensions × Store
  unfolding set_extension
  set_resolved_model_metadata store e meta =
      if has_no_ids meta
      then (e, store)
      else set_extension store e ext_modeldb_resolved (marshal meta)

  abbrev attach : Store → Extensions → Option ResolvedModelMetadata → Extensions × Store
  attach store e none = (e, store)
  attach store e (some meta) = set_resolved_model_metadata store e meta

  unfoldable pub request_for_route : Store → Request → Route → Request × Store
  unfolding set_resolved_model_metadata
  request_for_route store req route =
      let (e, store') = attach store req.extensions route.model_metadata in
      (
        record req {
          model = if not (route.native_model == "") then route.native_model else req.model;
          extensions = e;
        },
        store',
      )

-- `Error`: the last verb of the format stands for the wrapped error.
unfoldable pub error : Route → GoError → GoError
error route e = wrapped "provider %s/%s failed: %w" (route.provider_name ∷ route.target_api ∷ []) e

abbrev api_retryable : Option ApiError → Bool
api_retryable none = true
api_retryable (some e) = not (e.status_code == 400) && not (e.status_code == 422)

unfoldable pub retryable : GoError → Bool
retryable e = if is_unsupported e then false else api_retryable (as_api e)

-- `attempts` counts up from 0; `max_attempts` is a Go integer.
unfoldable pub reached_max_attempts : ℕ → ℕ → Bool
reached_max_attempts attempts max_attempts = Int64.is_pos max_attempts && leb max_attempts attempts
