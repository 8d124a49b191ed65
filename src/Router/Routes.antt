-- ===== src/Router/Routes.antt =====
-- `StaticRouter` of router/router.go: `Routes`, `Route` and what they call. A router is its list
-- of static routes. Resolvers are functions of the configuration, parameters of the model.
use llmadapter.Prelude.{
  String, ◌<>◌, Bool, not, ◌&&◌, ◌||◌, Option, none, some, List, [], ◌∷◌, ◌++◌, map, any, ◌==◌,
  string_eq, if◌then◌else◌,
}
use llmadapter.Prelude.StableSort.{stable_sort}
use llmadapter.Unified.Errors.{GoError, formatted, Result, ok, err, ◌>>=◌}
use llmadapter.Router.Types.{
  AdaptRequest, Client, ResolvedModelMetadata, CapabilitySet, Route, ModelResolution, ModelResolver,
  StaticRoute,
}
use llmadapter.Router.Capabilities.{capability_mismatch}
use llmadapter.Router.Rank.{ranks_above}

pub record ResolvedStaticRoute : Type 0 where
  pub route : StaticRoute
  pub native_model : String
  pub capabilities : CapabilitySet
  pub model_metadata : Option ResolvedModelMetadata

-- The condition of the first `continue` on the source API, negated.
abbrev pub source_matches : AdaptRequest → StaticRoute → Bool
source_matches req route =
    req.source_api == "" || route.source_api == "" || route.source_api == req.source_api

unfoldable pub has_exact_route : List StaticRoute → AdaptRequest → Bool
has_exact_route routes req =
    any
      (λ route.
        source_matches req route
        && (route.model == req.unified.model || route.native_model == req.unified.model))
      routes

unfoldable route_capabilities : StaticRoute → AdaptRequest → CapabilitySet
route_capabilities route req = elim route.capability_resolver [
  | none ↦ route.endpoint.capabilities
  | some resolver ↦ resolver req route.endpoint
]

-- One turn of the loop of `Routes`.
pub data Verdict : Type 0 where
  passed_over : Verdict
  no_client : Verdict
  skipped : (note : String) → Verdict
  candidate : ResolvedStaticRoute → Verdict

abbrev skip_note : StaticRoute → String → String
skip_note route reason =
    route.endpoint.provider_name <> ("/" <> (route.endpoint.api_kind <> (": " <> reason)))

-- The end of the loop body: the capability check.
unfoldable pub check_capabilities : AdaptRequest → ResolvedStaticRoute → Verdict
check_capabilities req c =
    let reason = capability_mismatch req.unified c.capabilities c.model_metadata in
    if not (reason == "") then skipped (skip_note c.route reason) else candidate c

abbrev or_default {ℓ} : {A : Type ℓ} → A → Option A → A
or_default d none = d
or_default d (some a) = a

-- What the model resolver changes, where there is one.
abbrev pub apply_resolution : ResolvedStaticRoute → ModelResolution → ResolvedStaticRoute
apply_resolution c resolution = record c {
  native_model =
      if not (resolution.native_model == "") then resolution.native_model else c.native_model;
  capabilities = or_default c.capabilities resolution.capabilities;
  model_metadata = elim resolution.model_metadata [
    | none ↦ c.model_metadata
    | some meta ↦ some meta
  ];
}

unfoldable pub resolve_model : AdaptRequest → ResolvedStaticRoute → Option ModelResolver → Verdict
unfolding check_capabilities
resolve_model req c none = check_capabilities req c
resolve_model req c (some resolver) = elim (resolver req c.route.endpoint) [
  | none ↦ skipped (skip_note c.route "model unavailable")
  | some resolution ↦ check_capabilities req (apply_resolution c resolution)
]

unfoldable pub initial_candidate : AdaptRequest → StaticRoute → ResolvedStaticRoute
unfolding route_capabilities
initial_candidate req route = record {
  route = route;
  native_model = if route.native_model == "" then req.unified.model else route.native_model;
  capabilities = route_capabilities route req;
  model_metadata = route.model_metadata;
}

-- `route.Endpoint.Client == nil`
abbrev pub client_verdict : Option Client → Verdict → Verdict
client_verdict none v = no_client
client_verdict (some client) v = v

unfoldable pub consider : AdaptRequest → Bool → StaticRoute → Verdict
unfolding resolve_model initial_candidate
consider req exact route =
    if exact && route.dynamic_models
    then passed_over
    else if not (source_matches req route)
    then passed_over
    else if not (route.model == "") && not (route.model == req.unified.model)
    then passed_over
    else client_verdict route.endpoint.client
        (resolve_model req (initial_candidate req route) route.model_resolver)

pub record Gathered : Type 0 where
  pub skipped : List String
  pub candidates : List ResolvedStaticRoute

abbrev pub no_client_error : AdaptRequest → GoError
no_client_error req = formatted "route for model %q has no client" (req.unified.model ∷ [])

-- The loop of `Routes` from its two accumulators.
unfoldable pub gather : AdaptRequest → Bool → Gathered → List StaticRoute → Result Gathered
gather req exact g [] = ok g
gather req exact g (route ∷ routes) = elim (consider req exact route) [
  | passed_over ↦ gather req exact g routes
  | no_client ↦ err (no_client_error req)
  | skipped note ↦ gather req exact (record g { skipped = g.skipped ++ note ∷ [] }) routes
  | candidate c ↦ gather req exact (record g { candidates = g.candidates ++ c ∷ [] }) routes
]

unfoldable pub route_from_static : AdaptRequest → ResolvedStaticRoute → Route
route_from_static req resolved = record {
  source_api = if req.source_api == "" then resolved.route.source_api else req.source_api;
  target_api = resolved.route.endpoint.api_kind;
  target_family = resolved.route.endpoint.family;
  provider_name = resolved.route.endpoint.provider_name;
  public_model = req.unified.model;
  native_model = resolved.native_model;
  client = resolved.route.endpoint.client;
  capabilities = resolved.capabilities;
  consumer_continuation = resolved.route.endpoint.consumer_continuation;
  internal_continuation = resolved.route.endpoint.internal_continuation;
  transport = resolved.route.endpoint.transport;
  model_metadata = resolved.model_metadata;
}

-- `strings.Join(skipped, "; ")`
abbrev join_notes : List String → String
join_notes [] = ""
join_notes (note ∷ []) = note
join_notes (note ∷ other ∷ notes) = note <> ("; " <> join_notes (other ∷ notes))

unfoldable pub less : AdaptRequest → ResolvedStaticRoute → ResolvedStaticRoute → Bool
unfolding ranks_above
less req a b = ranks_above req a.route b.route

abbrev pub no_route_error : AdaptRequest → List String → GoError
no_route_error req [] =
    formatted "no route for api %q model %q" (req.source_api ∷ req.unified.model ∷ [])
no_route_error req notes =
    formatted "no route for api %q model %q satisfies required capabilities: %s"
      (req.source_api ∷ req.unified.model ∷ join_notes notes ∷ [])

-- What follows the loop.
unfoldable pub ranked : AdaptRequest → Gathered → Result (List Route)
unfolding less route_from_static
ranked req g = elim g.candidates [
  | [] ↦ err (no_route_error req g.skipped)
  | c ∷ cs ↦ ok (map (route_from_static req) (stable_sort (less req) g.candidates))
]

abbrev pub nothing_gathered : Gathered
nothing_gathered = record { skipped = []; candidates = [] }

unfoldable pub routes : List StaticRoute → AdaptRequest → Result (List Route)
unfolding has_exact_route consider gather ranked
routes router req = do
  g ← gather req (has_exact_route router req) nothing_gathered router
  ranked req g

-- `Route`: the first of `Routes`. `routes[0]` of no routes would panic, which is the last case.
pub data Picked : Type 0 where
  picked : Route → Picked
  failed : GoError → Picked
  index_out_of_range : Picked

abbrev pub first_of_routes : Result (List Route) → Picked
first_of_routes (ok (r ∷ rs)) = picked r
first_of_routes (ok []) = index_out_of_range
first_of_routes (err e) = failed e

unfoldable pub route : List StaticRoute → AdaptRequest → Picked
unfolding routes
route router req = first_of_routes (routes router req)
