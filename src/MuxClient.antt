-- ===== src/MuxClient.antt =====
-- muxclient/muxclient.go. The clients and `json.Marshal` are parameters; the events of an answer
-- are the list of what its channel gives until it is closed, in a context that is not cancelled.
pub mod RouteEvents
pub mod Attempts
pub mod Single
use llmadapter.Prelude.{
  ℕ, suc, String, Bool, true, false, not, ◌&&◌, ◌||◌, Option, none, some, List, [], ◌∷◌, ◌++◌,
  if◌then◌else◌, ◌==◌, string_eq, is_some,
}
use llmadapter.Prelude.Int64
use llmadapter.Unified.Kinds.{ApiKind}
use llmadapter.Unified.Content.{RawMessage}
use llmadapter.Unified.Request.{Request}
use llmadapter.Unified.Event.{
  Event, RouteEvent, ProviderExecutionEvent, message_start, message_done, content_block_start,
  content_block_done, text_delta, reasoning_delta, refusal_delta, tool_call_start,
  tool_call_args_delta, tool_call_done, citation, usage, quota_usage, completed, warning, raw,
  route, provider_execution, error,
}
use llmadapter.Unified.Errors.{GoError, formatted, join, Result, ok, err}
use llmadapter.Router.Types.{AdaptRequest, Client as RouteClient, Route, ResolvedModelMetadata}
use llmadapter.RouteAttempt
use llmadapter.RouteAttempt.{AnyRouter, Store}

pub record Client : Type 0 where
  pub router : Option AnyRouter
  pub source : ApiKind
  pub fallback : Bool
  pub max_attempts : ℕ

-- `Option`: a function that changes the client; `none` is a nil one.
abbrev ClientOption : Type 0
ClientOption = Option (Client → Client)

abbrev apply_options : List ClientOption → Client → Client
apply_options [] c = c
apply_options (none ∷ opts) c = apply_options opts c
apply_options (some opt ∷ opts) c = apply_options opts (opt c)

unfoldable pub new : Option AnyRouter → List ClientOption → Client
new router opts =
    apply_options opts (record { router = router; source = ""; fallback = true; max_attempts = 0 })

unfoldable with_source_api : ApiKind → ClientOption
with_source_api api = some (λ c. if not (api == "") then record c { source = api } else c)

unfoldable with_fallback : Bool → ClientOption
with_fallback enabled = some (λ c. record c { fallback = enabled })

unfoldable with_max_attempts : ℕ → ClientOption
with_max_attempts max = some (λ c. if Int64.is_pos max then record c { max_attempts = max } else c)

abbrev route_event : Route → RouteEvent
route_event r = record {
  source_api = r.source_api;
  target_api = r.target_api;
  target_family = r.target_family;
  provider_name = r.provider_name;
  public_model = r.public_model;
  native_model = r.native_model;
  consumer_continuation = r.consumer_continuation;
  internal_continuation = r.internal_continuation;
  transport = r.transport;
}

-- What a `ProviderExecutionEvent` changes in the route event.
abbrev merge_execution : ProviderExecutionEvent → RouteEvent → RouteEvent
merge_execution m e = record e {
  internal_continuation =
      if not (m.internal_continuation == "")
      then m.internal_continuation
      else e.internal_continuation;
  transport = if not (m.transport == "") then m.transport else e.transport;
}

abbrev as_execution : Event → Option ProviderExecutionEvent
as_execution (provider_execution m) = some m
as_execution _ = none

abbrev send_route_event : RouteEvent → Bool → List Event
send_route_event e sent = if sent then [] else route e ∷ []

-- The loop of `prependRouteEvent`, with `routeEvent` and `routeEventSent`.
unfoldable forward : RouteEvent → Bool → List Event → List Event
forward e sent [] = send_route_event e sent
forward e sent (ev ∷ events) =
    let e' : RouteEvent = elim (as_execution ev) [ some m ↦ merge_execution m e | none ↦ e ] in
    let rest = forward e' true events in
    send_route_event e' sent ++ (if is_some (as_execution ev) && not sent then rest else ev ∷ rest)

unfoldable pub prepend_route_event : Route → List Event → List Event
unfolding forward
prepend_route_event r events = forward (route_event r) false events

-- A call of a client, as the loop of `Request` leaves it behind.
pub record Attempt : Type 0 where
  pub route : Route
  pub client : RouteClient
  pub sent : Request

-- The variables of the loop. `panicked` is a call of a nil client.
pub record Progress : Type 0 where
  pub store : Store
  pub attempts : ℕ
  pub failures : List GoError
  pub made : List Attempt

pub data Outcome : Type 0 where
  returned : Result (List Event) → Outcome
  panicked : Outcome

-- A call is numbered by the attempt.
module _ (marshal : ResolvedModelMetadata → Option RawMessage)
    (respond : ℕ → RouteClient → Request → Result (List Event)) where
  -- What follows the loop.
  abbrev joined_or : GoError → Option GoError → Outcome
  joined_or other none = returned (err other)
  joined_or other (some e) = returned (err e)

  unfoldable pub finish : Client → Request → Progress → Outcome × Progress
  unfolding join
  finish c req p = (
    joined_or
        (formatted "muxclient: no route attempted for api %q model %q" (c.source ∷ req.model ∷ []))
        (join p.failures),
    p,
  )

  -- The loop of `Request`.
  unfoldable pub attempt_all : Client → Request → List Route → Progress → Outcome × Progress
  unfolding finish RouteAttempt.request_for_route RouteAttempt.reached_max_attempts
      RouteAttempt.error RouteAttempt.retryable prepend_route_event
  attempt_all c req [] p = finish c req p
  attempt_all c req (r ∷ routes) p =
      elim (RouteAttempt.reached_max_attempts p.attempts c.max_attempts) [
        | true ↦ finish c req p
        | false ↦ elim r.client [
          | none ↦ (panicked, p)
          | some client ↦
              let (sent, store) = RouteAttempt.request_for_route marshal p.store req r in
              let n = suc p.attempts in
              let made = p.made ++ record { route = r; client = client; sent = sent } ∷ [] in
              elim (respond n client sent) [
                | ok events ↦ (
                  returned (ok (prepend_route_event r events)),
                  record p { store = store; attempts = n; made = made },
                )
                | err e ↦
                    let p' : Progress = record {
                      store = store;
                      attempts = n;
                      failures = p.failures ++ RouteAttempt.error r e ∷ [];
                      made = made;
                    } in
                    elim (not c.fallback || not (RouteAttempt.retryable e)) [
                      | true ↦ finish c req p'
                      | false ↦ attempt_all c req routes p'
                    ]
              ]
        ]
      ]

  unfoldable pub start : Option (Client × AnyRouter) → Request → Progress → Outcome × Progress
  unfolding attempt_all RouteAttempt.candidates
  start none req p = (returned (err (formatted "muxclient: router is required" [])), p)
  start (some (c, router)) req p =
      elim (RouteAttempt.candidates router (record { source_api = c.source; unified = req })) [
        | err e ↦ (returned (err e), p)
        | ok routes ↦ attempt_all c req routes p
      ]

  -- `c == nil || c.router == nil`
  abbrev with_router : Option Client → Option (Client × AnyRouter)
  with_router none = none
  with_router (some c) = elim c.router [ none ↦ none | some router ↦ some (c, router) ]

  -- `Request`, with the maps that the caller's requests refer to.
  unfoldable pub request : Option Client → Request → Store → Outcome × Progress
  unfolding start
  request c req store =
      start (with_router c) req (record { store = store; attempts = 0; failures = []; made = [] })
