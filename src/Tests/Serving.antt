-- ===== src/Tests/Serving.antt =====
-- Calls of the handler, of `RequestForRoute` and of the health tracker.
use llmadapter.Prelude.{
  ◌≤◌, ◌≡◌, ◌++◌, refl, true, not, Option, none, some, List, [], ◌∷◌, filter, string_eq, nat_eq,
}
use llmadapter.Prelude.Assoc.{lookup}
use llmadapter.Unified.Content.{RawMessage}
use llmadapter.Unified.Errors.{GoError, join, ok, err}
use llmadapter.Router.Types.{Route, ResolvedModelMetadata}
use llmadapter.RouteAttempt
use llmadapter.RouteAttempt.{
  AnyRouter, candidate_router, Store, ext_modeldb_resolved, raw_value, set_extension,
  request_for_route,
}
use llmadapter.RouteAttempt.Aliasing.{request_for_route_leak}
use llmadapter.Gateway.Health.{HealthTracker, mark_failure, order_by_health}
use llmadapter.Gateway.Health.Cooldown.{is_unhealthy, mark_failure-is_unhealthy}
use llmadapter.Gateway.Health.Ordering.{order_by_health-filter}
use llmadapter.Gateway.Handler.{World, Action, called, wrote_events, serve_http, new_handler_state}
use llmadapter.Gateway.Handler.Trace.{serve_http-final}
use llmadapter.Gateway.Handler.Limit.{calls, serve_http-max_attempts}
use llmadapter.Gateway.Handler.Fallback.{attempt_errors}
use llmadapter.Tests.{hello, hello_chat, route_of, metadata, unreachable}

abbrev marshalled : ResolvedModelMetadata → Option RawMessage
marshalled meta = some "{}"

abbrev no_maps : Store
no_maps = record { next = 0; maps = [] }

abbrev one_map : Store
one_map = record { next = 1; maps = (0, []) ∷ [] }

abbrev with_metadata : Route
with_metadata = record (route_of "first" 1) { model_metadata = some metadata }

request_for_route_leak_example :
    let req = record hello { extensions = some 0 } in
    let (sent₁, store₁) = request_for_route marshalled one_map req with_metadata in
    let (sent₂, store₂) = request_for_route marshalled store₁ req (route_of "second" 2) in
    (raw_value store₁ sent₁.extensions ext_modeldb_resolved ≡ some "{}")
    × (raw_value store₂ sent₂.extensions ext_modeldb_resolved ≡ some "{}")
    × (raw_value store₂ req.extensions ext_modeldb_resolved ≡ some "{}")
request_for_route_leak_example =
    request_for_route_leak marshalled one_map (record hello { extensions = some 0 }) with_metadata
      (route_of "second" 2) 0 metadata "{}" refl refl refl refl refl

abbrev tracker : HealthTracker
tracker = record { cooldown = 10; failures = [] }

abbrev later_failed : HealthTracker
later_failed = record {
  cooldown = 10;
  failures = ("second/openai.chat_completions/gpt-native", 90) ∷ [];
}

-- The first route has failed at 100, the second at 90.
mark_failure-is_unhealthy_example :
    (is_unhealthy
        (mark_failure 100 (some later_failed) (route_of "first" 1))
        (route_of "first" 3)
        105
      ≡ true)
    × (is_unhealthy
          (mark_failure 100 (some later_failed) (route_of "first" 1))
          (route_of "second" 2)
          105
        ≡ is_unhealthy (some later_failed) (route_of "second" 2) 105)
mark_failure-is_unhealthy_example = (
  mark_failure-is_unhealthy later_failed (route_of "first" 1) (route_of "first" 3) 100 105 refl
      (refl, refl) (refl, refl),
  mark_failure-is_unhealthy later_failed (route_of "first" 1) (route_of "second" 2) 100 105 refl
      (refl, refl) (refl, refl),
)

abbrev both : List Route
both = route_of "first" 1 ∷ route_of "second" 2 ∷ []

order_by_health-filter_example :
    (order_by_health 105 (some tracker) both).0
    ≡ filter (λ r. not (is_unhealthy (some tracker) r 105)) both
      ++ filter (λ r. is_unhealthy (some tracker) r 105) both
order_by_health-filter_example = order_by_health-filter 105 (some tracker) both

abbrev both_routes : AnyRouter
both_routes = candidate_router (λ req. ok both)

-- A world in which no client answers, and one in which each does.
abbrev silent : World
silent = record {
  respond = λ n client sent. err unreachable;
  write_events = λ n req events. record { wrote = true; err = none };
  now = λ n. n;
  marshal = marshalled;
}

abbrev talking : World
talking = record {
  respond = λ n client sent. ok [];
  write_events = λ n req events. record { wrote = true; err = none };
  now = λ n. n;
  marshal = marshalled;
}

abbrev nothing_more : List Action
nothing_more = []

serve_http-final_example : nothing_more ≡ []
unfolding serve_http lookup
serve_http-final_example =
    serve_http-final talking both_routes 0 (ok hello_chat) (some tracker) no_maps
      (called 1 (record hello { model = "gpt-native" }) ∷ []) nothing_more
      (wrote_events (route_of "first" 1) [] (record { wrote = true; err = none })) refl refl

serve_http-max_attempts_example :
    calls
      (serve_http silent both_routes 1
        (ok hello_chat)
        (new_handler_state (some tracker) no_maps)).trace
    ≤ 1
serve_http-max_attempts_example =
    serve_http-max_attempts silent both_routes 1 (ok hello_chat) (some tracker) no_maps refl

abbrev second_first : List Route
second_first = route_of "second" 2 ∷ route_of "first" 1 ∷ []

abbrev all_errors : GoError
all_errors = elim (join (attempt_errors (λ n. unreachable) 1 second_first)) [
  | none ↦ unreachable
  | some e ↦ e
]

-- The first route has failed, so the second is tried before it.
abbrev first_failed : HealthTracker
first_failed = record {
  cooldown = 10;
  failures = ("first/openai.chat_completions/gpt-native", 0) ∷ [];
}
