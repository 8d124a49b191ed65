-- ===== src/Gateway/Handler.antt =====
-- `Handler.ServeHTTP` of gateway/http.go. The world around the handler is a parameter: what the
-- endpoint decodes, what each client answers, how the writing of each response goes, and what the
-- clock reads. The handler's effects are its trace, in order.
pub mod Trace
pub mod Fallback
pub mod Limit
use llmadapter.Prelude.{
  ℕ, suc, String, Bool, true, false, not, Option, none, some, List, [], ◌∷◌, ◌++◌, if◌then◌else◌,
}
use llmadapter.Unified.Content.{RawMessage}
use llmadapter.Unified.Request.{Request}
use llmadapter.Unified.Event.{Event}
use llmadapter.Unified.Errors.{GoError, join, Result, ok, err}
use llmadapter.Router.Types.{AdaptRequest, Client, Route, ResolvedModelMetadata}
use llmadapter.RouteAttempt
use llmadapter.RouteAttempt.{AnyRouter, Store}
use llmadapter.Gateway.Health.{HealthTracker, mark_failure, mark_success, order_by_health}

-- What `WriteEvents` did: whether it wrote any of the response, and its error.
pub record Written : Type 0 where
  pub wrote : Bool
  pub err : Option GoError

-- Calls are numbered by the attempt, readings of the clock by their count.
pub record World : Type 0 where
  pub respond : ℕ → Client → Request → Result (List Event)
  pub write_events : ℕ → AdaptRequest → List Event → Written
  pub now : ℕ → ℕ
  pub marshal : ResolvedModelMetadata → Option RawMessage

pub data Action : Type 0 where
  called : (client : Client) (sent : Request) → Action
  wrote_events : (route : Route) (events : List Event) (result : Written) → Action
  wrote_error : GoError → Action
  -- the call of a method of a nil client
  panicked : Action

pub record HandlerState : Type 0 where
  pub health : Option HealthTracker
  pub store : Store
  pub ticks : ℕ
  pub attempts : ℕ
  pub failures : List GoError
  pub trace : List Action

-- How a turn of the loop ends: `continue`, `break` or `return`.
pub data Flow : Type 0 where
  continue : HandlerState → Flow
  break : HandlerState → Flow
  return : HandlerState → Flow

abbrev act : Action → HandlerState → HandlerState
act a s = record s { trace = s.trace ++ a ∷ [] }

module _ (world : World) where
  unfoldable fail_health : Route → HandlerState → HandlerState
  unfolding mark_failure
  fail_health route s = record s {
    health = mark_failure (world.now s.ticks) s.health route;
    ticks = suc s.ticks;
  }

  -- An error of an attempt before the response has started.
  unfoldable fail_attempt : Route → GoError → HandlerState → Flow
  unfolding fail_health RouteAttempt.error RouteAttempt.retryable
  fail_attempt route e s =
      let s' = fail_health route s in
      let s'' = record s' { failures = s'.failures ++ RouteAttempt.error route e ∷ [] } in
      if RouteAttempt.retryable e then continue s'' else break s''

  abbrev after_write : Route → Written → HandlerState → Flow
  after_write route w s = elim w.err [
    | none ↦ return (record s { health = mark_success s.health route })
    | some e ↦ if w.wrote then return (fail_health route s) else fail_attempt route e s
  ]

  abbrev after_call : Route → AdaptRequest → Result (List Event) → HandlerState → Flow
  after_call route attempt (err e) s = fail_attempt route e s
  after_call route attempt (ok events) s =
      let w = world.write_events s.attempts attempt events in
      after_write route w (act (wrote_events route events w) s)

  -- The body of the loop behind the test on the attempts, which it has counted.
  unfoldable attempt_client : AdaptRequest → Request → Route → Option Client → HandlerState → Flow
  unfolding fail_attempt mark_success
  attempt_client req sent route none s = return (act panicked s)
  attempt_client req sent route (some client) s =
      after_call route (record req { unified = sent }) (world.respond s.attempts client sent)
        (act (called client sent) s)

  unfoldable attempt_route : AdaptRequest → Route → HandlerState → Flow
  unfolding attempt_client RouteAttempt.request_for_route
  attempt_route req route s =
      let (sent, store) = RouteAttempt.request_for_route world.marshal s.store req.unified route in
      attempt_client req sent route route.client
        (record s { attempts = suc s.attempts; store = store })

  -- What follows the loop: the joined failures are written, if there are any.
  abbrev write_failures : Option GoError → HandlerState → HandlerState
  write_failures none s = s
  write_failures (some e) s = act (wrote_error e) s

  unfoldable give_up : HandlerState → HandlerState
  unfolding join
  give_up s = write_failures (join s.failures) s

  unfoldable pub attempt_all : ℕ → AdaptRequest → List Route → HandlerState → HandlerState
  unfolding attempt_route give_up RouteAttempt.reached_max_attempts
  attempt_all max_attempts req [] s = give_up s
  attempt_all max_attempts req (route ∷ routes) s =
      elim (RouteAttempt.reached_max_attempts s.attempts max_attempts) [
        | true ↦ give_up s
        | false ↦ elim (attempt_route req route s) [
          | continue s' ↦ attempt_all max_attempts req routes s'
          | break s' ↦ give_up s'
          | return s' ↦ s'
        ]
      ]

  unfoldable pub serve_http : AnyRouter → ℕ → Result AdaptRequest → HandlerState → HandlerState
  unfolding RouteAttempt.candidates order_by_health attempt_all
  serve_http router max_attempts (err e) s = act (wrote_error e) s
  serve_http router max_attempts (ok req) s = elim (RouteAttempt.candidates router req) [
    | err e ↦ act (wrote_error e) s
    | ok routes ↦
        let (ordered, health) = order_by_health (world.now s.ticks) s.health routes in
        attempt_all max_attempts req ordered (record s { health = health; ticks = suc s.ticks })
  ]

abbrev pub new_handler_state : Option HealthTracker → Store → HandlerState
new_handler_state health store = record {
  health = health;
  store = store;
  ticks = 0;
  attempts = 0;
  failures = [];
  trace = [];
}
