-- ===== src/Gateway/Handler/Trace.antt =====
-- What the handler may do in one call: how often it calls a client, and that a response is the
-- last thing it writes.
use llmadapter.Prelude.{
  ℕ, ◌⊎◌, ◌≡◌, refl, sym, ◌∙◌, Bool, true, false, Option, none, some, List, [], ◌∷◌, ◌++◌,
  Bool-cases, inl, inr, All, All-append,
}
use llmadapter.Unified.Request.{Request}
use llmadapter.Unified.Event.{Event}
use llmadapter.Unified.Errors.{GoError, join, Result, ok, err}
use llmadapter.Router.Types.{AdaptRequest, Client, Route}
use llmadapter.RouteAttempt
use llmadapter.RouteAttempt.{AnyRouter, Store}
use llmadapter.Gateway.Health.{HealthTracker}
use llmadapter.Unified.Errors.Cases.{Result-cases}
use llmadapter.Gateway.Handler.{
  World, Written, Action, called, wrote_events, wrote_error, panicked, HandlerState, Flow, continue,
  break, return, act, fail_attempt, fail_health, after_write, after_call, attempt_client,
  attempt_route, give_up, write_failures, attempt_all, serve_http, new_handler_state,
}

-- The answers after which the handler must do nothing: a response that has started, an error
-- response, and a panic.
abbrev is_final : Action → Bool
is_final (called c r) = false
is_final (wrote_events r e w) = elim w.err [ none ↦ true | some e' ↦ w.wrote ]
is_final (wrote_error e) = true
is_final panicked = true

abbrev Open : Action → Type 0
Open a = is_final a ≡ false

tail_eq : {A : Type 0} {x y : A} {xs ys : List A} → x ∷ xs ≡ y ∷ ys → xs ≡ ys
tail_eq e = cc

-- Nothing final yet.
abbrev IsOpen : HandlerState → Type 0
IsOpen s = All Open s.trace

-- At most the last action is final.
abbrev IsClosed : HandlerState → Type 0
IsClosed s = (pre : List Action) × (a : Action) × (s.trace ≡ pre ++ a ∷ []) × All Open pre

abbrev Ended : HandlerState → Type 0
Ended s = IsOpen s ⊎ IsClosed s

abbrev FlowOpen : Flow → Type 0
FlowOpen (continue s) = IsOpen s
FlowOpen (break s) = IsOpen s
FlowOpen (return s) = Ended s

abbrev state_of : Flow → HandlerState
state_of (continue s) = s
state_of (break s) = s
state_of (return s) = s

closes : (a : Action) (s : HandlerState) → IsOpen s → Ended (act a s)
closes a s h = inr (s.trace, a, refl, h)

act-IsOpen : (a : Action) (s : HandlerState) → is_final a ≡ false → IsOpen s → IsOpen (act a s)
act-IsOpen a s e h = All-append Open s.trace (a ∷ []) h (e, tt)

module _ (world : World) where
  fail_attempt-open :
      (route : Route) (e : GoError) (s : HandlerState)
      → IsOpen s
      → FlowOpen (fail_attempt world route e s)
  unfolding fail_attempt
  fail_attempt-open route e s h = elim (Bool-cases (RouteAttempt.retryable e)) [
    | inl stop ↦ rw stop h
    | inr go_on ↦ rw go_on h
  ]

  written :
      (route : Route) (events : List Event) (b : Bool) (e : Option GoError) (s : HandlerState)
      → IsOpen s
      → let w : Written = record { wrote = b; err = e } in
        FlowOpen (after_write world route w (act (wrote_events route events w) s))
  unfolding fail_health
  written route events b none s h =
      closes (wrote_events route events (record { wrote = b; err = none })) s h
  written route events true (some e) s h =
      closes (wrote_events route events (record { wrote = true; err = some e })) s h
  written route events false (some e) s h =
      let a = wrote_events route events (record { wrote = false; err = some e }) in
      fail_attempt-open route e (act a s) (act-IsOpen a s refl h)

  after_call-open :
      (route : Route) (attempt : AdaptRequest) (r : Result (List Event)) (s : HandlerState)
      → IsOpen s
      → FlowOpen (after_call world route attempt r s)
  after_call-open route attempt (err e) s h = fail_attempt-open route e s h
  after_call-open route attempt (ok events) s h =
      let w = world.write_events s.attempts attempt events in written route events w.wrote w.err s h

  attempt_client-open :
      (req : AdaptRequest) (sent : Request) (route : Route) (c : Option Client) (s : HandlerState)
      → IsOpen s
      → FlowOpen (attempt_client world req sent route c s)
  unfolding attempt_client
  attempt_client-open req sent route none s h = closes panicked s h
  attempt_client-open req sent route (some c) s h =
      after_call-open route _ _ (act (called c sent) s) (act-IsOpen (called c sent) s refl h)

  attempt_route-open :
      (req : AdaptRequest) (route : Route) (s : HandlerState)
      → IsOpen s
      → FlowOpen (attempt_route world req route s)
  unfolding attempt_route
  attempt_route-open req route s h = attempt_client-open req _ route route.client _ h

  write_failures-Ended :
      (e : Option GoError) (s : HandlerState) → IsOpen s → Ended (write_failures world e s)
  write_failures-Ended none s h = inl h
  write_failures-Ended (some e) s h = closes (wrote_error e) s h

  give_up-Ended : (s : HandlerState) → IsOpen s → Ended (give_up world s)
  unfolding give_up
  give_up-Ended s h = write_failures-Ended (join s.failures) s h

  after_route :
      (max_attempts : ℕ) (req : AdaptRequest) (routes : List Route) (flow : Flow)
      → FlowOpen flow
      → ((s : HandlerState) → IsOpen s → Ended (attempt_all world max_attempts req routes s))
      → Ended (elim flow [
        | continue s' ↦ attempt_all world max_attempts req routes s'
        | break s' ↦ give_up world s'
        | return s' ↦ s'
      ])
  after_route max_attempts req routes (continue s) h rest = rest s h
  after_route max_attempts req routes (break s) h rest = give_up-Ended s h
  after_route max_attempts req routes (return s) h rest = h

  attempt_all-Ended :
      (max_attempts : ℕ) (req : AdaptRequest) (routes : List Route) (s : HandlerState)
      → IsOpen s
      → Ended (attempt_all world max_attempts req routes s)
  unfolding attempt_all
  attempt_all-Ended max_attempts req [] s h = give_up-Ended s h
  attempt_all-Ended max_attempts req (route ∷ routes) s h =
      elim (Bool-cases (RouteAttempt.reached_max_attempts s.attempts max_attempts)) [
        | inl stop ↦ rw (attempt_all, stop) (give_up-Ended s h)
        | inr go_on ↦
            rw (attempt_all, go_on)
              (after_route max_attempts req routes (attempt_route world req route s)
                (attempt_route-open req route s h) (attempt_all-Ended max_attempts req routes))
      ]

  serve_http-Ended :
      (router : AnyRouter) (max_attempts : ℕ) (decoded : Result AdaptRequest) (s : HandlerState)
      → IsOpen s
      → Ended (serve_http world router max_attempts decoded s)
  unfolding serve_http
  serve_http-Ended router max_attempts (err e) s h = closes (wrote_error e) s h
  serve_http-Ended router max_attempts (ok req) s h =
      elim (Result-cases (RouteAttempt.candidates router req)) [
        | inl (e, p) ↦ rw (serve_http, p) (closes (wrote_error e) s h)
        | inr (routes, p) ↦ rw (serve_http, p) (attempt_all-Ended max_attempts req _ _ h)
      ]

-- What follows a final action in a list that is closed by its last one.
last_only :
    (xs pre post : List Action) (b a : Action)
    → All Open xs
    → xs ++ b ∷ [] ≡ pre ++ a ∷ post
    → is_final a ≡ true
    → post ≡ []
last_only [] [] post b a h e f = cc
last_only [] (p ∷ []) post b a h e f = cc
last_only [] (p ∷ q ∷ pre) post b a h e f = cc
last_only (x ∷ xs) [] post b a h e f = absurd (cc (h.0, e, f))
last_only (x ∷ xs) (p ∷ pre) post b a h e f = last_only xs pre post b a h.1 (tail_eq e) f

none_final :
    (xs pre post : List Action) (a : Action)
    → All Open xs
    → xs ≡ pre ++ a ∷ post
    → is_final a ≡ true
    → post ≡ []
none_final [] [] post a h e f = cc
none_final [] (p ∷ pre) post a h e f = cc
none_final (x ∷ xs) [] post a h e f = absurd (cc (h.0, e, f))
none_final (x ∷ xs) (p ∷ pre) post a h e f = none_final xs pre post a h.1 (tail_eq e) f

-- In one call of the handler, whatever the routes, the clients and the writing of the responses
-- do, nothing follows a final action: once a response has started, has been written without an
-- error, or has been answered by an error, the handler calls no client and writes nothing more.
pub serve_http-final :
    (world : World) (router : AnyRouter) (max_attempts : ℕ) (decoded : Result AdaptRequest)
    (health : Option HealthTracker) (store : Store) (pre post : List Action) (a : Action)
    → (serve_http world router max_attempts decoded (new_handler_state health store)).trace
      ≡ pre ++ a ∷ post
    → is_final a ≡ true
    → post ≡ []
serve_http-final world router max_attempts decoded health store pre post a e f =
    elim (serve_http-Ended world router max_attempts decoded (new_handler_state health store) tt) [
      | inl h ↦ none_final _ pre post a h e f
      | inr (xs, b, p, h) ↦ last_only xs pre post b a h (sym p ∙ e) f
    ]
