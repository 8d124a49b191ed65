-- ===== src/Gateway/Handler/Limit.antt =====
-- `MaxAttempts` bounds the calls of clients.
use llmadapter.Prelude.{
  ℕ, suc, ◌+◌, ◌≤◌, ◌≡◌, refl, Bool, true, false, Option, none, some, List, [], ◌∷◌, ◌++◌, arith,
  Bool-cases, inl, inr,
}
use llmadapter.Prelude.Int64
use llmadapter.Unified.Request.{Request}
use llmadapter.Unified.Event.{Event}
use llmadapter.Unified.Errors.{GoError, join, Result, ok, err}
use llmadapter.Router.Types.{AdaptRequest, Client, Route}
use llmadapter.RouteAttempt
use llmadapter.RouteAttempt.{AnyRouter, Store}
use llmadapter.Gateway.Health.{HealthTracker, order_by_health}
use llmadapter.Gateway.Handler.{
  World, Written, Action, called, wrote_events, wrote_error, panicked, HandlerState, Flow, continue,
  break, return, act, fail_attempt, fail_health, after_write, after_call, attempt_client,
  attempt_route, give_up, write_failures, attempt_all, serve_http, new_handler_state,
}
use llmadapter.Unified.Errors.Cases.{Result-cases}

-- The calls of a client, that of a nil client included.
abbrev is_call : Action → ℕ
is_call (called c r) = 1
is_call (wrote_events r e w) = 0
is_call (wrote_error e) = 0
is_call panicked = 1

abbrev pub calls : List Action → ℕ
calls [] = 0
calls (x ∷ xs) = is_call x + calls xs

calls-append : (xs ys : List Action) → calls (xs ++ ys) ≡ calls xs + calls ys
calls-append [] ys = omega arith
calls-append (x ∷ xs) ys = omega (arith, calls-append xs ys)

abbrev Counts : ℕ → HandlerState → Type 0
Counts n s = (calls s.trace ≤ n) × (s.attempts ≡ n)

abbrev state_of : Flow → HandlerState
state_of (continue s) = s
state_of (break s) = s
state_of (return s) = s

adds :
    (n : ℕ) (a : Action) (s : HandlerState)
    → calls s.trace + is_call a ≤ n
    → calls (act a s).trace ≤ n
adds n a s h = omega (arith, calls-append s.trace (a ∷ []), h)

module _ (world : World) where
  fail_attempt-Counts :
      (n : ℕ) (route : Route) (e : GoError) (s : HandlerState)
      → Counts n s
      → Counts n (state_of (fail_attempt world route e s))
  unfolding fail_attempt fail_health
  fail_attempt-Counts n route e s h = elim (Bool-cases (RouteAttempt.retryable e)) [
    | inl stop ↦ rw stop h
    | inr go_on ↦ rw go_on h
  ]

  written :
      (n : ℕ) (route : Route) (b : Bool) (e : Option GoError) (s : HandlerState)
      → Counts n s
      → let w : Written = record { wrote = b; err = e } in
        Counts n (state_of (after_write world route w s))
  unfolding fail_health
  written n route b none s h = h
  written n route true (some e) s h = h
  written n route false (some e) s h = fail_attempt-Counts n route e s h

  after_call-Counts :
      (n : ℕ) (route : Route) (attempt : AdaptRequest) (r : Result (List Event)) (s : HandlerState)
      → Counts n s
      → Counts n (state_of (after_call world route attempt r s))
  after_call-Counts n route attempt (err e) s h = fail_attempt-Counts n route e s h
  after_call-Counts n route attempt (ok events) s h =
      let w = world.write_events s.attempts attempt events in
      let a = wrote_events route events w in
      written n route w.wrote w.err (act a s) (adds n a s (omega (arith, h.0)), h.1)

  attempt_client-Counts :
      (n : ℕ) (req : AdaptRequest) (sent : Request) (route : Route) (c : Option Client)
      (s : HandlerState)
      → suc (calls s.trace) ≤ n
      → s.attempts ≡ n
      → Counts n (state_of (attempt_client world req sent route c s))
  unfolding attempt_client
  attempt_client-Counts n req sent route none s h e = (adds n panicked s (omega (arith, h)), e)
  attempt_client-Counts n req sent route (some c) s h e =
      after_call-Counts n route _ _ (act (called c sent) s)
        (adds n (called c sent) s (omega (arith, h)), e)

  attempt_route-Counts :
      (req : AdaptRequest) (route : Route) (s : HandlerState)
      → calls s.trace ≤ s.attempts
      → Counts (suc s.attempts) (state_of (attempt_route world req route s))
  unfolding attempt_route
  attempt_route-Counts req route s h =
      attempt_client-Counts (suc s.attempts) req _ route route.client _ (omega (arith, h)) refl

  give_up-calls :
      (n : ℕ) (e : Option GoError) (s : HandlerState)
      → calls s.trace ≤ n
      → calls (write_failures world e s).trace ≤ n
  give_up-calls n none s h = h
  give_up-calls n (some e) s h = adds n (wrote_error e) s (omega (arith, h))

  after_route :
      (n max_attempts : ℕ) (req : AdaptRequest) (routes : List Route) (flow : Flow)
      → Counts n (state_of flow)
      → n ≤ max_attempts
      → ((s : HandlerState)
          → calls s.trace ≤ s.attempts
          → s.attempts ≤ max_attempts
          → calls (attempt_all world max_attempts req routes s).trace ≤ max_attempts)
      → calls
          (elim flow as (λ x. HandlerState) [
            | continue s' ↦ attempt_all world max_attempts req routes s'
            | break s' ↦ give_up world s'
            | return s' ↦ s'
          ]).trace
        ≤ max_attempts
  unfolding give_up
  after_route n m req routes (continue s) h hn rest =
      rest s (omega (arith, h.0, h.1)) (omega (arith, h.1, hn))
  after_route n m req routes (break s) h hn rest =
      give_up-calls m (join s.failures) s (omega (arith, h.0, hn))
  after_route n m req routes (return s) h hn rest = omega (arith, h.0, hn)

  -- The test `ReachedMaxAttempts` has failed.
  below :
      (attempts m : ℕ)
      → Int64.is_pos m ≡ true
      → RouteAttempt.reached_max_attempts attempts m ≡ false
      → suc attempts ≤ m
  unfolding RouteAttempt.reached_max_attempts
  below attempts m hm h = ground (arith, hm, h)

  attempt_all-calls :
      (max_attempts : ℕ) (req : AdaptRequest) (routes : List Route) (s : HandlerState)
      → Int64.is_pos max_attempts ≡ true
      → calls s.trace ≤ s.attempts
      → s.attempts ≤ max_attempts
      → calls (attempt_all world max_attempts req routes s).trace ≤ max_attempts
  unfolding attempt_all give_up
  attempt_all-calls m req [] s hm h ha = give_up-calls m (join s.failures) s (omega (arith, h, ha))
  attempt_all-calls m req (route ∷ routes) s hm h ha =
      elim (Bool-cases (RouteAttempt.reached_max_attempts s.attempts m)) [
        | inl stop ↦
            rw (attempt_all, stop) (give_up-calls m (join s.failures) s (omega (arith, h, ha)))
        | inr go_on ↦
            rw (attempt_all, go_on)
              (after_route (suc s.attempts) m req routes (attempt_route world req route s)
                (attempt_route-Counts req route s h) (below s.attempts m hm go_on)
                (λ t. attempt_all-calls m req routes t hm))
      ]

-- With a positive `MaxAttempts`, the handler makes at most that many calls of clients, a call of a
-- nil client included.
pub serve_http-max_attempts :
    (world : World) (router : AnyRouter) (max_attempts : ℕ) (decoded : Result AdaptRequest)
    (health : Option HealthTracker) (store : Store)
    → Int64.is_pos max_attempts ≡ true
    → calls (serve_http world router max_attempts decoded (new_handler_state health store)).trace
      ≤ max_attempts
unfolding serve_http
serve_http-max_attempts world router m (err e) health store hm = omega arith
serve_http-max_attempts world router m (ok req) health store hm =
    let none_yet : 0 ≤ 0 = omega arith in
    let ordered = λ (routes : List Route). order_by_health (world.now 0) health routes in
    let started : List Route → HandlerState = λ routes. record {
      health = (ordered routes).1;
      store = store;
      ticks = 1;
      attempts = 0;
      failures = [];
      trace = [];
    } in
    let below_m : 0 ≤ m = omega arith in
    elim (Result-cases (RouteAttempt.candidates router req)) [
      | inl (e, p) ↦ rw (serve_http, p) omega arith
      | inr (routes, p) ↦
          rw (serve_http, p)
            (attempt_all-calls world m req (ordered routes).0 (started routes) hm none_yet below_m)
    ]
