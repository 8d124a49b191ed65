-- ===== src/MuxClient/Single.antt =====
-- `Request` without fallback.
use llmadapter.Prelude.{
  ℕ, ◌≤◌, ◌≡◌, refl, false, Option, some, List, [], ◌∷◌, arith, length, inl, inr, Option-cases,
}
use llmadapter.Unified.Content.{RawMessage}
use llmadapter.Unified.Request.{Request}
use llmadapter.Unified.Event.{Event}
use llmadapter.Unified.Errors.{Result}
use llmadapter.Router.Types.{Client as RouteClient, Route, ResolvedModelMetadata}
use llmadapter.RouteAttempt
use llmadapter.RouteAttempt.{AnyRouter, Store}
use llmadapter.Unified.Errors.Cases.{Result-cases}
use llmadapter.MuxClient.{Client, Progress, finish, attempt_all, start, request}

module _ (marshal : ResolvedModelMetadata → Option RawMessage)
    (respond : ℕ → RouteClient → Request → Result (List Event)) where
  attempt_all-once :
      (c : Client) (req : Request) (routes : List Route) (p : Progress)
      → c.fallback ≡ false
      → p.made ≡ []
      → length (attempt_all marshal respond c req routes p).1.made ≤ 1
  unfolding attempt_all finish
  attempt_all-once c req [] p fb hp = ground (arith, hp)
  attempt_all-once c req (r ∷ routes) p fb hp = ground (arith, hp, fb)

  start-once :
      (c : Client) (router : AnyRouter) (req : Request) (p : Progress)
      → c.fallback ≡ false
      → p.made ≡ []
      → length (start marshal respond (some (c, router)) req p).1.made ≤ 1
  unfolding start
  start-once c router req p fb hp =
      elim (Result-cases
        (RouteAttempt.candidates router (record { source_api = c.source; unified = req }))) [
          | inl (e, found) ↦ rw (start, found, hp) omega arith
          | inr (routes, found) ↦ rw (start, found) (attempt_all-once c req routes p fb hp)
        ]

-- With fallback disabled, `Request` sends the request to at most one client, whatever the router
-- gives and the client answers.
pub request-once :
    (marshal : ResolvedModelMetadata → Option RawMessage)
    (respond : ℕ → RouteClient → Request → Result (List Event)) (c : Client) (req : Request)
    (store : Store)
    → c.fallback ≡ false
    → length (request marshal respond (some c) req store).1.made ≤ 1
unfolding request start
request-once marshal respond c req store fb = elim (Option-cases c.router) [
  | inl no_router ↦ rw (request, no_router) omega arith
  | inr (router, has) ↦
      rw (request, has)
        (start-once marshal respond c router req
          (record { store = store; attempts = 0; failures = []; made = [] }) fb refl)
]
