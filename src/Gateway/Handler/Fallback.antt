-- ===== src/Gateway/Handler/Fallback.antt =====
-- The routes that the handler goes through when each of them fails before its response starts.
use llmadapter.Prelude.{ℕ, suc, ◌≡◌, true, Option, some, List, [], ◌∷◌, ◌++◌, is_some}
use llmadapter.Prelude.Int64
use llmadapter.Unified.Request.{Request}
use llmadapter.Unified.Errors.{GoError, err}
use llmadapter.Router.Types.{Client, Route}
use llmadapter.RouteAttempt
use llmadapter.Gateway.Handler.{World, Action, HandlerState, Flow, continue}

-- The errors of attempts that fail in turn, the first of them numbered `n`.
abbrev pub attempt_errors : (ℕ → GoError) → ℕ → List Route → List GoError
attempt_errors failure n [] = []
attempt_errors failure n (r ∷ rs) =
    RouteAttempt.error r (failure n) ∷ attempt_errors failure (suc n) rs

-- The clients that were called, in order.
abbrev pub called_clients : List Action → List (Option Client)
called_clients [] = []
called_clients (Action.called client sent ∷ actions) = some client ∷ called_clients actions
called_clients (_ ∷ actions) = called_clients actions

abbrev HasClient : Route → Type 0
HasClient r = is_some r.client ≡ true

-- Every attempt is answered by an error, a retryable one.
abbrev pub AllFail : World → (ℕ → GoError) → Type 0
AllFail world failure =
    (n : ℕ)
    → ((client : Client) (sent : Request) → world.respond n client sent ≡ err (failure n))
      × (RouteAttempt.retryable (failure n) ≡ true)

module _ (world : World) (failure : ℕ → GoError) (fails : AllFail world failure) where
  -- The attempt fails, and the loop goes on.
  abbrev GoesOn : Route → Option Client → ℕ → HandlerState → Flow → Type 0
  GoesOn r c n s flow =
      (t : HandlerState) × (flow ≡ continue t)
      × (t.failures ≡ s.failures ++ RouteAttempt.error r (failure n) ∷ [])
      × (t.attempts ≡ n)
      × (called_clients t.trace ≡ called_clients s.trace ++ c ∷ [])
