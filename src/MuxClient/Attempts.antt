-- ===== src/MuxClient/Attempts.antt =====
-- Which routes `Request` tries.
use llmadapter.Prelude.{ℕ, ◌+◌, ◌<◌, ◌≤◌, ◌≡◌, true, false, Option, some, List, map}
use llmadapter.Prelude.Int64
use llmadapter.Unified.Content.{RawMessage}
use llmadapter.Unified.Request.{Request}
use llmadapter.Unified.Event.{Event}
use llmadapter.Unified.Errors.{GoError, Result, err}
use llmadapter.Router.Types.{Client as RouteClient, Route, ResolvedModelMetadata}
use llmadapter.RouteAttempt
use llmadapter.MuxClient.{Client, Attempt}

abbrev pub routes_of : List Attempt → List Route
routes_of made = map Attempt.route made

abbrev HasClient : Route → Type 0
HasClient r = (client : RouteClient) × (r.client ≡ some client)

module _ (marshal : ResolvedModelMetadata → Option RawMessage)
    (respond : ℕ → RouteClient → Request → Result (List Event)) (failure : ℕ → GoError) (c : Client)
    (fallback : c.fallback ≡ true) (unlimited : Int64.is_pos c.max_attempts ≡ false) where
  -- The attempts `n + 1`, …, `n + k` fail by a retryable error.
  abbrev Fail : ℕ → ℕ → Type 0
  Fail n k =
      (i : ℕ)
      → n < i
      → i ≤ n + k
      → ((client : RouteClient) (sent : Request) → respond i client sent ≡ err (failure i))
        × (RouteAttempt.retryable (failure i) ≡ true)
