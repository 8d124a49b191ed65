-- ===== src/Router/Rank.antt =====
-- `routeRank` and `sourceAPIRank` of router/router.go: the comparison by which candidates are
-- sorted. Weights and priorities are Go integers, and their differences wrap around.
pub mod Order
use llmadapter.Prelude.{ℕ, Bool, not, ◌&&◌, ◌==◌, nat_eq, string_eq, if◌then◌else◌}
use llmadapter.Prelude.Int64
use llmadapter.Unified.Kinds.{
  ApiKind, api_anthropic_messages, api_openai_responses, api_openai_chat_completions,
}
use llmadapter.Router.Types.{AdaptRequest, StaticRoute}

unfoldable pub source_api_rank : ApiKind → ℕ
source_api_rank api =
    if api == api_anthropic_messages
    then 0
    else if api == api_openai_responses
    then 1
    else if api == api_openai_chat_completions
    then 2
    else 10

unfoldable route_rank : AdaptRequest → StaticRoute → StaticRoute → ℕ
route_rank req candidate current =
    if not (candidate.weight == current.weight)
    then Int64.sub candidate.weight current.weight
    else if req.source_api == ""
        && not (source_api_rank candidate.source_api == source_api_rank current.source_api)
    then Int64.sub (source_api_rank current.source_api) (source_api_rank candidate.source_api)
    else Int64.sub candidate.endpoint.priority current.endpoint.priority

-- The test that `Routes` hands to `sort.SliceStable`.
unfoldable pub ranks_above : AdaptRequest → StaticRoute → StaticRoute → Bool
unfolding route_rank
ranks_above req a b = Int64.is_pos (route_rank req a b)
