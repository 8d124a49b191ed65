-- ===== src/Tests/Streaming.antt =====
-- Streams through the multiplexing client and the pipeline, and attempts to open a stream.
use llmadapter.Prelude.{
  ◌==◌, len, length, All, nat_eq, ℕ, ◌<◌, ◌≤◌, ◌≡◌, inr, refl, true, false, Option, none, some,
  List, [], ◌∷◌, ◌++◌, String, arith, any, filter, if◌then◌else◌, ltb, leb,
}
use llmadapter.Unified.Kinds.{finish_reason_unknown}
use llmadapter.Unified.Request.{Request}
use llmadapter.Unified.Event.{Event, completed}
use llmadapter.Unified.Errors.{GoError, api, as_api, Result, ok, err}
use llmadapter.RouteAttempt
use llmadapter.RouteAttempt.{AnyRouter, candidate_router, Store}
use llmadapter.MuxClient.{Client, request}
use llmadapter.Pipeline.{new_chain, reasoning_filter, completion_injector, is_completed}
use llmadapter.MuxClient.Single.{request-once}
use llmadapter.Pipeline.Completion.{run, passes, run_chain}
use llmadapter.Transport.Retry.{new_default_retry_transport, open_stream, retryable}
use llmadapter.Transport.Retry.Delays.{IsWait, open_stream-delays}
use llmadapter.Transport.Retry.Calls.{open_stream-answer}
use llmadapter.Tests.{hello, route_of, unreachable}
use llmadapter.Prelude.Assoc.{lookup, remove}
use llmadapter.Prelude.StableSort.{stable_sort}
use llmadapter.Pipeline.Coalesce.{flush_all}
use llmadapter.Pipeline.Coalesce.Texts.{said, outputs, outputs-said}

abbrev thinking : List Event
thinking =
    Event.provider_execution (record { internal_continuation = "replay"; transport = "http" })
    ∷ Event.reasoning_delta 0 "hm" ""
    ∷ Event.text_delta 1 "Hello"
    ∷ []

run_chain_example :
    run thinking (new_chain (reasoning_filter false ∷ completion_injector ∷ []))
    ≡ ok (
        filter (passes false) thinking
        ++ (if any is_completed thinking then [] else completed finish_reason_unknown "" ∷ []))
run_chain_example = run_chain false thinking

abbrev both_routes : AnyRouter
both_routes = candidate_router (λ req. ok (route_of "first" 1 ∷ route_of "second" 2 ∷ []))

abbrev mux : Client
mux = record {
  router = some both_routes;
  source = "openai.chat_completions";
  fallback = true;
  max_attempts = 0;
}

abbrev no_maps : Store
no_maps = record { next = 0; maps = [] }

-- The first attempt fails, and each later one is answered.
abbrev second_time : ℕ → ℕ → Request → Result (List Event)
second_time n client sent = if leb n 1 then err unreachable else ok thinking

abbrev only_once : Client
only_once = record mux { fallback = false }

request-once_example :
    length (request (λ meta. none) second_time (some only_once) hello no_maps).1.made ≤ 1
request-once_example = request-once (λ meta. none) second_time only_once hello no_maps refl

-- A transport that fails once, over requests that are texts and streams that are numbers.
abbrev fails_once : ℕ → Option String → Result ℕ
fails_once n body = if ltb n 1 then err unreachable else ok n

abbrev whole : String → Result String
whole body = ok body

abbrev never_done : ℕ → Option GoError
never_done n = none

once :
    (i : ℕ)
    → i < 1
    → (fails_once i (some "body") ≡ err unreachable)
      × (retryable new_default_retry_transport unreachable ≡ true)
      × (never_done i ≡ none)
unfolding retryable as_api
once i h = (ground (arith, h), refl, refl)

open_stream-answer_example :
    let o = open_stream fails_once whole never_done new_default_retry_transport (some "body") in
    (o.result ≡ some (ok 1)) × (o.calls ≡ 2)
unfolding new_default_retry_transport
open_stream-answer_example =
    open_stream-answer fails_once whole never_done new_default_retry_transport (λ n. unreachable)
      "body" "body" 1 (ok 1) refl refl refl (ground arith) once refl (inr tt)

-- The first call is answered by an API error that asks for a wait, the others by another error.
abbrev limited : GoError
limited = api (record {
  status_code = 429;
  type = "";
  code = "";
  message = "";
  param = "";
  retry_after = 5000000000;
  provider_raw = "";
})

abbrev always_fails : ℕ → Option String → Result ℕ
always_fails n body = if n == 0 then err limited else err unreachable

open_stream-delays_example :
    All (IsWait always_fails new_default_retry_transport) (5000000000 ∷ 200000000 ∷ [])
unfolding new_default_retry_transport open_stream retryable as_api
open_stream-delays_example =
    open_stream-delays always_fails whole never_done new_default_retry_transport (some "body")
      (ground arith) (ground arith)

abbrev letters : List Event
letters = Event.text_delta 2 "a" ∷ Event.text_delta 1 "b" ∷ Event.text_delta 2 "c" ∷ []

flush_all_ascending :
    (flush_all ((2, "ac") ∷ (1, "b") ∷ [])).0
    ≡ Event.text_delta 1 "b" ∷ Event.text_delta 2 "ac" ∷ []
unfolding flush_all stable_sort lookup remove
flush_all_ascending = refl

outputs-said_example : said 2 (outputs len 100 letters []) ≡ said 2 letters
outputs-said_example = outputs-said len 100 2 letters refl
