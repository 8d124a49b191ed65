-- ===== src/Endpoints/Chat/Stream.antt =====
-- `streamState`, `writeStream`, `responseFromUnified` and `finishReason` of
-- endpoints/openaichatcompletions/codec.go. The clock is an argument.
use llmadapter.Prelude.{
  ℕ, suc, ◌+◌, length, String, ◌<>◌, Bool, true, false, ◌&&◌, Option, none, some, List, [], ◌∷◌,
  ◌++◌, map, ◌==◌, string_eq, if◌then◌else◌,
}
use llmadapter.Unified.Kinds.{
  FinishReason, finish_reason_stop, finish_reason_length, finish_reason_tool_call,
}
use llmadapter.Unified.Content.{ContentPart, text_part, reasoning_part}
use llmadapter.Unified.Errors.{GoError}
use llmadapter.Unified.Event.{Event}
use llmadapter.Unified.Response as Collected
use llmadapter.Unified.Usage.{input_tokens, output_tokens, total_tokens}
use llmadapter.Endpoints.Chat.Wire.{
  ToolCall, ReasoningDetail, ResponseDelta, Choice, UsageWire, Response,
}

pub record StreamState : Type 0 where
  pub id : String
  pub model : String
  pub created : ℕ

unfoldable pub finish_reason : FinishReason → String
finish_reason reason =
    if reason == finish_reason_stop
    then "stop"
    else if reason == finish_reason_length
    then "length"
    else if reason == finish_reason_tool_call
    then "tool_calls"
    else reason

abbrev no_usage : UsageWire
no_usage = record { prompt_tokens = 0; completion_tokens = 0; total_tokens = 0 }

abbrev pub empty_delta : ResponseDelta
empty_delta = record { role = ""; content = ""; reasoning_details = []; tool_calls = [] }

unfoldable pub stream_chunk : String → String → ℕ → Choice → Response
stream_chunk id model created choice = record {
  id = id;
  object = "chat.completion.chunk";
  created = created;
  model = model;
  choices = choice ∷ [];
  usage = no_usage;
}

-- The chunk of one delta.
abbrev delta_chunk : StreamState → ResponseDelta → String → List Response
delta_chunk s delta reason =
    stream_chunk s.id s.model s.created
      (record { index = 0; message = none; delta = some delta; finish_reason = reason })
    ∷ []

abbrev pub call_part : String → String → String → ToolCall
call_part id name arguments = record {
  id = id;
  type = "function";
  function = record { name = name; arguments = arguments };
}

unfoldable pub push : Event → StreamState → List Response × StreamState
unfolding stream_chunk finish_reason
push (Event.message_start id model role phase time) s =
    let s' = record s { id = id; model = model } in
    (delta_chunk s' (record empty_delta { role = "assistant" }) "", s')
push (Event.text_delta index text) s = (delta_chunk s (record empty_delta { content = text }) "", s)
push (Event.reasoning_delta index text signature) s = (
  if text == "" && signature == ""
      then []
      else delta_chunk s
          (record empty_delta {
            reasoning_details = (record { type = "text"; text = text; signature = signature }) ∷ [];
          })
          "",
  s,
)
push (Event.tool_call_start index id name) s =
    (delta_chunk s (record empty_delta { tool_calls = call_part id name "" ∷ [] }) "", s)
push (Event.tool_call_args_delta index id delta) s =
    (delta_chunk s (record empty_delta { tool_calls = call_part id "" delta ∷ [] }) "", s)
push (Event.completed reason message_id) s = (delta_chunk s empty_delta (finish_reason reason), s)
push _ s = ([], s)

-- The error that ends the writing of a stream.
abbrev pub stream_error : Event → Option GoError
stream_error (Event.error e recoverable) = e
stream_error _ = none

-- What is written of a stream: its chunks, and whether the terminator follows them.
pub record Written : Type 0 where
  pub chunks : List Response
  pub done : Bool
  pub err : Option GoError

-- The chunks of one event, in a loop that has written `count` chunks: whether a write fails may
-- depend on its place.
unfoldable pub write_chunks :
    (ℕ → Option GoError) → ℕ → List Response → List Response × Option GoError
write_chunks fails count [] = ([], none)
write_chunks fails count (chunk ∷ chunks) = elim (fails count) [
  | some e ↦ ([], some e)
  | none ↦ let (out, e) = write_chunks fails (suc count) chunks in (chunk ∷ out, e)
]

-- `writeStream` in a context that is not cancelled, behind the header.
unfoldable pub write_stream : (ℕ → Option GoError) → ℕ → List Event → StreamState → Written
unfolding push write_chunks
write_stream fails count [] s = elim (fails count) [
  | some e ↦ record { chunks = []; done = false; err = some e }
  | none ↦ record { chunks = []; done = true; err = none }
]
write_stream fails count (ev ∷ events) s = elim (stream_error ev) [
  | some e ↦ record { chunks = []; done = false; err = some e }
  | none ↦
      let (chunks, s') = push ev s in
      let (out, failed) = write_chunks fails count chunks in
      elim failed [
        | some e ↦ record { chunks = out; done = false; err = some e }
        | none ↦
            let rest = write_stream fails (count + length out) events s' in
            record rest { chunks = out ++ rest.chunks }
      ]
]

-- The text of a response and its reasoning.
unfoldable pub content_of : List ContentPart → String × List ReasoningDetail
content_of [] = ("", [])
content_of (text_part t cache ∷ parts) =
    let (text, reasoning) = content_of parts in (t <> text, reasoning)
content_of (reasoning_part t signature ∷ parts) =
    let (text, reasoning) = content_of parts in
    (text, (record { type = "text"; text = t; signature = signature }) ∷ reasoning)
content_of (_ ∷ parts) = content_of parts

unfoldable pub response_from_unified : ℕ → Collected.Response → Response
unfolding content_of finish_reason
response_from_unified now resp =
    let (text, reasoning) = content_of resp.content in
    record {
      id = resp.id;
      object = "chat.completion";
      created = now;
      model = resp.model;
      choices =
          (record {
            index = 0;
            message = some (record {
              role = "assistant";
              content = text;
              reasoning_details = reasoning;
              tool_calls = map (λ c. call_part c.id c.name c.arguments) resp.tool_calls;
            });
            delta = none;
            finish_reason = finish_reason resp.finish_reason;
          })
          ∷ [];
      usage = record {
        prompt_tokens = input_tokens resp.usage;
        completion_tokens = output_tokens resp.usage;
        total_tokens = total_tokens resp.usage;
      };
    }
