-- ===== src/Tests/Writing.antt =====
-- Messages that the endpoints write and extensions that are set, on concrete values.
use llmadapter.Prelude.{
  String, some, ◌≡◌, refl, true, false, none, List, [], ◌∷◌, inr, ◌==◌, string_eq, ℕ, Option,
  is_some, nat_eq, if◌then◌else◌,
}
use llmadapter.Prelude.Assoc.{lookup}
use llmadapter.Unified.Errors.{GoError, formatted, ok}
use llmadapter.Unified.Content.{text_part, reasoning_part, RawMessage}
use llmadapter.Unified.Request.{ToolCall}
use llmadapter.Unified.Response.{Response, empty_response}
use llmadapter.Unified.Json.{JsonValue}
use llmadapter.Unified.Extensions.{ExtensionOps}
use llmadapter.Unified.Extensions.OpenRouter.{
  OpenRouterExtensions, set_open_router_raw_extensions, open_router_raw_extensions_from,
}
use llmadapter.Unified.Extensions.ReadBack.{open_router_from-set}
use llmadapter.Providers.Citations as Citations
use llmadapter.Providers.ChatCompletions.Decoder.{each, push_chunk, new_decoder}
use llmadapter.Providers.ChatCompletions.LostText.{text_then_call}
use llmadapter.Providers.ChatCompletions.Run.{decoded}
use llmadapter.Providers.Anthropic.Decoder.{new_event_decoder}
use llmadapter.Endpoints.Decoding.{DecodeOps}
use llmadapter.Endpoints.Anthropic.Stream.{write_stream, new_stream_state}
use llmadapter.Endpoints.Anthropic.Passes.{decode}
use llmadapter.Endpoints.Anthropic.ReadBack.{
  Block, text_block, reasoning_block, tool_block, message_events,
}
use llmadapter.Endpoints.Anthropic.Opened.{nothing_seen}
use llmadapter.Endpoints.Anthropic.Order.{follow, follow-write_stream}
use llmadapter.Unified.Event.{Event}
use llmadapter.Endpoints.Anthropic.Messages.{never, decode-message_events}
use llmadapter.Endpoints.Anthropic.LostCall.{has_tool_use, frames_of, has_tool_use-text_then_call}
use llmadapter.Endpoints.Anthropic.Decode.{decode_message, message_of}
use llmadapter.Endpoints.Anthropic.Respond.{response_from_unified}
use llmadapter.Endpoints.Anthropic.Continued.{decode_message-response}
use llmadapter.Endpoints.Chat.Merged.{
  Call, calls_message, done_calls, chunk_read, chunks_of, done_calls-message,
}
use llmadapter.Endpoints.Chat.Wire.{Message, Request as ChatRequest}
use llmadapter.Endpoints.Chat.Decode.{JsonOps}
use llmadapter.Endpoints.Chat.Requests.{decode_request}
use llmadapter.Endpoints.Chat.BadRequests.{refused, refused-decode_request}
use llmadapter.Tests.Decoding.{decoder_ops, no_text}

abbrev said : List Block
said =
    reasoning_block 0 ("Let me " ∷ "see." ∷ []) "sig"
    ∷ text_block 1 ("Hel" ∷ "" ∷ "lo" ∷ [])
    ∷ tool_block 1 "toolu_1" "search" ("{\"q\":" ∷ "1}" ∷ [])
    ∷ []

decode-message_events_example :
    (decode decoder_ops
      (write_stream never 0 (message_events "msg_1" "claude" said "tool_call") new_stream_state).0
      new_event_decoder).0
    ≡ message_events "msg_1" "claude" said "tool_call"
decode-message_events_example =
    decode-message_events decoder_ops "msg_1" "claude" said "tool_call"
      (((refl, (refl, tt)), refl), (tt, ((refl, refl), tt))) (inr (inr refl))

has_tool_use-text_then_call_example :
    (has_tool_use (frames_of (decoded no_text (text_then_call "Hello" "call_1" "search" "[]" 0)))
      ≡ false)
    × (has_tool_use (frames_of (decoded no_text (text_then_call "Hello" "call_1" "search" "[]" 1)))
        ≡ true)
has_tool_use-text_then_call_example = (
  has_tool_use-text_then_call no_text "Hello" "call_1" "search" "[]" 0 refl refl refl refl,
  has_tool_use-text_then_call no_text "Hello" "call_1" "search" "[]" 1 refl refl refl refl,
)

abbrev decode_ops : DecodeOps
decode_ops = record {
  itoa = λ n. "0";
  quote = λ text. text;
  any_value = λ text. JsonValue.null;
  error_text = λ e. "";
}

abbrev search_call : ToolCall
search_call = record { id = "toolu_1"; name = "search"; arguments = ""; index = 5 }

abbrev answered : Response
answered = record empty_response {
  content = reasoning_part "Let me see." "sig" ∷ text_part "Hello" none ∷ [];
  tool_calls = search_call ∷ [];
}

decode_message-response_example :
    decode_message decode_ops
      (record {
        role = "assistant";
        content =
            (response_from_unified
              (λ n. Citations.other "")
              (λ text. Citations.text text)
              answered).content;
      })
      "messages.1"
    ≡ (
      message_of "assistant" answered.content
            ((record { id = "toolu_1"; name = "search"; arguments = "{}"; index = 2 }) ∷ [])
            []
          ∷ [],
      [],
    )
decode_message-response_example =
    decode_message-response decode_ops (λ n. Citations.other "") (λ text. Citations.text text)
      "messages.1" answered (tt, (refl, tt))

-- Only these texts are JSON.
abbrev extension_ops : ExtensionOps
extension_ops = record {
  valid = λ text. text == "\"fallback\"";
  parse_any = λ text. ok JsonValue.null;
  parse_string = no_text;
  parse_bool = λ text. ok true;
  parse_strings = λ text. ok [];
  parses_object = λ text. false;
  marshal_string = no_text;
  marshal_bool = no_text;
  marshal_strings = no_text;
  any_control = λ text. false;
  any_space = λ text. false;
  has_comma = λ text. false;
  trim_space = λ text. text;
  error_text = λ e. "";
}

abbrev only_route : RawMessage → OpenRouterExtensions
only_route text = record {
  models = "";
  route = text;
  provider = "";
  provider_prefs = "";
  plugins = "";
  debug = "";
  trace = "";
  session_id = "";
}

open_router_from-set_example :
    let set =
      set_open_router_raw_extensions extension_ops
        (only_route "\"fallback\"")
        (("openrouter.route", "null") ∷ ("openrouter.trace", "{}") ∷ []) in
    (set.1 ≡ none)
    × (open_router_raw_extensions_from set.0 ≡ record (only_route "\"fallback\"") { trace = "{}" })
unfolding open_router_raw_extensions_from lookup
open_router_from-set_example =
    open_router_from-set extension_ops (only_route "\"fallback\"")
      (("openrouter.route", "null") ∷ ("openrouter.trace", "{}") ∷ [])
      (record {
        models_settable = refl;
        route_settable = refl;
        provider_settable = refl;
        provider_prefs_settable = refl;
        plugins_settable = refl;
        debug_settable = refl;
        trace_settable = refl;
        session_id_settable = refl;
      })

abbrev weather : Call
weather = record { index = 0; id = "call_1"; name = "weather"; arguments = "{\"city\":1}" }

abbrev time : Call
time = record { index = 1; id = "call_2"; name = "time"; arguments = "{\"zone\":2}" }

done_calls-message_example :
    done_calls
      (each
        (λ r. push_chunk no_text (chunk_read r) "")
        (chunks_of 0 (calls_message (weather ∷ time ∷ [])))
        new_decoder).0
    ≡ ("call_2", "time", "{\"city\":1}{\"zone\":2}") ∷ []
done_calls-message_example =
    done_calls-message no_text chunk_read 0 weather (time ∷ []) (λ r. refl)
      ((refl, refl, refl), ((refl, refl, refl), tt))

-- The fourth write fails.
abbrev fourth_fails : ℕ → Option GoError
fourth_fails n = if n == 3 then some (formatted "closed" []) else none

-- Arguments that come for no block.
abbrev astray : List Event
astray = Event.tool_call_args_delta 7 "call" "{}" ∷ Event.text_delta 1 "Hello" ∷ []

follow-write_stream_example :
    (is_some (
        follow true
          (write_stream fourth_fails 0
            (message_events "msg_1" "claude" said "tool_call")
            new_stream_state).0
          nothing_seen)
      ≡ true)
    × (is_some (follow false (write_stream fourth_fails 0 astray new_stream_state).0 nothing_seen)
        ≡ true)
follow-write_stream_example = (
  follow-write_stream fourth_fails (message_events "msg_1" "claude" said "tool_call"),
  follow-write_stream fourth_fails astray,
)

-- One JSON text, and no list of parts.
abbrev json_ops : JsonOps
json_ops = record {
  parse_text = λ raw. if raw == "\"Hi\"" then some "Hi" else none;
  parse_parts = λ raw. none;
  parse_choice = λ raw. none;
  parse_format = λ raw. none;
}

abbrev chat_message : String → RawMessage → Message
chat_message role content = record {
  role = role;
  content = content;
  name = "";
  tool_call_id = "";
  tool_calls = [];
}

abbrev chat_request : List Message → ChatRequest
chat_request messages = record {
  model = "gpt";
  messages = messages;
  max_tokens = none;
  max_completion_tokens = none;
  temperature = none;
  top_p = none;
  stop = JsonValue.null;
  stream = true;
  response_format = "";
  tools = [];
  tool_choice = "";
  user = "";
  open_router = only_route "";
}

-- A user's text and an assistant's missing content, and before them a role that is not known.
abbrev turns : List Message
turns = chat_message "user" "\"Hi\"" ∷ chat_message "assistant" "null" ∷ []

refused-decode_request_example :
    (refused (λ e. "") (decode_request decode_ops json_ops extension_ops (chat_request turns))
      ≡ none)
    × (refused
          (λ e. "")
          (decode_request decode_ops json_ops extension_ops
            (chat_request (chat_message "function" "\"Hi\"" ∷ turns)))
        ≡ some 400)
refused-decode_request_example = (
  refused-decode_request decode_ops json_ops extension_ops (λ e. "") (chat_request turns),
  refused-decode_request decode_ops json_ops extension_ops (λ e. "")
      (chat_request (chat_message "function" "\"Hi\"" ∷ turns)),
)
