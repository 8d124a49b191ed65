-- ===== src/Endpoints/Chat/Requests.antt =====
-- `decodeRequest` and `WriteError` of endpoints/openaichatcompletions/codec.go.
use llmadapter.Prelude.{
  ℕ, suc, String, ◌<>◌, not, Option, none, List, [], ◌∷◌, ◌++◌, ◌==◌, string_eq, if◌then◌else◌,
}
use llmadapter.Unified.Kinds.{tool_kind_function}
use llmadapter.Unified.Content.{RawMessage}
use llmadapter.Unified.Request as Unified
use llmadapter.Unified.Errors.{GoError, Result, ok, err, as_api, as_http, ◌>>=◌, or_else}
use llmadapter.Unified.Extensions.{ExtensionOps}
use llmadapter.Unified.Extensions.OpenRouter.{set_open_router_raw_extensions}
use llmadapter.Endpoints.Decoding.{
  Warning, DecodeOps, decode_warning, status_error, Answer, first_of, api_answer, http_answer,
}
use llmadapter.Endpoints.Chat.Wire.{Tool, Request}
use llmadapter.Endpoints.Chat.Decode.{
  JsonOps, Decoded, Turn, warned, with_item, decode_messages, decode_stop, decode_tool_choice,
  decode_response_format,
}

-- The status, the code and the message that `WriteError` writes.
unfoldable pub write_error : (GoError → String) → GoError → Answer
unfolding as_api as_http
write_error error_text e =
    http_answer
      (api_answer (λ a. first_of a.code a.type "internal_error")
        (500, "internal_error", error_text e) (as_api e))
      (as_http e)

module _ (ops : DecodeOps) where
  unfoldable decode_tools : ℕ → List Tool → List Unified.Tool × List Warning
  unfolding decode_warning
  decode_tools i [] = ([], [])
  decode_tools i (tool ∷ tools) =
      let rest = decode_tools (suc i) tools in
      if not (tool.type == "function")
      then warned
          (decode_warning ("tools." <> ops.itoa i <> ".type")
              ("unsupported tool type " <> ops.quote tool.type <> " was dropped")
            ∷ [])
          rest
      else with_item
          (record {
            kind = tool_kind_function;
            name = tool.function.name;
            description = tool.function.description;
            input_schema = tool.function.parameters;
            config = [];
            cache_control = none;
          })
          rest

  -- An optional JSON value: nothing is decoded where it is missing.
  abbrev pub optional {ℓ} :
      {A : Type ℓ} → RawMessage → (Option A × List Warning) → Option A × List Warning
  optional raw decoded = if not (raw == "") then decoded else (none, [])

  module _ (json : JsonOps) (ext : ExtensionOps) where
    -- The decoding behind the messages; an invalid OpenRouter extension ends the copying of those
    -- behind it, and its error is dropped.
    unfoldable pub decode_fields : Request → Turn → Decoded
    unfolding decode_tools decode_stop decode_tool_choice decode_response_format
        set_open_router_raw_extensions
    decode_fields wire (messages, instructions, w2) =
        let (stop, w1) = decode_stop ops json ext wire.stop "stop" in
        let (tools, w3) = decode_tools 0 wire.tools in
        let (choice, w4) =
          optional wire.tool_choice
            (decode_tool_choice ops json ext wire.tool_choice "tool_choice") in
        let (format, w5) =
          optional wire.response_format
            (decode_response_format ops json ext wire.response_format "response_format") in
        record {
          request = record {
            model = wire.model;
            messages = messages;
            instructions = instructions;
            max_output_tokens = or_else wire.max_completion_tokens wire.max_tokens;
            temperature = wire.temperature;
            top_p = wire.top_p;
            top_k = none;
            stop = stop;
            seed = none;
            response_format = format;
            tools = tools;
            tool_choice = choice;
            parallel_tool_calls = none;
            reasoning = none;
            safety = none;
            stream = wire.stream;
            user = wire.user;
            cache_policy = "";
            cache_key = "";
            cache_ttl = "";
            extensions = none;
          };
          values = (set_open_router_raw_extensions ext wire.open_router []).0;
          warnings = w1 ++ (w2 ++ (w3 ++ (w4 ++ w5)));
        }

    unfoldable pub decode_request : Request → Result Decoded
    unfolding decode_messages decode_fields status_error
    decode_request wire =
        if wire.model == ""
        then err (status_error 400 "missing_model" "model is required")
        else decode_messages ops json ext 0 wire.messages >>= λ turn. ok (decode_fields wire turn)
