-- ===== src/Endpoints/Anthropic/Decode.antt =====
-- The decoding of requests and the answering of errors in endpoints/anthropicmessages/codec.go. The
-- extension map of the new request is given beside it.
use llmadapter.Prelude.{
  join_lines, ℕ, suc, String, ◌<>◌, not, ◌&&◌, ◌||◌, Option, none, some, List, [], ◌∷◌, ◌++◌, map,
  is_nil, ◌==◌, nat_eq, string_eq, if◌then◌else◌,
}
use llmadapter.Unified.Kinds.{
  role_tool, instruction_system, tool_kind_function, tool_choice_auto, tool_choice_any,
  tool_choice_none, tool_choice_tool, blob_source_url, blob_source_base64,
}
use llmadapter.Unified.Content.{BlobSource, ContentPart, text_part, image_part, reasoning_part}
use llmadapter.Unified.Request.{
  Request, Message, Instruction, Tool, ToolChoice, ToolCall, ToolResult,
}
use llmadapter.Unified.Errors.{GoError, Result, ok, err, as_api, as_http}
use llmadapter.Unified.Json.{JsonValue, JsonItems, JsonFields, value_of}
use llmadapter.Unified.Extensions.{ExtensionOps}
use llmadapter.Unified.Extensions.OpenRouter.{OpenRouterExtensions, set_open_router_raw_extensions}
use llmadapter.RouteAttempt.{ExtensionMap}
use llmadapter.Providers.Anthropic.Wire.{
  MessageRequest, InputMessage, ContentBlock, BlockSource, ToolDefinition, ToolChoiceWire,
}
use llmadapter.Endpoints.Decoding.{
  Warning, DecodeOps, decode_warning, status_error, Answer, first_of, api_answer, http_answer,
}

-- What a message's blocks add: content, calls, results and warnings.
pub record Parts : Type 0 where
  pub content : List ContentPart
  pub tool_calls : List ToolCall
  pub tool_results : List ToolResult
  pub warnings : List Warning

abbrev pub no_parts : Parts
no_parts = record { content = []; tool_calls = []; tool_results = []; warnings = [] }

abbrev pub join_parts : Parts → Parts → Parts
join_parts a b = record {
  content = a.content ++ b.content;
  tool_calls = a.tool_calls ++ b.tool_calls;
  tool_results = a.tool_results ++ b.tool_results;
  warnings = a.warnings ++ b.warnings;
}

abbrev empty_source : BlobSource
empty_source = record {
  kind = "";
  url = "";
  base64 = "";
  bytes = [];
  file_id = "";
  mime_type = "";
  meta = [];
  raw = "";
}

unfoldable decode_image_block_source : BlockSource → Option ContentPart
decode_image_block_source source =
    if source.type == "url"
    then some (
        image_part
          (record empty_source {
            kind = blob_source_url;
            url = source.url;
            mime_type = source.media_type;
          })
          "")
    else if source.type == "base64"
    then some (
        image_part
          (record empty_source {
            kind = blob_source_base64;
            base64 = source.payload;
            mime_type = source.media_type;
          })
          "")
    else none

-- The text and the thinking blocks of a system prompt.
unfoldable decode_system_content : List ContentBlock → List ContentPart
decode_system_content [] = []
decode_system_content (block ∷ blocks) =
    let rest = decode_system_content blocks in
    if block.type == "text"
    then text_part block.text block.cache ∷ rest
    else if block.type == "thinking"
    then reasoning_part block.thinking block.signature ∷ rest
    else rest

-- `m["type"] == "text"` and the text of `m["text"]`
abbrev text_of_fields : JsonFields → Option String
text_of_fields fields = elim (value_of "type" fields) [
  | some (JsonValue.text type) ↦
      if type == "text"
      then elim (value_of "text" fields) [ some (JsonValue.text t) ↦ some t | _ ↦ none ]
      else none
  | _ ↦ none
]

abbrev text_of_item : JsonValue → Option String
text_of_item (JsonValue.object fields) = text_of_fields fields
text_of_item _ = none

-- A decoded request with the values of its extensions, and the warnings.
pub record Decoded : Type 0 where
  pub request : Request
  pub values : ExtensionMap
  pub warnings : List Warning

unfoldable open_router_of : MessageRequest → OpenRouterExtensions
open_router_of wire = record {
  models = wire.open_router_models;
  route = wire.open_router_route;
  provider = wire.open_router_provider;
  provider_prefs = wire.open_router_prefs;
  plugins = wire.open_router_plugins;
  debug = wire.open_router_debug;
  trace = wire.open_router_trace;
  session_id = wire.open_router_session_id;
}

abbrev pub message_of : String → List ContentPart → List ToolCall → List ToolResult → Message
message_of role content calls results = record {
  role = role;
  id = "";
  name = "";
  phase = "";
  content = content;
  tool_calls = calls;
  tool_results = results;
  meta = [];
}

-- The messages that one message becomes.
abbrev messages_of : String → Parts → List Message
messages_of role parts =
    if not (is_nil parts.tool_results) && role == "user"
    then (if not (is_nil parts.content) || not (is_nil parts.tool_calls)
        then message_of role parts.content parts.tool_calls [] ∷ []
        else [])
      ++ (message_of role_tool [] [] parts.tool_results ∷ [])
    else message_of role parts.content parts.tool_calls [] ∷ []

abbrev instructions_of : Option (List ContentBlock) → List Instruction
instructions_of none = []
instructions_of (some blocks) =
    if not (is_nil blocks)
    then (record {
      kind = instruction_system;
      content = decode_system_content blocks;
      name = "";
      meta = [];
    })
      ∷ []
    else []

abbrev tool_of : ToolDefinition → Tool
tool_of tool = record {
  kind = tool_kind_function;
  name = tool.name;
  description = tool.description;
  input_schema = tool.input_schema;
  config = [];
  cache_control = none;
}

module _ (ops : DecodeOps) where
  -- The texts among the items of a tool result, and a warning for each other item.
  unfoldable item_texts : String → ℕ → JsonItems → List String × List Warning
  unfolding value_of decode_warning
  item_texts field i JsonItems.nil = ([], [])
  item_texts field i (JsonItems.cons item items) =
      let (texts, warnings) = item_texts field (suc i) items in
      elim (text_of_item item) [
        | some t ↦ (t ∷ texts, warnings)
        | none ↦ (
          texts,
          decode_warning (field <> "." <> ops.itoa i)
                "unsupported tool_result content item was dropped"
              ∷ warnings,
        )
      ]

  unfoldable content_block_text : JsonValue → String → String × List Warning
  unfolding item_texts decode_warning
  content_block_text (JsonValue.text t) field = (t, [])
  content_block_text (JsonValue.array items) field =
      let (texts, warnings) = item_texts field 0 items in (join_lines texts, warnings)
  content_block_text JsonValue.null field = ("", [])
  content_block_text _ field =
      ("", decode_warning field "unsupported tool_result content value was dropped" ∷ [])

  -- The source of an image block.
  abbrev image_parts : String → Option BlockSource → Parts
  image_parts field none = record no_parts {
    warnings = decode_warning (field <> ".source") "empty image source was dropped" ∷ [];
  }
  image_parts field (some source) = elim (decode_image_block_source source) [
    | some image ↦ record no_parts { content = image ∷ [] }
    | none ↦ record no_parts {
      warnings =
          decode_warning (field <> ".source.type")
            ("unsupported image source type " <> ops.quote source.type <> " was dropped")
          ∷ [];
    }
  ]

  abbrev result_parts : ContentBlock → String × List Warning → Parts
  result_parts block (text, warnings) = record no_parts {
    tool_results =
        (record {
          tool_call_id = block.tool_use_id;
          name = "";
          content = text_part text none ∷ [];
          is_error = block.is_error;
        })
        ∷ [];
    warnings = warnings;
  }

  -- What one block adds to its message.
  unfoldable pub block_parts : String → ℕ → ContentBlock → Parts
  unfolding content_block_text decode_warning decode_image_block_source
  block_parts message_field i block =
      let field = message_field <> ".content." <> ops.itoa i in
      if block.type == "text"
      then record no_parts { content = text_part block.text block.cache ∷ [] }
      else if block.type == "thinking"
      then record no_parts { content = reasoning_part block.thinking block.signature ∷ [] }
      else if block.type == "image"
      then image_parts field block.source
      else if block.type == "tool_use"
      then record no_parts {
        tool_calls =
            (record {
              id = block.id;
              name = block.name;
              arguments = if block.input == "" then "{}" else block.input;
              index = i;
            })
            ∷ [];
      }
      else if block.type == "tool_result"
      then result_parts block
          (content_block_text (ops.any_value block.content) (field <> ".content"))
      else record no_parts {
        warnings =
            decode_warning (field <> ".type")
              ("unsupported content block type " <> ops.quote block.type <> " was dropped")
            ∷ [];
      }

  unfoldable pub blocks_parts : String → ℕ → List ContentBlock → Parts
  unfolding block_parts
  blocks_parts field i [] = no_parts
  blocks_parts field i (block ∷ blocks) =
      join_parts (block_parts field i block) (blocks_parts field (suc i) blocks)

  unfoldable pub decode_message : InputMessage → String → List Message × List Warning
  unfolding blocks_parts
  decode_message msg field =
      let parts = blocks_parts field 0 msg.content in (messages_of msg.role parts, parts.warnings)

  unfoldable pub decode_messages : ℕ → List InputMessage → List Message × List Warning
  unfolding decode_message
  decode_messages i [] = ([], [])
  decode_messages i (msg ∷ msgs) =
      let (messages, warnings) = decode_message msg ("messages." <> ops.itoa i) in
      let (more, others) = decode_messages (suc i) msgs in (messages ++ more, warnings ++ others)

  unfoldable pub decode_tool_choice : ToolChoiceWire → String → Option ToolChoice × List Warning
  unfolding decode_warning
  decode_tool_choice choice field =
      if choice.type == "auto" || choice.type == ""
      then (some (record { mode = tool_choice_auto; name = "" }), [])
      else if choice.type == "any"
      then (some (record { mode = tool_choice_any; name = "" }), [])
      else if choice.type == "tool"
      then (some (record { mode = tool_choice_tool; name = choice.name }), [])
      else if choice.type == "none"
      then (some (record { mode = tool_choice_none; name = "" }), [])
      else (
        none,
        decode_warning (field <> ".type")
              ("unsupported tool_choice type " <> ops.quote choice.type <> " was dropped")
            ∷ [],
      )

  abbrev choice_of : Option ToolChoiceWire → Option ToolChoice × List Warning
  choice_of none = (none, [])
  choice_of (some choice) = decode_tool_choice choice "tool_choice"

  -- The decoding of a request that has a model and a limit of tokens; an invalid OpenRouter
  -- extension ends the copying of those behind it, and its error is dropped.
  unfoldable pub decode_fields : ExtensionOps → MessageRequest → Decoded
  unfolding decode_messages decode_tool_choice decode_system_content open_router_of
      set_open_router_raw_extensions
  decode_fields ext wire =
      let (messages, warnings) = decode_messages 0 wire.messages in
      let (choice, choice_warnings) = choice_of wire.tool_choice in
      record {
        request = record {
          model = wire.model;
          messages = messages;
          instructions = instructions_of wire.system;
          max_output_tokens = some wire.max_tokens;
          temperature = wire.temperature;
          top_p = wire.top_p;
          top_k = wire.top_k;
          stop = wire.stop_sequences;
          seed = none;
          response_format = none;
          tools = map tool_of wire.tools;
          tool_choice = choice;
          parallel_tool_calls = none;
          reasoning = none;
          safety = none;
          stream = wire.stream;
          user = "";
          cache_policy = "";
          cache_key = "";
          cache_ttl = "";
          extensions = none;
        };
        values = (set_open_router_raw_extensions ext (open_router_of wire) []).0;
        warnings = warnings ++ choice_warnings;
      }

  unfoldable pub decode_request : ExtensionOps → MessageRequest → Result Decoded
  unfolding decode_fields status_error
  decode_request ext wire =
      if wire.model == ""
      then err (status_error 400 "missing_model" "model is required")
      else if wire.max_tokens == 0
      then err (status_error 400 "missing_max_tokens" "max_tokens is required")
      else ok (decode_fields ext wire)

  -- The status, the type and the message that `WriteError` writes.
  unfoldable pub write_error : GoError → Answer
  unfolding as_api as_http
  write_error e =
      http_answer
        (api_answer (λ a. first_of a.type a.code "api_error") (500, "api_error", ops.error_text e)
          (as_api e))
        (as_http e)
