-- ===== src/Providers/ChatCompletions/Encoder.antt =====
-- The request encoder of providers/openai/chatcompletions/codec.go. Each function gives the warnings
-- that it appends. `strconv.Itoa` is a parameter; the values of the request's extensions are an
-- argument. The error is always nil, and is left out.
use llmadapter.Prelude.{
  ℕ, suc, String, ◌<>◌, Bool, true, false, not, ◌&&◌, ◌||◌, Option, none, some, List, [], ◌∷◌, ◌++◌,
  map, is_nil, join_lines, ◌==◌, nat_eq, string_eq, if◌then◌else◌,
}
use llmadapter.Prelude.Assoc.{or_empty, lookup}
use llmadapter.Unified.Kinds.{
  ApiKind, role_tool, tool_kind_function, tool_choice_auto, tool_choice_any, tool_choice_none,
  tool_choice_required, tool_choice_tool, response_format_text, response_format_json,
  response_format_json_schema, blob_source_url, blob_source_base64, api_openai_chat_completions,
  api_open_router_chat_completions,
}
use llmadapter.Unified.Content.{ContentPart, text_part, image_part, BlobSource}
use llmadapter.Unified.Request.{
  Request, Message, Instruction, Tool, ToolChoice, ToolCall, ToolResult, ResponseFormat,
}
use llmadapter.Unified.Event.{WarningEvent}
use llmadapter.Unified.Extensions.{ExtensionOps}
use llmadapter.Unified.Extensions.OpenRouter.{OpenRouterExtensions, open_router_extensions_from}
use llmadapter.RouteAttempt.{ExtensionMap}
use llmadapter.Providers.ChatCompletions.Wire.{
  ContentPartWire, ContentWire, no_content, text_content, part_content, MessageWire, ToolCallWire,
  ToolWire, ToolChoiceWire, chosen_mode, chosen_function, ResponseFormatWire, format_type,
  format_schema, RequestWire,
}

pub record MappingWarning : Type 0 where
  pub code : String
  pub field : String
  pub message : String

unfoldable pub event : MappingWarning → String → WarningEvent
event w source = record {
  code = w.code;
  message = w.message;
  source = source;
  meta = if not (w.field == "") then ("field", w.field) ∷ [] else [];
}

unfoldable add_warning : String → String → List MappingWarning
add_warning field message =
    (record { code = "unsupported_field_dropped"; field = field; message = message }) ∷ []

unfoldable add_extension_warning : String → String → List MappingWarning
add_extension_warning field message =
    (record { code = "invalid_extension_dropped"; field = field; message = message }) ∷ []

unfoldable pub parallel_tool_calls : Option Bool → Option Bool
parallel_tool_calls none = some false
parallel_tool_calls (some value) = some value

unfoldable encode_tool_choice : ToolChoice → Option ToolChoiceWire
encode_tool_choice choice =
    if choice.mode == tool_choice_auto || choice.mode == ""
    then some (chosen_mode "auto")
    else if choice.mode == tool_choice_none
    then some (chosen_mode "none")
    else if choice.mode == tool_choice_required || choice.mode == tool_choice_any
    then some (chosen_mode "required")
    else if choice.mode == tool_choice_tool
    then some (chosen_function choice.name)
    else none

unfoldable encode_response_format : ResponseFormat → Option ResponseFormatWire
encode_response_format format =
    if format.kind == response_format_text || format.kind == ""
    then some (format_type "text")
    else if format.kind == response_format_json
    then some (format_type "json_object")
    else if format.kind == response_format_json_schema
    then some (
        format_schema (if format.name == "" then "response" else format.name) format.schema
          format.strict)
    else none

-- What a choice of tools becomes when these tools are sent.
abbrev choice_wire : Option ToolChoice → List ToolWire → Option ToolChoiceWire
choice_wire none tools = none
choice_wire (some choice) tools =
    if not (choice.mode == tool_choice_none && is_nil tools)
    then encode_tool_choice choice
    else none

abbrev format_wire : Option ResponseFormat → Option ResponseFormatWire × List MappingWarning
format_wire none = (none, [])
format_wire (some format) = elim (encode_response_format format) [
  | none ↦ (none, add_warning "response_format" "unsupported response format was dropped")
  | some wire ↦ (some wire, [])
]

abbrev pub call_wire : ToolCall → ToolCallWire
call_wire call = record {
  index = call.index;
  id = call.id;
  type = "function";
  function = record { name = call.name; arguments = call.arguments };
}

abbrev no_extensions : OpenRouterExtensions
no_extensions = record {
  models = "";
  route = "";
  provider = "";
  provider_prefs = "";
  plugins = "";
  debug = "";
  trace = "";
  session_id = "";
}

abbrev extension_warnings : List WarningEvent → List MappingWarning
extension_warnings [] = []
extension_warnings (w ∷ ws) =
    add_extension_warning (or_empty (lookup "key" w.meta)) w.message ++ extension_warnings ws

unfoldable apply_open_router_extensions :
    ExtensionOps → ExtensionMap → OpenRouterExtensions × List MappingWarning
unfolding open_router_extensions_from add_extension_warning lookup
apply_open_router_extensions ext values =
    let (raw, warnings) = open_router_extensions_from ext values in
    (raw, extension_warnings warnings)

-- A part of a message's content: its wire part, its text, whether it keeps the message a text,
-- and the warning.
pub record PartWire : Type 0 where
  pub wire : List ContentPartWire
  pub texts : List String
  pub text_only : Bool
  pub warnings : List MappingWarning

abbrev no_part : PartWire
no_part = record { wire = []; texts = []; text_only = true; warnings = [] }

abbrev image_wire : String → ContentPartWire
image_wire url = record { type = "image_url"; text = ""; image_url = some url }

module _ (itoa : ℕ → String) where
  -- The texts of `contentText` from part `i` on, and the warnings.
  unfoldable texts_from : ℕ → List ContentPart → String → List String × List MappingWarning
  unfolding add_warning
  texts_from i [] field = ([], [])
  texts_from i (text_part t cache ∷ parts) field =
      let (texts, warnings) = texts_from (suc i) parts field in (t ∷ texts, warnings)
  texts_from i (_ ∷ parts) field =
      let (texts, warnings) = texts_from (suc i) parts field in
      (texts, add_warning (field <> "." <> itoa i) "non-text content part was dropped" ++ warnings)

  unfoldable content_text : List ContentPart → String → String × List MappingWarning
  unfolding texts_from
  content_text parts field =
      let (texts, warnings) = texts_from 0 parts field in (join_lines texts, warnings)

  unfoldable image_part_wire : BlobSource → String → PartWire
  unfolding add_warning
  image_part_wire source field =
      if source.kind == blob_source_url
      then record no_part { wire = image_wire source.url ∷ []; text_only = false }
      else if source.kind == blob_source_base64
      then record no_part {
        wire = image_wire ("data:" <> source.mime_type <> ";base64," <> source.base64) ∷ [];
        text_only = false;
      }
      else record no_part {
        text_only = false;
        warnings = add_warning field "unsupported image source was dropped";
      }

  unfoldable part_wire : ContentPart → String → PartWire
  unfolding image_part_wire add_warning
  part_wire (text_part t cache) field = record no_part {
    wire = (record { type = "text"; text = t; image_url = none }) ∷ [];
    texts = t ∷ [];
  }
  part_wire (image_part source alt) field = image_part_wire source field
  part_wire _ field = record no_part {
    warnings = add_warning field "non-text content part was dropped";
  }

  unfoldable parts_wire : ℕ → List ContentPart → String → PartWire
  unfolding part_wire
  parts_wire i [] field = no_part
  parts_wire i (part ∷ parts) field =
      let one = part_wire part (field <> "." <> itoa i) in
      let rest = parts_wire (suc i) parts field in
      record {
        wire = one.wire ++ rest.wire;
        texts = one.texts ++ rest.texts;
        text_only = one.text_only && rest.text_only;
        warnings = one.warnings ++ rest.warnings;
      }

  unfoldable encode_message_content : List ContentPart → String → ContentWire × List MappingWarning
  unfolding parts_wire
  encode_message_content parts field =
      if is_nil parts
      then (no_content, [])
      else (let p = parts_wire 0 parts field in
          if p.text_only
          then (text_content (join_lines p.texts), p.warnings)
          else (part_content p.wire, p.warnings))

  -- The system message of an instruction.
  unfoldable instruction_wires : ℕ → List Instruction → List MessageWire × List MappingWarning
  unfolding content_text
  instruction_wires i [] = ([], [])
  instruction_wires i (inst ∷ insts) =
      let (text, warnings) = content_text inst.content ("instructions." <> itoa i <> ".content") in
      let (more, others) = instruction_wires (suc i) insts in
      (
        (record {
          role = "system";
          content = text_content text;
          name = inst.name;
          tool_call_id = "";
          tool_calls = [];
        })
            ∷ more,
        warnings ++ others,
      )

  -- The tool messages of the results of message `i`.
  unfoldable result_wires : ℕ → ℕ → List ToolResult → List MessageWire × List MappingWarning
  unfolding content_text
  result_wires i j [] = ([], [])
  result_wires i j (result ∷ results) =
      let (text, warnings) =
        content_text result.content
          ("messages." <> itoa i <> ".tool_results." <> itoa j <> ".content") in
      let (more, others) = result_wires i (suc j) results in
      (
        (record {
          role = "tool";
          content = text_content text;
          name = result.name;
          tool_call_id = result.tool_call_id;
          tool_calls = [];
        })
            ∷ more,
        warnings ++ others,
      )

  unfoldable message_wires : ℕ → Message → List MessageWire × List MappingWarning
  unfolding result_wires encode_message_content
  message_wires i msg =
      if msg.role == role_tool && not (is_nil msg.tool_results)
      then result_wires i 0 msg.tool_results
      else (let (content, warnings) =
            encode_message_content msg.content ("messages." <> itoa i <> ".content") in
          (
            (record {
              role = msg.role;
              content = content;
              name = msg.name;
              tool_call_id = "";
              tool_calls = map call_wire msg.tool_calls;
            })
                ∷ [],
            warnings,
          ))

  unfoldable messages_wires : ℕ → List Message → List MessageWire × List MappingWarning
  unfolding message_wires
  messages_wires i [] = ([], [])
  messages_wires i (msg ∷ msgs) =
      let (wires, warnings) = message_wires i msg in
      let (more, others) = messages_wires (suc i) msgs in (wires ++ more, warnings ++ others)

  unfoldable tool_wires : ℕ → List Tool → List ToolWire × List MappingWarning
  unfolding add_warning
  tool_wires i [] = ([], [])
  tool_wires i (tool ∷ tools) =
      let (more, others) = tool_wires (suc i) tools in
      if not (tool.kind == "") && not (tool.kind == tool_kind_function)
      then (
        more,
        add_warning ("tools." <> itoa i <> ".kind") "unsupported tool kind was dropped" ++ others,
      )
      else (
        (record {
          type = "function";
          function = record {
            name = tool.name;
            description = tool.description;
            parameters = tool.input_schema;
          };
        })
            ∷ more,
        others,
      )

  module _ (ext : ExtensionOps) where
    unfoldable encode_request_for_api :
        Request → ExtensionMap → ApiKind → RequestWire × List MappingWarning
    unfolding instruction_wires messages_wires tool_wires encode_tool_choice encode_response_format
        parallel_tool_calls apply_open_router_extensions add_warning
    encode_request_for_api req values api =
        let (instructions, w1) = instruction_wires 0 req.instructions in
        let (messages, w2) = messages_wires 0 req.messages in
        let (tools, w3) = tool_wires 0 req.tools in
        let (format, w4) = format_wire req.response_format in
        let (open_router, w5) =
          if api == api_open_router_chat_completions
          then apply_open_router_extensions ext values
          else (no_extensions, []) in
        (
          record {
            model = req.model;
            messages = instructions ++ messages;
            max_tokens = req.max_output_tokens;
            temperature = req.temperature;
            top_p = req.top_p;
            stop = req.stop;
            stream = req.stream;
            stream_options = none;
            response_format = format;
            tools = tools;
            tool_choice = choice_wire req.tool_choice tools;
            parallel_tool_calls = parallel_tool_calls req.parallel_tool_calls;
            user = req.user;
            open_router = open_router;
          },
          w1 ++ (w2 ++ (w3 ++ (w4 ++ w5))),
        )

    unfoldable encode_request : Request → ExtensionMap → RequestWire × List MappingWarning
    unfolding encode_request_for_api
    encode_request req values = encode_request_for_api req values api_openai_chat_completions
