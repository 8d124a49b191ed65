-- ===== src/Endpoints/Chat/Decode.antt =====
-- The decoding of requests and the answering of errors in endpoints/openaichatcompletions/codec.go.
-- `json.Unmarshal` at the types that the decoder reads is a parameter; `none` is its error. The
-- extension map of the new request is given beside it.
use llmadapter.Prelude.{
  ℕ, suc, String, ◌<>◌, Bool, ◌||◌, Option, none, some, List, [], ◌∷◌, ◌++◌, ◌==◌, nat_eq,
  string_eq, if◌then◌else◌,
}
use llmadapter.Unified.Kinds.{
  role_tool, instruction_system, instruction_developer, tool_choice_auto, tool_choice_none,
  tool_choice_required, tool_choice_tool, blob_source_url, response_format_text,
  response_format_json, response_format_json_schema,
}
use llmadapter.Unified.Content.{RawMessage, ContentPart, text_part, image_part, BlobSource}
use llmadapter.Unified.Request as Unified
use llmadapter.Unified.Errors.{Result, ok, err, ◌>>=◌}
use llmadapter.Unified.Json.{JsonValue, JsonItems}
use llmadapter.Unified.Extensions.{ExtensionOps}
use llmadapter.RouteAttempt.{ExtensionMap}
use llmadapter.Endpoints.Decoding.{Warning, DecodeOps, decode_warning, status_error}
use llmadapter.Endpoints.Chat.Wire.{Message, ToolCall}

-- A content part as the decoder reads it: its type, text, and the URL and the detail of its image.
pub record PartObject : Type 0 where
  pub type : String
  pub text : String
  pub image_url : Option (String × String)

-- The type of a tool choice, and the name of its function.
pub record ChoiceObject : Type 0 where
  pub type : String
  pub name : String

pub record SchemaObject : Type 0 where
  pub name : String
  pub schema : RawMessage
  pub strict : Bool

pub record FormatObject : Type 0 where
  pub type : String
  pub json_schema : Option SchemaObject

pub record JsonOps : Type 0 where
  pub parse_text : RawMessage → Option String
  pub parse_parts : RawMessage → Option (List PartObject)
  pub parse_choice : RawMessage → Option ChoiceObject
  pub parse_format : RawMessage → Option FormatObject

-- A value or nothing, with warnings.
abbrev Warned : Type 0 → Type 0
Warned A = A × List Warning

-- A decoded request with the values of its extensions, and the warnings.
pub record Decoded : Type 0 where
  pub request : Unified.Request
  pub values : ExtensionMap
  pub warnings : List Warning

abbrev pub message_of :
    String
    → String
    → List ContentPart
    → List Unified.ToolCall
    → List Unified.ToolResult
    → Unified.Message
message_of role name content calls results = record {
  role = role;
  id = "";
  name = name;
  phase = "";
  content = content;
  tool_calls = calls;
  tool_results = results;
  meta = [];
}

abbrev url_source : String → String → BlobSource
url_source url detail = record {
  kind = blob_source_url;
  url = url;
  base64 = "";
  bytes = [];
  file_id = "";
  mime_type = "";
  meta = ("detail", detail) ∷ [];
  raw = "";
}

-- A decoded message: itself unless it is an instruction, and the instructions.
abbrev pub Turn : Type 0
Turn = List Unified.Message × List Unified.Instruction × List Warning

abbrev pub join_turns : Turn → Turn → Turn
join_turns (messages, instructions, warnings) (more, others, rest) =
    (messages ++ more, instructions ++ others, warnings ++ rest)

abbrev pub warned {ℓ} : {A : Type ℓ} → List Warning → List A × List Warning → List A × List Warning
warned warnings (items, others) = (items, warnings ++ others)

abbrev pub with_item {ℓ} : {A : Type ℓ} → A → List A × List Warning → List A × List Warning
with_item item (items, warnings) = (item ∷ items, warnings)

module _ (ops : DecodeOps) (json : JsonOps) (ext : ExtensionOps) where
  unfoldable decode_tool_call_arguments : String → String → Warned RawMessage
  unfolding decode_warning
  decode_tool_call_arguments value field =
      if value == "" then ("{}", []) else if ext.valid value then (value, []) else (
        "{}",
        decode_warning field "invalid tool call arguments were replaced with an empty object" ∷ [],
      )

  unfoldable decode_parts : String → ℕ → List PartObject → List ContentPart × List Warning
  unfolding decode_warning
  decode_parts field i [] = ([], [])
  decode_parts field i (part ∷ parts) =
      let rest = decode_parts field (suc i) parts in
      let place = field <> "." <> ops.itoa i in
      if part.type == "text"
      then with_item (text_part part.text none) rest
      else if part.type == "image_url"
      then elim part.image_url [
        | none ↦
            warned
              (decode_warning (place <> ".image_url") "empty image_url content part was dropped"
                ∷ [])
              rest
        | some (url, detail) ↦
            if url == ""
            then warned
                (decode_warning (place <> ".image_url") "empty image_url content part was dropped"
                  ∷ [])
                rest
            else with_item (image_part (url_source url detail) "") rest
      ]
      else warned
          (decode_warning (place <> ".type")
              ("unsupported content part type " <> ops.quote part.type <> " was dropped")
            ∷ [])
          rest

  unfoldable pub decode_content : RawMessage → String → Result (List ContentPart × List Warning)
  unfolding decode_parts status_error
  decode_content raw field =
      if raw == "" || raw == "null" then ok ([], []) else elim (json.parse_text raw) [
        | some text ↦ ok (text_part text none ∷ [], [])
        | none ↦ elim (json.parse_parts raw) [
          | some parts ↦ ok (decode_parts field 0 parts)
          | none ↦
              err (
                status_error 400 "unsupported_content"
                  "content must be a string or text-part array")
        ]
      ]

  unfoldable pub decode_calls : String → ℕ → List ToolCall → List Unified.ToolCall × List Warning
  unfolding decode_tool_call_arguments
  decode_calls field i [] = ([], [])
  decode_calls field i (call ∷ calls) =
      let (args, warnings) =
        decode_tool_call_arguments call.function.arguments
          (field <> ".tool_calls." <> ops.itoa i <> ".function.arguments") in
      warned warnings (
        with_item (record { id = call.id; name = call.function.name; arguments = args; index = i })
          (decode_calls field (suc i) calls))

  -- The turn of a message with this content.
  abbrev pub turn_of : Message → String → List ContentPart × List Warning → Result Turn
  turn_of msg field (content, warnings) =
      if msg.role == "system" || msg.role == "developer"
      then ok (
        [],
        (record {
          kind = if msg.role == "developer" then instruction_developer else instruction_system;
          content = content;
          name = msg.name;
          meta = [];
        })
            ∷ [],
        warnings,
      )
      else if msg.role == "user" || msg.role == "assistant"
      then (let (calls, others) = decode_calls field 0 msg.tool_calls in
          ok (message_of msg.role msg.name content calls [] ∷ [], [], warnings ++ others))
      else if msg.role == "tool"
      then ok (
        message_of role_tool "" [] [] (
              (record {
                tool_call_id = msg.tool_call_id;
                name = msg.name;
                content = content;
                is_error = Bool.false;
              })
              ∷ [])
            ∷ [],
        [],
        warnings,
      )
      else err (status_error 400 "unsupported_role" ("unsupported role " <> ops.quote msg.role))

  unfoldable pub decode_message : Message → String → Result Turn
  unfolding decode_content decode_calls status_error
  decode_message msg field = decode_content msg.content (field <> ".content") >>= turn_of msg field

  unfoldable pub decode_messages : ℕ → List Message → Result Turn
  unfolding decode_message
  decode_messages i [] = ok ([], [], [])
  decode_messages i (msg ∷ msgs) =
      let rest = decode_messages (suc i) msgs in
      decode_message msg ("messages." <> ops.itoa i) >>= λ turn.
      rest >>= λ turns. ok (join_turns turn turns)

  unfoldable stop_items : String → ℕ → JsonItems → List String × List Warning
  unfolding decode_warning
  stop_items field i JsonItems.nil = ([], [])
  stop_items field i (JsonItems.cons (JsonValue.text t) items) =
      with_item t (stop_items field (suc i) items)
  stop_items field i (JsonItems.cons _ items) =
      warned
        (decode_warning (field <> "." <> ops.itoa i) "non-string stop sequence was dropped" ∷ [])
        (stop_items field (suc i) items)

  unfoldable pub decode_stop : JsonValue → String → List String × List Warning
  unfolding stop_items decode_warning
  decode_stop (JsonValue.text t) field = (t ∷ [], [])
  decode_stop (JsonValue.array items) field = stop_items field 0 items
  decode_stop JsonValue.null field = ([], [])
  decode_stop _ field = ([], decode_warning field "unsupported stop value was dropped" ∷ [])

  abbrev pub chosen : String → String → Warned (Option Unified.ToolChoice)
  chosen mode name = (some (record { mode = mode; name = name }), [])

  abbrev choice_of_text : String → String → Warned (Option Unified.ToolChoice)
  choice_of_text s field =
      if s == "auto"
      then chosen tool_choice_auto ""
      else if s == "required"
      then chosen tool_choice_required ""
      else if s == "none"
      then chosen tool_choice_none ""
      else (
        none,
        decode_warning field ("unsupported tool_choice value " <> ops.quote s <> " was dropped")
            ∷ [],
      )

  abbrev choice_of_object : Option ChoiceObject → String → Warned (Option Unified.ToolChoice)
  choice_of_object none field =
      (none, decode_warning field "unsupported tool_choice object was dropped" ∷ [])
  choice_of_object (some object) field =
      if object.type == "function"
      then chosen tool_choice_tool object.name
      else (none, decode_warning field "unsupported tool_choice object was dropped" ∷ [])

  unfoldable pub decode_tool_choice : RawMessage → String → Warned (Option Unified.ToolChoice)
  unfolding decode_warning
  decode_tool_choice raw field = elim (json.parse_text raw) [
    | some s ↦ choice_of_text s field
    | none ↦ choice_of_object (json.parse_choice raw) field
  ]

  abbrev format_of : String → RawMessage → String → Bool → Warned (Option Unified.ResponseFormat)
  format_of kind schema name strict =
      (some (record { kind = kind; schema = schema; name = name; strict = strict }), [])

  abbrev schema_format : Option SchemaObject → String → Warned (Option Unified.ResponseFormat)
  schema_format none field = (
    none,
    decode_warning (field <> ".json_schema") "missing json_schema response_format was dropped" ∷ [],
  )
  schema_format (some s) field = format_of response_format_json_schema s.schema s.name s.strict

  abbrev format_of_object : FormatObject → String → Warned (Option Unified.ResponseFormat)
  format_of_object object field =
      if object.type == "text"
      then format_of response_format_text "" "" Bool.false
      else if object.type == "json_object"
      then format_of response_format_json "" "" Bool.false
      else if object.type == "json_schema"
      then schema_format object.json_schema field
      else (
        none,
        decode_warning (field <> ".type")
              ("unsupported response_format type " <> ops.quote object.type <> " was dropped")
            ∷ [],
      )

  unfoldable pub decode_response_format :
      RawMessage → String → Warned (Option Unified.ResponseFormat)
  unfolding decode_warning
  decode_response_format raw field = elim (json.parse_format raw) [
    | none ↦ (none, decode_warning field "invalid response_format was dropped" ∷ [])
    | some object ↦ format_of_object object field
  ]
