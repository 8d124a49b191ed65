-- ===== src/Providers/ChatCompletions/Wire.antt =====
-- The wire types of providers/openai/chatcompletions/wire.go. The raw text of a chunk is kept beside
-- it. A field of type `any` is the sum of what the encoder puts there.
use llmadapter.Prelude.{Bool, ℕ, String, Option, List}
use llmadapter.Unified.Content.{RawMessage}
use llmadapter.Unified.Usage.{Float64}
use llmadapter.Unified.Extensions.OpenRouter.{OpenRouterExtensions}

pub record ToolCallFunctionWire : Type 0 where
  pub name : String
  pub arguments : String

pub record ToolCallWire : Type 0 where
  pub index : ℕ
  pub id : String
  pub type : String
  pub function : ToolCallFunctionWire

pub record DeltaWire : Type 0 where
  pub role : String
  pub content : String
  pub tool_calls : List ToolCallWire

pub record ChoiceWire : Type 0 where
  pub index : ℕ
  pub delta : DeltaWire
  pub finish_reason : String

pub record TokenDetailsWire : Type 0 where
  pub cached_tokens : ℕ
  pub reasoning_tokens : ℕ

pub record UsageWire : Type 0 where
  pub prompt_tokens : ℕ
  pub completion_tokens : ℕ
  pub total_tokens : ℕ
  pub prompt_tokens_details : Option TokenDetailsWire
  pub completion_tokens_details : Option TokenDetailsWire

pub record ErrorWire : Type 0 where
  pub type : String
  pub code : String
  pub message : String

pub record ChunkWire : Type 0 where
  pub id : String
  pub model : String
  pub choices : List ChoiceWire
  pub usage : Option UsageWire
  pub error : Option ErrorWire

pub record ContentPartWire : Type 0 where
  pub type : String
  pub text : String
  pub image_url : Option String

-- The content of a message: nil, a text, or parts.
pub data ContentWire : Type 0 where
  no_content : ContentWire
  text_content : String → ContentWire
  part_content : List ContentPartWire → ContentWire

pub record MessageWire : Type 0 where
  pub role : String
  pub content : ContentWire
  pub name : String
  pub tool_call_id : String
  pub tool_calls : List ToolCallWire

pub record FunctionToolWire : Type 0 where
  pub name : String
  pub description : String
  pub parameters : RawMessage

pub record ToolWire : Type 0 where
  pub type : String
  pub function : FunctionToolWire

-- A text, or the function that has a name.
pub data ToolChoiceWire : Type 0 where
  chosen_mode : String → ToolChoiceWire
  chosen_function : (name : String) → ToolChoiceWire

-- A type alone, or "json_schema" with its schema.
pub data ResponseFormatWire : Type 0 where
  format_type : String → ResponseFormatWire
  format_schema : (name : String) (schema : RawMessage) (strict : Bool) → ResponseFormatWire

-- `include_usage` of the stream options, where there are any.
pub record RequestWire : Type 0 where
  pub model : String
  pub messages : List MessageWire
  pub max_tokens : Option ℕ
  pub temperature : Option Float64
  pub top_p : Option Float64
  pub stop : List String
  pub stream : Bool
  pub stream_options : Option Bool
  pub response_format : Option ResponseFormatWire
  pub tools : List ToolWire
  pub tool_choice : Option ToolChoiceWire
  pub parallel_tool_calls : Option Bool
  pub user : String
  pub open_router : OpenRouterExtensions
