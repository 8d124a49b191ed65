-- ===== src/Endpoints/Chat/Wire.antt =====
-- The wire types of endpoints/openaichatcompletions/wire.go.
use llmadapter.Prelude.{ℕ, String, Bool, Option, List}
use llmadapter.Unified.Content.{RawMessage}
use llmadapter.Unified.Usage.{Float64}
use llmadapter.Unified.Json.{JsonValue}
use llmadapter.Unified.Extensions.OpenRouter.{OpenRouterExtensions}

pub record ToolCallFunction : Type 0 where
  pub name : String
  pub arguments : String

pub record ToolCall : Type 0 where
  pub id : String
  pub type : String
  pub function : ToolCallFunction

pub record Message : Type 0 where
  pub role : String
  pub content : RawMessage
  pub name : String
  pub tool_call_id : String
  pub tool_calls : List ToolCall

pub record FunctionTool : Type 0 where
  pub name : String
  pub description : String
  pub parameters : RawMessage

pub record Tool : Type 0 where
  pub type : String
  pub function : FunctionTool

-- `stop` is a value of type `any`; the eight OpenRouter fields stand in `open_router`.
pub record Request : Type 0 where
  pub model : String
  pub messages : List Message
  pub max_tokens : Option ℕ
  pub max_completion_tokens : Option ℕ
  pub temperature : Option Float64
  pub top_p : Option Float64
  pub stop : JsonValue
  pub stream : Bool
  pub response_format : RawMessage
  pub tools : List Tool
  pub tool_choice : RawMessage
  pub user : String
  pub open_router : OpenRouterExtensions

pub record ReasoningDetail : Type 0 where
  pub type : String
  pub text : String
  pub signature : String

pub record ResponseMessage : Type 0 where
  pub role : String
  pub content : String
  pub reasoning_details : List ReasoningDetail
  pub tool_calls : List ToolCall

pub record ResponseDelta : Type 0 where
  pub role : String
  pub content : String
  pub reasoning_details : List ReasoningDetail
  pub tool_calls : List ToolCall

pub record Choice : Type 0 where
  pub index : ℕ
  pub message : Option ResponseMessage
  pub delta : Option ResponseDelta
  pub finish_reason : String

pub record UsageWire : Type 0 where
  pub prompt_tokens : ℕ
  pub completion_tokens : ℕ
  pub total_tokens : ℕ

pub record Response : Type 0 where
  pub id : String
  pub object : String
  pub created : ℕ
  pub model : String
  pub choices : List Choice
  pub usage : UsageWire
