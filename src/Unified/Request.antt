-- ===== src/Unified/Request.antt =====
-- unified/request.go, tool.go, message.go, response_format.go and the extension map of
-- extensions.go. A Go map is a reference, so `Extensions` holds the address of its map in a store.
use llmadapter.Prelude.{ℕ, String, Bool, Option, List}
use llmadapter.Unified.Kinds.{Role, MessagePhase, ResponseFormatKind, ReasoningEffort}
use llmadapter.Unified.Content.{RawMessage, AnyMap, CacheControl, ContentPart}
use llmadapter.Unified.Usage.{Float64}

-- `values map[string]json.RawMessage`: `none` is the nil map.
abbrev pub Extensions : Type 0
Extensions = Option ℕ

pub record Tool : Type 0 where
  pub kind : String
  pub name : String
  pub description : String
  pub input_schema : RawMessage
  pub config : AnyMap
  pub cache_control : Option CacheControl

pub record ToolChoice : Type 0 where
  pub mode : String
  pub name : String

pub record ToolCall : Type 0 where
  pub id : String
  pub name : String
  pub arguments : RawMessage
  pub index : ℕ

pub record ToolResult : Type 0 where
  pub tool_call_id : String
  pub name : String
  pub content : List ContentPart
  pub is_error : Bool

pub record Message : Type 0 where
  pub role : Role
  pub id : String
  pub name : String
  pub phase : MessagePhase
  pub content : List ContentPart
  pub tool_calls : List ToolCall
  pub tool_results : List ToolResult
  pub meta : AnyMap

pub record Instruction : Type 0 where
  pub kind : String
  pub content : List ContentPart
  pub name : String
  pub meta : AnyMap

pub record ResponseFormat : Type 0 where
  pub kind : ResponseFormatKind
  pub schema : RawMessage
  pub name : String
  pub strict : Bool

pub record ReasoningConfig : Type 0 where
  pub effort : ReasoningEffort
  pub max_tokens : Option ℕ
  pub expose : Bool
  pub extensions : Extensions

pub record SafetyConfig : Type 0 where
  pub policies : List String
  pub extensions : Extensions

pub record Request : Type 0 where
  pub model : String
  pub messages : List Message
  pub instructions : List Instruction
  pub max_output_tokens : Option ℕ
  pub temperature : Option Float64
  pub top_p : Option Float64
  pub top_k : Option ℕ
  pub stop : List String
  pub seed : Option ℕ
  pub response_format : Option ResponseFormat
  pub tools : List Tool
  pub tool_choice : Option ToolChoice
  pub parallel_tool_calls : Option Bool
  pub reasoning : Option ReasoningConfig
  pub safety : Option SafetyConfig
  pub stream : Bool
  pub user : String
  pub cache_policy : String
  pub cache_key : String
  pub cache_ttl : String
  pub extensions : Extensions
