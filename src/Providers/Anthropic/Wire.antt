-- ===== src/Providers/Anthropic/Wire.antt =====
-- The request and event types of anthropicwire/wire.go. A value of type `any` is its JSON text, but for the
-- citations of a block.
use llmadapter.Prelude.{ℕ, String, Bool, Option, List}
use llmadapter.Prelude.Assoc.{Assoc}
use llmadapter.Unified.Content.{RawMessage, AnyMap, CacheControl}
use llmadapter.Unified.Usage.{Float64}
use llmadapter.Providers.Citations.{AnyValues}

pub record BlockSource : Type 0 where
  pub type : String
  pub media_type : String
  pub payload : String
  pub url : String

pub data CitationValue : Type 0 where
  object : AnyValues → CitationValue
  no_object : RawMessage → CitationValue

pub record ContentBlock : Type 0 where
  pub type : String
  pub text : String
  pub cache : Option CacheControl
  pub source : Option BlockSource
  pub id : String
  pub name : String
  pub input : RawMessage
  pub tool_use_id : String
  pub content : RawMessage
  pub is_error : Bool
  pub citations : List CitationValue
  pub thinking : String
  pub signature : String

pub record InputMessage : Type 0 where
  pub role : String
  pub content : List ContentBlock

pub record ThinkingConfig : Type 0 where
  pub type : String
  pub budget_tokens : ℕ

pub record OutputConfig : Type 0 where
  pub effort : String
  pub format : RawMessage

pub record ToolDefinition : Type 0 where
  pub name : String
  pub description : String
  pub input_schema : RawMessage
  pub cache : Option CacheControl

pub record ToolChoiceWire : Type 0 where
  pub type : String
  pub name : String

-- `system` is nil, or the blocks of a `SystemContent`.
pub record MessageRequest : Type 0 where
  pub model : String
  pub max_tokens : ℕ
  pub messages : List InputMessage
  pub system : Option (List ContentBlock)
  pub temperature : Option Float64
  pub top_p : Option Float64
  pub top_k : Option ℕ
  pub stop_sequences : List String
  pub stream : Bool
  pub thinking : Option ThinkingConfig
  pub output_config : Option OutputConfig
  pub cache_control : Option CacheControl
  pub context_management : RawMessage
  pub tools : List ToolDefinition
  pub tool_choice : Option ToolChoiceWire
  pub metadata : AnyMap
  pub betas : List String
  pub claude_session_id : String
  pub open_router_models : RawMessage
  pub open_router_route : RawMessage
  pub open_router_provider : RawMessage
  pub open_router_prefs : RawMessage
  pub open_router_plugins : RawMessage
  pub open_router_debug : RawMessage
  pub open_router_trace : RawMessage
  pub open_router_session_id : RawMessage

pub record QuotaWindow : Type 0 where
  pub name : String
  pub utilization : Option Float64
  pub limit : Option ℕ
  pub remaining : Option ℕ
  pub window_minutes : Option ℕ
  pub reset_unix : Option ℕ
  pub reset_rfc3339 : String

pub record QuotaEvent : Type 0 where
  pub type : String
  pub provider : String
  pub windows : List QuotaWindow
  pub headers : Assoc String (List String)

pub record BlockDelta : Type 0 where
  pub type : String
  pub text : String
  pub partial_json : String
  pub thinking : String
  pub signature : String

pub record MessageDeltaBody : Type 0 where
  pub stop_reason : String
  pub stop_sequence : String
  pub stop_details : RawMessage

pub record CacheCreationUsage : Type 0 where
  pub ephemeral_5m_input_tokens : ℕ
  pub ephemeral_1h_input_tokens : ℕ

pub record UsageIteration : Type 0 where
  pub type : String
  pub input_tokens : ℕ
  pub output_tokens : ℕ
  pub cache_creation_input_tokens : ℕ
  pub cache_read_input_tokens : ℕ
  pub cache_creation : Option CacheCreationUsage

pub record UsageWire : Type 0 where
  pub input_tokens : ℕ
  pub output_tokens : ℕ
  pub cache_creation_input_tokens : ℕ
  pub cache_read_input_tokens : ℕ
  pub cache_creation : Option CacheCreationUsage
  pub service_tier : String
  pub inference_geo : String
  pub iterations : List UsageIteration
  pub server_tool_use : Assoc String ℕ

pub record MessageResponse : Type 0 where
  pub id : String
  pub type : String
  pub role : String
  pub content : List ContentBlock
  pub model : String
  pub stop_reason : String
  pub stop_sequence : String
  pub stop_details : RawMessage
  pub usage : Option UsageWire
  pub context_management : RawMessage

pub record ApiErrorBody : Type 0 where
  pub type : String
  pub message : String

-- The events of the stream; of the message of a start event only what the decoder reads.
pub data WireEvent : Type 0 where
  quota_usage : QuotaEvent → WireEvent
  message_start : (id model : String) → WireEvent
  content_block_start : (index : ℕ) (block : ContentBlock) → WireEvent
  content_block_delta : (index : ℕ) (delta : BlockDelta) → WireEvent
  content_block_stop : (index : ℕ) → WireEvent
  message_delta : (delta : MessageDeltaBody) (usage : Option UsageWire) → WireEvent
  message_stop : WireEvent
  ping : WireEvent
  error : ApiErrorBody → WireEvent
  raw : (type : String) (json : RawMessage) → WireEvent
