-- ===== src/Unified/Event.antt =====
-- unified/event.go. The marker methods `isEvent` make the types below the constructors of one
-- closed sum. Times are nanosecond counts.
use llmadapter.Prelude.{ℕ, String, Bool, Option, List}
use llmadapter.Unified.Kinds.{
  Role, MessagePhase, ContentKind, FinishReason, ContinuationMode, TransportKind,
}
use llmadapter.Unified.Content.{RawMessage, AnyMap}
use llmadapter.Unified.Errors.{GoError}
use llmadapter.Unified.Usage.{Float64, UsageEvent}

pub record Citation : Type 0 where
  pub type : String
  pub text : String
  pub url : String
  pub title : String
  pub start_offset : ℕ
  pub end_offset : ℕ
  pub document_id : String
  pub meta : AnyMap

pub record CitationEvent : Type 0 where
  pub index : ℕ
  pub citation : Citation

pub record QuotaCredits : Type 0 where
  pub has_credits : Option Bool
  pub unlimited : Option Bool
  pub balance : String

pub record QuotaWindowUsage : Type 0 where
  pub name : String
  pub used_percent : Float64
  pub limit : Option ℕ
  pub remaining : Option ℕ
  pub window_minutes : Option ℕ
  pub resets_at_unix : Option ℕ

pub record QuotaLimitUsage : Type 0 where
  pub id : String
  pub name : String
  pub windows : List QuotaWindowUsage
  pub credits : Option QuotaCredits

pub record QuotaUsageEvent : Type 0 where
  pub provider : String
  pub plan : String
  pub limits : List QuotaLimitUsage
  pub provider_raw : RawMessage

pub record WarningEvent : Type 0 where
  pub code : String
  pub message : String
  pub source : String
  pub meta : AnyMap

pub record RawEvent : Type 0 where
  pub api_kind : String
  pub type : String
  pub json : RawMessage

pub record RouteEvent : Type 0 where
  pub source_api : String
  pub target_api : String
  pub target_family : String
  pub provider_name : String
  pub public_model : String
  pub native_model : String
  pub consumer_continuation : ContinuationMode
  pub internal_continuation : ContinuationMode
  pub transport : TransportKind

pub record ProviderExecutionEvent : Type 0 where
  pub internal_continuation : ContinuationMode
  pub transport : TransportKind

pub data Event : Type 0 where
  message_start : (id model : String) (role : Role) (phase : MessagePhase) (time : ℕ) → Event
  message_done : (id : String) (phase : MessagePhase) → Event
  content_block_start : (index : ℕ) (kind : ContentKind) (id name : String) → Event
  content_block_done : (index : ℕ) (kind : ContentKind) → Event
  text_delta : (index : ℕ) (text : String) → Event
  reasoning_delta : (index : ℕ) (text signature : String) → Event
  refusal_delta : (index : ℕ) (text : String) → Event
  tool_call_start : (index : ℕ) (id name : String) → Event
  tool_call_args_delta : (index : ℕ) (id delta : String) → Event
  tool_call_done : (index : ℕ) (id name : String) (args : RawMessage) → Event
  citation : CitationEvent → Event
  usage : UsageEvent → Event
  quota_usage : QuotaUsageEvent → Event
  completed : (finish_reason : FinishReason) (message_id : String) → Event
  warning : WarningEvent → Event
  raw : RawEvent → Event
  route : RouteEvent → Event
  provider_execution : ProviderExecutionEvent → Event
  error : (err : Option GoError) (recoverable : Bool) → Event
