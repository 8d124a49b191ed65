-- ===== src/Unified/Response.antt =====
-- `Response` of unified/response.go, and `AssistantMessageFromResponse` of unified/message.go.
-- A slice is a value here, so the copies that `append` and `cloneToolCalls` make are the lists.
use llmadapter.Prelude.{String, List, []}
use llmadapter.Unified.Kinds.{MessagePhase, FinishReason, role_assistant}
use llmadapter.Unified.Content.{ContentPart}
use llmadapter.Unified.Request.{ToolCall, Message}
use llmadapter.Unified.Usage.{Usage}
use llmadapter.Unified.Event.{QuotaUsageEvent, WarningEvent, CitationEvent, RawEvent}

pub record Response : Type 0 where
  pub id : String
  pub model : String
  pub phase : MessagePhase
  pub content : List ContentPart
  pub tool_calls : List ToolCall
  pub finish_reason : FinishReason
  pub usage : Usage
  pub quotas : List QuotaUsageEvent
  pub warnings : List WarningEvent
  pub citations : List CitationEvent
  pub raw : List RawEvent

abbrev pub empty_response : Response
empty_response = record {
  id = "";
  model = "";
  phase = "";
  content = [];
  tool_calls = [];
  finish_reason = "";
  usage = record { tokens = []; costs = []; provider_raw = "" };
  quotas = [];
  warnings = [];
  citations = [];
  raw = [];
}

unfoldable assistant_message_from_response : Response → Message
assistant_message_from_response resp = record {
  role = role_assistant;
  id = resp.id;
  name = "";
  phase = resp.phase;
  content = resp.content;
  tool_calls = resp.tool_calls;
  tool_results = [];
  meta = [];
}
