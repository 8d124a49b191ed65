-- ===== src/Unified/Kinds.antt =====
-- The named string types of the packages `unified` and `adapt` with their constants. A Go string
-- type admits every text, so each is `String`.
use llmadapter.Prelude.{String, Bool, ◌||◌, ◌==◌, string_eq}

-- unified/content.go
abbrev pub ContentKind : Type 0
ContentKind = String

abbrev pub content_kind_text : ContentKind
content_kind_text = "text"

abbrev pub content_kind_reasoning : ContentKind
content_kind_reasoning = "reasoning"

abbrev pub content_kind_refusal : ContentKind
content_kind_refusal = "refusal"

abbrev pub content_kind_tool_call : ContentKind
content_kind_tool_call = "tool_call"

abbrev pub blob_source_url : String
blob_source_url = "url"

abbrev pub blob_source_base64 : String
blob_source_base64 = "base64"

-- unified/message.go
abbrev pub Role : Type 0
Role = String

abbrev pub role_assistant : Role
role_assistant = "assistant"

abbrev pub role_tool : Role
role_tool = "tool"

abbrev pub instruction_system : String
instruction_system = "system"

abbrev pub instruction_developer : String
instruction_developer = "developer"

abbrev pub MessagePhase : Type 0
MessagePhase = String

-- unified/event.go
abbrev pub FinishReason : Type 0
FinishReason = String

abbrev pub finish_reason_unknown : FinishReason
finish_reason_unknown = "unknown"

abbrev pub finish_reason_stop : FinishReason
finish_reason_stop = "stop"

abbrev pub finish_reason_length : FinishReason
finish_reason_length = "length"

abbrev pub finish_reason_tool_call : FinishReason
finish_reason_tool_call = "tool_call"

-- unified/metadata.go
abbrev pub ContinuationMode : Type 0
ContinuationMode = String

abbrev pub TransportKind : Type 0
TransportKind = String

abbrev pub InteractionMode : Type 0
InteractionMode = String

abbrev interaction_auto : InteractionMode
interaction_auto = "auto"

abbrev interaction_one_shot : InteractionMode
interaction_one_shot = "one_shot"

abbrev interaction_session : InteractionMode
interaction_session = "session"

unfoldable pub valid_interaction_mode : InteractionMode → Bool
valid_interaction_mode mode =
    mode == interaction_auto || mode == interaction_one_shot || mode == interaction_session

-- unified/response_format.go
abbrev pub ResponseFormatKind : Type 0
ResponseFormatKind = String

abbrev pub response_format_json : ResponseFormatKind
response_format_json = "json"

abbrev pub response_format_json_schema : ResponseFormatKind
response_format_json_schema = "json_schema"

abbrev pub response_format_text : ResponseFormatKind
response_format_text = "text"

abbrev pub ReasoningEffort : Type 0
ReasoningEffort = String

-- unified/tool.go
abbrev pub tool_kind_function : String
tool_kind_function = "function"

abbrev pub tool_choice_auto : String
tool_choice_auto = "auto"

abbrev pub tool_choice_any : String
tool_choice_any = "any"

abbrev pub tool_choice_none : String
tool_choice_none = "none"

abbrev pub tool_choice_required : String
tool_choice_required = "required"

abbrev pub tool_choice_tool : String
tool_choice_tool = "tool"

-- adapt/types.go
abbrev pub ApiKind : Type 0
ApiKind = String

abbrev pub api_anthropic_messages : ApiKind
api_anthropic_messages = "anthropic.messages"

abbrev pub api_openai_responses : ApiKind
api_openai_responses = "openai.responses"

abbrev pub api_openai_chat_completions : ApiKind
api_openai_chat_completions = "openai.chat_completions"

abbrev pub api_open_router_chat_completions : ApiKind
api_open_router_chat_completions = "openrouter.chat_completions"

abbrev pub ApiFamily : Type 0
ApiFamily = String
