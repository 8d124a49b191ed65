-- ===== src/Providers/ChatCompletions/Decoder.antt =====
-- `streamDecoder` of providers/openai/chatcompletions/codec.go from the decoded chunk on.
-- `json.Marshal` is a parameter. The maps that `ensureToolMaps` makes are empty
-- from the start: a nil map reads as an empty one.
use llmadapter.Prelude.{
  ℕ, String, ◌<>◌, Bool, true, false, not, ◌&&◌, ◌||◌, Option, none, some, List, [], ◌∷◌, ◌++◌,
  ◌==◌, nat_eq, string_eq, if◌then◌else◌, is_nil,
}
use llmadapter.Prelude.Assoc.{Assoc, text_at, lookup, insert, remove, keys}
use llmadapter.Prelude.Int64
use llmadapter.Prelude.StableSort.{stable_sort}
use llmadapter.Unified.Kinds.{
  FinishReason, role_assistant, content_kind_text, content_kind_tool_call, finish_reason_stop,
  finish_reason_length, finish_reason_tool_call, finish_reason_unknown,
}
use llmadapter.Unified.Content.{RawMessage}
use llmadapter.Unified.Errors.{api, Result, ok, err}
use llmadapter.Unified.Usage.{
  TokenItems, tokens_non_zero, token_kind_input_new, token_kind_input_cache_read, token_kind_output,
  token_kind_output_reasoning,
}
use llmadapter.Unified.Event.{Event}
use llmadapter.Transport.Bytes.{bytes_eq}
use llmadapter.Providers.ChatCompletions.Wire.{
  ToolCallWire, ChoiceWire, TokenDetailsWire, UsageWire, ChunkWire,
}

pub record StreamDecoder : Type 0 where
  pub id : String
  pub model : String
  pub started : Bool
  pub tool_ids : Assoc ℕ String
  pub tool_names : Assoc ℕ String
  pub tool_args : Assoc ℕ String
  pub started_tools : Assoc ℕ Bool

abbrev pub new_decoder : StreamDecoder
new_decoder = record {
  id = "";
  model = "";
  started = false;
  tool_ids = [];
  tool_names = [];
  tool_args = [];
  started_tools = [];
}

-- A part of `push`: the events that it appends and the state that it leaves.
abbrev pub Emit : Type 0
Emit = StreamDecoder → List Event × StreamDecoder

abbrev pub both : Emit → Emit → Emit
both f g d = let (out, d') = f d in let (more, d'') = g d' in (out ++ more, d'')

unfoldable pub each {ℓ} : {A : Type ℓ} → (A → Emit) → List A → Emit
each f [] d = ([], d)
each f (x ∷ xs) d = both (f x) (each f xs) d

-- A missing key reads as false.
abbrev flag_at : ℕ → Assoc ℕ Bool → Bool
flag_at index m = elim (lookup index m) [ none ↦ false | some flag ↦ flag ]

unfoldable pub map_finish_reason : String → FinishReason
map_finish_reason reason =
    if reason == "stop"
    then finish_reason_stop
    else if reason == "length"
    then finish_reason_length
    else if reason == "tool_calls"
    then finish_reason_tool_call
    else finish_reason_unknown

abbrev details_of : (TokenDetailsWire → ℕ) → Option TokenDetailsWire → ℕ
details_of field none = 0
details_of field (some details) = field details

-- `a - b`, and zero where that is negative
abbrev sub_or_zero : ℕ → ℕ → ℕ
sub_or_zero a b = if Int64.lt (Int64.sub a b) 0 then 0 else Int64.sub a b

unfoldable token_items_from_usage : UsageWire → TokenItems
unfolding tokens_non_zero
token_items_from_usage usage =
    let cached = details_of (λ d. d.cached_tokens) usage.prompt_tokens_details in
    let reasoning = details_of (λ d. d.reasoning_tokens) usage.completion_tokens_details in
    tokens_non_zero (
      (record { kind = token_kind_input_new; count = sub_or_zero usage.prompt_tokens cached })
      ∷ (record { kind = token_kind_input_cache_read; count = cached })
      ∷ (record { kind = token_kind_output; count = sub_or_zero usage.completion_tokens reasoning })
      ∷ (record { kind = token_kind_output_reasoning; count = reasoning })
      ∷ [])

-- The id and the name that a part of a call brings.
unfoldable pub note_call : ToolCallWire → StreamDecoder → StreamDecoder
note_call call d = record d {
  tool_ids = if not (call.id == "") then insert call.index call.id d.tool_ids else d.tool_ids;
  tool_names =
      if not (call.function.name == "")
      then insert call.index call.function.name d.tool_names
      else d.tool_names;
}

unfoldable pub start_call : ToolCallWire → Emit
start_call call d =
    if not (flag_at call.index d.started_tools)
      && (not (call.id == "") || not (call.function.name == ""))
    then (
      Event.content_block_start call.index content_kind_tool_call (text_at call.index d.tool_ids)
            (text_at call.index d.tool_names)
          ∷ Event.tool_call_start call.index (text_at call.index d.tool_ids)
              (text_at call.index d.tool_names)
          ∷ [],
      record d { started_tools = insert call.index true d.started_tools },
    )
    else ([], d)

unfoldable pub append_arguments : ToolCallWire → Emit
append_arguments call d =
    if not (call.function.arguments == "")
    then (
      Event.tool_call_args_delta call.index (text_at call.index d.tool_ids) call.function.arguments
          ∷ [],
      record d {
        tool_args =
            insert call.index (text_at call.index d.tool_args <> call.function.arguments)
              d.tool_args;
      },
    )
    else ([], d)

unfoldable pub push_call : ToolCallWire → Emit
unfolding note_call start_call append_arguments
push_call call d = both (start_call call) (append_arguments call) (note_call call d)

-- One turn of the loop of `finishToolCalls`.
unfoldable pub finish_tool_call : ℕ → Emit
finish_tool_call index d = (
  Event.tool_call_done index (text_at index d.tool_ids) (text_at index d.tool_names)
        (text_at index d.tool_args)
      ∷ Event.content_block_done index content_kind_tool_call
      ∷ [],
  record d {
    started_tools = remove index d.started_tools;
    tool_ids = remove index d.tool_ids;
    tool_names = remove index d.tool_names;
    tool_args = remove index d.tool_args;
  },
)

unfoldable pub finish_tool_calls : Emit
unfolding each finish_tool_call
finish_tool_calls d = each finish_tool_call (stable_sort Int64.lt (keys d.started_tools)) d

-- What a finish reason appends behind the finished calls.
unfoldable pub complete : List Event → String → StreamDecoder → List Event
unfolding map_finish_reason
complete tool_done reason d =
    let mapped = map_finish_reason reason in
    let finish =
      if not (is_nil tool_done) && mapped == finish_reason_stop
      then finish_reason_tool_call
      else mapped in
    tool_done
    ++ (Event.content_block_done 0 content_kind_text
        ∷ Event.completed finish d.id
        ∷ Event.message_done d.id ""
        ∷ [])

abbrev completed_choice : String → List Event × StreamDecoder → List Event × StreamDecoder
completed_choice reason (tool_done, d) = (complete tool_done reason d, d)

unfoldable pub finish_choice : String → Emit
unfolding finish_tool_calls complete
finish_choice reason d =
    if not (reason == "") then completed_choice reason (finish_tool_calls d) else ([], d)

unfoldable pub push_content : String → Emit
push_content content d = (if not (content == "") then Event.text_delta 0 content ∷ [] else [], d)

unfoldable push_choice : ChoiceWire → Emit
unfolding each push_call finish_choice push_content
push_choice choice =
    both (push_content choice.delta.content)
      (both (each push_call choice.delta.tool_calls) (finish_choice choice.finish_reason))

-- The id and the model that a chunk brings.
unfoldable note_chunk : ChunkWire → StreamDecoder → StreamDecoder
note_chunk chunk d = record d {
  id = if not (chunk.id == "") then chunk.id else d.id;
  model = if not (chunk.model == "") then chunk.model else d.model;
}

unfoldable start_message : Emit
start_message d =
    if not d.started
    then (
      Event.message_start d.id d.model role_assistant "" 0
          ∷ Event.content_block_start 0 content_kind_text "" ""
          ∷ [],
      record d { started = true },
    )
    else ([], d)

module _ (marshal_usage : UsageWire → Result RawMessage) where
  unfoldable provider_raw_usage : UsageWire → RawMessage
  provider_raw_usage usage = elim (marshal_usage usage) [
    | ok raw ↦ if raw == "null" then "" else raw
    | err e ↦ ""
  ]

  unfoldable push_usage : Option UsageWire → Emit
  unfolding token_items_from_usage provider_raw_usage
  push_usage none d = ([], d)
  push_usage (some usage) d = (
    Event.usage (record {
      tokens = token_items_from_usage usage;
      costs = [];
      provider_raw = provider_raw_usage usage;
    })
        ∷ [],
    d,
  )

  -- `push` from the decoded chunk on.
  unfoldable pub push_chunk : ChunkWire → RawMessage → Emit
  unfolding note_chunk start_message each push_choice push_usage
  push_chunk chunk raw d = elim chunk.error [
    | some e ↦ (
      Event.error
            (some (
              api (record {
                status_code = 0;
                type = e.type;
                code = e.code;
                message = e.message;
                param = "";
                retry_after = 0;
                provider_raw = raw;
              })))
            false
          ∷ [],
      d,
    )
    | none ↦
        both start_message (both (each push_choice chunk.choices) (push_usage chunk.usage))
          (note_chunk chunk d)
  ]
