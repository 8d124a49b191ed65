-- ===== src/Providers/Anthropic/Decoder.antt =====
-- `EventDecoder` of providers/anthropic/messages/decoder.go. `json.Marshal` of the values that
-- reach a `ProviderRaw` is a parameter for each type. The event types are a closed sum, so the
-- default case of `Push`, which returns the only error, does not arise.
use llmadapter.Prelude.{
  ℕ, String, ◌<>◌, Bool, false, not, ◌&&◌, ◌||◌, Option, none, some, List, [], ◌∷◌, ◌++◌, map,
  is_nil, ◌==◌, nat_eq, string_eq, if◌then◌else◌,
}
use llmadapter.Prelude.Assoc.{Assoc, text_at, insert, remove}
use llmadapter.Unified.Kinds.{
  FinishReason, role_assistant, content_kind_text, content_kind_reasoning, content_kind_tool_call,
  finish_reason_stop, finish_reason_length, finish_reason_tool_call, finish_reason_unknown,
  api_anthropic_messages,
}
use llmadapter.Unified.Content.{RawMessage}
use llmadapter.Unified.Errors.{GoError, api, formatted, Result, ok, err}
use llmadapter.Unified.Usage.{
  Float64, tokens_non_zero, token_kind_input_new, token_kind_input_cache_read,
  token_kind_input_cache_write, token_kind_output,
}
use llmadapter.Unified.Event.{Event}
use llmadapter.Providers.Citations.{AnyValue, AnyValues, Spec, from_map}
use llmadapter.Providers.Anthropic.Wire.{
  WireEvent, ContentBlock, BlockDelta, MessageDeltaBody, UsageWire, ApiErrorBody, CitationValue,
  object, no_object,
}
use llmadapter.Providers.Anthropic.Quota.{QuotaOps, quota_event_to_unified}

pub record EventDecoder : Type 0 where
  pub block_types : Assoc ℕ String
  pub tool_ids : Assoc ℕ String
  pub tool_names : Assoc ℕ String
  pub tool_args : Assoc ℕ String
  pub message_id : String

abbrev pub new_event_decoder : EventDecoder
new_event_decoder = record {
  block_types = [];
  tool_ids = [];
  tool_names = [];
  tool_args = [];
  message_id = "";
}

pub record DecoderOps : Type 0 where
  pub quota : QuotaOps
  pub int_of_float : Float64 → ℕ
  pub show_value : AnyValue → String
  pub marshal_block : ContentBlock → Result RawMessage
  pub marshal_delta : ℕ → BlockDelta → Result RawMessage
  pub marshal_usage : UsageWire → Result RawMessage
  pub marshal_error : ApiErrorBody → Result RawMessage
  pub marshal_values : AnyValues → Result RawMessage

-- `providerRawJSON` behind `json.Marshal`
unfoldable provider_raw_json : Result RawMessage → RawMessage
provider_raw_json (ok raw) = if raw == "null" then "" else raw
provider_raw_json (err e) = ""

unfoldable map_stop_reason : String → FinishReason
map_stop_reason reason =
    if reason == "end_turn" || reason == "stop_sequence"
    then finish_reason_stop
    else if reason == "max_tokens"
    then finish_reason_length
    else if reason == "tool_use"
    then finish_reason_tool_call
    else finish_reason_unknown

abbrev citation_spec : Spec
citation_spec = record {
  text_keys = "cited_text" ∷ "text" ∷ "quote" ∷ [];
  title_keys = "title" ∷ "document_title" ∷ [];
  document_id_keys = "document_id" ∷ "file_id" ∷ [];
  start_keys = "start_char_index" ∷ "start_offset" ∷ "start_index" ∷ [];
  end_keys = "end_char_index" ∷ "end_offset" ∷ "end_index" ∷ [];
}

-- The input of a tool block that is written as its first argument text.
abbrev pub first_input : RawMessage → Bool
first_input input = not (input == "") && not (input == "null") && not (input == "{}")

-- What a new tool block leaves in the state.
unfoldable pub open_tool : ℕ → ContentBlock → EventDecoder → EventDecoder
open_tool index block d = record d {
  tool_ids = insert index block.id d.tool_ids;
  tool_names = insert index block.name d.tool_names;
  tool_args = insert index (if first_input block.input then block.input else "") d.tool_args;
}

-- The state after a block has started.
unfoldable pub start_state : ℕ → ContentBlock → EventDecoder → EventDecoder
unfolding open_tool
start_state index block d =
    let noted = record d { block_types = insert index block.type d.block_types } in
    if block.type == "tool_use" then open_tool index block noted else noted

module _ (ops : DecoderOps) where
  unfoldable citation_event : ℕ → CitationValue → Event
  unfolding provider_raw_json
  citation_event index (no_object value) =
      Event.raw (record { api_kind = api_anthropic_messages; type = "citation"; json = "" })
  citation_event index (object values) =
      let citation = from_map ops.int_of_float ops.show_value values citation_spec in
      if citation.type == ""
      then Event.raw (record {
        api_kind = api_anthropic_messages;
        type = "citation";
        json = provider_raw_json (ops.marshal_values values);
      })
      else Event.citation (record { index = index; citation = citation })

  unfoldable pub start_events : ℕ → ContentBlock → List Event
  unfolding citation_event provider_raw_json
  start_events index block =
      if block.type == "text"
      then (Event.content_block_start index content_kind_text "" ""
          ∷ map (citation_event index) block.citations)
      else if block.type == "thinking"
      then (Event.content_block_start index content_kind_reasoning "" ""
          ∷ (if not (block.thinking == "") || not (block.signature == "")
              then Event.reasoning_delta index block.thinking block.signature ∷ []
              else []))
      else if block.type == "tool_use"
      then (Event.content_block_start index content_kind_tool_call block.id block.name
          ∷ Event.tool_call_start index block.id block.name
          ∷ (if first_input block.input
              then Event.tool_call_args_delta index block.id block.input ∷ []
              else []))
      else Event.raw (record {
        api_kind = "anthropic.messages";
        type = block.type;
        json = provider_raw_json (ops.marshal_block block);
      })
        ∷ []

  unfoldable pub content_block_delta : ℕ → BlockDelta → EventDecoder → List Event × EventDecoder
  unfolding provider_raw_json
  content_block_delta index delta d =
      if delta.type == "text_delta"
      then (Event.text_delta index delta.text ∷ [], d)
      else if delta.type == "input_json_delta"
      then (
        Event.tool_call_args_delta index (text_at index d.tool_ids) delta.partial_json ∷ [],
        record d {
          tool_args = insert index (text_at index d.tool_args <> delta.partial_json) d.tool_args;
        },
      )
      else if delta.type == "thinking_delta"
      then (Event.reasoning_delta index delta.thinking "" ∷ [], d)
      else if delta.type == "signature_delta"
      then (Event.reasoning_delta index "" delta.signature ∷ [], d)
      else (
        Event.raw (record {
          api_kind = api_anthropic_messages;
          type = delta.type;
          json = provider_raw_json (ops.marshal_delta index delta);
        })
            ∷ [],
        d,
      )

  unfoldable pub content_block_stop : ℕ → EventDecoder → List Event × EventDecoder
  content_block_stop index d =
      let type = text_at index d.block_types in
      let closed = record d { block_types = remove index d.block_types } in
      if type == "tool_use"
      then (
        Event.tool_call_done index (text_at index d.tool_ids) (text_at index d.tool_names)
              (text_at index d.tool_args)
            ∷ Event.content_block_done index content_kind_tool_call
            ∷ [],
        record closed {
          tool_ids = remove index d.tool_ids;
          tool_names = remove index d.tool_names;
          tool_args = remove index d.tool_args;
        },
      )
      else if type == "thinking"
      then (Event.content_block_done index content_kind_reasoning ∷ [], closed)
      else (Event.content_block_done index content_kind_text ∷ [], closed)

  unfoldable usage_events : Option UsageWire → List Event
  unfolding provider_raw_json tokens_non_zero
  usage_events none = []
  usage_events (some u) =
      Event.usage (record {
        tokens = tokens_non_zero (
            (record { kind = token_kind_input_new; count = u.input_tokens })
            ∷ (record { kind = token_kind_input_cache_read; count = u.cache_read_input_tokens })
            ∷ (record {
              kind = token_kind_input_cache_write;
              count = u.cache_creation_input_tokens;
            })
            ∷ (record { kind = token_kind_output; count = u.output_tokens })
            ∷ []);
        costs = [];
        provider_raw = provider_raw_json (ops.marshal_usage u);
      })
      ∷ []

  unfoldable pub message_delta : MessageDeltaBody → Option UsageWire → EventDecoder → List Event
  unfolding map_stop_reason usage_events
  message_delta delta u d =
      (if not (delta.stop_reason == "")
        then Event.completed (map_stop_reason delta.stop_reason) d.message_id ∷ []
        else [])
      ++ usage_events u

  unfoldable pub push : WireEvent → EventDecoder → List Event × EventDecoder
  unfolding start_state start_events content_block_delta content_block_stop message_delta
      provider_raw_json
  push (WireEvent.quota_usage e) d =
      (Event.quota_usage (quota_event_to_unified ops.quota e) ∷ [], d)
  push (WireEvent.message_start id model) d =
      (Event.message_start id model role_assistant "" 0 ∷ [], record d { message_id = id })
  push (WireEvent.content_block_start index block) d =
      (start_events index block, start_state index block d)
  push (WireEvent.content_block_delta index delta) d = content_block_delta index delta d
  push (WireEvent.content_block_stop index) d = content_block_stop index d
  push (WireEvent.message_delta delta u) d = (message_delta delta u d, d)
  push WireEvent.message_stop d = (Event.message_done d.message_id "" ∷ [], d)
  push WireEvent.ping d = ([], d)
  push (WireEvent.error e) d = (
    Event.error
          (some (
            api (record {
              status_code = 0;
              type = e.type;
              code = "";
              message = e.message;
              param = "";
              retry_after = 0;
              provider_raw = provider_raw_json (ops.marshal_error e);
            })))
          false
        ∷ [],
    d,
  )
  push (WireEvent.raw type json) d =
      (Event.raw (record { api_kind = api_anthropic_messages; type = type; json = json }) ∷ [], d)

-- `Close`
unfoldable close_decoder : EventDecoder → Option GoError
close_decoder d =
    if is_nil d.tool_args then none else some (formatted "incomplete Anthropic tool call stream" [])
