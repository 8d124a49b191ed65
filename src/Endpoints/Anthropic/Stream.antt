-- ===== src/Endpoints/Anthropic/Stream.antt =====
-- `streamState` of endpoints/anthropicmessages/codec.go, with `stopReason` and `usageFromUnified`.
-- The frames carry the event types of anthropicwire/, of which a start event keeps the id and the
-- model of its message: its type, role and content are always "message", "assistant" and empty.
-- The maps that `ensure` makes are empty from the start: a nil map reads as an empty one.
use llmadapter.Prelude.{
  ℕ, String, ◌<>◌, Bool, true, false, not, ◌&&◌, Option, none, some, List, [], ◌∷◌, ◌++◌, ◌==◌,
  nat_eq, string_eq, if◌then◌else◌, is_some, suc, ◌+◌, length,
}
use llmadapter.Prelude.Assoc.{Assoc, text_at, lookup, insert, remove}
use llmadapter.Unified.Kinds.{
  ContentKind, FinishReason, content_kind_text, content_kind_reasoning, content_kind_tool_call,
  finish_reason_stop, finish_reason_length, finish_reason_tool_call,
}
use llmadapter.Unified.Content.{RawMessage}
use llmadapter.Unified.Errors.{GoError}
use llmadapter.Unified.Usage.{
  Usage, usage, has_tokens, input_new_tokens, output_tokens, cache_read_tokens, cache_write_tokens,
}
use llmadapter.Unified.Event.{Event}
use llmadapter.Unified.Collect.{first_non_empty}
use llmadapter.Providers.Anthropic.Wire.{WireEvent, ContentBlock, BlockDelta, UsageWire}

pub record StreamFrame : Type 0 where
  pub event : String
  pub payload : WireEvent

pub record StreamState : Type 0 where
  pub id : String
  pub model : String
  pub usage_so_far : Usage
  pub started : Assoc ℕ ContentKind
  pub tool_ids : Assoc ℕ String
  pub tool_names : Assoc ℕ String
  pub tool_args : Assoc ℕ String
  pub message_end : Bool

abbrev pub new_stream_state : StreamState
new_stream_state = record {
  id = "";
  model = "";
  usage_so_far = record { tokens = []; costs = []; provider_raw = "" };
  started = [];
  tool_ids = [];
  tool_names = [];
  tool_args = [];
  message_end = false;
}

unfoldable pub stop_reason : FinishReason → String
stop_reason reason =
    if reason == finish_reason_stop
    then "end_turn"
    else if reason == finish_reason_length
    then "max_tokens"
    else if reason == finish_reason_tool_call
    then "tool_use"
    else reason

unfoldable pub usage_from_unified : Usage → Option UsageWire
unfolding has_tokens
usage_from_unified u =
    if not (has_tokens u)
    then none
    else some (record {
      input_tokens = input_new_tokens u;
      output_tokens = output_tokens u;
      cache_creation_input_tokens = cache_write_tokens u;
      cache_read_input_tokens = cache_read_tokens u;
      cache_creation = none;
      service_tier = "";
      inference_geo = "";
      iterations = [];
      server_tool_use = [];
    })

abbrev pub empty_block : ContentBlock
empty_block = record {
  type = "";
  text = "";
  cache = none;
  source = none;
  id = "";
  name = "";
  input = "";
  tool_use_id = "";
  content = "";
  is_error = false;
  citations = [];
  thinking = "";
  signature = "";
}

abbrev pub empty_delta : BlockDelta
empty_delta = record { type = ""; text = ""; partial_json = ""; thinking = ""; signature = "" }

-- A part of `push`: the frames that it returns and the state that it leaves.
abbrev pub Frames : Type 0
Frames = StreamState → List StreamFrame × StreamState

abbrev delta_frame : ℕ → BlockDelta → StreamFrame
delta_frame index delta = record {
  event = "content_block_delta";
  payload = WireEvent.content_block_delta index delta;
}

-- The block that a start event announces.
abbrev block_of : ContentKind → String → String → ContentBlock
block_of kind id name =
    if kind == content_kind_tool_call
    then record empty_block { type = "tool_use"; id = id; name = name; input = "{}" }
    else if kind == content_kind_reasoning
    then record empty_block { type = "thinking" }
    else record empty_block { type = "text" }

abbrev start_frame : ℕ → ContentBlock → StreamFrame
start_frame index block = record {
  event = "content_block_start";
  payload = WireEvent.content_block_start index block;
}

-- The id and the name that a new tool block keeps.
abbrev pub keep_tool : ℕ → ContentKind → String → String → StreamState → StreamState
keep_tool index kind id name s =
    if kind == content_kind_tool_call
    then record s {
      tool_ids = insert index (first_non_empty id (text_at index s.tool_ids)) s.tool_ids;
      tool_names = insert index (first_non_empty name (text_at index s.tool_names)) s.tool_names;
    }
    else s

unfoldable pub start_block : ℕ → ContentKind → String → String → Frames
start_block index kind id name s = if is_some (lookup index s.started) then ([], s) else (
  start_frame index (
        block_of kind (first_non_empty id (text_at index s.tool_ids))
          (first_non_empty name (text_at index s.tool_names)))
      ∷ [],
  keep_tool index kind id name (record s { started = insert index kind s.started }),
)

unfoldable pub stop_block : ℕ → Frames
stop_block index s =
    if is_some (lookup index s.started)
    then (
      (record { event = "content_block_stop"; payload = WireEvent.content_block_stop index }) ∷ [],
      record s { started = remove index s.started },
    )
    else ([], s)

-- Frames behind those of a started block.
abbrev pub with_frames :
    List StreamFrame → List StreamFrame × StreamState → List StreamFrame × StreamState
with_frames more (out, s) = (out ++ more, s)

abbrev pub before_frames :
    List StreamFrame → List StreamFrame × StreamState → List StreamFrame × StreamState
before_frames first (out, s) = (first ++ out, s)

abbrev pub reasoning_frames : ℕ → String → String → List StreamFrame
reasoning_frames index text signature =
    (if not (text == "")
      then delta_frame index (record empty_delta { type = "thinking_delta"; thinking = text }) ∷ []
      else [])
    ++ (if not (signature == "")
        then delta_frame index
            (record empty_delta { type = "signature_delta"; signature = signature })
          ∷ []
        else [])

abbrev pub arguments_frame : ℕ → String → StreamFrame
arguments_frame index json =
    delta_frame index (record empty_delta { type = "input_json_delta"; partial_json = json })

-- The arguments that come only with the end of a call.
abbrev pub late_arguments : ℕ → RawMessage → StreamState → List StreamFrame
late_arguments index args s =
    if text_at index s.tool_args == "" && not (args == "")
    then arguments_frame index args ∷ []
    else []

unfoldable pub complete : FinishReason → Frames
unfolding stop_reason usage_from_unified
complete reason s = if s.message_end then ([], s) else (
  (record {
    event = "message_delta";
    payload =
        WireEvent.message_delta
          (record { stop_reason = stop_reason reason; stop_sequence = ""; stop_details = "" })
          (usage_from_unified s.usage_so_far);
  })
      ∷ (record { event = "message_stop"; payload = WireEvent.message_stop })
      ∷ [],
  record s { message_end = true },
)

unfoldable pub push : Event → Frames
unfolding start_block stop_block complete usage
push (Event.message_start id model role phase time) s = (
  (record { event = "message_start"; payload = WireEvent.message_start id model }) ∷ [],
  record s { id = id; model = model },
)
push (Event.content_block_start index kind id name) s = start_block index kind id name s
push (Event.text_delta index text) s =
    with_frames (delta_frame index (record empty_delta { type = "text_delta"; text = text }) ∷ [])
      (start_block index content_kind_text "" "" s)
push (Event.reasoning_delta index text signature) s =
    with_frames (reasoning_frames index text signature)
      (start_block index content_kind_reasoning "" "" s)
push (Event.tool_call_start index id name) s = start_block index content_kind_tool_call id name s
push (Event.tool_call_args_delta index id delta) s = (
  arguments_frame index delta ∷ [],
  record s { tool_args = insert index (text_at index s.tool_args <> delta) s.tool_args },
)
push (Event.tool_call_done index id name args) s =
    before_frames (late_arguments index args s) (stop_block index s)
push (Event.content_block_done index kind) s = stop_block index s
push (Event.usage e) s = ([], record s { usage_so_far = usage e })
push (Event.completed reason message_id) s = complete reason s
push _ s = ([], s)

-- The error that ends the writing of a stream.
abbrev pub stream_error : Event → Option GoError
stream_error (Event.error e recoverable) = e
stream_error _ = none

-- The frames of one event, in a loop that has written `count` frames: whether a write fails may
-- depend on its place. What is written and the error of the first write that fails.
unfoldable pub write_frames :
    (ℕ → Option GoError) → ℕ → List StreamFrame → List StreamFrame × Option GoError
write_frames fails count [] = ([], none)
write_frames fails count (frame ∷ frames) = elim (fails count) [
  | some e ↦ ([], some e)
  | none ↦ let (out, e) = write_frames fails (suc count) frames in (frame ∷ out, e)
]

-- `writeStream` in a context that is not cancelled, behind the header.
unfoldable pub write_stream :
    (ℕ → Option GoError) → ℕ → List Event → StreamState → List StreamFrame × Option GoError
unfolding push write_frames
write_stream fails count [] s = ([], none)
write_stream fails count (ev ∷ events) s = elim (stream_error ev) [
  | some e ↦ ([], some e)
  | none ↦
      let (frames, s') = push ev s in
      let (out, failed) = write_frames fails count frames in
      elim failed [
        | some e ↦ (out, some e)
        | none ↦
            let (more, e) = write_stream fails (count + length out) events s' in (out ++ more, e)
      ]
]
