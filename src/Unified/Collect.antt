-- ===== src/Unified/Collect.antt =====
-- `Collect` of unified/response.go: the loop over the event stream as a function on its state.
-- The stream is the list of the events received before the channel is closed, with the place at
-- which `ctx.Done()` wins the `select`, if it does. A Go map is iterated in no fixed order: the
-- order of the last flush is a parameter, a function from the keys to the keys in some order.
pub mod Run
pub mod Blocks
pub mod Reuse
pub mod Tools
pub mod Arguments
pub mod Ends
pub mod Distinct
pub mod AnyOrder
use llmadapter.Prelude.{
  ℕ, zero, suc, ◌-◌, String, len, ◌<>◌, Bool, false, not, ◌&&◌, ◌||◌, Option, none, some, List, [],
  ◌∷◌, ◌++◌, length, ltb, ◌==◌, nat_eq, string_eq, if◌then◌else◌, is_some, update_at,
}
use llmadapter.Prelude.Assoc.{Assoc, lookup, insert, remove, keys}
use llmadapter.Unified.Kinds.{
  ContentKind, content_kind_text, content_kind_reasoning, content_kind_refusal,
}
use llmadapter.Unified.Content.{ContentPart, RawMessage, text_part, reasoning_part, refusal_part}
use llmadapter.Unified.Request.{ToolCall}
use llmadapter.Unified.Errors.{GoError}
use llmadapter.Unified.Usage
use llmadapter.Unified.Event
use llmadapter.Unified.Event.{Event}
use llmadapter.Unified.Response.{Response, empty_response}

-- The local variables of `Collect`; a buffer is the text written to it.
pub record Collector : Type 0 where
  pub resp : Response
  pub texts : Assoc ℕ String
  pub reasoning : Assoc ℕ String
  pub reasoning_signatures : Assoc ℕ String
  pub refusals : Assoc ℕ String
  pub kinds : Assoc ℕ ContentKind
  pub tool_indexes : Assoc ℕ ℕ
  pub tool_args : Assoc ℕ String

abbrev pub new_collector : Collector
new_collector = record {
  resp = empty_response;
  texts = [];
  reasoning = [];
  reasoning_signatures = [];
  refusals = [];
  kinds = [];
  tool_indexes = [];
  tool_args = [];
}

-- `b != nil && b.Len() > 0`
abbrev has_text : Option String → Bool
has_text none = false
has_text (some b) = ltb 0 (len b)

-- the text of a buffer, of none the empty text
abbrev pub text_of : Option String → String
text_of none = ""
text_of (some b) = b

abbrev pub first_non_empty : String → String → String
first_non_empty a b = if not (a == "") then a else b

-- The part that `flushBlock` appends for a block of this kind.
unfoldable pub flushed_part : Collector → ℕ → ContentKind → List ContentPart
flushed_part s index kind =
    let b = lookup index s.texts in
    let r = lookup index s.reasoning in
    let sig = lookup index s.reasoning_signatures in
    let refusal = lookup index s.refusals in
    if kind == content_kind_text
    then (if has_text b then text_part (text_of b) none ∷ [] else [])
    else if kind == content_kind_reasoning
    then (if has_text r || has_text sig then reasoning_part (text_of r) (text_of sig) ∷ [] else [])
    else if kind == content_kind_refusal
    then (if has_text refusal then refusal_part (text_of refusal) ∷ [] else [])
    else []

-- `kinds[index]` reads the empty kind where the key is missing.
unfoldable flush_block : ℕ → Collector → Collector
unfolding flushed_part
flush_block index s = record s {
  resp = record s.resp {
    content = s.resp.content ++ flushed_part s index (text_of (lookup index s.kinds));
  };
  texts = remove index s.texts;
  reasoning = remove index s.reasoning;
  reasoning_signatures = remove index s.reasoning_signatures;
  refusals = remove index s.refusals;
  kinds = remove index s.kinds;
}

-- `buf[index].WriteString(text)` on a map of buffers
abbrev write : ℕ → String → Assoc ℕ String → Assoc ℕ String
write index text m = insert index (text_of (lookup index m) <> text) m

unfoldable block_start : ℕ → ContentKind → Collector → Collector
block_start index kind s = record s {
  kinds = insert index kind s.kinds;
  texts = if kind == content_kind_text then insert index "" s.texts else s.texts;
  reasoning = if kind == content_kind_reasoning then insert index "" s.reasoning else s.reasoning;
  reasoning_signatures =
      if kind == content_kind_reasoning
      then insert index "" s.reasoning_signatures
      else s.reasoning_signatures;
  refusals = if kind == content_kind_refusal then insert index "" s.refusals else s.refusals;
}

unfoldable on_text_delta : ℕ → String → Collector → Collector
on_text_delta index text s = record s {
  kinds =
      if is_some (lookup index s.texts) then s.kinds else insert index content_kind_text s.kinds;
  texts = write index text s.texts;
}

unfoldable on_reasoning_delta : ℕ → String → String → Collector → Collector
on_reasoning_delta index text signature s = record s {
  kinds =
      if is_some (lookup index s.reasoning)
      then s.kinds
      else insert index content_kind_reasoning s.kinds;
  reasoning = write index text s.reasoning;
  reasoning_signatures = write index signature s.reasoning_signatures;
}

unfoldable on_refusal_delta : ℕ → String → Collector → Collector
on_refusal_delta index text s = record s {
  kinds =
      if is_some (lookup index s.refusals)
      then s.kinds
      else insert index content_kind_refusal s.kinds;
  refusals = write index text s.refusals;
}

unfoldable on_tool_call_start : ℕ → String → String → Collector → Collector
on_tool_call_start index id name s = record s {
  resp = record s.resp {
    tool_calls =
        s.resp.tool_calls ++ (record { id = id; name = name; arguments = ""; index = index }) ∷ [];
  };
  tool_indexes = insert index (length s.resp.tool_calls) s.tool_indexes;
  tool_args = insert index "" s.tool_args;
}

-- What `ToolCallDoneEvent` writes to `resp.ToolCalls[i]`.
abbrev pub finish_tool_call : String → String → RawMessage → Option String → ToolCall → ToolCall
finish_tool_call id name args buffered call = record call {
  id = first_non_empty id call.id;
  name = first_non_empty name call.name;
  arguments =
      if ltb 0 (len args)
      then args
      else if has_text buffered
      then text_of buffered
      else call.arguments;
}

-- A done event with no start appends a call, and does not enter it in `toolIndexes`.
abbrev finished_calls : Option ℕ → ℕ → (ToolCall → ToolCall) → List ToolCall → List ToolCall
finished_calls none index finish calls =
    update_at (length calls) finish
      (calls ++ (record { id = ""; name = ""; arguments = ""; index = index }) ∷ [])
finished_calls (some i) index finish calls = update_at i finish calls

unfoldable on_tool_call_done : ℕ → String → String → RawMessage → Collector → Collector
on_tool_call_done index id name args s = record s {
  resp = record s.resp {
    tool_calls =
        finished_calls (lookup index s.tool_indexes) index
          (finish_tool_call id name args (lookup index s.tool_args)) s.resp.tool_calls;
  };
}

abbrev with_phase : String → Response → Response
with_phase phase resp = if not (phase == "") then record resp { phase = phase } else resp

abbrev pub with_id : String → Response → Response
with_id id resp = if not (id == "") then record resp { id = id } else resp

-- One turn of the loop: the next state, or the error with which `Collect` returns early.
pub data Turn : Type 0 where
  go_on : Collector → Turn
  stop : Response → GoError → Turn

unfoldable pub turn : Event → Collector → Turn
unfolding flush_block block_start on_text_delta on_reasoning_delta on_refusal_delta
    on_tool_call_start on_tool_call_done
turn (Event.message_start id model role phase time) s =
    go_on (record s { resp = with_phase phase (record s.resp { id = id; model = model }) })
turn (Event.message_done id phase) s =
    go_on (record s { resp = with_phase phase (with_id id s.resp) })
turn (Event.content_block_start index kind id name) s = go_on (block_start index kind s)
turn (Event.content_block_done index kind) s = go_on (flush_block index s)
turn (Event.text_delta index text) s = go_on (on_text_delta index text s)
turn (Event.reasoning_delta index text signature) s =
    go_on (on_reasoning_delta index text signature s)
turn (Event.refusal_delta index text) s = go_on (on_refusal_delta index text s)
turn (Event.tool_call_start index id name) s = go_on (on_tool_call_start index id name s)
turn (Event.tool_call_args_delta index id delta) s =
    go_on (record s { tool_args = write index delta s.tool_args })
turn (Event.tool_call_done index id name args) s = go_on (on_tool_call_done index id name args s)
turn (Event.citation e) s =
    go_on (record s { resp = record s.resp { citations = s.resp.citations ++ e ∷ [] } })
turn (Event.usage e) s = go_on (record s { resp = record s.resp { usage = Usage.usage e } })
turn (Event.quota_usage e) s =
    go_on (record s { resp = record s.resp { quotas = s.resp.quotas ++ e ∷ [] } })
turn (Event.completed reason id) s =
    go_on (record s { resp = with_id id (record s.resp { finish_reason = reason }) })
turn (Event.warning e) s =
    go_on (record s { resp = record s.resp { warnings = s.resp.warnings ++ e ∷ [] } })
turn (Event.raw e) s = go_on (record s { resp = record s.resp { raw = s.resp.raw ++ e ∷ [] } })
turn (Event.route e) s = go_on s
turn (Event.provider_execution e) s = go_on s
turn (Event.error none recoverable) s = go_on s
turn (Event.error (some err) recoverable) s = stop s.resp err

unfoldable pub flush_each : List ℕ → Collector → Collector
unfolding flush_block
flush_each [] s = s
flush_each (index ∷ rest) s = flush_each rest (flush_block index s)

-- How the stream ends: the channel is closed, or the context is done first.
pub data Ending : Type 0 where
  closed : Ending
  cancelled : GoError → Ending

pub record Collected : Type 0 where
  pub resp : Response
  pub err : Option GoError

module _ (map_order : List ℕ → List ℕ) where
  unfoldable pub finish : Ending → Collector → Collected
  unfolding flush_each
  finish closed s = record { resp = (flush_each (map_order (keys s.kinds)) s).resp; err = none }
  finish (cancelled e) s = record { resp = s.resp; err = some e }

  unfoldable pub collect_from : Collector → List Event → Ending → Collected
  unfolding turn finish
  collect_from s [] ending = finish ending s
  collect_from s (ev ∷ events) ending = elim (turn ev s) [
    | go_on s' ↦ collect_from s' events ending
    | stop resp e ↦ record { resp = resp; err = some e }
  ]

  unfoldable pub collect : List Event → Ending → Collected
  unfolding collect_from
  collect events ending = collect_from new_collector events ending
