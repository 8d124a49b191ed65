-- ===== src/Endpoints/Anthropic/LostCall.antt =====
-- A chat completions stream that is written by the Anthropic endpoint: its tool call.
use llmadapter.Prelude.{
  all, true, ◌<>◌, any-append, All, arith, ◌||◌, ◌+◌, length, ℕ, zero, suc, String, ◌≡◌, refl, ◌∙◌,
  ap, Bool, false, not, none, List, [], ◌∷◌, any, ◌==◌, nat_eq, string_eq,
}
use llmadapter.Prelude.Assoc.{lookup, insert}
use llmadapter.Unified.Content.{RawMessage}
use llmadapter.Unified.Errors.{Result}
use llmadapter.Unified.Event.{Event}
use llmadapter.Providers.Anthropic.Wire.{WireEvent}
use llmadapter.Providers.ChatCompletions.Wire.{UsageWire}
use llmadapter.Providers.ChatCompletions.Run.{decoded}
use llmadapter.Providers.ChatCompletions.LostText.{
  text_then_call, events_of, decoded-text_then_call,
}
use llmadapter.Endpoints.Anthropic.Stream.{
  StreamFrame, StreamState, new_stream_state, push, start_block, stop_block, complete, write_stream,
}
use llmadapter.Endpoints.Anthropic.Messages.{never, NoError, write_stream-cons}

abbrev opens_tool_use : WireEvent → Bool
opens_tool_use (WireEvent.content_block_start index block) = block.type == "tool_use"
opens_tool_use _ = false

-- Some frame starts a tool block.
abbrev pub has_tool_use : List StreamFrame → Bool
has_tool_use frames = any (λ f. opens_tool_use f.payload) frames

-- What the endpoint writes of events when no write fails.
abbrev pub frames_of : List Event → List StreamFrame
frames_of events = (write_stream never 0 events new_stream_state).0

-- Some event makes a frame that starts a tool block.
abbrev starts_tool : List Event → StreamState → Bool
starts_tool [] s = false
starts_tool (ev ∷ events) s = has_tool_use (push ev s).0 || starts_tool events (push ev s).1

has_tool_use-write_stream :
    (events : List Event) (n : ℕ) (s : StreamState)
    → All NoError events
    → has_tool_use (write_stream never n events s).0 ≡ starts_tool events s
unfolding write_stream
has_tool_use-write_stream [] n s clean = refl
has_tool_use-write_stream (ev ∷ events) n s clean =
    let (frames, s') = push ev s in
    ap has_tool_use (write_stream-cons ev events n s clean.0)
    ∙ any-append (λ f. opens_tool_use f.payload) frames
        (write_stream never (n + length frames) events s').0
    ∙ ap (λ b. has_tool_use frames || b)
        (has_tool_use-write_stream events (n + length frames) s' clean.1)

-- The ends of calls, blocks and messages.
abbrev is_end : Event → Bool
is_end (Event.tool_call_done i id name args) = true
is_end (Event.content_block_done i kind) = true
is_end (Event.completed reason id) = true
is_end (Event.message_done id phase) = true
is_end _ = false

has_tool_use-end :
    (ev : Event) (s : StreamState) → is_end ev ≡ true → has_tool_use (push ev s).0 ≡ false
unfolding push stop_block complete
has_tool_use-end (Event.tool_call_done i id name args) s h = ground arith
has_tool_use-end (Event.content_block_done i kind) s h = ground arith
has_tool_use-end (Event.completed reason id) s h = ground arith
has_tool_use-end _ s h = ground arith

starts_tool-ends :
    (events : List Event) (s : StreamState)
    → all is_end events ≡ true
    → starts_tool events s ≡ false
starts_tool-ends [] s h = refl
starts_tool-ends (ev ∷ events) s h =
    ground (arith, has_tool_use-end ev s, starts_tool-ends events (push ev s).1)

-- A tool block is started at an index that no open block has.
has_tool_use-start :
    (i : ℕ) (id name : String) (s : StreamState)
    → lookup i s.started ≡ none
    → has_tool_use (push (Event.content_block_start i "tool_call" id name) s).0 ≡ true
unfolding push start_block
has_tool_use-start i id name s h = rw h refl

-- In the first text block.
abbrev in_text : StreamState
in_text = record new_stream_state { started = (0, "text") ∷ [] }

abbrev ends : ℕ → String → String → String → List Event
ends i id name arguments =
    Event.tool_call_done i id name ("" <> arguments)
    ∷ Event.content_block_done i "tool_call"
    ∷ Event.content_block_done 0 "text"
    ∷ Event.completed "tool_call" ""
    ∷ Event.message_done "" ""
    ∷ []

starts_tool-events :
    (marshal_usage : UsageWire → Result RawMessage)
    → (index : ℕ) (text id name arguments : String)
    → starts_tool (events_of marshal_usage index text id name arguments) new_stream_state
      ≡ not (index == 0)
unfolding push start_block lookup insert
starts_tool-events marshal_usage zero text id name arguments =
    starts_tool-ends (ends 0 id name arguments)
      (record in_text { tool_args = (0, "" <> arguments) ∷ [] }) refl
starts_tool-events marshal_usage (suc i) text id name arguments =
    rw (has_tool_use-start (suc i) id name in_text (ground arith)) (ground arith)

-- A chat completions stream brings a text, then a tool call with this index and with an id, a name
-- and arguments, none of them empty, then its end. In what the Anthropic endpoint writes of the
-- decoded events, a tool block is started exactly if the index is not zero, which is the index of
-- every first call: its frames fall into the text block that is still open.
pub has_tool_use-text_then_call :
    (marshal_usage : UsageWire → Result RawMessage)
    → (text id name arguments : String) (index : ℕ) → (text == "") ≡ false
    → (id == "") ≡ false
    → (name == "") ≡ false
    → (arguments == "") ≡ false
    → has_tool_use (frames_of (decoded marshal_usage (text_then_call text id name arguments index)))
      ≡ not (index == 0)
has_tool_use-text_then_call marshal_usage text id name arguments index ht hi hn ha =
    ap (λ events. has_tool_use (frames_of events))
      (decoded-text_then_call marshal_usage index text id name arguments ht hi hn ha)
    ∙ has_tool_use-write_stream (events_of marshal_usage index text id name arguments) 0
        new_stream_state
        (refl, (refl, (refl, (refl, (refl, (refl, (refl, (refl, (refl, (refl, (refl, tt)))))))))))
    ∙ starts_tool-events marshal_usage index text id name arguments
