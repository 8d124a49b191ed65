-- ===== src/Providers/ChatCompletions/LostText.antt =====
-- The decoder and `Collect` together: a tool call of index 0 behind a text.
use text.Mathlib.TextLemmas.{nil-append}
use text.Mathlib.TextEquality.{eq_iff}
use llmadapter.Prelude.{
  sym, subst, ltb, Bool-cases, inl, inr, nat_beq_iff, ℕ, String, len, ◌<>◌, ◌≡◌, refl, ◌∙◌, ap,
  true, false, none, List, [], ◌∷◌, arith, ◌==◌, nat_eq, string_eq,
}
use llmadapter.Prelude.Assoc.{lookup, insert, remove}
use llmadapter.Prelude.StableSort.{stable_sort}
use llmadapter.Unified.Content.{RawMessage, text_part}
use llmadapter.Unified.Errors.{Result}
use llmadapter.Unified.Event.{Event}
use llmadapter.Providers.ChatCompletions.Run.{chunk, decoded, content_of, both-pair}
use llmadapter.Unified.Collect.{collect, closed, flush_each}
use llmadapter.Providers.ChatCompletions.Wire.{ChunkWire, ToolCallWire, UsageWire}
use llmadapter.Providers.ChatCompletions.Decoder.{
  StreamDecoder, both, Emit, new_decoder, push_chunk, finish_choice, push_content, push_call,
  note_call, each, start_call, append_arguments, finish_tool_calls, complete,
}

not_empty : (text : String) → ltb 0 (len text) ≡ true → (text == "") ≡ false
not_empty text h = elim (Bool-cases (text == "")) [
  | inl e ↦
      let zero_length : ltb 0 (len text) ≡ false =
        subst (λ t. ltb 0 (len t) ≡ false) (sym ((eq_iff text "").0 e)) refl in
      cc
  | inr e ↦ e
]

abbrev call_wire : ℕ → String → String → String → ToolCallWire
call_wire index id name arguments = record {
  index = index;
  id = id;
  type = "function";
  function = record { name = name; arguments = arguments };
}

-- A text, then a tool call with its arguments, then the end.
abbrev pub text_then_call : String → String → String → String → ℕ → List ChunkWire
text_then_call text id name arguments index =
    chunk text [] ""
    ∷ chunk ""
        ((record {
          index = index;
          id = id;
          type = "function";
          function = record { name = name; arguments = arguments };
        })
          ∷ [])
        ""
    ∷ chunk "" [] "tool_calls"
    ∷ []

module _ (marshal_usage : UsageWire → Result RawMessage) where
  abbrev with_call : ℕ → String → String → String → StreamDecoder
  with_call index id name arguments = record {
    id = "";
    model = "";
    started = true;
    tool_ids = (index, id) ∷ [];
    tool_names = (index, name) ∷ [];
    tool_args = (index, "" <> arguments) ∷ [];
    started_tools = (index, true) ∷ [];
  }

  push_chunk-text :
      (text : String)
      → (text == "") ≡ false
      → push_chunk marshal_usage (chunk text [] "") "" new_decoder ≡ (
        Event.message_start "" "" "assistant" "" 0
            ∷ Event.content_block_start 0 "text" "" ""
            ∷ Event.text_delta 0 text
            ∷ [],
        record new_decoder { started = true },
      )
  unfolding push_chunk push_content
  push_chunk-text text h = ground (arith, h)

  push_chunk-call :
      (index : ℕ) (id name arguments : String)
      → (id == "") ≡ false
      → (name == "") ≡ false
      → (arguments == "") ≡ false
      → push_chunk marshal_usage
          (chunk "" (call_wire index id name arguments ∷ []) "")
          ""
          (record new_decoder { started = true })
        ≡ (
          Event.content_block_start index "tool_call" id name
              ∷ Event.tool_call_start index id name
              ∷ Event.tool_call_args_delta index id arguments
              ∷ [],
          with_call index id name arguments,
        )
  unfolding push_chunk push_content push_call note_call start_call append_arguments lookup insert
  push_chunk-call index id name arguments hi hn ha = ground (arith, hi, hn, ha)

  push_chunk-end :
      (index : ℕ) (id name arguments : String)
      → push_chunk marshal_usage (chunk "" [] "tool_calls") "" (with_call index id name arguments)
        ≡ (
          Event.tool_call_done index id name ("" <> arguments)
              ∷ Event.content_block_done index "tool_call"
              ∷ Event.content_block_done 0 "text"
              ∷ Event.completed "tool_call" ""
              ∷ Event.message_done "" ""
              ∷ [],
          record new_decoder { started = true },
        )
  unfolding push_chunk push_content finish_choice finish_tool_calls complete each lookup remove
      stable_sort
  push_chunk-end index id name arguments = ground (arith, nat_beq_iff index index)

  abbrev pub events_of : ℕ → String → String → String → String → List Event
  events_of index text id name arguments =
      Event.message_start "" "" "assistant" "" 0
      ∷ Event.content_block_start 0 "text" "" ""
      ∷ Event.text_delta 0 text
      ∷ Event.content_block_start index "tool_call" id name
      ∷ Event.tool_call_start index id name
      ∷ Event.tool_call_args_delta index id arguments
      ∷ Event.tool_call_done index id name ("" <> arguments)
      ∷ Event.content_block_done index "tool_call"
      ∷ Event.content_block_done 0 "text"
      ∷ Event.completed "tool_call" ""
      ∷ Event.message_done "" ""
      ∷ []

  pub decoded-text_then_call :
      (index : ℕ) (text id name arguments : String)
      → (text == "") ≡ false
      → (id == "") ≡ false
      → (name == "") ≡ false
      → (arguments == "") ≡ false
      → decoded marshal_usage (text_then_call text id name arguments index)
        ≡ events_of index text id name arguments
  unfolding each
  decoded-text_then_call index text id name arguments ht hi hn ha =
      let f : ChunkWire → Emit = λ c. push_chunk marshal_usage c "" in
      ap (λ p. p.0)
        (both-pair (f (chunk text [] ""))
          (both (f (chunk "" (call_wire index id name arguments ∷ []) ""))
            (both (f (chunk "" [] "tool_calls")) (λ d. ([], d))))
          (push_chunk-text text ht)
          (both-pair (f (chunk "" (call_wire index id name arguments ∷ []) ""))
            (both (f (chunk "" [] "tool_calls")) (λ d. ([], d)))
            (push_chunk-call index id name arguments hi hn ha)
            (both-pair (f (chunk "" [] "tool_calls")) (λ d. ([], d))
              (push_chunk-end index id name arguments) refl)))

  module _ (order : List ℕ → List ℕ) where
    -- A text that is followed by a tool call of index 0, as every first tool call is numbered, is
    -- not in the response that `Collect` makes of the decoded stream; it is if the call has index 1.
    pub content_of-text_then_call :
        (text id name arguments : String)
        → order [] ≡ []
        → ltb 0 (len text) ≡ true
        → (id == "") ≡ false
        → (name == "") ≡ false
        → (arguments == "") ≡ false
        → (content_of marshal_usage order (text_then_call text id name arguments 0) ≡ [])
          × (content_of marshal_usage order (text_then_call text id name arguments 1)
              ≡ text_part text none ∷ [])
    unfolding collect flush_each lookup insert remove
    content_of-text_then_call text id name arguments ho hl hi hn ha =
        let ht = not_empty text hl in
        (
          ap (λ events. (collect order events closed).resp.content)
                (decoded-text_then_call 0 text id name arguments ht hi hn ha)
              ∙ rw ho refl,
          ap (λ events. (collect order events closed).resp.content)
                (decoded-text_then_call 1 text id name arguments ht hi hn ha)
              ∙ rw (ho, nil-append text, hl) refl,
        )
