-- ===== src/Endpoints/Anthropic/Steps.antt =====
-- The steps of one block that the Anthropic endpoint writes and the Anthropic provider reads back,
-- while no other block is open.
use text.Mathlib.TextLemmas.{append-eq-nil_iff}
use text.Mathlib.TextEquality.{eq_iff}
use llmadapter.Prelude.{
  ℕ, String, ◌<>◌, ◌≡◌, refl, sym, ◌∙◌, true, false, not, ◌&&◌, [], ◌∷◌, arith, ◌==◌, nat_eq,
  string_eq, nat_beq, nat_beq_iff,
}
use llmadapter.Prelude.Assoc.{Assoc, text_at, lookup, insert, remove}
use llmadapter.Unified.Event.{Event}
use llmadapter.Providers.Anthropic.Decoder as Decoder
use llmadapter.Providers.Anthropic.Decoder.{EventDecoder, DecoderOps, new_event_decoder}
use llmadapter.Endpoints.Anthropic.Stream.{
  StreamState, new_stream_state, push, start_block, stop_block,
}
use llmadapter.Endpoints.Anthropic.Passes.{pass, pass_all}

-- What the encoder remembers of the tools of closed blocks.
pub record Held : Type 0 where
  pub ids : Assoc ℕ String
  pub names : Assoc ℕ String
  pub args : Assoc ℕ String

-- The states between two blocks of a message.
abbrev pub idle : String → String → Held → StreamState
idle id model h = record new_stream_state {
  id = id;
  model = model;
  tool_ids = h.ids;
  tool_names = h.names;
  tool_args = h.args;
}

abbrev pub reading : String → EventDecoder
reading id = record new_event_decoder { message_id = id }

-- The states in a block.
abbrev pub in_block : ℕ → String → StreamState → StreamState
in_block i kind s = record s { started = (i, kind) ∷ [] }

abbrev pub reading_block : ℕ → String → EventDecoder → EventDecoder
reading_block i type d = record d { block_types = (i, type) ∷ [] }

abbrev pub reading_tool : ℕ → String → String → String → EventDecoder → EventDecoder
reading_tool i id name acc d = record d {
  block_types = (i, "tool_use") ∷ [];
  tool_ids = (i, id) ∷ [];
  tool_names = (i, name) ∷ [];
  tool_args = (i, acc) ∷ [];
}

-- What an opened tool block and its arguments add to what is remembered.
abbrev pub opened : ℕ → String → String → Held → Held
opened i tool name h = record h { ids = insert i tool h.ids; names = insert i name h.names }

abbrev pub with_arguments : ℕ → String → Held → Held
with_arguments i acc h = record h { args = insert i acc h.args }

same : (i : ℕ) → nat_beq i i ≡ true
same i = (nat_beq_iff i i).1 refl

-- Arguments that came as deltas are not late.
no_late :
    {text : String} (held acc : String)
    → text ≡ held <> acc
    → (text == "" && not (acc == "")) ≡ false
no_late {text} held acc e =
    ground
      (arith, eq_iff text "", eq_iff acc "", λ (h : text ≡ ""). (append-eq-nil_iff.0 (sym e ∙ h)).1)

module _ (ops : DecoderOps) where
  module _ (id model : String) (h : Held) (i : ℕ) where
    -- The steps of a text block.
    pub pass-start_text :
        pass ops (Event.content_block_start i "text" "" "") (idle id model h, reading id) ≡ (
          Event.content_block_start i "text" "" "" ∷ [],
          (in_block i "text" (idle id model h), reading_block i "text" (reading id)),
        )
    unfolding pass push start_block Decoder.push Decoder.start_state Decoder.start_events lookup
        insert
    pass-start_text = refl

    pub pass-text :
        (t : String)
        → pass ops
            (Event.text_delta i t)
            (in_block i "text" (idle id model h), reading_block i "text" (reading id))
          ≡ (
            Event.text_delta i t ∷ [],
            (in_block i "text" (idle id model h), reading_block i "text" (reading id)),
          )
    unfolding pass push start_block Decoder.push Decoder.content_block_delta lookup
    pass-text t = ground (arith, nat_beq_iff i i)

    pub pass-stop_text :
        pass ops
          (Event.content_block_done i "text")
          (in_block i "text" (idle id model h), reading_block i "text" (reading id))
        ≡ (Event.content_block_done i "text" ∷ [], (idle id model h, reading id))
    unfolding pass push stop_block Decoder.push Decoder.content_block_stop lookup remove
    pass-stop_text = rw (same i) (rw (same i) refl)

    -- The steps of a reasoning block.
    pub pass-start_reasoning :
        pass ops (Event.content_block_start i "reasoning" "" "") (idle id model h, reading id) ≡ (
          Event.content_block_start i "reasoning" "" "" ∷ [],
          (in_block i "reasoning" (idle id model h), reading_block i "thinking" (reading id)),
        )
    unfolding pass push start_block Decoder.push Decoder.start_state Decoder.start_events lookup
        insert
    pass-start_reasoning = refl

    pub pass-thought :
        (t : String)
        → (t == "") ≡ false
        → pass ops
            (Event.reasoning_delta i t "")
            (in_block i "reasoning" (idle id model h), reading_block i "thinking" (reading id))
          ≡ (
            Event.reasoning_delta i t "" ∷ [],
            (in_block i "reasoning" (idle id model h), reading_block i "thinking" (reading id)),
          )
    unfolding pass push start_block Decoder.push Decoder.content_block_delta lookup
    pass-thought t full = rw (same i) (rw full refl)

    pub pass-signature :
        (t : String)
        → (t == "") ≡ false
        → pass ops
            (Event.reasoning_delta i "" t)
            (in_block i "reasoning" (idle id model h), reading_block i "thinking" (reading id))
          ≡ (
            Event.reasoning_delta i "" t ∷ [],
            (in_block i "reasoning" (idle id model h), reading_block i "thinking" (reading id)),
          )
    unfolding pass push start_block Decoder.push Decoder.content_block_delta lookup
    pass-signature t full = rw (same i) (rw full refl)

    pub pass-stop_reasoning :
        pass ops
          (Event.content_block_done i "reasoning")
          (in_block i "reasoning" (idle id model h), reading_block i "thinking" (reading id))
        ≡ (Event.content_block_done i "reasoning" ∷ [], (idle id model h, reading id))
    unfolding pass push stop_block Decoder.push Decoder.content_block_stop lookup remove
    pass-stop_reasoning = rw (same i) (rw (same i) refl)

  -- The steps of a tool block.
  module _ (id model : String) (h : Held) (i : ℕ) (tool name : String) where
    pub pass_all-start_tool :
        (tool == "") ≡ false
        → (name == "") ≡ false
        → pass_all ops
            (Event.content_block_start i "tool_call" tool name
              ∷ Event.tool_call_start i tool name
              ∷ [])
            (idle id model h, reading id)
          ≡ (
            Event.content_block_start i "tool_call" tool name
                ∷ Event.tool_call_start i tool name
                ∷ [],
            (
              in_block i "tool_call" (idle id model (opened i tool name h)),
              reading_tool i tool name "" (reading id),
            ),
          )
    unfolding pass_all pass push start_block Decoder.push Decoder.start_state Decoder.start_events
        Decoder.open_tool lookup insert
    pass_all-start_tool ht hn = rw (ht, hn) (rw (same i) refl)

    pub pass-arguments :
        (acc t : String)
        → pass ops
            (Event.tool_call_args_delta i tool t)
            (in_block i "tool_call" (idle id model h), reading_tool i tool name acc (reading id))
          ≡ (
            Event.tool_call_args_delta i tool t ∷ [],
            (
              in_block i "tool_call" (idle id model (with_arguments i (text_at i h.args <> t) h)),
              reading_tool i tool name (acc <> t) (reading id),
            ),
          )
    unfolding pass push Decoder.push Decoder.content_block_delta lookup insert
    pass-arguments acc t = rw (same i) refl

    -- The arguments of the done event are those of the deltas.
    pub pass_all-stop_tool :
        (held acc : String)
        → text_at i h.args ≡ held <> acc
        → pass_all ops
            (Event.tool_call_done i tool name acc ∷ Event.content_block_done i "tool_call" ∷ [])
            (in_block i "tool_call" (idle id model h), reading_tool i tool name acc (reading id))
          ≡ (
            Event.tool_call_done i tool name acc ∷ Event.content_block_done i "tool_call" ∷ [],
            (idle id model h, reading id),
          )
    unfolding pass_all pass push stop_block Decoder.push Decoder.content_block_stop lookup remove
    pass_all-stop_tool held acc e = rw (same i, no_late held acc e) (rw (same i) refl)
