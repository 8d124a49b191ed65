-- ===== src/Providers/Anthropic/Blocks.antt =====
-- Tool blocks in the Anthropic decoder: what the stop of a block gives, whatever other blocks do
-- in between.
use llmadapter.Prelude.{
  eq_apart, ℕ, String, ◌<>◌, ◌≡◌, refl, sym, ap, subst, Bool, true, not, none, some, Option, List,
  [], ◌∷◌, arith, All, ◌==◌, ◌&&◌, nat_eq, string_eq, if◌then◌else◌, nat_beq_iff,
}
use llmadapter.Prelude.Assoc.{or_empty, text_at, lookup, lookup-insert, lookup-remove}
use text.Mathlib.TextEquality.{eq_iff}
use llmadapter.Unified.Kinds.{content_kind_tool_call}
use llmadapter.Unified.Event.{Event}
use llmadapter.Providers.Anthropic.Wire.{WireEvent, ContentBlock}
use llmadapter.Providers.Anthropic.Decoder.{
  EventDecoder, DecoderOps, first_input, open_tool, start_state, content_block_delta,
  content_block_stop, push,
}

-- The text of the argument deltas of block `i`, written one after the other behind `acc`.
abbrev partial_from : ℕ → String → List WireEvent → String
partial_from i acc [] = acc
partial_from i acc (WireEvent.content_block_delta j delta ∷ events) =
    partial_from i
      (if j == i && delta.type == "input_json_delta" then acc <> delta.partial_json else acc) events
partial_from i acc (_ ∷ events) = partial_from i acc events

-- The event neither starts nor stops block `i`.
abbrev keeps_block : ℕ → WireEvent → Bool
keeps_block i (WireEvent.content_block_start j block) = not (j == i)
keeps_block i (WireEvent.content_block_stop j) = not (j == i)
keeps_block i _ = true

record HoldsTool (i : ℕ) (id name acc : String) (d : EventDecoder) : Type 0 where
  of_type : lookup i d.block_types ≡ some "tool_use"
  with_id : lookup i d.tool_ids ≡ some id
  with_name : lookup i d.tool_names ≡ some name
  with_args : lookup i d.tool_args ≡ some acc

or_empty-some : {o : Option String} {t : String} → o ≡ some t → or_empty o ≡ t
or_empty-some h = ap or_empty h

eq_at : {o : Option String} {t : String} → o ≡ some t → (or_empty o == t) ≡ true
eq_at h = (eq_iff _ _).1 (or_empty-some h)

module _ (ops : DecoderOps) where
  -- The state behind a stretch of events.
  abbrev pub state_after : List WireEvent → EventDecoder → EventDecoder
  state_after [] d = d
  state_after (ev ∷ events) d = state_after events (push ops ev d).1

  HoldsTool-start :
      (i : ℕ) (block : ContentBlock) (d : EventDecoder)
      → (block.type == "tool_use") ≡ true
      → HoldsTool i block.id block.name
          (if first_input block.input then block.input else "")
          (start_state i block d)
  unfolding start_state open_tool
  HoldsTool-start i block d h = ground (
    arith,
    h,
    (eq_iff block.type "tool_use").0 h,
    nat_beq_iff i i,
    lookup-insert i i block.type d.block_types,
    lookup-insert i i block.id d.tool_ids,
    lookup-insert i i block.name d.tool_names,
    lookup-insert i i (if first_input block.input then block.input else "") d.tool_args,
  )

  HoldsTool-push :
      (i : ℕ) (id name acc : String) (ev : WireEvent) (d : EventDecoder)
      → keeps_block i ev ≡ true
      → HoldsTool i id name acc d
      → HoldsTool i id name (partial_from i acc (ev ∷ [])) (push ops ev d).1
  unfolding push start_state open_tool content_block_delta content_block_stop
  HoldsTool-push i id name acc (WireEvent.content_block_start j block) d k h = ground (
    arith,
    k,
    h.of_type,
    h.with_id,
    h.with_name,
    h.with_args,
    lookup-insert j i block.type d.block_types,
    lookup-insert j i block.id d.tool_ids,
    lookup-insert j i block.name d.tool_names,
    lookup-insert j i (if first_input block.input then block.input else "") d.tool_args,
  )
  HoldsTool-push i id name acc (WireEvent.content_block_delta j delta) d k h = ground (
    arith,
    h.of_type,
    h.with_id,
    h.with_name,
    h.with_args,
    nat_beq_iff j i,
    eq_apart delta.type "input_json_delta" "text_delta" refl,
    lookup-insert j i (text_at j d.tool_args <> delta.partial_json) d.tool_args,
  )
  HoldsTool-push i id name acc (WireEvent.content_block_stop j) d k h = ground (
    arith,
    k,
    h.of_type,
    h.with_id,
    h.with_name,
    h.with_args,
    lookup-remove j i d.block_types,
    lookup-remove j i d.tool_ids,
    lookup-remove j i d.tool_names,
    lookup-remove j i d.tool_args,
  )
  HoldsTool-push i id name acc (WireEvent.message_start x model) d k h = record {
    of_type = h.of_type;
    with_id = h.with_id;
    with_name = h.with_name;
    with_args = h.with_args;
  }
  HoldsTool-push i id name acc _ d k h = h

  partial_from-cons :
      (i : ℕ) (acc : String) (ev : WireEvent) (events : List WireEvent)
      → partial_from i acc (ev ∷ events) ≡ partial_from i (partial_from i acc (ev ∷ [])) events
  partial_from-cons i acc (WireEvent.content_block_delta j delta) events = refl
  partial_from-cons i acc _ events = refl

  HoldsTool-state_after :
      (i : ℕ) (id name acc : String) (events : List WireEvent) (d : EventDecoder)
      → All (λ ev. keeps_block i ev ≡ true) events
      → HoldsTool i id name acc d
      → HoldsTool i id name (partial_from i acc events) (state_after events d)
  HoldsTool-state_after i id name acc [] d k h = h
  HoldsTool-state_after i id name acc (ev ∷ events) d k h =
      subst (λ t. HoldsTool i id name t (state_after (ev ∷ events) d))
        (sym (partial_from-cons i acc ev events))
        (HoldsTool-state_after i id name (partial_from i acc (ev ∷ [])) events (push ops ev d).1 k.1
          (HoldsTool-push i id name acc ev d k.0 h))

  push-HoldsTool :
      (i : ℕ) (id name acc : String) (d : EventDecoder)
      → HoldsTool i id name acc d
      → ((push ops (WireEvent.content_block_stop i) d).0
          ≡ Event.tool_call_done i id name acc
            ∷ Event.content_block_done i content_kind_tool_call
            ∷ [])
        × (lookup i (push ops (WireEvent.content_block_stop i) d).1.tool_args ≡ none)
  unfolding push content_block_stop
  push-HoldsTool i id name acc d h = ground (
    arith,
    eq_at h.of_type,
    or_empty-some h.with_id,
    or_empty-some h.with_name,
    or_empty-some h.with_args,
    h.with_id,
    h.with_name,
    h.with_args,
    lookup-remove i i d.tool_args,
    nat_beq_iff i i,
  )

  -- Whatever state a tool block is started in, and whatever events come before its stop, other
  -- blocks included, as long as none starts or stops a block of its index: the stop gives one done
  -- event with the block's id and name, whose arguments are the block's input, if it is none of
  -- the empty text, `null` and `{}`, and the argument deltas of the index in order. It leaves no
  -- arguments of the index in the state.
  pub push-tool_block :
      (i : ℕ) (block : ContentBlock) (body : List WireEvent) (d : EventDecoder)
      → (block.type == "tool_use") ≡ true
      → All (λ ev. keeps_block i ev ≡ true) body
      → let d' = state_after (WireEvent.content_block_start i block ∷ body) d in
        let input = if first_input block.input then block.input else "" in
        ((push ops (WireEvent.content_block_stop i) d').0
          ≡ Event.tool_call_done i block.id block.name (partial_from i input body)
            ∷ Event.content_block_done i content_kind_tool_call
            ∷ [])
        × (lookup i (push ops (WireEvent.content_block_stop i) d').1.tool_args ≡ none)
  unfolding push
  push-tool_block i block body d h k =
      let input = if first_input block.input then block.input else "" in
      push-HoldsTool i block.id block.name (partial_from i input body) _ (
        HoldsTool-state_after i block.id block.name input body (start_state i block d) k
          (HoldsTool-start i block d h))
