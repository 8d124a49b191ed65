-- ===== src/Endpoints/Anthropic/ReadBack.antt =====
-- Blocks of a message that the Anthropic endpoint writes and the Anthropic provider reads back.
use text.Mathlib.TextLemmas.{
  nil-append as text_nil-append, append-nil as text_append-nil, append_assoc as text_append_assoc,
}
use mathlib.Core.List.{append_assoc}
use llmadapter.Prelude.{
  concat_texts, ℕ, String, ◌<>◌, ◌≡◌, refl, sym, ◌∙◌, ap, ◌⊎◌, inl, inr, true, false, List, [], ◌∷◌,
  ◌++◌, map, All, ◌==◌, nat_eq, string_eq, nat_beq_iff,
}
use llmadapter.Prelude.Assoc.{Assoc, text_at, insert, lookup-insert}
use llmadapter.Unified.Usage.{count}
use llmadapter.Unified.Event.{Event}
use llmadapter.Providers.Anthropic.Decoder as Decoder
use llmadapter.Providers.Anthropic.Decoder.{EventDecoder, DecoderOps, new_event_decoder}
use llmadapter.Endpoints.Anthropic.Stream.{push, complete}
use llmadapter.Endpoints.Anthropic.Passes.{States, pass, pass_all, pass_all-append, pass_all-cons}
use llmadapter.Endpoints.Anthropic.Steps.{
  Held, idle, reading, in_block, reading_block, reading_tool, opened, with_arguments,
  pass-start_text, pass-text, pass-stop_text, pass-start_reasoning, pass-thought, pass-signature,
  pass-stop_reasoning, pass_all-start_tool, pass-arguments, pass_all-stop_tool,
}

-- A block of a message with its index: texts, thoughts with a signature, or a tool call with the
-- pieces of its arguments.
pub data Block : Type 0 where
  text_block : ℕ → List String → Block
  reasoning_block : ℕ → List String → (signature : String) → Block
  tool_block : ℕ → (id name : String) → List String → Block

abbrev pub block_events : Block → List Event
block_events (text_block i ts) =
    Event.content_block_start i "text" "" ""
    ∷ (map (Event.text_delta i) ts ++ (Event.content_block_done i "text" ∷ []))
block_events (reasoning_block i ts signature) =
    Event.content_block_start i "reasoning" "" ""
    ∷ (map (λ t. Event.reasoning_delta i t "") ts
        ++ (Event.reasoning_delta i "" signature ∷ Event.content_block_done i "reasoning" ∷ []))
block_events (tool_block i id name ts) =
    (Event.content_block_start i "tool_call" id name ∷ Event.tool_call_start i id name ∷ [])
    ++ (map (Event.tool_call_args_delta i id) ts
        ++ (Event.tool_call_done i id name (concat_texts ts)
            ∷ Event.content_block_done i "tool_call"
            ∷ []))

abbrev pub blocks_events : List Block → List Event
blocks_events [] = []
blocks_events (b ∷ bs) = block_events b ++ blocks_events bs

-- The events of a whole message.
abbrev pub message_events : String → String → List Block → String → List Event
message_events id model blocks reason =
    (Event.message_start id model "assistant" "" 0 ∷ [])
    ++ (blocks_events blocks ++ (Event.completed reason id ∷ Event.message_done id "" ∷ []))

abbrev IsFull : String → Type 0
IsFull t = (t == "") ≡ false

-- No thought and no signature is empty, and a tool call has an id and a name.
abbrev pub IsSaid : Block → Type 0
IsSaid (text_block i ts) = Unit
IsSaid (reasoning_block i ts signature) = All IsFull ts × IsFull signature
IsSaid (tool_block i id name ts) = IsFull id × IsFull name

-- What the encoder remembers behind argument pieces, behind a block and behind blocks.
abbrev arguments_held : ℕ → List String → Held → Held
arguments_held i [] h = h
arguments_held i (t ∷ ts) h = arguments_held i ts (with_arguments i (text_at i h.args <> t) h)

abbrev block_held : Block → Held → Held
block_held (text_block i ts) h = h
block_held (reasoning_block i ts signature) h = h
block_held (tool_block i id name ts) h = arguments_held i ts (opened i id name h)

abbrev pub blocks_held : List Block → Held → Held
blocks_held [] h = h
blocks_held (b ∷ bs) h = blocks_held bs (block_held b h)

text_at-insert : (i : ℕ) (t : String) (m : Assoc ℕ String) → text_at i (insert i t m) ≡ t
text_at-insert i t m = rw (lookup-insert i i t m, (nat_beq_iff i i).1 refl) refl

module _ (ops : DecoderOps) (id model : String) where
  pass_all-texts :
      (h : Held) (i : ℕ) (ts : List String)
      → pass_all ops
          (map (Event.text_delta i) ts ++ (Event.content_block_done i "text" ∷ []))
          (in_block i "text" (idle id model h), reading_block i "text" (reading id))
        ≡ (
          map (Event.text_delta i) ts ++ (Event.content_block_done i "text" ∷ []),
          (idle id model h, reading id),
        )
  unfolding pass_all
  pass_all-texts h i [] =
      pass_all-cons ops (Event.content_block_done i "text") [] _ (pass-stop_text ops id model h i)
        refl
  pass_all-texts h i (t ∷ ts) =
      pass_all-cons ops (Event.text_delta i t) _ _ (pass-text ops id model h i t)
        (pass_all-texts h i ts)

  pass_all-thoughts :
      (h : Held) (i : ℕ) (ts : List String) (signature : String)
      → All IsFull ts
      → IsFull signature
      → pass_all ops
          (map (λ t. Event.reasoning_delta i t "") ts
            ++ (Event.reasoning_delta i "" signature ∷ Event.content_block_done i "reasoning" ∷ []))
          (in_block i "reasoning" (idle id model h), reading_block i "thinking" (reading id))
        ≡ (
          map (λ t. Event.reasoning_delta i t "") ts
              ++ (Event.reasoning_delta i "" signature
                  ∷ Event.content_block_done i "reasoning"
                  ∷ []),
          (idle id model h, reading id),
        )
  unfolding pass_all
  pass_all-thoughts h i [] signature full full' =
      pass_all-cons ops (Event.reasoning_delta i "" signature) _ _
        (pass-signature ops id model h i signature full')
        (pass_all-cons ops (Event.content_block_done i "reasoning") [] _
          (pass-stop_reasoning ops id model h i) refl)
  pass_all-thoughts h i (t ∷ ts) signature full full' =
      pass_all-cons ops (Event.reasoning_delta i t "") _ _ (pass-thought ops id model h i t full.0)
        (pass_all-thoughts h i ts signature full.1 full')

  pass_all-arguments :
      (h : Held) (i : ℕ) (tool name : String) (ts : List String) (held acc args : String)
      → text_at i h.args ≡ held <> acc
      → acc <> concat_texts ts ≡ args
      → pass_all ops
          (map (Event.tool_call_args_delta i tool) ts
            ++ (Event.tool_call_done i tool name args
                ∷ Event.content_block_done i "tool_call"
                ∷ []))
          (in_block i "tool_call" (idle id model h), reading_tool i tool name acc (reading id))
        ≡ (
          map (Event.tool_call_args_delta i tool) ts
              ++ (Event.tool_call_done i tool name args
                  ∷ Event.content_block_done i "tool_call"
                  ∷ []),
          (idle id model (arguments_held i ts h), reading id),
        )
  pass_all-arguments h i tool name [] held acc args e a =
      rw (← a) (rw (text_append-nil acc) (pass_all-stop_tool ops id model h i tool name held acc e))
  pass_all-arguments h i tool name (t ∷ ts) held acc args e a =
      let h' = with_arguments i (text_at i h.args <> t) h in
      let e' : text_at i h'.args ≡ held <> (acc <> t) =
        text_at-insert i (text_at i h.args <> t) h.args
        ∙ ap (λ u. u <> t) e
        ∙ text_append_assoc held acc t in
      pass_all-cons ops (Event.tool_call_args_delta i tool t) _ _
        (pass-arguments ops id model h i tool name acc t)
        (pass_all-arguments h' i tool name ts held (acc <> t) args e'
          (text_append_assoc acc t (concat_texts ts) ∙ a))

  pass_all-block :
      (b : Block) (h : Held)
      → IsSaid b
      → pass_all ops (block_events b) (idle id model h, reading id)
        ≡ (block_events b, (idle id model (block_held b h), reading id))
  pass_all-block (text_block i ts) h said =
      pass_all-cons ops (Event.content_block_start i "text" "" "") _ _
        (pass-start_text ops id model h i) (pass_all-texts h i ts)
  pass_all-block (reasoning_block i ts signature) h said =
      pass_all-cons ops (Event.content_block_start i "reasoning" "" "") _ _
        (pass-start_reasoning ops id model h i) (pass_all-thoughts h i ts signature said.0 said.1)
  pass_all-block (tool_block i tool name ts) h said =
      pass_all-append ops
        (Event.content_block_start i "tool_call" tool name ∷ Event.tool_call_start i tool name ∷ [])
        _ _ (pass_all-start_tool ops id model h i tool name said.0 said.1)
        (pass_all-arguments (opened i tool name h) i tool name ts (text_at i h.args) ""
          (concat_texts ts) (sym (text_append-nil (text_at i h.args)))
          (text_nil-append (concat_texts ts)))

  pub pass_all-blocks :
      (bs : List Block) (h : Held) (rest : List Event) {q : States}
      → All IsSaid bs
      → pass_all ops rest (idle id model (blocks_held bs h), reading id) ≡ (rest, q)
      → pass_all ops (blocks_events bs ++ rest) (idle id model h, reading id)
        ≡ (blocks_events bs ++ rest, q)
  pass_all-blocks [] h rest said back = back
  pass_all-blocks (b ∷ bs) h rest said back =
      rw (append_assoc (block_events b) (blocks_events bs) rest) (
        pass_all-append ops (block_events b) (blocks_events bs ++ rest) _
          (pass_all-block b h said.0) (pass_all-blocks bs (block_held b h) rest said.1 back))

  -- The states behind a whole message.
  abbrev pub ended : Held → States
  ended h = (record (idle id model h) { message_end = true }, reading id)

  pub pass_all-end :
      (h : Held) (reason : String)
      → (reason ≡ "stop") ⊎ ((reason ≡ "length") ⊎ (reason ≡ "tool_call"))
      → pass_all ops
          (Event.completed reason id ∷ Event.message_done id "" ∷ [])
          (idle id model h, reading id)
        ≡ (Event.completed reason id ∷ Event.message_done id "" ∷ [], ended h)
  unfolding pass_all pass push complete Decoder.push Decoder.message_delta count
  pass_all-end h reason (inl e) = rw e refl
  pass_all-end h reason (inr (inl e)) = rw e refl
  pass_all-end h reason (inr (inr e)) = rw e refl
