-- ===== src/Endpoints/Anthropic/Continued.antt =====
-- A response of the Anthropic endpoint that the client sends back in its next request.
use llmadapter.Prelude.{
  Bool-cases, inl, inr, ℕ, suc, ◌+◌, String, ◌≡◌, refl, ◌∙◌, ap, none, List, [], ◌∷◌, ◌++◌, map,
  length, All, arith, ◌==◌, string_eq, if◌then◌else◌,
}
use mathlib.Core.List.{append-nil}
use llmadapter.Unified.Kinds.{role_assistant}
use llmadapter.Unified.Content.{ContentPart, text_part, reasoning_part}
use llmadapter.Unified.Request.{ToolCall}
use llmadapter.Unified.Response.{Response}
use llmadapter.Providers.Citations.{AnyValue}
use llmadapter.Providers.Anthropic.Wire.{ContentBlock}
use llmadapter.Endpoints.Decoding.{DecodeOps}
use llmadapter.Endpoints.Anthropic.Decode.{
  no_parts, join_parts, block_parts, blocks_parts, message_of, decode_message,
}
use llmadapter.Endpoints.Anthropic.Respond.{
  CitationMap, citations_by_index, part_blocks, call_block, content_blocks_from_response,
  response_from_unified,
}

-- A text with no cache control, or reasoning.
abbrev IsAnswered : ContentPart → Type 0
IsAnswered (text_part t cache) = cache ≡ none
IsAnswered (reasoning_part t signature) = Unit
IsAnswered _ = ⊥

-- The calls as they come back: with no arguments as an empty object, and numbered from `i` on.
abbrev numbered : ℕ → List ToolCall → List ToolCall
numbered i [] = []
numbered i (call ∷ calls) =
    (record call { arguments = if call.arguments == "" then "{}" else call.arguments; index = i })
    ∷ numbered (suc i) calls

module _ (ops : DecodeOps) (field : String) where
  blocks_parts-calls :
      (i : ℕ) (calls : List ToolCall)
      → blocks_parts ops field i (map call_block calls)
        ≡ record no_parts { tool_calls = numbered i calls }
  unfolding blocks_parts block_parts
  blocks_parts-calls i [] = refl
  blocks_parts-calls i (call ∷ calls) =
      rw (blocks_parts-calls (suc i) calls)
        (elim (Bool-cases (call.arguments == "")) [ inl e ↦ rw e refl | inr e ↦ rw (e, e) refl ])

  -- One part before others, whose blocks are counted on.
  shift :
      (part : ContentPart) (i : ℕ) (parts : List ContentPart) (blocks : List ContentBlock)
      → join_parts
          (record no_parts { content = part ∷ [] })
          (join_parts
            (record no_parts { content = parts })
            (blocks_parts ops field (suc i + length parts) blocks))
        ≡ join_parts
            (record no_parts { content = part ∷ parts })
            (blocks_parts ops field (i + suc (length parts)) blocks)
  shift part i parts blocks =
      ap
        (λ k.
          join_parts (record no_parts { content = part ∷ parts }) (blocks_parts ops field k blocks))
        (let e : suc i + length parts ≡ i + suc (length parts) = omega arith in e)

  blocks_parts-parts :
      (i j : ℕ) (cited : CitationMap) (parts : List ContentPart) (blocks : List ContentBlock)
      → All IsAnswered parts
      → blocks_parts ops field i (part_blocks cited j parts ++ blocks)
        ≡ join_parts
            (record no_parts { content = parts })
            (blocks_parts ops field (i + length parts) blocks)
  unfolding blocks_parts block_parts part_blocks
  blocks_parts-parts i j cited [] blocks h =
      ap (λ k. blocks_parts ops field k blocks) (let e : i ≡ i + 0 = omega arith in e)
  blocks_parts-parts i j cited (text_part t cache ∷ parts) blocks h = rw h.0 (
      ap (join_parts (record no_parts { content = text_part t none ∷ [] }))
        (blocks_parts-parts (suc i) (suc j) cited parts blocks h.1)
      ∙ shift (text_part t none) i parts blocks)
  blocks_parts-parts i j cited (reasoning_part t signature ∷ parts) blocks h =
      ap (join_parts (record no_parts { content = reasoning_part t signature ∷ [] }))
        (blocks_parts-parts (suc i) (suc j) cited parts blocks h.1)
      ∙ shift (reasoning_part t signature) i parts blocks
  blocks_parts-parts i j cited (_ ∷ parts) blocks h = absurd h.0

-- A response whose content is texts with no cache control and reasoning, in any number and order,
-- is written by the Anthropic endpoint. When the client sends the blocks back in a message of the
-- assistant, that message decodes with no warning to one message with the same content and the
-- same tool calls in the same order: with their ids and names, with their arguments, or an empty
-- object where they have none, and each with the place of its block as its index.
pub decode_message-response :
    (ops : DecodeOps) (value_of_int : ℕ → AnyValue) (value_of_text : String → AnyValue)
    → (field : String) (resp : Response) → All IsAnswered resp.content
    → decode_message ops
        (record {
          role = "assistant";
          content = (response_from_unified value_of_int value_of_text resp).content;
        })
        field
      ≡ (
        message_of role_assistant resp.content (numbered (length resp.content) resp.tool_calls) []
            ∷ [],
        [],
      )
unfolding decode_message response_from_unified content_blocks_from_response
decode_message-response ops value_of_int value_of_text field resp h =
    rw
      (
        blocks_parts-parts ops field 0 0
            (citations_by_index value_of_int value_of_text [] resp.citations) resp.content
            (map call_block resp.tool_calls) h,
        blocks_parts-calls ops field (0 + length resp.content) resp.tool_calls,
      )
      (rw (append-nil resp.content) (
        ap (λ k. (message_of role_assistant resp.content (numbered k resp.tool_calls) [] ∷ [], []))
          (let e : 0 + length resp.content ≡ length resp.content = omega arith in e)))
