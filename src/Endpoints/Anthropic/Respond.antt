-- ===== src/Endpoints/Anthropic/Respond.antt =====
-- `responseFromUnified` of endpoints/anthropicmessages/codec.go.
use llmadapter.Prelude.{
  ℕ, suc, String, none, some, List, [], ◌∷◌, ◌++◌, map, ◌==◌, nat_eq, string_eq, if◌then◌else◌,
}
use llmadapter.Prelude.Assoc.{Assoc, lookup, insert}
use llmadapter.Unified.Content.{ContentPart, text_part, reasoning_part}
use llmadapter.Unified.Request.{ToolCall}
use llmadapter.Unified.Response.{Response}
use llmadapter.Unified.Event.{Citation, CitationEvent}
use llmadapter.Providers.Citations.{AnyValue, OutputSpec, to_map}
use llmadapter.Providers.Anthropic.Wire.{ContentBlock, MessageResponse, CitationValue}
use llmadapter.Endpoints.Anthropic.Stream.{stop_reason, usage_from_unified, empty_block}

abbrev output_spec : OutputSpec
output_spec = record {
  text_key = "cited_text";
  title_key = "document_title";
  document_id_key = "document_id";
  start_key = "start_char_index";
  end_key = "end_char_index";
}

abbrev pub CitationMap : Type 0
CitationMap = Assoc ℕ (List CitationValue)

abbrev citations_at : ℕ → CitationMap → List CitationValue
citations_at index m = elim (lookup index m) [ none ↦ [] | some values ↦ values ]

-- Text and reasoning make blocks; other content is dropped.
unfoldable pub part_blocks : CitationMap → ℕ → List ContentPart → List ContentBlock
part_blocks cited i [] = []
part_blocks cited i (text_part t cache ∷ parts) =
    (record empty_block { type = "text"; text = t; citations = citations_at i cited })
    ∷ part_blocks cited (suc i) parts
part_blocks cited i (reasoning_part t signature ∷ parts) =
    (record empty_block { type = "thinking"; thinking = t; signature = signature })
    ∷ part_blocks cited (suc i) parts
part_blocks cited i (_ ∷ parts) = part_blocks cited (suc i) parts

abbrev pub call_block : ToolCall → ContentBlock
call_block call = record empty_block {
  type = "tool_use";
  id = call.id;
  name = call.name;
  input = if call.arguments == "" then "{}" else call.arguments;
}

module _ (value_of_int : ℕ → AnyValue) (value_of_text : String → AnyValue) where
  unfoldable anthropic_citation : Citation → CitationValue
  unfolding to_map
  anthropic_citation citation =
      CitationValue.object (to_map value_of_int value_of_text citation output_spec)

  -- The loop of `anthropicCitationsByIndex`.
  unfoldable pub citations_by_index : CitationMap → List CitationEvent → CitationMap
  unfolding anthropic_citation
  citations_by_index out [] = out
  citations_by_index out (event ∷ events) =
      citations_by_index
        (insert event.index (citations_at event.index out ++ anthropic_citation event.citation ∷ [])
          out)
        events

  unfoldable pub content_blocks_from_response : Response → List ContentBlock
  unfolding part_blocks citations_by_index
  content_blocks_from_response resp =
      part_blocks (citations_by_index [] resp.citations) 0 resp.content
      ++ map call_block resp.tool_calls

  unfoldable pub response_from_unified : Response → MessageResponse
  unfolding content_blocks_from_response stop_reason usage_from_unified
  response_from_unified resp = record {
    id = resp.id;
    type = "message";
    role = "assistant";
    content = content_blocks_from_response resp;
    model = resp.model;
    stop_reason = stop_reason resp.finish_reason;
    stop_sequence = "";
    stop_details = "";
    usage = usage_from_unified resp.usage;
    context_management = "";
  }
