-- ===== src/Providers/ChatCompletions/Run.antt =====
-- Runs of the decoder on chunks of one choice, read by `Collect`.
use llmadapter.Prelude.{ℕ, String, ◌≡◌, ◌∙◌, ap, none, List, [], ◌∷◌, ◌++◌, nat_eq, string_eq}
use llmadapter.Unified.Content.{RawMessage, ContentPart}
use llmadapter.Unified.Errors.{Result}
use llmadapter.Unified.Event.{Event}
use llmadapter.Unified.Collect.{collect, closed}
use llmadapter.Providers.ChatCompletions.Wire.{ChunkWire, ToolCallWire, UsageWire}
use llmadapter.Providers.ChatCompletions.Decoder.{
  StreamDecoder, both, Emit, new_decoder, push_chunk, each,
}

abbrev pub chunk : String → List ToolCallWire → String → ChunkWire
chunk text calls reason = record {
  id = "";
  model = "";
  choices =
      (record {
        index = 0;
        delta = record { role = ""; content = text; tool_calls = calls };
        finish_reason = reason;
      })
      ∷ [];
  usage = none;
  error = none;
}

pub both-pair :
    (f g : Emit) {out more : List Event} {d d' d'' : StreamDecoder}
    → f d ≡ (out, d')
    → g d' ≡ (more, d'')
    → both f g d ≡ (out ++ more, d'')
both-pair f g {out} hf hg =
    ap (λ p. (p.0 ++ (g p.1).0, (g p.1).1)) hf ∙ ap (λ q. (out ++ q.0, q.1)) hg

module _ (marshal_usage : UsageWire → Result RawMessage) where
  -- The events of chunks whose raw text is not read.
  abbrev pub decoded : List ChunkWire → List Event
  decoded chunks = (each (λ c. push_chunk marshal_usage c "") chunks new_decoder).0

  module _ (order : List ℕ → List ℕ) where
    -- `Collect` on the decoded stream, which is closed behind it.
    abbrev pub content_of : List ChunkWire → List ContentPart
    content_of chunks = (collect order (decoded chunks) closed).resp.content
