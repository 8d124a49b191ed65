-- ===== src/Tests/Decoding.antt =====
-- Streams of frames, and the providers' decoders on concrete streams.
use llmadapter.Prelude.{
  nat_eq, ℕ, ◌≡◌, refl, false, none, some, List, [], ◌∷◌, ◌++◌, String, reverse,
}
use llmadapter.Prelude.Assoc.{lookup}
use llmadapter.Unified.Errors.{formatted, Result, ok, err}
use llmadapter.Unified.Event.{Event}
use llmadapter.Unified.Content.{text_part}
use llmadapter.Unified.Kinds.{content_kind_tool_call}
use llmadapter.Transport.Bytes.{Bytes, join}
use llmadapter.Transport.Sse.{eof, block, next}
use llmadapter.Transport.Sse.Blocks.{lf, cr, next-end_lines, next-cut_off}
use llmadapter.Endpoints.{write_sse_event, event_text}
use llmadapter.Endpoints.Written.{read_frame, read_frame-write_sse_event}
use llmadapter.Providers.ChatCompletions.Wire.{ChunkWire}
use llmadapter.Providers.ChatCompletions.Client.{read_stream}
use llmadapter.Providers.ChatCompletions.Run.{content_of}
use llmadapter.Providers.ChatCompletions.LostText.{text_then_call, content_of-text_then_call}
use llmadapter.Providers.ChatCompletions.Texts.{text_stream, content_of-text_stream}
use llmadapter.Providers.ChatCompletions.Returns.{read_stream-Returns}
use llmadapter.Providers.Anthropic.Wire.{WireEvent, ContentBlock, BlockDelta}
use llmadapter.Providers.Anthropic.Quota.{QuotaOps}
use llmadapter.Providers.Anthropic.Decoder.{DecoderOps, new_event_decoder, push}
use llmadapter.Providers.Anthropic.Blocks.{state_after, push-tool_block}

abbrev refuse : {A : Type 0} → A → Result ℕ
refuse a = err (formatted "invalid syntax" [])

-- "ping" and "{}"
abbrev ping_name : Bytes
ping_name = 112 ∷ 105 ∷ 110 ∷ 103 ∷ []

abbrev empty_object : Bytes
empty_object = 123 ∷ 125 ∷ []

read_frame-write_sse_event_example :
    read_frame refuse (event_text ping_name empty_object ++ event_text ping_name empty_object) eof
    ≡ some (
      ok (record { event = ping_name; payload = empty_object; id = []; retry = 0 }),
      event_text ping_name empty_object,
    )
unfolding write_sse_event
read_frame-write_sse_event_example =
    read_frame-write_sse_event refuse ping_name empty_object (event_text ping_name empty_object)
      (event_text ping_name empty_object) eof (refl, (refl, (refl, (refl, tt)))) (refl, (refl, tt))
      refl

-- A blank line, the lines "a" and "b" and the blank line behind them, ended by carriage returns.
next-end_lines_example :
    next (13 ∷ 97 ∷ 13 ∷ 98 ∷ 13 ∷ 13 ∷ 99 ∷ []) eof ≡ block (97 ∷ 10 ∷ 98 ∷ []) (99 ∷ [])
unfolding join
next-end_lines_example =
    next-end_lines cr 1 (97 ∷ []) ((98 ∷ []) ∷ []) (99 ∷ []) eof
      (((refl, tt), refl), (((refl, tt), refl), tt)) refl

-- The lines "a" and "b", of which the second is cut off.
next-cut_off_example : next (97 ∷ 10 ∷ 98 ∷ []) eof ≡ block (97 ∷ 98 ∷ []) []
unfolding join
next-cut_off_example =
    next-cut_off lf (97 ∷ []) [] (98 ∷ []) (((refl, tt), refl), tt) ((refl, tt), refl)

abbrev pub no_text : {A : Type 0} → A → Result String
no_text a = err (formatted "not encoded" [])

content_of-text_then_call_example :
    (content_of no_text reverse (text_then_call "Hello" "call_1" "search" "[]" 0) ≡ [])
    × (content_of no_text reverse (text_then_call "Hello" "call_1" "search" "[]" 1)
        ≡ text_part "Hello" none ∷ [])
content_of-text_then_call_example =
    content_of-text_then_call no_text reverse "Hello" "call_1" "search" "[]" refl refl refl refl
      refl

content_of-text_stream_example :
    content_of no_text reverse (text_stream "stop" ("Hel" ∷ "" ∷ "lo" ∷ []))
    ≡ text_part "Hello" none ∷ []
content_of-text_stream_example =
    content_of-text_stream no_text reverse refl "stop" "Hel" ("" ∷ "lo" ∷ []) refl

abbrev no_chunk : Bytes → Result ChunkWire
no_chunk bytes = err (formatted "unexpected end of JSON input" [])

read_stream-Returns_example :
    (out : List Event) × (read_stream no_text refuse
        (λ bytes. bytes)
        (λ bytes. "")
        no_chunk
        []
        (100 ∷ 97 ∷ 116 ∷ 97 ∷ 58 ∷ 123 ∷ 10 ∷ 10 ∷ [])
        eof
      ≡ some ([] ++ out))
read_stream-Returns_example =
    read_stream-Returns no_text refuse (λ bytes. bytes) (λ bytes. "") no_chunk []
      (100 ∷ 97 ∷ 116 ∷ 97 ∷ 58 ∷ 123 ∷ 10 ∷ 10 ∷ []) eof

abbrev quota_ops : QuotaOps
quota_ops = record {
  floats = record { add = λ x y. x; mul = λ x y. x; div = λ x y. x; of_int = λ x. x };
  less = λ x y. false;
  less_or_equal = λ x y. false;
  parse_rfc3339 = refuse;
  marshal_headers = no_text;
}

abbrev pub decoder_ops : DecoderOps
decoder_ops = record {
  quota = quota_ops;
  int_of_float = λ x. x;
  show_value = λ v. "";
  marshal_block = no_text;
  marshal_delta = λ i. no_text;
  marshal_usage = no_text;
  marshal_error = no_text;
  marshal_values = no_text;
}

abbrev search_block : ContentBlock
search_block = record {
  type = "tool_use";
  text = "";
  cache = none;
  source = none;
  id = "toolu_1";
  name = "search";
  input = "{}";
  tool_use_id = "";
  content = "";
  is_error = false;
  citations = [];
  thinking = "";
  signature = "";
}

abbrev argument : String → BlockDelta
argument text = record {
  type = "input_json_delta";
  text = "";
  partial_json = text;
  thinking = "";
  signature = "";
}

-- The deltas of another block come between.
abbrev deltas : List WireEvent
deltas =
    WireEvent.content_block_delta 1 (argument "{\"q\":")
    ∷ WireEvent.content_block_delta 2 (argument "[")
    ∷ WireEvent.content_block_delta 1 (argument "1}")
    ∷ []

push-tool_block_example :
    let d =
      state_after decoder_ops
        (WireEvent.content_block_start 1 search_block ∷ deltas)
        new_event_decoder in
    ((push decoder_ops (WireEvent.content_block_stop 1) d).0
      ≡ Event.tool_call_done 1 "toolu_1" "search" "{\"q\":1}"
        ∷ Event.content_block_done 1 content_kind_tool_call
        ∷ [])
    × (lookup 1 (push decoder_ops (WireEvent.content_block_stop 1) d).1.tool_args ≡ none)
push-tool_block_example =
    push-tool_block decoder_ops 1 search_block deltas new_event_decoder refl
      (refl, (refl, (refl, tt)))
