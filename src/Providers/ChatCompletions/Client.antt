-- ===== src/Providers/ChatCompletions/Client.antt =====
-- `push` of providers/openai/chatcompletions/codec.go, which reads a frame and a chunk, and
-- `readStream` of client.go over what the HTTP transport gives for a stream of SSE frames.
-- `strconv.Atoi`, `strings.TrimSpace`, JSON decoding and encoding and the conversion of bytes to
-- text are parameters.
use mathlib.Core.Option
use llmadapter.Prelude.{
  ℕ, zero, suc, String, false, ◌||◌, Option, none, some, List, [], ◌∷◌, ◌++◌, ◌==◌, nat_eq,
  string_eq, if◌then◌else◌, is_nil, length, map,
}
use llmadapter.Unified.Content.{RawMessage}
use llmadapter.Unified.Errors.{Result, ok, err}
use llmadapter.Unified.Event.{Event, WarningEvent}
use llmadapter.Transport.Bytes.{Bytes, bytes_eq}
use llmadapter.Transport.Sse.{ReadError, eof, broken, block, failed, next, parse_sse_frame}
use llmadapter.Providers.ChatCompletions.Wire.{UsageWire, ChunkWire}
use llmadapter.Providers.ChatCompletions.Decoder.{StreamDecoder, new_decoder, push_chunk}

abbrev done_marker : Bytes
done_marker = 91 ∷ 68 ∷ 79 ∷ 78 ∷ 69 ∷ 93 ∷ []

module _ (marshal_usage : UsageWire → Result RawMessage) (atoi : Bytes → Result ℕ)
    (trim_space : Bytes → Bytes) (text_of : Bytes → String)
    (unmarshal : Bytes → Result ChunkWire) where
  unfoldable push_payload : Bytes → StreamDecoder → Result (List Event × StreamDecoder)
  unfolding push_chunk
  push_payload payload d =
      if is_nil (trim_space payload) || payload == done_marker
      then ok ([], d)
      else elim (unmarshal payload) [
        | ok chunk ↦ ok (push_chunk marshal_usage chunk (text_of payload) d)
        | err e ↦ err e
      ]

  unfoldable pub push : Bytes → StreamDecoder → Result (List Event × StreamDecoder)
  unfolding push_payload
  push raw d = elim (parse_sse_frame atoi raw) [
    | ok frame ↦ push_payload frame.payload d
    | err e ↦ err e
  ]

  -- The loop of `readStream`, in a context that is not cancelled, over what the HTTP transport
  -- reads. A turn consumes input; the number bounds the turns, and `none` means that they were
  -- not enough.
  unfoldable pub read_from : ℕ → StreamDecoder → Bytes → ReadError → Option (List Event)
  unfolding push
  read_from zero d input e = none
  read_from (suc turns) d input e = elim (next input e) [
    | failed eof ↦ some []
    | failed (broken x) ↦ some (Event.error (some x) false ∷ [])
    | block raw rest ↦ elim (push raw d) [
      | ok (out, d') ↦ Option.map (λ more. out ++ more) (read_from turns d' rest e)
      | err x ↦ some (Event.error (some x) false ∷ [])
    ]
  ]

  -- The warnings of the request's encoding come first; what `event` makes of them is an argument.
  unfoldable pub read_stream : List WarningEvent → Bytes → ReadError → Option (List Event)
  unfolding read_from
  read_stream warnings input e =
      Option.map (λ events. map Event.warning warnings ++ events)
        (read_from (suc (length input)) new_decoder input e)
