-- ===== src/Providers/ChatCompletions/Returns.antt =====
-- `readStream` returns.
use llmadapter.Prelude.{
  false, ℕ, zero, suc, String, ◌<◌, ◌≡◌, refl, ap, Option, some, List, [], ◌∷◌, ◌++◌, map, arith,
  length,
}
use mathlib.Core.Option
use llmadapter.Unified.Content.{RawMessage}
use llmadapter.Unified.Errors.{Result, ok, err}
use llmadapter.Unified.Event.{Event, WarningEvent}
use llmadapter.Transport.Bytes.{Bytes}
use llmadapter.Transport.Sse.{ReadError, eof, broken, NextBlock, block, failed, next}
use llmadapter.Transport.Sse.Progress.{next-shorter}
use llmadapter.Providers.ChatCompletions.Wire.{UsageWire, ChunkWire}
use llmadapter.Providers.ChatCompletions.Decoder.{StreamDecoder, new_decoder}
use llmadapter.Providers.ChatCompletions.Client.{push, read_from, read_stream}

abbrev Returns : Option (List Event) → Type 0
Returns o = (out : List Event) × (o ≡ some out)

module _ (marshal_usage : UsageWire → Result RawMessage) (atoi : Bytes → Result ℕ)
    (trim_space : Bytes → Bytes) (text_of : Bytes → String)
    (unmarshal : Bytes → Result ChunkWire) where
  abbrev read : ℕ → StreamDecoder → Bytes → ReadError → Option (List Event)
  read = read_from marshal_usage atoi trim_space text_of unmarshal

  abbrev push_raw : Bytes → StreamDecoder → Result (List Event × StreamDecoder)
  push_raw = push marshal_usage atoi trim_space text_of unmarshal

  Returns-pushed :
      (turns : ℕ) (rest : Bytes) (e : ReadError) (p : Result (List Event × StreamDecoder))
      → ((d' : StreamDecoder) → Returns (read turns d' rest e))
      → Returns (elim p [
        | ok (out, d') ↦ Option.map (λ more. out ++ more) (read turns d' rest e)
        | err x ↦ some (Event.error (some x) false ∷ [])
      ])
  Returns-pushed turns rest e (err x) h = (Event.error (some x) false ∷ [], refl)
  Returns-pushed turns rest e (ok (out, d')) h =
      let (more, k) = h d' in (out ++ more, ap (Option.map (λ more. out ++ more)) k)

  Returns-next :
      (turns : ℕ) (d : StreamDecoder) (e : ReadError) (r : NextBlock)
      → ((b rest : Bytes) (d' : StreamDecoder) → r ≡ block b rest → Returns (read turns d' rest e))
      → Returns (elim r [
        | failed eof ↦ some []
        | failed (broken x) ↦ some (Event.error (some x) false ∷ [])
        | block raw rest ↦ elim (push_raw raw d) [
          | ok (out, d') ↦ Option.map (λ more. out ++ more) (read turns d' rest e)
          | err x ↦ some (Event.error (some x) false ∷ [])
        ]
      ])
  Returns-next turns d e (failed eof) h = ([], refl)
  Returns-next turns d e (failed (broken x)) h = (Event.error (some x) false ∷ [], refl)
  Returns-next turns d e (block raw rest) h =
      Returns-pushed turns rest e (push_raw raw d) (λ d'. h raw rest d' refl)

  read_from-Returns :
      (turns : ℕ) (d : StreamDecoder) (input : Bytes) (e : ReadError)
      → length input < turns
      → Returns (read turns d input e)
  unfolding read_from
  read_from-Returns zero d input e h = absurd (ground (arith, h))
  read_from-Returns (suc turns) d input e h = Returns-next turns d e (next input e) (λ b rest d' k.
      read_from-Returns turns d' rest e (omega (arith, h, next-shorter input e b rest k)))

  -- The loop of `readStream` returns on every input, however the input ends and whatever the
  -- decoders answer: one turn more than the input has bytes is enough.
  pub read_stream-Returns :
      (warnings : List WarningEvent) (input : Bytes) (e : ReadError)
      → (out : List Event) × (read_stream marshal_usage atoi trim_space text_of unmarshal warnings
            input e
          ≡ some (map Event.warning warnings ++ out))
  unfolding read_stream
  read_stream-Returns warnings input e =
      let (out, h) = read_from-Returns (suc (length input)) new_decoder input e (omega arith) in
      (out, ap (Option.map (λ events. map Event.warning warnings ++ events)) h)
