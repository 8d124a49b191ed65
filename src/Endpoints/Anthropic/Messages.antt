-- ===== src/Endpoints/Anthropic/Messages.antt =====
-- What the Anthropic endpoint writes of a whole message, the Anthropic provider reads back.
use llmadapter.Prelude.{
  ℕ, suc, ◌+◌, length, String, ◌≡◌, refl, ◌∙◌, ap, ◌⊎◌, Option, none, List, [], ◌∷◌, ◌++◌, map, All,
  All-append,
}
use mathlib.Core.List.{append_assoc}
use llmadapter.Unified.Errors.{GoError}
use llmadapter.Unified.Event.{Event}
use llmadapter.Providers.Anthropic.Decoder as Decoder
use llmadapter.Providers.Anthropic.Decoder.{EventDecoder, DecoderOps, new_event_decoder}
use llmadapter.Endpoints.Anthropic.Stream.{
  StreamFrame, StreamState, new_stream_state, push, stream_error, write_frames, write_stream,
}
use llmadapter.Endpoints.Anthropic.Passes.{
  States, decode, decode-append, pass, pass_all, pass_all-cons,
}
use llmadapter.Endpoints.Anthropic.Steps.{Held}
use llmadapter.Endpoints.Anthropic.ReadBack.{
  Block, text_block, reasoning_block, tool_block, block_events, blocks_events, message_events,
  IsSaid, pass_all-blocks, pass_all-end, blocks_held,
}

abbrev pub NoError : Event → Type 0
NoError ev = stream_error ev ≡ none

-- A writer that never fails.
abbrev pub never : ℕ → Option GoError
never n = none

write_frames-never :
    (n : ℕ) (frames : List StreamFrame) → write_frames never n frames ≡ (frames, none)
unfolding write_frames
write_frames-never n [] = refl
write_frames-never n (frame ∷ frames) =
    ap (λ (o : List StreamFrame × Option GoError). (frame ∷ o.0, o.1))
      (write_frames-never (suc n) frames)

pub write_stream-cons :
    (ev : Event) (events : List Event) (n : ℕ) (s : StreamState)
    → NoError ev
    → (write_stream never n (ev ∷ events) s).0
      ≡ (push ev s).0 ++ (write_stream never (n + length (push ev s).0) events (push ev s).1).0
unfolding write_stream
write_stream-cons ev events n s clean =
    rw (clean, write_stream)
      (rw (write_frames-never n (push ev s).0) (rw (write_frames-never n (push ev s).0) refl))

NoError-map :
    (f : String → Event) (ts : List String)
    → ((t : String) → NoError (f t))
    → All NoError (map f ts)
NoError-map f [] h = tt
NoError-map f (t ∷ ts) h = (h t, NoError-map f ts h)

NoError-block : (b : Block) → All NoError (block_events b)
NoError-block (text_block i ts) =
    (refl, All-append NoError _ _ (NoError-map (Event.text_delta i) ts (λ t. refl)) (refl, tt))
NoError-block (reasoning_block i ts signature) = (
  refl,
  All-append NoError _ _ (NoError-map (λ t. Event.reasoning_delta i t "") ts (λ t. refl))
      (refl, (refl, tt)),
)
NoError-block (tool_block i id name ts) = (
  refl,
  (
    refl,
    All-append NoError _ _ (NoError-map (Event.tool_call_args_delta i id) ts (λ t. refl))
        (refl, (refl, tt)),
  ),
)

NoError-blocks :
    (bs : List Block) (rest : List Event)
    → All NoError rest
    → All NoError (blocks_events bs ++ rest)
NoError-blocks [] rest h = h
NoError-blocks (b ∷ bs) rest h = rw (append_assoc (block_events b) (blocks_events bs) rest) (
    All-append NoError (block_events b) (blocks_events bs ++ rest) (NoError-block b)
      (NoError-blocks bs rest h))

module _ (ops : DecoderOps) where
  decode-write_stream :
      (events : List Event) (n : ℕ) (s : StreamState) (d : EventDecoder)
      → All NoError events
      → (decode ops (write_stream never n events s).0 d).0 ≡ (pass_all ops events (s, d)).0
  unfolding pass_all pass decode write_stream
  decode-write_stream [] n s d clean = refl
  decode-write_stream (ev ∷ events) n s d clean =
      let (frames, s') = push ev s in
      ap (λ (o : List StreamFrame). (decode ops o d).0) (write_stream-cons ev events n s clean.0)
      ∙ ap (λ (o : List Event × EventDecoder). o.0)
          (decode-append ops frames (write_stream never (n + length frames) events s').0 d)
      ∙ ap (λ (es : List Event). (decode ops frames d).0 ++ es)
          (decode-write_stream events (n + length frames) s' (decode ops frames d).1 clean.1)

  -- A message is a start, then blocks of which each is closed before the next, then its
  -- completion for the reason "stop", "length" or "tool_call". A block has an index, the same or
  -- another than those before it, and is text in any pieces, thoughts with a signature of which
  -- none is empty, or a tool call with an id and a name and its arguments in any pieces, which its
  -- end repeats as a whole. When no write fails, then what the decoder of the Anthropic provider
  -- makes of the frames that the Anthropic endpoint writes for such a message are the events of
  -- the message, every one in its place.
  pub decode-message_events :
      (id model : String) (blocks : List Block) (reason : String)
      → All IsSaid blocks
      → (reason ≡ "stop") ⊎ ((reason ≡ "length") ⊎ (reason ≡ "tool_call"))
      → (decode ops
          (write_stream never 0 (message_events id model blocks reason) new_stream_state).0
          new_event_decoder).0
        ≡ message_events id model blocks reason
  unfolding pass push Decoder.push
  decode-message_events id model blocks reason said r =
      let h : Held = record { ids = []; names = []; args = [] } in
      decode-write_stream (message_events id model blocks reason) 0 new_stream_state
        new_event_decoder
        (
          refl,
          NoError-blocks blocks (Event.completed reason id ∷ Event.message_done id "" ∷ [])
              (refl, (refl, tt)),
        )
      ∙ ap (λ (o : List Event × States). o.0)
          (pass_all-cons ops (Event.message_start id model "assistant" "" 0) _
            (new_stream_state, new_event_decoder) refl
            (pass_all-blocks ops id model blocks h
              (Event.completed reason id ∷ Event.message_done id "" ∷ []) said
              (pass_all-end ops id model (blocks_held blocks h) reason r)))
