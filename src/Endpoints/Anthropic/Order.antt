-- ===== src/Endpoints/Anthropic/Order.antt =====
-- The order of the frames that the Anthropic endpoint writes.
use llmadapter.Prelude.{
  ◌||◌, ℕ, ◌+◌, length, String, ◌≡◌, refl, sym, ◌∙◌, ap, Bool, true, false, not, ◌&&◌, Option, none,
  some, is_some, List, [], ◌∷◌, ◌++◌, ◌==◌, nat_eq, string_eq, nat_beq_iff, Option-cases,
  Bool-cases, inl, inr, if◌then◌else◌, arith,
}
use llmadapter.Prelude.Assoc.{text_at, lookup, insert}
use llmadapter.Unified.Kinds.{ContentKind}
use llmadapter.Unified.Errors.{GoError}
use llmadapter.Unified.Event.{Event}
use llmadapter.Providers.Anthropic.Wire.{WireEvent}
use llmadapter.Endpoints.Anthropic.Stream.{
  StreamFrame, StreamState, new_stream_state, push, start_block, stop_block, complete,
  reasoning_frames, arguments_frame, with_frames, before_frames, late_arguments, stream_error,
  write_frames, write_stream,
}
use llmadapter.Endpoints.Anthropic.Opened.{
  Seen, nothing_seen, seen, seen-insert, seen-remove, seen-keep_tool, in_block, arguments_in_blocks,
  push-opened,
}
use llmadapter.Endpoints.Anthropic.Writes.{unwritten, write_frames-unwritten, write_frames-either}

module _ (strict : Bool) where
  -- A block starts when it is not open, ends when it is open, and has its texts, thoughts and
  -- signatures while it is open, and its pieces of arguments too if `strict`; the message ends once.
  abbrev follow_one : WireEvent → Seen → Option Seen
  follow_one (WireEvent.content_block_start i block) w =
      if w.opened i
      then none
      else some (record w { opened = λ j. if i == j then true else w.opened j })
  follow_one (WireEvent.content_block_stop i) w =
      if w.opened i
      then some (record w { opened = λ j. if i == j then false else w.opened j })
      else none
  follow_one (WireEvent.content_block_delta i delta) w =
      if not strict && delta.type == "input_json_delta"
      then some w
      else if w.opened i
      then some w
      else none
  follow_one WireEvent.message_stop w = if w.ended then none else some (record w { ended = true })
  follow_one _ w = some w

  abbrev pub follow : List StreamFrame → Seen → Option Seen
  follow [] w = some w
  follow (frame ∷ frames) w = elim (follow_one frame.payload w) [
    | none ↦ none
    | some w' ↦ follow frames w'
  ]

  -- Frames behind those that were followed.
  abbrev then_follow : Option Seen → List StreamFrame → Option Seen
  then_follow none ys = none
  then_follow (some w) ys = follow ys w

  follow-append :
      (xs ys : List StreamFrame) (w : Seen) → follow (xs ++ ys) w ≡ then_follow (follow xs w) ys
  follow-append [] ys w = refl
  follow-append (x ∷ xs) ys w = elim (Option-cases (follow_one x.payload w)) [
    | inl e ↦ rw (follow, e) refl
    | inr (w', e) ↦ rw (follow, e) (follow-append xs ys w')
  ]

  -- Frames that bring a reader from one state of the endpoint to another.
  abbrev Brings : StreamState → List StreamFrame × StreamState → Type 0
  Brings s (frames, s') = follow frames (seen s) ≡ some (seen s')

  follow-arguments :
      (i : ℕ) (args : String) (w : Seen)
      → (not strict || w.opened i) ≡ true
      → follow (arguments_frame i args ∷ []) w ≡ some w
  follow-arguments i args w h = ground (arith, h)

  start_block-Brings :
      (i : ℕ) (kind : ContentKind) (id name : String) (s : StreamState)
      → Brings s (start_block i kind id name s)
        × (is_some (lookup i (start_block i kind id name s).1.started) ≡ true)
  unfolding start_block
  start_block-Brings i kind id name s = elim (Bool-cases (is_some (lookup i s.started))) [
    | inl e ↦ rw e (refl, e)
    | inr e ↦
        let kept = seen-keep_tool i kind id name (record s { started = insert i kind s.started }) in
        let same = kept ∙ seen-insert i kind s in
        rw e (
          rw (follow, e) (ap some (sym same)),
          ap (λ (w : Seen). w.opened i) same ∙ rw ((nat_beq_iff i i).1 refl) refl,
        )
  ]

  stop_block-Brings : (i : ℕ) (s : StreamState) → Brings s (stop_block i s)
  unfolding stop_block
  stop_block-Brings i s = elim (Bool-cases (is_some (lookup i s.started))) [
    | inl e ↦ rw e (rw (follow, e) (ap some (sym (seen-remove i s))))
    | inr e ↦ rw e refl
  ]

  -- Frames of an open block behind its start.
  started-Brings :
      (i : ℕ) (kind : ContentKind) (id name : String) (more : List StreamFrame) (s : StreamState)
      → ((w : Seen) → w.opened i ≡ true → follow more w ≡ some w)
      → Brings s (with_frames more (start_block i kind id name s))
  started-Brings i kind id name more s h =
      let (brings, is_open) = start_block-Brings i kind id name s in
      follow-append (start_block i kind id name s).0 more (seen s)
      ∙ ap (λ o. then_follow o more) brings
      ∙ h (seen (start_block i kind id name s).1) is_open

  follow-reasoning_frames :
      (i : ℕ) (text signature : String) (w : Seen)
      → w.opened i ≡ true
      → follow (reasoning_frames i text signature) w ≡ some w
  follow-reasoning_frames i text signature w h = ground (arith, h)

  complete-Brings : (reason : String) (s : StreamState) → Brings s (complete reason s)
  unfolding complete
  complete-Brings reason s = elim (Bool-cases s.message_end) [
    | inl e ↦ rw e refl
    | inr e ↦ rw e refl
  ]

  follow-late_arguments :
      (i : ℕ) (args : String) (s : StreamState)
      → (not strict || is_some (lookup i s.started)) ≡ true
      → follow (late_arguments i args s) (seen s) ≡ some (seen s)
  follow-late_arguments i args s h =
      elim (Bool-cases (text_at i s.tool_args == "" && not (args == ""))) [
        | inl e ↦ rw e (follow-arguments i args (seen s) h)
        | inr e ↦ rw e refl
      ]

  late-Brings :
      (i : ℕ) (args : String) (s : StreamState)
      → (not strict || is_some (lookup i s.started)) ≡ true
      → Brings s (before_frames (late_arguments i args s) (stop_block i s))
  late-Brings i args s h =
      follow-append (late_arguments i args s) (stop_block i s).0 (seen s)
      ∙ ap (λ o. then_follow o (stop_block i s).0) (follow-late_arguments i args s h)
      ∙ stop_block-Brings i s

  push-Brings :
      (ev : Event) (s : StreamState)
      → (not strict || in_block ev (seen s).opened) ≡ true
      → Brings s (push ev s)
  unfolding push
  push-Brings (Event.message_start id model role phase time) s h = refl
  push-Brings (Event.content_block_start i kind id name) s h =
      (start_block-Brings i kind id name s).0
  push-Brings (Event.text_delta i text) s h =
      started-Brings i "text" "" "" _ s (λ w o. rw (follow, o) (ground arith))
  push-Brings (Event.reasoning_delta i text signature) s h =
      started-Brings i "reasoning" "" "" _ s (follow-reasoning_frames i text signature)
  push-Brings (Event.tool_call_start i id name) s h = (start_block-Brings i "tool_call" id name s).0
  push-Brings (Event.tool_call_args_delta i id delta) s h = follow-arguments i delta (seen s) h
  push-Brings (Event.tool_call_done i id name args) s h = late-Brings i args s h
  push-Brings (Event.content_block_done i kind) s h = stop_block-Brings i s
  push-Brings (Event.usage e) s h = refl
  push-Brings (Event.completed reason id) s h = complete-Brings reason s
  push-Brings _ s h = refl

  follow-prefix :
      (xs ys : List StreamFrame) (w : Seen)
      → is_some (follow (xs ++ ys) w) ≡ true
      → is_some (follow xs w) ≡ true
  follow-prefix xs ys w h = elim (Option-cases (follow xs w)) [
    | inr (w', e) ↦ ap is_some e
    | inl e ↦
        let lost : is_some (follow (xs ++ ys) w) ≡ false =
          ap is_some (follow-append xs ys w) ∙ ap (λ o. is_some (then_follow o ys)) e in
        cc
  ]

  write_frames-prefix :
      (fails : ℕ → Option GoError) (n : ℕ) (frames : List StreamFrame) (w : Seen)
      → is_some (follow frames w) ≡ true
      → is_some (follow (write_frames fails n frames).0 w) ≡ true
  write_frames-prefix fails n frames w h =
      follow-prefix (write_frames fails n frames).0 (unwritten fails n frames) w
        (rw (write_frames-unwritten fails n frames) h)

  follow-from :
      (fails : ℕ → Option GoError) (n : ℕ) (events : List Event) (s : StreamState)
      → (not strict || arguments_in_blocks events (seen s).opened) ≡ true
      → is_some (follow (write_stream fails n events s).0 (seen s)) ≡ true
  unfolding write_stream
  follow-from fails n [] s h = refl
  follow-from fails n (ev ∷ events) s h =
      let now : (not strict || in_block ev (seen s).opened) ≡ true = ground (arith, h) in
      let later : (not strict || arguments_in_blocks events (seen (push ev s).1).opened) ≡ true =
        rw (push-opened ev s) (ground (arith, h)) in
      elim (Option-cases (stream_error ev)) [
        | inr (e, eq) ↦ rw (write_stream, eq) refl
        | inl eq ↦ elim (write_frames-either fails n (push ev s).0) [
          | inr (e, failed) ↦
              rw (write_stream, eq)
                (rw failed (
                  write_frames-prefix fails n (push ev s).0 (seen s)
                    (ap is_some (push-Brings ev s now))))
          | inl whole ↦
              let (frames, s') = push ev s in
              let rest = (write_stream fails (n + length frames) events s').0 in
              rw (write_stream, eq)
                (rw whole (
                  rw whole (
                    ap is_some (
                      follow-append frames rest (seen s)
                      ∙ ap (λ o. then_follow o rest) (push-Brings ev s now))
                    ∙ follow-from fails (n + length frames) events s' later)))
        ]
      ]

-- For any events, in any order, and wherever a write fails, the frames that the Anthropic endpoint
-- writes are in order: a block starts only when no block of its index is open, ends only when it
-- is open, and has texts, thoughts and signatures only while it is open; the message ends at most
-- once. If the arguments and the end of each tool call come while a block of its index is open by
-- the events before them, then pieces of arguments too are written only while their block is open.
pub follow-write_stream :
    (fails : ℕ → Option GoError) (events : List Event)
    → is_some (
        follow
          (arguments_in_blocks events (λ i. false))
          (write_stream fails 0 events new_stream_state).0
          nothing_seen)
      ≡ true
unfolding lookup
follow-write_stream fails events =
    let strict = arguments_in_blocks events (λ i. false) in
    follow-from strict fails 0 events new_stream_state (ground arith)
