-- ===== src/Providers/ChatCompletions/Texts.antt =====
-- The decoder and `Collect` together on a stream of texts.
use text.Mathlib.TextLemmas.{
  nil-append, append-nil as text_append-nil, append_assoc as text_append_assoc,
}
use text.Mathlib.TextEquality.{eq_iff}
use mathlib.Core.List.{append_assoc}
use llmadapter.Prelude.{
  concat_texts, ℕ, String, ◌<>◌, ◌≡◌, refl, sym, ◌∙◌, ap, true, false, not, List, [], ◌∷◌, ◌++◌,
  arith, ◌==◌, string_eq, nat_eq, if◌then◌else◌, Bool-cases, inl, inr,
}
use llmadapter.Prelude.Assoc.{lookup, insert, remove}
use llmadapter.Prelude.StableSort.{stable_sort}
use llmadapter.Unified.Content.{RawMessage}
use llmadapter.Unified.Errors.{Result}
use llmadapter.Unified.Event.{Event}
use llmadapter.Unified.Collect.{Collector, new_collector, collect, collect_from, closed, flush_each}
use llmadapter.Unified.Collect.Blocks.{text_parts}
use llmadapter.Providers.ChatCompletions.Wire.{UsageWire, ChunkWire}
use llmadapter.Providers.ChatCompletions.Decoder.{
  StreamDecoder, Emit, new_decoder, each, push_chunk, push_content, finish_choice,
  finish_tool_calls, complete, map_finish_reason,
}
use llmadapter.Providers.ChatCompletions.Run.{chunk, decoded, content_of, both-pair}

abbrev texts : List String → List ChunkWire
texts [] = []
texts (t ∷ ts) = chunk t [] "" ∷ texts ts

-- Chunks that bring one text each, then the end with this reason.
abbrev pub text_stream : String → List String → List ChunkWire
text_stream reason ts = texts ts ++ (chunk "" [] reason ∷ [])

abbrev delta_of : String → List Event
delta_of t = if not (t == "") then Event.text_delta 0 t ∷ [] else []

abbrev deltas : List String → List Event
deltas [] = []
deltas (t ∷ ts) = delta_of t ++ deltas ts

abbrev started : StreamDecoder
started = record new_decoder { started = true }

abbrev ending : String → List Event
ending reason =
    Event.content_block_done 0 "text"
    ∷ Event.completed (map_finish_reason reason) ""
    ∷ Event.message_done "" ""
    ∷ []

abbrev opening : List Event
opening = Event.message_start "" "" "assistant" "" 0 ∷ Event.content_block_start 0 "text" "" "" ∷ []

-- The state of `Collect` behind texts that make `acc`.
abbrev holding : String → Collector
holding acc = record new_collector { texts = (0, acc) ∷ []; kinds = (0, "text") ∷ [] }

module _ (marshal_usage : UsageWire → Result RawMessage) where
  abbrev push_one : ChunkWire → Emit
  push_one c = push_chunk marshal_usage c ""

  push_one-text : (t : String) → push_one (chunk t [] "") started ≡ (delta_of t, started)
  unfolding push_chunk push_content
  push_one-text t = ground arith

  push_one-first :
      (t : String) → push_one (chunk t [] "") new_decoder ≡ (opening ++ delta_of t, started)
  unfolding push_chunk push_content
  push_one-first t = ground arith

  push_one-end :
      (reason : String)
      → (reason == "") ≡ false
      → push_one (chunk "" [] reason) started ≡ (ending reason, started)
  unfolding push_chunk push_content finish_choice finish_tool_calls complete each stable_sort
  push_one-end reason h = ground (arith, h)

  each-texts :
      (ts : List String) (reason : String)
      → (reason == "") ≡ false
      → each push_one (texts ts ++ (chunk "" [] reason ∷ [])) started
        ≡ (deltas ts ++ ending reason, started)
  unfolding each
  each-texts [] reason h =
      both-pair (push_one (chunk "" [] reason)) (λ d. ([], d)) (push_one-end reason h) refl
  each-texts (t ∷ ts) reason h =
      both-pair (push_one (chunk t [] "")) (each push_one (texts ts ++ (chunk "" [] reason ∷ [])))
        (push_one-text t) (each-texts ts reason h)
      ∙ ap (λ es. (es, started)) (sym (append_assoc (delta_of t) (deltas ts) (ending reason)))

  module _ (order : List ℕ → List ℕ) (order_nil : order [] ≡ []) where
    collect_from-delta :
        (acc t : String) (rest : List Event)
        → collect_from order (holding acc) (delta_of t ++ rest) closed
          ≡ collect_from order (holding (acc <> t)) rest closed
    unfolding collect_from lookup insert
    collect_from-delta acc t rest = elim (Bool-cases (t == "")) [
      | inl e ↦
          let same : acc <> t ≡ acc =
            ap (λ u. acc <> u) ((eq_iff t "").0 e) ∙ text_append-nil acc in
          rw e (ap (λ u. collect_from order (holding u) rest closed) (sym same))
      | inr e ↦ rw e refl
    ]

    collect_from-deltas :
        (acc : String) (ts : List String) (reason : String)
        → (collect_from order (holding acc) (deltas ts ++ ending reason) closed).resp.content
          ≡ text_parts (acc <> concat_texts ts)
    unfolding collect_from lookup remove flush_each
    collect_from-deltas acc [] reason = rw (order_nil, text_append-nil acc) refl
    collect_from-deltas acc (t ∷ ts) reason =
        ap (λ es. (collect_from order (holding acc) es closed).resp.content)
          (append_assoc (delta_of t) (deltas ts) (ending reason))
        ∙ ap (λ c. c.resp.content) (collect_from-delta acc t (deltas ts ++ ending reason))
        ∙ collect_from-deltas (acc <> t) ts reason
        ∙ ap text_parts (text_append_assoc acc t (concat_texts ts))

    collect_from-opening :
        (events : List Event)
        → collect_from order new_collector (opening ++ events) closed
          ≡ collect_from order (holding "") events closed
    unfolding collect_from insert
    collect_from-opening events = refl

    decoded-text_stream :
        (reason t : String) (ts : List String)
        → (reason == "") ≡ false
        → decoded marshal_usage (text_stream reason (t ∷ ts))
          ≡ opening ++ (deltas (t ∷ ts) ++ ending reason)
    unfolding each
    decoded-text_stream reason t ts h =
        ap (λ p. p.0)
          (both-pair (push_one (chunk t [] ""))
            (each push_one (texts ts ++ (chunk "" [] reason ∷ []))) (push_one-first t)
            (each-texts ts reason h))
        ∙ append_assoc opening (delta_of t) (deltas ts ++ ending reason)
        ∙ ap (λ es. opening ++ es) (sym (append_assoc (delta_of t) (deltas ts) (ending reason)))

    -- Chunks that bring a text each, the empty one included, and a last one that gives the reason
    -- of the end, are one text part of the response that `Collect` makes of the decoded events: the
    -- texts one after the other, or no part if that is empty. There is at least one chunk before
    -- the last, and Go iterates over no keys in no order but the empty one.
    pub content_of-text_stream :
        (reason t : String) (ts : List String)
        → (reason == "") ≡ false
        → content_of marshal_usage order (text_stream reason (t ∷ ts))
          ≡ text_parts (concat_texts (t ∷ ts))
    unfolding collect
    content_of-text_stream reason t ts h =
        ap (λ events. (collect_from order new_collector events closed).resp.content)
          (decoded-text_stream reason t ts h)
        ∙ ap (λ c. c.resp.content) (collect_from-opening (deltas (t ∷ ts) ++ ending reason))
        ∙ collect_from-deltas "" (t ∷ ts) reason
        ∙ ap text_parts (nil-append (concat_texts (t ∷ ts)))
