-- ===== src/Unified/Collect/Blocks.antt =====
-- Content blocks in `Collect`: what a block's deltas become in the response.
use llmadapter.Prelude.{
  ℕ, String, len, ◌<>◌, ◌≡◌, refl, sym, ◌∙◌, ap, subst, Bool, true, false, not, none, some, List,
  [], ◌∷◌, ◌++◌, arith, All, All-map, ltb, ◌==◌, nat_eq, string_eq, if◌then◌else◌, nat_beq_iff,
}
use llmadapter.Prelude.Assoc.{lookup, lookup-insert, lookup-remove}
use llmadapter.Unified.Kinds.{content_kind_text}
use llmadapter.Unified.Content.{ContentPart, text_part}
use llmadapter.Unified.Event.{Event}
use llmadapter.Unified.Collect.{Collector, new_collector, turn, Ending, collect, text_of}
use llmadapter.Unified.Collect.Run.{
  settle, after, is_error, collect_from-three, after-append, grows-collect_from,
}

-- The event neither opens nor closes block `i`, adds nothing but text to it, and is no error.
abbrev pub only_text : ℕ → Event → Bool
only_text i (Event.content_block_start j kind id name) = not (j == i)
only_text i (Event.content_block_done j kind) = not (j == i)
only_text i (Event.reasoning_delta j text signature) = not (j == i)
only_text i (Event.refusal_delta j text) = not (j == i)
only_text i (Event.error (some e) r) = false
only_text i _ = true

-- The text deltas of block `i`, written one after the other behind `acc`.
abbrev pub text_from : ℕ → String → List Event → String
text_from i acc [] = acc
text_from i acc (Event.text_delta j t ∷ events) =
    text_from i (if j == i then acc <> t else acc) events
text_from i acc (_ ∷ events) = text_from i acc events

abbrev pub text_parts : String → List ContentPart
text_parts t = if ltb 0 (len t) then text_part t none ∷ [] else []

-- Block `i` is open, of kind text, and holds `acc`.
record HoldsText (i : ℕ) (acc : String) (s : Collector) : Type 0 where
  buffer : lookup i s.texts ≡ some acc
  kind : lookup i s.kinds ≡ some content_kind_text

text_from-cons :
    (i : ℕ) (acc : String) (ev : Event) (events : List Event)
    → text_from i acc (ev ∷ events) ≡ text_from i (text_from i acc (ev ∷ [])) events
text_from-cons i acc (Event.text_delta j t) events = refl
text_from-cons i acc _ events = refl

HoldsText-turn :
    (i : ℕ) (acc : String) (s : Collector) (ev : Event)
    → only_text i ev ≡ true
    → HoldsText i acc s
    → HoldsText i (text_from i acc (ev ∷ [])) (settle (turn ev s) s)
unfolding turn
HoldsText-turn i acc s (Event.text_delta j t) o h = ground (
  arith,
  lookup-insert j i (text_of (lookup j s.texts) <> t) s.texts,
  lookup-insert j i content_kind_text s.kinds,
  nat_beq_iff j i,
)
HoldsText-turn i acc s (Event.content_block_start j kind id name) o h =
    ground (arith, lookup-insert j i "" s.texts, lookup-insert j i kind s.kinds)
HoldsText-turn i acc s (Event.content_block_done j kind) o h =
    ground (arith, lookup-remove j i s.texts, lookup-remove j i s.kinds)
HoldsText-turn i acc s (Event.reasoning_delta j t sig) o h =
    ground (arith, lookup-insert j i "reasoning" s.kinds)
HoldsText-turn i acc s (Event.refusal_delta j t) o h =
    ground (arith, lookup-insert j i "refusal" s.kinds)
HoldsText-turn i acc s _ o h = ground arith

HoldsText-after :
    (i : ℕ) (acc : String) (s : Collector) (events : List Event)
    → All (λ ev. only_text i ev ≡ true) events
    → HoldsText i acc s
    → HoldsText i (text_from i acc events) (after s events)
HoldsText-after i acc s [] o h = h
HoldsText-after i acc s (ev ∷ events) o h =
    subst (λ t. HoldsText i t (after s (ev ∷ events))) (sym (text_from-cons i acc ev events))
      (HoldsText-after i (text_from i acc (ev ∷ [])) (settle (turn ev s) s) events o.1
        (HoldsText-turn i acc s ev o.0 h))

HoldsText-block_start :
    (i : ℕ) (id name : String) (s : Collector)
    → HoldsText i "" (settle (turn (Event.content_block_start i content_kind_text id name) s) s)
unfolding turn
HoldsText-block_start i id name s = ground (
  arith,
  lookup-insert i i "" s.texts,
  lookup-insert i i content_kind_text s.kinds,
  nat_beq_iff i i,
)

flush-HoldsText :
    (i : ℕ) (kind acc : String) (s : Collector)
    → HoldsText i acc s
    → (settle (turn (Event.content_block_done i kind) s) s).resp.content
      ≡ s.resp.content ++ text_parts acc
unfolding turn
flush-HoldsText i kind acc s h = rw (h.kind, h.buffer)

only_text-is_error : (i : ℕ) (ev : Event) → only_text i ev ≡ true → is_error ev ≡ false
only_text-is_error i (Event.error (some e) r) h = cc
only_text-is_error i _ h = refl

abbrev opens : ℕ → String → String → List Event
opens i id name = Event.content_block_start i content_kind_text id name ∷ []

abbrev pub text_block : ℕ → String → String → List Event → List Event
text_block i id name body = Event.content_block_start i content_kind_text id name ∷ body

-- Whatever `Collect` has received, and whatever it receives later: a text block that is opened
-- and closed with index `i`, between which block `i` gets only text (and other blocks anything),
-- is one text part of the response that holds the concatenation of the block's text deltas in
-- order, or no part if that is empty. It stands behind the content flushed before the block is
-- closed, and what is flushed later stands behind it. No event up to the close is an error.
pub collect-text_block :
    (order : List ℕ → List ℕ) (before : List Event) (i : ℕ) (id name kind : String)
    (body later : List Event) (ending : Ending)
    → All (λ ev. is_error ev ≡ false) before
    → All (λ ev. only_text i ev ≡ true) body
    → (tail : List ContentPart) × ((collect order
          (before ++ (text_block i id name body ++ (Event.content_block_done i kind ∷ later)))
          ending).resp.content
        ≡ ((after new_collector (before ++ text_block i id name body)).resp.content
            ++ text_parts (text_from i "" body))
          ++ tail)
unfolding collect
collect-text_block order before i id name kind body later ending hb ho =
    let opened = text_block i id name body in
    let s = after (after new_collector before) opened in
    let s' = settle (turn (Event.content_block_done i kind) s) s in
    let (tail, e) = grows-collect_from order s' later ending in
    let reached : s ≡ after new_collector (before ++ opened) =
      sym (after-append new_collector before opened) in
    let held : HoldsText i (text_from i "" body) s =
      HoldsText-after i "" (after (after new_collector before) (opens i id name)) body ho
        (HoldsText-block_start i id name (after new_collector before)) in
    (
      tail,
      ap (λ c. c.resp.content)
            (collect_from-three order new_collector before opened (Event.content_block_done i kind)
              later ending hb (refl, All-map (only_text-is_error i) body ho) refl)
          ∙ e
          ∙ ap (λ c. c ++ tail) (flush-HoldsText i kind (text_from i "" body) s held)
          ∙ ap (λ t. (t.resp.content ++ text_parts (text_from i "" body)) ++ tail) reached,
    )
