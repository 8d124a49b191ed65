-- ===== src/Unified/Collect/Reuse.antt =====
-- An index that one block leaves open and another opens again.
use llmadapter.Prelude.{
  ℕ, String, ◌≡◌, refl, sym, ◌∙◌, ap, Bool, true, false, not, ◌||◌, none, some, List, [], ◌∷◌, ◌++◌,
  arith, All, All-map, ◌==◌, nat_eq, string_eq, nat_beq_iff,
}
use llmadapter.Prelude.Assoc.{lookup, lookup-insert, lookup-remove}
use mathlib.Core.List.{append-nil}
use llmadapter.Unified.Kinds.{content_kind_text, content_kind_reasoning, content_kind_refusal}
use llmadapter.Unified.Content.{ContentPart}
use llmadapter.Unified.Event.{Event}
use llmadapter.Unified.Collect.{Collector, new_collector, turn, Ending, collect}
use llmadapter.Unified.Collect.Run.{
  settle, after, is_error, collect_from-three, after-append, grows-collect_from,
}
use llmadapter.Unified.Collect.Blocks.{only_text}

-- The event does not concern block `i` and is no error.
abbrev leaves_block : ℕ → Event → Bool
leaves_block i (Event.text_delta j t) = not (j == i)
leaves_block i ev = only_text i ev

record HasKind (i : ℕ) (kind : String) (s : Collector) : Type 0 where
  has_kind : lookup i s.kinds ≡ some kind

HasKind-turn :
    (i : ℕ) (kind : String) (s : Collector) (ev : Event)
    → leaves_block i ev ≡ true
    → HasKind i kind s
    → HasKind i kind (settle (turn ev s) s)
unfolding turn
HasKind-turn i kind s (Event.text_delta j t) o h =
    ground (arith, lookup-insert j i content_kind_text s.kinds)
HasKind-turn i kind s (Event.content_block_start j k id name) o h =
    ground (arith, lookup-insert j i k s.kinds)
HasKind-turn i kind s (Event.content_block_done j k) o h = ground (arith, lookup-remove j i s.kinds)
HasKind-turn i kind s (Event.reasoning_delta j t sig) o h =
    ground (arith, lookup-insert j i "reasoning" s.kinds)
HasKind-turn i kind s (Event.refusal_delta j t) o h =
    ground (arith, lookup-insert j i "refusal" s.kinds)
HasKind-turn i kind s _ o h = ground arith

HasKind-after :
    (i : ℕ) (kind : String) (s : Collector) (events : List Event)
    → All (λ ev. leaves_block i ev ≡ true) events
    → HasKind i kind s
    → HasKind i kind (after s events)
HasKind-after i kind s [] o h = h
HasKind-after i kind s (ev ∷ events) o h =
    HasKind-after i kind (settle (turn ev s) s) events o.1 (HasKind-turn i kind s ev o.0 h)

HasKind-block_start :
    (i : ℕ) (kind id name : String) (s : Collector)
    → HasKind i kind (settle (turn (Event.content_block_start i kind id name) s) s)
unfolding turn
HasKind-block_start i kind id name s =
    ground (arith, lookup-insert i i kind s.kinds, nat_beq_iff i i)

abbrev is_text_kind : String → Bool
is_text_kind kind =
    kind == content_kind_text || kind == content_kind_reasoning || kind == content_kind_refusal

flush-HasKind :
    (i : ℕ) (kind k : String) (s : Collector)
    → is_text_kind kind ≡ false
    → HasKind i kind s
    → ((settle (turn (Event.content_block_done i k) s) s).resp.content ≡ s.resp.content)
      × (lookup i (settle (turn (Event.content_block_done i k) s) s).texts ≡ none)
unfolding turn
flush-HasKind i kind k s h e = (
  rw e.has_kind (ground (arith, append-nil s.resp.content)),
  ground (arith, lookup-remove i i s.texts, nat_beq_iff i i),
)

leaves_block-is_error : (i : ℕ) (ev : Event) → leaves_block i ev ≡ true → is_error ev ≡ false
leaves_block-is_error i (Event.error (some e) r) h = cc
leaves_block-is_error i (Event.error none r) h = refl
leaves_block-is_error i _ h = refl

-- A block index is opened again with a kind which is none of text, reasoning and refusal (such as
-- a tool call), and closed before any text comes for it. Its close adds no part to the content, and
-- behind it the text that the index held when it was opened again is in no buffer; the content of
-- the response goes on from there. No event up to the close is an error.
pub collect-reused_index :
    (order : List ℕ → List ℕ) (before : List Event) (i : ℕ) (kind id name k : String)
    (body later : List Event) (ending : Ending)
    → is_text_kind kind ≡ false
    → All (λ ev. is_error ev ≡ false) before
    → All (λ ev. leaves_block i ev ≡ true) body
    → let reopened = Event.content_block_start i kind id name ∷ body in
      let s = after new_collector (before ++ reopened) in
      let s' = after new_collector (before ++ (reopened ++ (Event.content_block_done i k ∷ []))) in
      (s'.resp.content ≡ s.resp.content)
      × (lookup i s'.texts ≡ none)
      × ((tail : List ContentPart) × ((collect order
              (before ++ (reopened ++ (Event.content_block_done i k ∷ later)))
              ending).resp.content
            ≡ s'.resp.content ++ tail))
unfolding collect
collect-reused_index order before i kind id name k body later ending hk hb ho =
    let reopened : List Event = Event.content_block_start i kind id name ∷ body in
    let s = after (after new_collector before) reopened in
    let s' = settle (turn (Event.content_block_done i k) s) s in
    let (tail, e) = grows-collect_from order s' later ending in
    let reached : s ≡ after new_collector (before ++ reopened) =
      sym (after-append new_collector before reopened) in
    let closed_at : after new_collector
          (before ++ (reopened ++ (Event.content_block_done i k ∷ [])))
        ≡ s' =
      after-append new_collector before (reopened ++ (Event.content_block_done i k ∷ []))
      ∙ after-append (after new_collector before) reopened (Event.content_block_done i k ∷ []) in
    let held : HasKind i kind s =
      HasKind-after i kind
        (after (after new_collector before) (Event.content_block_start i kind id name ∷ [])) body ho
        (HasKind-block_start i kind id name (after new_collector before)) in
    let (same, gone) = flush-HasKind i kind k s hk held in
    (
      ap (λ t. t.resp.content) closed_at ∙ same ∙ ap (λ t. t.resp.content) reached,
      ap (λ t. lookup i t.texts) closed_at ∙ gone,
      (
        tail,
        ap (λ c. c.resp.content)
              (collect_from-three order new_collector before reopened (Event.content_block_done i k)
                later ending hb (refl, All-map (leaves_block-is_error i) body ho) refl)
            ∙ e
            ∙ ap (λ t. t.resp.content ++ tail) (sym closed_at),
      ),
    )
