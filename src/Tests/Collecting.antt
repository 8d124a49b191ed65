-- ===== src/Tests/Collecting.antt =====
-- Streams that `Collect` reads.
use llmadapter.Prelude.{ℕ, ◌≡◌, refl, none, some, List, [], ◌∷◌, ◌++◌, get_elem?, nat_eq}
use llmadapter.Prelude.Assoc.{lookup}
use llmadapter.Unified.Content.{ContentPart}
use llmadapter.Unified.Event.{Event}
use llmadapter.Unified.Collect.{closed, new_collector, collect, turn}
use llmadapter.Unified.Collect.Run.{after}
use llmadapter.Unified.Collect.Blocks.{text_block, text_from, text_parts, collect-text_block}
use mathlib.Core.List.{Permᴰ}
use mathlib.Core.List.Permᴰ
use llmadapter.Unified.Collect.Reuse.{collect-reused_index}
use llmadapter.Unified.Collect.Arguments.{tool_call, collect-tool_call}

abbrev same_order : List ℕ → List ℕ
same_order keys = keys

abbrev start : List Event
start = Event.message_start "id" "gpt" "assistant" "" 0 ∷ []

abbrev words : List Event
words = Event.text_delta 0 "Hel" ∷ Event.text_delta 1 "other" ∷ Event.text_delta 0 "lo" ∷ []

collect-text_block_example :
    (tail : List ContentPart) × ((collect same_order
        (start ++ (text_block 0 "" "" words ++ (Event.content_block_done 0 "text" ∷ [])))
        closed).resp.content
      ≡ ((after new_collector (start ++ text_block 0 "" "" words)).resp.content
          ++ text_parts (text_from 0 "" words))
        ++ tail)
collect-text_block_example =
    collect-text_block same_order start 0 "" "" "text" words [] closed (refl, tt)
      (refl, (refl, (refl, tt)))

abbrev spoken : List Event
spoken = Event.content_block_start 0 "text" "" "" ∷ Event.text_delta 0 "Let me look." ∷ []

abbrev reopened : List Event
reopened = Event.content_block_start 0 "tool_call" "call" "search" ∷ []

collect-reused_index_example :
    let s = after new_collector (spoken ++ reopened) in
    let s' =
      after new_collector (spoken ++ (reopened ++ (Event.content_block_done 0 "tool_call" ∷ []))) in
    (s'.resp.content ≡ s.resp.content)
    × (lookup 0 s'.texts ≡ none)
    × ((tail : List ContentPart) × ((collect same_order
            (spoken ++ (reopened ++ (Event.content_block_done 0 "tool_call" ∷ [])))
            closed).resp.content
          ≡ s'.resp.content ++ tail))
collect-reused_index_example =
    collect-reused_index same_order spoken 0 "tool_call" "call" "search" "tool_call" [] [] closed
      refl (refl, (refl, tt)) tt

abbrev deltas : List Event
deltas = Event.tool_call_args_delta 0 "call" "{" ∷ Event.tool_call_args_delta 0 "call" "}" ∷ []

collect-tool_call_example :
    get_elem?
      (collect same_order
        (start ++ (tool_call 0 "call" "search" deltas ++ (Event.tool_call_done 0 "" "" "" ∷ [])))
        closed).resp.tool_calls
      0
    ≡ some (record { id = "call"; name = "search"; arguments = "{}"; index = 0 })
unfolding turn
collect-tool_call_example =
    collect-tool_call same_order start 0 "call" "search" "" "" "" deltas [] closed (refl, tt)
      (refl, (refl, tt)) tt
