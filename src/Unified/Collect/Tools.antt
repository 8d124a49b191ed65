-- ===== src/Unified/Collect/Tools.antt =====
-- Tool calls in `Collect`: each call keeps its place in the response.
use llmadapter.Prelude.{
  ℕ, ◌<◌, ◌≤◌, ◌≡◌, ◌≢◌, refl, ◌∙◌, ap, Bool, true, not, Option, none, some, List, [], ◌∷◌, ◌++◌,
  arith, All, length, length-append, length-update_at, get_elem?, get_elem?-update_at_ne,
  get_elem?-append_left, get_elem?-lt-length, ◌==◌, nat_eq, string_eq, Bool-cases, inl, inr,
}
use llmadapter.Prelude.Assoc.{lookup, lookup-insert, keys}
use llmadapter.Unified.Request.{ToolCall}
use llmadapter.Unified.Event.{Event}
use llmadapter.Unified.Collect.{
  Collector, new_collector, turn, Ending, closed, cancelled, collect_from, finish_tool_call,
  finished_calls, flush_block, flush_each,
}
use llmadapter.Unified.Collect.Run.{
  settle, after, is_error, collect_from-append, collect_from-error,
}

abbrev fresh_call : ℕ → ToolCall
fresh_call i = record { id = ""; name = ""; arguments = ""; index = i }

module _ (i : ℕ) (finish : ToolCall → ToolCall) (calls : List ToolCall) where
  length-finished_calls-le :
      (o : Option ℕ) → length calls ≤ length (finished_calls o i finish calls)
  length-finished_calls-le none = omega (
    arith,
    length-append calls (fresh_call i ∷ []),
    length-update_at (length calls) finish (calls ++ fresh_call i ∷ []),
  )
  length-finished_calls-le (some q) = omega (arith, length-update_at q finish calls)

  get_elem?-finished_calls_ne :
      (p : ℕ) {c : ToolCall} (o : Option ℕ)
      → get_elem? calls p ≡ some c
      → o ≢ some p
      → get_elem? (finished_calls o i finish calls) p ≡ some c
  get_elem?-finished_calls_ne p none h ne =
      get_elem?-update_at_ne (calls ++ fresh_call i ∷ []) (length calls) p finish
        (λ x. omega (arith, get_elem?-lt-length calls p h, x))
      ∙ get_elem?-append_left calls (fresh_call i ∷ []) p h
  get_elem?-finished_calls_ne p (some q) h ne =
      get_elem?-update_at_ne calls q p finish (λ x. ne (ap some x)) ∙ h

-- Every entry of `toolIndexes` names a call of the response.
abbrev pub InBounds : Collector → Type 0
InBounds s = (j q : ℕ) → lookup j s.tool_indexes ≡ some q → q < length s.resp.tool_calls

pub InBounds-new_collector : InBounds new_collector
unfolding lookup
InBounds-new_collector j q e = cc

InBounds-turn : (ev : Event) (s : Collector) → InBounds s → InBounds (settle (turn ev s) s)
unfolding turn
InBounds-turn (Event.tool_call_start i id name) s h = λ j q e. ground (
  arith,
  h j q,
  lookup-insert i j (length s.resp.tool_calls) s.tool_indexes,
  length-append s.resp.tool_calls (record { id = id; name = name; arguments = ""; index = i } ∷ []),
)
InBounds-turn (Event.tool_call_done i id name args) s h = λ j q e. omega (
  arith,
  h j q e,
  length-finished_calls-le i (finish_tool_call id name args (lookup i s.tool_args))
      s.resp.tool_calls (lookup i s.tool_indexes),
)
InBounds-turn (Event.error (some x) r) s h = h
InBounds-turn _ s h = λ j q e. ground (arith, h j q)

pub InBounds-after : (s : Collector) (events : List Event) → InBounds s → InBounds (after s events)
InBounds-after s [] h = h
InBounds-after s (ev ∷ events) h =
    InBounds-after (settle (turn ev s) s) events (InBounds-turn ev s h)

-- Call `p` of the response is `call`, and no index but `i` leads to it.
pub record HasCall (i p : ℕ) (call : ToolCall) (s : Collector) : Type 0 where
  pub at_place : get_elem? s.resp.tool_calls p ≡ some call
  pub alone : (j : ℕ) → lookup j s.tool_indexes ≡ some p → j ≡ i

abbrev pub not_done : ℕ → Event → Bool
not_done i (Event.tool_call_done j id name args) = not (j == i)
not_done i _ = true

pub HasCall-turn :
    (i p : ℕ) (call : ToolCall) (s : Collector) (ev : Event)
    → not_done i ev ≡ true
    → HasCall i p call s
    → HasCall i p call (settle (turn ev s) s)
unfolding turn
HasCall-turn i p call s (Event.tool_call_start j id name) o h = record {
  at_place = get_elem?-append_left s.resp.tool_calls _ p h.at_place;
  alone = λ k e. ground (
    arith,
    h.alone k,
    lookup-insert j k (length s.resp.tool_calls) s.tool_indexes,
    get_elem?-lt-length s.resp.tool_calls p h.at_place,
  );
}
HasCall-turn i p call s (Event.tool_call_done j id name args) o h = record {
  at_place =
      get_elem?-finished_calls_ne j (finish_tool_call id name args (lookup j s.tool_args))
        s.resp.tool_calls p (lookup j s.tool_indexes) h.at_place (λ e. ground (arith, h.alone j e));
  alone = h.alone;
}
HasCall-turn i p call s (Event.message_start id model role phase time) o h = record {
  at_place = ground (arith, h.at_place);
  alone = h.alone;
}
HasCall-turn i p call s (Event.message_done id phase) o h = record {
  at_place = ground (arith, h.at_place);
  alone = h.alone;
}
HasCall-turn i p call s (Event.completed reason id) o h = record {
  at_place = ground (arith, h.at_place);
  alone = h.alone;
}
HasCall-turn i p call s (Event.error none r) o h = h
HasCall-turn i p call s (Event.error (some x) r) o h = h
HasCall-turn i p call s _ o h = record { at_place = h.at_place; alone = h.alone }

HasCall-after :
    (i p : ℕ) (call : ToolCall) (s : Collector) (events : List Event)
    → All (λ ev. not_done i ev ≡ true) events
    → HasCall i p call s
    → HasCall i p call (after s events)
HasCall-after i p call s [] o h = h
HasCall-after i p call s (ev ∷ events) o h =
    HasCall-after i p call (settle (turn ev s) s) events o.1 (HasCall-turn i p call s ev o.0 h)

tool_calls-flush_each :
    (indexes : List ℕ) (s : Collector) → (flush_each indexes s).resp.tool_calls ≡ s.resp.tool_calls
unfolding flush_each
tool_calls-flush_each [] s = refl
tool_calls-flush_each (i ∷ indexes) s = tool_calls-flush_each indexes (flush_block i s)

-- A call that is not finished again is in the response that `Collect` returns, however it returns.
pub HasCall-collect_from :
    (order : List ℕ → List ℕ) (i p : ℕ) (call : ToolCall) (s : Collector) (events : List Event)
    (ending : Ending)
    → All (λ ev. not_done i ev ≡ true) events
    → HasCall i p call s
    → get_elem? (collect_from order s events ending).resp.tool_calls p ≡ some call
unfolding collect_from
HasCall-collect_from order i p call s [] closed o h =
    rw (tool_calls-flush_each (order (keys s.kinds)) s) h.at_place
HasCall-collect_from order i p call s [] (cancelled e) o h = h.at_place
HasCall-collect_from order i p call s (ev ∷ events) ending o h = elim (Bool-cases (is_error ev)) [
  | inl failed ↦
      ap (λ r. get_elem? r.tool_calls p) (collect_from-error order s ev events ending failed)
      ∙ h.at_place
  | inr passed ↦
      ap (λ c. get_elem? c.resp.tool_calls p)
        (collect_from-append order s (ev ∷ []) events ending (passed, tt))
      ∙ HasCall-collect_from order i p call (settle (turn ev s) s) events ending o.1
          (HasCall-turn i p call s ev o.0 h)
]
