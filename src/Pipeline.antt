-- ===== src/Pipeline.antt =====
-- pipeline/: processor.go, chain.go, filter.go and inject.go. A processor is its state with the
-- two methods; a call gives the processor back, and a pointer receiver's change is in it. The
-- contexts only pass through.
pub mod Completion
pub mod Coalesce
use llmadapter.Prelude.{
  ℕ, zero, suc, length, Bool, true, false, not, ◌&&◌, Option, none, some, List, [], ◌∷◌, ◌++◌,
  if◌then◌else◌,
}
use llmadapter.Unified.Kinds.{finish_reason_unknown}
use llmadapter.Unified.Event.{
  Event, message_start, message_done, content_block_start, content_block_done, text_delta,
  reasoning_delta, refusal_delta, tool_call_start, tool_call_args_delta, tool_call_done, citation,
  usage, quota_usage, completed, warning, raw, route, provider_execution, error,
}
use llmadapter.Unified.Errors.{Result, ok, err}

pub record Processor (E : Type 0) : Type 1 where
  pub State : Type 0
  pub state : State
  pub push : State → E → Result (List E) × State
  pub close : State → Result (List E) × State

abbrev Chain : Type 0 → Type 1
Chain E = List (Processor E)

module _ {E : Type 0} where
  abbrev pub new_chain : List (Processor E) → Chain E
  new_chain processors = processors

  -- What a call of `Push` gave, and the processor after it.
  abbrev pub push_one : Processor E → E → Result (List E) × Processor E
  push_one p item = let (r, s) = p.push p.state item in (r, record p { state = s })

  -- The inner loop over `current`.
  unfoldable push_each : Processor E → List E → Result (List E) × Processor E
  push_each p [] = (ok [], p)
  push_each p (item ∷ items) = elim (push_one p item).0 [
    | err e ↦ (err e, (push_one p item).1)
    | ok produced ↦
        let (rest, p') = push_each (push_one p item).1 items in
        (elim rest [ err e ↦ err e | ok next ↦ ok (produced ++ next) ], p')
  ]

  -- The outer loop of `Push` and of `pushThrough`, over `c.processors[start:]`.
  unfoldable push_through : Chain E → List E → Result (List E) × Chain E
  unfolding push_each
  push_through [] current = (ok current, [])
  push_through (p ∷ ps) current = elim (push_each p current).0 [
    | err e ↦ (err e, (push_each p current).1 ∷ ps)
    | ok [] ↦ (ok [], (push_each p current).1 ∷ ps)
    | ok (item ∷ next) ↦
        let (r, ps') = push_through ps (item ∷ next) in (r, (push_each p current).1 ∷ ps')
  ]

  unfoldable pub push : Chain E → E → Result (List E) × Chain E
  unfolding push_through
  push c ev = push_through c (ev ∷ [])

  -- The loop of `Close`, with the number of turns that are left.
  unfoldable close_from : ℕ → Chain E → Result (List E)
  unfolding push_through
  close_from zero c = ok []
  close_from (suc n) [] = ok []
  close_from (suc n) (p ∷ ps) = elim (p.close p.state).0 [
    | err e ↦ err e
    | ok produced ↦
        let (r, ps') = push_through ps produced in
        let rest = close_from n ps' in
        elim r [
          | err e ↦ err e
          | ok cascaded ↦ elim rest [ err e ↦ err e | ok out ↦ ok (cascaded ++ out) ]
        ]
  ]

  unfoldable pub close : Chain E → Result (List E)
  unfolding close_from
  close c = close_from (length c) c

abbrev is_reasoning : Event → Bool
is_reasoning (reasoning_delta i t s) = true
is_reasoning _ = false

abbrev pub is_completed : Event → Bool
is_completed (completed f m) = true
is_completed _ = false

-- `ReasoningFilter`; its only state is `Expose`.
unfoldable pub reasoning_filter : Bool → Processor Event
reasoning_filter expose = record {
  State = Bool;
  state = expose;
  push = λ expose ev. (if is_reasoning ev && not expose then ok [] else ok (ev ∷ []), expose);
  close = λ expose. (ok [], expose);
}

-- `CompletionInjector`; its state is `seen`.
unfoldable pub completion_injector : Processor Event
completion_injector = record {
  State = Bool;
  state = false;
  push = λ seen ev. (ok (ev ∷ []), if is_completed ev then true else seen);
  close = λ seen. (if seen then ok [] else ok (completed finish_reason_unknown "" ∷ []), true);
}
