-- ===== src/Pipeline/Completion.antt =====
-- A chain of the reasoning filter and the completion injector, over a whole stream.
use llmadapter.Prelude.{
  ◌≡◌, refl, Bool, true, false, not, ◌&&◌, List, [], ◌∷◌, ◌++◌, any, filter, if◌then◌else◌,
}
use llmadapter.Unified.Kinds.{finish_reason_unknown}
use llmadapter.Unified.Event.{Event, completed, reasoning_delta}
use llmadapter.Unified.Errors.{Result, ok, err}
use llmadapter.Pipeline.{
  Chain, new_chain, push_each, push_through, push, close_from, close, is_reasoning, is_completed,
  reasoning_filter, completion_injector,
}

-- A stream goes through a chain: each event is pushed, and the chain is closed at the end.
module _ {E : Type 0} where
  abbrev pub run : List E → Chain E → Result (List E)
  run [] c = close c
  run (ev ∷ events) c = elim (push c ev).0 [
    | err e ↦ err e
    | ok out ↦
        let rest = run events (push c ev).1 in
        elim rest [ err e ↦ err e | ok more ↦ ok (out ++ more) ]
  ]

-- The chain after some events: `seen` tells whether one of them was a completion.
unfoldable chain_of : Bool → Bool → Chain Event
unfolding reasoning_filter completion_injector
chain_of expose seen =
    record (reasoning_filter expose) { state = expose }
    ∷ record completion_injector { state = seen }
    ∷ []

-- The events that the filter lets through.
abbrev pub passes : Bool → Event → Bool
passes expose ev = not (is_reasoning ev && not expose)

run_lem :
    (events : List Event) (expose seen : Bool)
    → run events (chain_of expose seen)
      ≡ ok (
          filter (passes expose) events
          ++ (if seen
              then []
              else if any is_completed events
              then []
              else completed finish_reason_unknown "" ∷ []))
unfolding chain_of push push_through push_each close close_from reasoning_filter completion_injector
run_lem [] expose true = refl
run_lem [] expose false = refl
run_lem (reasoning_delta i t s ∷ events) true seen = rw (run_lem events true seen) refl
run_lem (reasoning_delta i t s ∷ events) false seen = rw (run_lem events false seen) refl
run_lem (completed f m ∷ events) expose true = rw (run_lem events expose true) refl
run_lem (completed f m ∷ events) expose false = rw (run_lem events expose true) refl
run_lem (ev ∷ events) expose seen = rw (run_lem events expose seen) refl

-- A stream that goes through the chain of a reasoning filter and a completion injector comes out
-- without an error: with its reasoning removed, unless the filter exposes it, with everything
-- else in its order, and with a completion at the end exactly when it had none.
pub run_chain :
    (expose : Bool) (events : List Event)
    → run events (new_chain (reasoning_filter expose ∷ completion_injector ∷ []))
      ≡ ok (
          filter (passes expose) events
          ++ (if any is_completed events then [] else completed finish_reason_unknown "" ∷ []))
unfolding chain_of
run_chain expose events = run_lem events expose false
