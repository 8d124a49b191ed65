-- ===== src/MuxClient/RouteEvents.antt =====
-- The route event of an answer.
use llmadapter.Prelude.{none, some, List, [], ◌∷◌, if◌then◌else◌, string_eq, is_some}
use llmadapter.Unified.Event.{Event, RouteEvent}
use llmadapter.Router.Types.{Route}
use llmadapter.MuxClient.{as_execution, merge_execution, route_event}

-- What the route event says: an execution report that comes first is merged into it.
abbrev pub announced : Route → List Event → RouteEvent
announced r [] = route_event r
announced r (ev ∷ events) = elim (as_execution ev) [
  | none ↦ route_event r
  | some m ↦ merge_execution m (route_event r)
]

-- The events but for an execution report that comes first.
abbrev pub behind : List Event → List Event
behind [] = []
behind (ev ∷ events) = if is_some (as_execution ev) then events else ev ∷ events
