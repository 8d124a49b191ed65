-- ===== src/Unified/Collect/Arguments.antt =====
-- Tool calls in `Collect`: the streamed argument text arrives whole, in the call that was started.
use llmadapter.Prelude.{
  ℕ, String, len, ◌<>◌, ◌≡◌, refl, sym, ◌∙◌, ap, subst, Bool, true, false, not, some, List, [], ◌∷◌,
  ◌++◌, arith, All, All-map, length, get_elem?, get_elem?-update_at_self, get_elem?-append_length,
  ◌==◌, ltb, nat_eq, string_eq, if◌then◌else◌, nat_beq_iff,
}
use llmadapter.Prelude.Assoc.{lookup, lookup-insert}
use llmadapter.Unified.Content.{RawMessage}
use llmadapter.Unified.Request.{ToolCall}
use llmadapter.Unified.Event.{Event}
use llmadapter.Unified.Collect.{
  Collector, new_collector, turn, Ending, collect, finish_tool_call, text_of,
}
use llmadapter.Unified.Collect.Run.{settle, after, is_error, collect_from-three}
use llmadapter.Unified.Collect.Tools.{
  InBounds, InBounds-after, InBounds-new_collector, HasCall, not_done, HasCall-turn,
  HasCall-collect_from,
}

-- The event neither starts nor finishes the tool call of index `i`, and is no error.
abbrev in_tool_call : ℕ → Event → Bool
in_tool_call i (Event.tool_call_start j id name) = not (j == i)
in_tool_call i (Event.tool_call_done j id name args) = not (j == i)
in_tool_call i (Event.error (some e) r) = false
in_tool_call i _ = true

-- The argument deltas of index `i`, written one after the other behind `acc`.
abbrev args_from : ℕ → String → List Event → String
args_from i acc [] = acc
args_from i acc (Event.tool_call_args_delta j id delta ∷ events) =
    args_from i (if j == i then acc <> delta else acc) events
args_from i acc (_ ∷ events) = args_from i acc events

-- The call is open: index `i` leads to it, and its buffer holds `acc`.
record HoldsArgs (i p : ℕ) (acc : String) (call : ToolCall) (s : Collector) : Type 0 where
  leads : lookup i s.tool_indexes ≡ some p
  buffer : lookup i s.tool_args ≡ some acc
  has_call : HasCall i p call s

in_tool_call-not_done : (i : ℕ) (ev : Event) → in_tool_call i ev ≡ true → not_done i ev ≡ true
in_tool_call-not_done i (Event.tool_call_done j id name args) h = h
in_tool_call-not_done i _ h = refl

in_tool_call-is_error : (i : ℕ) (ev : Event) → in_tool_call i ev ≡ true → is_error ev ≡ false
in_tool_call-is_error i (Event.error (some e) r) h = cc
in_tool_call-is_error i _ h = refl

args_from-cons :
    (i : ℕ) (acc : String) (ev : Event) (events : List Event)
    → args_from i acc (ev ∷ events) ≡ args_from i (args_from i acc (ev ∷ [])) events
args_from-cons i acc (Event.tool_call_args_delta j id delta) events = refl
args_from-cons i acc _ events = refl

leads-turn :
    (i p : ℕ) (s : Collector) (ev : Event)
    → in_tool_call i ev ≡ true
    → lookup i s.tool_indexes ≡ some p
    → lookup i (settle (turn ev s) s).tool_indexes ≡ some p
unfolding turn
leads-turn i p s (Event.tool_call_start j id name) o h =
    ground (arith, lookup-insert j i (length s.resp.tool_calls) s.tool_indexes)
leads-turn i p s (Event.error (some x) r) o h = h
leads-turn i p s _ o h = h

buffer-turn :
    (i : ℕ) (acc : String) (s : Collector) (ev : Event)
    → in_tool_call i ev ≡ true
    → lookup i s.tool_args ≡ some acc
    → lookup i (settle (turn ev s) s).tool_args ≡ some (args_from i acc (ev ∷ []))
unfolding turn
buffer-turn i acc s (Event.tool_call_start j id name) o h =
    ground (arith, lookup-insert j i "" s.tool_args)
buffer-turn i acc s (Event.tool_call_args_delta j id delta) o h = ground (
  arith,
  lookup-insert j i (text_of (lookup j s.tool_args) <> delta) s.tool_args,
  nat_beq_iff j i,
)
buffer-turn i acc s (Event.error (some x) r) o h = h
buffer-turn i acc s _ o h = h

HoldsArgs-after :
    (i p : ℕ) (acc : String) (call : ToolCall) (s : Collector) (events : List Event)
    → All (λ ev. in_tool_call i ev ≡ true) events
    → HoldsArgs i p acc call s
    → HoldsArgs i p (args_from i acc events) call (after s events)
HoldsArgs-after i p acc call s [] o h = h
HoldsArgs-after i p acc call s (ev ∷ events) o h =
    subst (λ t. HoldsArgs i p t call (after s (ev ∷ events))) (sym (args_from-cons i acc ev events))
      (HoldsArgs-after i p (args_from i acc (ev ∷ [])) call (settle (turn ev s) s) events o.1
        (record {
          leads = leads-turn i p s ev o.0 h.leads;
          buffer = buffer-turn i acc s ev o.0 h.buffer;
          has_call = HasCall-turn i p call s ev (in_tool_call-not_done i ev o.0) h.has_call;
        }))

abbrev started : ℕ → String → String → ToolCall
started i id name = record { id = id; name = name; arguments = ""; index = i }

HoldsArgs-tool_call_start :
    (i : ℕ) (id name : String) (s : Collector)
    → InBounds s
    → HoldsArgs i
        (length s.resp.tool_calls)
        ""
        (started i id name)
        (settle (turn (Event.tool_call_start i id name) s) s)
unfolding turn
HoldsArgs-tool_call_start i id name s h = record {
  leads =
      ground (arith, nat_beq_iff i i, lookup-insert i i (length s.resp.tool_calls) s.tool_indexes);
  buffer = ground (arith, nat_beq_iff i i, lookup-insert i i "" s.tool_args);
  has_call = record {
    at_place = get_elem?-append_length s.resp.tool_calls (started i id name);
    alone = λ j e. ground (
      arith,
      h j (length s.resp.tool_calls),
      nat_beq_iff i j,
      lookup-insert i j (length s.resp.tool_calls) s.tool_indexes,
    );
  };
}

HasCall-done :
    (i p : ℕ) (acc : String) (call : ToolCall) (id name : String) (args : RawMessage)
    (s : Collector)
    → HoldsArgs i p acc call s
    → HasCall i p
        (finish_tool_call id name args (some acc) call)
        (settle (turn (Event.tool_call_done i id name args) s) s)
unfolding turn
HasCall-done i p acc call id name args s h = record {
  at_place =
      rw (h.leads, h.buffer)
        (get_elem?-update_at_self s.resp.tool_calls p (finish_tool_call id name args (some acc))
          h.has_call.at_place);
  alone = h.has_call.alone;
}

abbrev pub tool_call : ℕ → String → String → List Event → List Event
tool_call i id name body = Event.tool_call_start i id name ∷ body

-- Whatever `Collect` has received before, and however the stream goes on and ends: a tool call
-- that is started with index `i`, and finished after events of which none starts or finishes a
-- call of that index, is in the response at the place counted by the calls before it. Its id and
-- name are those of the done event where that gives one, else those of the start event; its
-- arguments are those of the done event or, if that brings none, the concatenation of the
-- argument deltas of index `i` in order. No event up to the done event is an error, and no later
-- event finishes index `i` again.
pub collect-tool_call :
    (order : List ℕ → List ℕ) (before : List Event) (i : ℕ) (id name id' name' : String)
    (args : RawMessage) (body later : List Event) (ending : Ending)
    → All (λ ev. is_error ev ≡ false) before
    → All (λ ev. in_tool_call i ev ≡ true) body
    → All (λ ev. not_done i ev ≡ true) later
    → let streamed = args_from i "" body in
      get_elem?
        (collect order
          (before ++ (tool_call i id name body ++ (Event.tool_call_done i id' name' args ∷ later)))
          ending).resp.tool_calls
        (length (after new_collector before).resp.tool_calls)
      ≡ some (record {
        id = if id' == "" then id else id';
        name = if name' == "" then name else name';
        arguments =
            if ltb 0 (len args) then args else if ltb 0 (len streamed) then streamed else "";
        index = i;
      })
unfolding collect
collect-tool_call order before i id name id' name' args body later ending hb ho hl =
    let s₀ = after new_collector before in
    let s₁ = settle (turn (Event.tool_call_start i id name) s₀) s₀ in
    let s = after s₁ body in
    let ev = Event.tool_call_done i id' name' args in
    let p = length s₀.resp.tool_calls in
    let call = finish_tool_call id' name' args (some (args_from i "" body)) (started i id name) in
    let held : HoldsArgs i p (args_from i "" body) (started i id name) s =
      HoldsArgs-after i p "" (started i id name) s₁ body ho (
        HoldsArgs-tool_call_start i id name s₀
          (InBounds-after new_collector before InBounds-new_collector)) in
    ap (λ c. get_elem? c.resp.tool_calls p)
      (collect_from-three order new_collector before (tool_call i id name body) ev later ending hb
        (refl, All-map (in_tool_call-is_error i) body ho) refl)
    ∙ HasCall-collect_from order i p call (settle (turn ev s) s) later ending hl
        (HasCall-done i p (args_from i "" body) (started i id name) id' name' args s held)
    ∙ ground arith
