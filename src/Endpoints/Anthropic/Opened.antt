-- ===== src/Endpoints/Anthropic/Opened.antt =====
-- Which blocks are open in what the Anthropic endpoint has written.
use mathlib.Core.Path.{fun_ext}
use llmadapter.Prelude.{
  ℕ, String, ◌≡◌, refl, ◌∙◌, ap, Bool, true, false, ◌&&◌, is_some, List, [], ◌∷◌, ◌==◌, nat_eq,
  string_eq, Bool-cases, inl, inr, if◌then◌else◌, arith,
}
use llmadapter.Prelude.Assoc.{lookup, insert, remove, lookup-insert, lookup-remove}
use llmadapter.Unified.Kinds.{ContentKind, content_kind_tool_call}
use llmadapter.Unified.Event.{Event}
use llmadapter.Endpoints.Anthropic.Stream.{
  StreamState, push, start_block, stop_block, keep_tool, complete,
}

-- What a reader of frames keeps: which blocks are open, and whether the message has ended.
pub record Seen : Type 0 where
  pub opened : ℕ → Bool
  pub ended : Bool

abbrev pub nothing_seen : Seen
nothing_seen = record { opened = λ i. false; ended = false }

-- What the frames that the endpoint has written show of its state.
abbrev pub seen : StreamState → Seen
seen s = record { opened = λ i. is_some (lookup i s.started); ended = s.message_end }

pub seen-insert :
    (i : ℕ) (kind : ContentKind) (s : StreamState)
    → seen (record s { started = insert i kind s.started })
      ≡ record (seen s) { opened = λ j. if i == j then true else is_some (lookup j s.started) }
seen-insert i kind s =
    ap (λ (f : ℕ → Bool). record (seen s) { opened = f })
      (fun_ext (λ j. rw (lookup-insert i j kind s.started) (ground arith)))

pub seen-remove :
    (i : ℕ) (s : StreamState)
    → seen (record s { started = remove i s.started })
      ≡ record (seen s) { opened = λ j. if i == j then false else is_some (lookup j s.started) }
seen-remove i s =
    ap (λ (f : ℕ → Bool). record (seen s) { opened = f })
      (fun_ext (λ j. rw (lookup-remove i j s.started) (ground arith)))

pub seen-keep_tool :
    (i : ℕ) (kind : ContentKind) (id name : String) (s : StreamState)
    → seen (keep_tool i kind id name s) ≡ seen s
seen-keep_tool i kind id name s = elim (Bool-cases (kind == content_kind_tool_call)) [
  | inl e ↦ rw e refl
  | inr e ↦ rw e refl
]

-- Which blocks are open behind an event.
abbrev pub opened_by : Event → (ℕ → Bool) → ℕ → Bool
opened_by (Event.content_block_start i kind id name) opened j = if i == j then true else opened j
opened_by (Event.text_delta i text) opened j = if i == j then true else opened j
opened_by (Event.reasoning_delta i text signature) opened j = if i == j then true else opened j
opened_by (Event.tool_call_start i id name) opened j = if i == j then true else opened j
opened_by (Event.tool_call_done i id name args) opened j = if i == j then false else opened j
opened_by (Event.content_block_done i kind) opened j = if i == j then false else opened j
opened_by _ opened j = opened j

-- The arguments and the end of a tool call want its block to be open.
abbrev pub in_block : Event → (ℕ → Bool) → Bool
in_block (Event.tool_call_args_delta i id delta) opened = opened i
in_block (Event.tool_call_done i id name args) opened = opened i
in_block _ opened = true

-- The arguments and the end of each tool call come while a block of its index is open.
abbrev pub arguments_in_blocks : List Event → (ℕ → Bool) → Bool
arguments_in_blocks [] opened = true
arguments_in_blocks (ev ∷ events) opened =
    let rest = arguments_in_blocks events (opened_by ev opened) in in_block ev opened && rest

start_block-opened :
    (i : ℕ) (kind : ContentKind) (id name : String) (s : StreamState)
    → (seen (start_block i kind id name s).1).opened
      ≡ (λ j. if i == j then true else is_some (lookup j s.started))
unfolding start_block
start_block-opened i kind id name s = elim (Bool-cases (is_some (lookup i s.started))) [
  | inl e ↦ rw e (fun_ext (λ j. ground (arith, e)))
  | inr e ↦ rw e (
      ap Seen.opened (
        seen-keep_tool i kind id name (record s { started = insert i kind s.started })
        ∙ seen-insert i kind s))
]

stop_block-opened :
    (i : ℕ) (s : StreamState)
    → (seen (stop_block i s).1).opened
      ≡ (λ j. if i == j then false else is_some (lookup j s.started))
unfolding stop_block
stop_block-opened i s = elim (Bool-cases (is_some (lookup i s.started))) [
  | inl e ↦ rw e (ap Seen.opened (seen-remove i s))
  | inr e ↦ rw e (fun_ext (λ j. ground (arith, e)))
]

pub push-opened :
    (ev : Event) (s : StreamState) → (seen (push ev s).1).opened ≡ opened_by ev (seen s).opened
unfolding push complete
push-opened (Event.content_block_start i kind id name) s = start_block-opened i kind id name s
push-opened (Event.text_delta i text) s = start_block-opened i "text" "" "" s
push-opened (Event.reasoning_delta i text signature) s = start_block-opened i "reasoning" "" "" s
push-opened (Event.tool_call_start i id name) s = start_block-opened i "tool_call" id name s
push-opened (Event.tool_call_done i id name args) s = stop_block-opened i s
push-opened (Event.content_block_done i kind) s = stop_block-opened i s
push-opened (Event.completed reason id) s = elim (Bool-cases s.message_end) [
  | inl e ↦ rw e refl
  | inr e ↦ rw e refl
]
push-opened _ s = refl
