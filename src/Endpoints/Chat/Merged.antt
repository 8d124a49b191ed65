-- ===== src/Endpoints/Chat/Merged.antt =====
-- A stream with tool calls that the chat completions endpoint writes and the chat completions
-- provider reads.
use text.Mathlib.TextLemmas.{
  nil-append, append-nil as text_append-nil, append_assoc as text_append_assoc,
}
use mathlib.Core.Path.{fun_ext}
use llmadapter.Prelude.{
  ℕ, String, ◌<>◌, ◌≡◌, refl, ◌∙◌, ap, true, false, none, some, Option, List, [], ◌∷◌, ◌++◌, map,
  All, ◌+◌, ◌==◌, nat_eq, string_eq,
}
use llmadapter.Prelude.Assoc.{lookup, insert, remove}
use llmadapter.Prelude.StableSort.{stable_sort}
use llmadapter.Unified.Content.{RawMessage}
use llmadapter.Unified.Errors.{GoError, Result}
use llmadapter.Unified.Event.{Event}
use llmadapter.Providers.ChatCompletions.Wire as Wire
use llmadapter.Providers.ChatCompletions.Wire.{ChunkWire, ChoiceWire, DeltaWire, ToolCallWire}
use llmadapter.Providers.ChatCompletions.Decoder.{
  StreamDecoder, new_decoder, Emit, each, push_chunk, push_call, push_content, start_call,
  note_call, append_arguments, finish_choice, finish_tool_calls, complete,
}
use llmadapter.Endpoints.Chat.Wire.{ToolCall, ResponseDelta, Choice, Response}
use llmadapter.Endpoints.Chat.Stream.{
  StreamState, write_stream, push, finish_reason, stream_chunk, write_chunks, empty_delta,
  call_part,
}

-- What the fields of the same JSON name carry over: the endpoint's tool calls have no index, which
-- reads as zero, and its usage is there, with what it counts, in every chunk.
abbrev call_read : ToolCall → ToolCallWire
call_read call = record {
  index = 0;
  id = call.id;
  type = call.type;
  function = record { name = call.function.name; arguments = call.function.arguments };
}

abbrev delta_read : Option ResponseDelta → DeltaWire
delta_read none = record { role = ""; content = ""; tool_calls = [] }
delta_read (some delta) = record {
  role = delta.role;
  content = delta.content;
  tool_calls = map call_read delta.tool_calls;
}

abbrev choice_read : Choice → ChoiceWire
choice_read choice = record {
  index = choice.index;
  delta = delta_read choice.delta;
  finish_reason = choice.finish_reason;
}

abbrev pub chunk_read : Response → ChunkWire
chunk_read chunk = record {
  id = chunk.id;
  model = chunk.model;
  choices = map choice_read chunk.choices;
  usage = some (record {
    prompt_tokens = chunk.usage.prompt_tokens;
    completion_tokens = chunk.usage.completion_tokens;
    total_tokens = chunk.usage.total_tokens;
    prompt_tokens_details = none;
    completion_tokens_details = none;
  });
  error = none;
}

-- A tool call with its index, its id and name, and its arguments.
pub record Call : Type 0 where
  pub index : ℕ
  pub id : String
  pub name : String
  pub arguments : String

abbrev IsWhole : Call → Type 0
IsWhole c = ((c.id == "") ≡ false) × ((c.name == "") ≡ false) × ((c.arguments == "") ≡ false)

abbrev call_events : List Call → List Event
call_events [] = []
call_events (c ∷ cs) =
    Event.tool_call_start c.index c.id c.name
    ∷ Event.tool_call_args_delta c.index c.id c.arguments
    ∷ Event.tool_call_done c.index c.id c.name c.arguments
    ∷ call_events cs

-- A message of tool calls alone.
abbrev pub calls_message : List Call → List Event
calls_message cs =
    Event.message_start "" "" "assistant" "" 0
    ∷ (call_events cs ++ (Event.completed "tool_call" "" ∷ []))

-- The id, the name and the arguments of the calls that are done.
abbrev pub done_calls : List Event → List (String × String × String)
done_calls [] = []
done_calls (Event.tool_call_done i id name args ∷ events) = (id, name, args) ∷ done_calls events
done_calls (_ ∷ events) = done_calls events

abbrev last_call : Call → List Call → Call
last_call c [] = c
last_call c (d ∷ ds) = last_call d ds

abbrev all_arguments : List Call → String
all_arguments [] = ""
all_arguments (c ∷ cs) = c.arguments <> all_arguments cs

done_calls-append : (xs ys : List Event) → done_calls (xs ++ ys) ≡ done_calls xs ++ done_calls ys
done_calls-append [] ys = refl
done_calls-append (Event.tool_call_done i id name args ∷ xs) ys =
    ap (λ cs. (id, name, args) ∷ cs) (done_calls-append xs ys)
done_calls-append (_ ∷ xs) ys = done_calls-append xs ys

abbrev started : StreamDecoder
started = record new_decoder { started = true }

abbrev in_call : String → String → String → StreamDecoder
in_call id name acc = record {
  id = "";
  model = "";
  started = true;
  tool_ids = (0, id) ∷ [];
  tool_names = (0, name) ∷ [];
  tool_args = (0, acc) ∷ [];
  started_tools = (0, true) ∷ [];
}

abbrev writing : ℕ → StreamState
writing now = record { id = ""; model = ""; created = now }

abbrev only : ℕ → ResponseDelta → String → Response
only now delta reason =
    stream_chunk "" "" now
      (record { index = 0; message = none; delta = some delta; finish_reason = reason })

abbrev start_chunk : ℕ → Call → Response
start_chunk now c = only now (record empty_delta { tool_calls = call_part c.id c.name "" ∷ [] }) ""

abbrev args_chunk : ℕ → Call → Response
args_chunk now c =
    only now (record empty_delta { tool_calls = call_part c.id "" c.arguments ∷ [] }) ""

abbrev call_chunks : ℕ → List Call → List Response
call_chunks now [] = only now empty_delta "tool_calls" ∷ []
call_chunks now (c ∷ cs) = start_chunk now c ∷ args_chunk now c ∷ call_chunks now cs

-- A writer that never fails.
abbrev pub never : ℕ → Option GoError
never n = none

-- What the endpoint writes of events at this time.
abbrev pub chunks_of : ℕ → List Event → List Response
chunks_of now events = (write_stream never 0 events (writing now)).chunks

write_stream-calls :
    (now : ℕ) (cs : List Call) (n : ℕ)
    → (write_stream never n
        (call_events cs ++ (Event.completed "tool_call" "" ∷ []))
        (writing now)).chunks
      ≡ call_chunks now cs
unfolding write_stream push write_chunks finish_reason
write_stream-calls now [] n = refl
write_stream-calls now (c ∷ cs) n =
    ap (λ (rest : List Response). start_chunk now c ∷ args_chunk now c ∷ rest)
      (write_stream-calls now cs (n + 1 + 1 + 0))

module _ (marshal_usage : Wire.UsageWire → Result RawMessage) where
  abbrev read : Response → Emit
  read chunk = push_chunk marshal_usage (chunk_read chunk) ""

  -- What a chunk makes of the done calls and of the state.
  abbrev Makes : Response → StreamDecoder → List (String × String × String) → StreamDecoder → Type 0
  Makes chunk d calls d' = (done_calls (read chunk d).0 ≡ calls) × ((read chunk d).1 ≡ d')

  read-message :
      (now : ℕ)
      → Makes (only now (record empty_delta { role = "assistant" }) "") new_decoder [] started
  unfolding push_chunk push_content stream_chunk
  read-message now = (refl, refl)

  read-start_first :
      (now : ℕ) (c : Call)
      → IsWhole c
      → Makes (start_chunk now c) started [] (record (in_call c.id c.name "") { tool_args = [] })
  unfolding push_chunk push_content push_call note_call start_call append_arguments stream_chunk
      lookup insert
  read-start_first now c h = (rw (h.0) refl, rw (h.0, h.1) refl)

  read-args_first :
      (now : ℕ) (c : Call)
      → IsWhole c
      → Makes
          (args_chunk now c)
          (record (in_call c.id c.name "") { tool_args = [] })
          []
          (in_call c.id c.name ("" <> c.arguments))
  unfolding push_chunk push_content push_call note_call start_call append_arguments stream_chunk
      lookup insert
  read-args_first now c h = (rw (h.0) (rw (h.2) refl), rw (h.0, h.2) refl)

  read-start :
      (now : ℕ) (id name acc : String) (c : Call)
      → IsWhole c
      → Makes (start_chunk now c) (in_call id name acc) [] (in_call c.id c.name acc)
  unfolding push_chunk push_content push_call note_call start_call append_arguments stream_chunk
      lookup insert
  read-start now id name acc c h = (refl, rw (h.0, h.1) refl)

  read-args :
      (now : ℕ) (acc : String) (c : Call)
      → IsWhole c
      → Makes
          (args_chunk now c)
          (in_call c.id c.name acc)
          []
          (in_call c.id c.name (acc <> c.arguments))
  unfolding push_chunk push_content push_call note_call start_call append_arguments stream_chunk
      lookup insert
  read-args now acc c h = (rw (h.0) (rw (h.2) refl), rw (h.0, h.2) refl)

  read-end :
      (now : ℕ) (id name acc : String)
      → Makes
          (only now empty_delta "tool_calls")
          (in_call id name acc)
          ((id, name, acc) ∷ [])
          started
  unfolding push_chunk push_content finish_choice finish_tool_calls complete each stream_chunk
      stable_sort lookup remove
  read-end now id name acc = (refl, refl)

  -- A chunk that ends no call, before others.
  each-quiet :
      (chunk : Response) (rest : List Response) (d : StreamDecoder) {d' : StreamDecoder}
      → Makes chunk d [] d'
      → done_calls (each read (chunk ∷ rest) d).0 ≡ done_calls (each read rest d').0
  unfolding each
  each-quiet chunk rest d {d'} h =
      done_calls-append (read chunk d).0 (each read rest (read chunk d).1).0
      ∙ ap
          (λ (cs : List (String × String × String)).
            cs ++ done_calls (each read rest (read chunk d).1).0)
          h.0
      ∙ ap (λ (e : StreamDecoder). done_calls (each read rest e).0) h.1

  each-calls :
      (now : ℕ) (c : Call) (cs : List Call) (acc : String)
      → All IsWhole cs
      → done_calls (each read (call_chunks now cs) (in_call c.id c.name acc)).0
        ≡ ((last_call c cs).id, (last_call c cs).name, acc <> all_arguments cs) ∷ []
  unfolding each
  each-calls now c [] acc h = rw (text_append-nil acc) (
      done_calls-append (read (only now empty_delta "tool_calls") (in_call c.id c.name acc)).0 []
      ∙ ap (λ (cs : List (String × String × String)). cs ++ []) (read-end now c.id c.name acc).0)
  each-calls now c (d ∷ ds) acc h =
      each-quiet (start_chunk now d) (args_chunk now d ∷ call_chunks now ds)
        (in_call c.id c.name acc) (read-start now c.id c.name acc d h.0)
      ∙ each-quiet (args_chunk now d) (call_chunks now ds) (in_call d.id d.name acc)
          (read-args now acc d h.0)
      ∙ each-calls now d ds (acc <> d.arguments) h.1
      ∙ ap (λ (args : String). ((last_call d ds).id, (last_call d ds).name, args) ∷ [])
          (text_append_assoc acc d.arguments (all_arguments ds))

  -- The calls of a message are read, one chunk after the other, through JSON: `transcode` is what
  -- the provider's chunk type reads of what the endpoint's chunk type writes, the fields of the
  -- same name. A message has one or more tool calls, each with any index, and with an id, a name
  -- and arguments, none of them empty. Written by the chat completions endpoint when no write
  -- fails, and read by the chat completions provider, it has one call only, with the id and the
  -- name of the last call and the arguments of all, one after the other.
  pub done_calls-message :
      (transcode : Response → ChunkWire)
      → (now : ℕ) (c : Call) (cs : List Call) → ((r : Response) → transcode r ≡ chunk_read r)
      → All IsWhole (c ∷ cs)
      → done_calls
          (each
            (λ r. push_chunk marshal_usage (transcode r) "")
            (chunks_of now (calls_message (c ∷ cs)))
            new_decoder).0
        ≡ ((last_call c cs).id, (last_call c cs).name, all_arguments (c ∷ cs)) ∷ []
  unfolding write_stream push write_chunks
  done_calls-message transcode now c cs same h = rw (fun_ext same) (
      ap
        (λ (rest : List Response).
          done_calls
            (each read (only now (record empty_delta { role = "assistant" }) "" ∷ rest)
              new_decoder).0)
        (write_stream-calls now (c ∷ cs) 1)
      ∙ each-quiet (only now (record empty_delta { role = "assistant" }) "")
          (start_chunk now c ∷ args_chunk now c ∷ call_chunks now cs) new_decoder (read-message now)
      ∙ each-quiet (start_chunk now c) (args_chunk now c ∷ call_chunks now cs) started
          (read-start_first now c h.0)
      ∙ each-quiet (args_chunk now c) (call_chunks now cs)
          (record (in_call c.id c.name "") { tool_args = [] }) (read-args_first now c h.0)
      ∙ each-calls now c cs ("" <> c.arguments) h.1
      ∙ ap (λ (args : String). ((last_call c cs).id, (last_call c cs).name, args) ∷ [])
          (ap (λ (t : String). t <> all_arguments cs) (nil-append c.arguments)))
