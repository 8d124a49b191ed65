-- ===== src/Pipeline/Coalesce.antt =====
-- `TextCoalescer` of pipeline/coalesce.go. The length of a Go string, in bytes of its UTF-8 form,
-- is a parameter. The nil map of buffers reads as the empty one.
pub mod Texts
use llmadapter.Prelude.{
  ℕ, String, ◌<>◌, Bool, true, false, not, Option, none, some, List, [], ◌∷◌, ◌++◌, ltb, leb, ◌==◌,
  nat_eq, string_eq, if◌then◌else◌,
}
use llmadapter.Prelude.Int64
use llmadapter.Prelude.Assoc.{Assoc, lookup, insert, remove, keys}
use llmadapter.Prelude.StableSort.{stable_sort}
use llmadapter.Unified.Event.{Event, text_delta}
use llmadapter.Unified.Errors.{Result, ok}
use llmadapter.Pipeline.{Processor}

abbrev Buffers : Type 0
Buffers = Assoc ℕ String

-- the text of a buffer, of none the empty text
abbrev pub held : Option String → String
held none = ""
held (some text) = text

unfoldable flush : ℕ → Buffers → List Event × Buffers
flush index bufs =
    let text = held (lookup index bufs) in
    if text == "" then ([], bufs) else (text_delta index text ∷ [], remove index bufs)

unfoldable pub flush_each : List ℕ → Buffers → List Event × Buffers
unfolding flush
flush_each [] bufs = ([], bufs)
flush_each (index ∷ indexes) bufs =
    let (out, bufs') = flush index bufs in
    let (rest, bufs'') = flush_each indexes bufs' in (out ++ rest, bufs'')

-- `sort.Ints`: the keys of a map are distinct, so the stable sort gives the same order.
unfoldable pub flush_all : Buffers → List Event × Buffers
unfolding flush_each
flush_all bufs = flush_each (stable_sort ltb (keys bufs)) bufs

module _ (byte_len : String → ℕ) (max_bytes : ℕ) where
  unfoldable push_delta : ℕ → String → Buffers → List Event × Buffers
  unfolding flush
  push_delta index text bufs =
      if not (Int64.is_pos max_bytes)
      then (text_delta index text ∷ [], bufs)
      else let all = held (lookup index bufs) <> text in
        let bufs' = insert index all bufs in
        if leb max_bytes (byte_len all) then flush index bufs' else ([], bufs')

  unfoldable push_event : Buffers → Event → List Event × Buffers
  unfolding push_delta flush_all
  push_event bufs (text_delta index text) = push_delta index text bufs
  push_event bufs ev = let (flushed, bufs') = flush_all bufs in (flushed ++ ev ∷ [], bufs')

  unfoldable text_coalescer : Processor Event
  unfolding push_event flush_all
  text_coalescer = record {
    State = Buffers;
    state = [];
    push = λ bufs ev. let (out, bufs') = push_event bufs ev in (ok out, bufs');
    close = λ bufs. let (out, bufs') = flush_all bufs in (ok out, bufs');
  }
