-- ===== src/Endpoints/Written.antt =====
-- The SSE reader reads back what the endpoints write.
use llmadapter.Prelude.{ℕ, ◌≡◌, refl, sym, ◌∙◌, ap, Option, none, some, List, [], ◌∷◌, ◌++◌, All}
use mathlib.Core.List.{append_assoc}
use llmadapter.Unified.Errors.{Result, ok}
use llmadapter.Transport.Bytes.{Bytes, byte_lf, join}
use llmadapter.Transport.Sse.{
  SseFrame, ReadError, NextBlock, block, failed, next, parse_sse_frame, field_event, field_data,
}
use llmadapter.Transport.Sse.Blocks.{IsLine, lf, end_lines, next-end_lines, IsTextLine}
use llmadapter.Transport.Sse.Frames.{
  field_line, IsLine-event, IsLine-data, parse_sse_frame-event, parse_sse_frame-data,
}
use llmadapter.Endpoints.{write_sse_event, write_sse_data, event_text, data_text}

abbrev parsed : (Bytes → Result ℕ) → NextBlock → Option (Result SseFrame × Bytes)
parsed atoi (block b rest) = some (parse_sse_frame atoi b, rest)
parsed atoi (failed e) = none

-- `Next` and then `ParseSSEFrame`: the frame, or its error, and what is not read yet.
abbrev pub read_frame :
    (atoi : Bytes → Result ℕ) → Bytes → ReadError → Option (Result SseFrame × Bytes)
read_frame atoi input e = parsed atoi (next input e)

data_text-lines :
    (json rest : Bytes)
    → data_text json ++ rest ≡ end_lines lf (field_line field_data json ∷ []) ++ (byte_lf ∷ rest)
data_text-lines json rest = simp append_assoc

event_text-lines :
    (event json rest : Bytes)
    → event_text event json ++ rest
      ≡ end_lines lf (field_line field_event event ∷ field_line field_data json ∷ [])
        ++ (byte_lf ∷ rest)
event_text-lines event json rest = simp append_assoc

module _ (atoi : Bytes → Result ℕ) where
  read_frame-lines :
      (line : Bytes) (lines : List Bytes) (rest : Bytes) (e : ReadError)
      → All IsTextLine (line ∷ lines)
      → read_frame atoi (end_lines lf (line ∷ lines) ++ (byte_lf ∷ rest)) e
        ≡ some (parse_sse_frame atoi (join byte_lf (line ∷ lines)), rest)
  read_frame-lines line lines rest e h =
      ap (parsed atoi) (next-end_lines lf 0 line lines rest e h tt)

  -- What `writeSSEEvent` writes is read back as one frame with the event's name and the JSON text,
  -- if neither holds a line end, and what follows it is left to be read.
  pub read_frame-write_sse_event :
      (event json written rest : Bytes) (e : ReadError)
      → IsLine event
      → IsLine json
      → write_sse_event event (ok json) ≡ ok written
      → read_frame atoi (written ++ rest) e
        ≡ some (ok (record { event = event; payload = json; id = []; retry = 0 }), rest)
  unfolding write_sse_event
  read_frame-write_sse_event event json written rest e h k w =
      let same : event_text event json ≡ written = cc in
      ap (λ text. read_frame atoi (text ++ rest) e) (sym same)
      ∙ ap (λ text. read_frame atoi text e) (event_text-lines event json rest)
      ∙ read_frame-lines (field_line field_event event) (field_line field_data json ∷ []) rest e
          ((IsLine-event event h, refl), ((IsLine-data json k, refl), tt))
      ∙ ap (λ r. some (r, rest)) (parse_sse_frame-event atoi event json h k)

  -- What `writeSSEData` writes is read back as one frame with the JSON text, if it holds no line
  -- end, and what follows it is left to be read.
  read_frame-write_sse_data :
      (json written rest : Bytes) (e : ReadError)
      → IsLine json
      → write_sse_data (ok json) ≡ ok written
      → read_frame atoi (written ++ rest) e
        ≡ some (ok (record { event = []; payload = json; id = []; retry = 0 }), rest)
  unfolding write_sse_data
  read_frame-write_sse_data json written rest e k w =
      let same : data_text json ≡ written = cc in
      ap (λ text. read_frame atoi (text ++ rest) e) (sym same)
      ∙ ap (λ text. read_frame atoi text e) (data_text-lines json rest)
      ∙ read_frame-lines (field_line field_data json) [] rest e ((IsLine-data json k, refl), tt)
      ∙ ap (λ r. some (r, rest)) (parse_sse_frame-data atoi json k)
