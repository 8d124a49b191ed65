-- ===== src/Transport/Sse.antt =====
-- transport/sse.go. A reader is the bytes that the underlying reader still gives, and the error
-- that it gives then, `io.EOF` as a rule, and again at every later read. `strconv.Atoi` is a
-- parameter.
pub mod Blocks
pub mod Frames
pub mod Progress
use llmadapter.Prelude.{
  ℕ, String, Bool, true, false, not, ◌&&◌, ◌||◌, Option, none, some, List, [], ◌∷◌, ◌++◌, ◌==◌,
  nat_eq, if◌then◌else◌, is_nil,
}
use llmadapter.Unified.Errors.{GoError, Result, ok, err, wrapped}
use llmadapter.Transport.Bytes.{
  Bytes, byte_lf, byte_cr, byte_space, byte_colon, bytes_eq, split, join, cut, trim_suffix,
  trim_prefix, has_prefix,
}

pub record SseFrame : Type 0 where
  pub event : Bytes
  pub payload : Bytes
  pub id : Bytes
  pub retry : ℕ

-- The error at the end of the bytes.
pub data ReadError : Type 0 where
  eof : ReadError
  broken : GoError → ReadError

-- What `Next` returns: a block and the bytes that are not read yet, or the error.
pub data NextBlock : Type 0 where
  block : Bytes → Bytes → NextBlock
  failed : ReadError → NextBlock

-- The case of an error of `ReadByte`.
unfoldable at_end : Bytes → Bytes → ReadError → NextBlock
at_end held line eof = if is_nil line && is_nil held then failed eof else block (held ++ line) []
at_end held line (broken e) = failed (broken e)

abbrev is_line_byte : ℕ → Bool
is_line_byte b = not (b == byte_lf) && not (b == byte_cr)

-- The end of a line: the block with the line appended, or none if the block is complete.
unfoldable end_line : Bytes → Bytes → Option Bytes
end_line held line =
    if is_nil line
    then (if is_nil held then some [] else none)
    else some (if is_nil held then line else held ++ byte_lf ∷ line)

-- The loop, from the two buffers. A line feed that follows a carriage return is read with it.
unfoldable next_from : Bytes → Bytes → Bytes → ReadError → NextBlock
unfolding at_end end_line
next_from held line [] e = at_end held line e
next_from held line (b ∷ []) e = elim (is_line_byte b) [
  | true ↦ next_from held (line ++ b ∷ []) [] e
  | false ↦ elim (end_line held line) [
    | some held' ↦ next_from held' [] [] e
    | none ↦ block held []
  ]
]
next_from held line (b ∷ c ∷ bs) e = elim (is_line_byte b) [
  | true ↦ next_from held (line ++ b ∷ []) (c ∷ bs) e
  | false ↦ elim (b == byte_cr && c == byte_lf) [
    | true ↦ elim (end_line held line) [
      | some held' ↦ next_from held' [] bs e
      | none ↦ block held bs
    ]
    | false ↦ elim (end_line held line) [
      | some held' ↦ next_from held' [] (c ∷ bs) e
      | none ↦ block held (c ∷ bs)
    ]
  ]
]

unfoldable pub next : Bytes → ReadError → NextBlock
unfolding next_from
next input e = next_from [] [] input e

abbrev pub field_event : Bytes
field_event = 101 ∷ 118 ∷ 101 ∷ 110 ∷ 116 ∷ []

abbrev pub field_data : Bytes
field_data = 100 ∷ 97 ∷ 116 ∷ 97 ∷ []

abbrev field_id : Bytes
field_id = 105 ∷ 100 ∷ []

abbrev field_retry : Bytes
field_retry = 114 ∷ 101 ∷ 116 ∷ 114 ∷ 121 ∷ []

-- `frame` and the lines of `data` that `ParseSSEFrame` has so far.
pub record Parsed : Type 0 where
  pub frame : SseFrame
  pub lines : List Bytes

abbrev nothing_parsed : Parsed
nothing_parsed = record {
  frame = record { event = []; payload = []; id = []; retry = 0 };
  lines = [];
}

-- A line cut at its first colon, without the space behind it.
unfoldable field_of : Bytes → Bytes × Bytes
field_of line = elim (cut byte_colon line) [
  | none ↦ (line, [])
  | some (field, value) ↦ (field, trim_prefix byte_space value)
]

module _ (atoi : Bytes → Result ℕ) where
  -- The `switch` on the field.
  unfoldable set_field : Bytes → Bytes → Parsed → Result Parsed
  set_field field value p =
      if field == field_event
      then ok (record p { frame = record p.frame { event = value } })
      else if field == field_data
      then ok (record p { lines = p.lines ++ value ∷ [] })
      else if field == field_id
      then ok (record p { frame = record p.frame { id = value } })
      else if field == field_retry
      then elim (atoi value) [
        | ok retry ↦ ok (record p { frame = record p.frame { retry = retry } })
        | err e ↦ err (wrapped "parse sse retry: %w" [] e)
      ]
      else ok p

  unfoldable parse_line : Bytes → Parsed → Result Parsed
  unfolding field_of set_field
  parse_line raw p =
      let line = trim_suffix byte_cr raw in
      if is_nil line || has_prefix byte_colon line
      then ok p
      else let (field, value) = field_of line in set_field field value p

  unfoldable parse_lines : List Bytes → Parsed → Result Parsed
  unfolding parse_line
  parse_lines [] p = ok p
  parse_lines (line ∷ lines) p = elim (parse_line line p) [
    | ok q ↦ parse_lines lines q
    | err e ↦ err e
  ]

  unfoldable pub parse_sse_frame : Bytes → Result SseFrame
  unfolding parse_lines
  parse_sse_frame raw = elim (parse_lines (split byte_lf raw) nothing_parsed) [
    | ok p ↦ ok (record p.frame { payload = join byte_lf p.lines })
    | err e ↦ err e
  ]
