-- ===== src/Transport/Sse/Frames.antt =====
-- `ParseSSEFrame` on blocks of `event` and `data` lines.
use llmadapter.Prelude.{ℕ, ◌≡◌, refl, List, [], ◌∷◌, ◌++◌, arith, All, nat_eq}
use llmadapter.Unified.Errors.{Result, ok}
use llmadapter.Transport.Bytes.{
  Bytes, byte_lf, byte_cr, byte_colon, byte_space, Lacks, bytes_eq, join, split-join, cut-append,
  trim_suffix-Lacks, trim_prefix,
}
use llmadapter.Transport.Sse.{
  Parsed, field_of, set_field, parse_line, parse_lines, parse_sse_frame, field_event, field_data,
  nothing_parsed,
}
use llmadapter.Transport.Sse.Blocks.{IsLine}

-- "<field>: <value>"
abbrev pub field_line : Bytes → Bytes → Bytes
field_line field value = field ++ (byte_colon ∷ byte_space ∷ value)

IsLine-Lacks_lf : (bs : Bytes) → IsLine bs → Lacks byte_lf bs
IsLine-Lacks_lf [] h = tt
IsLine-Lacks_lf (b ∷ bs) h = (ground (arith, h.0), IsLine-Lacks_lf bs h.1)

IsLine-Lacks_cr : (bs : Bytes) → IsLine bs → Lacks byte_cr bs
IsLine-Lacks_cr [] h = tt
IsLine-Lacks_cr (b ∷ bs) h = (ground (arith, h.0), IsLine-Lacks_cr bs h.1)

pub IsLine-event : (value : Bytes) → IsLine value → IsLine (field_line field_event value)
IsLine-event value h = (refl, (refl, (refl, (refl, (refl, (refl, (refl, h)))))))

pub IsLine-data : (value : Bytes) → IsLine value → IsLine (field_line field_data value)
IsLine-data value h = (refl, (refl, (refl, (refl, (refl, (refl, h))))))

field_of-field_line :
    (field value : Bytes)
    → Lacks byte_colon field
    → field_of (field_line field value) ≡ (field, value)
unfolding field_of trim_prefix
field_of-field_line field value h =
    rw (field_of, cut-append byte_colon field (byte_space ∷ value) h) refl

module _ (atoi : Bytes → Result ℕ) where
  parse_line-event :
      (value : Bytes) (p : Parsed)
      → IsLine value
      → parse_line atoi (field_line field_event value) p
        ≡ ok (record p { frame = record p.frame { event = value } })
  unfolding parse_line set_field
  parse_line-event value p h =
      rw
        (
          parse_line,
          trim_suffix-Lacks byte_cr (field_line field_event value)
              (IsLine-Lacks_cr (field_line field_event value) (IsLine-event value h)),
          field_of-field_line field_event value (refl, (refl, (refl, (refl, (refl, tt))))),
        )
        refl

  parse_line-data :
      (value : Bytes) (p : Parsed)
      → IsLine value
      → parse_line atoi (field_line field_data value) p
        ≡ ok (record p { lines = p.lines ++ value ∷ [] })
  unfolding parse_line set_field
  parse_line-data value p h =
      rw
        (
          parse_line,
          trim_suffix-Lacks byte_cr (field_line field_data value)
              (IsLine-Lacks_cr (field_line field_data value) (IsLine-data value h)),
          field_of-field_line field_data value (refl, (refl, (refl, (refl, tt)))),
        )
        refl

  parse_sse_frame-lines :
      (line : Bytes) (lines : List Bytes) (p : Parsed)
      → All (Lacks byte_lf) (line ∷ lines)
      → parse_lines atoi (line ∷ lines) nothing_parsed ≡ ok p
      → parse_sse_frame atoi (join byte_lf (line ∷ lines))
        ≡ ok (record p.frame { payload = join byte_lf p.lines })
  unfolding parse_sse_frame
  parse_sse_frame-lines line lines p h k =
      rw (parse_sse_frame, split-join byte_lf line lines h, k) refl

  -- A block of an `event` line and a `data` line.
  pub parse_sse_frame-event :
      (event value : Bytes)
      → IsLine event
      → IsLine value
      → parse_sse_frame atoi
          (join byte_lf (field_line field_event event ∷ field_line field_data value ∷ []))
        ≡ ok (record { event = event; payload = value; id = []; retry = 0 })
  unfolding parse_lines join
  parse_sse_frame-event event value h k =
      parse_sse_frame-lines (field_line field_event event) (field_line field_data value ∷ [])
        (record {
          frame = record { event = event; payload = []; id = []; retry = 0 };
          lines = value ∷ [];
        })
        (
          IsLine-Lacks_lf (field_line field_event event) (IsLine-event event h),
          (IsLine-Lacks_lf (field_line field_data value) (IsLine-data value k), tt),
        )
        (rw (parse_lines, parse_line-event event nothing_parsed h, parse_line-data value _ k) refl)

  -- A block of one `data` line.
  pub parse_sse_frame-data :
      (value : Bytes)
      → IsLine value
      → parse_sse_frame atoi (join byte_lf (field_line field_data value ∷ []))
        ≡ ok (record { event = []; payload = value; id = []; retry = 0 })
  unfolding parse_lines join
  parse_sse_frame-data value k =
      parse_sse_frame-lines (field_line field_data value) []
        (record {
          frame = record { event = []; payload = []; id = []; retry = 0 };
          lines = value ∷ [];
        })
        (IsLine-Lacks_lf (field_line field_data value) (IsLine-data value k), tt)
        (rw (parse_lines, parse_line-data value nothing_parsed k) refl)
