-- ===== src/Endpoints.antt =====
-- How the endpoints write a stream of server-sent events: `writeSSEEvent` of
-- endpoints/anthropicmessages/codec.go and `writeSSEData` of endpoints/openaichatcompletions/codec.go
-- and endpoints/openairesponses/codec.go. The JSON text that `json.Marshal` makes of the value, or its error, is an
-- argument.
pub mod Decoding
pub mod Written
pub mod Anthropic
pub mod Chat
use llmadapter.Prelude.{[], ◌∷◌, ◌++◌}
use llmadapter.Unified.Errors.{Result, ok, err}
use llmadapter.Transport.Bytes.{Bytes, byte_lf, byte_colon, byte_space}
use llmadapter.Transport.Sse.{field_event, field_data}

-- "event: %s\ndata: %s\n\n"
abbrev pub event_text : Bytes → Bytes → Bytes
event_text event json =
    field_event
    ++ (byte_colon
        ∷ byte_space
        ∷ (event
            ++ (byte_lf
                ∷ (field_data ++ (byte_colon ∷ byte_space ∷ (json ++ (byte_lf ∷ byte_lf ∷ [])))))))

-- "data: %s\n\n"
abbrev data_text : Bytes → Bytes
data_text json = field_data ++ (byte_colon ∷ byte_space ∷ (json ++ (byte_lf ∷ byte_lf ∷ [])))

-- What reaches the writer.
unfoldable pub write_sse_event : Bytes → Result Bytes → Result Bytes
write_sse_event event (ok json) = ok (event_text event json)
write_sse_event event (err e) = err e

unfoldable write_sse_data : Result Bytes → Result Bytes
write_sse_data (ok json) = ok (data_text json)
write_sse_data (err e) = err e
