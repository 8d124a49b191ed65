-- ===== src/Endpoints/Decoding.antt =====
-- What the endpoints' decoders share: `Warning` of adapt/types.go, `decodeWarning` and `statusError`,
-- and the status, type and message that `WriteError` answers an error with. `err.Error()`,
-- `strconv.Itoa`, the quoting of `%q` and the reading of a value of type `any` are parameters.
use llmadapter.Prelude.{ℕ, String, Option, none, some, not, ◌==◌, nat_eq, string_eq, if◌then◌else◌}
use llmadapter.Unified.Content.{RawMessage}
use llmadapter.Unified.Errors.{GoError, ApiError, HttpError}
use llmadapter.Unified.Json.{JsonValue}

pub record Warning : Type 0 where
  pub code : String
  pub field : String
  pub message : String

pub record DecodeOps : Type 0 where
  pub itoa : ℕ → String
  pub quote : String → String
  pub any_value : RawMessage → JsonValue
  pub error_text : GoError → String

unfoldable pub decode_warning : String → String → Warning
decode_warning field message = record {
  code = "unsupported_field_dropped";
  field = field;
  message = message;
}

unfoldable pub status_error : ℕ → String → String → GoError
status_error status code message = GoError.http status code message

-- A status with the code and the message of an error.
abbrev pub Answer : Type 0
Answer = ℕ × String × String

-- The first of two texts that is not empty, else a third.
abbrev pub first_of : String → String → String → String
first_of a b c = if not (a == "") then a else if not (b == "") then b else c

-- What an `APIError` in the error changes; `naming` gives the code.
abbrev pub api_answer : (ApiError → String) → Answer → Option ApiError → Answer
api_answer naming answer none = answer
api_answer naming (status, code, message) (some e) = (
  if not (e.status_code == 0) then e.status_code else status,
  naming e,
  if not (e.message == "") then e.message else message,
)

-- What an `httpError` in the error changes.
abbrev pub http_answer : Answer → Option HttpError → Answer
http_answer answer none = answer
http_answer answer (some http) = http
