-- ===== src/Unified/Errors.antt =====
-- The error values of the program: unified/errors.go, `UnsupportedFieldError` of adapt/types.go,
-- `httpError` of endpoints/anthropicmessages/codec.go and endpoints/openaichatcompletions/codec.go,
-- errors made by `errors.New` and `fmt.Errorf` (kept as the format and its arguments), and those joined by `errors.Join`.
-- `errors.As` looks through wrapped and joined errors, first to last.
pub mod Cases
use llmadapter.Prelude.{ℕ, String, Bool, true, false, ◌||◌, Option, none, some, List, [], ◌∷◌}
use llmadapter.Unified.Kinds.{ApiKind}
use llmadapter.Unified.Content.{RawMessage}

pub record ApiError : Type 0 where
  pub status_code : ℕ
  pub type : String
  pub code : String
  pub message : String
  pub param : String
  pub retry_after : ℕ
  pub provider_raw : RawMessage

mutual
  pub data GoError : Type 0 where
    formatted : (format : String) (args : List String) → GoError
    unsupported_field : (api_kind : ApiKind) (field reason : String) → GoError
    api : ApiError → GoError
    http : (status : ℕ) (code message : String) → GoError
    wrapped : (format : String) (args : List String) (err : GoError) → GoError
    joined : JoinedErrors → GoError

  pub data JoinedErrors : Type 0 where
    end : JoinedErrors
    also : GoError → JoinedErrors → JoinedErrors

unfoldable mutual
  -- `errors.As(err, &unsupported)`
  pub is_unsupported : GoError → Bool
  is_unsupported (formatted m args) = false
  is_unsupported (unsupported_field k f r) = true
  is_unsupported (api e) = false
  is_unsupported (http status code message) = false
  is_unsupported (wrapped m args e) = is_unsupported e
  is_unsupported (joined es) = any_unsupported es

  pub any_unsupported : JoinedErrors → Bool
  any_unsupported end = false
  any_unsupported (also e es) = is_unsupported e || any_unsupported es

abbrev pub or_else {ℓ} : {A : Type ℓ} → Option A → Option A → Option A
or_else none o = o
or_else (some a) o = some a

unfoldable mutual
  -- `errors.As(err, &apiErr)`
  pub as_api : GoError → Option ApiError
  as_api (formatted m args) = none
  as_api (unsupported_field k f r) = none
  as_api (api e) = some e
  as_api (http status code message) = none
  as_api (wrapped m args e) = as_api e
  as_api (joined es) = first_api es

  pub first_api : JoinedErrors → Option ApiError
  first_api end = none
  first_api (also e es) = or_else (as_api e) (first_api es)

-- An `httpError` of an endpoint: its status, code and message.
abbrev pub HttpError : Type 0
HttpError = ℕ × String × String

unfoldable mutual
  -- `errors.As(err, &httpErr)`
  pub as_http : GoError → Option HttpError
  as_http (formatted m args) = none
  as_http (unsupported_field k f r) = none
  as_http (api e) = none
  as_http (http status code message) = some (status, code, message)
  as_http (wrapped m args e) = as_http e
  as_http (joined es) = first_http es

  pub first_http : JoinedErrors → Option HttpError
  first_http end = none
  first_http (also e es) = or_else (as_http e) (first_http es)

abbrev to_joined : List GoError → JoinedErrors
to_joined [] = end
to_joined (e ∷ es) = also e (to_joined es)

-- `errors.Join`: nil of no errors.
unfoldable pub join : List GoError → Option GoError
join [] = none
join (e ∷ es) = some (joined (to_joined (e ∷ es)))

-- A function that returns a value and an error.
pub data Result {ℓ} (A : Type ℓ) : Type ℓ where
  ok : A → Result A
  err : GoError → Result A

infixl 5 ◌>>=◌
abbrev pub ◌>>=◌ {ℓ κ} : {A : Type ℓ} {B : Type κ} → Result A → (A → Result B) → Result B
ok a >>= f = f a
err e >>= f = err e
