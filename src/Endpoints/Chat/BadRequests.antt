-- ===== src/Endpoints/Chat/BadRequests.antt =====
-- Which requests the chat completions endpoint decodes, and the status of its answer to the others.
use llmadapter.Prelude.{
  ℕ, suc, String, ◌<>◌, ◌≡◌, refl, ◌∙◌, Bool, true, false, not, ◌&&◌, ◌||◌, Option, none, some,
  is_some, List, [], ◌∷◌, all, Bool-cases, Option-cases, inl, inr, ◌==◌, string_eq, if◌then◌else◌,
  arith,
}
use llmadapter.Unified.Content.{RawMessage, ContentPart}
use llmadapter.Unified.Errors.{GoError, Result, ok, err, as_api, as_http, ◌>>=◌}
use llmadapter.Unified.Extensions.{ExtensionOps}
use llmadapter.Endpoints.Decoding.{Warning, DecodeOps, status_error}
use llmadapter.Endpoints.Chat.Wire.{Message, Request}
use llmadapter.Endpoints.Chat.Decode.{
  JsonOps, join_turns, turn_of, decode_content, decode_message, decode_messages,
}
use llmadapter.Endpoints.Chat.Requests.{decode_fields, decode_request, write_error}

-- The status with which the endpoint answers a request that is not decoded.
abbrev pub refused {ℓ} : {A : Type ℓ} → (GoError → String) → Result A → Option ℕ
refused error_text (ok a) = none
refused error_text (err e) = some (write_error error_text e).0

-- Content is missing, a text or a list of parts.
abbrev is_content : JsonOps → RawMessage → Bool
is_content json raw =
    raw == "" || raw == "null" || is_some (json.parse_text raw) || is_some (json.parse_parts raw)

abbrev is_known_role : String → Bool
is_known_role role =
    role == "system"
    || role == "developer"
    || role == "user"
    || role == "assistant"
    || role == "tool"

abbrev is_message : JsonOps → Message → Bool
is_message json msg = if is_content json msg.content then is_known_role msg.role else false

-- The status of a test that fails.
abbrev unless : Bool → Option ℕ
unless test = if test then none else some 400

module _ (ops : DecodeOps) (json : JsonOps) (ext : ExtensionOps)
    (error_text : GoError → String) where
  refused-then :
      {A B : Type 0} (r : Result A) (f : A → Result B) (p q : Bool)
      → refused error_text r ≡ unless p
      → ((a : A) → refused error_text (f a) ≡ unless q)
      → refused error_text (r >>= f) ≡ unless (if p then q else false)
  refused-then (ok a) f true q h k = k a
  refused-then (ok a) f false q h k = ground arith
  refused-then (err e) f true q h k = ground arith
  refused-then (err e) f false q h k = h

  refused-map :
      {A B : Type 0} (r : Result A) (f : A → B)
      → refused error_text (r >>= λ a. ok (f a)) ≡ refused error_text r
  refused-map (ok a) f = refl
  refused-map (err e) f = refl

  refused-decode_content :
      (raw : RawMessage) (field : String)
      → refused error_text (decode_content ops json ext raw field) ≡ unless (is_content json raw)
  unfolding decode_content write_error status_error as_api as_http
  refused-decode_content raw field = elim (Bool-cases (raw == "" || raw == "null")) [
    | inl e ↦ rw e refl
    | inr e ↦ rw e (elim (Option-cases (json.parse_text raw)) [
      | inr (t, text) ↦ rw text refl
      | inl no_text ↦ rw no_text (elim (Option-cases (json.parse_parts raw)) [
        | inr (ps, parts) ↦ rw parts refl
        | inl no_parts ↦ rw no_parts refl
      ])
    ])
  ]

  refused-turn_of :
      (msg : Message) (field : String) (content : List ContentPart × List Warning)
      → refused error_text (turn_of ops json ext msg field content)
        ≡ unless (is_known_role msg.role)
  unfolding write_error status_error as_api as_http
  refused-turn_of msg field content =
      elim (Bool-cases (msg.role == "system" || msg.role == "developer")) [
        | inl e ↦ rw e (ground (arith, e))
        | inr e ↦ ground (arith, e)
      ]

  refused-decode_message :
      (msg : Message) (field : String)
      → refused error_text (decode_message ops json ext msg field) ≡ unless (is_message json msg)
  unfolding decode_message
  refused-decode_message msg field =
      refused-then (decode_content ops json ext msg.content (field <> ".content"))
        (turn_of ops json ext msg field) (is_content json msg.content) (is_known_role msg.role)
        (refused-decode_content msg.content (field <> ".content")) (refused-turn_of msg field)

  refused-decode_messages :
      (i : ℕ) (msgs : List Message)
      → refused error_text (decode_messages ops json ext i msgs)
        ≡ unless (all (is_message json) msgs)
  unfolding decode_messages
  refused-decode_messages i [] = refl
  refused-decode_messages i (msg ∷ msgs) =
      let rest = decode_messages ops json ext (suc i) msgs in
      refused-then (decode_message ops json ext msg ("messages." <> ops.itoa i))
        (λ turn. rest >>= λ turns. ok (join_turns turn turns)) (is_message json msg)
        (all (is_message json) msgs) (refused-decode_message msg ("messages." <> ops.itoa i))
        (λ turn. refused-map rest (join_turns turn) ∙ refused-decode_messages (suc i) msgs)

  -- A request of the chat completions endpoint is decoded exactly if it has a model and each of
  -- its messages has a role that the endpoint knows and content that is missing, a text or a list
  -- of parts. Any other request is answered with the status 400. Which JSON is a text and which a
  -- list of parts is a parameter.
  pub refused-decode_request :
      (wire : Request)
      → refused error_text (decode_request ops json ext wire)
        ≡ unless (not (wire.model == "") && all (is_message json) wire.messages)
  unfolding decode_request write_error status_error as_api as_http
  refused-decode_request wire = elim (Bool-cases (wire.model == "")) [
    | inl e ↦ rw e refl
    | inr e ↦ rw e (
        refused-map (decode_messages ops json ext 0 wire.messages) (decode_fields ops json ext wire)
        ∙ refused-decode_messages 0 wire.messages)
  ]
