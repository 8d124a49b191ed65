-- ===== src/Router/Capabilities/Needs.antt =====
-- What the router promises of the capability check: it passes exactly the endpoints that have
-- every capability which the request needs.
use llmadapter.Prelude.{
  String, ◌≡◌, ◌↔◌, refl, sym, ◌∙◌, ◌≢◌, Bool, true, false, not, ◌&&◌, Option, none, some, List, [],
  ◌∷◌, arith, All, ◌==◌, string_eq, if◌then◌else◌, Bool-cases, inl, inr,
}
use llmadapter.Unified.Content.{ContentPart, image_part, audio_part}
use llmadapter.Unified.Request.{Request, Message, ResponseFormat, ReasoningConfig}
use llmadapter.Router.Types.{CapabilitySet, ResolvedModelMetadata}
use llmadapter.Router.Capabilities.{
  requires_tools, supports_model_metadata_value, part_mismatch, parts_mismatch, messages_mismatch,
  format_mismatch, reasoning_mismatch, capability_mismatch,
}
use text.Mathlib.TextEquality.{eq_iff}

-- The endpoint can take this part of a message.
abbrev PartServed : CapabilitySet → ContentPart → Type 0
PartServed caps (image_part source alt) = caps.vision ≡ true
PartServed caps (audio_part source) = caps.audio_input ≡ true
PartServed caps _ = Unit

abbrev FormatServed : CapabilitySet → Option ResponseFormat → Type 0
FormatServed caps none = Unit
FormatServed caps (some format) =
    (format.kind ≡ "json" → caps.json_mode ≡ true)
    × (format.kind ≡ "json_schema" → caps.json_schema ≡ true)

abbrev ReasoningServed :
    CapabilitySet → Option ResolvedModelMetadata → Option ReasoningConfig → Type 0
ReasoningServed caps meta none = Unit
ReasoningServed caps meta (some reasoning) =
    (caps.reasoning ≡ true)
    × (reasoning.effort ≢ ""
        → supports_model_metadata_value meta "reasoning_effort" reasoning.effort ≡ true)

-- The endpoint has what the request needs.
pub record Serves (req : Request) (caps : CapabilitySet) (meta : Option ResolvedModelMetadata)
    : Type 0 where
  pub streaming : req.stream ≡ true → caps.streaming ≡ true
  pub tools : requires_tools req ≡ true → caps.tools ≡ true
  pub format : FormatServed caps req.response_format
  pub reasoning : ReasoningServed caps meta req.reasoning
  pub parts : All (λ msg. All (PartServed caps) msg.content) req.messages

ne_of_beq : (r : String) → (r == "") ≡ false → r ≢ ""
ne_of_beq r e h = cc (e, (eq_iff r "").1 h)

reason_iff :
    (b : Bool) (r : String) → (r == "") ≡ false → ((if not b then r else "") ≡ "") ↔ (b ≡ true)
reason_iff true r e = (λ h. refl, λ h. refl)
reason_iff false r e = (λ h. absurd (ne_of_beq r e h), λ h. cc)

part_mismatch_iff :
    (caps : CapabilitySet) (part : ContentPart)
    → (part_mismatch caps part ≡ "") ↔ PartServed caps part
part_mismatch_iff caps (image_part source alt) = reason_iff caps.vision "vision required" refl
part_mismatch_iff caps (audio_part source) = reason_iff caps.audio_input "audio input required" refl
part_mismatch_iff caps _ = (λ h. tt, λ h. refl)

parts_mismatch_iff :
    (caps : CapabilitySet) (parts : List ContentPart)
    → (parts_mismatch caps parts ≡ "") ↔ All (PartServed caps) parts
unfolding parts_mismatch
parts_mismatch_iff caps [] = (λ h. tt, λ h. refl)
parts_mismatch_iff caps (part ∷ parts) = ground (
  arith,
  part_mismatch_iff caps part,
  parts_mismatch_iff caps parts,
  eq_iff (part_mismatch caps part) "",
)

messages_mismatch_iff :
    (caps : CapabilitySet) (msgs : List Message)
    → (messages_mismatch caps msgs ≡ "") ↔ All (λ msg. All (PartServed caps) msg.content) msgs
unfolding messages_mismatch
messages_mismatch_iff caps [] = (λ h. tt, λ h. refl)
messages_mismatch_iff caps (msg ∷ msgs) = ground (
  arith,
  parts_mismatch_iff caps msg.content,
  messages_mismatch_iff caps msgs,
  eq_iff (parts_mismatch caps msg.content) "",
)

json_ne_schema : ◌≢◌ {A = String} "json" "json_schema"
json_ne_schema h = cc ((eq_iff "json" "json_schema").1 h)

needed : (a b : Bool) → (a ≡ true → b ≡ true) → (a && not b) ≡ false
needed true true h = refl
needed true false h = sym (h refl)
needed false b h = refl

-- A ladder of tests: the first reason that is not empty is the result.
guard_iff :
    (b : Bool) (r rest : String)
    → (r == "") ≡ false
    → ((if b then r else rest) ≡ "") ↔ ((b ≡ false) × (rest ≡ ""))
guard_iff true r rest e = (λ h. absurd (ne_of_beq r e h), λ h. cc (h.0))
guard_iff false r rest e = (λ h. (refl, h), λ h. h.1)

first_iff :
    (r rest : String) → ((if not (r == "") then r else rest) ≡ "") ↔ ((r ≡ "") × (rest ≡ ""))
first_iff r rest = ground (arith, eq_iff r "")

format_mismatch_iff :
    (caps : CapabilitySet) (f : Option ResponseFormat)
    → (format_mismatch caps f ≡ "") ↔ FormatServed caps f
format_mismatch_iff caps none = (λ h. tt, λ h. refl)
format_mismatch_iff caps (some f) = elim (Bool-cases (f.kind == "json")) [
  | inl e ↦
      let k = (eq_iff f.kind "json").0 e in
      let mode = reason_iff caps.json_mode "json mode required" refl in
      rw e (λ h. (λ x. mode.0 h, λ x. absurd (json_ne_schema (sym k ∙ x))), λ h. mode.1 (h.0 k))
  | inr e ↦ elim (Bool-cases (f.kind == "json_schema")) [
    | inl e' ↦
        let schema = reason_iff caps.json_schema "json schema required" refl in
        rw (e, e')
          (
            λ h. (λ x. cc (e, (eq_iff f.kind "json").1 x), λ x. schema.0 h),
            λ h. schema.1 (h.1 ((eq_iff f.kind "json_schema").0 e')),
          )
    | inr e' ↦
        rw (e, e')
          (
            λ h. (
              λ x. cc (e, (eq_iff f.kind "json").1 x),
              λ x. cc (e', (eq_iff f.kind "json_schema").1 x),
            ),
            λ h. refl,
          )
  ]
]

reasoning_mismatch_iff :
    (caps : CapabilitySet) (meta : Option ResolvedModelMetadata) (r : Option ReasoningConfig)
    → (reasoning_mismatch caps meta r ≡ "") ↔ ReasoningServed caps meta r
reasoning_mismatch_iff caps meta none = (λ h. tt, λ h. refl)
reasoning_mismatch_iff caps meta (some r) = ground (
  arith,
  eq_iff r.effort "",
  ne_of_beq "reasoning required" refl,
  ne_of_beq "reasoning effort unsupported" refl,
)

-- The check gives no reason exactly if the endpoint has everything that the request needs: it
-- streams and calls tools if asked to, has the mode of the response format and the reasoning
-- effort asked for, and takes the images and audio of every message.
pub capability_mismatch_iff :
    (req : Request) (caps : CapabilitySet) (meta : Option ResolvedModelMetadata)
    → (capability_mismatch req caps meta ≡ "") ↔ Serves req caps meta
unfolding capability_mismatch
capability_mismatch_iff req caps meta =
    let s = guard_iff (req.stream && not caps.streaming) "streaming required" _ refl in
    let t = guard_iff (requires_tools req && not caps.tools) "tools required" _ refl in
    let f = first_iff (format_mismatch caps req.response_format) _ in
    let r = first_iff (reasoning_mismatch caps meta req.reasoning) _ in
    let fi = format_mismatch_iff caps req.response_format in
    let ri = reasoning_mismatch_iff caps meta req.reasoning in
    let mi = messages_mismatch_iff caps req.messages in
    (
      λ h.
          let hs = s.0 h in
          let ht = t.0 hs.1 in
          let hf = f.0 ht.1 in
          let hr = r.0 hf.1 in
          record {
            streaming = λ x. ground (arith, hs.0);
            tools = λ x. ground (arith, ht.0);
            format = fi.0 hf.0;
            reasoning = ri.0 hr.0;
            parts = mi.0 hr.1;
          },
      λ v. s.1 (
        needed req.stream caps.streaming v.streaming,
        t.1 (
          needed (requires_tools req) caps.tools v.tools,
          f.1 (fi.1 v.format, r.1 (ri.1 v.reasoning, mi.1 v.parts)),
        ),
      ),
    )
