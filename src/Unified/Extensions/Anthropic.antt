-- ===== src/Unified/Extensions/Anthropic.antt =====
-- The Anthropic extensions of unified/extensions.go.
use llmadapter.Prelude.{
  String, Bool, false, not, ◌||◌, Option, none, some, List, [], ◌∷◌, is_nil, ◌==◌, string_eq,
  if◌then◌else◌,
}
use llmadapter.Unified.Content.{RawMessage}
use llmadapter.Unified.Errors.{formatted, Result, ok, err}
use llmadapter.RouteAttempt.{ExtensionMap}
use llmadapter.Unified.Extensions.{
  ext_anthropic_betas, ext_anthropic_context_management, ExtensionOps, Setter, ◌then_set◌, set_when,
  set, get_extension, Warnings, raw_object, extension_warning, set_raw, validated_raw_extension,
}

pub record AnthropicExtensions : Type 0 where
  pub betas : List String
  pub context_management : RawMessage

module _ (ops : ExtensionOps) where
  unfoldable valid_beta_value : String → Bool
  valid_beta_value value =
      if not (ops.trim_space value == value) || value == "" || ops.has_comma value
      then false
      else not (ops.any_space value || ops.any_control value)

  -- The valid betas, and a warning for each other.
  unfoldable keep_betas : List String → List String × Warnings
  unfolding valid_beta_value extension_warning
  keep_betas [] = ([], [])
  keep_betas (beta ∷ betas) =
      let (kept, warnings) = keep_betas betas in
      if not (valid_beta_value beta)
      then (
        kept,
        extension_warning ops ext_anthropic_betas (
              formatted
                "must be a non-empty beta header value without whitespace, comma, or control characters"
                [])
            ∷ warnings,
      )
      else (beta ∷ kept, warnings)

  abbrev betas_of : Option (Result (List String)) → List String × Warnings
  betas_of none = ([], [])
  betas_of (some (err e)) = ([], extension_warning ops ext_anthropic_betas e ∷ [])
  betas_of (some (ok value)) = keep_betas value

  unfoldable anthropic_extensions_from : ExtensionMap → AnthropicExtensions × Warnings
  unfolding keep_betas get_extension validated_raw_extension raw_object extension_warning
  anthropic_extensions_from values =
      let (betas, w1) = betas_of (get_extension ops.parse_strings values ext_anthropic_betas) in
      let (context, w2) =
        validated_raw_extension ops values ext_anthropic_context_management raw_object w1 in
      (record { betas = betas; context_management = context }, w2)

  unfoldable set_anthropic_extensions : AnthropicExtensions → Setter
  unfolding set set_raw
  set_anthropic_extensions value =
      set_when (not (is_nil value.betas))
        (set ext_anthropic_betas (ops.marshal_strings value.betas))
      then_set set_raw ops ext_anthropic_context_management value.context_management
