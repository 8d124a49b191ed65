-- ===== src/Providers/Anthropic/Quota.antt =====
-- `quotaEventToUnified` of providers/anthropic/messages/quota.go. Comparing floats,
-- `time.Parse` and `json.Marshal` are parameters.
use llmadapter.Prelude.{
  ℕ, String, Bool, Option, none, some, List, [], ◌∷◌, map, is_nil, ◌==◌, string_eq, if◌then◌else◌,
}
use llmadapter.Prelude.Assoc.{Assoc}
use llmadapter.Prelude.Int64
use llmadapter.Unified.Content.{RawMessage}
use llmadapter.Unified.Errors.{Result, ok, err}
use llmadapter.Unified.Usage.{Float64, FloatOps}
use llmadapter.Unified.Event.{QuotaUsageEvent, QuotaWindowUsage}
use llmadapter.Providers.Anthropic.Wire.{QuotaWindow, QuotaEvent}

pub record QuotaOps : Type 0 where
  pub floats : FloatOps
  pub less : Float64 → Float64 → Bool
  pub less_or_equal : Float64 → Float64 → Bool
  pub parse_rfc3339 : String → Result ℕ
  pub marshal_headers : Assoc String (List String) → Result RawMessage

abbrev one : Float64
one = 0x3FF0_0000_0000_0000

abbrev hundred : Float64
hundred = 0x4059_0000_0000_0000

module _ (ops : QuotaOps) where
  unfoldable utilization_percent : Float64 → Float64
  utilization_percent value =
      if ops.less value 0
      then 0
      else if ops.less_or_equal value one
      then ops.floats.mul value hundred
      else if ops.less hundred value
      then hundred
      else value

  abbrev clamped_use : ℕ → ℕ → ℕ
  clamped_use limit remaining =
      let used = Int64.sub limit remaining in
      let from_zero = if Int64.lt used 0 then 0 else used in
      if Int64.lt limit from_zero then limit else from_zero

  unfoldable pub used_percent : Option ℕ → Option ℕ → Float64
  used_percent (some limit) (some remaining) =
      if Int64.is_pos limit
      then ops.floats.mul
          (ops.floats.div (ops.floats.of_int (clamped_use limit remaining))
            (ops.floats.of_int limit))
          hundred
      else 0
  used_percent _ _ = 0

  unfoldable quota_used_percent : QuotaWindow → Float64
  unfolding utilization_percent used_percent
  quota_used_percent window = elim window.utilization [
    | some value ↦ utilization_percent value
    | none ↦ used_percent window.limit window.remaining
  ]

  unfoldable pub reset_unix : String → Option ℕ
  reset_unix value =
      if value == ""
      then none
      else elim (ops.parse_rfc3339 value) [ ok unix ↦ some unix | err e ↦ none ]

  -- `firstInt64Ptr` of two values
  abbrev first_int : Option ℕ → Option ℕ → Option ℕ
  first_int (some a) b = some a
  first_int none b = b

  unfoldable quota_window : QuotaWindow → QuotaWindowUsage
  unfolding quota_used_percent reset_unix
  quota_window window = record {
    name = window.name;
    used_percent = quota_used_percent window;
    limit = window.limit;
    remaining = window.remaining;
    window_minutes = window.window_minutes;
    resets_at_unix = first_int window.reset_unix (reset_unix window.reset_rfc3339);
  }

  unfoldable pub quota_event_to_unified : QuotaEvent → QuotaUsageEvent
  unfolding quota_window
  quota_event_to_unified event = record {
    provider = event.provider;
    plan = "";
    limits =
        (record {
          id = "anthropic_rate_limit";
          name = "";
          windows = map quota_window event.windows;
          credits = none;
        })
        ∷ [];
    provider_raw =
        if is_nil event.headers
        then ""
        else elim (ops.marshal_headers event.headers) [ ok text ↦ text | err e ↦ "" ];
  }
