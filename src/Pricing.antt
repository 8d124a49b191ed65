-- ===== src/Pricing.antt =====
-- pricing/pricing.go. The catalog of modeldb is a parameter: what `OfferingByRef` finds for a
-- service and a model, with the rates of the pricing that the code reads.
pub mod Charges
use llmadapter.Prelude.{
  ℕ, String, Bool, ◌&&◌, Option, none, some, List, [], ◌∷◌, ◌++◌, is_nil, not, if◌then◌else◌,
}
use llmadapter.Prelude.Int64
use llmadapter.Unified.Errors.{Result, ok}
use llmadapter.Unified.Usage.{
  Float64, float_is_pos, FloatOps, TokenItems, count, CostKind, CostItem, CostItems, costs_non_zero,
  UsageEvent, token_kind_input_new, token_kind_input_cache_read, token_kind_input_cache_write,
  token_kind_output, token_kind_output_reasoning, cost_kind_input, cost_kind_input_cache_read,
  cost_kind_input_cache_write, cost_kind_output, cost_kind_reasoning,
}
use llmadapter.Unified.Event.{Event}
use llmadapter.Pipeline.{Processor}

pub record Rates : Type 0 where
  pub input : Float64
  pub cached_input : Float64
  pub cache_write : Float64
  pub output : Float64
  pub reasoning : Float64

abbrev million : Float64
million = 0x412E_8480_0000_0000

unfoldable reasoning_rate : Rates → Float64
reasoning_rate p = if float_is_pos p.reasoning then p.reasoning else p.output

pub record Calculator : Type 0 where
  pub catalog : String → String → Option Rates
  pub service_id : String
  pub wire_model_id : String

-- The calls of `add`, each with its kind, count and rate.
unfoldable calls_of : TokenItems → Rates → List (CostKind × (ℕ × Float64))
unfolding count reasoning_rate
calls_of tokens p =
    (cost_kind_input, (count tokens token_kind_input_new, p.input))
    ∷ (cost_kind_input_cache_read, (count tokens token_kind_input_cache_read, p.cached_input))
    ∷ (cost_kind_input_cache_write, (count tokens token_kind_input_cache_write, p.cache_write))
    ∷ (cost_kind_output, (count tokens token_kind_output, p.output))
    ∷ (cost_kind_reasoning, (count tokens token_kind_output_reasoning, reasoning_rate p))
    ∷ []

module _ (ops : FloatOps) where
  abbrev amount_of : ℕ → Float64 → Float64
  amount_of n rate = ops.div (ops.mul (ops.of_int n) rate) million

  -- What a call of `add` appends.
  unfoldable charge : CostKind → ℕ → Float64 → CostItems
  charge kind n rate =
      if Int64.is_pos n && float_is_pos rate
      then (record { kind = kind; amount = amount_of n rate }) ∷ []
      else []

  unfoldable charges : List (CostKind × (ℕ × Float64)) → CostItems
  unfolding charge
  charges [] = []
  charges ((kind, (n, rate)) ∷ calls) = charge kind n rate ++ charges calls

  unfoldable pub costs : TokenItems → Option Rates → CostItems
  unfolding charges costs_non_zero calls_of
  costs tokens none = []
  costs tokens (some p) = costs_non_zero (charges (calls_of tokens p))

  unfoldable calculator_costs : Calculator → TokenItems → CostItems
  unfolding costs
  calculator_costs c tokens =
      if is_nil tokens then [] else costs tokens (c.catalog c.service_id c.wire_model_id)

  unfoldable price_event : Calculator → Event → Event
  unfolding calculator_costs
  price_event c (Event.usage u) =
      let priced = calculator_costs c u.tokens in
      if not (is_nil u.costs)
      then Event.usage u
      else Event.usage (if is_nil priced then u else record u { costs = priced })
  price_event c ev = ev

  unfoldable pricing_processor : Calculator → Processor Event
  unfolding price_event
  pricing_processor c = record {
    State = Calculator;
    state = c;
    push = λ c ev. (ok (price_event c ev ∷ []), c);
    close = λ c. (ok [], c);
  }
