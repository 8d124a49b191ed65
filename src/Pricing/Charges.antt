-- ===== src/Pricing/Charges.antt =====
-- What the costs of a usage event are.
use llmadapter.Prelude.{
  ℕ, ◌≡◌, refl, Bool, true, not, Option, none, some, List, [], ◌∷◌, All, All-append, filter,
  Bool-cases, inl, inr,
}
use llmadapter.Prelude.Int64
use llmadapter.Unified.Usage.{
  Float64, float_is_zero, float_is_pos, FloatOps, CostKind, CostItem, CostItems, costs_non_zero,
  TokenItems,
}
use llmadapter.Pricing.{Rates, charge, charges, calls_of, costs, amount_of}

module _ (ops : FloatOps) where
  -- The amount of a cost is a positive count at a positive rate, and not zero.
  pub record IsCharge (item : CostItem) : Type 0 where
    n : ℕ
    rate : Float64
    counted : Int64.is_pos n ≡ true
    priced : float_is_pos rate ≡ true
    amount : item.amount ≡ amount_of ops n rate

  All-charge : (kind : CostKind) (n : ℕ) (rate : Float64) → All IsCharge (charge ops kind n rate)
  unfolding charge
  All-charge kind n rate = elim (Bool-cases (Int64.is_pos n)) [
    | inr e ↦ rw e tt
    | inl e ↦ elim (Bool-cases (float_is_pos rate)) [
      | inr f ↦ rw (e, f) tt
      | inl f ↦
          rw (e, f) (record { n = n; rate = rate; counted = e; priced = f; amount = refl }, tt)
    ]
  ]

  All-charges : (calls : List (CostKind × (ℕ × Float64))) → All IsCharge (charges ops calls)
  unfolding charges
  All-charges [] = tt
  All-charges ((kind, (n, rate)) ∷ calls) =
      All-append IsCharge (charge ops kind n rate) (charges ops calls) (All-charge kind n rate)
        (All-charges calls)

  All-filter :
      (p : CostItem → Bool) (items : CostItems)
      → All IsCharge items
      → All (λ item. IsCharge item × (p item ≡ true)) (filter p items)
  All-filter p [] h = tt
  All-filter p (x ∷ xs) h = elim (Bool-cases (p x)) [
    | inl e ↦ rw e ((h.0, e), All-filter p xs h.1)
    | inr e ↦ rw e (All-filter p xs h.1)
  ]

  -- Every cost item is a positive count at a positive rate, divided by a million, and not zero.
  costs-All-IsCharge :
      (tokens : TokenItems) (rates : Option Rates)
      → All
          (λ item. IsCharge item × (not (float_is_zero item.amount) ≡ true))
          (costs ops tokens rates)
  unfolding costs costs_non_zero
  costs-All-IsCharge tokens none = tt
  costs-All-IsCharge tokens (some p) =
      All-filter (λ item. not (float_is_zero item.amount)) (charges ops (calls_of tokens p))
        (All-charges (calls_of tokens p))
