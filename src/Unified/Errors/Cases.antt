-- ===== src/Unified/Errors/Cases.antt =====
-- A result is an error or a value.
use llmadapter.Prelude.{◌≡◌, ◌⊎◌, refl, inl, inr}
use llmadapter.Unified.Errors.{GoError, Result, ok, err}

pub Result-cases :
    {A : Type 0} (r : Result A) → ((e : GoError) × (r ≡ err e)) ⊎ ((a : A) × (r ≡ ok a))
Result-cases (err e) = inl (e, refl)
Result-cases (ok a) = inr (a, refl)
