-- ===== src/Prelude/Assoc.antt =====
-- A Go map as an association list. A key occurs at most once in what `insert` builds.
use mathlib.Core.Path.{◌≡◌, refl}
use mathlib.Core.Option.{Option, none, some}
use mathlib.Core.List.{List, [], ◌∷◌, map}
use native.Mathlib.Omega.{arith}
use Prim.Native.String.{String}
use llmadapter.Prelude.Tests.{Comparable, ◌==◌, if◌then◌else◌}

abbrev pub Assoc {ℓ κ} : Type ℓ → Type κ → Type (ℓ ⊔ κ)
Assoc K V = List (K × V)

abbrev pub or_empty : Option String → String
or_empty none = ""
or_empty (some text) = text

module _ {ℓ κ} {K : Type ℓ} {V : Type κ} ⦃c : Comparable K⦄ where
  unfoldable pub lookup : K → Assoc K V → Option V
  lookup key [] = none
  lookup key ((other, value) ∷ rows) =
      let rest = lookup key rows in if other == key then some value else rest

  unfoldable pub insert : K → V → Assoc K V → Assoc K V
  insert key value [] = (key, value) ∷ []
  insert key value ((other, held) ∷ rows) =
      let rest = insert key value rows in
      if other == key then (key, value) ∷ rows else (other, held) ∷ rest

  unfoldable pub remove : K → Assoc K V → Assoc K V
  remove key [] = []
  remove key ((other, held) ∷ rows) =
      let rest = remove key rows in if other == key then rest else (other, held) ∷ rest

  abbrev pub keys : Assoc K V → List K
  keys rows = map (λ p. p.0) rows

  pub lookup-insert :
      (key other : K) (value : V) (rows : Assoc K V)
      → lookup other (insert key value rows)
        ≡ (if key == other then some value else lookup other rows)
  unfolding lookup insert
  lookup-insert key other value [] = refl
  lookup-insert key other value ((third, held) ∷ rows) = ground (
    arith,
    c.same_iff key other,
    c.same_iff third key,
    c.same_iff third other,
    lookup-insert key other value rows,
  )

  pub lookup-remove :
      (key other : K) (rows : Assoc K V)
      → lookup other (remove key rows) ≡ (if key == other then none else lookup other rows)
  unfolding lookup remove
  lookup-remove key other [] = ground arith
  lookup-remove key other ((third, held) ∷ rows) = ground (
    arith,
    c.same_iff key other,
    c.same_iff third key,
    c.same_iff third other,
    lookup-remove key other rows,
  )

module _ {ℓ} {K : Type ℓ} ⦃c : Comparable K⦄ where
  -- A map of texts: a missing key reads as the empty text.
  abbrev pub text_at : K → Assoc K String → String
  text_at key m = or_empty (lookup key m)
