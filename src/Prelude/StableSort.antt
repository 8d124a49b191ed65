-- ===== src/Prelude/StableSort.antt =====
-- `sort.SliceStable` with a test `less`: each element in turn moves left past those that it is
-- less than. The sorted part is kept last element first.
use mathlib.Core.Path.{◌≡◌, refl, ap, ◌∙◌, subst}
use mathlib.Core.Logic.{inl, inr}
use mathlib.Core.Bool.{Bool, true, false, ◌||◌}
use mathlib.Core.List.{
  List, [], ◌∷◌, ◌++◌, reverse, Perm, append-nil, append_assoc, reverse-cons, reverse-reverse,
  reverse_perm, perm_middle,
}
use mathlib.Core.List.Perm
use native.Mathlib.Omega.{arith}
use llmadapter.Prelude.Tests.{if◌then◌else◌, Bool-cases}
use llmadapter.Prelude.Lists.{
  All, any, any-reverse, filter, All-append, All-reverse, filter-reverse,
}

module _ {ℓ} {A : Type ℓ} (less : A → A → Bool) where
  unfoldable insert_last : A → List A → List A
  insert_last x [] = x ∷ []
  insert_last x (y ∷ ys) = let rest = insert_last x ys in if less x y then y ∷ rest else x ∷ y ∷ ys

  unfoldable insert_all : List A → List A → List A
  unfolding insert_last
  insert_all acc [] = acc
  insert_all acc (x ∷ xs) = insert_all (insert_last x acc) xs

  unfoldable pub stable_sort : List A → List A
  unfolding insert_all
  stable_sort xs = reverse (insert_all [] xs)

  insert_last-perm : (x : A) (ys : List A) → Perm (insert_last x ys) (x ∷ ys)
  unfolding insert_last
  insert_last-perm x [] = Perm.refl (x ∷ [])
  insert_last-perm x (y ∷ ys) = ground (
    arith,
    Perm.trans (Perm.cons y (insert_last-perm x ys)) (Perm.swap x y ys),
    Perm.refl (x ∷ y ∷ ys),
  )

  insert_all-perm : (acc xs : List A) → Perm (insert_all acc xs) (xs ++ acc)
  unfolding insert_all
  insert_all-perm acc [] = Perm.refl acc
  insert_all-perm acc (x ∷ xs) =
      Perm.trans (insert_all-perm (insert_last x acc) xs)
        (Perm.trans (Perm.append_left xs (insert_last-perm x acc)) (perm_middle xs acc))

  -- Sorting loses and invents nothing.
  pub stable_sort-perm : (xs : List A) → Perm (stable_sort xs) xs
  unfolding stable_sort
  stable_sort-perm xs =
      Perm.trans (reverse_perm (insert_all [] xs))
        (subst (Perm (insert_all [] xs)) (append-nil xs) (insert_all-perm [] xs))

  All-insert_last {κ} :
      (P : A → Type κ) (x : A) (ys : List A) → P x → All P ys → All P (insert_last x ys)
  unfolding insert_last
  All-insert_last P x [] hx h = (hx, tt)
  All-insert_last P x (y ∷ ys) hx h = elim (Bool-cases (less x y)) [
    | inl e ↦ rw e (h.0, All-insert_last P x ys hx h.1)
    | inr e ↦ rw e (hx, h)
  ]

  All-insert_all {κ} :
      (P : A → Type κ) (acc xs : List A) → All P acc → All P xs → All P (insert_all acc xs)
  unfolding insert_all
  All-insert_all P acc [] ha h = ha
  All-insert_all P acc (x ∷ xs) ha h =
      All-insert_all P (insert_last x acc) xs (All-insert_last P x acc h.0 ha) h.1

  -- A property of every element is a property of every sorted element.
  pub All-stable_sort {κ} : (P : A → Type κ) (xs : List A) → All P xs → All P (stable_sort xs)
  unfolding stable_sort
  All-stable_sort P xs h = All-reverse P (insert_all [] xs) (All-insert_all P [] xs tt h)

  any-insert_last :
      (p : A → Bool) (x : A) (ys : List A) → any p (insert_last x ys) ≡ (p x || any p ys)
  unfolding insert_last
  any-insert_last p x [] = ground arith
  any-insert_last p x (y ∷ ys) = ground (arith, any-insert_last p x ys)

  any-insert_all :
      (p : A → Bool) (acc xs : List A) → any p (insert_all acc xs) ≡ (any p xs || any p acc)
  unfolding insert_all
  any-insert_all p acc [] = refl
  any-insert_all p acc (x ∷ xs) =
      ground (arith, any-insert_all p (insert_last x acc) xs, any-insert_last p x acc)

  -- A test holds of some sorted element exactly if it holds of some element.
  pub any-stable_sort : (p : A → Bool) (xs : List A) → any p (stable_sort xs) ≡ any p xs
  unfolding stable_sort
  any-stable_sort p xs = ground (arith, any-reverse p (insert_all [] xs), any-insert_all p [] xs)

  -- No element is less than one that stands before it.
  abbrev pub IsOrdered : List A → Type 0
  IsOrdered [] = Unit
  IsOrdered (x ∷ xs) = All (λ y. less y x ≡ false) xs × IsOrdered xs

  abbrev IsBackward : List A → Type 0
  IsBackward [] = Unit
  IsBackward (x ∷ xs) = All (λ y. less x y ≡ false) xs × IsBackward xs

  IsOrdered-concat :
      (ys : List A) (x : A)
      → IsOrdered ys
      → All (λ y. less x y ≡ false) ys
      → IsOrdered (ys ++ x ∷ [])
  IsOrdered-concat [] x h a = (tt, tt)
  IsOrdered-concat (y ∷ ys) x h a =
      (All-append (λ z. less z y ≡ false) ys (x ∷ []) h.0 (a.0, tt), IsOrdered-concat ys x h.1 a.1)

  IsOrdered-reverse : (xs : List A) → IsBackward xs → IsOrdered (reverse xs)
  IsOrdered-reverse [] h = tt
  IsOrdered-reverse (x ∷ xs) h = rw reverse-cons (
      IsOrdered-concat (reverse xs) x (IsOrdered-reverse xs h.1)
        (All-reverse (λ y. less x y ≡ false) xs h.0))

  -- The elements of a class in which none is less than another keep their order. `P` holds of
  -- every element that is sorted.
  module _ {κ} (P : A → Type κ) (p : A → Bool)
      (flat : (x y : A) → P x → P y → p x ≡ true → p y ≡ true → less x y ≡ false) where
    filter-insert_last :
        (x : A) (ys : List A) → P x → All P ys → filter p (insert_last x ys) ≡ filter p (x ∷ ys)
    unfolding insert_last
    filter-insert_last x [] hx h = refl
    filter-insert_last x (y ∷ ys) hx h =
        ground (arith, filter-insert_last x ys hx h.1, flat x y hx h.0)

    filter-insert_all :
        (acc xs : List A)
        → All P acc
        → All P xs
        → filter p (insert_all acc xs) ≡ reverse (filter p xs) ++ filter p acc
    unfolding insert_all
    filter-insert_all acc [] ha h = refl
    filter-insert_all acc (x ∷ xs) ha h =
        let ih = filter-insert_all (insert_last x acc) xs (All-insert_last P x acc h.0 ha) h.1 in
        let first = filter-insert_last x acc h.0 ha in
        elim (Bool-cases (p x)) [
          | inl e ↦ rw (ih, first, e, reverse-cons) (rw append_assoc)
          | inr e ↦ rw (ih, first, e)
        ]

    pub filter-stable_sort : (xs : List A) → All P xs → filter p (stable_sort xs) ≡ filter p xs
    unfolding stable_sort
    filter-stable_sort xs h =
        filter-reverse p (insert_all [] xs)
        ∙ ap reverse (filter-insert_all [] xs tt h ∙ append-nil (reverse (filter p xs)))
        ∙ reverse-reverse (filter p xs)

  module _ {κ} (P : A → Type κ) (asym : (x y : A) → P x → P y → less x y ≡ true → less y x ≡ false)
      (trans : (x y z : A)
        → P x
        → P y
        → P z
        → less x y ≡ false
        → less y z ≡ false
        → less x z ≡ false) where
    All-trans :
        (x y : A) (zs : List A)
        → P x
        → P y
        → All P zs
        → less x y ≡ false
        → All (λ z. less y z ≡ false) zs
        → All (λ z. less x z ≡ false) zs
    All-trans x y [] hx hy hz e k = tt
    All-trans x y (z ∷ zs) hx hy hz e k =
        (trans x y z hx hy hz.0 e k.0, All-trans x y zs hx hy hz.1 e k.1)

    IsBackward-insert_last :
        (x : A) (ys : List A) → P x → All P ys → IsBackward ys → IsBackward (insert_last x ys)
    unfolding insert_last
    IsBackward-insert_last x [] hx hy h = (tt, tt)
    IsBackward-insert_last x (y ∷ ys) hx hy h = elim (Bool-cases (less x y)) [
      | inl e ↦ rw e (
        All-insert_last (λ z. less y z ≡ false) x ys (asym x y hx hy.0 e) h.0,
        IsBackward-insert_last x ys hx hy.1 h.1,
      )
      | inr e ↦ rw e ((e, All-trans x y ys hx hy.0 hy.1 e h.0), h)
    ]

    IsBackward-insert_all :
        (acc xs : List A) → All P acc → All P xs → IsBackward acc → IsBackward (insert_all acc xs)
    unfolding insert_all
    IsBackward-insert_all acc [] ha hx h = h
    IsBackward-insert_all acc (x ∷ xs) ha hx h =
        IsBackward-insert_all (insert_last x acc) xs (All-insert_last P x acc hx.0 ha) hx.1
          (IsBackward-insert_last x acc hx.0 ha h)

    pub stable_sort-IsOrdered : (xs : List A) → All P xs → IsOrdered (stable_sort xs)
    unfolding stable_sort
    stable_sort-IsOrdered xs hx =
        IsOrdered-reverse (insert_all [] xs) (IsBackward-insert_all [] xs tt hx tt)
