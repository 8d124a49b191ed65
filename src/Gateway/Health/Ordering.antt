-- ===== src/Gateway/Health/Ordering.antt =====
-- `orderByHealth` puts the healthy routes first and loses none.
use mathlib.Core.List.{append-nil, append_assoc}
use llmadapter.Prelude.{
  ℕ, ◌≡◌, refl, ◌∙◌, ap, ap₂, Bool, true, false, not, Option, none, some, List, [], ◌∷◌, ◌++◌,
  arith, filter, length, ltb, ltb→lt, if◌then◌else◌, Bool-cases, inl, inr,
}
use llmadapter.Router.Types.{Route}
use llmadapter.Gateway.Health.{HealthTracker, unhealthy, split_by_health, order_by_health}
use llmadapter.Gateway.Health.Cooldown.{is_unhealthy, unhealthy-is_unhealthy}

filter_congr :
    {A : Type 0} (p q : A → Bool) (xs : List A) → ((a : A) → p a ≡ q a) → filter p xs ≡ filter q xs
filter_congr p q [] h = refl
filter_congr p q (x ∷ xs) h = ground (arith, h x, filter_congr p q xs h)

regroup :
    (b : Bool) (r : Route) (ordered sick good bad : List Route)
    → ((if b then ordered else ordered ++ r ∷ []) ++ good)
        ++ ((if b then sick ++ r ∷ [] else sick) ++ bad)
      ≡ (ordered ++ (if not b then r ∷ good else good)) ++ (sick ++ (if b then r ∷ bad else bad))
regroup true r ordered sick good bad = simp append_assoc
regroup false r ordered sick good bad = simp append_assoc

split_lem :
    (now : ℕ) (h : Option HealthTracker) (ordered sick routes : List Route)
    → (split_by_health now h ordered sick routes).0
      ≡ (ordered ++ filter (λ r. not (is_unhealthy h r now)) routes)
        ++ (sick ++ filter (λ r. is_unhealthy h r now) routes)
unfolding split_by_health
split_lem now h ordered sick [] = simp append-nil
split_lem now h ordered sick (r ∷ rs) =
    let h' = (unhealthy h r now).1 in
    let b = (unhealthy h r now).0 in
    let same = λ (x : Route). unhealthy-is_unhealthy h r x now in
    split_lem now h' (if b then ordered else ordered ++ r ∷ []) (if b then sick ++ r ∷ [] else sick)
      rs
    ∙ ap₂
        (λ good bad.
          ((if b then ordered else ordered ++ r ∷ []) ++ good)
          ++ ((if b then sick ++ r ∷ [] else sick) ++ bad))
        (filter_congr _ _ rs (λ x. ap not (same x))) (filter_congr _ _ rs same)
    ∙ regroup b r ordered sick _ _

healthy_when_nil :
    (now : ℕ) (routes : List Route)
    → routes
      ≡ filter (λ r. not (is_unhealthy none r now)) routes
        ++ filter (λ r. is_unhealthy none r now) routes
unfolding unhealthy
healthy_when_nil now [] = refl
healthy_when_nil now (r ∷ rs) = ap (◌∷◌ r) (healthy_when_nil now rs)

short :
    (p : Route → Bool) (routes : List Route)
    → ltb (length routes) 2 ≡ true
    → routes ≡ filter (λ r. not (p r)) routes ++ filter p routes
short p [] h = refl
short p (r ∷ []) h = ground arith
short p (r ∷ r' ∷ rs) h = absurd (omega (arith, ltb→lt (length (r ∷ r' ∷ rs)) 2 h))

-- The order of the attempts: the healthy routes, then the unhealthy ones, each group in the order
-- of the router, by the verdicts at the time of the call. So no route is lost or repeated.
pub order_by_health-filter :
    (now : ℕ) (h : Option HealthTracker) (routes : List Route)
    → (order_by_health now h routes).0
      ≡ filter (λ r. not (is_unhealthy h r now)) routes ++ filter (λ r. is_unhealthy h r now) routes
unfolding order_by_health
order_by_health-filter now none routes = healthy_when_nil now routes
order_by_health-filter now (some h) routes = elim (Bool-cases (ltb (length routes) 2)) [
  | inl few ↦ rw few (short (λ r. is_unhealthy (some h) r now) routes few)
  | inr many ↦ rw many (split_lem now (some h) [] [] routes)
]
