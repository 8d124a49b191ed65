-- ===== src/Router/Shadow.antt =====
-- A static route hides the dynamic ones by its native model name, by which it cannot be reached.
use llmadapter.Prelude.{
  ◌≡◌, ◌≢◌, refl, true, ◌&&◌, List, [], ◌∷◌, arith, All, any, ◌==◌, string_eq, inr, ◌⊎◌,
}
use text.Mathlib.TextEquality.{eq_iff}
use llmadapter.Unified.Errors.{err, GoError}
use llmadapter.Router.Types.{AdaptRequest, StaticRoute}
use llmadapter.Router.Routes.{passed_over, consider, source_matches, has_exact_route, routes}
use llmadapter.Router.Gather.{serving}
use llmadapter.Router.Failure.{routes-eq-err_iff}

-- The route is dynamic, or declared for another model than the request's.
abbrev DynamicOrOther : AdaptRequest → StaticRoute → Type 0
DynamicOrOther req r = (r.dynamic_models ≡ true) ⊎ ((r.model ≢ "") × (r.model ≢ req.unified.model))

consider-passed_over :
    (req : AdaptRequest) (r : StaticRoute)
    → DynamicOrOther req r
    → consider req true r ≡ passed_over
unfolding consider
consider-passed_over req r h = ground (arith, eq_iff r.model "", eq_iff r.model req.unified.model)

serving-nil :
    (req : AdaptRequest) (rs : List StaticRoute)
    → All (DynamicOrOther req) rs
    → serving req true rs ≡ []
serving-nil req [] h = refl
serving-nil req (r ∷ rs) h = rw (consider-passed_over req r h.0) (serving-nil req rs h.1)

has_exact_route-native :
    (req : AdaptRequest) (rs : List StaticRoute)
    → any (λ r. source_matches req r && r.native_model == req.unified.model) rs ≡ true
    → has_exact_route rs req ≡ true
unfolding has_exact_route
has_exact_route-native req [] h = h
has_exact_route-native req (r ∷ rs) h = ground (arith, has_exact_route-native req rs)

-- If every route is dynamic or declared for another model name, but one that accepts the
-- request's source API has the requested name as its native model, `Routes` fails: that route
-- hides every dynamic one and is not reached itself.
pub routes-hidden_dynamic :
    (router : List StaticRoute) (req : AdaptRequest)
    → All (DynamicOrOther req) router
    → any (λ r. source_matches req r && r.native_model == req.unified.model) router ≡ true
    → (e : GoError) × (routes router req ≡ err e)
routes-hidden_dynamic router req h native =
    (routes-eq-err_iff router req).1
      (inr (rw (has_exact_route-native req router native) (serving-nil req router h)))
