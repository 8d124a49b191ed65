-- ===== src/Router/Failure.antt =====
-- When `Routes` and `Route` fail.
use mathlib.Core.List.{Perm}
use llmadapter.Prelude.{
  ◌≡◌, ◌≢◌, ◌⊎◌, ◌↔◌, refl, sym, ap, subst, false, List, [], ◌∷◌, map, arith, is_nil, Bool-cases,
  inl, inr,
}
use llmadapter.Prelude.StableSort.{stable_sort, stable_sort-perm}
use llmadapter.Unified.Errors.{Result, ok, err, GoError}
use llmadapter.Router.Types.{AdaptRequest, StaticRoute, Route}
use llmadapter.Router.Routes.{
  Gathered, no_client_error, no_route_error, ranked, less, has_exact_route, route_from_static,
  routes, route, index_out_of_range, first_of_routes,
}
use llmadapter.Router.Gather.{serving, notes, all_have_client}
use mathlib.Core.List.Perm
use mathlib.Core.Bool.{false≢true}
use llmadapter.Router.Selection.{exact, candidates, all_gathered, routes_lem, routes-ok}

map-eq-nil : {A B : Type 0} (f : A → B) (xs : List A) → map f xs ≡ [] → xs ≡ []
map-eq-nil f [] h = refl
map-eq-nil f (x ∷ xs) h = cc

routes-ne-ok_nil : (router : List StaticRoute) (req : AdaptRequest) → routes router req ≢ ok []
routes-ne-ok_nil router req h =
    let (shape, some_found) = routes-ok router req h in
    let found = candidates router req in
    let sorted = map-eq-nil (route_from_static req) (stable_sort (less req) found) (sym shape) in
    let none_found : found ≡ [] =
      sym (Perm.nil-eq (subst (λ l. Perm l found) sorted (stable_sort-perm (less req) found))) in
    cc (some_found, ap is_nil none_found)

first_of_routes-index_out_of_range :
    (m : Result (List Route)) → first_of_routes m ≡ index_out_of_range → m ≡ ok []
first_of_routes-index_out_of_range (ok []) h = refl
first_of_routes-index_out_of_range (ok (r ∷ rs)) h = cc
first_of_routes-index_out_of_range (err e) h = cc

-- `Route` never indexes an empty list: whatever the configuration and the request, it returns a
-- route or an error.
route-ne-index_out_of_range :
    (router : List StaticRoute) (req : AdaptRequest) → route router req ≢ index_out_of_range
unfolding route
route-ne-index_out_of_range router req h =
    routes-ne-ok_nil router req (first_of_routes-index_out_of_range (routes router req) h)

ranked-err :
    (req : AdaptRequest) (g : Gathered) {e : GoError} → ranked req g ≡ err e → g.candidates ≡ []
unfolding ranked
ranked-err req g h = ground arith

ranked_nil :
    (req : AdaptRequest) (g : Gathered)
    → g.candidates ≡ []
    → ranked req g ≡ err (no_route_error req g.skipped)
unfolding ranked
ranked_nil req g h = rw (h, ranked)

-- `Routes` fails exactly if the request reaches a route with no client, or no configured route
-- is a candidate.
pub routes-eq-err_iff :
    (router : List StaticRoute) (req : AdaptRequest)
    → ((e : GoError) × (routes router req ≡ err e)) ↔ (
        (all_have_client req (has_exact_route router req) router ≡ false)
        ⊎ (serving req (has_exact_route router req) router ≡ []))
routes-eq-err_iff router req =
    rw (routes_lem router req) (elim (Bool-cases (all_have_client req (exact router req) router)) [
      | inl e ↦ rw e (
        λ (x, h). inr (ranked-err req (all_gathered router req) h),
        λ h. elim h [
          | inl x ↦ absurd (false≢true (sym x))
          | inr x ↦ (
            no_route_error req (notes req (exact router req) router),
            ranked_nil req (all_gathered router req) x,
          )
        ],
      )
      | inr e ↦ rw e (λ h. inl refl, λ h. (no_client_error req, refl))
    ])
