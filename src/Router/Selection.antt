-- ===== src/Router/Selection.antt =====
-- What `Routes` and `Route` return.
use mathlib.Core.List.{Perm}
use llmadapter.Prelude.{
  ◌≡◌, refl, sym, ◌∙◌, ap, subst, Bool, true, false, List, [], ◌∷◌, map, arith, All, All-append,
  filter, is_nil, if◌then◌else◌, Bool-cases, inl, inr, is_some,
}
use llmadapter.Prelude.StableSort.{
  stable_sort, stable_sort-perm, All-stable_sort, IsOrdered, stable_sort-IsOrdered,
  filter-stable_sort,
}
use llmadapter.Unified.Errors.{Result, ok, err, GoError, ◌>>=◌}
use llmadapter.Router.Types.{AdaptRequest, StaticRoute, Route}
use llmadapter.Router.Capabilities.Needs.{Serves}
use llmadapter.Router.Rank.{ranks_above}
use llmadapter.Router.Rank.Order.{
  IsModerate, Beats, ranks_above_iff, ranks_above_asym, ranks_above_trans,
}
use llmadapter.Router.Routes.{
  ResolvedStaticRoute, Verdict, passed_over, no_client, skipped, candidate, consider, Gathered,
  no_client_error, ranked, less, has_exact_route, route_from_static, routes, nothing_gathered,
}
use llmadapter.Router.Gather.{
  serving, notes, all_have_client, candidates_of, gather_lem, IsCandidate, consider-IsCandidate,
}

module _ (router : List StaticRoute) (req : AdaptRequest) where
  abbrev pub exact : Bool
  exact = has_exact_route router req

  abbrev pub candidates : List ResolvedStaticRoute
  candidates = serving req exact router

  abbrev pub all_gathered : Gathered
  all_gathered = record { skipped = notes req exact router; candidates = candidates }

  bind_if :
      (b : Bool)
      → ((if b then ok all_gathered else err (no_client_error req)) >>= ranked req)
        ≡ (if b then ranked req all_gathered else err (no_client_error req))
  bind_if true = refl
  bind_if false = refl

  pub routes_lem : routes router req ≡ (
      if all_have_client req exact router
      then ranked req all_gathered
      else err (no_client_error req))
  unfolding routes
  routes_lem =
      ap (λ m. m >>= ranked req) (gather_lem req exact nothing_gathered router)
      ∙ bind_if (all_have_client req exact router)

  ranked-ok :
      (g : Gathered) {rs : List Route}
      → ranked req g ≡ ok rs
      → (rs ≡ map (route_from_static req) (stable_sort (less req) g.candidates))
        × (is_nil g.candidates ≡ false)
  unfolding ranked
  ranked-ok g h = ground arith

of_verdict :
    (P : ResolvedStaticRoute → Type 0) (v : Verdict)
    → ((c : ResolvedStaticRoute) → v ≡ candidate c → P c)
    → All P (candidates_of v)
of_verdict P passed_over k = tt
of_verdict P no_client k = tt
of_verdict P (skipped note) k = tt
of_verdict P (candidate c) k = (k c refl, tt)

serving-All :
    (P : ResolvedStaticRoute → Type 0) (Q : StaticRoute → Type 0) (req : AdaptRequest) (ex : Bool)
    (rs : List StaticRoute)
    → All Q rs
    → ((r : StaticRoute) (c : ResolvedStaticRoute) → Q r → IsCandidate req ex r c → P c)
    → All P (serving req ex rs)
serving-All P Q req ex [] q h = tt
serving-All P Q req ex (r ∷ rs) q h =
    All-append P (candidates_of (consider req ex r)) (serving req ex rs)
      (of_verdict P (consider req ex r) (λ c e. h r c q.0 (consider-IsCandidate req ex r c e)))
      (serving-All P Q req ex rs q.1 h)

All-unit : (rs : List StaticRoute) → All (λ _. Unit {0}) rs
All-unit [] = tt
All-unit (r ∷ rs) = (tt, All-unit rs)

-- The route can serve the request and has a client to send it to.
pub record RouteServes (req : AdaptRequest) (r : Route) : Type 0 where
  pub serves : Serves req.unified r.capabilities r.model_metadata
  pub has_client : is_some r.client ≡ true
  pub public_model : r.public_model ≡ req.unified.model

if-ok :
    {A : Type 0} (b : Bool) (m : Result A) (e : GoError) {a : A}
    → (if b then m else err e) ≡ ok a
    → m ≡ ok a
if-ok true m e h = h
if-ok false m e h = cc

module _ (router : List StaticRoute) (req : AdaptRequest) {rs : List Route}
    (h : routes router req ≡ ok rs) where
  pub routes-ok :
      (rs ≡ map (route_from_static req) (stable_sort (less req) (candidates router req)))
      × (is_nil (candidates router req) ≡ false)
  routes-ok = ranked-ok router req (all_gathered router req) (
      if-ok (all_have_client req (exact router req) router) _ (no_client_error req)
        (sym (routes_lem router req) ∙ h))

All-map :
    {A B : Type 0} (P : B → Type 0) (f : A → B) (xs : List A)
    → All (λ x. P (f x)) xs
    → All P (map f xs)
All-map P f [] h = tt
All-map P f (x ∷ xs) h = (h.0, All-map P f xs h.1)

candidate-RouteServes :
    (req : AdaptRequest) (ex : Bool) (r : StaticRoute) (c : ResolvedStaticRoute)
    → IsCandidate req ex r c
    → RouteServes req (route_from_static req c)
unfolding route_from_static
candidate-RouteServes req ex r c k = record {
  serves = k.serves;
  has_client = ap (λ x. is_some x.endpoint.client) k.same_route ∙ k.has_client;
  public_model = refl;
}

-- Every route that `Routes` returns can serve the request: its endpoint has each capability that
-- the request needs, under the capabilities and model metadata that the route reports, and a
-- client; and it names the model that was asked for.
pub routes-RouteServes :
    (router : List StaticRoute) (req : AdaptRequest) {rs : List Route}
    → routes router req ≡ ok rs
    → All (RouteServes req) rs
routes-RouteServes router req h = rw ((routes-ok router req h).0) (
    All-map (RouteServes req) (route_from_static req)
      (stable_sort (less req) (candidates router req))
      (All-stable_sort (less req) (λ c. RouteServes req (route_from_static req c))
        (candidates router req)
        (serving-All (λ c. RouteServes req (route_from_static req c)) (λ _. Unit {0}) req
          (exact router req) router (All-unit router)
          (λ r c q. candidate-RouteServes req (exact router req) r c))))

-- A list of candidates in which none beats one that stands before it.
abbrev pub InOrder : AdaptRequest → List ResolvedStaticRoute → Type 0
InOrder req [] = Unit
InOrder req (c ∷ cs) = All (λ d. ¬ Beats req d.route c.route) cs × InOrder req cs

abbrev Moderate : ResolvedStaticRoute → Type 0
Moderate c = IsModerate c.route

not_above :
    (req : AdaptRequest) (c : ResolvedStaticRoute) (ds : List ResolvedStaticRoute)
    → Moderate c
    → All Moderate ds
    → All (λ d. less req d c ≡ false) ds
    → All (λ d. ¬ Beats req d.route c.route) ds
unfolding less
not_above req c [] hc hd h = tt
not_above req c (d ∷ ds) hc hd h = (
  λ b. cc (h.0, (ranks_above_iff req d.route c.route hd.0 hc).1 b),
  not_above req c ds hc hd.1 h.1,
)

IsOrdered-InOrder :
    (req : AdaptRequest) (cs : List ResolvedStaticRoute)
    → All Moderate cs
    → IsOrdered (less req) cs
    → InOrder req cs
IsOrdered-InOrder req [] hm h = tt
IsOrdered-InOrder req (c ∷ cs) hm h =
    (not_above req c cs hm.0 hm.1 h.0, IsOrdered-InOrder req cs hm.1 h.1)

module _ (req : AdaptRequest) where
  less_asym :
      (a b : ResolvedStaticRoute)
      → Moderate a
      → Moderate b
      → less req a b ≡ true
      → less req b a ≡ false
  unfolding less
  less_asym a b = ranks_above_asym req a.route b.route

  less_trans :
      (a b c : ResolvedStaticRoute)
      → Moderate a
      → Moderate b
      → Moderate c
      → less req a b ≡ false
      → less req b c ≡ false
      → less req a c ≡ false
  unfolding less
  less_trans a b c = ranks_above_trans req a.route b.route c.route

  less-of-Beats :
      (a b : ResolvedStaticRoute)
      → Moderate a
      → Moderate b
      → ¬ Beats req a.route b.route
      → less req a b ≡ false
  unfolding less
  less-of-Beats a b ha hb h = elim (Bool-cases (ranks_above req a.route b.route)) [
    | inl e ↦ absurd (h ((ranks_above_iff req a.route b.route ha hb).0 e))
    | inr e ↦ e
  ]

candidates-Moderate :
    (router : List StaticRoute) (req : AdaptRequest)
    → All IsModerate router
    → All Moderate (candidates router req)
candidates-Moderate router req hm =
    serving-All Moderate IsModerate req (exact router req) router hm
      (λ r c q k. subst IsModerate (sym k.same_route) q)

-- The routes of a successful `Routes` are the candidates among the configured routes, each
-- exactly once, sorted: none beats one before it (by weight, then by the preferred source API
-- where the request names none, then by priority). Weights and priorities lie in
-- [-2 ^ 62, 2 ^ 62).
pub routes-InOrder :
    (router : List StaticRoute) (req : AdaptRequest) {rs : List Route}
    → All IsModerate router
    → routes router req ≡ ok rs
    → (cs : List ResolvedStaticRoute) × (rs ≡ map (route_from_static req) cs)
      × Perm cs (serving req (has_exact_route router req) router)
      × InOrder req cs
routes-InOrder router req hm h =
    let found = candidates router req in
    let moderate = candidates-Moderate router req hm in
    (
      stable_sort (less req) found,
      (routes-ok router req h).0,
      stable_sort-perm (less req) found,
      IsOrdered-InOrder req (stable_sort (less req) found)
          (All-stable_sort (less req) Moderate found moderate)
          (stable_sort-IsOrdered (less req) Moderate (less_asym req) (less_trans req) found
            moderate),
    )

-- Candidates that satisfy `p`, when of these none beats another, come out of a successful
-- `Routes` in the order of the configuration. Weights and priorities lie in [-2 ^ 62, 2 ^ 62).
routes-stable :
    (router : List StaticRoute) (req : AdaptRequest) {rs : List Route}
    (p : ResolvedStaticRoute → Bool)
    → All IsModerate router
    → routes router req ≡ ok rs
    → ((a b : ResolvedStaticRoute) → p a ≡ true → p b ≡ true → ¬ Beats req a.route b.route)
    → (cs : List ResolvedStaticRoute) × (rs ≡ map (route_from_static req) cs)
      × (filter p cs ≡ filter p (serving req (has_exact_route router req) router))
routes-stable router req p hm h flat =
    let found = candidates router req in
    (
      stable_sort (less req) found,
      (routes-ok router req h).0,
      filter-stable_sort (less req) Moderate p
          (λ x y hx hy px py. less-of-Beats req x y hx hy (flat x y px py)) found
          (candidates-Moderate router req hm),
    )
