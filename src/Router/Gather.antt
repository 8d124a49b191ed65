-- ===== src/Router/Gather.antt =====
-- The loop of `Routes` gathers the candidates of the routes in their order.
use llmadapter.Prelude.{
  String, ◌≡◌, refl, sym, ◌∙◌, ap, subst, Bool, true, false, not, ◌&&◌, Option, none, some, List,
  [], ◌∷◌, ◌++◌, arith, all, ◌==◌, string_eq, if◌then◌else◌, Bool-cases, inl, inr, ◌⊎◌, is_some,
}
use mathlib.Core.List.{append-nil, append_assoc}
use text.Mathlib.TextEquality.{eq_iff}
use llmadapter.Unified.Errors.{Result, ok, err}
use llmadapter.Router.Types.{AdaptRequest, Client, StaticRoute, ModelResolver, ModelResolution}
use llmadapter.Router.Capabilities.{capability_mismatch}
use llmadapter.Router.Capabilities.Needs.{Serves, capability_mismatch_iff}
use llmadapter.Router.Routes.{
  ResolvedStaticRoute, Verdict, passed_over, no_client, skipped, candidate, consider,
  check_capabilities, resolve_model, initial_candidate, Gathered, gather, no_client_error,
  source_matches, apply_resolution, client_verdict,
}

abbrev pub candidates_of : Verdict → List ResolvedStaticRoute
candidates_of (candidate c) = c ∷ []
candidates_of _ = []

abbrev notes_of : Verdict → List String
notes_of (skipped note) = note ∷ []
notes_of _ = []

abbrev has_client : Verdict → Bool
has_client no_client = false
has_client _ = true

-- The candidates among the routes, in the order of the configuration.
abbrev pub serving : AdaptRequest → Bool → List StaticRoute → List ResolvedStaticRoute
serving req exact [] = []
serving req exact (r ∷ rs) = candidates_of (consider req exact r) ++ serving req exact rs

abbrev pub notes : AdaptRequest → Bool → List StaticRoute → List String
notes req exact [] = []
notes req exact (r ∷ rs) = notes_of (consider req exact r) ++ notes req exact rs

-- No route that the request reaches lacks a client.
abbrev pub all_have_client : AdaptRequest → Bool → List StaticRoute → Bool
all_have_client req exact routes = all (λ r. has_client (consider req exact r)) routes

abbrev gathered_of : AdaptRequest → Bool → Gathered → List StaticRoute → Result Gathered
gathered_of req exact g routes =
    if all_have_client req exact routes
    then ok (record {
      skipped = g.skipped ++ notes req exact routes;
      candidates = g.candidates ++ serving req exact routes;
    })
    else err (no_client_error req)

gather-cons :
    (req : AdaptRequest) (exact : Bool) (g : Gathered) (r : StaticRoute) (rs : List StaticRoute)
    (v : Verdict)
    → consider req exact r ≡ v
    → ((g' : Gathered) → gather req exact g' rs ≡ gathered_of req exact g' rs)
    → gather req exact g (r ∷ rs) ≡ gathered_of req exact g (r ∷ rs)
unfolding gather
gather-cons req exact g r rs passed_over e ih = rw (e, gather) (ih g)
gather-cons req exact g r rs no_client e ih = rw (e, gather)
gather-cons req exact g r rs (skipped note) e ih =
    rw (e, gather) (ih (record g { skipped = g.skipped ++ note ∷ [] }) ∙ simp append_assoc)
gather-cons req exact g r rs (candidate c) e ih =
    rw (e, gather) (ih (record g { candidates = g.candidates ++ c ∷ [] }) ∙ simp append_assoc)

pub gather_lem :
    (req : AdaptRequest) (exact : Bool) (g : Gathered) (routes : List StaticRoute)
    → gather req exact g routes ≡ (
        if all_have_client req exact routes
        then ok (record {
          skipped = g.skipped ++ notes req exact routes;
          candidates = g.candidates ++ serving req exact routes;
        })
        else err (no_client_error req))
unfolding gather
gather_lem req exact g [] = simp append-nil
gather_lem req exact g (r ∷ rs) =
    gather-cons req exact g r rs (consider req exact r) refl (λ g'. gather_lem req exact g' rs)

-- What a candidate is: a route that the request reaches, with what the check found it to serve.
pub record IsCandidate (req : AdaptRequest) (exact : Bool) (r : StaticRoute)
    (c : ResolvedStaticRoute) : Type 0 where
  pub same_route : c.route ≡ r
  pub has_client : is_some r.endpoint.client ≡ true
  pub source : source_matches req r ≡ true
  pub model : (r.model ≡ "") ⊎ (r.model ≡ req.unified.model)
  pub not_shadowed : (exact && r.dynamic_models) ≡ false
  pub serves : Serves req.unified c.capabilities c.model_metadata

check_capabilities-candidate :
    (req : AdaptRequest) (c c' : ResolvedStaticRoute)
    → check_capabilities req c ≡ candidate c'
    → (c ≡ c') × Serves req.unified c'.capabilities c'.model_metadata
unfolding check_capabilities
check_capabilities-candidate req c c' h =
    elim (Bool-cases (capability_mismatch req.unified c.capabilities c.model_metadata == "")) [
      | inl e ↦
          let same : c ≡ c' = ground arith in
          (
            same,
            subst (λ (x : ResolvedStaticRoute). Serves req.unified x.capabilities x.model_metadata)
                same
                ((capability_mismatch_iff req.unified c.capabilities c.model_metadata).0 (
                  (eq_iff (capability_mismatch req.unified c.capabilities c.model_metadata) "").0
                    e)),
          )
      | inr e ↦ ground arith
    ]

resolved_by :
    (req : AdaptRequest) (c c' : ResolvedStaticRoute) (resolver : ModelResolver)
    (o : Option ModelResolution)
    → resolver req c.route.endpoint ≡ o
    → resolve_model req c (some resolver) ≡ candidate c'
    → (c'.route ≡ c.route) × Serves req.unified c'.capabilities c'.model_metadata
unfolding resolve_model
resolved_by req c c' resolver none e h = cc (rw (e, resolve_model) at h)
resolved_by req c c' resolver (some res) e h =
    let (e', s) =
      check_capabilities-candidate req (apply_resolution c res) c' (rw (e, resolve_model) at h) in
    (ap (λ x. x.route) (sym e'), s)

resolve_model-candidate :
    (req : AdaptRequest) (c c' : ResolvedStaticRoute) (o : Option ModelResolver)
    → resolve_model req c o ≡ candidate c'
    → (c'.route ≡ c.route) × Serves req.unified c'.capabilities c'.model_metadata
unfolding resolve_model
resolve_model-candidate req c c' none h =
    let (e, s) = check_capabilities-candidate req c c' h in (ap (λ x. x.route) (sym e), s)
resolve_model-candidate req c c' (some resolver) h =
    resolved_by req c c' resolver (resolver req c.route.endpoint) refl h

ladder-candidate :
    (a b m : Bool) (v : Verdict) {c : ResolvedStaticRoute}
    → (if a then passed_over else if not b then passed_over else if m then passed_over else v)
      ≡ candidate c
    → (a ≡ false) × (b ≡ true) × (m ≡ false) × (v ≡ candidate c)
ladder-candidate a b m v h = ground arith

client_verdict-candidate :
    (o : Option Client) (v : Verdict) {c : ResolvedStaticRoute}
    → client_verdict o v ≡ candidate c
    → (is_some o ≡ true) × (v ≡ candidate c)
client_verdict-candidate none v h = cc
client_verdict-candidate (some client) v h = (refl, h)

model_reached :
    (m want : String) → (not (m == "") && not (m == want)) ≡ false → (m ≡ "") ⊎ (m ≡ want)
model_reached m want h = ground (arith, eq_iff m "", eq_iff m want)

pub consider-IsCandidate :
    (req : AdaptRequest) (exact : Bool) (r : StaticRoute) (c : ResolvedStaticRoute)
    → consider req exact r ≡ candidate c
    → IsCandidate req exact r c
unfolding consider
consider-IsCandidate req exact r c h =
    let (shadow, source, model, reached) =
      ladder-candidate (exact && r.dynamic_models) (source_matches req r)
        (not (r.model == "") && not (r.model == req.unified.model)) _ h in
    let (client, resolved) =
      client_verdict-candidate r.endpoint.client
        (resolve_model req (initial_candidate req r) r.model_resolver) reached in
    let (e, s) =
      resolve_model-candidate req (initial_candidate req r) c r.model_resolver resolved in
    record {
      same_route = e;
      has_client = client;
      source = source;
      model = model_reached r.model req.unified.model model;
      not_shadowed = shadow;
      serves = s;
    }
