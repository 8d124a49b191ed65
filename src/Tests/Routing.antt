-- ===== src/Tests/Routing.antt =====
-- Configurations and requests that the router reads.
use llmadapter.Prelude.{
  ◌≡◌, ◌≢◌, ◌↔◌, ◌⊎◌, inl, inr, refl, Bool, true, false, none, List, [], ◌∷◌, String, All, map,
  arith, string_eq, nat_eq, ◌==◌, ◌&&◌,
}
use mathlib.Core.List.{Perm}
use llmadapter.Prelude.StableSort.{stable_sort}
use llmadapter.Unified.Errors.{GoError, err, ok}
use llmadapter.Router.Types.{Route, StaticRoute}
use llmadapter.Router.Capabilities.{capability_mismatch}
use llmadapter.Router.Capabilities.Needs.{Serves, capability_mismatch_iff}
use llmadapter.Router.Rank.{ranks_above}
use llmadapter.Router.Rank.Order.{IsModerate, Beats, ranks_above_iff}
use llmadapter.Router.Routes.{
  ResolvedStaticRoute, has_exact_route, route_from_static, routes, initial_candidate,
}
use llmadapter.Router.Gather.{serving, all_have_client}
use llmadapter.Router.Selection.{RouteServes, InOrder, routes-RouteServes, routes-InOrder}
use llmadapter.Router.Failure.{routes-eq-err_iff}
use llmadapter.Router.Shadow.{routes-hidden_dynamic}
use llmadapter.Tests.{
  hello, hello_chat, hello_any, streaming_only, static_route, renamed_route, dynamic_route,
}

abbrev two_routes : List StaticRoute
two_routes = static_route "light" 1 ∷ static_route "heavy" 2 ∷ []

abbrev chosen : List Route
chosen =
    route_from_static hello_any (initial_candidate hello_any (static_route "heavy" 2))
    ∷ route_from_static hello_any (initial_candidate hello_any (static_route "light" 1))
    ∷ []

light-IsModerate : IsModerate (static_route "light" 1)
light-IsModerate = record { weight = ground arith; priority = ground arith }

heavy-IsModerate : IsModerate (static_route "heavy" 2)
heavy-IsModerate = record { weight = ground arith; priority = ground arith }

routes-two : routes two_routes hello_any ≡ ok chosen
unfolding routes initial_candidate capability_mismatch stable_sort
routes-two = refl

capability_mismatch_iff_example :
    (capability_mismatch hello streaming_only none ≡ "") ↔ Serves hello streaming_only none
capability_mismatch_iff_example = capability_mismatch_iff hello streaming_only none

ranks_above_iff_example :
    (ranks_above hello_any (static_route "heavy" 2) (static_route "light" 1) ≡ true)
    ↔ Beats hello_any (static_route "heavy" 2) (static_route "light" 1)
ranks_above_iff_example =
    ranks_above_iff hello_any (static_route "heavy" 2) (static_route "light" 1) heavy-IsModerate
      light-IsModerate

routes-RouteServes_example : All (RouteServes hello_any) chosen
routes-RouteServes_example = routes-RouteServes two_routes hello_any routes-two

routes-InOrder_example :
    (cs : List ResolvedStaticRoute) × (chosen ≡ map (route_from_static hello_any) cs)
    × Perm cs (serving hello_any (has_exact_route two_routes hello_any) two_routes)
    × InOrder hello_any cs
routes-InOrder_example =
    routes-InOrder two_routes hello_any (light-IsModerate, (heavy-IsModerate, tt)) routes-two

-- The candidates of weight 1 and priority 0.
abbrev is_light : ResolvedStaticRoute → Bool
is_light c = c.route.weight == 1 && c.route.endpoint.priority == 0

light-not_Beats :
    (a b : ResolvedStaticRoute)
    → is_light a ≡ true
    → is_light b ≡ true
    → ¬ Beats hello_chat a.route b.route
light-not_Beats a b ha hb beats = ground (arith, ha, hb, beats)

routes-two_chat : routes two_routes hello_chat ≡ ok chosen
unfolding routes initial_candidate capability_mismatch stable_sort
routes-two_chat = refl

routes-eq-err_iff_example : ((e : GoError) × (routes two_routes hello_chat ≡ err e)) ↔ (
    (all_have_client hello_chat (has_exact_route two_routes hello_chat) two_routes ≡ false)
    ⊎ (serving hello_chat (has_exact_route two_routes hello_chat) two_routes ≡ []))
routes-eq-err_iff_example = routes-eq-err_iff two_routes hello_chat

best_is_not_empty : ◌≢◌ {A = String} "best" ""
best_is_not_empty e = cc e

best_is_not_gpt : ◌≢◌ {A = String} "best" "gpt"
best_is_not_gpt e = cc ((string_eq.same_iff "best" "gpt").1 e)

routes-hidden_dynamic_example :
    (e : GoError) × (routes (renamed_route ∷ dynamic_route ∷ []) hello_chat ≡ err e)
routes-hidden_dynamic_example =
    routes-hidden_dynamic (renamed_route ∷ dynamic_route ∷ []) hello_chat
      (inr (best_is_not_empty, best_is_not_gpt), (inl refl, tt)) refl
