-- ===== src/Gateway/Health/Cooldown.antt =====
-- How long a failure counts.
use llmadapter.Prelude.{
  ℕ, ◌-◌, ◌≡◌, refl, sym, Bool, true, false, Option, none, some, arith, ltb, ◌==◌, string_eq,
  if◌then◌else◌,
}
use llmadapter.Prelude.Assoc.{lookup-insert, lookup-remove}
use llmadapter.Prelude.Int64
use text.Mathlib.TextEquality.{eq_iff}
use llmadapter.Router.Types.{Route}
use llmadapter.Gateway.Health.Keys.{same_target, HasPlainNames, route_key-same_target}
use llmadapter.Gateway.Health.{HealthTracker, route_key, mark_failure, mark_success, unhealthy}

-- The verdict on a route alone.
abbrev pub is_unhealthy : Option HealthTracker → Route → ℕ → Bool
is_unhealthy h route now = (unhealthy h route now).0

-- After a failure at time `t`, a route with the same provider, API and model (the native one, or
-- the public one where it has none) is unhealthy exactly while less than the cooldown has passed
-- since `t`; the verdict on any other route is not changed. The cooldown is positive, and the names
-- of the providers and APIs have no slash.
pub mark_failure-is_unhealthy :
    (h : HealthTracker) (r r' : Route) (t now : ℕ)
    → Int64.is_pos h.cooldown ≡ true
    → HasPlainNames r
    → HasPlainNames r'
    → is_unhealthy (mark_failure t (some h) r) r' now
      ≡ (if same_target r r' then ltb (now - t) h.cooldown else is_unhealthy (some h) r' now)
unfolding mark_failure unhealthy
mark_failure-is_unhealthy h r r' t now pos plain plain' =
    rw (sym (route_key-same_target r r' plain plain'))
      (ground (arith, lookup-insert (route_key r) (route_key r') t h.failures))

-- After a success a route with the same key is healthy at every time; the verdict on a route
-- with another key is not changed.
mark_success-is_unhealthy :
    (h : HealthTracker) (r r' : Route) (now : ℕ)
    → is_unhealthy (mark_success (some h) r) r' now
      ≡ (if route_key r == route_key r' then false else is_unhealthy (some h) r' now)
unfolding mark_success unhealthy
mark_success-is_unhealthy h r r' now =
    ground (arith, lookup-remove (route_key r) (route_key r') h.failures)

-- Asking for a verdict forgets expired failures, and changes no verdict at the same time.
pub unhealthy-is_unhealthy :
    (h : Option HealthTracker) (r r' : Route) (now : ℕ)
    → is_unhealthy (unhealthy h r now).1 r' now ≡ is_unhealthy h r' now
unfolding unhealthy
unhealthy-is_unhealthy none r r' now = refl
unhealthy-is_unhealthy (some h) r r' now = ground (
  arith,
  lookup-remove (route_key r) (route_key r') h.failures,
  eq_iff (route_key r) (route_key r'),
)
