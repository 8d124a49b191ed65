-- ===== src/Gateway/Health.antt =====
-- gateway/health.go and `orderByHealth` of gateway/http.go. A tracker may be nil (`none`). Each
-- method holds the mutex throughout, so it is one step on the state. Times are nanoseconds on the
-- monotonic clock. The cooldown is a `time.Duration`: it is compared only where it is positive,
-- where `now.Sub(failedAt)`, negative or not, is at least the cooldown exactly if the truncated
-- difference is. The nil map of failures reads and deletes as the empty one.
pub mod Keys
pub mod Cooldown
pub mod Ordering
use llmadapter.Prelude.{
  ℕ, ◌-◌, String, ◌<>◌, Bool, true, false, not, Option, none, some, List, [], ◌∷◌, ◌++◌, length,
  leb, ltb, ◌==◌, string_eq, if◌then◌else◌,
}
use llmadapter.Prelude.Assoc.{Assoc, lookup, insert, remove}
use llmadapter.Prelude.Int64
use llmadapter.Router.Types.{Route}

pub record HealthTracker : Type 0 where
  pub cooldown : ℕ
  pub failures : Assoc String ℕ

unfoldable new_health_tracker : ℕ → HealthTracker
new_health_tracker cooldown = record { cooldown = cooldown; failures = [] }

unfoldable pub route_key : Route → String
route_key route =
    let model = if route.native_model == "" then route.public_model else route.native_model in
    route.provider_name <> ("/" <> (route.target_api <> ("/" <> model)))

-- `now` is the reading of `time.Now()`.
unfoldable pub mark_failure : ℕ → Option HealthTracker → Route → Option HealthTracker
mark_failure now none route = none
mark_failure now (some h) route =
    if not (Int64.is_pos h.cooldown)
    then some h
    else some (record h { failures = insert (route_key route) now h.failures })

unfoldable pub mark_success : Option HealthTracker → Route → Option HealthTracker
mark_success none route = none
mark_success (some h) route = some (record h { failures = remove (route_key route) h.failures })

abbrev recent_failure : HealthTracker → String → ℕ → Option ℕ → Bool × Option HealthTracker
recent_failure h key now none = (false, some h)
recent_failure h key now (some failed_at) =
    if leb h.cooldown (now - failed_at)
    then (false, some (record h { failures = remove key h.failures }))
    else (true, some h)

unfoldable pub unhealthy : Option HealthTracker → Route → ℕ → Bool × Option HealthTracker
unhealthy none route now = (false, none)
unhealthy (some h) route now =
    if not (Int64.is_pos h.cooldown)
    then (false, some h)
    else recent_failure h (route_key route) now (lookup (route_key route) h.failures)

-- The loop of `orderByHealth`.
unfoldable split_by_health :
    ℕ
    → Option HealthTracker
    → List Route
    → List Route
    → List Route
    → List Route × Option HealthTracker
split_by_health now h ordered sick [] = (ordered ++ sick, h)
split_by_health now h ordered sick (route ∷ routes) =
    let (bad, h') = unhealthy h route now in
    split_by_health now h' (if bad then ordered else ordered ++ route ∷ [])
      (if bad then sick ++ route ∷ [] else sick) routes

-- The clock is read only behind the early return; what it would show is passed in.
unfoldable pub order_by_health :
    ℕ → Option HealthTracker → List Route → List Route × Option HealthTracker
unfolding unhealthy split_by_health
order_by_health now none routes = (routes, none)
order_by_health now (some h) routes =
    if ltb (length routes) 2 then (routes, some h) else split_by_health now (some h) [] [] routes
