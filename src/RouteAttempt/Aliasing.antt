-- ===== src/RouteAttempt/Aliasing.antt =====
-- What one attempt's request shares with the next one's.
use llmadapter.Prelude.{
  ℕ, suc, String, ◌≡◌, refl, sym, ◌∙◌, ap, false, Option, none, some, [], arith, ◌==◌, nat_eq,
  string_eq, if◌then◌else◌, nat_beq_iff,
}
use llmadapter.Prelude.Assoc.{Assoc, lookup, insert, lookup-insert}
use llmadapter.Unified.Content.{RawMessage}
use llmadapter.Unified.Request.{Request, Extensions}
use llmadapter.Router.Types.{Route, ResolvedModelMetadata}
use llmadapter.RouteAttempt.{
  ExtensionMap, map_at, Store, raw_value, request_for_route, ext_modeldb_resolved, has_no_ids,
  set_extension, set_resolved_model_metadata, attach,
}

map_at-insert :
    (a n : ℕ) (m : ExtensionMap) (maps : Assoc ℕ ExtensionMap)
    → map_at (record { next = n; maps = insert a m maps }) (some a) ≡ m
map_at-insert a n m maps = ground (arith, lookup-insert a a m maps, nat_beq_iff a a)

-- `Set` writes one key of the map, and reads of other keys go through.
raw_value-set_extension :
    (store : Store) (e : Extensions) (key j : String) (b : RawMessage)
    → let (e', store') = set_extension store e key (some b) in
      raw_value store' e' j ≡ (if key == j then some b else raw_value store e j)
unfolding set_extension raw_value
raw_value-set_extension store none key j b =
    ap (lookup j) (map_at-insert store.next (suc store.next) _ _)
    ∙ lookup-insert key j b _
    ∙ ap (λ m. if key == j then some b else lookup j m)
        (map_at-insert store.next (suc store.next) [] store.maps)
raw_value-set_extension store (some a) key j b =
    ap (lookup j) (map_at-insert a store.next _ _) ∙ lookup-insert key j b _

attach-some :
    (marshal : ResolvedModelMetadata → Option RawMessage) (store : Store) (e : Extensions)
    (meta : ResolvedModelMetadata) (b : RawMessage)
    → has_no_ids meta ≡ false
    → marshal meta ≡ some b
    → attach marshal store e (some meta) ≡ set_extension store e ext_modeldb_resolved (some b)
unfolding set_resolved_model_metadata
attach-some marshal store e meta b i mb = rw (set_resolved_model_metadata, i, mb)

raw_value_nil : (store : Store) (key : String) → raw_value store none key ≡ none
unfolding raw_value lookup
raw_value_nil store key = refl

set_extension_same :
    (store : Store) (e : Extensions) (a : ℕ) (key : String) (b : RawMessage)
    → e ≡ some a
    → (set_extension store e key (some b)).0 ≡ e
unfolding set_extension
set_extension_same store none a key b h = cc
set_extension_same store (some x) a key b h = refl

module _ (marshal : ResolvedModelMetadata → Option RawMessage) (store : Store) (req : Request)
    (r₁ r₂ : Route) where
  first_attempt :
      (meta : ResolvedModelMetadata) (b : RawMessage)
      → r₁.model_metadata ≡ some meta
      → has_no_ids meta ≡ false
      → marshal meta ≡ some b
      → attach marshal store req.extensions r₁.model_metadata
        ≡ set_extension store req.extensions ext_modeldb_resolved (some b)
  first_attempt meta b m i mb =
      ap (attach marshal store req.extensions) m
      ∙ attach-some marshal store req.extensions meta b i mb

  second_attempt :
      (s : Store)
      → r₂.model_metadata ≡ none
      → attach marshal s req.extensions r₂.model_metadata ≡ (req.extensions, s)
  second_attempt s n = ap (attach marshal s req.extensions) n

  -- A request with no extensions of its own: an attempt sends the native model and the metadata
  -- of its route, and the metadata of one attempt does not reach the next one.
  request_for_route_fresh :
      (meta : ResolvedModelMetadata) (b : RawMessage)
      → req.extensions ≡ none
      → r₁.model_metadata ≡ some meta
      → has_no_ids meta ≡ false
      → marshal meta ≡ some b
      → r₂.model_metadata ≡ none
      → let (sent₁, store₁) = request_for_route marshal store req r₁ in
        let (sent₂, store₂) = request_for_route marshal store₁ req r₂ in
        (raw_value store₁ sent₁.extensions ext_modeldb_resolved ≡ some b)
        × (raw_value store₂ sent₂.extensions ext_modeldb_resolved ≡ none)
        × (raw_value store₂ req.extensions ext_modeldb_resolved ≡ none)
  unfolding request_for_route
  request_for_route_fresh meta b e m i mb n =
      let first = first_attempt meta b m i mb in
      let written =
        raw_value-set_extension store req.extensions ext_modeldb_resolved ext_modeldb_resolved b in
      let second = second_attempt (attach marshal store req.extensions r₁.model_metadata).1 n in
      let unset = λ (s : Store).
        ap (λ x. raw_value s x ext_modeldb_resolved) e ∙ raw_value_nil s ext_modeldb_resolved in
      (
        ap (λ p. raw_value p.1 p.0 ext_modeldb_resolved) first ∙ written,
        ap (λ p. raw_value p.1 p.0 ext_modeldb_resolved) second ∙ unset _,
        ap (λ p. raw_value p.1 req.extensions ext_modeldb_resolved) second ∙ unset _,
      )

  -- A request that has an extension map: the metadata of the first attempt's route is written
  -- into the caller's own map, and is sent with the second attempt too, whose route has none.
  pub request_for_route_leak :
      (a : ℕ) (meta : ResolvedModelMetadata) (b : RawMessage)
      → req.extensions ≡ some a
      → r₁.model_metadata ≡ some meta
      → has_no_ids meta ≡ false
      → marshal meta ≡ some b
      → r₂.model_metadata ≡ none
      → let (sent₁, store₁) = request_for_route marshal store req r₁ in
        let (sent₂, store₂) = request_for_route marshal store₁ req r₂ in
        (raw_value store₁ sent₁.extensions ext_modeldb_resolved ≡ some b)
        × (raw_value store₂ sent₂.extensions ext_modeldb_resolved ≡ some b)
        × (raw_value store₂ req.extensions ext_modeldb_resolved ≡ some b)
  unfolding request_for_route
  request_for_route_leak a meta b e m i mb n =
      let first = first_attempt meta b m i mb in
      let written =
        raw_value-set_extension store req.extensions ext_modeldb_resolved ext_modeldb_resolved b in
      let second = second_attempt (attach marshal store req.extensions r₁.model_metadata).1 n in
      let shared = set_extension_same store req.extensions a ext_modeldb_resolved b e in
      let sent = ap (λ p. raw_value p.1 p.0 ext_modeldb_resolved) first ∙ written in
      let kept : raw_value (attach marshal store req.extensions r₁.model_metadata).1 req.extensions
            ext_modeldb_resolved
          ≡ some b =
        ap (λ p. raw_value p.1 req.extensions ext_modeldb_resolved) first
        ∙ ap
            (λ x.
              raw_value (set_extension store req.extensions ext_modeldb_resolved (some b)).1 x
                ext_modeldb_resolved)
            (sym shared)
        ∙ written in
      (
        sent,
        ap (λ p. raw_value p.1 p.0 ext_modeldb_resolved) second ∙ kept,
        ap (λ p. raw_value p.1 req.extensions ext_modeldb_resolved) second ∙ kept,
      )
