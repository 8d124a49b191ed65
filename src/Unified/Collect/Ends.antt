-- ===== src/Unified/Collect/Ends.antt =====
-- How `Collect` ends: the open blocks that are flushed in map order, and the early returns.
use llmadapter.Prelude.{
  ℕ, ◌≡◌, refl, sym, ◌∙◌, ap, Bool, false, none, some, List, [], ◌∷◌, ◌++◌, arith, All, nat_eq,
}
use mathlib.Core.List.{append-nil, append_assoc, flat_map}
use llmadapter.Prelude.Assoc.{keys}
use llmadapter.Unified.Errors.{GoError}
use llmadapter.Unified.Response.{Response}
use llmadapter.Unified.Event
use llmadapter.Unified.Event.{Event}
use llmadapter.Unified.Collect.{
  Collector, new_collector, turn, Ending, closed, cancelled, collect_from, collect, finish,
  flush_block, flush_each,
}
use llmadapter.Unified.Collect.Run.{settle, after, is_error, collect_from-append}

-- On an error event with an error value `Collect` returns that error, and the response as it
-- stood: open blocks are not flushed, and nothing later is read. No earlier event is an error.
collect-error :
    (order : List ℕ → List ℕ) (before later : List Event) (e : GoError) (recoverable : Bool)
    (ending : Ending)
    → All (λ ev. is_error ev ≡ false) before
    → collect order (before ++ (Event.error (some e) recoverable ∷ later)) ending
      ≡ record { resp = (after new_collector before).resp; err = some e }
unfolding collect
collect-error order before later e recoverable ending h =
    collect_from-append order new_collector before _ ending h

pub collect_from-finish :
    (order : List ℕ → List ℕ) (events : List Event) (ending : Ending)
    → All (λ ev. is_error ev ≡ false) events
    → collect_from order new_collector events ending
      ≡ finish order ending (after new_collector events)
unfolding collect_from
collect_from-finish order events ending h =
    ap (λ l. collect_from order new_collector l ending) (sym (append-nil events))
    ∙ collect_from-append order new_collector events [] ending h

module _ {A : Type 0} (log : Response → List A) (pick : Event → List A)
    (log-turn : (ev : Event) (s : Collector)
      → log (settle (turn ev s) s).resp ≡ log s.resp ++ pick ev)
    (log-flush : (i : ℕ) (s : Collector) → log (flush_block i s).resp ≡ log s.resp) where
  log-after :
      (s : Collector) (events : List Event)
      → log (after s events).resp ≡ log s.resp ++ flat_map pick events
  unfolding flat_map
  log-after s [] = sym (append-nil (log s.resp))
  log-after s (ev ∷ events) =
      log-after (settle (turn ev s) s) events
      ∙ ap (λ l. l ++ flat_map pick events) (log-turn ev s)
      ∙ append_assoc (log s.resp) (pick ev) (flat_map pick events)

  log-flush_each : (indexes : List ℕ) (s : Collector) → log (flush_each indexes s).resp ≡ log s.resp
  unfolding flush_each
  log-flush_each [] s = refl
  log-flush_each (i ∷ indexes) s = log-flush_each indexes (flush_block i s) ∙ log-flush i s

  log-finish :
      (order : List ℕ → List ℕ) (ending : Ending) (s : Collector)
      → log (finish order ending s).resp ≡ log s.resp
  unfolding finish
  log-finish order closed s = log-flush_each (order (keys s.kinds)) s
  log-finish order (cancelled e) s = refl

  log-collect :
      (order : List ℕ → List ℕ) (events : List Event) (ending : Ending)
      → All (λ ev. is_error ev ≡ false) events
      → log (collect order events ending).resp ≡ log new_collector.resp ++ flat_map pick events
  unfolding collect
  log-collect order events ending h =
      ap (λ c. log c.resp) (collect_from-finish order events ending h)
      ∙ log-finish order ending (after new_collector events)
      ∙ log-after new_collector events

abbrev citation_of : Event → List Event.CitationEvent
citation_of (Event.citation e) = e ∷ []
citation_of _ = []

abbrev warning_of : Event → List Event.WarningEvent
warning_of (Event.warning e) = e ∷ []
warning_of _ = []

abbrev quota_of : Event → List Event.QuotaUsageEvent
quota_of (Event.quota_usage e) = e ∷ []
quota_of _ = []

abbrev raw_of : Event → List Event.RawEvent
raw_of (Event.raw e) = e ∷ []
raw_of _ = []

abbrev Logged : {A : Type 0} → (Response → List A) → (Event → List A) → Type 0
Logged log pick =
    (ev : Event) (s : Collector) → log (settle (turn ev s) s).resp ≡ log s.resp ++ pick ev

citations-turn : Logged (λ r. r.citations) citation_of
unfolding turn
citations-turn (Event.error (some e) r) s = sym (append-nil s.resp.citations)
citations-turn (Event.error none r) s = sym (append-nil s.resp.citations)
citations-turn _ s = ground (arith, append-nil s.resp.citations)

warnings-turn : Logged (λ r. r.warnings) warning_of
unfolding turn
warnings-turn (Event.error (some e) r) s = sym (append-nil s.resp.warnings)
warnings-turn (Event.error none r) s = sym (append-nil s.resp.warnings)
warnings-turn _ s = ground (arith, append-nil s.resp.warnings)

quotas-turn : Logged (λ r. r.quotas) quota_of
unfolding turn
quotas-turn (Event.error (some e) r) s = sym (append-nil s.resp.quotas)
quotas-turn (Event.error none r) s = sym (append-nil s.resp.quotas)
quotas-turn _ s = ground (arith, append-nil s.resp.quotas)

raw-turn : Logged (λ r. r.raw) raw_of
unfolding turn
raw-turn (Event.error (some e) r) s = sym (append-nil s.resp.raw)
raw-turn (Event.error none r) s = sym (append-nil s.resp.raw)
raw-turn _ s = ground (arith, append-nil s.resp.raw)

-- The citations, warnings, quota reports and raw events of the response are those of the stream,
-- all of them and in the order of their arrival, also when the context is cancelled at the end of
-- what was received. No event is an error.
collect-logs :
    (order : List ℕ → List ℕ) (events : List Event) (ending : Ending)
    → All (λ ev. is_error ev ≡ false) events
    → let resp = (collect order events ending).resp in
      (resp.citations ≡ flat_map citation_of events)
      × (resp.warnings ≡ flat_map warning_of events)
      × (resp.quotas ≡ flat_map quota_of events)
      × (resp.raw ≡ flat_map raw_of events)
unfolding flush_block
collect-logs order events ending h = (
  log-collect (λ r. r.citations) citation_of citations-turn (λ i s. refl) order events ending h,
  log-collect (λ r. r.warnings) warning_of warnings-turn (λ i s. refl) order events ending h,
  log-collect (λ r. r.quotas) quota_of quotas-turn (λ i s. refl) order events ending h,
  log-collect (λ r. r.raw) raw_of raw-turn (λ i s. refl) order events ending h,
)
