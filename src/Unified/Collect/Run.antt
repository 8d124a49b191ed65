-- ===== src/Unified/Collect/Run.antt =====
-- Runs of `Collect`: the state after a stretch of events, and that content is only appended to.
use llmadapter.Prelude.{
  ℕ, ◌≡◌, refl, sym, ◌∙◌, ap, Bool, true, false, none, some, List, [], ◌∷◌, ◌++◌, arith, All,
  nat_eq, string_eq,
}
use llmadapter.Prelude.Assoc.{lookup, keys}
use llmadapter.Prelude.{Bool-cases, inl, inr}
use mathlib.Core.List.{append-nil, append_assoc}
use llmadapter.Unified.Content.{ContentPart}
use llmadapter.Unified.Event.{Event}
use llmadapter.Unified.Collect.{
  Collector, Turn, go_on, stop, turn, Ending, closed, cancelled, collect_from, flushed_part,
  flush_block, text_of, flush_each,
}

abbrev pub settle : Turn → Collector → Collector
settle (go_on s') s = s'
settle (stop resp e) s = s

-- The state after events that `Collect` does not stop at.
abbrev pub after : Collector → List Event → Collector
after s [] = s
after s (ev ∷ events) = after (settle (turn ev s) s) events

abbrev pub is_error : Event → Bool
is_error (Event.error (some e) r) = true
is_error _ = false

turn-go_on :
    (ev : Event) (s : Collector) → is_error ev ≡ false → turn ev s ≡ go_on (settle (turn ev s) s)
unfolding turn
turn-go_on (Event.error (some e) r) s h = cc
turn-go_on (Event.error none r) s h = refl
turn-go_on _ s h = refl

pub collect_from-append :
    (order : List ℕ → List ℕ) (s : Collector) (events rest : List Event) (ending : Ending)
    → All (λ ev. is_error ev ≡ false) events
    → collect_from order s (events ++ rest) ending ≡ collect_from order (after s events) rest ending
unfolding collect_from
collect_from-append order s [] rest ending h = refl
collect_from-append order s (ev ∷ events) rest ending h = ground (
  arith,
  turn-go_on ev s h.0,
  collect_from-append order (settle (turn ev s) s) events rest ending h.1,
)

pub after-append : (s : Collector) (xs ys : List Event) → after s (xs ++ ys) ≡ after (after s xs) ys
after-append s [] ys = refl
after-append s (x ∷ xs) ys = after-append (settle (turn x s) s) xs ys

pub collect_from-three :
    (order : List ℕ → List ℕ) (s : Collector) (xs ys : List Event) (ev : Event) (zs : List Event)
    (ending : Ending)
    → All (λ ev. is_error ev ≡ false) xs
    → All (λ ev. is_error ev ≡ false) ys
    → is_error ev ≡ false
    → collect_from order s (xs ++ (ys ++ (ev ∷ zs))) ending
      ≡ collect_from order
          (settle (turn ev (after (after s xs) ys)) (after (after s xs) ys))
          zs
          ending
collect_from-three order s xs ys ev zs ending hx hy he =
    collect_from-append order s xs _ ending hx
    ∙ collect_from-append order (after s xs) ys _ ending hy
    ∙ collect_from-append order (after (after s xs) ys) (ev ∷ []) zs ending (he, tt)

-- Content is only appended to.
grows-turn :
    (ev : Event) (s : Collector)
    → (tail : List ContentPart) × ((settle (turn ev s) s).resp.content ≡ s.resp.content ++ tail)
unfolding turn
grows-turn (Event.content_block_done j kind) s =
    (flushed_part s j (text_of (lookup j s.kinds)), refl)
grows-turn (Event.message_start id model role phase time) s =
    ([], ground (arith, append-nil s.resp.content))
grows-turn (Event.error none r) s = ([], ground (arith, append-nil s.resp.content))
grows-turn (Event.error (some e) r) s = ([], ground (arith, append-nil s.resp.content))
grows-turn (Event.tool_call_done index id name args) s =
    ([], ground (arith, append-nil s.resp.content))
grows-turn _ s = ([], ground (arith, append-nil s.resp.content))

grows-flush_each :
    (indexes : List ℕ) (s : Collector)
    → (tail : List ContentPart) × ((flush_each indexes s).resp.content ≡ s.resp.content ++ tail)
unfolding flush_each
grows-flush_each [] s = ([], sym (append-nil s.resp.content))
grows-flush_each (i ∷ indexes) s =
    let (tail, e) = grows-flush_each indexes (flush_block i s) in
    (flushed_part s i (text_of (lookup i s.kinds)) ++ tail, e ∙ append_assoc s.resp.content _ tail)

pub collect_from-error :
    (order : List ℕ → List ℕ) (s : Collector) (ev : Event) (events : List Event) (ending : Ending)
    → is_error ev ≡ true
    → (collect_from order s (ev ∷ events) ending).resp ≡ s.resp
unfolding collect_from
collect_from-error order s (Event.error (some e) r) events ending h = refl
collect_from-error order s (Event.error none r) events ending h = cc
collect_from-error order s _ events ending h = cc

pub grows-collect_from :
    (order : List ℕ → List ℕ) (s : Collector) (events : List Event) (ending : Ending)
    → (tail : List ContentPart) × ((collect_from order s events ending).resp.content
        ≡ s.resp.content ++ tail)
unfolding collect_from
grows-collect_from order s [] closed = grows-flush_each (order (keys s.kinds)) s
grows-collect_from order s [] (cancelled e) = ([], sym (append-nil s.resp.content))
grows-collect_from order s (ev ∷ events) ending = elim (Bool-cases (is_error ev)) [
  | inl yes_error ↦ (
    [],
    ap (λ r. r.content) (collect_from-error order s ev events ending yes_error)
        ∙ sym (append-nil s.resp.content),
  )
  | inr no_error ↦
      let (first, e) = grows-turn ev s in
      let (later, e') = grows-collect_from order (settle (turn ev s) s) events ending in
      (
        first ++ later,
        ap (λ c. c.resp.content)
              (collect_from-append order s (ev ∷ []) events ending (no_error, tt))
            ∙ e'
            ∙ ap (λ c. c ++ later) e
            ∙ append_assoc s.resp.content first later,
      )
]
