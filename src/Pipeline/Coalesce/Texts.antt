-- ===== src/Pipeline/Coalesce/Texts.antt =====
-- The coalescer keeps the text of every index.
use llmadapter.Prelude.{
  ℕ, String, ◌<>◌, ◌≡◌, refl, sym, ap, ◌∙◌, Bool, true, false, Option, none, some, List, [], ◌∷◌,
  ◌++◌, arith, filter, is_nil, ltb, leb, ◌==◌, nat_eq, string_eq, if◌then◌else◌, nat_beq_iff,
  Bool-cases, inl, inr, All,
}
use text.Mathlib.TextEquality.{eq_iff}
use text.Mathlib.TextLemmas.{nil-append, append-nil as text_append-nil, append_assoc}
use llmadapter.Prelude.Int64
use llmadapter.Prelude.Assoc.{lookup, insert, keys, lookup-insert, lookup-remove}
use llmadapter.Prelude.StableSort.{stable_sort, filter-stable_sort}
use llmadapter.Unified.Event.{Event, text_delta}
use llmadapter.Pipeline.Coalesce.{
  Buffers, held, flush, flush_each, flush_all, push_delta, push_event,
}

-- The text of index `i` in a stream.
abbrev pub said : ℕ → List Event → String
said i [] = ""
said i (text_delta j text ∷ events) = (if j == i then text else "") <> said i events
said i (_ ∷ events) = said i events

-- What the coalescer puts out for a stream and its end.
abbrev pub outputs : (String → ℕ) → ℕ → List Event → Buffers → List Event
outputs byte_len max_bytes [] bufs = (flush_all bufs).0
outputs byte_len max_bytes (ev ∷ events) bufs =
    let (out, bufs') = push_event byte_len max_bytes bufs ev in
    out ++ outputs byte_len max_bytes events bufs'

said-append : (i : ℕ) (xs ys : List Event) → said i (xs ++ ys) ≡ said i xs <> said i ys
said-append i [] ys = sym (nil-append (said i ys))
said-append i (text_delta j text ∷ xs) ys =
    ap (λ t. (if j == i then text else "") <> t) (said-append i xs ys)
    ∙ sym (append_assoc (if j == i then text else "") (said i xs) (said i ys))
said-append i (_ ∷ xs) ys = said-append i xs ys

held-flush :
    (i j : ℕ) (bufs : Buffers)
    → held (lookup i (flush j bufs).1) ≡ (if j == i then "" else held (lookup i bufs))
unfolding flush
held-flush i j bufs =
    ground (arith, lookup-remove j i bufs, eq_iff (held (lookup j bufs)) "", nat_beq_iff j i)

-- The buffer of `j` is put out, and it is the one of `i` if `b` says so.
moved :
    (b : Bool) (mine other : Option String)
    → (b ≡ true → other ≡ mine)
    → ((if b then held other else "") <> "") <> held (if b then none else mine) ≡ held mine
moved true mine other h =
    text_append-nil (held other <> "") ∙ text_append-nil (held other) ∙ ap held (h refl)
moved false mine other h = nil-append (held mine)

said-flush :
    (i j : ℕ) (bufs : Buffers)
    → said i (flush j bufs).0 <> held (lookup i (flush j bufs).1) ≡ held (lookup i bufs)
unfolding flush
said-flush i j bufs = elim (Bool-cases (held (lookup j bufs) == "")) [
  | inl e ↦ rw (flush, e) (nil-append (held (lookup i bufs)))
  | inr e ↦
      rw (flush, e, lookup-remove j i bufs)
        (moved (j == i) (lookup i bufs) (lookup j bufs)
          (λ same. ap (λ k. lookup k bufs) ((nat_beq_iff j i).0 same)))
]

said-flush_each :
    (i : ℕ) (indexes : List ℕ) (bufs : Buffers)
    → said i (flush_each indexes bufs).0 <> held (lookup i (flush_each indexes bufs).1)
      ≡ held (lookup i bufs)
unfolding flush_each
said-flush_each i [] bufs = nil-append (held (lookup i bufs))
said-flush_each i (j ∷ indexes) bufs =
    let bufs' = (flush j bufs).1 in
    let rest = flush_each indexes bufs' in
    ap (◌<> held (lookup i rest.1)) (said-append i (flush j bufs).0 rest.0)
    ∙ append_assoc (said i (flush j bufs).0) (said i rest.0) (held (lookup i rest.1))
    ∙ ap (◌<>◌ (said i (flush j bufs).0)) (said-flush_each i indexes bufs')
    ∙ said-flush i j bufs

abbrev is_index : ℕ → ℕ → Bool
is_index i j = j == i

held-flush_each :
    (i : ℕ) (indexes : List ℕ) (bufs : Buffers)
    → held (lookup i (flush_each indexes bufs).1)
      ≡ (if is_nil (filter (is_index i) indexes) then held (lookup i bufs) else "")
unfolding flush_each
held-flush_each i [] bufs = refl
held-flush_each i (j ∷ indexes) bufs =
    ground (arith, held-flush i j bufs, held-flush_each i indexes (flush j bufs).1)

lookup-keys :
    (i : ℕ) (bufs : Buffers)
    → is_nil (filter (is_index i) (keys bufs)) ≡ true
    → lookup i bufs ≡ none
unfolding lookup
lookup-keys i [] h = refl
lookup-keys i ((j, text) ∷ bufs) h = ground (arith, lookup-keys i bufs)

abbrev Anything : ℕ → Type 0
Anything j = Unit

no_demand : (xs : List ℕ) → All Anything xs
no_demand [] = tt
no_demand (x ∷ xs) = (tt, no_demand xs)

held-flush_all : (i : ℕ) (bufs : Buffers) → held (lookup i (flush_all bufs).1) ≡ ""
unfolding flush_all
held-flush_all i bufs =
    let sorted = stable_sort ltb (keys bufs) in
    let same : filter (is_index i) sorted ≡ filter (is_index i) (keys bufs) =
      filter-stable_sort ltb Anything (is_index i) (λ a b ha hb ea eb. ground (arith, ea, eb))
        (keys bufs) (no_demand (keys bufs)) in
    elim (Bool-cases (is_nil (filter (is_index i) (keys bufs)))) [
      | inl e ↦ held-flush_each i sorted bufs ∙ rw (same, e) (ap held (lookup-keys i bufs e))
      | inr e ↦ held-flush_each i sorted bufs ∙ rw (same, e) refl
    ]

said-flush_all : (i : ℕ) (bufs : Buffers) → said i (flush_all bufs).0 ≡ held (lookup i bufs)
unfolding flush_all
said-flush_all i bufs =
    let all = flush_all bufs in
    sym (text_append-nil (said i all.0))
    ∙ ap (◌<>◌ (said i all.0)) (sym (held-flush_all i bufs))
    ∙ said-flush_each i (stable_sort ltb (keys bufs)) bufs

-- The buffer of `j` has grown, and it is the one of `i` if `b` says so.
grown :
    (b : Bool) (mine other : Option String) (text : String)
    → (b ≡ true → other ≡ mine)
    → held (if b then some (held other <> text) else mine)
      ≡ held mine <> ((if b then text else "") <> "")
grown true mine other text h =
    ap (λ o. held o <> text) (h refl) ∙ ap (◌<>◌ (held mine)) (sym (text_append-nil text))
grown false mine other text h =
    sym (text_append-nil (held mine)) ∙ ap (◌<>◌ (held mine)) (sym (nil-append ""))

held-insert :
    (i j : ℕ) (text : String) (bufs : Buffers)
    → held (lookup i (insert j (held (lookup j bufs) <> text) bufs))
      ≡ held (lookup i bufs) <> ((if j == i then text else "") <> "")
held-insert i j text bufs =
    ap held (lookup-insert j i (held (lookup j bufs) <> text) bufs)
    ∙ grown (j == i) (lookup i bufs) (lookup j bufs) text
        (λ same. ap (λ k. lookup k bufs) ((nat_beq_iff j i).0 same))

said-flush_all_then :
    (i : ℕ) (bufs : Buffers) (ev : Event)
    → said i ((flush_all bufs).0 ++ ev ∷ []) <> held (lookup i (flush_all bufs).1)
      ≡ held (lookup i bufs) <> said i (ev ∷ [])
said-flush_all_then i bufs ev =
    let all = flush_all bufs in
    ap (◌<>◌ (said i (all.0 ++ ev ∷ []))) (held-flush_all i bufs)
    ∙ text_append-nil (said i (all.0 ++ ev ∷ []))
    ∙ said-append i all.0 (ev ∷ [])
    ∙ ap (◌<> said i (ev ∷ [])) (said-flush_all i bufs)

module _ (byte_len : String → ℕ) (max_bytes : ℕ) (enabled : Int64.is_pos max_bytes ≡ true) where
  said-push_delta :
      (i j : ℕ) (text : String) (bufs : Buffers)
      → said i (push_delta byte_len max_bytes j text bufs).0
          <> held (lookup i (push_delta byte_len max_bytes j text bufs).1)
        ≡ held (lookup i bufs) <> ((if j == i then text else "") <> "")
  unfolding push_delta
  said-push_delta i j text bufs =
      let all = held (lookup j bufs) <> text in
      let bufs' = insert j all bufs in
      elim (Bool-cases (leb max_bytes (byte_len all))) [
        | inl e ↦ rw (push_delta, enabled, e) (said-flush i j bufs' ∙ held-insert i j text bufs)
        | inr e ↦
            rw (push_delta, enabled, e)
              (nil-append (held (lookup i bufs')) ∙ held-insert i j text bufs)
      ]

  said-push_event :
      (i : ℕ) (bufs : Buffers) (ev : Event)
      → said i (push_event byte_len max_bytes bufs ev).0
          <> held (lookup i (push_event byte_len max_bytes bufs ev).1)
        ≡ held (lookup i bufs) <> said i (ev ∷ [])
  unfolding push_event
  said-push_event i bufs (text_delta j text) = said-push_delta i j text bufs
  said-push_event i bufs ev = said-flush_all_then i bufs ev

  said-cons :
      (i : ℕ) (ev : Event) (events : List Event)
      → said i (ev ∷ []) <> said i events ≡ said i (ev ∷ events)
  said-cons i ev events = sym (said-append i (ev ∷ []) events)

  said-outputs :
      (i : ℕ) (events : List Event) (bufs : Buffers)
      → said i (outputs byte_len max_bytes events bufs) ≡ held (lookup i bufs) <> said i events
  said-outputs i [] bufs = said-flush_all i bufs ∙ sym (text_append-nil (held (lookup i bufs)))
  said-outputs i (ev ∷ events) bufs =
      let out = push_event byte_len max_bytes bufs ev in
      said-append i out.0 (outputs byte_len max_bytes events out.1)
      ∙ ap (◌<>◌ (said i out.0)) (said-outputs i events out.1)
      ∙ sym (append_assoc (said i out.0) (held (lookup i out.1)) (said i events))
      ∙ ap (◌<> said i events) (said-push_event i bufs ev)
      ∙ append_assoc (held (lookup i bufs)) (said i (ev ∷ [])) (said i events)
      ∙ ap (◌<>◌ (held (lookup i bufs))) (said-cons i ev events)

-- A coalescer with a positive `MaxBytes` loses no text and moves none to another index: for every
-- index, the text deltas that it puts out for a stream and its end, put together, are the text
-- deltas of the stream, put together.
pub outputs-said :
    (byte_len : String → ℕ) (max_bytes i : ℕ) (events : List Event)
    → Int64.is_pos max_bytes ≡ true
    → said i (outputs byte_len max_bytes events []) ≡ said i events
unfolding lookup
outputs-said byte_len max_bytes i events enabled =
    said-outputs byte_len max_bytes enabled i events [] ∙ nil-append (said i events)
