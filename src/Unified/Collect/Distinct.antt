-- ===== src/Unified/Collect/Distinct.antt =====
-- No index of a block stands twice in the map of the open blocks.
use llmadapter.Prelude.{
  ℕ, ◌≡◌, subst, Bool, true, false, none, some, List, [], ◌∷◌, All, Bool-cases, inl, inr, ◌==◌,
  nat_eq, nat_beq_iff, if◌then◌else◌,
}
use llmadapter.Prelude.Assoc.{Assoc, insert, remove, keys}
use llmadapter.Unified.Event.{Event}
use llmadapter.Unified.Collect.{Collector, turn}
use llmadapter.Unified.Collect.Run.{settle, after}

-- No index stands twice.
abbrev pub Distinct : List ℕ → Type 0
Distinct [] = Unit
Distinct (i ∷ is) = All (λ j. (i == j) ≡ false) is × Distinct is

-- The key is not `j`.
abbrev Other : ℕ → ℕ → Type 0
Other j k = (j == k) ≡ false

module _ {V : Type 0} where
  All-insert :
      (j i : ℕ) (v : V) (m : Assoc ℕ V)
      → Other j i
      → All (Other j) (keys m)
      → All (Other j) (keys (insert i v m))
  unfolding insert
  All-insert j i v [] o h = (o, tt)
  All-insert j i v ((k, w) ∷ m) o h = elim (Bool-cases (k == i)) [
    | inl e ↦ rw (insert, e) (o, h.1)
    | inr e ↦ rw (insert, e) (h.0, All-insert j i v m o h.1)
  ]

  All-remove :
      (j i : ℕ) (m : Assoc ℕ V) → All (Other j) (keys m) → All (Other j) (keys (remove i m))
  unfolding remove
  All-remove j i [] h = tt
  All-remove j i ((k, w) ∷ m) h = elim (Bool-cases (k == i)) [
    | inl e ↦ rw (remove, e) (All-remove j i m h.1)
    | inr e ↦ rw (remove, e) (h.0, All-remove j i m h.1)
  ]

  Distinct-insert :
      (i : ℕ) (v : V) (m : Assoc ℕ V) → Distinct (keys m) → Distinct (keys (insert i v m))
  unfolding insert
  Distinct-insert i v [] h = (tt, tt)
  Distinct-insert i v ((k, w) ∷ m) h = elim (Bool-cases (k == i)) [
    | inl e ↦ rw (insert, e) (subst (λ n. All (Other n) (keys m)) ((nat_beq_iff k i).0 e) h.0, h.1)
    | inr e ↦ rw (insert, e) (All-insert k i v m e h.0, Distinct-insert i v m h.1)
  ]

  Distinct-remove : (i : ℕ) (m : Assoc ℕ V) → Distinct (keys m) → Distinct (keys (remove i m))
  unfolding remove
  Distinct-remove i [] h = tt
  Distinct-remove i ((k, w) ∷ m) h = elim (Bool-cases (k == i)) [
    | inl e ↦ rw (remove, e) (Distinct-remove i m h.1)
    | inr e ↦ rw (remove, e) (All-remove k i m h.0, Distinct-remove i m h.1)
  ]

  Distinct-either :
      (b : Bool) (i : ℕ) (v : V) (m : Assoc ℕ V)
      → Distinct (keys m)
      → Distinct (keys (if b then m else insert i v m))
  Distinct-either true i v m h = h
  Distinct-either false i v m h = Distinct-insert i v m h

Distinct-turn :
    (ev : Event) (s : Collector)
    → Distinct (keys s.kinds)
    → Distinct (keys (settle (turn ev s) s).kinds)
unfolding turn
Distinct-turn (Event.content_block_start i kind id name) s h = Distinct-insert i kind s.kinds h
Distinct-turn (Event.content_block_done i kind) s h = Distinct-remove i s.kinds h
Distinct-turn (Event.text_delta i text) s h = Distinct-either _ i "text" s.kinds h
Distinct-turn (Event.reasoning_delta i text signature) s h =
    Distinct-either _ i "reasoning" s.kinds h
Distinct-turn (Event.refusal_delta i text) s h = Distinct-either _ i "refusal" s.kinds h
Distinct-turn (Event.error (some e) r) s h = h
Distinct-turn (Event.error none r) s h = h
Distinct-turn _ s h = h

pub Distinct-after :
    (events : List Event) (s : Collector)
    → Distinct (keys s.kinds)
    → Distinct (keys (after s events).kinds)
Distinct-after [] s h = h
Distinct-after (ev ∷ events) s h =
    Distinct-after events (settle (turn ev s) s) (Distinct-turn ev s h)
