-- ===== src/Unified/Collect/AnyOrder.antt =====
-- What the order in which Go iterates over the map of open blocks changes.
use mathlib.Core.List.{Permᴰ}
use mathlib.Core.List.Permᴰ
use llmadapter.Prelude.{ℕ, ◌≡◌, List, [], ◌∷◌, ◌++◌, nat_eq}
use llmadapter.Prelude.Assoc.{Assoc, lookup}
use llmadapter.Unified.Content.{ContentPart}
use llmadapter.Unified.Response.{Response}
use llmadapter.Unified.Event.{Event}
use llmadapter.Unified.Collect.{Collector, flushed_part, text_of}
use llmadapter.Unified.Collect.Distinct.{Distinct}

-- A state without the content of its response.
abbrev blank : Collector → Collector
blank s = record s { resp = record s.resp { content = [] } }

-- The same parts, in any order, and the same otherwise.
abbrev Alike : Collector → Collector → Type 0
Alike s s' = Permᴰ s.resp.content s'.resp.content × (blank s ≡ blank s')

-- The part that a block adds when it is flushed.
abbrev part : ℕ → Collector → List ContentPart
part i s = flushed_part s i (text_of (lookup i s.kinds))

-- An order of Go's iteration: every key once.
abbrev pub IsOrder : (List ℕ → List ℕ) → Type 0
IsOrder order = (is : List ℕ) → Permᴰ (order is) is

-- The parts that blocks add when they are flushed.
abbrev pub parts_of : Collector → List ℕ → List ContentPart
parts_of s [] = []
parts_of s (i ∷ is) = flushed_part s i (text_of (lookup i s.kinds)) ++ parts_of s is
