-- ===== src/Endpoints/Anthropic/Writes.antt =====
-- Which frames of an event the Anthropic endpoint writes when a write may fail.
use llmadapter.Prelude.{
  ℕ, suc, ◌⊎◌, ◌≡◌, refl, ap, Option, none, some, List, [], ◌∷◌, ◌++◌, nat_eq, string_eq,
  Option-cases, inl, inr,
}
use llmadapter.Unified.Errors.{GoError}
use llmadapter.Endpoints.Anthropic.Stream.{StreamFrame, write_frames}

-- The frames that are left when a write fails.
abbrev pub unwritten : (ℕ → Option GoError) → ℕ → List StreamFrame → List StreamFrame
unwritten fails n [] = []
unwritten fails n (frame ∷ frames) =
    let rest = unwritten fails (suc n) frames in
    elim (fails n) [ some e ↦ frame ∷ frames | none ↦ rest ]

pub write_frames-unwritten :
    (fails : ℕ → Option GoError) (n : ℕ) (frames : List StreamFrame)
    → (write_frames fails n frames).0 ++ unwritten fails n frames ≡ frames
unfolding write_frames
write_frames-unwritten fails n [] = refl
write_frames-unwritten fails n (frame ∷ frames) = elim (Option-cases (fails n)) [
  | inr (e, eq) ↦ rw (write_frames, eq) (rw (unwritten, eq) refl)
  | inl eq ↦
      rw (write_frames, eq)
        (rw (unwritten, eq) (ap (λ fs. frame ∷ fs) (write_frames-unwritten fails (suc n) frames)))
]

-- Either no write fails, and every frame is written, or one fails.
pub write_frames-either :
    (fails : ℕ → Option GoError) (n : ℕ) (frames : List StreamFrame)
    → (write_frames fails n frames ≡ (frames, none))
      ⊎ ((e : GoError) × ((write_frames fails n frames).1 ≡ some e))
unfolding write_frames
write_frames-either fails n [] = inl refl
write_frames-either fails n (frame ∷ frames) = elim (Option-cases (fails n)) [
  | inr (e, eq) ↦ inr (e, rw (write_frames, eq) refl)
  | inl eq ↦ elim (write_frames-either fails (suc n) frames) [
    | inl whole ↦ inl (rw (write_frames, eq) (rw whole refl))
    | inr (e, failed) ↦ inr (e, rw (write_frames, eq) failed)
  ]
]
