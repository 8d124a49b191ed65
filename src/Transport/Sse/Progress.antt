-- ===== src/Transport/Sse/Progress.antt =====
-- Every block that `Next` gives uses up input.
use llmadapter.Prelude.{
  ℕ, ◌<◌, ◌≤◌, ◌≡◌, subst, suc, Option, Bool, true, false, some, none, [], ◌∷◌, ◌++◌, arith, length,
  is_nil, ◌==◌, ◌&&◌, nat_eq, Bool-cases, inl, inr,
}
use llmadapter.Transport.Bytes.{Bytes, byte_lf, byte_cr}
use llmadapter.Transport.Sse.{
  ReadError, eof, broken, NextBlock, block, failed, at_end, end_line, is_line_byte, next_from, next,
}

abbrev behind : Bytes → ℕ
behind [] = 0
behind (b ∷ bs) = length bs

behind-le : (bs : Bytes) → behind bs ≤ length bs
behind-le [] = omega arith
behind-le (b ∷ bs) = omega arith

-- At most `n` bytes are left, if a block is given.
abbrev Leaves : ℕ → NextBlock → Type 0
Leaves n (block b rest) = length rest ≤ n
Leaves n (failed e) = Unit

Leaves-mono : (m n : ℕ) (r : NextBlock) → m ≤ n → Leaves m r → Leaves n r
Leaves-mono m n (block b rest) h l = omega (arith, h, l)
Leaves-mono m n (failed e) h l = tt

Leaves-at_end : (held line : Bytes) (e : ReadError) → Leaves 0 (at_end held line e)
unfolding at_end
Leaves-at_end held line eof = elim (Bool-cases (is_nil line && is_nil held)) [
  | inl h ↦ rw h tt
  | inr h ↦ rw h (omega arith)
]
Leaves-at_end held line (broken e) = tt

Leaves-if :
    (n : ℕ) (b : Bool) (x y : NextBlock)
    → Leaves n x
    → Leaves n y
    → Leaves n (elim b [ true ↦ x | false ↦ y ])
Leaves-if n true x y hx hy = hx
Leaves-if n false x y hx hy = hy

Leaves-line :
    (n : ℕ) (o : Option Bytes) (held rest : Bytes) (e : ReadError)
    → length rest ≤ n
    → ((held' : Bytes) → Leaves n (next_from held' [] rest e))
    → Leaves n (elim o [ some held' ↦ next_from held' [] rest e | none ↦ block held rest ])
Leaves-line n none held rest e h k = h
Leaves-line n (some held') held rest e h k = k held'

Leaves-next_from :
    (held line input : Bytes) (e : ReadError) → Leaves (behind input) (next_from held line input e)
unfolding next_from
Leaves-next_from held line [] e = Leaves-at_end held line e
Leaves-next_from held line (b ∷ []) e =
    Leaves-if 0 (is_line_byte b) _ _ (Leaves-next_from held (line ++ b ∷ []) [] e) (
      Leaves-line 0 (end_line held line) held [] e (omega arith)
        (λ held'. Leaves-next_from held' [] [] e))
Leaves-next_from held line (b ∷ c ∷ bs) e =
    let n = suc (length bs) in
    let shorter : (held' : Bytes) → Leaves n (next_from held' [] bs e) = λ held'.
      Leaves-mono (behind bs) n _ (omega (arith, behind-le bs)) (Leaves-next_from held' [] bs e) in
    let same : (held' line' : Bytes) → Leaves n (next_from held' line' (c ∷ bs) e) = λ held' line'.
      Leaves-mono (length bs) n _ (omega arith) (Leaves-next_from held' line' (c ∷ bs) e) in
    Leaves-if n (is_line_byte b) _ _ (same held (line ++ b ∷ [])) (
      Leaves-if n (b == byte_cr && c == byte_lf) _ _
        (Leaves-line n (end_line held line) held bs e (omega arith) shorter)
        (Leaves-line n (end_line held line) held (c ∷ bs) e (omega arith) (λ held'. same held' [])))

-- What `Next` leaves to be read is shorter than what it was given.
pub next-shorter :
    (input : Bytes) (e : ReadError) (b rest : Bytes)
    → next input e ≡ block b rest
    → length rest < length input
unfolding next next_from at_end
next-shorter [] eof b rest h = cc
next-shorter [] (broken x) b rest h = cc
next-shorter (c ∷ input) e b rest h =
    omega (arith, subst (Leaves (length input)) h (Leaves-next_from [] [] (c ∷ input) e))
