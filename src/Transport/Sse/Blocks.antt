-- ===== src/Transport/Sse/Blocks.antt =====
-- `Next` reads back a block that is written with any kind of line end.
use llmadapter.Prelude.{
  ℕ, zero, suc, ◌≡◌, refl, sym, ◌∙◌, ap, subst, true, false, Option, none, some, List, [], ◌∷◌,
  ◌++◌, arith, All, ◌==◌, nat_eq, is_nil, if◌then◌else◌,
}
use mathlib.Core.List.{append_assoc, append-nil}
use llmadapter.Transport.Bytes.{Bytes, byte_lf, byte_cr, join}
use llmadapter.Transport.Sse.{
  ReadError, eof, NextBlock, block, is_line_byte, end_line, next_from, next, at_end,
}

abbrev pub IsLine : Bytes → Type 0
IsLine bs = All (λ b. is_line_byte b ≡ true) bs

pub data Eol : Type 0 where
  lf : Eol
  crlf : Eol
  cr : Eol

abbrev eol_bytes : Eol → Bytes
eol_bytes lf = byte_lf ∷ []
eol_bytes crlf = byte_cr ∷ byte_lf ∷ []
eol_bytes cr = byte_cr ∷ []

-- What may follow a line end: a carriage return that ends a line is not followed by a line feed.
abbrev MayFollow : Eol → Bytes → Type 0
MayFollow cr (b ∷ bs) = (b == byte_lf) ≡ false
MayFollow _ bs = Unit

-- The lines of a block, each ended.
abbrev pub end_lines : Eol → List Bytes → Bytes
end_lines eol [] = []
end_lines eol (line ∷ lines) = line ++ (eol_bytes eol ++ end_lines eol lines)

abbrev after_line : Bytes → Bytes → ReadError → Option Bytes → NextBlock
after_line held rest e none = block held rest
after_line held rest e (some held') = next_from held' [] rest e

next_from-byte :
    (held line : Bytes) (b : ℕ) (rest : Bytes) (e : ReadError)
    → is_line_byte b ≡ true
    → next_from held line (b ∷ rest) e ≡ next_from held (line ++ b ∷ []) rest e
unfolding next_from
next_from-byte held line b [] e h = ground (arith, h)
next_from-byte held line b (c ∷ rest) e h = ground (arith, h)

next_from-line :
    (held line xs rest : Bytes) (e : ReadError)
    → IsLine xs
    → next_from held line (xs ++ rest) e ≡ next_from held (line ++ xs) rest e
next_from-line held line [] rest e h = rw append-nil refl
next_from-line held line (x ∷ xs) rest e h =
    next_from-byte held line x (xs ++ rest) e h.0
    ∙ next_from-line held (line ++ x ∷ []) xs rest e h.1
    ∙ ap (λ l. next_from held l rest e) (append_assoc line (x ∷ []) xs)

next_from-eol :
    (eol : Eol) (held line rest : Bytes) (e : ReadError)
    → MayFollow eol rest
    → next_from held line (eol_bytes eol ++ rest) e ≡ after_line held rest e (end_line held line)
unfolding next_from
next_from-eol lf held line [] e h = ground arith
next_from-eol lf held line (c ∷ rest) e h = ground arith
next_from-eol crlf held line rest e h = ground arith
next_from-eol cr held line [] e h = ground arith
next_from-eol cr held line (c ∷ rest) e h = ground (arith, h)

abbrev pub IsTextLine : Bytes → Type 0
IsTextLine line = IsLine line × (is_nil line ≡ false)

abbrev append_line : Bytes → Bytes → Bytes
append_line held line = if is_nil held then line else held ++ byte_lf ∷ line

abbrev append_lines : Bytes → List Bytes → Bytes
append_lines held [] = held
append_lines held (line ∷ lines) = append_lines (append_line held line) lines

end_line-text :
    (held line : Bytes) → is_nil line ≡ false → end_line held line ≡ some (append_line held line)
unfolding end_line
end_line-text held line h = ground (arith, h)

MayFollow-line : (eol : Eol) (line rest : Bytes) → IsTextLine line → MayFollow eol (line ++ rest)
MayFollow-line lf line rest h = tt
MayFollow-line crlf line rest h = tt
MayFollow-line cr [] rest h = ground (arith, h.1)
MayFollow-line cr (b ∷ line) rest h = ground (arith, h.0.0)

MayFollow-end_lines :
    (eol : Eol) (lines : List Bytes) (rest : Bytes)
    → All IsTextLine lines
    → MayFollow eol rest
    → MayFollow eol (end_lines eol lines ++ rest)
MayFollow-end_lines eol [] rest h m = m
MayFollow-end_lines eol (line ∷ lines) rest h m = rw (append_assoc) (MayFollow-line eol line _ h.0)

next_from-end_lines :
    (eol : Eol) (held : Bytes) (lines : List Bytes) (rest : Bytes) (e : ReadError)
    → All IsTextLine lines
    → MayFollow eol rest
    → next_from held [] (end_lines eol lines ++ rest) e
      ≡ next_from (append_lines held lines) [] rest e
next_from-end_lines eol held [] rest e h m = refl
next_from-end_lines eol held (line ∷ lines) rest e h m =
    ap (λ bs. next_from held [] bs e)
      (append_assoc line (eol_bytes eol ++ end_lines eol lines) rest
        ∙ ap (λ bs. line ++ bs) (append_assoc (eol_bytes eol) (end_lines eol lines) rest))
    ∙ next_from-line held [] line _ e h.0.0
    ∙ next_from-eol eol held line (end_lines eol lines ++ rest) e
        (MayFollow-end_lines eol lines rest h.1 m)
    ∙ ap (after_line held (end_lines eol lines ++ rest) e) (end_line-text held line h.0.1)
    ∙ next_from-end_lines eol (append_line held line) lines rest e h.1 m

join-append :
    (held line : Bytes) (lines : List Bytes)
    → join byte_lf ((held ++ byte_lf ∷ line) ∷ lines)
      ≡ held ++ byte_lf ∷ join byte_lf (line ∷ lines)
unfolding join
join-append held line [] = refl
join-append held line (other ∷ lines) = append_assoc held (byte_lf ∷ line) _

append_lines-join :
    (held : Bytes) (lines : List Bytes)
    → is_nil held ≡ false
    → append_lines held lines ≡ join byte_lf (held ∷ lines)
unfolding join
append_lines-join [] lines h = ground (arith, h)
append_lines-join (b ∷ held) [] h = refl
append_lines-join (b ∷ held) (line ∷ lines) h =
    append_lines-join (b ∷ held ++ byte_lf ∷ line) lines refl ∙ join-append (b ∷ held) line lines

abbrev blank_lines : Eol → ℕ → Bytes
blank_lines eol zero = []
blank_lines eol (suc n) = eol_bytes eol ++ blank_lines eol n

MayFollow-blank_lines :
    (eol : Eol) (n : ℕ) (rest : Bytes)
    → MayFollow eol rest
    → MayFollow eol (blank_lines eol n ++ rest)
MayFollow-blank_lines eol zero rest m = m
MayFollow-blank_lines lf (suc n) rest m = tt
MayFollow-blank_lines crlf (suc n) rest m = tt
MayFollow-blank_lines cr (suc n) rest m = refl

next_from-blank_lines :
    (eol : Eol) (n : ℕ) (rest : Bytes) (e : ReadError)
    → MayFollow eol rest
    → next_from [] [] (blank_lines eol n ++ rest) e ≡ next_from [] [] rest e
unfolding end_line
next_from-blank_lines eol zero rest e m = refl
next_from-blank_lines eol (suc n) rest e m =
    ap (λ bs. next_from [] [] bs e) (append_assoc (eol_bytes eol) (blank_lines eol n) rest)
    ∙ next_from-eol eol [] [] (blank_lines eol n ++ rest) e (MayFollow-blank_lines eol n rest m)
    ∙ next_from-blank_lines eol n rest e m

end_line-blank : (held : Bytes) → is_nil held ≡ false → end_line held [] ≡ none
unfolding end_line
end_line-blank held h = ground (arith, h)

is_nil-append : (xs ys : Bytes) → is_nil xs ≡ false → is_nil (xs ++ ys) ≡ false
is_nil-append [] ys h = ground (arith, h)
is_nil-append (x ∷ xs) ys h = refl

is_nil-join :
    (line : Bytes) (lines : List Bytes)
    → is_nil line ≡ false
    → is_nil (join byte_lf (line ∷ lines)) ≡ false
unfolding join
is_nil-join line [] h = h
is_nil-join line (other ∷ lines) h = is_nil-append line _ h

MayFollow-eol : (eol : Eol) (rest : Bytes) → MayFollow eol (eol_bytes eol ++ rest)
MayFollow-eol lf rest = tt
MayFollow-eol crlf rest = tt
MayFollow-eol cr rest = refl

-- Whichever kind of line end a stream uses, `Next` skips the blank lines before a block, gives the
-- lines of the block joined by line feeds, and leaves what follows the blank line that ends it.
pub next-end_lines :
    (eol : Eol) (n : ℕ) (line : Bytes) (lines : List Bytes) (rest : Bytes) (e : ReadError)
    → All IsTextLine (line ∷ lines)
    → MayFollow eol rest
    → next (blank_lines eol n ++ (end_lines eol (line ∷ lines) ++ (eol_bytes eol ++ rest))) e
      ≡ block (join byte_lf (line ∷ lines)) rest
unfolding next
next-end_lines eol n line lines rest e h m =
    next_from-blank_lines eol n _ e
      (MayFollow-end_lines eol (line ∷ lines) _ h (MayFollow-eol eol rest))
    ∙ next_from-end_lines eol [] (line ∷ lines) (eol_bytes eol ++ rest) e h (MayFollow-eol eol rest)
    ∙ ap (λ held. next_from held [] (eol_bytes eol ++ rest) e) (append_lines-join line lines h.0.1)
    ∙ next_from-eol eol (join byte_lf (line ∷ lines)) [] rest e m
    ∙ ap (after_line (join byte_lf (line ∷ lines)) rest e)
        (end_line-blank (join byte_lf (line ∷ lines)) (is_nil-join line lines h.0.1))

MayFollow-text : (eol : Eol) (line : Bytes) → IsTextLine line → MayFollow eol line
MayFollow-text eol line h = subst (MayFollow eol) (append-nil line) (MayFollow-line eol line [] h)

at_end-text :
    (held line : Bytes) → is_nil line ≡ false → at_end held line eof ≡ block (held ++ line) []
unfolding at_end
at_end-text held line h = ground (arith, h)

-- A last line that the end of the input cuts off is appended to the lines before it with no line
-- feed between them.
pub next-cut_off :
    (eol : Eol) (line : Bytes) (lines : List Bytes) (last : Bytes)
    → All IsTextLine (line ∷ lines)
    → IsTextLine last
    → next (end_lines eol (line ∷ lines) ++ last) eof
      ≡ block (join byte_lf (line ∷ lines) ++ last) []
unfolding next next_from
next-cut_off eol line lines last h k =
    next_from-end_lines eol [] (line ∷ lines) last eof h (MayFollow-text eol last k)
    ∙ ap (λ held. next_from held [] last eof) (append_lines-join line lines h.0.1)
    ∙ ap (λ bs. next_from (join byte_lf (line ∷ lines)) [] bs eof) (sym (append-nil last))
    ∙ next_from-line (join byte_lf (line ∷ lines)) [] last [] eof k.0
    ∙ at_end-text (join byte_lf (line ∷ lines)) last k.1
