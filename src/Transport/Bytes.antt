-- ===== src/Transport/Bytes.antt =====
-- Go strings and slices of bytes as lists of numbers below 256, with the operations of the packages
-- `bytes` and `strings` that the SSE code applies to single bytes.
use llmadapter.Prelude.{
  ℕ, ◌≡◌, ◌↔◌, ap, refl, ◌∙◌, Bool, true, false, Option, none, some, List, [], ◌∷◌, ◌++◌, arith,
  All, Comparable, ◌==◌, nat_eq, if◌then◌else◌,
}
use mathlib.Core.Option

abbrev pub Bytes : Type 0
Bytes = List ℕ

abbrev pub byte_lf : ℕ
byte_lf = 10

abbrev pub byte_cr : ℕ
byte_cr = 13

abbrev pub byte_space : ℕ
byte_space = 32

abbrev pub byte_colon : ℕ
byte_colon = 58

abbrev same_bytes : Bytes → Bytes → Bool
same_bytes [] [] = true
same_bytes [] (b ∷ bs) = false
same_bytes (a ∷ others) [] = false
same_bytes (a ∷ others) (b ∷ bs) = let rest = same_bytes others bs in if a == b then rest else false

pub same_bytes_iff : (xs ys : Bytes) → (same_bytes xs ys ≡ true) ↔ (xs ≡ ys)
same_bytes_iff [] [] = (λ e. refl, λ e. refl)
same_bytes_iff [] (y ∷ ys) = (λ e. cc, λ e. cc)
same_bytes_iff (x ∷ xs) [] = (λ e. cc, λ e. cc)
same_bytes_iff (x ∷ xs) (y ∷ ys) = ground (arith, same_bytes_iff xs ys)

instance abbrev pub bytes_eq : Comparable Bytes
bytes_eq = record { same = same_bytes; same_iff = same_bytes_iff }

abbrev to_first : ℕ → List Bytes → List Bytes
to_first b [] = (b ∷ []) ∷ []
to_first b (part ∷ parts) = (b ∷ part) ∷ parts

-- `strings.Split(s, sep)` for a separator of one byte
unfoldable pub split : ℕ → Bytes → List Bytes
split sep [] = [] ∷ []
split sep (b ∷ bs) = let rest = split sep bs in if b == sep then [] ∷ rest else to_first b rest

-- `strings.Join(parts, sep)` for a separator of one byte
unfoldable pub join : ℕ → List Bytes → Bytes
join sep [] = []
join sep (part ∷ []) = part
join sep (part ∷ other ∷ parts) = part ++ sep ∷ join sep (other ∷ parts)

-- `strings.Cut(s, sep)`: what stands before and behind the first separator
unfoldable pub cut : ℕ → Bytes → Option (Bytes × Bytes)
cut sep [] = none
cut sep (b ∷ bs) =
    let rest = cut sep bs in
    if b == sep then some ([], bs) else Option.map (λ p. (b ∷ p.0, p.1)) rest

-- `strings.TrimSuffix(s, last)` for a suffix of one byte
unfoldable pub trim_suffix : ℕ → Bytes → Bytes
trim_suffix last [] = []
trim_suffix last (b ∷ []) = if b == last then [] else b ∷ []
trim_suffix last (b ∷ c ∷ bs) = b ∷ trim_suffix last (c ∷ bs)

-- `strings.TrimPrefix(s, first)` for a prefix of one byte
unfoldable pub trim_prefix : ℕ → Bytes → Bytes
trim_prefix first [] = []
trim_prefix first (b ∷ bs) = if b == first then bs else b ∷ bs

-- `strings.HasPrefix(s, first)` for a prefix of one byte
abbrev pub has_prefix : ℕ → Bytes → Bool
has_prefix first [] = false
has_prefix first (b ∷ bs) = b == first

abbrev pub Lacks : ℕ → Bytes → Type 0
Lacks sep bs = All (λ b. (b == sep) ≡ false) bs

split-skip :
    (sep : ℕ) (xs rest : Bytes) → Lacks sep xs → split sep (xs ++ sep ∷ rest) ≡ xs ∷ split sep rest
unfolding split
split-skip sep [] rest h = ground arith
split-skip sep (x ∷ xs) rest h = ground (arith, split-skip sep xs rest h.1)

split-whole : (sep : ℕ) (xs : Bytes) → Lacks sep xs → split sep xs ≡ xs ∷ []
unfolding split
split-whole sep [] h = refl
split-whole sep (x ∷ xs) h = ground (arith, split-whole sep xs h.1)

pub split-join :
    (sep : ℕ) (part : Bytes) (parts : List Bytes)
    → All (Lacks sep) (part ∷ parts)
    → split sep (join sep (part ∷ parts)) ≡ part ∷ parts
unfolding join
split-join sep part [] h = split-whole sep part h.0
split-join sep part (other ∷ parts) h =
    split-skip sep part (join sep (other ∷ parts)) h.0
    ∙ ap (λ rest. part ∷ rest) (split-join sep other parts h.1)

pub cut-append :
    (sep : ℕ) (xs rest : Bytes) → Lacks sep xs → cut sep (xs ++ sep ∷ rest) ≡ some (xs, rest)
unfolding cut
cut-append sep [] rest h = ground arith
cut-append sep (x ∷ xs) rest h = ground (arith, cut-append sep xs rest h.1)

pub trim_suffix-Lacks : (last : ℕ) (xs : Bytes) → Lacks last xs → trim_suffix last xs ≡ xs
unfolding trim_suffix
trim_suffix-Lacks last [] h = refl
trim_suffix-Lacks last (x ∷ []) h = ground (arith, h.0)
trim_suffix-Lacks last (x ∷ y ∷ xs) h = ap (λ rest. x ∷ rest) (trim_suffix-Lacks last (y ∷ xs) h.1)
