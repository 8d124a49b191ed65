-- ===== src/Prelude/Int64.antt =====
-- Go's `int` and `time.Duration`: 64-bit two's complement, held as the bit pattern, a number
-- below 2 ^ 64. Sums and differences wrap around.
use Prim.Native.Nat.{ℕ, ◌+◌, ◌-◌, ◌%◌, ◌≤◌, ◌<◌}
use mathlib.Core.Path.{◌≡◌}
use mathlib.Core.Bool.{Bool}
use native.Mathlib.Omega.{arith}
use llmadapter.Prelude.Tests.{ltb}

abbrev pub modulus : ℕ
modulus = 0x1_0000_0000_0000_0000

abbrev pub half : ℕ
half = 0x8000_0000_0000_0000

abbrev pub add : ℕ → ℕ → ℕ
add a b = (a + b) % modulus

abbrev pub sub : ℕ → ℕ → ℕ
sub a b = (a + modulus - b) % modulus

-- The bit pattern in the order of the signed values: 0 for the least integer.
abbrev pub order : ℕ → ℕ
order a = (a + half) % modulus

abbrev pub lt : ℕ → ℕ → Bool
lt a b = ltb (order a) (order b)

-- `a > 0`
abbrev pub is_pos : ℕ → Bool
is_pos a = lt 0 a

-- The signed value lies in [-2 ^ 62, 2 ^ 62), where no difference of two values wraps.
abbrev pub IsModerate : ℕ → Type 0
IsModerate a =
    (a < modulus)
    × (half - 0x4000_0000_0000_0000 ≤ order a)
    × (order a < half + 0x4000_0000_0000_0000)

pub is_pos-sub : (a b : ℕ) → IsModerate a → IsModerate b → is_pos (sub a b) ≡ lt b a
is_pos-sub a b ha hb = ground arith
