-- ===== src/Base/Words.antt =====
-- The C types of the 32-bit target: `size_t`, `uint32_t` and pointers are numbers below 2 ^ 32.
use Prim.Native.Nat.{ℕ, ◌+◌, ◌-◌, ◌%◌, ◌^◌}
use Prim.Native.String.{String}
use Prim.Native.Char.{code}
use mathlib.Core.List.{List, [], ◌∷◌}

-- The value that is left of a sum or product.
abbrev pub wrap32 : ℕ → ℕ
wrap32 n = n % 2 ^ 32

-- Subtraction of two 32-bit values.
abbrev pub sub32 : ℕ → ℕ → ℕ
sub32 a b = (a + 2 ^ 32 - b) % 2 ^ 32

-- The value that is left in a `uint8_t`.
abbrev pub wrap8 : ℕ → ℕ
wrap8 n = n % 2 ^ 8

-- The bytes of a string literal, without the 0 that ends it.
abbrev pub c_string : String → List ℕ
c_string String.[] = []
c_string (String.◌∷◌ c s) = code c ∷ c_string s
