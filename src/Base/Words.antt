-- ===== src/Base/Words.antt =====
-- The machine integers of the program. A `size_t` is a number below 2 ^ 64, an `uint32_t` one
-- below 2 ^ 32, and an `int` the 32-bit pattern of its two's complement, a number below 2 ^ 32.
use Prim.Native.Nat.{ℕ, ◌+◌, ◌-◌, ◌%◌, ◌^◌}
use mathlib.Core.Bool.{Bool}
use coconut.Base.Tests.{ltb, leb, if◌then◌else◌}

abbrev pub u8_mod : ℕ
u8_mod = 2 ^ 8

abbrev pub u16_mod : ℕ
u16_mod = 2 ^ 16

abbrev pub u32_mod : ℕ
u32_mod = 2 ^ 32

abbrev pub u64_mod : ℕ
u64_mod = 2 ^ 64

-- 2 ^ 31, the first pattern of a negative int.
abbrev pub int_sign : ℕ
int_sign = 2 ^ 31

-- (int)n for a size_t n.
abbrev pub int_of_size : ℕ → ℕ
int_of_size n = n % u32_mod

-- The conversion of an int to size_t: the sign is extended.
abbrev pub size_of_int : ℕ → ℕ
size_of_int w = if leb int_sign w then w + (u64_mod - u32_mod) else w

-- w < 0 of an int.
abbrev pub int_neg : ℕ → Bool
int_neg w = leb int_sign w

-- v < w of two ints.
abbrev pub int_lt : ℕ → ℕ → Bool
int_lt v w = ltb ((v + int_sign) % u32_mod) ((w + int_sign) % u32_mod)

-- a + b and a - b of two size_t.
abbrev pub size_add : ℕ → ℕ → ℕ
size_add a b = (a + b) % u64_mod

abbrev pub size_sub : ℕ → ℕ → ℕ
size_sub a b = (a + u64_mod - b) % u64_mod
