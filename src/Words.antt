-- ===== src/Words.antt =====
-- Machine words and the bit operations on them: `& mask`, and the `align32`, `align64` and
-- `align8` helpers of static_uint64_set.c, static_uint64_map.c and cache.c.
pub mod Bits
pub mod Align
pub mod Xor
pub mod Power
use Prim.Native.Nat.{bit_and}
use hipermap.Common.{ℕ, ◌+◌, ◌-◌, ◌*◌, ◌/◌, ◌%◌, ◌^◌, ltb, if◌then◌else◌}

abbrev pub u64_mod : ℕ
u64_mod = 2 ^ 64

abbrev pub u32_mod : ℕ
u32_mod = 2 ^ 32

-- `uint64_t` addition, subtraction and multiplication.
abbrev pub add64 : ℕ → ℕ → ℕ
add64 a b = (a + b) % 2 ^ 64

abbrev pub sub64 : ℕ → ℕ → ℕ
sub64 a b = (a + 2 ^ 64 - b) % 2 ^ 64

abbrev pub mul64 : ℕ → ℕ → ℕ
mul64 a b = (a * b) % 2 ^ 64

-- The conversion of an integer to `int` and then to `size_t`: cut to 32 bits, sign extended.
abbrev pub int_to_size : ℕ → ℕ
int_to_size n = let w = n % 2 ^ 32 in if ltb w (2 ^ 31) then w else w + (2 ^ 64 - 2 ^ 32)

-- `(addr & ~(alignment - 1)) + alignment`, for a power of two.
unfoldable pub align : ℕ → ℕ → ℕ
align alignment addr = add64 (bit_and addr (2 ^ 64 - alignment)) alignment

-- An `int` by its rank among the `int`s: that of the low 32 bits, the highest of which is the sign.
unfoldable pub int_rank : ℕ → ℕ
int_rank n = (n + 2 ^ 31) % 2 ^ 32
