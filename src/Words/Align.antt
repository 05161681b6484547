-- ===== src/Words/Align.antt =====
-- `align8`, `align32` and `align64`: the next multiple of the alignment above the address.
use Prim.Native.Nat.{bit_and}
use hipermap.Common.{ℕ, ◌+◌, ◌-◌, ◌*◌, ◌/◌, ◌%◌, ◌^◌, ◌≤◌, ◌<◌, ◌≡◌, arith}
use hipermap.Words.{align, sub64}
use hipermap.Words.Bits.{bit_and_step, bit_and_ones}

-- The address rounded down to a multiple of 8.
round_down_8 : (a : ℕ) → a < 2 ^ 64 → bit_and a (2 ^ 64 - 8) ≡ a / 8 * 8
round_down_8 a h = omega (
  arith,
  bit_and_step a 18446744073709551608,
  bit_and_step (a / 2) 9223372036854775804,
  bit_and_step (a / 2 / 2) 4611686018427387902,
  bit_and_ones 61 (a / 2 / 2 / 2),
)

-- The address rounded down to a multiple of 32.
round_down_32 : (a : ℕ) → a < 2 ^ 64 → bit_and a (2 ^ 64 - 32) ≡ a / 32 * 32
round_down_32 a h = omega (
  arith,
  bit_and_step a 18446744073709551584,
  bit_and_step (a / 2) 9223372036854775792,
  bit_and_step (a / 2 / 2) 4611686018427387896,
  bit_and_step (a / 2 / 2 / 2) 2305843009213693948,
  bit_and_step (a / 2 / 2 / 2 / 2) 1152921504606846974,
  bit_and_ones 59 (a / 2 / 2 / 2 / 2 / 2),
)

-- The address rounded down to a multiple of 64.
round_down_64 : (a : ℕ) → a < 2 ^ 64 → bit_and a (2 ^ 64 - 64) ≡ a / 64 * 64
round_down_64 a h = omega (
  arith,
  bit_and_step a 18446744073709551552,
  bit_and_step (a / 2) 9223372036854775776,
  bit_and_step (a / 2 / 2) 4611686018427387888,
  bit_and_step (a / 2 / 2 / 2) 2305843009213693944,
  bit_and_step (a / 2 / 2 / 2 / 2) 1152921504606846972,
  bit_and_step (a / 2 / 2 / 2 / 2 / 2) 576460752303423486,
  bit_and_ones 58 (a / 2 / 2 / 2 / 2 / 2 / 2),
)

-- An aligned address, and how far it is from the one that was given.
pub record IsAligned (alignment addr place : ℕ) : Type 0 where
  pub multiple : place % alignment ≡ 0
  pub above : addr < place
  pub near : place ≤ addr + alignment
  pub pad : sub64 place addr ≡ place - addr

pub align-IsAligned_8 : (addr : ℕ) → addr + 8 < 2 ^ 64 → IsAligned 8 addr (align 8 addr)
unfolding align
align-IsAligned_8 addr h = omega (arith, round_down_8 addr (omega arith))

pub align-IsAligned_32 : (addr : ℕ) → addr + 32 < 2 ^ 64 → IsAligned 32 addr (align 32 addr)
unfolding align
align-IsAligned_32 addr h = omega (arith, round_down_32 addr (omega arith))

pub align-IsAligned_64 : (addr : ℕ) → addr + 64 < 2 ^ 64 → IsAligned 64 addr (align 64 addr)
unfolding align
align-IsAligned_64 addr h = omega (arith, round_down_64 addr (omega arith))
