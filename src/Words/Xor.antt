-- ===== src/Words/Xor.antt =====
-- `^` at variables: the law of the lowest digit, and what follows for `ip ^ ip_xor`.
use Prim.Native.Nat.{digits, differ, bit_xor, bit_xor-bitwise}
use native.Mathlib.Nat.{pow-suc}
use hipermap.Common.{
  ℕ, zero, suc, ◌+◌, ◌-◌, ◌*◌, ◌/◌, ◌%◌, ◌^◌, ◌≤◌, ◌<◌, ◌≡◌, refl, arith, ap, sym, ◌∙◌, ltb,
  if◌then◌else◌,
}

-- The digits of `a ^ b`, for the digits of `a` up to `depth` of them.
abbrev xor_digits : ℕ → ℕ → ℕ → ℕ
xor_digits depth a b = digits (λ b. b) differ depth a b

xor_digits_enough : (m n a b : ℕ) → a ≤ m → a ≤ n → xor_digits m a b ≡ xor_digits n a b
xor_digits_enough zero zero a b h k = refl
xor_digits_enough zero (suc n) zero b h k = refl
xor_digits_enough zero (suc n) (suc a) b h k = absurd (omega arith)
xor_digits_enough (suc m) zero zero b h k = refl
xor_digits_enough (suc m) zero (suc a) b h k = absurd (omega arith)
xor_digits_enough (suc m) (suc n) zero b h k = refl
xor_digits_enough (suc m) (suc n) (suc a) b h k =
    let halves = xor_digits_enough m n (suc a / 2) (b / 2) (omega arith) (omega arith) in
    omega (arith, halves)

-- The lowest digit, and the operation on the halves.
pub bit_xor_step : (a b : ℕ) → bit_xor a b ≡ bit_xor (a / 2) (b / 2) * 2 + differ (a % 2) (b % 2)
bit_xor_step zero b =
    let (e, f) : (bit_xor 0 b ≡ b) × (bit_xor 0 (b / 2) ≡ b / 2) =
      (bit_xor-bitwise 0 b, bit_xor-bitwise 0 (b / 2)) in
    omega arith
bit_xor_step (suc a) b =
    let halves : xor_digits a (suc a / 2) (b / 2) ≡ bit_xor (suc a / 2) (b / 2) =
      xor_digits_enough a (suc a / 2) (suc a / 2) (b / 2) (omega arith) (omega arith)
      ∙ sym (bit_xor-bitwise (suc a / 2) (b / 2)) in
    omega (arith, halves, bit_xor-bitwise (suc a) b)

differ-zero : (x : ℕ) → differ x 0 ≡ x
differ-zero zero = refl
differ-zero (suc x) = refl

xor_zero_fuel : (n a : ℕ) → a ≤ n → bit_xor a 0 ≡ a
xor_zero_fuel n zero h = bit_xor-bitwise 0 0
xor_zero_fuel zero (suc a) h = absurd (omega arith)
xor_zero_fuel (suc n) (suc a) h = omega (
  arith,
  bit_xor_step (suc a) 0,
  xor_zero_fuel n (suc a / 2) (omega arith),
  differ-zero (suc a % 2),
)

flip_one : (a : ℕ) → a < 2 → bit_xor a 1 ≡ (a + 1) % 2
flip_one zero h = bit_xor-bitwise 0 1
flip_one (suc zero) h = omega (arith, bit_xor_step 1 1, xor_zero_fuel 0 0 (omega arith))
flip_one (suc (suc a)) h = absurd (omega arith)

-- To flip the highest digit is to add it, or to take it away.
pub bit_xor_top :
    (k a : ℕ) → a < 2 * 2 ^ k → bit_xor a (2 ^ k) ≡ (if ltb a (2 ^ k) then a + 2 ^ k else a - 2 ^ k)
bit_xor_top zero a h = let one = flip_one a (omega arith) in ground arith
bit_xor_top (suc k) a h =
    let twice = pow-suc 2 k in
    let half : 2 ^ suc k / 2 ≡ 2 ^ k = omega arith in
    let even : 2 ^ suc k % 2 ≡ 0 = omega arith in
    let step : bit_xor a (2 ^ suc k) ≡ bit_xor (a / 2) (2 ^ k) * 2 + a % 2 =
      bit_xor_step a (2 ^ suc k)
      ∙ rw (half, even) (ap (λ (d : ℕ). bit_xor (a / 2) (2 ^ k) * 2 + d) (differ-zero (a % 2))) in
    let rest = bit_xor_top k (a / 2) (omega arith) in ground arith
