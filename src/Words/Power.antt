-- ===== src/Words/Power.antt =====
-- The test of a power of two, `n & (n - 1)`.
use Prim.Native.Nat.{bit_and}
use native.Mathlib.Nat.{pow-suc, one-le-pow, pow-le-pow_right}
use hipermap.Common.{
  ℕ, zero, suc, ◌+◌, ◌-◌, ◌*◌, ◌/◌, ◌%◌, ◌^◌, ◌≤◌, ◌<◌, ◌≡◌, inl, inr, ap, arith, eq_cases,
  Bool-cases, leb,
}
use hipermap.Words.Bits.{zero-bit_and, bit_and_step}

self_fuel : (n a : ℕ) → a ≤ n → bit_and a a ≡ a
self_fuel n zero h = zero-bit_and 0
self_fuel zero (suc a) h = absurd (omega arith)
self_fuel (suc n) (suc a) h =
    omega (arith, bit_and_step (suc a) (suc a), self_fuel n (suc a / 2) (omega arith))

pub bit_and_self : (a : ℕ) → bit_and a a ≡ a
bit_and_self a = self_fuel a a (omega arith)

power_fuel : (f n : ℕ) → n ≤ f → 0 < n → bit_and n (n - 1) ≡ 0 → (k : ℕ) × (n ≡ 2 ^ k)
power_fuel zero n h pos clear = absurd (omega arith)
power_fuel (suc f) n h pos clear = elim (eq_cases (n % 2) 1) [
  | inl odd ↦
      let half : (n - 1) / 2 ≡ n / 2 = omega arith in
      let rest : bit_and (n / 2) (n / 2) ≡ 0 =
        omega (arith, bit_and_step n (n - 1), ap (bit_and (n / 2)) half) in
      (0, omega (arith, bit_and_self (n / 2)))
  | inr even ↦
      let half : (n - 1) / 2 ≡ n / 2 - 1 = omega arith in
      let rest : bit_and (n / 2) (n / 2 - 1) ≡ 0 =
        omega (arith, bit_and_step n (n - 1), ap (bit_and (n / 2)) half) in
      let (k, power) = power_fuel f (n / 2) (omega arith) (omega arith) rest in
      (suc k, omega (arith, pow-suc 2 k))
]

-- What has one digit that is not 0.
pub bit_and_pred : (n : ℕ) → 0 < n → bit_and n (n - 1) ≡ 0 → (k : ℕ) × (n ≡ 2 ^ k)
bit_and_pred n pos clear = power_fuel n n (omega arith) pos clear

pub pow_sum : (a b : ℕ) → 2 ^ a * 2 ^ b ≡ 2 ^ (a + b)
pow_sum a zero = let e : a + 0 ≡ a = omega arith in rw e (omega arith)
pow_sum a (suc b) =
    let e : a + suc b ≡ suc (a + b) = omega arith in
    rw e (
      omega (
        arith,
        pow-suc 2 b,
        pow-suc 2 (a + b),
        pow_sum a b,
        ap (λ (t : ℕ). 2 ^ a * t) (pow-suc 2 b),
      ))

pub pow-le_back : (a b : ℕ) → 2 ^ a ≤ 2 ^ b → a ≤ b
pow-le_back a b h = elim (Bool-cases (leb a b)) [
  | inl e ↦ ground arith
  | inr e ↦
      let above : suc b ≤ a = ground arith in
      absurd (
        omega (arith, h, pow-suc 2 b, one-le-pow b 2, pow-le-pow_right {n = 2} (omega arith) above))
]
