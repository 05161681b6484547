-- ===== src/Slots/Sizes.antt =====
-- `round_up_to_power_of_2` and `hash_table_buckets`: what they return, and where `int` overflows.
use native.Mathlib.Nat.{pow-suc, pow-le-pow_right}
use hipermap.Common.{
  ℕ, zero, suc, ◌-◌, ◌*◌, ◌%◌, ◌^◌, ◌≤◌, ◌<◌, ◌≡◌, ◌⊎◌, >>=-eq-ok, refl, ap, arith, inl, inr, ok,
  ltb, true, Bool-cases,
}
use hipermap.Slots.{double_until, int_or_zero, round_up_to_power_of_2, hash_table_buckets}
use hipermap.Slots.Table.{IsMask}

-- The loop ends at the first power that is not below `n`.
double_until_lem :
    (f power n : ℕ)
    → 0 < power
    → n ≤ 2 ^ 30
    → n ≤ power * 2 ^ f
    → (p j : ℕ) × (double_until (suc f) power n ≡ ok p)
      × (n ≤ p)
      × (0 < p)
      × ((p ≡ power) ⊎ (p < 2 * n))
      × (p ≡ power * 2 ^ j)
unfolding double_until
double_until_lem zero power n pos small enough =
    (power, 0, ground arith, omega arith, pos, inl refl, omega arith)
double_until_lem (suc f) power n pos small enough = elim (Bool-cases (ltb power n)) [
  | inr stop ↦ (power, 0, rw stop, ground arith, pos, inl refl, omega arith)
  | inl more ↦
      let (p, j, e, le, pos', bound, pow) =
        double_until_lem f (power * 2) n (omega arith) small
          (omega (arith, enough, ap (λ (t : ℕ). power * t) (pow-suc 2 f))) in
      let fits : ltb (power * 2) (2 ^ 31) ≡ true = ground arith in
      (
        p,
        suc j,
        rw (more, fits) e,
        le,
        pos',
        ground arith,
        omega (arith, ap (λ (t : ℕ). power * t) (pow-suc 2 j)),
      )
]

-- `round_up_to_power_of_2` up to 2 ^ 30: the least power of two that is not below `n`.
pub round_up-lem :
    (n : ℕ)
    → n ≤ 2 ^ 30
    → (p j : ℕ) × (round_up_to_power_of_2 n ≡ ok p)
      × (n ≤ p)
      × (0 < p)
      × ((p ≡ 1) ⊎ (p < 2 * n))
      × (p ≡ 2 ^ j)
unfolding round_up_to_power_of_2 int_or_zero
round_up-lem n small =
    let same : ltb n (2 ^ 31) ≡ true = ground arith in
    let (p, j, e, le, pos, bound, pow) =
      double_until_lem 31 1 n (omega arith) small (omega arith) in
    (p, j, rw same e, le, pos, bound, omega arith)

-- Up to 2 ^ 27 elements no step overflows: a power of two, at least 16 and eight for each element,
-- and less than sixteen for each.
pub hash_table_buckets_lem :
    (n : ℕ)
    → 0 < n
    → n ≤ 2 ^ 27
    → (m j : ℕ) × (hash_table_buckets n ≡ ok m)
      × (8 * n ≤ m)
      × (16 ≤ m)
      × (m ≤ 16 * n)
      × (m ≡ 2 ^ j)
unfolding hash_table_buckets int_or_zero
hash_table_buckets_lem n pos small =
    let (p, j, e, le, pos', bound, pow) = round_up-lem n (omega arith) in
    elim (Bool-cases (ltb 1 p)) [
      | inl large ↦ (
        p * 8,
        suc (suc (suc j)),
        rw e (ground arith),
        omega arith,
        ground arith,
        ground arith,
        omega (arith, pow-suc 2 j, pow-suc 2 (suc j), pow-suc 2 (suc (suc j))),
      )
      | inr one ↦ (16, 4, rw e (ground arith), ground arith, omega arith, omega arith, refl)
    ]

-- Whatever it returns is a table of whole groups.
pub hash_table_buckets-IsMask :
    (n m : ℕ) → hash_table_buckets n ≡ ok m → IsMask (m - 4) × (16 ≤ m) × (m < 2 ^ 31)
unfolding hash_table_buckets int_or_zero
hash_table_buckets-IsMask n m h =
    let (p, e, rest) = >>=-eq-ok (round_up_to_power_of_2 n) _ h in
    let bounds : ((m - 4) % 4 ≡ 0) × (16 ≤ m) × (m < 2 ^ 31) = ground arith in
    (record { groups = bounds.0; fits = omega arith }, bounds.1, bounds.2)

three : (j : ℕ) → 28 ≤ j → j ≤ 30 → (j ≡ 28) ⊎ ((j ≡ 29) ⊎ (j ≡ 30))
three j h k = omega arith

-- From 2 ^ 27 + 1 elements on the product leaves `int`, and the table has the least size.
pub hash_table_buckets_overflow : (n : ℕ) → 2 ^ 27 < n → n ≤ 2 ^ 30 → hash_table_buckets n ≡ ok 16
unfolding hash_table_buckets int_or_zero
hash_table_buckets_overflow n large small =
    let (p, j, e, le, pos', bound, pow) = round_up-lem n small in
    let below = λ (i : ℕ) (h : j ≤ i). pow-le-pow_right {n = 2} (omega arith) h in
    let above = λ (i : ℕ) (h : i ≤ j). pow-le-pow_right {n = 2} (omega arith) h in
    let from : 28 ≤ j = elim (Bool-cases (ltb j 28)) [
      | inl less ↦ absurd (omega (arith, below 27 (ground arith)))
      | inr more ↦ ground arith
    ] in
    let to : j ≤ 30 = elim (Bool-cases (ltb j 31)) [
      | inl less ↦ ground arith
      | inr more ↦ absurd (omega (arith, above 31 (ground arith)))
    ] in
    elim (three j from to) [
      | inl a ↦ rw (e, pow, a) refl
      | inr (inl b) ↦ rw (e, pow, b) refl
      | inr (inr c) ↦ rw (e, pow, c) refl
    ]
