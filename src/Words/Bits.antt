-- ===== src/Words/Bits.antt =====
-- `&` at variables: the law of the lowest digit, and what follows for bucket masks.
use Prim.Native.Nat.{min, digits, bit_and, bit_and-bitwise}
use native.Mathlib.Nat.{pow-suc, one-le-pow}
use hipermap.Common.{
  ℕ, zero, suc, ◌+◌, ◌-◌, ◌*◌, ◌/◌, ◌%◌, ◌^◌, ◌≤◌, ◌<◌, ◌≡◌, refl, arith, ap, sym, ◌∙◌,
}

-- The digits of `a & b`, up to `depth` of them.
abbrev common_digits : ℕ → ℕ → ℕ → ℕ
common_digits depth a b = digits (λ _. 0) min depth a b

-- A digit more changes nothing once the depth bounds the first operand.
common_digits_more :
    (depth a b : ℕ) → a ≤ depth → common_digits (suc depth) a b ≡ common_digits depth a b
common_digits_more zero zero b bound = refl
common_digits_more zero (suc a) b bound = absurd (omega arith)
common_digits_more (suc depth) zero b bound = refl
common_digits_more (suc depth) (suc a) b bound =
    let halves = common_digits_more depth (suc a / 2) (b / 2) (omega arith) in omega (arith, halves)

common_digits_stable : (more a b : ℕ) → common_digits (more + a) a b ≡ bit_and a b
common_digits_stable zero a b =
    let depth : 0 + a ≡ a = omega arith in
    ap (λ (d : ℕ). common_digits d a b) depth ∙ sym (bit_and-bitwise a b)
common_digits_stable (suc more) a b =
    let depth : suc more + a ≡ suc (more + a) = omega arith in
    ap (λ (d : ℕ). common_digits d a b) depth
    ∙ common_digits_more (more + a) a b (omega arith)
    ∙ common_digits_stable more a b

pub zero-bit_and : (m : ℕ) → bit_and 0 m ≡ 0
zero-bit_and = bit_and-bitwise 0

-- The lowest digit, and the operation on the halves.
pub bit_and_step : (a m : ℕ) → bit_and a m ≡ bit_and (a / 2) (m / 2) * 2 + min (a % 2) (m % 2)
bit_and_step zero m =
    let (e, f) : (bit_and 0 m ≡ 0) × (bit_and 0 (m / 2) ≡ 0) =
      (zero-bit_and m, zero-bit_and (m / 2)) in
    omega arith
bit_and_step (suc a) m =
    let depth : (a - suc a / 2) + suc a / 2 ≡ a = omega arith in
    let halves : common_digits a (suc a / 2) (m / 2) ≡ bit_and (suc a / 2) (m / 2) =
      ap (λ (d : ℕ). common_digits d (suc a / 2) (m / 2)) (sym depth)
      ∙ common_digits_stable (a - suc a / 2) (suc a / 2) (m / 2) in
    omega (arith, halves, bit_and-bitwise (suc a) m)

-- The laws below go from the halves to the whole, on fuel that bounds the mask.
bit_and-le_fuel : (n a m : ℕ) → a ≤ n → bit_and a m ≤ m
bit_and-le_fuel n zero m h = omega (arith, zero-bit_and m)
bit_and-le_fuel zero (suc a) m h = absurd (omega arith)
bit_and-le_fuel (suc n) (suc a) m h =
    omega (arith, bit_and_step (suc a) m, bit_and-le_fuel n (suc a / 2) (m / 2) (omega arith))

pub bit_and-le : (a m : ℕ) → bit_and a m ≤ m
bit_and-le a m = bit_and-le_fuel a a m (omega arith)

idem_fuel : (n a m : ℕ) → a ≤ n → bit_and (bit_and a m) m ≡ bit_and a m
idem_fuel n zero m h = omega (arith, zero-bit_and m, ap (λ (x : ℕ). bit_and x m) (zero-bit_and m))
idem_fuel zero (suc a) m h = absurd (omega arith)
idem_fuel (suc n) (suc a) m h =
    let halves : bit_and (suc a) m / 2 ≡ bit_and (suc a / 2) (m / 2) =
      omega (arith, bit_and_step (suc a) m) in
    omega (
      arith,
      bit_and_step (suc a) m,
      bit_and_step (bit_and (suc a) m) m,
      ap (λ (x : ℕ). bit_and x (m / 2)) halves,
      idem_fuel n (suc a / 2) (m / 2) (omega arith),
    )

pub bit_and_idem : (a m : ℕ) → bit_and (bit_and a m) m ≡ bit_and a m
bit_and_idem a m = idem_fuel a a m (omega arith)

-- A mask whose two low bits are clear.
pub bit_and_four : (a m : ℕ) → m % 4 ≡ 0 → bit_and a m ≡ 4 * bit_and (a / 2 / 2) (m / 2 / 2)
bit_and_four a m h = omega (arith, bit_and_step a m, bit_and_step (a / 2) (m / 2))

pub bit_and-mod_four : (a m : ℕ) → m % 4 ≡ 0 → bit_and a m % 4 ≡ 0
bit_and-mod_four a m h = omega (arith, bit_and_four a m h)

-- The two low bits of the other operand do not matter.
pub bit_and_base : (b s m : ℕ) → m % 4 ≡ 0 → b % 4 ≡ 0 → s < 4 → bit_and (b + s) m ≡ bit_and b m
bit_and_base b s m h hb hs =
    let e : (b + s) / 2 / 2 ≡ b / 2 / 2 = omega arith in
    omega
      (arith, bit_and_four (b + s) m h, bit_and_four b m h, ap (λ (x : ℕ). bit_and x (m / 2 / 2)) e)

-- A mask of `k` ones is the remainder by `2 ^ k`.
pub bit_and-zero : (a : ℕ) → bit_and a 0 ≡ 0
bit_and-zero a = omega (arith, bit_and-le a 0)

ones_of_sum : (k q r : ℕ) → r < 2 ^ k → bit_and (2 ^ k * q + r) (2 ^ k - 1) ≡ r
ones_of_sum zero q r h = omega (arith, bit_and-zero (2 ^ zero * q + r))
ones_of_sum (suc k) q r h =
    let twice : 2 ^ suc k * q ≡ 2 * (2 ^ k * q) =
      omega (arith, ap (λ (t : ℕ). t * q) (pow-suc 2 k)) in
    let mask : (2 ^ suc k - 1) / 2 ≡ 2 ^ k - 1 = omega (arith, pow-suc 2 k, one-le-pow k 2) in
    let rest : (2 ^ suc k * q + r) / 2 ≡ 2 ^ k * q + r / 2 = omega arith in
    omega (
      arith,
      bit_and_step (2 ^ suc k * q + r) (2 ^ suc k - 1),
      ap (λ (x : ℕ). bit_and ((2 ^ suc k * q + r) / 2) x) mask,
      ap (λ (x : ℕ). bit_and x (2 ^ k - 1)) rest,
      ones_of_sum k q (r / 2) (omega (arith, pow-suc 2 k)),
      pow-suc 2 k,
      one-le-pow k 2,
    )

pub bit_and_ones : (k a : ℕ) → bit_and a (2 ^ k - 1) ≡ a % 2 ^ k
bit_and_ones k a =
    let split : 2 ^ k * (a / 2 ^ k) + a % 2 ^ k ≡ a = grind arith in
    ap (λ (x : ℕ). bit_and x (2 ^ k - 1)) (sym split)
    ∙ ones_of_sum k (a / 2 ^ k) (a % 2 ^ k) (omega (arith, one-le-pow k 2))
