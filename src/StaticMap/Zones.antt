-- ===== src/StaticMap/Zones.antt =====
-- The ranges of static_map.cpp: aligned blocks of a power of two of addresses, of which any two are
-- apart or one lies in the other.
use native.Mathlib.Nat.{
  pow-suc, one-le-pow, pow-le-pow_right, mul-le-mul_right, lt_of_mul-lt-mul_right, mul-div_cancel,
}
use hipermap.Common.{
  ℕ, zero, suc, ◌+◌, ◌-◌, ◌*◌, ◌/◌, ◌%◌, ◌^◌, ◌≤◌, ◌<◌, ◌≡◌, ◌⊎◌, inl, inr, ap, ◌∙◌, arith, false,
  ◌==◌, if◌then◌else◌, eq_cases,
}
use hipermap.StaticMap.{Input, end_ip_of_zone, input_less}

-- The number of addresses in the range.
abbrev pub zone_size : Input → ℕ
zone_size x = 2 ^ (32 - x.cidr_prefix)

-- A range with its address aligned to its size.
pub record IsZone (x : Input) : Type 0 where
  pub small : x.ip < 2 ^ 32
  pub least : 1 ≤ x.cidr_prefix
  pub most : x.cidr_prefix ≤ 32
  pub block : ℕ
  pub aligned : x.ip ≡ block * zone_size x

-- The range holds the address.
abbrev pub Covers : Input → ℕ → Type 0
Covers x a = (x.ip ≤ a) × (a < x.ip + zone_size x)

-- The order of `input_less`, with equality.
abbrev pub Before : Input → Input → Type 0
Before x y = (x.ip < y.ip) ⊎ ((x.ip ≡ y.ip) × (x.cidr_prefix ≤ y.cidr_prefix))

pub Before-of_input_less : (x y : Input) → input_less y x ≡ false → Before x y
unfolding input_less
Before-of_input_less x y h = ground arith

pub Before-trans : (x y z : Input) → Before x y → Before y z → Before x z
Before-trans x y z h k = ground arith

pow-add : (n k : ℕ) → 2 ^ (n + k) ≡ 2 ^ n * 2 ^ k
pow-add zero k = let e : 0 + k ≡ k = omega arith in rw e (omega arith)
pow-add (suc n) k =
    let e : suc n + k ≡ suc (n + k) = omega arith in
    rw e (grind (arith, pow-suc 2 (n + k), pow-suc 2 n, pow-add n k))

le_cases : (a b : ℕ) → (a ≤ b) ⊎ (b < a)
le_cases a b = ground arith

-- Of two multiples of `b` the larger is larger by `b` at least.
next_multiple : (b j k : ℕ) → j * b < k * b → j * b + b ≤ k * b
next_multiple b j k h =
    let lt : j < k = lt_of_mul-lt-mul_right b h in
    let le : suc j * b ≤ k * b = mul-le-mul_right b lt in grind arith

pub zone_size-le : (x : Input) → 1 ≤ x.cidr_prefix → zone_size x ≤ 2 ^ 31
zone_size-le x h = let k : 32 - x.cidr_prefix ≤ 31 = omega arith in pow-le-pow_right (omega arith) k

-- A block of `b` that starts in one of `m * b` ends in it.
smaller_block :
    (b m size i j x y : ℕ)
    → size ≡ m * b
    → x ≡ i * size
    → y ≡ j * b
    → y < x + size
    → y + b ≤ x + size
smaller_block b m size i j x y sized at_x at_y inside =
    let regroup : i * (m * b) + m * b ≡ (i * m + m) * b = grind arith in
    let end : x + size ≡ (i * m + m) * b = rw (at_x, sized) regroup in
    rw (end, at_y) (next_multiple b j (i * m + m) (rw (end, at_y) at inside))

-- A block of `m * b` that starts in one of `b` starts with it.
larger_block :
    (b m size i j x y : ℕ) → size ≡ m * b → x ≡ i * b → y ≡ j * size → x ≤ y → y < x + b → y ≡ x
larger_block b m size i j x y sized at_x at_y after inside =
    let regroup : j * (m * b) ≡ (j * m) * b = grind arith in
    let start : y ≡ (j * m) * b = rw (at_y, sized) regroup in
    elim (eq_cases y x) [
      | inl same ↦ same
      | inr apart ↦
          let later : i * b < (j * m) * b = omega (arith, start) in
          absurd (omega (arith, next_multiple b i (j * m) later, start))
    ]

sizes :
    (x y : Input)
    → y.cidr_prefix ≤ 32
    → x.cidr_prefix ≤ y.cidr_prefix
    → zone_size x ≡ 2 ^ (y.cidr_prefix - x.cidr_prefix) * zone_size y
sizes x y most smaller =
    let d : 32 - x.cidr_prefix ≡ (y.cidr_prefix - x.cidr_prefix) + (32 - y.cidr_prefix) =
      omega arith in
    ap (λ (k : ℕ). 2 ^ k) d ∙ pow-add (y.cidr_prefix - x.cidr_prefix) (32 - y.cidr_prefix)

-- A later range that starts inside an earlier one ends inside it.
pub nested :
    (x y : Input)
    → IsZone x
    → IsZone y
    → Before x y
    → y.ip < x.ip + zone_size x
    → y.ip + zone_size y ≤ x.ip + zone_size x
nested x y zx zy before inside = elim (le_cases x.cidr_prefix y.cidr_prefix) [
  | inl smaller ↦
      smaller_block (zone_size y) (2 ^ (y.cidr_prefix - x.cidr_prefix)) (zone_size x) zx.block
        zy.block x.ip y.ip (sizes x y zy.most smaller) zx.aligned zy.aligned inside
  | inr larger ↦
      let after : x.ip ≤ y.ip = ground arith in
      let same : y.ip ≡ x.ip =
        larger_block (zone_size x) (2 ^ (x.cidr_prefix - y.cidr_prefix)) (zone_size y) zx.block
          zy.block x.ip y.ip (sizes y x zx.most (omega arith)) zx.aligned zy.aligned after inside in
      absurd (ground arith)
]

-- Of two ranges that hold an address the later one is not larger.
pub Covers-le :
    (x y : Input) (a : ℕ)
    → IsZone x
    → IsZone y
    → Before x y
    → Covers x a
    → Covers y a
    → x.cidr_prefix ≤ y.cidr_prefix
Covers-le x y a zx zy before on_x on_y = elim (le_cases x.cidr_prefix y.cidr_prefix) [
  | inl smaller ↦ smaller
  | inr larger ↦
      let after : x.ip ≤ y.ip = ground arith in
      let same : y.ip ≡ x.ip =
        larger_block (zone_size x) (2 ^ (x.cidr_prefix - y.cidr_prefix)) (zone_size y) zx.block
          zy.block x.ip y.ip (sizes y x zx.most (omega arith)) zx.aligned zy.aligned after
          (omega arith) in
      absurd (ground arith)
]

-- The end of a range, where the end of the address space is 0.
abbrev pub end_of : ℕ → ℕ
end_of ip = if ip == 0 then 2 ^ 32 else ip

pub end_ip-lt : (ip cidr_prefix : ℕ) → end_ip_of_zone ip cidr_prefix < 2 ^ 32
unfolding end_ip_of_zone
end_ip-lt ip cidr_prefix = omega arith

end_of-mod : (t : ℕ) → 0 < t → t ≤ 2 ^ 32 → end_of (t % 2 ^ 32) ≡ t
end_of-mod t positive bound = ground arith

pub zone-le : (x : Input) → IsZone x → x.ip + zone_size x ≤ 2 ^ 32
zone-le x z =
    let d : 32 ≡ x.cidr_prefix + (32 - x.cidr_prefix) = omega (arith, z.most) in
    let whole : 2 ^ 32 ≡ 2 ^ x.cidr_prefix * zone_size x =
      ap (λ (k : ℕ). 2 ^ k) d ∙ pow-add x.cidr_prefix (32 - x.cidr_prefix) in
    omega (
      arith,
      next_multiple (zone_size x) z.block (2 ^ x.cidr_prefix)
          (omega (arith, z.small, z.aligned, whole)),
      z.aligned,
      whole,
    )

-- `hm_end_ip_of_zone` gives the end of the range.
pub zone-end :
    (x : Input) → IsZone x → end_of (end_ip_of_zone x.ip x.cidr_prefix) ≡ x.ip + zone_size x
unfolding end_ip_of_zone
zone-end x z =
    let some : 1 ≤ zone_size x = one-le-pow (32 - x.cidr_prefix) 2 (omega arith) in
    let quotient : x.ip / zone_size x ≡ z.block =
      ap (λ (t : ℕ). t / zone_size x) z.aligned ∙ mul-div_cancel z.block some in
    let next : (x.ip / zone_size x + 1) * zone_size x ≡ x.ip + zone_size x =
      rw (quotient, z.aligned) (grind arith) in
    ap (λ (t : ℕ). end_of (t % 2 ^ 32)) next
    ∙ end_of-mod (x.ip + zone_size x) (omega arith) (zone-le x z)
