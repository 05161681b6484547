-- ===== src/StaticMap/Checks.antt =====
-- The tests that `hm_sm_compile` makes of each input.
use Prim.Native.Nat.{bit_and}
use hipermap.Common.{
  Bool, true, ◌+◌, length, Outcome, ℕ, ◌-◌, ◌*◌, ◌/◌, ◌%◌, ◌^◌, ◌≤◌, ◌<◌, ◌≡◌, ◌≢◌, refl, sym, ◌∙◌,
  arith, false, ◌||◌, List, [], ◌∷◌, ltb, ◌==◌, if◌then◌else◌, >>=-eq-ok, All, ok, err, undefined,
  bad_value, bad_range, inl, inr, Bool-cases,
}
use hipermap.Words.Bits.{bit_and_ones}
use hipermap.StaticMap.{Input, no_value, low_mask, check_input, check_inputs}
use hipermap.StaticMap.Zones.{zone_size, IsZone}

-- A range that has its address aligned to its size, and a value that can be stored. The prefix is
-- one for which the size less one can be computed as an `int`.
pub record IsRange (x : Input) : Type 0 where
  pub small : x.ip < 2 ^ 32
  pub least : 2 ≤ x.cidr_prefix
  pub most : x.cidr_prefix ≤ 32
  pub aligned : x.ip % zone_size x ≡ 0
  pub value : x.value ≢ no_value

pub IsRange-IsZone : (x : Input) → IsRange x → IsZone x
IsRange-IsZone x r =
    let whole : x.ip ≡ x.ip / zone_size x * zone_size x = grind (arith, r.aligned) in
    record {
      small = r.small;
      least = omega (arith, r.least);
      most = r.most;
      block = x.ip / zone_size x;
      aligned = whole;
    }

low_mask-in_range :
    (cidr_prefix : ℕ)
    → 2 ≤ cidr_prefix
    → cidr_prefix ≤ 32
    → low_mask cidr_prefix ≡ ok (2 ^ (32 - cidr_prefix) - 1)
unfolding low_mask
low_mask-in_range cidr_prefix least most =
    let test : (ltb cidr_prefix 2 || ltb 32 cidr_prefix) ≡ false = ground arith in rw test refl

-- What the tests of one input come to: HM_ERROR_BAD_VALUE for HM_NO_VALUE, else undefined
-- behaviour for a prefix of 0, 1 or above 32, where the shift or the subtraction on `int` is
-- undefined, else HM_ERROR_BAD_RANGE for an address that is not a multiple of the size of its
-- range.
pub check_input_lem :
    (x : Input)
    → check_input x ≡ (
        if x.value == no_value
        then err bad_value
        else if ltb x.cidr_prefix 2 || ltb 32 x.cidr_prefix
        then undefined
        else if x.ip % zone_size x == 0
        then ok tt
        else err bad_range)
unfolding check_input low_mask
check_input_lem x = elim (Bool-cases (x.value == no_value)) [
  | inl lost ↦ rw lost refl
  | inr some ↦ elim (Bool-cases (ltb x.cidr_prefix 2 || ltb 32 x.cidr_prefix)) [
    | inl out ↦ rw (some, out) refl
    | inr test ↦
        let rest : bit_and x.ip (2 ^ (32 - x.cidr_prefix) - 1) ≡ x.ip % zone_size x =
          bit_and_ones (32 - x.cidr_prefix) x.ip in
        let late : (x.cidr_prefix == 0 || ltb 32 x.cidr_prefix) ≡ false = ground (arith, test) in
        elim (Bool-cases (x.ip % zone_size x == 0)) [
          | inl even ↦ rw (some, test, rest, even, late) refl
          | inr odd ↦ rw (some, test, rest, odd) refl
        ]
  ]
]

check_input-ok : (x : Input) → IsRange x → check_input x ≡ ok tt
check_input-ok x r = check_input_lem x ∙ ground (arith, r.least, r.most, r.aligned, r.value)

check_input-IsRange : (x : Input) (u : Unit {0}) → x.ip < 2 ^ 32 → check_input x ≡ ok u → IsRange x
check_input-IsRange x u small h =
    let passed = sym (check_input_lem x) ∙ h in
    record {
      small = small;
      least = ground (arith, passed);
      most = ground (arith, passed);
      aligned = ground (arith, passed);
      value = λ lost. ground (arith, passed, lost);
    }

pub check_inputs-ok :
    (i : ℕ) (inputs : List Input)
    → All IsRange inputs
    → i + length inputs < 2 ^ 31
    → check_inputs i inputs ≡ ok tt
unfolding check_inputs
check_inputs-ok i [] ranges few = refl
check_inputs-ok i (x ∷ inputs) ranges few =
    let test : ltb i (2 ^ 31 - 1) ≡ true = ground arith in
    rw (check_input-ok x ranges.0, test) (check_inputs-ok (i + 1) inputs ranges.1 (omega arith))

after_index :
    (b : Bool) (rest : Outcome (Unit {0})) (u : Unit {0})
    → (if b then rest else undefined) ≡ ok u
    → (b ≡ true) × (rest ≡ ok u)
after_index true rest u h = (refl, h)
after_index false rest u h = cc h

-- Inputs that pass are ranges, and no more than an `int` counts.
pub check_inputs-IsRange :
    (i : ℕ) (inputs : List Input) (u : Unit {0})
    → i < 2 ^ 31
    → All (λ x. x.ip < 2 ^ 32) inputs
    → check_inputs i inputs ≡ ok u
    → All IsRange inputs × (i + length inputs < 2 ^ 31)
unfolding check_inputs
check_inputs-IsRange i [] u start small h = (tt, omega arith)
check_inputs-IsRange i (x ∷ inputs) u start small h =
    let (passed, at_x, next) = >>=-eq-ok (check_input x) _ h in
    let (test, rest) = after_index (ltb i (2 ^ 31 - 1)) (check_inputs (i + 1) inputs) u next in
    let (ranges, few) = check_inputs-IsRange (i + 1) inputs u (ground (arith, test)) small.1 rest in
    ((check_input-IsRange x passed small.0 at_x, ranges), omega arith)
