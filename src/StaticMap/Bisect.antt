-- ===== src/StaticMap/Bisect.antt =====
-- The halving search of `std::lower_bound` in ascending arrays.
use hipermap.Common.{
  ℕ, zero, suc, ◌+◌, ◌/◌, ◌≤◌, ◌<◌, ◌≡◌, arith, true, false, List, [], ◌∷◌, ltb, length, get_or,
  inl, inr, Bool-cases, eq_cases, ◌-◌, ◌==◌, if◌then◌else◌, All, All-mono,
}
use hipermap.StaticMap.{less_int, lower_bound, bisect}

-- The index of the first element that is not below `x`.
abbrev pub first_from : List ℕ → ℕ → ℕ
first_from [] x = 0
first_from (m ∷ ms) x = if less_int m x then suc (first_from ms x) else 0

-- No element is below an earlier one.
abbrev pub IsAscending : List ℕ → Type 0
IsAscending [] = Unit
IsAscending (m ∷ ms) = All (λ n. less_int n m ≡ false) ms × IsAscending ms

-- The first `k` elements are below `x`, and the others are not.
pub record IsParted (ms : List ℕ) (x k : ℕ) : Type 0 where
  pub below : (i : ℕ) → i < k → less_int (get_or ms i 0) x ≡ true
  pub above : (i : ℕ) → k ≤ i → i < length ms → less_int (get_or ms i 0) x ≡ false
  pub inside : k ≤ length ms

bisect-IsParted :
    (fuel : ℕ) (ms : List ℕ) (x first count k : ℕ)
    → IsParted ms x k
    → first ≤ k
    → k ≤ first + count
    → first + count ≤ length ms
    → count ≤ fuel
    → bisect fuel ms x first count ≡ k
unfolding bisect
bisect-IsParted zero ms x first count k p from to whole enough = omega arith
bisect-IsParted (suc fuel) ms x first count k p from to whole enough = elim (eq_cases count 0) [
  | inl none ↦ let test : (count == 0) ≡ true = ground arith in rw test (omega arith)
  | inr some ↦
      let test : (count == 0) ≡ false = ground arith in
      elim (Bool-cases (less_int (get_or ms (first + count / 2) 0) x)) [
        | inl below ↦
            let after : first + count / 2 < k = not_above p below (omega arith) in
            rw (test, below)
              (bisect-IsParted fuel ms x (first + count / 2 + 1) (count - (count / 2 + 1)) k p
                (omega arith) (omega arith) (omega arith) (omega arith))
        | inr above ↦
            let before : k ≤ first + count / 2 = not_below p above in
            rw (test, above)
              (bisect-IsParted fuel ms x first (count / 2) k p from before (omega arith)
                (omega arith))
      ]
]
  where
    not_above :
        {ms : List ℕ} {x k i : ℕ}
        → IsParted ms x k
        → less_int (get_or ms i 0) x ≡ true
        → i < length ms
        → i < k
    not_above {ms} {x} {k} {i} p b inside = elim (Bool-cases (ltb i k)) [
      | inl e ↦ ground arith
      | inr e ↦ cc (b, p.above i (ground arith) inside)
    ]

    not_below :
        {ms : List ℕ} {x k i : ℕ} → IsParted ms x k → less_int (get_or ms i 0) x ≡ false → k ≤ i
    not_below {ms} {x} {k} {i} p a = elim (Bool-cases (ltb i k)) [
      | inl e ↦ cc (a, p.below i (ground arith))
      | inr e ↦ ground arith
    ]

-- What comes after an element that is not below `x` is not below it either.
less_int_later : (m n x : ℕ) → less_int m x ≡ false → less_int n m ≡ false → less_int n x ≡ false
unfolding less_int
less_int_later m n x h k = ground arith

get_or-All : (P : ℕ → Type 0) (ms : List ℕ) (i : ℕ) → All P ms → i < length ms → P (get_or ms i 0)
get_or-All P [] i h inside = absurd (omega arith)
get_or-All P (m ∷ ms) zero h inside = h.0
get_or-All P (m ∷ ms) (suc i) h inside = get_or-All P ms i h.1 (omega arith)

pub first_from-IsParted : (ms : List ℕ) (x : ℕ) → IsAscending ms → IsParted ms x (first_from ms x)
first_from-IsParted [] x ascending = record {
  below = λ i h. absurd (omega arith);
  above = λ i h k. absurd (omega arith);
  inside = omega arith;
}
first_from-IsParted (m ∷ ms) x ascending = elim (Bool-cases (less_int m x)) [
  | inl below ↦
      let rest = first_from-IsParted ms x ascending.1 in
      rw below (record {
        below = λ i h. start_below m ms x (first_from ms x) below rest.below i h;
        above = λ i h inside. start_above m ms x (first_from ms x) rest.above i h inside;
        inside = omega (arith, rest.inside);
      })
  | inr found ↦ rw found (record {
    below = λ i h. absurd (omega arith);
    above = λ i _ inside.
        get_or-All (λ n. less_int n x ≡ false) (m ∷ ms) i
          (found, All-mono (λ n. less_int_later m n x found) ms ascending.0) inside;
    inside = omega arith;
  })
]
  where
    start_below :
        (m : ℕ) (ms : List ℕ) (x k : ℕ)
        → less_int m x ≡ true
        → ((i : ℕ) → i < k → less_int (get_or ms i 0) x ≡ true)
        → (i : ℕ) → i < suc k
        → less_int (get_or (m ∷ ms) i 0) x ≡ true
    start_below m ms x k here rest zero h = here
    start_below m ms x k here rest (suc i) h = rest i (omega arith)

    start_above :
        (m : ℕ) (ms : List ℕ) (x k : ℕ)
        → ((i : ℕ) → k ≤ i → i < length ms → less_int (get_or ms i 0) x ≡ false)
        → (i : ℕ) → suc k ≤ i
        → i < suc (length ms)
        → less_int (get_or (m ∷ ms) i 0) x ≡ false
    start_above m ms x k rest zero h inside = absurd (omega arith)
    start_above m ms x k rest (suc i) h inside = rest i (omega arith) (omega arith)

-- In an ascending array the halving search finds the first element that is not below.
pub lower_bound-first_from :
    (ms : List ℕ) (x : ℕ) → IsAscending ms → lower_bound ms x ≡ first_from ms x
unfolding lower_bound
lower_bound-first_from ms x ascending =
    let p = first_from-IsParted ms x ascending in
    bisect-IsParted (length ms) ms x 0 (length ms) (first_from ms x) p (omega arith)
      (omega (arith, p.inside)) (omega arith) (omega arith)
