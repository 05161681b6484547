-- ===== src/Cache/Ring.antt =====
-- The buckets of the hash table of cache.c as a ring: how far one lies behind another.
use Prim.Native.Nat.{bit_and}
use hipermap.Common.{
  ℕ, ◌+◌, ◌-◌, ◌%◌, ◌^◌, ◌≤◌, ◌<◌, ◌≡◌, ◌≢◌, inl, inr, arith, true, false, leb, ◌==◌, if◌then◌else◌,
  ◌∙◌, eq_cases, refl, ◌≢◌,
}
use native.Mathlib.Nat.{mod-eq_of_lt, mod_self, pow-le-pow_right, one-le-pow}
use hipermap.Words.Bits.{bit_and_ones}
use hipermap.Cache.{add32, lies_between}

-- The steps from bucket `a` on to bucket `b`, of `n`.
pub dist : ℕ → ℕ → ℕ → ℕ
dist n a b = if leb a b then b - a else b + n - a

pub next : ℕ → ℕ → ℕ
next n b = if b + 1 == n then 0 else b + 1

mod-next : (n b : ℕ) → b < n → (b + 1) % n ≡ next n b
unfolding next
mod-next n b h = elim (eq_cases (b + 1) n) [
  | inl around ↦ let test : (b + 1 == n) ≡ true = ground arith in rw (test, around) (mod_self n)
  | inr on ↦ let test : (b + 1 == n) ≡ false = ground arith in rw test (mod-eq_of_lt (omega arith))
]

-- The step of the loops.
pub step-next : (k b : ℕ) → k ≤ 32 → b < 2 ^ k → bit_and (add32 b 1) (2 ^ k - 1) ≡ next (2 ^ k) b
unfolding next
step-next k b h lt =
    let ones = bit_and_ones k (add32 b 1) in
    let most : 2 ^ k ≤ 2 ^ 32 = pow-le-pow_right (omega arith) h in
    let some = one-le-pow k 2 (omega arith) in
    elim (eq_cases (b + 1) (2 ^ 32)) [
      | inl wraps ↦
          let whole : 2 ^ k ≡ 2 ^ 32 = omega arith in
          let zero_next : (b + 1) % 2 ^ 32 ≡ 0 = omega arith in
          let test : (b + 1 == 2 ^ k) ≡ true = ground arith in
          ones ∙ rw (zero_next, test, whole) refl
      | inr fits ↦
          let plain : (b + 1) % 2 ^ 32 ≡ b + 1 = omega arith in
          ones ∙ rw plain (mod-next (2 ^ k) b lt)
    ]

module _ (n : ℕ) where
  pub next-lt : (b : ℕ) → b < n → next n b < n
  unfolding next
  next-lt b h = ground arith

  pub dist-lt : (a b : ℕ) → a < n → b < n → dist n a b < n
  unfolding dist
  dist-lt a b h k = ground arith

  pub dist_self : (a : ℕ) → dist n a a ≡ 0
  unfolding dist
  dist_self a = ground arith

  pub dist_pos : (a b : ℕ) → a < n → b < n → a ≢ b → 0 < dist n a b
  unfolding dist
  dist_pos a b h k apart = ground arith

  pub dist_inj : (a b c : ℕ) → a < n → b < n → c < n → dist n a b ≡ dist n a c → b ≡ c
  unfolding dist
  dist_inj a b c h k l same = ground arith

  pub dist-next : (a b : ℕ) → a < n → b < n → a ≢ b → dist n (next n a) b + 1 ≡ dist n a b
  unfolding dist next
  dist-next a b h k apart = ground arith

  -- What lies before `e` from the next bucket on does so from this one on.
  pub dist-next-lt :
      (a b e : ℕ)
      → a < n
      → b < n
      → e < n
      → a ≢ e
      → dist n (next n a) b < dist n (next n a) e
      → dist n a b < dist n a e
  unfolding dist next
  dist-next-lt a b e h k l apart before = ground arith

  pub next_back : (i j : ℕ) → i < n → j < n → next n j ≢ i → dist n i (next n j) ≡ dist n i j + 1
  unfolding dist next
  next_back i j h k apart = ground arith

  pub next_around : (i j : ℕ) → i < n → j < n → next n j ≡ i → dist n i j + 1 ≡ n
  unfolding dist next
  next_around i j h k same = ground arith

  -- `k` does not lie in (i, j]: the gap `i` lies between `k` and `j`.
  pub lies_between-false :
      (i j k : ℕ)
      → i < n
      → j < n
      → k < n
      → i ≢ j
      → lies_between i j k ≡ false
      → dist n k i < dist n k j
  unfolding dist lies_between
  lies_between-false i j k h l m apart test = ground arith

  pub lies_between-true :
      (i j k : ℕ) → i < n → j < n → k < n → lies_between i j k ≡ true → dist n k j ≤ dist n k i
  unfolding dist lies_between
  lies_between-true i j k h l m test = ground arith

  -- What lies between the gap `i` and `b` lies between `h` and `b`, if the gap does.
  pub dist_between :
      (h i j b : ℕ)
      → h < n
      → i < n
      → j < n
      → b < n
      → dist n h i < dist n h b
      → dist n i j < dist n i b
      → dist n h j < dist n h b
  unfolding dist
  dist_between h i j b p q r s gap before = ground arith
