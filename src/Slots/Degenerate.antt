-- ===== src/Slots/Degenerate.antt =====
-- With both factors zero every key selects the first group, and the search never leaves them.
use native.Mathlib.Nat.{mul-zero, zero-mul}
use hipermap.Common.{ℕ, zero, suc, ◌+◌, ◌≡◌, ◌≢◌, refl, ◌∙◌, arith, List, ◌∷◌, exhausted, replicate}
use hipermap.Slots.{
  CellType, hash64, bucket, filled, collision, put, put_all, search_factors, clear_hash_table,
  build,
}
use hipermap.Slots.PutAll.{Distinct, NonZero}
use hipermap.Slots.Table.{IsMask, get_buckets_lem}
use hipermap.Words.Bits.{zero-bit_and}

hash64-zero : (factor2 k : ℕ) → hash64 0 factor2 k ≡ 0
unfolding hash64
hash64-zero factor2 k = rw (mul-zero, zero-mul)

bucket-zero : (mask k : ℕ) → bucket 0 0 mask k ≡ 0
unfolding bucket
bucket-zero mask k = rw (hash64-zero 0 k) (zero-bit_and mask)

module _ {A : Type 0} (cell : CellType A) where
  open cell use {key, empty}

  -- The first four keys take the four slots of the group.
  put_slots :
      (a b c d : A) (w x y z : A) (r : List A)
      → (key a ≢ 0) × (key b ≢ 0) × (key c ≢ 0) × (key d ≢ 0)
      → (key w ≡ 0) × (key x ≡ 0) × (key y ≡ 0) × (key z ≡ 0)
      → (key b ≢ key a) × (key c ≢ key a) × (key d ≢ key a)
      → (key c ≢ key b) × (key d ≢ key b) × (key d ≢ key c)
      → (put cell (w ∷ x ∷ y ∷ z ∷ r) 0 a ≡ filled (a ∷ x ∷ y ∷ z ∷ r))
        × (put cell (a ∷ x ∷ y ∷ z ∷ r) 0 b ≡ filled (a ∷ b ∷ y ∷ z ∷ r))
        × (put cell (a ∷ b ∷ y ∷ z ∷ r) 0 c ≡ filled (a ∷ b ∷ c ∷ z ∷ r))
        × (put cell (a ∷ b ∷ c ∷ z ∷ r) 0 d ≡ filled (a ∷ b ∷ c ∷ d ∷ r))
  unfolding put
  put_slots a b c d w x y z r n e p q = (ground arith, ground arith, ground arith, ground arith)

  -- The fifth finds no slot.
  put_fifth :
      (a b c d f : A) (r : List A)
      → (key a ≢ 0) × (key b ≢ 0) × (key c ≢ 0) × (key d ≢ 0)
      → (key f ≢ key a) × (key f ≢ key b) × (key f ≢ key c) × (key f ≢ key d)
      → put cell (a ∷ b ∷ c ∷ d ∷ r) 0 f ≡ collision
  unfolding put
  put_fifth a b c d f r n p = ground arith

  put_all-step :
      (bucket_of : ℕ → ℕ) (c : A) (cs t : List A) {t1 : List A}
      → bucket_of (key c) ≡ 0
      → put cell t 0 c ≡ filled t1
      → put_all cell bucket_of (c ∷ cs) t ≡ put_all cell bucket_of cs t1
  unfolding put_all
  put_all-step bucket_of c cs t {t1} b e =
      let e' : put cell t (bucket_of (key c)) c ≡ filled t1 = rw b e in rw (e', put_all)

  put_all-stop :
      (bucket_of : ℕ → ℕ) (c : A) (cs t : List A)
      → bucket_of (key c) ≡ 0
      → put cell t 0 c ≡ collision
      → put_all cell bucket_of (c ∷ cs) t ≡ collision
  unfolding put_all
  put_all-stop bucket_of c cs t b e =
      let e' : put cell t (bucket_of (key c)) c ≡ collision = rw b e in rw (e', put_all)

  clear_hash_table-cons :
      (mask : ℕ)
      → IsMask mask
      → clear_hash_table cell mask ≡ empty ∷ empty ∷ empty ∷ empty ∷ replicate mask empty
  unfolding clear_hash_table replicate
  clear_hash_table-cons mask is_mask =
      let four : mask + 4 ≡ suc (suc (suc (suc mask))) = omega arith in
      rw (get_buckets_lem mask is_mask, four)

  put_all-collision :
      (mask : ℕ) (is_mask : IsMask mask) (a b c d f : A) (cs : List A)
      → NonZero cell (a ∷ b ∷ c ∷ d ∷ f ∷ cs)
      → Distinct cell (a ∷ b ∷ c ∷ d ∷ f ∷ cs)
      → put_all cell (bucket 0 0 mask) (a ∷ b ∷ c ∷ d ∷ f ∷ cs) (clear_hash_table cell mask)
        ≡ collision
  put_all-collision mask is_mask a b c d f cs n p =
      let z = cell.key-empty in
      let r = replicate mask empty in
      let home = λ (x : A). bucket-zero mask (key x) in
      let (pa, pb, pc, pd) =
        put_slots a b c d empty empty empty empty r (n.0, n.1.0, n.1.1.0, n.1.1.1.0) (z, z, z, z)
          (p.0.0, p.0.1.0, p.0.1.1.0) (p.1.0.0, p.1.0.1.0, p.1.1.0.0) in
      let pf =
        put_fifth a b c d f r (n.0, n.1.0, n.1.1.0, n.1.1.1.0)
          (p.0.1.1.1.0, p.1.0.1.1.0, p.1.1.0.1.0, p.1.1.1.0.0) in
      rw (clear_hash_table-cons mask is_mask) (
        put_all-step (bucket 0 0 mask) a (b ∷ c ∷ d ∷ f ∷ cs) _ (home a) pa
        ∙ put_all-step (bucket 0 0 mask) b (c ∷ d ∷ f ∷ cs) _ (home b) pb
        ∙ put_all-step (bucket 0 0 mask) c (d ∷ f ∷ cs) _ (home c) pc
        ∙ put_all-step (bucket 0 0 mask) d (f ∷ cs) _ (home d) pd
        ∙ put_all-stop (bucket 0 0 mask) f cs _ (home f) pf)

  -- Five different nonzero keys under zero factors: the loop runs for ever.
  pub search_factors-exhausted :
      (mask : ℕ) (is_mask : IsMask mask) (first : ℕ) (a b c d f : A) (cs : List A)
      → NonZero cell (a ∷ b ∷ c ∷ d ∷ f ∷ cs)
      → Distinct cell (a ∷ b ∷ c ∷ d ∷ f ∷ cs)
      → (fuel : ℕ) → search_factors cell fuel mask first (a ∷ b ∷ c ∷ d ∷ f ∷ cs) 0 0 ≡ exhausted
  unfolding search_factors
  search_factors-exhausted mask is_mask first a b c d f cs n p zero = refl
  search_factors-exhausted mask is_mask first a b c d f cs n p (suc fuel) =
      rw
        (
          put_all-collision mask is_mask a b c d f cs n p,
          search_factors,
          hash64-zero 0 first,
          hash64-zero 0 first,
        )
        (search_factors-exhausted mask is_mask first a b c d f cs n p fuel)

  -- If `keys[0]` hashes to 0 under the initial factors, one collision leads to zero factors.
  pub build-exhausted :
      (qsort : List A → List A) (mask : ℕ) (is_mask : IsMask mask) (first : ℕ) (a b c d f : A)
      (cs : List A)
      → NonZero cell (a ∷ b ∷ c ∷ d ∷ f ∷ cs)
      → Distinct cell (a ∷ b ∷ c ∷ d ∷ f ∷ cs)
      → hash64 0xA6C3096657A14E89 0x24F963569D05D92E first ≡ 0
      → put_all cell
          (bucket 0xA6C3096657A14E89 0x24F963569D05D92E mask)
          (a ∷ b ∷ c ∷ d ∷ f ∷ cs)
          (clear_hash_table cell mask)
        ≡ collision
      → (fuel : ℕ) → build cell qsort fuel mask first (a ∷ b ∷ c ∷ d ∷ f ∷ cs) ≡ exhausted
  unfolding build
  build-exhausted qsort mask is_mask first a b c d f cs n p zero_hash full fuel = rw (loops fuel)
    where
      cells : List A
      cells = a ∷ b ∷ c ∷ d ∷ f ∷ cs

      loops :
          (fuel : ℕ)
          → search_factors cell fuel mask first
              (a ∷ b ∷ c ∷ d ∷ f ∷ cs)
              0xA6C3096657A14E89
              0x24F963569D05D92E
            ≡ exhausted
      loops zero = unfold search_factors in refl
      loops (suc fuel) =
          unfold search_factors in
          rw (full, search_factors, zero_hash, hash64-zero 0x24F963569D05D92E first)
            (search_factors-exhausted mask is_mask first a b c d f cs n p fuel)
