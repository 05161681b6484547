-- ===== src/Slots/Errors.antt =====
-- Which errors a build can return: for different nonzero keys, none.
use hipermap.Common.{
  ℕ, zero, suc, ◌+◌, ◌*◌, ◌≡◌, ◌≢◌, inl, inr, sym, ◌∙◌, arith, List, Outcome, err, >>=-eq-err,
  HmError, bad_value, All-mono, Bool-cases, ◌==◌,
}
use hipermap.Slots.{
  CellType, read, hash64, bucket, Found, put_all, search_factors, clear_hash_table, bump_until,
  fill_slot, fill_slots, build, double_until, round_up_to_power_of_2, hash_table_buckets,
}
use hipermap.Slots.PutAll.{Attempt-cases, Distinct, NonZero, IsFresh, put_all-ne-duplicate}
use hipermap.Slots.Put.{Lacks-of_Holds}
use hipermap.Slots.Group.{Holds-clear}
use hipermap.Slots.Table.{IsMask, bucket-IsBase, length-clear}

-- The sizes are never an error.
double_until-ne-err : (fuel power n : ℕ) (e : HmError) → double_until fuel power n ≢ err e
unfolding double_until
double_until-ne-err zero power n e h = cc h
double_until-ne-err (suc fuel) power n e h =
    ground (arith, double_until-ne-err fuel (power * 2) n e)

pub hash_table_buckets-ne-err : (n : ℕ) (e : HmError) → hash_table_buckets n ≢ err e
unfolding hash_table_buckets round_up_to_power_of_2
hash_table_buckets-ne-err n e h = elim (>>=-eq-err (round_up_to_power_of_2 n) _ h) [
  | inl first ↦ double_until-ne-err 32 1 _ e first
  | inr (p, _, rest) ↦ cc rest
]

module _ {A : Type 0} (cell : CellType A) where
  open cell use {key, empty, bump}

  bump_until-ne-err :
      (fuel : ℕ) (bucket_of : ℕ → ℕ) (home : ℕ) (c : A) (e : HmError)
      → bump_until cell fuel bucket_of home c ≢ err e
  unfolding bump_until
  bump_until-ne-err zero bucket_of home c e h = cc h
  bump_until-ne-err (suc fuel) bucket_of home c e h =
      ground (arith, bump_until-ne-err fuel bucket_of home (bump c) e)

  fill_slot-ne-err :
      (fuel mask : ℕ) (bucket_of : ℕ → ℕ) (t : List A) (i : ℕ) (e : HmError)
      → fill_slot cell fuel mask bucket_of t i ≢ err e
  unfolding fill_slot
  fill_slot-ne-err fuel mask bucket_of t i e h = elim (Bool-cases (key (read cell t i) == 0)) [
    | inr taken ↦ cc (rw taken at h)
    | inl free ↦
        elim (>>=-eq-err (bump_until cell fuel bucket_of _ (read cell t i)) _ (rw free at h)) [
          | inl first ↦ bump_until-ne-err fuel bucket_of _ (read cell t i) e first
          | inr (_, _, rest) ↦ cc rest
        ]
  ]

  fill_slots-ne-err :
      (fuel mask : ℕ) (bucket_of : ℕ → ℕ) (left i : ℕ) (t : List A) (e : HmError)
      → fill_slots cell fuel mask bucket_of left i t ≢ err e
  unfolding fill_slots
  fill_slots-ne-err fuel mask bucket_of zero i t e h = cc h
  fill_slots-ne-err fuel mask bucket_of (suc left) i t e h =
      elim (>>=-eq-err (fill_slot cell fuel mask bucket_of t i) _ h) [
        | inl first ↦ fill_slot-ne-err fuel mask bucket_of t i e first
        | inr (t1, _, rest) ↦ fill_slots-ne-err fuel mask bucket_of left (i + 1) t1 e rest
      ]

  pub IsFresh-clear :
      (mask : ℕ) (is_mask : IsMask mask) (factor1 factor2 : ℕ) (cells : List A)
      → NonZero cell cells
      → IsFresh cell
          (bucket factor1 factor2 mask)
          (mask + 4)
          (λ k. bucket-IsBase factor1 factor2 mask k is_mask)
          (clear_hash_table cell mask)
          cells
  IsFresh-clear mask is_mask factor1 factor2 cells h =
      All-mono
        (λ c nonzero.
          Lacks-of_Holds cell (clear_hash_table cell mask) (bucket factor1 factor2 mask (key c))
            (key c) λ d held same. nonzero (sym same ∙ Holds-clear cell mask _ d held))
        cells h

  search_factors-ne-err :
      (fuel mask first : ℕ) (cells : List A) (factor1 factor2 : ℕ) (e : HmError)
      → IsMask mask
      → NonZero cell cells
      → Distinct cell cells
      → search_factors cell fuel mask first cells factor1 factor2 ≢ err e
  unfolding search_factors
  search_factors-ne-err zero mask first cells factor1 factor2 e is_mask nonzero distinct h = cc h
  search_factors-ne-err (suc fuel) mask first cells factor1 factor2 e is_mask nonzero distinct h =
      elim (Attempt-cases
        (put_all cell (bucket factor1 factor2 mask) cells (clear_hash_table cell mask))) [
          | inl (t, found) ↦ cc (rw (found, search_factors) at h)
          | inr (inl twice) ↦
              put_all-ne-duplicate cell (bucket factor1 factor2 mask) (mask + 4)
                (λ k. bucket-IsBase factor1 factor2 mask k is_mask) cells
                (clear_hash_table cell mask) (length-clear cell mask is_mask) distinct
                (IsFresh-clear mask is_mask factor1 factor2 cells nonzero) twice
          | inr (inr full) ↦
              search_factors-ne-err fuel mask first cells (hash64 factor1 factor2 first)
                (hash64 (hash64 factor1 factor2 first) factor2 first) e is_mask nonzero distinct
                (rw (full, search_factors) at h)
        ]

  -- A build of cells with different nonzero keys reports no error.
  pub build-ne-err :
      (qsort : List A → List A) (fuel mask first : ℕ) (cells : List A) (e : HmError)
      → IsMask mask
      → NonZero cell cells
      → Distinct cell cells
      → build cell qsort fuel mask first cells ≢ err e
  unfolding build
  build-ne-err qsort fuel mask first cells e is_mask nonzero distinct h =
      elim (>>=-eq-err
        (search_factors cell fuel mask first cells 0xA6C3096657A14E89 0x24F963569D05D92E) _ h) [
          | inl searched ↦
              search_factors-ne-err fuel mask first cells 0xA6C3096657A14E89 0x24F963569D05D92E e
                is_mask nonzero distinct searched
          | inr (found, _, rest) ↦
              elim (>>=-eq-err
                (fill_slots cell fuel mask (bucket found.factor1 found.factor2 mask) 4
                  (bucket found.factor1 found.factor2 mask 0) found.table)
                _ rest) [
                  | inl filling ↦
                      fill_slots-ne-err fuel mask (bucket found.factor1 found.factor2 mask) 4
                        (bucket found.factor1 found.factor2 mask 0) found.table e filling
                  | inr (_, _, last) ↦ cc last
                ]
        ]

  -- Whatever the keys, the only error of a build is HM_ERROR_BAD_VALUE.
  search_factors-eq-err :
      (fuel mask first : ℕ) (cells : List A) (factor1 factor2 : ℕ) (e : HmError)
      → search_factors cell fuel mask first cells factor1 factor2 ≡ err e
      → e ≡ bad_value
  unfolding search_factors
  search_factors-eq-err zero mask first cells factor1 factor2 e h = cc h
  search_factors-eq-err (suc fuel) mask first cells factor1 factor2 e h =
      elim (Attempt-cases
        (put_all cell (bucket factor1 factor2 mask) cells (clear_hash_table cell mask))) [
          | inl (t, found) ↦ cc (rw (found, search_factors) at h)
          | inr (inl twice) ↦
              let r : ◌≡◌ {A = Outcome (Found A)} (err bad_value) (err e) =
                rw (twice, search_factors) at h in
              ground arith
          | inr (inr full) ↦
              search_factors-eq-err fuel mask first cells (hash64 factor1 factor2 first)
                (hash64 (hash64 factor1 factor2 first) factor2 first) e
                (rw (full, search_factors) at h)
        ]

  pub build-eq-err :
      (qsort : List A → List A) (fuel mask first : ℕ) (cells : List A) (e : HmError)
      → build cell qsort fuel mask first cells ≡ err e
      → e ≡ bad_value
  unfolding build
  build-eq-err qsort fuel mask first cells e h =
      elim (>>=-eq-err
        (search_factors cell fuel mask first cells 0xA6C3096657A14E89 0x24F963569D05D92E) _ h) [
          | inl searched ↦
              search_factors-eq-err fuel mask first cells 0xA6C3096657A14E89 0x24F963569D05D92E e
                searched
          | inr (found, _, rest) ↦
              elim (>>=-eq-err
                (fill_slots cell fuel mask (bucket found.factor1 found.factor2 mask) 4
                  (bucket found.factor1 found.factor2 mask 0) found.table)
                _ rest) [
                  | inl filling ↦ absurd (
                      fill_slots-ne-err fuel mask (bucket found.factor1 found.factor2 mask) 4
                        (bucket found.factor1 found.factor2 mask 0) found.table e filling)
                  | inr (_, _, last) ↦ cc last
                ]
        ]
