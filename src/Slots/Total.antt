-- ===== src/Slots/Total.antt =====
-- A build of up to four cells returns at the first attempt.
use Prim.Native.Nat.{bit_and}
use hipermap.Common.{
  ℕ, zero, suc, ◌+◌, ◌-◌, ◌≤◌, ◌<◌, ◌≡◌, ◌≢◌, ◌⊎◌, inl, inr, refl, sym, ap, ◌∙◌, arith, true, false,
  List, ok, ok_inj, length, set, eq_cases, ◌==◌,
}
use hipermap.Words.{add64}
use hipermap.Slots.{
  CellType, read, hash64, bucket, Found, filled, put_all, search_factors, clear_hash_table,
  bump_until, fill_slot, fill_slots, sort_groups, build, hash_table_buckets, round_up_to_power_of_2,
  double_until, int_or_zero,
}
use hipermap.Slots.PutAll.{Distinct, NonZero}
use hipermap.Slots.Table.{IsMask, bucket-IsBase, bucket_home, length-clear}
use hipermap.Slots.Errors.{IsFresh-clear}
use hipermap.Slots.Small.{occupied-clear, put_all-filled}

away_16 :
    bucket 0xA6C3096657A14E89 0x24F963569D05D92E 12 1
    ≢ bucket 0xA6C3096657A14E89 0x24F963569D05D92E 12 0
unfolding bucket hash64
away_16 = omega arith

away_32 :
    bucket 0xA6C3096657A14E89 0x24F963569D05D92E 28 1
    ≢ bucket 0xA6C3096657A14E89 0x24F963569D05D92E 28 0
unfolding bucket hash64
away_32 = omega arith

few_buckets :
    (n : ℕ) → 0 < n → n ≤ 4 → (hash_table_buckets n ≡ ok 16) ⊎ (hash_table_buckets n ≡ ok 32)
unfolding hash_table_buckets round_up_to_power_of_2 double_until int_or_zero
few_buckets zero pos few = absurd (omega arith)
few_buckets (suc zero) pos few = inl refl
few_buckets (suc (suc zero)) pos few = inl refl
few_buckets (suc (suc (suc zero))) pos few = inr refl
few_buckets (suc (suc (suc (suc zero)))) pos few = inr refl
few_buckets (suc (suc (suc (suc (suc n))))) pos few = absurd (omega arith)

-- In the tables of up to four keys the initial factors keep key 1 out of key 0's group.
pub bucket_one-ne :
    (n buckets : ℕ)
    → 0 < n
    → n ≤ 4
    → hash_table_buckets n ≡ ok buckets
    → bucket 0xA6C3096657A14E89 0x24F963569D05D92E (buckets - 1 - 3) 1
      ≢ bucket 0xA6C3096657A14E89 0x24F963569D05D92E (buckets - 1 - 3) 0
bucket_one-ne n buckets pos few counted = elim (few_buckets n pos few) [
  | inl e16 ↦ let b : buckets ≡ 16 = ok_inj (sym counted ∙ e16) in rw b away_16
  | inr e32 ↦ let b : buckets ≡ 32 = ok_inj (sym counted ∙ e32) in rw b away_32
]

module _ {A : Type 0} (cell : CellType A) where
  open cell use {key, empty, bump}

  -- Where key 1 belongs to another group, it is the filler.
  fill_slot-ok :
      (f mask home : ℕ) (bucket_of : ℕ → ℕ) (t : List A) (i : ℕ)
      → bit_and i mask ≡ home
      → bucket_of 1 ≢ home
      → (t' : List A) × (fill_slot cell (suc f) mask bucket_of t i ≡ ok t')
  unfolding fill_slot bump_until
  fill_slot-ok f mask home bucket_of t i e away = elim (eq_cases (key (read cell t i)) 0) [
    | inr taken ↦ (t, ground arith)
    | inl free ↦
        let one : key (bump (read cell t i)) ≡ 1 =
          cell.key-bump (read cell t i) ∙ ap (λ (x : ℕ). add64 x 1) free in
        let stop : (bucket_of (key (bump (read cell t i))) == bit_and i mask) ≡ false =
          rw (one, e) (ground arith) in
        let free' : (key (read cell t i) == 0) ≡ true = ground arith in
        (set t i (bump (read cell t i)), rw (free', stop))
  ]

  fill_slots-ok :
      (f mask home : ℕ) (bucket_of : ℕ → ℕ) (left i : ℕ) (t : List A)
      → ((j : ℕ) → i ≤ j → j < i + left → bit_and j mask ≡ home)
      → bucket_of 1 ≢ home
      → (t' : List A) × (fill_slots cell (suc f) mask bucket_of left i t ≡ ok t')
  unfolding fill_slots
  fill_slots-ok f mask home bucket_of zero i t at_home away = (t, refl)
  fill_slots-ok f mask home bucket_of (suc left) i t at_home away =
      let (t1, e) =
        fill_slot-ok f mask home bucket_of t i (at_home i (omega arith) (omega arith)) away in
      let (t', rest) =
        fill_slots-ok f mask home bucket_of left (i + 1) t1
          (λ j p q. at_home j (omega arith) (omega arith)) away in
      (t', rw e rest)

  search_factors-filled :
      (f mask first : ℕ) (cells : List A) (factor1 factor2 : ℕ) {t : List A}
      → put_all cell (bucket factor1 factor2 mask) cells (clear_hash_table cell mask) ≡ filled t
      → search_factors cell (suc f) mask first cells factor1 factor2
        ≡ ok (record { factor1 = factor1; factor2 = factor2; table = t })
  unfolding search_factors
  search_factors-filled f mask first cells factor1 factor2 put = rw (put, search_factors)

  -- Four cells with different nonzero keys are built at the first attempt, if the initial factors
  -- send key 1 to another group than key 0.
  pub build-ok :
      (qsort : List A → List A) (f mask first : ℕ) (cells : List A)
      → IsMask mask
      → NonZero cell cells
      → Distinct cell cells
      → length cells ≤ 4
      → bucket 0xA6C3096657A14E89 0x24F963569D05D92E mask 1
        ≢ bucket 0xA6C3096657A14E89 0x24F963569D05D92E mask 0
      → (found : Found A) × (build cell qsort (suc f) mask first cells ≡ ok found)
  unfolding build
  build-ok qsort f mask first cells is_mask nonzero distinct few away =
      let bucket_of = bucket 0xA6C3096657A14E89 0x24F963569D05D92E mask in
      let (t, put) =
        put_all-filled cell bucket_of (mask + 4)
          (λ k. bucket-IsBase 0xA6C3096657A14E89 0x24F963569D05D92E mask k is_mask) cells
          (clear_hash_table cell mask) 0 (length-clear cell mask is_mask) (omega arith)
          (λ k. occupied-clear cell mask (bucket_of k)) distinct
          (IsFresh-clear cell mask is_mask 0xA6C3096657A14E89 0x24F963569D05D92E cells nonzero) in
      let (t', filling) =
        fill_slots-ok f mask (bucket_of 0) bucket_of 4 (bucket_of 0) t
          (λ j p q. bucket_home 0xA6C3096657A14E89 0x24F963569D05D92E mask 0 j is_mask p q) away in
      (
        record {
          factor1 = 0xA6C3096657A14E89;
          factor2 = 0x24F963569D05D92E;
          table = sort_groups qsort t';
        },
        rw (
          search_factors-filled f mask first cells 0xA6C3096657A14E89 0x24F963569D05D92E put,
          filling,
        ),
      )
