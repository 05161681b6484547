-- ===== src/Slots/Build.antt =====
-- What a finished build guarantees: the table answers for the given cells and for no other key.
use mathlib.Core.List.{Perm}
use mathlib.Core.Logic.{∥∥₁_elim}
use hipermap.Common.{
  ℕ, zero, suc, ◌+◌, ◌≡◌, ◌≢◌, refl, sym, ap, ◌∙◌, subst, arith, List, Mem, inl, inr, length, ok,
  >>=-eq-ok, All-mono, All-zip,
}
use hipermap.Slots.{
  CellType, hash64, bucket, Found, filled, put_all, search_factors, clear_hash_table, fill_slots,
  sort_groups, build,
}
use hipermap.Slots.Group.{IsBase, Holds, Holds-clear}
use hipermap.Slots.PutAll.{
  Attempt-cases, NonZero, length-put_all, put_all-stores, put_all-only, put_all-Distinct,
}
use hipermap.Slots.Fill.{
  AreFilled, fill_slots-AreFilled, AreFilled-keep, AreFilled-only, AreFilled-ne-zero,
}
use hipermap.Slots.Sort.{length-sort_groups, Holds-sort_groups}
use hipermap.Slots.Table.{IsMask, bucket-IsBase, bucket_home, IsTable, length-clear}

module _ {A : Type 0} (cell : CellType A) where
  open cell use {key, empty}

  -- The search stops at factors under which every key found a slot.
  search_factors-filled :
      (fuel mask first : ℕ) (cells : List A) (factor1 factor2 : ℕ) {found : Found A}
      → search_factors cell fuel mask first cells factor1 factor2 ≡ ok found
      → put_all cell (bucket found.factor1 found.factor2 mask) cells (clear_hash_table cell mask)
        ≡ filled found.table
  unfolding search_factors
  search_factors-filled zero mask first cells factor1 factor2 h = cc h
  search_factors-filled (suc fuel) mask first cells factor1 factor2 {found} h =
      elim (Attempt-cases
        (put_all cell (bucket factor1 factor2 mask) cells (clear_hash_table cell mask))) [
          | inl (t, e) ↦
              let r : ok (record { factor1 = factor1; factor2 = factor2; table = t }) ≡ ok found =
                rw (e, search_factors) at h in
              ground arith
          | inr (inl e) ↦ cc (rw (e, search_factors) at h)
          | inr (inr e) ↦
              search_factors-filled fuel mask first cells (hash64 factor1 factor2 first)
                (hash64 (hash64 factor1 factor2 first) factor2 first) (rw (e, search_factors) at h)
        ]

  -- What the three stages of a build leave behind.
  build-stages :
      (qsort : List A → List A) (fuel mask first : ℕ) (cells : List A) {found : Found A}
      → build cell qsort fuel mask first cells ≡ ok found
      → (t t' : List A) × (put_all cell
            (bucket found.factor1 found.factor2 mask)
            cells
            (clear_hash_table cell mask)
          ≡ filled t)
        × (fill_slots cell fuel mask
              (bucket found.factor1 found.factor2 mask)
              4
              (bucket found.factor1 found.factor2 mask 0)
              t
            ≡ ok t')
        × (found.table ≡ sort_groups qsort t')
  unfolding build
  build-stages qsort fuel mask first cells {found} h =
      let (searched, e, rest) =
        >>=-eq-ok (search_factors cell fuel mask first cells 0xA6C3096657A14E89 0x24F963569D05D92E)
          _ h in
      let (t', f, last) =
        >>=-eq-ok
          (fill_slots cell fuel mask (bucket searched.factor1 searched.factor2 mask) 4
            (bucket searched.factor1 searched.factor2 mask 0) searched.table)
          _ rest in
      let final : record searched { table = sort_groups qsort t' } ≡ found = ground arith in
      rw (← final) (
        searched.table,
        t',
        search_factors-filled fuel mask first cells 0xA6C3096657A14E89 0x24F963569D05D92E e,
        f,
        refl,
      )

  module _ (qsort : List A → List A) (permutes : (xs : List A) → Perm (qsort xs) xs)
      (factor1 factor2 mask : ℕ) (is_mask : IsMask mask) (cells t t' : List A)
      (nonzero : NonZero cell cells)
      (put : put_all cell (bucket factor1 factor2 mask) cells (clear_hash_table cell mask)
        ≡ filled t)
      (fill : AreFilled cell
        (bucket factor1 factor2 mask)
        (bucket factor1 factor2 mask 0)
        (bucket factor1 factor2 mask 0)
        4
        t
        t')
      (length_t : length t ≡ mask + 4) where
    abbrev bucket_of : ℕ → ℕ
    bucket_of = bucket factor1 factor2 mask

    bases : (k : ℕ) → IsBase (mask + 4) (bucket_of k)
    bases k = bucket-IsBase factor1 factor2 mask k is_mask

    bases' : (k : ℕ) → IsBase (length t') (bucket_of k)
    bases' k = rw (fill.same_length, length_t) (bases k)

    stored_before_sort :
        (c : A)
        → (key c ≢ 0) × Holds cell t (bucket_of (key c)) c
        → ∥ Holds cell (sort_groups qsort t') (bucket_of (key c)) c ∥₁
    stored_before_sort c (nz, held) =
        (Holds-sort_groups cell qsort permutes t' (bucket_of (key c)) c (bases' (key c))).0
          (AreFilled-keep cell bucket_of (bucket_of (key c)) c fill nz held)

    only_before_sort : (k : ℕ) (d : A) → key d ≡ k → Holds cell t' (bucket_of k) d → Mem d cells
    only_before_sort k d e held =
        elim (AreFilled-only cell bucket_of (bucket_of k) d fill (bases 0).aligned (bases k).aligned
          held) [
            | inr (at_home, away) ↦ absurd (away (ap bucket_of e ∙ at_home))
            | inl old ↦
                elim (put_all-only cell bucket_of (mask + 4) bases cells
                  (clear_hash_table cell mask) k d (length-clear cell mask is_mask) put old) [
                    | inr placed ↦ placed
                    | inl cleared ↦
                        let z : key d ≡ 0 = Holds-clear cell mask (bucket_of k) d cleared in
                        let k0 : k ≡ 0 = sym e ∙ z in
                        absurd (
                          AreFilled-ne-zero cell bucket_of d fill
                            (subst (λ j. Holds cell t' (bucket_of j) d) k0 held) z)
                  ]
          ]

  -- A build that returns leaves a table for exactly the given cells.
  pub build-IsTable :
      (qsort : List A → List A) (permutes : (xs : List A) → Perm (qsort xs) xs)
      (fuel mask first : ℕ) (cells : List A) {found : Found A}
      → IsMask mask
      → NonZero cell cells
      → build cell qsort fuel mask first cells ≡ ok found
      → IsTable cell found.factor1 found.factor2 mask cells found.table
  build-IsTable qsort permutes fuel mask first cells {found} is_mask nonzero h =
      let (t, t', put, filling, sorted) = build-stages qsort fuel mask first cells h in
      let bucket_of = bucket found.factor1 found.factor2 mask in
      let base = λ (k : ℕ). bucket-IsBase found.factor1 found.factor2 mask k is_mask in
      let cleared = length-clear cell mask is_mask in
      let length_t : length t ≡ mask + 4 =
        length-put_all cell bucket_of (mask + 4) base cells (clear_hash_table cell mask) cleared
          put in
      let fill =
        fill_slots-AreFilled cell bucket_of fuel mask (bucket_of 0) 4 (bucket_of 0) t
          (rw length_t (base 0).inside)
          (λ j p q. bucket_home found.factor1 found.factor2 mask 0 j is_mask p q) filling in
      let keep =
        stored_before_sort qsort permutes found.factor1 found.factor2 mask is_mask cells t t'
          nonzero put fill length_t in
      let drop =
        only_before_sort qsort permutes found.factor1 found.factor2 mask is_mask cells t t' nonzero
          put fill length_t in
      record {
        length_lem =
            ap length sorted ∙ length-sort_groups qsort permutes t' ∙ fill.same_length ∙ length_t;
        stored = rw sorted (
            All-mono keep cells (
              All-zip (λ c. key c ≢ 0) (λ c. Holds cell t (bucket_of (key c)) c) cells nonzero
                (put_all-stores cell bucket_of (mask + 4) base cells (clear_hash_table cell mask)
                  cleared nonzero put)));
        only = λ k d e held.
            ∥∥₁_elim
              ((Holds-sort_groups cell qsort permutes t' (bucket_of k) d
                  (rw (fill.same_length, length_t) (base k))).1
                (rw sorted at held))
              squash₁ (drop k d e);
        distinct =
            put_all-Distinct cell bucket_of (mask + 4) base cells (clear_hash_table cell mask)
              cleared nonzero put;
      }
