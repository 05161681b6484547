-- ===== src/Slots/Table.antt =====
-- The masks of whole groups, and what makes a table answer for a list of cells.
use Prim.Native.Nat.{bit_and}
use hipermap.Common.{
  ℕ, ◌+◌, ◌-◌, ◌%◌, ◌^◌, ◌≤◌, ◌<◌, ◌≡◌, sym, ap, ◌∙◌, arith, List, Mem, length, All,
  length-replicate,
}
use hipermap.Words.Bits.{bit_and-le, bit_and-mod_four, bit_and_base, bit_and_idem}
use hipermap.Slots.{CellType, hash64, bucket, get_buckets, clear_hash_table}
use hipermap.Slots.Group.{IsBase, Holds}
use hipermap.Slots.PutAll.{Distinct}

-- `mask_for_hash` of a table of whole groups.
pub record IsMask (mask : ℕ) : Type 0 where
  pub groups : mask % 4 ≡ 0
  pub fits : mask + 4 < 2 ^ 64

pub get_buckets_lem : (mask : ℕ) → IsMask mask → get_buckets mask ≡ mask + 4
unfolding get_buckets
get_buckets_lem mask m = omega arith

-- Every key selects a group inside the table.
pub bucket-IsBase :
    (factor1 factor2 mask k : ℕ) → IsMask mask → IsBase (mask + 4) (bucket factor1 factor2 mask k)
unfolding bucket
bucket-IsBase factor1 factor2 mask k m = record {
  aligned = bit_and-mod_four (hash64 factor1 factor2 k) mask m.groups;
  inside = omega (arith, bit_and-le (hash64 factor1 factor2 k) mask);
}

-- The slots of a group all lead back to its first slot.
pub bucket_home :
    (factor1 factor2 mask k j : ℕ)
    → IsMask mask
    → bucket factor1 factor2 mask k ≤ j
    → j < bucket factor1 factor2 mask k + 4
    → bit_and j mask ≡ bucket factor1 factor2 mask k
bucket_home factor1 factor2 mask k j m p q =
    let b = bucket factor1 factor2 mask k in
    let e : b + (j - b) ≡ j = omega arith in
    ap (λ (x : ℕ). bit_and x mask) (sym e)
    ∙ bit_and_base b (j - b) mask m.groups (bucket-IsBase factor1 factor2 mask k m).aligned
        (omega arith)
    ∙ (unfold bucket in bit_and_idem (hash64 factor1 factor2 k) mask)

module _ {A : Type 0} (cell : CellType A) where
  open cell use {key, empty}

  -- The table, under its factors and mask, holds each cell in its key's group, and the group of a
  -- key holds that key in no other cell. Key 0 is nowhere in its group.
  pub record IsTable (factor1 factor2 mask : ℕ) (cells table : List A) : Type 0 where
    pub length_lem : length table ≡ mask + 4
    pub stored : All (λ c. ∥ Holds cell table (bucket factor1 factor2 mask (key c)) c ∥₁) cells
    pub only :
        (k : ℕ) (d : A)
        → key d ≡ k
        → Holds cell table (bucket factor1 factor2 mask k) d
        → Mem d cells
    pub distinct : Distinct cell cells

  pub length-clear : (mask : ℕ) → IsMask mask → length (clear_hash_table cell mask) ≡ mask + 4
  unfolding clear_hash_table
  length-clear mask is_mask =
      length-replicate (get_buckets mask) empty ∙ get_buckets_lem mask is_mask
