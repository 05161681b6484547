-- ===== src/Slots.antt =====
-- The hash table that static_uint64_set.c and static_uint64_map.c both build, over any type of
-- cells: groups of four consecutive slots, where a key lies in the group that its hash selects.
-- The two files hold the same code, the set over bare keys and the map over key_value_t; U64Set
-- and U64Map apply these definitions to their cells.
-- A table is a list of cells. A read out of range gives the empty cell, and a write out of range
-- does nothing; the theorems about a build are over groups that lie inside the table.
pub mod Group
pub mod Put
pub mod PutAll
pub mod Fill
pub mod Sort
pub mod Table
pub mod Sizes
pub mod Small
pub mod Degenerate
pub mod Total
pub mod Errors
pub mod Build
use Prim.Native.Nat.{bit_and, bit_xor}
use hipermap.Common.{
  ℕ, zero, suc, ◌+◌, ◌-◌, ◌*◌, ◌/◌, ◌%◌, ◌^◌, ◌≡◌, Bool, true, false, ◌||◌, List, [], ◌∷◌, ◌++◌,
  Outcome, ok, err, undefined, exhausted, ◌>>=◌, bad_value, ltb, ◌==◌, if◌then◌else◌, length,
  get_or, set, replicate,
}
use hipermap.Words.{add64, mul64}

-- A slot of the table: its key, the cell that `clear_hash_table` writes, and `key++`.
pub record CellType (A : Type 0) : Type 0 where
  pub key : A → ℕ
  pub empty : A
  pub bump : A → A
  pub key-empty : key empty ≡ 0
  pub key-bump : (c : A) → key (bump c) ≡ add64 (key c) 1

-- `hm_u64_hash64` and `hm_u64map_hash64`, on a key below 2 ^ 64.
unfoldable pub hash64 : ℕ → ℕ → ℕ → ℕ
hash64 factor1 factor2 key =
    let a = bit_xor key (key / 2 ^ 33) in
    let b = mul64 a factor1 in
    let c = bit_xor b (b / 2 ^ 33) in let d = mul64 c factor2 in bit_xor d (d / 2 ^ 33)

-- `hash & mask_for_hash`, the first slot of the key's group.
unfoldable pub bucket : ℕ → ℕ → ℕ → ℕ → ℕ
bucket factor1 factor2 mask key = bit_and (hash64 factor1 factor2 key) mask

-- `while (power < n) power *= 2;` in `int`. Doubling 2 ^ 30 overflows, which C leaves undefined.
unfoldable pub double_until : ℕ → ℕ → ℕ → Outcome ℕ
double_until zero power n = exhausted
double_until (suc fuel) power n =
    let rest = double_until fuel (power * 2) n in
    if ltb power n then (if ltb (power * 2) (2 ^ 31) then rest else undefined) else ok power

-- The conversion of `unsigned int elements` to `int n`: from 2 ^ 31 on it is negative, and then
-- no power is below it.
unfoldable pub int_or_zero : ℕ → ℕ
int_or_zero n = if ltb n (2 ^ 31) then n else 0

unfoldable pub round_up_to_power_of_2 : ℕ → Outcome ℕ
round_up_to_power_of_2 n = double_until 32 1 (int_or_zero n)

-- The product is a `size_t`, and is cut to `int`: a pattern from 2 ^ 31 on is negative.
unfoldable pub hash_table_buckets : ℕ → Outcome ℕ
hash_table_buckets elements = do
  power ← round_up_to_power_of_2 elements
  let result = int_or_zero ((power * 4 * 2) % 2 ^ 32)
  ok (if ltb result 16 then 16 else result)

-- `get_buckets`: the number of slots.
unfoldable pub get_buckets : ℕ → ℕ
get_buckets mask = add64 (add64 mask 1) 3

-- One attempt to put the keys into the groups.
pub data Attempt (A : Type 0) : Type 0 where
  filled : List A → Attempt A
  duplicate collision : Attempt A

-- The state that the search for factors ends with.
pub record Found (A : Type 0) : Type 0 where
  pub factor1 : ℕ
  pub factor2 : ℕ
  pub table : List A

-- The last loop: `qsort` on each group. `qsort` is the C library's, with its comparison fixed.
unfoldable pub sort_groups : {A : Type 0} → (List A → List A) → List A → List A
sort_groups qsort (c ∷ d ∷ e ∷ f ∷ t) = qsort (c ∷ d ∷ e ∷ f ∷ []) ++ sort_groups qsort t
sort_groups qsort t = t

module _ {A : Type 0} (cell : CellType A) where
  open cell use {key, empty, bump}

  abbrev pub read : List A → ℕ → A
  read t i = get_or t i empty

  -- `clear_hash_table`: every slot is written, whatever the memory held.
  unfoldable pub clear_hash_table : ℕ → List A
  clear_hash_table mask = replicate (get_buckets mask) empty

  -- The body of the loop over the keys: the key against the four slots of its group, then the
  -- first slot that is free.
  unfoldable pub put : List A → ℕ → A → Attempt A
  put t b c =
      let k = key c in
      if key (read t b) == k
        || (key (read t (b + 1)) == k || (key (read t (b + 2)) == k || key (read t (b + 3)) == k))
      then duplicate
      else if key (read t b) == 0
      then filled (set t b c)
      else if key (read t (b + 1)) == 0
      then filled (set t (b + 1) c)
      else if key (read t (b + 2)) == 0
      then filled (set t (b + 2) c)
      else if key (read t (b + 3)) == 0
      then filled (set t (b + 3) c)
      else collision

  -- The loop over the keys, up to the first duplicate or collision.
  unfoldable pub put_all : (ℕ → ℕ) → List A → List A → Attempt A
  put_all bucket_of [] t = filled t
  put_all bucket_of (c ∷ cs) t = elim (put t (bucket_of (key c)) c) [
    | filled t' ↦ put_all bucket_of cs t'
    | duplicate ↦ duplicate
    | collision ↦ collision
  ]

  -- The outer `while (true)`: clear, put, and on a collision change the factors. `first` is
  -- `keys[0]`; the second factor is computed with the first one already changed.
  unfoldable pub search_factors : ℕ → ℕ → ℕ → List A → ℕ → ℕ → Outcome (Found A)
  search_factors zero mask first cells factor1 factor2 = exhausted
  search_factors (suc fuel) mask first cells factor1 factor2 =
      elim (put_all (bucket factor1 factor2 mask) cells (clear_hash_table mask)) [
        | filled t ↦ ok (record { factor1 = factor1; factor2 = factor2; table = t })
        | duplicate ↦ err bad_value
        | collision ↦
            let factor1' = hash64 factor1 factor2 first in
            let factor2' = hash64 factor1' factor2 first in
            search_factors fuel mask first cells factor1' factor2'
      ]

  -- `while (true) { key++; if (the key's group is another one) break; }`
  unfoldable pub bump_until : ℕ → (ℕ → ℕ) → ℕ → A → Outcome A
  bump_until zero bucket_of home c = exhausted
  bump_until (suc fuel) bucket_of home c =
      let c' = bump c in
      let rest = bump_until fuel bucket_of home c' in
      if bucket_of (key c') == home then rest else ok c'

  -- The body of the loop over `shift`, at slot `b0`.
  unfoldable pub fill_slot : ℕ → ℕ → (ℕ → ℕ) → List A → ℕ → Outcome (List A)
  fill_slot fuel mask bucket_of t b0 =
      if key (read t b0) == 0
      then (bump_until fuel bucket_of (bit_and b0 mask) (read t b0) >>= λ c. ok (set t b0 c))
      else ok t

  -- The loop over `shift`, with the number of rounds left.
  unfoldable pub fill_slots : ℕ → ℕ → (ℕ → ℕ) → ℕ → ℕ → List A → Outcome (List A)
  fill_slots fuel mask bucket_of zero b0 t = ok t
  fill_slots fuel mask bucket_of (suc left) b0 t =
      fill_slot fuel mask bucket_of t b0 >>= λ t'. fill_slots fuel mask bucket_of left (b0 + 1) t'

  -- From the choice of factors to the sorted table.
  unfoldable pub build : (List A → List A) → ℕ → ℕ → ℕ → List A → Outcome (Found A)
  build qsort fuel mask first cells = do
    found ← search_factors fuel mask first cells 0xA6C3096657A14E89 0x24F963569D05D92E
    let bucket_of = bucket found.factor1 found.factor2 mask
    t ← fill_slots fuel mask bucket_of 4 (bucket_of 0) found.table
    ok (record found { table = sort_groups qsort t })
