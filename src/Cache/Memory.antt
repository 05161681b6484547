-- ===== src/Cache/Memory.antt =====
-- `hm_cache_place_size` and `hm_cache_init` of cache.c and the memory that the caller gives.
use Prim.Native.Nat.{bit_and}
use native.Mathlib.Nat.{pow-le-pow_right, mul-le-mul_left, mod_self}
use hipermap.Common.{
  ℕ, zero, suc, ◌+◌, ◌-◌, ◌*◌, ◌%◌, ◌^◌, ◌≤◌, ◌<◌, ◌≡◌, refl, sym, ap, ◌∙◌, arith, Bool, true,
  false, not, ◌||◌, List, length, length-replicate, Outcome, ◌>>=◌, ok, ok_inj, ltb, >>=-eq-ok,
  fail_if-eq-ok, fail_if, bad_size, small_place,
}
use hipermap.Words.{align, sub64}
use hipermap.Words.Bits.{bit_and_ones}
use hipermap.Words.Align.{align-IsAligned_8}
use hipermap.Cache.{Element, no_index}
use hipermap.Cache.Init.{
  get_hash_table_capacity, valid_capacity, cache_place_size, Placed, init, alignment,
}
use hipermap.Cache.Start.{length-linked, valid_capacity-bounds, cache_place_size-valid}

-- The number of buckets does not wrap.
abbrev pub IsTableSize : ℕ → ℕ → Type 0
IsTableSize capacity speed =
    (get_hash_table_capacity capacity speed ≡ capacity * 2 ^ speed)
    × (capacity * 2 ^ speed ≤ capacity * 32)

table_size : (capacity speed : ℕ) → capacity ≤ no_index → speed ≤ 5 → IsTableSize capacity speed
unfolding get_hash_table_capacity
table_size capacity zero small few = omega arith
table_size capacity (suc zero) small few = omega arith
table_size capacity (suc (suc zero)) small few = omega arith
table_size capacity (suc (suc (suc zero))) small few = omega arith
table_size capacity (suc (suc (suc (suc zero)))) small few = omega arith
table_size capacity (suc (suc (suc (suc (suc zero))))) small few = omega arith
table_size capacity (suc (suc (suc (suc (suc (suc s)))))) small few = absurd (omega arith)

-- What a successful `hm_cache_place_size` asks for.
pub record IsSized (capacity speed needed : ℕ) : Type 0 where
  pub small : capacity ≤ no_index
  pub table : IsTableSize capacity speed
  pub bytes : needed ≡ 48 + 16 * capacity + 4 * (capacity * 2 ^ speed)

pub cache_place_size-IsSized :
    (capacity speed needed : ℕ)
    → cache_place_size capacity speed ≡ ok needed
    → IsSized capacity speed needed
unfolding cache_place_size
cache_place_size-IsSized capacity speed needed h =
    let (_, in_range, rest) = >>=-eq-ok (fail_if (ltb speed 1 || ltb 5 speed) bad_size) _ h in
    let (_, _, last) = >>=-eq-ok (fail_if (not (valid_capacity capacity speed)) bad_size) _ rest in
    let (some, small) =
      valid_capacity-bounds capacity speed (cache_place_size-valid capacity speed needed h) in
    let test : (ltb speed 1 || ltb 5 speed) ≡ false = fail_if-eq-ok _ bad_size in_range in
    let few : speed ≤ 5 = ground (arith, test) in
    let table = table_size capacity speed small few in
    let sum = ok_inj last in
    record { small = small; table = table; bytes = omega (arith, sum, table, small) }

-- Where a successful call writes: the structure is aligned and lies after `cache_place`, the
-- elements and the table follow, and the last bucket ends inside the memory.
pub record IsPlaced (place size : ℕ) (p : Placed) : Type 0 where
  pub aligned : p.cache_place % 8 ≡ 0
  pub after : place ≤ p.cache_place
  pub elements : p.list_place ≡ p.cache_place + 40
  pub table : p.hash_table_place ≡ p.list_place + 16 * length p.cache.list_storage
  pub last : p.end_place ≡ p.hash_table_place + 4 * length p.cache.hash_table
  pub inside : p.end_place ≤ place + size

-- A successful `hm_cache_init` in a memory of at least 8 bytes inside the address space writes
-- inside it only.
pub init-IsPlaced :
    (place size capacity speed : ℕ) (memory : List Element) {p : Placed}
    → length memory ≡ capacity
    → 8 ≤ size
    → place + size < 2 ^ 64
    → init place size capacity speed memory ≡ ok p
    → IsPlaced place size p
unfolding init
init-IsPlaced place size capacity speed memory {p} whole least space h =
    let (needed, sized, rest) = >>=-eq-ok (cache_place_size capacity speed) _ h in
    let (_, fits, done) =
      >>=-eq-ok
        (fail_if (ltb (sub64 size (sub64 (align alignment place) place)) (sub64 needed alignment))
          small_place)
        _ rest in
    let result = sym (ok_inj done) in
    let s = cache_place_size-IsSized capacity speed needed sized in
    let a = align-IsAligned_8 place (omega arith) in
    let room : ltb (sub64 size (sub64 (align 8 place) place)) (sub64 needed 8) ≡ false =
      fail_if-eq-ok _ small_place fits in
    let enough : sub64 needed 8 ≤ sub64 size (sub64 (align 8 place) place) = ground (arith, room) in
    let at_place : p.cache_place ≡ align 8 place = ap (λ (p : Placed). p.cache_place) result in
    let at_list : p.list_place ≡ align 8 place + 40 = ap (λ (p : Placed). p.list_place) result in
    let at_table : p.hash_table_place ≡ align 8 place + 40 + 16 * capacity =
      ap (λ (p : Placed). p.hash_table_place) result in
    let buckets = get_hash_table_capacity capacity speed in
    let at_end : p.end_place ≡ align 8 place + 40 + 16 * capacity + 4 * buckets =
      ap (λ (p : Placed). p.end_place) result in
    let elements : length p.cache.list_storage ≡ capacity =
      ap (λ (p : Placed). length p.cache.list_storage) result
      ∙ length-linked capacity memory
      ∙ whole in
    let words : length p.cache.hash_table ≡ buckets =
      ap (λ (p : Placed). length p.cache.hash_table) result ∙ length-replicate buckets no_index in
    record {
      aligned = omega (arith, at_place, a.multiple);
      after = omega (arith, at_place, a.above);
      elements = omega (arith, at_place, at_list);
      table = omega (arith, at_table, at_list, elements);
      last = omega (arith, at_end, at_table, words);
      inside = omega (arith, at_end, s.bytes, s.table, s.small, enough, a.pad, a.above, a.near);
    }

-- A power of two from 2 to 2 ^ 31 is a valid capacity.
power-valid_capacity :
    (k speed : ℕ) → 1 ≤ k → k ≤ 31 → 1 ≤ speed → speed ≤ 5 → valid_capacity (2 ^ k) speed ≡ true
unfolding valid_capacity
power-valid_capacity k speed some few slow fast =
    let least = pow-le-pow_right {n = 2} (omega arith) some in
    let most = pow-le-pow_right {n = 2} (omega arith) few in
    let (table, _) = table_size (2 ^ k) speed (omega arith) fast in
    let double : 2 ^ k * 2 ≤ 2 ^ k * 2 ^ speed =
      mul-le-mul_left (2 ^ k) (pow-le-pow_right {n = 2} (omega arith) slow) in
    let clear : bit_and (2 ^ k) (2 ^ k - 1) ≡ 0 = bit_and_ones k (2 ^ k) ∙ mod_self (2 ^ k) in
    ground (arith, least, most, table, double, clear)

-- A call that returns, where what comes after it does.
>>=-ok :
    {A B : Type 0} (call : Outcome A) (rest : A → Outcome B) {a : A}
    → call ≡ ok a
    → (b : B) × (rest a ≡ ok b)
    → (b : B) × (call >>= rest ≡ ok b)
>>=-ok {A} call rest {a} returned (b, after) =
    (b, ap (λ (o : Outcome A). o >>= rest) returned ∙ after)

cache_place_size_lem :
    (k speed : ℕ)
    → 1 ≤ k
    → k ≤ 31
    → 1 ≤ speed
    → speed ≤ 5
    → (needed : ℕ) × (cache_place_size (2 ^ k) speed ≡ ok needed)
unfolding cache_place_size
cache_place_size_lem k speed some few slow fast =
    let valid = power-valid_capacity k speed some few slow fast in
    let in_range : (ltb speed 1 || ltb 5 speed) ≡ false = ground arith in
    >>=-ok _ _ (ap (λ (b : Bool). fail_if b bad_size) in_range)
      (>>=-ok _ _ (ap (λ (b : Bool). fail_if (not b) bad_size) valid) (_, refl))

sized-init :
    (place size capacity speed needed : ℕ) (memory : List Element)
    → cache_place_size capacity speed ≡ ok needed
    → ltb (sub64 size (sub64 (align alignment place) place)) (sub64 needed alignment) ≡ false
    → (p : Placed) × (init place size capacity speed memory ≡ ok p)
unfolding init
sized-init place size capacity speed needed memory sized room =
    >>=-ok _ _ sized (>>=-ok _ _ (ap (λ (b : Bool). fail_if b small_place) room) (_, refl))

-- For a capacity that is a power of two from 2 to 2 ^ 31, a speed from 1 to 5, and a place inside
-- the address space of 48 bytes, 16 for each element and 4 for each bucket, or more,
-- `hm_cache_init` returns HM_SUCCESS and leaves an aligned structure, the elements and the table
-- one after the other inside the place, each as long as its contents.
pub init_succeeds :
    (place size k speed : ℕ) (memory : List Element)
    → length memory ≡ 2 ^ k
    → 1 ≤ k
    → k ≤ 31
    → 1 ≤ speed
    → speed ≤ 5
    → 48 + 16 * 2 ^ k + 4 * (2 ^ k * 2 ^ speed) ≤ size
    → place + size < 2 ^ 64
    → (p : Placed) × (init place size (2 ^ k) speed memory ≡ ok p) × IsPlaced place size p
init_succeeds place size k speed memory whole some few slow fast enough space =
    let (needed, sized) = cache_place_size_lem k speed some few slow fast in
    let s = cache_place_size-IsSized (2 ^ k) speed needed sized in
    let a = align-IsAligned_8 place (omega arith) in
    let room : sub64 needed 8 ≤ sub64 size (sub64 (align 8 place) place) =
      omega (arith, enough, s.bytes, s.table, s.small, a.pad, a.above, a.near) in
    let (p, done) =
      sized-init place size (2 ^ k) speed needed memory sized (ground (arith, room)) in
    (p, done, init-IsPlaced place size (2 ^ k) speed memory whole (omega arith) space done)
