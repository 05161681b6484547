-- ===== src/U64Set.antt =====
-- static_uint64_set.c: a static set of nonzero uint64_t keys.
-- Memory: `db_place` is an address and `db_place_size` the size that the caller states. Structure
-- and table are what a successful call leaves there; the record keeps their addresses. A
-- serialized buffer is the list of its uint64_t words beside its size in bytes.
pub mod Find
pub mod Benchmark
pub mod RoundTrip
pub mod Serialize
pub mod Memory
pub mod Compile
use Prim.Native.Nat.{bit_and, compare, Ordering}
use hipermap.Common.{
  ℕ, zero, suc, ◌+◌, ◌-◌, ◌*◌, ◌%◌, ◌^◌, ◌≡◌, refl, Bool, true, false, ◌&&◌, ◌||◌, List, [], ◌∷◌,
  Outcome, ok, err, undefined, exhausted, ◌>>=◌, ◌>>◌, fail_if, bad_value, no_masks, small_place,
  ltb, leb, ◌==◌, if◌then◌else◌, length, get_or, set,
}
use hipermap.Words.{add64, sub64, mul64, int_to_size, align, int_rank}
use hipermap.Slots
use hipermap.Slots.{CellType}

-- `hm_u64_database_t`, with the addresses of the structure and of the table.
pub record Database : Type 0 where
  pub place : ℕ
  pub hash_table_place : ℕ
  pub hash_table : List ℕ
  pub factor1 : ℕ
  pub factor2 : ℕ
  pub mask_for_hash : ℕ

-- A slot is a bare key.
abbrev pub key_cell : CellType ℕ
key_cell = record {
  key = λ k. k;
  empty = 0;
  bump = λ k. add64 k 1;
  key-empty = refl;
  key-bump = λ k. refl;
}

-- `sizeof(hm_u64_database_t)`: a pointer and three words.
abbrev pub database_size : ℕ
database_size = 32

abbrev pub alignment : ℕ
alignment = 32

unfoldable pub hash64 : Database → ℕ → ℕ
hash64 db key = Slots.hash64 db.factor1 db.factor2 key

unfoldable pub align32 : ℕ → ℕ
align32 addr = align alignment addr

-- The parameter is an `int`.
unfoldable pub get_db_place : ℕ → ℕ
get_db_place buckets = add64 (add64 database_size (mul64 (int_to_size buckets) 8)) alignment

unfoldable pub db_place_size : ℕ → Outcome ℕ
db_place_size elements = do buckets ← Slots.hash_table_buckets elements; ok (get_db_place buckets)

-- `if (keys[i] == 0)` for some i.
unfoldable pub has_zero : List ℕ → Bool
has_zero [] = false
has_zero (k ∷ ks) = k == 0 || has_zero ks

-- `hm_u64_compile`. `keys` is the array of `elements` keys, `qsort` sorts four keys by
-- `comp_uint64`, and `fuel` bounds each of the two unbounded loops.
unfoldable pub compile : (List ℕ → List ℕ) → ℕ → ℕ → ℕ → List ℕ → Outcome Database
compile qsort fuel place size keys = do
  fail_if (length keys == 0) no_masks
  fail_if (has_zero keys) bad_value
  let place2 = align32 place
  let size2 = sub64 size (sub64 place2 place)
  needed ← db_place_size (length keys)
  fail_if (ltb size2 (sub64 needed alignment)) small_place
  buckets ← Slots.hash_table_buckets (length keys)
  found ← Slots.build key_cell qsort fuel (buckets - 1 - 3) (get_or keys 0 0) keys
  ok (record {
    place = place2;
    hash_table_place = place2 + database_size;
    hash_table = found.table;
    factor1 = found.factor1;
    factor2 = found.factor2;
    mask_for_hash = buckets - 1 - 3;
  })

unfoldable pub find : Database → ℕ → Bool
find db key =
    let b = bit_and (hash64 db key) db.mask_for_hash in
    let slot = λ (i : ℕ). get_or db.hash_table i 0 in
    slot b == key || (slot (b + 1) == key || (slot (b + 2) == key || slot (b + 3) == key))

-- `for (key = begin_key; key != end_key; key++) count += find(db, key)`
unfoldable pub benchmark_from : ℕ → Database → ℕ → ℕ → ℕ → Outcome ℕ
benchmark_from zero db key end_key count = exhausted
benchmark_from (suc fuel) db key end_key count =
    let rest =
      benchmark_from fuel db (add64 key 1) end_key (add64 count (if find db key then 1 else 0)) in
    if key == end_key then ok count else rest

unfoldable pub benchmark : ℕ → Database → ℕ → ℕ → Outcome ℕ
benchmark fuel db begin_key end_key = benchmark_from fuel db begin_key end_key 0

unfoldable pub serialized_size : Database → ℕ
serialized_size db = mul64 (add64 3 (Slots.get_buckets db.mask_for_hash)) 8

-- `for (int i = 0; i < buckets; i++) dst[3 + i] = src[i];`, with the rounds left. The counter is
-- an `int`, so round 2 ^ 31 - 1 would overflow it.
unfoldable pub write_table : ℕ → ℕ → List ℕ → List ℕ → Outcome (List ℕ)
write_table zero i table buffer = ok buffer
write_table (suc left) i table buffer =
    let rest = write_table left (i + 1) table (set buffer (3 + i) (get_or table i 0)) in
    if ltb i (2 ^ 31 - 1) && ltb (3 + i) (length buffer) && ltb i (length table)
    then rest
    else undefined

-- `hm_u64_serialize`. `buffer` is what the memory holds, the result what it holds afterwards.
unfoldable pub serialize : List ℕ → ℕ → Database → Outcome (List ℕ)
serialize buffer buffer_size db = do
  fail_if (ltb buffer_size (serialized_size db)) small_place
  let buckets = Slots.get_buckets db.mask_for_hash
  write_table buckets 0 db.hash_table (set (set (set buffer 0 db.factor1) 1 db.factor2) 2 buckets)

unfoldable pub db_place_size_from_serialized : List ℕ → ℕ → Outcome ℕ
db_place_size_from_serialized buffer buffer_size = do
  fail_if (leb buffer_size (3 * 8)) small_place
  let buckets = get_or buffer 2 0
  fail_if (buckets == 0) no_masks
  fail_if (ltb buffer_size (mul64 (add64 3 buckets) 8)) small_place
  ok (get_db_place buckets)

-- The loop that copies the table out of the buffer. A read past the buffer is undefined.
unfoldable pub read_table : ℕ → ℕ → List ℕ → Outcome (List ℕ)
read_table zero i buffer = ok []
read_table (suc left) i buffer =
    let rest = read_table left (i + 1) buffer >>= λ t. ok (get_or buffer (3 + i) 0 ∷ t) in
    if ltb i (2 ^ 31 - 1) && ltb (3 + i) (length buffer) then rest else undefined

unfoldable pub deserialize : ℕ → ℕ → List ℕ → ℕ → Outcome Database
deserialize place size buffer buffer_size = do
  needed ← db_place_size_from_serialized buffer buffer_size
  let place2 = align32 place
  let size2 = sub64 size (sub64 place2 place)
  fail_if (ltb size2 (sub64 needed alignment)) small_place
  let buckets = get_or buffer 2 0
  table ← read_table buckets 0 buffer
  ok (record {
    place = place2;
    hash_table_place = place2 + database_size;
    hash_table = table;
    factor1 = get_or buffer 0 0;
    factor2 = get_or buffer 1 0;
    mask_for_hash = sub64 (sub64 buckets 1) 3;
  })

-- `comp_uint64`: both keys are cut to `int` before they are compared.
unfoldable pub comp_uint64 : ℕ → ℕ → Ordering
comp_uint64 a b = compare (int_rank a) (int_rank b)
