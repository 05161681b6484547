-- ===== src/U64Map.antt =====
-- static_uint64_map.c: a static map from nonzero uint64_t keys to nonzero values.
-- Memory as in U64Set: addresses and stated sizes beside the contents that a call leaves there.
-- The arrays `keys` and `values` are one list of entries, since both are read at the same index
-- only. A serialized buffer is the list of its uint64_t words beside its size in bytes.
pub mod Find
pub mod Compile
pub mod Memory
pub mod Serialize
pub mod RoundTrip
pub mod Benchmark
use Prim.Native.Nat.{bit_and, bit_xor, compare, Ordering}
use hipermap.Common.{
  ℕ, zero, suc, ◌+◌, ◌-◌, ◌*◌, ◌%◌, ◌^◌, ◌≡◌, refl, Bool, true, false, ◌&&◌, ◌||◌, List, [], ◌∷◌,
  Outcome, ok, err, undefined, exhausted, ◌>>=◌, ◌>>◌, fail_if, bad_value, no_masks, small_place,
  ltb, leb, ◌==◌, if◌then◌else◌, length, get_or, set,
}
use hipermap.Words.{add64, sub64, mul64, int_to_size, align}
use hipermap.Slots
use hipermap.Slots.{CellType}

-- `key_value_t`
pub record KeyValue : Type 0 where
  pub key : ℕ
  pub value : ℕ

-- `hm_u64map_database_t`, with the addresses of the structure and of the table.
pub record Database : Type 0 where
  pub place : ℕ
  pub hash_table_place : ℕ
  pub hash_table : List KeyValue
  pub factor1 : ℕ
  pub factor2 : ℕ
  pub mask_for_hash : ℕ

abbrev pub no_entry : KeyValue
no_entry = record { key = 0; value = 0 }

-- A slot is a `key_value_t`; `key++` leaves the value.
abbrev pub entry_cell : CellType KeyValue
entry_cell = record {
  key = λ c. c.key;
  empty = no_entry;
  bump = λ c. record c { key = add64 c.key 1 };
  key-empty = refl;
  key-bump = λ c. refl;
}

-- `sizeof(hm_u64map_database_t)`: a pointer and three words.
abbrev pub database_size : ℕ
database_size = 32

abbrev pub alignment : ℕ
alignment = 64

unfoldable pub hash64 : Database → ℕ → ℕ
hash64 db key = Slots.hash64 db.factor1 db.factor2 key

unfoldable pub align64 : ℕ → ℕ
align64 addr = align alignment addr

-- The parameter is an `int`.
unfoldable pub get_db_place : ℕ → ℕ
get_db_place buckets = add64 (add64 database_size (mul64 (int_to_size buckets) 16)) alignment

unfoldable pub db_place_size : ℕ → Outcome ℕ
db_place_size elements = do buckets ← Slots.hash_table_buckets elements; ok (get_db_place buckets)

-- `if (keys[i] == 0 || values[i] == 0)` for some i.
unfoldable pub has_zero : List KeyValue → Bool
has_zero [] = false
has_zero (c ∷ cs) = (c.key == 0 || c.value == 0) || has_zero cs

-- `comp_key_value`
unfoldable pub comp_key_value : KeyValue → KeyValue → Ordering
comp_key_value f s = compare f.key s.key

-- `hm_u64map_compile`. `qsort` sorts four cells by `comp_key_value`, and `fuel` bounds each of the
-- two unbounded loops.
unfoldable pub compile :
    (List KeyValue → List KeyValue) → ℕ → ℕ → ℕ → List KeyValue → Outcome Database
compile qsort fuel place size entries = do
  fail_if (length entries == 0) no_masks
  fail_if (has_zero entries) bad_value
  let place2 = align64 place
  let size2 = sub64 size (sub64 place2 place)
  needed ← db_place_size (length entries)
  fail_if (ltb size2 (sub64 needed alignment)) small_place
  buckets ← Slots.hash_table_buckets (length entries)
  found ←
      Slots.build entry_cell qsort fuel (buckets - 1 - 3) (get_or entries 0 no_entry).key entries
  ok (record {
    place = place2;
    hash_table_place = place2 + database_size;
    hash_table = found.table;
    factor1 = found.factor1;
    factor2 = found.factor2;
    mask_for_hash = buckets - 1 - 3;
  })

unfoldable pub find : Database → ℕ → ℕ
find db key =
    let b = bit_and (hash64 db key) db.mask_for_hash in
    let slot = λ (i : ℕ). get_or db.hash_table i no_entry in
    if (slot b).key == key
    then (slot b).value
    else if (slot (b + 1)).key == key
    then (slot (b + 1)).value
    else if (slot (b + 2)).key == key
    then (slot (b + 2)).value
    else if (slot (b + 3)).key == key
    then (slot (b + 3)).value
    else 0

-- `for (key = begin_key; key != end_key; key++) xor_sum ^= find(db, key)`
unfoldable pub benchmark_from : ℕ → Database → ℕ → ℕ → ℕ → Outcome ℕ
benchmark_from zero db key end_key xor_sum = exhausted
benchmark_from (suc fuel) db key end_key xor_sum =
    let rest = benchmark_from fuel db (add64 key 1) end_key (bit_xor xor_sum (find db key)) in
    if key == end_key then ok xor_sum else rest

unfoldable pub benchmark : ℕ → Database → ℕ → ℕ → Outcome ℕ
benchmark fuel db begin_key end_key = benchmark_from fuel db begin_key end_key 0

unfoldable pub serialized_size : Database → ℕ
serialized_size db = add64 (4 * 8) (mul64 (Slots.get_buckets db.mask_for_hash) 16)

-- The two words of the cell `i` behind the header.
unfoldable pub put_entry : List ℕ → ℕ → KeyValue → List ℕ
put_entry buffer i c = set (set buffer (4 + 2 * i) c.key) (5 + 2 * i) c.value

unfoldable pub get_entry : List ℕ → ℕ → KeyValue
get_entry buffer i = record {
  key = get_or buffer (4 + 2 * i) 0;
  value = get_or buffer (5 + 2 * i) 0;
}

-- The loop that copies the table, with the rounds left. The counter is an `int`.
unfoldable pub write_table : ℕ → ℕ → List KeyValue → List ℕ → Outcome (List ℕ)
write_table zero i table buffer = ok buffer
write_table (suc left) i table buffer =
    let rest = write_table left (i + 1) table (put_entry buffer i (get_or table i no_entry)) in
    if ltb i (2 ^ 31 - 1) && ltb (5 + 2 * i) (length buffer) && ltb i (length table)
    then rest
    else undefined

-- `hm_u64map_serialize`. The fourth word of the header is skipped and keeps what it held.
unfoldable pub serialize : List ℕ → ℕ → Database → Outcome (List ℕ)
serialize buffer buffer_size db = do
  fail_if (ltb buffer_size (serialized_size db)) small_place
  let buckets = Slots.get_buckets db.mask_for_hash
  write_table buckets 0 db.hash_table (set (set (set buffer 0 db.factor1) 1 db.factor2) 2 buckets)

-- The size test counts three words of header where `deserialize` reads four.
unfoldable pub db_place_size_from_serialized : List ℕ → ℕ → Outcome ℕ
db_place_size_from_serialized buffer buffer_size = do
  fail_if (leb buffer_size (4 * 8)) small_place
  let buckets = get_or buffer 2 0
  fail_if (buckets == 0) no_masks
  fail_if (ltb buffer_size (add64 (3 * 8) (mul64 buckets 16))) small_place
  ok (get_db_place buckets)

-- The loop that copies the table out of the buffer. A read past the buffer is undefined.
unfoldable pub read_table : ℕ → ℕ → List ℕ → Outcome (List KeyValue)
read_table zero i buffer = ok []
read_table (suc left) i buffer =
    let rest = read_table left (i + 1) buffer >>= λ t. ok (get_entry buffer i ∷ t) in
    if ltb i (2 ^ 31 - 1) && ltb (5 + 2 * i) (length buffer) then rest else undefined

unfoldable pub deserialize : ℕ → ℕ → List ℕ → ℕ → Outcome Database
deserialize place size buffer buffer_size = do
  needed ← db_place_size_from_serialized buffer buffer_size
  let place2 = align64 place
  let size2 = sub64 size (sub64 place2 place)
  fail_if (ltb size2 (sub64 needed alignment)) small_place
  let buckets = get_or buffer 2 0
  table ← read_table buckets 0 buffer
  ok (record {
    place = place2;
    hash_table_place = place2 + database_size;
    hash_table = table;
    factor1 = get_or buffer 0 0;
    factor2 = get_or buffer 1 0;
    mask_for_hash = sub64 (sub64 buckets 1) 3;
  })
