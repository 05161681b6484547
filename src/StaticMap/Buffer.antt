-- ===== src/StaticMap/Buffer.antt =====
-- The serialized form of a database of static_map.cpp.
-- A buffer is a list of 32-bit words with its size in bytes apart, and a 64-bit word is two of them,
-- the low one first.
use hipermap.Common.{
  ℕ, zero, suc, ◌+◌, ◌*◌, ◌/◌, ◌%◌, ◌^◌, not, List, [], ◌∷◌, ◌++◌, drop, Outcome, ok, undefined,
  ◌>>=◌, ◌>>◌, fail_if, small_place, no_masks, ltb, ◌==◌,
}
use hipermap.Words.{add64, sub64, mul64, align}
use hipermap.StaticMap.{
  Database, database_size, hashtable_size_bytes, alignment, aligned_size,
  list_size_to_db_place_size, fill_hashtable, count_int,
}

-- A list size with its overflow check.
unfoldable pub list_size_to_serialized_size : ℕ → Outcome ℕ
list_size_to_serialized_size list_size = do
  let res = add64 8 (mul64 list_size 12)
  fail_if (not (sub64 res 8 / 12 == list_size)) small_place
  ok res

-- `assert(hm_err == HM_SUCCESS)`
abbrev pub assert_success : Outcome ℕ → Outcome ℕ
assert_success (ok size) = ok size
assert_success _ = undefined

-- `hm_sm_serialized_size`
unfoldable pub serialized_size : Database → Outcome ℕ
serialized_size db = assert_success (list_size_to_serialized_size db.list_size)

-- A loop that copies `count` cells, with an `int` that counts them. A read past the end is undefined.
unfoldable pub copy_each : ℕ → List ℕ → Outcome (List ℕ)
copy_each zero cells = ok []
copy_each (suc count) [] = undefined
copy_each (suc count) (cell ∷ cells) = do rest ← copy_each count cells; ok (cell ∷ rest)

unfoldable pub copy : ℕ → List ℕ → Outcome (List ℕ)
copy count cells = count_int count >> copy_each count cells

-- The words of 64-bit cells, and the loop that reads such cells back.
unfoldable pub split : List ℕ → List ℕ
split [] = []
split (cell ∷ cells) = cell % 2 ^ 32 ∷ cell / 2 ^ 32 ∷ split cells

unfoldable pub copy64_each : ℕ → List ℕ → Outcome (List ℕ)
copy64_each zero words = ok []
copy64_each (suc count) [] = undefined
copy64_each (suc count) (low ∷ []) = undefined
copy64_each (suc count) (low ∷ high ∷ words) = do
  rest ← copy64_each count words
  ok ((low + high * 2 ^ 32) ∷ rest)

unfoldable pub copy64 : ℕ → List ℕ → Outcome (List ℕ)
copy64 count words = count_int count >> copy64_each count words

unfoldable pub read64 : List ℕ → Outcome ℕ
read64 (low ∷ high ∷ words) = ok (low + high * 2 ^ 32)
read64 _ = undefined

-- `hm_sm_serialize`: what it writes into a buffer of `buffer_size` bytes.
unfoldable pub serialize : ℕ → Database → Outcome (List ℕ)
serialize buffer_size db = do
  want_buffer_size ← serialized_size db
  fail_if (ltb buffer_size want_buffer_size) small_place
  max_ips ← copy db.list_size db.max_ips
  values ← copy db.list_size db.values
  ok (split (db.list_size ∷ []) ++ (max_ips ++ split values))

-- The tests of a buffer, which give its list size.
unfoldable pub read_list_size : List ℕ → ℕ → Outcome ℕ
read_list_size buffer buffer_size = do
  fail_if (ltb buffer_size 8) small_place
  list_size ← read64 buffer
  want_buffer_size ← list_size_to_serialized_size list_size
  fail_if (ltb buffer_size want_buffer_size) small_place
  fail_if (list_size == 0) no_masks
  ok list_size

-- `hm_sm_db_place_size_from_serialized`
unfoldable pub db_place_size_from_serialized : List ℕ → ℕ → Outcome ℕ
db_place_size_from_serialized buffer buffer_size = do
  list_size ← read_list_size buffer buffer_size
  ok (add64 (list_size_to_db_place_size list_size) alignment)

-- `hm_sm_deserialize`
unfoldable pub deserialize : ℕ → ℕ → List ℕ → ℕ → Outcome Database
deserialize place size buffer buffer_size = do
  list_size ← read_list_size buffer buffer_size
  let place2 = align alignment place
  let size2 = sub64 size (sub64 place2 place)
  fail_if (ltb size2 (list_size_to_db_place_size list_size)) small_place
  max_ips ← copy list_size (drop 2 buffer)
  values ← copy64 list_size (drop list_size (drop 2 buffer))
  ok (record {
    place = place2;
    hashtable_place = place2 + database_size;
    max_ips_place = place2 + database_size + hashtable_size_bytes;
    values_place = place2 + database_size + hashtable_size_bytes + 4 * aligned_size list_size;
    list_size = list_size;
    hashtable = fill_hashtable max_ips;
    max_ips = max_ips;
    values = values;
  })
