-- ===== src/StaticMap/RoundTrip.antt =====
-- `hm_sm_serialize` and `hm_sm_deserialize` against each other.
use mathlib.Core.List.{reverse}
use hipermap.Common.{
  map, ℕ, ◌+◌, ◌*◌, ◌/◌, ◌%◌, ◌^◌, ◌≤◌, ◌<◌, ◌≡◌, ◌⊎◌, refl, sym, subst, ◌∙◌, arith, true, false,
  not, List, [], ◌∷◌, ◌++◌, drop, length, All, ok, fail_if, small_place, ltb, ◌==◌, >>=-eq-ok,
  fail_if-eq-ok, ok_inj,
}
use hipermap.Words.{add64, sub64, mul64, align}
use hipermap.StaticMap.{
  Input, Elem, Database, database_size, hashtable_size_bytes, aligned_size, compile, place_database,
  alignment, list_size_to_db_place_size, fill_hashtable, find, count_int,
}
use hipermap.StaticMap.Steps.{IsSteps}
use hipermap.StaticMap.Finish.{last_elem}
use hipermap.StaticMap.Order.{IsSort}
use hipermap.StaticMap.Sizes.{length-max_ips_of, length-values_of}
use hipermap.StaticMap.Compile.{
  sizes, bias_elem, compile-IsPlacedAt, length-biased, compile-IsCompiled, compile-IsRange,
}
use hipermap.StaticMap.Calls.{sizes_lem}
use hipermap.StaticMap.Buffer.{
  list_size_to_serialized_size, serialized_size, copy, copy_each, split, copy64, copy64_each,
  read64, serialize, read_list_size, deserialize,
}

-- The list size at which the size of the buffer wraps unnoticed.
abbrev pub wrapping_size : ℕ
wrapping_size = 1537228672809129301

back_test : (a b : ℕ) → not (a == b) ≡ false → a ≡ b
back_test a b h = ground arith

-- For a 64-bit list size the serialized size, where the overflow check lets it through, is 8 bytes
-- and 12 for each element, but for the list size 1537228672809129301, where it is 4.
pub list_size_to_serialized_size_exact :
    (list_size res : ℕ)
    → list_size < 2 ^ 64
    → list_size_to_serialized_size list_size ≡ ok res
    → (res ≡ 8 + 12 * list_size) ⊎ ((list_size ≡ wrapping_size) × (res ≡ 4))
unfolding list_size_to_serialized_size
list_size_to_serialized_size_exact list_size res h done =
    let (u, passed, same) =
      >>=-eq-ok
        (fail_if (not (sub64 (add64 8 (mul64 list_size 12)) 8 / 12 == list_size)) small_place) _
        done in
    let back : sub64 (add64 8 (mul64 list_size 12)) 8 / 12 ≡ list_size =
      back_test (sub64 (add64 8 (mul64 list_size 12)) 8 / 12) list_size
        (fail_if-eq-ok _ small_place passed) in
    let whole : 12 * list_size < 2 ^ 64 = omega arith in
    let size : add64 8 (mul64 list_size 12) ≡ res = ok_inj same in omega arith

size_exact :
    (list_size : ℕ)
    → 8 + 12 * list_size < 2 ^ 64
    → list_size_to_serialized_size list_size ≡ ok (8 + 12 * list_size)
unfolding list_size_to_serialized_size
size_exact list_size h =
    let whole : add64 8 (mul64 list_size 12) ≡ 8 + 12 * list_size = omega arith in
    let back : (sub64 (8 + 12 * list_size) 8 / 12 == list_size) ≡ true = ground arith in
    rw (whole, back) refl

copy_whole : (cells : List ℕ) (rest : List ℕ) → copy_each (length cells) (cells ++ rest) ≡ ok cells
unfolding copy_each
copy_whole [] rest = refl
copy_whole (cell ∷ cells) rest = rw (copy_whole cells rest) refl

copy_all : (cells : List ℕ) → copy_each (length cells) cells ≡ ok cells
unfolding copy_each
copy_all [] = refl
copy_all (cell ∷ cells) = rw (copy_all cells) refl

drop-append : (cells rest : List ℕ) → drop (length cells) (cells ++ rest) ≡ rest
drop-append [] rest = refl
drop-append (cell ∷ cells) rest = drop-append cells rest

copy64_each-split : (cells : List ℕ) → copy64_each (length cells) (split cells) ≡ ok cells
unfolding copy64_each split
copy64_each-split [] = refl
copy64_each-split (cell ∷ cells) =
    let whole : cell % 2 ^ 32 + cell / 2 ^ 32 * 2 ^ 32 ≡ cell = omega arith in
    rw (copy64_each-split cells, whole) refl

-- The counter of a loop that is not too long.
pub copy-few : (n : ℕ) (cells : List ℕ) → n < 2 ^ 31 → copy n cells ≡ copy_each n cells
unfolding copy count_int
copy-few n cells h = let test : ltb n (2 ^ 31) ≡ true = ground arith in rw test refl

pub copy64-few : (n : ℕ) (words : List ℕ) → n < 2 ^ 31 → copy64 n words ≡ copy64_each n words
unfolding copy64 count_int
copy64-few n words h = let test : ltb n (2 ^ 31) ≡ true = ground arith in rw test refl

-- What a database is made of, where its arrays are as long as it says, and no longer than an `int`
-- counts.
pub record IsStored (db : Database) : Type 0 where
  pub max_ips : length db.max_ips ≡ db.list_size
  pub values : length db.values ≡ db.list_size
  pub table : db.hashtable ≡ fill_hashtable db.max_ips
  pub some : 0 < db.list_size
  pub bound : db.list_size < 2 ^ 31

-- The buffer of a database.
abbrev pub written : Database → List ℕ
written db = split (db.list_size ∷ []) ++ (db.max_ips ++ split db.values)

pub serialize-written :
    (db : Database) (buffer_size : ℕ)
    → IsStored db
    → 8 + 12 * db.list_size ≤ buffer_size
    → serialize buffer_size db ≡ ok (written db)
unfolding serialize serialized_size
serialize-written db buffer_size s enough =
    let size = size_exact db.list_size (omega (arith, s.bound)) in
    let fits : ltb buffer_size (8 + 12 * db.list_size) ≡ false = ground arith in
    let ips : copy db.list_size db.max_ips ≡ ok db.max_ips =
      copy-few db.list_size db.max_ips s.bound ∙ rw (sym s.max_ips) (copy_all db.max_ips) in
    let values : copy db.list_size db.values ≡ ok db.values =
      copy-few db.list_size db.values s.bound ∙ rw (sym s.values) (copy_all db.values) in
    rw (size, fits, ips, values) refl

written-list_size :
    (db : Database) (buffer_size : ℕ)
    → IsStored db
    → 8 + 12 * db.list_size ≤ buffer_size
    → read_list_size (written db) buffer_size ≡ ok db.list_size
unfolding read_list_size read64 split
written-list_size db buffer_size s enough =
    let size = size_exact db.list_size (omega (arith, s.bound)) in
    let header : ltb buffer_size 8 ≡ false = ground arith in
    let fits : ltb buffer_size (8 + 12 * db.list_size) ≡ false = ground arith in
    let some : (db.list_size == 0) ≡ false = ground (arith, s.some) in
    let whole : db.list_size % 2 ^ 32 + db.list_size / 2 ^ 32 * 2 ^ 32 ≡ db.list_size =
      omega arith in
    rw (header, whole, size, fits, some) refl

drop-written : (db : Database) → drop 2 (written db) ≡ db.max_ips ++ split db.values
unfolding split
drop-written db = refl

-- What the buffer of a database is read back as.
abbrev restored : ℕ → Database → Database
restored place db =
    let place2 = align alignment place in
    record db {
      place = place2;
      hashtable_place = place2 + database_size;
      max_ips_place = place2 + database_size + hashtable_size_bytes;
      values_place = place2 + database_size + hashtable_size_bytes + 4 * aligned_size db.list_size;
      hashtable = fill_hashtable db.max_ips;
    }

deserialize-written :
    (db : Database) (place size buffer_size : ℕ)
    → IsStored db
    → 8 + 12 * db.list_size ≤ buffer_size
    → ltb (sizes place size) (list_size_to_db_place_size db.list_size) ≡ false
    → deserialize place size (written db) buffer_size ≡ ok (restored place db)
unfolding deserialize
deserialize-written db place size buffer_size s enough fits =
    let checked = written-list_size db buffer_size s enough in
    let body = drop-written db in
    let ips : copy db.list_size (db.max_ips ++ split db.values) ≡ ok db.max_ips =
      copy-few db.list_size (db.max_ips ++ split db.values) s.bound
      ∙ rw (sym s.max_ips) (copy_whole db.max_ips (split db.values)) in
    let rest : drop db.list_size (db.max_ips ++ split db.values) ≡ split db.values =
      rw (sym s.max_ips) (drop-append db.max_ips (split db.values)) in
    let values : copy64 db.list_size (split db.values) ≡ ok db.values =
      copy64-few db.list_size (split db.values) s.bound
      ∙ rw (sym s.values) (copy64_each-split db.values) in
    rw (checked, fits, body, ips, rest, values) refl

find-restored : (db : Database) (place a : ℕ) → IsStored db → find (restored place db) a ≡ find db a
unfolding find
find-restored db place a s = rw s.table refl

restored-IsStored : (db : Database) (place : ℕ) → IsStored db → IsStored (restored place db)
restored-IsStored db place s = record {
  max_ips = s.max_ips;
  values = s.values;
  table = refl;
  some = s.some;
  bound = s.bound;
}

-- A database whose arrays are as long as its list size, from 1 to 2 ^ 31 - 1, with the hash table
-- of its `max_ips`: serialized and read back with room enough it has the same `max_ips` and
-- values, finds the same, and is serialized to the same buffer.
pub deserialize-serialize_ranges :
    (db : Database) (place size buffer_size : ℕ)
    → IsStored db
    → 8 + 12 * db.list_size ≤ buffer_size
    → place + 8 < 2 ^ 64
    → list_size_to_db_place_size db.list_size + 8 ≤ size
    → size < 2 ^ 64
    → (buffer : List ℕ) × (again : Database) × (serialize buffer_size db ≡ ok buffer)
      × (deserialize place size buffer buffer_size ≡ ok again)
      × (again.max_ips ≡ db.max_ips)
      × (again.values ≡ db.values)
      × ((a : ℕ) → find again a ≡ find db a)
      × (serialize buffer_size again ≡ ok buffer)
deserialize-serialize_ranges db place size buffer_size s enough h roomy k =
    let (left, a) = sizes_lem place size h k (omega arith) in
    let fits : ltb (sizes place size) (list_size_to_db_place_size db.list_size) ≡ false =
      ground (arith, a.near, a.above) in
    (
      written db,
      restored place db,
      serialize-written db buffer_size s enough,
      deserialize-written db place size buffer_size s enough fits,
      refl,
      refl,
      (λ a. find-restored db place a s),
      serialize-written (restored place db) buffer_size (restored-IsStored db place s) enough,
    )

length-steps : (body : List Elem) → IsSteps body → 0 < length body
length-steps [] steps = absurd steps
length-steps (e ∷ body) steps = omega arith

-- A compiled database is in the form that serializing needs.
pub compile-IsStored :
    (sort : List Input → List Input)
    → IsSort sort
    → (place size : ℕ) (inputs : List Input) (db : Database) → All (λ x. x.ip < 2 ^ 32) inputs
    → compile sort place size inputs ≡ ok db
    → IsStored db
unfolding place_database
compile-IsStored sort sorts place size inputs db small done =
    let (nonempty, ranges, listed) = compile-IsRange sort place size inputs small done in
    let (body, c) = compile-IsCompiled sort sorts place size inputs nonempty ranges listed in
    let p = compile-IsPlacedAt sort place size inputs body db c done in
    let sorted = map bias_elem (reverse (last_elem ∷ body)) in
    let same = length-biased body in
    subst IsStored p.result (record {
      max_ips = length-max_ips_of sorted;
      values = length-values_of sorted;
      table = refl;
      some = rw same (length-steps body c.steps);
      bound = rw same (omega (arith, p.few));
    })
