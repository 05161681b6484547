-- ===== src/StaticMap/Sizes.antt =====
-- The place of a database of static_map.cpp: how large it is, and where its parts lie.
use hipermap.Common.{ℕ, ◌+◌, ◌-◌, ◌*◌, ◌%◌, ◌^◌, ◌≤◌, ◌<◌, ◌≡◌, refl, arith, List, [], ◌∷◌, length}
use hipermap.Words.Bits.{bit_and_ones}
use hipermap.StaticMap.Search.{length-fill_hashtable}
use hipermap.StaticMap.{
  Elem, Database, database_size, aligned_size, list_size_to_db_place_size, db_place_size,
  place_database, max_ips_of, values_of,
}

pub aligned_size_lem : (n : ℕ) → n < 2 ^ 32 → (aligned_size n ≡ n + n % 2)
unfolding aligned_size
aligned_size_lem n h = omega (arith, bit_and_ones 1 n)

pub list_size_to_db_place_size_lem :
    (n : ℕ) → n < 2 ^ 32 → list_size_to_db_place_size n ≡ 262176 + 4 * (n + n % 2) + 8 * n
unfolding list_size_to_db_place_size
list_size_to_db_place_size_lem n h = omega (arith, aligned_size_lem n h)

pub db_place_size_lem :
    (n : ℕ) → n + 1 < 2 ^ 31 → db_place_size n ≡ list_size_to_db_place_size (n * 2 + 2) + 8
unfolding db_place_size
db_place_size_lem n h =
    let small : (n * 2 + 2) % 2 ^ 32 ≡ n * 2 + 2 = omega arith in
    let size = list_size_to_db_place_size_lem (n * 2 + 2) (omega arith) in
    rw small (omega (arith, size))

-- A list that the inputs can come to needs no more than what is asked for them.
pub list_size-db_place_size :
    (n m : ℕ) → n + 1 < 2 ^ 31 → m ≤ 2 * n + 1 → list_size_to_db_place_size m + 8 ≤ db_place_size n
list_size-db_place_size n m h le = omega (
  arith,
  db_place_size_lem n h,
  list_size_to_db_place_size_lem (n * 2 + 2) (omega arith),
  list_size_to_db_place_size_lem m (omega arith),
)

pub length-max_ips_of : (sorted : List Elem) → length (max_ips_of sorted) ≡ length sorted - 1
unfolding max_ips_of
length-max_ips_of [] = refl
length-max_ips_of (e ∷ []) = refl
length-max_ips_of (e ∷ next ∷ sorted) = omega (arith, length-max_ips_of (next ∷ sorted))

pub length-values_of : (sorted : List Elem) → length (values_of sorted) ≡ length sorted - 1
unfolding values_of
length-values_of [] = refl
length-values_of (e ∷ []) = refl
length-values_of (e ∷ next ∷ sorted) = omega (arith, length-values_of (next ∷ sorted))

-- The parts of a database lie one after the other between two addresses, each as long as its array
-- and aligned to the size of its elements.
pub record IsInside (db : Database) (low high : ℕ) : Type 0 where
  pub after : low ≤ db.place
  pub header : db.place + database_size ≤ db.hashtable_place
  pub hashtable : db.hashtable_place + 4 * length db.hashtable ≤ db.max_ips_place
  pub max_ips : db.max_ips_place + 4 * length db.max_ips ≤ db.values_place
  pub values : db.values_place + 8 * length db.values ≤ high
  pub list_size : (length db.max_ips ≡ db.list_size) × (length db.values ≡ db.list_size)
  pub aligned : (db.place % 8 ≡ 0) × (db.values_place % 8 ≡ 0)

pub place_database-IsInside :
    (place low high : ℕ) (sorted : List Elem)
    → length sorted - 1 < 2 ^ 32
    → place % 8 ≡ 0
    → low ≤ place
    → place + list_size_to_db_place_size (length sorted - 1) ≤ high
    → IsInside (place_database place sorted) low high
unfolding place_database
place_database-IsInside place low high sorted small even after fits =
    let even_size = aligned_size_lem (length sorted - 1) small in
    let whole = list_size_to_db_place_size_lem (length sorted - 1) small in
    let ips = length-max_ips_of sorted in
    let values = length-values_of sorted in
    let table = length-fill_hashtable (max_ips_of sorted) in
    record {
      after = after;
      header = omega arith;
      hashtable = omega arith;
      max_ips = omega arith;
      values = omega arith;
      list_size = (ips, values);
      aligned = (even, omega arith);
    }
