-- ===== src/Examples/Maps.antt =====
-- Concrete maps, which the theorems on static_uint64_map.c are applied to.
use hipermap.Common.{
  ℕ, ◌+◌, ◌*◌, ◌≡◌, ◌≢◌, ◌<◌, ◌⊎◌, refl, arith, List, [], ◌∷◌, ok, err, undefined, exhausted,
  no_masks, small_place, replicate, length, get_or,
}
use hipermap.Words.{align}
use hipermap.Slots
use hipermap.Slots.{
  collision, hash_table_buckets, round_up_to_power_of_2, double_until, int_or_zero, build,
  search_factors, put_all, put, clear_hash_table, get_buckets, bucket, bump_until, fill_slot,
  fill_slots, sort_groups,
}
use hipermap.Slots.PutAll.{NonZero, Distinct}
use hipermap.U64Map.{
  Database, KeyValue, no_entry, entry_cell, database_size, comp_key_value, compile, find, has_zero,
  db_place_size, align64, get_db_place, serialized_size, serialize, deserialize,
  db_place_size_from_serialized, benchmark,
}
use hipermap.U64Map.Benchmark.{values_from, xor_all, benchmark-eq-xor_all}
use hipermap.U64Map.Find.{lookup_value, lookup-compile}
use hipermap.U64Map.Serialize.{IsSized}
use hipermap.U64Map.RoundTrip.{deserialize-serialize_map, deserialize_short}
use hipermap.U64Map.Memory.{
  IsInside, compile-IsInside_map, compile-ok_map, compile-exhausted_map, compile-ne-small_place_map,
}
use hipermap.U64Map.Compile.{NonZeroValues, compile-accepts_map, compile-eq-err_map}
use hipermap.Examples.Sort.{sort, sort-Perm}

abbrev qsort : List KeyValue → List KeyValue
qsort = sort comp_key_value

abbrev pair : ℕ → ℕ → KeyValue
pair k v = record { key = k; value = v }

abbrev few_pairs : List KeyValue
few_pairs = pair 10 100 ∷ pair 20 200 ∷ pair 30 300 ∷ []

abbrev few_db : Database
few_db = record {
  place = 1024;
  hash_table_place = 1056;
  hash_table =
      pair 1 0
      ∷ pair 1 0
      ∷ pair 1 0
      ∷ pair 1 0
      ∷ no_entry
      ∷ no_entry
      ∷ no_entry
      ∷ no_entry
      ∷ no_entry
      ∷ no_entry
      ∷ no_entry
      ∷ pair 30 300
      ∷ no_entry
      ∷ no_entry
      ∷ no_entry
      ∷ no_entry
      ∷ no_entry
      ∷ no_entry
      ∷ no_entry
      ∷ pair 10 100
      ∷ no_entry
      ∷ no_entry
      ∷ no_entry
      ∷ no_entry
      ∷ no_entry
      ∷ no_entry
      ∷ no_entry
      ∷ no_entry
      ∷ no_entry
      ∷ no_entry
      ∷ no_entry
      ∷ pair 20 200
      ∷ [];
  factor1 = 12016458565916118665;
  factor2 = 2664269878219102510;
  mask_for_hash = 28;
}

compile_few : compile qsort 100 1000 1000 few_pairs ≡ ok few_db
unfolding compile comp_key_value has_zero db_place_size hash_table_buckets round_up_to_power_of_2
    double_until int_or_zero align64 align get_db_place build search_factors put_all put
    clear_hash_table replicate get_buckets bucket bump_until fill_slot fill_slots Slots.hash64
    sort_groups
compile_few = refl

lookup-compile_example : find few_db 20 ≡ lookup_value few_pairs 20
lookup-compile_example =
    lookup-compile qsort (sort-Perm comp_key_value) 100 1000 1000 few_pairs compile_few 20

few_IsSized : IsSized few_db
few_IsSized = record {
  is_mask = record { groups = refl; fits = omega arith };
  words = refl;
  small = omega arith;
}

-- Four header words and the slots, in memory that held ones.
abbrev ones : List ℕ
ones = replicate 68 1

deserialize-serialize_map_example :
    (out : List ℕ) × (serialize ones 544 few_db ≡ ok out)
    × (length out ≡ length ones)
    × (get_or out 3 0 ≡ get_or ones 3 0)
    × (deserialize 5 700 out 544
        ≡ ok (record few_db { place = align64 5; hash_table_place = align64 5 + database_size }))
unfolding replicate serialized_size get_buckets
deserialize-serialize_map_example =
    deserialize-serialize_map ones 544 few_db 5 700 few_IsSized (omega arith) (omega arith)
      (omega arith) (omega arith) (omega arith)

compile-IsInside_map_example : IsInside 1000 1000 few_db
compile-IsInside_map_example =
    compile-IsInside_map qsort (sort-Perm comp_key_value) 100 1000 1000 few_pairs (omega arith)
      (omega arith) compile_few

few_NonZero : NonZero entry_cell few_pairs
few_NonZero = (omega arith, (omega arith, (omega arith, tt)))

few_NonZeroValues : NonZeroValues few_pairs
few_NonZeroValues = (omega arith, (omega arith, (omega arith, tt)))

few_Distinct : Distinct entry_cell few_pairs
few_Distinct = ((omega arith, (omega arith, tt)), ((omega arith, tt), (tt, tt)))

size_of_few : db_place_size 3 ≡ ok 608
unfolding db_place_size hash_table_buckets round_up_to_power_of_2 double_until int_or_zero
    get_db_place
size_of_few = refl

compile-ok_map_example : (db : Database) × (compile qsort 1 1000 608 few_pairs ≡ ok db)
compile-ok_map_example =
    compile-ok_map qsort 0 1000 608 few_pairs 608 (omega arith) (omega arith) few_NonZero
      few_NonZeroValues few_Distinct (omega arith) (omega arith) size_of_few (omega arith)

compile-accepts_map_example :
    (0 < length few_pairs)
    × NonZero entry_cell few_pairs
    × NonZeroValues few_pairs
    × Distinct entry_cell few_pairs
compile-accepts_map_example =
    compile-accepts_map qsort (sort-Perm comp_key_value) 100 1000 1000 few_pairs compile_few

compile_small : compile qsort 100 1000 300 few_pairs ≡ err small_place
unfolding compile has_zero db_place_size hash_table_buckets round_up_to_power_of_2 double_until
    int_or_zero align64 align get_db_place
compile_small = refl

compile-eq-err_map_example :
    (small_place ≡ small_place) ⊎ ((small_place ≡ no_masks) × (length few_pairs ≡ 0))
compile-eq-err_map_example =
    compile-eq-err_map qsort 100 1000 300 few_pairs small_place few_NonZero few_NonZeroValues
      few_Distinct compile_small

compile-ne-small_place_map_example : compile qsort 100 1000 8 few_pairs ≢ err small_place
unfolding align64 align
compile-ne-small_place_map_example =
    compile-ne-small_place_map qsort 100 1000 8 few_pairs (omega arith) (omega arith)

-- The first key hashes to 0 under the initial factors, and all five select one group of the 64
-- slots.
abbrev stuck_pairs : List KeyValue
stuck_pairs = pair 3943220256358306039 1 ∷ pair 9 2 ∷ pair 15 3 ∷ pair 34 4 ∷ pair 49 5 ∷ []

stuck_NonZero : NonZero entry_cell stuck_pairs
stuck_NonZero = (omega arith, (omega arith, (omega arith, (omega arith, (omega arith, tt)))))

stuck_NonZeroValues : NonZeroValues stuck_pairs
stuck_NonZeroValues = (omega arith, (omega arith, (omega arith, (omega arith, (omega arith, tt)))))

stuck_Distinct : Distinct entry_cell stuck_pairs
stuck_Distinct = (
  (omega arith, (omega arith, (omega arith, (omega arith, tt)))),
  (
    (omega arith, (omega arith, (omega arith, tt))),
    ((omega arith, (omega arith, tt)), ((omega arith, tt), (tt, tt))),
  ),
)

stuck_buckets : hash_table_buckets 5 ≡ ok 64
unfolding hash_table_buckets round_up_to_power_of_2 double_until int_or_zero
stuck_buckets = refl

stuck_hash : Slots.hash64 0xA6C3096657A14E89 0x24F963569D05D92E 3943220256358306039 ≡ 0
unfolding Slots.hash64
stuck_hash = refl

stuck_collision :
    put_all entry_cell
      (bucket 0xA6C3096657A14E89 0x24F963569D05D92E 60)
      stuck_pairs
      (clear_hash_table entry_cell 60)
    ≡ collision
unfolding put_all put bucket Slots.hash64 clear_hash_table replicate get_buckets
stuck_collision = refl

stuck_size : db_place_size 5 ≡ ok 1120
unfolding db_place_size hash_table_buckets round_up_to_power_of_2 double_until int_or_zero
    get_db_place
stuck_size = refl

compile-exhausted_map_example : compile qsort 1000000 0 1120 stuck_pairs ≡ exhausted
compile-exhausted_map_example =
    compile-exhausted_map qsort 0 1120 (pair 3943220256358306039 1) (pair 9 2) (pair 15 3)
      (pair 34 4) (pair 49 5) [] 64 1120 stuck_NonZero stuck_NonZeroValues stuck_Distinct
      stuck_buckets stuck_hash stuck_collision (omega arith) (omega arith) stuck_size (omega arith)
      1000000

-- One slot, and the header one word short.
abbrev shortened : List ℕ
shortened = 1 ∷ 2 ∷ 1 ∷ 0 ∷ 7 ∷ []

deserialize_short_example :
    (db_place_size_from_serialized shortened (8 * length shortened) ≡ ok (16 * 1 + 96))
    × (deserialize 1000 1000 shortened (8 * length shortened) ≡ undefined)
deserialize_short_example =
    deserialize_short 1000 1000 shortened 1 refl (omega arith) (omega arith) refl (omega arith)
      (omega arith) (omega arith)

benchmark-eq-xor_all_example :
    benchmark 100 few_db 5 (5 + 30) ≡ ok (xor_all 0 (values_from few_db 5 30))
benchmark-eq-xor_all_example = benchmark-eq-xor_all 30 100 few_db 5 (omega arith) (omega arith)
