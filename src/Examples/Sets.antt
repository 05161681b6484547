-- ===== src/Examples/Sets.antt =====
-- Concrete sets, which the theorems on static_uint64_set.c are applied to.
use hipermap.Common.{
  ℕ, ◌+◌, ◌-◌, ◌^◌, ◌≡◌, ◌≢◌, ◌<◌, ◌⊎◌, ◌↔◌, refl, arith, true, List, [], ◌∷◌, Mem, ok, err,
  undefined, exhausted, no_masks, small_place, replicate, length,
}
use hipermap.Words.{align, int_rank}
use hipermap.Slots
use hipermap.Slots.{
  collision, hash_table_buckets, round_up_to_power_of_2, double_until, int_or_zero, build,
  search_factors, put_all, put, clear_hash_table, get_buckets, bucket, bump_until, fill_slot,
  fill_slots, sort_groups,
}
use hipermap.Slots.PutAll.{NonZero, Distinct}
use hipermap.U64Set.{
  read_table, Database, key_cell, database_size, comp_uint64, compile, find, has_zero,
  db_place_size, align32, get_db_place, serialized_size, serialize, deserialize,
  db_place_size_from_serialized, benchmark,
}
use hipermap.U64Set.Find.{find-compile}
use hipermap.U64Set.Serialize.{IsSized}
use hipermap.U64Set.RoundTrip.{deserialize-serialize, from_serialized_wraps, deserialize_overruns}
use hipermap.U64Set.Memory.{
  IsInside, compile-IsInside, compile-ok, compile-exhausted, compile-ne-small_place,
}
use hipermap.U64Set.Compile.{compile-accepts, compile-eq-err}
use hipermap.U64Set.Benchmark.{hits, benchmark-eq-hits}
use hipermap.Examples.Sort.{sort, sort-Perm}

abbrev qsort : List ℕ → List ℕ
qsort = sort comp_uint64

abbrev few_keys : List ℕ
few_keys = 10 ∷ 20 ∷ 30 ∷ []

abbrev few_db : Database
few_db = record {
  place = 1024;
  hash_table_place = 1056;
  hash_table =
      1 ∷ 1 ∷ 1 ∷ 1 ∷ 0 ∷ 0 ∷ 0 ∷ 0 ∷ 0 ∷ 0 ∷ 0 ∷ 30 ∷ 0 ∷ 0 ∷ 0 ∷ 0 ∷ 0 ∷ 0 ∷ 0 ∷ 10 ∷ 0 ∷ 0 ∷ 0
      ∷ 0 ∷ 0 ∷ 0 ∷ 0 ∷ 0 ∷ 0 ∷ 0 ∷ 0 ∷ 20 ∷ [];
  factor1 = 12016458565916118665;
  factor2 = 2664269878219102510;
  mask_for_hash = 28;
}

compile_few : compile qsort 100 1000 1000 few_keys ≡ ok few_db
unfolding compile comp_uint64 int_rank has_zero db_place_size hash_table_buckets
    round_up_to_power_of_2 double_until int_or_zero align32 align get_db_place build search_factors
    put_all put clear_hash_table replicate get_buckets bucket bump_until fill_slot fill_slots
    Slots.hash64 sort_groups
compile_few = refl

find-compile_example : (find few_db 20 ≡ true) ↔ Mem 20 few_keys
find-compile_example =
    find-compile qsort (sort-Perm comp_uint64) 100 1000 1000 few_keys compile_few 20

few_IsSized : IsSized few_db
few_IsSized = record {
  is_mask = record { groups = refl; fits = omega arith };
  words = refl;
  small = omega arith;
}

-- Three header words and the slots, in memory that held ones.
abbrev ones : List ℕ
ones = replicate 35 1

deserialize-serialize_example :
    (out : List ℕ) × (serialize ones 280 few_db ≡ ok out)
    × (length out ≡ length ones)
    × (deserialize 5 400 out 280
        ≡ ok (record few_db { place = align32 5; hash_table_place = align32 5 + database_size }))
unfolding replicate serialized_size get_buckets
deserialize-serialize_example =
    deserialize-serialize ones 280 few_db 5 400 few_IsSized (omega arith) (omega arith)
      (omega arith) (omega arith) (omega arith)

compile-IsInside_example : IsInside 1000 1000 few_db
compile-IsInside_example =
    compile-IsInside qsort (sort-Perm comp_uint64) 100 1000 1000 few_keys (omega arith)
      (omega arith) compile_few

few_NonZero : NonZero key_cell few_keys
few_NonZero = (omega arith, (omega arith, (omega arith, tt)))

few_Distinct : Distinct key_cell few_keys
few_Distinct = ((omega arith, (omega arith, tt)), ((omega arith, tt), (tt, tt)))

size_of_few : db_place_size 3 ≡ ok 320
unfolding db_place_size hash_table_buckets round_up_to_power_of_2 double_until int_or_zero
    get_db_place
size_of_few = refl

compile-ok_example : (db : Database) × (compile qsort 1 1000 320 few_keys ≡ ok db)
compile-ok_example =
    compile-ok qsort 0 1000 320 few_keys 320 (omega arith) (omega arith) few_NonZero few_Distinct
      (omega arith) (omega arith) size_of_few (omega arith)

compile-accepts_example :
    (0 < length few_keys) × NonZero key_cell few_keys × Distinct key_cell few_keys
compile-accepts_example =
    compile-accepts qsort (sort-Perm comp_uint64) 100 1000 1000 few_keys compile_few

compile_small : compile qsort 100 1000 300 few_keys ≡ err small_place
unfolding compile has_zero db_place_size hash_table_buckets round_up_to_power_of_2 double_until
    int_or_zero align32 align get_db_place
compile_small = refl

compile-eq-err_example :
    (small_place ≡ small_place) ⊎ ((small_place ≡ no_masks) × (length few_keys ≡ 0))
compile-eq-err_example =
    compile-eq-err qsort 100 1000 300 few_keys small_place few_NonZero few_Distinct compile_small

compile-ne-small_place_example : compile qsort 100 1000 8 few_keys ≢ err small_place
unfolding align32 align
compile-ne-small_place_example =
    compile-ne-small_place qsort 100 1000 8 few_keys (omega arith) (omega arith)

-- The first hashes to 0 under the initial factors, and all five select one group of the 64 slots.
abbrev stuck_keys : List ℕ
stuck_keys = 3943220256358306039 ∷ 9 ∷ 15 ∷ 34 ∷ 49 ∷ []

stuck_NonZero : NonZero key_cell stuck_keys
stuck_NonZero = (omega arith, (omega arith, (omega arith, (omega arith, (omega arith, tt)))))

stuck_Distinct : Distinct key_cell stuck_keys
stuck_Distinct = (
  (omega arith, (omega arith, (omega arith, (omega arith, tt)))),
  (
    (omega arith, (omega arith, (omega arith, tt))),
    ((omega arith, (omega arith, tt)), ((omega arith, tt), (tt, tt))),
  ),
)

stuck_buckets : hash_table_buckets 5 ≡ ok 64
unfolding hash_table_buckets round_up_to_power_of_2 double_until int_or_zero
stuck_buckets = refl

stuck_hash : Slots.hash64 0xA6C3096657A14E89 0x24F963569D05D92E 3943220256358306039 ≡ 0
unfolding Slots.hash64
stuck_hash = refl

stuck_collision :
    put_all key_cell
      (bucket 0xA6C3096657A14E89 0x24F963569D05D92E 60)
      stuck_keys
      (clear_hash_table key_cell 60)
    ≡ collision
unfolding put_all put bucket Slots.hash64 clear_hash_table replicate get_buckets
stuck_collision = refl

stuck_size : db_place_size 5 ≡ ok 576
unfolding db_place_size hash_table_buckets round_up_to_power_of_2 double_until int_or_zero
    get_db_place
stuck_size = refl

compile-exhausted_example : compile qsort 1000000 0 576 stuck_keys ≡ exhausted
compile-exhausted_example =
    compile-exhausted qsort 0 576 3943220256358306039 9 15 34 49 [] 64 576 stuck_NonZero
      stuck_Distinct stuck_buckets stuck_hash stuck_collision (omega arith) (omega arith) stuck_size
      (omega arith) 1000000

-- A serialized set that claims 2 ^ 61 - 2 slots, in four words.
abbrev forged : List ℕ
forged = 1 ∷ 2 ∷ (2 ^ 61 - 2) ∷ 0 ∷ []

from_serialized_wraps_example :
    db_place_size_from_serialized forged 32 ≡ ok (get_db_place (2 ^ 61 - 3 + 1))
from_serialized_wraps_example =
    from_serialized_wraps forged 32 1 refl (omega arith) (omega arith) (omega arith)

deserialize_overruns_example :
    ((t : List ℕ) × (read_table (length forged - 3) 0 forged ≡ ok t))
    × (deserialize 1000 1000 forged 32 ≡ undefined)
unfolding get_db_place align32 align
deserialize_overruns_example =
    deserialize_overruns 1000 1000 forged 32 1 refl (omega arith) (omega arith) (omega arith)
      (omega arith) (omega arith)

benchmark-eq-hits_example : benchmark 100 few_db 5 (5 + 30) ≡ ok (hits few_db 5 30)
benchmark-eq-hits_example = benchmark-eq-hits 30 100 few_db 5 (omega arith) (omega arith)
