-- ===== src/Examples/Ranges.antt =====
-- Concrete ranges, which the theorems on static_map.cpp are applied to.
use Prim.Native.Nat.{Ordering, lt, gt}
use hipermap.Common.{
  ℕ, ◌+◌, ◌-◌, ◌*◌, ◌%◌, ◌^◌, ◌≡◌, ◌≤◌, ◌<◌, inl, inr, refl, arith, true, false, List, [], ◌∷◌, ok,
  err, undefined, bad_value, bad_range, length, get_or, All, All-mono, Bool-cases, ◌==◌, ltb, ◌||◌,
  if◌then◌else◌,
}
use hipermap.Words.{int_rank}
use hipermap.StaticMap.{
  Input, Database, input_less, compile, find, no_value, bias, less_int, lower_bound, bisect,
  fill_hashtable, check_input, db_place_size, list_size_to_db_place_size, aligned_size, sweep,
  sweep_input, push_to_sorted, close_ended, drop_touching, open_zone, end_ip_of_zone,
  reopened_value,
}
use hipermap.StaticMap.Paint.{IsAnswer}
use hipermap.StaticMap.Zones.{zone_size}
use hipermap.StaticMap.Checks.{IsRange, check_input_lem}
use hipermap.StaticMap.Order.{IsInputOrder, IsSort}
use hipermap.StaticMap.Bisect.{IsAscending}
use hipermap.StaticMap.Search.{find-lower_bound}
use hipermap.StaticMap.Compile.{find-compile_ranges}
use hipermap.StaticMap.Sizes.{IsInside, list_size_to_db_place_size_lem}
use hipermap.StaticMap.Calls.{compile_succeeds, compile-IsInside_ranges}
use hipermap.StaticMap.Errors.{IsJustified, compile-IsJustified}
use hipermap.StaticMap.Buffer.{serialize, deserialize, db_place_size_from_serialized, read64}
use hipermap.StaticMap.RoundTrip.{IsStored, wrapping_size, deserialize-serialize_ranges}
use hipermap.StaticMap.Restore.{find-deserialize, db_place_size_from_serialized_wraps}
use hipermap.Examples.Sort.{insert, sort, sort-Perm}

-- The order of `input_less`, with the element that is in place first.
abbrev comp_input : Input → Input → Ordering
comp_input x k = if input_less k x then gt else lt

abbrev std_sort : List Input → List Input
std_sort = sort comp_input

insert-All :
    (P : Input → Type 0) (k : Input) (xs : List Input)
    → P k
    → All P xs
    → All P (insert comp_input k xs)
insert-All P k [] here h = (here, tt)
insert-All P k (x ∷ xs) here h = elim (Bool-cases (input_less k x)) [
  | inl first ↦ rw first (here, (h.0, h.1))
  | inr later ↦ rw later (h.0, insert-All P k xs here h.1)
]

less_before :
    (k x y : Input) → input_less k x ≡ true → input_less y x ≡ false → input_less y k ≡ false
unfolding input_less
less_before k x y h g = ground arith

less_asym : (k x : Input) → input_less k x ≡ true → input_less x k ≡ false
unfolding input_less
less_asym k x h = ground arith

insert-IsInputOrder :
    (k : Input) (xs : List Input) → IsInputOrder xs → IsInputOrder (insert comp_input k xs)
insert-IsInputOrder k [] h = (tt, tt)
insert-IsInputOrder k (x ∷ xs) h = elim (Bool-cases (input_less k x)) [
  | inl first ↦
      rw first ((less_asym k x first, All-mono (λ y. less_before k x y first) xs h.0), (h.0, h.1))
  | inr later ↦
      rw later
        (insert-All (λ y. input_less y x ≡ false) k xs later h.0, insert-IsInputOrder k xs h.1)
]

sort-IsInputOrder : (xs : List Input) → IsInputOrder (std_sort xs)
sort-IsInputOrder [] = tt
sort-IsInputOrder (x ∷ xs) = insert-IsInputOrder x (std_sort xs) (sort-IsInputOrder xs)

std_sort-IsSort : IsSort std_sort
std_sort-IsSort = record { permutes = sort-Perm comp_input; ordered = sort-IsInputOrder }

-- 10.1.0.0/16 inside 10.0.0.0/8, and a range that ends the address space.
abbrev wide : Input
wide = record { ip = 10 * 2 ^ 24; cidr_prefix = 8; value = 1 }

abbrev inner : Input
inner = record { ip = 10 * 2 ^ 24 + 2 ^ 16; cidr_prefix = 16; value = 2 }

abbrev top : Input
top = record { ip = 2 ^ 32 - 2 ^ 24; cidr_prefix = 8; value = 3 }

abbrev ranges : List Input
ranges = inner ∷ top ∷ wide ∷ []

few_small : All (λ x. x.ip < 2 ^ 32) ranges
few_small = (omega arith, (omega arith, (omega arith, tt)))

few_IsRange : All IsRange ranges
few_IsRange = (
  record {
    small = omega arith;
    least = omega arith;
    most = omega arith;
    aligned = refl;
    value = λ e. omega (arith, e);
  },
  (
    record {
      small = omega arith;
      least = omega arith;
      most = omega arith;
      aligned = refl;
      value = λ e. omega (arith, e);
    },
    (
      record {
        small = omega arith;
        least = omega arith;
        most = omega arith;
        aligned = refl;
        value = λ e. omega (arith, e);
      },
      tt,
    ),
  ),
)

-- The steps that the ranges come to, with the last one first.
sweep-ranges :
    sweep (std_sort ranges) (record { sorted = push_to_sorted 0 no_value []; ends_stack = [] })
    ≡ ok (record {
      sorted =
          record { ip = 2 ^ 32 - 2 ^ 24; value = 3 }
          ∷ record { ip = 11 * 2 ^ 24; value = no_value }
          ∷ record { ip = 10 * 2 ^ 24 + 2 * 2 ^ 16; value = 1 }
          ∷ record { ip = 10 * 2 ^ 24 + 2 ^ 16; value = 2 }
          ∷ record { ip = 10 * 2 ^ 24; value = 1 }
          ∷ record { ip = 0; value = no_value }
          ∷ [];
      ends_stack = record { ip = 0; value = 3 } ∷ [];
    })
unfolding sweep sweep_input push_to_sorted close_ended drop_touching open_zone end_ip_of_zone
    reopened_value input_less
sweep-ranges = refl

roomy : db_place_size 3 ≤ 300000
unfolding db_place_size list_size_to_db_place_size aligned_size
roomy = omega arith

compile_succeeds_example : (db : Database) × (compile std_sort 1000 300000 ranges ≡ ok db)
compile_succeeds_example =
    compile_succeeds std_sort std_sort-IsSort 1000 300000 ranges (omega arith) (omega arith)
      few_IsRange (omega arith) (omega arith) roomy

-- The database of the ranges.
built : (db : Database) × (compile std_sort 1000 300000 ranges ≡ ok db)
built =
    compile_succeeds std_sort std_sort-IsSort 1000 300000 ranges (omega arith) (omega arith)
      few_IsRange (omega arith) (omega arith) roomy

find-compile_ranges_example :
    (v : ℕ) × (find built.0 (10 * 2 ^ 24 + 2 ^ 16 + 7) ≡ ok v)
    × IsAnswer ranges (10 * 2 ^ 24 + 2 ^ 16 + 7) v
find-compile_ranges_example =
    find-compile_ranges std_sort std_sort-IsSort 1000 300000 ranges built.0
      (10 * 2 ^ 24 + 2 ^ 16 + 7) few_small built.1 (omega arith)

compile-IsInside_ranges_example : IsInside built.0 1000 (1000 + 300000)
compile-IsInside_ranges_example =
    compile-IsInside_ranges std_sort std_sort-IsSort 1000 300000 ranges built.0 few_small
      (omega arith) (omega arith) (omega arith) (omega arith) built.1

compile-IsJustified_example : IsJustified 300000 ranges (compile std_sort 1000 300000 ranges)
compile-IsJustified_example =
    compile-IsJustified std_sort std_sort-IsSort 1000 300000 ranges few_small
      ((omega arith, omega arith), ((omega arith, omega arith), ((omega arith, omega arith), tt)))
      (omega arith) (omega arith) (omega arith) (omega arith)

-- A range that is not aligned.
abbrev crooked : Input
crooked = record { ip = 2 ^ 24 + 1; cidr_prefix = 8; value = 1 }

check_input_lem_example : check_input crooked ≡ (
    if crooked.value == no_value
    then err bad_value
    else if ltb crooked.cidr_prefix 2 || ltb 32 crooked.cidr_prefix
    then undefined
    else if crooked.ip % zone_size crooked == 0
    then ok tt
    else err bad_range)
check_input_lem_example = check_input_lem crooked

-- One value for the lower half of the addresses, and none for the upper half.
abbrev half_db : Database
half_db = record {
  place = 1024;
  hashtable_place = 1056;
  max_ips_place = 263200;
  values_place = 263208;
  list_size = 2;
  hashtable = fill_hashtable ((2 ^ 32 - 1) ∷ (2 ^ 31 - 1) ∷ []);
  max_ips = (2 ^ 32 - 1) ∷ (2 ^ 31 - 1) ∷ [];
  values = 7 ∷ no_value ∷ [];
}

half-IsAscending : IsAscending half_db.max_ips
unfolding less_int int_rank
half-IsAscending = ((refl, tt), (tt, tt))

inside : lower_bound half_db.max_ips (bias 5) < length half_db.max_ips
unfolding lower_bound bisect less_int int_rank bias
inside = omega arith

find-lower_bound_example :
    find half_db 5 ≡ ok (get_or half_db.values (lower_bound half_db.max_ips (bias 5)) 0)
find-lower_bound_example =
    find-lower_bound half_db 5 refl half-IsAscending (omega arith) refl inside (omega arith)

half_IsStored : IsStored half_db
half_IsStored = record {
  max_ips = refl;
  values = refl;
  table = refl;
  some = omega arith;
  bound = omega arith;
}

half_roomy : list_size_to_db_place_size half_db.list_size + 8 ≤ 300000
unfolding list_size_to_db_place_size aligned_size
half_roomy = omega arith

deserialize-serialize_ranges_example :
    (buffer : List ℕ) × (again : Database) × (serialize 32 half_db ≡ ok buffer)
    × (deserialize 5000 300000 buffer 32 ≡ ok again)
    × (again.max_ips ≡ half_db.max_ips)
    × (again.values ≡ half_db.values)
    × ((a : ℕ) → find again a ≡ find half_db a)
    × (serialize 32 again ≡ ok buffer)
deserialize-serialize_ranges_example =
    deserialize-serialize_ranges half_db 5000 300000 32 half_IsStored (omega arith) (omega arith)
      half_roomy (omega arith)

-- A buffer that says the list size at which the size wraps.
abbrev hostile : List ℕ
hostile = 1431655765 ∷ 357913941 ∷ []

hostile_size : read64 hostile ≡ ok wrapping_size
unfolding read64
hostile_size = refl

db_place_size_from_serialized_wraps_example : db_place_size_from_serialized hostile 8 ≡ ok 262184
db_place_size_from_serialized_wraps_example =
    db_place_size_from_serialized_wraps hostile 8 hostile_size (omega arith)

built_IsInside : IsInside built.0 1000 (1000 + 300000)
built_IsInside =
    compile-IsInside_ranges std_sort std_sort-IsSort 1000 300000 ranges built.0 few_small
      (omega arith) (omega arith) (omega arith) (omega arith) built.1

few_cells : built.0.list_size ≤ 40000
few_cells = omega (arith, built_IsInside.values, built_IsInside.list_size.1)

find-deserialize_example :
    (buffer : List ℕ) × (again : Database) × (serialize 1000000 built.0 ≡ ok buffer)
    × (deserialize 5000 2000000 buffer 1000000 ≡ ok again)
    × ((a : ℕ) → a < 2 ^ 32 → (v : ℕ) × (find again a ≡ ok v) × IsAnswer ranges a v)
find-deserialize_example =
    find-deserialize std_sort std_sort-IsSort 1000 300000 ranges built.0 5000 2000000 1000000
      few_small built.1 (omega (arith, few_cells)) (omega arith)
      (omega (
        arith,
        few_cells,
        list_size_to_db_place_size_lem built.0.list_size (omega (arith, few_cells)),
      ))
      (omega arith)
