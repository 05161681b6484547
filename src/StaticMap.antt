-- ===== src/StaticMap.antt =====
-- static_map.cpp: a static map from IPv4 ranges to values, in which the smallest range that holds
-- an address gives its value.
-- `hm_sm_compile` turns the ranges into one ascending list of addresses where the value changes.
-- The arrays `ips`, `cidr_prefixes` and `values` are one list of inputs, since they are read at the
-- same index only. A `std::vector` that is used at its back only is a list with its last element
-- first. An `int32_t` is its bit pattern, and is compared by `int_rank`.
pub mod Zones
pub mod Steps
pub mod Paint
pub mod Stack
pub mod Close
pub mod Open
pub mod Finish
pub mod Bisect
pub mod Search
pub mod Arrays
pub mod Checks
pub mod Order
pub mod Size
pub mod Compile
pub mod Sizes
pub mod Calls
pub mod Errors
pub mod Buffer
pub mod RoundTrip
pub mod Restore
use Prim.Native.Nat.{bit_and, bit_xor}
use mathlib.Core.List.{reverse}
use hipermap.Common.{
  ℕ, zero, suc, ◌+◌, ◌-◌, ◌*◌, ◌/◌, ◌%◌, ◌^◌, Bool, true, false, not, ◌&&◌, ◌||◌, List, [], ◌∷◌,
  map, Outcome, ok, err, undefined, ◌>>=◌, ◌>>◌, fail_if, bad_value, bad_range, no_masks,
  small_place, ltb, leb, ◌==◌, if◌then◌else◌, length, get_or, drop,
}
use hipermap.Words.{add64, sub64, mul64, align, int_rank}

-- `HM_NO_VALUE`
abbrev pub no_value : ℕ
no_value = 2 ^ 64 - 1

-- `hm_input_elem`
pub record Input : Type 0 where
  pub ip : ℕ
  pub cidr_prefix : ℕ
  pub value : ℕ

-- `hm_elem`
pub record Elem : Type 0 where
  pub ip : ℕ
  pub value : ℕ

-- `hm_sm_database_t`, with the addresses of its parts.
pub record Database : Type 0 where
  pub place : ℕ
  pub hashtable_place : ℕ
  pub max_ips_place : ℕ
  pub values_place : ℕ
  pub list_size : ℕ
  pub hashtable : List ℕ
  pub max_ips : List ℕ
  pub values : List ℕ

-- `sizeof(hm_sm_database_t)`: a word and three pointers.
abbrev pub database_size : ℕ
database_size = 32

abbrev pub hashtable_size_bytes : ℕ
hashtable_size_bytes = 256 * 256 * 4

abbrev pub alignment : ℕ
alignment = 8

-- `ip ^ ip_xor`
unfoldable pub bias : ℕ → ℕ
bias ip = bit_xor ip (2 ^ 31)

-- `<` on `int32_t`.
unfoldable pub less_int : ℕ → ℕ → Bool
less_int a b = ltb (int_rank a) (int_rank b)

-- The address after the last one of the range. The range that ends the address space gives 0.
unfoldable pub end_ip_of_zone : ℕ → ℕ → ℕ
end_ip_of_zone ip cidr_prefix =
    let zero_bits = 32 - cidr_prefix in ((ip / 2 ^ zero_bits + 1) * 2 ^ zero_bits) % 2 ^ 32

-- Round up to even number.
unfoldable pub aligned_size : ℕ → ℕ
aligned_size list_size = add64 list_size (bit_and list_size 1)

unfoldable pub list_size_to_db_place_size : ℕ → ℕ
list_size_to_db_place_size list_size =
    add64 (add64 (add64 database_size hashtable_size_bytes) (mul64 (aligned_size list_size) 4))
      (mul64 list_size 8)

-- `elements * 2 + 2` is on `unsigned int`.
unfoldable pub db_place_size : ℕ → ℕ
db_place_size elements = add64 (list_size_to_db_place_size ((elements * 2 + 2) % 2 ^ 32)) alignment

-- The halving search of `std::lower_bound` in `count` elements from `first` on. A round leaves fewer
-- elements, so `fuel` for as many rounds as there are elements is enough.
unfoldable pub bisect : ℕ → List ℕ → ℕ → ℕ → ℕ → ℕ
bisect zero ms x first count = first
bisect (suc fuel) ms x first count =
    let half = count / 2 in
    let below = less_int (get_or ms (first + half) 0) x in
    let rest =
      bisect fuel ms x (if below then first + half + 1 else first)
        (if below then count - (half + 1) else half) in
    if count == 0 then first else rest

-- `std::lower_bound`: the index of the first element that is not below `x`, in an array where those
-- that are below come first.
unfoldable pub lower_bound : List ℕ → ℕ → ℕ
lower_bound ms x = bisect (length ms) ms x 0 (length ms)

-- The loop of `fill_hashtable`, with the rounds left. The index is stored as a `uint32_t`.
unfoldable pub fill_from : ℕ → ℕ → List ℕ → List ℕ
fill_from zero hash max_ips = []
fill_from (suc left) hash max_ips =
    lower_bound max_ips (bias ((hash * 2 ^ 16) % 2 ^ 32)) % 2 ^ 32
    ∷ fill_from left (hash + 1) max_ips

unfoldable pub fill_hashtable : List ℕ → List ℕ
fill_hashtable max_ips = fill_from 65536 0 max_ips

-- `(1 << (32 - cidr_prefix)) - 1` on `int`. A shift by 32, or by less than 0, is undefined, and for
-- prefix 1 the difference overflows.
unfoldable pub low_mask : ℕ → Outcome ℕ
low_mask cidr_prefix =
    if ltb cidr_prefix 2 || ltb 32 cidr_prefix then undefined else ok (2 ^ (32 - cidr_prefix) - 1)

-- The tests of one input, in the loop that copies the inputs.
unfoldable pub check_input : Input → Outcome (Unit {0})
check_input input = do
  fail_if (input.value == no_value) bad_value
  mask ← low_mask input.cidr_prefix
  fail_if (not (bit_and input.ip mask == 0)) bad_range
  fail_if (input.cidr_prefix == 0 || ltb 32 input.cidr_prefix) bad_range

-- The loop over the inputs from index `i` on. The index is an `int`, which `i++` may overflow.
unfoldable pub check_inputs : ℕ → List Input → Outcome (Unit {0})
check_inputs i [] = ok tt
check_inputs i (input ∷ inputs) =
    let rest = check_inputs (i + 1) inputs in
    check_input input >> (if ltb i (2 ^ 31 - 1) then rest else undefined)

-- The lambda that `std::sort` compares by.
unfoldable pub input_less : Input → Input → Bool
input_less a b = if a.ip == b.ip then ltb a.cidr_prefix b.cidr_prefix else ltb a.ip b.ip

-- The vectors `sorted` and `ends_stack`, each with its last element first.
pub record Sweep : Type 0 where
  pub sorted : List Elem
  pub ends_stack : List Elem

-- `pushToSorted`
unfoldable pub push_to_sorted : ℕ → ℕ → List Elem → List Elem
push_to_sorted ip value [] = record { ip = ip; value = value } ∷ []
push_to_sorted ip value (last ∷ sorted) =
    if last.ip == ip
    then record last { value = value } ∷ sorted
    else record { ip = ip; value = value } ∷ last ∷ sorted

-- `ends_stack.empty() ? HM_NO_VALUE : ends_stack.back().value`
unfoldable pub reopened_value : List Elem → ℕ
reopened_value [] = no_value
reopened_value (last ∷ ends_stack) = last.value

-- The `while` before an input: the ranges that end before it starts.
unfoldable pub close_ended : ℕ → List Elem → List Elem → Sweep
close_ended ip [] sorted = record { sorted = sorted; ends_stack = [] }
close_ended ip (last ∷ ends_stack) sorted =
    let rest =
      close_ended ip ends_stack (push_to_sorted last.ip (reopened_value ends_stack) sorted) in
    if ltb last.ip ip && not (last.ip == 0)
    then rest
    else record { sorted = sorted; ends_stack = last ∷ ends_stack }

-- The `if` after it: the range that ends where the input starts.
unfoldable pub drop_touching : ℕ → List Elem → List Elem
drop_touching ip [] = []
drop_touching ip (last ∷ ends_stack) = if last.ip == ip then ends_stack else last ∷ ends_stack

-- The end of the input on the stack. A failed `assert` is `undefined`.
unfoldable pub open_zone : ℕ → ℕ → List Elem → Outcome (List Elem)
open_zone end_ip value [] = ok (record { ip = end_ip; value = value } ∷ [])
open_zone end_ip value (last ∷ ends_stack) =
    if last.ip == end_ip
    then ok (record last { value = value } ∷ ends_stack)
    else if ltb end_ip last.ip || last.ip == 0
    then ok (record { ip = end_ip; value = value } ∷ last ∷ ends_stack)
    else undefined

-- The body of the loop over the sorted inputs.
unfoldable pub sweep_input : Input → Sweep → Outcome Sweep
sweep_input input s = do
  let closed = close_ended input.ip s.ends_stack s.sorted
  let sorted = push_to_sorted input.ip input.value closed.sorted
  ends_stack ←
      open_zone (end_ip_of_zone input.ip input.cidr_prefix) input.value
        (drop_touching input.ip closed.ends_stack)
  ok (record { sorted = sorted; ends_stack = ends_stack })

unfoldable pub sweep : List Input → Sweep → Outcome Sweep
sweep [] s = ok s
sweep (input ∷ inputs) s = sweep_input input s >>= sweep inputs

-- The `while` after the loop.
unfoldable pub close_all : List Elem → List Elem → List Elem
close_all [] sorted = sorted
close_all (last ∷ ends_stack) sorted =
    close_all ends_stack (push_to_sorted last.ip (reopened_value ends_stack) sorted)

-- The counter of a loop `for (int i = 0; i < n; i++)`, which overflows after 2 ^ 31 - 1 rounds.
unfoldable pub count_int : ℕ → Outcome (Unit {0})
count_int n = if ltb n (2 ^ 31) then ok tt else undefined

-- What the loop that fills `max_ips` and `values` stores, where its counter does not overflow, over `sorted` from its start, with biased addresses.
unfoldable pub max_ips_of : List Elem → List ℕ
max_ips_of (e ∷ next ∷ sorted) = (next.ip + 2 ^ 32 - 1) % 2 ^ 32 ∷ max_ips_of (next ∷ sorted)
max_ips_of _ = []

unfoldable pub values_of : List Elem → List ℕ
values_of (e ∷ next ∷ sorted) = e.value ∷ values_of (next ∷ sorted)
values_of _ = []

-- The database at `place`, for the vector `sorted` from its start.
unfoldable pub place_database : ℕ → List Elem → Database
place_database place sorted =
    let list_size = length sorted - 1 in
    let max_ips = max_ips_of sorted in
    record {
      place = place;
      hashtable_place = place + database_size;
      max_ips_place = place + database_size + hashtable_size_bytes;
      values_place = place + database_size + hashtable_size_bytes + 4 * aligned_size list_size;
      list_size = list_size;
      hashtable = fill_hashtable max_ips;
      max_ips = max_ips;
      values = values_of sorted;
    }

-- `hm_sm_compile`. `sort` is `std::sort` by `input_less`.
unfoldable pub compile : (List Input → List Input) → ℕ → ℕ → List Input → Outcome Database
compile sort place size inputs = do
  fail_if (length inputs == 0) no_masks
  let place2 = align alignment place
  let size2 = sub64 size (sub64 place2 place)
  fail_if (ltb size2 database_size) small_place
  check_inputs 0 inputs
  swept ← sweep (sort inputs) (record { sorted = push_to_sorted 0 no_value []; ends_stack = [] })
  let closed = push_to_sorted 0 no_value (close_all swept.ends_stack swept.sorted)
  count_int (length closed)
  let sorted = map (λ (e : Elem). record e { ip = bias e.ip }) (reverse closed)
  fail_if (ltb size2 (list_size_to_db_place_size (length sorted - 1))) small_place
  count_int (length sorted - 1)
  ok (place_database place2 sorted)

-- The loop of `hm_sm_find` over `max_ips` from an index on. A read past the end is undefined.
unfoldable pub scan : List ℕ → ℕ → ℕ → Outcome ℕ
scan [] index ip = undefined
scan (m ∷ max_ips) index ip = if less_int m ip then scan max_ips (index + 1) ip else ok index

-- A read past the end of an array is undefined.
unfoldable pub read_at : List ℕ → ℕ → Outcome ℕ
read_at cells i = if ltb i (length cells) then ok (get_or cells i 0) else undefined

-- `hm_sm_find`
unfoldable pub find : Database → ℕ → Outcome ℕ
find db ip = do
  begin ← read_at db.hashtable (ip / 2 ^ 16)
  index ← scan (drop begin db.max_ips) begin (bias ip)
  read_at db.values index
