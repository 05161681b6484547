-- ===== src/Cache/Init.antt =====
-- The size and the initial state of a cache: `hm_valid_capacity`, `hm_cache_place_size` and
-- `hm_cache_init`.
use Prim.Native.Nat.{bit_and}
use hipermap.Common.{
  ℕ, zero, suc, ◌+◌, ◌-◌, ◌*◌, ◌%◌, ◌^◌, Bool, true, false, ◌||◌, List, Outcome, ok, ◌>>=◌, ◌>>◌,
  fail_if, bad_size, small_place, not, ltb, leb, ◌==◌, if◌then◌else◌, replicate,
}
use hipermap.Words.{add64, sub64, mul64, align}
use hipermap.Cache.{Cache, Element, no_index, set_prev, set_next}

-- `capacity << speed` on `uint64_t`.
unfoldable pub get_hash_table_capacity : ℕ → ℕ → ℕ
get_hash_table_capacity capacity speed = mul64 capacity (2 ^ speed)

-- `hm_valid_capacity`. `capacity - 1` is taken only where the capacity is at least 2.
unfoldable pub valid_capacity : ℕ → ℕ → Bool
valid_capacity capacity speed =
    if ltb capacity 2
    then false
    else if not (bit_and capacity (capacity - 1) == 0)
    then false
    else if leb no_index (capacity - 1)
    then false
    else if leb (get_hash_table_capacity capacity speed) capacity
    then false
    else true

-- `sizeof(hm_cache_t)`: two `uint32_t`, a pointer, two lists of two `uint32_t`, and a pointer.
abbrev pub cache_size : ℕ
cache_size = 40

abbrev pub element_size : ℕ
element_size = 16

abbrev pub alignment : ℕ
alignment = 8

-- `hm_cache_place_size`. `speed` is the bit pattern of the `int`: a negative one is above 5.
unfoldable pub cache_place_size : ℕ → ℕ → Outcome ℕ
cache_place_size capacity speed = do
  fail_if (ltb speed 1 || ltb 5 speed) bad_size
  fail_if (not (valid_capacity capacity speed)) bad_size
  let hash_table_capacity = get_hash_table_capacity capacity speed
  ok (
      add64 (add64 (add64 cache_size (mul64 element_size capacity)) (mul64 hash_table_capacity 4))
        alignment)

-- The loop that links the elements to the free list, with the rounds left. `i - 1` and `i + 1` are
-- on `uint32_t`.
unfoldable pub link_free : ℕ → ℕ → List Element → List Element
link_free zero i storage = storage
link_free (suc left) i storage =
    link_free left (i + 1)
      (set_next (set_prev storage i ((i + 2 ^ 32 - 1) % 2 ^ 32)) i ((i + 1) % 2 ^ 32))

-- What `hm_cache_init` leaves in memory: the structure and the addresses of its parts.
pub record Placed : Type 0 where
  pub cache_place : ℕ
  pub list_place : ℕ
  pub hash_table_place : ℕ
  pub end_place : ℕ
  pub cache : Cache

-- `hm_cache_init`. `memory` is what the element array holds before.
unfoldable pub init : ℕ → ℕ → ℕ → ℕ → List Element → Outcome Placed
init place size capacity speed memory = do
  let place2 = align alignment place
  let size2 = sub64 size (sub64 place2 place)
  needed ← cache_place_size capacity speed
  fail_if (ltb size2 (sub64 needed alignment)) small_place
  let hash_table_capacity = get_hash_table_capacity capacity speed
  let list_place = place2 + cache_size
  let hash_table_place = list_place + element_size * capacity
  let linked = link_free capacity 0 memory
  ok (record {
    cache_place = place2;
    list_place = list_place;
    hash_table_place = hash_table_place;
    end_place = hash_table_place + 4 * hash_table_capacity;
    cache = record {
      mask_for_hash = (hash_table_capacity - 1) % 2 ^ 32;
      capacity = capacity;
      list_storage = set_next (set_prev linked 0 no_index) (capacity - 1) no_index;
      nodes = record { head_index = no_index; tail_index = no_index };
      free_nodes = record { head_index = 0; tail_index = capacity - 1 };
      hash_table = replicate hash_table_capacity no_index;
    };
  })
