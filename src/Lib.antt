-- ===== src/Lib.antt =====
-- hipermap: static hash tables of 64-bit keys, a static map of IPv4 ranges, a cache of IP addresses.
--
-- The program is a C library. static_uint64_set.c builds, in memory that the caller gives, a hash
-- table that answers whether a key is in a fixed set; static_uint64_map.c does the same with a
-- value for each key; both write a table to a buffer and read it back. cache.c keeps the newest
-- IP addresses with a value each, in two lists inside one array and a hash table with linear
-- probing. static_map.cpp builds a map from IPv4 ranges to values, in which the smallest range that
-- holds an address gives its value, and also writes it to a buffer and reads it back. The parts
-- share common.h, and none calls another.
--
-- Which file models what:
-- - Common: the Boolean tests and the list operations over the native numbers, and the outcome of
--   a call. HmError is `hm_error_t` of common.h. An outcome is a value, an error code, `undefined`
--   where C leaves the behaviour undefined or an `assert` fails, or `exhausted` where the fuel of a
--   loop has run out.
-- - Words: arithmetic modulo 2 ^ 64, the conversion of `int` to `size_t`, masks, and the `align`
--   helpers.
-- - Slots: the hash table that static_uint64_set.c and static_uint64_map.c both hold, with the same
--   code, over a type of cells: hash64, hash_table_buckets, clear_hash_table, and the three loops
--   of `compile` (put and put_all and search_factors; fill_slot and bump_until; sort_groups).
--   Slots.Group, Slots.Put, Slots.PutAll, Slots.Fill, Slots.Sort and Slots.Table are about the
--   groups of four slots through these loops, Slots.Build about their composition, Slots.Sizes
--   about the number of slots, Slots.Errors, Slots.Total, Slots.Small and Slots.Degenerate about
--   which outcomes occur.
-- - U64Set: static_uint64_set.c. Each definition has the name of its function less `hm_u64_`.
-- - U64Map: static_uint64_map.c, less `hm_u64map_`.
-- - Cache: cache.c. Cache has `cut`, `set_head` and the three table operations, Cache.Init
--   `hm_valid_capacity`, `hm_cache_place_size` and `hm_cache_init`, Cache.Api `hm_cache_add`,
--   `hm_cache_remove` and `hm_cache_has`, Cache.Dump `hm_cache_dump`. Cache.Chain, Cache.Apart,
--   Cache.Cut, Cache.Remove and Cache.Push are about one linked list, Cache.Pairs about the two in
--   one array, Cache.Frame and Cache.Relink about what an operation does not write, Cache.Moves and
--   Cache.Calls about the lists through the calls, Cache.Start and Cache.Memory about a new cache,
--   Cache.Dump.Whole about `dump`. Cache.Ring is about distances between buckets, Cache.Probe about
--   the hash table: Probe.Fill about its contents, Probe.Stop about where a probe ends, Probe.Loops
--   about the loops, Probe.Insert about `table_add`, Probe.Gap, Probe.Move and Probe.Delete about
--   `table_delete`, Probe.Calls about the three functions. Cache.Lru is the specification, a list
--   of IPs and values with the newest first; Lru.Consistent and Lru.Represents tie it to a cache,
--   Lru.Insert, Lru.Add, Lru.Present, Lru.Absent and Lru.Refine go through the calls, Lru.Start,
--   Lru.Order and Lru.Trace through `hm_cache_init`, `hm_cache_dump` and sequences of calls.
-- - StaticMap: static_map.cpp, less `hm_sm_`. StaticMap has `compile`, split into its tests, its
--   loop over the sorted inputs and the two that close ranges, and `find`; StaticMap.Buffer has the
--   serialized form. StaticMap.Zones is about aligned ranges, StaticMap.Steps about the vector
--   `sorted`, StaticMap.Stack, StaticMap.Close, StaticMap.Open and StaticMap.Finish about the stack
--   of open ranges through the loops, StaticMap.Paint about the specification, an answer by a
--   smallest range. StaticMap.Bisect is about `std::lower_bound`, StaticMap.Search and
--   StaticMap.Arrays about `find`, StaticMap.Checks and StaticMap.Order about the inputs,
--   StaticMap.Size and StaticMap.Sizes about lengths and bytes, StaticMap.Compile, StaticMap.Calls
--   and StaticMap.Errors about the calls, StaticMap.RoundTrip and StaticMap.Restore about buffers.
-- - Examples: concrete inputs.
--
-- Memory: a place is the number of its address, and the size is what the caller states. A database
-- is a record of the fields, with the addresses of the structure and the table beside the table's
-- contents. A serialized buffer is the list of its 64-bit words, or of its 32-bit words for
-- static_map.cpp, beside its stated size. A function that reads or writes outside a buffer gives
-- `undefined`. An array that a call fills is a list.
--
-- Numbers: 32-bit and 64-bit unsigned arithmetic is written out modulo 2 ^ 32 and 2 ^ 64. A signed
-- overflow is `undefined` where it can occur in a size, in a mask, in the copying loops, and in the
-- loops of static_map.cpp. In static_uint64_set.c and static_uint64_map.c the loops `for (int i =
-- 0; i < elements; i++)` over the caller's arrays are structural recursion over a list, which
-- stands for arrays of fewer than 2 ^ 31 elements.
--
-- Fuel: `compile` has two loops without a bound, the search for factors and the search for a filler
-- of an empty slot, and both take the same fuel. `benchmark` needs one round for each key and one
-- for the test that ends it. The loops of cache.c over the hash table end within as many rounds as
-- there are buckets, since one bucket is always empty; those of `dump` along a list need one round
-- more than the capacity. The loops of static_map.cpp are structural, over the inputs, the stack or
-- an array; the halving search of `std::lower_bound` takes as many rounds as the array is long at
-- most. double_until has 32 rounds, one more than the powers of two that an `int` holds.
--
-- `qsort` is the C library's. The definitions take it as a parameter, and the theorems assume of it
-- that it permutes its input; the comparison functions are modelled beside it. `std::sort` is a
-- parameter as well, and is assumed to permute and to order by the comparison. `std::lower_bound`
-- is the halving search, which in an ascending array gives what the library promises; the C++
-- standard says nothing about others.
--
-- Not modelled: the programs in tools, the Go bindings, debug output, and in static_map.cpp the
-- alignment of the 64-bit words of a buffer.
pub mod Common
pub mod Words
pub mod Slots
pub mod U64Set
pub mod U64Map
pub mod Cache
pub mod StaticMap
pub mod Examples
