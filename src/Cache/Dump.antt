-- ===== src/Cache/Dump.antt =====
-- `hm_cache_dump`: the IPs from the newest to the oldest, after assertions on the whole state.
-- `fuel` bounds each walk along a list, and each loop over the hash table. A failed `assert` is
-- `undefined`.
pub mod Whole
use hipermap.Common.{
  ℕ, zero, suc, ◌+◌, ◌-◌, ◌≤◌, ◌<◌, ◌≡◌, ◌≢◌, ◌⊎◌, inl, inr, refl, sym, ap, ◌∙◌, arith, Bool, true,
  false, not, ◌||◌, List, [], ◌∷◌, ◌++◌, map, Mem, All, Mem-All, Outcome, ok, undefined, exhausted,
  ◌>>=◌, ◌>>◌, leb, ◌==◌, if◌then◌else◌, length,
}
use hipermap.Cache.{Element, Ends, Cache, no_index, at, table_lookup}
use hipermap.Cache.Chain.{first_or, last_or, Chain, AreIndices, IsList}
use hipermap.Cache.Apart.{append-All, present}
use hipermap.Cache.Moves.{IsCache}

-- `assert`
abbrev pub assert_that : Bool → Outcome (Unit {0})
assert_that true = ok tt
assert_that false = undefined

-- Both ends of a list are NO_INDEX, or none.
unfoldable pub consistent : Ends → Bool
consistent ends =
    if ends.head_index == no_index
    then ends.tail_index == no_index
    else not (ends.tail_index == no_index)

-- The tests of the links of one element.
unfoldable pub link_holds : List Element → ℕ → Bool
link_holds storage i =
    let prev = (at storage i).prev_index in
    let next = (at storage i).next_index in
    if prev == no_index || (at storage prev).next_index == i
    then next == no_index || (at storage next).prev_index == i
    else false

-- The loop over all elements, with the rounds left.
unfoldable pub check_links : ℕ → ℕ → List Element → Outcome (Unit {0})
check_links zero i storage = ok tt
check_links (suc left) i storage =
    assert_that (link_holds storage i) >> check_links left (i + 1) storage

-- The loops that count the elements of a list, from the head and from the tail.
unfoldable pub count_next : ℕ → List Element → ℕ → Outcome ℕ
count_next zero storage i = exhausted
count_next (suc fuel) storage i =
    let rest = count_next fuel storage (at storage i).next_index in
    if i == no_index then ok 0 else rest >>= λ size. ok (size + 1)

unfoldable pub count_prev : ℕ → List Element → ℕ → Outcome ℕ
count_prev zero storage i = exhausted
count_prev (suc fuel) storage i =
    let rest = count_prev fuel storage (at storage i).prev_index in
    if i == no_index then ok 0 else rest >>= λ size. ok (size + 1)

-- The loop that looks the elements of the list up.
unfoldable pub check_table : ℕ → ℕ → Cache → ℕ → Outcome (Unit {0})
check_table zero fuel cache i = exhausted
check_table (suc left) fuel cache i =
    let rest = check_table left fuel cache (at cache.list_storage i).next_index in
    if i == no_index
    then ok tt
    else table_lookup fuel cache (at cache.list_storage i).ip >>= λ found.
        assert_that (found == i) >> rest

-- The loop that writes the IPs.
unfoldable pub dump_from : ℕ → List Element → ℕ → Outcome (List ℕ)
dump_from zero storage i = exhausted
dump_from (suc fuel) storage i =
    let rest = dump_from fuel storage (at storage i).next_index in
    if i == no_index then ok [] else rest >>= λ ips. ok ((at storage i).ip ∷ ips)

-- `hm_cache_dump` into an array of `ips_len` words. The length that it reports is that of the result.
unfoldable pub dump : ℕ → Cache → ℕ → Outcome (List ℕ)
dump fuel cache ips_len = do
  let s = cache.list_storage
  assert_that (leb cache.capacity ips_len)
  assert_that (consistent cache.nodes)
  assert_that (consistent cache.free_nodes)
  assert_that
      (not (cache.nodes.head_index == no_index) || not (cache.free_nodes.head_index == no_index))
  check_links cache.capacity 0 s
  list_size ← count_next fuel s cache.nodes.head_index
  free_list_size ← count_next fuel s cache.free_nodes.head_index
  list_size2 ← count_prev fuel s cache.nodes.tail_index
  free_list_size2 ← count_prev fuel s cache.free_nodes.tail_index
  assert_that (list_size == list_size2)
  assert_that (free_list_size == free_list_size2)
  assert_that (list_size + free_list_size == cache.capacity)
  check_table fuel fuel cache cache.nodes.head_index
  assert_that (leb list_size ips_len)
  dump_from fuel s cache.nodes.head_index
