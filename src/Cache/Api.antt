-- ===== src/Cache/Api.antt =====
-- The calls on a cache: `hm_cache_add`, `hm_cache_remove` and `hm_cache_has`. `fuel` bounds each
-- loop over the hash table.
use hipermap.Common.{
  ℕ, Bool, true, false, Option, none, some, Outcome, ok, undefined, ◌>>=◌, ◌==◌, if◌then◌else◌,
}
use hipermap.Cache.{
  Cache, no_index, at, set_value, set_ip, cut, set_head, table_lookup, table_add, table_delete,
}

-- `cut(cache->list_storage, &cache->nodes, index)`, and so for the free list.
unfoldable pub cut_node : Cache → ℕ → Cache
cut_node cache index =
    let l = cut (record { storage = cache.list_storage; ends = cache.nodes }) index in
    record cache { list_storage = l.storage; nodes = l.ends }

unfoldable pub cut_free : Cache → ℕ → Cache
cut_free cache index =
    let l = cut (record { storage = cache.list_storage; ends = cache.free_nodes }) index in
    record cache { list_storage = l.storage; free_nodes = l.ends }

unfoldable pub push_node : Cache → ℕ → Cache
push_node cache index =
    let l = set_head (record { storage = cache.list_storage; ends = cache.nodes }) index in
    record cache { list_storage = l.storage; nodes = l.ends }

unfoldable pub push_free : Cache → ℕ → Cache
push_free cache index =
    let l = set_head (record { storage = cache.list_storage; ends = cache.free_nodes }) index in
    record cache { list_storage = l.storage; free_nodes = l.ends }

-- What `hm_cache_add` writes through its pointers: `evicted` is the IP and the value.
pub record Added : Type 0 where
  pub existed : Bool
  pub evicted : Option (ℕ × ℕ)
  pub cache : Cache

-- The end of `hm_cache_add`: the element becomes the newest, under the new IP and value.
unfoldable pub insert_new : ℕ → Cache → ℕ → ℕ → ℕ → Outcome Cache
insert_new fuel cache ip value index =
    let pushed = push_node cache index in
    table_add fuel
      (record pushed { list_storage = set_value (set_ip pushed.list_storage index ip) index value })
      ip index

-- The oldest element is evicted, as the free list is empty.
unfoldable pub add_evicting : ℕ → Cache → ℕ → ℕ → Outcome Added
add_evicting fuel cache ip value =
    let index = cache.nodes.tail_index in
    let old = at cache.list_storage index in
    if index == no_index
    then undefined
    else if old.ip == ip
    then undefined
    else table_delete fuel cache old.ip >>= λ deleted.
        insert_new fuel (cut_node deleted index) ip value index >>= λ c.
        ok (record { existed = false; evicted = some (old.ip, old.value); cache = c })

unfoldable pub add_from_free : ℕ → Cache → ℕ → ℕ → Outcome Added
add_from_free fuel cache ip value =
    let index = cache.free_nodes.head_index in
    insert_new fuel (cut_free cache index) ip value index >>= λ c.
    ok (record { existed = false; evicted = none; cache = c })

-- The IP is in the cache: its value is set, and it becomes the newest.
unfoldable pub refresh : Cache → ℕ → ℕ → Added
refresh cache index value = record {
  existed = true;
  evicted = none;
  cache =
      push_node
        (cut_node (record cache { list_storage = set_value cache.list_storage index value }) index)
        index;
}

unfoldable pub add : ℕ → Cache → ℕ → ℕ → Outcome Added
add fuel cache ip value = table_lookup fuel cache ip >>= λ index.
    if index == no_index
    then (if cache.free_nodes.head_index == no_index
        then add_evicting fuel cache ip value
        else add_from_free fuel cache ip value)
    else ok (refresh cache index value)

-- `none` is `*existed = false`.
unfoldable pub remove : ℕ → Cache → ℕ → Outcome (Option ℕ × Cache)
remove fuel cache ip = table_lookup fuel cache ip >>= λ index.
    if index == no_index
    then ok (none, cache)
    else table_delete fuel (push_free (cut_node cache index) index) ip >>= λ c.
        ok (some (at cache.list_storage index).value, c)

unfoldable pub has : ℕ → Cache → ℕ → Outcome (Option ℕ × Cache)
has fuel cache ip = table_lookup fuel cache ip >>= λ index.
    if index == no_index
    then ok (none, cache)
    else (let moved = push_node (cut_node cache index) index in
        ok (some (at moved.list_storage index).value, moved))
