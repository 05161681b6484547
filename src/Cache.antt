-- ===== src/Cache.antt =====
-- cache.c: a cache of IP addresses with eviction of the oldest.
-- Elements lie in an array, and each is linked into one of two doubly linked lists by its index;
-- a hash table with linear probing maps an IP to the index of its element. The structure's arrays
-- are lists here. A read out of range gives a fixed element or NO_INDEX.
pub mod Init
pub mod Api
pub mod Chain
pub mod Apart
pub mod Cut
pub mod Remove
pub mod Push
pub mod Pairs
pub mod Frame
pub mod Moves
pub mod Calls
pub mod Dump
pub mod Start
pub mod Memory
pub mod Ring
pub mod Probe
pub mod Relink
pub mod Lru
use Prim.Native.Nat.{bit_and, bit_xor}
use hipermap.Common.{
  ℕ, zero, suc, ◌+◌, ◌-◌, ◌*◌, ◌/◌, ◌%◌, ◌^◌, ◌≡◌, Bool, true, false, ◌&&◌, ◌||◌, List, [], ◌∷◌,
  Option, none, some, Outcome, ok, err, undefined, exhausted, ◌>>=◌, ◌>>◌, fail_if, bad_size,
  small_place, ltb, leb, ◌==◌, if◌then◌else◌, length, get_or, set, replicate,
}
use hipermap.Words.{add64, sub64, mul64, align}

-- `NO_INDEX`
abbrev pub no_index : ℕ
no_index = 0xFFFFFFFF

-- `uint32_t` addition and multiplication.
abbrev pub add32 : ℕ → ℕ → ℕ
add32 a b = (a + b) % 2 ^ 32

abbrev pub mul32 : ℕ → ℕ → ℕ
mul32 a b = (a * b) % 2 ^ 32

-- `hm_cache_element_t`
pub record Element : Type 0 where
  pub ip : ℕ
  pub prev_index : ℕ
  pub next_index : ℕ
  pub value : ℕ

abbrev pub no_element : Element
no_element = record { ip = 0; prev_index = no_index; next_index = no_index; value = 0 }

-- `hm_list_t`
pub record Ends : Type 0 where
  pub head_index : ℕ
  pub tail_index : ℕ

-- `hm_cache_t`
pub record Cache : Type 0 where
  pub mask_for_hash : ℕ
  pub capacity : ℕ
  pub list_storage : List Element
  pub nodes : Ends
  pub free_nodes : Ends
  pub hash_table : List ℕ

abbrev pub at : List Element → ℕ → Element
at storage i = get_or storage i no_element

-- `list_storage[i].prev_index = v`, and so for the other fields.
abbrev pub set_prev : List Element → ℕ → ℕ → List Element
set_prev storage i v = set storage i (record (at storage i) { prev_index = v })

abbrev pub set_next : List Element → ℕ → ℕ → List Element
set_next storage i v = set storage i (record (at storage i) { next_index = v })

abbrev pub set_value : List Element → ℕ → ℕ → List Element
set_value storage i v = set storage i (record (at storage i) { value = v })

abbrev pub set_ip : List Element → ℕ → ℕ → List Element
set_ip storage i v = set storage i (record (at storage i) { ip = v })

-- The storage and the list that `cut` and `set_head` update.
pub record Linked : Type 0 where
  pub storage : List Element
  pub ends : Ends

unfoldable pub cut : Linked → ℕ → Linked
cut l index =
    let prev = (at l.storage index).prev_index in
    let next = (at l.storage index).next_index in
    let storage = set_next (set_prev l.storage index no_index) index no_index in
    if prev == no_index
    then (if next == no_index
        then record {
          storage = storage;
          ends = record { head_index = no_index; tail_index = no_index };
        }
        else record {
          storage = set_prev storage next no_index;
          ends = record l.ends { head_index = next };
        })
    else (if next == no_index
        then record {
          storage = set_next storage prev no_index;
          ends = record l.ends { tail_index = prev };
        }
        else record { storage = set_prev (set_next storage prev next) next prev; ends = l.ends })

unfoldable pub set_head : Linked → ℕ → Linked
set_head l index =
    let head = l.ends.head_index in
    if head == no_index
    then record l { ends = record { head_index = index; tail_index = index } }
    else record {
      storage = set_prev (set_next l.storage index head) head index;
      ends = record l.ends { head_index = index };
    }

unfoldable pub hash32 : ℕ → ℕ
hash32 x =
    let a = bit_xor x (x / 2 ^ 16) in
    let b = mul32 a 0x21f0aaad in
    let c = bit_xor b (b / 2 ^ 15) in let d = mul32 c 0xd35a2d97 in bit_xor d (d / 2 ^ 15)

-- The loop of `table_lookup`, from a bucket on. `exhausted` is a loop that has not ended yet.
unfoldable pub lookup_from : ℕ → Cache → ℕ → ℕ → Outcome ℕ
lookup_from zero cache ip bucket = exhausted
lookup_from (suc fuel) cache ip bucket =
    let index = get_or cache.hash_table bucket no_index in
    let rest = lookup_from fuel cache ip (bit_and (add32 bucket 1) cache.mask_for_hash) in
    if index == no_index
    then ok no_index
    else if (at cache.list_storage index).ip == ip
    then ok index
    else rest

unfoldable pub table_lookup : ℕ → Cache → ℕ → Outcome ℕ
table_lookup fuel cache ip = lookup_from fuel cache ip (bit_and (hash32 ip) cache.mask_for_hash)

-- The loop of `table_add`: the first empty bucket.
unfoldable pub add_from : ℕ → Cache → ℕ → ℕ → ℕ → Outcome Cache
add_from zero cache ip index bucket = exhausted
add_from (suc fuel) cache ip index bucket =
    let old_index = get_or cache.hash_table bucket no_index in
    let rest = add_from fuel cache ip index (bit_and (add32 bucket 1) cache.mask_for_hash) in
    if old_index == no_index
    then ok (record cache { hash_table = set cache.hash_table bucket index })
    else if (at cache.list_storage old_index).ip == ip
    then undefined
    else rest

-- A failed `assert` is `undefined`.
unfoldable pub table_add : ℕ → Cache → ℕ → ℕ → Outcome Cache
table_add fuel cache ip index =
    if (at cache.list_storage index).ip == ip
    then add_from fuel cache ip index (bit_and (hash32 ip) cache.mask_for_hash)
    else undefined

-- The first loop of `table_delete`: the bucket that is emptied.
unfoldable pub delete_from : ℕ → Cache → ℕ → ℕ → Outcome ℕ
delete_from zero cache ip i = exhausted
delete_from (suc fuel) cache ip i =
    let old_index = get_or cache.hash_table i no_index in
    let rest = delete_from fuel cache ip (bit_and (add32 i 1) cache.mask_for_hash) in
    if old_index == no_index
    then undefined
    else if (at cache.list_storage old_index).ip == ip
    then ok i
    else rest

-- Whether `k` lies cyclically in (i, j].
unfoldable pub lies_between : ℕ → ℕ → ℕ → Bool
lies_between i j k = if leb i j then ltb i k && leb k j else leb k j || ltb i k

-- The second loop of `table_delete`: `i` is the vacant bucket, `j` the bucket before the next one.
unfoldable pub close_gap : ℕ → Cache → ℕ → ℕ → Outcome Cache
close_gap zero cache i j = exhausted
close_gap (suc fuel) cache i j =
    let j' = bit_and (add32 j 1) cache.mask_for_hash in
    let j_index = get_or cache.hash_table j' no_index in
    let k = bit_and (hash32 (at cache.list_storage j_index).ip) cache.mask_for_hash in
    let stay = close_gap fuel cache i j' in
    let move =
      close_gap fuel
        (record cache { hash_table = set (set cache.hash_table i j_index) j' no_index }) j' j' in
    if j_index == no_index then ok cache else if lies_between i j' k then stay else move

unfoldable pub table_delete : ℕ → Cache → ℕ → Outcome Cache
table_delete fuel cache ip = do
  i ← delete_from fuel cache ip (bit_and (hash32 ip) cache.mask_for_hash)
  close_gap fuel (record cache { hash_table = set cache.hash_table i no_index }) i i
