-- ===== src/Cache/Lru/Insert.antt =====
-- `hm_cache_add` of an IP that is not in the cache: `insert_new` of cache.c, from a free element
-- and from the oldest one.
use hipermap.Common.{
  ℕ, ◌-◌, ◌^◌, ◌≤◌, ◌<◌, ◌≡◌, ◌≢◌, refl, sym, ap, ◌∙◌, subst, arith, List, ◌∷◌, length, length-set,
  get_or-set_self, get_or-set_ne, In, In-All, ok,
}
use hipermap.Cache.{Cache, Element, at, no_element, set_value, set_ip, table_add}
use hipermap.Cache.Api.{push_node, insert_new}
use hipermap.Cache.Chain.{keep}
use hipermap.Cache.Moves.{IsOut}
use hipermap.Cache.Push.{length-set_head}
use hipermap.Cache.Relink.{push_node-IsMoved}
use hipermap.Cache.Probe.Calls.{IsHashed, table_add-IsHashed}
use hipermap.Cache.Probe.Rekey.{IsSame-refl, rekey-IsHashed}
use hipermap.Cache.Lru.Entries.{entry, entries, entries_cong}

-- The element `x` before the others, with the IP and the value.
abbrev pub written : Cache → ℕ → ℕ → ℕ → Cache
written c ip value x =
    let p = push_node c x in
    record p { list_storage = set_value (set_ip p.list_storage x ip) x value }

push_node-length : (c : Cache) (x : ℕ) → length (push_node c x).list_storage ≡ length c.list_storage
unfolding push_node
push_node-length c x = length-set_head (record { storage = c.list_storage; ends = c.nodes }) x

written-entry :
    (c : Cache) (ip value x : ℕ)
    → x < length c.list_storage
    → entry (written c ip value x).list_storage x ≡ (ip, value)
written-entry c ip value x inside =
    let s = (push_node c x).list_storage in
    let t = set_ip s x ip in
    let in_s : x < length s = omega (arith, push_node-length c x) in
    let in_t : x < length t = omega (arith, length-set s x (record (at s x) { ip = ip })) in
    let the_ip : (at (set_value t x value) x).ip ≡ ip =
      keep (λ e. e.ip) t x (record (at t x) { value = value }) refl x
      ∙ ap (λ (e : Element). e.ip)
          (get_or-set_self s x (record (at s x) { ip = ip }) no_element in_s) in
    let the_value : (at (set_value t x value) x).value ≡ value =
      ap (λ (e : Element). e.value)
        (get_or-set_self t x (record (at t x) { value = value }) no_element in_t) in
    rw (the_ip, the_value) refl

written-entry_ne :
    (c : Cache) (ip value x y : ℕ)
    → x ≢ y
    → entry (written c ip value x).list_storage y ≡ entry c.list_storage y
written-entry_ne c ip value x y ne =
    let s = (push_node c x).list_storage in
    let t = set_ip s x ip in
    let (same_ip, same_value) = (push_node-IsMoved c x).words y in
    ap (λ (e : Element). (e.ip, e.value))
      (get_or-set_ne t x y (record (at t x) { value = value }) no_element ne
        ∙ get_or-set_ne s x y (record (at s x) { ip = ip }) no_element ne)
    ∙ rw (same_ip, same_value) refl

-- The cache after an addition: `x` is the newest, in a table that has it.
pub record IsInserted (bits : ℕ) (c : Cache) (ip value x : ℕ) (xs : List ℕ) (d : Cache)
    : Type 0 where
  pub mask : d.mask_for_hash ≡ c.mask_for_hash
  pub capacity : d.capacity ≡ c.capacity
  pub table : IsHashed bits d d.hash_table (x ∷ xs)
  pub contents : entries d.list_storage (x ∷ xs) ≡ (ip, value) ∷ entries c.list_storage xs

module _ (bits fuel : ℕ) (c : Cache) (xs fs : List ℕ) (x ip value : ℕ) (small : bits ≤ 32)
    (masked : c.mask_for_hash ≡ 2 ^ bits - 1) (roomy : length xs < 2 ^ bits)
    (enough : 2 ^ bits ≤ fuel) (table : IsHashed bits c c.hash_table xs) (out : IsOut c x xs fs)
    (other : (y : ℕ) → In y xs → (at c.list_storage y).ip ≢ ip) where
  apart : (y : ℕ) → In y xs → x ≢ y
  apart y member e = In-All (λ y. y ≢ x) y xs member out.free.other (sym e)

  pub insert_new-IsInserted :
      (d : Cache) × (insert_new fuel c ip value x ≡ ok d) × IsInserted bits c ip value x xs d
  unfolding insert_new
  insert_new-IsInserted =
      let w = written c ip value x in
      let m = push_node-IsMoved c x in
      let here = written-entry c ip value x out.free.inside in
      let off : (y : ℕ) → In y xs → entry w.list_storage y ≡ entry c.list_storage y =
        λ y member. written-entry_ne c ip value x y (apart y member) in
      let the_ip : (at w.list_storage x).ip ≡ ip = ap (λ (e : ℕ × ℕ). e.0) here in
      let same_ip : (y : ℕ) → In y xs → (at w.list_storage y).ip ≡ (at c.list_storage y).ip =
        λ y member. ap (λ (e : ℕ × ℕ). e.0) (off y member) in
      let hashed : IsHashed bits w w.hash_table xs =
        rekey-IsHashed bits c w xs xs same_ip m.mask m.table (IsSame-refl xs) table in
      let (t, added, after) =
        table_add-IsHashed bits fuel w xs small (m.mask ∙ masked) roomy enough hashed x
          out.free.present (λ y member e. other y member (sym (same_ip y member) ∙ e ∙ the_ip)) in
      let d : Cache = record w { hash_table = t } in
      (
        d,
        subst (λ (k : ℕ). table_add fuel w k x ≡ ok d) the_ip added,
        record {
          mask = m.mask;
          capacity = m.capacity;
          table = after;
          contents = rw (here, entries_cong c.list_storage w.list_storage xs off) refl;
        },
      )
