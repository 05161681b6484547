-- ===== src/Cache/Lru/Refine.antt =====
-- `hm_cache_add`, `hm_cache_remove` and `hm_cache_has` of cache.c do on the cache what the
-- abstract list does.
use hipermap.Common.{ℕ, ◌^◌, ◌≤◌, ◌≡◌, inl, inr, subst, List, ◌∷◌, ◌++◌, ok}
use hipermap.Cache.{Cache}
use hipermap.Cache.Api.{add, remove, has}
use hipermap.Cache.Apart.{present}
use hipermap.Cache.Lru.{find, erase, touch, is_found, displaced, insert}
use hipermap.Cache.Lru.Entries.{entries, IsAbsent, IsAt, place}
use hipermap.Cache.Lru.Consistent.{IsConsistent}
use hipermap.Cache.Lru.Represents.{Represents, HasAs, RemovesAs, AddsAs}
use hipermap.Cache.Lru.Absent.{absent_has, absent_remove, absent_add}
use hipermap.Cache.Lru.Present.{present_has, present_remove, present_add}

module _ (bits room fuel : ℕ) (c : Cache) (l : List (ℕ × ℕ)) (ip : ℕ) (r : Represents bits room c l)
    (enough : 2 ^ bits ≤ fuel) where
  -- The case of an IP that is there, and of one that is not.
  by_place :
      (Q : List (ℕ × ℕ) → Type 0)
      → (IsAbsent ip c.list_storage r.used → Q (entries c.list_storage r.used))
      → ((ys : List ℕ) (x : ℕ) (zs : List ℕ)
          → IsAt ip c.list_storage r.used ys x zs
          → Q (entries c.list_storage r.used))
      → Q l
  by_place Q absent present = subst Q r.contents (elim (place ip c.list_storage r.used) [
    | inl a ↦ absent a
    | inr (ys, x, zs, p) ↦ present ys x zs p
  ])

  parted :
      (ys : List ℕ) (x : ℕ) (zs : List ℕ)
      → IsAt ip c.list_storage r.used ys x zs
      → IsConsistent bits c (ys ++ (x ∷ zs)) r.free
  parted ys x zs p = subst (λ (ws : List ℕ). IsConsistent bits c ws r.free) p.parts r.consistent

  -- On a consistent cache that holds the entries `l`, with fuel for as many rounds as there are
  -- buckets, `hm_cache_has` returns the value of the IP in `l`, if there is one, and leaves a
  -- consistent cache that holds `l` with the entry of the IP first.
  pub has-Represents :
      (d : Cache) × (has fuel c ip ≡ ok (find ip l, d)) × Represents bits room d (touch ip l)
  has-Represents =
      by_place (HasAs bits room fuel c ip)
        (λ a. absent_has bits room fuel c ip enough r.capacity r.used r.free r.consistent a)
        (λ ys x zs p.
          present_has bits room fuel c r.free ip enough r.capacity ys x zs (parted ys x zs p) p.here
            (entries c.list_storage r.used) p.found p.erased)

  -- On a consistent cache that holds the entries `l`, with fuel for as many rounds as there are
  -- buckets, `hm_cache_remove` returns the value of the IP in `l`, if there is one, and leaves a
  -- consistent cache that holds `l` without the IP.
  pub remove-Represents :
      (d : Cache) × (remove fuel c ip ≡ ok (find ip l, d)) × Represents bits room d (erase ip l)
  remove-Represents =
      by_place (RemovesAs bits room fuel c ip)
        (λ a. absent_remove bits room fuel c ip enough r.capacity r.used r.free r.consistent a)
        (λ ys x zs p.
          present_remove bits room fuel c r.free ip enough r.capacity ys x zs (parted ys x zs p)
            p.here (entries c.list_storage r.used) p.found p.erased)

  -- On a consistent cache that holds the entries `l`, with fuel for as many rounds as there are
  -- buckets, `hm_cache_add` returns whether `l` has the IP and the oldest entry where the list was
  -- full without it, and leaves a consistent cache that holds `l` with the new entry first, in
  -- place of the entry of the IP or of that oldest one.
  pub add-Represents :
      (value : ℕ)
      → (d : Cache) × (add fuel c ip value
          ≡ ok
              (record { existed = is_found (find ip l); evicted = displaced room ip l; cache = d }))
        × Represents bits room d (insert room ip value l)
  add-Represents value =
      by_place (AddsAs bits room fuel c ip value)
        (λ a. absent_add bits room fuel c ip enough r.capacity r.used r.free value r.consistent a)
        (λ ys x zs p.
          present_add bits room fuel c r.free ip enough r.capacity ys x zs (parted ys x zs p) p.here
            (entries c.list_storage r.used) p.found p.erased value)
