-- ===== src/Cache/Lru/Steps.antt =====
-- The branches of `hm_cache_add`, `hm_cache_remove` and `hm_cache_has` of cache.c, given what
-- their steps return.
use hipermap.Common.{ℕ, ◌≡◌, refl, ap, true, false, none, some, ok, ◌==◌}
use hipermap.Cache.{Cache, at, no_index, table_lookup, table_delete}
use hipermap.Cache.Api.{Added, add_evicting, add_from_free, refresh, add, remove, has}
use hipermap.Cache.Lru.Consistent.{renewed, freed}

module _ (fuel : ℕ) (c : Cache) (ip : ℕ) where
  pub missing-has : table_lookup fuel c ip ≡ ok no_index → has fuel c ip ≡ ok (none, c)
  unfolding has
  missing-has lookup = rw lookup refl

  pub found-has :
      (x v : ℕ)
      → table_lookup fuel c ip ≡ ok x
      → (x == no_index) ≡ false
      → (at (renewed c x).list_storage x).value ≡ v
      → has fuel c ip ≡ ok (some v, renewed c x)
  unfolding has
  found-has x v lookup there value =
      rw (lookup, there) (ap (λ (u : ℕ). ok (some u, renewed c x)) value)

  pub missing-remove : table_lookup fuel c ip ≡ ok no_index → remove fuel c ip ≡ ok (none, c)
  unfolding remove
  missing-remove lookup = rw lookup refl

  pub found-remove :
      (x : ℕ) (d : Cache)
      → table_lookup fuel c ip ≡ ok x
      → (x == no_index) ≡ false
      → table_delete fuel (freed c x) ip ≡ ok d
      → remove fuel c ip ≡ ok (some (at c.list_storage x).value, d)
  unfolding remove
  found-remove x d lookup there deleted = rw (lookup, there, deleted) refl

  pub full-add :
      (value : ℕ) (r : Added)
      → table_lookup fuel c ip ≡ ok no_index
      → (c.free_nodes.head_index == no_index) ≡ true
      → add_evicting fuel c ip value ≡ ok r
      → add fuel c ip value ≡ ok r
  unfolding add
  full-add value r lookup full evicting = rw (lookup, full) evicting

  pub free-add :
      (value : ℕ) (r : Added)
      → table_lookup fuel c ip ≡ ok no_index
      → (c.free_nodes.head_index == no_index) ≡ false
      → add_from_free fuel c ip value ≡ ok r
      → add fuel c ip value ≡ ok r
  unfolding add
  free-add value r lookup room taken = rw (lookup, room) taken

  pub found-add :
      (value x : ℕ)
      → table_lookup fuel c ip ≡ ok x
      → (x == no_index) ≡ false
      → add fuel c ip value ≡ ok (refresh c x value)
  unfolding add
  found-add value x lookup there = rw (lookup, there) refl
