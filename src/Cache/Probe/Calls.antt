-- ===== src/Cache/Probe/Calls.antt =====
-- `table_lookup`, `table_add` and `table_delete` of cache.c on a table with an empty bucket.
use hipermap.Common.{
  ℕ, ◌-◌, ◌^◌, ◌≤◌, ◌<◌, ◌≡◌, ◌≢◌, sym, ap, ◌∙◌, arith, true, List, ◌∷◌, length, set, In, ◌==◌, ok,
}
use hipermap.Cache.{Cache, no_index, table_lookup, table_add, table_delete}
use hipermap.Cache.Ring.{dist, dist-lt}
use hipermap.Cache.Probe.{IsTable}
use hipermap.Cache.Probe.Stop.{IsStop-found, IsStop-missing}
use hipermap.Cache.Probe.Loops.{
  key_of, home_of, home_of-lt, lookup_from-stop, add_from-stop, delete_from-stop,
}
use hipermap.Cache.Probe.Insert.{insert-IsTable}
use hipermap.Cache.Probe.Delete.{IsLess, clear-IsGapped, close_gap-IsTable}

-- The hash table of the cache, with `2 ^ bits` buckets, holds the elements `xs`.
abbrev pub IsHashed : ℕ → Cache → List ℕ → List ℕ → Type 0
IsHashed bits c t xs = IsTable (2 ^ bits) (key_of c.list_storage) (home_of c.mask_for_hash) t xs

module _ (bits fuel : ℕ) (c : Cache) (xs : List ℕ) (small : bits ≤ 32)
    (masked : c.mask_for_hash ≡ 2 ^ bits - 1) (roomy : length xs < 2 ^ bits)
    (enough : 2 ^ bits ≤ fuel) (table : IsHashed bits c c.hash_table xs) where
  -- The way of a probe is shorter than the table.
  short : (a e : ℕ) → a < 2 ^ bits → e < 2 ^ bits → dist (2 ^ bits) a e < fuel
  short a e la le = omega (arith, dist-lt (2 ^ bits) a e la le)

  pub table_lookup-found : (x : ℕ) → In x xs → table_lookup fuel c (key_of c.list_storage x) ≡ ok x
  unfolding table_lookup
  table_lookup-found x member =
      let ip = key_of c.list_storage x in
      let home = home_of-lt bits c.mask_for_hash ip masked in
      let (e, at_e, s) =
        IsStop-found (2 ^ bits) (key_of c.list_storage) (home_of c.mask_for_hash) c.hash_table xs
          roomy x table home member in
      lookup_from-stop bits c small masked ip fuel (home_of c.mask_for_hash ip) e home s
        (short (home_of c.mask_for_hash ip) e home s.inside)
      ∙ ap ok at_e

  pub table_lookup-missing :
      (ip : ℕ)
      → ((x : ℕ) → In x xs → key_of c.list_storage x ≢ ip)
      → table_lookup fuel c ip ≡ ok no_index
  unfolding table_lookup
  table_lookup-missing ip other =
      let home = home_of-lt bits c.mask_for_hash ip masked in
      let (e, at_e, s) =
        IsStop-missing (2 ^ bits) (key_of c.list_storage) (home_of c.mask_for_hash) c.hash_table xs
          roomy ip (home_of c.mask_for_hash ip) table.filled_by home other in
      lookup_from-stop bits c small masked ip fuel (home_of c.mask_for_hash ip) e home s
        (short (home_of c.mask_for_hash ip) e home s.inside)
      ∙ ap ok at_e

  pub table_add-IsHashed :
      (x : ℕ)
      → x ≢ no_index
      → ((y : ℕ) → In y xs → key_of c.list_storage y ≢ key_of c.list_storage x)
      → (t : List ℕ) × (table_add fuel c (key_of c.list_storage x) x
          ≡ ok (record c { hash_table = t }))
        × IsHashed bits c t (x ∷ xs)
  unfolding table_add
  table_add-IsHashed x some other =
      let ip = key_of c.list_storage x in
      let home = home_of-lt bits c.mask_for_hash ip masked in
      let (e, empty, s) =
        IsStop-missing (2 ^ bits) (key_of c.list_storage) (home_of c.mask_for_hash) c.hash_table xs
          roomy ip (home_of c.mask_for_hash ip) table.filled_by home other in
      let same : (ip == ip) ≡ true = ground arith in
      (
        set c.hash_table e x,
        rw same (
            add_from-stop bits c small masked ip x fuel (home_of c.mask_for_hash ip) e home s empty
              (short (home_of c.mask_for_hash ip) e home s.inside)),
        insert-IsTable (2 ^ bits) (key_of c.list_storage) (home_of c.mask_for_hash) c.hash_table xs
            x e some empty table s other,
      )

  -- On a hash table with 2 ^ bits buckets, one of them empty, that holds the elements `xs`, each
  -- between the bucket its IP hashes to and the first empty one after it: with fuel for as many
  -- rounds as buckets, `table_delete` of the IP of one of them returns, and leaves such a table
  -- that holds the others.
  pub table_delete-IsHashed :
      (x : ℕ) (ws : List ℕ)
      → In x xs
      → x ≢ no_index
      → IsLess xs x ws
      → (t : List ℕ) × (table_delete fuel c (key_of c.list_storage x)
          ≡ ok (record c { hash_table = t }))
        × IsHashed bits c t ws
  unfolding table_delete
  table_delete-IsHashed x ws member some less =
      let ip = key_of c.list_storage x in
      let home = home_of-lt bits c.mask_for_hash ip masked in
      let (i, at_i, s) =
        IsStop-found (2 ^ bits) (key_of c.list_storage) (home_of c.mask_for_hash) c.hash_table xs
          roomy x table home member in
      let found =
        delete_from-stop bits c small masked ip fuel (home_of c.mask_for_hash ip) i home s
          (λ none. some (sym at_i ∙ none)) (short (home_of c.mask_for_hash ip) i home s.inside) in
      let (e, g) =
        clear-IsGapped (2 ^ bits) (key_of c.list_storage) (home_of c.mask_for_hash) c.hash_table xs
          ws x i s.inside at_i some less table roomy in
      let (_, _, le) = g.inside in
      let way = short i e s.inside le in
      let (t, closed, after) =
        close_gap-IsTable bits small ws fuel (record c { hash_table = set c.hash_table i no_index })
          i i e masked g (omega arith) in
      (t, rw found closed, after)
