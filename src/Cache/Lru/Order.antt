-- ===== src/Cache/Lru/Order.antt =====
-- `hm_cache_dump` of cache.c writes the IPs of the abstract list.
use hipermap.Common.{ℕ, ◌^◌, ◌≤◌, ◌≡◌, refl, ap, ◌∙◌, arith, List, [], ◌∷◌, map, ok, All-of_In}
use hipermap.Cache.{Cache, Element, at, table_lookup}
use hipermap.Cache.Dump.{dump}
use hipermap.Cache.Dump.Whole.{dump-whole}
use hipermap.Cache.Probe.Calls.{table_lookup-found}
use hipermap.Cache.Lru.{ips}
use hipermap.Cache.Lru.Entries.{entries}
use hipermap.Cache.Lru.Consistent.{IsConsistent-roomy}
use hipermap.Cache.Lru.Represents.{Represents}

ips-entries : (s : List Element) (xs : List ℕ) → map (λ i. (at s i).ip) xs ≡ ips (entries s xs)
ips-entries s [] = refl
ips-entries s (x ∷ xs) = ap ((at s x).ip ∷◌) (ips-entries s xs)

-- On a consistent cache that holds the entries `l`, with fuel for as many rounds as there are
-- buckets and an array of as many words as the capacity, `hm_cache_dump` fails no assertion and
-- writes the IPs of `l`.
pub dump-Represents :
    (bits room fuel ips_len : ℕ) (c : Cache) (l : List (ℕ × ℕ))
    → Represents bits room c l
    → 2 ^ bits ≤ fuel
    → room ≤ ips_len
    → dump fuel c ips_len ≡ ok (ips l)
dump-Represents bits room fuel ips_len c l r enough fits =
    let xs = r.used in
    let h = r.consistent in
    let found =
      All-of_In (λ x. table_lookup fuel c (at c.list_storage x).ip ≡ ok x) xs
        (λ x member.
          table_lookup-found bits fuel c xs h.small h.masked (IsConsistent-roomy bits c xs r.free h)
            enough h.table x member) in
    dump-whole fuel c ips_len xs r.free h.whole found (omega (arith, r.capacity))
      (omega (arith, h.roomy))
    ∙ ap ok (ips-entries c.list_storage xs ∙ ap ips r.contents)
