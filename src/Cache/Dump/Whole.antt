-- ===== src/Cache/Dump/Whole.antt =====
-- On a well linked cache with a table that finds its elements `hm_cache_dump` fails no assertion.
use hipermap.Common.{
  ℕ, zero, suc, ◌+◌, ◌-◌, ◌≤◌, ◌<◌, ◌≡◌, ◌≢◌, ◌⊎◌, inl, inr, refl, ap, ◌∙◌, arith, true, false, not,
  ◌||◌, List, [], ◌∷◌, map, All, ok, leb, ◌==◌, length, In, In-All,
}
use hipermap.Cache.{Element, Ends, Cache, no_index, at, table_lookup}
use hipermap.Cache.Dump.{
  consistent, link_holds, check_links, count_next, count_prev, check_table, dump_from, dump,
}
use hipermap.Cache.Chain.{first_or, last_or, Chain, IsList}
use hipermap.Cache.Apart.{present}
use hipermap.Cache.Moves.{IsCache}

-- An index of the storage, which is not NO_INDEX.
abbrev IsPresent : ℕ → ℕ → Type 0
IsPresent n x = (x < n) × (x ≢ no_index)

module _ (s : List Element) where
  Chain-count_next :
      (fuel p : ℕ) (xs : List ℕ)
      → Chain s p xs no_index
      → All (IsPresent (length s)) xs
      → length xs < fuel
      → count_next fuel s (first_or xs no_index) ≡ ok (length xs)
  unfolding count_next
  Chain-count_next zero p xs chain there enough = absurd (omega arith)
  Chain-count_next (suc fuel) p [] chain there enough = refl
  Chain-count_next (suc fuel) p (x ∷ xs) (prev, next, chain) there enough =
      let some : (x == no_index) ≡ false = ground (arith, there.0.1) in
      rw (some, next, Chain-count_next fuel x xs chain there.1 (omega arith)) (ap ok (omega arith))

  Chain-dump_from :
      (fuel p : ℕ) (xs : List ℕ)
      → Chain s p xs no_index
      → All (IsPresent (length s)) xs
      → length xs < fuel
      → dump_from fuel s (first_or xs no_index) ≡ ok (map (λ i. (at s i).ip) xs)
  unfolding dump_from
  Chain-dump_from zero p xs chain there enough = absurd (omega arith)
  Chain-dump_from (suc fuel) p [] chain there enough = refl
  Chain-dump_from (suc fuel) p (x ∷ xs) (prev, next, chain) there enough =
      let some : (x == no_index) ≡ false = ground (arith, there.0.1) in
      rw (some, next, Chain-dump_from fuel x xs chain there.1 (omega arith)) refl

  Chain-count_prev :
      (fuel k p n : ℕ) (xs : List ℕ)
      → Chain s p xs n
      → All (IsPresent (length s)) xs
      → count_prev fuel s p ≡ ok k
      → count_prev (length xs + fuel) s (last_or xs p) ≡ ok (length xs + k)
  unfolding count_prev
  Chain-count_prev fuel k p n [] chain there before =
      let fuel_left : 0 + fuel ≡ fuel = omega arith in
      let size : 0 + k ≡ k = omega arith in rw (fuel_left, size) before
  Chain-count_prev fuel k p n (x ∷ xs) (prev, next, chain) there before =
      let some : (x == no_index) ≡ false = ground (arith, there.0.1) in
      let step : count_prev (suc fuel) s x ≡ ok (k + 1) = rw (some, prev, before) refl in
      let fuel_left : suc (length xs) + fuel ≡ length xs + suc fuel = omega arith in
      let size : suc (length xs) + k ≡ length xs + (k + 1) = omega arith in
      rw (fuel_left, size) (Chain-count_prev (suc fuel) (k + 1) x n xs chain there.1 step)

  neighbours-link_holds :
      (p x q : ℕ)
      → (at s x).prev_index ≡ p
      → (at s x).next_index ≡ q
      → (p ≡ no_index) ⊎ ((at s p).next_index ≡ x)
      → (q ≡ no_index) ⊎ ((at s q).prev_index ≡ x)
      → link_holds s x ≡ true
  unfolding link_holds
  neighbours-link_holds p x q prev next before after = rw (prev, next) (ground arith)

  -- The links of a list hold at each of its elements.
  Chain-link_holds :
      (p : ℕ) (xs : List ℕ)
      → Chain s p xs no_index
      → All (IsPresent (length s)) xs
      → (p ≡ no_index) ⊎ ((at s p).next_index ≡ first_or xs no_index)
      → All (λ i. link_holds s i ≡ true) xs
  Chain-link_holds p [] chain there back = tt
  Chain-link_holds p (x ∷ []) (prev, next, chain) there back =
      (neighbours-link_holds p x no_index prev next back (inl refl), tt)
  Chain-link_holds p (x ∷ y ∷ xs) (prev, next, chain) there back = (
    neighbours-link_holds p x y prev next back (inr chain.0),
    Chain-link_holds x (y ∷ xs) chain there.1 (inr next),
  )

all_links :
    (left i : ℕ) (s : List Element)
    → ((j : ℕ) → i ≤ j → j < i + left → link_holds s j ≡ true)
    → check_links left i s ≡ ok tt
unfolding check_links
all_links zero i s holds = refl
all_links (suc left) i s holds =
    rw (holds i (omega arith) (omega arith))
      (all_links left (i + 1) s (λ j from to. holds j (omega arith) (omega arith)))

Chain-check_table :
    (left fuel p : ℕ) (c : Cache) (xs : List ℕ)
    → Chain c.list_storage p xs no_index
    → All (IsPresent (length c.list_storage)) xs
    → All (λ x. table_lookup fuel c (at c.list_storage x).ip ≡ ok x) xs
    → length xs < left
    → check_table left fuel c (first_or xs no_index) ≡ ok tt
unfolding check_table
Chain-check_table zero fuel p c xs chain there found enough = absurd (omega arith)
Chain-check_table (suc left) fuel p c [] chain there found enough = refl
Chain-check_table (suc left) fuel p c (x ∷ xs) (prev, next, chain) there found enough =
    let some : (x == no_index) ≡ false = ground (arith, there.0.1) in
    let same : (x == x) ≡ true = ground arith in
    rw (some, found.0, same, next)
      (Chain-check_table left fuel x c xs chain there.1 found.1 (omega arith))

last-present :
    (n x : ℕ) (xs : List ℕ) → x ≢ no_index → All (IsPresent n) xs → last_or xs x ≢ no_index
last-present n x [] some there = some
last-present n x (y ∷ xs) some there = last-present n y xs there.0.1 there.1

list-consistent :
    (s : List Element) (e : Ends) (xs : List ℕ)
    → IsList (record { storage = s; ends = e }) xs
    → consistent e ≡ true
unfolding consistent
list-consistent s e [] list = rw (list.head, list.tail) refl
list-consistent s e (x ∷ xs) list =
    let there = present (length s) (x ∷ xs) list.indices in
    let head : (x == no_index) ≡ false = ground (arith, there.0.1) in
    let tail : (last_or xs x == no_index) ≡ false =
      ground (arith, last-present (length s) x xs there.0.1 there.1) in
    rw (list.head, list.tail, head, tail) refl

stop-count_prev : (fuel : ℕ) (s : List Element) → 0 < fuel → count_prev fuel s no_index ≡ ok 0
unfolding count_prev
stop-count_prev zero s some = absurd (omega arith)
stop-count_prev (suc fuel) s some = refl

list-count_prev :
    (fuel : ℕ) (s : List Element) (e : Ends) (xs : List ℕ)
    → IsList (record { storage = s; ends = e }) xs
    → length xs < fuel
    → count_prev fuel s e.tail_index ≡ ok (length xs)
list-count_prev fuel s e xs list enough =
    let whole : length xs + (fuel - length xs) ≡ fuel = omega arith in
    let size : length xs + 0 ≡ length xs = omega arith in
    rw list.tail (
      rw (whole, size) at
        (Chain-count_prev s (fuel - length xs) 0 no_index no_index xs list.chain
          (present (length s) xs list.indices)
          (stop-count_prev (fuel - length xs) s (omega arith))))

-- The elements of the two lists are all there are.
pub record IsWhole (c : Cache) (xs fs : List ℕ) : Type 0 where
  pub lists : IsCache c xs fs
  pub covered : (i : ℕ) → i < c.capacity → In i xs ⊎ In i fs
  pub size : length xs + length fs ≡ c.capacity
  pub some : 0 < c.capacity

whole-links :
    (c : Cache) (xs fs : List ℕ) (i : ℕ)
    → IsWhole c xs fs
    → i < c.capacity
    → link_holds c.list_storage i ≡ true
whole-links c xs fs i w inside =
    let s = c.list_storage in
    let one = w.lists.one in
    let other = w.lists.other in
    elim (w.covered i inside) [
      | inl used ↦
          In-All (λ i. link_holds s i ≡ true) i xs used
            (Chain-link_holds s no_index xs one.chain (present (length s) xs one.indices)
              (inl refl))
      | inr free ↦
          In-All (λ i. link_holds s i ≡ true) i fs free
            (Chain-link_holds s no_index fs other.chain (present (length s) fs other.indices)
              (inl refl))
    ]

heads-differ :
    (c : Cache) (xs fs : List ℕ)
    → IsWhole c xs fs
    → (not (c.nodes.head_index == no_index) || not (c.free_nodes.head_index == no_index)) ≡ true
heads-differ c [] [] w = absurd (omega (arith, w.size, w.some))
heads-differ c (x ∷ xs) fs w =
    let there = present (length c.list_storage) (x ∷ xs) w.lists.one.indices in
    ground (arith, there.0.1, w.lists.one.head)
heads-differ c [] (f ∷ fs) w =
    let there = present (length c.list_storage) (f ∷ fs) w.lists.other.indices in
    ground (arith, there.0.1, w.lists.other.head)

-- For a cache whose two lists are well linked and hold all its elements, of which there is one at
-- least, and whose table finds each element of the list by its IP, with an array of as many words
-- as the capacity and more fuel than that, `hm_cache_dump` fails no assertion and writes the IPs
-- in the order of the list.
pub dump-whole :
    (fuel : ℕ) (c : Cache) (ips_len : ℕ) (xs fs : List ℕ)
    → IsWhole c xs fs
    → All (λ x. table_lookup fuel c (at c.list_storage x).ip ≡ ok x) xs
    → c.capacity ≤ ips_len
    → c.capacity < fuel
    → dump fuel c ips_len ≡ ok (map (λ i. (at c.list_storage i).ip) xs)
unfolding dump
dump-whole fuel c ips_len xs fs w found roomy enough =
    let s = c.list_storage in
    let (used, free) : IsList (record { storage = s; ends = c.nodes }) xs
        × IsList (record { storage = s; ends = c.free_nodes }) fs =
      (w.lists.one, w.lists.other) in
    let there = present (length s) xs used.indices in
    let there_free = present (length s) fs free.indices in
    let few : length xs < fuel = omega (arith, w.size) in
    let few_free : length fs < fuel = omega (arith, w.size) in
    let room : leb c.capacity ips_len ≡ true = ground arith in
    let room_used : leb (length xs) ips_len ≡ true = ground (arith, w.size) in
    let same : (length xs == length xs) ≡ true = ground arith in
    let same_free : (length fs == length fs) ≡ true = ground arith in
    let total : (length xs + length fs == c.capacity) ≡ true = ground (arith, w.size) in
    let links = all_links c.capacity 0 s (λ j _ inside. whole-links c xs fs j w (omega arith)) in
    let counted : count_next fuel s c.nodes.head_index ≡ ok (length xs) =
      ap (count_next fuel s) used.head ∙ Chain-count_next s fuel no_index xs used.chain there few in
    let counted_free : count_next fuel s c.free_nodes.head_index ≡ ok (length fs) =
      ap (count_next fuel s) free.head
      ∙ Chain-count_next s fuel no_index fs free.chain there_free few_free in
    let looked_up : check_table fuel fuel c c.nodes.head_index ≡ ok tt =
      ap (check_table fuel fuel c) used.head
      ∙ Chain-check_table fuel fuel no_index c xs used.chain there found few in
    let back = list-count_prev fuel s c.nodes xs used few in
    let back_free = list-count_prev fuel s c.free_nodes fs free few_free in
    rw
      (
        room,
        list-consistent s c.nodes xs used,
        list-consistent s c.free_nodes fs free,
        heads-differ c xs fs w,
        links,
        counted,
        counted_free,
        back,
        back_free,
        same,
        same_free,
        total,
        looked_up,
        room_used,
      )
      (ap (dump_from fuel s) used.head ∙ Chain-dump_from s fuel no_index xs used.chain there few)
