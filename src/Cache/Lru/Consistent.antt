-- ===== src/Cache/Lru/Consistent.antt =====
-- A consistent cache of cache.c: two well linked lists of all the elements, and a table that finds
-- the used ones by their IPs.
use hipermap.Common.{
  ℕ, ◌+◌, ◌-◌, ◌^◌, ◌≤◌, ◌<◌, ◌≡◌, ◌≢◌, ◌⊎◌, inl, inr, refl, sym, ap, ◌∙◌, subst, arith, List, ◌∷◌,
  ◌++◌, length, length-append, All, In, In-All, In-front, In-middle, ok,
}
use hipermap.Cache.{Cache, at, set_value, table_delete}
use hipermap.Cache.Api.{cut_node, push_node, push_free}
use hipermap.Cache.Chain.{keep}
use hipermap.Cache.Moves.{
  IsCache, cut_node-IsOut, push_node-IsCache, push_free-IsCache, set_value-ArePair,
}
use hipermap.Cache.Relink.{
  IsMoved, moved_trans, cut_node-IsMoved, push_node-IsMoved, push_free-IsMoved,
}
use hipermap.Cache.Dump.Whole.{IsWhole}
use hipermap.Cache.Probe.Delete.{IsLess}
use hipermap.Cache.Probe.Calls.{IsHashed, table_delete-IsHashed}
use hipermap.Cache.Probe.Rekey.{IsSame, IsSame-refl, rekey-IsHashed}

pub record IsConsistent (bits : ℕ) (c : Cache) (xs fs : List ℕ) : Type 0 where
  pub whole : IsWhole c xs fs
  pub small : bits ≤ 32
  pub masked : c.mask_for_hash ≡ 2 ^ bits - 1
  pub roomy : c.capacity < 2 ^ bits
  pub table : IsHashed bits c c.hash_table xs

pub IsConsistent-roomy :
    (bits : ℕ) (c : Cache) (xs fs : List ℕ) → IsConsistent bits c xs fs → length xs < 2 ^ bits
IsConsistent-roomy bits c xs fs h = omega (arith, h.whole.size, h.roomy)

-- The same elements, in other lists.
pub record AreShared (xs fs ws gs : List ℕ) : Type 0 where
  pub to : (i : ℕ) → In i xs ⊎ In i fs → In i ws ⊎ In i gs
  pub count : length ws + length gs ≡ length xs + length fs

pub shared-IsConsistent :
    (bits : ℕ) (c d : Cache) (xs fs ws gs : List ℕ)
    → IsConsistent bits c xs fs
    → AreShared xs fs ws gs
    → d.mask_for_hash ≡ c.mask_for_hash
    → d.capacity ≡ c.capacity
    → IsCache d ws gs
    → IsHashed bits d d.hash_table ws
    → IsConsistent bits d ws gs
shared-IsConsistent bits c d xs fs ws gs h shared mask capacity lists table = record {
  whole = record {
    lists = lists;
    covered = λ i inside. shared.to i (h.whole.covered i (omega arith));
    size = shared.count ∙ h.whole.size ∙ sym capacity;
    some = omega (arith, h.whole.some);
  };
  small = h.small;
  masked = mask ∙ h.masked;
  roomy = omega (arith, h.roomy);
  table = table;
}

-- An element moved to the front.
pub front-IsSame : (ys : List ℕ) (x : ℕ) (zs : List ℕ) → IsSame (ys ++ (x ∷ zs)) (x ∷ (ys ++ zs))
front-IsSame ys x zs = record {
  to = λ y i. In-front y x ys zs i;
  from = λ y i. In-middle y x ys zs i;
  count = omega (arith, length-append ys zs, length-append ys (x ∷ zs));
}

-- An element taken out.
pub rest-IsLess :
    (ys : List ℕ) (x : ℕ) (zs : List ℕ)
    → All (λ y. y ≢ x) (ys ++ zs)
    → IsLess (ys ++ (x ∷ zs)) x (ys ++ zs)
rest-IsLess ys x zs other = record {
  kept = λ y i. (In-middle y x ys zs (inr i), In-All (λ y. y ≢ x) y (ys ++ zs) i other);
  rest = λ y i ne. elim (In-front y x ys zs i) [ inl e ↦ absurd (ne e) | inr j ↦ j ];
  count = omega (arith, length-append ys zs, length-append ys (x ∷ zs));
}

pub In-here : (ys : List ℕ) (x : ℕ) (zs : List ℕ) → In x (ys ++ (x ∷ zs))
In-here ys x zs = In-middle x x ys zs (inl refl)

-- A write of a value keeps the cache consistent.
pub set_value-IsConsistent :
    (bits : ℕ) (c : Cache) (xs fs : List ℕ) (i v : ℕ)
    → IsConsistent bits c xs fs
    → IsConsistent bits (record c { list_storage = set_value c.list_storage i v }) xs fs
set_value-IsConsistent bits c xs fs i v h =
    let s = c.list_storage in
    let d : Cache = record c { list_storage = set_value s i v } in
    shared-IsConsistent bits c d xs fs xs fs h (record { to = λ i m. m; count = refl }) refl refl
      (set_value-ArePair s i v c.nodes c.free_nodes xs fs h.whole.lists)
      (rekey-IsHashed bits c d xs xs
        (λ y _. keep (λ e. e.ip) s i (record (at s i) { value = v }) refl y) refl refl
        (IsSame-refl xs) h.table)

-- What `hm_cache_add` and `hm_cache_has` do with an element that is in the list.
abbrev pub renewed : Cache → ℕ → Cache
renewed c x = push_node (cut_node c x) x

-- What `hm_cache_remove` does before it deletes from the table.
abbrev pub freed : Cache → ℕ → Cache
freed c x = push_free (cut_node c x) x

pub renewed-IsMoved : (c : Cache) (x : ℕ) → IsMoved c (renewed c x)
renewed-IsMoved c x =
    moved_trans c (cut_node c x) (renewed c x) (cut_node-IsMoved c x)
      (push_node-IsMoved (cut_node c x) x)

pub freed-IsMoved : (c : Cache) (x : ℕ) → IsMoved c (freed c x)
freed-IsMoved c x =
    moved_trans c (cut_node c x) (freed c x) (cut_node-IsMoved c x)
      (push_free-IsMoved (cut_node c x) x)

module _ (bits : ℕ) (c : Cache) (ys : List ℕ) (x : ℕ) (zs fs : List ℕ)
    (h : IsConsistent bits c (ys ++ (x ∷ zs)) fs) where
  pub renewed-IsConsistent : IsConsistent bits (renewed c x) (x ∷ (ys ++ zs)) fs
  renewed-IsConsistent =
      let m = renewed-IsMoved c x in
      let same = front-IsSame ys x zs in
      shared-IsConsistent bits c (renewed c x) (ys ++ (x ∷ zs)) fs (x ∷ (ys ++ zs)) fs h
        (record {
          to = λ i m. elim m [ inl u ↦ inl (same.to i u) | inr f ↦ inr f ];
          count = ap (λ (n : ℕ). n + length fs) same.count;
        })
        m.mask m.capacity
        (push_node-IsCache (cut_node c x) x (ys ++ zs) fs
          (cut_node-IsOut c ys x zs fs h.whole.lists))
        (rekey-IsHashed bits c (renewed c x) (ys ++ (x ∷ zs)) (x ∷ (ys ++ zs))
          (λ y _. (m.words y).0) m.mask m.table same h.table)

  pub freed-IsConsistent :
      (fuel : ℕ)
      → 2 ^ bits ≤ fuel
      → (t : List ℕ) × (table_delete fuel (freed c x) (at c.list_storage x).ip
          ≡ ok (record (freed c x) { hash_table = t }))
        × IsConsistent bits (record (freed c x) { hash_table = t }) (ys ++ zs) (x ∷ fs)
  freed-IsConsistent fuel enough =
      let m = freed-IsMoved c x in
      let d = freed c x in
      let xs = ys ++ (x ∷ zs) in
      let out = cut_node-IsOut c ys x zs fs h.whole.lists in
      let moved : IsHashed bits d d.hash_table xs =
        rekey-IsHashed bits c d xs xs (λ y _. (m.words y).0) m.mask m.table (IsSame-refl xs)
          h.table in
      let (t, deleted, after) =
        table_delete-IsHashed bits fuel d xs h.small (m.mask ∙ h.masked)
          (IsConsistent-roomy bits c xs fs h) enough moved x (ys ++ zs) (In-here ys x zs)
          out.free.present (rest-IsLess ys x zs out.free.other) in
      let e : Cache = record d { hash_table = t } in
      (
        t,
        subst (λ (ip : ℕ). table_delete fuel d ip ≡ ok e) (m.words x).0 deleted,
        shared-IsConsistent bits c e xs fs (ys ++ zs) (x ∷ fs) h
            (record {
              to = λ i m. elim m [
                | inl u ↦ elim (In-front i x ys zs u) [ inl e ↦ inr (inl e) | inr j ↦ inl j ]
                | inr f ↦ inr (inr f)
              ];
              count = omega (arith, length-append ys zs, length-append ys (x ∷ zs));
            })
            m.mask m.capacity (push_free-IsCache (cut_node c x) x (ys ++ zs) fs out) after,
      )
