-- ===== src/Cache/Lru/Present.antt =====
-- The calls on an IP that is in the cache of cache.c.
use hipermap.Common.{
  ℕ, ◌^◌, ◌≤◌, ◌≡◌, ◌≢◌, refl, sym, ap, ◌∙◌, subst, true, false, Option, none, some, List, ◌∷◌,
  ◌++◌, length, In-All, ok, ◌==◌,
}
use hipermap.Cache.{Cache, at, no_index, set_value, table_lookup, table_delete}
use hipermap.Cache.Api.{refresh}
use hipermap.Cache.Apart.{AreIndices-append}
use hipermap.Cache.Moves.{cut_node-IsOut}
use hipermap.Cache.Calls.{present-test}
use hipermap.Cache.Probe.Calls.{table_lookup-found, table_lookup-missing}
use hipermap.Cache.Lru.{find, erase, promote}
use hipermap.Cache.Lru.Entries.{
  entry, entries, entries_cong, IsAbsent, set_value-entry, set_value-entry_ne, found-insert,
}
use hipermap.Cache.Lru.Consistent.{
  IsConsistent, IsConsistent-roomy, In-here, set_value-IsConsistent, renewed, renewed-IsMoved,
  renewed-IsConsistent, freed, freed-IsMoved, freed-IsConsistent,
}
use hipermap.Cache.Lru.Steps.{found-has, found-remove, found-add}
use hipermap.Cache.Lru.Represents.{
  Represents, moved_entry, moved_entries, HasAs, RemovesAs, AddsAs, answer, answer_eq,
}

module _ (bits room fuel : ℕ) (c : Cache) (fs : List ℕ) (ip : ℕ) (enough : 2 ^ bits ≤ fuel)
    (capacity : c.capacity ≡ room) where
  pub absent_lookup :
      (xs : List ℕ)
      → IsConsistent bits c xs fs
      → IsAbsent ip c.list_storage xs
      → table_lookup fuel c ip ≡ ok no_index
  absent_lookup xs h absent =
      table_lookup-missing bits fuel c xs h.small h.masked (IsConsistent-roomy bits c xs fs h)
        enough h.table ip absent.other

  module _ (ys : List ℕ) (x : ℕ) (zs : List ℕ) (h : IsConsistent bits c (ys ++ (x ∷ zs)) fs)
      (here : (at c.list_storage x).ip ≡ ip) (l : List (ℕ × ℕ))
      (found : find ip l ≡ some (at c.list_storage x).value)
      (erased : erase ip l ≡ entries c.list_storage (ys ++ zs)) where
    present_lookup : table_lookup fuel c ip ≡ ok x
    present_lookup =
        subst (λ (k : ℕ). table_lookup fuel c k ≡ ok x) here
          (table_lookup-found bits fuel c (ys ++ (x ∷ zs)) h.small h.masked
            (IsConsistent-roomy bits c (ys ++ (x ∷ zs)) fs h) enough h.table x (In-here ys x zs))

    there : (x == no_index) ≡ false
    there = present-test c ys x zs fs h.whole.lists

    pub present_has : HasAs bits room fuel c ip l
    present_has =
        let d = renewed c x in
        let m = renewed-IsMoved c x in
        let v = (at c.list_storage x).value in
        let first : entry d.list_storage x ≡ (ip, v) =
          moved_entry c d x m ∙ ap (λ (k : ℕ). (k, v)) here in
        (
          d,
          found-has fuel c ip x v present_lookup there (m.words x).1
              ∙ ap (λ (o : Option ℕ). ok (o, d)) (sym found),
          record {
            used = x ∷ (ys ++ zs);
            free = fs;
            consistent = renewed-IsConsistent bits c ys x zs fs h;
            capacity = m.capacity ∙ capacity;
            contents =
                ap (λ (e : ℕ × ℕ). e ∷ entries d.list_storage (ys ++ zs)) first
                ∙ ap ((ip, v) ∷◌) (moved_entries c d (ys ++ zs) m ∙ sym erased)
                ∙ ap (promote ip l) (sym found);
          },
        )

    pub present_remove : RemovesAs bits room fuel c ip l
    present_remove =
        let m = freed-IsMoved c x in
        let (t, deleted, after) = freed-IsConsistent bits c ys x zs fs h fuel enough in
        let d : Cache = record (freed c x) { hash_table = t } in
        let at_ip : table_delete fuel (freed c x) ip ≡ ok d =
          subst (λ (k : ℕ). table_delete fuel (freed c x) k ≡ ok d) here deleted in
        (
          d,
          found-remove fuel c ip x d present_lookup there at_ip
              ∙ ap (λ (o : Option ℕ). ok (o, d)) (sym found),
          record {
            used = ys ++ zs;
            free = x ∷ fs;
            consistent = after;
            capacity = m.capacity ∙ capacity;
            contents = moved_entries c (freed c x) (ys ++ zs) m ∙ sym erased;
          },
        )

    -- The cache of a refreshed element.
    refresh-Represents :
        (value : ℕ) → Represents bits room (refresh c x value).cache ((ip, value) ∷ erase ip l)
    unfolding refresh
    refresh-Represents value =
        let s = c.list_storage in
        let c' : Cache = record c { list_storage = set_value s x value } in
        let d = renewed c' x in
        let m = renewed-IsMoved c' x in
        let same = set_value-IsConsistent bits c (ys ++ (x ∷ zs)) fs x value h in
        let out = cut_node-IsOut c ys x zs fs h.whole.lists in
        let (_, (inside, _, _, _), _) =
          AreIndices-append (length s) ys (x ∷ zs) h.whole.lists.one.indices in
        let first : entry d.list_storage x ≡ (ip, value) =
          moved_entry c' d x m
          ∙ set_value-entry s x value inside
          ∙ ap (λ (k : ℕ). (k, value)) here in
        record {
          used = x ∷ (ys ++ zs);
          free = fs;
          consistent = renewed-IsConsistent bits c' ys x zs fs same;
          capacity = m.capacity ∙ capacity;
          contents =
              ap (λ (e : ℕ × ℕ). e ∷ entries d.list_storage (ys ++ zs)) first
              ∙ ap ((ip, value) ∷◌) (
                  moved_entries c' d (ys ++ zs) m
                  ∙ entries_cong s c'.list_storage (ys ++ zs) (λ y member.
                    set_value-entry_ne s x y value
                      (λ e. In-All (λ y. y ≢ x) y (ys ++ zs) member out.free.other (sym e)))
                  ∙ sym erased);
        }

    refresh-ok : (value : ℕ) → ok (refresh c x value) ≡ answer true none (refresh c x value).cache
    unfolding refresh
    refresh-ok value = refl

    pub present_add : (value : ℕ) → AddsAs bits room fuel c ip value l
    present_add value =
        let (known, nothing, inserted) =
          found-insert room ip value (at c.list_storage x).value l found in
        let r = refresh-Represents value in
        let d = (refresh c x value).cache in
        (
          d,
          found-add fuel c ip value x present_lookup there
              ∙ refresh-ok value
              ∙ answer_eq true none d (sym known) (sym nothing),
          subst (λ (m : List (ℕ × ℕ)). Represents bits room d m) (sym inserted) r,
        )
