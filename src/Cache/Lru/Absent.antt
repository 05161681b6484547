-- ===== src/Cache/Lru/Absent.antt =====
-- The calls on an IP that is not in the cache of cache.c.
use hipermap.Common.{
  ℕ, ◌^◌, ◌≤◌, ◌≡◌, ◌≢◌, inl, inr, refl, sym, ap, ◌∙◌, subst, arith, true, false, Option, none,
  some, List, [], ◌∷◌, length, In, ok, Bool-cases, ◌==◌,
}
use hipermap.Cache.{Cache, at, no_index, table_lookup}
use hipermap.Cache.Apart.{present}
use hipermap.Cache.Probe.Calls.{table_lookup-missing}
use hipermap.Cache.Lru.{find, erase, promote, touch}
use hipermap.Cache.Lru.Entries.{
  entry, entries, length-entries, IsAbsent, IsLast-of, room-insert, full-insert,
}
use hipermap.Cache.Lru.Consistent.{IsConsistent, IsConsistent-roomy}
use hipermap.Cache.Lru.Steps.{missing-has, missing-remove, full-add, free-add}
use hipermap.Cache.Lru.Add.{add_from_free-IsResult, add_evicting-IsResult}
use hipermap.Cache.Lru.Represents.{
  Represents, result-Represents, HasAs, RemovesAs, AddsAs, answer_eq,
}

-- A removal of an IP that is not there.
find-none-erase : (ip : ℕ) (l : List (ℕ × ℕ)) → find ip l ≡ none → erase ip l ≡ l
find-none-erase ip [] h = refl
find-none-erase ip ((k, v) ∷ l) h = elim (Bool-cases (k == ip)) [
  | inl e ↦ cc (rw e at h)
  | inr e ↦ rw e (ap ((k, v) ∷◌) (find-none-erase ip l (rw e at h)))
]

module _ (bits room fuel : ℕ) (c : Cache) (ip : ℕ) (enough : 2 ^ bits ≤ fuel)
    (capacity : c.capacity ≡ room) where
  module _ (xs fs : List ℕ) (h : IsConsistent bits c xs fs)
      (absent : IsAbsent ip c.list_storage xs) where
    absent_lookup : table_lookup fuel c ip ≡ ok no_index
    absent_lookup =
        table_lookup-missing bits fuel c xs h.small h.masked (IsConsistent-roomy bits c xs fs h)
          enough h.table ip absent.other

    absent-Represents :
        (l : List (ℕ × ℕ)) → entries c.list_storage xs ≡ l → Represents bits room c l
    absent-Represents l contents = record {
      used = xs;
      free = fs;
      consistent = h;
      capacity = capacity;
      contents = contents;
    }

    pub absent_has : HasAs bits room fuel c ip (entries c.list_storage xs)
    absent_has = (
      c,
      missing-has fuel c ip absent_lookup ∙ ap (λ (o : Option ℕ). ok (o, c)) (sym absent.found),
      absent-Represents (touch ip (entries c.list_storage xs))
          (ap (promote ip (entries c.list_storage xs)) (sym absent.found)),
    )

    pub absent_remove : RemovesAs bits room fuel c ip (entries c.list_storage xs)
    absent_remove = (
      c,
      missing-remove fuel c ip absent_lookup ∙ ap (λ (o : Option ℕ). ok (o, c)) (sym absent.found),
      absent-Represents (erase ip (entries c.list_storage xs))
          (sym (find-none-erase ip (entries c.list_storage xs) absent.found)),
    )

  free_add :
      (xs : List ℕ) (f : ℕ) (fs : List ℕ) (value : ℕ)
      → IsConsistent bits c xs (f ∷ fs)
      → IsAbsent ip c.list_storage xs
      → AddsAs bits room fuel c ip value (entries c.list_storage xs)
  free_add xs f fs value h absent =
      let l = entries c.list_storage xs in
      let (unknown, nothing, inserted) =
        room-insert room ip value l absent.found
          (omega (arith, length-entries c.list_storage xs, h.whole.size)) in
      let there = (present (length c.list_storage) (f ∷ fs) h.whole.lists.other.indices).0.1 in
      let test : (c.free_nodes.head_index == no_index) ≡ false =
        ground (arith, there, h.whole.lists.other.head) in
      let (d, taken, r) =
        add_from_free-IsResult bits fuel c xs f fs ip value h enough absent.other in
      (
        d,
        free-add fuel c ip value _ (absent_lookup xs (f ∷ fs) h absent) test taken
            ∙ answer_eq false none d (sym unknown) (sym nothing),
        subst (λ (m : List (ℕ × ℕ)). Represents bits room d m) (sym inserted)
            (result-Represents bits room c d ((ip, value) ∷ l) (f ∷ xs) fs r capacity),
      )

  full_add :
      (x : ℕ) (xs : List ℕ) (value : ℕ)
      → IsConsistent bits c (x ∷ xs) []
      → IsAbsent ip c.list_storage (x ∷ xs)
      → AddsAs bits room fuel c ip value (entries c.list_storage (x ∷ xs))
  full_add x xs value h absent =
      let s = c.list_storage in
      let l = entries s (x ∷ xs) in
      let (ys, y, last) = IsLast-of s x xs in
      let (unknown, displaces, inserted) =
        full-insert room ip value l absent.found
          (omega (arith, length-entries s xs, h.whole.size)) in
      let test : (c.free_nodes.head_index == no_index) ≡ true =
        ground (arith, h.whole.lists.other.head) in
      let (d, evicting, r) =
        add_evicting-IsResult bits fuel c ys y ip value
          (subst (λ (ws : List ℕ). IsConsistent bits c ws []) last.parts h) enough
          (subst (λ (ws : List ℕ). (y : ℕ) → In y ws → (at s y).ip ≢ ip) last.parts absent.other) in
      (
        d,
        full-add fuel c ip value _ (absent_lookup (x ∷ xs) [] h absent) test evicting
            ∙ answer_eq false (some (entry s y)) d (sym unknown) (sym last.last ∙ sym displaces),
        subst (λ (m : List (ℕ × ℕ)). Represents bits room d m)
            (ap ((ip, value) ∷◌) (sym last.others) ∙ sym inserted)
            (result-Represents bits room c d ((ip, value) ∷ entries s ys) (y ∷ ys) [] r capacity),
      )

  pub absent_add :
      (xs fs : List ℕ) (value : ℕ)
      → IsConsistent bits c xs fs
      → IsAbsent ip c.list_storage xs
      → AddsAs bits room fuel c ip value (entries c.list_storage xs)
  absent_add xs (f ∷ fs) value h absent = free_add xs f fs value h absent
  absent_add (x ∷ xs) [] value h absent = full_add x xs value h absent
  absent_add [] [] value h absent = absurd (omega (arith, h.whole.size, h.whole.some))
