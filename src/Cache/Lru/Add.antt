-- ===== src/Cache/Lru/Add.antt =====
-- `hm_cache_add` of cache.c on an IP that is not in the cache: from the free list, and on a full
-- cache.
use hipermap.Common.{
  ℕ, ◌^◌, ◌≤◌, ◌≡◌, ◌≢◌, inl, inr, refl, sym, ap, ◌∙◌, subst, arith, false, none, some, List, [],
  ◌∷◌, ◌++◌, length-append, All, In, In-front, In-middle, Outcome, ok, undefined, ◌>>=◌, ◌==◌,
  if◌then◌else◌,
}
use hipermap.Cache.{Cache, at, no_index, table_delete}
use hipermap.Cache.Api.{cut_node, cut_free, insert_new, add_from_free, add_evicting}
use hipermap.Cache.Moves.{IsOut, cut_node-IsOut, cut_free-IsOut, insert_new-IsCache}
use hipermap.Cache.Calls.{append-nil, reuse, present-test}
use hipermap.Cache.Remove.{last_or-append}
use hipermap.Cache.Relink.{cut_node-IsMoved, cut_free-IsMoved}
use hipermap.Cache.Probe.Calls.{IsHashed, table_delete-IsHashed}
use hipermap.Cache.Probe.Rekey.{IsSame-refl, rekey-IsHashed}
use hipermap.Cache.Lru.Entries.{entry, entries, entries_cong}
use hipermap.Cache.Lru.Consistent.{
  IsConsistent, IsConsistent-roomy, shared-IsConsistent, rest-IsLess, In-here,
}
use hipermap.Cache.Lru.Insert.{insert_new-IsInserted}

-- The cache after a call is consistent, has the entries `l` and the same capacity.
pub record IsResult (bits : ℕ) (c d : Cache) (l : List (ℕ × ℕ)) (ws gs : List ℕ) : Type 0 where
  pub consistent : IsConsistent bits d ws gs
  pub contents : entries d.list_storage ws ≡ l
  pub capacity : d.capacity ≡ c.capacity

-- The two ways of an addition, given what their steps return.
insert_new-add_from_free :
    (fuel : ℕ) (c : Cache) (ip value x : ℕ) (d : Cache)
    → c.free_nodes.head_index ≡ x
    → insert_new fuel (cut_free c x) ip value x ≡ ok d
    → add_from_free fuel c ip value ≡ ok (record { existed = false; evicted = none; cache = d })
unfolding add_from_free
insert_new-add_from_free fuel c ip value x d head inserted =
    let at_head : insert_new fuel (cut_free c c.free_nodes.head_index) ip value
          c.free_nodes.head_index
        ≡ ok d =
      subst (λ (i : ℕ). insert_new fuel (cut_free c i) ip value i ≡ ok d) (sym head) inserted in
    ap
      (λ (o : Outcome Cache).
        o >>= λ c'. ok (record { existed = false; evicted = none; cache = c' }))
      at_head

insert_new-add_evicting :
    (fuel : ℕ) (c : Cache) (ip value x : ℕ) (e d : Cache)
    → c.nodes.tail_index ≡ x
    → (x == no_index) ≡ false
    → ((at c.list_storage x).ip == ip) ≡ false
    → table_delete fuel c (at c.list_storage x).ip ≡ ok e
    → insert_new fuel (cut_node e x) ip value x ≡ ok d
    → add_evicting fuel c ip value
      ≡ ok (record { existed = false; evicted = some (entry c.list_storage x); cache = d })
unfolding add_evicting
insert_new-add_evicting fuel c ip value x e d tail there differs deleted inserted =
    subst
      (λ (i : ℕ).
        (if i == no_index
          then undefined
          else if (at c.list_storage i).ip == ip
          then undefined
          else reuse fuel c ip value i)
        ≡ ok (record { existed = false; evicted = some (entry c.list_storage x); cache = d }))
      (sym tail) (rw (there, differs, deleted, inserted) refl)

pub add_from_free-IsResult :
    (bits fuel : ℕ) (c : Cache) (xs : List ℕ) (x : ℕ) (fs : List ℕ) (ip value : ℕ)
    → IsConsistent bits c xs (x ∷ fs)
    → 2 ^ bits ≤ fuel
    → ((y : ℕ) → In y xs → (at c.list_storage y).ip ≢ ip)
    → (d : Cache) × (add_from_free fuel c ip value
        ≡ ok (record { existed = false; evicted = none; cache = d }))
      × IsResult bits c d ((ip, value) ∷ entries c.list_storage xs) (x ∷ xs) fs
add_from_free-IsResult bits fuel c xs x fs ip value h enough other =
    let e = cut_free c x in
    let m = cut_free-IsMoved c x in
    let out = cut_free-IsOut c xs x fs h.whole.lists in
    let head : c.free_nodes.head_index ≡ x = h.whole.lists.other.head in
    let table : IsHashed bits e e.hash_table xs =
      rekey-IsHashed bits c e xs xs (λ y _. (m.words y).0) m.mask m.table (IsSame-refl xs)
        h.table in
    let (d, inserted, r) =
      insert_new-IsInserted bits fuel e xs fs x ip value h.small (m.mask ∙ h.masked)
        (IsConsistent-roomy bits c xs (x ∷ fs) h) enough table out
        (λ y member same. other y member (sym (m.words y).0 ∙ same)) in
    (
      d,
      insert_new-add_from_free fuel c ip value x d head inserted,
      record {
        consistent =
            shared-IsConsistent bits c d xs (x ∷ fs) (x ∷ xs) fs h
              (record {
                to = λ i m. elim m [
                  | inl u ↦ inl (inr u)
                  | inr (inl same) ↦ inl (inl same)
                  | inr (inr f) ↦ inr f
                ];
                count = omega arith;
              })
              (r.mask ∙ m.mask) (r.capacity ∙ m.capacity)
              (insert_new-IsCache fuel e ip value x xs fs out inserted) r.table;
        contents =
            r.contents
            ∙ ap ((ip, value) ∷◌) (
                entries_cong c.list_storage e.list_storage xs
                  (λ y _. rw ((m.words y).0, (m.words y).1) refl));
        capacity = r.capacity ∙ m.capacity;
      },
    )

pub add_evicting-IsResult :
    (bits fuel : ℕ) (c : Cache) (ys : List ℕ) (x : ℕ) (ip value : ℕ)
    → IsConsistent bits c (ys ++ (x ∷ [])) []
    → 2 ^ bits ≤ fuel
    → ((y : ℕ) → In y (ys ++ (x ∷ [])) → (at c.list_storage y).ip ≢ ip)
    → (d : Cache) × (add_evicting fuel c ip value
        ≡ ok (record { existed = false; evicted = some (entry c.list_storage x); cache = d }))
      × IsResult bits c d ((ip, value) ∷ entries c.list_storage ys) (x ∷ ys) []
add_evicting-IsResult bits fuel c ys x ip value h enough other =
    let xs = ys ++ (x ∷ []) in
    let old = at c.list_storage x in
    let tail : c.nodes.tail_index ≡ x =
      h.whole.lists.one.tail ∙ last_or-append ys (x ∷ []) no_index in
    let there : (x == no_index) ≡ false = present-test c ys x [] [] h.whole.lists in
    let differs : (old.ip == ip) ≡ false = ground (arith, other x (In-here ys x [])) in
    let nil = append-nil ys in
    let out_c : IsOut (cut_node c x) x ys [] =
      subst (λ (ws : List ℕ). IsOut (cut_node c x) x ws []) nil
        (cut_node-IsOut c ys x [] [] h.whole.lists) in
    let less = subst (λ (ws : List ℕ). All (λ y. y ≢ x) ws) (sym nil) out_c.free.other in
    let (t, deleted, after) =
      table_delete-IsHashed bits fuel c xs h.small h.masked (IsConsistent-roomy bits c xs [] h)
        enough h.table x (ys ++ []) (In-here ys x []) out_c.free.present
        (rest-IsLess ys x [] less) in
    let e : Cache = record c { hash_table = t } in
    let f = cut_node e x in
    let m = cut_node-IsMoved e x in
    let out : IsOut f x ys [] =
      subst (λ (ws : List ℕ). IsOut f x ws []) nil (cut_node-IsOut e ys x [] [] h.whole.lists) in
    let kept : IsHashed bits e t ys = subst (λ (ws : List ℕ). IsHashed bits e t ws) nil after in
    let table : IsHashed bits f f.hash_table ys =
      rekey-IsHashed bits e f ys ys (λ y _. (m.words y).0) m.mask m.table (IsSame-refl ys) kept in
    let (d, inserted, r) =
      insert_new-IsInserted bits fuel f ys [] x ip value h.small (m.mask ∙ h.masked)
        (omega (arith, IsConsistent-roomy bits c xs [] h, length-append ys (x ∷ []))) enough table
        out
        (λ y member same.
          other y (In-middle y x ys [] (inr (subst (λ (ws : List ℕ). In y ws) (sym nil) member)))
            (sym (m.words y).0 ∙ same)) in
    (
      d,
      insert_new-add_evicting fuel c ip value x e d tail there differs deleted inserted,
      record {
        consistent =
            shared-IsConsistent bits c d xs [] (x ∷ ys) [] h
              (record {
                to = λ i m. elim m [
                  | inl u ↦ inl (subst (λ (ws : List ℕ). In i (x ∷ ws)) nil (In-front i x ys [] u))
                  | inr f ↦ absurd f
                ];
                count = omega (arith, length-append ys (x ∷ []));
              })
              (r.mask ∙ m.mask) (r.capacity ∙ m.capacity)
              (insert_new-IsCache fuel f ip value x ys [] out inserted) r.table;
        contents =
            r.contents
            ∙ ap ((ip, value) ∷◌) (
                entries_cong c.list_storage f.list_storage ys
                  (λ y _. rw ((m.words y).0, (m.words y).1) refl));
        capacity = r.capacity ∙ m.capacity;
      },
    )
