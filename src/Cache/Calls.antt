-- ===== src/Cache/Calls.antt =====
-- The calls on a cache keep its two lists well linked, and how they order the elements.
use hipermap.Common.{
  undefined, ℕ, ◌≡◌, refl, sym, ap, ◌∙◌, subst, arith, false, List, [], ◌∷◌, ◌++◌, length, Option,
  none, some, Outcome, ok, ◌>>=◌, >>=-eq-ok, inl, inr, ◌==◌, if◌then◌else◌,
}
use hipermap.Cache.{Cache, no_index, at, set_value, table_lookup, table_delete}
use hipermap.Cache.Api.{
  Added, cut_node, cut_free, push_node, push_free, insert_new, add_evicting, add_from_free, refresh,
  remove, has,
}
use hipermap.Cache.Moves.{
  IsCache, IsOut, cut_node-IsOut, cut_free-IsOut, push_node-IsCache, push_free-IsCache,
  set_value-ArePair, insert_new-IsCache,
}
use hipermap.Cache.Apart.{AreIndices-append}
use hipermap.Cache.Remove.{last_or-append}
use hipermap.Cache.Frame.{branch, table_delete-HasSameLists}

-- An IP that is in the cache: `hm_cache_add` makes its element the newest, and keeps the order of
-- the others and the free list.
pub refresh-IsCache :
    (c : Cache) (ys : List ℕ) (x : ℕ) (zs fs : List ℕ) (value : ℕ)
    → IsCache c (ys ++ (x ∷ zs)) fs
    → IsCache (refresh c x value).cache (x ∷ (ys ++ zs)) fs
unfolding refresh
refresh-IsCache c ys x zs fs value h =
    let s = set_value c.list_storage x value in
    push_node-IsCache (cut_node (record c { list_storage = s }) x) x (ys ++ zs) fs (
      cut_node-IsOut (record c { list_storage = s }) ys x zs fs
        (set_value-ArePair c.list_storage x value c.nodes c.free_nodes (ys ++ (x ∷ zs)) fs h))

-- A new IP while an element is free: `hm_cache_add` takes the head of the free list, makes it the
-- newest element, and evicts nothing.
pub add_from_free-IsCache :
    (fuel : ℕ) (c : Cache) (ip value : ℕ) (xs : List ℕ) (x : ℕ) (fs : List ℕ) {r : Added}
    → IsCache c xs (x ∷ fs)
    → add_from_free fuel c ip value ≡ ok r
    → IsCache r.cache (x ∷ xs) fs × (r.evicted ≡ none) × (r.existed ≡ false)
unfolding add_from_free
add_from_free-IsCache fuel c ip value xs x fs {r} h e =
    let head : c.free_nodes.head_index ≡ x = h.other.head in
    let (c', inserted, done) =
      >>=-eq-ok
        (insert_new fuel (cut_free c c.free_nodes.head_index) ip value c.free_nodes.head_index)
        (λ c'. ok (record { existed = false; evicted = none; cache = c' })) e in
    let result : record { existed = false; evicted = none; cache = c' } ≡ r = cc done in
    let at_x : insert_new fuel (cut_free c x) ip value x ≡ ok c' =
      subst (λ (i : ℕ). insert_new fuel (cut_free c i) ip value i ≡ ok c') head inserted in
    subst (λ (r : Added). IsCache r.cache (x ∷ xs) fs × (r.evicted ≡ none) × (r.existed ≡ false))
      result
      (
        insert_new-IsCache fuel (cut_free c x) ip value x xs fs (cut_free-IsOut c xs x fs h) at_x,
        refl,
        refl,
      )

pub append-nil : (xs : List ℕ) → xs ++ [] ≡ xs
append-nil [] = refl
append-nil (x ∷ xs) = ap (x ∷◌) (append-nil xs)

-- An element of a list is not NO_INDEX.
pub present-test :
    (c : Cache) (ys : List ℕ) (x : ℕ) (zs fs : List ℕ)
    → IsCache c (ys ++ (x ∷ zs)) fs
    → (x == no_index) ≡ false
present-test c ys x zs fs h =
    let (_, (_, there, _, _), _) =
      AreIndices-append (length c.list_storage) ys (x ∷ zs) h.one.indices in
    ground arith

-- What `hm_cache_add` does once it has chosen the element to evict.
abbrev pub reuse : ℕ → Cache → ℕ → ℕ → ℕ → Outcome Added
reuse fuel c ip value x =
    let old = at c.list_storage x in
    table_delete fuel c old.ip >>= λ d. insert_new fuel (cut_node d x) ip value x >>= λ c'.
    ok (record { existed = false; evicted = some (old.ip, old.value); cache = c' })

-- The result of an eviction of `x`.
abbrev IsEvicted : Cache → List ℕ → ℕ → Added → Type 0
IsEvicted c ys x r =
    IsCache r.cache (x ∷ ys) []
    × (r.evicted ≡ some ((at c.list_storage x).ip, (at c.list_storage x).value))
    × (r.existed ≡ false)

reuse-IsEvicted :
    (fuel : ℕ) (c : Cache) (ip value : ℕ) (ys : List ℕ) (x : ℕ) {r : Added}
    → IsCache c (ys ++ (x ∷ [])) []
    → reuse fuel c ip value x ≡ ok r
    → IsEvicted c ys x r
reuse-IsEvicted fuel c ip value ys x {r} h e =
    let old = at c.list_storage x in
    let report : Cache → Added =
      λ c'. record { existed = false; evicted = some (old.ip, old.value); cache = c' } in
    let (d, deleted, rest) =
      >>=-eq-ok (table_delete fuel c old.ip)
        (λ d. insert_new fuel (cut_node d x) ip value x >>= λ c'. ok (report c')) e in
    let (c', inserted, done) =
      >>=-eq-ok (insert_new fuel (cut_node d x) ip value x) (λ c'. ok (report c')) rest in
    let same : IsCache d (ys ++ (x ∷ [])) [] =
      subst (λ (d : Cache). IsCache d (ys ++ (x ∷ [])) [])
        (sym (table_delete-HasSameLists fuel c old.ip deleted)) h in
    let out : IsOut (cut_node d x) x ys [] =
      subst (λ (zs : List ℕ). IsOut (cut_node d x) x zs []) (append-nil ys)
        (cut_node-IsOut d ys x [] [] same) in
    let result : report c' ≡ r = cc done in
    subst (IsEvicted c ys x) result
      (insert_new-IsCache fuel (cut_node d x) ip value x ys [] out inserted, refl, refl)

-- A new IP in a full cache: if `hm_cache_add` returns, it has evicted the oldest element, reports
-- its IP and value, and the element is the newest.
pub add_evicting-IsCache :
    (fuel : ℕ) (c : Cache) (ip value : ℕ) (ys : List ℕ) (x : ℕ) {r : Added}
    → IsCache c (ys ++ (x ∷ [])) []
    → add_evicting fuel c ip value ≡ ok r
    → IsCache r.cache (x ∷ ys) []
      × (r.evicted ≡ some ((at c.list_storage x).ip, (at c.list_storage x).value))
      × (r.existed ≡ false)
unfolding add_evicting
add_evicting-IsCache fuel c ip value ys x {r} h e =
    let tail : c.nodes.tail_index ≡ x = h.one.tail ∙ last_or-append ys (x ∷ []) no_index in
    let at_x =
      subst
        (λ (i : ℕ).
          (if i == no_index
            then undefined
            else if (at c.list_storage i).ip == ip
            then undefined
            else reuse fuel c ip value i)
          ≡ ok r)
        tail e in
    elim (branch (x == no_index) ((at c.list_storage x).ip == ip) undefined undefined
      (reuse fuel c ip value x) at_x) [
        | inl bad ↦ cc bad
        | inr (inl bad) ↦ cc bad
        | inr (inr good) ↦ reuse-IsEvicted fuel c ip value ys x h good
      ]

-- If `hm_cache_remove` finds the IP and returns, the element has left the list, is the head of the
-- free list, and its value is reported.
pub remove-IsCache :
    (fuel : ℕ) (c : Cache) (ip : ℕ) (ys : List ℕ) (x : ℕ) (zs fs : List ℕ) {v : Option ℕ}
    {c' : Cache}
    → IsCache c (ys ++ (x ∷ zs)) fs
    → table_lookup fuel c ip ≡ ok x
    → remove fuel c ip ≡ ok (v, c')
    → IsCache c' (ys ++ zs) (x ∷ fs) × (v ≡ some (at c.list_storage x).value)
unfolding remove
remove-IsCache fuel c ip ys x zs fs {v} {c'} h found e =
    let freed = push_free (cut_node c x) x in
    let e' : (table_delete fuel freed ip >>= λ d. ok (some (at c.list_storage x).value, d))
        ≡ ok (v, c') =
      rw (found, present-test c ys x zs fs h) at e in
    let (d, deleted, done) =
      >>=-eq-ok (table_delete fuel freed ip) (λ d. ok (some (at c.list_storage x).value, d)) e' in
    let result : (some (at c.list_storage x).value, d) ≡ (v, c') = cc done in
    subst
      (λ (p : Option ℕ × Cache).
        IsCache p.1 (ys ++ zs) (x ∷ fs) × (p.0 ≡ some (at c.list_storage x).value))
      result
      (
        subst (λ (d : Cache). IsCache d (ys ++ zs) (x ∷ fs))
            (sym (table_delete-HasSameLists fuel freed ip deleted))
            (push_free-IsCache (cut_node c x) x (ys ++ zs) fs (cut_node-IsOut c ys x zs fs h)),
        refl,
      )

-- If the table has the IP, `hm_cache_has` returns the element's value and makes it the newest.
pub has-IsCache :
    (fuel : ℕ) (c : Cache) (ip : ℕ) (ys : List ℕ) (x : ℕ) (zs fs : List ℕ)
    → IsCache c (ys ++ (x ∷ zs)) fs
    → table_lookup fuel c ip ≡ ok x
    → (c' : Cache) × (has fuel c ip ≡ ok (some (at c'.list_storage x).value, c'))
      × IsCache c' (x ∷ (ys ++ zs)) fs
unfolding has
has-IsCache fuel c ip ys x zs fs h found = (
  push_node (cut_node c x) x,
  rw (found, present-test c ys x zs fs h) refl,
  push_node-IsCache (cut_node c x) x (ys ++ zs) fs (cut_node-IsOut c ys x zs fs h),
)
