-- ===== src/Cache/Frame.antt =====
-- The operations on the hash table of cache.c write nothing else.
use Prim.Native.Nat.{bit_and}
use hipermap.Common.{
  ◌⊎◌, get_or, set, undefined, ℕ, zero, suc, ◌≡◌, refl, subst, Bool, true, false, Outcome, ok,
  >>=-eq-ok, inl, inr, ◌==◌, if◌then◌else◌,
}
use hipermap.Cache.{
  add32, hash32, lies_between, delete_from, Cache, no_index, at, add_from, table_add, close_gap,
  table_delete,
}

-- The table operations write the hash table only.
abbrev pub HasSameLists : Cache → Cache → Type 0
HasSameLists c c' = c' ≡ record c { hash_table = c'.hash_table }

same_result : (c d c' : Cache) → HasSameLists c d → ok d ≡ ok c' → HasSameLists c c'
same_result c d c' h e = let e' : d ≡ c' = cc e in subst (λ (x : Cache). HasSameLists c x) e' h

pub branch :
    {A : Type 0} (a b : Bool) (first second third : Outcome A) {c' : A}
    → (if a then first else if b then second else third) ≡ ok c'
    → (first ≡ ok c') ⊎ ((second ≡ ok c') ⊎ (third ≡ ok c'))
branch true b first second third h = inl h
branch false true first second third h = inr (inl h)
branch false false first second third h = inr (inr h)

close_gap-HasSameLists :
    (fuel : ℕ) (c : Cache) (i j : ℕ) {c' : Cache} → close_gap fuel c i j ≡ ok c' → HasSameLists c c'
unfolding close_gap
close_gap-HasSameLists zero c i j h = cc
close_gap-HasSameLists (suc fuel) c i j {c'} h =
    let j' = bit_and (add32 j 1) c.mask_for_hash in
    let j_index = get_or c.hash_table j' no_index in
    let k = bit_and (hash32 (at c.list_storage j_index).ip) c.mask_for_hash in
    let moved = record c { hash_table = set (set c.hash_table i j_index) j' no_index } in
    elim (branch (j_index == no_index) (lies_between i j' k) (ok c) (close_gap fuel c i j')
      (close_gap fuel moved j' j') h) [
        | inl e ↦ same_result c c c' refl e
        | inr (inl e) ↦ close_gap-HasSameLists fuel c i j' e
        | inr (inr e) ↦ close_gap-HasSameLists fuel moved j' j' e
      ]

pub table_delete-HasSameLists :
    (fuel : ℕ) (c : Cache) (ip : ℕ) {c' : Cache}
    → table_delete fuel c ip ≡ ok c'
    → HasSameLists c c'
unfolding table_delete
table_delete-HasSameLists fuel c ip h =
    let emptied : ℕ → Cache = λ i. record c { hash_table = set c.hash_table i no_index } in
    let (i, _, rest) =
      >>=-eq-ok (delete_from fuel c ip (bit_and (hash32 ip) c.mask_for_hash))
        (λ i. close_gap fuel (emptied i) i i) h in
    close_gap-HasSameLists fuel (emptied i) i i rest

add_from-HasSameLists :
    (fuel : ℕ) (c : Cache) (ip index b : ℕ) {c' : Cache}
    → add_from fuel c ip index b ≡ ok c'
    → HasSameLists c c'
unfolding add_from
add_from-HasSameLists zero c ip index b h = cc
add_from-HasSameLists (suc fuel) c ip index b {c'} h =
    let old_index = get_or c.hash_table b no_index in
    let next = bit_and (add32 b 1) c.mask_for_hash in
    let added = record c { hash_table = set c.hash_table b index } in
    elim (branch (old_index == no_index) ((at c.list_storage old_index).ip == ip) (ok added)
      undefined (add_from fuel c ip index next) h) [
        | inl e ↦ same_result c added c' refl e
        | inr (inl e) ↦ cc e
        | inr (inr e) ↦ add_from-HasSameLists fuel c ip index next e
      ]

pub table_add-HasSameLists :
    (fuel : ℕ) (c : Cache) (ip index : ℕ) {c' : Cache}
    → table_add fuel c ip index ≡ ok c'
    → HasSameLists c c'
unfolding table_add
table_add-HasSameLists fuel c ip index {c'} h =
    let start = bit_and (hash32 ip) c.mask_for_hash in
    elim (branch ((at c.list_storage index).ip == ip) true (add_from fuel c ip index start)
      undefined undefined h) [
        | inl e ↦ add_from-HasSameLists fuel c ip index start e
        | inr (inl e) ↦ cc e
        | inr (inr e) ↦ cc e
      ]
