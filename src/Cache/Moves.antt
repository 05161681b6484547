-- ===== src/Cache/Moves.antt =====
-- The moves that the calls on a cache are made of: an element leaves a list, joins one, is written.
use hipermap.Common.{ℕ, ◌≡◌, refl, sym, subst, List, [], ◌∷◌, ◌++◌, length, length-set, All, ok}
use hipermap.Cache.{Element, Ends, Linked, Cache, at, set_value, set_ip, cut, set_head}
use hipermap.Cache.Api.{cut_node, cut_free, push_node, push_free, insert_new}
use hipermap.Cache.Chain.{prev_of, next_of, keep}
use hipermap.Cache.Pairs.{
  ArePair, IsLoose, ArePair-flip, IsLoose-flip, IsList-same, cut-IsLoose, set_head-ArePair,
}
use hipermap.Cache.Frame.{table_add-HasSameLists}

-- The list of the used elements is `xs`, newest first, and the free list is `fs`.
abbrev pub IsCache : Cache → List ℕ → List ℕ → Type 0
IsCache c xs fs = ArePair (record { storage = c.list_storage; ends = c.nodes }) c.free_nodes xs fs

-- `x` is in neither list.
abbrev pub IsOut : Cache → ℕ → List ℕ → List ℕ → Type 0
IsOut c x xs fs = IsLoose (record { storage = c.list_storage; ends = c.nodes }) c.free_nodes x xs fs

pub cut_node-IsOut :
    (c : Cache) (ys : List ℕ) (x : ℕ) (zs fs : List ℕ)
    → IsCache c (ys ++ (x ∷ zs)) fs
    → IsOut (cut_node c x) x (ys ++ zs) fs
unfolding cut_node
cut_node-IsOut c ys x zs fs h =
    cut-IsLoose (record { storage = c.list_storage; ends = c.nodes }) c.free_nodes ys x zs fs h

pub cut_free-IsOut :
    (c : Cache) (xs : List ℕ) (x : ℕ) (fs : List ℕ)
    → IsCache c xs (x ∷ fs)
    → IsOut (cut_free c x) x xs fs
unfolding cut_free
cut_free-IsOut c xs x fs h =
    let l : Linked = record { storage = c.list_storage; ends = c.free_nodes } in
    IsLoose-flip (cut l x).storage (cut l x).ends c.nodes x fs xs (
      cut-IsLoose l c.nodes [] x fs xs
        (ArePair-flip c.list_storage c.nodes c.free_nodes xs (x ∷ fs) h))

pub push_node-IsCache :
    (c : Cache) (x : ℕ) (xs fs : List ℕ) → IsOut c x xs fs → IsCache (push_node c x) (x ∷ xs) fs
unfolding push_node
push_node-IsCache c x xs fs h =
    set_head-ArePair (record { storage = c.list_storage; ends = c.nodes }) c.free_nodes x xs fs h

pub push_free-IsCache :
    (c : Cache) (x : ℕ) (xs fs : List ℕ) → IsOut c x xs fs → IsCache (push_free c x) xs (x ∷ fs)
unfolding push_free
push_free-IsCache c x xs fs h =
    let l : Linked = record { storage = c.list_storage; ends = c.free_nodes } in
    ArePair-flip (set_head l x).storage (set_head l x).ends c.nodes (x ∷ fs) xs (
      set_head-ArePair l c.nodes x fs xs
        (IsLoose-flip c.list_storage c.nodes c.free_nodes x xs fs h))

-- Writes of an IP or a value keep the links.
All-each : (P : ℕ → Type 0) → ((y : ℕ) → P y) → (ys : List ℕ) → All P ys
All-each P f [] = tt
All-each P f (y ∷ ys) = (f y, All-each P f ys)

ArePair-same :
    (s t : List Element) (d e : Ends) (xs ys : List ℕ)
    → length t ≡ length s
    → ((y : ℕ) → (prev_of t y ≡ prev_of s y) × (next_of t y ≡ next_of s y))
    → ArePair (record { storage = s; ends = d }) e xs ys
    → ArePair (record { storage = t; ends = d }) e xs ys
ArePair-same s t d e xs ys l same p = record {
  one = IsList-same s t d xs l (All-each _ same xs) p.one;
  other = IsList-same s t e ys l (All-each _ same ys) p.other;
  apart = p.apart;
}

pub set_value-ArePair :
    (s : List Element) (i v : ℕ) (d e : Ends) (xs ys : List ℕ)
    → ArePair (record { storage = s; ends = d }) e xs ys
    → ArePair (record { storage = set_value s i v; ends = d }) e xs ys
set_value-ArePair s i v d e xs ys =
    let new = record (at s i) { value = v } in
    ArePair-same s (set_value s i v) d e xs ys (length-set s i new)
      (λ y. (keep (λ e. e.prev_index) s i new refl y, keep (λ e. e.next_index) s i new refl y))

set_ip-ArePair :
    (s : List Element) (i v : ℕ) (d e : Ends) (xs ys : List ℕ)
    → ArePair (record { storage = s; ends = d }) e xs ys
    → ArePair (record { storage = set_ip s i v; ends = d }) e xs ys
set_ip-ArePair s i v d e xs ys =
    let new = record (at s i) { ip = v } in
    ArePair-same s (set_ip s i v) d e xs ys (length-set s i new)
      (λ y. (keep (λ e. e.prev_index) s i new refl y, keep (λ e. e.next_index) s i new refl y))

pub insert_new-IsCache :
    (fuel : ℕ) (c : Cache) (ip value x : ℕ) (xs fs : List ℕ) {c' : Cache}
    → IsOut c x xs fs
    → insert_new fuel c ip value x ≡ ok c'
    → IsCache c' (x ∷ xs) fs
unfolding insert_new
insert_new-IsCache fuel c ip value x xs fs out h =
    let p = push_node c x in
    let ready : Cache = record p {
      list_storage = set_value (set_ip p.list_storage x ip) x value;
    } in
    subst (λ (d : Cache). IsCache d (x ∷ xs) fs) (sym (table_add-HasSameLists fuel ready ip x h))
      (set_value-ArePair (set_ip p.list_storage x ip) x value p.nodes p.free_nodes (x ∷ xs) fs (
        set_ip-ArePair p.list_storage x ip p.nodes p.free_nodes (x ∷ xs) fs
          (push_node-IsCache c x xs fs out)))
