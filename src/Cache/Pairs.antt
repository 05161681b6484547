-- ===== src/Cache/Pairs.antt =====
-- The two lists of a cache inside one array: `cut` and `set_head` on one of them keep the other.
use hipermap.Common.{ℕ, ◌<◌, ◌≡◌, ◌≢◌, sym, subst, List, [], ◌∷◌, ◌++◌, length, All, All-mono}
use hipermap.Cache.{Element, Ends, Linked, no_index, cut, set_head}
use hipermap.Cache.Chain.{AreIndices, IsList, prev_of, next_of, Chain-frame}
use hipermap.Cache.Apart.{AreApart, All-append, append-All, AreIndices-append}
use hipermap.Cache.Remove.{cut-IsList, cut-neighbours, cut-same}
use hipermap.Cache.Push.{IsFree, set_head-IsList, set_head-same, length-set_head}

AreApart-flip : (xs ys : List ℕ) → AreApart xs ys → AreApart ys xs
AreApart-flip [] [] h = tt
AreApart-flip [] (y ∷ ys) h = (tt, AreApart-flip [] ys tt)
AreApart-flip (x ∷ xs) ys h = add_column ys (AreApart-flip xs ys h.1) h.0
  where
    add_column : (zs : List ℕ) → AreApart zs xs → All (λ z. z ≢ x) zs → AreApart zs (x ∷ xs)
    add_column [] a b = tt
    add_column (z ∷ zs) a b = ((λ e. b.0 (sym e), a.0), add_column zs a.1 b.1)

-- The list `xs` of `l`, and another list of the same array, with the ends `e` and the elements `ys`.
pub record ArePair (l : Linked) (e : Ends) (xs ys : List ℕ) : Type 0 where
  pub one : IsList l xs
  pub other : IsList (record { storage = l.storage; ends = e }) ys
  pub apart : AreApart xs ys

-- An element of neither list.
pub record IsLoose (l : Linked) (e : Ends) (x : ℕ) (xs ys : List ℕ) : Type 0 where
  pub pair : ArePair l e xs ys
  pub free : IsFree l x xs
  pub off_other : All (λ y. y ≢ x) ys

pub ArePair-flip :
    (s : List Element) (d e : Ends) (xs ys : List ℕ)
    → ArePair (record { storage = s; ends = d }) e xs ys
    → ArePair (record { storage = s; ends = e }) d ys xs
ArePair-flip s d e xs ys p = record {
  one = p.other;
  other = p.one;
  apart = AreApart-flip xs ys p.apart;
}

-- A list whose links are kept is kept.
pub IsList-same :
    (s t : List Element) (e : Ends) (ys : List ℕ)
    → length t ≡ length s
    → All (λ y. (prev_of t y ≡ prev_of s y) × (next_of t y ≡ next_of s y)) ys
    → IsList (record { storage = s; ends = e }) ys
    → IsList (record { storage = t; ends = e }) ys
IsList-same s t e ys same_length same list = record {
  indices = subst (λ (m : ℕ). AreIndices m ys) (sym same_length) list.indices;
  head = list.head;
  tail = list.tail;
  chain = Chain-frame s t no_index ys no_index same list.chain;
}

pub cut-IsLoose :
    (l : Linked) (e : Ends) (ys : List ℕ) (x : ℕ) (zs fs : List ℕ)
    → ArePair l e (ys ++ (x ∷ zs)) fs
    → IsLoose (cut l x) e x (ys ++ zs) fs
cut-IsLoose l e ys x zs fs p =
    let (list, no_prev, no_next) = cut-IsList l ys x zs p.one in
    let c = cut-neighbours l ys x zs p.one in
    let (_, (x_in, x_ne, off_after, _), off_before) =
      AreIndices-append (length l.storage) ys (x ∷ zs) p.one.indices in
    let (apart_before, (off_x, apart_after)) = All-append _ ys (x ∷ zs) p.apart in
    record {
      pair = record {
        one = list;
        other =
            IsList-same l.storage (cut l x).storage e fs c.relinked.same_length
              (cut-same l ys x zs fs p.one p.other.indices p.apart) p.other;
        apart = append-All _ ys zs apart_before apart_after;
      };
      free = record {
        inside = subst (λ (m : ℕ). x < m) (sym c.relinked.same_length) x_in;
        present = x_ne;
        other = append-All _ ys zs (All-mono (λ y h e. h.0 (sym e)) ys off_before) off_after;
        no_prev = no_prev;
        no_next = no_next;
      };
      off_other = off_x;
    }

pub set_head-ArePair :
    (l : Linked) (e : Ends) (x : ℕ) (xs fs : List ℕ)
    → IsLoose l e x xs fs
    → ArePair (set_head l x) e (x ∷ xs) fs
set_head-ArePair l e x xs fs loose = record {
  one = set_head-IsList l x xs loose.free loose.pair.one;
  other =
      IsList-same l.storage (set_head l x).storage e fs (length-set_head l x)
        (set_head-same l x xs fs loose.pair.one loose.off_other loose.pair.apart) loose.pair.other;
  apart = (loose.off_other, loose.pair.apart);
}

-- An element of neither list may go to either.
pub IsLoose-flip :
    (s : List Element) (d e : Ends) (x : ℕ) (xs ys : List ℕ)
    → IsLoose (record { storage = s; ends = d }) e x xs ys
    → IsLoose (record { storage = s; ends = e }) d x ys xs
IsLoose-flip s d e x xs ys loose = record {
  pair = ArePair-flip s d e xs ys loose.pair;
  free = record {
    inside = loose.free.inside;
    present = loose.free.present;
    other = loose.off_other;
    no_prev = loose.free.no_prev;
    no_next = loose.free.no_next;
  };
  off_other = loose.free.other;
}
