-- ===== src/Cache/Cut.antt =====
-- The links that `cut` of cache.c writes.
use hipermap.Common.{
  ℕ, ◌<◌, ◌≡◌, ◌≢◌, ◌⊎◌, inl, inr, refl, sym, ap, ◌∙◌, subst, arith, true, false, List, length,
  eq_cases, ◌==◌, ==_iff, if◌then◌else◌,
}
use hipermap.Cache.{Element, Linked, no_index, set_prev, set_next, cut}
use hipermap.Cache.Chain.{
  prev_of, next_of, prev-set_next, next-set_prev, prev-set_prev_self, next-set_next_self,
  prev-set_prev_ne, next-set_next_ne, length-set_prev, length-set_next,
}

-- The links after an element was taken from between `p` and `n`.
pub record IsRelinked (s t : List Element) (x p n : ℕ) : Type 0 where
  pub same_length : length t ≡ length s
  pub prev_self : prev_of t x ≡ no_index
  pub next_self : next_of t x ≡ no_index
  pub prev_same : (i : ℕ) → i ≢ x → i ≢ n → prev_of t i ≡ prev_of s i
  pub next_same : (i : ℕ) → i ≢ x → i ≢ p → next_of t i ≡ next_of s i
  pub prev_new : n ≢ no_index → prev_of t n ≡ p
  pub next_new : p ≢ no_index → next_of t p ≡ n

-- The element's own links cleared.
cleared : List Element → ℕ → List Element
cleared s x = set_next (set_prev s x no_index) x no_index

module _ (s : List Element) (x : ℕ) where
  length-cleared : length (cleared s x) ≡ length s
  unfolding cleared
  length-cleared = length-set_next (set_prev s x no_index) x no_index ∙ length-set_prev s x no_index

  prev-cleared_self : x < length s → prev_of (cleared s x) x ≡ no_index
  unfolding cleared
  prev-cleared_self h =
      prev-set_next (set_prev s x no_index) x no_index x ∙ prev-set_prev_self s x no_index h

  next-cleared_self : x < length s → next_of (cleared s x) x ≡ no_index
  unfolding cleared
  next-cleared_self h =
      next-set_next_self (set_prev s x no_index) x no_index
        (omega (arith, length-set_prev s x no_index))

  prev-cleared_ne : (i : ℕ) → i ≢ x → prev_of (cleared s x) i ≡ prev_of s i
  unfolding cleared
  prev-cleared_ne i ne =
      prev-set_next (set_prev s x no_index) x no_index i
      ∙ prev-set_prev_ne s x no_index i (λ e. ne (sym e))

  next-cleared_ne : (i : ℕ) → i ≢ x → next_of (cleared s x) i ≡ next_of s i
  unfolding cleared
  next-cleared_ne i ne =
      next-set_next_ne (set_prev s x no_index) x no_index i (λ e. ne (sym e))
      ∙ next-set_prev s x no_index i

-- The predecessor gets the successor, if there is one, and the other way round.
link_next : List Element → ℕ → ℕ → List Element
link_next s p n = if p == no_index then s else set_next s p n

link_prev : List Element → ℕ → ℕ → List Element
link_prev s p n = if n == no_index then s else set_prev s n p

record LinkedNext (s t : List Element) (p n : ℕ) : Type 0 where
  pub same_length : length t ≡ length s
  prev_all : (i : ℕ) → prev_of t i ≡ prev_of s i
  pub next_same : (i : ℕ) → i ≢ p → next_of t i ≡ next_of s i
  pub next_new : p ≢ no_index → next_of t p ≡ n

link_next_none : (s : List Element) (p n : ℕ) → p ≡ no_index → LinkedNext s (link_next s p n) p n
unfolding link_next
link_next_none s p n e =
    let none_before : (p == no_index) ≡ true = (==_iff _ _).1 e in
    rw none_before (record {
      same_length = refl;
      prev_all = λ i. refl;
      next_same = λ i ne. refl;
      next_new = λ ne. absurd (ne e);
    })

link_next-LinkedNext :
    (s : List Element) (p n : ℕ)
    → (p ≡ no_index) ⊎ (p < length s)
    → LinkedNext s (link_next s p n) p n
unfolding link_next
link_next-LinkedNext s p n (inl e) = link_next_none s p n e
link_next-LinkedNext s p n (inr inside) = elim (eq_cases p no_index) [
  | inl e ↦ link_next_none s p n e
  | inr ne ↦
      let some_before : (p == no_index) ≡ false = ground arith in
      rw some_before (record {
        same_length = length-set_next s p n;
        prev_all = prev-set_next s p n;
        next_same = λ i other. next-set_next_ne s p n i (λ e. other (sym e));
        next_new = λ _. next-set_next_self s p n inside;
      })
]

record LinkedPrev (s t : List Element) (p n : ℕ) : Type 0 where
  pub same_length : length t ≡ length s
  next_all : (i : ℕ) → next_of t i ≡ next_of s i
  pub prev_same : (i : ℕ) → i ≢ n → prev_of t i ≡ prev_of s i
  pub prev_new : n ≢ no_index → prev_of t n ≡ p

link_prev_none : (s : List Element) (p n : ℕ) → n ≡ no_index → LinkedPrev s (link_prev s p n) p n
unfolding link_prev
link_prev_none s p n e =
    let none_after : (n == no_index) ≡ true = (==_iff _ _).1 e in
    rw none_after (record {
      same_length = refl;
      next_all = λ i. refl;
      prev_same = λ i ne. refl;
      prev_new = λ ne. absurd (ne e);
    })

link_prev-LinkedPrev :
    (s : List Element) (p n : ℕ)
    → (n ≡ no_index) ⊎ (n < length s)
    → LinkedPrev s (link_prev s p n) p n
unfolding link_prev
link_prev-LinkedPrev s p n (inl e) = link_prev_none s p n e
link_prev-LinkedPrev s p n (inr inside) = elim (eq_cases n no_index) [
  | inl e ↦ link_prev_none s p n e
  | inr ne ↦
      let some_after : (n == no_index) ≡ false = ground arith in
      rw some_after (record {
        same_length = length-set_prev s n p;
        next_all = next-set_prev s n p;
        prev_same = λ i other. prev-set_prev_ne s n p i (λ e. other (sym e));
        prev_new = λ _. prev-set_prev_self s n p inside;
      })
]

relink-IsRelinked :
    (s : List Element) (x p n : ℕ)
    → x < length s
    → (p ≡ no_index) ⊎ (p < length s)
    → (n ≡ no_index) ⊎ (n < length s)
    → p ≢ x
    → n ≢ x
    → IsRelinked s (link_prev (link_next (cleared s x) p n) p n) x p n
relink-IsRelinked s x p n x_in p_ok n_ok p_ne n_ne =
    let l = length-cleared s x in
    let a = link_next-LinkedNext (cleared s x) p n (rw l p_ok) in
    let b = link_prev-LinkedPrev (link_next (cleared s x) p n) p n (rw (a.same_length, l) n_ok) in
    record {
      same_length = b.same_length ∙ a.same_length ∙ l;
      prev_self = b.prev_same x (λ e. n_ne (sym e)) ∙ a.prev_all x ∙ prev-cleared_self s x x_in;
      next_self = b.next_all x ∙ a.next_same x (λ e. p_ne (sym e)) ∙ next-cleared_self s x x_in;
      prev_same = λ i not_x not_n. b.prev_same i not_n ∙ a.prev_all i ∙ prev-cleared_ne s x i not_x;
      next_same = λ i not_x not_p. b.next_all i ∙ a.next_same i not_p ∙ next-cleared_ne s x i not_x;
      prev_new = b.prev_new;
      next_new = λ ne. b.next_all p ∙ a.next_new ne;
    }

-- `cut` clears the element, joins its neighbours, and moves the ends that pointed to it.
record IsCut (l r : Linked) (x p n : ℕ) : Type 0 where
  pub links : r.storage ≡ link_prev (link_next (cleared l.storage x) p n) p n
  pub head : r.ends.head_index ≡ (if p == no_index then n else l.ends.head_index)
  pub tail : r.ends.tail_index ≡ (if n == no_index then p else l.ends.tail_index)

cut-IsCut : (l : Linked) (x : ℕ) → IsCut l (cut l x) x (prev_of l.storage x) (next_of l.storage x)
unfolding cut cleared link_prev link_next
cut-IsCut l x = elim (eq_cases (prev_of l.storage x) no_index) [
  | inl p0 ↦ elim (eq_cases (next_of l.storage x) no_index) [
    | inl n0 ↦
        let a : (prev_of l.storage x == no_index) ≡ true = (==_iff _ _).1 p0 in
        let b : (next_of l.storage x == no_index) ≡ true = (==_iff _ _).1 n0 in
        record { links = rw (a, b) refl; head = rw (a, b) (sym n0); tail = rw (a, b) (sym p0) }
    | inr n1 ↦
        let a : (prev_of l.storage x == no_index) ≡ true = (==_iff _ _).1 p0 in
        let b : (next_of l.storage x == no_index) ≡ false = ground arith in
        record {
          links = rw (a, b) (ap (set_prev (cleared l.storage x) (next_of l.storage x)) (sym p0));
          head = rw (a, b) refl;
          tail = rw (a, b) refl;
        }
  ]
  | inr p1 ↦ elim (eq_cases (next_of l.storage x) no_index) [
    | inl n0 ↦
        let a : (prev_of l.storage x == no_index) ≡ false = ground arith in
        let b : (next_of l.storage x == no_index) ≡ true = (==_iff _ _).1 n0 in
        record {
          links = rw (a, b) (ap (set_next (cleared l.storage x) (prev_of l.storage x)) (sym n0));
          head = rw (a, b) refl;
          tail = rw (a, b) refl;
        }
    | inr n1 ↦
        let a : (prev_of l.storage x == no_index) ≡ false = ground arith in
        let b : (next_of l.storage x == no_index) ≡ false = ground arith in
        record { links = rw (a, b) refl; head = rw (a, b) refl; tail = rw (a, b) refl }
  ]
]

-- The links and the ends after `cut`, where the neighbours are other elements or none.
pub record CutOut (l r : Linked) (x p n : ℕ) : Type 0 where
  pub relinked : IsRelinked l.storage r.storage x p n
  pub new_head : r.ends.head_index ≡ (if p == no_index then n else l.ends.head_index)
  pub new_tail : r.ends.tail_index ≡ (if n == no_index then p else l.ends.tail_index)

pub cut-CutOut :
    (l : Linked) (x p n : ℕ)
    → prev_of l.storage x ≡ p
    → next_of l.storage x ≡ n
    → x < length l.storage
    → (p ≡ no_index) ⊎ (p < length l.storage)
    → (n ≡ no_index) ⊎ (n < length l.storage)
    → p ≢ x
    → n ≢ x
    → CutOut l (cut l x) x p n
cut-CutOut l x p n e f x_in p_ok n_ok p_ne n_ne =
    let c : IsCut l (cut l x) x p n =
      subst (λ (p : ℕ). IsCut l (cut l x) x p n) e
        (subst (λ (n : ℕ). IsCut l (cut l x) x (prev_of l.storage x) n) f (cut-IsCut l x)) in
    record {
      relinked =
          subst (λ (t : List Element). IsRelinked l.storage t x p n) (sym c.links)
            (relink-IsRelinked l.storage x p n x_in p_ok n_ok p_ne n_ne);
      new_head = c.head;
      new_tail = c.tail;
    }
