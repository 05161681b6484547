-- ===== src/Cache/Push.antt =====
-- `set_head`, and an element that is moved to the head.
use hipermap.Common.{
  ℕ, ◌<◌, ◌≡◌, ◌≢◌, refl, sym, ◌∙◌, subst, arith, true, false, List, [], ◌∷◌, length, All, All-mono,
  All-zip, ◌==◌, ==_iff, Bool-cases, inl, inr,
}
use hipermap.Cache.Apart.{AreApart}
use hipermap.Cache.{Linked, no_index, set_prev, set_next, set_head}
use hipermap.Cache.Chain.{
  AreIndices, IsList, prev_of, next_of, prev-set_next, next-set_prev, prev-set_prev_self,
  next-set_next_self, prev-set_prev_ne, next-set_next_ne, length-set_prev, length-set_next,
  Chain-refirst,
}

-- The element that becomes the head is in no list: nothing stands before or after it.
pub record IsFree (l : Linked) (x : ℕ) (xs : List ℕ) : Type 0 where
  pub inside : x < length l.storage
  pub present : x ≢ no_index
  pub other : All (λ y. y ≢ x) xs
  pub no_prev : prev_of l.storage x ≡ no_index
  pub no_next : next_of l.storage x ≡ no_index

-- `set_head` puts an element that is in no list before the others.
pub set_head-IsList :
    (l : Linked) (x : ℕ) (xs : List ℕ)
    → IsFree l x xs
    → IsList l xs
    → IsList (set_head l x) (x ∷ xs)
unfolding set_head
set_head-IsList l x [] free list =
    let none_there : (l.ends.head_index == no_index) ≡ true = (==_iff _ _).1 list.head in
    rw none_there (record {
      indices = (free.inside, free.present, tt, tt);
      head = refl;
      tail = refl;
      chain = (free.no_prev, free.no_next, tt);
    })
set_head-IsList l x (y ∷ ys) free list =
    let some_head : l.ends.head_index ≢ no_index = λ e. list.indices.1 (sym list.head ∙ e) in
    let some_there : (l.ends.head_index == no_index) ≡ false = ground arith in
    let s = set_next l.storage x y in
    let t = set_prev s y x in
    let length_same : length t ≡ length l.storage =
      length-set_prev s y x ∙ length-set_next l.storage x y in
    let y_inside : y < length s = omega (arith, length-set_next l.storage x y, list.indices.0) in
    let x_off_y : y ≢ x = free.other.0 in
    let next_x : next_of t x ≡ y =
      next-set_prev s y x x ∙ next-set_next_self l.storage x y free.inside in
    let prev_x : prev_of t x ≡ no_index =
      prev-set_prev_ne s y x x x_off_y ∙ prev-set_next l.storage x y x ∙ free.no_prev in
    let same_next : (z : ℕ) → z ≢ x → next_of t z ≡ next_of l.storage z =
      λ z ne. next-set_prev s y x z ∙ next-set_next_ne l.storage x y z (λ e. ne (sym e)) in
    let same_prev : (z : ℕ) → z ≢ y → prev_of t z ≡ prev_of l.storage z =
      λ z ne. prev-set_prev_ne s y x z (λ e. ne (sym e)) ∙ prev-set_next l.storage x y z in
    rw (some_there, list.head)
      (record {
        indices =
            subst (λ (m : ℕ). AreIndices m (x ∷ y ∷ ys)) (sym length_same)
              (free.inside, free.present, free.other, list.indices);
        head = refl;
        tail = list.tail;
        chain = (
          prev_x,
          next_x,
          Chain-refirst l.storage t no_index x y ys no_index (prev-set_prev_self s y x y_inside)
              (same_next y x_off_y)
              (All-mono (λ z h. (same_prev z h.0, same_next z h.1)) ys
                (All-zip _ _ ys list.indices.2 free.other.1))
              list.chain,
        );
      })

-- The elements of another list keep their links.
pub set_head-same :
    (l : Linked) (x : ℕ) (xs fs : List ℕ)
    → IsList l xs
    → All (λ f. f ≢ x) fs
    → AreApart xs fs
    → All
        (λ f.
          (prev_of (set_head l x).storage f ≡ prev_of l.storage f)
          × (next_of (set_head l x).storage f ≡ next_of l.storage f))
        fs
unfolding set_head
set_head-same l x [] fs list off_x apart =
    let none_there : (l.ends.head_index == no_index) ≡ true = (==_iff _ _).1 list.head in
    rw none_there (All-mono (λ f h. (refl, refl)) fs off_x)
set_head-same l x (y ∷ ys) fs list off_x apart =
    let some_head : l.ends.head_index ≢ no_index = λ e. list.indices.1 (sym list.head ∙ e) in
    let some_there : (l.ends.head_index == no_index) ≡ false = ground arith in
    let s = set_next l.storage x y in
    rw (some_there, list.head)
      (All-mono
        (λ f h. (
          prev-set_prev_ne s y x f (λ e. h.1 (sym e)) ∙ prev-set_next l.storage x y f,
          next-set_prev s y x f ∙ next-set_next_ne l.storage x y f (λ e. h.0 (sym e)),
        ))
        fs (All-zip _ _ fs off_x apart.0))

pub length-set_head : (l : Linked) (x : ℕ) → length (set_head l x).storage ≡ length l.storage
unfolding set_head
length-set_head l x = elim (Bool-cases (l.ends.head_index == no_index)) [
  | inl e ↦ rw e refl
  | inr e ↦ rw e (
      length-set_prev (set_next l.storage x l.ends.head_index) l.ends.head_index x
      ∙ length-set_next l.storage x l.ends.head_index)
]
