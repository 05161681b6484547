-- ===== src/Cache/Chain.antt =====
-- The lists of cache.c: the elements reached by `next_index` from the head, newest first, with the
-- links back, and how they bear writes.
use hipermap.Common.{
  ℕ, zero, suc, ◌<◌, ◌≡◌, ◌≢◌, refl, sym, ap, ◌∙◌, List, [], ◌∷◌, ◌++◌, length, set, length-set,
  get_or-set_self, get_or-set_ne, All,
}
use hipermap.Cache.{Element, Linked, no_index, no_element, at, set_prev, set_next}

-- The first and the last index of a list, or what stands around it.
abbrev pub first_or : List ℕ → ℕ → ℕ
first_or [] n = n
first_or (x ∷ xs) n = x

abbrev pub last_or : List ℕ → ℕ → ℕ
last_or [] p = p
last_or (x ∷ xs) p = last_or xs x

-- The elements `xs` are linked in order, after `p` and before `n`.
abbrev pub Chain : List Element → ℕ → List ℕ → ℕ → Type 0
Chain storage p [] n = Unit
Chain storage p (x ∷ xs) n =
    ((at storage x).prev_index ≡ p)
    × ((at storage x).next_index ≡ first_or xs n)
    × Chain storage x xs n

-- Indices of the storage, each once, other than NO_INDEX.
abbrev pub AreIndices : ℕ → List ℕ → Type 0
AreIndices n [] = Unit
AreIndices n (x ∷ xs) = (x < n) × (x ≢ no_index) × All (λ y. y ≢ x) xs × AreIndices n xs

-- The list with the given ends holds the elements `xs`.
pub record IsList (l : Linked) (xs : List ℕ) : Type 0 where
  pub indices : AreIndices (length l.storage) xs
  pub head : l.ends.head_index ≡ first_or xs no_index
  pub tail : l.ends.tail_index ≡ last_or xs no_index
  pub chain : Chain l.storage no_index xs no_index

-- Writes and reads of the links.
abbrev pub prev_of : List Element → ℕ → ℕ
prev_of s i = (at s i).prev_index

abbrev pub next_of : List Element → ℕ → ℕ
next_of s i = (at s i).next_index

-- A write that keeps a field keeps it everywhere.
pub keep :
    (f : Element → ℕ) (s : List Element) (i : ℕ) (e : Element)
    → f e ≡ f (at s i)
    → (j : ℕ) → f (at (set s i e) j) ≡ f (at s j)
keep f [] i e h j = refl
keep f (x ∷ s) zero e h zero = h
keep f (x ∷ s) zero e h (suc j) = refl
keep f (x ∷ s) (suc i) e h zero = refl
keep f (x ∷ s) (suc i) e h (suc j) = keep f s i e h j

module _ (s : List Element) (i v : ℕ) where
  pub prev-set_next : (j : ℕ) → prev_of (set_next s i v) j ≡ prev_of s j
  prev-set_next = keep (λ e. e.prev_index) s i (record (at s i) { next_index = v }) refl

  pub next-set_prev : (j : ℕ) → next_of (set_prev s i v) j ≡ next_of s j
  next-set_prev = keep (λ e. e.next_index) s i (record (at s i) { prev_index = v }) refl

  pub prev-set_prev_self : i < length s → prev_of (set_prev s i v) i ≡ v
  prev-set_prev_self h =
      ap (λ (e : Element). e.prev_index)
        (get_or-set_self s i (record (at s i) { prev_index = v }) no_element h)

  pub next-set_next_self : i < length s → next_of (set_next s i v) i ≡ v
  next-set_next_self h =
      ap (λ (e : Element). e.next_index)
        (get_or-set_self s i (record (at s i) { next_index = v }) no_element h)

  pub prev-set_prev_ne : (j : ℕ) → i ≢ j → prev_of (set_prev s i v) j ≡ prev_of s j
  prev-set_prev_ne j ne =
      ap (λ (e : Element). e.prev_index)
        (get_or-set_ne s i j (record (at s i) { prev_index = v }) no_element ne)

  pub next-set_next_ne : (j : ℕ) → i ≢ j → next_of (set_next s i v) j ≡ next_of s j
  next-set_next_ne j ne =
      ap (λ (e : Element). e.next_index)
        (get_or-set_ne s i j (record (at s i) { next_index = v }) no_element ne)

  pub length-set_prev : length (set_prev s i v) ≡ length s
  length-set_prev = length-set s i (record (at s i) { prev_index = v })

  pub length-set_next : length (set_next s i v) ≡ length s
  length-set_next = length-set s i (record (at s i) { next_index = v })

-- A chain in two parts.
pub Chain-split :
    (s : List Element) (p : ℕ) (ys zs : List ℕ) (n : ℕ)
    → Chain s p (ys ++ zs) n
    → Chain s p ys (first_or zs n) × Chain s (last_or ys p) zs n
Chain-split s p [] zs n c = (tt, c)
Chain-split s p (y ∷ []) zs n c = ((c.0, c.1, tt), c.2)
Chain-split s p (y ∷ y' ∷ ys) zs n c =
    let (left, right) = Chain-split s y (y' ∷ ys) zs n c.2 in ((c.0, c.1, left), right)

pub Chain-join :
    (s : List Element) (p : ℕ) (ys zs : List ℕ) (n : ℕ)
    → Chain s p ys (first_or zs n)
    → Chain s (last_or ys p) zs n
    → Chain s p (ys ++ zs) n
Chain-join s p [] zs n left right = right
Chain-join s p (y ∷ []) zs n left right = (left.0, left.1, right)
Chain-join s p (y ∷ y' ∷ ys) zs n left right =
    (left.0, left.1, Chain-join s y (y' ∷ ys) zs n left.2 right)

-- A chain sees nothing but the links of its elements.
pub Chain-frame :
    (s t : List Element) (p : ℕ) (xs : List ℕ) (n : ℕ)
    → All (λ y. (prev_of t y ≡ prev_of s y) × (next_of t y ≡ next_of s y)) xs
    → Chain s p xs n
    → Chain t p xs n
Chain-frame s t p [] n same c = tt
Chain-frame s t p (x ∷ xs) n same c =
    (same.0.0 ∙ c.0, same.0.1 ∙ c.1, Chain-frame s t x xs n same.1 c.2)

-- The last element is one of the list.
pub last_or-All : (P : ℕ → Type 0) (x : ℕ) (xs : List ℕ) → P x → All P xs → P (last_or xs x)
last_or-All P x [] p q = p
last_or-All P x (y ∷ ys) p q = last_or-All P y ys q.0 q.1

-- The last element gets another successor.
pub Chain-relast :
    (s t : List Element) (p : ℕ) (xs : List ℕ) (k n n' : ℕ)
    → AreIndices k xs
    → All (λ y. prev_of t y ≡ prev_of s y) xs
    → All (λ y. y ≢ last_or xs p → next_of t y ≡ next_of s y) xs
    → ((xs ≢ []) → next_of t (last_or xs p) ≡ n')
    → Chain s p xs n
    → Chain t p xs n'
Chain-relast s t p [] k n n' ok same_prev same_next last c = tt
Chain-relast s t p (x ∷ []) k n n' ok same_prev same_next last c =
    (same_prev.0 ∙ c.0, last (λ e. cc e), tt)
Chain-relast s t p (x ∷ y ∷ ys) k n n' ok same_prev same_next last c = (
  same_prev.0 ∙ c.0,
  same_next.0 (λ e. last_or-All (λ z. z ≢ x) y ys ok.2.0 ok.2.1 (sym e)) ∙ c.1,
  Chain-relast s t x (y ∷ ys) k n n' ok.3 same_prev.1 same_next.1 (λ ne. last (λ e. cc e)) c.2,
)

-- The first element gets another predecessor.
pub Chain-refirst :
    (s t : List Element) (p p' x : ℕ) (xs : List ℕ) (n : ℕ)
    → prev_of t x ≡ p'
    → next_of t x ≡ next_of s x
    → All (λ y. (prev_of t y ≡ prev_of s y) × (next_of t y ≡ next_of s y)) xs
    → Chain s p (x ∷ xs) n
    → Chain t p' (x ∷ xs) n
Chain-refirst s t p p' x xs n first next same c =
    (first, next ∙ c.1, Chain-frame s t x xs n same c.2)
