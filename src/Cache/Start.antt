-- ===== src/Cache/Start.antt =====
-- `hm_cache_init` leaves all elements in the free list, in their order.
use hipermap.Common.{
  ℕ, zero, suc, ◌+◌, ◌-◌, ◌%◌, ◌^◌, ◌≤◌, ◌<◌, ◌≡◌, ◌≢◌, inl, inr, refl, sym, ap, subst, ◌∙◌, arith,
  Bool, true, false, not, ◌||◌, List, [], ◌∷◌, All, ok, ◌==◌, ltb, if◌then◌else◌, length, eq_cases,
  ok_inj, >>=-eq-ok, fail_if-eq-ok, fail_if, bad_size, small_place, In,
}
use hipermap.Words.{align, sub64}
use hipermap.Cache.{Element, no_index, set_prev, set_next}
use hipermap.Cache.Init.{valid_capacity, cache_place_size, link_free, Placed, init, alignment}
use hipermap.Cache.Chain.{
  first_or, last_or, Chain, AreIndices, prev_of, next_of, prev-set_next, next-set_prev,
  prev-set_prev_self, next-set_next_self, prev-set_prev_ne, next-set_next_ne, length-set_prev,
  length-set_next,
}
use hipermap.Cache.Dump.Whole.{IsWhole}

-- The indices from `i` on.
abbrev pub range_from : ℕ → ℕ → List ℕ
range_from i zero = []
range_from i (suc n) = i ∷ range_from (i + 1) n

length-range_from : (i n : ℕ) → length (range_from i n) ≡ n
length-range_from i zero = refl
length-range_from i (suc n) = ap suc (length-range_from (i + 1) n)

last-range_from : (n i p : ℕ) → last_or (range_from i (suc n)) p ≡ i + n
last-range_from zero i p = omega arith
last-range_from (suc n) i p = last-range_from n (i + 1) i ∙ omega arith

range_from-ends :
    (n : ℕ)
    → 0 < n
    → (first_or (range_from 0 n) no_index ≡ 0) × (last_or (range_from 0 n) no_index ≡ n - 1)
range_from-ends zero some = absurd (omega arith)
range_from-ends (suc n) some = (refl, last-range_from n 0 no_index ∙ omega arith)

range_from-All :
    (P : ℕ → Type 0) (i n : ℕ) → ((j : ℕ) → i ≤ j → j < i + n → P j) → All P (range_from i n)
range_from-All P i zero h = tt
range_from-All P i (suc n) h = (
  h i (omega arith) (omega arith),
  range_from-All P (i + 1) n (λ j from to. h j (omega arith) (omega arith)),
)

range_from-AreIndices : (m i n : ℕ) → i + n ≤ m → m ≤ no_index → AreIndices m (range_from i n)
range_from-AreIndices m i zero h k = tt
range_from-AreIndices m i (suc n) h k = (
  omega arith,
  (λ e. omega (arith, e)),
  range_from-All (λ y. y ≢ i) (i + 1) n (λ j from to e. omega (arith, e)),
  range_from-AreIndices m (i + 1) n (omega arith) k,
)

In-range_from : (i n j : ℕ) → i ≤ j → j < i + n → In j (range_from i n)
In-range_from i zero j from to = absurd (omega arith)
In-range_from i (suc n) j from to = elim (eq_cases j i) [
  | inl here ↦ inl here
  | inr later ↦ inr (In-range_from (i + 1) n j (omega arith) (omega arith))
]

-- The links around an index, of an array of `n`.
abbrev before : ℕ → ℕ
before j = if j == 0 then no_index else j - 1

abbrev after : ℕ → ℕ → ℕ
after n j = if j + 1 == n then no_index else j + 1

range_from-Chain :
    (s : List Element) (n i left : ℕ)
    → ((j : ℕ) → j < n → (prev_of s j ≡ before j) × (next_of s j ≡ after n j))
    → i + left ≡ n
    → Chain s (before i) (range_from i left) no_index
range_from-Chain s n i zero links whole = tt
range_from-Chain s n i (suc zero) links whole =
    let (prev, next) = links i (omega arith) in (prev, next ∙ ground arith, tt)
range_from-Chain s n i (suc (suc left)) links whole =
    let (prev, next) = links i (omega arith) in
    let same : before (i + 1) ≡ i = ground arith in
    (
      prev,
      next ∙ ground arith,
      rw same at (range_from-Chain s n (i + 1) (suc left) links (omega arith)),
    )

-- One round of the loop that links the elements.
abbrev link : List Element → ℕ → List Element
link s i = set_next (set_prev s i ((i + 2 ^ 32 - 1) % 2 ^ 32)) i ((i + 1) % 2 ^ 32)

length-link_free : (left i : ℕ) (s : List Element) → length (link_free left i s) ≡ length s
unfolding link_free
length-link_free zero i s = refl
length-link_free (suc left) i s =
    length-link_free left (i + 1) (link s i)
    ∙ length-set_next (set_prev s i ((i + 2 ^ 32 - 1) % 2 ^ 32)) i ((i + 1) % 2 ^ 32)
    ∙ length-set_prev s i ((i + 2 ^ 32 - 1) % 2 ^ 32)

link_free-before :
    (left i : ℕ) (s : List Element) (j : ℕ)
    → j < i
    → (prev_of (link_free left i s) j ≡ prev_of s j)
      × (next_of (link_free left i s) j ≡ next_of s j)
unfolding link_free
link_free-before zero i s j h = (refl, refl)
link_free-before (suc left) i s j h =
    let (prev, next) = link_free-before left (i + 1) (link s i) j (omega arith) in
    let apart : i ≢ j = λ e. omega (arith, e) in
    let t = set_prev s i ((i + 2 ^ 32 - 1) % 2 ^ 32) in
    (
      prev
          ∙ prev-set_next t i ((i + 1) % 2 ^ 32) j
          ∙ prev-set_prev_ne s i ((i + 2 ^ 32 - 1) % 2 ^ 32) j apart,
      next
          ∙ next-set_next_ne t i ((i + 1) % 2 ^ 32) j apart
          ∙ next-set_prev s i ((i + 2 ^ 32 - 1) % 2 ^ 32) j,
    )

link_free-links :
    (left i : ℕ) (s : List Element) (j : ℕ)
    → i + left ≤ length s
    → i ≤ j
    → j < i + left
    → (prev_of (link_free left i s) j ≡ (j + 2 ^ 32 - 1) % 2 ^ 32)
      × (next_of (link_free left i s) j ≡ (j + 1) % 2 ^ 32)
unfolding link_free
link_free-links zero i s j fits from to = absurd (omega arith)
link_free-links (suc left) i s j fits from to =
    let v = (i + 2 ^ 32 - 1) % 2 ^ 32 in
    let w = (i + 1) % 2 ^ 32 in
    let t = set_prev s i v in
    let same_length : length t ≡ length s = length-set_prev s i v in
    elim (eq_cases j i) [
      | inl here ↦
          let (prev, next) = link_free-before left (i + 1) (link s i) i (omega arith) in
          rw here (
            prev ∙ prev-set_next t i w i ∙ prev-set_prev_self s i v (omega arith),
            next ∙ next-set_next_self t i w (omega arith),
          )
      | inr later ↦
          link_free-links left (i + 1) (link s i) j (omega (arith, length-set_next t i w))
            (omega arith) (omega arith)
    ]

-- The elements as `hm_cache_init` links them.
abbrev pub linked : ℕ → List Element → List Element
linked n memory = set_next (set_prev (link_free n 0 memory) 0 no_index) (n - 1) no_index

pub length-linked : (n : ℕ) (memory : List Element) → length (linked n memory) ≡ length memory
length-linked n memory =
    length-set_next (set_prev (link_free n 0 memory) 0 no_index) (n - 1) no_index
    ∙ length-set_prev (link_free n 0 memory) 0 no_index
    ∙ length-link_free n 0 memory

linked-links :
    (n : ℕ) (memory : List Element) (j : ℕ)
    → length memory ≡ n
    → n ≤ no_index
    → j < n
    → (prev_of (linked n memory) j ≡ before j) × (next_of (linked n memory) j ≡ after n j)
linked-links n memory j whole small inside =
    let s = link_free n 0 memory in
    let t = set_prev s 0 no_index in
    let length_s : length s ≡ length memory = length-link_free n 0 memory in
    let length_t : length t ≡ length s = length-set_prev s 0 no_index in
    let (prev, next) = link_free-links n 0 memory j (omega arith) (omega arith) (omega arith) in
    (
      prev-set_next t (n - 1) no_index j ∙ elim (eq_cases j 0) [
        | inl first ↦ rw first (prev-set_prev_self s 0 no_index (omega arith))
        | inr some ↦
            let test : (j == 0) ≡ false = ground arith in
            prev-set_prev_ne s 0 no_index j (λ e. some (sym e)) ∙ prev ∙ rw test (omega arith)
      ],
      elim (eq_cases j (n - 1)) [
        | inl last ↦
            let test : (j + 1 == n) ≡ true = ground arith in
            rw (test, last) (next-set_next_self t (n - 1) no_index (omega arith))
        | inr more ↦
            let test : (j + 1 == n) ≡ false = ground arith in
            next-set_next_ne t (n - 1) no_index j (λ e. more (sym e))
            ∙ next-set_prev s 0 no_index j
            ∙ next
            ∙ rw test (omega arith)
      ],
    )

pub valid_capacity-bounds :
    (capacity speed : ℕ)
    → valid_capacity capacity speed ≡ true
    → (2 ≤ capacity) × (capacity ≤ no_index)
unfolding valid_capacity
valid_capacity-bounds capacity speed h = (ground arith, ground arith)

-- A size is given for valid capacities only.
pub cache_place_size-valid :
    (capacity speed needed : ℕ)
    → cache_place_size capacity speed ≡ ok needed
    → valid_capacity capacity speed ≡ true
unfolding cache_place_size
cache_place_size-valid capacity speed needed h =
    let (_, _, rest) = >>=-eq-ok (fail_if (ltb speed 1 || ltb 5 speed) bad_size) _ h in
    let (_, valid, _) = >>=-eq-ok (fail_if (not (valid_capacity capacity speed)) bad_size) _ rest in
    affirm (valid_capacity capacity speed) (fail_if-eq-ok _ bad_size valid)
  where
    affirm : (b : Bool) → not b ≡ false → b ≡ true
    affirm true h = refl
    affirm false h = sym h

-- A successful `hm_cache_init` over a memory of as many elements as the capacity leaves the list
-- empty, all elements in the free list in the order of the array, each linked to the next and
-- back.
pub init-IsWhole :
    (place size capacity speed : ℕ) (memory : List Element) {p : Placed}
    → length memory ≡ capacity
    → init place size capacity speed memory ≡ ok p
    → IsWhole p.cache [] (range_from 0 capacity)
unfolding init
init-IsWhole place size capacity speed memory {p} whole h =
    let (needed, sized, rest) = >>=-eq-ok (cache_place_size capacity speed) _ h in
    let (_, _, done) =
      >>=-eq-ok
        (fail_if (ltb (sub64 size (sub64 (align alignment place) place)) (sub64 needed alignment))
          small_place)
        _ rest in
    let (some, small) =
      valid_capacity-bounds capacity speed (cache_place_size-valid capacity speed needed sized) in
    let s = linked capacity memory in
    let length_s : length s ≡ capacity = length-linked capacity memory ∙ whole in
    let ends : (first_or (range_from 0 capacity) no_index ≡ 0)
        × (last_or (range_from 0 capacity) no_index ≡ capacity - 1) =
      range_from-ends capacity (omega arith) in
    subst (λ (p : Placed). IsWhole p.cache [] (range_from 0 capacity)) (ok_inj done)
      (record {
        lists = record {
          one = record { indices = tt; head = refl; tail = refl; chain = tt };
          other = record {
            indices = rw length_s (range_from-AreIndices capacity 0 capacity (omega arith) small);
            head = sym ends.0;
            tail = sym ends.1;
            chain =
                range_from-Chain s capacity 0 capacity
                  (λ j inside. linked-links capacity memory j whole small inside) (omega arith);
          };
          apart = tt;
        };
        covered = λ i inside. inr (In-range_from 0 capacity i (omega arith) (omega arith));
        size = omega (arith, length-range_from 0 capacity);
        some = omega arith;
      })
