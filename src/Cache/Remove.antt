-- ===== src/Cache/Remove.antt =====
-- A list without one of its elements, and with one more at its head.
use hipermap.Common.{
  ℕ, ◌<◌, ◌≡◌, ◌≢◌, ◌⊎◌, inl, inr, refl, sym, ◌∙◌, subst, arith, false, List, [], ◌∷◌, ◌++◌, length,
  All, All-mono, All-zip, ◌==◌, if◌then◌else◌,
}
use hipermap.Cache.{Element, Linked, no_index, cut}
use hipermap.Cache.Chain.{
  first_or, last_or, Chain, AreIndices, IsList, prev_of, next_of, Chain-split, Chain-join,
  Chain-relast, Chain-refirst, last_or-All,
}
use hipermap.Cache.Apart.{All-append, AreApart, AreIndices-append, append-AreIndices, present}
use hipermap.Cache.Cut.{IsRelinked, CutOut, cut-CutOut}

first_or-All : (P : ℕ → Type 0) (d : ℕ) (xs : List ℕ) → P d → All P xs → P (first_or xs d)
first_or-All P d [] p q = p
first_or-All P d (x ∷ xs) p q = q.0

pub last_or-append : (ys zs : List ℕ) (d : ℕ) → last_or (ys ++ zs) d ≡ last_or zs (last_or ys d)
last_or-append [] zs d = refl
last_or-append (y ∷ ys) zs d = last_or-append ys zs y

last_or-ne :
    (k : ℕ) (ys : List ℕ)
    → ys ≢ []
    → All (λ y. (y < k) × (y ≢ no_index)) ys
    → last_or ys no_index ≢ no_index
last_or-ne k [] some inside = absurd (some refl)
last_or-ne k (y ∷ ys) some inside =
    last_or-All (λ z. z ≢ no_index) y ys inside.0.1 (All-mono (λ z h. h.1) ys inside.1)

-- The ends after an element was taken out.
head_after :
    (k : ℕ) {h : ℕ} (ys : List ℕ) (x : ℕ) (zs : List ℕ)
    → h ≡ first_or (ys ++ (x ∷ zs)) no_index
    → All (λ y. (y < k) × (y ≢ no_index)) ys
    → (if last_or ys no_index == no_index then first_or zs no_index else h)
      ≡ first_or (ys ++ zs) no_index
head_after k [] x zs e inside = refl
head_after k (y ∷ ys) x zs e inside =
    let some : last_or (y ∷ ys) no_index ≢ no_index = last_or-ne k (y ∷ ys) (λ e. cc e) inside in
    let test : (last_or ys y == no_index) ≡ false = ground arith in rw test e

tail_after :
    (k : ℕ) {h : ℕ} (ys : List ℕ) (x : ℕ) (zs : List ℕ)
    → h ≡ last_or (ys ++ (x ∷ zs)) no_index
    → All (λ y. (y < k) × (y ≢ no_index)) zs
    → (if first_or zs no_index == no_index then last_or ys no_index else h)
      ≡ last_or (ys ++ zs) no_index
tail_after k ys x [] e inside = sym (last_or-append ys [] no_index)
tail_after k ys x (z ∷ zs) e inside =
    let some : z ≢ no_index = inside.0.1 in
    let test : (z == no_index) ≡ false = ground arith in
    rw test
      (e ∙ last_or-append ys (x ∷ z ∷ zs) no_index ∙ sym (last_or-append ys (z ∷ zs) no_index))

-- The list around an element `x`, its neighbours being the ends of the parts.
module _ (s t : List Element) (k x : ℕ) (ys zs : List ℕ) (before : AreIndices k ys)
    (after : AreIndices k zs) (apart : AreApart ys zs) (off_before : All (λ y. y ≢ x) ys)
    (off_after : All (λ z. z ≢ x) zs) (present_before : All (λ y. (y < k) × (y ≢ no_index)) ys)
    (present_after : All (λ y. (y < k) × (y ≢ no_index)) zs)
    (r : IsRelinked s t x (last_or ys no_index) (first_or zs no_index)) where
  open r use {prev_same, next_same, prev_new, next_new}

  after_off_p : All (λ z. z ≢ last_or ys no_index) zs
  after_off_p =
      last_or-All (λ w. All (λ z. z ≢ w) zs) no_index ys (All-mono (λ z h. h.1) zs present_after)
        apart

  before_off_n : All (λ y. y ≢ first_or zs no_index) ys
  before_off_n =
      All-mono (λ y h e. first_or-All (λ w. w ≢ y) no_index zs (λ e'. h.1.1 (sym e')) h.0 (sym e))
        ys (All-zip _ _ ys apart present_before)

  Chain-before : Chain s no_index ys x → Chain t no_index ys (first_or zs no_index)
  Chain-before c =
      Chain-relast s t no_index ys k x (first_or zs no_index) before
        (All-mono (λ y h. prev_same y h.0 h.1) ys (All-zip _ _ ys off_before before_off_n))
        (All-mono (λ y h ne. next_same y h ne) ys off_before)
        (λ some. next_new (last_or-ne k ys some present_before)) c

  Chain-after : Chain s x zs no_index → Chain t (last_or ys no_index) zs no_index
  Chain-after c = from_first zs after present_after off_after after_off_p prev_same prev_new c
    where
      from_first :
          (zs : List ℕ)
          → AreIndices k zs
          → All (λ y. (y < k) × (y ≢ no_index)) zs
          → All (λ z. z ≢ x) zs
          → All (λ z. z ≢ last_or ys no_index) zs
          → ((i : ℕ) → i ≢ x → i ≢ first_or zs no_index → prev_of t i ≡ prev_of s i)
          → (first_or zs no_index ≢ no_index
              → prev_of t (first_or zs no_index) ≡ last_or ys no_index)
          → Chain s x zs no_index
          → Chain t (last_or ys no_index) zs no_index
      from_first [] ok inside off_x off_p same first c = tt
      from_first (z ∷ zs') ok inside off_x off_p same first c =
          Chain-refirst s t x (last_or ys no_index) z zs' no_index (first ok.1)
            (next_same z off_x.0 off_p.0)
            (All-mono (λ y h. (same y h.0.0 h.0.1, next_same y h.0.0 h.1)) zs'
              (All-zip _ _ zs' (All-zip _ _ zs' off_x.1 ok.2) off_p.1))
            c

-- `cut` finds the neighbours of an element of a list.
pub cut-neighbours :
    (l : Linked) (ys : List ℕ) (x : ℕ) (zs : List ℕ)
    → IsList l (ys ++ (x ∷ zs))
    → CutOut l (cut l x) x (last_or ys no_index) (first_or zs no_index)
cut-neighbours l ys x zs list =
    let k = length l.storage in
    let (before, (x_in, x_ne, off_after, after), apart) =
      AreIndices-append k ys (x ∷ zs) list.indices in
    let (_, (prev_x, next_x, _)) = Chain-split l.storage no_index ys (x ∷ zs) no_index list.chain in
    let off_before : All (λ y. y ≢ x) ys = All-mono (λ y h e. h.0 (sym e)) ys apart in
    cut-CutOut l x (last_or ys no_index) (first_or zs no_index) prev_x next_x x_in
      (last_or-All (λ p. (p ≡ no_index) ⊎ (p < k)) no_index ys (inl refl)
        (All-mono (λ y h. inr h.0) ys (present k ys before)))
      (first_or-All (λ p. (p ≡ no_index) ⊎ (p < k)) no_index zs (inl refl)
        (All-mono (λ y h. inr h.0) zs (present k zs after)))
      (last_or-All (λ p. p ≢ x) no_index ys (λ e. x_ne (sym e)) off_before)
      (first_or-All (λ p. p ≢ x) no_index zs (λ e. x_ne (sym e)) off_after)

-- `cut` takes an element out of a list: the others keep their order, and it is linked to none.
pub cut-IsList :
    (l : Linked) (ys : List ℕ) (x : ℕ) (zs : List ℕ)
    → IsList l (ys ++ (x ∷ zs))
    → IsList (cut l x) (ys ++ zs)
      × (prev_of (cut l x).storage x ≡ no_index)
      × (next_of (cut l x).storage x ≡ no_index)
cut-IsList l ys x zs list =
    let k = length l.storage in
    let (before, (x_in, x_ne, off_after, after), apart) =
      AreIndices-append k ys (x ∷ zs) list.indices in
    let (chain_before, (prev_x, next_x, chain_after)) =
      Chain-split l.storage no_index ys (x ∷ zs) no_index list.chain in
    let off_before : All (λ y. y ≢ x) ys = All-mono (λ y h e. h.0 (sym e)) ys apart in
    let apart' : AreApart ys zs = All-mono (λ y h. h.1) ys apart in
    let inside_before = present k ys before in
    let inside_after = present k zs after in
    let c = cut-neighbours l ys x zs list in
    let t = (cut l x).storage in
    (
      record {
        indices =
            subst (λ (m : ℕ). AreIndices m (ys ++ zs)) (sym c.relinked.same_length)
              (append-AreIndices k ys zs before after apart');
        head = c.new_head ∙ head_after k ys x zs list.head inside_before;
        tail = c.new_tail ∙ tail_after k ys x zs list.tail inside_after;
        chain =
            Chain-join t no_index ys zs no_index
              (Chain-before l.storage t k x ys zs before after apart' off_before off_after
                inside_before inside_after c.relinked chain_before)
              (Chain-after l.storage t k x ys zs before after apart' off_before off_after
                inside_before inside_after c.relinked chain_after);
      },
      c.relinked.prev_self,
      c.relinked.next_self,
    )

-- The elements of another list keep their links.
pub cut-same :
    (l : Linked) (ys : List ℕ) (x : ℕ) (zs fs : List ℕ)
    → IsList l (ys ++ (x ∷ zs))
    → AreIndices (length l.storage) fs
    → AreApart (ys ++ (x ∷ zs)) fs
    → All
        (λ f.
          (prev_of (cut l x).storage f ≡ prev_of l.storage f)
          × (next_of (cut l x).storage f ≡ next_of l.storage f))
        fs
cut-same l ys x zs fs list others apart =
    let c = cut-neighbours l ys x zs list in
    let (apart_before, (off_x, apart_after)) = All-append _ ys (x ∷ zs) apart in
    let inside = All-mono (λ f h. h.1) fs (present (length l.storage) fs others) in
    let off_p : All (λ f. f ≢ last_or ys no_index) fs =
      last_or-All (λ w. All (λ f. f ≢ w) fs) no_index ys inside apart_before in
    let off_n : All (λ f. f ≢ first_or zs no_index) fs =
      first_or-All (λ w. All (λ f. f ≢ w) fs) no_index zs inside apart_after in
    All-mono (λ f h. (c.relinked.prev_same f h.0 h.1.1, c.relinked.next_same f h.0 h.1.0)) fs
      (All-zip _ _ fs off_x (All-zip _ _ fs off_p off_n))
