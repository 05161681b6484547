-- ===== src/Cache/Lru/Entries.antt =====
-- The entries of the elements of a list of cache.c, and where an IP stands among them.
use hipermap.Common.{
  ℕ, suc, ◌≤◌, ◌<◌, ltb, get_or-set_self, get_or-set_ne, ◌≡◌, ◌≢◌, ◌⊎◌, inl, inr, refl, sym, ap,
  ◌∙◌, arith, true, false, none, some, List, [], ◌∷◌, ◌++◌, map, length, In, ◌==◌, eq_cases,
}
use hipermap.Cache.{Element, at, no_element, set_value}
use hipermap.Cache.Chain.{keep}
use hipermap.Cache.Lru.{find, erase, oldest, drop_oldest, is_found, displaced, insert}

abbrev pub entry : List Element → ℕ → ℕ × ℕ
entry s i = ((at s i).ip, (at s i).value)

abbrev pub entries : List Element → List ℕ → List (ℕ × ℕ)
entries s xs = map (entry s) xs

pub entries_cong :
    (s t : List Element) (xs : List ℕ)
    → ((y : ℕ) → In y xs → entry t y ≡ entry s y)
    → entries t xs ≡ entries s xs
entries_cong s t [] h = refl
entries_cong s t (x ∷ xs) h = rw (h x (inl refl), entries_cong s t xs (λ y i. h y (inr i))) refl

pub length-entries : (s : List Element) (xs : List ℕ) → length (entries s xs) ≡ length xs
length-entries s [] = refl
length-entries s (x ∷ xs) = ap suc (length-entries s xs)

-- No element has the IP.
pub record IsAbsent (ip : ℕ) (s : List Element) (xs : List ℕ) : Type 0 where
  pub other : (y : ℕ) → In y xs → (at s y).ip ≢ ip
  pub found : find ip (entries s xs) ≡ none

-- The element `x` has the IP, between `ys` and `zs`.
pub record IsAt (ip : ℕ) (s : List Element) (xs ys : List ℕ) (x : ℕ) (zs : List ℕ) : Type 0 where
  pub parts : xs ≡ ys ++ (x ∷ zs)
  pub here : (at s x).ip ≡ ip
  pub found : find ip (entries s xs) ≡ some (at s x).value
  pub erased : erase ip (entries s xs) ≡ entries s (ys ++ zs)

abbrev pub Place : ℕ → List Element → List ℕ → Type 0
Place ip s xs = IsAbsent ip s xs ⊎ ((ys : List ℕ) × (x : ℕ) × (zs : List ℕ) × IsAt ip s xs ys x zs)

pub place : (ip : ℕ) (s : List Element) (xs : List ℕ) → Place ip s xs
place ip s [] = inl (record { other = λ y i. absurd i; found = refl })
place ip s (x ∷ xs) = elim (eq_cases (at s x).ip ip) [
  | inl here ↦
      let test : ((at s x).ip == ip) ≡ true = ground arith in
      inr (
        [],
        x,
        xs,
        record { parts = refl; here = here; found = rw test refl; erased = rw test refl },
      )
  | inr away ↦
      let test : ((at s x).ip == ip) ≡ false = ground arith in
      elim (place ip s xs) [
        | inl absent ↦ inl (record {
          other = λ y i. elim i [
            | inl e ↦ λ h. away (ap (λ (j : ℕ). (at s j).ip) (sym e) ∙ h)
            | inr j ↦ absent.other y j
          ];
          found = rw test absent.found;
        })
        | inr (ys, y, zs, h) ↦ inr (
          x ∷ ys,
          y,
          zs,
          record {
            parts = ap (x ∷◌) h.parts;
            here = h.here;
            found = rw test h.found;
            erased = rw test (ap (entry s x ∷◌) h.erased);
          },
        )
      ]
]

-- The last element of a list that has one.
pub record IsLast (s : List Element) (xs ys : List ℕ) (x : ℕ) : Type 0 where
  pub parts : xs ≡ ys ++ (x ∷ [])
  pub last : oldest (entries s xs) ≡ some (entry s x)
  pub others : drop_oldest (entries s xs) ≡ entries s ys

pub IsLast-of :
    (s : List Element) (x : ℕ) (xs : List ℕ) → (ys : List ℕ) × (y : ℕ) × IsLast s (x ∷ xs) ys y
IsLast-of s x [] = ([], x, record { parts = refl; last = refl; others = refl })
IsLast-of s x (x' ∷ xs) =
    let (ys, y, h) = IsLast-of s x' xs in
    (
      x ∷ ys,
      y,
      record { parts = ap (x ∷◌) h.parts; last = h.last; others = ap (entry s x ∷◌) h.others },
    )

-- A write of a value.
pub set_value-entry :
    (s : List Element) (x v : ℕ) → x < length s → entry (set_value s x v) x ≡ ((at s x).ip, v)
set_value-entry s x v inside =
    let new = record (at s x) { value = v } in
    let the_value : (at (set_value s x v) x).value ≡ v =
      ap (λ (e : Element). e.value) (get_or-set_self s x new no_element inside) in
    rw (keep (λ e. e.ip) s x new refl x, the_value) refl

pub set_value-entry_ne :
    (s : List Element) (x y v : ℕ) → x ≢ y → entry (set_value s x v) y ≡ entry s y
set_value-entry_ne s x y v ne =
    ap (λ (e : Element). (e.ip, e.value))
      (get_or-set_ne s x y (record (at s x) { value = v }) no_element ne)

-- What an addition does, by what is found and whether there is room.
pub found-insert :
    (room ip value v : ℕ) (l : List (ℕ × ℕ))
    → find ip l ≡ some v
    → (is_found (find ip l) ≡ true)
      × (displaced room ip l ≡ none)
      × (insert room ip value l ≡ (ip, value) ∷ erase ip l)
found-insert room ip value v l found = (rw found refl, rw found refl, rw found refl)

pub room-insert :
    (room ip value : ℕ) (l : List (ℕ × ℕ))
    → find ip l ≡ none
    → length l < room
    → (is_found (find ip l) ≡ false)
      × (displaced room ip l ≡ none)
      × (insert room ip value l ≡ (ip, value) ∷ l)
room-insert room ip value l found less =
    let test : ltb (length l) room ≡ true = ground arith in
    (rw found refl, rw (found, test) refl, rw (found, test) refl)

pub full-insert :
    (room ip value : ℕ) (l : List (ℕ × ℕ))
    → find ip l ≡ none
    → room ≤ length l
    → (is_found (find ip l) ≡ false)
      × (displaced room ip l ≡ oldest l)
      × (insert room ip value l ≡ (ip, value) ∷ drop_oldest l)
full-insert room ip value l found full =
    let test : ltb (length l) room ≡ false = ground arith in
    (rw found refl, rw (found, test) refl, rw (found, test) refl)
