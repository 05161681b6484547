-- ===== src/Examples/Sort.antt =====
-- A `qsort`: insertion sort by a comparison. It stands for the C library's in the examples.
use mathlib.Core.List.{Perm, Permᴰ}
use mathlib.Core.List.Permᴰ
use Prim.Native.Nat.{Ordering, lt, eq, gt}
use hipermap.Common.{refl, List, [], ◌∷◌}

module _ {A : Type 0} (comp : A → A → Ordering) where
  abbrev pub place : Ordering → List A → List A → List A
  place lt later here = later
  place eq later here = later
  place gt later here = here

  place-Perm :
      (o : Ordering) (xs ys zs : List A) → Permᴰ xs zs → Permᴰ ys zs → Permᴰ (place o xs ys) zs
  place-Perm lt xs ys zs a b = a
  place-Perm eq xs ys zs a b = a
  place-Perm gt xs ys zs a b = b

  abbrev pub insert : A → List A → List A
  insert k [] = k ∷ []
  insert k (x ∷ xs) = let rest = insert k xs in place (comp x k) (x ∷ rest) (k ∷ x ∷ xs)

  abbrev pub sort : List A → List A
  sort [] = []
  sort (x ∷ xs) = insert x (sort xs)

  insert-Perm : (k : A) (xs : List A) → Permᴰ (insert k xs) (k ∷ xs)
  insert-Perm k [] = Permᴰ.refl (k ∷ [])
  insert-Perm k (x ∷ xs) =
      let after : Permᴰ (x ∷ insert k xs) (k ∷ x ∷ xs) =
        Permᴰ.trans (Permᴰ.cons refl (insert-Perm k xs)) (Permᴰ.swap refl refl) in
      place-Perm (comp x k) (x ∷ insert k xs) (k ∷ x ∷ xs) (k ∷ x ∷ xs) after
        (Permᴰ.refl (k ∷ x ∷ xs))

  sort-Permᴰ : (xs : List A) → Permᴰ (sort xs) xs
  sort-Permᴰ [] = Permᴰ.nil
  sort-Permᴰ (x ∷ xs) = Permᴰ.trans (insert-Perm x (sort xs)) (Permᴰ.cons refl (sort-Permᴰ xs))

  pub sort-Perm : (xs : List A) → Perm (sort xs) xs
  sort-Perm xs = ∣ sort-Permᴰ xs ∣₁
