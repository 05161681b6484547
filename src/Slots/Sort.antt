-- ===== src/Slots/Sort.antt =====
-- `qsort` on each group. All that is used of the C library's `qsort` is that it permutes.
use mathlib.Core.List.{Perm, Permᴰ, mem-cons, not-mem-nil}
use mathlib.Core.List.Perm
use mathlib.Core.Logic.{∥∥₁_elim, ∥∥₁_map}
use mathlib.Core.Logic.Or
use native.Mathlib.Nat.{ℕ_set}
use hipermap.Common.{
  ℕ, zero, suc, ◌+◌, ◌≤◌, ◌<◌, ◌≡◌, refl, sym, ap, ◌∙◌, subst, arith, List, [], ◌∷◌, ◌++◌, Mem,
  length, length-append, get_or, take, drop,
}
use hipermap.Slots.{CellType, sort_groups}
use hipermap.Slots.Group.{IsBase, Holds}

module _ {A : Type 0} where
  length-Permᴰ : {xs ys : List A} → Permᴰ xs ys → length xs ≡ length ys
  length-Permᴰ Permᴰ.nil = refl
  length-Permᴰ (Permᴰ.cons e p) = ap suc (length-Permᴰ p)
  length-Permᴰ (Permᴰ.swap e f) = refl
  length-Permᴰ (Permᴰ.trans p q) = length-Permᴰ p ∙ length-Permᴰ q

  pub length-Perm : {xs ys : List A} → Perm xs ys → length xs ≡ length ys
  length-Perm p = ∥∥₁_elim p (ℕ_set _ _) length-Permᴰ

  take_four : (q r : List A) → length q ≡ 4 → take 4 (q ++ r) ≡ q
  take_four [] r h = absurd (omega arith)
  take_four (a ∷ []) r h = absurd (omega arith)
  take_four (a ∷ b ∷ []) r h = absurd (omega arith)
  take_four (a ∷ b ∷ c ∷ []) r h = absurd (omega arith)
  take_four (a ∷ b ∷ c ∷ d ∷ []) r h = refl
  take_four (a ∷ b ∷ c ∷ d ∷ e ∷ q) r h = absurd (omega arith)

  drop_four :
      (q r : List A) (n : ℕ) → length q ≡ 4 → drop (suc (suc (suc (suc n)))) (q ++ r) ≡ drop n r
  drop_four [] r n h = absurd (omega arith)
  drop_four (a ∷ []) r n h = absurd (omega arith)
  drop_four (a ∷ b ∷ []) r n h = absurd (omega arith)
  drop_four (a ∷ b ∷ c ∷ []) r n h = absurd (omega arith)
  drop_four (a ∷ b ∷ c ∷ d ∷ []) r n h = refl
  drop_four (a ∷ b ∷ c ∷ d ∷ e ∷ q) r n h = absurd (omega arith)

  get_or-drop : (t : List A) (b s : ℕ) (d : A) → get_or (drop b t) s d ≡ get_or t (b + s) d
  get_or-drop t zero s d = let e : s ≡ 0 + s = omega arith in ap (λ i. get_or t i d) e
  get_or-drop [] (suc b) s d = refl
  get_or-drop (x ∷ t) (suc b) s d =
      let e : suc (b + s) ≡ suc b + s = omega arith in
      get_or-drop t b s d ∙ ap (λ i. get_or (x ∷ t) i d) e

  length-drop : (t : List A) (b n : ℕ) → b + n ≤ length t → n ≤ length (drop b t)
  length-drop t zero n h = omega arith
  length-drop [] (suc b) n h = omega arith
  length-drop (x ∷ t) (suc b) n h = length-drop t b n (omega arith)

  -- The members of the first four places.
  mem_take : (u : List A) (s : ℕ) (d : A) → 4 ≤ length u → s < 4 → Mem (get_or u s d) (take 4 u)
  mem_take [] s d l h = absurd (omega arith)
  mem_take (x ∷ []) s d l h = absurd (omega arith)
  mem_take (x ∷ y ∷ []) s d l h = absurd (omega arith)
  mem_take (x ∷ y ∷ z ∷ []) s d l h = absurd (omega arith)
  mem_take (x ∷ y ∷ z ∷ w ∷ u) zero d l h = mem-cons.1 (Or.inl refl)
  mem_take (x ∷ y ∷ z ∷ w ∷ u) (suc zero) d l h = mem-cons.1 (Or.inr (mem-cons.1 (Or.inl refl)))
  mem_take (x ∷ y ∷ z ∷ w ∷ u) (suc (suc zero)) d l h =
      mem-cons.1 (Or.inr (mem-cons.1 (Or.inr (mem-cons.1 (Or.inl refl)))))
  mem_take (x ∷ y ∷ z ∷ w ∷ u) (suc (suc (suc zero))) d l h =
      mem-cons.1 (Or.inr (mem-cons.1 (Or.inr (mem-cons.1 (Or.inr (mem-cons.1 (Or.inl refl)))))))
  mem_take (x ∷ y ∷ z ∷ w ∷ u) (suc (suc (suc (suc s)))) d l h = absurd (omega arith)

  place_of_mem :
      (n : ℕ) (u : List A) (c d : A)
      → Mem c (take n u)
      → ∥ ((s : ℕ) × (s < n) × (get_or u s d ≡ c)) ∥₁
  place_of_mem zero u c d m = absurd (not-mem-nil m)
  place_of_mem (suc n) [] c d m = absurd (not-mem-nil m)
  place_of_mem (suc n) (x ∷ u) c d m =
      Or.elim squash₁ (mem-cons.0 m) (λ e. ∣ (0, omega arith, sym e) ∣₁)
        (λ m'. ∥∥₁_map (place_of_mem n u c d m') λ p. (suc p.0, omega arith, p.2))

  -- The group at `b` as a list.
  abbrev pub group : List A → ℕ → List A
  group t b = take 4 (drop b t)

module _ {A : Type 0} (qsort : List A → List A)
    (permutes : (xs : List A) → Perm (qsort xs) xs) where
  pub length-sort_groups : (t : List A) → length (sort_groups qsort t) ≡ length t
  unfolding sort_groups
  length-sort_groups (c ∷ d ∷ e ∷ f ∷ t) = omega (
    arith,
    length-append (qsort (c ∷ d ∷ e ∷ f ∷ [])) (sort_groups qsort t),
    length-Perm (permutes (c ∷ d ∷ e ∷ f ∷ [])),
    length-sort_groups t,
  )
  length-sort_groups _ = refl

  -- Each group is sorted by itself.
  group-sort_groups :
      (t : List A) (b : ℕ) → IsBase (length t) b → group (sort_groups qsort t) b ≡ qsort (group t b)
  unfolding sort_groups
  group-sort_groups [] b base = absurd (omega arith)
  group-sort_groups (c ∷ []) b base = absurd (omega arith)
  group-sort_groups (c ∷ d ∷ []) b base = absurd (omega arith)
  group-sort_groups (c ∷ d ∷ e ∷ []) b base = absurd (omega arith)
  group-sort_groups (c ∷ d ∷ e ∷ f ∷ t) zero base =
      take_four (qsort (c ∷ d ∷ e ∷ f ∷ [])) (sort_groups qsort t)
        (length-Perm (permutes (c ∷ d ∷ e ∷ f ∷ [])))
  group-sort_groups (c ∷ d ∷ e ∷ f ∷ t) (suc zero) base = absurd (omega arith)
  group-sort_groups (c ∷ d ∷ e ∷ f ∷ t) (suc (suc zero)) base = absurd (omega arith)
  group-sort_groups (c ∷ d ∷ e ∷ f ∷ t) (suc (suc (suc zero))) base = absurd (omega arith)
  group-sort_groups (c ∷ d ∷ e ∷ f ∷ t) (suc (suc (suc (suc b)))) base =
      ap (take 4) (
        drop_four (qsort (c ∷ d ∷ e ∷ f ∷ [])) (sort_groups qsort t) b
          (length-Perm (permutes (c ∷ d ∷ e ∷ f ∷ []))))
      ∙ group-sort_groups t b (omega arith)

module _ {A : Type 0} (cell : CellType A) where
  pub Mem_of_Holds :
      (t : List A) (b : ℕ) (c : A) → b + 4 ≤ length t → Holds cell t b c → Mem c (group t b)
  Mem_of_Holds t b c inside (s, hs, e) =
      subst (λ x. Mem x (group t b)) (get_or-drop t b s cell.empty ∙ e)
        (mem_take (drop b t) s cell.empty (length-drop t b 4 inside) hs)

  pub Holds-of_Mem : (t : List A) (b : ℕ) (c : A) → Mem c (group t b) → ∥ Holds cell t b c ∥₁
  Holds-of_Mem t b c m =
      ∥∥₁_map (place_of_mem 4 (drop b t) c cell.empty m)
        λ p. (p.0, p.1, sym (get_or-drop t b p.0 cell.empty) ∙ p.2)

  -- Sorting the groups moves no cell from one group to another.
  pub Holds-sort_groups :
      (qsort : List A → List A) (permutes : (xs : List A) → Perm (qsort xs) xs) (t : List A) (b : ℕ)
      (c : A)
      → IsBase (length t) b
      → (Holds cell t b c → ∥ Holds cell (sort_groups qsort t) b c ∥₁)
        × (Holds cell (sort_groups qsort t) b c → ∥ Holds cell t b c ∥₁)
  Holds-sort_groups qsort permutes t b c base = (
    λ h. Holds-of_Mem (sort_groups qsort t) b c (
        rw (group-sort_groups qsort permutes t b base)
          (Perm.subset (Perm.symm (permutes (group t b))) c (Mem_of_Holds t b c base.inside h))),
    λ h. Holds-of_Mem t b c (
        Perm.subset (permutes (group t b)) c (
          rw (group-sort_groups qsort permutes t b base) at (
            Mem_of_Holds (sort_groups qsort t) b c
              (rw (length-sort_groups qsort permutes t) (base.inside)) h))),
  )
