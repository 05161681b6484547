-- ===== src/Slots/PutAll.antt =====
-- The loop over the keys: what the table holds when every key found a slot.
use mathlib.Core.List.{mem-cons}
use mathlib.Core.Logic.Or
use hipermap.Common.{
  ℕ, ◌+◌, ◌≡◌, ◌≢◌, refl, sym, ap, ◌∙◌, ◌⊎◌, inl, inr, arith, List, [], ◌∷◌, Mem, length,
  length-set, All,
}
use hipermap.Slots.{CellType, Attempt, filled, duplicate, collision, put, put_all}
use hipermap.Slots.Group.{IsBase, Holds, Holds-set_inv, Holds-set_self, Holds-set_keep}
use hipermap.Slots.Put.{put-Placed, put-ne-duplicate, Lacks, Lacks-Holds, Lacks-of_Holds}

pub Attempt-cases :
    {A : Type 0} (a : Attempt A)
    → ((t : List A) × (a ≡ filled t)) ⊎ ((a ≡ duplicate) ⊎ (a ≡ collision))
Attempt-cases (filled t) = inl (t, refl)
Attempt-cases duplicate = inr (inl refl)
Attempt-cases collision = inr (inr refl)

module _ {A : Type 0} (cell : CellType A) where
  open cell use {key, empty}

  -- The keys of the cells are pairwise different.
  abbrev pub Distinct : List A → Type 0
  Distinct [] = Unit
  Distinct (c ∷ cs) = All (λ d. key d ≢ key c) cs × Distinct cs

  -- No cell has key 0.
  abbrev pub NonZero : List A → Type 0
  NonZero cs = All (λ c. key c ≢ 0) cs

module _ {A : Type 0} (cell : CellType A) (bucket_of : ℕ → ℕ) (n : ℕ)
    (bases : (k : ℕ) → IsBase n (bucket_of k)) where
  open cell use {key, empty}

  put_all-cons :
      (c : A) (cs t : List A) {t' : List A}
      → put_all cell bucket_of (c ∷ cs) t ≡ filled t'
      → (t1 : List A) × (put cell t (bucket_of (key c)) c ≡ filled t1)
        × (put_all cell bucket_of cs t1 ≡ filled t')
  unfolding put_all
  put_all-cons c cs t h = elim (Attempt-cases (put cell t (bucket_of (key c)) c)) [
    | inl (t1, e) ↦ (t1, e, rw (e, put_all) at h)
    | inr (inl e) ↦ cc (rw (e, put_all) at h)
    | inr (inr e) ↦ cc (rw (e, put_all) at h)
  ]

  put_all-nil : (t : List A) {t' : List A} → put_all cell bucket_of [] t ≡ filled t' → t ≡ t'
  unfolding put_all
  put_all-nil t h = ground arith

  pub length-put :
      (c : A) (t : List A) {t1 : List A}
      → length t ≡ n
      → put cell t (bucket_of (key c)) c ≡ filled t1
      → length t1 ≡ n
  length-put c t l h =
      let p = put-Placed cell t (bucket_of (key c)) c h in
      ap length p.written ∙ length-set t (bucket_of (key c) + p.slot) c ∙ l

  put-keep :
      (c : A) (t : List A) (b : ℕ) (d : A) {t1 : List A}
      → put cell t (bucket_of (key c)) c ≡ filled t1
      → key d ≢ 0
      → Holds cell t b d
      → Holds cell t1 b d
  put-keep c t b d h nonzero held =
      let p = put-Placed cell t (bucket_of (key c)) c h in
      rw p.written (Holds-set_keep cell t (bucket_of (key c) + p.slot) c b d p.free nonzero held)

  put-stores :
      (c : A) (t : List A) {t1 : List A}
      → length t ≡ n
      → put cell t (bucket_of (key c)) c ≡ filled t1
      → Holds cell t1 (bucket_of (key c)) c
  put-stores c t l h =
      let p = put-Placed cell t (bucket_of (key c)) c h in
      rw p.written
        (Holds-set_self cell t (bucket_of (key c)) p.slot c (rw l (bases (key c))) p.slot_in)

  put-only :
      (c : A) (t : List A) (k : ℕ) (d : A) {t1 : List A}
      → length t ≡ n
      → put cell t (bucket_of (key c)) c ≡ filled t1
      → Holds cell t1 (bucket_of k) d
      → Holds cell t (bucket_of k) d ⊎ (d ≡ c)
  put-only c t k d l h held =
      let p = put-Placed cell t (bucket_of (key c)) c h in
      elim (Holds-set_inv cell t (bucket_of (key c)) p.slot c (bucket_of k) d (rw l (bases (key c)))
        p.slot_in (rw l (bases k)) (rw p.written at held)) [
          | inl old ↦ inl old
          | inr (new, _) ↦ inr new
        ]

  -- The table keeps its length.
  pub length-put_all :
      (cs t : List A) {t' : List A}
      → length t ≡ n
      → put_all cell bucket_of cs t ≡ filled t'
      → length t' ≡ n
  length-put_all [] t l h = sym (ap length (put_all-nil t h)) ∙ l
  length-put_all (c ∷ cs) t l h =
      let (t1, e, rest) = put_all-cons c cs t h in length-put_all cs t1 (length-put c t l e) rest

  -- A cell that is held stays held.
  pub put_all-keep :
      (cs t : List A) (b : ℕ) (d : A) {t' : List A}
      → put_all cell bucket_of cs t ≡ filled t'
      → key d ≢ 0
      → Holds cell t b d
      → Holds cell t' b d
  put_all-keep [] t b d h nonzero held = rw (← put_all-nil t h) held
  put_all-keep (c ∷ cs) t b d h nonzero held =
      let (t1, e, rest) = put_all-cons c cs t h in
      put_all-keep cs t1 b d rest nonzero (put-keep c t b d e nonzero held)

  -- Every cell that was put is held by its group.
  pub put_all-stores :
      (cs t : List A) {t' : List A}
      → length t ≡ n
      → NonZero cell cs
      → put_all cell bucket_of cs t ≡ filled t'
      → All (λ c. Holds cell t' (bucket_of (key c)) c) cs
  put_all-stores [] t l z h = tt
  put_all-stores (c ∷ cs) t l z h =
      let (t1, e, rest) = put_all-cons c cs t h in
      (
        put_all-keep cs t1 (bucket_of (key c)) c rest z.0 (put-stores c t l e),
        put_all-stores cs t1 (length-put c t l e) z.1 rest,
      )

  -- A cell that a group holds was there before or was put.
  pub put_all-only :
      (cs t : List A) (k : ℕ) (d : A) {t' : List A}
      → length t ≡ n
      → put_all cell bucket_of cs t ≡ filled t'
      → Holds cell t' (bucket_of k) d
      → Holds cell t (bucket_of k) d ⊎ Mem d cs
  put_all-only [] t k d l h held = inl (rw (put_all-nil t h) held)
  put_all-only (c ∷ cs) t k d l h held =
      let (t1, e, rest) = put_all-cons c cs t h in
      elim (put_all-only cs t1 k d (length-put c t l e) rest held) [
        | inr put ↦ inr (mem-cons.1 (Or.inr put))
        | inl before ↦ elim (put-only c t k d l e before) [
          | inl old ↦ inl old
          | inr new ↦ inr (mem-cons.1 (Or.inl new))
        ]
      ]

  -- A key that a group holds is not put again.
  put_all-apart :
      (cs t : List A) (d : A) {t' : List A}
      → length t ≡ n
      → key d ≢ 0
      → Holds cell t (bucket_of (key d)) d
      → put_all cell bucket_of cs t ≡ filled t'
      → All (λ c. key c ≢ key d) cs
  put_all-apart [] t d l nonzero held h = tt
  put_all-apart (c ∷ cs) t d l nonzero held h =
      let (t1, e, rest) = put_all-cons c cs t h in
      let p = put-Placed cell t (bucket_of (key c)) c e in
      (
        λ same. Lacks-Holds cell t (bucket_of (key c)) d (key c) p.fresh (rw same held) (sym same),
        put_all-apart cs t1 d (length-put c t l e) nonzero
            (put-keep c t (bucket_of (key d)) d e nonzero held) rest,
      )

  -- Keys that all found a slot are pairwise different.
  pub put_all-Distinct :
      (cs t : List A) {t' : List A}
      → length t ≡ n
      → NonZero cell cs
      → put_all cell bucket_of cs t ≡ filled t'
      → Distinct cell cs
  put_all-Distinct [] t l z h = tt
  put_all-Distinct (c ∷ cs) t l z h =
      let (t1, e, rest) = put_all-cons c cs t h in
      let l1 = length-put c t l e in
      (put_all-apart cs t1 c l1 z.0 (put-stores c t l e) rest, put_all-Distinct cs t1 l1 z.1 rest)

  -- The groups of the cells lack their keys.
  abbrev pub IsFresh : List A → List A → Type 0
  IsFresh t cs = All (λ c. Lacks cell t (bucket_of (key c)) (key c)) cs

  pub IsFresh-put :
      (c : A) (cs t : List A) {t1 : List A}
      → length t ≡ n
      → put cell t (bucket_of (key c)) c ≡ filled t1
      → All (λ d. key d ≢ key c) cs
      → IsFresh t cs
      → IsFresh t1 cs
  IsFresh-put c [] t l e apart fresh = tt
  IsFresh-put c (d ∷ cs) t {t1} l e apart fresh = (
    Lacks-of_Holds cell t1 (bucket_of (key d)) (key d) λ x held same.
        elim (put-only c t (key d) x l e held) [
          | inl old ↦ Lacks-Holds cell t (bucket_of (key d)) x (key d) fresh.0 old same
          | inr new ↦ apart.0 (sym same ∙ ap key new)
        ],
    IsFresh-put c cs t l e apart.1 fresh.1,
  )

  -- Different keys that are new to the table are not reported as duplicates.
  pub put_all-ne-duplicate :
      (cs t : List A)
      → length t ≡ n
      → Distinct cell cs
      → IsFresh t cs
      → put_all cell bucket_of cs t ≢ duplicate
  put_all-ne-duplicate [] t l distinct fresh h = unfold put_all in cc h
  put_all-ne-duplicate (c ∷ cs) t l distinct fresh h =
      elim (Attempt-cases (put cell t (bucket_of (key c)) c)) [
        | inl (t1, e) ↦
            put_all-ne-duplicate cs t1 (length-put c t l e) distinct.1
              (IsFresh-put c cs t l e distinct.0 fresh.1) (unfold put_all in rw (e, put_all) at h)
        | inr (inl e) ↦ put-ne-duplicate cell t (bucket_of (key c)) c fresh.0 e
        | inr (inr e) ↦ unfold put_all in cc (rw (e, put_all) at h)
      ]
