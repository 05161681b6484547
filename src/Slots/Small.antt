-- ===== src/Slots/Small.antt =====
-- Up to four keys never collide, so that the first attempt succeeds.
use hipermap.Common.{
  ℕ, ◌+◌, ◌≤◌, ◌<◌, ◌≡◌, ◌≢◌, inl, inr, refl, ap, ◌∙◌, arith, List, [], ◌∷◌, length, get_or, set,
  get_or-set_ne, eq_cases, ◌==◌, replicate, get_or-replicate, if◌then◌else◌,
}
use hipermap.Slots.{CellType, read, filled, collision, put, put_all, clear_hash_table, get_buckets}
use hipermap.Slots.Group.{IsBase}
use hipermap.Slots.Put.{put-Placed, put-ne-duplicate}
use hipermap.Slots.PutAll.{Attempt-cases, Distinct, IsFresh, IsFresh-put, length-put}

module _ {A : Type 0} (cell : CellType A) where
  open cell use {key, empty}

  used : List A → ℕ → ℕ
  used t i = if key (read cell t i) == 0 then 0 else 1

  -- How many slots of the group at `b` have a key.
  pub occupied : List A → ℕ → ℕ
  unfolding used
  occupied t b = used t b + used t (b + 1) + used t (b + 2) + used t (b + 3)

  put-ne-collision : (t : List A) (b : ℕ) (c : A) → occupied t b < 4 → put cell t b c ≢ collision
  unfolding put occupied used
  put-ne-collision t b c room h = ground arith

  used-set :
      (t : List A) (w : ℕ) (c : A) (i : ℕ)
      → used (set t w c) i ≤ used t i + (if i == w then 1 else 0)
  unfolding used
  used-set t w c i = elim (eq_cases w i) [
    | inl same ↦ ground arith
    | inr other ↦ rw (get_or-set_ne t w i c empty other) (ground arith)
  ]

  -- A write adds at most one to a group.
  occupied-set : (t : List A) (w : ℕ) (c : A) (b : ℕ) → occupied (set t w c) b ≤ occupied t b + 1
  unfolding occupied
  occupied-set t w c b = ground (
    arith,
    used-set t w c b,
    used-set t w c (b + 1),
    used-set t w c (b + 2),
    used-set t w c (b + 3),
  )

  used-clear : (mask i : ℕ) → used (clear_hash_table cell mask) i ≡ 0
  unfolding used clear_hash_table
  used-clear mask i =
      let free : key (get_or (replicate (get_buckets mask) empty) i empty) ≡ 0 =
        ap key (get_or-replicate (get_buckets mask) i empty) ∙ cell.key-empty in
      rw free

  pub occupied-clear : (mask b : ℕ) → occupied (clear_hash_table cell mask) b ≤ 0
  unfolding occupied
  occupied-clear mask b = omega (
    arith,
    used-clear mask b,
    used-clear mask (b + 1),
    used-clear mask (b + 2),
    used-clear mask (b + 3),
  )

module _ {A : Type 0} (cell : CellType A) (bucket_of : ℕ → ℕ) (n : ℕ)
    (bases : (k : ℕ) → IsBase n (bucket_of k)) where
  open cell use {key, empty}

  -- As long as every group has at most `m` keys and `m` with the rest makes four, each key fits.
  pub put_all-filled :
      (cs t : List A) (m : ℕ)
      → length t ≡ n
      → m + length cs ≤ 4
      → ((k : ℕ) → occupied cell t (bucket_of k) ≤ m)
      → Distinct cell cs
      → IsFresh cell bucket_of n bases t cs
      → (t' : List A) × (put_all cell bucket_of cs t ≡ filled t')
  unfolding put_all
  put_all-filled [] t m l room bound distinct fresh = (t, refl)
  put_all-filled (c ∷ cs) t m l room bound distinct fresh =
      elim (Attempt-cases (put cell t (bucket_of (key c)) c)) [
        | inr (inl twice) ↦ absurd (put-ne-duplicate cell t (bucket_of (key c)) c fresh.0 twice)
        | inr (inr full) ↦
            absurd
              (put-ne-collision cell t (bucket_of (key c)) c (omega (arith, bound (key c))) full)
        | inl (t1, e) ↦
            let p = put-Placed cell t (bucket_of (key c)) c e in
            let (t', rest) =
              put_all-filled cs t1 (m + 1) (length-put cell bucket_of n bases c t l e) (omega arith)
                (λ k. rw p.written (
                  omega (
                    arith,
                    bound k,
                    occupied-set cell t (bucket_of (key c) + p.slot) c (bucket_of k),
                  )))
                distinct.1 (IsFresh-put cell bucket_of n bases c cs t l e distinct.0 fresh.1) in
            (t', rw (e, put_all) rest)
      ]
