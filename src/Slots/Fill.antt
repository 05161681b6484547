-- ===== src/Slots/Fill.antt =====
-- The free slots of the group that key 0 selects get a key of another group.
use Prim.Native.Nat.{bit_and}
use hipermap.Common.{
  ℕ, zero, suc, ◌+◌, ◌≤◌, ◌%◌, ◌<◌, ◌≡◌, ◌≢◌, sym, ap, ◌∙◌, subst, ◌⊎◌, inl, inr, arith, List, true,
  Bool-cases, eq_cases, length, set, length-set, get_or-set_self, get_or-set_ne, ok, >>=-eq-ok,
  ◌==◌,
}
use hipermap.Slots.{CellType, read, bump_until, fill_slot, fill_slots}
use hipermap.Slots.Group.{Holds}

in_range_cases : (i left j : ℕ) → ((j < i) ⊎ (i + left ≤ j)) ⊎ ((i ≤ j) × (j < i + left))
in_range_cases i left j = ground arith

module _ {A : Type 0} (cell : CellType A) (bucket_of : ℕ → ℕ) where
  open cell use {key, empty, bump}

  -- The search for a filler ends at a key of another group.
  bump_until-ne :
      (fuel home : ℕ) (c : A) {c' : A}
      → bump_until cell fuel bucket_of home c ≡ ok c'
      → bucket_of (key c') ≢ home
  unfolding bump_until
  bump_until-ne zero home c h = cc h
  bump_until-ne (suc fuel) home c h = elim (Bool-cases (bucket_of (key (bump c)) == home)) [
    | inl again ↦ bump_until-ne fuel home (bump c) (rw again at h)
    | inr stop ↦ ground arith
  ]

  -- A slot after filling: as it was, with a key, or a filler of another group.
  abbrev pub IsFilled : ℕ → A → A → Type 0
  IsFilled home c c' = ((c' ≡ c) × (key c ≢ 0)) ⊎ ((key c ≡ 0) × (bucket_of (key c') ≢ home))

  fill_slot-inv :
      (fuel mask home : ℕ) (t : List A) (i : ℕ) {t' : List A}
      → i < length t
      → bit_and i mask ≡ home
      → fill_slot cell fuel mask bucket_of t i ≡ ok t'
      → (length t' ≡ length t)
        × ((j : ℕ) → i ≢ j → read cell t' j ≡ read cell t j)
        × IsFilled home (read cell t i) (read cell t' i)
  unfolding fill_slot
  fill_slot-inv fuel mask home t i {t'} inside e h = elim (eq_cases (key (read cell t i)) 0) [
    | inr taken ↦
        let same : t ≡ t' = ground arith in
        (
          ap length (sym same),
          λ j ne. ap (λ u. read cell u j) (sym same),
          inl (ap (λ u. read cell u i) (sym same), taken),
        )
    | inl free ↦
        let free' : (key (read cell t i) == 0) ≡ true = ground arith in
        let (c, found, e') =
          >>=-eq-ok (bump_until cell fuel bucket_of (bit_and i mask) (read cell t i)) _
            (rw free' at h) in
        let written : set t i c ≡ t' = ground arith in
        (
          ap length (sym written) ∙ length-set t i c,
          λ j ne. ap (λ u. read cell u j) (sym written) ∙ get_or-set_ne t i j c empty ne,
          inr (
            free,
            λ p. bump_until-ne fuel (bit_and i mask) (read cell t i) found (
                ap (λ (x : A). bucket_of (key x))
                  (sym (ap (λ u. read cell u i) (sym written) ∙ get_or-set_self t i c empty inside))
                ∙ p
                ∙ sym e),
          ),
        )
  ]

  -- The slots from `i` on, `left` of them, are filled, and no other slot changes.
  pub record AreFilled (home i left : ℕ) (t t' : List A) : Type 0 where
    pub same_length : length t' ≡ length t
    pub outside : (j : ℕ) → (j < i) ⊎ (i + left ≤ j) → read cell t' j ≡ read cell t j
    pub within : (j : ℕ) → i ≤ j → j < i + left → IsFilled home (read cell t j) (read cell t' j)

  pub fill_slots-AreFilled :
      (fuel mask home left i : ℕ) (t : List A) {t' : List A}
      → i + left ≤ length t
      → ((j : ℕ) → i ≤ j → j < i + left → bit_and j mask ≡ home)
      → fill_slots cell fuel mask bucket_of left i t ≡ ok t'
      → AreFilled home i left t t'
  unfolding fill_slots
  fill_slots-AreFilled fuel mask home zero i t {t'} inside at_home h =
      let same : t ≡ t' = ground arith in
      record {
        same_length = ap length (sym same);
        outside = λ j out. ap (λ u. read cell u j) (sym same);
        within = λ j p q. absurd (omega arith);
      }
  fill_slots-AreFilled fuel mask home (suc left) i t {t'} inside at_home h =
      let (t1, first, rest) = >>=-eq-ok (fill_slot cell fuel mask bucket_of t i) _ h in
      let (l1, others, filled) =
        fill_slot-inv fuel mask home t i (omega arith) (at_home i (omega arith) (omega arith))
          first in
      let r =
        fill_slots-AreFilled fuel mask home left (i + 1) t1 (omega arith)
          (λ j p q. at_home j (omega arith) (omega arith)) rest in
      record {
        same_length = r.same_length ∙ l1;
        outside = λ j out. r.outside j (omega arith) ∙ others j (omega arith);
        within = λ j p q. elim (eq_cases i j) [
          | inl here ↦
              subst (λ k. IsFilled home (read cell t k) (read cell t' k)) here
                (rw (r.outside i (omega arith)) filled)
          | inr later ↦ rw (← others j later) (r.within j (omega arith) (omega arith))
        ];
      }

  -- A cell with a key survives the filling.
  pub AreFilled-keep :
      {home i left : ℕ} {t t' : List A} (b : ℕ) (d : A)
      → AreFilled home i left t t'
      → key d ≢ 0
      → Holds cell t b d
      → Holds cell t' b d
  AreFilled-keep {home} {i} {left} {t} {t'} b d f nonzero (s, hs, e) =
      (s, hs, stays (b + s) e (in_range_cases i left (b + s)))
    where
      stays :
          (j : ℕ)
          → read cell t j ≡ d
          → ((j < i) ⊎ (i + left ≤ j)) ⊎ ((i ≤ j) × (j < i + left))
          → read cell t' j ≡ d
      stays j e (inl out) = f.outside j out ∙ e
      stays j e (inr (p, q)) = elim (f.within j p q) [
        | inl (same, _) ↦ same ∙ e
        | inr (free, _) ↦ absurd (nonzero (sym (ap key e) ∙ free))
      ]

  -- What a group holds after the filling it held before, or it is a filler of key 0's group.
  pub AreFilled-only :
      {home : ℕ} {t t' : List A} (b : ℕ) (d : A)
      → AreFilled home home 4 t t'
      → home % 4 ≡ 0
      → b % 4 ≡ 0
      → Holds cell t' b d
      → Holds cell t b d ⊎ ((b ≡ home) × (bucket_of (key d) ≢ home))
  AreFilled-only {home} {t} {t'} b d f aligned aligned' (s, hs, e) =
      elim (in_range_cases home 4 (b + s)) [
        | inl out ↦ inl (s, hs, sym (f.outside (b + s) out) ∙ e)
        | inr (p, q) ↦ elim (f.within (b + s) p q) [
          | inl (same, _) ↦ inl (s, hs, sym same ∙ e)
          | inr (_, ne) ↦ inr (omega arith, λ r. ne (ap (λ (x : A). bucket_of (key x)) e ∙ r))
        ]
      ]

  -- Key 0 is in no slot of its group.
  pub AreFilled-ne-zero :
      {t t' : List A} (d : A)
      → AreFilled (bucket_of 0) (bucket_of 0) 4 t t'
      → Holds cell t' (bucket_of 0) d
      → key d ≢ 0
  AreFilled-ne-zero {t} {t'} d f (s, hs, e) zero_key =
      elim (f.within (bucket_of 0 + s) (omega arith) (omega arith)) [
        | inl (same, nonzero) ↦ nonzero (ap key (sym same ∙ e) ∙ zero_key)
        | inr (_, ne) ↦ ne (ap (λ (x : A). bucket_of (key x)) e ∙ ap bucket_of zero_key)
      ]
