-- ===== src/Slots/Put.antt =====
-- One key put into its group, and the loop over the keys.
use native.Mathlib.Nat.{add-zero}
use hipermap.Common.{
  ℕ, zero, suc, ◌+◌, ◌<◌, ◌≡◌, ◌≢◌, refl, ap, ◌∙◌, inl, inr, arith, List, eq_cases, set,
}
use hipermap.Slots.{CellType, read, filled, duplicate, put}
use hipermap.Slots.Group.{Holds}

-- A statement about four consecutive slots.
pub four_slots :
    (P : ℕ → Type 0) (b : ℕ) → P b → P (b + 1) → P (b + 2) → P (b + 3) → (s : ℕ) → s < 4 → P (b + s)
four_slots P b p q r u zero h = rw add-zero p
four_slots P b p q r u (suc zero) h = q
four_slots P b p q r u (suc (suc zero)) h = r
four_slots P b p q r u (suc (suc (suc zero))) h = u
four_slots P b p q r u (suc (suc (suc (suc s)))) h = absurd (omega arith)

module _ {A : Type 0} (cell : CellType A) where
  open cell use {key, empty}

  -- No slot of the group at `b` has the key `k`.
  abbrev pub Lacks : List A → ℕ → ℕ → Type 0
  Lacks t b k =
      (key (read cell t b) ≢ k)
      × (key (read cell t (b + 1)) ≢ k)
      × (key (read cell t (b + 2)) ≢ k)
      × (key (read cell t (b + 3)) ≢ k)

  -- A successful `put` writes the cell to a free slot of a group that lacks the key.
  pub record Placed (t : List A) (b : ℕ) (c : A) (t' : List A) : Type 0 where
    pub slot : ℕ
    pub slot_in : slot < 4
    pub free : key (read cell t (b + slot)) ≡ 0
    pub written : t' ≡ set t (b + slot) c
    pub fresh : Lacks t b (key c)

  pub put-Placed :
      (t : List A) (b : ℕ) (c : A) {t' : List A} → put cell t b c ≡ filled t' → Placed t b c t'
  unfolding put
  put-Placed t b c {t'} h = elim (eq_cases (key (read cell t b)) 0) [
    | inl e0 ↦ record {
      slot = 0;
      slot_in = omega arith;
      free = rw add-zero e0;
      written = rw add-zero (ground arith);
      fresh = ground arith;
    }
    | inr n0 ↦ elim (eq_cases (key (read cell t (b + 1))) 0) [
      | inl e1 ↦ record {
        slot = 1;
        slot_in = omega arith;
        free = e1;
        written = ground arith;
        fresh = ground arith;
      }
      | inr n1 ↦ elim (eq_cases (key (read cell t (b + 2))) 0) [
        | inl e2 ↦ record {
          slot = 2;
          slot_in = omega arith;
          free = e2;
          written = ground arith;
          fresh = ground arith;
        }
        | inr n2 ↦ record {
          slot = 3;
          slot_in = omega arith;
          free = ground arith;
          written = ground arith;
          fresh = ground arith;
        }
      ]
    ]
  ]

  -- A group that lacks the key is not reported as a duplicate.
  pub put-ne-duplicate :
      (t : List A) (b : ℕ) (c : A) → Lacks t b (key c) → put cell t b c ≢ duplicate
  unfolding put
  put-ne-duplicate t b c h e = ground arith

  pub Lacks-Holds :
      (t : List A) (b : ℕ) (d : A) (k : ℕ) → Lacks t b k → Holds cell t b d → key d ≢ k
  Lacks-Holds t b d k h (s, hs, e) same =
      four_slots (λ i. key (read cell t i) ≢ k) b h.0 h.1 h.2 h.3 s hs (ap key e ∙ same)

  pub Lacks-of_Holds :
      (t : List A) (b k : ℕ) → ((d : A) → Holds cell t b d → key d ≢ k) → Lacks t b k
  Lacks-of_Holds t b k h = (
    h (read cell t b) (0, omega arith, rw add-zero refl),
    h (read cell t (b + 1)) (1, omega arith, refl),
    h (read cell t (b + 2)) (2, omega arith, refl),
    h (read cell t (b + 3)) (3, omega arith, refl),
  )
