-- ===== src/Slots/Group.antt =====
-- What a group of four slots holds, and how a write to a slot changes it.
use hipermap.Common.{
  ℕ, ◌+◌, ◌%◌, ◌≤◌, ◌<◌, ◌≡◌, ◌≢◌, sym, ap, ◌∙◌, ◌⊎◌, inl, inr, arith, List, eq_cases, length, set,
  get_or-set_self, get_or-set_ne, get_or-replicate,
}
use hipermap.Slots.{CellType, read, clear_hash_table}

-- A group begins at a multiple of four and lies inside a table of `n` slots.
pub record IsBase (n b : ℕ) : Type 0 where
  pub aligned : b % 4 ≡ 0
  pub inside : b + 4 ≤ n

module _ {A : Type 0} (cell : CellType A) where
  open cell use {key, empty}

  -- The group at `b` holds the cell `c`.
  abbrev pub Holds : List A → ℕ → A → Type 0
  Holds t b c = (s : ℕ) × (s < 4) × (read cell t (b + s) ≡ c)

  -- A write at a slot of the group at `b`, and a read at a slot of the group at `b'`.
  pub Holds-set_inv :
      (t : List A) (b s : ℕ) (c : A) (b' : ℕ) (d : A)
      → IsBase (length t) b
      → s < 4
      → IsBase (length t) b'
      → Holds (set t (b + s) c) b' d
      → Holds t b' d ⊎ ((d ≡ c) × (b' ≡ b))
  Holds-set_inv t b s c b' d base hs base' (s', hs', e) = elim (eq_cases (b + s) (b' + s')) [
    | inl same ↦ inr (
      sym e
          ∙ ap (read cell (set t (b + s) c)) (sym same)
          ∙ get_or-set_self t (b + s) c empty (omega arith),
      omega arith,
    )
    | inr other ↦ inl (s', hs', sym (get_or-set_ne t (b + s) (b' + s') c empty other) ∙ e)
  ]

  pub Holds-set_self :
      (t : List A) (b s : ℕ) (c : A) → IsBase (length t) b → s < 4 → Holds (set t (b + s) c) b c
  Holds-set_self t b s c base hs = (s, hs, get_or-set_self t (b + s) c empty (omega arith))

  -- A write to a slot with key 0 loses no cell with another key.
  pub Holds-set_keep :
      (t : List A) (i : ℕ) (c : A) (b : ℕ) (d : A)
      → key (read cell t i) ≡ 0
      → key d ≢ 0
      → Holds t b d
      → Holds (set t i c) b d
  Holds-set_keep t i c b d free nonzero (s, hs, e) = (
    s,
    hs,
    get_or-set_ne t i (b + s) c empty
          (λ same. nonzero (sym (ap key (ap (read cell t) same ∙ e)) ∙ free))
        ∙ e,
  )

  -- A cleared table holds only cells with key 0.
  pub Holds-clear : (mask b : ℕ) (d : A) → Holds (clear_hash_table cell mask) b d → key d ≡ 0
  unfolding clear_hash_table
  Holds-clear mask b d (s, hs, e) =
      ap key (sym e ∙ get_or-replicate _ (b + s) empty) ∙ cell.key-empty
