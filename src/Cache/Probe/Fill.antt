-- ===== src/Cache/Probe/Fill.antt =====
-- Writes to a bucket, and the number of buckets in use.
use hipermap.Common.{
  ℕ, zero, suc, ◌<◌, ◌≡◌, ◌≢◌, refl, sym, arith, List, [], ◌∷◌, length, set, ◌==◌, if◌then◌else◌,
  length-set, get_or-set_self, get_or-set_ne, eq_cases, inl, inr,
}
use hipermap.Cache.{no_index}
use hipermap.Cache.Probe.{slot, filled}

pub slot-set :
    (t : List ℕ) (i v a : ℕ) → i < length t → slot (set t i v) a ≡ (if a == i then v else slot t a)
slot-set [] i v a h = absurd (omega arith)
slot-set (x ∷ t) zero v zero h = refl
slot-set (x ∷ t) zero v (suc a) h = ground arith
slot-set (x ∷ t) (suc i) v zero h = ground arith
slot-set (x ∷ t) (suc i) v (suc a) h = let rest = slot-set t i v a (omega arith) in ground arith

pub filled-set :
    (t : List ℕ) (i v : ℕ)
    → i < length t
    → slot t i ≡ no_index
    → v ≢ no_index
    → filled (set t i v) ≡ suc (filled t)
filled-set [] i v h empty some = absurd (omega arith)
filled-set (x ∷ t) zero v h empty some = ground arith
filled-set (x ∷ t) (suc i) v h empty some =
    let rest = filled-set t i v (omega arith) empty some in ground arith

pub filled-set_empty :
    (t : List ℕ) (i : ℕ)
    → i < length t
    → slot t i ≢ no_index
    → suc (filled (set t i no_index)) ≡ filled t
filled-set_empty [] i h some = absurd (omega arith)
filled-set_empty (x ∷ t) zero h some = ground arith
filled-set_empty (x ∷ t) (suc i) h some =
    let rest = filled-set_empty t i (omega arith) some in ground arith

-- A table that is not full has an empty bucket.
pub empty_slot :
    (t : List ℕ) → filled t < length t → (e : ℕ) × (e < length t) × (slot t e ≡ no_index)
empty_slot [] h = absurd (omega arith)
empty_slot (x ∷ t) h = elim (eq_cases x no_index) [
  | inl here ↦ (0, omega arith, here)
  | inr some ↦ let (e, lt, empty) = empty_slot t (ground arith) in (suc e, omega arith, empty)
]

-- The buckets after a write.
pub record IsWritten (t : List ℕ) (i v : ℕ) (u : List ℕ) : Type 0 where
  pub same_length : length u ≡ length t
  pub here : slot u i ≡ v
  pub off : (a : ℕ) → a ≢ i → slot u a ≡ slot t a

pub set-IsWritten : (t : List ℕ) (i v : ℕ) → i < length t → IsWritten t i v (set t i v)
set-IsWritten t i v h = record {
  same_length = length-set t i v;
  here = get_or-set_self t i v no_index h;
  off = λ a apart. get_or-set_ne t i a v no_index (λ same. apart (sym same));
}
