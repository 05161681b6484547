-- ===== src/Cache/Probe.antt =====
-- The hash table of cache.c: linear probing over a ring of buckets.
pub mod Fill
pub mod Stop
pub mod Loops
pub mod Insert
pub mod Gap
pub mod Move
pub mod Delete
pub mod Calls
pub mod Rekey
use hipermap.Common.{
  ℕ, zero, suc, ◌+◌, ◌<◌, ◌≡◌, ◌≢◌, List, [], ◌∷◌, length, get_or, In, ◌==◌, if◌then◌else◌,
}
use hipermap.Cache.{no_index}
use hipermap.Cache.Ring.{dist}

-- The index in a bucket.
abbrev pub slot : List ℕ → ℕ → ℕ
slot t b = get_or t b no_index

-- The number of buckets that are not empty.
abbrev pub filled : List ℕ → ℕ
filled [] = 0
filled (v ∷ t) = if v == no_index then filled t else suc (filled t)

-- A table of `n` buckets holds the indices `xs`, each once and no others. `key` gives the IP of an
-- index; no two are the same.
pub record IsFilled (n : ℕ) (key : ℕ → ℕ) (t xs : List ℕ) : Type 0 where
  pub size : length t ≡ n
  pub once :
      (a b : ℕ)
      → a < n
      → b < n
      → slot t a ≢ no_index
      → slot t b ≢ no_index
      → key (slot t a) ≡ key (slot t b)
      → a ≡ b
  pub holds : (x : ℕ) → In x xs → (b : ℕ) × (b < n) × (slot t b ≡ x) × (x ≢ no_index)
  pub owned : (b : ℕ) → b < n → slot t b ≢ no_index → In (slot t b) xs
  pub count : filled t ≡ length xs

-- No bucket is empty between the one where an IP hashes to and the one that has it, but for `gap`.
abbrev pub IsNear : (n : ℕ) (key home : ℕ → ℕ) (gap : ℕ → Type 0) (t : List ℕ) → Type 0
IsNear n key home gap t =
    (b a : ℕ)
    → b < n
    → a < n
    → slot t b ≢ no_index
    → (gap a → ⊥)
    → dist n (home (key (slot t b))) a < dist n (home (key (slot t b))) b
    → slot t a ≢ no_index

pub record IsTable (n : ℕ) (key home : ℕ → ℕ) (t xs : List ℕ) : Type 0 where
  pub filled_by : IsFilled n key t xs
  pub near : IsNear n key home (λ a. ⊥) t
