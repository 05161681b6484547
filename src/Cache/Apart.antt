-- ===== src/Cache/Apart.antt =====
-- Lists of element indices of cache.c: parts that share none.
use hipermap.Common.{ℕ, ◌<◌, ◌≢◌, List, [], ◌∷◌, ◌++◌, All}
use hipermap.Cache.{no_index}
use hipermap.Cache.Chain.{AreIndices}

pub All-append : (P : ℕ → Type 0) (ys zs : List ℕ) → All P (ys ++ zs) → All P ys × All P zs
All-append P [] zs h = (tt, h)
All-append P (y ∷ ys) zs h = let (a, b) = All-append P ys zs h.1 in ((h.0, a), b)

pub append-All : (P : ℕ → Type 0) (ys zs : List ℕ) → All P ys → All P zs → All P (ys ++ zs)
append-All P [] zs h k = k
append-All P (y ∷ ys) zs h k = (h.0, append-All P ys zs h.1 k)

-- Two lists of indices that share none.
abbrev pub AreApart : List ℕ → List ℕ → Type 0
AreApart ys zs = All (λ y. All (λ z. z ≢ y) zs) ys

pub AreIndices-append :
    (n : ℕ) (ys zs : List ℕ)
    → AreIndices n (ys ++ zs)
    → AreIndices n ys × AreIndices n zs × AreApart ys zs
AreIndices-append n [] zs h = (tt, h, tt)
AreIndices-append n (y ∷ ys) zs h =
    let (a, b, c) = AreIndices-append n ys zs h.3 in
    let (d, e) = All-append (λ z. z ≢ y) ys zs h.2 in ((h.0, h.1, d, a), b, (e, c))

pub append-AreIndices :
    (n : ℕ) (ys zs : List ℕ)
    → AreIndices n ys
    → AreIndices n zs
    → AreApart ys zs
    → AreIndices n (ys ++ zs)
append-AreIndices n [] zs a b c = b
append-AreIndices n (y ∷ ys) zs a b c =
    (a.0, a.1, append-All (λ z. z ≢ y) ys zs a.2 c.0, append-AreIndices n ys zs a.3 b c.1)

-- An index is not NO_INDEX.
pub present : (n : ℕ) (xs : List ℕ) → AreIndices n xs → All (λ x. (x < n) × (x ≢ no_index)) xs
present n [] h = tt
present n (x ∷ xs) h = ((h.0, h.1), present n xs h.3)
