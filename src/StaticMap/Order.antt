-- ===== src/StaticMap/Order.antt =====
-- What `hm_sm_compile` needs of `std::sort`, and what it gets by it.
use mathlib.Core.List.{Perm, mem-cons}
use mathlib.Core.List.Perm
use mathlib.Core.Logic.Or
use native.Mathlib.Bridge.{le_prop}
use hipermap.Common.{ℕ, ◌≡◌, inl, inr, refl, false, List, [], ◌∷◌, Mem, All, All-mono, Mem-All}
use hipermap.StaticMap.{Input, input_less}
use hipermap.StaticMap.Zones.{Before-of_input_less}
use hipermap.StaticMap.Paint.{IsAnswer, IsOrdered}
use hipermap.StaticMap.Checks.{IsRange}

-- No element compares below an earlier one.
abbrev pub IsInputOrder : List Input → Type 0
IsInputOrder [] = Unit
IsInputOrder (x ∷ inputs) = All (λ y. input_less y x ≡ false) inputs × IsInputOrder inputs

-- What `std::sort` promises.
pub record IsSort (sort : List Input → List Input) : Type 0 where
  pub permutes : (inputs : List Input) → Perm (sort inputs) inputs
  pub ordered : (inputs : List Input) → IsInputOrder (sort inputs)

pub IsOrdered-of_IsInputOrder : (inputs : List Input) → IsInputOrder inputs → IsOrdered inputs
IsOrdered-of_IsInputOrder [] h = tt
IsOrdered-of_IsInputOrder (x ∷ inputs) h =
    (All-mono (λ y. Before-of_input_less x y) inputs h.0, IsOrdered-of_IsInputOrder inputs h.1)

IsRange-IsProp : (x : Input) → IsProp (IsRange x)
IsRange-IsProp x = hlevel (le_prop)

All-of_Mem :
    (P : Input → Type 0) (inputs : List Input) → ((x : Input) → Mem x inputs → P x) → All P inputs
All-of_Mem P [] h = tt
All-of_Mem P (x ∷ inputs) h =
    (h x (mem-cons.1 (Or.inl refl)), All-of_Mem P inputs (λ y m. h y (mem-cons.1 (Or.inr m))))

pub Perm-IsRange : (xs ys : List Input) → Perm xs ys → All IsRange ys → All IsRange xs
Perm-IsRange xs ys p ranges =
    All-of_Mem IsRange xs (λ x m. Mem-All IsRange IsRange-IsProp x ys ((Perm.mem_iff p).0 m) ranges)

-- The order of the inputs does not matter to an answer.
pub Perm-IsAnswer : (xs ys : List Input) (a v : ℕ) → Perm xs ys → IsAnswer xs a v → IsAnswer ys a v
Perm-IsAnswer xs ys a v p (inl (same, none_there)) =
    inl (same, λ f m. none_there f ((Perm.mem_iff p).1 m))
Perm-IsAnswer xs ys a v p (inr (e, m, on, same, least)) =
    inr (e, (Perm.mem_iff p).0 m, on, same, λ f n. least f ((Perm.mem_iff p).1 n))
