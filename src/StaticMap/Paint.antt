-- ===== src/StaticMap/Paint.antt =====
-- What a static map answers: the value of a smallest range that holds the address.
use mathlib.Core.HLevel.{Π_prop}
use native.Mathlib.Bridge.{le_prop}
use hipermap.Common.{
  ℕ, ◌+◌, ◌≤◌, ◌≡◌, ◌⊎◌, inl, inr, refl, arith, Bool, true, false, ◌&&◌, List, [], ◌∷◌, Mem, leb,
  ltb, Bool-cases, if◌then◌else◌, All, Mem-All, In, In-All, In-Mem, All-mono,
}
use hipermap.StaticMap.{Input, no_value}
use hipermap.StaticMap.Zones.{zone_size, IsZone, Covers, Before, Covers-le}

-- The value is that of a smallest range that holds the address, or there is none.
abbrev pub IsAnswer : List Input → ℕ → ℕ → Type 0
IsAnswer inputs a v =
    ((v ≡ no_value) × ((f : Input) → Mem f inputs → Covers f a → ⊥))
    ⊎ ((e : Input) × Mem e inputs
        × Covers e a
        × (v ≡ e.value)
        × ((f : Input) → Mem f inputs → Covers f a → f.cidr_prefix ≤ e.cidr_prefix))

abbrev pub covers : Input → ℕ → Bool
covers x a = leb x.ip a && ltb a (x.ip + zone_size x)

-- Later ranges painted over earlier ones.
abbrev pub paint : List Input → ℕ → ℕ → ℕ
paint [] a v = v
paint (x ∷ inputs) a v = paint inputs a (if covers x a then x.value else v)

-- Each range before all that follow.
abbrev pub IsOrdered : List Input → Type 0
IsOrdered [] = Unit
IsOrdered (x ∷ inputs) = All (λ y. Before x y) inputs × IsOrdered inputs

covers-Covers : (x : Input) (a : ℕ) → covers x a ≡ true → Covers x a
covers-Covers x a h = ground arith

covers-ne : (x : Input) (a : ℕ) → covers x a ≡ false → Covers x a → ⊥
covers-ne x a h c = ground arith

-- What painting leaves: the old value, or that of the last range that holds the address.
abbrev Painted : List Input → ℕ → ℕ → ℕ → Type 0
Painted inputs a v result =
    ((result ≡ v) × All (λ f. Covers f a → ⊥) inputs)
    ⊎ ((e : Input) × In e inputs
        × Covers e a
        × (result ≡ e.value)
        × All (λ f. Covers f a → f.cidr_prefix ≤ e.cidr_prefix) inputs)

paint-Painted :
    (inputs : List Input) (a v : ℕ)
    → All IsZone inputs
    → IsOrdered inputs
    → Painted inputs a v (paint inputs a v)
paint-Painted [] a v zones ordered = inl (refl, tt)
paint-Painted (x ∷ inputs) a v zones ordered = elim (Bool-cases (covers x a)) [
  | inl on ↦
      let over = paint-Painted inputs a x.value zones.1 ordered.1 in
      rw on (elim over [
        | inl (same, none_later) ↦ inr (
          x,
          inl refl,
          covers-Covers x a on,
          same,
          ((λ _. omega arith), All-mono (λ f h c. absurd (h c)) inputs none_later),
        )
        | inr (e, i, c, same, least) ↦ inr (
          e,
          inr i,
          c,
          same,
          (
            λ on_x.
                Covers-le x e a zones.0 (In-All IsZone e inputs i zones.1)
                  (In-All (λ y. Before x y) e inputs i ordered.0) on_x c,
            least,
          ),
        )
      ])
  | inr off ↦
      let over = paint-Painted inputs a v zones.1 ordered.1 in
      rw off (elim over [
        | inl (same, none_later) ↦ inl (same, (covers-ne x a off, none_later))
        | inr (e, i, c, same, least) ↦
            inr (e, inr i, c, same, ((λ on_x. absurd (covers-ne x a off on_x)), least))
      ])
]

-- Painting ordered ranges over nothing answers for every address.
pub paint-IsAnswer :
    (inputs : List Input) (a : ℕ)
    → All IsZone inputs
    → IsOrdered inputs
    → IsAnswer inputs a (paint inputs a no_value)
paint-IsAnswer inputs a zones ordered = elim (paint-Painted inputs a no_value zones ordered) [
  | inl (same, none_there) ↦
      inl (same, λ f m. Mem-All (λ f. Covers f a → ⊥) (λ f. hlevel) f inputs m none_there)
  | inr (e, i, c, same, least) ↦ inr (
    e,
    In-Mem e inputs i,
    c,
    same,
    λ f m.
        Mem-All (λ f. Covers f a → f.cidr_prefix ≤ e.cidr_prefix) (λ f. Π_prop (λ _. le_prop)) f
          inputs m least,
  )
]
