-- ===== src/StaticMap/Steps.antt =====
-- The vector `sorted` of static_map.cpp as a step function of the address.
use hipermap.Common.{ℕ, ◌^◌, ◌≤◌, ◌<◌, ◌≡◌, refl, arith, List, [], ◌∷◌, leb, if◌then◌else◌}
use hipermap.StaticMap.{Elem, no_value, push_to_sorted}

-- The value of the last step at or below the address; the last step comes first.
abbrev pub value_at : List Elem → ℕ → ℕ
value_at [] a = no_value
value_at (e ∷ sorted) a = if leb e.ip a then e.value else value_at sorted a

pub value_at-push :
    (ip value : ℕ) (sorted : List Elem) (a : ℕ)
    → value_at (push_to_sorted ip value sorted) a ≡ (if leb ip a then value else value_at sorted a)
unfolding push_to_sorted
value_at-push ip value [] a = refl
value_at-push ip value (last ∷ sorted) a = ground arith

-- A second step at the same address replaces the first.
pub push-push :
    (ip v w : ℕ) (sorted : List Elem)
    → push_to_sorted ip v (push_to_sorted ip w sorted) ≡ push_to_sorted ip v sorted
unfolding push_to_sorted
push-push ip v w [] = ground arith
push-push ip v w (last ∷ sorted) = ground arith

-- The address of the last step.
abbrev pub last_ip : List Elem → ℕ
last_ip [] = 0
last_ip (e ∷ sorted) = e.ip

-- Ascending addresses, of which the first is 0.
abbrev pub IsSteps : List Elem → Type 0
IsSteps [] = ⊥
IsSteps (e ∷ []) = e.ip ≡ 0
IsSteps (e ∷ f ∷ sorted) = (f.ip < e.ip) × (e.ip < 2 ^ 32) × IsSteps (f ∷ sorted)

pub last_ip-push : (ip v : ℕ) (sorted : List Elem) → last_ip (push_to_sorted ip v sorted) ≡ ip
unfolding push_to_sorted
last_ip-push ip v [] = refl
last_ip-push ip v (last ∷ sorted) = ground arith

pub push-IsSteps :
    (ip v : ℕ) (sorted : List Elem)
    → IsSteps sorted
    → last_ip sorted ≤ ip
    → ip < 2 ^ 32
    → IsSteps (push_to_sorted ip v sorted)
unfolding push_to_sorted
push-IsSteps ip v [] h le lt = absurd h
push-IsSteps ip v (e ∷ []) h le lt = ground arith
push-IsSteps ip v (e ∷ f ∷ sorted) h le lt = ground arith
