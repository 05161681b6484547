-- ===== src/StaticMap/Size.antt =====
-- The lengths of the vectors of `hm_sm_compile`: two elements for an input at most, and two more.
use hipermap.Common.{
  ℕ, ◌+◌, ◌*◌, ◌≤◌, ◌≡◌, ap, arith, not, ◌&&◌, List, [], ◌∷◌, ltb, ◌==◌, length, Outcome, ok, inl,
  inr, Bool-cases, >>=-eq-ok,
}
use hipermap.StaticMap.{
  Input, Elem, Sweep, push_to_sorted, reopened_value, close_ended, drop_touching, open_zone,
  end_ip_of_zone, sweep_input, sweep, close_all,
}

-- The elements that the vectors have, or will have when all ranges are closed.
abbrev pub weight : List Elem → List Elem → ℕ
weight sorted ends_stack = length sorted + length ends_stack

pub push-weight :
    (ip value : ℕ) (sorted : List Elem)
    → length (push_to_sorted ip value sorted) ≤ length sorted + 1
unfolding push_to_sorted
push-weight ip value [] = omega arith
push-weight ip value (last ∷ sorted) = ground arith

-- The weight of a result.
abbrev weight_of : Outcome Sweep → ℕ
weight_of (ok s) = weight s.sorted s.ends_stack
weight_of _ = 0

close_ended-weight :
    (ip : ℕ) (ends_stack sorted : List Elem)
    → weight (close_ended ip ends_stack sorted).sorted (close_ended ip ends_stack sorted).ends_stack
      ≤ weight sorted ends_stack
unfolding close_ended
close_ended-weight ip [] sorted = omega arith
close_ended-weight ip (last ∷ ends_stack) sorted =
    elim (Bool-cases (ltb last.ip ip && not (last.ip == 0))) [
      | inl ended ↦
          let pushed = push_to_sorted last.ip (reopened_value ends_stack) sorted in
          rw ended (
            omega (
              arith,
              close_ended-weight ip ends_stack pushed,
              push-weight last.ip (reopened_value ends_stack) sorted,
            ))
      | inr ahead ↦ rw ahead (omega arith)
    ]

drop_touching-weight :
    (ip : ℕ) (ends_stack : List Elem) → length (drop_touching ip ends_stack) ≤ length ends_stack
unfolding drop_touching
drop_touching-weight ip [] = omega arith
drop_touching-weight ip (last ∷ ends_stack) = ground arith

open_zone-weight :
    (end_ip value : ℕ) (ends_stack opened : List Elem)
    → open_zone end_ip value ends_stack ≡ ok opened
    → length opened ≤ length ends_stack + 1
unfolding open_zone
open_zone-weight end_ip value [] opened h = ground arith
open_zone-weight end_ip value (last ∷ ends_stack) opened h = ground arith

sweep_input-weight :
    (x : Input) (s t : Sweep)
    → sweep_input x s ≡ ok t
    → weight t.sorted t.ends_stack ≤ weight s.sorted s.ends_stack + 2
unfolding sweep_input
sweep_input-weight x s t h =
    let closed = close_ended x.ip s.ends_stack s.sorted in
    let (opened, at_end, same) =
      >>=-eq-ok
        (open_zone (end_ip_of_zone x.ip x.cidr_prefix) x.value
          (drop_touching x.ip closed.ends_stack))
        _ h in
    omega (
      arith,
      ap weight_of same,
      push-weight x.ip x.value closed.sorted,
      open_zone-weight (end_ip_of_zone x.ip x.cidr_prefix) x.value
          (drop_touching x.ip closed.ends_stack) opened at_end,
      drop_touching-weight x.ip closed.ends_stack,
      close_ended-weight x.ip s.ends_stack s.sorted,
    )

pub sweep-weight :
    (inputs : List Input) (s t : Sweep)
    → sweep inputs s ≡ ok t
    → weight t.sorted t.ends_stack ≤ weight s.sorted s.ends_stack + 2 * length inputs
unfolding sweep
sweep-weight [] s t h = omega (arith, ap weight_of h)
sweep-weight (x ∷ inputs) s t h =
    let (u, first, rest) = >>=-eq-ok (sweep_input x s) (sweep inputs) h in
    omega (arith, sweep_input-weight x s u first, sweep-weight inputs u t rest)

pub close_all-weight :
    (ends_stack sorted : List Elem)
    → length (close_all ends_stack sorted) ≤ weight sorted ends_stack
unfolding close_all
close_all-weight [] sorted = omega arith
close_all-weight (last ∷ ends_stack) sorted =
    let pushed = push_to_sorted last.ip (reopened_value ends_stack) sorted in
    omega (
      arith,
      close_all-weight ends_stack pushed,
      push-weight last.ip (reopened_value ends_stack) sorted,
    )
