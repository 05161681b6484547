-- ===== src/StaticMap/Close.antt =====
-- The ranges that `hm_sm_compile` closes before an input.
use hipermap.Common.{
  ℕ, suc, ◌≤◌, ◌<◌, ◌≡◌, ◌≢◌, inl, inr, refl, ◌∙◌, arith, true, false, not, ◌&&◌, List, [], ◌∷◌,
  ltb, ◌==◌, ==_iff, Bool-cases, eq_cases, All,
}
use hipermap.StaticMap.{
  Input, Elem, Sweep, push_to_sorted, reopened_value, close_ended, drop_touching,
}
use hipermap.StaticMap.Zones.{IsZone, end_of}
use hipermap.StaticMap.Steps.{push-push, last_ip}
use hipermap.StaticMap.Stack.{denote, IsReady, end_bounds, denote-close, IsReady-close}

-- No open range ends before the address.
abbrev pub EndsFrom : ℕ → List Elem → Type 0
EndsFrom ip [] = Unit
EndsFrom ip (e ∷ ends_stack) = ip ≤ end_of e.ip

-- The state after the `while` before an input.
pub record IsClosed (x : Input) (sorted ends_stack : List Elem) (s : Sweep) : Type 0 where
  pub ready : IsReady x s.sorted s.ends_stack
  pub same : (a : ℕ) → denote s.ends_stack s.sorted a ≡ denote ends_stack sorted a
  pub from : EndsFrom x.ip s.ends_stack

pub close_ended-IsClosed :
    (x : Input) (ends_stack sorted : List Elem)
    → IsZone x
    → IsReady x sorted ends_stack
    → IsClosed x sorted ends_stack (close_ended x.ip ends_stack sorted)
unfolding close_ended
close_ended-IsClosed x [] sorted z r = record { ready = r; same = λ a. refl; from = tt }
close_ended-IsClosed x (e ∷ ends_stack) sorted z r =
    elim (Bool-cases (ltb e.ip x.ip && not (e.ip == 0))) [
      | inl ended ↦
          let some : e.ip ≢ 0 = ground arith in
          let le : e.ip ≤ x.ip = ground arith in
          let rest =
            close_ended-IsClosed x ends_stack
              (push_to_sorted e.ip (reopened_value ends_stack) sorted) z
              (IsReady-close x sorted e ends_stack some le r) in
          rw ended (record {
            ready = rest.ready;
            same = λ a. rest.same a ∙ denote-close e ends_stack sorted a some r.ascending;
            from = rest.from;
          })
      | inr going ↦
          let from : x.ip ≤ end_of e.ip = ground (arith, z.small) in
          rw going (record { ready = r; same = λ a. refl; from = from })
    ]

-- The state after the `if`: a vector that the next push makes the same one, for the stack that is
-- left, of which the last range ends after the address.
pub record IsClear (x : Input) (sorted ends_stack : List Elem) (left : List Elem) : Type 0 where
  pub kept : List Elem
  pub ready : IsReady x kept left
  pub same : (a : ℕ) → denote left kept a ≡ denote ends_stack sorted a
  pub after : EndsFrom (suc x.ip) left
  pub pushed : (v : ℕ) → push_to_sorted x.ip v kept ≡ push_to_sorted x.ip v sorted

pub drop_touching-IsClear :
    (x : Input) (sorted ends_stack : List Elem)
    → IsZone x
    → IsReady x sorted ends_stack
    → EndsFrom x.ip ends_stack
    → IsClear x sorted ends_stack (drop_touching x.ip ends_stack)
unfolding drop_touching
drop_touching-IsClear x sorted [] z r from = record {
  kept = sorted;
  ready = r;
  same = λ a. refl;
  after = tt;
  pushed = λ v. refl;
}
drop_touching-IsClear x sorted (e ∷ ends_stack) z r from = elim (eq_cases e.ip x.ip) [
  | inl touching ↦
      let test : (e.ip == x.ip) ≡ true = (==_iff _ _).1 touching in
      let (bound, _, _) = end_bounds (last_ip sorted) x e r.open_ends.0 in
      let some : e.ip ≢ 0 = λ none_left. absurd (ground (arith, r.reached)) in
      rw test (record {
        kept = push_to_sorted e.ip (reopened_value ends_stack) sorted;
        ready = IsReady-close x sorted e ends_stack some (omega arith) r;
        same = λ a. denote-close e ends_stack sorted a some r.ascending;
        after = next_after ends_stack r.ascending.0 (ground arith);
        pushed = λ v. rw touching (push-push x.ip v (reopened_value ends_stack) sorted);
      })
  | inr apart ↦
      let test : (e.ip == x.ip) ≡ false = ground arith in
      let after : suc x.ip ≤ end_of e.ip = ground (arith, z.small) in
      rw test
        (record { kept = sorted; ready = r; same = λ a. refl; after = after; pushed = λ v. refl })
]
  where
    next_after :
        (fs : List Elem)
        → All (λ f. end_of e.ip < end_of f.ip) fs
        → end_of e.ip ≡ x.ip
        → EndsFrom (suc x.ip) fs
    next_after [] h at_x = tt
    next_after (f ∷ fs) h at_x = omega (arith, h.0)
