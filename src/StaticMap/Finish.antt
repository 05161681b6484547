-- ===== src/StaticMap/Finish.antt =====
-- The end of `hm_sm_compile`: the ranges that are still open are closed, and an element after the
-- last address is appended.
use hipermap.Common.{
  ℕ, ◌^◌, ◌<◌, ◌≡◌, ◌≢◌, inl, inr, refl, ◌∙◌, arith, false, List, [], ◌∷◌, ◌==◌, eq_cases,
}
use hipermap.StaticMap.{Input, Elem, no_value, push_to_sorted, reopened_value, close_all}
use hipermap.StaticMap.Steps.{value_at, last_ip, IsSteps, last_ip-push, push-push}
use hipermap.StaticMap.Stack.{denote, IsReady, IsReady-close, end_bounds, denote-close}

-- An input that is after all others.
abbrev pub after_all : Input
after_all = record { ip = 2 ^ 32; cidr_prefix = 0; value = 0 }

abbrev pub last_elem : Elem
last_elem = record { ip = 0; value = no_value }

-- The steps below the appended element answer what the open ranges would.
pub record IsFinished (sorted ends_stack body : List Elem) : Type 0 where
  pub appended : push_to_sorted 0 no_value (close_all ends_stack sorted) ≡ last_elem ∷ body
  pub steps : IsSteps body
  pub answer : (a : ℕ) → a < 2 ^ 32 → value_at body a ≡ denote ends_stack sorted a

push_last :
    (sorted : List Elem)
    → IsSteps sorted
    → 0 < last_ip sorted
    → push_to_sorted 0 no_value sorted ≡ last_elem ∷ sorted
unfolding push_to_sorted
push_last [] steps positive = absurd steps
push_last (e ∷ sorted) steps positive = let test : (e.ip == 0) ≡ false = ground arith in rw test

pub close_all-IsFinished :
    (ends_stack sorted : List Elem)
    → IsReady after_all sorted ends_stack
    → (ends_stack ≡ [] → 0 < last_ip sorted)
    → (body : List Elem) × IsFinished sorted ends_stack body
unfolding close_all reopened_value
close_all-IsFinished [] sorted r positive = (
  sorted,
  record {
    appended = push_last sorted r.steps (positive refl);
    steps = r.steps;
    answer = λ a small. refl;
  },
)
close_all-IsFinished (e ∷ []) sorted r positive = elim (eq_cases e.ip 0) [
  | inl whole ↦
      let (bound, _, _) = end_bounds (last_ip sorted) after_all e r.open_ends.0 in
      let reached : 0 < last_ip sorted = ground arith in
      (
        sorted,
        record {
          appended =
              rw whole (push-push 0 no_value no_value sorted ∙ push_last sorted r.steps reached);
          steps = r.steps;
          answer = λ a small. ground arith;
        },
      )
  | inr some ↦
      let (_, small, _) = end_bounds (last_ip sorted) after_all e r.open_ends.0 in
      let last = last_ip-push e.ip no_value sorted in
      let (body, f) =
        close_all-IsFinished [] (push_to_sorted e.ip no_value sorted)
          (IsReady-close after_all sorted e [] some (omega arith) r) (λ _. ground (arith, last)) in
      (
        body,
        record {
          appended = f.appended;
          steps = f.steps;
          answer = λ a small. f.answer a small ∙ denote-close e [] sorted a some r.ascending;
        },
      )
]
close_all-IsFinished (e ∷ f ∷ ends_stack) sorted r positive =
    let (_, small, _) = end_bounds (last_ip sorted) after_all e r.open_ends.0 in
    let (_, _, next) = end_bounds (last_ip sorted) after_all f r.open_ends.1.0 in
    let some : e.ip ≢ 0 = ground (arith, r.ascending.0.0) in
    let (body, done) =
      close_all-IsFinished (f ∷ ends_stack) (push_to_sorted e.ip f.value sorted)
        (IsReady-close after_all sorted e (f ∷ ends_stack) some (omega arith) r)
        (λ none_left. cc none_left) in
    (
      body,
      record {
        appended = done.appended;
        steps = done.steps;
        answer =
            λ a lt. done.answer a lt ∙ denote-close e (f ∷ ends_stack) sorted a some r.ascending;
      },
    )
