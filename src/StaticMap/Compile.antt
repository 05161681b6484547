-- ===== src/StaticMap/Compile.antt =====
-- `hm_sm_compile` as a whole.
use mathlib.Core.List.{reverse, reverse_perm}
use hipermap.Common.{
  ℕ, suc, ◌+◌, ◌-◌, ◌*◌, ◌^◌, ◌≤◌, ◌<◌, ◌≡◌, refl, sym, ap, subst, ◌∙◌, arith, Bool, true, false,
  List, [], ◌∷◌, map, ltb, ◌==◌, if◌then◌else◌, length, ok, err, undefined, small_place, no_masks,
  inl, inr, Bool-cases, >>=-eq-ok, ok_inj, fail_if-eq-ok, fail_if, All, All-mono, ◌>>◌,
}
use hipermap.Words.{align, sub64}
use hipermap.Slots.Sort.{length-Perm}
use hipermap.StaticMap.{
  Input, Elem, Sweep, Database, no_value, database_size, alignment, bias, push_to_sorted,
  reopened_value, sweep, close_all, check_inputs, list_size_to_db_place_size, place_database,
  compile, find, count_int, max_ips_of,
}
use hipermap.StaticMap.Zones.{IsZone}
use hipermap.StaticMap.Steps.{value_at, value_at-push, IsSteps}
use hipermap.StaticMap.Paint.{IsAnswer, IsOrdered, paint, paint-IsAnswer}
use hipermap.StaticMap.Stack.{IsReady}
use hipermap.StaticMap.Open.{sweep-IsDone}
use hipermap.StaticMap.Finish.{after_all, last_elem, close_all-IsFinished}
use hipermap.StaticMap.Sizes.{length-max_ips_of}
use hipermap.StaticMap.Arrays.{find-place_database}
use hipermap.StaticMap.Checks.{IsRange, IsRange-IsZone, check_inputs-ok, check_inputs-IsRange}
use hipermap.StaticMap.Order.{IsSort, IsOrdered-of_IsInputOrder, Perm-IsRange, Perm-IsAnswer}
use hipermap.StaticMap.Size.{sweep-weight, close_all-weight, push-weight}

-- The vectors before the first input.
abbrev initial : Sweep
initial = record { sorted = push_to_sorted 0 no_value []; ends_stack = [] }

initial-IsReady : (x : Input) → IsReady x initial.sorted initial.ends_stack
unfolding push_to_sorted reopened_value
initial-IsReady x = record {
  steps = refl;
  reached = omega arith;
  open_ends = tt;
  ascending = tt;
  settled = λ a after. ground arith;
}

-- The steps that the sorted inputs come to, under the appended element.
record IsBuilt (inputs : List Input) (t : Sweep) (body : List Elem) : Type 0 where
  pub swept : sweep inputs initial ≡ ok t
  pub appended : push_to_sorted 0 no_value (close_all t.ends_stack t.sorted) ≡ last_elem ∷ body
  pub steps : IsSteps body
  pub count : length body ≤ 2 * length inputs + 1
  pub answer : (a : ℕ) → a < 2 ^ 32 → IsAnswer inputs a (value_at body a)

build :
    (inputs : List Input)
    → 0 < length inputs
    → All IsZone inputs
    → IsOrdered inputs
    → (t : Sweep) × (body : List Elem) × IsBuilt inputs t body
build [] some zones ordered = absurd (omega arith)
build (x ∷ inputs) some zones ordered =
    let (t, d) = sweep-IsDone x inputs initial zones ordered (initial-IsReady x) in
    let ready = d.ready after_all (All-mono (λ z r. inl r.small) (x ∷ inputs) zones) in
    let (body, f) =
      close_all-IsFinished t.ends_stack t.sorted ready (λ none_left. absurd (d.some none_left)) in
    (
      t,
      body,
      record {
        swept = d.done;
        appended = f.appended;
        steps = f.steps;
        count = omega (
          arith,
          ap length f.appended,
          push-weight 0 no_value (close_all t.ends_stack t.sorted),
          close_all-weight t.ends_stack t.sorted,
          sweep-weight (x ∷ inputs) initial t d.done,
          push-weight 0 no_value [],
        );
        answer = λ a small.
            let unset : value_at initial.sorted a ≡ no_value =
              value_at-push 0 no_value [] a ∙ ground arith in
            let painted : value_at body a ≡ paint (x ∷ inputs) a no_value =
              f.answer a small ∙ d.answer a ∙ ap (paint (x ∷ inputs) a) unset in
            subst (IsAnswer (x ∷ inputs) a) (sym painted)
              (paint-IsAnswer (x ∷ inputs) a zones ordered);
      },
    )

-- The address for `std::lower_bound` and the loop of `hm_sm_find`.
abbrev pub bias_elem : Elem → Elem
bias_elem e = record e { ip = bias e.ip }

length-map : (steps : List Elem) → length (map bias_elem steps) ≡ length steps
length-map [] = refl
length-map (e ∷ steps) = ap suc (length-map steps)

-- What a call on valid ranges comes to. Only the length of the list and the size of the place are
-- left to decide.
pub record IsCompiled (sort : List Input → List Input) (place size : ℕ) (inputs : List Input)
    (body : List Elem) : Type 0 where
  pub steps : IsSteps body
  pub count : length body ≤ 2 * length inputs + 1
  pub answer : (a : ℕ) → a < 2 ^ 32 → IsAnswer inputs a (value_at body a)
  pub result : compile sort place size inputs ≡ (
      let place2 = align alignment place in
      let size2 = sub64 size (sub64 place2 place) in
      if ltb size2 database_size
      then err small_place
      else if ltb (suc (length body)) (2 ^ 31)
      then (if ltb size2 (list_size_to_db_place_size (length body))
          then err small_place
          else ok (place_database place2 (map bias_elem (reverse (last_elem ∷ body)))))
      else undefined)

pub length-biased :
    (body : List Elem) → length (map bias_elem (reverse (last_elem ∷ body))) - 1 ≡ length body
length-biased body =
    omega (
      arith,
      length-map (reverse (last_elem ∷ body)),
      length-Perm (reverse_perm (last_elem ∷ body)),
    )

-- The loops over `sorted`, and the test of the size between them.
after_test :
    (n : ℕ) (b : Bool) (db : Database)
    → count_int (suc n) >> (fail_if b small_place >> (count_int n >> ok db))
      ≡ (if ltb (suc n) (2 ^ 31) then (if b then err small_place else ok db) else undefined)
unfolding count_int
after_test n b db = elim (Bool-cases (ltb (suc n) (2 ^ 31))) [
  | inr many ↦ rw many refl
  | inl few ↦
      let fewer : ltb n (2 ^ 31) ≡ true = ground (arith, few) in
      elim (Bool-cases b) [
        | inl short ↦ rw (few, short) refl
        | inr fits ↦ rw (few, fits, fewer) refl
      ]
]

pub compile-IsCompiled :
    (sort : List Input → List Input)
    → IsSort sort
    → (place size : ℕ) (inputs : List Input) → 0 < length inputs
    → All IsRange inputs
    → length inputs < 2 ^ 31
    → (body : List Elem) × IsCompiled sort place size inputs body
unfolding compile
compile-IsCompiled sort sorts place size inputs some ranges count =
    let permutes = sorts.permutes inputs in
    let zones =
      All-mono IsRange-IsZone (sort inputs) (Perm-IsRange (sort inputs) inputs permutes ranges) in
    let same = length-Perm permutes in
    let (t, body, b) =
      build (sort inputs) (omega arith) zones
        (IsOrdered-of_IsInputOrder (sort inputs) (sorts.ordered inputs)) in
    let nonempty : (length inputs == 0) ≡ false = ground arith in
    (
      body,
      record {
        steps = b.steps;
        count = omega (arith, b.count);
        answer = λ a small.
            Perm-IsAnswer (sort inputs) inputs a (value_at body a) permutes (b.answer a small);
        result =
            elim (Bool-cases
              (ltb (sub64 size (sub64 (align alignment place) place)) database_size)) [
                | inl short ↦ rw (nonempty, short) refl
                | inr fits ↦
                    rw
                      (
                        nonempty,
                        fits,
                        check_inputs-ok 0 inputs ranges (omega arith),
                        b.swept,
                        b.appended,
                        length-biased body,
                      )
                      (after_test (length body)
                        (ltb (sub64 size (sub64 (align alignment place) place))
                          (list_size_to_db_place_size (length body)))
                        (place_database (align alignment place)
                          (map bias_elem (reverse (last_elem ∷ body)))))
              ];
      },
    )

-- The test of the size, before anything is stored.
abbrev pub sizes : ℕ → ℕ → ℕ
sizes place size = sub64 size (sub64 (align alignment place) place)

-- A call that succeeds had valid ranges.
pub compile-IsRange :
    (sort : List Input → List Input) (place size : ℕ) (inputs : List Input) {db : Database}
    → All (λ x. x.ip < 2 ^ 32) inputs
    → compile sort place size inputs ≡ ok db
    → (0 < length inputs) × All IsRange inputs × (length inputs < 2 ^ 31)
unfolding compile
compile-IsRange sort place size inputs small h =
    let (_, some, h1) = >>=-eq-ok (fail_if (length inputs == 0) no_masks) _ h in
    let nonempty = fail_if-eq-ok (length inputs == 0) no_masks some in
    let (_, _, h2) = >>=-eq-ok (fail_if (ltb (sizes place size) database_size) small_place) _ h1 in
    let (u, passed, _) = >>=-eq-ok (check_inputs 0 inputs) _ h2 in
    let (ranges, few) = check_inputs-IsRange 0 inputs u (omega arith) small passed in
    (ground arith, ranges, omega (arith, few))

placed :
    (b q c : Bool) {d db : Database}
    → (if b
        then err small_place
        else if q
        then (if c then err small_place else ok d)
        else undefined)
      ≡ ok db
    → (q ≡ true) × (c ≡ false) × (d ≡ db)
placed true q c h = cc h
placed false false c h = cc h
placed false true true h = cc h
placed false true false h = (refl, refl, ok_inj h)

-- What a successful call on valid ranges leaves.
pub record IsPlacedAt (place size : ℕ) (body : List Elem) (db : Database) : Type 0 where
  pub few : length body + 1 < 2 ^ 31
  pub roomy : ltb (sizes place size) (list_size_to_db_place_size (length body)) ≡ false
  pub result :
      place_database (align alignment place) (map bias_elem (reverse (last_elem ∷ body))) ≡ db

pub compile-IsPlacedAt :
    (sort : List Input → List Input) (place size : ℕ) (inputs : List Input) (body : List Elem)
    (db : Database)
    → IsCompiled sort place size inputs body
    → compile sort place size inputs ≡ ok db
    → IsPlacedAt place size body db
compile-IsPlacedAt sort place size inputs body db c h =
    let (few, roomy, at_db) =
      placed (ltb (sizes place size) database_size) (ltb (suc (length body)) (2 ^ 31))
        (ltb (sizes place size) (list_size_to_db_place_size (length body))) (sym c.result ∙ h) in
    record { few = ground (arith, few); roomy = roomy; result = at_db }

-- After `hm_sm_compile` returned HM_SUCCESS, for a `sort` that permutes and orders by the
-- comparison, `hm_sm_find` returns for every address the value of a range with the longest prefix
-- among those that hold it, and HM_NO_VALUE where none does; it reads nothing out of bounds.
pub find-compile_ranges :
    (sort : List Input → List Input)
    → IsSort sort
    → (place size : ℕ) (inputs : List Input) (db : Database) (a : ℕ)
    → All (λ x. x.ip < 2 ^ 32) inputs
    → compile sort place size inputs ≡ ok db
    → a < 2 ^ 32
    → (v : ℕ) × (find db a ≡ ok v) × IsAnswer inputs a v
find-compile_ranges sort sorts place size inputs db a small h lt =
    let (some, ranges, listed) = compile-IsRange sort place size inputs small h in
    let (body, c) = compile-IsCompiled sort sorts place size inputs some ranges listed in
    let p = compile-IsPlacedAt sort place size inputs body db c h in
    let sorted = map bias_elem (reverse (last_elem ∷ body)) in
    let few : length (max_ips_of sorted) < 2 ^ 32 =
      omega (arith, length-max_ips_of sorted, length-biased body, p.few) in
    (
      value_at body a,
      ap (λ d. find d a) (sym p.result)
          ∙ find-place_database (align alignment place) body a c.steps few lt,
      c.answer a lt,
    )
