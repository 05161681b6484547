-- ===== src/StaticMap/Arrays.antt =====
-- The arrays `max_ips` and `values` as a step function of the address: the steps from the first on.
use mathlib.Core.List.{◌++◌, reverse, reverse-cons, append_assoc, append-nil}
use hipermap.Common.{
  ℕ, suc, ◌+◌, ◌-◌, ◌%◌, ◌^◌, ◌≤◌, ◌<◌, ◌≡◌, refl, sym, ap, ◌∙◌, arith, true, false, List, [], ◌∷◌,
  map, leb, if◌then◌else◌, length, get_or, ok, inl, inr, Bool-cases, All, All-mono,
}
use hipermap.Words.{int_rank}
use hipermap.StaticMap.{Elem, bias, less_int, max_ips_of, values_of, no_value, place_database, find}
use hipermap.StaticMap.Steps.{value_at, last_ip, IsSteps}
use hipermap.StaticMap.Bisect.{first_from, IsAscending, lower_bound-first_from}
use hipermap.StaticMap.Search.{int_rank-bias, bias-lt, find-lower_bound}
use hipermap.StaticMap.Finish.{last_elem}

-- The value of the last step at or below the address; the first step comes first.
abbrev look : List Elem → ℕ → ℕ → ℕ
look [] v a = v
look (e ∷ steps) v a = look steps (if leb e.ip a then e.value else v) a

-- Where the steps start, with the end of the address space after the last.
abbrev start : List Elem → ℕ
start [] = 2 ^ 32
start (e ∷ steps) = e.ip

abbrev IsRising : List Elem → Type 0
IsRising [] = Unit
IsRising (e ∷ steps) = (e.ip < start steps) × (start steps ≤ 2 ^ 32) × IsRising steps

reverse-append_cons :
    (e : Elem) (body rest : List Elem) → reverse (e ∷ body) ++ rest ≡ reverse body ++ (e ∷ rest)
reverse-append_cons e body rest =
    ap (λ (l : List Elem). l ++ rest) (reverse-cons e body)
    ∙ append_assoc (reverse body) (e ∷ []) rest

look-reverse :
    (body rest : List Elem) (a : ℕ)
    → look (reverse body ++ rest) no_value a ≡ look rest (value_at body a) a
look-reverse [] rest a = refl
look-reverse (e ∷ body) rest a =
    rw (reverse-append_cons e body rest) (look-reverse body (e ∷ rest) a)

reverse-IsRising :
    (body rest : List Elem)
    → IsSteps body
    → last_ip body < start rest
    → start rest ≤ 2 ^ 32
    → IsRising rest
    → IsRising (reverse body ++ rest) × (start (reverse body ++ rest) ≡ 0)
reverse-IsRising [] rest steps below bound rising = absurd steps
reverse-IsRising (e ∷ []) rest steps below bound rising = ((below, bound, rising), steps)
reverse-IsRising (e ∷ f ∷ body) rest steps below bound rising =
    rw (reverse-append_cons e (f ∷ body) rest) (
      reverse-IsRising (f ∷ body) (e ∷ rest) steps.2 steps.0 (omega (arith, steps.1))
        (below, bound, rising))

-- The vector before it is split in two arrays: biased, and with the last element appended.
abbrev bias_elem : Elem → Elem
bias_elem e = record e { ip = bias e.ip }

abbrev closed : List Elem → List Elem
closed steps = map bias_elem (steps ++ (last_elem ∷ []))

rank_before :
    (next end : ℕ)
    → next < 2 ^ 32
    → int_rank next ≡ end % 2 ^ 32
    → 0 < end
    → end ≤ 2 ^ 32
    → int_rank ((next + 2 ^ 32 - 1) % 2 ^ 32) ≡ end - 1
unfolding int_rank
rank_before next end small h positive bound = omega arith

-- An element of `max_ips` is the address before the next step.
less_max :
    (next a end : ℕ)
    → next < 2 ^ 32
    → int_rank next ≡ end % 2 ^ 32
    → 0 < end
    → end ≤ 2 ^ 32
    → a < 2 ^ 32
    → less_int ((next + 2 ^ 32 - 1) % 2 ^ 32) (bias a) ≡ leb end a
unfolding less_int
less_max next a end small h positive bound lt =
    rw (rank_before next end small h positive bound, int_rank-bias a lt) (ground arith)

-- The test of one cell: does the address come after the step.
test_cell :
    (next end a : ℕ)
    → next < 2 ^ 32
    → next ≡ end % 2 ^ 32
    → 0 < end
    → end ≤ 2 ^ 32
    → a < 2 ^ 32
    → less_int ((bias next + 2 ^ 32 - 1) % 2 ^ 32) (bias a) ≡ leb end a
test_cell next end a small h =
    less_max (bias next) a end (bias-lt next small) (int_rank-bias next small ∙ h)

look_before : (steps : List Elem) (v a : ℕ) → IsRising steps → a < start steps → look steps v a ≡ v
look_before [] v a rising h = refl
look_before (e ∷ steps) v a rising h =
    let before : leb e.ip a ≡ false = ground arith in
    rw before (look_before steps v a rising.2 (omega (arith, rising.0)))

pub length-values_of : (sorted : List Elem) → length (values_of sorted) ≡ length (max_ips_of sorted)
unfolding values_of max_ips_of
length-values_of [] = refl
length-values_of (e ∷ []) = refl
length-values_of (e ∷ next ∷ sorted) = ap suc (length-values_of (next ∷ sorted))

-- The cells come after the first step, so they ascend.
cells-All :
    (e : Elem) (steps : List Elem)
    → IsRising (e ∷ steps)
    → All (λ n. e.ip ≤ int_rank n) (max_ips_of (closed (e ∷ steps)))
unfolding max_ips_of
cells-All e [] rising =
    let rank =
      rank_before (bias 0) (2 ^ 32) (bias-lt 0 (omega arith))
        (int_rank-bias 0 (omega arith) ∙ omega arith) (omega arith) (omega arith) in
    (omega (arith, rank, rising.0), tt)
cells-All e (f ∷ steps) rising =
    let (below, bound, later) = rising in
    let small : f.ip < 2 ^ 32 = omega (arith, later.0, later.1) in
    let rank =
      rank_before (bias f.ip) f.ip (bias-lt f.ip small) (int_rank-bias f.ip small ∙ omega arith)
        (omega arith) bound in
    (
      omega (arith, rank, below),
      All-mono (λ n h. omega (arith, h, below)) (max_ips_of (closed (f ∷ steps)))
          (cells-All f steps later),
    )

less_int-above : (n m k : ℕ) → int_rank m < k → k ≤ int_rank n → less_int n m ≡ false
unfolding less_int
less_int-above n m k below above = ground arith

closed-IsAscending :
    (e : Elem) (steps : List Elem)
    → IsRising (e ∷ steps)
    → IsAscending (max_ips_of (closed (e ∷ steps)))
unfolding max_ips_of
closed-IsAscending e [] rising = (tt, tt)
closed-IsAscending e (f ∷ steps) rising =
    let (below, bound, later) = rising in
    let small : f.ip < 2 ^ 32 = omega (arith, later.0, later.1) in
    let rank =
      rank_before (bias f.ip) f.ip (bias-lt f.ip small) (int_rank-bias f.ip small ∙ omega arith)
        (omega arith) bound in
    (
      All-mono (λ n h. less_int-above n _ f.ip (omega (arith, rank, below)) h)
          (max_ips_of (closed (f ∷ steps))) (cells-All f steps later),
      closed-IsAscending f steps later,
    )

-- The cell that holds the address, and its value.
record IsFound (steps : List Elem) (v a : ℕ) : Type 0 where
  pub inside : first_from (max_ips_of (closed steps)) (bias a) < length (max_ips_of (closed steps))
  pub value :
      get_or (values_of (closed steps)) (first_from (max_ips_of (closed steps)) (bias a)) 0
      ≡ look steps v a

closed-IsFound :
    (e : Elem) (steps : List Elem) (v a : ℕ)
    → IsRising (e ∷ steps)
    → e.ip ≤ a
    → a < 2 ^ 32
    → IsFound (e ∷ steps) v a
unfolding max_ips_of values_of
closed-IsFound e [] v a rising from lt =
    let on : leb e.ip a ≡ true = ground arith in
    let test : less_int ((bias 0 + 2 ^ 32 - 1) % 2 ^ 32) (bias a) ≡ false =
      test_cell 0 (2 ^ 32) a (omega arith) (omega arith) (omega arith) (omega arith) lt
      ∙ ground arith in
    record { inside = rw test (omega arith); value = rw (test, on) refl }
closed-IsFound e (f ∷ steps) v a rising from lt =
    let (below, bound, later) = rising in
    let on : leb e.ip a ≡ true = ground arith in
    let small : f.ip < 2 ^ 32 = omega (arith, later.0, later.1) in
    let test : less_int ((bias f.ip + 2 ^ 32 - 1) % 2 ^ 32) (bias a) ≡ leb f.ip a =
      test_cell f.ip f.ip a small (omega arith) (omega arith) bound lt in
    elim (Bool-cases (leb f.ip a)) [
      | inl after ↦
          let rest =
            closed-IsFound f steps (if leb e.ip a then e.value else v) a later (ground arith) lt in
          record {
            inside = rw (test, after) (omega (arith, rest.inside));
            value = rw (test, after) (rw after at rest.value);
          }
      | inr before ↦ record {
        inside = rw (test, before) (omega arith);
        value =
            rw (test, before, on)
              (sym (look_before steps e.value a later.2 (ground (arith, later.0))));
      }
    ]

find-closed :
    (place : ℕ) (steps : List Elem) (v a : ℕ)
    → IsRising steps
    → start steps ≡ 0
    → length (max_ips_of (closed steps)) < 2 ^ 32
    → a < 2 ^ 32
    → find (place_database place (closed steps)) a ≡ ok (look steps v a)
unfolding place_database
find-closed place [] v a rising first few lt = absurd (omega (arith, first))
find-closed place (e ∷ steps) v a rising first few lt =
    let there = closed-IsFound e steps v a rising (omega arith) lt in
    let ascending = closed-IsAscending e steps rising in
    let max_ips = max_ips_of (closed (e ∷ steps)) in
    let same = lower_bound-first_from max_ips (bias a) ascending in
    find-lower_bound (place_database place (closed (e ∷ steps))) a refl ascending few
      (length-values_of (closed (e ∷ steps))) (omega (arith, same, there.inside)) lt
    ∙ ap ok (ap (λ (i : ℕ). get_or (values_of (closed (e ∷ steps))) i 0) same ∙ there.value)

last_ip-lt : (body : List Elem) → IsSteps body → last_ip body < 2 ^ 32
last_ip-lt [] steps = absurd steps
last_ip-lt (e ∷ []) steps = omega arith
last_ip-lt (e ∷ f ∷ body) steps = steps.1

-- `hm_sm_find` reads in the arrays the step function that they were made of.
pub find-place_database :
    (place : ℕ) (body : List Elem) (a : ℕ)
    → IsSteps body
    → length (max_ips_of (map bias_elem (reverse (last_elem ∷ body)))) < 2 ^ 32
    → a < 2 ^ 32
    → find (place_database place (map bias_elem (reverse (last_elem ∷ body)))) a
      ≡ ok (value_at body a)
find-place_database place body a steps few lt =
    let whole : reverse body ++ [] ≡ reverse body = append-nil (reverse body) in
    let (rising, first) =
      rw whole at (reverse-IsRising body [] steps (last_ip-lt body steps) (omega arith) tt) in
    let enough : length (max_ips_of (closed (reverse body))) < 2 ^ 32 =
      rw (reverse-cons last_elem body) at few in
    rw (reverse-cons last_elem body) (
      find-closed place (reverse body) no_value a rising first enough lt
      ∙ ap ok (rw whole at (look-reverse body [] a)))
