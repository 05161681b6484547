-- ===== src/StaticMap/Open.antt =====
-- The range that `hm_sm_compile` opens for an input, and its whole loop.
use hipermap.Common.{
  ℕ, suc, ◌+◌, ◌^◌, ◌≤◌, ◌<◌, ◌≡◌, ◌≢◌, inl, inr, refl, sym, ap, ◌∙◌, subst, arith, true, false,
  ◌||◌, List, [], ◌∷◌, leb, ltb, ◌==◌, ==_iff, eq_cases, if◌then◌else◌, All, All-mono, All-zip, ok,
}
use hipermap.StaticMap.{
  Input, Elem, Sweep, push_to_sorted, reopened_value, close_ended, drop_touching, end_ip_of_zone,
  open_zone, sweep_input, sweep,
}
use hipermap.StaticMap.Zones.{
  zone_size, IsZone, Before, Before-trans, end_of, zone-end, nested, end_ip-lt,
}
use hipermap.StaticMap.Steps.{value_at-push, last_ip, last_ip-push, push-IsSteps}
use hipermap.StaticMap.Paint.{covers, paint, IsOrdered}
use hipermap.StaticMap.Stack.{denote, IsEnd, IsAscending, IsReady, end-at, end_bounds, IsEnd-later}
use hipermap.StaticMap.Close.{EndsFrom, close_ended-IsClosed, drop_touching-IsClear}

-- Either the stack is empty, or its last range goes on after the input's end, or ends with it.
record IsOpened (x : Input) (sorted ends_stack opened : List Elem) : Type 0 where
  some : opened ≢ []
  open_ends : (y : Input) → Before x y → All (IsEnd x.ip y) opened
  ascending : IsAscending opened
  value : reopened_value opened ≡ x.value
  answer :
      (a : ℕ)
      → denote opened (push_to_sorted x.ip x.value sorted) a
        ≡ (if covers x a then x.value else denote ends_stack sorted a)

module _ (x : Input) (z : IsZone x) (sorted : List Elem) where
  end : ℕ
  end = end_ip_of_zone x.ip x.cidr_prefix

  own : Elem
  own = record { ip = end; value = x.value }

  own-end : end_of end ≡ x.ip + zone_size x
  unfolding end
  own-end = zone-end x z

  own-IsEnd : (y : Input) → Before x y → IsEnd x.ip y own
  unfolding end own
  own-IsEnd y before = record {
    zone = x;
    is_zone = z;
    ends = refl;
    before = before;
    started = omega arith;
    ahead = omega (arith, own-end);
  }

  -- The ranges below the last one are ends for the next input.
  later :
      (ends_stack : List Elem) (y : Input)
      → Before x y
      → last_ip sorted ≤ x.ip
      → All (λ f. x.ip < end_of f.ip) ends_stack
      → All (IsEnd (last_ip sorted) x) ends_stack
      → All (IsEnd x.ip y) ends_stack
  later ends_stack y before reached after ends =
      All-mono
        (λ f h.
          IsEnd-later (last_ip sorted) x.ip x y f f.value reached (omega (arith, h.0))
            (λ w b. Before-trans w x y b before) h.1)
        ends_stack (All-zip _ _ ends_stack after ends)

  open_empty : IsReady x sorted [] → IsOpened x sorted [] (own ∷ [])
  unfolding own reopened_value
  open_empty r = record {
    some = λ e. cc e;
    open_ends = λ y b. (own-IsEnd y b, tt);
    ascending = (tt, tt);
    value = refl;
    answer = λ a. ground (arith, own-end, value_at-push x.ip x.value sorted a, r.settled a);
  }

  open_inside :
      (e : Elem) (ends_stack : List Elem)
      → IsReady x sorted (e ∷ ends_stack)
      → x.ip < end_of e.ip
      → end_of end < end_of e.ip
      → IsOpened x sorted (e ∷ ends_stack) (own ∷ e ∷ ends_stack)
  unfolding own reopened_value
  open_inside e ends_stack r after inside = record {
    some = λ e. cc e;
    open_ends = λ y b. (
      own-IsEnd y b,
      later (e ∷ ends_stack) y b r.reached
          (after, All-mono (λ f h. omega arith) ends_stack r.ascending.0) r.open_ends,
    );
    ascending = ((inside, All-mono (λ f h. omega arith) ends_stack r.ascending.0), r.ascending);
    value = refl;
    answer = λ a. ground (arith, own-end, value_at-push x.ip x.value sorted a, r.settled a);
  }

  open_merged :
      (e : Elem) (ends_stack : List Elem)
      → IsReady x sorted (e ∷ ends_stack)
      → x.ip < end_of e.ip
      → e.ip ≡ end
      → IsOpened x sorted (e ∷ ends_stack) (record e { value = x.value } ∷ ends_stack)
  unfolding own reopened_value
  open_merged e ends_stack r after same = record {
    some = λ e. cc e;
    open_ends = λ y b. (
      IsEnd-later (last_ip sorted) x.ip x y e x.value r.reached (omega arith)
          (λ w c. Before-trans w x y c b) r.open_ends.0,
      later ends_stack y b r.reached (All-mono (λ f h. omega arith) ends_stack r.ascending.0)
          r.open_ends.1,
    );
    ascending = (r.ascending.0, r.ascending.1);
    value = refl;
    answer = λ a.
        let at_end = ap end_of same ∙ own-end in
        ground (arith, at_end, value_at-push x.ip x.value sorted a);
  }

  end_of_ne : (e : Elem) → e.ip < 2 ^ 32 → e.ip ≢ end → end_of end ≢ end_of e.ip
  unfolding end
  end_of_ne e small ne same = let bound = end_ip-lt x.ip x.cidr_prefix in absurd (ground arith)

  open_zone-IsOpened :
      (ends_stack : List Elem)
      → IsReady x sorted ends_stack
      → EndsFrom (suc x.ip) ends_stack
      → (opened : List Elem) × (open_zone end x.value ends_stack ≡ ok opened)
        × IsOpened x sorted ends_stack opened
  unfolding open_zone own
  open_zone-IsOpened [] r after = (own ∷ [], refl, open_empty r)
  open_zone-IsOpened (e ∷ ends_stack) r after =
      let p = r.open_ends.0 in
      let (_, small, bound) = end_bounds (last_ip sorted) x e p in
      let inside : x.ip + zone_size x ≤ end_of e.ip = omega (
        arith,
        nested p.zone x p.is_zone z p.before (omega (arith, end-at (last_ip sorted) x e p)),
        end-at (last_ip sorted) x e p,
      ) in
      elim (eq_cases e.ip end) [
        | inl same ↦
            let test : (e.ip == end) ≡ true = (==_iff _ _).1 same in
            (
              record e { value = x.value } ∷ ends_stack,
              rw test,
              open_merged e ends_stack r after same,
            )
        | inr ne ↦
            let test : (e.ip == end) ≡ false = ground arith in
            let apart = end_of_ne e small ne in
            let inner : end_of end < end_of e.ip = omega (arith, own-end) in
            let holds : (ltb end e.ip || e.ip == 0) ≡ true = ground (arith, end_of_ne e small ne) in
            (own ∷ e ∷ ends_stack, rw (test, holds), open_inside e ends_stack r after inner)
      ]

-- What one input does: the next state is ready, and the input is painted over the answers.
pub record IsSwept (x : Input) (s t : Sweep) : Type 0 where
  pub done : sweep_input x s ≡ ok t
  pub some : t.ends_stack ≢ []
  pub ready : (y : Input) → Before x y → IsReady y t.sorted t.ends_stack
  pub answer :
      (a : ℕ)
      → denote t.ends_stack t.sorted a
        ≡ (if covers x a then x.value else denote s.ends_stack s.sorted a)

pub sweep_input-IsSwept :
    (x : Input) (s : Sweep)
    → IsZone x
    → IsReady x s.sorted s.ends_stack
    → (t : Sweep) × IsSwept x s t
unfolding sweep_input end
sweep_input-IsSwept x s z r =
    let closed = close_ended x.ip s.ends_stack s.sorted in
    let c = close_ended-IsClosed x s.ends_stack s.sorted z r in
    let d = drop_touching-IsClear x closed.sorted closed.ends_stack z c.ready c.from in
    let (opened, opens, o) =
      open_zone-IsOpened x z d.kept (drop_touching x.ip closed.ends_stack) d.ready d.after in
    let sorted = push_to_sorted x.ip x.value closed.sorted in
    let same : push_to_sorted x.ip x.value d.kept ≡ sorted = d.pushed x.value in
    let at_x : last_ip sorted ≡ x.ip = last_ip-push x.ip x.value closed.sorted in
    (
      record { sorted = sorted; ends_stack = opened },
      record {
        done = rw opens refl;
        some = o.some;
        ready = λ y before. record {
          steps = push-IsSteps x.ip x.value closed.sorted c.ready.steps c.ready.reached z.small;
          reached = ground (arith, at_x);
          open_ends = rw at_x (o.open_ends y before);
          ascending = o.ascending;
          settled = λ a after.
              let below : leb x.ip a ≡ true = ground arith in
              value_at-push x.ip x.value closed.sorted a ∙ rw below (sym o.value);
        };
        answer = λ a.
            subst
              (λ (v : List Elem).
                denote opened v a
                ≡ (if covers x a then x.value else denote s.ends_stack s.sorted a))
              same
              (o.answer a
                ∙ ap (λ (t : ℕ). if covers x a then x.value else t) (d.same a ∙ c.same a));
      },
    )

-- The state after the whole loop, for the inputs from `x` on.
pub record IsDone (inputs : List Input) (s t : Sweep) : Type 0 where
  pub done : sweep inputs s ≡ ok t
  pub some : t.ends_stack ≢ []
  pub ready : (y : Input) → All (λ z. Before z y) inputs → IsReady y t.sorted t.ends_stack
  pub answer :
      (a : ℕ) → denote t.ends_stack t.sorted a ≡ paint inputs a (denote s.ends_stack s.sorted a)

-- The loop never fails its assertion, and paints the inputs in their order.
pub sweep-IsDone :
    (x : Input) (inputs : List Input) (s : Sweep)
    → All IsZone (x ∷ inputs)
    → IsOrdered (x ∷ inputs)
    → IsReady x s.sorted s.ends_stack
    → (t : Sweep) × IsDone (x ∷ inputs) s t
unfolding sweep
sweep-IsDone x [] s zones ordered r =
    let (t, w) = sweep_input-IsSwept x s zones.0 r in
    (
      t,
      record {
        done = rw w.done refl;
        some = w.some;
        ready = λ y before. w.ready y before.0;
        answer = w.answer;
      },
    )
sweep-IsDone x (y ∷ inputs) s zones ordered r =
    let (t, w) = sweep_input-IsSwept x s zones.0 r in
    let (u, d) = sweep-IsDone y inputs t zones.1 ordered.1 (w.ready y ordered.0.0) in
    (
      u,
      record {
        done = rw w.done d.done;
        some = d.some;
        ready = λ w before. d.ready w before.1;
        answer = λ a. d.answer a ∙ ap (paint (y ∷ inputs) a) (w.answer a);
      },
    )
