-- ===== src/Cache/Probe/Move.antt =====
-- The move of an entry into the gap.
use hipermap.Common.{
  ℕ, ◌<◌, ◌≡◌, ◌≢◌, ◌⊎◌, refl, sym, ap, ◌∙◌, subst, arith, false, List, length, set, In, eq_cases,
  inl, inr,
}
use hipermap.Cache.{no_index, lies_between}
use hipermap.Cache.Ring.{dist, next, next-lt, dist_self, dist_pos, dist_inj, lies_between-false}
use hipermap.Cache.Probe.{slot, filled, IsFilled, IsNear}
use hipermap.Cache.Probe.Fill.{filled-set, filled-set_empty, set-IsWritten}
use hipermap.Cache.Probe.Gap.{IsGapped, next-ne}

module _ (n : ℕ) (key home : ℕ → ℕ) (homes : (ip : ℕ) → home ip < n) (t xs : List ℕ)
    (i j e : ℕ) where
  -- The buckets after the next entry has moved into the gap.
  abbrev pub moved : List ℕ
  moved = set (set t i (slot t (next n j))) (next n j) no_index

  record IsMoved : Type 0 where
    pub same_length : length moved ≡ length t
    pub here : slot moved i ≡ slot t (next n j)
    pub left : slot moved (next n j) ≡ no_index
    pub off : (a : ℕ) → a ≢ i → a ≢ next n j → slot moved a ≡ slot t a
    pub count : filled moved ≡ filled t

  moved-IsMoved : IsGapped n key home t xs i j e → slot t (next n j) ≢ no_index → IsMoved
  moved-IsMoved g used =
      let (li, lj, le) = g.inside in
      let lnext = next-lt n j lj in
      let size = g.filled_by.size in
      let x = slot t (next n j) in
      let w = set-IsWritten t i x (omega arith) in
      let v = set-IsWritten (set t i x) (next n j) no_index (omega (arith, w.same_length)) in
      let kept : slot (set t i x) (next n j) ≡ x =
        w.off (next n j) (next-ne n key home homes t xs i j e g) in
      record {
        same_length = v.same_length ∙ w.same_length;
        here = v.off i (λ same. next-ne n key home homes t xs i j e g (sym same)) ∙ w.here;
        left = v.here;
        off = λ a off_i off_next. v.off a off_next ∙ w.off a off_i;
        count = omega (
          arith,
          filled-set_empty (set t i x) (next n j) (omega (arith, w.same_length))
              (λ none. used (sym kept ∙ none)),
          filled-set t i x (omega arith) g.gap used,
        );
      }

  -- Where the entry of a bucket came from.
  record IsFrom (b : ℕ) : Type 0 where
    pub from : ℕ
    pub inside : from < n
    pub same : slot moved b ≡ slot t from
    pub place : ((b ≡ i) × (from ≡ next n j)) ⊎ ((b ≢ i) × (b ≢ next n j) × (from ≡ b))

  origin :
      IsGapped n key home t xs i j e
      → IsMoved
      → (b : ℕ) → b < n
      → slot moved b ≢ no_index
      → IsFrom b
  origin g m b lb ub = elim (eq_cases b i) [
    | inl at_i ↦
        let (li, lj, le) = g.inside in
        record {
          from = next n j;
          inside = next-lt n j lj;
          same = ap (slot moved) at_i ∙ m.here;
          place = inl (at_i, refl);
        }
    | inr off_i ↦ elim (eq_cases b (next n j)) [
      | inl at_next ↦ absurd (ub (ap (slot moved) at_next ∙ m.left))
      | inr off_next ↦ record {
        from = b;
        inside = lb;
        same = m.off b off_i off_next;
        place = inr (off_i, off_next, refl);
      }
    ]
  ]

  move_once :
      IsGapped n key home t xs i j e
      → (a b : ℕ) → (p : IsFrom a) → (q : IsFrom b) → p.from ≡ q.from
      → a ≡ b
  move_once g a b p q same = elim p.place [
    | inl (at_a, from_a) ↦ elim q.place [
      | inl (at_b, from_b) ↦ at_a ∙ sym at_b
      | inr (off_b, off_next, from_b) ↦ absurd (off_next (sym from_b ∙ sym same ∙ from_a))
    ]
    | inr (off_a, off_next, from_a) ↦ elim q.place [
      | inl (at_b, from_b) ↦ absurd (off_next (sym from_a ∙ same ∙ from_b))
      | inr (off_b, off_next_b, from_b) ↦ sym from_a ∙ same ∙ from_b
    ]
  ]

  move-IsFilled :
      IsGapped n key home t xs i j e
      → IsMoved
      → slot t (next n j) ≢ no_index
      → IsFilled n key moved xs
  move-IsFilled g m used =
      let h = g.filled_by in
      let (li, lj, le) = g.inside in
      record {
        size = m.same_length ∙ h.size;
        once = λ a b la lb ua ub same.
            let p = origin g m a la ua in
            let q = origin g m b lb ub in
            move_once g a b p q (
              h.once p.from q.from p.inside q.inside (λ none. ua (p.same ∙ none))
                (λ none. ub (q.same ∙ none)) (ap key (sym p.same) ∙ same ∙ ap key q.same));
        holds = λ y member.
            let (b, lb, at_b, some) = h.holds y member in
            elim (eq_cases b (next n j)) [
              | inl at_next ↦ (i, li, m.here ∙ ap (slot t) (sym at_next) ∙ at_b, some)
              | inr off_next ↦
                  let off_i : b ≢ i = λ same. some (sym at_b ∙ ap (slot t) same ∙ g.gap) in
                  (b, lb, m.off b off_i off_next ∙ at_b, some)
            ];
        owned = λ b lb ub.
            let p = origin g m b lb ub in
            subst (λ (y : ℕ). In y xs) (sym p.same)
              (h.owned p.from p.inside (λ none. ub (p.same ∙ none)));
        count = m.count ∙ h.count;
      }

  -- A probe for a moved entry passes no gap but the new one.
  move-IsNear :
      IsGapped n key home t xs i j e
      → IsMoved
      → slot t (next n j) ≢ no_index
      → lies_between i (next n j) (home (key (slot t (next n j)))) ≡ false
      → IsNear n key home (λ a. a ≡ next n j) moved
  move-IsNear g m used test b a lb la ub off_gap before none = elim (eq_cases a i) [
    | inl at_i ↦ used (sym m.here ∙ ap (slot moved) (sym at_i) ∙ none)
    | inr off_i ↦
        let (li, lj, le) = g.inside in
        let lnext = next-lt n j lj in
        let empty_a : slot t a ≡ no_index = sym (m.off a off_i off_gap) ∙ none in
        let p = origin g m b lb ub in
        let at_from : slot t p.from ≢ no_index = λ empty. ub (p.same ∙ empty) in
        let before' : dist n (home (key (slot t p.from))) a
            < dist n (home (key (slot t p.from))) b =
          rw p.same at before in
        elim p.place [
          | inl (at_b, from_b) ↦
              let k = home (key (slot t (next n j))) in
              let gap_first : dist n k i < dist n k (next n j) =
                lies_between-false n i (next n j) k li lnext (homes (key (slot t (next n j))))
                  (λ same. next-ne n key home homes t xs i j e g (sym same)) test in
              let first : dist n k a < dist n k i = rw (from_b, at_b) at before' in
              g.near (next n j) a lnext la used off_i (omega arith) empty_a
          | inr (off_b, off_next, from_b) ↦
              g.near p.from a p.inside la at_from off_i
                (subst
                  (λ (c : ℕ).
                    dist n (home (key (slot t p.from))) a < dist n (home (key (slot t p.from))) c)
                  (sym from_b) before')
                empty_a
        ]
  ]

  pub move-IsGapped :
      IsGapped n key home t xs i j e
      → slot t (next n j) ≢ no_index
      → lies_between i (next n j) (home (key (slot t (next n j)))) ≡ false
      → IsGapped n key home moved xs (next n j) (next n j) e
  move-IsGapped g used test =
      let (li, lj, le) = g.inside in
      let lnext = next-lt n j lj in
      let m = moved-IsMoved g used in
      let off_e : e ≢ next n j = λ same. used (ap (slot t) (sym same) ∙ g.empty) in
      record {
        filled_by = move-IsFilled g m used;
        inside = (lnext, lnext, le);
        gap = m.left;
        near = move-IsNear g m used test;
        settled = λ b lb ub within.
            let none_between = dist_self n (next n j) in
            let same : next n j ≡ b =
              dist_inj n (next n j) (next n j) b lnext lnext lb (omega arith) in
            absurd (ub (ap (slot moved) (sym same) ∙ m.left));
        empty = m.off e g.apart off_e ∙ g.empty;
        apart = off_e;
        ahead = omega (
          arith,
          dist_self n (next n j),
          dist_pos n (next n j) e lnext le (λ same. off_e (sym same)),
        );
      }
