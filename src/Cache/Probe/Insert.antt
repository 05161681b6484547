-- ===== src/Cache/Probe/Insert.antt =====
-- A new index in the bucket where the probe for its IP stops.
use hipermap.Common.{
  ℕ, suc, ◌<◌, ◌≡◌, ◌≢◌, sym, ap, ◌∙◌, subst, arith, List, ◌∷◌, set, In, eq_cases, inl, inr,
}
use hipermap.Cache.{no_index}
use hipermap.Cache.Probe.{slot, IsFilled, IsTable}
use hipermap.Cache.Probe.Fill.{filled-set, set-IsWritten}
use hipermap.Cache.Probe.Stop.{IsStop}

module _ (n : ℕ) (key home : ℕ → ℕ) (t xs : List ℕ) (x e : ℕ) (some : x ≢ no_index)
    (empty : slot t e ≡ no_index) where
  insert-IsFilled :
      IsFilled n key t xs
      → e < n
      → ((y : ℕ) → In y xs → key y ≢ key x)
      → IsFilled n key (set t e x) (x ∷ xs)
  insert-IsFilled h le other =
      let w = set-IsWritten t e x (omega (arith, h.size)) in
      record {
        size = w.same_length ∙ h.size;
        once = λ a b la lb ua ub same. elim (eq_cases a e) [
          | inl at_a ↦ elim (eq_cases b e) [
            | inl at_b ↦ at_a ∙ sym at_b
            | inr off_b ↦
                let old = w.off b off_b in
                absurd (
                  other (slot t b) (h.owned b lb (λ none. ub (old ∙ none))) (
                    ap key (sym old)
                    ∙ sym same
                    ∙ ap (λ i. key (slot (set t e x) i)) at_a
                    ∙ ap key w.here))
          ]
          | inr off_a ↦
              let old_a = w.off a off_a in
              elim (eq_cases b e) [
                | inl at_b ↦ absurd (
                    other (slot t a) (h.owned a la (λ none. ua (old_a ∙ none))) (
                      ap key (sym old_a)
                      ∙ same
                      ∙ ap (λ i. key (slot (set t e x) i)) at_b
                      ∙ ap key w.here))
                | inr off_b ↦
                    let old_b = w.off b off_b in
                    h.once a b la lb (λ none. ua (old_a ∙ none)) (λ none. ub (old_b ∙ none))
                      (ap key (sym old_a) ∙ same ∙ ap key old_b)
              ]
        ];
        holds = λ y member. elim member [
          | inl same ↦ (e, le, w.here ∙ sym same, λ none. some (sym same ∙ none))
          | inr i ↦
              let (b, lb, at_b, used) = h.holds y i in
              (b, lb, w.off b (λ same. used (sym at_b ∙ ap (slot t) same ∙ empty)) ∙ at_b, used)
        ];
        owned = λ b lb ub. elim (eq_cases b e) [
          | inl same ↦ inl (ap (slot (set t e x)) same ∙ w.here)
          | inr off ↦
              let old = w.off b off in
              inr (subst (λ (y : ℕ). In y xs) (sym old) (h.owned b lb (λ none. ub (old ∙ none))))
        ];
        count = filled-set t e x (omega (arith, h.size)) empty some ∙ ap suc h.count;
      }

  pub insert-IsTable :
      IsTable n key home t xs
      → IsStop n key t (key x) (home (key x)) e
      → ((y : ℕ) → In y xs → key y ≢ key x)
      → IsTable n key home (set t e x) (x ∷ xs)
  insert-IsTable h s other =
      let w = set-IsWritten t e x (omega (arith, h.filled_by.size, s.inside)) in
      record {
        filled_by = insert-IsFilled h.filled_by s.inside other;
        near = λ b a lb la ub no_gap before none. elim (eq_cases a e) [
          | inl at_a ↦ some (sym w.here ∙ ap (slot (set t e x)) (sym at_a) ∙ none)
          | inr off_a ↦ elim (eq_cases b e) [
            | inl at_b ↦
                let at_x : slot (set t e x) b ≡ x = ap (slot (set t e x)) at_b ∙ w.here in
                let clear = s.clear a la (rw (at_x, at_b) at before) in
                let empty_a = sym (w.off a off_a) ∙ none in ground arith
            | inr off_b ↦
                let old = w.off b off_b in
                h.near b a lb la (λ none. ub (old ∙ none)) no_gap (rw old at before)
                  (sym (w.off a off_a) ∙ none)
          ]
        ];
      }
