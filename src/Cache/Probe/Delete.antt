-- ===== src/Cache/Probe/Delete.antt =====
-- `table_delete` takes one index out of the table.
use hipermap.Common.{
  ℕ, zero, suc, ◌-◌, ◌^◌, ◌≤◌, ◌<◌, ◌≡◌, ◌≢◌, refl, sym, ap, ◌∙◌, subst, arith, false, List, length,
  set, In, ◌==◌, eq_cases, Bool-cases, inl, inr, ok,
}
use hipermap.Cache.{Element, Cache, no_index, lies_between, close_gap}
use hipermap.Cache.Ring.{dist, next, dist_self, dist_pos, dist_inj, dist-next}
use hipermap.Cache.Probe.{slot, IsFilled, IsTable}
use hipermap.Cache.Probe.Fill.{filled-set_empty, empty_slot, set-IsWritten}
use hipermap.Cache.Probe.Loops.{key_of, home_of, home_of-lt, step}
use hipermap.Cache.Probe.Gap.{IsGapped, stop-IsTable, stay-IsGapped}
use hipermap.Cache.Probe.Move.{moved, move-IsGapped}

-- A list less one element.
pub record IsLess (xs : List ℕ) (x : ℕ) (ws : List ℕ) : Type 0 where
  pub kept : (y : ℕ) → In y ws → In y xs × (y ≢ x)
  pub rest : (y : ℕ) → In y xs → y ≢ x → In y ws
  pub count : length xs ≡ suc (length ws)

module _ (n : ℕ) (key home : ℕ → ℕ) (t xs ws : List ℕ) (x i : ℕ) (li : i < n) (at_i : slot t i ≡ x)
    (some : x ≢ no_index) (less : IsLess xs x ws) where
  clear-IsFilled : IsFilled n key t xs → IsFilled n key (set t i no_index) ws
  clear-IsFilled h =
      let w = set-IsWritten t i no_index (omega (arith, h.size)) in
      let off : (b : ℕ)
          → slot (set t i no_index) b ≢ no_index
          → slot (set t i no_index) b ≡ slot t b =
        λ b ub. w.off b (λ same. ub (ap (slot (set t i no_index)) same ∙ w.here)) in
      record {
        size = w.same_length ∙ h.size;
        once = λ a b la lb ua ub same.
            h.once a b la lb (λ none. ua (off a ua ∙ none)) (λ none. ub (off b ub ∙ none))
              (ap key (sym (off a ua)) ∙ same ∙ ap key (off b ub));
        holds = λ y member.
            let (in_xs, other) = less.kept y member in
            let (b, lb, at_b, used) = h.holds y in_xs in
            (b, lb, w.off b (λ same. other (sym at_b ∙ ap (slot t) same ∙ at_i)) ∙ at_b, used);
        owned = λ b lb ub.
            let used : slot t b ≢ no_index = λ none. ub (off b ub ∙ none) in
            let other : slot t b ≢ x = λ same.
              let here : b ≡ i =
                h.once b i lb li used (λ none. some (sym at_i ∙ none)) (ap key (same ∙ sym at_i)) in
              ub (ap (slot (set t i no_index)) here ∙ w.here) in
            subst (λ (y : ℕ). In y ws) (sym (off b ub))
              (less.rest (slot t b) (h.owned b lb used) other);
        count = omega (
          arith,
          filled-set_empty t i (omega (arith, h.size)) (λ none. some (sym at_i ∙ none)),
          h.count,
          less.count,
        );
      }

  -- The emptied bucket is a gap, with nothing settled yet.
  pub clear-IsGapped :
      IsTable n key home t xs
      → length xs < n
      → (e : ℕ) × IsGapped n key home (set t i no_index) ws i i e
  clear-IsGapped h roomy =
      let (e, le, empty) = empty_slot t (omega (arith, h.filled_by.count, h.filled_by.size)) in
      let inside : e < n = omega (arith, h.filled_by.size) in
      let apart : e ≢ i = λ same. some (sym at_i ∙ ap (slot t) (sym same) ∙ empty) in
      let w = set-IsWritten t i no_index (omega (arith, h.filled_by.size)) in
      (
        e,
        record {
          filled_by = clear-IsFilled h.filled_by;
          inside = (li, li, inside);
          gap = w.here;
          near = λ b a lb la ub off before none.
              let kept = w.off b (λ same. ub (ap (slot (set t i no_index)) same ∙ w.here)) in
              h.near b a lb la (λ empty_b. ub (kept ∙ empty_b)) (λ no_gap. no_gap)
                (rw kept at before) (sym (w.off a off) ∙ none);
          settled = λ b lb ub within.
              let none_between = dist_self n i in
              let same : i ≡ b = dist_inj n i i b li li lb (omega arith) in
              absurd (ub (ap (slot (set t i no_index)) (sym same) ∙ w.here));
          empty = w.off e apart ∙ empty;
          apart = apart;
          ahead = omega (arith, dist_self n i, dist_pos n i e li inside (λ same. apart (sym same)));
        },
      )

next_empty-ne :
    (n : ℕ) (key home : ℕ → ℕ) (t xs : List ℕ) (i j e : ℕ) → IsGapped n key home t xs i j e → j ≢ e
next_empty-ne n key home t xs i j e g same = absurd (omega (arith, ap (dist n i) same, g.ahead))

-- The loop ends at the empty bucket ahead, or before it, with no gap left.
module _ (bits : ℕ) (small : bits ≤ 32) (xs : List ℕ) where
  -- The state of the loop, on a cache.
  abbrev IsGappedCache : Cache → ℕ → ℕ → ℕ → Type 0
  IsGappedCache c i j e =
      IsGapped (2 ^ bits) (key_of c.list_storage) (home_of c.mask_for_hash) c.hash_table xs i j e

  pub close_gap-IsTable :
      (fuel : ℕ) (c : Cache) (i j e : ℕ)
      → c.mask_for_hash ≡ 2 ^ bits - 1
      → IsGappedCache c i j e
      → dist (2 ^ bits) j e ≤ fuel
      → (t : List ℕ) × (close_gap fuel c i j ≡ ok (record c { hash_table = t }))
        × IsTable (2 ^ bits) (key_of c.list_storage) (home_of c.mask_for_hash) t xs
  unfolding close_gap
  close_gap-IsTable zero c i j e masked g enough =
      let (li, lj, le) = g.inside in
      let off =
        next_empty-ne (2 ^ bits) (key_of c.list_storage) (home_of c.mask_for_hash) c.hash_table xs i
          j e g in
      absurd (omega (arith, dist_pos (2 ^ bits) j e lj le off))
  close_gap-IsTable (suc fuel) c i j e masked g enough =
      let (n, s, t) : ℕ × List Element × List ℕ = (2 ^ bits, c.list_storage, c.hash_table) in
      let (li, lj, le) = g.inside in
      let homes = λ (ip : ℕ). home_of-lt bits c.mask_for_hash ip masked in
      let off = next_empty-ne (2 ^ bits) (key_of s) (home_of c.mask_for_hash) t xs i j e g in
      let at_next = step bits c small masked j lj in
      let closer = dist-next (2 ^ bits) j e lj le off in
      elim (eq_cases (slot t (next (2 ^ bits) j)) no_index) [
        | inl stop ↦ (
          t,
          rw (at_next, stop) refl,
          stop-IsTable (2 ^ bits) (key_of s) (home_of c.mask_for_hash) homes t xs i j e g stop,
        )
        | inr used ↦
            let test : (slot t (next (2 ^ bits) j) == no_index) ≡ false = ground arith in
            let k = home_of c.mask_for_hash (key_of s (slot t (next (2 ^ bits) j))) in
            elim (Bool-cases (lies_between i (next (2 ^ bits) j) k)) [
              | inl stays ↦
                  let (u, done, table) =
                    close_gap-IsTable fuel c i (next (2 ^ bits) j) e masked
                      (stay-IsGapped (2 ^ bits) (key_of s) (home_of c.mask_for_hash) homes t xs i j
                        e g used stays)
                      (omega arith) in
                  (u, rw (at_next, test, stays) done, table)
              | inr moves ↦
                  let after =
                    move-IsGapped (2 ^ bits) (key_of s) (home_of c.mask_for_hash) homes t xs i j e g
                      used moves in
                  let c' : Cache = record c {
                    hash_table =
                        moved (2 ^ bits) (key_of s) (home_of c.mask_for_hash) homes t xs i j e;
                  } in
                  let (u, done, table) =
                    close_gap-IsTable fuel c' (next (2 ^ bits) j) (next (2 ^ bits) j) e masked after
                      (omega arith) in
                  (u, rw (at_next, test, moves) done, table)
            ]
      ]
