-- ===== src/Cache/Probe/Gap.antt =====
-- The second loop of `table_delete`: a gap in a run of buckets, which moves on until no entry needs it.
use hipermap.Common.{
  ℕ, ◌+◌, ◌≤◌, ◌<◌, ◌≡◌, ◌≢◌, ◌⊎◌, sym, ap, ◌∙◌, arith, true, List, eq_cases, inl, inr,
}
use hipermap.Cache.{no_index, lies_between}
use hipermap.Cache.Ring.{
  dist, next, next-lt, dist-lt, dist_inj, next_back, next_around, lies_between-true, dist_between,
}
use hipermap.Cache.Probe.{slot, IsFilled, IsTable, IsNear}

-- The bucket `i` is a gap; the entries from it up to `j` are settled, that is no probe for them
-- passes the gap; and `e` is an empty bucket ahead.
pub record IsGapped (n : ℕ) (key home : ℕ → ℕ) (t xs : List ℕ) (i j e : ℕ) : Type 0 where
  pub filled_by : IsFilled n key t xs
  pub inside : (i < n) × (j < n) × (e < n)
  pub gap : slot t i ≡ no_index
  pub near : IsNear n key home (λ a. a ≡ i) t
  pub settled :
      (b : ℕ)
      → b < n
      → slot t b ≢ no_index
      → dist n i b ≤ dist n i j
      → dist n (home (key (slot t b))) b ≤ dist n (home (key (slot t b))) i
  pub empty : slot t e ≡ no_index
  pub apart : e ≢ i
  pub ahead : dist n i j < dist n i e

module _ (n : ℕ) (key home : ℕ → ℕ) (homes : (ip : ℕ) → home ip < n) (t xs : List ℕ)
    (i j e : ℕ) where
  -- The next bucket is not the gap, as the empty one lies between.
  pub next-ne : IsGapped n key home t xs i j e → next n j ≢ i
  next-ne g same =
      let (li, lj, le) = g.inside in
      absurd (omega (arith, next_around n i j li lj same, g.ahead, dist-lt n i e li le))

  next_further : IsGapped n key home t xs i j e → dist n i (next n j) ≡ dist n i j + 1
  next_further g = let (li, lj, le) = g.inside in next_back n i j li lj (next-ne g)

  -- An entry from the gap up to the next bucket is settled, or in that bucket.
  settled_or_next :
      IsGapped n key home t xs i j e
      → (b : ℕ) → b < n
      → dist n i b ≤ dist n i (next n j)
      → (dist n i b ≤ dist n i j) ⊎ (b ≡ next n j)
  settled_or_next g b lb near = elim (eq_cases (dist n i b) (dist n i (next n j))) [
    | inl same ↦
        let (li, lj, le) = g.inside in inr (dist_inj n i b (next n j) li lb (next-lt n j lj) same)
    | inr less ↦ inl (omega (arith, next_further g))
  ]

  -- At an empty bucket all entries are settled.
  pub stop-IsTable :
      IsGapped n key home t xs i j e → slot t (next n j) ≡ no_index → IsTable n key home t xs
  stop-IsTable g stop =
      let (li, lj, le) = g.inside in
      record {
        filled_by = g.filled_by;
        near = λ b a lb la ub no_gap before. elim (eq_cases a i) [
          | inr off ↦ g.near b a lb la ub off before
          | inl at_gap ↦
              let h = home (key (slot t b)) in
              let gap_before : dist n h i < dist n h b = rw (sym at_gap) before in
              elim (le_or_lt (dist n i b) (dist n i (next n j))) [
                | inl within ↦ elim (settled_or_next g b lb within) [
                  | inl settled ↦ absurd (omega (arith, g.settled b lb ub settled))
                  | inr same ↦ absurd (ub (ap (slot t) same ∙ stop))
                ]
                | inr past ↦
                    let between =
                      dist_between n h i (next n j) b (homes (key (slot t b))) li (next-lt n j lj)
                        lb gap_before past in
                    absurd (g.near b (next n j) lb (next-lt n j lj) ub (next-ne g) between stop)
              ]
        ];
      }
    where
      le_or_lt : (a b : ℕ) → (a ≤ b) ⊎ (b < a)
      le_or_lt a b = ground arith

  -- An entry that may stay is settled.
  pub stay-IsGapped :
      IsGapped n key home t xs i j e
      → slot t (next n j) ≢ no_index
      → lies_between i (next n j) (home (key (slot t (next n j)))) ≡ true
      → IsGapped n key home t xs i (next n j) e
  stay-IsGapped g used test =
      let (li, lj, le) = g.inside in
      let lnext = next-lt n j lj in
      record {
        filled_by = g.filled_by;
        inside = (li, lnext, le);
        gap = g.gap;
        near = g.near;
        settled = λ b lb ub within. elim (settled_or_next g b lb within) [
          | inl settled ↦ g.settled b lb ub settled
          | inr same ↦ rw same (
              lies_between-true n i (next n j) (home (key (slot t (next n j)))) li lnext
                (homes (key (slot t (next n j)))) test)
        ];
        empty = g.empty;
        apart = g.apart;
        ahead = elim (eq_cases (next n j) e) [
          | inl same ↦ absurd (used (ap (slot t) same ∙ g.empty))
          | inr off ↦
              let further = next_further g in
              elim (eq_cases (dist n i (next n j)) (dist n i e)) [
                | inl same ↦ absurd (off (dist_inj n i (next n j) e li lnext le same))
                | inr less ↦ omega (arith, g.ahead)
              ]
        ];
      }
