-- ===== src/Cache/Probe/Stop.antt =====
-- Where a probe for an IP stops: at its bucket, or at the first empty one.
use hipermap.Common.{
  ℕ, zero, suc, ◌<◌, ◌≡◌, ◌≢◌, ◌⊎◌, sym, ap, ◌∙◌, arith, Bool, true, false, ◌||◌, List, length, In,
  ◌==◌, eq_cases, Bool-cases, inl, inr,
}
use hipermap.Cache.{no_index}
use hipermap.Cache.Ring.{dist, next, next-lt, dist_self, dist_inj, dist-next, dist-next-lt, dist-lt}
use hipermap.Cache.Probe.{slot, IsFilled, IsTable}
use hipermap.Cache.Probe.Fill.{empty_slot}

-- All buckets from `a` up to `e` pass.
abbrev pub IsClear : (P : ℕ → Type 0) (n a e : ℕ) → Type 0
IsClear P n a e = (b : ℕ) → b < n → dist n a b < dist n a e → P b

pub IsClear-next :
    (P : ℕ → Type 0) (n a e : ℕ)
    → a < n
    → e < n
    → a ≢ e
    → IsClear P n a e
    → P a × IsClear P n (next n a) e
IsClear-next P n a e la le apart clear = (
  clear a la (omega (arith, dist_self n a, dist-next n a e la le apart)),
  λ b lb before. clear b lb (dist-next-lt n a b e la lb le apart before),
)

-- The first bucket where a test holds.
first :
    (Q : ℕ → Bool) (n fuel a e : ℕ)
    → a < n
    → e < n
    → dist n a e < fuel
    → Q e ≡ true
    → (f : ℕ) × (f < n) × (Q f ≡ true) × IsClear (λ b. Q b ≡ false) n a f
first Q n zero a e la le enough holds = absurd (omega arith)
first Q n (suc fuel) a e la le enough holds = elim (Bool-cases (Q a)) [
  | inl here ↦ (a, la, here, λ b lb before. absurd (omega (arith, dist_self n a)))
  | inr later ↦
      let apart : a ≢ e = λ same. cc (ap Q same) in
      let (f, lf, found, clear) =
        first Q n fuel (next n a) e (next-lt n a la) le (omega (arith, dist-next n a e la le apart))
          holds in
      let off : a ≢ f = λ same. cc (ap Q same) in
      (
        f,
        lf,
        found,
        λ b lb before. elim (eq_cases b a) [
          | inl same ↦ ap Q same ∙ later
          | inr on ↦
              clear b lb
                (omega (arith, dist-next n a b la lb (λ s. on (sym s)), dist-next n a f la lf off))
        ],
      )
]

-- The test at which a probe for `ip` stops.
abbrev pub stops : (ℕ → ℕ) → List ℕ → ℕ → ℕ → Bool
stops key t ip b = slot t b == no_index || key (slot t b) == ip

-- The bucket where a probe from `a` stops.
pub record IsStop (n : ℕ) (key : ℕ → ℕ) (t : List ℕ) (ip a e : ℕ) : Type 0 where
  pub inside : e < n
  pub stop : stops key t ip e ≡ true
  pub clear : IsClear (λ b. stops key t ip b ≡ false) n a e

module _ (n : ℕ) (key home : ℕ → ℕ) (t xs : List ℕ) (roomy : length xs < n) where
  -- A table with an empty bucket stops every probe.
  probe : (ip a : ℕ) → IsFilled n key t xs → a < n → (e : ℕ) × IsStop n key t ip a e
  probe ip a h la =
      let (e, le, empty) = empty_slot t (omega (arith, h.count, h.size)) in
      let inside : e < n = omega (arith, h.size) in
      let (f, lf, found, clear) =
        first (stops key t ip) n n a e la inside (dist-lt n a e la inside) (ground arith) in
      (f, record { inside = lf; stop = found; clear = clear })

  -- A probe for an IP of the table stops at its bucket.
  pub IsStop-found :
      (x : ℕ)
      → IsTable n key home t xs
      → home (key x) < n
      → In x xs
      → (e : ℕ) × (slot t e ≡ x) × IsStop n key t (key x) (home (key x)) e
  IsStop-found x h lh member =
      let (b, lb, at_b, some) = h.filled_by.holds x member in
      let (e, s) = probe (key x) (home (key x)) h.filled_by lh in
      let here : stops key t (key x) b ≡ true = rw at_b (ground arith) in
      elim (eq_cases e b) [
        | inl same ↦ (e, ap (slot t) same ∙ at_b, s)
        | inr apart ↦
            let before : dist n (home (key x)) e < dist n (home (key x)) b =
              elim (compare_cases (dist n (home (key x)) e) (dist n (home (key x)) b)) [
                | inl less ↦ less
                | inr (inl same) ↦
                    absurd (apart (dist_inj n (home (key x)) e b lh s.inside lb same))
                | inr (inr more) ↦ cc (s.clear b lb more)
              ] in
            let used : slot t e ≢ no_index =
              h.near b e lb s.inside (λ empty. some (sym at_b ∙ empty)) (λ no_gap. no_gap)
                (rw at_b before) in
            let same_key : key (slot t e) ≡ key x = ground (arith, s.stop) in
            absurd (
              apart (
                h.filled_by.once e b s.inside lb used (λ empty. some (sym at_b ∙ empty))
                  (same_key ∙ ap key (sym at_b))))
      ]
    where
      compare_cases : (a b : ℕ) → (a < b) ⊎ ((a ≡ b) ⊎ (b < a))
      compare_cases a b = ground arith

  -- A probe for another IP stops at an empty bucket.
  pub IsStop-missing :
      (ip a : ℕ)
      → IsFilled n key t xs
      → a < n
      → ((x : ℕ) → In x xs → key x ≢ ip)
      → (e : ℕ) × (slot t e ≡ no_index) × IsStop n key t ip a e
  IsStop-missing ip a h la other =
      let (e, s) = probe ip a h la in
      elim (eq_cases (slot t e) no_index) [
        | inl empty ↦ (e, empty, s)
        | inr used ↦
            let same_key : key (slot t e) ≡ ip = ground (arith, s.stop) in
            absurd (other (slot t e) (h.owned e s.inside used) same_key)
      ]
