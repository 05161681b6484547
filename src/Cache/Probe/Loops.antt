-- ===== src/Cache/Probe/Loops.antt =====
-- The loops of cache.c over the hash table end where a probe stops, after at most one round.
use Prim.Native.Nat.{bit_and}
use native.Mathlib.Nat.{one-le-pow}
use hipermap.Common.{
  ℕ, zero, suc, ◌+◌, ◌-◌, ◌^◌, ◌≤◌, ◌<◌, ◌≡◌, ◌≢◌, ◌⊎◌, refl, ap, ◌∙◌, arith, true, false, List,
  set, ◌==◌, eq_cases, inl, inr, ok,
}
use hipermap.Cache.{Element, Cache, no_index, at, add32, hash32, lookup_from, add_from, delete_from}
use hipermap.Words.Bits.{bit_and-le}
use hipermap.Cache.Ring.{dist, next, next-lt, dist-next, step-next}
use hipermap.Cache.Probe.{slot}
use hipermap.Cache.Probe.Stop.{IsClear-next, stops, IsStop}

-- The IP of an element.
abbrev pub key_of : List Element → ℕ → ℕ
key_of storage x = (at storage x).ip

-- The bucket that an IP hashes to.
abbrev pub home_of : ℕ → ℕ → ℕ
home_of mask ip = bit_and (hash32 ip) mask

pub home_of-lt : (bits mask ip : ℕ) → mask ≡ 2 ^ bits - 1 → home_of mask ip < 2 ^ bits
home_of-lt bits mask ip masked = omega (arith, bit_and-le (hash32 ip) mask, one-le-pow bits 2)

-- A bucket that a probe passes, and the rest of its way.
record IsPassed (n : ℕ) (key : ℕ → ℕ) (t : List ℕ) (ip a e : ℕ) : Type 0 where
  pub used : (slot t a == no_index) ≡ false
  pub other : (key (slot t a) == ip) ≡ false
  pub rest : IsStop n key t ip (next n a) e
  pub inside : next n a < n
  pub closer : dist n (next n a) e + 1 ≡ dist n a e

pass :
    (n : ℕ) (key : ℕ → ℕ) (t : List ℕ) (ip a e : ℕ)
    → a < n
    → a ≢ e
    → IsStop n key t ip a e
    → IsPassed n key t ip a e
pass n key t ip a e la apart s =
    let (here, clear) =
      IsClear-next (λ b. stops key t ip b ≡ false) n a e la s.inside apart s.clear in
    record {
      used = ground arith;
      other = ground arith;
      rest = record { inside = s.inside; stop = s.stop; clear = clear };
      inside = next-lt n a la;
      closer = dist-next n a e la s.inside apart;
    }

-- The bucket where it stops.
arrive :
    (n : ℕ) (key : ℕ → ℕ) (t : List ℕ) (ip a e : ℕ)
    → IsStop n key t ip a e
    → (slot t e ≡ no_index) ⊎ (((slot t e == no_index) ≡ false) × ((key (slot t e) == ip) ≡ true))
arrive n key t ip a e s = let stop = s.stop in ground arith

module _ (bits : ℕ) (c : Cache) (small : bits ≤ 32) (masked : c.mask_for_hash ≡ 2 ^ bits - 1) where
  pub step : (b : ℕ) → b < 2 ^ bits → bit_and (add32 b 1) c.mask_for_hash ≡ next (2 ^ bits) b
  step b h = ap (bit_and (add32 b 1)) masked ∙ step-next bits b small h

  pub lookup_from-stop :
      (ip fuel a e : ℕ)
      → a < 2 ^ bits
      → IsStop (2 ^ bits) (key_of c.list_storage) c.hash_table ip a e
      → dist (2 ^ bits) a e < fuel
      → lookup_from fuel c ip a ≡ ok (slot c.hash_table e)
  unfolding lookup_from
  lookup_from-stop ip zero a e la s enough = absurd (omega arith)
  lookup_from-stop ip (suc fuel) a e la s enough = elim (eq_cases a e) [
    | inl same ↦ rw same (elim (arrive (2 ^ bits) (key_of c.list_storage) c.hash_table ip a e s) [
      | inl empty ↦ rw empty refl
      | inr (used, found) ↦ rw (used, found) refl
    ])
    | inr apart ↦
        let p = pass (2 ^ bits) (key_of c.list_storage) c.hash_table ip a e la apart s in
        rw (p.used, p.other, step a la)
          (lookup_from-stop ip fuel (next (2 ^ bits) a) e p.inside p.rest (omega (arith, p.closer)))
  ]

  pub add_from-stop :
      (ip index fuel a e : ℕ)
      → a < 2 ^ bits
      → IsStop (2 ^ bits) (key_of c.list_storage) c.hash_table ip a e
      → slot c.hash_table e ≡ no_index
      → dist (2 ^ bits) a e < fuel
      → add_from fuel c ip index a ≡ ok (record c { hash_table = set c.hash_table e index })
  unfolding add_from
  add_from-stop ip index zero a e la s empty enough = absurd (omega arith)
  add_from-stop ip index (suc fuel) a e la s empty enough = elim (eq_cases a e) [
    | inl same ↦ rw (same, empty) refl
    | inr apart ↦
        let p = pass (2 ^ bits) (key_of c.list_storage) c.hash_table ip a e la apart s in
        rw (p.used, p.other, step a la)
          (add_from-stop ip index fuel (next (2 ^ bits) a) e p.inside p.rest empty
            (omega (arith, p.closer)))
  ]

  pub delete_from-stop :
      (ip fuel a e : ℕ)
      → a < 2 ^ bits
      → IsStop (2 ^ bits) (key_of c.list_storage) c.hash_table ip a e
      → slot c.hash_table e ≢ no_index
      → dist (2 ^ bits) a e < fuel
      → delete_from fuel c ip a ≡ ok e
  unfolding delete_from
  delete_from-stop ip zero a e la s used enough = absurd (omega arith)
  delete_from-stop ip (suc fuel) a e la s used enough = elim (eq_cases a e) [
    | inl same ↦ rw same (elim (arrive (2 ^ bits) (key_of c.list_storage) c.hash_table ip a e s) [
      | inl empty ↦ absurd (used empty)
      | inr (filled, found) ↦ rw (filled, found) refl
    ])
    | inr apart ↦
        let p = pass (2 ^ bits) (key_of c.list_storage) c.hash_table ip a e la apart s in
        rw (p.used, p.other, step a la)
          (delete_from-stop ip fuel (next (2 ^ bits) a) e p.inside p.rest used
            (omega (arith, p.closer)))
  ]
