-- ===== src/Cache/Lru/Start.antt =====
-- The cache that `hm_cache_init` leaves holds the empty list.
use Prim.Native.Nat.{bit_and}
use native.Mathlib.Nat.{one-le-pow}
use hipermap.Common.{
  ℕ, zero, suc, ◌+◌, ◌-◌, ◌*◌, ◌^◌, ◌≤◌, ◌<◌, ◌≡◌, ◌≢◌, refl, sym, ap, ◌∙◌, subst, arith, true,
  List, [], length, length-replicate, get_or-replicate, replicate, ok, ok_inj, ltb, >>=-eq-ok,
  fail_if, small_place,
}
use hipermap.Words.{align, sub64}
use hipermap.Words.Power.{bit_and_pred, pow_sum, pow-le_back}
use hipermap.Cache.{Element, no_index}
use hipermap.Cache.Init.{
  get_hash_table_capacity, valid_capacity, cache_place_size, Placed, init, alignment,
}
use hipermap.Cache.Start.{range_from, cache_place_size-valid, init-IsWhole}
use hipermap.Cache.Probe.{slot, filled, IsTable}
use hipermap.Cache.Probe.Loops.{key_of, home_of}
use hipermap.Cache.Lru.Represents.{Represents}

filled-replicate : (n : ℕ) → filled (replicate n no_index) ≡ 0
unfolding replicate
filled-replicate zero = refl
filled-replicate (suc n) = filled-replicate n

empty-IsTable : (n : ℕ) (key home : ℕ → ℕ) → IsTable n key home (replicate n no_index) []
empty-IsTable n key home =
    let empty : (b : ℕ) → slot (replicate n no_index) b ≢ no_index → ⊥ =
      λ b used. used (get_or-replicate n b no_index) in
    record {
      filled_by = record {
        size = length-replicate n no_index;
        once = λ a b _ _ used _ _. absurd (empty a used);
        holds = λ x member. absurd member;
        owned = λ b _ used. absurd (empty b used);
        count = filled-replicate n;
      };
      near = λ b a _ _ used _ _. absurd (empty b used);
    }

valid_capacity-power :
    (capacity speed : ℕ)
    → valid_capacity capacity speed ≡ true
    → (0 < capacity)
      × (bit_and capacity (capacity - 1) ≡ 0)
      × (capacity < get_hash_table_capacity capacity speed)
unfolding valid_capacity
valid_capacity-power capacity speed h = (ground arith, ground arith, ground arith)

-- The number of buckets, where it does not leave the words.
valid_capacity-buckets :
    (capacity speed : ℕ)
    → valid_capacity capacity speed ≡ true
    → capacity * 2 ^ speed ≤ 2 ^ 32
    → (bits : ℕ) × (bits ≤ 32)
      × (get_hash_table_capacity capacity speed ≡ 2 ^ bits)
      × (capacity * 2 ^ speed ≡ 2 ^ bits)
      × (capacity < 2 ^ bits)
unfolding get_hash_table_capacity
valid_capacity-buckets capacity speed valid fits =
    let (some, clear, roomy) = valid_capacity-power capacity speed valid in
    let (k, power) = bit_and_pred capacity some clear in
    let buckets : capacity * 2 ^ speed ≡ 2 ^ (k + speed) =
      ap (λ (n : ℕ). n * 2 ^ speed) power ∙ pow_sum k speed in
    (
      k + speed,
      pow-le_back (k + speed) 32 (omega (arith, buckets)),
      omega (arith, buckets),
      buckets,
      omega (arith, buckets, roomy),
    )

-- A successful `hm_cache_init` leaves a consistent cache that holds no entries, where the number of
-- buckets is at most 2 ^ 32.
pub init-Represents :
    (place size capacity speed : ℕ) (memory : List Element) {p : Placed}
    → length memory ≡ capacity
    → capacity * 2 ^ speed ≤ 2 ^ 32
    → init place size capacity speed memory ≡ ok p
    → (bits : ℕ) × (2 ^ bits ≡ capacity * 2 ^ speed) × Represents bits capacity p.cache []
unfolding init
init-Represents place size capacity speed memory {p} whole fits h =
    let (needed, sized, rest) = >>=-eq-ok (cache_place_size capacity speed) _ h in
    let (_, _, done) =
      >>=-eq-ok
        (fail_if (ltb (sub64 size (sub64 (align alignment place) place)) (sub64 needed alignment))
          small_place)
        _ rest in
    let (bits, small, buckets, product, roomy) =
      valid_capacity-buckets capacity speed (cache_place_size-valid capacity speed needed sized)
        fits in
    let result = sym (ok_inj done) in
    let same_capacity : p.cache.capacity ≡ capacity =
      ap (λ (p : Placed). p.cache.capacity) result in
    let mask : p.cache.mask_for_hash ≡ 2 ^ bits - 1 = omega (
      arith,
      ap (λ (p : Placed). p.cache.mask_for_hash) result,
      product,
      fits,
      buckets,
      one-le-pow bits 2,
    ) in
    let table : p.cache.hash_table ≡ replicate (2 ^ bits) no_index =
      ap (λ (p : Placed). p.cache.hash_table) result
      ∙ ap (λ (n : ℕ). replicate n no_index) buckets in
    (
      bits,
      sym product,
      record {
        used = [];
        free = range_from 0 capacity;
        consistent = record {
          whole = init-IsWhole place size capacity speed memory whole h;
          small = small;
          masked = mask;
          roomy = omega (arith, same_capacity, roomy);
          table =
              subst
                (λ (t : List ℕ).
                  IsTable (2 ^ bits) (key_of p.cache.list_storage) (home_of p.cache.mask_for_hash) t
                    [])
                (sym table)
                (empty-IsTable (2 ^ bits) (key_of p.cache.list_storage)
                  (home_of p.cache.mask_for_hash));
        };
        capacity = same_capacity;
        contents = refl;
      },
    )
