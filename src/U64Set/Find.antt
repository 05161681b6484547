-- ===== src/U64Set/Find.antt =====
-- `hm_u64_find` on a compiled database.
use mathlib.Core.List.{Perm}
use mathlib.Core.Logic.{∥∥₁_elim}
use mathlib.Core.Bool.{Bool-set}
use native.Mathlib.Nat.{add-zero}
use Prim.Native.Nat.{bit_and}
use hipermap.Common.{
  ℕ, ◌+◌, ◌-◌, ◌<◌, ◌≡◌, ◌≢◌, ◌↔◌, ◌⊎◌, inl, inr, refl, ap, ◌∙◌, arith, true, false, ◌||◌, List, [],
  ◌∷◌, Mem, Outcome, ok, >>=-eq-ok, fail_if-eq-ok, length, get_or, Mem-All, Bool-cases, ◌==◌, ltb,
  fail_if, no_masks, bad_value, small_place,
}
use hipermap.Slots.{Found, hash_table_buckets, build, bucket}
use hipermap.Slots.Group.{Holds}
use hipermap.Slots.Put.{four_slots}
use hipermap.Slots.PutAll.{NonZero}
use hipermap.Slots.Table.{IsMask, IsTable}
use hipermap.Slots.Sizes.{hash_table_buckets-IsMask}
use hipermap.Slots.Build.{build-IsTable}
use hipermap.Words.{sub64}
use hipermap.U64Set.{
  Database, key_cell, hash64, has_zero, compile, find, db_place_size, align32, alignment,
  database_size,
}

has_zero-NonZero : (keys : List ℕ) → has_zero keys ≡ false → NonZero key_cell keys
unfolding has_zero
has_zero-NonZero [] h = tt
has_zero-NonZero (k ∷ ks) h = (ground arith, has_zero-NonZero ks (ground arith))

-- What the fields of a compiled database are.
pub record IsCompiled (keys : List ℕ) (db : Database) : Type 0 where
  pub is_mask : IsMask db.mask_for_hash
  pub nonempty : 0 < length keys
  pub nonzero : NonZero key_cell keys
  pub buckets : hash_table_buckets (length keys) ≡ ok (db.mask_for_hash + 4)
  pub table : IsTable key_cell db.factor1 db.factor2 db.mask_for_hash keys db.hash_table

-- The calls that a successful `hm_u64_compile` made.
pub record Calls (qsort : List ℕ → List ℕ) (fuel place size : ℕ) (keys : List ℕ) (db : Database)
    : Type 0 where
  pub buckets : ℕ
  pub needed : ℕ
  pub found : Found ℕ
  pub some_keys : (length keys == 0) ≡ false
  pub no_zero : has_zero keys ≡ false
  pub sized : db_place_size (length keys) ≡ ok needed
  pub fits : ltb (sub64 size (sub64 (align32 place) place)) (sub64 needed alignment) ≡ false
  pub counted : hash_table_buckets (length keys) ≡ ok buckets
  pub built : build key_cell qsort fuel (buckets - 1 - 3) (get_or keys 0 0) keys ≡ ok found
  pub result : db ≡ record {
    place = align32 place;
    hash_table_place = align32 place + database_size;
    hash_table = found.table;
    factor1 = found.factor1;
    factor2 = found.factor2;
    mask_for_hash = buckets - 1 - 3;
  }

pub compile-Calls :
    (qsort : List ℕ → List ℕ) (fuel place size : ℕ) (keys : List ℕ) {db : Database}
    → compile qsort fuel place size keys ≡ ok db
    → Calls qsort fuel place size keys db
unfolding compile
compile-Calls qsort fuel place size keys {db} h =
    let (_, e1, h1) = >>=-eq-ok (fail_if (length keys == 0) no_masks) _ h in
    let (_, e2, h2) = >>=-eq-ok (fail_if (has_zero keys) bad_value) _ h1 in
    let (needed, e3, h3) = >>=-eq-ok (db_place_size (length keys)) _ h2 in
    let (_, e4, h4) =
      >>=-eq-ok
        (fail_if (ltb (sub64 size (sub64 (align32 place) place)) (sub64 needed alignment))
          small_place)
        _ h3 in
    let (buckets, e5, h5) = >>=-eq-ok (hash_table_buckets (length keys)) _ h4 in
    let (found, e6, h6) =
      >>=-eq-ok (build key_cell qsort fuel (buckets - 1 - 3) (get_or keys 0 0) keys) _ h5 in
    record {
      buckets = buckets;
      needed = needed;
      found = found;
      some_keys = fail_if-eq-ok _ no_masks e1;
      no_zero = fail_if-eq-ok _ bad_value e2;
      sized = e3;
      fits = fail_if-eq-ok _ small_place e4;
      counted = e5;
      built = e6;
      result = ground arith;
    }

pub compile-IsCompiled :
    (qsort : List ℕ → List ℕ) (permutes : (xs : List ℕ) → Perm (qsort xs) xs) (fuel place size : ℕ)
    (keys : List ℕ) {db : Database}
    → compile qsort fuel place size keys ≡ ok db
    → IsCompiled keys db
compile-IsCompiled qsort permutes fuel place size keys {db} h =
    let c = compile-Calls qsort fuel place size keys h in
    let (is_mask, least, _) = hash_table_buckets-IsMask (length keys) c.buckets c.counted in
    let same : c.buckets - 1 - 3 ≡ c.buckets - 4 = omega arith in
    let mask : IsMask (c.buckets - 1 - 3) = rw same is_mask in
    let nonzero = has_zero-NonZero keys c.no_zero in
    rw c.result (record {
      is_mask = mask;
      nonempty = ground arith;
      nonzero = nonzero;
      buckets = c.counted ∙ ap {B = Outcome ℕ} ok (omega arith);
      table =
          build-IsTable key_cell qsort permutes fuel (c.buckets - 1 - 3) (get_or keys 0 0) keys mask
            nonzero c.built;
    })

some_slot :
    (x y z w k : ℕ)
    → (x == k || (y == k || (z == k || w == k))) ≡ true
    → (x ≡ k) ⊎ ((y ≡ k) ⊎ ((z ≡ k) ⊎ (w ≡ k)))
some_slot x y z w k h = ground arith

no_slot :
    (x y z w k : ℕ)
    → (x == k || (y == k || (z == k || w == k))) ≡ false
    → (x ≢ k) × (y ≢ k) × (z ≢ k) × (w ≢ k)
no_slot x y z w k h = ground arith

-- The four comparisons of `hm_u64_find` are the slots of the key's group.
find-Holds :
    (db : Database) (k : ℕ)
    → find db k ≡ true
    → Holds key_cell db.hash_table (bucket db.factor1 db.factor2 db.mask_for_hash k) k
unfolding find hash64 bucket
find-Holds db k h =
    let b = bit_and (hash64 db k) db.mask_for_hash in
    let slot = λ (i : ℕ). get_or db.hash_table i 0 in
    elim (some_slot (slot b) (slot (b + 1)) (slot (b + 2)) (slot (b + 3)) k h) [
      | inl e ↦ (0, omega arith, rw add-zero e)
      | inr (inl e) ↦ (1, omega arith, e)
      | inr (inr (inl e)) ↦ (2, omega arith, e)
      | inr (inr (inr e)) ↦ (3, omega arith, e)
    ]

Holds-find :
    (db : Database) (k : ℕ)
    → Holds key_cell db.hash_table (bucket db.factor1 db.factor2 db.mask_for_hash k) k
    → find db k ≡ true
unfolding find hash64 bucket
Holds-find db k (s, hs, same) = elim (Bool-cases (find db k)) [
  | inl e ↦ e
  | inr e ↦
      let b = bit_and (hash64 db k) db.mask_for_hash in
      let slot = λ (i : ℕ). get_or db.hash_table i 0 in
      let (n0, n1, n2, n3) = no_slot (slot b) (slot (b + 1)) (slot (b + 2)) (slot (b + 3)) k e in
      absurd (four_slots (λ i. slot i ≢ k) b n0 n1 n2 n3 s hs same)
]

-- The keys of a compiled database are found, and no other key is.
pub find-IsCompiled :
    (keys : List ℕ) (db : Database) (k : ℕ) → IsCompiled keys db → (find db k ≡ true) ↔ Mem k keys
find-IsCompiled keys db k c = (
  λ h. c.table.only k k refl (find-Holds db k h),
  λ m.
      ∥∥₁_elim
        (Mem-All (λ j. ∥ Holds key_cell db.hash_table (bucket_of j) j ∥₁) (λ j. squash₁) k keys m
          c.table.stored)
        (Bool-set _ _) (Holds-find db k),
)
  where
    bucket_of : ℕ → ℕ
    bucket_of = bucket db.factor1 db.factor2 db.mask_for_hash

-- After `hm_u64_compile` returned HM_SUCCESS, for a `qsort` that permutes, `hm_u64_find` is true
-- exactly for the given keys.
pub find-compile :
    (qsort : List ℕ → List ℕ) (permutes : (xs : List ℕ) → Perm (qsort xs) xs) (fuel place size : ℕ)
    (keys : List ℕ) {db : Database}
    → compile qsort fuel place size keys ≡ ok db
    → (k : ℕ) → (find db k ≡ true) ↔ Mem k keys
find-compile qsort permutes fuel place size keys {db} h k =
    find-IsCompiled keys db k (compile-IsCompiled qsort permutes fuel place size keys h)
