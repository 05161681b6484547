-- ===== src/U64Map/Find.antt =====
-- `hm_u64map_find` on a compiled database.
use mathlib.Core.List.{Perm, mem-cons, not-mem-nil}
use mathlib.Core.Logic.{∥∥₁_elim}
use mathlib.Core.HLevel.{¬_prop, ⊥_prop}
use mathlib.Core.Logic.Or
use native.Mathlib.Nat.{add-zero, ℕ_set}
use Prim.Native.Nat.{bit_and}
use hipermap.Common.{
  ℕ, ◌+◌, ◌-◌, ◌<◌, ◌≡◌, ◌≢◌, ◌⊎◌, inl, inr, refl, sym, ap, ◌∙◌, arith, true, false, List, [], ◌∷◌,
  Mem, Outcome, ok, >>=-eq-ok, fail_if-eq-ok, length, get_or, Mem-All, ◌==◌, ==_iff, eq_cases,
  subst, if◌then◌else◌, ltb, fail_if, no_masks, bad_value, small_place,
}
use hipermap.Slots.{Found, hash_table_buckets, build, bucket}
use hipermap.Slots.Group.{Holds}
use hipermap.Slots.Put.{Lacks, Lacks-Holds}
use hipermap.Slots.PutAll.{Distinct, NonZero}
use hipermap.Slots.Table.{IsMask, IsTable}
use hipermap.Slots.Sizes.{hash_table_buckets-IsMask}
use hipermap.Slots.Build.{build-IsTable}
use hipermap.Words.{sub64}
use hipermap.U64Map.{
  KeyValue, no_entry, Database, entry_cell, hash64, has_zero, compile, find, db_place_size, align64,
  alignment, database_size,
}

has_zero-NonZero : (entries : List KeyValue) → has_zero entries ≡ false → NonZero entry_cell entries
unfolding has_zero
has_zero-NonZero [] h = tt
has_zero-NonZero (c ∷ cs) h = (ground arith, has_zero-NonZero cs (ground arith))

-- What the fields of a compiled database are.
pub record IsCompiled (entries : List KeyValue) (db : Database) : Type 0 where
  pub is_mask : IsMask db.mask_for_hash
  pub nonempty : 0 < length entries
  pub nonzero : NonZero entry_cell entries
  pub buckets : hash_table_buckets (length entries) ≡ ok (db.mask_for_hash + 4)
  pub table : IsTable entry_cell db.factor1 db.factor2 db.mask_for_hash entries db.hash_table

-- The calls that a successful `hm_u64map_compile` made.
pub record Calls (qsort : List KeyValue → List KeyValue) (fuel place size : ℕ)
    (entries : List KeyValue) (db : Database) : Type 0 where
  pub buckets : ℕ
  pub needed : ℕ
  pub found : Found KeyValue
  pub some_keys : (length entries == 0) ≡ false
  pub no_zero : has_zero entries ≡ false
  pub sized : db_place_size (length entries) ≡ ok needed
  pub fits : ltb (sub64 size (sub64 (align64 place) place)) (sub64 needed alignment) ≡ false
  pub counted : hash_table_buckets (length entries) ≡ ok buckets
  pub built :
      build entry_cell qsort fuel (buckets - 1 - 3) (get_or entries 0 no_entry).key entries
      ≡ ok found
  pub result : db ≡ record {
    place = align64 place;
    hash_table_place = align64 place + database_size;
    hash_table = found.table;
    factor1 = found.factor1;
    factor2 = found.factor2;
    mask_for_hash = buckets - 1 - 3;
  }

pub compile-Calls :
    (qsort : List KeyValue → List KeyValue) (fuel place size : ℕ) (entries : List KeyValue)
    {db : Database}
    → compile qsort fuel place size entries ≡ ok db
    → Calls qsort fuel place size entries db
unfolding compile
compile-Calls qsort fuel place size entries {db} h =
    let (_, e1, h1) = >>=-eq-ok (fail_if (length entries == 0) no_masks) _ h in
    let (_, e2, h2) = >>=-eq-ok (fail_if (has_zero entries) bad_value) _ h1 in
    let (needed, e3, h3) = >>=-eq-ok (db_place_size (length entries)) _ h2 in
    let (_, e4, h4) =
      >>=-eq-ok
        (fail_if (ltb (sub64 size (sub64 (align64 place) place)) (sub64 needed alignment))
          small_place)
        _ h3 in
    let (buckets, e5, h5) = >>=-eq-ok (hash_table_buckets (length entries)) _ h4 in
    let (found, e6, h6) =
      >>=-eq-ok
        (build entry_cell qsort fuel (buckets - 1 - 3) (get_or entries 0 no_entry).key entries) _
        h5 in
    record {
      buckets = buckets;
      needed = needed;
      found = found;
      some_keys = fail_if-eq-ok _ no_masks e1;
      no_zero = fail_if-eq-ok _ bad_value e2;
      sized = e3;
      fits = fail_if-eq-ok _ small_place e4;
      counted = e5;
      built = e6;
      result = ground arith;
    }

pub compile-IsCompiled :
    (qsort : List KeyValue → List KeyValue) (permutes : (xs : List KeyValue) → Perm (qsort xs) xs)
    (fuel place size : ℕ) (entries : List KeyValue) {db : Database}
    → compile qsort fuel place size entries ≡ ok db
    → IsCompiled entries db
compile-IsCompiled qsort permutes fuel place size entries {db} h =
    let c = compile-Calls qsort fuel place size entries h in
    let (is_mask, least, _) = hash_table_buckets-IsMask (length entries) c.buckets c.counted in
    let same : c.buckets - 1 - 3 ≡ c.buckets - 4 = omega arith in
    let mask : IsMask (c.buckets - 1 - 3) = rw same is_mask in
    let nonzero = has_zero-NonZero entries c.no_zero in
    rw c.result (record {
      is_mask = mask;
      nonempty = ground arith;
      nonzero = nonzero;
      buckets = c.counted ∙ ap {B = Outcome ℕ} ok (omega arith);
      table =
          build-IsTable entry_cell qsort permutes fuel (c.buckets - 1 - 3)
            (get_or entries 0 no_entry).key entries mask nonzero c.built;
    })

-- The value of the first entry with the key, or 0.
abbrev pub lookup_value : List KeyValue → ℕ → ℕ
lookup_value [] k = 0
lookup_value (c ∷ cs) k = if c.key == k then c.value else lookup_value cs k

-- `hm_u64map_find` returns the value of a slot of the group that has the key, or no slot has it.
data Result (db : Database) (k result : ℕ) : Type 0 where
  hit :
      (c : KeyValue)
      → Holds entry_cell db.hash_table (bucket db.factor1 db.factor2 db.mask_for_hash k) c
      → c.key ≡ k
      → result ≡ c.value
      → Result db k result
  miss :
      Lacks entry_cell db.hash_table (bucket db.factor1 db.factor2 db.mask_for_hash k) k
      → result ≡ 0
      → Result db k result

find-Result : (db : Database) (k : ℕ) → Result db k (find db k)
unfolding find hash64 bucket
find-Result db k =
    let b = bit_and (hash64 db k) db.mask_for_hash in
    let slot = λ (i : ℕ). get_or db.hash_table i no_entry in
    elim (eq_cases (slot b).key k) [
      | inl e ↦ hit (slot b) (0, omega arith, rw add-zero refl) e (ground arith)
      | inr n0 ↦ elim (eq_cases (slot (b + 1)).key k) [
        | inl e ↦ hit (slot (b + 1)) (1, omega arith, refl) e (ground arith)
        | inr n1 ↦ elim (eq_cases (slot (b + 2)).key k) [
          | inl e ↦ hit (slot (b + 2)) (2, omega arith, refl) e (ground arith)
          | inr n2 ↦ elim (eq_cases (slot (b + 3)).key k) [
            | inl e ↦ hit (slot (b + 3)) (3, omega arith, refl) e (ground arith)
            | inr n3 ↦ miss (n0, n1, n2, n3) (ground arith)
          ]
        ]
      ]
    ]

-- Among entries with different keys a member is the one that is looked up.
lookup_value-Mem :
    (entries : List KeyValue) (c : KeyValue)
    → Distinct entry_cell entries
    → Mem c entries
    → lookup_value entries c.key ≡ c.value
lookup_value-Mem [] c distinct m = absurd (not-mem-nil m)
lookup_value-Mem (d ∷ ds) c distinct m =
    Or.elim (ℕ_set _ _) (mem-cons.0 m)
      (λ e.
        let same : (d.key == c.key) ≡ true =
          (==_iff _ _).1 (sym (ap (λ (x : KeyValue). x.key) e)) in
        rw same (sym (ap (λ (x : KeyValue). x.value) e)))
      (λ m'.
        let apart : c.key ≢ d.key =
          Mem-All (λ (x : KeyValue). x.key ≢ d.key) (λ x. ¬_prop) c ds m' distinct.0 in
        let other : (d.key == c.key) ≡ false = ground arith in
        rw other (lookup_value-Mem ds c distinct.1 m'))

-- A key is looked up in an entry that has it, or there is none.
lookup_value-cases :
    (entries : List KeyValue) (k : ℕ)
    → ((c : KeyValue) × Mem c entries × (c.key ≡ k)) ⊎ (lookup_value entries k ≡ 0)
lookup_value-cases [] k = inr refl
lookup_value-cases (c ∷ cs) k = elim (eq_cases c.key k) [
  | inl e ↦ inl (c, mem-cons.1 (Or.inl refl), e)
  | inr ne ↦
      let other : (c.key == k) ≡ false = ground arith in
      elim (lookup_value-cases cs k) [
        | inl (d, m, e) ↦ inl (d, mem-cons.1 (Or.inr m), e)
        | inr none_left ↦ inr (rw other none_left)
      ]
]

pub find-IsCompiled :
    (entries : List KeyValue) (db : Database) (k : ℕ)
    → IsCompiled entries db
    → find db k ≡ lookup_value entries k
find-IsCompiled entries db k compiled = by_result (find-Result db k)
  where
    open compiled use {table}

    bucket_of : ℕ → ℕ
    bucket_of = bucket db.factor1 db.factor2 db.mask_for_hash

    by_result : Result db k (find db k) → find db k ≡ lookup_value entries k
    by_result (hit c held e found) =
        found
        ∙ sym (lookup_value-Mem entries c table.distinct (table.only k c e held))
        ∙ ap (lookup_value entries) e
    by_result (miss lacks found) = elim (lookup_value-cases entries k) [
      | inr none_left ↦ found ∙ sym none_left
      | inl (c, m, e) ↦ absurd (
          ∥∥₁_elim
            (Mem-All (λ (d : KeyValue). ∥ Holds entry_cell db.hash_table (bucket_of d.key) d ∥₁)
              (λ d. squash₁) c entries m table.stored)
            ⊥_prop
            λ held.
              Lacks-Holds entry_cell db.hash_table (bucket_of k) c k lacks
                (subst (λ j. Holds entry_cell db.hash_table (bucket_of j) c) e held) e)
    ]

-- After `hm_u64map_compile` returned HM_SUCCESS, for a `qsort` that permutes, `hm_u64map_find`
-- returns for every key the value of its entry, and 0 where no entry has the key.
pub lookup-compile :
    (qsort : List KeyValue → List KeyValue) (permutes : (xs : List KeyValue) → Perm (qsort xs) xs)
    (fuel place size : ℕ) (entries : List KeyValue) {db : Database}
    → compile qsort fuel place size entries ≡ ok db
    → (k : ℕ) → find db k ≡ lookup_value entries k
lookup-compile qsort permutes fuel place size entries {db} h k =
    find-IsCompiled entries db k (compile-IsCompiled qsort permutes fuel place size entries h)
