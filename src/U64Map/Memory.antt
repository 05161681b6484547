-- ===== src/U64Map/Memory.antt =====
-- `hm_u64map_compile` and its memory: the buffer of `hm_u64map_db_place_size` bytes is enough, nothing is
-- written outside it, and the size that wraps.
use mathlib.Core.List.{Perm}
use hipermap.Common.{
  ℕ, suc, ◌+◌, ◌-◌, ◌*◌, ◌%◌, ◌^◌, ◌≤◌, ◌<◌, ◌≡◌, ◌≢◌, sym, ap, ◌∙◌, arith, false, List, ◌∷◌, ok,
  err, exhausted, >>=-eq-ok, small_place, length, get_or, ◌==◌, ltb, le_of_ltb-false, lt_of_ltb,
  ltb-false_of_le,
}
use hipermap.Words.{sub64}
use hipermap.Words.Align.{IsAligned, align-IsAligned_64}
use hipermap.Slots.{hash64, bucket, collision, put_all, clear_hash_table, hash_table_buckets}
use hipermap.Slots.PutAll.{Distinct, NonZero}
use hipermap.Slots.Sizes.{hash_table_buckets-IsMask}
use hipermap.Slots.Total.{bucket_one-ne, build-ok}
use hipermap.Slots.Degenerate.{build-exhausted}
use hipermap.U64Map.{
  KeyValue, no_entry, Database, entry_cell, compile, db_place_size, get_db_place, align64,
  alignment, database_size,
}
use hipermap.U64Map.Find.{compile-IsCompiled, compile-Calls}
use hipermap.Slots.Errors.{build-eq-err}
use hipermap.U64Map.Compile.{
  NonZeroValues, NonZero-has_zero, Cause, no_keys, zero_key, too_small, twice, compile-Cause,
}

pub align64-IsAligned : (place : ℕ) → place + 64 < 2 ^ 64 → IsAligned 64 place (align64 place)
unfolding align64
align64-IsAligned place h = align-IsAligned_64 place h

pub get_db_place_lem : (buckets : ℕ) → buckets < 2 ^ 31 → get_db_place buckets ≡ 16 * buckets + 96
unfolding get_db_place
get_db_place_lem buckets h = ground arith

db_place_size_of_buckets :
    (n buckets : ℕ) → hash_table_buckets n ≡ ok buckets → db_place_size n ≡ ok (16 * buckets + 96)
unfolding db_place_size
db_place_size_of_buckets n buckets e =
    let (_, _, small) = hash_table_buckets-IsMask n buckets e in
    rw (e, get_db_place_lem buckets small)

-- Where a successful call writes: the structure is 64-byte aligned and lies after `db_place`, the
-- table follows it, and its last word ends inside the buffer.
pub record IsInside (place size : ℕ) (db : Database) : Type 0 where
  pub aligned : db.place % 64 ≡ 0
  pub after : place ≤ db.place
  pub table_after : db.hash_table_place ≡ db.place + 32
  pub table_words : length db.hash_table ≡ db.mask_for_hash + 4
  pub inside : db.hash_table_place + 16 * length db.hash_table ≤ place + size

-- If the buffer has at least the 64 bytes that aligning may skip, and lies in the address space,
-- a call that returns HM_SUCCESS writes inside the buffer only.
pub compile-IsInside_map :
    (qsort : List KeyValue → List KeyValue) (permutes : (xs : List KeyValue) → Perm (qsort xs) xs)
    (fuel place size : ℕ) (entries : List KeyValue) {db : Database}
    → 64 ≤ size
    → place + size < 2 ^ 64
    → compile qsort fuel place size entries ≡ ok db
    → IsInside place size db
compile-IsInside_map qsort permutes fuel place size entries {db} enough space h =
    let c = compile-Calls qsort fuel place size entries h in
    let a = align64-IsAligned place (omega arith) in
    let (m, least, small) = hash_table_buckets-IsMask (length entries) c.buckets c.counted in
    let needed : ok c.needed ≡ ok (16 * c.buckets + 96) =
      sym c.sized ∙ db_place_size_of_buckets (length entries) c.buckets c.counted in
    let needed' : c.needed ≡ 16 * c.buckets + 96 = ground arith in
    let t = (compile-IsCompiled qsort permutes fuel place size entries h).table.length_lem in
    let fits = le_of_ltb-false _ _ c.fits in
    let at_place : db.place ≡ align64 place = ap (λ (d : Database). d.place) c.result in
    let at_table : db.hash_table_place ≡ align64 place + 32 =
      ap (λ (d : Database). d.hash_table_place) c.result in
    let at_mask : db.mask_for_hash ≡ c.buckets - 1 - 3 =
      ap (λ (d : Database). d.mask_for_hash) c.result in
    record {
      aligned = omega arith;
      after = omega arith;
      table_after = omega arith;
      table_words = t;
      inside = omega arith;
    }

-- The buckets behind a size.
db_place_size-inv :
    (n : ℕ) {needed : ℕ}
    → db_place_size n ≡ ok needed
    → (buckets : ℕ) × (hash_table_buckets n ≡ ok buckets)
      × (needed ≡ 16 * buckets + 96)
      × (buckets < 2 ^ 31)
unfolding db_place_size
db_place_size-inv n {needed} h =
    let (buckets, counted, _) = >>=-eq-ok (hash_table_buckets n) _ h in
    let (_, _, small) = hash_table_buckets-IsMask n buckets counted in
    let same : ok needed ≡ ok (16 * buckets + 96) =
      sym h ∙ db_place_size_of_buckets n buckets counted in
    (buckets, counted, ground arith, small)

-- With fewer bytes than aligning skips, `db_place_size` wraps and the size test passes: the call
-- does not report HM_ERROR_SMALL_PLACE.
pub compile-ne-small_place_map :
    (qsort : List KeyValue → List KeyValue) (fuel place size : ℕ) (entries : List KeyValue)
    → place + 64 < 2 ^ 64
    → size < align64 place - place
    → compile qsort fuel place size entries ≢ err small_place
compile-ne-small_place_map qsort fuel place size entries space short h =
    by_cause (compile-Cause qsort fuel place size entries small_place h)
  where
    by_cause : Cause qsort fuel place size entries small_place → ⊥
    by_cause (no_keys a b) = cc b
    by_cause (zero_key a b) = cc b
    by_cause (twice buckets counted built z) = cc (
        build-eq-err entry_cell qsort fuel (buckets - 1 - 3) (get_or entries 0 no_entry).key entries
          small_place built)
    by_cause (too_small needed sized below b) =
        let (buckets, counted, e, bound) = db_place_size-inv (length entries) sized in
        let a = align64-IsAligned place space in let lt = lt_of_ltb _ _ below in omega arith

-- A buffer of the size that `hm_u64map_db_place_size` returns is large enough.
size_test_passes :
    (place size n needed : ℕ)
    → place + 64 < 2 ^ 64
    → size < 2 ^ 64
    → db_place_size n ≡ ok needed
    → needed ≤ size
    → ltb (sub64 size (sub64 (align64 place) place)) (sub64 needed alignment) ≡ false
size_test_passes place size n needed space small sized fits =
    let (buckets, counted, e, bound) = db_place_size-inv n sized in
    let a = align64-IsAligned place space in ltb-false_of_le _ _ (omega arith)

-- One to four different nonzero entries and a buffer of the size that `hm_u64map_db_place_size` returns:
-- the call returns HM_SUCCESS, whatever fuel it has.
pub compile-ok_map :
    (qsort : List KeyValue → List KeyValue) (f place size : ℕ) (entries : List KeyValue)
    (needed : ℕ)
    → 0 < length entries
    → length entries ≤ 4
    → NonZero entry_cell entries
    → NonZeroValues entries
    → Distinct entry_cell entries
    → place + 64 < 2 ^ 64
    → size < 2 ^ 64
    → db_place_size (length entries) ≡ ok needed
    → needed ≤ size
    → (db : Database) × (compile qsort (suc f) place size entries ≡ ok db)
unfolding compile
compile-ok_map qsort f place size entries needed some_keys few nonzero values distinct space small
      sized fits =
    let (buckets, counted, e, bound) = db_place_size-inv (length entries) sized in
    let (m, least, _) = hash_table_buckets-IsMask (length entries) buckets counted in
    let away = bucket_one-ne (length entries) buckets some_keys few counted in
    let same : buckets - 1 - 3 ≡ buckets - 4 = omega arith in
    let (found, built) =
      build-ok entry_cell qsort f (buckets - 1 - 3) (get_or entries 0 no_entry).key entries
        (rw same m) nonzero distinct few away in
    let present : (length entries == 0) ≡ false = ground arith in
    (
      record {
        place = align64 place;
        hash_table_place = align64 place + database_size;
        hash_table = found.table;
        factor1 = found.factor1;
        factor2 = found.factor2;
        mask_for_hash = buckets - 1 - 3;
      },
      rw (
        present,
        NonZero-has_zero entries nonzero values,
        sized,
        size_test_passes place size (length entries) needed space small sized fits,
        counted,
        built,
      ),
    )

-- Five or more different nonzero entries of which the first hashes to 0 under the initial factors and
-- whose first attempt meets a collision: whatever the fuel, the call never returns.
pub compile-exhausted_map :
    (qsort : List KeyValue → List KeyValue) (place size : ℕ) (a b c d f : KeyValue)
    (rest : List KeyValue) (buckets needed : ℕ)
    → NonZero entry_cell (a ∷ b ∷ c ∷ d ∷ f ∷ rest)
    → NonZeroValues (a ∷ b ∷ c ∷ d ∷ f ∷ rest)
    → Distinct entry_cell (a ∷ b ∷ c ∷ d ∷ f ∷ rest)
    → hash_table_buckets (length (a ∷ b ∷ c ∷ d ∷ f ∷ rest)) ≡ ok buckets
    → hash64 0xA6C3096657A14E89 0x24F963569D05D92E a.key ≡ 0
    → put_all entry_cell
        (bucket 0xA6C3096657A14E89 0x24F963569D05D92E (buckets - 4))
        (a ∷ b ∷ c ∷ d ∷ f ∷ rest)
        (clear_hash_table entry_cell (buckets - 4))
      ≡ collision
    → place + 64 < 2 ^ 64
    → size < 2 ^ 64
    → db_place_size (length (a ∷ b ∷ c ∷ d ∷ f ∷ rest)) ≡ ok needed
    → needed ≤ size
    → (fuel : ℕ) → compile qsort fuel place size (a ∷ b ∷ c ∷ d ∷ f ∷ rest) ≡ exhausted
unfolding compile
compile-exhausted_map qsort place size a b c d f rest buckets needed nonzero values distinct counted
      zero_hash full space room sized fits fuel =
    let (m, least, _) =
      hash_table_buckets-IsMask (length (a ∷ b ∷ c ∷ d ∷ f ∷ rest)) buckets counted in
    let same : buckets - 1 - 3 ≡ buckets - 4 = omega arith in
    let present : (length (a ∷ b ∷ c ∷ d ∷ f ∷ rest) == 0) ≡ false = ground arith in
    rw (
      present,
      NonZero-has_zero (a ∷ b ∷ c ∷ d ∷ f ∷ rest) nonzero values,
      sized,
      size_test_passes place size (length (a ∷ b ∷ c ∷ d ∷ f ∷ rest)) needed space room sized fits,
      counted,
      same,
      build-exhausted entry_cell qsort (buckets - 4) m a.key a b c d f rest nonzero distinct
          zero_hash full fuel,
    )
