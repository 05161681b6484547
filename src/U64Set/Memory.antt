-- ===== src/U64Set/Memory.antt =====
-- `hm_u64_compile` and its memory: the buffer of `hm_u64_db_place_size` bytes is enough, nothing is
-- written outside it, and the size that wraps.
use mathlib.Core.List.{Perm}
use hipermap.Common.{
  ℕ, suc, ◌+◌, ◌-◌, ◌*◌, ◌%◌, ◌^◌, ◌≤◌, ◌<◌, ◌≡◌, ◌≢◌, sym, ap, ◌∙◌, arith, false, List, ◌∷◌, ok,
  err, exhausted, >>=-eq-ok, small_place, length, get_or, ◌==◌, ltb, le_of_ltb-false, lt_of_ltb,
  ltb-false_of_le,
}
use hipermap.Words.{sub64}
use hipermap.Words.Align.{IsAligned, align-IsAligned_32}
use hipermap.Slots.{hash64, bucket, collision, put_all, clear_hash_table, hash_table_buckets}
use hipermap.Slots.PutAll.{Distinct, NonZero}
use hipermap.Slots.Sizes.{hash_table_buckets-IsMask}
use hipermap.Slots.Total.{bucket_one-ne, build-ok}
use hipermap.Slots.Degenerate.{build-exhausted}
use hipermap.U64Set.{
  Database, key_cell, compile, db_place_size, get_db_place, align32, alignment, database_size,
}
use hipermap.U64Set.Find.{compile-IsCompiled, compile-Calls}
use hipermap.Slots.Errors.{build-eq-err}
use hipermap.U64Set.Compile.{
  NonZero-has_zero, Cause, no_keys, zero_key, too_small, twice, compile-Cause,
}

pub align32-IsAligned : (place : ℕ) → place + 32 < 2 ^ 64 → IsAligned 32 place (align32 place)
unfolding align32
align32-IsAligned place h = align-IsAligned_32 place h

pub get_db_place_lem : (buckets : ℕ) → buckets < 2 ^ 31 → get_db_place buckets ≡ 8 * buckets + 64
unfolding get_db_place
get_db_place_lem buckets h = ground arith

db_place_size_of_buckets :
    (n buckets : ℕ) → hash_table_buckets n ≡ ok buckets → db_place_size n ≡ ok (8 * buckets + 64)
unfolding db_place_size
db_place_size_of_buckets n buckets e =
    let (_, _, small) = hash_table_buckets-IsMask n buckets e in
    rw (e, get_db_place_lem buckets small)

-- Where a successful call writes: the structure is 32-byte aligned and lies after `db_place`, the
-- table follows it, and its last word ends inside the buffer.
pub record IsInside (place size : ℕ) (db : Database) : Type 0 where
  pub aligned : db.place % 32 ≡ 0
  pub after : place ≤ db.place
  pub table_after : db.hash_table_place ≡ db.place + 32
  pub table_words : length db.hash_table ≡ db.mask_for_hash + 4
  pub inside : db.hash_table_place + 8 * length db.hash_table ≤ place + size

-- If the buffer has at least the 32 bytes that aligning may skip, and lies in the address space,
-- a call that returns HM_SUCCESS writes inside the buffer only.
pub compile-IsInside :
    (qsort : List ℕ → List ℕ) (permutes : (xs : List ℕ) → Perm (qsort xs) xs) (fuel place size : ℕ)
    (keys : List ℕ) {db : Database}
    → 32 ≤ size
    → place + size < 2 ^ 64
    → compile qsort fuel place size keys ≡ ok db
    → IsInside place size db
compile-IsInside qsort permutes fuel place size keys {db} enough space h =
    let c = compile-Calls qsort fuel place size keys h in
    let a = align32-IsAligned place (omega arith) in
    let (m, least, small) = hash_table_buckets-IsMask (length keys) c.buckets c.counted in
    let needed : ok c.needed ≡ ok (8 * c.buckets + 64) =
      sym c.sized ∙ db_place_size_of_buckets (length keys) c.buckets c.counted in
    let needed' : c.needed ≡ 8 * c.buckets + 64 = ground arith in
    let t = (compile-IsCompiled qsort permutes fuel place size keys h).table.length_lem in
    let fits = le_of_ltb-false _ _ c.fits in
    let at_place : db.place ≡ align32 place = ap (λ (d : Database). d.place) c.result in
    let at_table : db.hash_table_place ≡ align32 place + 32 =
      ap (λ (d : Database). d.hash_table_place) c.result in
    let at_mask : db.mask_for_hash ≡ c.buckets - 1 - 3 =
      ap (λ (d : Database). d.mask_for_hash) c.result in
    record {
      aligned = omega arith;
      after = omega arith;
      table_after = omega arith;
      table_words = t;
      inside = omega arith;
    }

-- The buckets behind a size.
db_place_size-inv :
    (n : ℕ) {needed : ℕ}
    → db_place_size n ≡ ok needed
    → (buckets : ℕ) × (hash_table_buckets n ≡ ok buckets)
      × (needed ≡ 8 * buckets + 64)
      × (buckets < 2 ^ 31)
unfolding db_place_size
db_place_size-inv n {needed} h =
    let (buckets, counted, _) = >>=-eq-ok (hash_table_buckets n) _ h in
    let (_, _, small) = hash_table_buckets-IsMask n buckets counted in
    let same : ok needed ≡ ok (8 * buckets + 64) =
      sym h ∙ db_place_size_of_buckets n buckets counted in
    (buckets, counted, ground arith, small)

-- With fewer bytes than aligning skips, `db_place_size` wraps and the size test passes: the call
-- does not report HM_ERROR_SMALL_PLACE.
pub compile-ne-small_place :
    (qsort : List ℕ → List ℕ) (fuel place size : ℕ) (keys : List ℕ)
    → place + 32 < 2 ^ 64
    → size < align32 place - place
    → compile qsort fuel place size keys ≢ err small_place
compile-ne-small_place qsort fuel place size keys space short h =
    by_cause (compile-Cause qsort fuel place size keys small_place h)
  where
    by_cause : Cause qsort fuel place size keys small_place → ⊥
    by_cause (no_keys a b) = cc b
    by_cause (zero_key a b) = cc b
    by_cause (twice buckets counted built z) = cc (
        build-eq-err key_cell qsort fuel (buckets - 1 - 3) (get_or keys 0 0) keys small_place built)
    by_cause (too_small needed sized below b) =
        let (buckets, counted, e, bound) = db_place_size-inv (length keys) sized in
        let a = align32-IsAligned place space in let lt = lt_of_ltb _ _ below in omega arith

-- A buffer of the size that `hm_u64_db_place_size` returns is large enough.
size_test_passes :
    (place size n needed : ℕ)
    → place + 32 < 2 ^ 64
    → size < 2 ^ 64
    → db_place_size n ≡ ok needed
    → needed ≤ size
    → ltb (sub64 size (sub64 (align32 place) place)) (sub64 needed alignment) ≡ false
size_test_passes place size n needed space small sized fits =
    let (buckets, counted, e, bound) = db_place_size-inv n sized in
    let a = align32-IsAligned place space in ltb-false_of_le _ _ (omega arith)

-- One to four different nonzero keys and a buffer of the size that `hm_u64_db_place_size` returns:
-- the call returns HM_SUCCESS, whatever fuel it has.
pub compile-ok :
    (qsort : List ℕ → List ℕ) (f place size : ℕ) (keys : List ℕ) (needed : ℕ)
    → 0 < length keys
    → length keys ≤ 4
    → NonZero key_cell keys
    → Distinct key_cell keys
    → place + 32 < 2 ^ 64
    → size < 2 ^ 64
    → db_place_size (length keys) ≡ ok needed
    → needed ≤ size
    → (db : Database) × (compile qsort (suc f) place size keys ≡ ok db)
unfolding compile
compile-ok qsort f place size keys needed some_keys few nonzero distinct space small sized fits =
    let (buckets, counted, e, bound) = db_place_size-inv (length keys) sized in
    let (m, least, _) = hash_table_buckets-IsMask (length keys) buckets counted in
    let away = bucket_one-ne (length keys) buckets some_keys few counted in
    let same : buckets - 1 - 3 ≡ buckets - 4 = omega arith in
    let (found, built) =
      build-ok key_cell qsort f (buckets - 1 - 3) (get_or keys 0 0) keys (rw same m) nonzero
        distinct few away in
    let present : (length keys == 0) ≡ false = ground arith in
    (
      record {
        place = align32 place;
        hash_table_place = align32 place + database_size;
        hash_table = found.table;
        factor1 = found.factor1;
        factor2 = found.factor2;
        mask_for_hash = buckets - 1 - 3;
      },
      rw (
        present,
        NonZero-has_zero keys nonzero,
        sized,
        size_test_passes place size (length keys) needed space small sized fits,
        counted,
        built,
      ),
    )

-- Five or more different nonzero keys of which the first hashes to 0 under the initial factors and
-- whose first attempt meets a collision: whatever the fuel, the call never returns.
pub compile-exhausted :
    (qsort : List ℕ → List ℕ) (place size a b c d f : ℕ) (keys : List ℕ) (buckets needed : ℕ)
    → NonZero key_cell (a ∷ b ∷ c ∷ d ∷ f ∷ keys)
    → Distinct key_cell (a ∷ b ∷ c ∷ d ∷ f ∷ keys)
    → hash_table_buckets (length (a ∷ b ∷ c ∷ d ∷ f ∷ keys)) ≡ ok buckets
    → hash64 0xA6C3096657A14E89 0x24F963569D05D92E a ≡ 0
    → put_all key_cell
        (bucket 0xA6C3096657A14E89 0x24F963569D05D92E (buckets - 4))
        (a ∷ b ∷ c ∷ d ∷ f ∷ keys)
        (clear_hash_table key_cell (buckets - 4))
      ≡ collision
    → place + 32 < 2 ^ 64
    → size < 2 ^ 64
    → db_place_size (length (a ∷ b ∷ c ∷ d ∷ f ∷ keys)) ≡ ok needed
    → needed ≤ size
    → (fuel : ℕ) → compile qsort fuel place size (a ∷ b ∷ c ∷ d ∷ f ∷ keys) ≡ exhausted
unfolding compile
compile-exhausted qsort place size a b c d f keys buckets needed nonzero distinct counted zero_hash
      full space room sized fits fuel =
    let (m, least, _) =
      hash_table_buckets-IsMask (length (a ∷ b ∷ c ∷ d ∷ f ∷ keys)) buckets counted in
    let same : buckets - 1 - 3 ≡ buckets - 4 = omega arith in
    let present : (length (a ∷ b ∷ c ∷ d ∷ f ∷ keys) == 0) ≡ false = ground arith in
    rw (
      present,
      NonZero-has_zero (a ∷ b ∷ c ∷ d ∷ f ∷ keys) nonzero,
      sized,
      size_test_passes place size (length (a ∷ b ∷ c ∷ d ∷ f ∷ keys)) needed space room sized fits,
      counted,
      same,
      build-exhausted key_cell qsort (buckets - 4) m a a b c d f keys nonzero distinct zero_hash
          full fuel,
    )
