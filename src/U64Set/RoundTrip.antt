-- ===== src/U64Set/RoundTrip.antt =====
-- A serialized set is read back as it was, and a count that wraps the size test.
use hipermap.Common.{
  refl, [], ◌∷◌, ℕ, zero, suc, ◌+◌, ◌-◌, ◌*◌, ◌^◌, ◌≤◌, ◌<◌, ◌≡◌, sym, ap, ◌∙◌, arith, true, false,
  ◌&&◌, List, ok, undefined, length, get_or, get_or_ext, ◌==◌, ltb, leb, ltb-false_of_le,
  Bool-cases, inl, inr,
}
use hipermap.Words.{sub64, add64, mul64}
use hipermap.U64Set.{
  Database, serialized_size, serialize, db_place_size_from_serialized, read_table, deserialize,
  get_db_place, align32, alignment, database_size,
}
use hipermap.U64Set.Memory.{align32-IsAligned, get_db_place_lem}
use hipermap.U64Set.Serialize.{
  IsSized, IsSerialized, serialize-IsSerialized, serialized_size_lem, read_table-lem,
}

-- The size that the header asks for.
from_serialized-ok :
    (db : Database) (out : List ℕ) (buffer_size : ℕ)
    → IsSized db
    → IsSerialized db out
    → 8 * (3 + length db.hash_table) ≤ buffer_size
    → db_place_size_from_serialized out buffer_size ≡ ok (8 * length db.hash_table + 64)
unfolding db_place_size_from_serialized
from_serialized-ok db out buffer_size s w fits =
    let m = db.mask_for_hash + 4 in
    let a : leb buffer_size (3 * 8) ≡ false = ground (arith, s.words) in
    let b : (m == 0) ≡ false = ground arith in
    let c : ltb buffer_size (mul64 (add64 3 m) 8) ≡ false =
      ltb-false_of_le _ _ (omega (arith, s.words, s.small)) in
    rw (a, w.count, b, c, get_db_place_lem m s.small, s.words)

deserialize-ok :
    (db : Database) (out : List ℕ) (buffer_size place size : ℕ)
    → IsSized db
    → IsSerialized db out
    → 8 * (3 + length db.hash_table) ≤ buffer_size
    → place + 32 < 2 ^ 64
    → size < 2 ^ 64
    → 8 * length db.hash_table + 64 ≤ size
    → deserialize place size out buffer_size
      ≡ ok (record db { place = align32 place; hash_table_place = align32 place + database_size })
unfolding deserialize
deserialize-ok db out buffer_size place size s w fits space room enough =
    let m = db.mask_for_hash + 4 in
    let a = align32-IsAligned place space in
    let passes : ltb (sub64 size (sub64 (align32 place) place))
          (sub64 (8 * length db.hash_table + 64) alignment)
        ≡ false =
      ltb-false_of_le _ _ (omega (arith, s.words, s.small)) in
    let (t, e, l, r) =
      read_table-lem m 0 out (omega (arith, s.small)) (omega (arith, w.room, s.words)) in
    let same : t ≡ db.hash_table = get_or_ext 0 t db.hash_table (l ∙ sym s.words) λ j p.
      r j (omega arith)
      ∙ (let z : 3 + (0 + j) ≡ 3 + j = omega arith in ap (λ k. get_or out k 0) z)
      ∙ w.table j (omega (arith, s.words)) in
    let mask : sub64 (sub64 m 1) 3 ≡ db.mask_for_hash = omega (arith, s.small) in
    rw (
      from_serialized-ok db out buffer_size s w fits,
      passes,
      w.count,
      e,
      same,
      w.first,
      w.second,
      mask,
    )

-- `hm_u64_serialize` into a buffer of the size that `hm_u64_serialized_size` returns succeeds,
-- keeps the buffer's length, and `hm_u64_deserialize` of the result, into a place of 64 bytes and
-- the table, gives the same factors, mask and table.
pub deserialize-serialize :
    (buffer : List ℕ) (buffer_size : ℕ) (db : Database) (place size : ℕ)
    → IsSized db
    → serialized_size db ≤ buffer_size
    → buffer_size ≤ 8 * length buffer
    → place + 32 < 2 ^ 64
    → size < 2 ^ 64
    → 8 * length db.hash_table + 64 ≤ size
    → (out : List ℕ) × (serialize buffer buffer_size db ≡ ok out)
      × (length out ≡ length buffer)
      × (deserialize place size out buffer_size
          ≡ ok (record db {
            place = align32 place;
            hash_table_place = align32 place + database_size;
          }))
deserialize-serialize buffer buffer_size db place size s fits real space room enough =
    let (out, e, l, w) = serialize-IsSerialized buffer buffer_size db s fits real in
    let n = serialized_size_lem db s in
    (out, e, l, deserialize-ok db out buffer_size place size s w (omega arith) space room enough)

-- The test of the count is done modulo 2 ^ 64: from 2 ^ 61 - 3 on, a count is accepted for a buffer
-- that holds only as many words as the wrapped count asks for.
pub from_serialized_wraps :
    (buffer : List ℕ) (buffer_size excess : ℕ)
    → get_or buffer 2 0 ≡ 2 ^ 61 - 3 + excess
    → 24 < buffer_size
    → 8 * excess ≤ buffer_size
    → excess < 2 ^ 61
    → db_place_size_from_serialized buffer buffer_size ≡ ok (get_db_place (2 ^ 61 - 3 + excess))
unfolding db_place_size_from_serialized
from_serialized_wraps buffer buffer_size excess count some_words fits small =
    let a : leb buffer_size (3 * 8) ≡ false = ground arith in
    let b : ((2 ^ 61 - 3 + excess) == 0) ≡ false = ground arith in
    let c : ltb buffer_size (mul64 (add64 3 (2 ^ 61 - 3 + excess)) 8) ≡ false =
      ltb-false_of_le _ _ (omega arith) in
    rw (a, count, b, c)

read_table-undefined :
    (left i : ℕ) (buffer : List ℕ)
    → length buffer < 3 + i + left
    → 0 < left
    → read_table left i buffer ≡ undefined
unfolding read_table
read_table-undefined zero i buffer short some_left = absurd (omega arith)
read_table-undefined (suc left) i buffer short some_left =
    elim (Bool-cases (ltb i (2 ^ 31 - 1) && ltb (3 + i) (length buffer))) [
      | inr stop ↦ rw stop
      | inl go ↦ rw (
        go,
        read_table-undefined left (i + 1) buffer (omega arith)
            (omega (arith, in_buffer i (length buffer) go)),
      )
    ]
  where
    in_buffer : (i n : ℕ) → (ltb i (2 ^ 31 - 1) && ltb (3 + i) n) ≡ true → 3 + i < n
    in_buffer i n h = ground arith

-- The words that the buffer has are read.
read_table_inside :
    (left i : ℕ) (buffer : List ℕ)
    → left ≤ length buffer - (3 + i)
    → i + left < 2 ^ 31
    → (t : List ℕ) × (read_table left i buffer ≡ ok t)
unfolding read_table
read_table_inside zero i buffer h few = ([], refl)
read_table_inside (suc left) i buffer h few =
    let test : (ltb i (2 ^ 31 - 1) && ltb (3 + i) (length buffer)) ≡ true = ground arith in
    let (t, done) = read_table_inside left (i + 1) buffer (omega arith) (omega arith) in
    (get_or buffer (3 + i) 0 ∷ t, rw (test, done) refl)

-- For a count of 2 ^ 61 - 3 or more that the wrapped test accepts, in a place large enough for the
-- size that was computed, in a buffer of at most 2 ^ 31 words: the loop of `hm_u64_deserialize`
-- can read all words of the table that the buffer has, and the call, which goes on to read past
-- them, is undefined.
pub deserialize_overruns :
    (place size : ℕ) (buffer : List ℕ) (buffer_size excess : ℕ)
    → get_or buffer 2 0 ≡ 2 ^ 61 - 3 + excess
    → 24 < buffer_size
    → 8 * excess ≤ buffer_size
    → excess < 2 ^ 61
    → length buffer ≤ 2 ^ 31
    → sub64 (get_db_place (2 ^ 61 - 3 + excess)) alignment
      ≤ sub64 size (sub64 (align32 place) place)
    → ((t : List ℕ) × (read_table (length buffer - 3) 0 buffer ≡ ok t))
      × (deserialize place size buffer buffer_size ≡ undefined)
unfolding deserialize
deserialize_overruns place size buffer buffer_size excess count some_words fits small memory room =
    let passes = ltb-false_of_le _ _ room in
    (
      read_table_inside (length buffer - 3) 0 buffer (omega arith) (omega arith),
      rw (
        from_serialized_wraps buffer buffer_size excess count some_words fits small,
        passes,
        count,
        read_table-undefined (2 ^ 61 - 3 + excess) 0 buffer (omega arith) (omega arith),
      ),
    )
