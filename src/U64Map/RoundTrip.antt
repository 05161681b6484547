-- ===== src/U64Map/RoundTrip.antt =====
-- A serialized map is read back as it was, and a buffer that is accepted too short.
use hipermap.Common.{
  ℕ, zero, suc, ◌+◌, ◌-◌, ◌*◌, ◌^◌, ◌≤◌, ◌<◌, ◌≡◌, refl, sym, ap, ◌∙◌, arith, true, false, ◌&&◌,
  List, [], ◌∷◌, ok, undefined, length, get_or, get_or_ext, ◌==◌, ltb, leb, ltb-false_of_le,
  Bool-cases, inl, inr,
}
use hipermap.Words.{sub64, add64, mul64}
use hipermap.Words.Align.{IsAligned}
use hipermap.U64Map.{
  KeyValue, no_entry, get_entry, Database, serialized_size, serialize,
  db_place_size_from_serialized, read_table, deserialize, align64, alignment, database_size,
}
use hipermap.U64Map.Memory.{align64-IsAligned, get_db_place_lem}
use hipermap.U64Map.Serialize.{IsSized, IsSerialized, serialize-IsSerialized, serialized_size_lem}

read_table-lem :
    (left i : ℕ) (buffer : List ℕ)
    → i + left < 2 ^ 31
    → 4 + 2 * (i + left) ≤ length buffer
    → (t : List KeyValue) × (read_table left i buffer ≡ ok t)
      × (length t ≡ left)
      × ((j : ℕ) → j < left → get_or t j no_entry ≡ get_entry buffer (i + j))
unfolding read_table
read_table-lem zero i buffer int room = ([], refl, refl, λ j p. absurd (omega arith))
read_table-lem (suc left) i buffer int room =
    let (t, e, l, r) = read_table-lem left (i + 1) buffer (omega arith) (omega arith) in
    let test : (ltb i (2 ^ 31 - 1) && ltb (5 + 2 * i) (length buffer)) ≡ true = ground arith in
    (get_entry buffer i ∷ t, rw (test, e), omega arith, read_back t r)
  where
    read_back :
        (t : List KeyValue)
        → ((j : ℕ) → j < left → get_or t j no_entry ≡ get_entry buffer (i + 1 + j))
        → (j : ℕ) → j < suc left
        → get_or (get_entry buffer i ∷ t) j no_entry ≡ get_entry buffer (i + j)
    read_back t r zero p = let e : i ≡ i + 0 = omega arith in ap (get_entry buffer) e
    read_back t r (suc j) p =
        let e : i + 1 + j ≡ i + suc j = omega arith in r j (omega arith) ∙ ap (get_entry buffer) e

-- The size that the header asks for.
from_serialized-ok :
    (db : Database) (out : List ℕ) (buffer_size : ℕ)
    → IsSized db
    → IsSerialized db out
    → 32 + 16 * length db.hash_table ≤ buffer_size
    → db_place_size_from_serialized out buffer_size ≡ ok (16 * length db.hash_table + 96)
unfolding db_place_size_from_serialized
from_serialized-ok db out buffer_size s w fits =
    let m = db.mask_for_hash + 4 in
    let a : leb buffer_size (4 * 8) ≡ false = ground (arith, s.words) in
    let b : (m == 0) ≡ false = ground arith in
    let c : ltb buffer_size (add64 (3 * 8) (mul64 m 16)) ≡ false =
      ltb-false_of_le _ _ (omega (arith, s.words, s.small)) in
    rw (a, w.count, b, c, get_db_place_lem m s.small, s.words)

deserialize-ok :
    (db : Database) (out : List ℕ) (buffer_size place size : ℕ)
    → IsSized db
    → IsSerialized db out
    → 32 + 16 * length db.hash_table ≤ buffer_size
    → place + 64 < 2 ^ 64
    → size < 2 ^ 64
    → 16 * length db.hash_table + 96 ≤ size
    → deserialize place size out buffer_size
      ≡ ok (record db { place = align64 place; hash_table_place = align64 place + database_size })
unfolding deserialize
deserialize-ok db out buffer_size place size s w fits space room enough =
    let m = db.mask_for_hash + 4 in
    let a = align64-IsAligned place space in
    let passes : ltb (sub64 size (sub64 (align64 place) place))
          (sub64 (16 * length db.hash_table + 96) alignment)
        ≡ false =
      ltb-false_of_le _ _ (omega (arith, s.words, s.small)) in
    let (t, e, l, r) =
      read_table-lem m 0 out (omega (arith, s.small)) (omega (arith, w.room, s.words)) in
    let same : t ≡ db.hash_table = get_or_ext no_entry t db.hash_table (l ∙ sym s.words) λ j p.
      r j (omega arith)
      ∙ (let z : 0 + j ≡ j = omega arith in ap (get_entry out) z)
      ∙ w.table j (omega (arith, s.words)) in
    let mask : sub64 (sub64 m 1) 3 ≡ db.mask_for_hash = omega (arith, s.small) in
    rw (
      from_serialized-ok db out buffer_size s w fits,
      passes,
      w.count,
      e,
      same,
      w.first,
      w.second,
      mask,
    )

-- `hm_u64map_serialize` into a buffer of the size that `hm_u64map_serialized_size` returns
-- succeeds, keeps the buffer's length and its fourth word, and `hm_u64map_deserialize` of the
-- result, into a place of 96 bytes and the table, gives the same factors, mask and table.
pub deserialize-serialize_map :
    (buffer : List ℕ) (buffer_size : ℕ) (db : Database) (place size : ℕ)
    → IsSized db
    → serialized_size db ≤ buffer_size
    → buffer_size ≤ 8 * length buffer
    → place + 64 < 2 ^ 64
    → size < 2 ^ 64
    → 16 * length db.hash_table + 96 ≤ size
    → (out : List ℕ) × (serialize buffer buffer_size db ≡ ok out)
      × (length out ≡ length buffer)
      × (get_or out 3 0 ≡ get_or buffer 3 0)
      × (deserialize place size out buffer_size
          ≡ ok (record db {
            place = align64 place;
            hash_table_place = align64 place + database_size;
          }))
deserialize-serialize_map buffer buffer_size db place size s fits real space room enough =
    let (out, e, l, w, dummy) = serialize-IsSerialized buffer buffer_size db s fits real in
    let n = serialized_size_lem db s in
    (
      out,
      e,
      l,
      dummy,
      deserialize-ok db out buffer_size place size s w (omega arith) space room enough,
    )

read_table-undefined :
    (left i : ℕ) (buffer : List ℕ)
    → length buffer < 4 + 2 * (i + left)
    → 0 < left
    → read_table left i buffer ≡ undefined
unfolding read_table
read_table-undefined zero i buffer short some_left = absurd (omega arith)
read_table-undefined (suc left) i buffer short some_left =
    elim (Bool-cases (ltb i (2 ^ 31 - 1) && ltb (5 + 2 * i) (length buffer))) [
      | inr stop ↦ rw stop
      | inl go ↦ rw (
        go,
        read_table-undefined left (i + 1) buffer (omega arith)
            (omega (arith, in_buffer i (length buffer) go)),
      )
    ]
  where
    in_buffer : (i n : ℕ) → (ltb i (2 ^ 31 - 1) && ltb (5 + 2 * i) n) ≡ true → 5 + 2 * i < n
    in_buffer i n h = ground arith

-- A buffer one word shorter than `hm_u64map_serialized_size` asks for is accepted, and then read
-- past its end, if the place is large enough.
pub deserialize_short :
    (place size : ℕ) (buffer : List ℕ) (buckets : ℕ)
    → get_or buffer 2 0 ≡ buckets
    → 0 < buckets
    → buckets < 2 ^ 31
    → length buffer ≡ 3 + 2 * buckets
    → place + 64 < 2 ^ 64
    → size < 2 ^ 64
    → 16 * buckets + 96 ≤ size
    → (db_place_size_from_serialized buffer (8 * length buffer) ≡ ok (16 * buckets + 96))
      × (deserialize place size buffer (8 * length buffer) ≡ undefined)
unfolding deserialize
deserialize_short place size buffer buckets count some_buckets small short space room enough = (
  accepted,
  rw (accepted, passes, count, read_table-undefined buckets 0 buffer (omega arith) some_buckets),
)
  where
    aligned : IsAligned 64 place (align64 place)
    aligned = align64-IsAligned place space

    passes :
        ltb (sub64 size (sub64 (align64 place) place)) (sub64 (16 * buckets + 96) alignment) ≡ false
    passes = ltb-false_of_le _ _ (omega (arith, aligned))

    test1 : leb (8 * length buffer) (4 * 8) ≡ false
    test1 = ground arith

    test2 : (buckets == 0) ≡ false
    test2 = ground arith

    test3 : ltb (8 * length buffer) (add64 (3 * 8) (mul64 buckets 16)) ≡ false
    test3 = ltb-false_of_le _ _ (omega arith)

    accepted : db_place_size_from_serialized buffer (8 * length buffer) ≡ ok (16 * buckets + 96)
    accepted =
        unfold db_place_size_from_serialized in
        rw (test1, count, test2, test3, get_db_place_lem buckets small)
