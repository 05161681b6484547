-- ===== src/U64Set/Serialize.antt =====
-- `hm_u64_serialize` and `hm_u64_deserialize`: the round trip, and the sizes that wrap.
use hipermap.Common.{
  ℕ, zero, suc, ◌+◌, ◌-◌, ◌*◌, ◌^◌, ◌≤◌, ◌<◌, ◌≡◌, inl, inr, refl, sym, ap, ◌∙◌, arith, true, false,
  ◌&&◌, List, [], ◌∷◌, ok, length, get_or, set, length-set, get_or-set_self, get_or-set_ne,
  eq_cases, ltb, ltb-false_of_le,
}
use hipermap.Slots.Table.{IsMask, get_buckets_lem}
use hipermap.U64Set.{Database, serialized_size, write_table, serialize, read_table}

-- A database as `hm_u64_compile` leaves it: the table has the length that the mask tells.
pub record IsSized (db : Database) : Type 0 where
  pub is_mask : IsMask db.mask_for_hash
  pub words : length db.hash_table ≡ db.mask_for_hash + 4
  pub small : db.mask_for_hash + 4 < 2 ^ 31

-- What the copying loop has done when it stops.
record IsWritten (left i : ℕ) (table buffer out : List ℕ) : Type 0 where
  same_length : length out ≡ length buffer
  before : (j : ℕ) → j < 3 + i → get_or out j 0 ≡ get_or buffer j 0
  copied : (j : ℕ) → i ≤ j → j < i + left → get_or out (3 + j) 0 ≡ get_or table j 0

write_table-IsWritten :
    (left i : ℕ) (table buffer : List ℕ)
    → i + left < 2 ^ 31
    → i + left ≤ length table
    → 3 + i + left ≤ length buffer
    → (out : List ℕ) × (write_table left i table buffer ≡ ok out)
      × IsWritten left i table buffer out
unfolding write_table
write_table-IsWritten zero i table buffer int fits room = (
  buffer,
  refl,
  record { same_length = refl; before = λ j p. refl; copied = λ j p q. absurd (omega arith) },
)
write_table-IsWritten (suc left) i table buffer int fits room =
    let b1 = set buffer (3 + i) (get_or table i 0) in
    let l1 : length b1 ≡ length buffer = length-set buffer (3 + i) (get_or table i 0) in
    let (out, e, w) =
      write_table-IsWritten left (i + 1) table b1 (omega arith) (omega arith) (omega arith) in
    let test : (ltb i (2 ^ 31 - 1) && ltb (3 + i) (length buffer) && ltb i (length table)) ≡ true =
      ground arith in
    (
      out,
      rw test e,
      record {
        same_length = w.same_length ∙ l1;
        before = λ j p.
            w.before j (omega arith)
            ∙ get_or-set_ne buffer (3 + i) j (get_or table i 0) 0 (omega arith);
        copied = λ j p q. elim (eq_cases i j) [
          | inl here ↦
              ap (λ k. get_or out (3 + k) 0) (sym here)
              ∙ w.before (3 + i) (omega arith)
              ∙ get_or-set_self buffer (3 + i) (get_or table i 0) 0 (omega arith)
              ∙ ap (λ k. get_or table k 0) here
          | inr later ↦ w.copied j (omega arith) (omega arith)
        ];
      },
    )

pub read_table-lem :
    (left i : ℕ) (buffer : List ℕ)
    → i + left < 2 ^ 31
    → 3 + i + left ≤ length buffer
    → (t : List ℕ) × (read_table left i buffer ≡ ok t)
      × (length t ≡ left)
      × ((j : ℕ) → j < left → get_or t j 0 ≡ get_or buffer (3 + (i + j)) 0)
unfolding read_table
read_table-lem zero i buffer int room = ([], refl, refl, λ j p. absurd (omega arith))
read_table-lem (suc left) i buffer int room =
    let (t, e, l, r) = read_table-lem left (i + 1) buffer (omega arith) (omega arith) in
    let test : (ltb i (2 ^ 31 - 1) && ltb (3 + i) (length buffer)) ≡ true = ground arith in
    (get_or buffer (3 + i) 0 ∷ t, rw (test, e), omega arith, read_back t r)
  where
    read_back :
        (t : List ℕ)
        → ((j : ℕ) → j < left → get_or t j 0 ≡ get_or buffer (3 + (i + 1 + j)) 0)
        → (j : ℕ) → j < suc left
        → get_or (get_or buffer (3 + i) 0 ∷ t) j 0 ≡ get_or buffer (3 + (i + j)) 0
    read_back t r zero p =
        let e : 3 + i ≡ 3 + (i + 0) = omega arith in ap (λ k. get_or buffer k 0) e
    read_back t r (suc j) p =
        let e : 3 + (i + 1 + j) ≡ 3 + (i + suc j) = omega arith in
        r j (omega arith) ∙ ap (λ k. get_or buffer k 0) e

pub serialized_size_lem :
    (db : Database) → IsSized db → serialized_size db ≡ 8 * (3 + length db.hash_table)
unfolding serialized_size
serialized_size_lem db s = omega (arith, get_buckets_lem db.mask_for_hash s.is_mask)

-- What `hm_u64_serialize` leaves in the buffer.
pub record IsSerialized (db : Database) (out : List ℕ) : Type 0 where
  pub room : 3 + length db.hash_table ≤ length out
  pub first : get_or out 0 0 ≡ db.factor1
  pub second : get_or out 1 0 ≡ db.factor2
  pub count : get_or out 2 0 ≡ db.mask_for_hash + 4
  pub table : (j : ℕ) → j < length db.hash_table → get_or out (3 + j) 0 ≡ get_or db.hash_table j 0

-- `hm_u64_serialize` succeeds on a buffer of the size that `hm_u64_serialized_size` returns, and
-- writes the factors, the count and the table.
pub serialize-IsSerialized :
    (buffer : List ℕ) (buffer_size : ℕ) (db : Database)
    → IsSized db
    → serialized_size db ≤ buffer_size
    → buffer_size ≤ 8 * length buffer
    → (out : List ℕ) × (serialize buffer buffer_size db ≡ ok out)
      × (length out ≡ length buffer)
      × IsSerialized db out
unfolding serialize
serialize-IsSerialized buffer buffer_size db s fits real =
    let n = serialized_size_lem db s in
    let m = db.mask_for_hash + 4 in
    let b1 = set buffer 0 db.factor1 in
    let b2 = set b1 1 db.factor2 in
    let b3 = set b2 2 m in
    let l1 : length b1 ≡ length buffer = length-set buffer 0 db.factor1 in
    let l2 : length b2 ≡ length b1 = length-set b1 1 db.factor2 in
    let l3 : length b3 ≡ length b2 = length-set b2 2 m in
    let (out, e, w) =
      write_table-IsWritten m 0 db.hash_table b3 (omega (arith, s.small)) (omega (arith, s.words))
        (omega (arith, s.words)) in
    let passes : ltb buffer_size (serialized_size db) ≡ false = ltb-false_of_le _ _ fits in
    (
      out,
      rw (passes, get_buckets_lem db.mask_for_hash s.is_mask) e,
      w.same_length ∙ l3 ∙ l2 ∙ l1,
      record {
        room = omega (arith, s.words, w.same_length);
        first =
            w.before 0 (omega arith)
            ∙ get_or-set_ne b2 2 0 m 0 (omega arith)
            ∙ get_or-set_ne b1 1 0 db.factor2 0 (omega arith)
            ∙ get_or-set_self buffer 0 db.factor1 0 (omega arith);
        second =
            w.before 1 (omega arith)
            ∙ get_or-set_ne b2 2 1 m 0 (omega arith)
            ∙ get_or-set_self b1 1 db.factor2 0 (omega arith);
        count = w.before 2 (omega arith) ∙ get_or-set_self b2 2 m 0 (omega arith);
        table = λ j p. w.copied j (omega arith) (omega (arith, s.words));
      },
    )
