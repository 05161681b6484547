-- ===== src/U64Map/Serialize.antt =====
-- `hm_u64map_serialize`: what it leaves in the buffer.
use hipermap.Common.{
  ℕ, zero, suc, ◌+◌, ◌-◌, ◌*◌, ◌^◌, ◌≤◌, ◌<◌, ◌≡◌, inl, inr, refl, sym, ap, ◌∙◌, arith, true, false,
  ◌&&◌, List, ok, length, get_or, set, length-set, get_or-set_self, get_or-set_ne, eq_cases, ltb,
  ltb-false_of_le,
}
use hipermap.Slots.Table.{IsMask, get_buckets_lem}
use hipermap.U64Map.{
  KeyValue, no_entry, put_entry, get_entry, Database, serialized_size, write_table, serialize,
}

-- A database as `hm_u64map_compile` leaves it: the table has the length that the mask tells.
pub record IsSized (db : Database) : Type 0 where
  pub is_mask : IsMask db.mask_for_hash
  pub words : length db.hash_table ≡ db.mask_for_hash + 4
  pub small : db.mask_for_hash + 4 < 2 ^ 31

-- What the copying loop has done when it stops.
record IsWritten (left i : ℕ) (table : List KeyValue) (buffer out : List ℕ) : Type 0 where
  same_length : length out ≡ length buffer
  before : (j : ℕ) → j < 4 + 2 * i → get_or out j 0 ≡ get_or buffer j 0
  copied : (j : ℕ) → i ≤ j → j < i + left → get_entry out j ≡ get_or table j no_entry

length-put_entry :
    (buffer : List ℕ) (i : ℕ) (c : KeyValue) → length (put_entry buffer i c) ≡ length buffer
unfolding put_entry
length-put_entry buffer i c =
    length-set (set buffer (4 + 2 * i) c.key) (5 + 2 * i) c.value
    ∙ length-set buffer (4 + 2 * i) c.key

put_entry-before :
    (buffer : List ℕ) (i : ℕ) (c : KeyValue) (j : ℕ)
    → j < 4 + 2 * i
    → get_or (put_entry buffer i c) j 0 ≡ get_or buffer j 0
unfolding put_entry
put_entry-before buffer i c j p =
    get_or-set_ne (set buffer (4 + 2 * i) c.key) (5 + 2 * i) j c.value 0 (omega arith)
    ∙ get_or-set_ne buffer (4 + 2 * i) j c.key 0 (omega arith)

-- The two words of an entry are read back as they were put.
get_entry-put_entry :
    (buffer : List ℕ) (i : ℕ) (c : KeyValue)
    → 5 + 2 * i < length buffer
    → get_entry (put_entry buffer i c) i ≡ c
unfolding put_entry get_entry
get_entry-put_entry buffer i c p =
    let l = length-set buffer (4 + 2 * i) c.key in
    let v = get_or-set_self (set buffer (4 + 2 * i) c.key) (5 + 2 * i) c.value 0 (omega arith) in
    let k =
      get_or-set_ne (set buffer (4 + 2 * i) c.key) (5 + 2 * i) (4 + 2 * i) c.value 0 (omega arith)
      ∙ get_or-set_self buffer (4 + 2 * i) c.key 0 (omega arith) in
    λ t. record { key = k t; value = v t }

-- An entry is the two words.
get_entry_ext :
    (out buffer : List ℕ) (i : ℕ)
    → get_or out (4 + 2 * i) 0 ≡ get_or buffer (4 + 2 * i) 0
    → get_or out (5 + 2 * i) 0 ≡ get_or buffer (5 + 2 * i) 0
    → get_entry out i ≡ get_entry buffer i
unfolding get_entry
get_entry_ext out buffer i k v = λ t. record { key = k t; value = v t }

-- The loop behind the words that it leaves alone, one entry a round.
write_table-IsWritten :
    (left i : ℕ) (table : List KeyValue) (buffer : List ℕ)
    → i + left < 2 ^ 31
    → i + left ≤ length table
    → 4 + 2 * (i + left) ≤ length buffer
    → (out : List ℕ) × (write_table left i table buffer ≡ ok out)
      × IsWritten left i table buffer out
unfolding write_table
write_table-IsWritten zero i table buffer int fits room = (
  buffer,
  refl,
  record { same_length = refl; before = λ j p. refl; copied = λ j p q. absurd (omega arith) },
)
write_table-IsWritten (suc left) i table buffer int fits room =
    let b1 = put_entry buffer i (get_or table i no_entry) in
    let l1 : length b1 ≡ length buffer = length-put_entry buffer i (get_or table i no_entry) in
    let (out, e, w) =
      write_table-IsWritten left (i + 1) table b1 (omega arith) (omega arith) (omega arith) in
    let test : (ltb i (2 ^ 31 - 1) && ltb (5 + 2 * i) (length buffer) && ltb i (length table))
        ≡ true =
      ground arith in
    (
      out,
      rw test e,
      record {
        same_length = w.same_length ∙ l1;
        before = λ j p.
            w.before j (omega arith) ∙ put_entry-before buffer i (get_or table i no_entry) j p;
        copied = λ j p q. elim (eq_cases i j) [
          | inl here ↦
              ap (get_entry out) (sym here)
              ∙ get_entry_ext out b1 i (w.before (4 + 2 * i) (omega arith))
                  (w.before (5 + 2 * i) (omega arith))
              ∙ get_entry-put_entry buffer i (get_or table i no_entry) (omega arith)
              ∙ ap (λ k. get_or table k no_entry) here
          | inr later ↦ w.copied j (omega arith) (omega arith)
        ];
      },
    )

pub serialized_size_lem :
    (db : Database) → IsSized db → serialized_size db ≡ 32 + 16 * length db.hash_table
unfolding serialized_size
serialized_size_lem db s = omega (arith, get_buckets_lem db.mask_for_hash s.is_mask)

-- What `hm_u64map_serialize` leaves in the buffer.
pub record IsSerialized (db : Database) (out : List ℕ) : Type 0 where
  pub room : 4 + 2 * length db.hash_table ≤ length out
  pub first : get_or out 0 0 ≡ db.factor1
  pub second : get_or out 1 0 ≡ db.factor2
  pub count : get_or out 2 0 ≡ db.mask_for_hash + 4
  pub table : (j : ℕ) → j < length db.hash_table → get_entry out j ≡ get_or db.hash_table j no_entry

-- `hm_u64map_serialize` succeeds on a buffer of the size that `hm_u64map_serialized_size` returns,
-- writes the factors, the count and the table, and leaves the fourth word as it was.
pub serialize-IsSerialized :
    (buffer : List ℕ) (buffer_size : ℕ) (db : Database)
    → IsSized db
    → serialized_size db ≤ buffer_size
    → buffer_size ≤ 8 * length buffer
    → (out : List ℕ) × (serialize buffer buffer_size db ≡ ok out)
      × (length out ≡ length buffer)
      × IsSerialized db out
      × (get_or out 3 0 ≡ get_or buffer 3 0)
unfolding serialize
serialize-IsSerialized buffer buffer_size db s fits real =
    let n = serialized_size_lem db s in
    let m = db.mask_for_hash + 4 in
    let b1 = set buffer 0 db.factor1 in
    let b2 = set b1 1 db.factor2 in
    let b3 = set b2 2 m in
    let l1 : length b1 ≡ length buffer = length-set buffer 0 db.factor1 in
    let l2 : length b2 ≡ length b1 = length-set b1 1 db.factor2 in
    let l3 : length b3 ≡ length b2 = length-set b2 2 m in
    let (out, e, w) =
      write_table-IsWritten m 0 db.hash_table b3 (omega (arith, s.small)) (omega (arith, s.words))
        (omega (arith, s.words)) in
    let passes : ltb buffer_size (serialized_size db) ≡ false = ltb-false_of_le _ _ fits in
    (
      out,
      rw (passes, get_buckets_lem db.mask_for_hash s.is_mask) e,
      w.same_length ∙ l3 ∙ l2 ∙ l1,
      record {
        room = omega (arith, s.words, w.same_length);
        first =
            w.before 0 (omega arith)
            ∙ get_or-set_ne b2 2 0 m 0 (omega arith)
            ∙ get_or-set_ne b1 1 0 db.factor2 0 (omega arith)
            ∙ get_or-set_self buffer 0 db.factor1 0 (omega arith);
        second =
            w.before 1 (omega arith)
            ∙ get_or-set_ne b2 2 1 m 0 (omega arith)
            ∙ get_or-set_self b1 1 db.factor2 0 (omega arith);
        count = w.before 2 (omega arith) ∙ get_or-set_self b2 2 m 0 (omega arith);
        table = λ j p. w.copied j (omega arith) (omega (arith, s.words));
      },
      w.before 3 (omega arith)
          ∙ get_or-set_ne b2 2 3 m 0 (omega arith)
          ∙ get_or-set_ne b1 1 3 db.factor2 0 (omega arith)
          ∙ get_or-set_ne buffer 0 3 db.factor1 0 (omega arith),
    )
