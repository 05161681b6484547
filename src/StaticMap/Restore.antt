-- ===== src/StaticMap/Restore.antt =====
-- `hm_sm_deserialize` on any buffer, and on that of a compiled database.
use hipermap.Common.{
  ℕ, ◌+◌, ◌*◌, ◌^◌, ◌≤◌, ◌<◌, ◌≡◌, ◌⊎◌, refl, ◌∙◌, arith, false, List, All, Outcome, ok, err, ltb,
  HmError,
}
use hipermap.StaticMap.{Input, Database, aligned_size, list_size_to_db_place_size, compile, find}
use hipermap.StaticMap.Paint.{IsAnswer}
use hipermap.StaticMap.Order.{IsSort}
use hipermap.StaticMap.Compile.{find-compile_ranges}
use hipermap.StaticMap.Buffer.{
  list_size_to_serialized_size, read64, serialize, read_list_size, db_place_size_from_serialized,
  deserialize,
}
use hipermap.StaticMap.RoundTrip.{wrapping_size, deserialize-serialize_ranges, compile-IsStored}

-- A database that `hm_sm_compile` gave is serialized into a buffer of 8 bytes and 12 for each
-- element, and read back from it into a place of the size for its list and 8 bytes; the result
-- answers every address like the ranges, as in `find-compile_ranges`.
pub find-deserialize :
    (sort : List Input → List Input)
    → IsSort sort
    → (place size : ℕ) (inputs : List Input) (db : Database) (place2 size2 buffer_size : ℕ)
    → All (λ x. x.ip < 2 ^ 32) inputs
    → compile sort place size inputs ≡ ok db
    → 8 + 12 * db.list_size ≤ buffer_size
    → place2 + 8 < 2 ^ 64
    → list_size_to_db_place_size db.list_size + 8 ≤ size2
    → size2 < 2 ^ 64
    → (buffer : List ℕ) × (again : Database) × (serialize buffer_size db ≡ ok buffer)
      × (deserialize place2 size2 buffer buffer_size ≡ ok again)
      × ((a : ℕ) → a < 2 ^ 32 → (v : ℕ) × (find again a ≡ ok v) × IsAnswer inputs a v)
find-deserialize sort sorts place size inputs db place2 size2 buffer_size small done enough h roomy
      k =
    let stored = compile-IsStored sort sorts place size inputs db small done in
    let (buffer, again, writes, reads, _, _, same, _) =
      deserialize-serialize_ranges db place2 size2 buffer_size stored enough h roomy k in
    (
      buffer,
      again,
      writes,
      reads,
      λ a lt.
          let (v, found, answer) =
            find-compile_ranges sort sorts place size inputs db a small done lt in
          (v, same a ∙ found, answer),
    )

-- A result that is one of the two that a caller can handle.
abbrev pub IsDefined {ℓ} : {A : Type ℓ} → Outcome A → Type ℓ
IsDefined {A = A} result = ((a : A) × (result ≡ ok a)) ⊎ ((e : HmError) × (result ≡ err e))

-- What an accepted buffer says of its size.
record IsAccepted (buffer : List ℕ) (buffer_size list_size : ℕ) : Type 0 where
  pub read : read64 buffer ≡ ok list_size
  pub size : ℕ
  pub counted : list_size_to_serialized_size list_size ≡ ok size
  pub enough : size ≤ buffer_size

-- A buffer of 8 bytes or more that gives 1537228672809129301 as its list size is accepted by
-- `hm_sm_db_place_size_from_serialized`, with a place of 262184 bytes.
pub db_place_size_from_serialized_wraps :
    (buffer : List ℕ) (buffer_size : ℕ)
    → read64 buffer ≡ ok wrapping_size
    → 8 ≤ buffer_size
    → db_place_size_from_serialized buffer buffer_size ≡ ok 262184
unfolding db_place_size_from_serialized read_list_size list_size_to_serialized_size
    list_size_to_db_place_size aligned_size
db_place_size_from_serialized_wraps buffer buffer_size read some =
    let header : ltb buffer_size 8 ≡ false = ground arith in
    let fits : ltb buffer_size 4 ≡ false = ground arith in rw (header, read, fits) refl
