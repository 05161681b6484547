-- ===== src/StaticMap/Errors.antt =====
-- Every failure of `hm_sm_compile` has its reason.
use mathlib.Core.List.{mem-cons}
use mathlib.Core.Logic.Or
use hipermap.Common.{
  ◌-◌, ℕ, suc, ◌+◌, ◌%◌, ◌^◌, ◌≤◌, ◌<◌, ◌≡◌, ◌≢◌, refl, ◌∙◌, arith, Bool, true, false, List, [],
  ◌∷◌, Mem, ltb, ◌==◌, if◌then◌else◌, length, Outcome, ok, err, undefined, small_place, no_masks,
  bad_value, bad_range, HmError, eq_cases, inl, inr, ◌⊎◌, Bool-cases, ◌||◌, All,
}
use hipermap.StaticMap.{
  Input, Database, no_value, database_size, check_input, check_inputs, list_size_to_db_place_size,
  db_place_size, compile,
}
use hipermap.StaticMap.Zones.{zone_size}
use hipermap.StaticMap.Checks.{IsRange, check_input_lem, check_inputs-IsRange}
use hipermap.StaticMap.Order.{IsSort}
use hipermap.StaticMap.Sizes.{list_size-db_place_size, list_size_to_db_place_size_lem}
use hipermap.StaticMap.Compile.{sizes, compile-IsCompiled}
use hipermap.StaticMap.Calls.{sizes_lem, compile_succeeds}

-- The prefix is one for which the size of the range less one can be computed.
abbrev pub IsPrefix : Input → Type 0
IsPrefix x = (2 ≤ x.cidr_prefix) × (x.cidr_prefix ≤ 32)

-- When a call may fail, code by code.
abbrev pub IsReason : ℕ → List Input → HmError → Type 0
IsReason size inputs no_masks = length inputs ≡ 0
IsReason size inputs small_place = size < db_place_size (length inputs)
IsReason size inputs bad_value = (x : Input) × Mem x inputs × (x.value ≡ no_value)
IsReason size inputs bad_range = (x : Input) × Mem x inputs × (x.ip % zone_size x ≢ 0)
IsReason size inputs _ = ⊥

-- What a call may come to.
abbrev pub IsJustified : ℕ → List Input → Outcome Database → Type 0
IsJustified size inputs result =
    ((db : Database) × (result ≡ ok db))
    ⊎ ((e : HmError) × (result ≡ err e) × IsReason size inputs e)

-- What the tests of the inputs may come to.
abbrev IsTested : ℕ → List Input → Type 0
IsTested i inputs =
    (check_inputs i inputs ≡ ok tt)
    ⊎ ((x : Input) × Mem x inputs × (check_inputs i inputs ≡ err bad_value) × (x.value ≡ no_value))
    ⊎ ((x : Input) × Mem x inputs
        × (check_inputs i inputs ≡ err bad_range)
        × (x.ip % zone_size x ≢ 0))

check_inputs-IsTested :
    (i : ℕ) (inputs : List Input)
    → All IsPrefix inputs
    → i + length inputs < 2 ^ 31
    → IsTested i inputs
unfolding check_inputs
check_inputs-IsTested i [] prefixes few = inl refl
check_inputs-IsTested i (x ∷ inputs) prefixes few =
    let index : ltb i (2 ^ 31 - 1) ≡ true = ground arith in
    let test : (ltb x.cidr_prefix 2 || ltb 32 x.cidr_prefix) ≡ false =
      ground (arith, prefixes.0.0, prefixes.0.1) in
    let here : Mem x (x ∷ inputs) = mem-cons.1 (Or.inl refl) in
    elim (eq_cases x.value no_value) [
      | inl lost ↦
          let stops : check_input x ≡ err bad_value = check_input_lem x ∙ ground arith in
          inr (inl (x, here, rw stops refl, lost))
      | inr some ↦ elim (eq_cases (x.ip % zone_size x) 0) [
        | inr odd ↦
            let stops : check_input x ≡ err bad_range =
              check_input_lem x ∙ rw test (ground arith) in
            inr (inr (x, here, rw stops refl, odd))
        | inl even ↦
            let passes : check_input x ≡ ok tt = check_input_lem x ∙ rw test (ground arith) in
            elim (check_inputs-IsTested (i + 1) inputs prefixes.1 (omega arith)) [
              | inl good ↦ inl (rw (passes, index) good)
              | inr (inl (y, m, stops, bad)) ↦
                  inr (inl (y, mem-cons.1 (Or.inr m), rw (passes, index) stops, bad))
              | inr (inr (y, m, stops, bad)) ↦
                  inr (inr (y, mem-cons.1 (Or.inr m), rw (passes, index) stops, bad))
            ]
      ]
    ]

-- The tests before the sort.
early_error :
    (sort : List Input → List Input) (place size : ℕ) (inputs : List Input) (e : HmError)
    → 0 < length inputs
    → ltb (sizes place size) database_size ≡ false
    → check_inputs 0 inputs ≡ err e
    → compile sort place size inputs ≡ err e
unfolding compile
early_error sort place size inputs e some header stops =
    let nonempty : (length inputs == 0) ≡ false = ground arith in rw (nonempty, header, stops) refl

short_header :
    (sort : List Input → List Input) (place size : ℕ) (inputs : List Input)
    → 0 < length inputs
    → ltb (sizes place size) database_size ≡ true
    → compile sort place size inputs ≡ err small_place
unfolding compile
short_header sort place size inputs some header =
    let nonempty : (length inputs == 0) ≡ false = ground arith in rw (nonempty, header) refl

no_inputs :
    (sort : List Input → List Input) (place size : ℕ) (inputs : List Input)
    → length inputs ≡ 0
    → compile sort place size inputs ≡ err no_masks
unfolding compile
no_inputs sort place size inputs none =
    let empty : (length inputs == 0) ≡ true = ground arith in rw empty refl

lt_or_le : (a b : ℕ) → (a < b) ⊎ (b ≤ a)
lt_or_le a b = ground arith

-- The last test of the size.
late_result :
    (sort : List Input → List Input)
    → IsSort sort
    → (place size : ℕ) (inputs : List Input) → 0 < length inputs
    → length inputs + 1 < 2 ^ 30
    → All IsRange inputs
    → place + 8 < 2 ^ 64
    → size < 2 ^ 64
    → IsJustified size inputs (compile sort place size inputs)
late_result sort sorts place size inputs some few ranges h k =
    elim (lt_or_le size (db_place_size (length inputs))) [
      | inr enough ↦ inl (compile_succeeds sort sorts place size inputs some few ranges h k enough)
      | inl short ↦
          let (body, c) =
            compile-IsCompiled sort sorts place size inputs some ranges (omega arith) in
          tested _ (ltb (sizes place size) database_size) (ltb (suc (length body)) (2 ^ 31))
            (ltb (sizes place size) (list_size_to_db_place_size (length body)))
            (ground (arith, c.count)) c.result short
    ]
  where
    tested :
        {size : ℕ} {inputs : List Input} {result : Outcome Database} (db : Database) (b q c : Bool)
        → q ≡ true
        → result ≡ (
            if b
            then err small_place
            else if q
            then (if c then err small_place else ok db)
            else undefined)
        → size < db_place_size (length inputs)
        → IsJustified size inputs result
    tested db true q c counted at_result short = inr (small_place, at_result, short)
    tested db false false c counted at_result short = cc counted
    tested db false true true counted at_result short = inr (small_place, at_result, short)
    tested db false true false counted at_result short = inl (db, at_result)

-- For fewer than 2 ^ 30 - 1 inputs with prefixes from 2 to 32 and a place of at least 8 bytes
-- inside the address space, `hm_sm_compile` fails no assertion and overflows no `int`: it
-- succeeds, or its error code has its reason, which is no input, a size below
-- `hm_sm_db_place_size`, a value HM_NO_VALUE, or an address that is not aligned to its range.
pub compile-IsJustified :
    (sort : List Input → List Input)
    → IsSort sort
    → (place size : ℕ) (inputs : List Input) → All (λ x. x.ip < 2 ^ 32) inputs
    → All IsPrefix inputs
    → length inputs + 1 < 2 ^ 30
    → place + 8 < 2 ^ 64
    → 8 ≤ size
    → size < 2 ^ 64
    → IsJustified size inputs (compile sort place size inputs)
compile-IsJustified sort sorts place size inputs small prefixes few h enough k =
    elim (eq_cases (length inputs) 0) [
      | inl none ↦ inr (no_masks, no_inputs sort place size inputs none, none)
      | inr some ↦ elim (Bool-cases (ltb (sizes place size) database_size)) [
        | inl header ↦
            let (left, a) = sizes_lem place size h k enough in
            let need = list_size-db_place_size (length inputs) 0 (omega arith) (omega arith) in
            let whole = list_size_to_db_place_size_lem 0 (omega arith) in
            inr (
              small_place,
              short_header sort place size inputs (omega arith) header,
              ground (arith, a.near, a.above),
            )
        | inr header ↦ elim (check_inputs-IsTested 0 inputs prefixes (omega arith)) [
          | inl good ↦
              late_result sort sorts place size inputs (omega arith) few
                (check_inputs-IsRange 0 inputs tt (omega arith) small good).0 h k
          | inr (inl (x, m, stops, bad)) ↦ inr (
            bad_value,
            early_error sort place size inputs bad_value (omega arith) header stops,
            (x, m, bad),
          )
          | inr (inr (x, m, stops, bad)) ↦ inr (
            bad_range,
            early_error sort place size inputs bad_range (omega arith) header stops,
            (x, m, bad),
          )
        ]
      ]
    ]
