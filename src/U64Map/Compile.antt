-- ===== src/U64Map/Compile.antt =====
-- `hm_u64map_compile`: when it succeeds, what it rejects, and where it writes.
use mathlib.Core.List.{Perm}
use hipermap.Common.{
  ℕ, ◌-◌, ◌<◌, ◌≡◌, ◌≢◌, ◌⊎◌, inl, inr, refl, sym, ◌∙◌, arith, true, false, List, [], ◌∷◌, ok, err,
  >>=-eq-err, fail_if, fail_if-eq-ok, fail_if-eq-err, no_masks, bad_value, small_place, HmError,
  length, get_or, All, ◌==◌, ltb,
}
use hipermap.Words.{sub64}
use hipermap.Slots.{hash_table_buckets, build}
use hipermap.Slots.PutAll.{Distinct, NonZero}
use hipermap.Slots.Sizes.{hash_table_buckets-IsMask}
use hipermap.Slots.Errors.{build-ne-err, hash_table_buckets-ne-err}
use hipermap.U64Map.{
  KeyValue, no_entry, KeyValue, no_entry, Database, entry_cell, has_zero, compile, db_place_size,
  align64, alignment,
}
use hipermap.U64Map.Find.{compile-IsCompiled, compile-Calls}

-- No value is 0.
abbrev pub NonZeroValues : List KeyValue → Type 0
NonZeroValues entries = All (λ (c : KeyValue). c.value ≢ 0) entries

has_zero-NonZeroValues :
    (entries : List KeyValue) → has_zero entries ≡ false → NonZeroValues entries
unfolding has_zero
has_zero-NonZeroValues [] h = tt
has_zero-NonZeroValues (c ∷ cs) h = (ground arith, has_zero-NonZeroValues cs (ground arith))

-- Entries that `hm_u64map_compile` accepts are not empty, hold no 0 as key or value, and no key
-- twice.
pub compile-accepts_map :
    (qsort : List KeyValue → List KeyValue) (permutes : (xs : List KeyValue) → Perm (qsort xs) xs)
    (fuel place size : ℕ) (entries : List KeyValue) {db : Database}
    → compile qsort fuel place size entries ≡ ok db
    → (0 < length entries)
      × NonZero entry_cell entries
      × NonZeroValues entries
      × Distinct entry_cell entries
compile-accepts_map qsort permutes fuel place size entries h =
    let c = compile-IsCompiled qsort permutes fuel place size entries h in
    let calls = compile-Calls qsort fuel place size entries h in
    (c.nonempty, c.nonzero, has_zero-NonZeroValues entries calls.no_zero, c.table.distinct)

pub NonZero-has_zero :
    (entries : List KeyValue)
    → NonZero entry_cell entries
    → NonZeroValues entries
    → has_zero entries ≡ false
unfolding has_zero
NonZero-has_zero [] h v = refl
NonZero-has_zero (c ∷ cs) h v = ground (arith, NonZero-has_zero cs h.1 v.1)

db_place_size-ne-err : (n : ℕ) (e : HmError) → db_place_size n ≢ err e
unfolding db_place_size
db_place_size-ne-err n e h = elim (>>=-eq-err (hash_table_buckets n) _ h) [
  | inl first ↦ hash_table_buckets-ne-err n e first
  | inr (_, _, rest) ↦ cc rest
]

-- The code after the size check.
pub data Cause (qsort : List KeyValue → List KeyValue) (fuel place size : ℕ)
    (entries : List KeyValue) (e : HmError) : Type 0 where
  no_keys : length entries ≡ 0 → e ≡ no_masks → Cause qsort fuel place size entries e
  zero_key : has_zero entries ≡ true → e ≡ bad_value → Cause qsort fuel place size entries e
  too_small :
      (needed : ℕ)
      → db_place_size (length entries) ≡ ok needed
      → ltb (sub64 size (sub64 (align64 place) place)) (sub64 needed alignment) ≡ true
      → e ≡ small_place
      → Cause qsort fuel place size entries e
  twice :
      (buckets : ℕ)
      → hash_table_buckets (length entries) ≡ ok buckets
      → build entry_cell qsort fuel (buckets - 1 - 3) (get_or entries 0 no_entry).key entries
        ≡ err e
      → has_zero entries ≡ false
      → Cause qsort fuel place size entries e

pub compile-Cause :
    (qsort : List KeyValue → List KeyValue) (fuel place size : ℕ) (entries : List KeyValue)
    (e : HmError)
    → compile qsort fuel place size entries ≡ err e
    → Cause qsort fuel place size entries e
unfolding compile
compile-Cause qsort fuel place size entries e h =
    elim (>>=-eq-err (fail_if (length entries == 0) no_masks) _ h) [
      | inl a ↦ let (t, s) = fail_if-eq-err _ no_masks e a in no_keys (ground arith) (sym s)
      | inr (_, _, h1) ↦ elim (>>=-eq-err (fail_if (has_zero entries) bad_value) _ h1) [
        | inl a ↦ let (t, s) = fail_if-eq-err _ bad_value e a in zero_key t (sym s)
        | inr (_, z, h2) ↦ elim (>>=-eq-err (db_place_size (length entries)) _ h2) [
          | inl a ↦ absurd (db_place_size-ne-err (length entries) e a)
          | inr (needed, sized, h3) ↦
              elim (>>=-eq-err
                (fail_if (ltb (sub64 size (sub64 (align64 place) place)) (sub64 needed alignment))
                  small_place)
                _ h3) [
                  | inl a ↦
                      let (t, s) = fail_if-eq-err _ small_place e a in
                      too_small needed sized t (sym s)
                  | inr (_, _, h4) ↦ elim (>>=-eq-err (hash_table_buckets (length entries)) _ h4) [
                    | inl a ↦ absurd (hash_table_buckets-ne-err (length entries) e a)
                    | inr (buckets, counted, h5) ↦
                        elim (>>=-eq-err
                          (build entry_cell qsort fuel (buckets - 1 - 3)
                            (get_or entries 0 no_entry).key entries)
                          _ h5) [
                            | inl a ↦ twice buckets counted a (fail_if-eq-ok _ bad_value z)
                            | inr (_, _, last) ↦ cc last
                          ]
                  ]
                ]
        ]
      ]
    ]

-- `hm_u64map_compile` rejects no good entries: for different nonzero keys and nonzero values, the only
-- error left is HM_ERROR_SMALL_PLACE, or HM_ERROR_NO_MASKS if there is no entry.
pub compile-eq-err_map :
    (qsort : List KeyValue → List KeyValue) (fuel place size : ℕ) (entries : List KeyValue)
    (e : HmError)
    → NonZero entry_cell entries
    → NonZeroValues entries
    → Distinct entry_cell entries
    → compile qsort fuel place size entries ≡ err e
    → (e ≡ small_place) ⊎ ((e ≡ no_masks) × (length entries ≡ 0))
compile-eq-err_map qsort fuel place size entries e nonzero values distinct h =
    by_cause (compile-Cause qsort fuel place size entries e h)
  where
    by_cause :
        Cause qsort fuel place size entries e
        → (e ≡ small_place) ⊎ ((e ≡ no_masks) × (length entries ≡ 0))
    by_cause (no_keys a b) = inr (b, a)
    by_cause (zero_key a b) = cc (sym a ∙ NonZero-has_zero entries nonzero values)
    by_cause (too_small needed a b c) = inl c
    by_cause (twice buckets counted a z) =
        let (m, least, _) = hash_table_buckets-IsMask (length entries) buckets counted in
        let same : buckets - 1 - 3 ≡ buckets - 4 = omega arith in
        absurd (
          build-ne-err entry_cell qsort fuel (buckets - 1 - 3) (get_or entries 0 no_entry).key
            entries e (rw same m) nonzero distinct a)
