-- ===== src/U64Set/Compile.antt =====
-- `hm_u64_compile`: when it succeeds, what it rejects, and where it writes.
use mathlib.Core.List.{Perm}
use hipermap.Common.{
  ℕ, ◌-◌, ◌<◌, ◌≡◌, ◌≢◌, ◌⊎◌, inl, inr, refl, sym, ◌∙◌, arith, true, false, List, [], ◌∷◌, ok, err,
  >>=-eq-err, fail_if, fail_if-eq-ok, fail_if-eq-err, no_masks, bad_value, small_place, HmError,
  length, get_or, ◌==◌, ltb,
}
use hipermap.Words.{sub64}
use hipermap.Slots.{hash_table_buckets, build}
use hipermap.Slots.PutAll.{Distinct, NonZero}
use hipermap.Slots.Sizes.{hash_table_buckets-IsMask}
use hipermap.Slots.Errors.{build-ne-err, hash_table_buckets-ne-err}
use hipermap.U64Set.{Database, key_cell, has_zero, compile, db_place_size, align32, alignment}
use hipermap.U64Set.Find.{compile-IsCompiled}

-- A key list that `hm_u64_compile` accepts is not empty, holds no 0 and no key twice.
pub compile-accepts :
    (qsort : List ℕ → List ℕ) (permutes : (xs : List ℕ) → Perm (qsort xs) xs) (fuel place size : ℕ)
    (keys : List ℕ) {db : Database}
    → compile qsort fuel place size keys ≡ ok db
    → (0 < length keys) × NonZero key_cell keys × Distinct key_cell keys
compile-accepts qsort permutes fuel place size keys h =
    let c = compile-IsCompiled qsort permutes fuel place size keys h in
    (c.nonempty, c.nonzero, c.table.distinct)

pub NonZero-has_zero : (keys : List ℕ) → NonZero key_cell keys → has_zero keys ≡ false
unfolding has_zero
NonZero-has_zero [] h = refl
NonZero-has_zero (k ∷ ks) h = ground (arith, NonZero-has_zero ks h.1)

db_place_size-ne-err : (n : ℕ) (e : HmError) → db_place_size n ≢ err e
unfolding db_place_size
db_place_size-ne-err n e h = elim (>>=-eq-err (hash_table_buckets n) _ h) [
  | inl first ↦ hash_table_buckets-ne-err n e first
  | inr (_, _, rest) ↦ cc rest
]

-- The code after the size check.
pub data Cause (qsort : List ℕ → List ℕ) (fuel place size : ℕ) (keys : List ℕ) (e : HmError)
    : Type 0 where
  no_keys : length keys ≡ 0 → e ≡ no_masks → Cause qsort fuel place size keys e
  zero_key : has_zero keys ≡ true → e ≡ bad_value → Cause qsort fuel place size keys e
  too_small :
      (needed : ℕ)
      → db_place_size (length keys) ≡ ok needed
      → ltb (sub64 size (sub64 (align32 place) place)) (sub64 needed alignment) ≡ true
      → e ≡ small_place
      → Cause qsort fuel place size keys e
  twice :
      (buckets : ℕ)
      → hash_table_buckets (length keys) ≡ ok buckets
      → build key_cell qsort fuel (buckets - 1 - 3) (get_or keys 0 0) keys ≡ err e
      → has_zero keys ≡ false
      → Cause qsort fuel place size keys e

pub compile-Cause :
    (qsort : List ℕ → List ℕ) (fuel place size : ℕ) (keys : List ℕ) (e : HmError)
    → compile qsort fuel place size keys ≡ err e
    → Cause qsort fuel place size keys e
unfolding compile
compile-Cause qsort fuel place size keys e h =
    elim (>>=-eq-err (fail_if (length keys == 0) no_masks) _ h) [
      | inl a ↦ let (t, s) = fail_if-eq-err _ no_masks e a in no_keys (ground arith) (sym s)
      | inr (_, _, h1) ↦ elim (>>=-eq-err (fail_if (has_zero keys) bad_value) _ h1) [
        | inl a ↦ let (t, s) = fail_if-eq-err _ bad_value e a in zero_key t (sym s)
        | inr (_, z, h2) ↦ elim (>>=-eq-err (db_place_size (length keys)) _ h2) [
          | inl a ↦ absurd (db_place_size-ne-err (length keys) e a)
          | inr (needed, sized, h3) ↦
              elim (>>=-eq-err
                (fail_if (ltb (sub64 size (sub64 (align32 place) place)) (sub64 needed alignment))
                  small_place)
                _ h3) [
                  | inl a ↦
                      let (t, s) = fail_if-eq-err _ small_place e a in
                      too_small needed sized t (sym s)
                  | inr (_, _, h4) ↦ elim (>>=-eq-err (hash_table_buckets (length keys)) _ h4) [
                    | inl a ↦ absurd (hash_table_buckets-ne-err (length keys) e a)
                    | inr (buckets, counted, h5) ↦
                        elim (>>=-eq-err
                          (build key_cell qsort fuel (buckets - 1 - 3) (get_or keys 0 0) keys) _
                          h5) [
                            | inl a ↦ twice buckets counted a (fail_if-eq-ok _ bad_value z)
                            | inr (_, _, last) ↦ cc last
                          ]
                  ]
                ]
        ]
      ]
    ]

-- `hm_u64_compile` rejects no good keys: for different nonzero keys, the only error left is
-- HM_ERROR_SMALL_PLACE, or HM_ERROR_NO_MASKS if there is no key.
pub compile-eq-err :
    (qsort : List ℕ → List ℕ) (fuel place size : ℕ) (keys : List ℕ) (e : HmError)
    → NonZero key_cell keys
    → Distinct key_cell keys
    → compile qsort fuel place size keys ≡ err e
    → (e ≡ small_place) ⊎ ((e ≡ no_masks) × (length keys ≡ 0))
compile-eq-err qsort fuel place size keys e nonzero distinct h =
    by_cause (compile-Cause qsort fuel place size keys e h)
  where
    by_cause :
        Cause qsort fuel place size keys e
        → (e ≡ small_place) ⊎ ((e ≡ no_masks) × (length keys ≡ 0))
    by_cause (no_keys a b) = inr (b, a)
    by_cause (zero_key a b) = cc (sym a ∙ NonZero-has_zero keys nonzero)
    by_cause (too_small needed a b c) = inl c
    by_cause (twice buckets counted a z) =
        let (m, least, _) = hash_table_buckets-IsMask (length keys) buckets counted in
        let same : buckets - 1 - 3 ≡ buckets - 4 = omega arith in
        absurd (
          build-ne-err key_cell qsort fuel (buckets - 1 - 3) (get_or keys 0 0) keys e (rw same m)
            nonzero distinct a)
