-- ===== src/StaticMap/Calls.antt =====
-- The calls of `hm_sm_compile` by their results.
use mathlib.Core.List.{reverse}
use hipermap.Common.{
  ℕ, suc, true, ◌+◌, ◌-◌, ◌^◌, ◌≤◌, ◌<◌, ◌≡◌, refl, subst, ◌∙◌, arith, false, List, ◌∷◌, map, ltb,
  length, ok, All,
}
use hipermap.Words.{align}
use hipermap.Words.Align.{IsAligned, align-IsAligned_8}
use hipermap.StaticMap.{
  Input, Database, database_size, alignment, list_size_to_db_place_size, db_place_size,
  place_database, compile,
}
use hipermap.StaticMap.Finish.{last_elem}
use hipermap.StaticMap.Checks.{IsRange}
use hipermap.StaticMap.Order.{IsSort}
use hipermap.StaticMap.Sizes.{
  IsInside, place_database-IsInside, list_size-db_place_size, list_size_to_db_place_size_lem,
}
use hipermap.StaticMap.Compile.{
  bias_elem, sizes, length-biased, compile-IsCompiled, compile-IsPlacedAt, compile-IsRange,
}

-- What is left of the place when it is aligned.
pub sizes_lem :
    (place size : ℕ)
    → place + 8 < 2 ^ 64
    → size < 2 ^ 64
    → 8 ≤ size
    → (sizes place size ≡ size - (align alignment place - place))
      × IsAligned 8 place (align alignment place)
sizes_lem place size h k some =
    let a = align-IsAligned_8 place h in (omega (arith, a.pad, a.above, a.near), a)

-- For one or more valid ranges with prefixes from 2 to 32, fewer than 2 ^ 30 - 1, in a place
-- inside the address space and of the size that `hm_sm_db_place_size` returns or more,
-- `hm_sm_compile` returns HM_SUCCESS.
pub compile_succeeds :
    (sort : List Input → List Input)
    → IsSort sort
    → (place size : ℕ) (inputs : List Input) → 0 < length inputs
    → length inputs + 1 < 2 ^ 30
    → All IsRange inputs
    → place + 8 < 2 ^ 64
    → size < 2 ^ 64
    → db_place_size (length inputs) ≤ size
    → (db : Database) × (compile sort place size inputs ≡ ok db)
compile_succeeds sort sorts place size inputs some few ranges h k enough =
    let (body, c) = compile-IsCompiled sort sorts place size inputs some ranges (omega arith) in
    let need = list_size-db_place_size (length inputs) (length body) (omega arith) c.count in
    let counted : ltb (suc (length body)) (2 ^ 31) ≡ true = ground (arith, c.count) in
    let whole = list_size_to_db_place_size_lem (length body) (omega (arith, c.count)) in
    let (left, a) = sizes_lem place size h k (omega arith) in
    let header : ltb (sizes place size) database_size ≡ false = ground (arith, a.near) in
    let roomy : ltb (sizes place size) (list_size_to_db_place_size (length body)) ≡ false =
      ground (arith, a.near) in
    (
      place_database (align alignment place) (map bias_elem (reverse (last_elem ∷ body))),
      c.result ∙ rw (header, counted, roomy) refl,
    )

-- A successful `hm_sm_compile` of fewer than 2 ^ 31 - 1 ranges, in a place of at least 8 bytes
-- inside the address space, leaves the structure, the hash table, `max_ips` and the values one
-- after the other inside the place, each as long as the list says, and the structure and the
-- values aligned to 8.
pub compile-IsInside_ranges :
    (sort : List Input → List Input)
    → IsSort sort
    → (place size : ℕ) (inputs : List Input) (db : Database) → All (λ x. x.ip < 2 ^ 32) inputs
    → length inputs + 1 < 2 ^ 31
    → place + 8 < 2 ^ 64
    → 8 ≤ size
    → size < 2 ^ 64
    → compile sort place size inputs ≡ ok db
    → IsInside db place (place + size)
compile-IsInside_ranges sort sorts place size inputs db small few h some k done =
    let (nonempty, ranges, listed) = compile-IsRange sort place size inputs small done in
    let (body, c) = compile-IsCompiled sort sorts place size inputs nonempty ranges listed in
    let p = compile-IsPlacedAt sort place size inputs body db c done in
    let roomy = p.roomy in
    let (left, a) = sizes_lem place size h k some in
    let same = length-biased body in
    let whole = list_size_to_db_place_size_lem (length body) (omega (arith, c.count)) in
    subst (λ d. IsInside d place (place + size)) p.result
      (place_database-IsInside (align alignment place) place (place + size)
        (map bias_elem (reverse (last_elem ∷ body))) (omega (arith, c.count)) a.multiple
        (omega (arith, a.above)) (rw same (ground (arith, a.near, a.above, c.count))))
