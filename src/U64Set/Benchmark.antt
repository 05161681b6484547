-- ===== src/U64Set/Benchmark.antt =====
-- `hm_u64_benchmark` counts the hits of a range.
use hipermap.Common.{
  ℕ, zero, suc, ◌+◌, ◌^◌, ◌≤◌, ◌<◌, ◌≡◌, refl, ap, ◌∙◌, arith, true, false, Outcome, ok, ◌==◌,
  if◌then◌else◌,
}
use hipermap.Words.{add64}
use hipermap.U64Set.{Database, find, benchmark_from, benchmark}

-- How many of the `n` keys from `k` on are found.
abbrev pub hits : Database → ℕ → ℕ → ℕ
hits db k zero = 0
hits db k (suc n) = (if find db k then 1 else 0) + hits db (k + 1) n

hits-le : (db : Database) (k n : ℕ) → hits db k n ≤ n
hits-le db k zero = omega arith
hits-le db k (suc n) = ground (arith, hits-le db (k + 1) n)

benchmark_from_lem :
    (n fuel : ℕ) (db : Database) (k end_key count : ℕ)
    → k + n ≡ end_key
    → end_key < 2 ^ 64
    → n < fuel
    → count + n < 2 ^ 64
    → benchmark_from fuel db k end_key count ≡ ok (count + hits db k n)
unfolding benchmark_from
benchmark_from_lem n zero db k end_key count e range enough room = absurd (omega arith)
benchmark_from_lem zero (suc fuel) db k end_key count e range enough room =
    let stop : (k == end_key) ≡ true = ground arith in
    let same : count ≡ count + 0 = omega arith in rw stop (ap {B = Outcome ℕ} ok same)
benchmark_from_lem (suc n) (suc fuel) db k end_key count e range enough room =
    let go : (k == end_key) ≡ false = ground arith in
    let hit : ℕ = if find db k then 1 else 0 in
    let one : hit ≤ 1 = ground arith in
    let next : add64 k 1 ≡ k + 1 = omega arith in
    let sum : add64 count hit ≡ count + hit = omega arith in
    let total : count + hit + hits db (k + 1) n ≡ count + (hit + hits db (k + 1) n) = omega arith in
    rw (go, next, sum)
      (benchmark_from_lem n fuel db (k + 1) end_key (count + hit) (omega arith) range (omega arith)
          (omega arith)
        ∙ ap {B = Outcome ℕ} ok total)

-- With one round of fuel more than the range has keys, `hm_u64_benchmark` over `begin_key` up to,
-- but without, `begin_key + n` returns the number of keys in it that `hm_u64_find` finds.
pub benchmark-eq-hits :
    (n fuel : ℕ) (db : Database) (begin_key : ℕ)
    → begin_key + n < 2 ^ 64
    → n < fuel
    → benchmark fuel db begin_key (begin_key + n) ≡ ok (hits db begin_key n)
unfolding benchmark
benchmark-eq-hits n fuel db begin_key range enough =
    benchmark_from_lem n fuel db begin_key (begin_key + n) 0 refl range enough (omega arith)
    ∙ ap {B = Outcome ℕ} ok
        (let e : 0 + hits db begin_key n ≡ hits db begin_key n = omega arith in e)
