-- ===== src/U64Map/Benchmark.antt =====
-- `hm_u64map_benchmark` combines the values of a range.
use Prim.Native.Nat.{bit_xor}
use hipermap.Common.{
  ℕ, zero, suc, ◌+◌, ◌^◌, ◌<◌, ◌≡◌, refl, arith, true, false, ok, ◌==◌, List, [], ◌∷◌,
}
use hipermap.Words.{add64}
use hipermap.U64Map.{Database, find, benchmark_from, benchmark}

-- The values of the `n` keys from `k` on, 0 where there is none.
abbrev pub values_from : Database → ℕ → ℕ → List ℕ
values_from db k zero = []
values_from db k (suc n) = find db k ∷ values_from db (k + 1) n

abbrev pub xor_all : ℕ → List ℕ → ℕ
xor_all x [] = x
xor_all x (y ∷ ys) = xor_all (bit_xor x y) ys

benchmark_from_lem :
    (n fuel : ℕ) (db : Database) (k end_key sum : ℕ)
    → k + n ≡ end_key
    → end_key < 2 ^ 64
    → n < fuel
    → benchmark_from fuel db k end_key sum ≡ ok (xor_all sum (values_from db k n))
unfolding benchmark_from
benchmark_from_lem n zero db k end_key sum e range enough = absurd (omega arith)
benchmark_from_lem zero (suc fuel) db k end_key sum e range enough =
    let stop : (k == end_key) ≡ true = ground arith in rw stop refl
benchmark_from_lem (suc n) (suc fuel) db k end_key sum e range enough =
    let go : (k == end_key) ≡ false = ground arith in
    let next : add64 k 1 ≡ k + 1 = omega arith in
    rw (go, next)
      (benchmark_from_lem n fuel db (k + 1) end_key (bit_xor sum (find db k)) (omega arith) range
        (omega arith))

-- With one round of fuel more than the range has keys, `hm_u64map_benchmark` over `begin_key` up
-- to, but without, `begin_key + n` returns the exclusive or of what `hm_u64map_find` returns.
pub benchmark-eq-xor_all :
    (n fuel : ℕ) (db : Database) (begin_key : ℕ)
    → begin_key + n < 2 ^ 64
    → n < fuel
    → benchmark fuel db begin_key (begin_key + n) ≡ ok (xor_all 0 (values_from db begin_key n))
unfolding benchmark
benchmark-eq-xor_all n fuel db begin_key range enough =
    benchmark_from_lem n fuel db begin_key (begin_key + n) 0 refl range enough
