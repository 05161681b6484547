-- ===== src/Examples/Tables.antt =====
-- Concrete tables and sizes, which the theorems on the shared hash table are applied to.
use hipermap.Common.{ℕ, ◌*◌, ◌^◌, ◌≡◌, ◌≤◌, arith, ok}
use hipermap.Slots.{hash_table_buckets}
use hipermap.Slots.Sizes.{hash_table_buckets_lem, hash_table_buckets_overflow}

hash_table_buckets_lem_example :
    (m j : ℕ) × (hash_table_buckets 1000 ≡ ok m)
    × (8 * 1000 ≤ m)
    × (16 ≤ m)
    × (m ≤ 16 * 1000)
    × (m ≡ 2 ^ j)
hash_table_buckets_lem_example = hash_table_buckets_lem 1000 (omega arith) (omega arith)

hash_table_buckets_overflow_example : hash_table_buckets (2 ^ 28) ≡ ok 16
hash_table_buckets_overflow_example =
    hash_table_buckets_overflow (2 ^ 28) (omega arith) (omega arith)
