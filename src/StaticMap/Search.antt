-- ===== src/StaticMap/Search.antt =====
-- `hm_sm_find` finds by its hash table and its scan what `std::lower_bound` finds in all of `max_ips`.
use hipermap.Common.{
  ℕ, zero, suc, ◌+◌, ◌*◌, ◌/◌, ◌%◌, ◌^◌, ◌≤◌, ◌<◌, ◌≡◌, refl, sym, ap, ◌∙◌, arith, true, false,
  List, [], ◌∷◌, ltb, length, get_or, drop, ok, inl, inr, Bool-cases,
}
use hipermap.Words.{int_rank}
use hipermap.Words.Xor.{bit_xor_top}
use hipermap.StaticMap.{
  bias, less_int, lower_bound, fill_from, fill_hashtable, scan, find, Database, read_at,
}
use hipermap.StaticMap.Bisect.{first_from, IsAscending, first_from-IsParted, lower_bound-first_from}

-- `^ ip_xor` turns the order of addresses into that of `int32_t`.
pub int_rank-bias : (x : ℕ) → x < 2 ^ 32 → int_rank (bias x) ≡ x
unfolding int_rank bias
int_rank-bias x h = let top = bit_xor_top 31 x (omega arith) in ground arith

pub bias-lt : (x : ℕ) → x < 2 ^ 32 → bias x < 2 ^ 32
unfolding bias
bias-lt x h = let top = bit_xor_top 31 x (omega arith) in ground arith

pub less_int-bias : (x y : ℕ) → x < 2 ^ 32 → y < 2 ^ 32 → less_int (bias x) (bias y) ≡ ltb x y
unfolding less_int
less_int-bias x y h k = rw (int_rank-bias x h, int_rank-bias y k) refl

less_int_trans : (m x y : ℕ) → less_int m x ≡ true → less_int y x ≡ false → less_int m y ≡ true
unfolding less_int
less_int_trans m x y h k = ground arith

-- The scan stops there as well.
scan-first_from :
    (max_ips : List ℕ) (index ip : ℕ)
    → first_from max_ips ip < length max_ips
    → scan max_ips index ip ≡ ok (index + first_from max_ips ip)
unfolding scan
scan-first_from [] index ip h = absurd (omega arith)
scan-first_from (m ∷ max_ips) index ip h = elim (Bool-cases (less_int m ip)) [
  | inl below ↦
      let enough = rw below at h in
      let rest = scan-first_from max_ips (index + 1) ip (omega arith) in
      rw (below, rest) (ap ok (omega arith))
  | inr found ↦ rw found (ap ok (omega arith))
]

-- What is below an earlier address can be skipped.
scan-drop :
    (max_ips : List ℕ) (index x ip : ℕ)
    → less_int ip x ≡ false
    → scan (drop (first_from max_ips x) max_ips) (index + first_from max_ips x) ip
      ≡ scan max_ips index ip
unfolding scan
scan-drop [] index x ip h = refl
scan-drop (m ∷ max_ips) index x ip h = elim (Bool-cases (less_int m x)) [
  | inl below ↦
      let shift : index + suc (first_from max_ips x) ≡ (index + 1) + first_from max_ips x =
        omega arith in
      rw (below, less_int_trans m x ip below h, shift) (scan-drop max_ips (index + 1) x ip h)
  | inr found ↦ let shift : index + 0 ≡ index = omega arith in rw (found, shift) refl
]

length-fill_from : (left hash : ℕ) (max_ips : List ℕ) → length (fill_from left hash max_ips) ≡ left
unfolding fill_from
length-fill_from zero hash max_ips = refl
length-fill_from (suc left) hash max_ips = ap suc (length-fill_from left (hash + 1) max_ips)

pub length-fill_hashtable : (max_ips : List ℕ) → length (fill_hashtable max_ips) ≡ 65536
unfolding fill_hashtable
length-fill_hashtable max_ips = length-fill_from 65536 0 max_ips

get_or-fill :
    (left hash : ℕ) (max_ips : List ℕ) (k : ℕ)
    → k < left
    → get_or (fill_from left hash max_ips) k 0
      ≡ lower_bound max_ips (bias (((hash + k) * 2 ^ 16) % 2 ^ 32)) % 2 ^ 32
unfolding fill_from
get_or-fill zero hash max_ips k h = absurd (omega arith)
get_or-fill (suc left) hash max_ips zero h =
    let same : hash + 0 ≡ hash = omega arith in rw same refl
get_or-fill (suc left) hash max_ips (suc k) h =
    let next : hash + 1 + k ≡ hash + suc k = omega arith in
    rw (sym next) (get_or-fill left (hash + 1) max_ips k (omega arith))

-- A read inside an array.
pub read_at-inside :
    (cells : List ℕ) (i : ℕ) → i < length cells → read_at cells i ≡ ok (get_or cells i 0)
unfolding read_at
read_at-inside cells i h = let test : ltb i (length cells) ≡ true = ground arith in rw test refl

-- The cell of the hash table that `hm_sm_find` starts from.
begin-first_from :
    (max_ips : List ℕ) (a : ℕ)
    → IsAscending max_ips
    → length max_ips < 2 ^ 32
    → a < 2 ^ 32
    → read_at (fill_hashtable max_ips) (a / 2 ^ 16)
      ≡ ok (first_from max_ips (bias (a / 2 ^ 16 * 2 ^ 16)))
unfolding fill_hashtable
begin-first_from max_ips a ascending few h =
    let block : ((0 + a / 2 ^ 16) * 2 ^ 16) % 2 ^ 32 ≡ a / 2 ^ 16 * 2 ^ 16 = omega arith in
    let x = bias (a / 2 ^ 16 * 2 ^ 16) in
    let p = first_from-IsParted max_ips x ascending in
    let kept : lower_bound max_ips x % 2 ^ 32 ≡ first_from max_ips x =
      omega (arith, lower_bound-first_from max_ips x ascending, p.inside) in
    read_at-inside (fill_from 65536 0 max_ips) (a / 2 ^ 16)
      (omega (arith, length-fill_from 65536 0 max_ips))
    ∙ ap ok (
        get_or-fill 65536 0 max_ips (a / 2 ^ 16) (omega arith)
        ∙ ap (λ (x : ℕ). lower_bound max_ips (bias x) % 2 ^ 32) block
        ∙ kept)

-- For a database with ascending `max_ips`, fewer than 2 ^ 32, the hash table that `fill_hashtable`
-- fills from them and as many values: where some of `max_ips` is not below the address,
-- `hm_sm_find` returns the value at the index that the halving search of `std::lower_bound` gives
-- over all of `max_ips`.
pub find-lower_bound :
    (db : Database) (a : ℕ)
    → db.hashtable ≡ fill_hashtable db.max_ips
    → IsAscending db.max_ips
    → length db.max_ips < 2 ^ 32
    → length db.values ≡ length db.max_ips
    → lower_bound db.max_ips (bias a) < length db.max_ips
    → a < 2 ^ 32
    → find db a ≡ ok (get_or db.values (lower_bound db.max_ips (bias a)) 0)
unfolding find
find-lower_bound db a filled ascending few same enough h =
    let x = bias (a / 2 ^ 16 * 2 ^ 16) in
    let begin : read_at db.hashtable (a / 2 ^ 16) ≡ ok (first_from db.max_ips x) =
      rw filled (begin-first_from db.max_ips a ascending few h) in
    let start : a / 2 ^ 16 * 2 ^ 16 ≤ a = omega arith in
    let before : less_int (bias a) x ≡ false =
      less_int-bias a (a / 2 ^ 16 * 2 ^ 16) h (omega arith) ∙ ground arith in
    let whole = lower_bound-first_from db.max_ips (bias a) ascending in
    let first : 0 + first_from db.max_ips x ≡ first_from db.max_ips x = omega arith in
    let found : 0 + first_from db.max_ips (bias a) ≡ lower_bound db.max_ips (bias a) =
      omega (arith, whole) in
    let stops : scan (drop (first_from db.max_ips x) db.max_ips) (first_from db.max_ips x) (bias a)
        ≡ ok (lower_bound db.max_ips (bias a)) =
      rw (first, found) at
        (scan-drop db.max_ips 0 x (bias a) before
          ∙ scan-first_from db.max_ips 0 (bias a) (omega (arith, whole))) in
    rw (begin, stops) (read_at-inside db.values (lower_bound db.max_ips (bias a)) (omega arith))
