-- ===== src/Cache/Lru/Trace.antt =====
-- Sequences of calls of `hm_cache_add`, `hm_cache_remove` and `hm_cache_has` on a cache that
-- `hm_cache_init` made.
use hipermap.Common.{ℕ, ◌*◌, ◌^◌, ◌≤◌, ◌≡◌, refl, arith, List, [], ◌∷◌, length, Outcome, ok, ◌>>=◌}
use hipermap.Cache.{Cache, Element}
use hipermap.Cache.Init.{Placed, init}
use hipermap.Cache.Api.{add, remove, has}
use hipermap.Cache.Dump.{dump}
use hipermap.Cache.Lru.{
  ips, Call, add_call, remove_call, has_call, Answer, added, removed, looked_up, after, answer_of,
  after_all, answers_of,
}
use hipermap.Cache.Lru.Represents.{Represents}
use hipermap.Cache.Lru.Refine.{has-Represents, remove-Represents, add-Represents}
use hipermap.Cache.Lru.Order.{dump-Represents}
use hipermap.Cache.Lru.Start.{init-Represents}

-- A call on the cache.
abbrev pub call_on : ℕ → Cache → Call → Outcome (Answer × Cache)
call_on fuel c (add_call ip value) =
    add fuel c ip value >>= λ r. ok (added r.existed r.evicted, r.cache)
call_on fuel c (remove_call ip) = remove fuel c ip >>= λ r. ok (removed r.0, r.1)
call_on fuel c (has_call ip) = has fuel c ip >>= λ r. ok (looked_up r.0, r.1)

abbrev pub run : ℕ → Cache → List Call → Outcome (List Answer × Cache)
run fuel c [] = ok ([], c)
run fuel c (call ∷ calls) = call_on fuel c call >>= λ (r : Answer × Cache).
    run fuel r.1 calls >>= λ (s : List Answer × Cache). ok (r.0 ∷ s.0, s.1)

module _ (bits room fuel : ℕ) (enough : 2 ^ bits ≤ fuel) where
  call_on-Represents :
      (c : Cache) (l : List (ℕ × ℕ)) (call : Call)
      → Represents bits room c l
      → (d : Cache) × (call_on fuel c call ≡ ok (answer_of room l call, d))
        × Represents bits room d (after room l call)
  call_on-Represents c l (add_call ip value) r =
      let (d, result, s) = add-Represents bits room fuel c l ip r enough value in
      (d, rw result refl, s)
  call_on-Represents c l (remove_call ip) r =
      let (d, result, s) = remove-Represents bits room fuel c l ip r enough in
      (d, rw result refl, s)
  call_on-Represents c l (has_call ip) r =
      let (d, result, s) = has-Represents bits room fuel c l ip r enough in (d, rw result refl, s)

  step-run :
      (c d e : Cache) (call : Call) (calls : List Call) (a : Answer) (more : List Answer)
      → call_on fuel c call ≡ ok (a, d)
      → run fuel d calls ≡ ok (more, e)
      → run fuel c (call ∷ calls) ≡ ok (a ∷ more, e)
  step-run c d e call calls a more first rest = rw (first, rest) refl

  run-Represents :
      (c : Cache) (l : List (ℕ × ℕ)) (calls : List Call)
      → Represents bits room c l
      → (d : Cache) × (run fuel c calls ≡ ok (answers_of room l calls, d))
        × Represents bits room d (after_all room l calls)
  run-Represents c l [] r = (c, refl, r)
  run-Represents c l (call ∷ calls) r =
      let (d, first, s) = call_on-Represents c l call r in
      let (e, rest, t) = run-Represents d (after room l call) calls s in
      (
        e,
        step-run c d e call calls (answer_of room l call)
            (answers_of room (after room l call) calls) first rest,
        t,
      )

-- After a successful `hm_cache_init` over a memory of as many elements as the capacity, with at
-- most 2 ^ 32 buckets, any sequence of calls of `hm_cache_add`, `hm_cache_remove` and
-- `hm_cache_has` returns, with fuel for as many rounds as there are buckets, and tells its caller
-- what the abstract list of IPs and values, newest first, tells; `hm_cache_dump` afterwards writes
-- the IPs of that list.
pub run-answers_of :
    (place size capacity speed fuel : ℕ) (memory : List Element) (calls : List Call) {p : Placed}
    → length memory ≡ capacity
    → capacity * 2 ^ speed ≤ 2 ^ 32
    → init place size capacity speed memory ≡ ok p
    → capacity * 2 ^ speed ≤ fuel
    → (d : Cache) × (run fuel p.cache calls ≡ ok (answers_of capacity [] calls, d))
      × (dump fuel d capacity ≡ ok (ips (after_all capacity [] calls)))
run-answers_of place size capacity speed fuel memory calls {p} whole fits h enough =
    let (bits, buckets, r) = init-Represents place size capacity speed memory whole fits h in
    let fuelled : 2 ^ bits ≤ fuel = omega (arith, buckets) in
    let (d, answered, s) = run-Represents bits capacity fuel fuelled p.cache [] calls r in
    (
      d,
      answered,
      dump-Represents bits capacity fuel capacity d (after_all capacity [] calls) s fuelled
          (omega arith),
    )
