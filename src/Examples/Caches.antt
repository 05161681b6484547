-- ===== src/Examples/Caches.antt =====
-- A cache of two elements, which the theorems on cache.c are applied to.
use hipermap.Common.{
  ℕ, zero, suc, ◌<◌, ◌≡◌, ◌≢◌, refl, sym, ◌∙◌, arith, true, false, List, [], ◌∷◌, Option, none,
  some, ok, In, inl, inr, ◌⊎◌, replicate,
}
use hipermap.Words.{align}
use hipermap.Cache.Init.{
  init, cache_place_size, valid_capacity, get_hash_table_capacity, link_free, Placed,
}
use hipermap.Cache.Dump.{dump}
use hipermap.Cache.Dump.Whole.{IsWhole}
use hipermap.Cache.{
  Element, Ends, Cache, no_index, no_element, cut, set_head, hash32, lookup_from, table_lookup,
  add_from, table_add, delete_from, lies_between, close_gap, table_delete,
}
use hipermap.Cache.Moves.{IsCache}
use hipermap.Cache.Ring.{dist_self}
use hipermap.Cache.Probe.{slot}
use hipermap.Cache.Probe.Loops.{key_of, home_of}
use hipermap.Cache.Probe.Calls.{IsHashed, table_delete-IsHashed}
use hipermap.Cache.Lru.{Call, add_call, remove_call, has_call, added, removed, looked_up}
use hipermap.Cache.Lru.Consistent.{IsConsistent, rest-IsLess}
use hipermap.Cache.Lru.Represents.{Represents}
use hipermap.Cache.Lru.Refine.{add-Represents, remove-Represents, has-Represents}
use hipermap.Cache.Lru.Order.{dump-Represents}
use hipermap.Cache.Memory.{IsPlaced, init_succeeds}
use hipermap.Cache.Lru.Trace.{run, run-answers_of}
use hipermap.Cache.Api.{
  Added, cut_node, cut_free, push_node, push_free, insert_new, add, add_evicting, add_from_free,
  remove, has,
}

abbrev element : ℕ → ℕ → ℕ → ℕ → Element
element i p n v = record { ip = i; prev_index = p; next_index = n; value = v }

abbrev no_ends : Ends
no_ends = record { head_index = no_index; tail_index = no_index }

-- One element used, and both.
abbrev half : Cache
half = record {
  mask_for_hash = 3;
  capacity = 2;
  list_storage = element 7 no_index no_index 70 ∷ element 0 no_index no_index 0 ∷ [];
  nodes = record { head_index = 0; tail_index = 0 };
  free_nodes = record { head_index = 1; tail_index = 1 };
  hash_table = no_index ∷ no_index ∷ no_index ∷ 0 ∷ [];
}

abbrev full : Cache
full = record {
  mask_for_hash = 3;
  capacity = 2;
  list_storage = element 7 1 no_index 70 ∷ element 8 no_index 0 80 ∷ [];
  nodes = record { head_index = 1; tail_index = 0 };
  free_nodes = no_ends;
  hash_table = no_index ∷ no_index ∷ 1 ∷ 0 ∷ [];
}

-- `full` after IP 9 was added, and after IP 7 was removed.
abbrev evicted : Cache
evicted = record {
  mask_for_hash = 3;
  capacity = 2;
  list_storage = element 9 no_index 1 90 ∷ element 8 0 no_index 80 ∷ [];
  nodes = record { head_index = 0; tail_index = 1 };
  free_nodes = no_ends;
  hash_table = no_index ∷ no_index ∷ 1 ∷ 0 ∷ [];
}

abbrev without_seven : Cache
without_seven = record {
  mask_for_hash = 3;
  capacity = 2;
  list_storage = element 7 no_index no_index 70 ∷ element 8 no_index no_index 80 ∷ [];
  nodes = record { head_index = 1; tail_index = 1 };
  free_nodes = record { head_index = 0; tail_index = 0 };
  hash_table = no_index ∷ no_index ∷ 1 ∷ no_index ∷ [];
}

full-IsCache : IsCache full (1 ∷ 0 ∷ []) []
full-IsCache = record {
  one = record {
    indices = (omega arith, omega arith, (omega arith, tt), (omega arith, omega arith, tt, tt));
    head = refl;
    tail = refl;
    chain = (refl, refl, (refl, refl, tt));
  };
  other = record { indices = tt; head = refl; tail = refl; chain = tt };
  apart = (tt, (tt, tt));
}

abbrev eight : Added
eight = record { existed = false; evicted = none; cache = full }

add_eight : add_from_free 10 half 8 80 ≡ ok eight
unfolding add_from_free cut cut_node cut_free push_node push_free set_head insert_new table_add
    add_from table_lookup lookup_from table_delete delete_from close_gap lies_between hash32
add_eight = refl

abbrev nine : Added
nine = record { existed = false; evicted = some (7, 70); cache = evicted }

add_nine : add_evicting 10 full 9 90 ≡ ok nine
unfolding add_evicting cut cut_node cut_free push_node push_free set_head insert_new table_add
    add_from table_lookup lookup_from table_delete delete_from close_gap lies_between hash32
add_nine = refl

find_seven : table_lookup 10 full 7 ≡ ok 0
unfolding table_lookup lookup_from hash32
find_seven = refl

abbrev seventy : Option ℕ
seventy = some 70

remove_seven : remove 10 full 7 ≡ ok (seventy, without_seven)
unfolding remove cut cut_node cut_free push_node push_free set_head insert_new table_add add_from
    table_lookup lookup_from table_delete delete_from close_gap lies_between hash32
remove_seven = refl

full_covered : (i : ℕ) → i < 2 → In i (1 ∷ 0 ∷ []) ⊎ In i []
full_covered zero h = inl (inr (inl refl))
full_covered (suc zero) h = inl (inl refl)
full_covered (suc (suc i)) h = absurd (omega arith)

full-IsWhole : IsWhole full (1 ∷ 0 ∷ []) []
full-IsWhole = record {
  lists = full-IsCache;
  covered = full_covered;
  size = refl;
  some = omega arith;
}

-- A cache of two elements as it is created.
abbrev fresh : Placed
fresh = record {
  cache_place = 1008;
  list_place = 1048;
  hash_table_place = 1080;
  end_place = 1096;
  cache = record {
    mask_for_hash = 3;
    capacity = 2;
    list_storage = element 0 no_index 1 0 ∷ element 0 0 no_index 0 ∷ [];
    nodes = no_ends;
    free_nodes = record { head_index = 0; tail_index = 1 };
    hash_table = no_index ∷ no_index ∷ no_index ∷ no_index ∷ [];
  };
}

init_fresh : init 1000 200 2 1 (no_element ∷ no_element ∷ []) ≡ ok fresh
unfolding init align cache_place_size valid_capacity get_hash_table_capacity link_free replicate
init_fresh = refl

-- IP 8 lies in bucket 2 and IP 7 in bucket 3, where they hash to.
full_used : (b : ℕ) → b < 4 → slot full.hash_table b ≢ no_index → (b ≡ 2) ⊎ (b ≡ 3)
full_used zero inside used = absurd (used refl)
full_used (suc zero) inside used = absurd (used refl)
full_used (suc (suc zero)) inside used = inl refl
full_used (suc (suc (suc zero))) inside used = inr refl
full_used (suc (suc (suc (suc b)))) inside used = absurd (omega arith)

full_once :
    (a b : ℕ)
    → a < 4
    → b < 4
    → slot full.hash_table a ≢ no_index
    → slot full.hash_table b ≢ no_index
    → key_of full.list_storage (slot full.hash_table a)
      ≡ key_of full.list_storage (slot full.hash_table b)
    → a ≡ b
full_once a b la lb ua ub e = elim (full_used a la ua) [
  | inl p ↦ elim (full_used b lb ub) [
    | inl q ↦ p ∙ sym q
    | inr q ↦ absurd (omega (arith, rw (p, q) at e))
  ]
  | inr p ↦ elim (full_used b lb ub) [
    | inl q ↦ absurd (omega (arith, rw (p, q) at e))
    | inr q ↦ p ∙ sym q
  ]
]

full_home :
    (b : ℕ)
    → b < 4
    → slot full.hash_table b ≢ no_index
    → home_of 3 (key_of full.list_storage (slot full.hash_table b)) ≡ b
unfolding hash32
full_home b inside used = elim (full_used b inside used) [ inl e ↦ rw e refl | inr e ↦ rw e refl ]

full-IsHashed : IsHashed 2 full full.hash_table (1 ∷ 0 ∷ [])
full-IsHashed = record {
  filled_by = record {
    size = refl;
    once = full_once;
    holds = λ x member. elim member [
      | inl e ↦ (2, omega arith, sym e, omega (arith, e))
      | inr (inl e) ↦ (3, omega arith, sym e, omega (arith, e))
      | inr (inr none_left) ↦ absurd none_left
    ];
    owned = λ b inside used. elim (full_used b inside used) [
      | inl e ↦ rw e (inl refl)
      | inr e ↦ rw e (inr (inl refl))
    ];
    count = refl;
  };
  near = λ b a inside _ used _ less.
      absurd (omega (arith, rw (full_home b inside used, dist_self 4 b) at less));
}

full-IsConsistent : IsConsistent 2 full (1 ∷ 0 ∷ []) []
full-IsConsistent = record {
  whole = full-IsWhole;
  small = omega arith;
  masked = refl;
  roomy = omega arith;
  table = full-IsHashed;
}

abbrev entries_of_full : List (ℕ × ℕ)
entries_of_full = (8, 80) ∷ (7, 70) ∷ []

full-Represents : Represents 2 2 full entries_of_full
full-Represents = record {
  used = 1 ∷ 0 ∷ [];
  free = [];
  consistent = full-IsConsistent;
  capacity = refl;
  contents = refl;
}

add-Represents_example :
    (d : Cache) × (add 10 full 9 90
      ≡ ok (record { existed = false; evicted = some (7, 70); cache = d }))
    × Represents 2 2 d ((9, 90) ∷ (8, 80) ∷ [])
add-Represents_example =
    add-Represents 2 2 10 full entries_of_full 9 full-Represents (omega arith) 90

remove-Represents_example :
    (d : Cache) × (remove 10 full 7 ≡ ok (some 70, d)) × Represents 2 2 d ((8, 80) ∷ [])
remove-Represents_example =
    remove-Represents 2 2 10 full entries_of_full 7 full-Represents (omega arith)

has-Represents_example :
    (d : Cache) × (has 10 full 7 ≡ ok (some 70, d)) × Represents 2 2 d ((7, 70) ∷ (8, 80) ∷ [])
has-Represents_example = has-Represents 2 2 10 full entries_of_full 7 full-Represents (omega arith)

dump-Represents_example : dump 10 full 2 ≡ ok (8 ∷ 7 ∷ [])
dump-Represents_example =
    dump-Represents 2 2 10 2 full entries_of_full full-Represents (omega arith) (omega arith)

table_delete-IsHashed_example :
    (t : List ℕ) × (table_delete 10 full 7 ≡ ok (record full { hash_table = t }))
    × IsHashed 2 full t (1 ∷ [])
table_delete-IsHashed_example =
    table_delete-IsHashed 2 10 full (1 ∷ 0 ∷ []) (omega arith) refl (omega arith) (omega arith)
      full-IsHashed 0 (1 ∷ []) (inr (inl refl)) (omega arith)
      (rest-IsLess (1 ∷ []) 0 [] (omega arith, tt))

init_succeeds_example :
    (p : Placed) × (init 1000 200 2 1 (no_element ∷ no_element ∷ []) ≡ ok p) × IsPlaced 1000 200 p
init_succeeds_example =
    init_succeeds 1000 200 1 1 (no_element ∷ no_element ∷ []) refl (omega arith) (omega arith)
      (omega arith) (omega arith) (omega arith) (omega arith)

-- Two additions, a use of the older one, an addition that evicts the other, and a removal.
abbrev calls : List Call
calls =
    add_call 7 70
    ∷ add_call 8 80
    ∷ has_call 7
    ∷ add_call 9 90
    ∷ has_call 8
    ∷ add_call 9 91
    ∷ remove_call 7
    ∷ []

run-answers_of_example :
    (d : Cache) × (run 10 fresh.cache calls
      ≡ ok (
        added false none
            ∷ added false none
            ∷ looked_up (some 70)
            ∷ added false (some (8, 80))
            ∷ looked_up none
            ∷ added true none
            ∷ removed (some 70)
            ∷ [],
        d,
      ))
    × (dump 10 d 2 ≡ ok (9 ∷ []))
run-answers_of_example =
    run-answers_of 1000 200 2 1 10 (no_element ∷ no_element ∷ []) calls refl (omega arith)
      init_fresh (omega arith)
