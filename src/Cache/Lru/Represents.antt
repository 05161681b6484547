-- ===== src/Cache/Lru/Represents.antt =====
-- What it is that a cache of cache.c holds the entries of the abstract list, and what a call on it
-- does.
use hipermap.Common.{ℕ, ◌≡◌, refl, ap, ◌∙◌, Bool, Option, List, Outcome, ok}
use hipermap.Cache.{Cache}
use hipermap.Cache.Api.{Added, add, remove, has}
use hipermap.Cache.Lru.{find, erase, touch, is_found, displaced, insert}
use hipermap.Cache.Lru.Entries.{entry, entries, entries_cong}
use hipermap.Cache.Lru.Consistent.{IsConsistent}
use hipermap.Cache.Relink.{IsMoved}
use hipermap.Cache.Lru.Add.{IsResult}

-- The cache, of `room` elements and `2 ^ bits` buckets, is consistent and holds the entries `l`.
pub record Represents (bits room : ℕ) (c : Cache) (l : List (ℕ × ℕ)) : Type 0 where
  pub used : List ℕ
  pub free : List ℕ
  pub consistent : IsConsistent bits c used free
  pub capacity : c.capacity ≡ room
  pub contents : entries c.list_storage used ≡ l

pub result-Represents :
    (bits room : ℕ) (c d : Cache) (l : List (ℕ × ℕ)) (ws gs : List ℕ)
    → IsResult bits c d l ws gs
    → c.capacity ≡ room
    → Represents bits room d l
result-Represents bits room c d l ws gs r same = record {
  used = ws;
  free = gs;
  consistent = r.consistent;
  capacity = r.capacity ∙ same;
  contents = r.contents;
}

pub moved_entry :
    (c d : Cache) (y : ℕ) → IsMoved c d → entry d.list_storage y ≡ entry c.list_storage y
moved_entry c d y m = rw ((m.words y).0, (m.words y).1) refl

pub moved_entries :
    (c d : Cache) (ws : List ℕ)
    → IsMoved c d
    → entries d.list_storage ws ≡ entries c.list_storage ws
moved_entries c d ws m = entries_cong c.list_storage d.list_storage ws (λ y _. moved_entry c d y m)

-- What each call does.
abbrev pub HasAs : ℕ → ℕ → ℕ → Cache → ℕ → List (ℕ × ℕ) → Type 0
HasAs bits room fuel c ip l =
    (d : Cache) × (has fuel c ip ≡ ok (find ip l, d)) × Represents bits room d (touch ip l)

abbrev pub RemovesAs : ℕ → ℕ → ℕ → Cache → ℕ → List (ℕ × ℕ) → Type 0
RemovesAs bits room fuel c ip l =
    (d : Cache) × (remove fuel c ip ≡ ok (find ip l, d)) × Represents bits room d (erase ip l)

abbrev pub AddsAs : ℕ → ℕ → ℕ → Cache → ℕ → ℕ → List (ℕ × ℕ) → Type 0
AddsAs bits room fuel c ip value l =
    (d : Cache) × (add fuel c ip value
      ≡ ok (record { existed = is_found (find ip l); evicted = displaced room ip l; cache = d }))
    × Represents bits room d (insert room ip value l)

-- A result of `hm_cache_add`.
abbrev pub answer : Bool → Option (ℕ × ℕ) → Cache → Outcome Added
answer existed evicted cache = ok (record { existed = existed; evicted = evicted; cache = cache })

pub answer_eq :
    (b : Bool) (e : Option (ℕ × ℕ)) (d : Cache) {b' : Bool} {e' : Option (ℕ × ℕ)}
    → b ≡ b'
    → e ≡ e'
    → answer b e d ≡ answer b' e' d
answer_eq b e d {b'} h k =
    ap (λ (b : Bool). answer b e d) h ∙ ap (λ (e : Option (ℕ × ℕ)). answer b' e d) k
