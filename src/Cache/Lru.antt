-- ===== src/Cache/Lru.antt =====
-- The cache of cache.c in the abstract: a list of IPs with their values, the newest first.
pub mod Entries
pub mod Consistent
pub mod Insert
pub mod Add
pub mod Steps
pub mod Represents
pub mod Present
pub mod Absent
pub mod Refine
pub mod Order
pub mod Start
pub mod Trace
use hipermap.Common.{
  ℕ, zero, suc, Bool, true, false, Option, none, some, List, [], ◌∷◌, map, length, ◌==◌, ltb,
  if◌then◌else◌,
}

-- The value of an IP.
abbrev pub find : ℕ → List (ℕ × ℕ) → Option ℕ
find ip [] = none
find ip ((k, v) ∷ l) = if k == ip then some v else find ip l

-- The list without an IP.
abbrev pub erase : ℕ → List (ℕ × ℕ) → List (ℕ × ℕ)
erase ip [] = []
erase ip ((k, v) ∷ l) = if k == ip then l else (k, v) ∷ erase ip l

-- The last entry, and the others.
abbrev pub oldest : List (ℕ × ℕ) → Option (ℕ × ℕ)
oldest [] = none
oldest (e ∷ []) = some e
oldest (e ∷ e' ∷ l) = oldest (e' ∷ l)

abbrev pub drop_oldest : List (ℕ × ℕ) → List (ℕ × ℕ)
drop_oldest [] = []
drop_oldest (e ∷ []) = []
drop_oldest (e ∷ e' ∷ l) = e ∷ drop_oldest (e' ∷ l)

-- A use of an IP makes it the newest. `promote` is given what is found.
abbrev pub promote : ℕ → List (ℕ × ℕ) → Option ℕ → List (ℕ × ℕ)
promote ip l none = l
promote ip l (some v) = (ip, v) ∷ erase ip l

abbrev pub touch : ℕ → List (ℕ × ℕ) → List (ℕ × ℕ)
touch ip l = promote ip l (find ip l)

abbrev pub is_found : Option ℕ → Bool
is_found none = false
is_found (some v) = true

-- The entry that the addition of an IP displaces, where the capacity is `room`.
abbrev pub displaced : ℕ → ℕ → List (ℕ × ℕ) → Option (ℕ × ℕ)
displaced room ip l =
    if is_found (find ip l) then none else if ltb (length l) room then none else oldest l

abbrev pub insert : ℕ → ℕ → ℕ → List (ℕ × ℕ) → List (ℕ × ℕ)
insert room ip value l =
    if is_found (find ip l)
    then (ip, value) ∷ erase ip l
    else if ltb (length l) room
    then (ip, value) ∷ l
    else (ip, value) ∷ drop_oldest l

-- The IPs, the newest first.
abbrev pub ips : List (ℕ × ℕ) → List ℕ
ips l = map (λ e. e.0) l

-- A call, and what it tells its caller.
pub data Call : Type 0 where
  add_call : ℕ → ℕ → Call
  remove_call : ℕ → Call
  has_call : ℕ → Call

pub data Answer : Type 0 where
  added : Bool → Option (ℕ × ℕ) → Answer
  removed : Option ℕ → Answer
  looked_up : Option ℕ → Answer

-- The list after a call, and the call's answer.
abbrev pub after : ℕ → List (ℕ × ℕ) → Call → List (ℕ × ℕ)
after room l (add_call ip value) = insert room ip value l
after room l (remove_call ip) = erase ip l
after room l (has_call ip) = touch ip l

abbrev pub answer_of : ℕ → List (ℕ × ℕ) → Call → Answer
answer_of room l (add_call ip value) = added (is_found (find ip l)) (displaced room ip l)
answer_of room l (remove_call ip) = removed (find ip l)
answer_of room l (has_call ip) = looked_up (find ip l)

abbrev pub after_all : ℕ → List (ℕ × ℕ) → List Call → List (ℕ × ℕ)
after_all room l [] = l
after_all room l (call ∷ calls) = after_all room (after room l call) calls

abbrev pub answers_of : ℕ → List (ℕ × ℕ) → List Call → List Answer
answers_of room l [] = []
answers_of room l (call ∷ calls) = answer_of room l call ∷ answers_of room (after room l call) calls
