-- ===== src/Cache/Relink.antt =====
-- `cut` and `set_head` of cache.c write links only: the IPs and the values stay.
use hipermap.Common.{ℕ, ◌≡◌, refl, ◌∙◌, Bool, true, false, List, ◌==◌, if◌then◌else◌}
use hipermap.Cache.{Element, Linked, Cache, no_index, at, set_prev, set_next, cut, set_head}
use hipermap.Cache.Api.{cut_node, cut_free, push_node, push_free}
use hipermap.Cache.Chain.{keep}

-- The same IPs and values.
abbrev pub IsRelinked : List Element → List Element → Type 0
IsRelinked s t = (j : ℕ) → ((at t j).ip ≡ (at s j).ip) × ((at t j).value ≡ (at s j).value)

IsRelinked-trans : (s t u : List Element) → IsRelinked s t → IsRelinked t u → IsRelinked s u
IsRelinked-trans s t u f g j = ((g j).0 ∙ (f j).0, (g j).1 ∙ (f j).1)

set_prev-IsRelinked : (s : List Element) (i v : ℕ) → IsRelinked s (set_prev s i v)
set_prev-IsRelinked s i v j =
    let new = record (at s i) { prev_index = v } in
    (keep (λ e. e.ip) s i new refl j, keep (λ e. e.value) s i new refl j)

set_next-IsRelinked : (s : List Element) (i v : ℕ) → IsRelinked s (set_next s i v)
set_next-IsRelinked s i v j =
    let new = record (at s i) { next_index = v } in
    (keep (λ e. e.ip) s i new refl j, keep (λ e. e.value) s i new refl j)

either : {A : Type 0} (P : A → Type 0) (b : Bool) (x y : A) → P x → P y → P (if b then x else y)
either P true x y p q = p
either P false x y p q = q

pub cut-IsRelinked : (l : Linked) (i : ℕ) → IsRelinked l.storage (cut l i).storage
unfolding cut
cut-IsRelinked l i =
    let prev = (at l.storage i).prev_index in
    let next = (at l.storage i).next_index in
    let s = set_prev l.storage i no_index in
    let t = set_next s i no_index in
    let loose : IsRelinked l.storage t =
      IsRelinked-trans l.storage s t (set_prev-IsRelinked l.storage i no_index)
        (set_next-IsRelinked s i no_index) in
    let u = set_next t prev next in
    let to_next : IsRelinked l.storage u =
      IsRelinked-trans l.storage t u loose (set_next-IsRelinked t prev next) in
    let P : Linked → Type 0 = λ m. IsRelinked l.storage m.storage in
    either P (prev == no_index) _ _
      (either P (next == no_index) _ _ loose (
        IsRelinked-trans l.storage t (set_prev t next no_index) loose
          (set_prev-IsRelinked t next no_index)))
      (either P (next == no_index) _ _
        (IsRelinked-trans l.storage t (set_next t prev no_index) loose
          (set_next-IsRelinked t prev no_index))
        (IsRelinked-trans l.storage u (set_prev u next prev) to_next
          (set_prev-IsRelinked u next prev)))

pub set_head-IsRelinked : (l : Linked) (i : ℕ) → IsRelinked l.storage (set_head l i).storage
unfolding set_head
set_head-IsRelinked l i =
    let head = l.ends.head_index in
    let s = set_next l.storage i head in
    either (λ (m : Linked). IsRelinked l.storage m.storage) (head == no_index) _ _
      (λ j. (refl, refl))
      (IsRelinked-trans l.storage s (set_prev s head i) (set_next-IsRelinked l.storage i head)
        (set_prev-IsRelinked s head i))

-- The same IPs, values and table.
pub record IsMoved (c d : Cache) : Type 0 where
  pub words : IsRelinked c.list_storage d.list_storage
  pub table : d.hash_table ≡ c.hash_table
  pub mask : d.mask_for_hash ≡ c.mask_for_hash
  pub capacity : d.capacity ≡ c.capacity

pub moved_trans : (b c d : Cache) → IsMoved b c → IsMoved c d → IsMoved b d
moved_trans b c d f g = record {
  words = IsRelinked-trans b.list_storage c.list_storage d.list_storage f.words g.words;
  table = g.table ∙ f.table;
  mask = g.mask ∙ f.mask;
  capacity = g.capacity ∙ f.capacity;
}

module _ (c : Cache) (x : ℕ) where
  pub cut_node-IsMoved : IsMoved c (cut_node c x)
  unfolding cut_node
  cut_node-IsMoved = record {
    words = cut-IsRelinked (record { storage = c.list_storage; ends = c.nodes }) x;
    table = refl;
    mask = refl;
    capacity = refl;
  }

  pub cut_free-IsMoved : IsMoved c (cut_free c x)
  unfolding cut_free
  cut_free-IsMoved = record {
    words = cut-IsRelinked (record { storage = c.list_storage; ends = c.free_nodes }) x;
    table = refl;
    mask = refl;
    capacity = refl;
  }

  pub push_node-IsMoved : IsMoved c (push_node c x)
  unfolding push_node
  push_node-IsMoved = record {
    words = set_head-IsRelinked (record { storage = c.list_storage; ends = c.nodes }) x;
    table = refl;
    mask = refl;
    capacity = refl;
  }

  pub push_free-IsMoved : IsMoved c (push_free c x)
  unfolding push_free
  push_free-IsMoved = record {
    words = set_head-IsRelinked (record { storage = c.list_storage; ends = c.free_nodes }) x;
    table = refl;
    mask = refl;
    capacity = refl;
  }
