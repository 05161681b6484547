-- ===== src/Cache/Probe/Rekey.antt =====
-- A table that holds the elements of one list holds those of another with the same elements, and
-- under other IPs that agree on them.
use hipermap.Common.{ℕ, ◌^◌, ◌<◌, ◌≡◌, ◌≢◌, refl, sym, ap, ◌∙◌, subst, List, length, In}
use hipermap.Cache.{Cache, no_index}
use hipermap.Cache.Ring.{dist}
use hipermap.Cache.Probe.{slot, IsTable}
use hipermap.Cache.Probe.Loops.{key_of, home_of}
use hipermap.Cache.Probe.Calls.{IsHashed}

-- Two lists of the same elements.
pub record IsSame (xs ws : List ℕ) : Type 0 where
  pub to : (y : ℕ) → In y xs → In y ws
  pub from : (y : ℕ) → In y ws → In y xs
  pub count : length ws ≡ length xs

pub IsSame-refl : (xs : List ℕ) → IsSame xs xs
IsSame-refl xs = record { to = λ y i. i; from = λ y i. i; count = refl }

pub rekey-IsTable :
    (n : ℕ) (key key' home : ℕ → ℕ) (t xs ws : List ℕ)
    → ((y : ℕ) → In y xs → key' y ≡ key y)
    → IsSame xs ws
    → IsTable n key home t xs
    → IsTable n key' home t ws
rekey-IsTable n key key' home t xs ws agree same h =
    let f = h.filled_by in
    let key_at : (b : ℕ) → b < n → slot t b ≢ no_index → key' (slot t b) ≡ key (slot t b) =
      λ b lb ub. agree (slot t b) (f.owned b lb ub) in
    record {
      filled_by = record {
        size = f.size;
        once =
            λ a b la lb ua ub e. f.once a b la lb ua ub (sym (key_at a la ua) ∙ e ∙ key_at b lb ub);
        holds = λ x member. f.holds x (same.from x member);
        owned = λ b lb ub. same.to (slot t b) (f.owned b lb ub);
        count = f.count ∙ sym same.count;
      };
      near = λ b a lb la ub gap less.
          h.near b a lb la ub gap
            (subst (λ (k : ℕ). dist n (home k) a < dist n (home k) b) (key_at b lb ub) less);
    }

-- Two elements of a table differ in their IPs.
pub same_key :
    (n : ℕ) (key home : ℕ → ℕ) (t xs : List ℕ) (x y : ℕ)
    → IsTable n key home t xs
    → In x xs
    → In y xs
    → key x ≡ key y
    → x ≡ y
same_key n key home t xs x y h ix iy e =
    let f = h.filled_by in
    let (a, la, at_a, ua) = f.holds x ix in
    let (b, lb, at_b, ub) = f.holds y iy in
    let bucket : a ≡ b =
      f.once a b la lb (λ none. ua (sym at_a ∙ none)) (λ none. ub (sym at_b ∙ none))
        (ap key at_a ∙ e ∙ ap key (sym at_b)) in
    sym at_a ∙ ap (slot t) bucket ∙ at_b

pub rekey-IsHashed :
    (bits : ℕ) (c d : Cache) (xs ws : List ℕ)
    → ((y : ℕ) → In y xs → key_of d.list_storage y ≡ key_of c.list_storage y)
    → d.mask_for_hash ≡ c.mask_for_hash
    → d.hash_table ≡ c.hash_table
    → IsSame xs ws
    → IsHashed bits c c.hash_table xs
    → IsHashed bits d d.hash_table ws
rekey-IsHashed bits c d xs ws agree mask table same h =
    subst (λ (m : ℕ). IsTable (2 ^ bits) (key_of d.list_storage) (home_of m) d.hash_table ws)
      (sym mask)
      (subst
        (λ (t : List ℕ). IsTable (2 ^ bits) (key_of d.list_storage) (home_of c.mask_for_hash) t ws)
        (sym table)
        (rekey-IsTable (2 ^ bits) (key_of c.list_storage) (key_of d.list_storage)
          (home_of c.mask_for_hash) c.hash_table xs ws agree same h))
