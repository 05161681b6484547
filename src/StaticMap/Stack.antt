-- ===== src/StaticMap/Stack.antt =====
-- The stack of open ranges of static_map.cpp, and what the map will answer when they are closed.
use hipermap.Common.{
  ℕ, ◌+◌, ◌^◌, ◌≤◌, ◌<◌, ◌≡◌, ◌≢◌, refl, ap, ◌∙◌, arith, true, List, [], ◌∷◌, leb, ltb,
  if◌then◌else◌, All, All-mono, All-zip,
}
use hipermap.StaticMap.{Input, Elem, no_value, push_to_sorted, reopened_value, end_ip_of_zone}
use hipermap.StaticMap.Zones.{
  zone_size, IsZone, Before, end_of, zone-end, zone-le, zone_size-le, end_ip-lt,
}
use hipermap.StaticMap.Steps.{value_at, value_at-push, last_ip, IsSteps, last_ip-push, push-IsSteps}

-- The value at an address where the last step has no say any more.
abbrev pub beyond : List Elem → ℕ → ℕ
beyond [] a = no_value
beyond (e ∷ ends_stack) a = if ltb a (end_of e.ip) then e.value else beyond ends_stack a

-- The value at an address once all open ranges are closed.
abbrev pub denote : List Elem → List Elem → ℕ → ℕ
denote [] sorted a = value_at sorted a
denote (e ∷ ends_stack) sorted a =
    if ltb a (end_of e.ip) then value_at sorted a else beyond ends_stack a

-- An entry of the stack is the end of a range that came before `x`, starts at or before the last
-- step `h`, and ends at or after it.
pub record IsEnd (h : ℕ) (x : Input) (e : Elem) : Type 0 where
  pub zone : Input
  pub is_zone : IsZone zone
  pub ends : e.ip ≡ end_ip_of_zone zone.ip zone.cidr_prefix
  pub before : Before zone x
  pub started : zone.ip ≤ h
  pub ahead : h ≤ end_of e.ip

-- The ends ascend from the last entry on.
abbrev pub IsAscending : List Elem → Type 0
IsAscending [] = Unit
IsAscending (e ∷ ends_stack) =
    All (λ f. end_of e.ip < end_of f.ip) ends_stack × IsAscending ends_stack

-- The state before the input `x`.
pub record IsReady (x : Input) (sorted ends_stack : List Elem) : Type 0 where
  pub steps : IsSteps sorted
  pub reached : last_ip sorted ≤ x.ip
  pub open_ends : All (IsEnd (last_ip sorted) x) ends_stack
  pub ascending : IsAscending ends_stack
  pub settled : (a : ℕ) → x.ip ≤ a → value_at sorted a ≡ reopened_value ends_stack

pub end-at :
    (h : ℕ) (x : Input) (e : Elem) (p : IsEnd h x e) → end_of e.ip ≡ p.zone.ip + zone_size p.zone
end-at h x e p = ap end_of p.ends ∙ zone-end p.zone p.is_zone

-- What the end of an open range says of the last step.
pub end_bounds :
    (h : ℕ) (x : Input) (e : Elem)
    → IsEnd h x e
    → (end_of e.ip ≤ h + 2 ^ 31) × (e.ip < 2 ^ 32) × (end_of e.ip ≤ 2 ^ 32)
end_bounds h x e p =
    let at_end = end-at h x e p in
    let size = zone_size-le p.zone p.is_zone.least in
    let bound = zone-le p.zone p.is_zone in
    let small : e.ip < 2 ^ 32 = rw p.ends (end_ip-lt p.zone.ip p.zone.cidr_prefix) in
    (omega (arith, p.started), small, omega arith)

-- Closing the last range changes no answer.
pub denote-close :
    (e : Elem) (ends_stack sorted : List Elem) (a : ℕ)
    → e.ip ≢ 0
    → IsAscending (e ∷ ends_stack)
    → denote ends_stack (push_to_sorted e.ip (reopened_value ends_stack) sorted) a
      ≡ denote (e ∷ ends_stack) sorted a
unfolding reopened_value
denote-close e [] sorted a some ascending = ground (arith, value_at-push e.ip no_value sorted a)
denote-close e (f ∷ ends_stack) sorted a some ascending =
    ground (arith, value_at-push e.ip f.value sorted a)

-- An open range is one for a later step and a later input too, whatever its value.
pub IsEnd-later :
    (h h' : ℕ) (x y : Input) (e : Elem) (v : ℕ)
    → h ≤ h'
    → h' ≤ end_of e.ip
    → ((z : Input) → Before z x → Before z y)
    → IsEnd h x e
    → IsEnd h' y (record e { value = v })
IsEnd-later h h' x y e v le ahead later p = record {
  zone = p.zone;
  is_zone = p.is_zone;
  ends = p.ends;
  before = later p.zone p.before;
  started = omega (arith, p.started);
  ahead = ahead;
}

-- The state after the last range was closed.
pub IsReady-close :
    (x : Input) (sorted : List Elem) (e : Elem) (ends_stack : List Elem)
    → e.ip ≢ 0
    → e.ip ≤ x.ip
    → IsReady x sorted (e ∷ ends_stack)
    → IsReady x (push_to_sorted e.ip (reopened_value ends_stack) sorted) ends_stack
IsReady-close x sorted e ends_stack some le r =
    let v = reopened_value ends_stack in
    let own : end_of e.ip ≡ e.ip = ground arith in
    let (_, small, _) = end_bounds (last_ip sorted) x e r.open_ends.0 in
    let ahead : last_ip sorted ≤ e.ip = omega (arith, r.open_ends.0.ahead) in
    let last : last_ip (push_to_sorted e.ip v sorted) ≡ e.ip = last_ip-push e.ip v sorted in
    record {
      steps = push-IsSteps e.ip v sorted r.steps ahead small;
      reached = omega arith;
      open_ends = rw last (
          All-mono
            (λ f h.
              IsEnd-later (last_ip sorted) e.ip x x f f.value ahead (omega (arith, h.0, own))
                (λ z b. b) h.1)
            ends_stack (All-zip _ _ ends_stack r.ascending.0 r.open_ends.1));
      ascending = r.ascending.1;
      settled = λ a after.
          let below : leb e.ip a ≡ true = ground arith in
          value_at-push e.ip v sorted a ∙ rw below refl;
    }
