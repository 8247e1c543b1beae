-- ===== src/Server/Registry/Heap.antt =====
-- The registry of the clients at a list of addresses, for src/joebot/server/server.go, when one of
-- them is changed, added or taken out.
use joebot.Prelude.{
  ℕ, none, ◌≡◌, refl, ap, ◌∙◌, inl, inr, true, false, List, [], ◌∷◌, ◌++◌, arith, ◌==◌,
  if◌then◌else◌, ==_iff, Bool-cases, str_eq, str_eq_refl, All, count, has, GoString,
}
use mathlib.Core.Path.{ap₂}
use joebot.Models.{PortTunnelInfo}
use joebot.Server.{Client, update}
use joebot.Server.Registry.{
  entry_of, registry_of, without_id, change_id, has_entry, tunnelled, has_port,
}
use joebot.Server.Tunnel.{find_tunnel}

pub registry_of-append :
    (heap : ℕ → Client) (xs ys : List ℕ)
    → registry_of heap (xs ++ ys) ≡ registry_of heap xs ++ registry_of heap ys
registry_of-append heap [] ys = refl
registry_of-append heap (x ∷ xs) ys =
    ap (λ r. entry_of (heap x) ∷ r) (registry_of-append heap xs ys)

pub registry_of-update_absent :
    (heap : ℕ → Client) (a : ℕ) (c : Client) (xs : List ℕ)
    → count a xs ≡ 0
    → registry_of (update heap a c) xs ≡ registry_of heap xs
registry_of-update_absent heap a c [] h = refl
registry_of-update_absent heap a c (x ∷ xs) h =
    ground (arith, registry_of-update_absent heap a c xs)

-- A client that looks the same as before.
pub registry_of-update_same :
    (heap : ℕ → Client) (a : ℕ) (c : Client) (xs : List ℕ)
    → entry_of c ≡ entry_of (heap a)
    → registry_of (update heap a c) xs ≡ registry_of heap xs
registry_of-update_same heap a c [] e = refl
registry_of-update_same heap a c (x ∷ xs) e =
    ap₂ (λ f r. f ∷ r) (looks x) (registry_of-update_same heap a c xs e)
  where
    looks : (y : ℕ) → entry_of (update heap a c y) ≡ entry_of (heap y)
    looks y = elim (Bool-cases (a == y)) [
      | inl same ↦ rw same (e ∙ ap (λ z. entry_of (heap z)) ((==_iff a y).0 same))
      | inr other ↦ rw other refl
    ]

-- The ID of the client at an address is that of no other in the list.
abbrev pub Named : (ℕ → Client) → ℕ → List ℕ → Type 0
Named heap a xs = All (λ x. str_eq (heap x).id (heap a).id ≡ (a == x)) xs

-- A client is changed by its ID.
pub registry_of-update :
    (heap : ℕ → Client) (a : ℕ) (c : Client) (f : List PortTunnelInfo → List PortTunnelInfo)
    (xs : List ℕ)
    → Named heap a xs
    → entry_of c ≡ record { id = (heap a).id; tunnels = f (heap a).info.port_tunnels }
    → registry_of (update heap a c) xs ≡ change_id (heap a).id f (registry_of heap xs)
registry_of-update heap a c f [] named e = refl
registry_of-update heap a c f (x ∷ xs) named e =
    ap₂ (λ g r. g ∷ r) first (registry_of-update heap a c f xs named.1 e)
  where
    first : entry_of (update heap a c x) ≡ (
        if str_eq (heap x).id (heap a).id
        then record { id = (heap x).id; tunnels = f (heap x).info.port_tunnels }
        else entry_of (heap x))
    first = elim (Bool-cases (a == x)) [
      | inl same ↦ rw (named.0, same) (rw (← (==_iff a x).0 same) e)
      | inr other ↦ rw (named.0, other) refl
    ]

pub without_id-lacks :
    (id : GoString) (heap : ℕ → Client) (xs : List ℕ)
    → All (λ a. str_eq (heap a).id id ≡ false) xs
    → without_id id (registry_of heap xs) ≡ registry_of heap xs
without_id-lacks id heap [] h = refl
without_id-lacks id heap (x ∷ xs) h =
    rw h.0 (ap (λ r. entry_of (heap x) ∷ r) (without_id-lacks id heap xs h.1))

pub has_entry-lacks :
    (id : GoString) (heap : ℕ → Client) (xs : List ℕ)
    → All (λ a. str_eq (heap a).id id ≡ false) xs
    → has_entry id (registry_of heap xs) ≡ false
has_entry-lacks id heap [] h = refl
has_entry-lacks id heap (x ∷ xs) h = rw (h.0, has_entry-lacks id heap xs h.1) refl

pub has_entry-member :
    (heap : ℕ → Client) (a : ℕ) (xs : List ℕ)
    → has a xs ≡ true
    → has_entry (heap a).id (registry_of heap xs) ≡ true
has_entry-member heap a [] h = cc
has_entry-member heap a (x ∷ xs) h = elim (Bool-cases (x == a)) [
  | inl same ↦ rw ((==_iff x a).0 same, str_eq_refl (heap a).id) refl
  | inr other ↦ ground (arith, has_entry-member heap a xs)
]

-- The only entry with an ID goes.
pub without_id-one :
    (id : GoString) (heap : ℕ → Client) (pre : List ℕ) (c : ℕ) (post : List ℕ)
    → All (λ a. str_eq (heap a).id id ≡ false) pre
    → str_eq (heap c).id id ≡ true
    → All (λ a. str_eq (heap a).id id ≡ false) post
    → without_id id (registry_of heap (pre ++ (c ∷ post))) ≡ registry_of heap (pre ++ post)
without_id-one id heap [] c post before hit after = rw hit (without_id-lacks id heap post after)
without_id-one id heap (x ∷ pre) c post before hit after =
    rw before.0
      (ap (λ r. entry_of (heap x) ∷ r) (without_id-one id heap pre c post before.1 hit after))

find_tunnel-tunnelled :
    (port : ℕ) (ts : List PortTunnelInfo) → find_tunnel port ts ≡ none → tunnelled port ts ≡ false
unfolding find_tunnel
find_tunnel-tunnelled port [] e = refl
find_tunnel-tunnelled port (t ∷ ts) e = elim (Bool-cases (t.client_port == port)) [
  | inl hit ↦ cc (rw (hit, find_tunnel) at e)
  | inr miss ↦ rw miss (find_tunnel-tunnelled port ts (rw (miss, find_tunnel) at e))
]

-- A port that the client at an address has no tunnel to.
pub has_port-Named :
    (heap : ℕ → Client) (a port : ℕ) (xs : List ℕ)
    → Named heap a xs
    → find_tunnel port (heap a).info.port_tunnels ≡ none
    → has_port (heap a).id port (registry_of heap xs) ≡ false
has_port-Named heap a port [] named new = refl
has_port-Named heap a port (x ∷ xs) named new = elim (Bool-cases (a == x)) [
  | inl same ↦
      rw
        (
          named.0,
          same,
          ← (==_iff a x).0 same,
          find_tunnel-tunnelled port (heap a).info.port_tunnels new,
          has_port-Named heap a port xs named.1 new,
        )
        refl
  | inr other ↦ rw (named.0, other, has_port-Named heap a port xs named.1 new) refl
]
